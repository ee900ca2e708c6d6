-- ===== src/Prelude/Dict.antt =====
-- A Go map with text keys, as an association list. A nil map and an empty one are both `[]`.
-- A range over the map visits the entries in the order of the list.
use Prim.Native.String.{String}
use mathlib.Core.Path.{◌≡◌, refl}
use mathlib.Core.Bool.{Bool, true, false, not, ◌&&◌, ◌||◌}
use mathlib.Core.List.{List, [], ◌∷◌, map}
use mathlib.Core.Option.{Option, none, some}
use native.Mathlib.Omega.{arith}
use ai_scheduler.Prelude.Tests.{str_eq, str_eq_iff, str_eq_refl, if◌then◌else◌}

abbrev pub Dict {ℓ} : Type ℓ → Type ℓ
Dict V = List (String × V)

module _ {ℓ} {V : Type ℓ} where
  unfoldable pub lookup : String → Dict V → Option V
  lookup k [] = none
  lookup k ((j, v) ∷ m) = if str_eq j k then some v else lookup k m

  unfoldable pub insert : String → V → Dict V → Dict V
  insert k v [] = (k, v) ∷ []
  insert k v ((j, w) ∷ m) = if str_eq j k then (k, v) ∷ m else (j, w) ∷ insert k v m

  unfoldable pub remove : String → Dict V → Dict V
  remove k [] = []
  remove k ((j, w) ∷ m) = let rest = remove k m in if str_eq j k then rest else (j, w) ∷ rest

  abbrev pub keys : Dict V → List String
  keys = map (λ e. e.0)

  abbrev pub values : Dict V → List V
  values = map (λ e. e.1)

  pub lookup-insert :
      (k j : String) (v : V) (m : Dict V)
      → lookup j (insert k v m) ≡ (if str_eq k j then some v else lookup j m)
  unfolding lookup insert
  lookup-insert k j v [] = refl
  lookup-insert k j v ((i, w) ∷ m) =
      ground (arith, str_eq_iff k j, str_eq_iff i k, str_eq_iff i j, lookup-insert k j v m)

  pub lookup-insert_self : (k : String) (v : V) (m : Dict V) → lookup k (insert k v m) ≡ some v
  lookup-insert_self k v m = simp (lookup-insert, str_eq_refl)

  pub lookup-remove :
      (k j : String) (m : Dict V)
      → lookup j (remove k m) ≡ (if str_eq k j then none else lookup j m)
  unfolding lookup remove
  lookup-remove k j [] = ground arith
  lookup-remove k j ((i, w) ∷ m) =
      ground (arith, str_eq_iff k j, str_eq_iff i k, str_eq_iff i j, lookup-remove k j m)

  pub lookup-remove_self : (k : String) (m : Dict V) → lookup k (remove k m) ≡ none
  lookup-remove_self k m = simp (lookup-remove, str_eq_refl)

  -- No key twice, as in every Go map.
  abbrev pub Distinct : Dict V → Type ℓ
  Distinct [] = Unit
  Distinct ((k, v) ∷ m) = (lookup k m ≡ none) × Distinct m

  pub insert-Distinct : (k : String) (v : V) (m : Dict V) → Distinct m → Distinct (insert k v m)
  unfolding insert lookup
  insert-Distinct k v [] d = (refl, tt)
  insert-Distinct k v ((j, w) ∷ m) d =
      ground
        (arith, str_eq_iff j k, str_eq_iff k j, lookup-insert k j v m, insert-Distinct k v m d.1)

  pub remove-Distinct : (k : String) (m : Dict V) → Distinct m → Distinct (remove k m)
  unfolding remove lookup
  remove-Distinct k [] d = tt
  remove-Distinct k ((j, w) ∷ m) d = ground (arith, lookup-remove k j m, remove-Distinct k m d.1)

  unfoldable pub has : String → Dict V → Bool
  has k m = elim (lookup k m) [ none ↦ false | some v ↦ true ]

  pub has-insert :
      (k j : String) (v : V) (m : Dict V) → has j (insert k v m) ≡ (str_eq k j || has j m)
  unfolding has
  has-insert k j v m = ground (arith, lookup-insert k j v m)

  pub has-remove : (k j : String) (m : Dict V) → has j (remove k m) ≡ (not (str_eq k j) && has j m)
  unfolding has
  has-remove k j m = ground (arith, lookup-remove k j m)

  pub has-lookup : (k : String) (v : V) (m : Dict V) → lookup k m ≡ some v → has k m ≡ true
  unfolding has
  has-lookup k v m e = ground arith

  pub has-none : (k : String) (m : Dict V) → lookup k m ≡ none → has k m ≡ false
  unfolding has
  has-none k m e = ground arith

  pub has-true : (k : String) (m : Dict V) → has k m ≡ true → (v : V) × (lookup k m ≡ some v)
  unfolding has
  has-true k m e = ground arith
