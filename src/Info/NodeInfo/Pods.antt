-- ===== src/Info/NodeInfo/Pods.antt =====
-- The list of pods that RemovePod of node_info.go deletes from, as a multiset of amounts.
use ai_scheduler.Prelude.{
  ℕ, ◌≡◌, refl, sym, true, List, [], ◌∷◌, ◌++◌, none, some, Option, String, str_eq_refl,
  if◌then◌else◌, arith, Bool-cases, inl, inr, Option-cases,
}
use ai_scheduler.Prelude.Int64
use ai_scheduler.Prelude.Int64.{InRange}
use ai_scheduler.Kube.{Pod}
use ai_scheduler.Info.NodeInfo.{get_pod_key, has_key, last_to_front, delete_key}

-- The sum of an amount over the pods of a list, as an int64.
unfoldable pub tally : (Pod → ℕ) → List Pod → ℕ
tally f [] = 0
tally f (p ∷ ps) = Int64.add (f p) (tally f ps)

-- The stored pod that a deletion by key takes out.
unfoldable pub find_key : String → List Pod → Option Pod
find_key k [] = none
find_key k (p ∷ ps) = if has_key k p then some p else find_key k ps

pub tally-InRange : (f : Pod → ℕ) (ps : List Pod) → InRange (tally f ps)
unfolding tally
tally-InRange f [] = omega arith
tally-InRange f (p ∷ ps) = Int64.add-InRange _ _

last_to_front-ne_nil :
    (p : Pod) (ps : List Pod)
    → (l : Pod) × (front : List Pod) × (last_to_front (p ∷ ps) ≡ l ∷ front)
unfolding last_to_front
last_to_front-ne_nil p [] = (p, [], refl)
last_to_front-ne_nil p (q ∷ ps) =
    let (l, front, e) = last_to_front-ne_nil q ps in (l, p ∷ front, ground arith)

add_left_comm : (a b c : ℕ) → Int64.add a (Int64.add b c) ≡ Int64.add b (Int64.add a c)
unfolding Int64.add
add_left_comm a b c = omega arith

tally-last_to_front : (f : Pod → ℕ) (ps : List Pod) → tally f (last_to_front ps) ≡ tally f ps
unfolding tally last_to_front
tally-last_to_front f [] = refl
tally-last_to_front f (p ∷ []) = refl
tally-last_to_front f (p ∷ q ∷ ps) =
    let (l, front, e) = last_to_front-ne_nil q ps in
    ground (arith, e, tally-last_to_front f (q ∷ ps), add_left_comm (f l) (f p) (tally f front))

-- A deletion takes one pod with the key out of the sum, and leaves the others in.
pub tally-delete_key :
    (f : Pod → ℕ) (k : String) (ps left : List Pod) (p : Pod)
    → find_key k ps ≡ some p
    → delete_key k ps ≡ some left
    → tally f ps ≡ Int64.add (f p) (tally f left)
unfolding tally find_key delete_key
tally-delete_key f k [] left p h e = cc
tally-delete_key f k (q ∷ ps) left p h e = elim (Bool-cases (has_key k q)) [
  | inl hit ↦ ground (arith, tally-last_to_front f ps)
  | inr miss ↦ elim (Option-cases (delete_key k ps)) [
    | inl gone ↦ absurd (ground arith)
    | inr (rest, d) ↦
        ground (arith, tally-delete_key f k ps rest p, add_left_comm (f p) (f q) (tally f rest))
  ]
]

-- A deletion that succeeds has found a pod with the key.
pub delete_key-found :
    (k : String) (ps left : List Pod)
    → delete_key k ps ≡ some left
    → (p : Pod) × (find_key k ps ≡ some p)
unfolding find_key delete_key
delete_key-found k [] left e = cc
delete_key-found k (q ∷ ps) left e = elim (Bool-cases (has_key k q)) [
  | inl hit ↦ (q, ground arith)
  | inr miss ↦ elim (Option-cases (delete_key k ps)) [
    | inl gone ↦ absurd (ground arith)
    | inr (rest, d) ↦ let (p, found) = delete_key-found k ps rest d in (p, ground arith)
  ]
]

pub tally-append :
    (f : Pod → ℕ) (ps qs : List Pod) → tally f (ps ++ qs) ≡ Int64.add (tally f ps) (tally f qs)
unfolding tally
tally-append f [] qs =
    rw (Int64.add_comm 0 (tally f qs)) (sym (Int64.add_zero _ (tally-InRange f qs)))
tally-append f (p ∷ ps) qs =
    rw (tally-append f ps qs) (sym (Int64.add_assoc (f p) (tally f ps) (tally f qs)))

-- With no pod of the key before it, the pod that was appended last is the one deleted.
pub delete_key-append :
    (k : String) (ps : List Pod) (p : Pod)
    → find_key k ps ≡ none
    → has_key k p ≡ true
    → delete_key k (ps ++ p ∷ []) ≡ some ps
unfolding find_key delete_key last_to_front
delete_key-append k [] p h e = ground arith
delete_key-append k (q ∷ ps) p h e = ground (arith, delete_key-append k ps p)

pub has_key-get_pod_key : (pod : Pod) (k : String) → get_pod_key pod ≡ some k → has_key k pod ≡ true
unfolding has_key
has_key-get_pod_key pod k e = ground (arith, str_eq_refl k)

pub delete_key-none : (k : String) (ps : List Pod) → find_key k ps ≡ none → delete_key k ps ≡ none
unfolding find_key delete_key
delete_key-none k [] h = refl
delete_key-none k (q ∷ ps) h = ground (arith, delete_key-none k ps)
