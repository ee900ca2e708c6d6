-- ===== src/Info/Resource/Amount.antt =====
-- A resource seen as an amount in each dimension, and what Add, AddScalar, Plus, Sub and
-- SetMaxResource of node_info.go do to each amount.
use ai_scheduler.Prelude.{
  ℕ, ◌≡◌, refl, sym, [], ◌∷◌, none, String, str_eq, if◌then◌else◌, arith, str_eq_iff,
}
use ai_scheduler.Prelude.Dict
use ai_scheduler.Prelude.Dict.{Dict}
use ai_scheduler.Prelude.Int64
use ai_scheduler.Prelude.Int64.{InRange}
use ai_scheduler.Info.Resource.{
  Resource, value_of, plus_scalars, sub_scalars, plus, sub, empty_resource,
}

pub data Dimension : Type 0 where
  cpu memory ephemeral_storage pods : Dimension
  scalar : String → Dimension

unfoldable pub amount : Dimension → Resource → ℕ
amount cpu r = r.milli_cpu
amount memory r = r.memory
amount ephemeral_storage r = r.ephemeral_storage
amount pods r = r.allowed_pod_number
amount (scalar name) r = value_of name r.scalar_resources

-- What a Go value of this type satisfies: int64 words, and no scalar twice.
pub record IsResource (r : Resource) : Type 0 where
  pub words : (d : Dimension) → InRange (amount d r)
  pub distinct : Dict.Distinct r.scalar_resources

-- Equal in every dimension.
abbrev pub Same : Resource → Resource → Type 0
Same r s = (d : Dimension) → amount d r ≡ amount d s

pub value_of-insert :
    (k j : String) (v : ℕ) (m : Dict ℕ)
    → value_of j (Dict.insert k v m) ≡ (if str_eq k j then v else value_of j m)
unfolding value_of
value_of-insert k j v m = ground (arith, Dict.lookup-insert k j v m)

pub value_of-cons :
    (k j : String) (v : ℕ) (m : Dict ℕ)
    → value_of j ((k, v) ∷ m) ≡ (if str_eq k j then v else value_of j m)
unfolding value_of Dict.lookup
value_of-cons k j v m = ground arith

pub value_of-nil : (k : String) → value_of k [] ≡ 0
unfolding value_of Dict.lookup
value_of-nil k = refl

pub value_of_absent : (k : String) (m : Dict ℕ) → Dict.lookup k m ≡ none → value_of k m ≡ 0
unfolding value_of
value_of_absent k m e = ground arith

insert-InRange :
    (k j : String) (v : ℕ) (m : Dict ℕ)
    → InRange v
    → InRange (value_of k m)
    → InRange (value_of k (Dict.insert j v m))
insert-InRange k j v m h w = ground (arith, value_of-insert j k v m)

pub value_of-plus_scalars :
    (k : String) (m other : Dict ℕ)
    → InRange (value_of k m)
    → Dict.Distinct other
    → value_of k (plus_scalars m other) ≡ Int64.add (value_of k m) (value_of k other)
unfolding plus_scalars
value_of-plus_scalars k m [] w d = rw (value_of-nil k) (sym (Int64.add_zero _ w))
value_of-plus_scalars k m ((j, v) ∷ other) w d =
    let total = Int64.add (value_of j m) v in
    ground (
      arith,
      value_of-plus_scalars k (Dict.insert j total m) other
          (insert-InRange k j total m (Int64.add-InRange _ _) w) d.1,
      value_of-insert j k total m,
      value_of-cons j k v other,
      str_eq_iff j k,
      value_of_absent j other d.0,
      Int64.add_zero total (Int64.add-InRange _ _),
    )

pub value_of-sub_scalars :
    (k : String) (m other : Dict ℕ)
    → InRange (value_of k m)
    → Dict.Distinct other
    → value_of k (sub_scalars m other) ≡ Int64.sub (value_of k m) (value_of k other)
unfolding sub_scalars
value_of-sub_scalars k m [] w d = rw (value_of-nil k) (sym (Int64.sub_zero _ w))
value_of-sub_scalars k m ((j, v) ∷ other) w d =
    let total = Int64.sub (value_of j m) v in
    ground (
      arith,
      value_of-sub_scalars k (Dict.insert j total m) other
          (insert-InRange k j total m (Int64.sub-InRange _ _) w) d.1,
      value_of-insert j k total m,
      value_of-cons j k v other,
      str_eq_iff j k,
      value_of_absent j other d.0,
      Int64.sub_zero total (Int64.sub-InRange _ _),
    )

-- Plus adds in every dimension.
pub amount-plus :
    (d : Dimension) (r rr : Resource)
    → IsResource r
    → IsResource rr
    → amount d (plus r rr) ≡ Int64.add (amount d r) (amount d rr)
unfolding amount plus
amount-plus cpu r rr v w = refl
amount-plus memory r rr v w = refl
amount-plus ephemeral_storage r rr v w = refl
amount-plus pods r rr v w = refl
amount-plus (scalar k) r rr v w =
    value_of-plus_scalars k r.scalar_resources rr.scalar_resources (v.words (scalar k)) w.distinct

-- Sub subtracts in every dimension.
pub amount-sub :
    (d : Dimension) (r rr : Resource)
    → IsResource r
    → IsResource rr
    → amount d (sub r rr) ≡ Int64.sub (amount d r) (amount d rr)
unfolding amount sub
amount-sub cpu r rr v w = refl
amount-sub memory r rr v w = refl
amount-sub ephemeral_storage r rr v w = refl
amount-sub pods r rr v w = refl
amount-sub (scalar k) r rr v w =
    value_of-sub_scalars k r.scalar_resources rr.scalar_resources (v.words (scalar k)) w.distinct

plus_scalars-Distinct : (m other : Dict ℕ) → Dict.Distinct m → Dict.Distinct (plus_scalars m other)
unfolding plus_scalars
plus_scalars-Distinct m [] d = d
plus_scalars-Distinct m ((j, v) ∷ other) d =
    plus_scalars-Distinct (Dict.insert j (Int64.add (value_of j m) v) m) other
      (Dict.insert-Distinct j _ m d)

sub_scalars-Distinct : (m other : Dict ℕ) → Dict.Distinct m → Dict.Distinct (sub_scalars m other)
unfolding sub_scalars
sub_scalars-Distinct m [] d = d
sub_scalars-Distinct m ((j, v) ∷ other) d =
    sub_scalars-Distinct (Dict.insert j (Int64.sub (value_of j m) v) m) other
      (Dict.insert-Distinct j _ m d)

pub plus-IsResource : (r rr : Resource) → IsResource r → IsResource rr → IsResource (plus r rr)
unfolding plus
plus-IsResource r rr v w = record {
  words = λ d. rw (amount-plus d r rr v w) (Int64.add-InRange _ _);
  distinct = plus_scalars-Distinct r.scalar_resources rr.scalar_resources v.distinct;
}

pub sub-IsResource : (r rr : Resource) → IsResource r → IsResource rr → IsResource (sub r rr)
unfolding sub
sub-IsResource r rr v w = record {
  words = λ d. rw (amount-sub d r rr v w) (Int64.sub-InRange _ _);
  distinct = sub_scalars-Distinct r.scalar_resources rr.scalar_resources v.distinct;
}

pub empty_resource-IsResource : IsResource empty_resource
unfolding amount value_of Dict.lookup
empty_resource-IsResource = record {
  words = elim [
    | cpu ↦ omega arith
    | memory ↦ omega arith
    | ephemeral_storage ↦ omega arith
    | pods ↦ omega arith
    | scalar k ↦ omega arith
  ];
  distinct = tt;
}

pub amount-empty_resource : (d : Dimension) → amount d empty_resource ≡ 0
unfolding amount value_of Dict.lookup
amount-empty_resource cpu = refl
amount-empty_resource memory = refl
amount-empty_resource ephemeral_storage = refl
amount-empty_resource pods = refl
amount-empty_resource (scalar k) = refl
