-- ===== src/Info/Resource/Order.antt =====
-- LessOrEqual of node_info.go against the order of the amounts.
use ai_scheduler.Prelude.{ℕ, ◌≡◌, refl, ◌↔◌, true, [], ◌∷◌, String, str_eq_iff, str_eq_refl, arith}
use ai_scheduler.Prelude.Dict
use ai_scheduler.Prelude.Dict.{Dict}
use ai_scheduler.Prelude.Int64
use ai_scheduler.Info.Resource.{Resource, value_of, scalars_fit, less_or_equal}
use ai_scheduler.Info.Resource.Amount.{
  Dimension, cpu, memory, ephemeral_storage, pods, scalar, amount, IsResource, value_of-cons,
  value_of_absent,
}

scalars_fit_sound :
    (m other : Dict ℕ) (k : String)
    → scalars_fit m other ≡ true
    → Int64.le 0 (value_of k other) ≡ true
    → Int64.le (value_of k m) (value_of k other) ≡ true
unfolding scalars_fit value_of Dict.lookup
scalars_fit_sound [] other k h pos = pos
scalars_fit_sound ((j, v) ∷ m) other k h pos =
    ground
      (arith, str_eq_iff j k, Int64.le-not-lt v (value_of k other), scalars_fit_sound m other k)

scalars_fit_complete :
    (m other : Dict ℕ)
    → Dict.Distinct m
    → ((k : String) → Int64.le 0 (value_of k other) ≡ true)
    → ((k : String) → Int64.le (value_of k m) (value_of k other) ≡ true)
    → scalars_fit m other ≡ true
unfolding scalars_fit
scalars_fit_complete [] other d pos h = refl
scalars_fit_complete ((j, v) ∷ m) other d pos h =
    let rest : (k : String) → Int64.le (value_of k m) (value_of k other) ≡ true = λ k.
      ground (arith, h k, pos k, value_of-cons j k v m, str_eq_iff j k, value_of_absent j m d.0) in
    ground (
      arith,
      h j,
      value_of-cons j j v m,
      str_eq_refl j,
      Int64.le-not-lt v (value_of j other),
      scalars_fit_complete m other d.1 pos rest,
    )

-- Where no scalar of the second resource is negative, LessOrEqual answers true exactly when the
-- first is at most the second in every dimension, as signed amounts.
pub less_or_equal_iff :
    (r rr : Resource)
    → IsResource r
    → ((k : String) → Int64.le 0 (value_of k rr.scalar_resources) ≡ true)
    → (less_or_equal r rr ≡ true) ↔ ((d : Dimension) → Int64.le (amount d r) (amount d rr) ≡ true)
unfolding less_or_equal amount
less_or_equal_iff r rr v pos = (
  λ h. elim [
    | cpu ↦ ground arith
    | memory ↦ ground arith
    | ephemeral_storage ↦ ground arith
    | pods ↦ ground arith
    | scalar k ↦ scalars_fit_sound r.scalar_resources rr.scalar_resources k (ground arith) (pos k)
  ],
  λ h. ground (
    arith,
    h cpu,
    h memory,
    h ephemeral_storage,
    h pods,
    scalars_fit_complete r.scalar_resources rr.scalar_resources v.distinct pos (λ k. h (scalar k)),
  ),
)
