-- ===== src/Priorities/Reduce/Range.antt =====
-- What NormalizeReduce of reduce.go does to a list of scores that are not negative.
use ai_scheduler.Prelude.{
  ℕ, zero, suc, String, ◌-◌, ◌*◌, ◌/◌, ◌≤◌, ◌<◌, ◌≡◌, ◌≢◌, refl, ap, Bool, true, false, List, [],
  ◌∷◌, if◌then◌else◌, ◌==◌, arith, map, Bool-cases, inl, inr, All,
}
use native.Mathlib.Nat.{
  div-mul-le_self, le-div_iff_mul-le, le_trans, div-le_of_le-mul, mul-le-mul_left, mul_comm,
  mul-div_left,
}
use ai_scheduler.Prelude.Int64
use ai_scheduler.Prelude.Int64.{IsNonneg}
use ai_scheduler.Priorities.Allocation.{HostPriority}
use ai_scheduler.Priorities.Reduce.{max_count, set_all, scaled, scale_all, normalize_reduce}

abbrev pub Nonneg : List HostPriority → Type 0
Nonneg = All (λ r. IsNonneg r.score)

-- Every score of the list is at most `m`.
abbrev pub Below : ℕ → List HostPriority → Type 0
Below m = All (λ r. r.score ≤ m)

max_count_ge : (m : ℕ) (rs : List HostPriority) → IsNonneg m → Nonneg rs → m ≤ max_count m rs
unfolding max_count
max_count_ge m [] w n = omega arith
max_count_ge m (r ∷ rs) w n = ground (
  arith,
  Int64.lt-nonneg m r.score w n.0,
  max_count_ge m rs w n.1,
  max_count_ge r.score rs n.0 n.1,
)

max_count-Below :
    (m : ℕ) (rs : List HostPriority) → IsNonneg m → Nonneg rs → Below (max_count m rs) rs
unfolding max_count
max_count-Below m [] w n = tt
max_count-Below m (r ∷ rs) w n =
    let larger = if Int64.lt m r.score then r.score else m in
    let fits : IsNonneg larger = ground (arith, n.0) in
    let above : r.score ≤ larger = ground (arith, Int64.lt-nonneg m r.score w n.0) in
    (le_trans above (max_count_ge larger rs fits n.1), max_count-Below larger rs fits n.1)

max_count-IsNonneg :
    (m : ℕ) (rs : List HostPriority) → IsNonneg m → Nonneg rs → IsNonneg (max_count m rs)
unfolding max_count
max_count-IsNonneg m [] w n = w
max_count-IsNonneg m (r ∷ rs) w n =
    ground (arith, max_count-IsNonneg m rs w n.1, max_count-IsNonneg r.score rs n.0 n.1)

div_le_max : (p s m : ℕ) → s ≤ m → m ≢ 0 → p * s / m ≤ p
div_le_max p s m h pos = div-le_of_le-mul m (rw (mul_comm m p) (mul-le-mul_left p h))

le_mul_self : (m p : ℕ) → m ≢ 0 → p ≤ m * p
le_mul_self zero p h = absurd (h refl)
le_mul_self (suc m) p h = grind arith

div-le-div : (a b c : ℕ) → a ≤ b → 0 < c → a / c ≤ b / c
div-le-div a b c h pos = (le-div_iff_mul-le pos).1 (le_trans (div-mul-le_self a c) h)

scaled_value :
    (p m s : ℕ) (reverse : Bool)
    → s ≤ m
    → m ≢ 0
    → IsNonneg m
    → IsNonneg (p * m)
    → scaled p reverse m s ≡ (if reverse then p - p * s / m else p * s / m)
unfolding scaled
scaled_value p m s reverse h pos w big =
    let small : p * s ≤ p * m = mul-le-mul_left p h in
    let top = div_le_max p s m h pos in
    let p_small : p ≤ p * m = rw (mul_comm p m) (le_mul_self m p pos) in
    ground
      (arith, Int64.mul-nonneg p s, Int64.quot-nonneg (p * s) m, Int64.sub-nonneg p (p * s / m))

-- The scores that a list is given, one for each entry, and the hosts unchanged.
abbrev pub scores : List HostPriority → List ℕ
scores = map (λ r. r.score)

abbrev pub hosts : List HostPriority → List String
hosts = map (λ r. r.host)

hosts-scale_all :
    (p m : ℕ) (reverse : Bool) (rs : List HostPriority)
    → hosts (scale_all p reverse m rs) ≡ hosts rs
unfolding scale_all
hosts-scale_all p m reverse [] = refl
hosts-scale_all p m reverse (r ∷ rs) = ap (◌∷◌ r.host) (hosts-scale_all p m reverse rs)

scale_all-Below :
    (p m : ℕ) (reverse : Bool) (rs : List HostPriority)
    → Below m rs
    → m ≢ 0
    → IsNonneg m
    → IsNonneg (p * m)
    → Below p (scale_all p reverse m rs)
unfolding scale_all
scale_all-Below p m reverse [] b pos w big = tt
scale_all-Below p m reverse (r ∷ rs) b pos w big = (
  ground (arith, scaled_value p m r.score reverse b.0 pos w big, div_le_max p r.score m b.0 pos),
  scale_all-Below p m reverse rs b.1 pos w big,
)

set_all-Below : (p : ℕ) (rs : List HostPriority) → Below p (set_all p rs)
unfolding set_all
set_all-Below p [] = tt
set_all-Below p (r ∷ rs) = (omega arith, set_all-Below p rs)

Below-mono : (m n : ℕ) (rs : List HostPriority) → m ≤ n → Below m rs → Below n rs
Below-mono m n [] h b = tt
Below-mono m n (r ∷ rs) h b = (omega arith, Below-mono m n rs h b.1)

-- Whatever the scores, NormalizeReduce leaves them between 0 and the maximum priority, reversed or
-- not, provided that none is negative and the maximum priority times the largest does not overflow.
pub normalize_reduce-Below :
    (p : ℕ) (reverse : Bool) (rs : List HostPriority)
    → Nonneg rs
    → IsNonneg (p * max_count 0 rs)
    → Below p (normalize_reduce p reverse rs)
unfolding normalize_reduce
normalize_reduce-Below p reverse rs n big =
    let bound = max_count-Below 0 rs (omega arith) n in
    elim (Bool-cases (max_count 0 rs == 0)) [
      | inl flat ↦ elim (Bool-cases reverse) [
        | inl back ↦ rw (flat, back) (set_all-Below p rs)
        | inr forth ↦ rw (flat, forth) (Below-mono (max_count 0 rs) p rs (ground arith) bound)
      ]
      | inr peak ↦ rw peak (
          scale_all-Below p (max_count 0 rs) reverse rs bound (ground arith)
            (max_count-IsNonneg 0 rs (omega arith) n) big)
    ]

-- Scaling keeps the order of two scores, and reverses it where it is asked to, for scores up to
-- a maximum that is positive and whose product with the maximum priority does not overflow.
pub scaled_mono :
    (p m s t : ℕ)
    → s ≤ t
    → t ≤ m
    → m ≢ 0
    → IsNonneg m
    → IsNonneg (p * m)
    → (scaled p false m s ≤ scaled p false m t) × (scaled p true m t ≤ scaled p true m s)
scaled_mono p m s t h k pos w big =
    let order = div-le-div (p * s) (p * t) m (mul-le-mul_left p h) (omega arith) in
    rw
      (
        scaled_value p m s false (omega arith) pos w big,
        scaled_value p m t false k pos w big,
        scaled_value p m s true (omega arith) pos w big,
        scaled_value p m t true k pos w big,
      )
      (order, omega arith)

-- The largest score, where it is positive and its product with the maximum priority does not
-- overflow, becomes the maximum priority, and zero under reversal.
pub scaled_top :
    (p m : ℕ)
    → m ≢ 0
    → IsNonneg m
    → IsNonneg (p * m)
    → (scaled p false m m ≡ p) × (scaled p true m m ≡ 0)
scaled_top p m pos w big =
    let full : p * m / m ≡ p = mul-div_left p (omega arith) in
    rw
      (
        scaled_value p m m false (omega arith) pos w big,
        scaled_value p m m true (omega arith) pos w big,
        full,
      )
      (refl, omega arith)
