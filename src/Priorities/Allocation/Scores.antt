-- ===== src/Priorities/Allocation/Scores.antt =====
-- The range and the order of the least and most requested scores.
use ai_scheduler.Prelude.{
  ℕ, ◌+◌, ◌-◌, ◌*◌, ◌/◌, ◌≤◌, ◌<◌, ◌≡◌, ◌≢◌, ◌==◌, arith, ltb, Bool-cases, inl, inr,
}
use native.Mathlib.Nat.{
  lt_of_mul-lt-mul_right, le_of_mul-le-mul_right, div-mul-le_self, lt-div-mul-add,
  le-div_iff_mul-le, le_trans,
}
use ai_scheduler.Prelude.Int64
use ai_scheduler.Prelude.Int64.{IsNonneg}
use ai_scheduler.Info.Resource.{Resource}
use ai_scheduler.Priorities.Allocation.{
  max_priority, least_requested_score, most_requested_score, least_resource_scorer,
  most_resource_scorer,
}

least_requested_score_value :
    (requested capacity : ℕ)
    → IsNonneg (capacity * max_priority)
    → requested ≤ capacity
    → capacity ≢ 0
    → least_requested_score requested capacity ≡ (capacity - requested) * max_priority / capacity
unfolding least_requested_score
least_requested_score_value requested capacity h le pos = ground (
  arith,
  Int64.lt-nonneg capacity requested,
  Int64.sub-nonneg capacity requested,
  Int64.mul-nonneg (capacity - requested) max_priority,
  Int64.quot-nonneg ((capacity - requested) * max_priority) capacity,
)

most_requested_score_value :
    (requested capacity : ℕ)
    → IsNonneg (capacity * max_priority)
    → requested ≤ capacity
    → capacity ≢ 0
    → most_requested_score requested capacity ≡ requested * max_priority / capacity
unfolding most_requested_score
most_requested_score_value requested capacity h le pos = ground (
  arith,
  Int64.lt-nonneg capacity requested,
  Int64.mul-nonneg requested max_priority,
  Int64.quot-nonneg (requested * max_priority) capacity,
)

div-le-div : (a b c : ℕ) → a ≤ b → 0 < c → a / c ≤ b / c
div-le-div a b c h pos = (le-div_iff_mul-le pos).1 (le_trans (div-mul-le_self a c) h)

complement_bounds :
    (x y c a b : ℕ)
    → 0 < c
    → x * c ≤ a
    → a < x * c + c
    → y * c ≤ b
    → b < y * c + c
    → a + b ≡ 10 * c
    → (9 ≤ x + y) × (x + y ≤ 10)
complement_bounds x y c a b pos xl xu yl yu e =
    let low : 10 * c < (x + y + 2) * c = omega arith in
    let high : (x + y) * c ≤ 10 * c = omega arith in
    let low' : 10 < x + y + 2 = lt_of_mul-lt-mul_right c low in
    (omega arith, le_of_mul-le-mul_right high pos)

-- The two scores are almost each other's complement: where the request fits a capacity that is not
-- zero, and ten times the capacity does not overflow, they add up to 9 or 10.
pub scores_complement :
    (requested capacity : ℕ)
    → IsNonneg (capacity * max_priority)
    → requested ≤ capacity
    → capacity ≢ 0
    → let sum =
        least_requested_score requested capacity + most_requested_score requested capacity in
      (9 ≤ sum) × (sum ≤ 10)
scores_complement requested capacity h le pos =
    let free = (capacity - requested) * max_priority in
    let taken = requested * max_priority in
    let pos' : 0 < capacity = omega arith in
    rw
      (
        least_requested_score_value requested capacity h le pos,
        most_requested_score_value requested capacity h le pos,
      )
      (complement_bounds (free / capacity) (taken / capacity) capacity free taken pos'
        (div-mul-le_self free capacity) (lt-div-mul-add pos') (div-mul-le_self taken capacity)
        (lt-div-mul-add pos') (omega arith))

-- Both scores stay within 0 to 10 for requests and capacities that are not negative, also where
-- the capacity is zero or the request exceeds it, unless ten times the capacity overflows.
pub scores-le-max_priority :
    (requested capacity : ℕ)
    → IsNonneg requested
    → IsNonneg (capacity * max_priority)
    → (least_requested_score requested capacity ≤ max_priority)
      × (most_requested_score requested capacity ≤ max_priority)
unfolding least_requested_score most_requested_score
scores-le-max_priority requested capacity w h = elim (Bool-cases (capacity == 0)) [
  | inl empty ↦ ground arith
  | inr sized ↦ elim (Bool-cases (ltb capacity requested)) [
    | inl over ↦ ground (arith, Int64.lt-nonneg capacity requested)
    | inr fits ↦
        let b = scores_complement requested capacity h (ground arith) (ground arith) in
        (omega (arith, b.1), omega (arith, b.1))
  ]
]

-- A node with more requested on it scores no higher by the least requested score, for requests
-- that are not negative and a capacity ten times which does not overflow.
pub least_requested_score_antitone :
    (r s capacity : ℕ)
    → r ≤ s
    → IsNonneg s
    → IsNonneg (capacity * max_priority)
    → least_requested_score s capacity ≤ least_requested_score r capacity
least_requested_score_antitone r s capacity le w h = elim (Bool-cases (capacity == 0)) [
  | inl empty ↦ unfold least_requested_score in ground arith
  | inr sized ↦ elim (Bool-cases (ltb capacity s)) [
    | inl over ↦ unfold least_requested_score in ground (arith, Int64.lt-nonneg capacity s)
    | inr fits ↦
        let pos : capacity ≢ 0 = ground arith in
        let fit : s ≤ capacity = ground arith in
        rw
          (
            least_requested_score_value s capacity h fit pos,
            least_requested_score_value r capacity h (omega arith) pos,
          )
          (div-le-div _ _ capacity (omega arith) (omega arith))
  ]
]

halved : (a b : ℕ) → a ≤ 10 → b ≤ 10 → Int64.quot (Int64.add a b) 2 ≤ max_priority
halved a b h k = ground (arith, Int64.add-nonneg a b, Int64.quot-nonneg (a + b) 2)

-- The two scorers give 0 to 10, for requests and capacities that are not negative, where ten
-- times the capacity does not overflow.
pub scorers-le-max_priority :
    (requested allocable : Resource)
    → IsNonneg requested.milli_cpu
    → IsNonneg requested.memory
    → IsNonneg (allocable.milli_cpu * max_priority)
    → IsNonneg (allocable.memory * max_priority)
    → (least_resource_scorer requested allocable ≤ max_priority)
      × (most_resource_scorer requested allocable ≤ max_priority)
unfolding least_resource_scorer most_resource_scorer
scorers-le-max_priority requested allocable wc wm hc hm =
    let c = scores-le-max_priority requested.milli_cpu allocable.milli_cpu wc hc in
    let m = scores-le-max_priority requested.memory allocable.memory wm hm in
    (halved _ _ c.0 m.0, halved _ _ c.1 m.1)
