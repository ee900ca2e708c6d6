-- ===== src/Priorities/Taints/Filter.antt =====
-- Leaving out the tolerations of other effects changes no score of taint_toleration.go.
use ai_scheduler.Prelude.{
  ◌≡◌, refl, Bool, true, false, List, [], ◌∷◌, none, some, Option, arith, Bool-cases, Option-cases,
  inl, inr,
}
use ai_scheduler.Kube.{Toleration, Taint, TaintEffect}
use ai_scheduler.Info.NodeInfo.{NodeInfo}
use ai_scheduler.Priorities.Taints.{
  is_prefer_no_schedule, may_prefer, get_all_toleration_prefer_no_schedule,
  tolerations_tolerate_taint, count_intolerable_taints_prefer_no_schedule,
  compute_taint_toleration_priority_map,
}

-- ToleratesTaint is documented to compare a toleration's effect, where it has one, with the taint's.
abbrev pub MatchesEffect : (Toleration → Taint → Bool) → Type 0
MatchesEffect tolerates =
    (t : Toleration) (taint : Taint) (e : TaintEffect)
    → t.effect ≡ some e
    → tolerates t taint ≡ true
    → e ≡ taint.effect

tolerate-filter :
    (tolerates : Toleration → Taint → Bool)
    → MatchesEffect tolerates
    → (ts : List Toleration) (taint : Taint) → is_prefer_no_schedule taint.effect ≡ true
    → tolerations_tolerate_taint tolerates (get_all_toleration_prefer_no_schedule ts) taint
      ≡ tolerations_tolerate_taint tolerates ts taint
unfolding get_all_toleration_prefer_no_schedule tolerations_tolerate_taint may_prefer
tolerate-filter tolerates h [] taint p = refl
tolerate-filter tolerates h (t ∷ ts) taint p = elim (Bool-cases (may_prefer t.effect)) [
  | inl kept ↦ ground (arith, tolerate-filter tolerates h ts taint p)
  | inr dropped ↦ elim (Bool-cases (tolerates t taint)) [
    | inr n ↦ ground (arith, tolerate-filter tolerates h ts taint p)
    | inl y ↦ absurd (other t.effect refl dropped y)
  ]
]
  where
    other :
        (e : Option TaintEffect)
        → t.effect ≡ e
        → may_prefer e ≡ false
        → tolerates t taint ≡ true
        → ⊥
    other none e d y = absurd (ground arith)
    other (some x) e d y = let s = h t taint x e y in absurd (ground arith)

count-filter :
    (tolerates : Toleration → Taint → Bool)
    → MatchesEffect tolerates
    → (taints : List Taint) (ts : List Toleration)
    → count_intolerable_taints_prefer_no_schedule tolerates taints
        (get_all_toleration_prefer_no_schedule ts)
      ≡ count_intolerable_taints_prefer_no_schedule tolerates taints ts
unfolding count_intolerable_taints_prefer_no_schedule
count-filter tolerates h [] ts = refl
count-filter tolerates h (taint ∷ taints) ts =
    elim (Bool-cases (is_prefer_no_schedule taint.effect)) [
      | inl p ↦
          ground (arith, tolerate-filter tolerates h ts taint p, count-filter tolerates h taints ts)
      | inr p ↦ ground (arith, count-filter tolerates h taints ts)
    ]

-- The score of ComputeTaintTolerationPriorityMap is the same without metadata and with metadata that
-- holds all the tolerations of the pod or only those of getAllTolerationPreferNoSchedule, provided
-- that a toleration with an effect tolerates taints of that effect only.
pub compute_taint_toleration_priority_map_lem :
    (tolerates : Toleration → Taint → Bool)
    → MatchesEffect tolerates
    → (ts : List Toleration) (n : NodeInfo)
    → (compute_taint_toleration_priority_map tolerates ts none n
        ≡ compute_taint_toleration_priority_map tolerates ts (some ts) n)
      × (compute_taint_toleration_priority_map tolerates ts none n
          ≡ compute_taint_toleration_priority_map tolerates ts
              (some (get_all_toleration_prefer_no_schedule ts))
              n)
unfolding compute_taint_toleration_priority_map
compute_taint_toleration_priority_map_lem tolerates h ts n = elim (Option-cases n.node) [
  | inl e ↦ (rw (e) refl, rw (e) refl)
  | inr (node, e) ↦ (rw (e, count-filter tolerates h node.taints ts) refl, rw (e) refl)
]
