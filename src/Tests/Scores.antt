-- ===== src/Tests/Scores.antt =====
-- The theorems on scores at concrete nodes.
use ai_scheduler.Prelude.{
  ◌+◌, ◌≡◌, ◌≤◌, refl, Bool, true, List, [], ◌∷◌, none, some, arith, ◌⊎◌, ◌↔◌, ◌&&◌,
}
use ai_scheduler.Info.NodeInfo.{NodeInfo, new_node_info}
use ai_scheduler.Info.Resource.{Resource, empty_resource}
use ai_scheduler.Kube.{Toleration, Taint, TaintEffect, prefer_no_schedule}
use ai_scheduler.Priorities.Allocation.{
  HostPriority, least_requested_score, most_requested_score, least_resource_scorer,
  most_resource_scorer, max_priority,
}
use ai_scheduler.Priorities.Allocation.Scores.{scores_complement, scorers-le-max_priority}
use ai_scheduler.Priorities.Reduce.{normalize_reduce, max_count}
use ai_scheduler.Priorities.Reduce.Range.{Below, normalize_reduce-Below}
use ai_scheduler.Priorities.Limits.{get_resource_limits, resource_limits_priority_map}
use ai_scheduler.Priorities.Limits.Tie.{Fits, resource_limits_priority_map_iff}
use ai_scheduler.Priorities.Taints.{
  is_prefer_no_schedule, get_all_toleration_prefer_no_schedule,
  compute_taint_toleration_priority_map,
}
use ai_scheduler.Priorities.Taints.Filter.{MatchesEffect, compute_taint_toleration_priority_map_lem}
use ai_scheduler.Tests.{kube, web, north}

scores_complement_example :
    (9 ≤ least_requested_score 1500 4000 + most_requested_score 1500 4000)
    × (least_requested_score 1500 4000 + most_requested_score 1500 4000 ≤ 10)
scores_complement_example =
    scores_complement 1500 4000 (omega arith) (omega arith) (λ e. absurd (ground arith))

abbrev small : Resource
small = record empty_resource { milli_cpu = 1000; memory = 512 }

abbrev large : Resource
large = record empty_resource { milli_cpu = 4000; memory = 2048 }

scorers-le-max_priority_example :
    (least_resource_scorer small large ≤ max_priority)
    × (most_resource_scorer small large ≤ max_priority)
scorers-le-max_priority_example =
    scorers-le-max_priority small large (omega arith) (omega arith) (omega arith) (omega arith)

abbrev raw_scores : List HostPriority
raw_scores = record { host = "n1"; score = 3 } ∷ record { host = "n2"; score = 7 } ∷ []

normalize_reduce-Below_example : Below 10 (normalize_reduce 10 true raw_scores)
unfolding max_count
normalize_reduce-Below_example =
    normalize_reduce-Below 10 true raw_scores (omega arith, (omega arith, tt)) (ground arith)

abbrev on_north : NodeInfo
on_north = record (new_node_info 1) { node = some north; allocatable_resource = large }

resource_limits_priority_map_iff_example :
    (resource_limits_priority_map kube web on_north ≡ some (record { host = "n1"; score = 1 })) ↔ (
      Fits (get_resource_limits kube web).milli_cpu 4000
      ⊎ Fits (get_resource_limits kube web).memory 2048)
resource_limits_priority_map_iff_example =
    resource_limits_priority_map_iff kube web on_north north refl

abbrev spare : Toleration
spare = record { key = "spare"; value = ""; effect = some prefer_no_schedule }

abbrev by_effect : Toleration → Taint → Bool
by_effect t taint = elim t.effect [
  | none ↦ true
  | some e ↦ is_prefer_no_schedule e && is_prefer_no_schedule taint.effect
]

prefers : (e : TaintEffect) → is_prefer_no_schedule e ≡ true → e ≡ prefer_no_schedule
unfolding is_prefer_no_schedule
prefers e h = ground arith

by_effect-MatchesEffect : MatchesEffect by_effect
by_effect-MatchesEffect t taint e f h = ground (arith, prefers e, prefers taint.effect)

abbrev on_tainted : NodeInfo
on_tainted = record on_north {
  node = some (record north {
    taints = record { key = "spare"; value = ""; effect = prefer_no_schedule } ∷ [];
  });
}

compute_taint_toleration_priority_map_lem_example :
    (compute_taint_toleration_priority_map by_effect (spare ∷ []) none on_tainted
      ≡ compute_taint_toleration_priority_map by_effect (spare ∷ []) (some (spare ∷ [])) on_tainted)
    × (compute_taint_toleration_priority_map by_effect (spare ∷ []) none on_tainted
        ≡ compute_taint_toleration_priority_map by_effect
            (spare ∷ [])
            (some (get_all_toleration_prefer_no_schedule (spare ∷ [])))
            on_tainted)
compute_taint_toleration_priority_map_lem_example =
    compute_taint_toleration_priority_map_lem by_effect by_effect-MatchesEffect (spare ∷ [])
      on_tainted
