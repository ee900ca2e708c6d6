-- ===== src/Priorities/Taints.antt =====
-- taint_toleration.go of algorithm/priorities. What v1helper says of one toleration and one taint is
-- the parameter `tolerates`.
pub mod Filter
use ai_scheduler.Prelude.{
  ℕ, ◌+◌, Bool, true, false, ◌||◌, List, [], ◌∷◌, none, some, Option, String, if◌then◌else◌,
}
use ai_scheduler.Kube.{Toleration, Taint, TaintEffect, no_schedule, prefer_no_schedule, no_execute}
use ai_scheduler.Info.NodeInfo.{NodeInfo}
use ai_scheduler.Priorities.Allocation.{HostPriority}

unfoldable pub is_prefer_no_schedule : TaintEffect → Bool
is_prefer_no_schedule no_schedule = false
is_prefer_no_schedule prefer_no_schedule = true
is_prefer_no_schedule no_execute = false

unfoldable pub may_prefer : Option TaintEffect → Bool
unfolding is_prefer_no_schedule
may_prefer none = true
may_prefer (some e) = is_prefer_no_schedule e

unfoldable pub get_all_toleration_prefer_no_schedule : List Toleration → List Toleration
unfolding may_prefer
get_all_toleration_prefer_no_schedule [] = []
get_all_toleration_prefer_no_schedule (t ∷ ts) =
    let rest = get_all_toleration_prefer_no_schedule ts in
    if may_prefer t.effect then t ∷ rest else rest

module _ (tolerates : Toleration → Taint → Bool) where
  -- v1helper.TolerationsTolerateTaint: one of them tolerates the taint.
  unfoldable pub tolerations_tolerate_taint : List Toleration → Taint → Bool
  tolerations_tolerate_taint [] taint = false
  tolerations_tolerate_taint (t ∷ ts) taint =
      tolerates t taint || tolerations_tolerate_taint ts taint

  unfoldable pub count_intolerable_taints_prefer_no_schedule : List Taint → List Toleration → ℕ
  unfolding is_prefer_no_schedule tolerations_tolerate_taint
  count_intolerable_taints_prefer_no_schedule [] ts = 0
  count_intolerable_taints_prefer_no_schedule (taint ∷ taints) ts =
      let rest = count_intolerable_taints_prefer_no_schedule taints ts in
      if is_prefer_no_schedule taint.effect
      then if tolerations_tolerate_taint ts taint then rest else rest + 1
      else rest

  -- ComputeTaintTolerationPriorityMap, with the tolerations of the metadata where there is such;
  -- `none` is the error "node not found".
  unfoldable pub compute_taint_toleration_priority_map :
      List Toleration → Option (List Toleration) → NodeInfo → Option HostPriority
  unfolding get_all_toleration_prefer_no_schedule count_intolerable_taints_prefer_no_schedule
  compute_taint_toleration_priority_map tolerations meta n = elim n.node [
    | none ↦ none
    | some node ↦ some (record {
      host = node.name;
      score =
          count_intolerable_taints_prefer_no_schedule node.taints
            (elim meta [ some ts ↦ ts | none ↦ get_all_toleration_prefer_no_schedule tolerations ]);
    })
  ]
