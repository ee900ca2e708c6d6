-- ===== src/Priorities/Limits.antt =====
-- resource_limits.go of algorithm/priorities: a point for a node that can give a pod its limits.
pub mod Tie
use ai_scheduler.Prelude.{
  ℕ, Bool, true, false, not, ◌&&◌, ◌||◌, List, [], ◌∷◌, none, some, Option, if◌then◌else◌, ◌==◌,
}
use ai_scheduler.Prelude.Int64
use ai_scheduler.Kube.{Pod, Container, External}
use ai_scheduler.Info.Resource
use ai_scheduler.Info.Resource.{Resource, empty_resource}
use ai_scheduler.Info.NodeInfo.{NodeInfo}
use ai_scheduler.Priorities.Allocation.{HostPriority}

unfoldable pub compute_score : ℕ → ℕ → ℕ
compute_score limit allocatable =
    if not (limit == 0) && not (allocatable == 0) && Int64.le limit allocatable then 1 else 0

module _ (ext : External) where
  unfoldable pub add_limits : Resource → List Container → Resource
  add_limits r [] = r
  add_limits r (c ∷ cs) = add_limits (Resource.add ext r c.limits) cs

  unfoldable pub max_limits : Resource → List Container → Resource
  max_limits r [] = r
  max_limits r (c ∷ cs) = max_limits (Resource.set_max_resource ext r c.limits) cs

  unfoldable pub get_resource_limits : Pod → Resource
  unfolding add_limits max_limits
  get_resource_limits pod =
      max_limits (add_limits empty_resource pod.containers) pod.init_containers

  -- `none` is the error "node not found".
  unfoldable pub resource_limits_priority_map : Pod → NodeInfo → Option HostPriority
  unfolding compute_score get_resource_limits
  resource_limits_priority_map pod n = elim n.node [
    | none ↦ none
    | some node ↦
        let limits = get_resource_limits pod in
        let cpu = compute_score limits.milli_cpu n.allocatable_resource.milli_cpu in
        let memory = compute_score limits.memory n.allocatable_resource.memory in
        some (record { host = node.name; score = if cpu == 1 || memory == 1 then 1 else 0 })
  ]
