-- ===== src/Priorities/Limits/Tie.antt =====
-- What a point of resource_limits.go says.
use ai_scheduler.Prelude.{
  ℕ, ◌≡◌, ◌≢◌, ◌⊎◌, ◌↔◌, refl, true, some, ◌==◌, arith, inl, inr, Bool-cases,
}
use ai_scheduler.Prelude.Int64
use ai_scheduler.Kube.{Pod, Node, External}
use ai_scheduler.Info.Resource.{Resource}
use ai_scheduler.Info.NodeInfo.{NodeInfo}
use ai_scheduler.Priorities.Allocation.{HostPriority}
use ai_scheduler.Priorities.Limits.{
  compute_score, get_resource_limits, resource_limits_priority_map,
}

-- The limit is set, the node publishes the resource, and it has that much.
pub record Fits (limit allocatable : ℕ) : Type 0 where
  pub limited : limit ≢ 0
  pub published : allocatable ≢ 0
  pub enough : Int64.le limit allocatable ≡ true

compute_score_iff :
    (limit allocatable : ℕ)
    → ((compute_score limit allocatable == 1) ≡ true) ↔ Fits limit allocatable
unfolding compute_score
compute_score_iff limit allocatable = (
  (λ h. record { limited = ground arith; published = ground arith; enough = ground arith }),
  (λ f. let a = f.limited in let b = f.published in let c = f.enough in ground arith),
)

score_of : HostPriority → ℕ
score_of r = r.score

-- On a NodeInfo with a node, ResourceLimitsPriorityMap gives its host the score 1 exactly where the
-- limit of the pod on CPU or that on memory is set, is published by the node and is within what the
-- node publishes.
pub resource_limits_priority_map_iff :
    (ext : External) (pod : Pod) (n : NodeInfo) (node : Node)
    → n.node ≡ some node
    → (resource_limits_priority_map ext pod n ≡ some (record { host = node.name; score = 1 })) ↔ (
        Fits (get_resource_limits ext pod).milli_cpu n.allocatable_resource.milli_cpu
        ⊎ Fits (get_resource_limits ext pod).memory n.allocatable_resource.memory)
unfolding resource_limits_priority_map score_of
resource_limits_priority_map_iff ext pod n node e = (
  (λ h. elim (Bool-cases (compute_score limits.milli_cpu n.allocatable_resource.milli_cpu == 1)) [
    | inl c ↦ inl ((compute_score_iff _ _).0 c)
    | inr c ↦ inr ((compute_score_iff _ _).0 (ground arith))
  ]),
  (λ f. elim f [
    | inl c ↦ let s = (compute_score_iff _ _).1 c in rw (e, s) refl
    | inr c ↦ let s = (compute_score_iff _ _).1 c in ground arith
  ]),
)
  where
    limits : Resource
    limits = get_resource_limits ext pod
