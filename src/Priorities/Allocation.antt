-- ===== src/Priorities/Allocation.antt =====
-- least_requested.go, most_requested.go and resource_allocation.go of algorithm/priorities, without
-- the volumes, which the two scorers ignore.
pub mod Scores
use ai_scheduler.Prelude.{
  ℕ, Bool, true, false, List, [], ◌∷◌, none, some, Option, String, if◌then◌else◌, ◌==◌,
}
use ai_scheduler.Prelude.Int64
use ai_scheduler.Kube.{Pod, Container}
use ai_scheduler.Info.Resource.{Resource, empty_resource}
use ai_scheduler.Info.NodeInfo.{NodeInfo, nonzero_cpu, nonzero_memory}

abbrev pub max_priority : ℕ
max_priority = 10

pub record HostPriority : Type 0 where
  pub host : String
  pub score : ℕ

unfoldable pub least_requested_score : ℕ → ℕ → ℕ
least_requested_score requested capacity =
    if capacity == 0
    then 0
    else if Int64.lt capacity requested
    then 0
    else Int64.quot (Int64.mul (Int64.sub capacity requested) max_priority) capacity

unfoldable pub most_requested_score : ℕ → ℕ → ℕ
most_requested_score requested capacity =
    if capacity == 0
    then 0
    else if Int64.lt capacity requested
    then 0
    else Int64.quot (Int64.mul requested max_priority) capacity

unfoldable pub least_resource_scorer : Resource → Resource → ℕ
least_resource_scorer requested allocable =
    Int64.quot
      (Int64.add (least_requested_score requested.milli_cpu allocable.milli_cpu)
        (least_requested_score requested.memory allocable.memory))
      2

unfoldable pub most_resource_scorer : Resource → Resource → ℕ
most_resource_scorer requested allocable =
    Int64.quot
      (Int64.add (most_requested_score requested.milli_cpu allocable.milli_cpu)
        (most_requested_score requested.memory allocable.memory))
      2

unfoldable pub sum_nonzero_requests : Resource → List Container → Resource
sum_nonzero_requests r [] = r
sum_nonzero_requests r (c ∷ cs) =
    sum_nonzero_requests
      (record r {
        milli_cpu = Int64.add r.milli_cpu (nonzero_cpu c.requests);
        memory = Int64.add r.memory (nonzero_memory c.requests);
      })
      cs

unfoldable pub get_nonzero_requests : Pod → Resource
unfolding sum_nonzero_requests
get_nonzero_requests pod = sum_nonzero_requests empty_resource pod.containers

-- What the pod asks for, from the priority metadata where there is such.
unfoldable pub requested_of : Option Resource → Pod → Resource
unfolding get_nonzero_requests
requested_of (some r) pod = r
requested_of none pod = get_nonzero_requests pod

unfoldable pub with_node : Resource → NodeInfo → Resource
with_node r n = record r {
  milli_cpu = Int64.add r.milli_cpu n.nonzero_request.milli_cpu;
  memory = Int64.add r.memory n.nonzero_request.memory;
}

-- PriorityMap; `none` is the error "node not found".
unfoldable pub priority_map :
    (Resource → Resource → ℕ) → Pod → Option Resource → NodeInfo → Option HostPriority
unfolding requested_of with_node
priority_map scorer pod meta n = elim n.node [
  | none ↦ none
  | some node ↦ some (record {
    host = node.name;
    score = scorer (with_node (requested_of meta pod) n) n.allocatable_resource;
  })
]
