-- ===== src/Predicates.antt =====
-- Predicates of pkg/scheduler/algorithm/predicates/predicates.go that look at one pod and one node:
-- whether the pod fits, and the reasons why not. What v1helper says of extended resource names and of
-- tolerations is a parameter.
pub mod Fits
use ai_scheduler.Prelude.{
  ℕ, ◌+◌, Bool, true, false, ◌||◌, ◌&&◌, not, none, some, Option, String, List, [], ◌∷◌, ◌++◌,
  length, ◌==◌, str_eq, if◌then◌else◌,
}
use ai_scheduler.Prelude.Dict
use ai_scheduler.Prelude.Dict.{Dict}
use ai_scheduler.Prelude.Int64
use ai_scheduler.Kube.{
  Pod, Node, NodeCondition, Container, ContainerPort, External, Taint, TaintEffect, no_schedule,
  prefer_no_schedule, no_execute, Toleration,
}
use ai_scheduler.Info.HostPorts
use ai_scheduler.Info.HostPorts.{HostPortInfo}
use ai_scheduler.Info.NodeInfo.{NodeInfo}
use ai_scheduler.Info.Resource
use ai_scheduler.Info.Resource.{
  Resource, empty_resource, value_of, add_containers, max_containers, resource_cpu, resource_memory,
  resource_ephemeral_storage, resource_pods,
}

-- A PredicateFailureReason: an InsufficientResourceError with the name of the resource, the requested,
-- the used and the whole amount, or one of the errors of error.go.
pub data Reason : Type 0 where
  insufficient : String → ℕ → ℕ → ℕ → Reason
  pod_not_match_host_name pod_not_fits_host_ports taints_tolerations_not_match : Reason
  node_under_memory_pressure node_under_disk_pressure node_under_pid_pressure : Reason
  node_not_ready node_network_unavailable node_unschedulable node_unknown_condition : Reason

-- Whether the pod fits, and the reasons; or the error that there is no node.
pub data Verdict : Type 0 where
  verdict : Bool → List Reason → Verdict
  node_not_found : Verdict

-- The fields of predicateMetadata that these predicates read.
pub record PredicateMetadata : Type 0 where
  pub pod_best_effort : Bool
  pub pod_request : Resource
  pub pod_ports : List ContainerPort
  pub ignored_extended_resources : List String

-- len(reasons) == 0, with the reasons
unfoldable pub by_reasons : List Reason → Verdict
by_reasons [] = verdict true []
by_reasons (r ∷ rs) = verdict false (r ∷ rs)

unfoldable pub get_resource_request : External → Pod → Resource
get_resource_request ext pod =
    max_containers ext (add_containers ext empty_resource pod.containers) pod.init_containers

unfoldable pub is_zero_request : Resource → Bool
is_zero_request r =
    r.milli_cpu == 0
    && (r.memory == 0 && (r.ephemeral_storage == 0 && length r.scalar_resources == 0))

-- `if allocatable < requested + used` a reason.
unfoldable pub check : String → ℕ → ℕ → ℕ → List Reason → List Reason
check name requested used allocatable rest =
    if Int64.lt allocatable (Int64.add requested used)
    then insufficient name requested used allocatable ∷ rest
    else rest

unfoldable pub has_name : String → List String → Bool
has_name s [] = false
has_name s (t ∷ ts) = let rest = has_name s ts in if str_eq t s then true else rest

module _ (is_extended_resource_name : String → Bool) (ignored : List String) where
  unfoldable pub is_ignored : String → Bool
  unfolding has_name
  is_ignored name = is_extended_resource_name name && has_name name ignored

  unfoldable pub check_scalars : Dict ℕ → Resource → Resource → List Reason
  unfolding check is_ignored
  check_scalars [] used allocatable = []
  check_scalars ((name, quantity) ∷ m) used allocatable =
      let rest = check_scalars m used allocatable in
      if is_ignored name
      then rest
      else check name quantity (value_of name used.scalar_resources)
          (value_of name allocatable.scalar_resources) rest

  unfoldable pub check_request : Resource → Resource → Resource → List Reason
  unfolding check check_scalars
  check_request request used allocatable =
      check resource_cpu request.milli_cpu used.milli_cpu allocatable.milli_cpu (
        check resource_memory request.memory used.memory allocatable.memory (
          check resource_ephemeral_storage request.ephemeral_storage used.ephemeral_storage
            allocatable.ephemeral_storage
            (check_scalars request.scalar_resources used allocatable)))

-- len(nodeInfo.Pods())+1 > allowedPodNumber
unfoldable pub check_pods : NodeInfo → List Reason
check_pods n =
    let allowed = n.allocatable_resource.allowed_pod_number in
    if Int64.lt allowed (length n.pods + 1)
    then insufficient resource_pods 1 (length n.pods) allowed ∷ []
    else []

unfoldable pub request_of : External → Pod → Option PredicateMetadata → Resource
unfolding get_resource_request
request_of ext pod none = get_resource_request ext pod
request_of ext pod (some meta) = meta.pod_request

unfoldable pub ignored_of : Option PredicateMetadata → List String
ignored_of none = []
ignored_of (some meta) = meta.ignored_extended_resources

unfoldable pub pod_fits_resources :
    External → (String → Bool) → Pod → Option PredicateMetadata → NodeInfo → Verdict
unfolding request_of ignored_of is_zero_request check_pods check_request by_reasons
pod_fits_resources ext is_extended_resource_name pod meta n = elim n.node [
  | none ↦ node_not_found
  | some node ↦
      let request = request_of ext pod meta in
      if is_zero_request request
      then by_reasons (check_pods n)
      else by_reasons (
          check_pods n
          ++ check_request is_extended_resource_name (ignored_of meta) request n.requested_resource
              n.allocatable_resource)
]

unfoldable pub pod_fits_host : Pod → NodeInfo → Verdict
pod_fits_host pod n = if str_eq pod.node_name "" then verdict true [] else elim n.node [
  | none ↦ node_not_found
  | some node ↦
      if str_eq pod.node_name node.name
      then verdict true []
      else verdict false (pod_not_match_host_name ∷ [])
]

-- util.GetContainerPorts of one pod
unfoldable pub get_container_ports : List Container → List ContainerPort
get_container_ports [] = []
get_container_ports (c ∷ cs) = c.ports ++ get_container_ports cs

-- portsConflict of predicates/utils.go
unfoldable pub ports_conflict : HostPortInfo → List ContainerPort → Bool
ports_conflict h [] = false
ports_conflict h (p ∷ ps) =
    let rest = ports_conflict h ps in
    if HostPorts.check_conflict h p.host_ip p.protocol p.host_port then true else rest

unfoldable pub ports_of : Pod → Option PredicateMetadata → List ContainerPort
unfolding get_container_ports
ports_of pod none = get_container_ports pod.containers
ports_of pod (some meta) = meta.pod_ports

unfoldable pub pod_fits_host_ports : Pod → Option PredicateMetadata → NodeInfo → Verdict
unfolding ports_of ports_conflict
pod_fits_host_ports pod meta n = elim (ports_of pod meta) [
  | [] ↦ verdict true []
  | p ∷ ps ↦
      if ports_conflict n.used_ports (p ∷ ps)
      then verdict false (pod_not_fits_host_ports ∷ [])
      else verdict true []
]

-- The taint node.kubernetes.io/unschedulable.
abbrev pub unschedulable_taint : Taint
unschedulable_taint = record {
  key = "node.kubernetes.io/unschedulable";
  value = "";
  effect = no_schedule;
}

module _ (tolerations_tolerate_taint : List Toleration → Taint → Bool) where
  unfoldable pub check_node_unschedulable_predicate : Pod → NodeInfo → Verdict
  check_node_unschedulable_predicate pod n = elim n.node [
    | none ↦ verdict false (node_unknown_condition ∷ [])
    | some node ↦
        if node.unschedulable
          && not (tolerations_tolerate_taint pod.tolerations unschedulable_taint)
        then verdict false (node_unschedulable ∷ [])
        else verdict true []
  ]

-- The code's filters of the taints.
unfoldable pub is_no_schedule_or_no_execute : TaintEffect → Bool
is_no_schedule_or_no_execute no_schedule = true
is_no_schedule_or_no_execute prefer_no_schedule = false
is_no_schedule_or_no_execute no_execute = true

module _ (tolerate_taints_with_filter : List Toleration → List Taint → (Taint → Bool) → Bool) where
  unfoldable pub pod_tolerates_node_taints : Pod → NodeInfo → Verdict
  unfolding is_no_schedule_or_no_execute
  pod_tolerates_node_taints pod n = elim n.node [
    | none ↦ verdict false (node_unknown_condition ∷ [])
    | some node ↦
        if tolerate_taints_with_filter pod.tolerations n.taints
          (λ t. is_no_schedule_or_no_execute t.effect)
        then verdict true []
        else verdict false (taints_tolerations_not_match ∷ [])
  ]

unfoldable pub check_node_disk_pressure_predicate : NodeInfo → Verdict
check_node_disk_pressure_predicate n =
    if str_eq n.disk_pressure_condition "True"
    then verdict false (node_under_disk_pressure ∷ [])
    else verdict true []

unfoldable pub check_node_pid_pressure_predicate : NodeInfo → Verdict
check_node_pid_pressure_predicate n =
    if str_eq n.pid_pressure_condition "True"
    then verdict false (node_under_pid_pressure ∷ [])
    else verdict true []

unfoldable pub condition_reasons : List NodeCondition → List Reason
condition_reasons [] = []
condition_reasons (c ∷ cs) =
    let rest = condition_reasons cs in
    if str_eq c.kind "Ready" && not (str_eq c.status "True")
    then node_not_ready ∷ rest
    else if str_eq c.kind "NetworkUnavailable" && not (str_eq c.status "False")
    then node_network_unavailable ∷ rest
    else rest

unfoldable pub check_node_condition_predicate : NodeInfo → Verdict
unfolding condition_reasons by_reasons
check_node_condition_predicate n = elim n.node [
  | none ↦ verdict false (node_unknown_condition ∷ [])
  | some node ↦ by_reasons (
      condition_reasons node.conditions
      ++ (if node.unschedulable then node_unschedulable ∷ [] else []))
]
