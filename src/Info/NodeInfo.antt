-- ===== src/Info/NodeInfo.antt =====
-- type NodeInfo of pkg/scheduler/info/node_info.go: what the scheduler aggregates for one node.
-- The package's generation counter is an argument and part of the result of every operation that
-- draws from it. TransientInfo is left out: nothing of it changes with the pods of a node.
pub mod Pods
pub mod Accounting
pub mod Undo
use ai_scheduler.Prelude.{
  ℕ, Bool, true, false, ◌&&◌, ◌||◌, not, List, [], ◌∷◌, ◌++◌, none, some, Option, String, str_eq,
  length, if◌then◌else◌,
}
use ai_scheduler.Prelude.Dict
use ai_scheduler.Prelude.Dict.{Dict}
use ai_scheduler.Prelude.Int64
use ai_scheduler.Kube.{
  Quantity, ResourceList, Container, ContainerPort, Pod, Node, NodeCondition, Taint, External,
  Affinity, PodAffinityTerm,
}
use ai_scheduler.Info.Resource
use ai_scheduler.Info.Resource.{Resource, empty_resource, resource_cpu, resource_memory}
use ai_scheduler.Info.HostPorts
use ai_scheduler.Info.HostPorts.{HostPortInfo}

pub record ImageStateSummary : Type 0 where
  pub size : ℕ
  pub num_nodes : ℕ

pub record NodeInfo : Type 0 where
  pub node : Option Node
  pub pods : List Pod
  pub pods_with_affinity : List Pod
  pub used_ports : HostPortInfo
  pub requested_resource : Resource
  pub nonzero_request : Resource
  pub allocatable_resource : Resource
  pub taints : List Taint
  pub image_states : Dict ImageStateSummary
  pub memory_pressure_condition : String
  pub disk_pressure_condition : String
  pub pid_pressure_condition : String
  pub generation : ℕ

pub data Error : Type 0 where
  empty_uid node_is_nil no_such_pod node_not_found pod_in_cache pod_not_assumed : Error
  other_node already_added not_added pool_not_found forbidden_pool : Error

unfoldable pub next_generation : ℕ → ℕ
next_generation g = Int64.add g 1

-- NewNodeInfo() with the next generation number.
unfoldable pub new_node_info : ℕ → NodeInfo
new_node_info g = record {
  node = none;
  pods = [];
  pods_with_affinity = [];
  used_ports = [];
  requested_resource = empty_resource;
  nonzero_request = empty_resource;
  allocatable_resource = empty_resource;
  taints = [];
  image_states = [];
  memory_pressure_condition = "";
  disk_pressure_condition = "";
  pid_pressure_condition = "";
  generation = next_generation g;
}

-- `none` is the error for an empty UID.
unfoldable pub get_pod_key : Pod → Option String
get_pod_key pod = if str_eq pod.uid "" then none else some pod.uid

unfoldable pub is_set : Option (List PodAffinityTerm) → Bool
is_set none = false
is_set (some terms) = true

unfoldable pub has_pod_affinity_constraints : Pod → Bool
unfolding is_set
has_pod_affinity_constraints pod = elim pod.affinity [
  | none ↦ false
  | some a ↦ is_set a.pod_affinity || is_set a.pod_anti_affinity
]

abbrev pub default_milli_cpu_request : ℕ
default_milli_cpu_request = 100

-- 200 * 1024 * 1024
abbrev pub default_memory_request : ℕ
default_memory_request = 209715200

-- GetNonzeroRequests of algorithm/priorities/util/non_zero.go, one function for each result.
unfoldable pub nonzero_cpu : ResourceList → ℕ
nonzero_cpu requests = elim (Dict.lookup resource_cpu requests) [
  | none ↦ default_milli_cpu_request
  | some q ↦ q.milli_value
]

unfoldable pub nonzero_memory : ResourceList → ℕ
nonzero_memory requests = elim (Dict.lookup resource_memory requests) [
  | none ↦ default_memory_request
  | some q ↦ q.value
]

unfoldable pub sum_nonzero_cpu : ℕ → List Container → ℕ
sum_nonzero_cpu sum [] = sum
sum_nonzero_cpu sum (c ∷ cs) = sum_nonzero_cpu (Int64.add sum (nonzero_cpu c.requests)) cs

unfoldable pub sum_nonzero_memory : ℕ → List Container → ℕ
sum_nonzero_memory sum [] = sum
sum_nonzero_memory sum (c ∷ cs) = sum_nonzero_memory (Int64.add sum (nonzero_memory c.requests)) cs

unfoldable pub update_ports : Bool → HostPortInfo → List ContainerPort → HostPortInfo
update_ports add h [] = h
update_ports add h (p ∷ ps) =
    update_ports add
      (if add
        then HostPorts.add h p.host_ip p.protocol p.host_port
        else HostPorts.remove h p.host_ip p.protocol p.host_port)
      ps

-- UpdateUsedPorts, on the ports of the node.
unfoldable pub update_used_ports : Bool → HostPortInfo → List Container → HostPortInfo
unfolding update_ports
update_used_ports add h [] = h
update_used_ports add h (c ∷ cs) = update_used_ports add (update_ports add h c.ports) cs

-- AddPod and RemovePod leave AllowedPodNumber of the requests alone.
unfoldable pub add_request : Resource → Resource → Resource
add_request r res = record (Resource.plus r res) { allowed_pod_number = r.allowed_pod_number }

unfoldable pub sub_request : Resource → Resource → Resource
sub_request r res = record (Resource.sub r res) { allowed_pod_number = r.allowed_pod_number }

unfoldable pub add_nonzero : Resource → List Container → Resource
unfolding sum_nonzero_cpu sum_nonzero_memory
add_nonzero r cs = record r {
  milli_cpu = Int64.add r.milli_cpu (sum_nonzero_cpu 0 cs);
  memory = Int64.add r.memory (sum_nonzero_memory 0 cs);
}

unfoldable pub sub_nonzero : Resource → List Container → Resource
unfolding sum_nonzero_cpu sum_nonzero_memory
sub_nonzero r cs = record r {
  milli_cpu = Int64.sub r.milli_cpu (sum_nonzero_cpu 0 cs);
  memory = Int64.sub r.memory (sum_nonzero_memory 0 cs);
}

-- `k1 == k2` for a stored pod whose key is k2; a stored pod without a key is passed over.
unfoldable pub has_key : String → Pod → Bool
unfolding get_pod_key
has_key k1 p = elim (get_pod_key p) [ none ↦ false | some k2 ↦ str_eq k1 k2 ]

-- list[i] = list[len(list)-1]; list = list[:len(list)-1], for the element at the front.
unfoldable pub last_to_front : List Pod → List Pod
last_to_front [] = []
last_to_front (p ∷ []) = p ∷ []
last_to_front (p ∷ q ∷ ps) = elim (last_to_front (q ∷ ps)) [ [] ↦ [] | l ∷ front ↦ l ∷ p ∷ front ]

-- Deletes the first pod with the key, by moving the last one into its place.
unfoldable pub delete_key : String → List Pod → Option (List Pod)
delete_key k [] = none
delete_key k (p ∷ ps) =
    let rest = delete_key k ps in
    if has_key k p
    then some (last_to_front ps)
    else elim rest [ none ↦ none | some left ↦ some (p ∷ left) ]

unfoldable pub or_keep : List Pod → Option (List Pod) → List Pod
or_keep ps none = ps
or_keep ps (some left) = left

unfoldable pub set_condition : NodeInfo → NodeCondition → NodeInfo
set_condition n c =
    if str_eq c.kind "MemoryPressure"
    then record n { memory_pressure_condition = c.status }
    else if str_eq c.kind "DiskPressure"
    then record n { disk_pressure_condition = c.status }
    else if str_eq c.kind "PIDPressure"
    then record n { pid_pressure_condition = c.status }
    else n

unfoldable pub set_conditions : NodeInfo → List NodeCondition → NodeInfo
set_conditions n [] = n
set_conditions n (c ∷ cs) = set_conditions (set_condition n c) cs

-- RemoveNode: the pods stay, and so does the memory of their requests.
unfoldable pub remove_node : ℕ → NodeInfo → NodeInfo × ℕ
remove_node g n = (
  record n {
    node = none;
    allocatable_resource = empty_resource;
    taints = [];
    memory_pressure_condition = "Unknown";
    disk_pressure_condition = "Unknown";
    pid_pressure_condition = "Unknown";
    image_states = [];
    generation = next_generation g;
  },
  next_generation g,
)

unfoldable pub any_same_key : Pod → List Pod → Bool
any_same_key p [] = false
any_same_key p (q ∷ qs) = str_eq q.uid p.uid || any_same_key p qs

-- FilterOutPods for a node that is set. An empty UID stands for the key of a pod without one.
unfoldable pub filter_on : String → List Pod → List Pod → List Pod
filter_on name stored [] = []
filter_on name stored (p ∷ ps) =
    let rest = filter_on name stored ps in
    if not (str_eq p.node_name name)
    then p ∷ rest
    else if any_same_key p stored
    then p ∷ rest
    else rest

unfoldable pub filter_out_pods : NodeInfo → List Pod → List Pod
filter_out_pods n ps = elim n.node [ none ↦ ps | some node ↦ filter_on node.name n.pods ps ]

unfoldable pub any_same_name : Pod → List Pod → Bool
any_same_name p [] = false
any_same_name p (q ∷ qs) =
    str_eq q.name p.name && str_eq q.namespace p.namespace || any_same_name p qs

-- Filter, for a NodeInfo whose node has this name.
unfoldable pub filter : String → NodeInfo → Pod → Bool
filter name n p = if not (str_eq p.node_name name) then true else any_same_name p n.pods

module _ (ext : External) where
  unfoldable pub calculate_resource : Pod → Resource
  calculate_resource pod = Resource.add_containers ext empty_resource pod.containers

  unfoldable pub add_pod : ℕ → NodeInfo → Pod → NodeInfo × ℕ
  unfolding calculate_resource
  add_pod g n pod = (
    record n {
      requested_resource = add_request n.requested_resource (calculate_resource pod);
      nonzero_request = add_nonzero n.nonzero_request pod.containers;
      pods = n.pods ++ pod ∷ [];
      pods_with_affinity =
          if has_pod_affinity_constraints pod
          then n.pods_with_affinity ++ pod ∷ []
          else n.pods_with_affinity;
      used_ports = update_used_ports true n.used_ports pod.containers;
      generation = next_generation g;
    },
    next_generation g,
  )

  -- What RemovePod does once the pod's entry is out of the list.
  unfoldable pub release_pod : ℕ → NodeInfo → Pod → List Pod → NodeInfo
  unfolding calculate_resource
  release_pod g n pod left = record n {
    pods = left;
    requested_resource = sub_request n.requested_resource (calculate_resource pod);
    nonzero_request = sub_nonzero n.nonzero_request pod.containers;
    used_ports = update_used_ports false n.used_ports pod.containers;
    generation = next_generation g;
  }

  -- The error is `none` where the pod was removed. The list of pods with affinity has lost the
  -- pod's entry also where the call then fails.
  unfoldable pub remove_pod : ℕ → NodeInfo → Pod → NodeInfo × ℕ × Option Error
  remove_pod g n pod = elim (get_pod_key pod) [
    | none ↦ (n, g, some empty_uid)
    | some k ↦
        let n' : NodeInfo = record n {
          pods_with_affinity = or_keep n.pods_with_affinity (delete_key k n.pods_with_affinity);
        } in
        elim (delete_key k n.pods) [
          | some left ↦ (release_pod g n' pod left, next_generation g, none)
          | none ↦ elim n.node [
            | none ↦ (n', g, some node_is_nil)
            | some node ↦ (n', g, some no_such_pod)
          ]
        ]
  ]

  unfoldable pub set_node : ℕ → NodeInfo → Node → NodeInfo × ℕ
  set_node g n node =
      let n' : NodeInfo = record n {
        node = some node;
        allocatable_resource = Resource.new_resource ext node.allocatable;
        taints = node.taints;
      } in
      (
        record (set_conditions n' node.conditions) { generation = next_generation g },
        next_generation g,
      )
