-- ===== src/Kube.antt =====
-- The Kubernetes API objects that the scheduler is handed, with the fields that the modelled code
-- reads, and the functions of other repositories that it calls on them, as parameters.
use ai_scheduler.Prelude.{ℕ, String, Bool, Option, List}
use ai_scheduler.Prelude.Dict.{Dict}

-- A resource.Quantity, by the two readings that the code takes of it: `Value()` and `MilliValue()`,
-- each an int64.
pub record Quantity : Type 0 where
  pub value : ℕ
  pub milli_value : ℕ

abbrev pub ResourceList : Type 0
ResourceList = Dict Quantity

pub record ContainerPort : Type 0 where
  pub host_ip : String
  pub protocol : String
  pub host_port : ℕ

pub record Container : Type 0 where
  pub requests : ResourceList
  pub limits : ResourceList
  pub ports : List ContainerPort

-- A metav1.LabelSelector, by its serialised text.
pub record LabelSelector : Type 0 where
  pub text : String

pub record PodAffinityTerm : Type 0 where
  pub label_selector : LabelSelector
  pub namespaces : List String
  pub topology_key : String

-- `PodAffinity` and `PodAntiAffinity`, each by its RequiredDuringSchedulingIgnoredDuringExecution.
pub record Affinity : Type 0 where
  pub pod_affinity : Option (List PodAffinityTerm)
  pub pod_anti_affinity : Option (List PodAffinityTerm)

pub data TaintEffect : Type 0 where
  no_schedule prefer_no_schedule no_execute : TaintEffect

pub record Taint : Type 0 where
  pub key : String
  pub value : String
  pub effect : TaintEffect

-- `none` is the empty effect, which stands for all.
pub record Toleration : Type 0 where
  pub key : String
  pub value : String
  pub effect : Option TaintEffect

-- The priority is an int32, held as the int64 word of the same value. `nominated_node_name` is of the
-- pod's status.
pub record Pod : Type 0 where
  pub resource_version : String
  pub generation : ℕ
  pub name : String
  pub namespace : String
  pub uid : String
  pub node_name : String
  pub annotations : Dict String
  pub containers : List Container
  pub init_containers : List Container
  pub affinity : Option Affinity
  pub priority : Option ℕ
  pub labels : Dict String
  pub tolerations : List Toleration
  pub nominated_node_name : String
  pub deletion_timestamp : Option ℕ

-- `status` is one of "True", "False" and "Unknown".
pub record NodeCondition : Type 0 where
  pub kind : String
  pub status : String

pub record ContainerImage : Type 0 where
  pub names : List String
  pub size_bytes : ℕ

pub record Node : Type 0 where
  pub name : String
  pub labels : Dict String
  pub taints : List Taint
  pub capacity : ResourceList
  pub allocatable : ResourceList
  pub conditions : List NodeCondition
  pub images : List ContainerImage
  pub unschedulable : Bool

pub record PoolSpec : Type 0 where
  pub node_selector : Option LabelSelector
  pub disable_preemption : Bool
  pub disable_borrowing : Bool
  pub borrowing_pools : List String
  pub disable_sharing : Bool

pub record Pool : Type 0 where
  pub name : String
  pub spec : PoolSpec

-- What the code calls in other repositories.
pub record External : Type 0 where
  -- v1helper.IsScalarResourceName
  pub is_scalar_resource_name : String → Bool
  -- utilnode.GetZoneKey
  pub zone_key : Node → String
  -- metav1.LabelSelectorAsSelector and Selector.Matches: `none` is an error of the first.
  pub selector_matches : LabelSelector → Dict String → Option Bool
