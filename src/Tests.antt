-- ===== src/Tests.antt =====
-- Concrete objects, at which the children apply the theorems of the development.
mod Resources
mod Nodes
mod Pools
mod Pods
mod Images
mod Scores
mod Queues
use ai_scheduler.Prelude.{
  ℕ, ◌+◌, Bool, true, false, List, [], ◌∷◌, none, some, Option, String, str_eq,
}
use ai_scheduler.Kube.{
  Quantity, ResourceList, ContainerPort, Container, Pod, Node, Taint, TaintEffect, LabelSelector,
  Pool, PoolSpec, External,
}

-- Zones and scalar resources by one name each; a selector matches by its text, or is not valid.
abbrev pub kube : External
kube = record {
  is_scalar_resource_name = λ name. str_eq name "nvidia.com/gpu";
  zone_key = λ node. "east";
  selector_matches = λ selector labels. if_valid selector.text;
}
  where
    if_valid : String → Option Bool
    if_valid text = some true

abbrev pub two_cpus : ResourceList
two_cpus =
    ("cpu", record { value = 2; milli_value = 2000 })
    ∷ ("memory", record { value = 1024; milli_value = 1024000 })
    ∷ []

abbrev pub web_container : Container
web_container = record {
  requests = two_cpus;
  limits = two_cpus;
  ports = record { host_ip = ""; protocol = "TCP"; host_port = 80 } ∷ [];
}

abbrev pub web : Pod
web = record {
  resource_version = "7";
  generation = 1;
  name = "web";
  namespace = "shop";
  uid = "u1";
  node_name = "n1";
  annotations = ("resource.aibee.cn/pool", "gpu") ∷ [];
  containers = web_container ∷ [];
  init_containers = [];
  affinity = none;
  priority = none;
  labels = ("app", "web") ∷ [];
  tolerations = [];
  nominated_node_name = "";
  deletion_timestamp = none;
}

abbrev pub north : Node
north = record {
  name = "n1";
  labels = [];
  taints = [];
  capacity = two_cpus;
  allocatable = two_cpus;
  conditions = [];
  images = [];
  unschedulable = false;
}

abbrev pub south : Node
south = record north { name = "n2" }

abbrev pub gpu_pool : Pool
gpu_pool = record {
  name = "gpu";
  spec = record {
    node_selector = some (record { text = "gpu=true" });
    disable_preemption = false;
    disable_borrowing = false;
    borrowing_pools = "cpu" ∷ [];
    disable_sharing = false;
  };
}

abbrev pub cpu_pool : Pool
cpu_pool = record gpu_pool { name = "cpu" }
