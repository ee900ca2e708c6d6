-- ===== src/Info/Resource.antt =====
-- type Resource of pkg/scheduler/info/node_info.go, and the requests of a pod that util.go of the
-- same package computes. Receivers and arguments are not nil; amounts are int64 words.
pub mod Amount
pub mod Arithmetic
pub mod Order
pub mod Requests
use ai_scheduler.Prelude.{
  ℕ, Bool, true, false, ◌&&◌, ◌||◌, not, List, [], ◌∷◌, none, some, Option, String, str_eq,
  if◌then◌else◌,
}
use ai_scheduler.Prelude.Dict
use ai_scheduler.Prelude.Dict.{Dict}
use ai_scheduler.Prelude.Int64
use ai_scheduler.Kube.{Quantity, ResourceList, Container, Pod, External}

pub record Resource : Type 0 where
  pub milli_cpu : ℕ
  pub memory : ℕ
  pub ephemeral_storage : ℕ
  pub allowed_pod_number : ℕ
  pub scalar_resources : Dict ℕ

-- &Resource{}
abbrev pub empty_resource : Resource
empty_resource = record {
  milli_cpu = 0;
  memory = 0;
  ephemeral_storage = 0;
  allowed_pod_number = 0;
  scalar_resources = [];
}

abbrev pub resource_cpu : String
resource_cpu = "cpu"

abbrev pub resource_memory : String
resource_memory = "memory"

abbrev pub resource_pods : String
resource_pods = "pods"

abbrev pub resource_ephemeral_storage : String
resource_ephemeral_storage = "ephemeral-storage"

-- m[k] of a map to int64: zero where the key is missing.
unfoldable pub value_of : String → Dict ℕ → ℕ
value_of k m = elim (Dict.lookup k m) [ none ↦ 0 | some v ↦ v ]

unfoldable pub set_scalar : Resource → String → ℕ → Resource
set_scalar r name quantity = record r {
  scalar_resources = Dict.insert name quantity r.scalar_resources;
}

unfoldable pub add_scalar : Resource → String → ℕ → Resource
unfolding set_scalar
add_scalar r name quantity =
    set_scalar r name (Int64.add (value_of name r.scalar_resources) quantity)

-- r[rName] += rQuant for every entry of the other map.
unfoldable pub plus_scalars : Dict ℕ → Dict ℕ → Dict ℕ
plus_scalars m [] = m
plus_scalars m ((name, quantity) ∷ other) =
    plus_scalars (Dict.insert name (Int64.add (value_of name m) quantity) m) other

unfoldable pub sub_scalars : Dict ℕ → Dict ℕ → Dict ℕ
sub_scalars m [] = m
sub_scalars m ((name, quantity) ∷ other) =
    sub_scalars (Dict.insert name (Int64.sub (value_of name m) quantity) m) other

unfoldable pub plus : Resource → Resource → Resource
plus r rr = record {
  milli_cpu = Int64.add r.milli_cpu rr.milli_cpu;
  memory = Int64.add r.memory rr.memory;
  ephemeral_storage = Int64.add r.ephemeral_storage rr.ephemeral_storage;
  allowed_pod_number = Int64.add r.allowed_pod_number rr.allowed_pod_number;
  scalar_resources = plus_scalars r.scalar_resources rr.scalar_resources;
}

unfoldable pub sub : Resource → Resource → Resource
sub r rr = record {
  milli_cpu = Int64.sub r.milli_cpu rr.milli_cpu;
  memory = Int64.sub r.memory rr.memory;
  ephemeral_storage = Int64.sub r.ephemeral_storage rr.ephemeral_storage;
  allowed_pod_number = Int64.sub r.allowed_pod_number rr.allowed_pod_number;
  scalar_resources = sub_scalars r.scalar_resources rr.scalar_resources;
}

unfoldable pub set_value : Resource → String → ℕ → Resource
unfolding set_scalar
set_value r name value =
    if str_eq name "" || Int64.lt value 0
    then r
    else if str_eq name resource_cpu
    then record r { milli_cpu = value }
    else if str_eq name resource_memory
    then record r { memory = value }
    else if str_eq name resource_ephemeral_storage
    then record r { ephemeral_storage = value }
    else if str_eq name resource_pods
    then record r { allowed_pod_number = value }
    else set_scalar r name value

-- The loop of LessOrEqual over the scalars of the first resource.
unfoldable pub scalars_fit : Dict ℕ → Dict ℕ → Bool
scalars_fit [] other = true
scalars_fit ((name, quantity) ∷ m) other =
    if Int64.lt (value_of name other) quantity then false else scalars_fit m other

unfoldable pub less_or_equal : Resource → Resource → Bool
less_or_equal r rr =
    if not (
      Int64.le r.milli_cpu rr.milli_cpu
      && Int64.le r.memory rr.memory
      && Int64.le r.ephemeral_storage rr.ephemeral_storage
      && Int64.le r.allowed_pod_number rr.allowed_pod_number)
    then false
    else scalars_fit r.scalar_resources rr.scalar_resources

-- int64 maximum, as `if x > y { y = x }`.
unfoldable pub raise : ℕ → ℕ → ℕ
raise old new = if Int64.lt old new then new else old

-- result.AllowedPodNumber += 1
unfoldable pub one_more_pod : Resource → Resource
one_more_pod r = record r { allowed_pod_number = Int64.add r.allowed_pod_number 1 }

module _ (ext : External) where
  -- The body of Add's loop.
  unfoldable pub add_entry : Resource → String → Quantity → Resource
  unfolding add_scalar
  add_entry r name q =
      if str_eq name resource_cpu
      then record r { milli_cpu = Int64.add r.milli_cpu q.milli_value }
      else if str_eq name resource_memory
      then record r { memory = Int64.add r.memory q.value }
      else if str_eq name resource_pods
      then record r { allowed_pod_number = Int64.add r.allowed_pod_number q.value }
      else if str_eq name resource_ephemeral_storage
      then record r { ephemeral_storage = Int64.add r.ephemeral_storage q.value }
      else if ext.is_scalar_resource_name name
      then add_scalar r name q.value
      else r

  unfoldable pub add : Resource → ResourceList → Resource
  add r [] = r
  add r ((name, q) ∷ rl) = add (add_entry r name q) rl

  unfoldable pub new_resource : ResourceList → Resource
  unfolding add
  new_resource rl = add empty_resource rl

  -- The body of SetMaxResource's loop.
  unfoldable pub set_max_entry : Resource → String → Quantity → Resource
  unfolding set_scalar
  set_max_entry r name q =
      if str_eq name resource_memory
      then record r { memory = raise r.memory q.value }
      else if str_eq name resource_cpu
      then record r { milli_cpu = raise r.milli_cpu q.milli_value }
      else if str_eq name resource_ephemeral_storage
      then record r { ephemeral_storage = raise r.ephemeral_storage q.value }
      else if ext.is_scalar_resource_name name
      then if Int64.lt (value_of name r.scalar_resources) q.value
        then set_scalar r name q.value
        else r
      else r

  unfoldable pub set_max_resource : Resource → ResourceList → Resource
  set_max_resource r [] = r
  set_max_resource r ((name, q) ∷ rl) = set_max_resource (set_max_entry r name q) rl

  unfoldable pub add_containers : Resource → List Container → Resource
  add_containers r [] = r
  add_containers r (c ∷ cs) = add_containers (add r c.requests) cs

  unfoldable pub max_containers : Resource → List Container → Resource
  max_containers r [] = r
  max_containers r (c ∷ cs) = max_containers (set_max_resource r c.requests) cs

  unfoldable pub get_resource_request_for_pool : Pod → Resource
  unfolding add_containers one_more_pod
  get_resource_request_for_pool pod = one_more_pod (add_containers empty_resource pod.containers)

  unfoldable pub calculate_pod_request_resource : Pod → Resource
  unfolding add_containers max_containers one_more_pod
  calculate_pod_request_resource pod =
      one_more_pod
        (max_containers (add_containers empty_resource pod.containers) pod.init_containers)

  unfoldable pub sum_requests : Resource → List Pod → Resource
  sum_requests sum [] = sum
  sum_requests sum (pod ∷ pods) = sum_requests (plus sum (calculate_pod_request_resource pod)) pods

  unfoldable pub calculate_sum_pods_request_resource : List Pod → Resource
  unfolding sum_requests
  calculate_sum_pods_request_resource pods = sum_requests empty_resource pods
