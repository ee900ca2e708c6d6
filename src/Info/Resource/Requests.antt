-- ===== src/Info/Resource/Requests.antt =====
-- Add and SetMaxResource of node_info.go, and the sums over a pod's containers of util.go, against
-- what the resource lists ask for in each dimension.
use ai_scheduler.Prelude.{
  ℕ, ◌≡◌, refl, sym, Bool, true, false, not, ◌&&◌, ◌||◌, List, [], ◌∷◌, String, str_eq, str_eq_iff,
  if◌then◌else◌, arith,
}
use ai_scheduler.Prelude.Dict
use ai_scheduler.Prelude.Dict.{Dict}
use ai_scheduler.Prelude.Int64
use ai_scheduler.Prelude.Int64.{InRange}
use ai_scheduler.Kube.{Quantity, ResourceList, Container, Pod, External}
use ai_scheduler.Info.Resource.{
  Resource, value_of, add_entry, add, new_resource, add_containers, one_more_pod,
  get_resource_request_for_pool, empty_resource, resource_cpu, resource_memory, resource_pods,
  resource_ephemeral_storage,
}
use ai_scheduler.Info.Resource.Amount.{
  Dimension, cpu, memory, ephemeral_storage, pods, scalar, amount, IsResource, value_of-insert,
  empty_resource-IsResource, amount-empty_resource,
}

-- A name has one of the four meanings at most.
record IsExclusive (name : String) : Type 0 where
  not_cpu :
      str_eq name resource_cpu ≡ true
      → (str_eq name resource_memory ≡ false)
        × (str_eq name resource_pods ≡ false)
        × (str_eq name resource_ephemeral_storage ≡ false)
  not_memory :
      str_eq name resource_memory ≡ true
      → (str_eq name resource_pods ≡ false) × (str_eq name resource_ephemeral_storage ≡ false)
  not_pods : str_eq name resource_pods ≡ true → str_eq name resource_ephemeral_storage ≡ false

exclusive : (name a b : String) → str_eq a b ≡ false → str_eq name a ≡ true → str_eq name b ≡ false
exclusive name a b e h = rw ((str_eq_iff name a).0 h) e

is_exclusive : (name : String) → IsExclusive name
unfolding str_eq
is_exclusive name = record {
  not_cpu = λ h. (
    exclusive name _ resource_memory refl h,
    exclusive name _ resource_pods refl h,
    exclusive name _ resource_ephemeral_storage refl h,
  );
  not_memory = λ h.
      (exclusive name _ resource_pods refl h, exclusive name _ resource_ephemeral_storage refl h);
  not_pods = λ h. exclusive name _ resource_ephemeral_storage refl h;
}

is_special : String → Bool
is_special name =
    str_eq name resource_cpu
    || str_eq name resource_memory
    || str_eq name resource_pods
    || str_eq name resource_ephemeral_storage

-- One pod counts once in the pods dimension, beside what its containers ask for.
unfoldable pub pod_share : Dimension → ℕ
pod_share pods = 1
pod_share d = 0

amount-one_more_pod :
    (d : Dimension) (r : Resource)
    → InRange (amount d r)
    → amount d (one_more_pod r) ≡ Int64.add (amount d r) (pod_share d)
unfolding amount one_more_pod pod_share
amount-one_more_pod pods r w = refl
amount-one_more_pod cpu r w = sym (Int64.add_zero _ w)
amount-one_more_pod memory r w = sym (Int64.add_zero _ w)
amount-one_more_pod ephemeral_storage r w = sym (Int64.add_zero _ w)
amount-one_more_pod (scalar s) r w = sym (Int64.add_zero _ w)

module _ (ext : External) where
  -- Whether an entry of this name counts in a dimension, and with which of its two readings.
  unfoldable pub counts_in : Dimension → String → Bool
  unfolding is_special
  counts_in cpu name = str_eq name resource_cpu
  counts_in memory name = str_eq name resource_memory
  counts_in pods name = str_eq name resource_pods
  counts_in ephemeral_storage name = str_eq name resource_ephemeral_storage
  counts_in (scalar s) name =
      str_eq name s && (not (is_special name) && ext.is_scalar_resource_name name)

  unfoldable pub reading : Dimension → Quantity → ℕ
  reading cpu q = q.milli_value
  reading d q = q.value

  -- The sum of a list's entries in one dimension, as an int64.
  unfoldable pub requested : Dimension → ResourceList → ℕ
  unfolding counts_in reading
  requested d [] = 0
  requested d ((name, q) ∷ rl) =
      let rest = requested d rl in if counts_in d name then Int64.add (reading d q) rest else rest

  amount-add_entry :
      (d : Dimension) (r : Resource) (name : String) (q : Quantity)
      → amount d (add_entry ext r name q)
        ≡ (if counts_in d name then Int64.add (amount d r) (reading d q) else amount d r)
  unfolding amount add_entry counts_in reading is_special
  amount-add_entry cpu r name q = ground (arith, is_exclusive name)
  amount-add_entry memory r name q = ground (arith, is_exclusive name)
  amount-add_entry ephemeral_storage r name q = ground (arith, is_exclusive name)
  amount-add_entry pods r name q = ground (arith, is_exclusive name)
  amount-add_entry (scalar s) r name q = ground (
    arith,
    is_exclusive name,
    str_eq_iff name s,
    value_of-insert name s (Int64.add (value_of name r.scalar_resources) q.value)
        r.scalar_resources,
  )

  -- Add adds in every dimension what the list asks for there, to an amount that is an int64
  -- word.
  pub amount-add :
      (d : Dimension) (r : Resource) (rl : ResourceList)
      → InRange (amount d r)
      → amount d (add ext r rl) ≡ Int64.add (amount d r) (requested d rl)
  unfolding add requested
  amount-add d r [] w = sym (Int64.add_zero _ w)
  amount-add d r ((name, q) ∷ rl) w = ground (
    arith,
    amount-add d (add_entry ext r name q) rl,
    amount-add_entry d r name q,
    Int64.add-InRange (amount d r) (reading d q),
    Int64.add_assoc (amount d r) (reading d q) (requested d rl),
  )

  -- What the containers of a pod ask for in one dimension.
  unfoldable pub requested_by : Dimension → List Container → ℕ
  unfolding requested
  requested_by d [] = 0
  requested_by d (c ∷ cs) = Int64.add (requested d c.requests) (requested_by d cs)

  pub amount-add_containers :
      (d : Dimension) (r : Resource) (cs : List Container)
      → InRange (amount d r)
      → amount d (add_containers ext r cs) ≡ Int64.add (amount d r) (requested_by d cs)
  unfolding add_containers requested_by
  amount-add_containers d r [] w = sym (Int64.add_zero _ w)
  amount-add_containers d r (c ∷ cs) w = ground (
    arith,
    amount-add_containers d (add ext r c.requests) cs,
    amount-add d r c.requests w,
    Int64.add-InRange (amount d r) (requested d c.requests),
    Int64.add_assoc (amount d r) (requested d c.requests) (requested_by d cs),
  )

  -- GetResourceRequestForPool asks in every dimension for the sum over the pod's containers, and
  -- for one pod more.
  pub amount-get_resource_request_for_pool :
      (d : Dimension) (pod : Pod)
      → amount d (get_resource_request_for_pool ext pod)
        ≡ Int64.add (Int64.add 0 (requested_by d pod.containers)) (pod_share d)
  unfolding get_resource_request_for_pool
  amount-get_resource_request_for_pool d pod =
      let sum =
        amount-add_containers d empty_resource pod.containers (empty_resource-IsResource.words d) in
      ground (
        arith,
        sum,
        amount-one_more_pod d (add_containers ext empty_resource pod.containers),
        amount-empty_resource d,
        Int64.add-InRange (amount d empty_resource) (requested_by d pod.containers),
      )

  add_entry-Distinct :
      (r : Resource) (name : String) (q : Quantity)
      → Dict.Distinct r.scalar_resources
      → Dict.Distinct (add_entry ext r name q).scalar_resources
  unfolding add_entry
  add_entry-Distinct r name q d = ground (
    arith,
    Dict.insert-Distinct name (Int64.add (value_of name r.scalar_resources) q.value)
        r.scalar_resources d,
  )

  add-Distinct :
      (r : Resource) (rl : ResourceList)
      → Dict.Distinct r.scalar_resources
      → Dict.Distinct (add ext r rl).scalar_resources
  unfolding add
  add-Distinct r [] d = d
  add-Distinct r ((name, q) ∷ rl) d =
      add-Distinct (add_entry ext r name q) rl (add_entry-Distinct r name q d)

  pub add-IsResource : (r : Resource) (rl : ResourceList) → IsResource r → IsResource (add ext r rl)
  add-IsResource r rl v = record {
    words = λ d. rw (amount-add d r rl (v.words d)) (Int64.add-InRange _ _);
    distinct = add-Distinct r rl v.distinct;
  }

  pub new_resource-IsResource : (rl : ResourceList) → IsResource (new_resource ext rl)
  unfolding new_resource
  new_resource-IsResource rl = add-IsResource empty_resource rl empty_resource-IsResource

  pub add_containers-IsResource :
      (r : Resource) (cs : List Container) → IsResource r → IsResource (add_containers ext r cs)
  unfolding add_containers
  add_containers-IsResource r [] v = v
  add_containers-IsResource r (c ∷ cs) v =
      add_containers-IsResource (add ext r c.requests) cs (add-IsResource r c.requests v)

  pub get_resource_request_for_pool-IsResource :
      (pod : Pod) → IsResource (get_resource_request_for_pool ext pod)
  unfolding get_resource_request_for_pool
  get_resource_request_for_pool-IsResource pod =
      let v = add_containers-IsResource empty_resource pod.containers empty_resource-IsResource in
      record {
        words = λ d. rw (amount-one_more_pod d _ (v.words d)) (Int64.add-InRange _ _);
        distinct = v.distinct;
      }
