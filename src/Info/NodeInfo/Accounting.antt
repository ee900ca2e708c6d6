-- ===== src/Info/NodeInfo/Accounting.antt =====
-- NodeInfo's running totals: AddPod and RemovePod of node_info.go keep them equal to the sums over
-- the pods that are on the node.
use ai_scheduler.Prelude.{
  ℕ, ◌≡◌, refl, sym, ◌∙◌, ap, List, [], ◌∷◌, ◌++◌, some, String, arith, inl, inr, Option-cases,
}
use ai_scheduler.Prelude.Int64
use ai_scheduler.Prelude.Int64.{InRange}
use ai_scheduler.Kube.{Pod, Container, External}
use ai_scheduler.Info.Resource.{Resource, empty_resource}
use ai_scheduler.Info.Resource.Amount.{
  Same, Dimension, cpu, memory, ephemeral_storage, pods, scalar, amount, IsResource, amount-plus,
  amount-sub, plus-IsResource, sub-IsResource, empty_resource-IsResource, amount-empty_resource,
}
use ai_scheduler.Info.Resource.Requests.{
  requested_by, amount-add_containers, add_containers-IsResource,
}
use ai_scheduler.Info.NodeInfo.{
  NodeInfo, new_node_info, calculate_resource, add_request, sub_request, add_pod, remove_pod,
  release_pod, get_pod_key, delete_key, sum_nonzero_cpu, sum_nonzero_memory, nonzero_cpu,
  nonzero_memory, add_nonzero, sub_nonzero,
}
use ai_scheduler.Info.NodeInfo.Pods.{
  tally, find_key, tally-InRange, tally-delete_key, delete_key-found, tally-append,
}

cpu-InRange : (sum : ℕ) (cs : List Container) → InRange sum → InRange (sum_nonzero_cpu sum cs)
unfolding sum_nonzero_cpu
cpu-InRange sum [] w = w
cpu-InRange sum (c ∷ cs) w =
    cpu-InRange (Int64.add sum (nonzero_cpu c.requests)) cs (Int64.add-InRange _ _)

memory-InRange : (sum : ℕ) (cs : List Container) → InRange sum → InRange (sum_nonzero_memory sum cs)
unfolding sum_nonzero_memory
memory-InRange sum [] w = w
memory-InRange sum (c ∷ cs) w =
    memory-InRange (Int64.add sum (nonzero_memory c.requests)) cs (Int64.add-InRange _ _)

-- What is left of a sum after one of its terms is subtracted.
sub-add_left : (a b c : ℕ) → InRange b → InRange c → a ≡ Int64.add b c → Int64.sub a b ≡ c
sub-add_left a b c w v e = rw (e, Int64.add_comm b c) (Int64.sub-add c b v w)

module _ (ext : External) where
  -- What one pod counts for. Its place in the pods dimension is not counted on the node.
  unfoldable pub share : Dimension → Pod → ℕ
  share pods p = 0
  share d p = requested_by ext d p.containers

  pub record IsAccounted (n : NodeInfo) : Type 0 where
    pub resource : IsResource n.requested_resource
    pub requests : (d : Dimension) → amount d n.requested_resource ≡ tally (share d) n.pods
    pub nonzero_cpu :
        n.nonzero_request.milli_cpu ≡ tally (λ p. sum_nonzero_cpu 0 p.containers) n.pods
    pub nonzero_memory :
        n.nonzero_request.memory ≡ tally (λ p. sum_nonzero_memory 0 p.containers) n.pods

  calculate_resource-IsResource : (p : Pod) → IsResource (calculate_resource ext p)
  unfolding calculate_resource
  calculate_resource-IsResource p =
      add_containers-IsResource ext empty_resource p.containers empty_resource-IsResource

  requested_by-InRange : (d : Dimension) (cs : List Container) → InRange (requested_by ext d cs)
  unfolding requested_by
  requested_by-InRange d [] = omega arith
  requested_by-InRange d (c ∷ cs) = Int64.add-InRange _ _

  amount-calculate_resource :
      (d : Dimension) (p : Pod)
      → amount d (calculate_resource ext p) ≡ requested_by ext d p.containers
  unfolding calculate_resource
  amount-calculate_resource d p =
      rw
        (
          amount-add_containers ext d empty_resource p.containers
              (empty_resource-IsResource.words d),
          amount-empty_resource d,
          Int64.add_comm 0 (requested_by ext d p.containers),
        )
        (Int64.add_zero _ (requested_by-InRange d p.containers))

  amount-add_request :
      (d : Dimension) (r : Resource) (p : Pod)
      → IsResource r
      → amount d (add_request r (calculate_resource ext p)) ≡ Int64.add (amount d r) (share d p)
  unfolding add_request share amount
  amount-add_request pods r p v = sym (Int64.add_zero _ (v.words pods))
  amount-add_request cpu r p v =
      amount-plus cpu r _ v (calculate_resource-IsResource p)
      ∙ ap (Int64.add (amount cpu r)) (amount-calculate_resource cpu p)
  amount-add_request memory r p v =
      amount-plus memory r _ v (calculate_resource-IsResource p)
      ∙ ap (Int64.add (amount memory r)) (amount-calculate_resource memory p)
  amount-add_request ephemeral_storage r p v =
      amount-plus ephemeral_storage r _ v (calculate_resource-IsResource p)
      ∙ ap (Int64.add (amount ephemeral_storage r)) (amount-calculate_resource ephemeral_storage p)
  amount-add_request (scalar k) r p v =
      amount-plus (scalar k) r _ v (calculate_resource-IsResource p)
      ∙ ap (Int64.add (amount (scalar k) r)) (amount-calculate_resource (scalar k) p)

  amount-sub_request :
      (d : Dimension) (r : Resource) (p : Pod)
      → IsResource r
      → amount d (sub_request r (calculate_resource ext p)) ≡ Int64.sub (amount d r) (share d p)
  unfolding sub_request share amount
  amount-sub_request pods r p v = sym (Int64.sub_zero _ (v.words pods))
  amount-sub_request cpu r p v =
      amount-sub cpu r _ v (calculate_resource-IsResource p)
      ∙ ap (Int64.sub (amount cpu r)) (amount-calculate_resource cpu p)
  amount-sub_request memory r p v =
      amount-sub memory r _ v (calculate_resource-IsResource p)
      ∙ ap (Int64.sub (amount memory r)) (amount-calculate_resource memory p)
  amount-sub_request ephemeral_storage r p v =
      amount-sub ephemeral_storage r _ v (calculate_resource-IsResource p)
      ∙ ap (Int64.sub (amount ephemeral_storage r)) (amount-calculate_resource ephemeral_storage p)
  amount-sub_request (scalar k) r p v =
      amount-sub (scalar k) r _ v (calculate_resource-IsResource p)
      ∙ ap (Int64.sub (amount (scalar k) r)) (amount-calculate_resource (scalar k) p)

  add_request-IsResource :
      (r : Resource) (p : Pod)
      → IsResource r
      → IsResource (add_request r (calculate_resource ext p))
  unfolding add_request
  add_request-IsResource r p v = record {
    words = λ d. rw (amount-add_request d r p v) (Int64.add-InRange _ _);
    distinct = (plus-IsResource r _ v (calculate_resource-IsResource p)).distinct;
  }

  sub_request-IsResource :
      (r : Resource) (p : Pod)
      → IsResource r
      → IsResource (sub_request r (calculate_resource ext p))
  unfolding sub_request
  sub_request-IsResource r p v = record {
    words = λ d. rw (amount-sub_request d r p v) (Int64.sub-InRange _ _);
    distinct = (sub-IsResource r _ v (calculate_resource-IsResource p)).distinct;
  }

  -- A new NodeInfo accounts for no pod.
  pub new_node_info-IsAccounted : (g : ℕ) → IsAccounted (new_node_info g)
  unfolding new_node_info tally
  new_node_info-IsAccounted g = record {
    resource = empty_resource-IsResource;
    requests = amount-empty_resource;
    nonzero_cpu = refl;
    nonzero_memory = refl;
  }

  tally-snoc :
      (f : Pod → ℕ) (ps : List Pod) (p : Pod)
      → InRange (f p)
      → tally f (ps ++ p ∷ []) ≡ Int64.add (tally f ps) (f p)
  unfolding tally
  tally-snoc f ps p w =
      tally-append f ps (p ∷ []) ∙ ap (Int64.add (tally f ps)) (Int64.add_zero (f p) w)

  share-InRange : (d : Dimension) (p : Pod) → InRange (share d p)
  unfolding share
  share-InRange pods p = omega arith
  share-InRange cpu p = requested_by-InRange cpu p.containers
  share-InRange memory p = requested_by-InRange memory p.containers
  share-InRange ephemeral_storage p = requested_by-InRange ephemeral_storage p.containers
  share-InRange (scalar k) p = requested_by-InRange (scalar k) p.containers

  share-same : (d : Dimension) (p q : Pod) → p.containers ≡ q.containers → share d p ≡ share d q
  unfolding share
  share-same pods p q e = refl
  share-same cpu p q e = ap (requested_by ext cpu) e
  share-same memory p q e = ap (requested_by ext memory) e
  share-same ephemeral_storage p q e = ap (requested_by ext ephemeral_storage) e
  share-same (scalar k) p q e = ap (requested_by ext (scalar k)) e

  -- AddPod keeps the totals of a NodeInfo equal to the sums over its pods, in every dimension:
  -- they count the new pod with the others.
  pub add_pod-IsAccounted :
      (g : ℕ) (n : NodeInfo) (p : Pod) → IsAccounted n → IsAccounted (add_pod ext g n p).0
  unfolding add_pod add_nonzero
  add_pod-IsAccounted g n p a = record {
    resource = add_request-IsResource n.requested_resource p a.resource;
    requests = λ d.
        rw (amount-add_request d n.requested_resource p a.resource, a.requests d)
          (sym (tally-snoc (share d) n.pods p (share-InRange d p)));
    nonzero_cpu = ground (
      arith,
      a.nonzero_cpu,
      tally-snoc (λ q. sum_nonzero_cpu 0 q.containers) n.pods p
          (cpu-InRange 0 p.containers (omega arith)),
    );
    nonzero_memory = ground (
      arith,
      a.nonzero_memory,
      tally-snoc (λ q. sum_nonzero_memory 0 q.containers) n.pods p
          (memory-InRange 0 p.containers (omega arith)),
    );
  }

  release_pod-IsAccounted :
      (g : ℕ) (n : NodeInfo) (pod p : Pod) (k : String) (left : List Pod)
      → IsAccounted n
      → find_key k n.pods ≡ some p
      → delete_key k n.pods ≡ some left
      → p.containers ≡ pod.containers
      → IsAccounted (release_pod ext g n pod left)
  unfolding release_pod sub_nonzero
  release_pod-IsAccounted g n pod p k left a found gone same =
      let freed_cpu =
        sub-add_left _ _ (tally (λ q. sum_nonzero_cpu 0 q.containers) left)
          (cpu-InRange 0 p.containers (omega arith)) (tally-InRange _ left)
          (a.nonzero_cpu ∙ tally-delete_key _ k n.pods left p found gone) in
      let freed_memory =
        sub-add_left _ _ (tally (λ q. sum_nonzero_memory 0 q.containers) left)
          (memory-InRange 0 p.containers (omega arith)) (tally-InRange _ left)
          (a.nonzero_memory ∙ tally-delete_key _ k n.pods left p found gone) in
      record {
        resource = sub_request-IsResource n.requested_resource pod a.resource;
        requests = λ d.
            rw (amount-sub_request d n.requested_resource pod a.resource, ← share-same d p pod same)
              (sub-add_left _ _ (tally (share d) left) (share-InRange d p) (tally-InRange _ left)
                (a.requests d ∙ tally-delete_key _ k n.pods left p found gone));
        nonzero_cpu = rw (← same) freed_cpu;
        nonzero_memory = rw (← same) freed_memory;
      }

  affinity-IsAccounted :
      (n : NodeInfo) (ps : List Pod)
      → IsAccounted n
      → IsAccounted (record n { pods_with_affinity = ps })
  affinity-IsAccounted n ps a = record {
    resource = a.resource;
    requests = a.requests;
    nonzero_cpu = a.nonzero_cpu;
    nonzero_memory = a.nonzero_memory;
  }

  -- RemovePod keeps the totals of a NodeInfo equal to the sums over its pods, on its error paths
  -- too, provided that the stored pod with the given pod's key has the given pod's containers.
  pub remove_pod-IsAccounted :
      (g : ℕ) (n : NodeInfo) (pod : Pod)
      → IsAccounted n
      → ((k : String) (p : Pod)
          → get_pod_key pod ≡ some k
          → find_key k n.pods ≡ some p
          → p.containers ≡ pod.containers)
      → IsAccounted (remove_pod ext g n pod).0
  unfolding remove_pod
  remove_pod-IsAccounted g n pod a same = elim (Option-cases (get_pod_key pod)) [
    | inl e ↦ rw (e, remove_pod) a
    | inr (k, e) ↦ elim (Option-cases (delete_key k n.pods)) [
      | inl missing ↦ elim (Option-cases n.node) [
        | inl none_set ↦ rw (e, remove_pod, missing, none_set) (affinity-IsAccounted n _ a)
        | inr (node, is_set) ↦ rw (e, remove_pod, missing, is_set) (affinity-IsAccounted n _ a)
      ]
      | inr (left, gone) ↦
          let (p, found) = delete_key-found k n.pods left gone in
          rw (e, remove_pod, gone)
            (release_pod-IsAccounted g _ pod p k left (affinity-IsAccounted n _ a) found gone
              (same k p e found))
    ]
  ]

  pub amount-sub_request-add_request :
      (r : Resource) (p : Pod)
      → IsResource r
      → Same (sub_request (add_request r (calculate_resource ext p)) (calculate_resource ext p)) r
  amount-sub_request-add_request r p v d =
      rw (amount-sub_request d _ p (add_request-IsResource r p v), amount-add_request d r p v)
        (Int64.sub-add _ _ (v.words d) (share-InRange d p))
