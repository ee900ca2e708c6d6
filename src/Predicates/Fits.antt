-- ===== src/Predicates/Fits.antt =====
-- What PodFitsResources of pkg/scheduler/algorithm/predicates/predicates.go promises: a node takes the
-- pod without giving away more than it has.
use ai_scheduler.Prelude.{
  ℕ, ◌+◌, ◌≡◌, refl, sym, ap, ◌∙◌, Bool, true, false, some, Option, String, List, [], ◌∷◌, ◌++◌,
  length, length-append, str_eq_iff, arith, subst,
}
use ai_scheduler.Prelude.Dict
use ai_scheduler.Prelude.Dict.{Dict}
use ai_scheduler.Prelude.Int64
use ai_scheduler.Kube.{Pod, Node, External}
use ai_scheduler.Info.NodeInfo.{NodeInfo, add_pod, calculate_resource, add_request}
use ai_scheduler.Info.Resource.Requests.{add_containers-IsResource}
use ai_scheduler.Info.Resource.{Resource, empty_resource, value_of, max_containers}
use ai_scheduler.Info.Resource.Amount.{
  empty_resource-IsResource, Dimension, cpu, memory, ephemeral_storage, pods, scalar, amount,
  IsResource, amount-plus,
}
use ai_scheduler.Predicates.{
  Reason, verdict, by_reasons, get_resource_request, is_zero_request, check, is_ignored,
  check_scalars, check_request, check_pods, pod_fits_resources, request_of, ignored_of,
  PredicateMetadata,
}

append-nil : (xs ys : List Reason) → xs ++ ys ≡ [] → (xs ≡ []) × (ys ≡ [])
append-nil [] ys e = (refl, e)
append-nil (x ∷ xs) ys e = absurd (ground arith)

by_reasons-nil : (rs qs : List Reason) → by_reasons rs ≡ verdict true qs → rs ≡ []
unfolding by_reasons
by_reasons-nil [] qs e = refl
by_reasons-nil (r ∷ rs) qs e = absurd (ground arith)

check-nil :
    (name : String) (r u a : ℕ) (rest : List Reason)
    → check name r u a rest ≡ []
    → (Int64.lt a (Int64.add r u) ≡ false) × (rest ≡ [])
unfolding check
check-nil name r u a rest e = ground arith

-- The dimensions that PodFitsResources compares for a request: CPU, memory, ephemeral storage, and the
-- scalars that the request names and that are not ignored.
abbrev pub Compared : (String → Bool) → Resource → Dimension → Type 0
Compared ignored r cpu = Unit
Compared ignored r memory = Unit
Compared ignored r ephemeral_storage = Unit
Compared ignored r pods = ⊥
Compared ignored r (scalar name) =
    (Dict.has name r.scalar_resources ≡ true) × (ignored name ≡ false)

module _ (extended : String → Bool) (ignored : List String) where
  check_scalars-nil :
      (m : Dict ℕ) (used allocatable : Resource) (name : String)
      → check_scalars extended ignored m used allocatable ≡ []
      → Dict.has name m ≡ true
      → is_ignored extended ignored name ≡ false
      → Int64.lt
          (value_of name allocatable.scalar_resources)
          (Int64.add (value_of name m) (value_of name used.scalar_resources))
        ≡ false
  unfolding check_scalars value_of Dict.has Dict.lookup check
  check_scalars-nil [] used allocatable name e h i = absurd (ground arith)
  check_scalars-nil ((k, q) ∷ m) used allocatable name e h i =
      ground (arith, str_eq_iff k name, check_scalars-nil m used allocatable name)

  check_request-nil :
      (request used allocatable : Resource) (d : Dimension)
      → check_request extended ignored request used allocatable ≡ []
      → Compared (is_ignored extended ignored) request d
      → Int64.lt (amount d allocatable) (Int64.add (amount d request) (amount d used)) ≡ false
  unfolding check_request amount
  check_request-nil request used allocatable d e c =
      let (a, e1) = check-nil _ _ _ _ _ e in
      let (b, e2) = check-nil _ _ _ _ _ e1 in
      let (s, e3) = check-nil _ _ _ _ _ e2 in compared d a b s e3 c
    where
      compared :
          (d : Dimension)
          → Int64.lt allocatable.milli_cpu (Int64.add request.milli_cpu used.milli_cpu) ≡ false
          → Int64.lt allocatable.memory (Int64.add request.memory used.memory) ≡ false
          → Int64.lt allocatable.ephemeral_storage
              (Int64.add request.ephemeral_storage used.ephemeral_storage)
            ≡ false
          → check_scalars extended ignored request.scalar_resources used allocatable ≡ []
          → Compared (is_ignored extended ignored) request d
          → Int64.lt (amount d allocatable) (Int64.add (amount d request) (amount d used)) ≡ false
      compared cpu a b s e c = a
      compared memory a b s e c = b
      compared ephemeral_storage a b s e c = s
      compared pods a b s e c = absurd c
      compared (scalar name) a b s e (h, i) =
          check_scalars-nil request.scalar_resources used allocatable name e h i

check_pods-nil :
    (n : NodeInfo)
    → check_pods n ≡ []
    → Int64.lt n.allocatable_resource.allowed_pod_number (length n.pods + 1) ≡ false
unfolding check_pods
check_pods-nil n e = ground arith

module _ (ext : External) (extended : String → Bool) where
  fits_lem :
      (pod : Pod) (meta : Option PredicateMetadata) (n : NodeInfo) (node : Node)
      → n.node ≡ some node
      → is_zero_request (request_of ext pod meta) ≡ false
      → pod_fits_resources ext extended pod meta n
        ≡ by_reasons (
            check_pods n
            ++ check_request extended
                (ignored_of meta)
                (request_of ext pod meta)
                n.requested_resource
                n.allocatable_resource)
  unfolding pod_fits_resources
  fits_lem pod meta n node e z = rw (pod_fits_resources, e, z) refl

  -- A node that takes a pod whose request is not zero.
  room :
      (pod : Pod) (meta : Option PredicateMetadata) (n : NodeInfo) (node : Node) (rs : List Reason)
      → n.node ≡ some node
      → is_zero_request (request_of ext pod meta) ≡ false
      → pod_fits_resources ext extended pod meta n ≡ verdict true rs
      → (check_pods n ≡ [])
        × (check_request extended
              (ignored_of meta)
              (request_of ext pod meta)
              n.requested_resource
              n.allocatable_resource
            ≡ [])
  room pod meta n node rs e z fits =
      append-nil (check_pods n) _ (by_reasons-nil _ rs (sym (fits_lem pod meta n node e z) ∙ fits))

  calculate_resource-IsResource : (pod : Pod) → IsResource (calculate_resource ext pod)
  unfolding calculate_resource
  calculate_resource-IsResource pod =
      add_containers-IsResource ext empty_resource pod.containers empty_resource-IsResource

  without_init :
      (pod : Pod)
      → pod.init_containers ≡ []
      → get_resource_request ext pod ≡ calculate_resource ext pod
  unfolding get_resource_request calculate_resource max_containers
  without_init pod e = rw (e) refl

  -- AddPod adds the pod's request in every dimension but that of the pods.
  amount-add_pod :
      (g : ℕ) (n : NodeInfo) (pod : Pod) (d : Dimension)
      → IsResource n.requested_resource
      → Compared (λ s. false) (calculate_resource ext pod) d
      → amount d (add_pod ext g n pod).0.requested_resource
        ≡ Int64.add (amount d (calculate_resource ext pod)) (amount d n.requested_resource)
  unfolding add_pod add_request amount
  amount-add_pod g n pod cpu x c =
      amount-plus cpu n.requested_resource _ x (calculate_resource-IsResource pod)
      ∙ Int64.add_comm _ _
  amount-add_pod g n pod memory x c =
      amount-plus memory n.requested_resource _ x (calculate_resource-IsResource pod)
      ∙ Int64.add_comm _ _
  amount-add_pod g n pod ephemeral_storage x c =
      amount-plus ephemeral_storage n.requested_resource _ x (calculate_resource-IsResource pod)
      ∙ Int64.add_comm _ _
  amount-add_pod g n pod pods x c = absurd c
  amount-add_pod g n pod (scalar name) x c =
      amount-plus (scalar name) n.requested_resource _ x (calculate_resource-IsResource pod)
      ∙ Int64.add_comm _ _

  any_scalar :
      (ignored : String → Bool) (r : Resource) (d : Dimension)
      → Compared ignored r d
      → Compared (λ s. false) r d
  any_scalar ignored r cpu c = tt
  any_scalar ignored r memory c = tt
  any_scalar ignored r ephemeral_storage c = tt
  any_scalar ignored r pods c = c
  any_scalar ignored r (scalar name) (h, i) = (h, refl)

  -- Where PodFitsResources accepts a pod that requests something and has no init containers, with no
  -- metadata or with one whose request is the pod's, on a node that is set and whose requests are
  -- int64 words without a scalar twice, the node with the pod added has no more pods than it allows,
  -- and no more requested of it than it has, in CPU, memory, ephemeral storage and each scalar that
  -- the pod requests and that is not an extended resource that the metadata ignores, as signed
  -- amounts.
  pub pod_fits_resources-add_pod :
      (g : ℕ) (pod : Pod) (meta : Option PredicateMetadata) (n : NodeInfo) (node : Node)
      (rs : List Reason)
      → n.node ≡ some node
      → IsResource n.requested_resource
      → pod.init_containers ≡ []
      → request_of ext pod meta ≡ get_resource_request ext pod
      → is_zero_request (get_resource_request ext pod) ≡ false
      → pod_fits_resources ext extended pod meta n ≡ verdict true rs
      → let after = (add_pod ext g n pod).0 in
        (Int64.lt after.allocatable_resource.allowed_pod_number (length after.pods) ≡ false)
        × ((d : Dimension)
            → Compared (is_ignored extended (ignored_of meta)) (get_resource_request ext pod) d
            → Int64.lt (amount d after.allocatable_resource) (amount d after.requested_resource)
              ≡ false)
  unfolding add_pod
  pod_fits_resources-add_pod g pod meta n node rs e x i m z fits =
      let (few, enough) = room pod meta n node rs e (ap is_zero_request m ∙ z) fits in
      let r = m ∙ without_init pod i in
      let ignored = is_ignored extended (ignored_of meta) in
      (
        ap (λ k. Int64.lt n.allocatable_resource.allowed_pod_number k)
              (length-append n.pods (pod ∷ []))
            ∙ check_pods-nil n few,
        λ d c.
            let c' = subst (λ q. Compared ignored q d) (sym m) c in
            ap (Int64.lt (amount d n.allocatable_resource)) (
              amount-add_pod g n pod d x (
                any_scalar ignored (calculate_resource ext pod) d
                  (subst (λ q. Compared ignored q d) r c'))
              ∙ ap (λ q. Int64.add (amount d q) (amount d n.requested_resource)) (sym r))
            ∙ check_request-nil extended (ignored_of meta) (request_of ext pod meta)
                n.requested_resource n.allocatable_resource d enough c',
      )
