-- ===== src/Queue/Presence.antt =====
-- AddIfNotPresent and AddUnschedulableIfNotPresent of pkg/scheduler/internal/queue/scheduling_queue.go
-- on the places of the pods: a pod that waits somewhere stays there.
use ai_scheduler.Prelude.{
  ℕ, ◌≡◌, refl, ◌∙◌, Bool, true, none, some, Option, if◌then◌else◌, arith, Option-cases, inl, inr,
  Bool-cases, ltb,
}
use ai_scheduler.Prelude.Int64
use ai_scheduler.Kube.{Pod}
use ai_scheduler.Util.Heap
use ai_scheduler.Util.Heap.{Heap, HeapError, get_by_key, add_key, delete_key}
use ai_scheduler.Util.Heap.Order.{IsOrder}
use ai_scheduler.Util.Backoff.{PodBackoff}
use ai_scheduler.Util.Backoff.Steps.{IsBackoff, gc-IsBackoff, backoff_pod-Backed}
use ai_scheduler.Util.Backoff
use ai_scheduler.Queue.{
  QueueApi, QueueError, PriorityQueue, PodInfo, get, pods_compare_backoff_completed, new_pod_info,
  backoff_pod, ns_name_for_pod, pod_info_key_func,
}
use ai_scheduler.Queue.Ops.{
  add, add_if_not_present, add_unschedulable_if_not_present, delete_pod, add_to_active,
  delete_from_backoff, in_active, in_backoff, nominate,
}
use ai_scheduler.Queue.Ops
use ai_scheduler.Queue.Places.{Naming, is_in_key, is_unschedulable_key}
use ai_scheduler.Queue.Invariant.{
  Place, nowhere, in_active_q, in_backoff_q, in_unschedulable_q, same, place_of, place_of_lem,
  IsQueue, Leads, add_to_active_lem, nominate-Leads, get_is_in, is_unschedulable-get, in_active_lem,
  in_backoff_lem,
}
use ai_scheduler.Queue.Changes.{
  place_tells, backing-Leads, put_backoff, put_unschedulable, put_active,
}

module _ (api : QueueApi) (less : PodInfo → PodInfo → Bool) (o : IsOrder less)
    (names : Naming api) where
  pub place_of_key :
      (q : PriorityQueue) (pod p : Pod)
      → names.IsNamed pod
      → names.IsNamed p
      → same api pod p ≡ true
      → place_of api q pod ≡ place_of api q p
  place_of_key q pod p n m e =
      rw
        (
          place_of_lem api q pod,
          place_of_lem api q p,
          is_in_key api less names q.active_q pod p e,
          is_in_key api less names q.pod_backoff_q pod p e,
          is_unschedulable_key api less names q.unschedulable_q pod p n m e,
        )
        refl

  -- The queue that a pod was found in is its place.
  pub found_unschedulable :
      (q : PriorityQueue) (pod : Pod) (u : PodInfo)
      → IsQueue api less names q
      → names.IsNamed pod
      → get api pod q.unschedulable_q ≡ some u
      → place_of api q pod ≡ in_unschedulable_q
  found_unschedulable q pod u x n e =
      ground (arith, place_tells api less names q pod x n, is_unschedulable-get api q pod)

  pub found_active :
      (q : PriorityQueue) (pod : Pod) (i : PodInfo)
      → IsQueue api less names q
      → names.IsNamed pod
      → get_by_key q.active_q (api.meta_namespace_key pod) ≡ some i
      → place_of api q pod ≡ in_active_q
  found_active q pod i x n e =
      ground (arith, place_tells api less names q pod x n, get_is_in api q.active_q pod)

  pub found_backoff :
      (q : PriorityQueue) (pod : Pod) (i : PodInfo)
      → IsQueue api less names q
      → names.IsNamed pod
      → get_by_key q.pod_backoff_q (api.meta_namespace_key pod) ≡ some i
      → place_of api q pod ≡ in_backoff_q
  found_backoff q pod i x n e =
      ground (arith, place_tells api less names q pod x n, get_is_in api q.pod_backoff_q pod)

  pub found_nowhere :
      (q : PriorityQueue) (pod : Pod)
      → IsQueue api less names q
      → names.IsNamed pod
      → get api pod q.unschedulable_q ≡ none
      → get_by_key q.active_q (api.meta_namespace_key pod) ≡ none
      → get_by_key q.pod_backoff_q (api.meta_namespace_key pod) ≡ none
      → place_of api q pod ≡ nowhere
  found_nowhere q pod x n e f g = ground (
    arith,
    place_tells api less names q pod x n,
    is_unschedulable-get api q pod,
    get_is_in api q.active_q pod,
    get_is_in api q.pod_backoff_q pod,
  )

  -- The pod comes to this place if it is nowhere.
  abbrev pub or_place : Place → Place → Place
  or_place w nowhere = w
  or_place w in_active_q = in_active_q
  or_place w in_backoff_q = in_backoff_q
  or_place w in_unschedulable_q = in_unschedulable_q

  -- An operation that puts a pod in this place if it is nowhere, and moves no other.
  abbrev pub Puts : Pod → Place → PriorityQueue → PriorityQueue → Type 0
  Puts pod w q r =
      Leads api less names r
        (λ p. if same api pod p then or_place w (place_of api q p) else place_of api q p)

  stays-Puts :
      (q : PriorityQueue) (pod : Pod) (w v : Place)
      → IsQueue api less names q
      → names.IsNamed pod
      → place_of api q pod ≡ v
      → or_place w v ≡ v
      → Puts pod w q q
  stays-Puts q pod w v x n e f = (x, λ p m. ground (arith, place_of_key q pod p n m))

  comes-Puts :
      (q r : PriorityQueue) (pod : Pod) (w : Place)
      → names.IsNamed pod
      → place_of api q pod ≡ nowhere
      → Leads api less names r (λ p. if same api pod p then w else place_of api q p)
      → Puts pod w q r
  comes-Puts q r pod w n e (x, f) = (x, λ p m. ground (arith, f p m, place_of_key q pod p n m))

  -- AddIfNotPresent puts a pod that is nowhere into the activeQ, moves no other pod, and keeps the queue
  -- in good order.
  pub add_if_not_present-Puts :
      (now : ℕ) (pod : Pod) (q : PriorityQueue)
      → names.IsNamed pod
      → IsQueue api less names q
      → ((add_if_not_present api less now pod q).1 ≡ none)
        × Puts pod in_active_q q (add_if_not_present api less now pod q).0
  unfolding add_if_not_present new_pod_info
  add_if_not_present-Puts now pod q n x =
      let i : PodInfo = record { pod = pod; timestamp = now } in
      let active = in_active_lem api i q in
      let backing = in_backoff_lem api i q in
      elim (Option-cases (get api pod q.unschedulable_q)) [
        | inr (u, e) ↦
            rw (add_if_not_present, e)
              (refl, stays-Puts q pod in_active_q _ x n (found_unschedulable q pod u x n e) refl)
        | inl e ↦ elim (Option-cases (get_by_key q.active_q (api.meta_namespace_key pod))) [
          | inr (u, f) ↦
              rw (add_if_not_present, e, active, f)
                (refl, stays-Puts q pod in_active_q _ x n (found_active q pod u x n f) refl)
          | inl f ↦ elim (Option-cases (get_by_key q.pod_backoff_q (api.meta_namespace_key pod))) [
            | inr (u, g) ↦
                rw (add_if_not_present, e, active, f, backing, g)
                  (refl, stays-Puts q pod in_active_q _ x n (found_backoff q pod u x n g) refl)
            | inl g ↦
                let away = found_nowhere q pod x n e f g in
                rw (add_if_not_present, e, active, f, backing, g, add_to_active_lem api less i q)
                  (
                    refl,
                    nominate-Leads api less names pod _ _ (
                        comes-Puts q _ pod in_active_q n away
                          (put_active api less names o i q x n (ground arith) (ground arith))),
                  )
          ]
        ]
      ]

  backoff_pod-IsBackoff :
      (now : ℕ) (pod : Pod) (b : PodBackoff)
      → IsBackoff api.namespaced_key b
      → IsBackoff api.namespaced_key (backoff_pod api now pod b)
  unfolding backoff_pod
  backoff_pod-IsBackoff now pod b x =
      let id = ns_name_for_pod pod in
      let x' = gc-IsBackoff api.namespaced_key now b x in
      let y = (backoff_pod-Backed api.namespaced_key now id (Backoff.gc now b) x').invariant in
      elim (Option-cases (Backoff.get_backoff_time api.namespaced_key id (Backoff.gc now b))) [
        | inl e ↦ rw (backoff_pod, e) y
        | inr (t, e) ↦ elim (Bool-cases (ltb t now)) [
          | inl f ↦ rw (backoff_pod, e, f) y
          | inr f ↦ rw (backoff_pod, e, f) x'
        ]
      ]

  -- How AddUnschedulableIfNotPresent refuses a pod that waits somewhere.
  abbrev pub refusal : Place → Option QueueError
  refusal nowhere = none
  refusal in_active_q = some QueueError.in_active_q
  refusal in_backoff_q = some QueueError.in_backoff_q
  refusal in_unschedulable_q = some QueueError.in_unschedulable_q

  -- The queue for a pod that was tried in vain in this cycle.
  abbrev pub retry_place : ℕ → PriorityQueue → Place
  retry_place cycle q =
      if Int64.le cycle q.move_request_cycle then in_backoff_q else in_unschedulable_q

  put_unschedulable-Leads :
      (now : ℕ) (pod : Pod) (cycle : ℕ) (q : PriorityQueue)
      → names.IsNamed pod
      → IsQueue api less names q
      → place_of api q pod ≡ nowhere
      → ((Ops.put_unschedulable api now pod cycle q).1 ≡ none)
        × Leads api less names
            (Ops.put_unschedulable api now pod cycle q).0
            (λ p. if same api pod p then retry_place cycle q else place_of api q p)
  unfolding Ops.put_unschedulable new_pod_info Heap.add pod_info_key_func
  put_unschedulable-Leads now pod cycle q n x away =
      let i : PodInfo = record { pod = pod; timestamp = now } in
      let b = backoff_pod api now pod q.pod_backoff in
      let (x1, f1) =
        backing-Leads api less names b q x
          (backoff_pod-IsBackoff now pod q.pod_backoff x.backing) in
      let q1 : PriorityQueue = record q { pod_backoff = b } in
      let away1 = f1 pod n ∙ away in
      elim (Bool-cases (Int64.le cycle q.move_request_cycle)) [
        | inl e ↦
            let (x2, f2) =
              put_backoff api less names (pods_compare_backoff_completed api b) i q1 x1 n
                (ground arith) (ground arith) in
            rw (Ops.put_unschedulable, e)
              (
                refl,
                nominate-Leads api less names pod _ _ (x2, λ p m. ground (arith, f2 p m, f1 p m)),
              )
        | inr e ↦
            let (x2, f2) =
              put_unschedulable api less names i q1 x1 n (ground arith) (ground arith) in
            rw (Ops.put_unschedulable, e)
              (
                refl,
                nominate-Leads api less names pod _ _ (x2, λ p m. ground (arith, f2 p m, f1 p m)),
              )
      ]

  -- AddUnschedulableIfNotPresent refuses a pod that waits somewhere, with the error for that place, and
  -- puts any other into the podBackoffQ if a move was asked for in the pod's cycle or later, else into
  -- the unschedulableQ. It moves no other pod and keeps the queue in good order.
  pub add_unschedulable_if_not_present-Puts :
      (now : ℕ) (pod : Pod) (cycle : ℕ) (q : PriorityQueue)
      → names.IsNamed pod
      → IsQueue api less names q
      → ((add_unschedulable_if_not_present api less now pod cycle q).1
          ≡ refusal (place_of api q pod))
        × Puts pod
            (retry_place cycle q)
            q
            (add_unschedulable_if_not_present api less now pod cycle q).0
  unfolding add_unschedulable_if_not_present new_pod_info
  add_unschedulable_if_not_present-Puts now pod cycle q n x =
      let i : PodInfo = record { pod = pod; timestamp = now } in
      let w = retry_place cycle q in
      let active = in_active_lem api i q in
      let backing = in_backoff_lem api i q in
      elim (Option-cases (get api pod q.unschedulable_q)) [
        | inr (u, e) ↦
            let at = found_unschedulable q pod u x n e in
            rw (add_unschedulable_if_not_present, e, at) (refl, stays-Puts q pod w _ x n at refl)
        | inl e ↦ elim (Option-cases (get_by_key q.active_q (api.meta_namespace_key pod))) [
          | inr (u, f) ↦
              let at = found_active q pod u x n f in
              rw (add_unschedulable_if_not_present, e, active, f, at)
                (refl, stays-Puts q pod w _ x n at refl)
          | inl f ↦ elim (Option-cases (get_by_key q.pod_backoff_q (api.meta_namespace_key pod))) [
            | inr (u, g) ↦
                let at = found_backoff q pod u x n g in
                rw (add_unschedulable_if_not_present, e, active, f, backing, g, at)
                  (refl, stays-Puts q pod w _ x n at refl)
            | inl g ↦
                let at = found_nowhere q pod x n e f g in
                let (ok, led) = put_unschedulable-Leads now pod cycle q n x at in
                rw (add_unschedulable_if_not_present, e, active, f, backing, g, at)
                  (ok, comes-Puts q _ pod w n at led)
          ]
        ]
      ]
