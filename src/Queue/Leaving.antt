-- ===== src/Queue/Leaving.antt =====
-- The moves out of the unschedulableQ of pkg/scheduler/internal/queue/scheduling_queue.go, on the places
-- of the pods.
use ai_scheduler.Prelude.{
  ℕ, ◌≡◌, refl, Bool, true, false, ◌||◌, [], if◌then◌else◌, arith, inl, inr, Bool-cases, ◌⊎◌,
}
use ai_scheduler.Kube.{Pod}
use ai_scheduler.Util.Heap
use ai_scheduler.Util.Heap.{Heap, HeapError, get_by_key, add_key, delete_key}
use ai_scheduler.Util.Heap.Order.{IsOrder}
use ai_scheduler.Util.Backoff.{PodBackoff}
use ai_scheduler.Util.Backoff
use ai_scheduler.Queue.{
  QueueApi, PriorityQueue, PodInfo, pods_compare_backoff_completed, pod_info_key_func,
}
use ai_scheduler.Queue.Places.{Naming}
use ai_scheduler.Queue.Invariant.{
  Place, nowhere, in_active_q, in_backoff_q, same, place_of, IsQueue, Leads,
}
use ai_scheduler.Queue.Changes.{put_backoff, put_active}
use ai_scheduler.Prelude.{List, ◌∷◌, All}
use ai_scheduler.Queue.{is_pod_backing_off}
use ai_scheduler.Queue.Moves.{requeue, requeue_all, add_active, add_backoff}

module _ (api : QueueApi) (less : PodInfo → PodInfo → Bool) (o : IsOrder less)
    (names : Naming api) where
  -- Where a pod goes that leaves the unschedulableQ.
  abbrev pub target : ℕ → PriorityQueue → Pod → Place
  target now q p = if is_pod_backing_off api now p q.pod_backoff then in_backoff_q else in_active_q

  target_key :
      (now : ℕ) (q : PriorityQueue) (p r : Pod)
      → names.IsNamed p
      → names.IsNamed r
      → same api p r ≡ true
      → target now q p ≡ target now q r
  unfolding is_pod_backing_off Backoff.get_backoff_time
  target_key now q p r n m e = ground (arith, names.same_backoff p r n m e)

  -- Whether one of the pods has the key of `p`.
  unfoldable pub among : List PodInfo → Pod → Bool
  among [] p = false
  among (i ∷ is) p = same api i.pod p || among is p

  requeue-Leads :
      (now : ℕ) (i : PodInfo) (q : PriorityQueue)
      → IsQueue api less names q
      → names.IsNamed i.pod
      → (place_of api q i.pod ≡ nowhere) ⊎ (place_of api q i.pod ≡ target now q i.pod)
      → Leads api less names
          (requeue api less now i q)
          (λ p. if same api i.pod p then target now q i.pod else place_of api q p)
  unfolding requeue add_active add_backoff Heap.add pod_info_key_func
  requeue-Leads now i q x n w = elim (Bool-cases (is_pod_backing_off api now i.pod q.pod_backoff)) [
    | inl e ↦
        rw (requeue, e)
          (put_backoff api less names (pods_compare_backoff_completed api q.pod_backoff) i q x n
            (ground arith) (ground arith))
    | inr e ↦ rw (requeue, e) (put_active api less names o i q x n (ground arith) (ground arith))
  ]

  pod_backoff-requeue :
      (now : ℕ) (i : PodInfo) (q : PriorityQueue)
      → (requeue api less now i q).pod_backoff ≡ q.pod_backoff
  unfolding requeue add_active add_backoff
  pod_backoff-requeue now i q = ground arith

  -- The pods that are to be moved: each is nowhere, or already where it goes.
  abbrev pub Ready : ℕ → PriorityQueue → List PodInfo → Type 0
  Ready now q is =
      All
        (λ i.
          names.IsNamed i.pod
          × ((place_of api q i.pod ≡ nowhere) ⊎ (place_of api q i.pod ≡ target now q i.pod)))
        is

  requeue-Ready :
      (now : ℕ) (i : PodInfo) (q : PriorityQueue) (is : List PodInfo)
      → IsQueue api less names q
      → Ready now q (i ∷ is)
      → Ready now (requeue api less now i q) is
  requeue-Ready now i q [] x r = tt
  requeue-Ready now i q (j ∷ is) x ((n, w), ((m, v), r)) =
      let f = (requeue-Leads now i q x n w).1 in
      let b = pod_backoff-requeue now i q in
      (
        (m, ground (arith, f j.pod m, target_key now q i.pod j.pod n m, b)),
        requeue-Ready now i q is x ((n, w), r),
      )

  pub requeue_all-Leads :
      (now : ℕ) (is : List PodInfo) (q : PriorityQueue)
      → IsQueue api less names q
      → Ready now q is
      → Leads api less names
          (requeue_all api less now is q)
          (λ p. if among is p then target now q p else place_of api q p)
  unfolding requeue_all among
  requeue_all-Leads now [] q x r = (x, λ p m. refl)
  requeue_all-Leads now (i ∷ is) q x ((n, w), r) =
      let (x1, f1) = requeue-Leads now i q x n w in
      let (x2, f2) =
        requeue_all-Leads now is (requeue api less now i q) x1
          (requeue-Ready now i q is x ((n, w), r)) in
      (
        x2,
        λ p m.
            ground
              (arith, f2 p m, f1 p m, pod_backoff-requeue now i q, target_key now q i.pod p n m),
      )
