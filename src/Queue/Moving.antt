-- ===== src/Queue/Moving.antt =====
-- MoveAllToActiveQueue, movePodsToActiveQueue and flushUnschedulableQLeftover of
-- pkg/scheduler/internal/queue/scheduling_queue.go on the places of the pods.
use ai_scheduler.Prelude.{
  ℕ, ◌≡◌, refl, sym, ap, ◌∙◌, Bool, true, [], str_eq_refl, if◌then◌else◌, arith, inl, inr,
  Bool-cases,
}
use ai_scheduler.Util.Heap.Order.{IsOrder}
use ai_scheduler.Queue.{QueueApi, PriorityQueue, PodInfo, delete}
use ai_scheduler.Queue.Places.{Naming}
use ai_scheduler.Queue.Invariant.{in_unschedulable_q, place_of, IsQueue, Leads, others-Leads}
use ai_scheduler.Queue.Leaving.{target, among, requeue_all-Leads, Ready}
use ai_scheduler.Queue.Changes.{is_unschedulable_q, forget, drop_unschedulable}
use ai_scheduler.Prelude.{List, ◌∷◌, All, All-map, All-zip}
use ai_scheduler.Prelude.Dict.{Dict}
use ai_scheduler.Queue.{is_pod_backing_off}
use ai_scheduler.Queue.Moves.{
  requeue, requeue_all, move_each, move_pods_to_active_queue, add_active, add_backoff,
}

module _ (api : QueueApi) (less : PodInfo → PodInfo → Bool) (o : IsOrder less)
    (names : Naming api) where
  -- The pods wait in the unschedulableQ.
  abbrev pub Waiting : PriorityQueue → List PodInfo → Type 0
  Waiting q is = All (λ i. names.IsNamed i.pod × (place_of api q i.pod ≡ in_unschedulable_q)) is

  drop_all : List PodInfo → Dict PodInfo → Dict PodInfo
  drop_all [] u = u
  drop_all (i ∷ is) u = drop_all is (delete api i.pod u)

  drop_all-Leads :
      (is : List PodInfo) (q : PriorityQueue)
      → IsQueue api less names q
      → All (λ i. names.IsNamed i.pod) is
      → Leads api less names
          (record q { unschedulable_q = drop_all is q.unschedulable_q })
          (λ p.
            if among api less o names is p
            then forget api less names is_unschedulable_q (place_of api q p)
            else place_of api q p)
  unfolding drop_all among
  drop_all-Leads [] q x n = (x, λ p m. refl)
  drop_all-Leads (i ∷ is) q x (n, ns) =
      let (x1, f1) = drop_unschedulable api less names i.pod q n x in
      let (x2, f2) =
        drop_all-Leads is (record q { unschedulable_q = delete api i.pod q.unschedulable_q }) x1
          ns in
      (x2, λ p m. ground (arith, f2 p m, f1 p m))

  -- The moves do not read the unschedulableQ.
  with_unschedulable :
      (now : ℕ) (i : PodInfo) (u : Dict PodInfo) (q : PriorityQueue)
      → requeue api less now i (record q { unschedulable_q = u })
        ≡ record (requeue api less now i q) { unschedulable_q = u }
  unfolding requeue add_active add_backoff
  with_unschedulable now i u q =
      elim (Bool-cases (is_pod_backing_off api now i.pod q.pod_backoff)) [
        | inl e ↦ rw (e) refl
        | inr e ↦ rw (e) refl
      ]

  unschedulable-requeue :
      (now : ℕ) (i : PodInfo) (q : PriorityQueue)
      → (requeue api less now i q).unschedulable_q ≡ q.unschedulable_q
  unfolding requeue add_active add_backoff
  unschedulable-requeue now i q = ground arith

  pub with_unschedulable_all :
      (now : ℕ) (is : List PodInfo) (u : Dict PodInfo) (q : PriorityQueue)
      → requeue_all api less now is (record q { unschedulable_q = u })
        ≡ record (requeue_all api less now is q) { unschedulable_q = u }
  unfolding requeue_all
  with_unschedulable_all now [] u q = refl
  with_unschedulable_all now (i ∷ is) u q =
      ap (requeue_all api less now is) (with_unschedulable now i u q)
      ∙ with_unschedulable_all now is u (requeue api less now i q)

  -- Deleting each pod after its move comes to deleting all of them first.
  move_each_lem :
      (now : ℕ) (is : List PodInfo) (q : PriorityQueue)
      → move_each api less now is q
        ≡ requeue_all api less now is (record q { unschedulable_q = drop_all is q.unschedulable_q })
  unfolding move_each requeue_all drop_all
  move_each_lem now [] q = refl
  move_each_lem now (i ∷ is) q =
      let r = requeue api less now i q in
      move_each_lem now is (record r { unschedulable_q = delete api i.pod r.unschedulable_q })
      ∙ (ap
            (λ u.
              requeue_all api less now is
                (record r { unschedulable_q = drop_all is (delete api i.pod u) }))
            (unschedulable-requeue now i q)
          ∙ ap (requeue_all api less now is)
              (sym (with_unschedulable now i (drop_all is (delete api i.pod q.unschedulable_q)) q)))

  Waiting-named :
      (q : PriorityQueue) (is : List PodInfo) → Waiting q is → All (λ i. names.IsNamed i.pod) is
  Waiting-named q [] w = tt
  Waiting-named q (i ∷ is) ((n, e), w) = (n, Waiting-named q is w)

  All-among : (is : List PodInfo) → All (λ i. among api less o names is i.pod ≡ true) is
  unfolding among
  All-among [] = tt
  All-among (i ∷ is) = (
    ground (arith, str_eq_refl (api.meta_namespace_key i.pod)),
    All-map is (λ j e. ground arith) (All-among is),
  )

  dropped-Ready :
      (now : ℕ) (is : List PodInfo) (q : PriorityQueue)
      → IsQueue api less names q
      → Waiting q is
      → Ready api less o names now (record q { unschedulable_q = drop_all is q.unschedulable_q }) is
  dropped-Ready now is q x w =
      let f = (drop_all-Leads is q x (Waiting-named q is w)).1 in
      All-map is (λ i (a, (n, e)). (n, inl (ground (arith, f i.pod n))))
        (All-zip _ _ is (All-among is) w)

  -- movePodsToActiveQueue takes pods that wait in the unschedulableQ to the podBackoffQ, if they are
  -- still backing off, or else to the activeQ; it moves no other pod, notes the cycle of the move, and
  -- keeps the queue in good order.
  pub move_pods_to_active_queue-Leads :
      (now : ℕ) (is : List PodInfo) (q : PriorityQueue)
      → IsQueue api less names q
      → Waiting q is
      → ((move_pods_to_active_queue api less now is q).move_request_cycle ≡ q.scheduling_cycle)
        × Leads api less names (move_pods_to_active_queue api less now is q) (λ p.
          if among api less o names is p then target api less o names now q p else place_of api q p)
  unfolding move_pods_to_active_queue
  move_pods_to_active_queue-Leads now is q x w =
      let q1 : PriorityQueue = record q { unschedulable_q = drop_all is q.unschedulable_q } in
      let (x1, f1) = drop_all-Leads is q x (Waiting-named q is w) in
      let moved = requeue_all-Leads api less o names now is q1 x1 (dropped-Ready now is q x w) in
      (
        refl,
        rw (move_each_lem now is q) (
            others-Leads api less names _ _ q.scheduling_cycle _ _ _
              (moved.0, λ p m. ground (arith, moved.1 p m, f1 p m))),
      )
