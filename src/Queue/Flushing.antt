-- ===== src/Queue/Flushing.antt =====
-- flushBackoffQCompleted of pkg/scheduler/internal/queue/scheduling_queue.go on the places of the pods.
use ai_scheduler.Prelude.{
  ℕ, ◌+◌, ◌≡◌, refl, sym, ap, ◌∙◌, Bool, true, false, some, str_eq_refl, if◌then◌else◌, arith,
  Option-cases, inl, inr, Bool-cases, ◌⊎◌, length, ◌<◌,
}
use ai_scheduler.Kube.{Pod}
use ai_scheduler.Util.Heap
use ai_scheduler.Util.Heap.{Heap, HeapError, get_by_key, add_key, delete_key}
use ai_scheduler.Util.Heap.Order.{IsOrder}
use ai_scheduler.Util.Heap.Keys.{Without}
use ai_scheduler.Util.Backoff.{PodBackoff}
use ai_scheduler.Util.Backoff
use ai_scheduler.Queue.{
  QueueApi, PriorityQueue, PodInfo, pods_compare_backoff_completed, pod_info_key_func,
}
use ai_scheduler.Queue.Places.{Naming}
use ai_scheduler.Queue.Invariant.{in_active_q, in_backoff_q, same, place_of, IsQueue, Leads}
use ai_scheduler.Queue.Presence.{place_of_key, found_backoff}
use ai_scheduler.Queue.Changes.{drop_backoff, put_active}
use ai_scheduler.Prelude.{subst, zero, suc}
use ai_scheduler.Util.Heap.Keys.{pop-Without, length-pop, peek_root}
use ai_scheduler.Util.Heap.{peek}
use ai_scheduler.Queue.Moves.{
  flush_loop, flush_backoff_q_completed, pop_backoff, is_completed, add_active, gives_up,
  popped_backoff,
}

module _ (api : QueueApi) (less : PodInfo → PodInfo → Bool) (o : IsOrder less)
    (names : Naming api) where
  -- One round takes a pod whose back-off is over from the podBackoffQ to the activeQ.
  pop_backoff-Leads :
      (i : PodInfo) (q : PriorityQueue)
      → IsQueue api less names q
      → peek q.pod_backoff_q ≡ some i
      → names.IsNamed i.pod
        × (place_of api q i.pod ≡ in_backoff_q)
        × Leads api less names
            (pop_backoff api less i q)
            (λ p. if same api i.pod p then in_active_q else place_of api q p)
        × ((pop_backoff api less i q).pod_backoff ≡ q.pod_backoff)
        × (suc (length (pop_backoff api less i q).pod_backoff_q.queue)
            ≡ length q.pod_backoff_q.queue)
  unfolding pop_backoff popped_backoff add_active Heap.add pod_info_key_func
  pop_backoff-Leads i q x e =
      let cmp = pods_compare_backoff_completed api q.pod_backoff in
      let (key, had, w, result) = pop-Without cmp q.pod_backoff_q i x.places.backoff e in
      let (same_key, named) = x.places.backoff_entries key i had in
      let b' : Heap PodInfo = (Heap.pop cmp q.pod_backoff_q).0 in
      let w' = subst (λ k. Without q.pod_backoff_q k b') same_key w in
      let at =
        found_backoff api less o names q i.pod i x named
          (ap (get_by_key q.pod_backoff_q) (sym same_key) ∙ had) in
      let (x1, f1) = drop_backoff api less names b' i.pod q x w' in
      let q1 : PriorityQueue = record q { pod_backoff_q = b' } in
      let (x2, f2) =
        put_active api less names o i q1 x1 named
          (ground (arith, f1 i.pod named, str_eq_refl (api.meta_namespace_key i.pod)))
          (ground (arith, f1 i.pod named, str_eq_refl (api.meta_namespace_key i.pod))) in
      (
        named,
        at,
        (x2, λ p m. ground (arith, f2 p m, f1 p m)),
        refl,
        length-pop cmp q.pod_backoff_q x.places.backoff (peek_root q.pod_backoff_q i e).0,
      )

  -- Whether the back-off of a pod is over, or the pod has none.
  abbrev pub is_over : ℕ → PriorityQueue → Pod → Bool
  is_over now q p = is_completed api less now (record { pod = p; timestamp = 0 }) q

  is_completed_key :
      (now : ℕ) (q r : PriorityQueue) (i : PodInfo) (p : Pod)
      → names.IsNamed i.pod
      → names.IsNamed p
      → same api i.pod p ≡ true
      → r.pod_backoff ≡ q.pod_backoff
      → is_completed api less now i q ≡ is_over now r p
  unfolding is_completed Backoff.get_backoff_time
  is_completed_key now q r i p n m e b = ground (arith, names.same_backoff i.pod p n m e)

  -- Pods have gone from the podBackoffQ to the activeQ, each with its back-off over, no other pod has
  -- moved, and the head of the podBackoffQ, if it has one, is still backing off.
  pub record Flushed (now : ℕ) (q r : PriorityQueue) : Type 0 where
    pub invariant : IsQueue api less names r
    pub moves :
        (p : Pod)
        → names.IsNamed p
        → (place_of api r p ≡ place_of api q p)
          ⊎ ((place_of api q p ≡ in_backoff_q)
              × (place_of api r p ≡ in_active_q)
              × (is_over now q p ≡ true))
    pub head : (i : PodInfo) → peek r.pod_backoff_q ≡ some i → is_completed api less now i q ≡ false
    pub backing : r.pod_backoff ≡ q.pod_backoff

  -- The Pop does not fail: the podBackoffQ has a head.
  gives_up-false :
      (i : PodInfo) (q : PriorityQueue)
      → IsQueue api less names q
      → peek q.pod_backoff_q ≡ some i
      → gives_up api less i q ≡ false
  unfolding gives_up
  gives_up-false i q x e =
      let cmp = pods_compare_backoff_completed api q.pod_backoff in
      let (key, had, w, result) = pop-Without cmp q.pod_backoff_q i x.places.backoff e in
      ground arith

  is_completed_same :
      (now : ℕ) (q r : PriorityQueue) (i : PodInfo)
      → r.pod_backoff ≡ q.pod_backoff
      → is_completed api less now i r ≡ is_completed api less now i q
  unfolding is_completed
  is_completed_same now q r i b = rw (b) refl

  -- A pod's moves after the round that took `i`.
  joined :
      (now : ℕ) (q q1 r : PriorityQueue) (i : PodInfo) (p : Pod)
      → names.IsNamed i.pod
      → names.IsNamed p
      → place_of api q i.pod ≡ in_backoff_q
      → is_completed api less now i q ≡ true
      → q1.pod_backoff ≡ q.pod_backoff
      → place_of api q1 p ≡ (if same api i.pod p then in_active_q else place_of api q p)
      → (place_of api r p ≡ place_of api q1 p)
        ⊎ ((place_of api q1 p ≡ in_backoff_q)
            × (place_of api r p ≡ in_active_q)
            × (is_over now q1 p ≡ true))
      → (place_of api r p ≡ place_of api q p)
        ⊎ ((place_of api q p ≡ in_backoff_q)
            × (place_of api r p ≡ in_active_q)
            × (is_over now q p ≡ true))
  joined now q q1 r i p n m at f b e later = elim (Bool-cases (same api i.pod p)) [
    | inl g ↦
        let over = sym (is_completed_key now q q i p n m g refl) ∙ f in
        let was = sym (place_of_key api less o names q i.pod p n m g) ∙ at in
        inr (was, ground arith, over)
    | inr g ↦ ground (arith, is_completed_same now q q1 (record { pod = p; timestamp = 0 }) b)
  ]

  flush_loop-Flushed :
      (k now : ℕ) (q : PriorityQueue)
      → length q.pod_backoff_q.queue < k
      → IsQueue api less names q
      → Flushed now q (flush_loop api less k now q)
  unfolding flush_loop
  flush_loop-Flushed zero now q p x = absurd (omega arith)
  flush_loop-Flushed (suc k) now q p x = elim (Option-cases (peek q.pod_backoff_q)) [
    | inl e ↦
        rw (flush_loop, e)
          (record {
            invariant = x;
            moves = λ r m. inl refl;
            head = λ i f. absurd (ground arith);
            backing = refl;
          })
    | inr (i, e) ↦ elim (Bool-cases (is_completed api less now i q)) [
      | inr f ↦
          rw (flush_loop, e, f)
            (record {
              invariant = x;
              moves = λ r m. inl refl;
              head = λ j g. ground arith;
              backing = refl;
            })
      | inl f ↦
          let (n, at, led, b, size) = pop_backoff-Leads i q x e in
          let q1 = pop_backoff api less i q in
          let rest = flush_loop-Flushed k now q1 (omega arith) led.0 in
          rw (flush_loop, e, f, gives_up-false i q x e)
            (record {
              invariant = rest.invariant;
              moves = λ p m. joined now q q1 _ i p n m at f b (led.1 p m) (rest.moves p m);
              head = λ j g. ground (arith, rest.head j g, is_completed_same now q q1 j b);
              backing = rest.backing ∙ b;
            })
    ]
  ]

  -- flushBackoffQCompleted ends, and takes pods from the podBackoffQ to the activeQ whose back-off is
  -- over, until the head of the podBackoffQ is still backing off or the podBackoffQ is empty. It moves
  -- no other pod and keeps the queue in good order.
  pub flush_backoff_q_completed-Flushed :
      (now : ℕ) (q : PriorityQueue)
      → IsQueue api less names q
      → Flushed now q (flush_backoff_q_completed api less now q)
  unfolding flush_backoff_q_completed
  flush_backoff_q_completed-Flushed now q x =
      flush_loop-Flushed (length q.pod_backoff_q.queue + 1) now q (omega arith) x
