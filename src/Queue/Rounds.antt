-- ===== src/Queue/Rounds.antt =====
-- MoveAllToActiveQueue and flushUnschedulableQLeftover of
-- pkg/scheduler/internal/queue/scheduling_queue.go on the places of the pods.
use ai_scheduler.Prelude.{
  ℕ, ◌≡◌, refl, sym, ap, ◌∙◌, Bool, true, false, none, some, String, [], str_eq_iff, str_eq_refl,
  if◌then◌else◌, arith, inl, inr, Bool-cases,
}
use ai_scheduler.Kube.{Pod}
use ai_scheduler.Util.Heap.Order.{IsOrder}
use ai_scheduler.Queue.{QueueApi, PriorityQueue, PodInfo, get_pod_full_name}
use ai_scheduler.Queue.Places.{Naming, is_unschedulable}
use ai_scheduler.Queue.Invariant.{
  Place, in_unschedulable_q, place_of, place_of_lem, IsQueue, Leads, others-Leads,
}
use ai_scheduler.Queue.Moving.{Waiting, move_pods_to_active_queue-Leads, with_unschedulable_all}
use ai_scheduler.Queue.{get_pod_full_name}
use ai_scheduler.Queue.Leaving.{target, among, requeue_all-Leads}
use ai_scheduler.Queue.Places.{clear-Holds}
use ai_scheduler.Queue.Invariant.{leads, place}
use ai_scheduler.Queue.Changes.{is_unschedulable_q, place_tells, forget}
use ai_scheduler.Queue.Invariant.{place, leads}
use ai_scheduler.Prelude.{List, ◌∷◌, subst, All-map}
use ai_scheduler.Prelude.Dict
use ai_scheduler.Prelude.Dict.{Dict}
use ai_scheduler.Queue.Moves.{
  requeue_all, move_all_to_active_queue, leftovers, is_leftover, flush_unschedulable_q_leftover,
}

module _ (api : QueueApi) (less : PodInfo → PodInfo → Bool) (o : IsOrder less)
    (names : Naming api) where
  -- What holds of the entries of the map holds of the pods listed.
  Entries : Dict PodInfo → Type 0
  Entries u =
      (key : String) (i : PodInfo)
      → Dict.lookup key u ≡ some i
      → (key ≡ get_pod_full_name i.pod) × names.IsNamed i.pod

  head-Entries :
      (k : String) (i : PodInfo) (u : Dict PodInfo)
      → Entries ((k, i) ∷ u)
      → (k ≡ get_pod_full_name i.pod) × names.IsNamed i.pod
  unfolding Entries Dict.lookup
  head-Entries k i u e = e k i (ground (arith, str_eq_refl k))

  tail-Entries :
      (k : String) (i : PodInfo) (u : Dict PodInfo)
      → Dict.lookup k u ≡ none
      → Entries ((k, i) ∷ u)
      → Entries u
  unfolding Entries Dict.lookup
  tail-Entries k i u d e j v f = e j v (ground (arith, str_eq_iff k j))

  -- The pods of the map that pass a test, in its order, and the test of a pod by its key.
  unfoldable pub chosen : (PodInfo → Bool) → Dict PodInfo → List PodInfo
  chosen test [] = []
  chosen test ((key, i) ∷ u) = let rest = chosen test u in if test i then i ∷ rest else rest

  abbrev pub passes : (PodInfo → Bool) → Dict PodInfo → Pod → Bool
  passes test u p = elim (Dict.lookup (get_pod_full_name p) u) [ none ↦ false | some i ↦ test i ]

  among-chosen :
      (test : PodInfo → Bool) (u : Dict PodInfo) (p : Pod)
      → Dict.Distinct u
      → Entries u
      → names.IsNamed p
      → among api less o names (chosen test u) p ≡ passes test u p
  unfolding among chosen Dict.lookup
  among-chosen test [] p d e n = refl
  among-chosen test ((k, i) ∷ u) p (d, ds) e n =
      let (key, named) = head-Entries k i u e in
      let rest = among-chosen test u p ds (tail-Entries k i u d e) n in
      ground (
        arith,
        names.same_key i.pod p named n,
        str_eq_iff (get_pod_full_name i.pod) (get_pod_full_name p),
      )

  is_unschedulable_tail :
      (k : String) (i : PodInfo) (u : Dict PodInfo) (p : Pod)
      → is_unschedulable api u p ≡ true
      → is_unschedulable api ((k, i) ∷ u) p ≡ true
  unfolding is_unschedulable Dict.has Dict.lookup
  is_unschedulable_tail k i u p e = ground arith

  is_unschedulable_head :
      (k : String) (i : PodInfo) (u : Dict PodInfo)
      → k ≡ get_pod_full_name i.pod
      → is_unschedulable api ((k, i) ∷ u) i.pod ≡ true
  unfolding is_unschedulable Dict.has Dict.lookup
  is_unschedulable_head k i u e = ground (arith, str_eq_iff k (get_pod_full_name i.pod))

  chosen-Waiting :
      (test : PodInfo → Bool) (q : PriorityQueue) (u : Dict PodInfo)
      → Dict.Distinct u
      → Entries u
      → ((p : Pod)
          → names.IsNamed p
          → is_unschedulable api u p ≡ true
          → place_of api q p ≡ in_unschedulable_q)
      → Waiting api less o names q (chosen test u)
  unfolding chosen
  chosen-Waiting test q [] d e w = tt
  chosen-Waiting test q ((k, i) ∷ u) (d, ds) e w =
      let (key, named) = head-Entries k i u e in
      let rest =
        chosen-Waiting test q u ds (tail-Entries k i u d e)
          (λ p n f. w p n (is_unschedulable_tail k i u p f)) in
      elim (Bool-cases (test i)) [
        | inl f ↦ rw (f) ((named, w i.pod named (is_unschedulable_head k i u key)), rest)
        | inr f ↦ rw (f) rest
      ]

  -- The pods of the unschedulableQ that pass a test.
  queue-Waiting :
      (test : PodInfo → Bool) (q : PriorityQueue)
      → IsQueue api less names q
      → Waiting api less o names q (chosen test q.unschedulable_q)
  unfolding Entries
  queue-Waiting test q x =
      chosen-Waiting test q q.unschedulable_q x.places.distinct x.places.unschedulable_entries
        (λ p n e. ground (arith, place_tells api less names q p x n))

  leftovers_lem : (now : ℕ) (u : Dict PodInfo) → leftovers now u ≡ chosen (is_leftover now) u
  unfolding leftovers chosen
  leftovers_lem now [] = refl
  leftovers_lem now ((k, i) ∷ u) = rw (leftovers_lem now u) refl

  -- flushUnschedulableQLeftover takes from the unschedulableQ exactly the pods that are there for more
  -- than a minute, to the podBackoffQ if they are still backing off, or else to the activeQ; it moves
  -- no other pod and keeps the queue in good order.
  pub flush_unschedulable_q_leftover-Leads :
      (now : ℕ) (q : PriorityQueue)
      → IsQueue api less names q
      → Leads api less names (flush_unschedulable_q_leftover api less now q) (λ p.
        if passes (is_leftover now) q.unschedulable_q p
        then target api less o names now q p
        else place_of api q p)
  unfolding flush_unschedulable_q_leftover Entries among
  flush_unschedulable_q_leftover-Leads now q x = flushed (leftovers now q.unschedulable_q) refl
    where
      tested :
          (is : List PodInfo) (p : Pod)
          → leftovers now q.unschedulable_q ≡ is
          → names.IsNamed p
          → among api less o names is p ≡ passes (is_leftover now) q.unschedulable_q p
      tested is p e m =
          ap (λ l. among api less o names l p) (sym e ∙ leftovers_lem now q.unschedulable_q)
          ∙ among-chosen (is_leftover now) q.unschedulable_q p x.places.distinct
              x.places.unschedulable_entries m

      flushed :
          (is : List PodInfo)
          → leftovers now q.unschedulable_q ≡ is
          → Leads api less names (flush_unschedulable_q_leftover api less now q) (λ p.
            if passes (is_leftover now) q.unschedulable_q p
            then target api less o names now q p
            else place_of api q p)
      flushed [] e =
          rw (flush_unschedulable_q_leftover, e) (x, λ p m. rw (sym (tested [] p e m)) refl)
      flushed (i ∷ is) e =
          let w =
            subst (Waiting api less o names q) (sym (leftovers_lem now q.unschedulable_q) ∙ e)
              (queue-Waiting (is_leftover now) q x) in
          let moved = (move_pods_to_active_queue-Leads api less o names now (i ∷ is) q x w).1 in
          rw (flush_unschedulable_q_leftover, e)
            (moved.0, λ p m. ground (arith, moved.1 p m, tested (i ∷ is) p e m))

  values_lem : (u : Dict PodInfo) → Dict.values u ≡ chosen (λ i. true) u
  unfolding chosen
  values_lem [] = refl
  values_lem ((k, i) ∷ u) = ap (λ l. i ∷ l) (values_lem u)

  clear-Leads :
      (q : PriorityQueue)
      → IsQueue api less names q
      → Leads api less names
          (record q { unschedulable_q = [] })
          (λ p. forget api less names is_unschedulable_q (place_of api q p))
  unfolding place is_unschedulable Dict.has Dict.lookup
  clear-Leads q x =
      leads api less names (record q { unschedulable_q = [] }) _
        (clear-Holds api less names q.active_q q.pod_backoff_q q.unschedulable_q x.places) x.backing
        (λ p m. ground (arith, place_of_lem api q p, place_tells api less names q p x m))

  -- Where MoveAllToActiveQueue takes a pod.
  abbrev pub moved_place : ℕ → PriorityQueue → Pod → Place → Place
  moved_place now q p w = if is_unschedulable_q w then target api less o names now q p else w

  passes_all :
      (q : PriorityQueue) (p : Pod)
      → IsQueue api less names q
      → names.IsNamed p
      → passes (λ i. true) q.unschedulable_q p ≡ is_unschedulable_q (place_of api q p)
  unfolding is_unschedulable Dict.has
  passes_all q p x m = ground (arith, place_tells api less names q p x m)

  -- MoveAllToActiveQueue empties the unschedulableQ: its pods go to the podBackoffQ, if they are still
  -- backing off, or else to the activeQ. It moves no other pod, notes the cycle of the move, and keeps
  -- the queue in good order.
  pub move_all_to_active_queue-Leads :
      (now : ℕ) (q : PriorityQueue)
      → IsQueue api less names q
      → ((move_all_to_active_queue api less now q).unschedulable_q ≡ [])
        × ((move_all_to_active_queue api less now q).move_request_cycle ≡ q.scheduling_cycle)
        × Leads api less names
            (move_all_to_active_queue api less now q)
            (λ p. moved_place now q p (place_of api q p))
  unfolding move_all_to_active_queue Entries
  move_all_to_active_queue-Leads now q x =
      let is = chosen (λ i. true) q.unschedulable_q in
      let (x1, f1) = clear-Leads q x in
      let waits = queue-Waiting (λ i. true) q x in
      let q1 : PriorityQueue = record q { unschedulable_q = [] } in
      let ready = All-map is (λ i (n, e). (n, inl (ground (arith, f1 i.pod n)))) waits in
      let moved = requeue_all-Leads api less o names now is q1 x1 ready in
      let same_queue =
        ap (λ l. requeue_all api less now l q1) (sym (values_lem q.unschedulable_q))
        ∙ with_unschedulable_all api less o names now (Dict.values q.unschedulable_q) [] q in
      (
        refl,
        refl,
        others-Leads api less names _ _ q.scheduling_cycle _ _ _ (
            subst (λ r. Leads api less names r (λ p. moved_place now q p (place_of api q p)))
              same_queue
              (
                moved.0,
                λ p m. ground (
                  arith,
                  moved.1 p m,
                  f1 p m,
                  among-chosen (λ i. true) q.unschedulable_q p x.places.distinct
                      x.places.unschedulable_entries m,
                  passes_all q p x m,
                ),
              )),
      )
