-- ===== src/Queue/Popping.antt =====
-- Pop of pkg/scheduler/internal/queue/scheduling_queue.go on the places of the pods.
use ai_scheduler.Prelude.{
  ◌≡◌, refl, Bool, false, if◌then◌else◌, arith, Option-cases, inl, inr, Bool-cases, ◌⊎◌, length,
  ◌==◌, ◌<◌,
}
use ai_scheduler.Prelude.Int64
use ai_scheduler.Kube.{Pod}
use ai_scheduler.Util.Heap
use ai_scheduler.Util.Heap.{Heap, HeapError, get_by_key, add_key, delete_key}
use ai_scheduler.Util.Heap.Order.{IsOrder}
use ai_scheduler.Util.Heap.Laws.{IsLeast, pop-Popped}
use ai_scheduler.Queue.{QueueApi, PriorityQueue, PodInfo}
use ai_scheduler.Queue.Ops.{pop, waits, closed, popped}
use ai_scheduler.Queue.Places.{Naming, is_in}
use ai_scheduler.Queue.Invariant.{
  nowhere, in_active_q, same, place_of, place_of_lem, IsQueue, Leads, others-Leads, get_is_in,
}
use ai_scheduler.Queue.Presence.{place_of_key}
use ai_scheduler.Queue.Changes.{is_active_q, forget}
use ai_scheduler.Queue.Places.{popped_active-Holds, is_in-delete}
use ai_scheduler.Queue.Invariant.{place, leads}
use ai_scheduler.Util.Heap.Least.{index_of-get}

module _ (api : QueueApi) (less : PodInfo → PodInfo → Bool) (o : IsOrder less)
    (names : Naming api) where
  -- The pod that Pop takes from the activeQ, and what it leaves.
  pub record Takes (q r : PriorityQueue) (i : PodInfo) : Type 0 where
    pub named : names.IsNamed i.pod
    pub waited : place_of api q i.pod ≡ in_active_q
    pub least : IsLeast less o q.active_q i
    pub cycle : r.scheduling_cycle ≡ Int64.add q.scheduling_cycle 1
    pub left : Leads api less names r (λ p. if same api i.pod p then nowhere else place_of api q p)

  empty_active :
      (q : PriorityQueue) (p : Pod)
      → IsQueue api less names q
      → length q.active_q.queue ≡ 0
      → is_in api q.active_q p ≡ false
  empty_active q p x e = elim (Option-cases (get_by_key q.active_q (api.meta_namespace_key p))) [
    | inl n ↦ ground (arith, get_is_in api q.active_q p)
    | inr (i, s) ↦
        let (k, f) = index_of-get q.active_q (api.meta_namespace_key p) i s in
        absurd (ground (arith, x.places.active.indexed.keys (api.meta_namespace_key p) k f))
  ]

  pop-Takes_one :
      (q : PriorityQueue)
      → IsQueue api less names q
      → 0 < length q.active_q.queue
      → (i : PodInfo) × ((pop api less q).1 ≡ popped i.pod) × Takes q (pop api less q).0 i
  unfolding pop Heap.len place
  pop-Takes_one q x p =
      let s = pop-Popped less o q.active_q x.places.active p in
      let a' : Heap PodInfo = (Heap.pop less q.active_q).0 in
      let (key, named) = x.places.active_entries s.key s.obj s.had in
      let test : ((length q.active_q.queue == 0) ≡ false) = ground arith in
      let left' =
        leads api less names (record q { active_q = a' })
          (λ p.
            if same api s.obj.pod p
            then forget api less names is_active_q (place_of api q p)
            else place_of api q p)
          (popped_active-Holds api less names q.active_q a' q.pod_backoff_q q.unschedulable_q s.key
            x.places s.left)
          x.backing
          (λ p m. ground (
            arith,
            place_of_lem api q p,
            key,
            x.places.one_place p m,
            is_in-delete api less names q.active_q a' s.key p s.left.1,
          )) in
      let at : (place_of api q s.obj.pod ≡ in_active_q) =
        ground
          (arith, place_of_lem api q s.obj.pod, get_is_in api q.active_q s.obj.pod, key, s.had) in
      (
        s.obj,
        rw (test, s.result) refl,
        rw (test, s.result)
            (record {
              named = named;
              waited = at;
              least = s.least;
              cycle = refl;
              left =
                  others-Leads api less names q.nominated_pods (Int64.add q.scheduling_cycle 1)
                    q.move_request_cycle q.closed _ _
                    (
                      left'.0,
                      λ p m. ground (
                        arith,
                        left'.1 p m,
                        at,
                        place_of_key api less o names q s.obj.pod p named m,
                      ),
                    );
            }),
      )

  -- Pop of a queue in good order waits, or tells that the queue is closed, exactly where no pod is in the
  -- activeQ, and changes nothing then. Else it takes a pod from the activeQ that no other goes in front
  -- of, counts a cycle, moves no other pod, and keeps the queue in good order.
  pub pop-Takes :
      (q : PriorityQueue)
      → IsQueue api less names q
      → (((p : Pod) → is_in api q.active_q p ≡ false)
          × ((pop api less q).0 ≡ q)
          × ((pop api less q).1 ≡ (if q.closed then closed else waits)))
        ⊎ ((i : PodInfo) × ((pop api less q).1 ≡ popped i.pod) × Takes q (pop api less q).0 i)
  unfolding pop Heap.len
  pop-Takes q x = elim (Bool-cases (length q.active_q.queue == 0)) [
    | inl e ↦ inl ((λ p. empty_active q p x (ground arith)), rw (e) refl, rw (e) refl)
    | inr e ↦ inr (pop-Takes_one q x (ground arith))
  ]
