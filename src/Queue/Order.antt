-- ===== src/Queue/Order.antt =====
-- The orders of the activeQ: activeQComp of pkg/scheduler/internal/queue/scheduling_queue.go, and
-- poolQueuePodPriorityComp of pkg/scheduler/internal/queue/pool_queue.go, in which the pods of the
-- queue's own pool come before those that borrow it. `has_queue` tells which pools have a queue.
use ai_scheduler.Prelude.{
  ℕ, ◌≡◌, refl, Bool, true, false, ◌||◌, ◌&&◌, not, String, str_eq, if◌then◌else◌, ltb, ◌==◌, arith,
  Bool-cases, inl, inr,
}
use ai_scheduler.Prelude.Int64
use ai_scheduler.Kube.{Pod}
use ai_scheduler.Info.PoolInfo.{get_pod_annotations_pool_name, default_pool_name}
use ai_scheduler.Util.Heap.Order.{IsOrder}
use ai_scheduler.Queue.{PodInfo, active_q_comp, get_pod_priority}

-- Pods of one priority come in the order of their timestamps.
lexicographic :
    (p t q u r v : ℕ)
    → (Int64.lt q p || (p == q && ltb t u)) ≡ false
    → (Int64.lt r q || (q == r && ltb u v)) ≡ false
    → Int64.InRange p
    → Int64.InRange q
    → Int64.InRange r
    → (Int64.lt r p || (p == r && ltb t v)) ≡ false
unfolding Int64.lt
lexicographic p t q u r v e f a b c = ground arith

-- matchPoolQueueNameForPod
unfoldable pub match_pool_queue_name_for_pod : (String → Bool) → Pod → String
match_pool_queue_name_for_pod has_queue pod =
    let pool_name = get_pod_annotations_pool_name pod in
    if has_queue pool_name then pool_name else default_pool_name

unfoldable pub pool_queue_pod_priority_comp : (String → Bool) → String → PodInfo → PodInfo → Bool
unfolding match_pool_queue_name_for_pod get_pod_priority
pool_queue_pod_priority_comp has_queue pool_name i1 i2 =
    let prio1 = get_pod_priority i1.pod in
    let prio2 = get_pod_priority i2.pod in
    let own1 = str_eq (match_pool_queue_name_for_pod has_queue i1.pod) pool_name in
    let own2 = str_eq (match_pool_queue_name_for_pod has_queue i2.pod) pool_name in
    let before = Int64.lt prio2 prio1 || (prio1 == prio2 && ltb i1.timestamp i2.timestamp) in
    if own1 && own2
    then before
    else if own1 && not own2
    then true
    else if not own1 && own2
    then false
    else before

pub get_pod_priority-InRange : (pod : Pod) → Int64.InRange (get_pod_priority pod)
unfolding get_pod_priority
get_pod_priority-InRange pod = ground arith

before : (p t q u : ℕ) → Bool
before p t q u = Int64.lt q p || (p == q && ltb t u)

before_asym : (p t q u : ℕ) → before p t q u ≡ true → before q u p t ≡ false
unfolding before Int64.lt
before_asym p t q u e = ground arith

-- By priority, the greater first, and then by timestamp.
pub active_q_comp-IsOrder : IsOrder active_q_comp
unfolding active_q_comp before
active_q_comp-IsOrder = record {
  asym = λ x y e.
      before_asym (get_pod_priority x.pod) x.timestamp (get_pod_priority y.pod) y.timestamp e;
  trans = λ x y z e f.
      lexicographic (get_pod_priority z.pod) z.timestamp (get_pod_priority y.pod) y.timestamp
        (get_pod_priority x.pod) x.timestamp f e (get_pod_priority-InRange z.pod)
        (get_pod_priority-InRange y.pod) (get_pod_priority-InRange x.pod);
}

-- By the pool, the pods of the queue's own pool first, and then as in the activeQ of a queue without
-- pools.
pub pool_queue_pod_priority_comp_lem :
    (has_queue : String → Bool) (pool_name : String) (x y : PodInfo)
    → let own = λ (i : PodInfo). str_eq (match_pool_queue_name_for_pod has_queue i.pod) pool_name in
      pool_queue_pod_priority_comp has_queue pool_name x y
      ≡ ((own x && not (own y)) || (not (own y && not (own x)) && active_q_comp x y))
unfolding pool_queue_pod_priority_comp active_q_comp
pool_queue_pod_priority_comp_lem has_queue pool_name x y =
    elim (Bool-cases (str_eq (match_pool_queue_name_for_pod has_queue x.pod) pool_name)) [
      | inl e ↦
          elim (Bool-cases (str_eq (match_pool_queue_name_for_pod has_queue y.pod) pool_name)) [
            | inl f ↦ rw (e, f) refl
            | inr f ↦ rw (e, f) refl
          ]
      | inr e ↦
          elim (Bool-cases (str_eq (match_pool_queue_name_for_pod has_queue y.pod) pool_name)) [
            | inl f ↦ rw (e, f) refl
            | inr f ↦ rw (e, f) refl
          ]
    ]

-- The order of a pool's queue is a strict weak order too, by own pool, priority and timestamp.
pub pool_queue_pod_priority_comp-IsOrder :
    (has_queue : String → Bool) (pool_name : String)
    → IsOrder (pool_queue_pod_priority_comp has_queue pool_name)
pool_queue_pod_priority_comp-IsOrder has_queue pool_name = record {
  asym = λ x y e. ground (
    arith,
    pool_queue_pod_priority_comp_lem has_queue pool_name x y,
    pool_queue_pod_priority_comp_lem has_queue pool_name y x,
    active_q_comp-IsOrder.asym x y,
  );
  trans = λ x y z e f. ground (
    arith,
    pool_queue_pod_priority_comp_lem has_queue pool_name y x,
    pool_queue_pod_priority_comp_lem has_queue pool_name z y,
    pool_queue_pod_priority_comp_lem has_queue pool_name z x,
    active_q_comp-IsOrder.trans x y z,
  );
}
