-- ===== src/Queue/Steps.antt =====
-- Add, AddIfNotPresent, AddUnschedulableIfNotPresent, Delete and Pop of
-- pkg/scheduler/internal/queue/scheduling_queue.go on the places of the pods.
use ai_scheduler.Prelude.{
  ℕ, ◌≡◌, refl, Bool, none, str_eq_refl, if◌then◌else◌, arith, Option-cases, inl, inr,
}
use ai_scheduler.Kube.{Pod}
use ai_scheduler.Util.Heap
use ai_scheduler.Util.Heap.{Heap, HeapError, get_by_key, add_key, delete_key}
use ai_scheduler.Util.Heap.Order.{IsOrder}
use ai_scheduler.Util.Heap.Laws.{delete_key-HasDeleted}
use ai_scheduler.Util.Heap.Keys.{delete_key-Without}
use ai_scheduler.Util.Backoff.{PodBackoff}
use ai_scheduler.Util.Backoff.Steps.{IsBackoff, clear_pod_backoff_lem}
use ai_scheduler.Queue.{
  QueueApi, PriorityQueue, PodInfo, delete, pods_compare_backoff_completed, new_pod_info,
  new_pod_info_no_timestamp, clear_pod_backoff, ns_name_for_pod, pod_info_key_func,
}
use ai_scheduler.Queue.Ops.{add, delete_pod, delete_from_backoff}
use ai_scheduler.Queue.Nominated
use ai_scheduler.Queue.Places.{Naming, is_in_key}
use ai_scheduler.Queue.Invariant.{
  nowhere, in_active_q, same, place_of, IsQueue, Leads, add_to_active_lem, nominate-Leads,
  others-Leads, delete_from_backoff_lem, get_is_in,
}
use ai_scheduler.Queue.Changes.{
  place_tells, backing-Leads, drop_backoff, drop_unschedulable, put_active, drop_active,
}

module _ (api : QueueApi) (less : PodInfo → PodInfo → Bool) (o : IsOrder less)
    (names : Naming api) where
  -- Add puts the pod into the activeQ, wherever it was, moves no other pod, and keeps the queue in good
  -- order.
  pub add-Leads :
      (now : ℕ) (pod : Pod) (q : PriorityQueue)
      → names.IsNamed pod
      → IsQueue api less names q
      → ((add api less now pod q).1 ≡ none)
        × Leads api less names
            (add api less now pod q).0
            (λ p. if same api pod p then in_active_q else place_of api q p)
  unfolding add new_pod_info
  add-Leads now pod q n x =
      let key = api.meta_namespace_key pod in
      let i : PodInfo = record { pod = pod; timestamp = now } in
      let b' : Heap PodInfo =
        (delete_key (pods_compare_backoff_completed api q.pod_backoff) q.pod_backoff_q key).0 in
      let w =
        delete_key-Without (pods_compare_backoff_completed api q.pod_backoff) q.pod_backoff_q key
          x.places.backoff in
      let (x1, f1) = drop_backoff api less names b' pod q x w in
      let q1 : PriorityQueue = record q { pod_backoff_q = b' } in
      let (x2, f2) = drop_unschedulable api less names pod q1 n x1 in
      let q2 : PriorityQueue = record q1 { unschedulable_q = delete api pod q.unschedulable_q } in
      let (x3, f3) =
        put_active api less names o i q2 x2 n (ground (arith, f1 pod n, f2 pod n, str_eq_refl key))
          (ground (arith, f1 pod n, f2 pod n, str_eq_refl key)) in
      rw (add_to_active_lem api less i q) (
        refl,
        nominate-Leads api less names pod _ _ (
            rw
              (delete_from_backoff_lem api i (record q {
                active_q = add_key less q.active_q key i;
                unschedulable_q = delete api pod q.unschedulable_q;
              }))
              (x3, λ p m. ground (arith, f1 p m, f2 p m, f3 p m))),
      )

  pub clear_pod_backoff-IsBackoff :
      (pod : Pod) (b : PodBackoff)
      → IsBackoff api.namespaced_key b
      → IsBackoff api.namespaced_key (clear_pod_backoff api pod b)
  unfolding clear_pod_backoff
  clear_pod_backoff-IsBackoff pod b x =
      (clear_pod_backoff_lem api.namespaced_key (ns_name_for_pod pod) b x).0

  -- Delete takes the pod out of the queue, wherever it was, moves no other pod, and keeps the queue in
  -- good order.
  pub delete_pod-Leads :
      (pod : Pod) (q : PriorityQueue)
      → names.IsNamed pod
      → IsQueue api less names q
      → Leads api less names
          (delete_pod api less pod q)
          (λ p. if same api pod p then nowhere else place_of api q p)
  unfolding delete_pod new_pod_info_no_timestamp delete_from_backoff Heap.delete pod_info_key_func
  delete_pod-Leads pod q n x =
      let key = api.meta_namespace_key pod in
      let i : PodInfo = record { pod = pod; timestamp = 0 } in
      let a' : Heap PodInfo = (delete_key less q.active_q key).0 in
      let npm = Nominated.delete pod q.nominated_pods in
      let q1 : PriorityQueue = record q { nominated_pods = npm; active_q = a' } in
      let (x1, f1) =
        others-Leads api less names npm q.scheduling_cycle q.move_request_cycle q.closed _ _
          (drop_active api less names o pod q x) in
      let error = (delete_key-HasDeleted less o q.active_q key x.places.active).1 in
      let held = get_is_in api q.active_q pod in
      elim (Option-cases (get_by_key q.active_q key)) [
        | inr (j, e) ↦
            rw (delete_pod, error, e)
              (
                x1,
                λ p m. ground (
                  arith,
                  f1 p m,
                  held,
                  place_tells api less names q p x m,
                  place_tells api less names q pod x n,
                  is_in_key api less names q.active_q pod p,
                ),
              )
        | inl e ↦
            let c = clear_pod_backoff api pod q.pod_backoff in
            let (x2, f2) =
              backing-Leads api less names c q1 x1
                (clear_pod_backoff-IsBackoff pod q.pod_backoff x.backing) in
            let q2 : PriorityQueue = record q1 { pod_backoff = c } in
            let cmp = pods_compare_backoff_completed api c in
            let b' : Heap PodInfo = (delete_key cmp q.pod_backoff_q key).0 in
            let (x3, f3) =
              drop_backoff api less names b' pod q2 x2
                (delete_key-Without cmp q.pod_backoff_q key x.places.backoff) in
            let q3 : PriorityQueue = record q2 { pod_backoff_q = b' } in
            let (x4, f4) = drop_unschedulable api less names pod q3 n x3 in
            rw (delete_pod, error, e) (x4, λ p m. ground (arith, f1 p m, f2 p m, f3 p m, f4 p m))
      ]
