-- ===== src/Queue/Ops.antt =====
-- The methods of PriorityQueue in pkg/scheduler/internal/queue/scheduling_queue.go by which pods come
-- into the queue and leave it. `less` is the order of the activeQ.
use ai_scheduler.Prelude.{
  ℕ, Bool, true, none, some, Option, String, List, [], ◌∷◌, ◌++◌, ◌==◌, if◌then◌else◌,
}
use ai_scheduler.Prelude.Dict
use ai_scheduler.Prelude.Dict.{Dict}
use ai_scheduler.Prelude.Int64
use ai_scheduler.Kube.{Pod}
use ai_scheduler.Util.Heap
use ai_scheduler.Util.Heap.{Heap, HeapError}
use ai_scheduler.Queue.{
  QueueApi, PriorityQueue, PodInfo, QueueError, heap_error, in_unschedulable_q, in_active_q,
  in_backoff_q, new_pod_info, new_pod_info_no_timestamp, pod_info_key_func,
  pods_compare_backoff_completed, get, delete, add_or_update, clear_pod_backoff, backoff_pod,
  is_pod_updated,
}
use ai_scheduler.Queue.Nominated

unfoldable pub nominate : Pod → PriorityQueue → PriorityQueue
unfolding Nominated.add
nominate pod q = record q { nominated_pods = Nominated.add pod "" q.nominated_pods }

module _ (api : QueueApi) where
  unfoldable pub delete_from_backoff : PodInfo → PriorityQueue → PriorityQueue
  unfolding pod_info_key_func pods_compare_backoff_completed
  delete_from_backoff i q = record q {
    pod_backoff_q =
        (Heap.delete (pods_compare_backoff_completed api q.pod_backoff) (pod_info_key_func api)
          q.pod_backoff_q i).0;
  }

  unfoldable pub in_active : PodInfo → PriorityQueue → Option PodInfo
  unfolding pod_info_key_func
  in_active i q = Heap.get (pod_info_key_func api) q.active_q i

  unfoldable pub in_backoff : PodInfo → PriorityQueue → Option PodInfo
  unfolding pod_info_key_func
  in_backoff i q = Heap.get (pod_info_key_func api) q.pod_backoff_q i

  -- Where the pod goes that is in none of the queues: AddUnschedulableIfNotPresent after its checks.
  unfoldable pub put_unschedulable : ℕ → Pod → ℕ → PriorityQueue → PriorityQueue × Option QueueError
  unfolding pod_info_key_func pods_compare_backoff_completed backoff_pod nominate add_or_update
      new_pod_info
  put_unschedulable now pod pod_scheduling_cycle q =
      let i = new_pod_info now pod in
      let b = backoff_pod api now pod q.pod_backoff in
      let r =
        Heap.add (pods_compare_backoff_completed api b) (pod_info_key_func api) q.pod_backoff_q i in
      if Int64.le pod_scheduling_cycle q.move_request_cycle
      then elim r.1 [
        | some e ↦ (record q { pod_backoff = b; pod_backoff_q = r.0 }, some (heap_error e))
        | none ↦ (nominate pod (record q { pod_backoff = b; pod_backoff_q = r.0 }), none)
      ]
      else (
        nominate pod
            (record q { pod_backoff = b; unschedulable_q = add_or_update api i q.unschedulable_q }),
        none,
      )

module _ (api : QueueApi) (less : PodInfo → PodInfo → Bool) where
  -- p.activeQ.Add(i), and what comes after it where that succeeds.
  unfoldable pub add_to_active :
      PodInfo → PriorityQueue → (PriorityQueue → PriorityQueue) → PriorityQueue × Option QueueError
  unfolding pod_info_key_func
  add_to_active i q next =
      let r = Heap.add less (pod_info_key_func api) q.active_q i in
      let q' : PriorityQueue = record q { active_q = r.0 } in
      elim r.1 [ some e ↦ (q', some (heap_error e)) | none ↦ (next q', none) ]

  unfoldable pub add : ℕ → Pod → PriorityQueue → PriorityQueue × Option QueueError
  unfolding add_to_active delete_from_backoff nominate delete new_pod_info
  add now pod q =
      let i = new_pod_info now pod in
      add_to_active i q (λ q'. nominate pod (
        delete_from_backoff api i
          (record q' { unschedulable_q = delete api pod q'.unschedulable_q })))

  unfoldable pub add_if_not_present : ℕ → Pod → PriorityQueue → PriorityQueue × Option QueueError
  unfolding in_active in_backoff add_to_active nominate get new_pod_info
  add_if_not_present now pod q =
      let i = new_pod_info now pod in
      elim (get api pod q.unschedulable_q) [
        | some u ↦ (q, none)
        | none ↦ elim (in_active api i q) [
          | some a ↦ (q, none)
          | none ↦ elim (in_backoff api i q) [
            | some b ↦ (q, none)
            | none ↦ add_to_active i q (nominate pod)
          ]
        ]
      ]

  unfoldable pub add_unschedulable_if_not_present :
      ℕ → Pod → ℕ → PriorityQueue → PriorityQueue × Option QueueError
  unfolding in_active in_backoff put_unschedulable get new_pod_info
  add_unschedulable_if_not_present now pod pod_scheduling_cycle q =
      let i = new_pod_info now pod in
      elim (get api pod q.unschedulable_q) [
        | some u ↦ (q, some in_unschedulable_q)
        | none ↦ elim (in_active api i q) [
          | some a ↦ (q, some in_active_q)
          | none ↦ elim (in_backoff api i q) [
            | some b ↦ (q, some in_backoff_q)
            | none ↦ put_unschedulable api now pod pod_scheduling_cycle q
          ]
        ]
      ]

  -- How Pop ends, or that it waits. The heap's Pop has no error here where the heap is in good order.
  pub data Popping : Type 0 where
    waits closed failed : Popping
    popped : Pod → Popping

  unfoldable pub pop : PriorityQueue → PriorityQueue × Popping
  pop q =
      let r = Heap.pop less q.active_q in
      if Heap.len q.active_q == 0 then (q, if q.closed then closed else waits) else elim r.1 [
        | none ↦ (record q { active_q = r.0 }, failed)
        | some i ↦ (
          record q { active_q = r.0; scheduling_cycle = Int64.add q.scheduling_cycle 1 },
          popped i.pod,
        )
      ]

  -- Update of a pod that the activeQ has, of one that the podBackoffQ has, of one that the
  -- unschedulableQ has, and of one that none has.
  unfoldable pub update_in_active :
      Pod → Pod → PodInfo → PriorityQueue → PriorityQueue × Option QueueError
  unfolding add_to_active Nominated.update
  update_in_active old new i q =
      add_to_active (record { pod = new; timestamp = i.timestamp })
        (record q { nominated_pods = Nominated.update old new q.nominated_pods }) (λ q'. q')

  unfoldable pub update_in_backoff :
      Pod → Pod → PodInfo → PriorityQueue → PriorityQueue × Option QueueError
  unfolding add_to_active delete_from_backoff Nominated.update new_pod_info_no_timestamp
  update_in_backoff old new i q =
      add_to_active (record { pod = new; timestamp = i.timestamp })
        (delete_from_backoff api (new_pod_info_no_timestamp old)
          (record q { nominated_pods = Nominated.update old new q.nominated_pods }))
        (λ q'. q')

  unfoldable pub update_in_unschedulable :
      Pod → Pod → PodInfo → PriorityQueue → PriorityQueue × Option QueueError
  unfolding add_to_active Nominated.update clear_pod_backoff delete add_or_update is_pod_updated
  update_in_unschedulable old new u q =
      let i : PodInfo = record { pod = new; timestamp = u.timestamp } in
      let q' : PriorityQueue = record q {
        nominated_pods = Nominated.update old new q.nominated_pods;
      } in
      if is_pod_updated api old new
      then add_to_active i
          (record q' {
            pod_backoff = clear_pod_backoff api new q'.pod_backoff;
            unschedulable_q = delete api u.pod q'.unschedulable_q;
          })
          (λ q''. q'')
      else (record q' { unschedulable_q = add_or_update api i q'.unschedulable_q }, none)

  -- `none` is the panic on a nil old pod.
  unfoldable pub update_elsewhere :
      ℕ → Option Pod → Pod → PriorityQueue → Option (PriorityQueue × Option QueueError)
  unfolding update_in_unschedulable add_to_active nominate get new_pod_info
  update_elsewhere now old new q = elim (get api new q.unschedulable_q) [
    | some u ↦ elim old [ none ↦ none | some pod ↦ some (update_in_unschedulable pod new u q) ]
    | none ↦ some (add_to_active (new_pod_info now new) q (nominate new))
  ]

  unfoldable pub update :
      ℕ → Option Pod → Pod → PriorityQueue → Option (PriorityQueue × Option QueueError)
  unfolding update_elsewhere update_in_active update_in_backoff in_active in_backoff
      new_pod_info_no_timestamp
  update now none new q = update_elsewhere now none new q
  update now (some old) new q = elim (in_active api (new_pod_info_no_timestamp old) q) [
    | some i ↦ some (update_in_active old new i q)
    | none ↦ elim (in_backoff api (new_pod_info_no_timestamp old) q) [
      | some i ↦ some (update_in_backoff old new i q)
      | none ↦ update_elsewhere now (some old) new q
    ]
  ]

  -- Delete, which answers nil always. Clearing the back-off comes before the deletion from the
  -- podBackoffQ, whose order it changes.
  unfoldable pub delete_pod : Pod → PriorityQueue → PriorityQueue
  unfolding pod_info_key_func Nominated.delete clear_pod_backoff delete_from_backoff delete
      new_pod_info_no_timestamp
  delete_pod pod q =
      let i = new_pod_info_no_timestamp pod in
      let r = Heap.delete less (pod_info_key_func api) q.active_q i in
      let q' : PriorityQueue = record q {
        nominated_pods = Nominated.delete pod q.nominated_pods;
        active_q = r.0;
      } in
      let q'' =
        delete_from_backoff api i
          (record q' { pod_backoff = clear_pod_backoff api pod q'.pod_backoff }) in
      elim r.1 [
        | none ↦ q'
        | some e ↦ record q'' { unschedulable_q = delete api pod q''.unschedulable_q }
      ]

unfoldable pub close : PriorityQueue → PriorityQueue
close q = record q { closed = true }

unfoldable pub delete_nominated_pod_if_exists : Pod → PriorityQueue → PriorityQueue
unfolding Nominated.delete
delete_nominated_pod_if_exists pod q = record q {
  nominated_pods = Nominated.delete pod q.nominated_pods;
}

unfoldable pub update_nominated_pod_for_node : Pod → String → PriorityQueue → PriorityQueue
unfolding Nominated.add
update_nominated_pod_for_node pod node_name q = record q {
  nominated_pods = Nominated.add pod node_name q.nominated_pods;
}

unfoldable pub pods_of : List PodInfo → List Pod
pods_of [] = []
pods_of (i ∷ is) = i.pod ∷ pods_of is

unfoldable pub pending_pods : PriorityQueue → List Pod
unfolding pods_of
pending_pods q =
    pods_of (Heap.list q.active_q)
    ++ (pods_of (Heap.list q.pod_backoff_q) ++ pods_of (Dict.values q.unschedulable_q))
