-- ===== src/Queue/Invariant.antt =====
-- The invariant of a PriorityQueue of pkg/scheduler/internal/queue/scheduling_queue.go, and the abstract
-- view of it: for each pod the place where it waits.
use ai_scheduler.Prelude.{ℕ, ◌≡◌, refl, Bool, true, false, none, some, str_eq, if◌then◌else◌}
use ai_scheduler.Prelude.Dict
use ai_scheduler.Kube.{Pod}
use ai_scheduler.Util.Heap
use ai_scheduler.Util.Heap.{Heap, get_by_key, add_key, delete_key}
use ai_scheduler.Util.Backoff.Steps.{IsBackoff}
use ai_scheduler.Queue.{
  QueueApi, NominatedPodMap, PriorityQueue, PodInfo, get, pod_info_key_func,
  pods_compare_backoff_completed,
}
use ai_scheduler.Queue.Ops.{add_to_active, delete_from_backoff, in_active, in_backoff, nominate}
use ai_scheduler.Queue.Places.{Naming, Holds, is_in, is_unschedulable, held}

pub data Place : Type 0 where
  nowhere in_active_q in_backoff_q in_unschedulable_q : Place

unfoldable pub place : Bool → Bool → Bool → Place
place a b u =
    if a then in_active_q else if b then in_backoff_q else if u then in_unschedulable_q else nowhere

module _ (api : QueueApi) where
  abbrev pub same : Pod → Pod → Bool
  same p q = str_eq (api.meta_namespace_key p) (api.meta_namespace_key q)

  -- Where a pod of this key is.
  unfoldable pub place_of : PriorityQueue → Pod → Place
  place_of q p =
      place (is_in api q.active_q p) (is_in api q.pod_backoff_q p)
        (is_unschedulable api q.unschedulable_q p)

  pub place_of_lem :
      (q : PriorityQueue) (p : Pod)
      → place_of q p
        ≡ place
            (is_in api q.active_q p)
            (is_in api q.pod_backoff_q p)
            (is_unschedulable api q.unschedulable_q p)
  unfolding place_of
  place_of_lem q p = refl

  pub get_is_in :
      (h : Heap PodInfo) (p : Pod)
      → is_in api h p
        ≡ elim (get_by_key h (api.meta_namespace_key p)) [ none ↦ false | some i ↦ true ]
  unfolding is_in held
  get_is_in h p = refl

  pub is_unschedulable-get :
      (q : PriorityQueue) (p : Pod)
      → is_unschedulable api q.unschedulable_q p
        ≡ elim (get api p q.unschedulable_q) [ none ↦ false | some i ↦ true ]
  unfolding is_unschedulable get Dict.has
  is_unschedulable-get q p = refl

  pub add_to_active_lem :
      (less : PodInfo → PodInfo → Bool) (i : PodInfo) (q : PriorityQueue)
      (next : PriorityQueue → PriorityQueue)
      → add_to_active api less i q next ≡ (
        next (record q { active_q = add_key less q.active_q (api.meta_namespace_key i.pod) i }),
        none,
      )
  unfolding add_to_active Heap.add pod_info_key_func
  add_to_active_lem less i q next = refl

  pub delete_from_backoff_lem :
      (i : PodInfo) (q : PriorityQueue)
      → delete_from_backoff api i q ≡ record q {
        pod_backoff_q =
            (delete_key
              (pods_compare_backoff_completed api q.pod_backoff)
              q.pod_backoff_q
              (api.meta_namespace_key i.pod)).0;
      }
  unfolding delete_from_backoff Heap.delete pod_info_key_func
  delete_from_backoff_lem i q = refl

  pub heap_delete_lem :
      (cmp : PodInfo → PodInfo → Bool) (h : Heap PodInfo) (i : PodInfo)
      → Heap.delete cmp (pod_info_key_func api) h i
        ≡ delete_key cmp h (api.meta_namespace_key i.pod)
  unfolding Heap.delete pod_info_key_func
  heap_delete_lem cmp h i = refl

  pub heap_add_lem :
      (cmp : PodInfo → PodInfo → Bool) (h : Heap PodInfo) (i : PodInfo)
      → Heap.add cmp (pod_info_key_func api) h i
        ≡ (add_key cmp h (api.meta_namespace_key i.pod) i, none)
  unfolding Heap.add pod_info_key_func
  heap_add_lem cmp h i = refl

  pub in_active_lem :
      (i : PodInfo) (q : PriorityQueue)
      → in_active api i q ≡ get_by_key q.active_q (api.meta_namespace_key i.pod)
  unfolding in_active Heap.get pod_info_key_func
  in_active_lem i q = refl

  pub in_backoff_lem :
      (i : PodInfo) (q : PriorityQueue)
      → in_backoff api i q ≡ get_by_key q.pod_backoff_q (api.meta_namespace_key i.pod)
  unfolding in_backoff Heap.get pod_info_key_func
  in_backoff_lem i q = refl

module _ (api : QueueApi) (less : PodInfo → PodInfo → Bool) (names : Naming api) where
  -- Each pod is in one of the three queues at most, the queues are in good order, and so is the back-off.
  pub record IsQueue (q : PriorityQueue) : Type 0 where
    pub places : Holds api less names q.active_q q.pod_backoff_q q.unschedulable_q
    pub backing : IsBackoff api.namespaced_key q.pod_backoff

  -- The operation leads to a good queue, with the pods in these places.
  abbrev pub Leads : PriorityQueue → (Pod → Place) → Type 0
  Leads q f = IsQueue q × ((p : Pod) → names.IsNamed p → place_of api q p ≡ f p)

  -- From the three queues to the queue.
  pub leads :
      (q : PriorityQueue) (f : Pod → Place)
      → Holds api less names q.active_q q.pod_backoff_q q.unschedulable_q
      → IsBackoff api.namespaced_key q.pod_backoff
      → ((p : Pod)
          → names.IsNamed p
          → place
              (is_in api q.active_q p)
              (is_in api q.pod_backoff_q p)
              (is_unschedulable api q.unschedulable_q p)
            ≡ f p)
      → Leads q f
  unfolding place_of
  leads q f x b e = (record { places = x; backing = b }, e)

  pub nominate-Leads :
      (pod : Pod) (q : PriorityQueue) (f : Pod → Place) → Leads q f → Leads (nominate pod q) f
  unfolding nominate place_of
  nominate-Leads pod q f (x, e) = (record { places = x.places; backing = x.backing }, e)

  -- The other fields do not matter.
  pub others-Leads :
      (npm : NominatedPodMap) (c m : ℕ) (closed : Bool) (q : PriorityQueue) (f : Pod → Place)
      → Leads q f
      → Leads
          (record q {
            nominated_pods = npm;
            scheduling_cycle = c;
            move_request_cycle = m;
            closed = closed;
          })
          f
  unfolding place_of
  others-Leads npm c m closed q f (x, e) = (record { places = x.places; backing = x.backing }, e)
