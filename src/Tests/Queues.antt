-- ===== src/Tests/Queues.antt =====
-- The theorems on the heap, the back-off, the scheduling queue and the predicates at concrete objects.
use ai_scheduler.Prelude.{
  ◌≡◌, refl, true, false, none, some, Option, String, Bool, [], ◌∷◌, length, str_eq, str_eq_iff,
  str_eq_refl, arith, if◌then◌else◌, ◌⊎◌, append,
}
use ai_scheduler.Prelude.Dict
use ai_scheduler.Prelude.Int64
use ai_scheduler.Kube.{Pod}
use ai_scheduler.Util.Heap
use ai_scheduler.Util.Heap.{Heap, add_key, get_by_key}
use ai_scheduler.Util.Heap.Least.{new_heap-IsHeap, HasAdded, add_key-HasAdded}
use ai_scheduler.Util.Backoff
use ai_scheduler.Util.Backoff.{
  NamespacedName, BackoffEntry, PodBackoff, compare_update, gc, backoff_pod,
}
use ai_scheduler.Util.Backoff.Laws.{Collected, gc-Collected}
use ai_scheduler.Util.Backoff.Steps.{Backed, backoff_pod-Backed}
use ai_scheduler.Queue.{
  QueueApi, PriorityQueue, PodInfo, new_priority_queue, active_q_comp, get_pod_full_name,
  ns_name_for_pod, is_pod_updated, QueueError,
}
use ai_scheduler.Queue.Places.{Naming, is_in, is_unschedulable, held}
use ai_scheduler.Queue.Invariant.{in_active_q, nowhere, place_of, same, IsQueue, Leads}
use ai_scheduler.Queue.Order.{active_q_comp-IsOrder}
use ai_scheduler.Queue.Ops.{
  add, delete_pod, add_unschedulable_if_not_present, pop, update, popped, waits, closed,
}
use ai_scheduler.Queue.Moves.{
  move_all_to_active_queue, flush_backoff_q_completed, flush_unschedulable_q_leftover, is_leftover,
}
use ai_scheduler.Queue.Steps.{add-Leads, delete_pod-Leads}
use ai_scheduler.Queue.Presence.{Puts, refusal, retry_place, add_unschedulable_if_not_present-Puts}
use ai_scheduler.Queue.Popping.{Takes, pop-Takes}
use ai_scheduler.Queue.Updates.{Goes, after_update, update-Goes}
use ai_scheduler.Queue.Leaving.{target}
use ai_scheduler.Queue.Rounds.{
  passes, moved_place, move_all_to_active_queue-Leads, flush_unschedulable_q_leftover-Leads,
}
use ai_scheduler.Queue.Flushing.{Flushed, flush_backoff_q_completed-Flushed}
use ai_scheduler.Info.NodeInfo.{NodeInfo, new_node_info, add_pod}
use ai_scheduler.Info.Resource
use ai_scheduler.Info.Resource.{add_containers, max_containers}
use ai_scheduler.Info.Resource.Amount.{IsResource, empty_resource-IsResource, Dimension, amount}
use ai_scheduler.Predicates.{
  is_zero_request, get_resource_request, pod_fits_resources, verdict, PredicateMetadata, request_of,
  ignored_of, is_ignored,
}
use ai_scheduler.Predicates.Fits.{Compared, pod_fits_resources-add_pod}
use ai_scheduler.Tests.{web, kube, north}

abbrev api : QueueApi
api = record {
  meta_namespace_key = λ p. append (append p.name "_") p.namespace;
  namespaced_key = λ n. append (append n.name "_") n.namespace;
  deep_equal = λ p q. str_eq p.name q.name;
}

same_full_name :
    (p q : Pod)
    → str_eq (api.meta_namespace_key p) (api.meta_namespace_key q)
      ≡ str_eq (get_pod_full_name p) (get_pod_full_name q)
unfolding get_pod_full_name
same_full_name p q = refl

same_ns_name :
    (p q : Pod)
    → str_eq (api.meta_namespace_key p) (api.meta_namespace_key q) ≡ true
    → api.namespaced_key (ns_name_for_pod p) ≡ api.namespaced_key (ns_name_for_pod q)
unfolding ns_name_for_pod
same_ns_name p q e = (str_eq_iff (api.meta_namespace_key p) (api.meta_namespace_key q)).0 e

abbrev names : Naming api
names = record {
  IsNamed = λ p. Unit;
  same_key = λ p q n m. same_full_name p q;
  same_backoff = λ p q n m e. same_ns_name p q e;
}

empty-IsQueue : IsQueue api active_q_comp names new_priority_queue
unfolding new_priority_queue Backoff.create_pod_backoff Heap.new_heap get_by_key Dict.lookup is_in
    held is_unschedulable Dict.has
empty-IsQueue = record {
  places = record {
    active = new_heap-IsHeap active_q_comp;
    backoff = (new_heap-IsHeap active_q_comp).indexed;
    distinct = tt;
    active_entries = λ key i e. absurd (ground arith);
    backoff_entries = λ key i e. absurd (ground arith);
    unschedulable_entries = λ key i e. absurd (ground arith);
    one_place = λ p n. omega arith;
  };
  backing = record {
    heap = new_heap-IsHeap compare_update;
    range = omega arith;
    default = omega arith;
    entries = λ key b e. absurd (ground arith);
  };
}

-- The queue with one pod in the activeQ, and with one that was tried in vain.
abbrev queued : PriorityQueue
queued = (add api active_q_comp 5 web new_priority_queue).0

queued-IsQueue : IsQueue api active_q_comp names queued
queued-IsQueue =
    (add-Leads api active_q_comp active_q_comp-IsOrder names 5 web new_priority_queue tt
      empty-IsQueue).1.0

abbrev tried : PriorityQueue
tried = (add_unschedulable_if_not_present api active_q_comp 5 web 1 new_priority_queue).0

tried-IsQueue : IsQueue api active_q_comp names tried
tried-IsQueue =
    (add_unschedulable_if_not_present-Puts api active_q_comp active_q_comp-IsOrder names 5 web 1
      new_priority_queue tt empty-IsQueue).1.0

add-Leads_example :
    ((add api active_q_comp 7 web queued).1 ≡ none)
    × Leads api active_q_comp names
        (add api active_q_comp 7 web queued).0
        (λ p. if same api web p then in_active_q else place_of api queued p)
add-Leads_example =
    add-Leads api active_q_comp active_q_comp-IsOrder names 7 web queued tt queued-IsQueue

delete_pod-Leads_example :
    Leads api active_q_comp names
      (delete_pod api active_q_comp web queued)
      (λ p. if same api web p then nowhere else place_of api queued p)
delete_pod-Leads_example =
    delete_pod-Leads api active_q_comp active_q_comp-IsOrder names web queued tt queued-IsQueue

add_unschedulable_if_not_present-Puts_example :
    ((add_unschedulable_if_not_present api active_q_comp 5 web 1 queued).1
      ≡ refusal api active_q_comp active_q_comp-IsOrder names (place_of api queued web))
    × Puts api active_q_comp active_q_comp-IsOrder names web
        (retry_place api active_q_comp active_q_comp-IsOrder names 1 queued)
        queued
        (add_unschedulable_if_not_present api active_q_comp 5 web 1 queued).0
add_unschedulable_if_not_present-Puts_example =
    add_unschedulable_if_not_present-Puts api active_q_comp active_q_comp-IsOrder names 5 web 1
      queued tt queued-IsQueue

pop-Takes_example :
    (((p : Pod) → is_in api queued.active_q p ≡ false)
      × ((pop api active_q_comp queued).0 ≡ queued)
      × ((pop api active_q_comp queued).1 ≡ (if queued.closed then closed else waits)))
    ⊎ ((i : PodInfo) × ((pop api active_q_comp queued).1 ≡ popped i.pod)
        × Takes api active_q_comp active_q_comp-IsOrder names queued
            (pop api active_q_comp queued).0
            i)
pop-Takes_example = pop-Takes api active_q_comp active_q_comp-IsOrder names queued queued-IsQueue

flush_backoff_q_completed-Flushed_example :
    Flushed api active_q_comp active_q_comp-IsOrder names 9 queued
      (flush_backoff_q_completed api active_q_comp 9 queued)
flush_backoff_q_completed-Flushed_example =
    flush_backoff_q_completed-Flushed api active_q_comp active_q_comp-IsOrder names 9 queued
      queued-IsQueue

flush_unschedulable_q_leftover-Leads_example :
    Leads api active_q_comp names (flush_unschedulable_q_leftover api active_q_comp 9 tried) (λ p.
      if passes api active_q_comp active_q_comp-IsOrder names
        (is_leftover 9)
        tried.unschedulable_q
        p
      then target api active_q_comp active_q_comp-IsOrder names 9 tried p
      else place_of api tried p)
flush_unschedulable_q_leftover-Leads_example =
    flush_unschedulable_q_leftover-Leads api active_q_comp active_q_comp-IsOrder names 9 tried
      tried-IsQueue

move_all_to_active_queue-Leads_example :
    ((move_all_to_active_queue api active_q_comp 9 tried).unschedulable_q ≡ [])
    × ((move_all_to_active_queue api active_q_comp 9 tried).move_request_cycle
        ≡ tried.scheduling_cycle)
    × Leads api active_q_comp names (move_all_to_active_queue api active_q_comp 9 tried) (λ p.
      moved_place api active_q_comp active_q_comp-IsOrder names 9 tried p (place_of api tried p))
move_all_to_active_queue-Leads_example =
    move_all_to_active_queue-Leads api active_q_comp active_q_comp-IsOrder names 9 tried
      tried-IsQueue

backoff_pod-Backed_example :
    Backed api.namespaced_key 9
      (ns_name_for_pod web)
      queued.pod_backoff
      (backoff_pod api.namespaced_key 9 (ns_name_for_pod web) queued.pod_backoff)
backoff_pod-Backed_example =
    backoff_pod-Backed api.namespaced_key 9 (ns_name_for_pod web) queued.pod_backoff
      queued-IsQueue.backing

gc-Collected_example :
    Collected tried.pod_backoff.max_duration 9 tried.pod_backoff.expiry_q
      (gc 9 tried.pod_backoff).expiry_q
gc-Collected_example = gc-Collected 9 tried.pod_backoff tried-IsQueue.backing.heap

abbrev web_info : PodInfo
web_info = record { pod = web; timestamp = 9 }

add_key-HasAdded_example :
    HasAdded active_q_comp queued.active_q "other" web_info
      (add_key active_q_comp queued.active_q "other" web_info)
add_key-HasAdded_example =
    add_key-HasAdded active_q_comp active_q_comp-IsOrder queued.active_q "other" web_info
      queued-IsQueue.places.active

update-Goes_example :
    (r : PriorityQueue × Option QueueError) × (update api active_q_comp 9 (some web) web queued
      ≡ some r)
    × Goes api active_q_comp active_q_comp-IsOrder names web
        (after_update api active_q_comp active_q_comp-IsOrder names
          (is_pod_updated api web web)
          (place_of api queued web))
        queued
        r
update-Goes_example =
    update-Goes api active_q_comp active_q_comp-IsOrder names 9 web web queued tt tt
      (str_eq_refl (api.meta_namespace_key web)) queued-IsQueue

abbrev roomy : NodeInfo
roomy = record (new_node_info 0) {
  node = some north;
  allocatable_resource = record {
    milli_cpu = 4000;
    memory = 4096;
    ephemeral_storage = 0;
    allowed_pod_number = 10;
    scalar_resources = [];
  };
}

roomy-IsResource : IsResource roomy.requested_resource
unfolding new_node_info
roomy-IsResource = empty_resource-IsResource

web_requests : is_zero_request (get_resource_request kube web) ≡ false
unfolding is_zero_request get_resource_request add_containers max_containers Resource.add
    Resource.add_entry str_eq Int64.add
web_requests = refl

-- The metadata of the pod, for a cluster in which an extender manages a resource.
abbrev managed : String → Bool
managed name = str_eq name "example.com/managed"

abbrev web_meta : PredicateMetadata
web_meta = record {
  pod_best_effort = false;
  pod_request = get_resource_request kube web;
  pod_ports = [];
  ignored_extended_resources = "example.com/managed" ∷ [];
}

web_meta_request : request_of kube web (some web_meta) ≡ get_resource_request kube web
unfolding request_of
web_meta_request = refl

web_fits : pod_fits_resources kube managed web (some web_meta) roomy ≡ verdict true []
unfolding pod_fits_resources max_containers add_containers Resource.add Resource.add_entry str_eq
    Int64.add Int64.lt new_node_info
web_fits = refl

pod_fits_resources-add_pod_example :
    let after = (add_pod kube 1 roomy web).0 in
    (Int64.lt after.allocatable_resource.allowed_pod_number (length after.pods) ≡ false)
    × ((d : Dimension)
        → Compared
            (is_ignored managed (ignored_of (some web_meta)))
            (get_resource_request kube web)
            d
        → Int64.lt (amount d after.allocatable_resource) (amount d after.requested_resource)
          ≡ false)
pod_fits_resources-add_pod_example =
    pod_fits_resources-add_pod kube managed 1 web (some web_meta) roomy north [] refl
      roomy-IsResource refl web_meta_request web_requests web_fits
