-- ===== src/Queue.antt =====
-- pkg/scheduler/internal/queue/scheduling_queue.go: the state of the scheduling queue of a pool, and its
-- parts. A time is a number of nanoseconds (Util.Backoff), and the current time an argument where the
-- code asks the clock. The lock makes each exported method one step; the signals of the condition
-- variable are left out, with Pop telling whether it would wait.
pub mod Nominated
pub mod Moves
pub mod Ops
pub mod Places
pub mod Invariant
pub mod Changes
pub mod Steps
pub mod Presence
pub mod Popping
pub mod Updates
pub mod Leaving
pub mod Moving
pub mod Rounds
pub mod Flushing
pub mod Order
use ai_scheduler.Prelude.{
  ℕ, ◌+◌, ◌-◌, ◌*◌, ◌%◌, Bool, true, false, ◌||◌, ◌&&◌, not, none, some, Option, String, List, [],
  ◌∷◌, ltb, append, ◌==◌, if◌then◌else◌,
}
use ai_scheduler.Prelude.Dict
use ai_scheduler.Prelude.Dict.{Dict}
use ai_scheduler.Prelude.Int64
use ai_scheduler.Kube.{Pod}
use ai_scheduler.Util.Heap
use ai_scheduler.Util.Heap.{Heap, HeapError}
use ai_scheduler.Util.Backoff
use ai_scheduler.Util.Backoff.{NamespacedName, PodBackoff}

-- What the queue calls in other repositories, beside the clock.
pub record QueueApi : Type 0 where
  -- cache.MetaNamespaceKeyFunc, which has a key for every pod
  pub meta_namespace_key : Pod → String
  -- NamespacedName.String
  pub namespaced_key : NamespacedName → String
  -- reflect.DeepEqual
  pub deep_equal : Pod → Pod → Bool

-- util.GetPodPriority. DefaultPriorityWhenNoDefaultClassExists is 0, and a priority is a word.
unfoldable pub get_pod_priority : Pod → ℕ
get_pod_priority pod = elim pod.priority [ none ↦ 0 | some p ↦ p % Int64.modulus ]

pub record PodInfo : Type 0 where
  pub pod : Pod
  pub timestamp : ℕ

unfoldable pub new_pod_info_no_timestamp : Pod → PodInfo
new_pod_info_no_timestamp pod = record { pod = pod; timestamp = 0 }

unfoldable pub new_pod_info : ℕ → Pod → PodInfo
new_pod_info now pod = record { pod = pod; timestamp = now }

unfoldable pub active_q_comp : PodInfo → PodInfo → Bool
unfolding get_pod_priority
active_q_comp i1 i2 =
    let prio1 = get_pod_priority i1.pod in
    let prio2 = get_pod_priority i2.pod in
    Int64.lt prio2 prio1 || (prio1 == prio2 && ltb i1.timestamp i2.timestamp)

unfoldable pub ns_name_for_pod : Pod → NamespacedName
ns_name_for_pod pod = record { namespace = pod.namespace; name = pod.name }

pub record NominatedPodMap : Type 0 where
  pub nominated_pods : Dict (List Pod)
  pub nominated_pod_to_node : Dict String

-- The unschedulableQ is the podInfoMap of the UnschedulablePodsMap.
pub record PriorityQueue : Type 0 where
  pub pod_backoff : PodBackoff
  pub active_q : Heap PodInfo
  pub pod_backoff_q : Heap PodInfo
  pub unschedulable_q : Dict PodInfo
  pub nominated_pods : NominatedPodMap
  pub scheduling_cycle : ℕ
  pub move_request_cycle : ℕ
  pub closed : Bool

pub data QueueError : Type 0 where
  heap_error : HeapError → QueueError
  in_unschedulable_q in_active_q in_backoff_q queue_closed : QueueError

-- util.GetPodFullName
unfoldable pub get_pod_full_name : Pod → String
get_pod_full_name pod = append (append pod.name "_") pod.namespace

-- What isPodUpdated leaves of a pod: not its resource version, generation and status.
unfoldable pub strip : Pod → Pod
strip pod = record pod { resource_version = ""; generation = 0; nominated_node_name = "" }

abbrev pub one_second : ℕ
one_second = 1000000000

-- NewPriorityQueueWithLessFuncAndClock. The word of -1 is the largest.
unfoldable pub new_priority_queue : PriorityQueue
unfolding Backoff.create_pod_backoff
new_priority_queue = record {
  pod_backoff = Backoff.create_pod_backoff one_second (10 * one_second);
  active_q = Heap.new_heap;
  pod_backoff_q = Heap.new_heap;
  unschedulable_q = [];
  nominated_pods = record { nominated_pods = []; nominated_pod_to_node = [] };
  scheduling_cycle = 0;
  move_request_cycle = Int64.modulus - 1;
  closed = false;
}

module _ (api : QueueApi) where
  -- podInfoKeyFunc
  unfoldable pub pod_info_key_func : PodInfo → Option String
  pod_info_key_func i = some (api.meta_namespace_key i.pod)

  -- UnschedulablePodsMap
  unfoldable pub add_or_update : PodInfo → Dict PodInfo → Dict PodInfo
  unfolding get_pod_full_name
  add_or_update i u = Dict.insert (get_pod_full_name i.pod) i u

  unfoldable pub delete : Pod → Dict PodInfo → Dict PodInfo
  unfolding get_pod_full_name
  delete pod u = Dict.remove (get_pod_full_name pod) u

  unfoldable pub get : Pod → Dict PodInfo → Option PodInfo
  unfolding get_pod_full_name
  get pod u = Dict.lookup (get_pod_full_name pod) u

  -- The time that GetBackoffTime gives, which is the zero time for a pod without back-off.
  unfoldable pub backoff_time_or_zero : PodBackoff → Pod → ℕ
  unfolding ns_name_for_pod
  backoff_time_or_zero b pod =
      elim (Backoff.get_backoff_time api.namespaced_key (ns_name_for_pod pod) b) [
        | none ↦ 0
        | some t ↦ t
      ]

  -- podsCompareBackoffCompleted, which reads the back-off at the time it is called.
  unfoldable pub pods_compare_backoff_completed : PodBackoff → PodInfo → PodInfo → Bool
  unfolding backoff_time_or_zero
  pods_compare_backoff_completed b i1 i2 =
      ltb (backoff_time_or_zero b i1.pod) (backoff_time_or_zero b i2.pod)

  unfoldable pub clear_pod_backoff : Pod → PodBackoff → PodBackoff
  unfolding ns_name_for_pod
  clear_pod_backoff pod b = (Backoff.clear_pod_backoff api.namespaced_key (ns_name_for_pod pod) b).0

  unfoldable pub is_pod_backing_off : ℕ → Pod → PodBackoff → Bool
  unfolding ns_name_for_pod
  is_pod_backing_off now pod b =
      elim (Backoff.get_backoff_time api.namespaced_key (ns_name_for_pod pod) b) [
        | none ↦ false
        | some t ↦ ltb now t
      ]

  unfoldable pub backoff_pod : ℕ → Pod → PodBackoff → PodBackoff
  unfolding ns_name_for_pod Backoff.gc
  backoff_pod now pod b =
      let id = ns_name_for_pod pod in
      let b' = Backoff.gc now b in
      let next = (Backoff.backoff_pod api.namespaced_key now id b').0 in
      elim (Backoff.get_backoff_time api.namespaced_key id b') [
        | none ↦ next
        | some t ↦ if ltb t now then next else b'
      ]

  -- isPodUpdated
  unfoldable pub is_pod_updated : Pod → Pod → Bool
  unfolding strip
  is_pod_updated old new = not (api.deep_equal (strip old) (strip new))
