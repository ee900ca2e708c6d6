-- ===== src/Queue/Moves.antt =====
-- The moves between the three queues of pkg/scheduler/internal/queue/scheduling_queue.go: those that
-- events cause, and those of the two goroutines that `run` starts. `less` is the order of the activeQ.
use ai_scheduler.Prelude.{
  ℕ, zero, suc, ◌+◌, Bool, true, false, not, str_eq, none, some, Option, String, List, [], ◌∷◌, ltb,
  length, if◌then◌else◌,
}
use ai_scheduler.Prelude.Dict
use ai_scheduler.Prelude.Dict.{Dict}
use ai_scheduler.Prelude.Int64
use ai_scheduler.Kube.{Pod, PodAffinityTerm, External}
use ai_scheduler.Util.Heap
use ai_scheduler.Util.Heap.{Heap}
use ai_scheduler.Util.Backoff
use ai_scheduler.Util.Backoff.{time_sub}
use ai_scheduler.Queue.{
  QueueApi, PriorityQueue, PodInfo, pod_info_key_func, pods_compare_backoff_completed,
  is_pod_backing_off, ns_name_for_pod, delete,
}

-- unschedulableQTimeInterval
abbrev pub unschedulable_q_time_interval : ℕ
unschedulable_q_time_interval = 60000000000

-- currentTime.Sub(lastScheduleTime) > unschedulableQTimeInterval
unfoldable pub is_leftover : ℕ → PodInfo → Bool
unfolding time_sub
is_leftover now i = Int64.lt unschedulable_q_time_interval (time_sub now i.timestamp)

unfoldable pub leftovers : ℕ → Dict PodInfo → List PodInfo
unfolding is_leftover
leftovers now [] = []
leftovers now ((key, i) ∷ u) =
    let rest = leftovers now u in if is_leftover now i then i ∷ rest else rest

-- GetPodAffinityTerms
unfoldable pub get_pod_affinity_terms : Option (List PodAffinityTerm) → List PodAffinityTerm
get_pod_affinity_terms none = []
get_pod_affinity_terms (some terms) = terms

unfoldable pub get_namespaces_from_pod_affinity_term : Pod → PodAffinityTerm → List String
get_namespaces_from_pod_affinity_term pod term = elim term.namespaces [
  | [] ↦ pod.namespace ∷ []
  | n ∷ ns ↦ n ∷ ns
]

unfoldable pub has_string : String → List String → Bool
has_string s [] = false
has_string s (t ∷ ts) = let rest = has_string s ts in if str_eq t s then true else rest

-- PodMatchesTermsNamespaceAndSelector with the selector of the term, which is nil where it is not
-- valid: the call of Matches then panics, which is `none`.
unfoldable pub term_matches : External → Pod → Pod → PodAffinityTerm → Option Bool
unfolding has_string get_namespaces_from_pod_affinity_term
term_matches ext pod up term =
    if has_string pod.namespace (get_namespaces_from_pod_affinity_term up term)
    then ext.selector_matches term.label_selector pod.labels
    else some false

unfoldable pub any_term_matches : External → Pod → Pod → List PodAffinityTerm → Option Bool
unfolding term_matches
any_term_matches ext pod up [] = some false
any_term_matches ext pod up (term ∷ terms) =
    let rest = any_term_matches ext pod up terms in
    elim (term_matches ext pod up term) [ none ↦ none | some m ↦ if m then some true else rest ]

unfoldable pub matches_affinity : External → Pod → Pod → Option Bool
unfolding any_term_matches get_pod_affinity_terms
matches_affinity ext pod up = elim up.affinity [
  | none ↦ some false
  | some a ↦ any_term_matches ext pod up (get_pod_affinity_terms a.pod_affinity)
]

-- getUnschedulablePodsWithMatchingAffinityTerm
unfoldable pub get_unschedulable_pods_with_matching_affinity_term :
    External → Pod → Dict PodInfo → Option (List PodInfo)
unfolding matches_affinity
get_unschedulable_pods_with_matching_affinity_term ext pod [] = some []
get_unschedulable_pods_with_matching_affinity_term ext pod ((key, i) ∷ u) =
    let rest = get_unschedulable_pods_with_matching_affinity_term ext pod u in
    elim (matches_affinity ext pod i.pod) [
      | none ↦ none
      | some m ↦ elim rest [ none ↦ none | some is ↦ some (if m then i ∷ is else is) ]
    ]

module _ (api : QueueApi) (less : PodInfo → PodInfo → Bool) where
  unfoldable pub add_active : PodInfo → PriorityQueue → PriorityQueue
  unfolding pod_info_key_func
  add_active i q = record q { active_q = (Heap.add less (pod_info_key_func api) q.active_q i).0 }

  unfoldable pub add_backoff : PodInfo → PriorityQueue → PriorityQueue
  unfolding pod_info_key_func pods_compare_backoff_completed
  add_backoff i q = record q {
    pod_backoff_q =
        (Heap.add (pods_compare_backoff_completed api q.pod_backoff) (pod_info_key_func api)
          q.pod_backoff_q i).0;
  }

  -- What MoveAllToActiveQueue and movePodsToActiveQueue do with each pod: a heap's error is logged only.
  unfoldable pub requeue : ℕ → PodInfo → PriorityQueue → PriorityQueue
  unfolding add_active add_backoff is_pod_backing_off
  requeue now i q =
      if is_pod_backing_off api now i.pod q.pod_backoff then add_backoff i q else add_active i q

  unfoldable pub requeue_all : ℕ → List PodInfo → PriorityQueue → PriorityQueue
  unfolding requeue
  requeue_all now [] q = q
  requeue_all now (i ∷ is) q = requeue_all now is (requeue now i q)

  unfoldable pub move_all_to_active_queue : ℕ → PriorityQueue → PriorityQueue
  unfolding requeue_all
  move_all_to_active_queue now q = record (requeue_all now (Dict.values q.unschedulable_q) q) {
    unschedulable_q = [];
    move_request_cycle = q.scheduling_cycle;
  }

  unfoldable pub move_each : ℕ → List PodInfo → PriorityQueue → PriorityQueue
  unfolding requeue delete
  move_each now [] q = q
  move_each now (i ∷ is) q =
      let q' = requeue now i q in
      move_each now is (record q' { unschedulable_q = delete api i.pod q'.unschedulable_q })

  unfoldable pub move_pods_to_active_queue : ℕ → List PodInfo → PriorityQueue → PriorityQueue
  unfolding move_each
  move_pods_to_active_queue now is q = record (move_each now is q) {
    move_request_cycle = q.scheduling_cycle;
  }

  unfoldable pub flush_unschedulable_q_leftover : ℕ → PriorityQueue → PriorityQueue
  unfolding leftovers move_pods_to_active_queue
  flush_unschedulable_q_leftover now q = elim (leftovers now q.unschedulable_q) [
    | [] ↦ q
    | i ∷ is ↦ move_pods_to_active_queue now (i ∷ is) q
  ]

  -- AssignedPodAdded and AssignedPodUpdated, which have the same body.
  unfoldable pub assigned_pod_added : External → ℕ → Pod → PriorityQueue → Option PriorityQueue
  unfolding get_unschedulable_pods_with_matching_affinity_term move_pods_to_active_queue
  assigned_pod_added ext now pod q =
      elim (get_unschedulable_pods_with_matching_affinity_term ext pod q.unschedulable_q) [
        | none ↦ none
        | some is ↦ some (move_pods_to_active_queue now is q)
      ]

  -- The queue after podBackoffQ.Pop().
  unfoldable pub popped_backoff : PriorityQueue → PriorityQueue
  unfolding pods_compare_backoff_completed
  popped_backoff q = record q {
    pod_backoff_q = (Heap.pop (pods_compare_backoff_completed api q.pod_backoff) q.pod_backoff_q).0;
  }

  -- One turn of the loop of flushBackoffQCompleted that goes on, for the pod at the head.
  unfoldable pub pop_backoff : PodInfo → PriorityQueue → PriorityQueue
  unfolding add_active popped_backoff
  pop_backoff i q = add_active i (popped_backoff q)

  -- Whether the loop goes on: the pod has no back-off, or it has ended.
  unfoldable pub is_completed : ℕ → PodInfo → PriorityQueue → Bool
  unfolding ns_name_for_pod
  is_completed now i q =
      elim (Backoff.get_backoff_time api.namespaced_key (ns_name_for_pod i.pod) q.pod_backoff) [
        | none ↦ true
        | some t ↦ not (ltb now t)
      ]

  -- podBackoffQ.Pop fails on a pod that has a back-off: the loop returns.
  unfoldable pub gives_up : PodInfo → PriorityQueue → Bool
  unfolding ns_name_for_pod pods_compare_backoff_completed
  gives_up i q =
      let popped =
        (Heap.pop (pods_compare_backoff_completed api q.pod_backoff) q.pod_backoff_q).1 in
      elim (Backoff.get_backoff_time api.namespaced_key (ns_name_for_pod i.pod) q.pod_backoff) [
        | none ↦ false
        | some t ↦ elim popped [ none ↦ true | some j ↦ false ]
      ]

  -- The clock is read once for a call here, and for each turn in the code. On fuel: each turn takes a pod from the podBackoffQ.
  unfoldable pub flush_loop : ℕ → ℕ → PriorityQueue → PriorityQueue
  unfolding pop_backoff is_completed gives_up
  flush_loop zero now q = q
  flush_loop (suc k) now q = elim (Heap.peek q.pod_backoff_q) [
    | none ↦ q
    | some i ↦
        let rest = flush_loop k now (pop_backoff i q) in
        if not (is_completed now i q) then q else if gives_up i q then popped_backoff q else rest
  ]

  unfoldable pub flush_backoff_q_completed : ℕ → PriorityQueue → PriorityQueue
  unfolding flush_loop
  flush_backoff_q_completed now q = flush_loop (length q.pod_backoff_q.queue + 1) now q
