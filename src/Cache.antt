-- ===== src/Cache.antt =====
-- type schedulerCache of pkg/scheduler/internal/cache/cache.go: which pods the scheduler has assumed
-- on a node and which the API server has confirmed, and the pools that hold them. Its lock makes each
-- exported method one step. A time is a number of nanoseconds.
pub mod Phases
pub mod Images
use ai_scheduler.Prelude.{
  ℕ, ◌+◌, Bool, true, false, ◌&&◌, not, List, [], ◌∷◌, none, some, Option, String, str_eq, ltb,
  if◌then◌else◌, ◌≡◌,
}
use ai_scheduler.Prelude.Dict
use ai_scheduler.Prelude.Dict.{Dict}
use ai_scheduler.Kube.{Pod, Node, External}
use ai_scheduler.Info.NodeInfo.{
  Error, get_pod_key, pod_in_cache, pod_not_assumed, other_node, already_added, not_added,
  pool_not_found,
}
use ai_scheduler.Info.PoolInfo
use ai_scheduler.Info.PoolInfo.{
  PoolInfo, new_pool_info, default_pool_name, contains_node, get_pod_annotations_pool_name,
}
use ai_scheduler.Info.Store.{Store}

pub record PodState : Type 0 where
  pub pod : Pod
  pub deadline : Option ℕ
  pub binding_finished : Bool

-- `store` holds the items that the pools point to.
pub record Cache : Type 0 where
  pub ttl : ℕ
  pub assumed_pods : Dict Bool
  pub pod_states : Dict PodState
  pub pools : Dict PoolInfo
  pub store : Store

unfoldable pub new_scheduler_cache : ℕ → ℕ → Cache
new_scheduler_cache ttl generation = record {
  ttl = ttl;
  assumed_pods = [];
  pod_states = [];
  pools = (default_pool_name, new_pool_info) ∷ [];
  store = record { items = []; generation = generation };
}

-- The cache after a method and its error, or the end of the process: a nil pointer, `panic` or
-- `klog.Fatalf`.
pub data Outcome : Type 0 where
  done : (c : Cache) (failed : Option Error) → Outcome
  crashed : Outcome

-- cache.assumedPods[key]
unfoldable pub is_assumed : Cache → String → Bool
is_assumed c key = elim (Dict.lookup key c.assumed_pods) [ none ↦ false | some b ↦ b ]

-- defaultPool, by its key in the map; `none` is the nil pool.
unfoldable pub default_pool : Cache → Option String
default_pool c = if Dict.has default_pool_name c.pools then some default_pool_name else none

unfoldable pub get_pool_contains_node : Dict PoolInfo → String → Option String
unfolding contains_node
get_pool_contains_node [] node_name = none
get_pool_contains_node ((key, p) ∷ pools) node_name = elim (contains_node p node_name) [
  | some item ↦ some key
  | none ↦ get_pool_contains_node pools node_name
]

unfoldable pub match_pool_for_pod : Cache → Pod → Option String
unfolding get_pool_contains_node default_pool
match_pool_for_pod c pod =
    if str_eq pod.node_name ""
    then if Dict.has (get_pod_annotations_pool_name pod) c.pools
      then some (get_pod_annotations_pool_name pod)
      else default_pool c
    else elim (get_pool_contains_node c.pools pod.node_name) [
      | some key ↦ some key
      | none ↦ default_pool c
    ]

-- The pool that match_pool_for_pod points to.
unfoldable pub pool_of : Cache → Pod → Option (String × PoolInfo)
unfolding match_pool_for_pod
pool_of c pod = elim (match_pool_for_pod c pod) [
  | none ↦ none
  | some key ↦ elim (Dict.lookup key c.pools) [ none ↦ none | some p ↦ some (key, p) ]
]

unfoldable pub put_pool : Cache → String → Store → PoolInfo → Cache
put_pool c key s p = record c { pools = Dict.insert key p c.pools; store = s }

unfoldable pub is_assumed_pod : Cache → Pod → Option Bool
unfolding is_assumed
is_assumed_pod c pod = elim (get_pod_key pod) [ none ↦ none | some key ↦ some (is_assumed c key) ]

unfoldable pub get_pod : Cache → Pod → Option Pod
get_pod c pod = elim (get_pod_key pod) [
  | none ↦ none
  | some key ↦ elim (Dict.lookup key c.pod_states) [ none ↦ none | some ps ↦ some ps.pod ]
]

-- A pod that was just assumed or added.
unfoldable pub new_pod_state : Pod → PodState
new_pod_state pod = record { pod = pod; deadline = none; binding_finished = false }

unfoldable pub set_pod_state : Cache → String → PodState → Cache
set_pod_state c key ps = record c { pod_states = Dict.insert key ps c.pod_states }

unfoldable pub finish_binding : Cache → Pod → ℕ → Outcome
unfolding set_pod_state
finish_binding c pod now = elim (get_pod_key pod) [
  | none ↦ done c (some Error.empty_uid)
  | some key ↦ elim (Dict.lookup key c.pod_states) [
    | none ↦ done c none
    | some ps ↦
        if is_assumed c key
        then done
            (set_pod_state c key
              (record ps { binding_finished = true; deadline = some (now + c.ttl) }))
            none
        else done c none
  ]
]

-- delete(cache.assumedPods, key); delete(cache.podStates, key)
unfoldable pub drop_pod : Cache → String → Cache
drop_pod c key = record c {
  assumed_pods = Dict.remove key c.assumed_pods;
  pod_states = Dict.remove key c.pod_states;
}

unfoldable pub mark_assumed : Cache → String → Pod → Cache
unfolding set_pod_state new_pod_state
mark_assumed c key pod = record (set_pod_state c key (new_pod_state pod)) {
  assumed_pods = Dict.insert key true c.assumed_pods;
}

-- What AddPod does last where the pod was assumed.
unfoldable pub confirm : Cache → String → PodState → Pod → Cache
unfolding set_pod_state
confirm c key ps pod = record (set_pod_state c key (record ps { deadline = none; pod = pod })) {
  assumed_pods = Dict.remove key c.assumed_pods;
}

-- The code after a call: it goes on with the cache, whatever the call's error, or only without one.
unfoldable pub go_on : Outcome → (Cache → Outcome) → Outcome
go_on (done c failed) f = f c
go_on crashed f = crashed

unfoldable pub unless_failed : Outcome → (Cache → Outcome) → Outcome
unless_failed (done c none) f = f c
unless_failed (done c (some e)) f = done c (some e)
unless_failed crashed f = crashed

module _ (ext : External) where
  -- addPod
  unfoldable pub add_to_pool : Cache → Pod → Outcome
  unfolding put_pool
  add_to_pool c pod = elim (pool_of c pod) [
    | none ↦ crashed
    | some (key, p) ↦
        let (s, p') = PoolInfo.add_pod ext c.store p pod in done (put_pool c key s p') none
  ]

  -- removePod
  unfoldable pub remove_from_pool : Cache → Pod → Outcome
  unfolding put_pool
  remove_from_pool c pod = elim (pool_of c pod) [
    | none ↦ crashed
    | some (key, p) ↦
        let (s, p', failed) = PoolInfo.remove_pod ext c.store p pod in
        done (put_pool c key s p') failed
  ]

  -- updatePod
  unfoldable pub update_in_pool : Cache → Pod → Pod → Outcome
  unfolding unless_failed
  update_in_pool c old new = unless_failed (remove_from_pool c old) (λ c'. add_to_pool c' new)

  unfoldable pub assume_pod : Cache → Pod → Outcome
  unfolding unless_failed mark_assumed
  assume_pod c pod = elim (get_pod_key pod) [
    | none ↦ done c (some Error.empty_uid)
    | some key ↦
        if Dict.has key c.pod_states
        then done c (some pod_in_cache)
        else go_on (add_to_pool c pod) (λ c'. done (mark_assumed c' key pod) none)
  ]

  unfoldable pub forget_pod : Cache → Pod → Outcome
  unfolding unless_failed drop_pod
  forget_pod c pod = elim (get_pod_key pod) [
    | none ↦ done c (some Error.empty_uid)
    | some key ↦ elim (Dict.lookup key c.pod_states) [
      | none ↦ done c (some pod_not_assumed)
      | some ps ↦
          if not (str_eq ps.pod.node_name pod.node_name)
          then done c (some other_node)
          else if is_assumed c key
          then unless_failed (remove_from_pool c pod) (λ c'. done (drop_pod c' key) none)
          else done c (some pod_not_assumed)
    ]
  ]

  -- The error of the removal is not looked at.
  unfoldable pub add_pod : Cache → Pod → Outcome
  unfolding go_on confirm set_pod_state
  add_pod c pod = elim (get_pod_key pod) [
    | none ↦ done c (some Error.empty_uid)
    | some key ↦ elim (Dict.lookup key c.pod_states) [
      | none ↦
          go_on (add_to_pool c pod) (λ c'. done (set_pod_state c' key (new_pod_state pod)) none)
      | some ps ↦
          if is_assumed c key
          then if str_eq ps.pod.node_name pod.node_name
            then done (confirm c key ps pod) none
            else go_on (remove_from_pool c ps.pod)
                (λ c'. go_on (add_to_pool c' pod) (λ c''. done (confirm c'' key ps pod) none))
          else done c (some already_added)
    ]
  ]

  unfoldable pub update_pod : Cache → Pod → Pod → Outcome
  unfolding unless_failed set_pod_state
  update_pod c old new = elim (get_pod_key old) [
    | none ↦ done c (some Error.empty_uid)
    | some key ↦ elim (Dict.lookup key c.pod_states) [
      | none ↦ done c (some not_added)
      | some ps ↦
          if is_assumed c key
          then done c (some not_added)
          else if not (str_eq ps.pod.node_name new.node_name)
          then crashed
          else unless_failed (update_in_pool c old new)
              (λ c'. done (set_pod_state c' key (record ps { pod = new })) none)
    ]
  ]

  unfoldable pub remove_pod : Cache → Pod → Outcome
  unfolding unless_failed
  remove_pod c pod = elim (get_pod_key pod) [
    | none ↦ done c (some Error.empty_uid)
    | some key ↦ elim (Dict.lookup key c.pod_states) [
      | none ↦ done c (some not_added)
      | some ps ↦
          if is_assumed c key
          then done c (some not_added)
          else if not (str_eq ps.pod.node_name pod.node_name)
          then crashed
          else unless_failed (remove_from_pool c ps.pod)
              (λ c'. done (record c' { pod_states = Dict.remove key c'.pod_states }) none)
    ]
  ]

  unfoldable pub expire_pod : Cache → String → PodState → Outcome
  unfolding unless_failed drop_pod
  expire_pod c key ps =
      unless_failed (remove_from_pool c ps.pod) (λ c'. done (drop_pod c' key) none)

  -- One pass of the loop of cleanupAssumedPods.
  unfoldable pub cleanup_pod : Cache → ℕ → String → Outcome
  unfolding expire_pod
  cleanup_pod c now key = elim (Dict.lookup key c.pod_states) [
    | none ↦ crashed
    | some ps ↦ if not ps.binding_finished then done c none else elim ps.deadline [
      | none ↦ crashed
      | some deadline ↦ if ltb deadline now then expire_pod c key ps else done c none
    ]
  ]

  unfoldable pub cleanup_pods : Cache → ℕ → List String → Outcome
  unfolding go_on cleanup_pod
  cleanup_pods c now [] = done c none
  cleanup_pods c now (key ∷ keys) = go_on (cleanup_pod c now key) (λ c'. cleanup_pods c' now keys)

  -- cleanupAssumedPods. Only the key at hand is deleted during the range.
  unfoldable pub cleanup_assumed_pods : Cache → ℕ → Outcome
  unfolding cleanup_pods
  cleanup_assumed_pods c now = cleanup_pods c now (Dict.keys c.assumed_pods)
