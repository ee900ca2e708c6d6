-- ===== src/Cache/Phases/Machine.antt =====
-- AssumePod, ForgetPod, AddPod, UpdatePod and RemovePod of
-- pkg/scheduler/internal/cache/cache.go as arrows of the state machine of interface.go.
use ai_scheduler.Prelude.{
  ◌≡◌, refl, true, false, none, some, String, str_eq, arith, Option-cases, Bool-cases, inl, inr,
  ◌⊎◌,
}
use ai_scheduler.Prelude.Dict
use ai_scheduler.Kube.{Pod, External}
use ai_scheduler.Info.NodeInfo.{
  get_pod_key, empty_uid, pod_in_cache, pod_not_assumed, other_node, already_added, not_added,
}
use ai_scheduler.Cache.{
  Cache, PodState, done, is_assumed, go_on, mark_assumed, confirm, drop_pod, set_pod_state,
  new_pod_state, assume_pod, forget_pod, add_pod, update_pod, remove_pod, add_to_pool,
  remove_from_pool, update_in_pool,
}
use ai_scheduler.Cache.Phases.{
  absent, assumed, added, assume, forget, add, update, remove, forgets, adds, updates, removes,
  is_ready, IsConsistent, Goes, go_on-Goes, unless_failed-Goes,
}
use ai_scheduler.Cache.Phases.Pools.{
  add_to_pool-Keeps, remove_from_pool-Keeps, update_in_pool-Keeps,
}
use ai_scheduler.Cache.Phases.Changes.{
  not_assumed, phase-absent, phase-assumed, phase-added, change-Goes,
}
use ai_scheduler.Cache.Phases.Marks.{
  mark_assumed-Goes, drop_pod-Goes, confirm-Goes, set_pod_state-Goes, fails, lookup-has,
  same_lookup, same_assumed,
}

assume_key-Goes :
    (ext : External) (c : Cache) (key : String) (pod : Pod)
    → IsConsistent c
    → get_pod_key pod ≡ some key
    → Goes c assume key (assume_pod ext c pod)
unfolding assume_pod
assume_key-Goes ext c key pod k e = elim (Option-cases (Dict.lookup key c.pod_states)) [
  | inl l ↦
      rw (assume_pod, e, lookup-has c key l, Goes)
        (go_on-Goes c assume key (add_to_pool ext c pod) (λ c'. done (mark_assumed c' key pod) none)
          k (add_to_pool-Keeps ext c pod k.default)
          (λ c' k' s. mark_assumed-Goes c' key pod k' (same_lookup c c' key none s l)))
  | inr (ps, l) ↦
      rw (assume_pod, e, Dict.has-lookup key ps c.pod_states l, Goes)
        (fails c assume key pod_in_cache k)
]

forget_key-Goes :
    (ext : External) (c : Cache) (key : String) (pod : Pod)
    → IsConsistent c
    → get_pod_key pod ≡ some key
    → Goes c forget key (forget_pod ext c pod)
unfolding forget_pod
forget_key-Goes ext c key pod k e = elim (Option-cases (Dict.lookup key c.pod_states)) [
  | inl l ↦ rw (forget_pod, e, l, Goes) (fails c forget key pod_not_assumed k)
  | inr (ps, l) ↦ elim (Bool-cases (str_eq ps.pod.node_name pod.node_name)) [
    | inr n ↦ rw (forget_pod, e, l, n, Goes) (fails c forget key other_node k)
    | inl n ↦ elim (Bool-cases (is_assumed c key)) [
      | inr a ↦ rw (forget_pod, e, l, n, a, Goes) (fails c forget key pod_not_assumed k)
      | inl a ↦
          rw (forget_pod, e, l, n, a, Goes)
            (unless_failed-Goes c forget key (remove_from_pool ext c pod)
              (λ c'. done (drop_pod c' key) none) k (remove_from_pool-Keeps ext c pod k.default)
              (λ c' k' s.
                drop_pod-Goes c' forget key assumed k'
                  (phase-assumed c' key ps (same_lookup c c' key (some ps) s l)
                    (same_assumed c c' key true s a))
                  forgets))
    ]
  ]
]

pub add_key-Goes :
    (ext : External) (c : Cache) (key : String) (pod : Pod)
    → IsConsistent c
    → get_pod_key pod ≡ some key
    → Goes c add key (add_pod ext c pod)
unfolding add_pod is_ready new_pod_state
add_key-Goes ext c key pod k e = elim (Option-cases (Dict.lookup key c.pod_states)) [
  | inl l ↦
      rw (add_pod, e, l, Goes)
        (go_on-Goes c add key (add_to_pool ext c pod)
          (λ c'. done (set_pod_state c' key (new_pod_state pod)) none) k
          (add_to_pool-Keeps ext c pod k.default)
          (λ c' k' s.
            let l' = same_lookup c c' key none s l in
            set_pod_state-Goes c' add key (new_pod_state pod) absent k' (phase-absent c' key l')
              (not_assumed c' key k' l') (λ h. refl) adds))
  | inr (ps, l) ↦ elim (Bool-cases (is_assumed c key)) [
    | inr a ↦ rw (add_pod, e, l, a, Goes) (fails c add key already_added k)
    | inl a ↦ elim (Bool-cases (str_eq ps.pod.node_name pod.node_name)) [
      | inl n ↦ rw (add_pod, e, l, a, n, Goes) (confirm-Goes c key ps pod k l a)
      | inr n ↦
          rw (add_pod, e, l, a, n, Goes)
            (go_on-Goes c add key (remove_from_pool ext c ps.pod)
              (λ c'. go_on (add_to_pool ext c' pod) (λ c''. done (confirm c'' key ps pod) none)) k
              (remove_from_pool-Keeps ext c ps.pod k.default)
              (λ c' k' s.
                go_on-Goes c' add key (add_to_pool ext c' pod)
                  (λ c''. done (confirm c'' key ps pod) none) k'
                  (add_to_pool-Keeps ext c' pod k'.default)
                  (λ c'' k'' s'.
                    confirm-Goes c'' key ps pod k''
                      (same_lookup c' c'' key (some ps) s' (same_lookup c c' key (some ps) s l))
                      (same_assumed c' c'' key true s' (same_assumed c c' key true s a)))))
    ]
  ]
]

-- The pod's state, where it has one, names this node.
abbrev pub SameNode : Cache → String → String → Type 0
SameNode c key node_name =
    (ps : PodState)
    → Dict.lookup key c.pod_states ≡ some ps
    → str_eq ps.pod.node_name node_name ≡ true

update_key-Goes :
    (ext : External) (c : Cache) (key : String) (old new : Pod)
    → IsConsistent c
    → SameNode c key new.node_name
    → get_pod_key old ≡ some key
    → Goes c update key (update_pod ext c old new)
unfolding update_pod is_ready
update_key-Goes ext c key old new k here e = elim (Option-cases (Dict.lookup key c.pod_states)) [
  | inl l ↦ rw (update_pod, e, l, Goes) (fails c update key not_added k)
  | inr (ps, l) ↦ elim (Bool-cases (is_assumed c key)) [
    | inl a ↦ rw (update_pod, e, l, a, Goes) (fails c update key not_added k)
    | inr a ↦
        rw (update_pod, e, l, a, here ps l, Goes)
          (unless_failed-Goes c update key (update_in_pool ext c old new)
            (λ c'. done (set_pod_state c' key (record ps { pod = new })) none) k
            (update_in_pool-Keeps ext c old new k.default)
            (λ c' k' s.
              let l' = same_lookup c c' key (some ps) s l in
              let a' = same_assumed c c' key false s a in
              set_pod_state-Goes c' update key (record ps { pod = new }) added k'
                (phase-added c' key ps l' a') a' (λ h. let r = k'.ready key h in ground arith)
                updates))
  ]
]

unmarked :
    (c : Cache) (key : String)
    → IsConsistent c
    → is_assumed c key ≡ false
    → Dict.has key c.assumed_pods ≡ false
unmarked c key k a = elim (Bool-cases (Dict.has key c.assumed_pods)) [
  | inl h ↦ let r = k.real key h in absurd (ground arith)
  | inr h ↦ h
]

remove_state-Goes :
    (c : Cache) (key : String) (ps : PodState)
    → IsConsistent c
    → Dict.lookup key c.pod_states ≡ some ps
    → is_assumed c key ≡ false
    → Dict.has key c.assumed_pods ≡ false
    → Goes c remove key (done (record c { pod_states = Dict.remove key c.pod_states }) none)
remove_state-Goes c key ps k l a h =
    change-Goes c (record c { pod_states = Dict.remove key c.pod_states }) remove key added absent k
      (phase-added c key ps l a)
      (phase-absent (record c { pod_states = Dict.remove key c.pod_states }) key
        (Dict.lookup-remove_self key c.pod_states))
      removes
      (λ j other. record {
        states = rw (Dict.lookup-remove key j c.pod_states, other);
        assumed = refl;
      })
      (λ g. absurd (ground arith)) (λ g. absurd (ground arith)) k.once refl

remove_key-Goes :
    (ext : External) (c : Cache) (key : String) (pod : Pod)
    → IsConsistent c
    → SameNode c key pod.node_name
    → get_pod_key pod ≡ some key
    → Goes c remove key (remove_pod ext c pod)
unfolding remove_pod
remove_key-Goes ext c key pod k here e = elim (Option-cases (Dict.lookup key c.pod_states)) [
  | inl l ↦ rw (remove_pod, e, l, Goes) (fails c remove key not_added k)
  | inr (ps, l) ↦ elim (Bool-cases (is_assumed c key)) [
    | inl a ↦ rw (remove_pod, e, l, a, Goes) (fails c remove key not_added k)
    | inr a ↦
        rw (remove_pod, e, l, a, here ps l, Goes)
          (unless_failed-Goes c remove key (remove_from_pool ext c ps.pod)
            (λ c'. done (record c' { pod_states = Dict.remove key c'.pod_states }) none) k
            (remove_from_pool-Keeps ext c ps.pod k.default)
            (λ c' k' s.
              let a' = same_assumed c c' key false s a in
              remove_state-Goes c' key ps k' (same_lookup c c' key (some ps) s l) a'
                (unmarked c' key k' a')))
  ]
]

-- The pod's key, which is its uid.
pub key-cases : (pod : Pod) → (get_pod_key pod ≡ none) ⊎ (get_pod_key pod ≡ some pod.uid)
unfolding get_pod_key
key-cases pod = elim (Bool-cases (str_eq pod.uid "")) [
  | inl e ↦ inl (ground arith)
  | inr e ↦ inr (ground arith)
]

module _ (ext : External) (c : Cache) where
  -- AssumePod follows the diagram: on a cache that is consistent it ends, takes the pod from Initial
  -- to Assumed where it succeeds, changes the phase of no pod where it fails, and keeps the cache
  -- consistent.
  pub assume_pod-Goes : (pod : Pod) → IsConsistent c → Goes c assume pod.uid (assume_pod ext c pod)
  unfolding assume_pod
  assume_pod-Goes pod k = elim (key-cases pod) [
    | inl e ↦ rw (assume_pod, e, Goes) (fails c assume pod.uid empty_uid k)
    | inr e ↦ assume_key-Goes ext c pod.uid pod k e
  ]

  -- ForgetPod follows the diagram: on a cache that is consistent it ends, takes the pod from Assumed
  -- to Initial where it succeeds, changes the phase of no pod where it fails, and keeps the cache
  -- consistent.
  pub forget_pod-Goes : (pod : Pod) → IsConsistent c → Goes c forget pod.uid (forget_pod ext c pod)
  unfolding forget_pod
  forget_pod-Goes pod k = elim (key-cases pod) [
    | inl e ↦ rw (forget_pod, e, Goes) (fails c forget pod.uid empty_uid k)
    | inr e ↦ forget_key-Goes ext c pod.uid pod k e
  ]

  pub update_pod-Goes :
      (old new : Pod)
      → IsConsistent c
      → SameNode c old.uid new.node_name
      → Goes c update old.uid (update_pod ext c old new)
  unfolding update_pod
  update_pod-Goes old new k here = elim (key-cases old) [
    | inl e ↦ rw (update_pod, e, Goes) (fails c update old.uid empty_uid k)
    | inr e ↦ update_key-Goes ext c old.uid old new k here e
  ]

  -- RemovePod follows the diagram: on a cache that is consistent, for a pod on the node that the
  -- cache has it on, it ends, takes the pod from Added to Deleted where it succeeds, changes the
  -- phase of no pod where it fails, and keeps the cache consistent.
  pub remove_pod-Goes :
      (pod : Pod)
      → IsConsistent c
      → SameNode c pod.uid pod.node_name
      → Goes c remove pod.uid (remove_pod ext c pod)
  unfolding remove_pod
  remove_pod-Goes pod k here = elim (key-cases pod) [
    | inl e ↦ rw (remove_pod, e, Goes) (fails c remove pod.uid empty_uid k)
    | inr e ↦ remove_key-Goes ext c pod.uid pod k here e
  ]
