-- ===== src/Cache/Phases/Updating.antt =====
-- UpdatePod of pkg/scheduler/internal/cache/cache.go beside what pkg/scheduler/internal/cache/interface.go
-- says of it, "removes oldPod's information and adds newPod's information": RemovePod and then AddPod.
use ai_scheduler.Prelude.{
  ◌≡◌, refl, ap, ◌∙◌, subst, true, none, some, Option, String, str_eq, arith, Option-cases,
  Bool-cases, inl, inr, str_eq_iff,
}
use ai_scheduler.Prelude.Dict
use ai_scheduler.Kube.{Pod, External}
use ai_scheduler.Info.NodeInfo.{Error, get_pod_key, empty_uid, not_added}
use ai_scheduler.Cache.{
  Cache, Outcome, PodState, done, crashed, is_assumed, go_on, unless_failed, set_pod_state,
  new_pod_state, add_pod, remove_pod, update_pod, add_to_pool, remove_from_pool, update_in_pool,
  pool_of, match_pool_for_pod, default_pool, put_pool,
}
use ai_scheduler.Cache.Phases.{update, IsConsistent, Goes, Keeps}
use ai_scheduler.Cache.Phases.Pools.{add_to_pool-Keeps, remove_from_pool-Keeps}
use ai_scheduler.Cache.Phases.Machine.{update_pod-Goes, key-cases}

unfoldable pub pod_at : Cache → String → Option Pod
pod_at c key = elim (Dict.lookup key c.pod_states) [ none ↦ none | some ps ↦ some ps.pod ]

-- Two calls end alike: with the same error, the same pools and items, the same pods assumed, and the
-- same pod under every key.
abbrev pub Agree : Outcome → Outcome → Type 0
Agree (done a x) (done b y) =
    (x ≡ y)
    × (a.pools ≡ b.pools)
    × (a.store ≡ b.store)
    × (a.assumed_pods ≡ b.assumed_pods)
    × ((key : String) → pod_at a key ≡ pod_at b key)
Agree (done a x) crashed = ⊥
Agree crashed o = ⊥

alike : (c : Cache) (x : Option Error) → Agree (done c x) (done c x)
alike c x = (refl, refl, refl, refl, (λ key. refl))

-- The pod's state, where it has one, is of this pod.
abbrev pub IsStateOf : Cache → Pod → Type 0
IsStateOf c pod = (ps : PodState) → Dict.lookup pod.uid c.pod_states ≡ some ps → ps.pod ≡ pod

-- The cache without the state under the key.
abbrev without : Cache → String → Cache
without c key = record c { pod_states = Dict.remove key c.pod_states }

pool_of-without :
    (c : Cache) (key : String) (pod : Pod) → pool_of (without c key) pod ≡ pool_of c pod
unfolding pool_of match_pool_for_pod default_pool
pool_of-without c key pod = refl

get_pod_key-same :
    (p q : Pod) → p.uid ≡ q.uid → get_pod_key p ≡ some p.uid → get_pod_key q ≡ some q.uid
unfolding get_pod_key
get_pod_key-same p q same e = ground arith

module _ (ext : External) where
  add_to_pool-none :
      (c : Cache) (pod : Pod) → pool_of c pod ≡ none → add_to_pool ext c pod ≡ crashed
  unfolding add_to_pool
  add_to_pool-none c pod e = rw (add_to_pool, e) refl

  -- addPod, with the pod's state set before or after.
  set_pod-Agree :
      (c : Cache) (key : String) (ps : PodState) (new : Pod)
      → Keeps c (add_to_pool ext c new)
      → Agree
          (unless_failed
            (add_to_pool ext c new)
            (λ c'. done (set_pod_state c' key (record ps { pod = new })) none))
          (go_on
            (add_to_pool ext (without c key) new)
            (λ c'. done (set_pod_state c' key (new_pod_state new)) none))
  unfolding add_to_pool go_on unless_failed set_pod_state new_pod_state put_pool pod_at
  set_pod-Agree c key ps new s = elim (Option-cases (pool_of c new)) [
    | inl e ↦ absurd (subst (Keeps c) (add_to_pool-none c new e) s)
    | inr ((pool, p), e) ↦
        rw (add_to_pool, pool_of-without c key new, e)
          (
            refl,
            refl,
            refl,
            refl,
            λ j. ground (
              arith,
              Dict.lookup-insert key j (record ps { pod = new }) c.pod_states,
              Dict.lookup-insert key j (new_pod_state new) (Dict.remove key c.pod_states),
              Dict.lookup-remove key j c.pod_states,
            ),
          )
  ]

  add_pod-absent :
      (c : Cache) (pod : Pod)
      → get_pod_key pod ≡ some pod.uid
      → Dict.lookup pod.uid c.pod_states ≡ none
      → add_pod ext c pod
        ≡ go_on
            (add_to_pool ext c pod)
            (λ c'. done (set_pod_state c' pod.uid (new_pod_state pod)) none)
  unfolding add_pod
  add_pod-absent c pod e l = rw (add_pod, e, l) refl

  -- What UpdatePod and RemovePod with AddPod do after the old pod has left its pool.
  replace-Agree :
      (c : Cache) (ps : PodState) (old new : Pod) (o : Outcome)
      → IsConsistent c
      → Keeps c o
      → old.uid ≡ new.uid
      → get_pod_key new ≡ some new.uid
      → Agree
          (unless_failed
            (unless_failed o (λ c'. add_to_pool ext c' new))
            (λ c'. done (set_pod_state c' old.uid (record ps { pod = new })) none))
          (unless_failed
            (unless_failed o (λ c'. done (without c' old.uid) none))
            (λ c'. add_pod ext c' new))
  unfolding unless_failed
  replace-Agree c ps old new (done c' none) k s same e =
      rw
        (
          same,
          add_pod-absent (without c' new.uid) new e (Dict.lookup-remove_self new.uid c'.pod_states),
        )
        (set_pod-Agree c' new.uid ps new (add_to_pool-Keeps ext c' new (s.default k.default)))
  replace-Agree c ps old new (done c' (some x)) k s same e = alike c' (some x)
  replace-Agree c ps old new crashed k s same e = absurd s

  update_key-Agree :
      (c : Cache) (old new : Pod)
      → IsConsistent c
      → IsStateOf c old
      → old.uid ≡ new.uid
      → old.node_name ≡ new.node_name
      → get_pod_key old ≡ some old.uid
      → get_pod_key new ≡ some new.uid
      → Agree
          (update_pod ext c old new)
          (unless_failed (remove_pod ext c old) (λ c'. add_pod ext c' new))
  unfolding update_pod remove_pod unless_failed update_in_pool
  update_key-Agree c old new k of_old same stays e e' =
      elim (Option-cases (Dict.lookup old.uid c.pod_states)) [
        | inl l ↦ rw (update_pod, remove_pod, e, l) (alike c (some not_added))
        | inr (ps, l) ↦ elim (Bool-cases (is_assumed c old.uid)) [
          | inl a ↦ rw (update_pod, remove_pod, e, l, a) (alike c (some not_added))
          | inr a ↦
              let is_old = of_old ps l in
              let on_new : str_eq ps.pod.node_name new.node_name ≡ true =
                (str_eq_iff _ _).1 (ap (λ (p : Pod). p.node_name) is_old ∙ stays) in
              let on_old : str_eq ps.pod.node_name old.node_name ≡ true =
                (str_eq_iff _ _).1 (ap (λ (p : Pod). p.node_name) is_old) in
              rw (update_pod, remove_pod, e, l, a, on_new, on_old, is_old)
                (replace-Agree c ps old new (remove_from_pool ext c old) k
                  (remove_from_pool-Keeps ext c old k.default) same e')
        ]
      ]

  -- UpdatePod, on a cache that is consistent and whose state of the pod is of the old pod, for a new
  -- pod of the same uid and on the same node, ends and follows the diagram: it takes the pod from
  -- Added to Added where it succeeds, changes the phase of no pod where it fails, and keeps the cache
  -- consistent. It ends like RemovePod of the old pod and then, where that succeeds, AddPod of the
  -- new one: with the same error, pools, items and assumed pods, and the same pod under every key.
  pub update_pod_lem :
      (c : Cache) (old new : Pod)
      → IsConsistent c
      → IsStateOf c old
      → old.uid ≡ new.uid
      → old.node_name ≡ new.node_name
      → Goes c update old.uid (update_pod ext c old new)
        × Agree
            (update_pod ext c old new)
            (unless_failed (remove_pod ext c old) (λ c'. add_pod ext c' new))
  unfolding update_pod remove_pod unless_failed get_pod_key
  update_pod_lem c old new k of_old same stays = (
    update_pod-Goes ext c old new k
        (λ ps l. (str_eq_iff _ _).1 (ap (λ (p : Pod). p.node_name) (of_old ps l) ∙ stays)),
    elim (key-cases old) [
      | inl e ↦ rw (update_pod, remove_pod, e) (alike c (some empty_uid))
      | inr e ↦ update_key-Agree c old new k of_old same stays e (get_pod_key-same old new same e)
    ],
  )
