-- ===== src/Cache/Phases/Adding.antt =====
-- When AddPod of pkg/scheduler/internal/cache/cache.go accepts a pod, and what it then keeps of it.
use ai_scheduler.Prelude.{
  ◌≡◌, refl, true, false, none, some, Option, str_eq, arith, Option-cases, Bool-cases, inl, inr,
  if◌then◌else◌,
}
use ai_scheduler.Prelude.Dict
use ai_scheduler.Kube.{Pod, External}
use ai_scheduler.Info.NodeInfo.{Error, get_pod_key, empty_uid, already_added}
use ai_scheduler.Cache.{
  Cache, Outcome, PodState, done, crashed, is_assumed, confirm, set_pod_state, new_pod_state,
  add_pod, add_to_pool, remove_from_pool,
}
use ai_scheduler.Cache.Phases.{
  Phase, absent, assumed, added, add, phase, IsConsistent, Goes, go_on-Keeps,
}
use ai_scheduler.Cache.Phases.Pools.{add_to_pool-Keeps, remove_from_pool-Keeps}
use ai_scheduler.Cache.Phases.Changes.{phase-absent, phase-assumed, phase-added}
use ai_scheduler.Cache.Phases.Marks.{fails}
use ai_scheduler.Cache.Phases.Machine.{add_key-Goes, key-cases}

abbrev refused : Phase → Option Error
refused absent = none
refused assumed = none
refused added = some already_added

-- A pod without a uid is refused, and one that was added already.
abbrev pub refusal : Cache → Pod → Option Error
refusal c pod = if str_eq pod.uid "" then some empty_uid else refused (phase c pod.uid)

-- The cache has this pod under its uid, with no deadline.
pub record Has (pod : Pod) (c : Cache) : Type 0 where
  pub state : PodState
  pub found : Dict.lookup pod.uid c.pod_states ≡ some state
  pub is_pod : state.pod ≡ pod
  pub no_deadline : state.deadline ≡ none

-- A pod that is not refused is in the cache afterwards; otherwise the error is the refusal's, and
-- the cache is the one before.
abbrev pub Adds : Cache → Pod → Outcome → Type 0
Adds c pod (done c' none) = (refusal c pod ≡ none) × Has pod c'
Adds c pod (done c' (some e)) = (refusal c pod ≡ some e) × (c' ≡ c)
Adds c pod crashed = ⊥

set_pod_state-Has : (c : Cache) (pod : Pod) → Has pod (set_pod_state c pod.uid (new_pod_state pod))
unfolding set_pod_state new_pod_state
set_pod_state-Has c pod = record {
  state = new_pod_state pod;
  found = Dict.lookup-insert_self pod.uid _ c.pod_states;
  is_pod = refl;
  no_deadline = refl;
}

confirm-Has : (c : Cache) (ps : PodState) (pod : Pod) → Has pod (confirm c pod.uid ps pod)
unfolding confirm set_pod_state
confirm-Has c ps pod = record {
  state = record ps { deadline = none; pod = pod };
  found = Dict.lookup-insert_self pod.uid _ c.pod_states;
  is_pod = refl;
  no_deadline = refl;
}

key_is_set : (pod : Pod) → get_pod_key pod ≡ some pod.uid → str_eq pod.uid "" ≡ false
unfolding get_pod_key
key_is_set pod e = ground arith

no_key : (pod : Pod) → get_pod_key pod ≡ none → str_eq pod.uid "" ≡ true
unfolding get_pod_key
no_key pod e = ground arith

module _ (ext : External) where
  add_key-Adds :
      (c : Cache) (pod : Pod)
      → IsConsistent c
      → get_pod_key pod ≡ some pod.uid
      → Adds c pod (add_pod ext c pod)
  unfolding add_pod
  add_key-Adds c pod k e = elim (Option-cases (Dict.lookup pod.uid c.pod_states)) [
    | inl l ↦
        let accepted : refusal c pod ≡ none =
          rw (key_is_set pod e, phase-absent c pod.uid l) refl in
        rw (add_pod, e, l, Adds)
          (go_on-Keeps (Adds c pod) c (add_to_pool ext c pod) _
            (add_to_pool-Keeps ext c pod k.default) (λ c' s. (accepted, set_pod_state-Has c' pod)))
    | inr (ps, l) ↦ elim (Bool-cases (is_assumed c pod.uid)) [
      | inr a ↦
          rw (add_pod, e, l, a, Adds)
            (rw (key_is_set pod e, phase-added c pod.uid ps l a) refl, refl)
      | inl a ↦
          let accepted : refusal c pod ≡ none =
            rw (key_is_set pod e, phase-assumed c pod.uid ps l a) refl in
          elim (Bool-cases (str_eq ps.pod.node_name pod.node_name)) [
            | inl n ↦ rw (add_pod, e, l, a, n, Adds) (accepted, confirm-Has c ps pod)
            | inr n ↦
                rw (add_pod, e, l, a, n, Adds)
                  (go_on-Keeps (Adds c pod) c (remove_from_pool ext c ps.pod) _
                    (remove_from_pool-Keeps ext c ps.pod k.default)
                    (λ c' s.
                      go_on-Keeps (Adds c pod) c' (add_to_pool ext c' pod) _
                        (add_to_pool-Keeps ext c' pod (s.default k.default))
                        (λ c'' s'. (accepted, confirm-Has c'' ps pod))))
          ]
    ]
  ]

  -- AddPod, on a cache that is consistent, ends and follows the diagram: it takes the pod from
  -- Assumed, or from outside the cache, to Added where it succeeds, changes the phase of no pod
  -- where it fails, and keeps the cache consistent. It succeeds for every pod with a uid that is not
  -- Added yet, and then has the pod under its uid, without a deadline; for one without a uid and for
  -- one that is Added it fails with the error for that and changes nothing.
  pub add_pod-Goes :
      (c : Cache) (pod : Pod)
      → IsConsistent c
      → Goes c add pod.uid (add_pod ext c pod) × Adds c pod (add_pod ext c pod)
  unfolding add_pod
  add_pod-Goes c pod k = elim (key-cases pod) [
    | inl e ↦ (
      rw (add_pod, e, Goes) (fails c add pod.uid empty_uid k),
      rw (add_pod, e, Adds) (rw (no_key pod e) refl, refl),
    )
    | inr e ↦ (add_key-Goes ext c pod.uid pod k e, add_key-Adds c pod k e)
  ]
