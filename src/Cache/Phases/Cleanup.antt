-- ===== src/Cache/Phases/Cleanup.antt =====
-- FinishBinding and cleanupAssumedPods of pkg/scheduler/internal/cache/cache.go.
use ai_scheduler.Prelude.{
  ℕ, ◌+◌, ◌<◌, ◌≡◌, refl, sym, subst, ap, ◌∙◌, Bool, true, false, none, some, Option, String,
  str_eq, arith, Option-cases, Bool-cases, inl, inr, str_eq_iff, str_eq_refl, ltb, ltb→lt, [], ◌∷◌,
}
use ai_scheduler.Prelude.Dict
use ai_scheduler.Prelude.Dict.{Dict}
use ai_scheduler.Kube.{Pod, External}
use ai_scheduler.Info.NodeInfo.{Error, get_pod_key}
use ai_scheduler.Cache.{
  Cache, PodState, Outcome, done, crashed, is_assumed, go_on, unless_failed, drop_pod,
  set_pod_state, finish_binding, remove_from_pool, expire_pod, cleanup_pod, cleanup_pods,
  cleanup_assumed_pods,
}
use ai_scheduler.Cache.Phases.{
  Phase, absent, assumed, expire, expires, phase, is_ready, IsConsistent, SamePods, Keeps,
  SamePods-IsConsistent,
}
use ai_scheduler.Cache.Phases.Pools.{remove_from_pool-Keeps}
use ai_scheduler.Cache.Phases.Changes.{
  phase-assumed, phase-absent, Agrees, phase-Agrees, ready-Agrees, real-Agrees,
}
use ai_scheduler.Cache.Phases.Marks.{drop_pod-Goes, same_lookup, same_assumed}

-- The binding of the pod has finished, and its deadline is over.
pub record IsDue (c : Cache) (now : ℕ) (j : String) : Type 0 where
  pub state : PodState
  pub deadline : ℕ
  pub found : Dict.lookup j c.pod_states ≡ some state
  pub finished : state.binding_finished ≡ true
  pub set : state.deadline ≡ some deadline
  pub over : deadline < now

-- What becomes of a pod: nothing, or it was assumed and due, and is no longer there.
pub data Fate (c : Cache) (now : ℕ) (c' : Cache) (j : String) : Type 0 where
  stays : Agrees c c' j → Fate c now c' j
  goes : IsDue c now j → phase c j ≡ assumed → phase c' j ≡ absent → Fate c now c' j

-- A sweep ends, leaves a consistent cache, and settles the fate of every pod.
abbrev pub Sweeps : Cache → ℕ → Outcome → Type 0
Sweeps c now (done c' failed) = IsConsistent c' × ((j : String) → Fate c now c' j)
Sweeps c now crashed = ⊥

Agrees-trans : (a b c : Cache) (j : String) → Agrees a b j → Agrees b c j → Agrees a c j
Agrees-trans a b c j s t = record { states = t.states ∙ s.states; assumed = t.assumed ∙ s.assumed }

IsDue-Agrees :
    (c c' : Cache) (now : ℕ) (j : String) → Agrees c c' j → IsDue c' now j → IsDue c now j
IsDue-Agrees c c' now j a d = record {
  state = d.state;
  deadline = d.deadline;
  found = sym a.states ∙ d.found;
  finished = d.finished;
  set = d.set;
  over = d.over;
}

absent-not_assumed : (p : Phase) → p ≡ absent → p ≡ assumed → ⊥
absent-not_assumed p e h = ground arith

Fate-trans :
    (a b c : Cache) (now : ℕ) (j : String) → Fate a now b j → Fate b now c j → Fate a now c j
Fate-trans a b c now j (stays s) (stays t) = stays (Agrees-trans a b c j s t)
Fate-trans a b c now j (stays s) (goes d before after) =
    goes (IsDue-Agrees a b now j s d) (sym (phase-Agrees a b j s) ∙ before) after
Fate-trans a b c now j (goes d before after) (stays t) =
    goes d before (phase-Agrees b c j t ∙ after)
Fate-trans a b c now j (goes d before after) (goes d' before' after') =
    absurd (absent-not_assumed (phase b j) after before')

Agrees-refl : (c : Cache) (j : String) → Agrees c c j
Agrees-refl c j = record { states = refl; assumed = refl }

SamePods-Agrees : (c c' : Cache) (j : String) → SamePods c c' → Agrees c c' j
SamePods-Agrees c c' j s = record {
  states = ap (Dict.lookup j) s.states;
  assumed = ap (Dict.lookup j) s.assumed;
}

-- One pass: besides the sweep, every other pod stays.
abbrev pub Passes : Cache → ℕ → String → Outcome → Type 0
Passes c now key (done c' failed) =
    IsConsistent c'
    × ((j : String) → Fate c now c' j)
    × ((j : String) → str_eq key j ≡ false → Agrees c c' j)
Passes c now key crashed = ⊥

same-Passes :
    (c : Cache) (now : ℕ) (key : String) (c' : Cache) (failed : Option Error)
    → IsConsistent c
    → SamePods c c'
    → Passes c now key (done c' failed)
same-Passes c now key c' failed k s = (
  SamePods-IsConsistent c c' s k,
  (λ j. stays (SamePods-Agrees c c' j s)),
  (λ j other. SamePods-Agrees c c' j s),
)

drop_pod-Agrees : (c : Cache) (key j : String) → str_eq key j ≡ false → Agrees c (drop_pod c key) j
unfolding drop_pod
drop_pod-Agrees c key j other = record {
  states = rw (Dict.lookup-remove key j c.pod_states, other);
  assumed = rw (Dict.lookup-remove key j c.assumed_pods, other);
}

expire-Passes :
    (c : Cache) (now : ℕ) (key : String) (o : Outcome)
    → IsConsistent c
    → IsDue c now key
    → is_assumed c key ≡ true
    → Keeps c o
    → Passes c now key (unless_failed o (λ c'. done (drop_pod c' key) none))
unfolding unless_failed drop_pod
expire-Passes c now key (done c' (some e)) k d a s = same-Passes c now key c' (some e) k s
expire-Passes c now key crashed k d a s = s
expire-Passes c now key (done c' none) k d a s =
    let k' = SamePods-IsConsistent c c' s k in
    let before' =
      phase-assumed c' key d.state (same_lookup c c' key (some d.state) s d.found)
        (same_assumed c c' key true s a) in
    let g = drop_pod-Goes c' expire key assumed k' before' expires in
    let agrees : ((j : String) → str_eq key j ≡ false → Agrees c (drop_pod c' key) j) = λ j other.
      Agrees-trans c c' (drop_pod c' key) j (SamePods-Agrees c c' j s)
        (drop_pod-Agrees c' key j other) in
    let gone = phase-absent (drop_pod c' key) key (Dict.lookup-remove_self key c'.pod_states) in
    let here = goes d (phase-assumed c key d.state d.found a) gone in
    (
      g.2,
      (λ j. elim (Bool-cases (str_eq key j)) [
        | inl same ↦ subst (Fate c now (drop_pod c' key)) ((str_eq_iff key j).0 same) here
        | inr other ↦ stays (agrees j other)
      ]),
      agrees,
    )

cleanup_pod-Passes :
    (ext : External) (c : Cache) (now : ℕ) (key : String)
    → IsConsistent c
    → Dict.has key c.assumed_pods ≡ true
    → Passes c now key (cleanup_pod ext c now key)
unfolding cleanup_pod expire_pod is_ready
cleanup_pod-Passes ext c now key k h = elim (Option-cases (Dict.lookup key c.pod_states)) [
  | inl l ↦ let r = k.ready key h in absurd (ground arith)
  | inr (ps, l) ↦ elim (Bool-cases ps.binding_finished) [
    | inr f ↦
        rw (cleanup_pod, l, f, Passes)
          (k, (λ j. stays (Agrees-refl c j)), (λ j other. Agrees-refl c j))
    | inl f ↦ elim (Option-cases ps.deadline) [
      | inl d ↦ let r = k.ready key h in absurd (ground arith)
      | inr (t, d) ↦ elim (Bool-cases (ltb t now)) [
        | inr b ↦
            rw (cleanup_pod, l, f, d, b, Passes)
              (k, (λ j. stays (Agrees-refl c j)), (λ j other. Agrees-refl c j))
        | inl b ↦
            rw (cleanup_pod, l, f, d, b, Passes)
              (expire-Passes c now key (remove_from_pool ext c ps.pod) k
                (record {
                  state = ps;
                  deadline = t;
                  found = l;
                  finished = f;
                  set = d;
                  over = ltb→lt t now b;
                })
                (k.real key h) (remove_from_pool-Keeps ext c ps.pod k.default))
      ]
    ]
  ]
]

-- A pass, then a sweep of the cache that it left.
sweep_on :
    (c : Cache) (now : ℕ) (key : String) (o : Outcome) (f : Cache → Outcome)
    → Passes c now key o
    → ((c' : Cache)
        → IsConsistent c'
        → ((j : String) → str_eq key j ≡ false → Agrees c c' j)
        → Sweeps c' now (f c'))
    → Sweeps c now (go_on o f)
unfolding go_on
sweep_on c now key (done c' failed) f p h = before (f c') (h c' p.0 p.2)
  where
    before : (o : Outcome) → Sweeps c' now o → Sweeps c now o
    before (done c'' failed') s = (s.0, (λ j. Fate-trans c c' c'' now j (p.1 j) (s.1 j)))
    before crashed s = s
sweep_on c now key crashed f p h = p

cleanup_pods-Sweeps :
    (ext : External) (c : Cache) (now : ℕ) (m : Dict Bool)
    → IsConsistent c
    → Dict.Distinct m
    → ((j : String) → Dict.has j m ≡ true → Dict.has j c.assumed_pods ≡ true)
    → Sweeps c now (cleanup_pods ext c now (Dict.keys m))
unfolding cleanup_pods Dict.has Dict.lookup
cleanup_pods-Sweeps ext c now [] k d within = (k, (λ j. stays (Agrees-refl c j)))
cleanup_pods-Sweeps ext c now ((key, b) ∷ m) k d within =
    sweep_on c now key (cleanup_pod ext c now key) (λ c'. cleanup_pods ext c' now (Dict.keys m))
      (cleanup_pod-Passes ext c now key k (within key (ground (arith, str_eq_refl key))))
      (λ c' k' a. cleanup_pods-Sweeps ext c' now m k' d.1 (λ j h.
        let other = not_head key j m d.0 h in
        let same = (a j other).assumed in let w = within j (ground arith) in ground arith))
  where
    not_head :
        (key' j : String) (n : Dict Bool)
        → Dict.lookup key' n ≡ none
        → Dict.has j n ≡ true
        → str_eq key' j ≡ false
    not_head key' j n e h = ground (arith, str_eq_iff key' j)

-- cleanupAssumedPods, on a cache that is consistent, ends without a panic and leaves a consistent
-- cache, in which each pod either is as it was, or was assumed, had a finished binding and a deadline
-- before `now`, and has gone.
pub cleanup_assumed_pods-Sweeps :
    (ext : External) (c : Cache) (now : ℕ)
    → IsConsistent c
    → Sweeps c now (cleanup_assumed_pods ext c now)
unfolding cleanup_assumed_pods
cleanup_assumed_pods-Sweeps ext c now k =
    cleanup_pods-Sweeps ext c now c.assumed_pods k k.once (λ j h. h)

-- A call that moves no pod between phases.
abbrev pub Stays : Cache → Outcome → Type 0
Stays c (done c' failed) = IsConsistent c' × ((j : String) → phase c' j ≡ phase c j)
Stays c crashed = ⊥

finish_key-Stays :
    (c : Cache) (key : String) (ps : PodState)
    → IsConsistent c
    → Dict.lookup key c.pod_states ≡ some ps
    → is_assumed c key ≡ true
    → (ps' : PodState) → is_ready (some ps') ≡ true
    → Stays c (done (set_pod_state c key ps') none)
unfolding set_pod_state is_assumed
finish_key-Stays c key ps k l a ps' r =
    let c' : Cache = set_pod_state c key ps' in
    let found = Dict.lookup-insert_self key ps' c.pod_states in
    let agrees : ((j : String) → str_eq key j ≡ false → Agrees c c' j) = λ j other. record {
      states = rw (Dict.lookup-insert key j ps' c.pod_states, other);
      assumed = refl;
    } in
    (
      record {
        ready = ready-Agrees c c' key k agrees (λ h. rw (found) r);
        real = real-Agrees c c' key k agrees (λ h. a);
        once = k.once;
        default = k.default;
      },
      (λ j. elim (Bool-cases (str_eq key j)) [
        | inl same ↦
            subst (λ i. phase c' i ≡ phase c i) ((str_eq_iff key j).0 same)
              (phase-assumed c' key ps' found a ∙ sym (phase-assumed c key ps l a))
        | inr other ↦ phase-Agrees c c' j (agrees j other)
      ]),
    )

-- FinishBinding, on a cache that is consistent, leaves a consistent cache and every pod in its phase.
pub finish_binding-Stays :
    (c : Cache) (pod : Pod) (now : ℕ) → IsConsistent c → Stays c (finish_binding c pod now)
unfolding finish_binding is_ready
finish_binding-Stays c pod now k = elim (Option-cases (get_pod_key pod)) [
  | inl e ↦ rw (finish_binding, e, Stays) (k, (λ j. refl))
  | inr (key, e) ↦ elim (Option-cases (Dict.lookup key c.pod_states)) [
    | inl l ↦ rw (finish_binding, e, l, Stays) (k, (λ j. refl))
    | inr (ps, l) ↦ elim (Bool-cases (is_assumed c key)) [
      | inr a ↦ rw (finish_binding, e, l, a, Stays) (k, (λ j. refl))
      | inl a ↦
          rw (finish_binding, e, l, a, Stays)
            (finish_key-Stays c key ps k l a
              (record ps { binding_finished = true; deadline = some (now + c.ttl) }) refl)
    ]
  ]
]
