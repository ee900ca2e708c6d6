-- ===== src/Cache/Phases/Changes.antt =====
-- A change of the state of one pod of the cache, and what it leaves of the state machine's invariant.
use ai_scheduler.Prelude.{
  ℕ, ◌≡◌, refl, sym, subst, true, false, none, some, String, str_eq, arith, Bool-cases, inl, inr,
  str_eq_iff,
}
use ai_scheduler.Prelude.Dict
use ai_scheduler.Info.PoolInfo.{default_pool_name}
use ai_scheduler.Cache.{new_scheduler_cache, Cache, PodState, done, is_assumed}
use ai_scheduler.Cache.Phases.{
  Phase, absent, assumed, added, Event, Step, phase, is_ready, IsConsistent, Goes,
}

pub is_assumed-has :
    (c : Cache) (key : String) → is_assumed c key ≡ true → Dict.has key c.assumed_pods ≡ true
unfolding is_assumed Dict.has
is_assumed-has c key h = ground arith

pub is_assumed-true :
    (c : Cache) (key : String)
    → Dict.lookup key c.assumed_pods ≡ some true
    → is_assumed c key ≡ true
unfolding is_assumed
is_assumed-true c key e = ground arith

pub is_assumed-false :
    (c : Cache) (key : String) → Dict.lookup key c.assumed_pods ≡ none → is_assumed c key ≡ false
unfolding is_assumed
is_assumed-false c key e = ground arith

-- Only a pod with a state can be assumed.
pub not_assumed :
    (c : Cache) (key : String)
    → IsConsistent c
    → Dict.lookup key c.pod_states ≡ none
    → is_assumed c key ≡ false
unfolding is_ready
not_assumed c key k e = elim (Bool-cases (is_assumed c key)) [
  | inl h ↦ let r = k.ready key (is_assumed-has c key h) in absurd (ground arith)
  | inr h ↦ h
]

pub phase-absent :
    (c : Cache) (key : String) → Dict.lookup key c.pod_states ≡ none → phase c key ≡ absent
unfolding phase Dict.has
phase-absent c key e = ground arith

pub phase-assumed :
    (c : Cache) (key : String) (ps : PodState)
    → Dict.lookup key c.pod_states ≡ some ps
    → is_assumed c key ≡ true
    → phase c key ≡ assumed
unfolding phase Dict.has
phase-assumed c key ps e h = ground arith

pub phase-added :
    (c : Cache) (key : String) (ps : PodState)
    → Dict.lookup key c.pod_states ≡ some ps
    → is_assumed c key ≡ false
    → phase c key ≡ added
unfolding phase Dict.has
phase-added c key ps e h = ground arith

-- The two maps agree on a key.
pub record Agrees (c c' : Cache) (j : String) : Type 0 where
  pub states : Dict.lookup j c'.pod_states ≡ Dict.lookup j c.pod_states
  pub assumed : Dict.lookup j c'.assumed_pods ≡ Dict.lookup j c.assumed_pods

pub phase-Agrees : (c c' : Cache) (j : String) → Agrees c c' j → phase c' j ≡ phase c j
unfolding phase is_assumed Dict.has
phase-Agrees c c' j a = let s = a.states in let t = a.assumed in ground arith

pub ready-Agrees :
    (c c' : Cache) (key : String)
    → IsConsistent c
    → ((j : String) → str_eq key j ≡ false → Agrees c c' j)
    → (Dict.has key c'.assumed_pods ≡ true → is_ready (Dict.lookup key c'.pod_states) ≡ true)
    → (j : String) → Dict.has j c'.assumed_pods ≡ true
    → is_ready (Dict.lookup j c'.pod_states) ≡ true
unfolding Dict.has
ready-Agrees c c' key k a here j h = elim (Bool-cases (str_eq key j)) [
  | inl same ↦
      let e = (str_eq_iff key j).0 same in
      subst (λ i. Dict.has i c'.assumed_pods ≡ true → is_ready (Dict.lookup i c'.pod_states) ≡ true)
        e here h
  | inr other ↦
      let s = (a j other).states in
      let t = (a j other).assumed in let r = k.ready j (ground arith) in ground arith
]

pub real-Agrees :
    (c c' : Cache) (key : String)
    → IsConsistent c
    → ((j : String) → str_eq key j ≡ false → Agrees c c' j)
    → (Dict.has key c'.assumed_pods ≡ true → is_assumed c' key ≡ true)
    → (j : String) → Dict.has j c'.assumed_pods ≡ true
    → is_assumed c' j ≡ true
unfolding Dict.has is_assumed
real-Agrees c c' key k a here j h = elim (Bool-cases (str_eq key j)) [
  | inl same ↦
      let e = (str_eq_iff key j).0 same in
      subst (λ i. Dict.has i c'.assumed_pods ≡ true → is_assumed c' i ≡ true) e here h
  | inr other ↦ let t = (a j other).assumed in let r = k.real j (ground arith) in ground arith
]

-- A change of the state of one pod, from one phase to another.
pub change-Goes :
    (c c' : Cache) (e : Event) (key : String) (p q : Phase)
    → IsConsistent c
    → phase c key ≡ p
    → phase c' key ≡ q
    → Step p e q
    → ((j : String) → str_eq key j ≡ false → Agrees c c' j)
    → (Dict.has key c'.assumed_pods ≡ true → is_ready (Dict.lookup key c'.pod_states) ≡ true)
    → (Dict.has key c'.assumed_pods ≡ true → is_assumed c' key ≡ true)
    → Dict.Distinct c'.assumed_pods
    → c'.pools ≡ c.pools
    → Goes c e key (done c' none)
change-Goes c c' e key p q k before after step a here mark once pools = (
  subst (λ x. Step x e (phase c' key)) (sym before) (subst (Step p e) (sym after) step),
  (λ j other. phase-Agrees c c' j (a j other)),
  record {
    ready = ready-Agrees c c' key k a here;
    real = real-Agrees c c' key k a mark;
    once = once;
    default = subst (λ m. Dict.has default_pool_name m ≡ true) (sym pools) k.default;
  },
)

-- A new cache is consistent.
pub new_scheduler_cache-IsConsistent :
    (ttl generation : ℕ) → IsConsistent (new_scheduler_cache ttl generation)
unfolding new_scheduler_cache Dict.has Dict.lookup is_assumed str_eq
new_scheduler_cache-IsConsistent ttl generation = record {
  ready = λ key h. absurd (ground arith);
  real = λ key h. absurd (ground arith);
  once = tt;
  default = refl;
}
