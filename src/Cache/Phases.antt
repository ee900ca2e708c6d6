-- ===== src/Cache/Phases.antt =====
-- The state machine of a pod in the cache, as the diagram of
-- pkg/scheduler/internal/cache/interface.go gives it, and what holds between the maps of the cache.
pub mod Pools
pub mod Changes
pub mod Marks
pub mod Machine
pub mod Adding
pub mod Updating
pub mod Cleanup
use ai_scheduler.Prelude.{
  ◌≡◌, refl, sym, subst, ap, Bool, true, false, not, ◌||◌, none, some, Option, String, str_eq,
  arith, if◌then◌else◌,
}
use ai_scheduler.Prelude.Dict
use ai_scheduler.Info.PoolInfo.{default_pool_name}
use ai_scheduler.Info.NodeInfo.{Error}
use ai_scheduler.Cache.{Cache, PodState, Outcome, done, crashed, is_assumed, go_on, unless_failed}

-- "Initial", "Expired" and "Deleted" pods do not exist in the cache: it keeps nothing of them, so they
-- are one phase here, and the diagram's arrows out of Initial and Expired are arrows out of Deleted.
pub data Phase : Type 0 where
  absent assumed added : Phase

pub data Event : Type 0 where
  assume forget add update remove expire : Event

-- The arrows of the diagram. `adds` is its Add from Initial and from Expired.
pub data Step : Phase → Event → Phase → Type 0 where
  assumes : Step absent assume assumed
  forgets : Step assumed forget absent
  confirms : Step assumed add added
  adds : Step absent add added
  updates : Step added update added
  removes : Step added remove absent
  expires : Step assumed expire absent

unfoldable pub phase : Cache → String → Phase
unfolding is_assumed
phase c key =
    if not (Dict.has key c.pod_states) then absent else if is_assumed c key then assumed else added

-- The pod has a state, with a deadline once its binding has finished.
unfoldable pub is_ready : Option PodState → Bool
is_ready none = false
is_ready (some ps) = not ps.binding_finished || elim ps.deadline [ none ↦ false | some t ↦ true ]

-- Every assumed pod is marked so and ready, and the default pool is there.
pub record IsConsistent (c : Cache) : Type 0 where
  pub ready :
      (key : String)
      → Dict.has key c.assumed_pods ≡ true
      → is_ready (Dict.lookup key c.pod_states) ≡ true
  pub real : (key : String) → Dict.has key c.assumed_pods ≡ true → is_assumed c key ≡ true
  pub once : Dict.Distinct c.assumed_pods
  pub default : Dict.has default_pool_name c.pools ≡ true

-- An event that succeeds takes its pod along an arrow of the diagram and leaves every other pod
-- where it is; one that fails leaves all pods where they are; the process does not end.
abbrev pub Goes : Cache → Event → String → Outcome → Type 0
Goes c e key (done c' none) =
    Step (phase c key) e (phase c' key)
    × ((j : String) → str_eq key j ≡ false → phase c' j ≡ phase c j)
    × IsConsistent c'
Goes c e key (done c' (some failed)) = ((j : String) → phase c' j ≡ phase c j) × IsConsistent c'
Goes c e key crashed = ⊥

-- The pools have changed and the pods' states have not.
pub record SamePods (c c' : Cache) : Type 0 where
  pub states : c'.pod_states ≡ c.pod_states
  pub assumed : c'.assumed_pods ≡ c.assumed_pods
  pub default :
      Dict.has default_pool_name c.pools ≡ true → Dict.has default_pool_name c'.pools ≡ true

abbrev pub Keeps : Cache → Outcome → Type 0
Keeps c (done c' failed) = SamePods c c'
Keeps c crashed = ⊥

pub phase-SamePods : (c c' : Cache) → SamePods c c' → (j : String) → phase c' j ≡ phase c j
unfolding phase is_assumed
phase-SamePods c c' s j = rw (s.states, s.assumed)

pub SamePods-IsConsistent : (c c' : Cache) → SamePods c c' → IsConsistent c → IsConsistent c'
unfolding is_assumed
SamePods-IsConsistent c c' s k = record {
  ready = λ key h.
      subst (λ m. is_ready (Dict.lookup key m) ≡ true) (sym s.states)
        (k.ready key (subst (λ m. Dict.has key m ≡ true) s.assumed h));
  real = λ key h. rw (s.assumed) (k.real key (subst (λ m. Dict.has key m ≡ true) s.assumed h));
  once = subst (λ m. Dict.Distinct m) (sym s.assumed) k.once;
  default = s.default k.default;
}

pub Goes-SamePods :
    (c c' : Cache) (e : Event) (key : String) (o : Outcome)
    → SamePods c c'
    → Goes c' e key o
    → Goes c e key o
Goes-SamePods c c' e key (done c'' none) s g = (
  subst (λ p. Step p e (phase c'' key)) (phase-SamePods c c' s key) g.0,
  (λ j h. rw (g.1 j h, phase-SamePods c c' s j)),
  g.2,
)
Goes-SamePods c c' e key (done c'' (some x)) s g = ((λ j. rw (g.0 j, phase-SamePods c c' s j)), g.1)
Goes-SamePods c c' e key crashed s g = g

pub go_on-Goes :
    (c : Cache) (e : Event) (key : String) (o : Outcome) (f : Cache → Outcome)
    → IsConsistent c
    → Keeps c o
    → ((c' : Cache) → IsConsistent c' → SamePods c c' → Goes c' e key (f c'))
    → Goes c e key (go_on o f)
unfolding go_on
go_on-Goes c e key (done c' failed) f k s h =
    Goes-SamePods c c' e key (f c') s (h c' (SamePods-IsConsistent c c' s k) s)
go_on-Goes c e key crashed f k s h = absurd s

pub unless_failed-Goes :
    (c : Cache) (e : Event) (key : String) (o : Outcome) (f : Cache → Outcome)
    → IsConsistent c
    → Keeps c o
    → ((c' : Cache) → IsConsistent c' → SamePods c c' → Goes c' e key (f c'))
    → Goes c e key (unless_failed o f)
unfolding unless_failed
unless_failed-Goes c e key (done c' none) f k s h =
    Goes-SamePods c c' e key (f c') s (h c' (SamePods-IsConsistent c c' s k) s)
unless_failed-Goes c e key (done c' (some x)) f k s h =
    (phase-SamePods c c' s, SamePods-IsConsistent c c' s k)
unless_failed-Goes c e key crashed f k s h = absurd s

-- What a call that changes the pools alone leaves to the code after it.
pub go_on-Keeps :
    (P : Outcome → Type 0) (c : Cache) (o : Outcome) (f : Cache → Outcome)
    → Keeps c o
    → ((c' : Cache) → SamePods c c' → P (f c'))
    → P (go_on o f)
unfolding go_on
go_on-Keeps P c (done c' failed) f s h = h c' s
go_on-Keeps P c crashed f s h = absurd s
