-- ===== src/Cache/Phases/Marks.antt =====
-- The assignments by which the methods of pkg/scheduler/internal/cache/cache.go change the state of
-- one pod, as arrows of the state machine.
use ai_scheduler.Prelude.{
  ◌≡◌, refl, sym, subst, Bool, true, false, none, some, Option, String, arith,
}
use ai_scheduler.Prelude.Dict
use ai_scheduler.Kube.{Pod}
use ai_scheduler.Info.NodeInfo.{Error}
use ai_scheduler.Cache.{
  Cache, PodState, done, is_assumed, mark_assumed, confirm, drop_pod, set_pod_state, new_pod_state,
}
use ai_scheduler.Cache.Phases.{
  Phase, absent, assumed, added, Event, assume, add, Step, assumes, confirms, phase, is_ready,
  IsConsistent, Goes, SamePods,
}
use ai_scheduler.Cache.Phases.Changes.{
  is_assumed-true, is_assumed-false, phase-absent, phase-assumed, phase-added, change-Goes,
}

pub mark_assumed-Goes :
    (c : Cache) (key : String) (pod : Pod)
    → IsConsistent c
    → Dict.lookup key c.pod_states ≡ none
    → Goes c assume key (done (mark_assumed c key pod) none)
unfolding mark_assumed set_pod_state is_assumed new_pod_state is_ready
mark_assumed-Goes c key pod k e =
    change-Goes c (mark_assumed c key pod) assume key absent assumed k (phase-absent c key e)
      (phase-assumed (mark_assumed c key pod) key (new_pod_state pod)
        (Dict.lookup-insert_self key _ c.pod_states)
        (is_assumed-true (mark_assumed c key pod) key
          (Dict.lookup-insert_self key true c.assumed_pods)))
      assumes
      (λ j other. record {
        states = rw (Dict.lookup-insert key j (new_pod_state pod) c.pod_states, other);
        assumed = rw (Dict.lookup-insert key j true c.assumed_pods, other);
      })
      (λ h. rw (Dict.lookup-insert_self key (new_pod_state pod) c.pod_states))
      (λ h.
        is_assumed-true (mark_assumed c key pod) key
          (Dict.lookup-insert_self key true c.assumed_pods))
      (Dict.insert-Distinct key true c.assumed_pods k.once) refl

pub drop_pod-Goes :
    (c : Cache) (e : Event) (key : String) (p : Phase)
    → IsConsistent c
    → phase c key ≡ p
    → Step p e absent
    → Goes c e key (done (drop_pod c key) none)
unfolding drop_pod Dict.has
drop_pod-Goes c e key p k before step =
    change-Goes c (drop_pod c key) e key p absent k before
      (phase-absent (drop_pod c key) key (Dict.lookup-remove_self key c.pod_states)) step
      (λ j other. record {
        states = rw (Dict.lookup-remove key j c.pod_states, other);
        assumed = rw (Dict.lookup-remove key j c.assumed_pods, other);
      })
      (λ h. absurd (ground (arith, Dict.lookup-remove_self key c.assumed_pods)))
      (λ h. absurd (ground (arith, Dict.lookup-remove_self key c.assumed_pods)))
      (Dict.remove-Distinct key c.assumed_pods k.once) refl

pub confirm-Goes :
    (c : Cache) (key : String) (ps : PodState) (pod : Pod)
    → IsConsistent c
    → Dict.lookup key c.pod_states ≡ some ps
    → is_assumed c key ≡ true
    → Goes c add key (done (confirm c key ps pod) none)
unfolding confirm set_pod_state Dict.has is_assumed
confirm-Goes c key ps pod k e h =
    change-Goes c (confirm c key ps pod) add key assumed added k (phase-assumed c key ps e h)
      (phase-added (confirm c key ps pod) key _ (Dict.lookup-insert_self key _ c.pod_states)
        (is_assumed-false (confirm c key ps pod) key (Dict.lookup-remove_self key c.assumed_pods)))
      confirms
      (λ j other. record {
        states = rw (Dict.lookup-insert key j _ c.pod_states, other);
        assumed = rw (Dict.lookup-remove key j c.assumed_pods, other);
      })
      (λ h'. absurd (ground (arith, Dict.lookup-remove_self key c.assumed_pods)))
      (λ h'. absurd (ground (arith, Dict.lookup-remove_self key c.assumed_pods)))
      (Dict.remove-Distinct key c.assumed_pods k.once) refl

-- A state put under a key that is not assumed.
pub set_pod_state-Goes :
    (c : Cache) (e : Event) (key : String) (ps : PodState) (p : Phase)
    → IsConsistent c
    → phase c key ≡ p
    → is_assumed c key ≡ false
    → (Dict.has key c.assumed_pods ≡ true → is_ready (some ps) ≡ true)
    → Step p e added
    → Goes c e key (done (set_pod_state c key ps) none)
unfolding set_pod_state is_assumed
set_pod_state-Goes c e key ps p k before h h' step =
    change-Goes c (set_pod_state c key ps) e key p added k before
      (phase-added (set_pod_state c key ps) key ps (Dict.lookup-insert_self key ps c.pod_states) h)
      step
      (λ j other. record {
        states = rw (Dict.lookup-insert key j ps c.pod_states, other);
        assumed = refl;
      })
      (λ g. rw (Dict.lookup-insert_self key ps c.pod_states) (h' g)) (k.real key) k.once refl

-- A call that fails before it has changed anything.
pub fails :
    (c : Cache) (e : Event) (key : String) (x : Error)
    → IsConsistent c
    → Goes c e key (done c (some x))
fails c e key x k = ((λ j. refl), k)

pub lookup-has :
    (c : Cache) (key : String)
    → Dict.lookup key c.pod_states ≡ none
    → Dict.has key c.pod_states ≡ false
lookup-has c key e = Dict.has-none key c.pod_states e

-- What a call that changed the pools alone leaves of a pod's state.
pub same_lookup :
    (c c' : Cache) (key : String) (o : Option PodState)
    → SamePods c c'
    → Dict.lookup key c.pod_states ≡ o
    → Dict.lookup key c'.pod_states ≡ o
same_lookup c c' key o s e = subst (λ m. Dict.lookup key m ≡ o) (sym s.states) e

pub same_assumed :
    (c c' : Cache) (key : String) (b : Bool)
    → SamePods c c'
    → is_assumed c key ≡ b
    → is_assumed c' key ≡ b
unfolding is_assumed
same_assumed c c' key b s e = rw (s.assumed) e
