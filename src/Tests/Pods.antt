-- ===== src/Tests/Pods.antt =====
-- The theorems on the cache's state machine at concrete caches.
use ai_scheduler.Prelude.{
  refl, sym, ap, true, [], ◌∷◌, none, some, Option, String, str_eq, arith, str_eq_iff,
}
use ai_scheduler.Prelude.Dict
use ai_scheduler.Cache.{
  Cache, PodState, is_assumed, new_scheduler_cache, assume_pod, forget_pod, add_pod, update_pod,
  remove_pod, cleanup_assumed_pods, unless_failed,
}
use ai_scheduler.Cache.Phases.{assume, forget, add, update, remove, is_ready, IsConsistent, Goes}
use ai_scheduler.Cache.Phases.Changes.{new_scheduler_cache-IsConsistent}
use ai_scheduler.Cache.Phases.Machine.{assume_pod-Goes, forget_pod-Goes, remove_pod-Goes, SameNode}
use ai_scheduler.Cache.Phases.Adding.{Adds, add_pod-Goes}
use ai_scheduler.Cache.Phases.Updating.{Agree, IsStateOf, update_pod_lem}
use ai_scheduler.Kube.{Pod}
use ai_scheduler.Cache.Phases.Cleanup.{Sweeps, cleanup_assumed_pods-Sweeps}
use ai_scheduler.Tests.{kube, web}

abbrev empty_cache : Cache
empty_cache = new_scheduler_cache 30 0

abbrev web_state : PodState
web_state = record { pod = web; deadline = some 40; binding_finished = true }

-- A cache that has assumed the pod, whose binding has finished.
abbrev assuming : Cache
assuming = record (new_scheduler_cache 30 0) {
  assumed_pods = ("u1", true) ∷ [];
  pod_states = ("u1", web_state) ∷ [];
}

-- A cache to which the pod was added.
abbrev adding : Cache
adding = record (new_scheduler_cache 30 0) { pod_states = ("u1", web_state) ∷ [] }

assuming-IsConsistent : IsConsistent assuming
unfolding Dict.has Dict.lookup is_ready is_assumed new_scheduler_cache
assuming-IsConsistent = record {
  ready = λ key h. ground arith;
  real = λ key h. ground arith;
  once = (refl, tt);
  default = (new_scheduler_cache-IsConsistent 30 0).default;
}

adding-IsConsistent : IsConsistent adding
unfolding Dict.has Dict.lookup is_ready is_assumed new_scheduler_cache
adding-IsConsistent = record {
  ready = λ key h. absurd (ground arith);
  real = λ key h. absurd (ground arith);
  once = tt;
  default = (new_scheduler_cache-IsConsistent 30 0).default;
}

same_node : SameNode adding "u1" "n1"
unfolding Dict.lookup str_eq new_scheduler_cache
same_node ps e = (str_eq_iff ps.pod.node_name "n1").1 (sym (ap node_of e))
  where
    node_of : Option PodState → String
    node_of none = ""
    node_of (some qs) = qs.pod.node_name

assume_pod-Goes_example : Goes empty_cache assume "u1" (assume_pod kube empty_cache web)
assume_pod-Goes_example =
    assume_pod-Goes kube empty_cache web (new_scheduler_cache-IsConsistent 30 0)

forget_pod-Goes_example : Goes assuming forget "u1" (forget_pod kube assuming web)
forget_pod-Goes_example = forget_pod-Goes kube assuming web assuming-IsConsistent

add_pod-Goes_example :
    Goes assuming add "u1" (add_pod kube assuming web)
    × Adds assuming web (add_pod kube assuming web)
add_pod-Goes_example = add_pod-Goes kube assuming web assuming-IsConsistent

-- The pod with other labels.
abbrev labelled : Pod
labelled = record web { labels = ("app", "shop") ∷ [] }

adding-IsStateOf : IsStateOf adding web
unfolding Dict.lookup str_eq new_scheduler_cache
adding-IsStateOf ps e = sym (ap pod_of e)
  where
    pod_of : Option PodState → Pod
    pod_of none = web
    pod_of (some qs) = qs.pod

update_pod_lem_example :
    Goes adding update "u1" (update_pod kube adding web labelled)
    × Agree
        (update_pod kube adding web labelled)
        (unless_failed (remove_pod kube adding web) (λ c'. add_pod kube c' labelled))
update_pod_lem_example =
    update_pod_lem kube adding web labelled adding-IsConsistent adding-IsStateOf refl refl

remove_pod-Goes_example : Goes adding remove "u1" (remove_pod kube adding web)
remove_pod-Goes_example = remove_pod-Goes kube adding web adding-IsConsistent same_node

cleanup_assumed_pods-Sweeps_example : Sweeps assuming 50 (cleanup_assumed_pods kube assuming 50)
cleanup_assumed_pods-Sweeps_example =
    cleanup_assumed_pods-Sweeps kube assuming 50 assuming-IsConsistent
