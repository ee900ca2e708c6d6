-- ===== src/Queue/Nominated.antt =====
-- type nominatedPodMap of pkg/scheduler/internal/queue/scheduling_queue.go: the pods that preemption has
-- nominated to run on the nodes, and for each such pod, by its UID, the node.
use ai_scheduler.Prelude.{
  Bool, true, false, none, some, String, List, [], ◌∷◌, ◌++◌, str_eq, if◌then◌else◌,
}
use ai_scheduler.Prelude.Dict
use ai_scheduler.Prelude.Dict.{Dict}
use ai_scheduler.Kube.{Pod}
use ai_scheduler.Queue.{NominatedPodMap}

-- The list without the first pod of this UID.
unfoldable pub without_uid : String → List Pod → List Pod
without_uid uid [] = []
without_uid uid (np ∷ nps) =
    let rest = without_uid uid nps in if str_eq np.uid uid then nps else np ∷ rest

unfoldable pub has_uid : String → List Pod → Bool
has_uid uid [] = false
has_uid uid (np ∷ nps) = let rest = has_uid uid nps in if str_eq np.uid uid then true else rest

-- npm.nominatedPods[node], which is nil where it is missing.
unfoldable pub pods_for_node : String → NominatedPodMap → List Pod
pods_for_node node npm = elim (Dict.lookup node npm.nominated_pods) [ none ↦ [] | some pods ↦ pods ]

-- `npm.nominatedPods[node]` without the first pod of this UID, and with no entry in place of an empty one.
unfoldable pub take_out : String → String → Dict (List Pod) → Dict (List Pod)
unfolding has_uid without_uid
take_out uid node m = elim (Dict.lookup node m) [
  | none ↦ m
  | some pods ↦
      if has_uid uid pods
      then elim (without_uid uid pods) [
        | [] ↦ Dict.remove node m
        | p ∷ ps ↦ Dict.insert node (p ∷ ps) m
      ]
      else m
]

unfoldable pub delete : Pod → NominatedPodMap → NominatedPodMap
unfolding take_out
delete p npm = elim (Dict.lookup p.uid npm.nominated_pod_to_node) [
  | none ↦ npm
  | some nnn ↦ record {
    nominated_pods = take_out p.uid nnn npm.nominated_pods;
    nominated_pod_to_node = Dict.remove p.uid npm.nominated_pod_to_node;
  }
]

-- npm.nominatedPodToNode[p.UID] = nnn, and p at the end of the node's list, unless its UID is there.
unfoldable pub put : Pod → String → NominatedPodMap → NominatedPodMap
unfolding has_uid pods_for_node
put p nnn npm =
    let pods = pods_for_node nnn npm in
    record {
      nominated_pods =
          if has_uid p.uid pods
          then npm.nominated_pods
          else Dict.insert nnn (pods ++ p ∷ []) npm.nominated_pods;
      nominated_pod_to_node = Dict.insert p.uid nnn npm.nominated_pod_to_node;
    }

-- The node, or the one of the pod's status where it is the empty text.
unfoldable pub nominated_node : Pod → String → String
nominated_node p node_name = if str_eq node_name "" then p.nominated_node_name else node_name

unfoldable pub add : Pod → String → NominatedPodMap → NominatedPodMap
unfolding delete put nominated_node
add p node_name npm =
    let deleted = delete p npm in
    let nnn = nominated_node p node_name in if str_eq nnn "" then deleted else put p nnn deleted

unfoldable pub update : Pod → Pod → NominatedPodMap → NominatedPodMap
unfolding delete add
update old new npm = add new "" (delete old npm)
