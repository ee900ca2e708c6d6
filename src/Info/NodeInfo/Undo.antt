-- ===== src/Info/NodeInfo/Undo.antt =====
-- RemovePod of node_info.go straight after AddPod.
use ai_scheduler.Prelude.{
  ℕ, ◌≡◌, refl, List, [], ◌∷◌, ◌++◌, none, some, String, if◌then◌else◌, arith,
}
use ai_scheduler.Kube.{Pod, External}
use ai_scheduler.Info.Resource.Amount.{IsResource, Same}
use ai_scheduler.Info.NodeInfo.{
  NodeInfo, add_pod, remove_pod, release_pod, get_pod_key, delete_key, or_keep,
  has_pod_affinity_constraints, next_generation,
}
use ai_scheduler.Info.NodeInfo.Pods.{
  find_key, delete_key-append, delete_key-none, has_key-get_pod_key,
}
use ai_scheduler.Info.NodeInfo.Accounting.{amount-sub_request-add_request}

module _ (ext : External) where
  affinity_restored :
      (n : NodeInfo) (pod : Pod) (k : String)
      → get_pod_key pod ≡ some k
      → find_key k n.pods_with_affinity ≡ none
      → (ps : List Pod)
      → ps ≡ (
          if has_pod_affinity_constraints pod
          then n.pods_with_affinity ++ pod ∷ []
          else n.pods_with_affinity)
      → or_keep ps (delete_key k ps) ≡ n.pods_with_affinity
  unfolding or_keep
  affinity_restored n pod k e absent ps same = ground (
    arith,
    delete_key-append k n.pods_with_affinity pod absent (has_key-get_pod_key pod k e),
    delete_key-none k n.pods_with_affinity absent,
  )

  -- Where the request of the node is of int64 words and holds no scalar twice, and neither list
  -- of the node has a pod with the key of the given pod, removing the pod that was just added
  -- succeeds, brings back the lists of pods and of pods with affinity and the request in every
  -- dimension, and draws a generation number.
  pub remove_pod-add_pod :
      (g g' : ℕ) (n : NodeInfo) (pod : Pod) (k : String)
      → IsResource n.requested_resource
      → get_pod_key pod ≡ some k
      → find_key k n.pods ≡ none
      → find_key k n.pods_with_affinity ≡ none
      → let back = remove_pod ext g' (add_pod ext g n pod).0 pod in
        (back.2 ≡ none)
        × (back.0.pods ≡ n.pods)
        × (back.0.pods_with_affinity ≡ n.pods_with_affinity)
        × Same back.0.requested_resource n.requested_resource
        × (back.0.generation ≡ next_generation g')
  unfolding remove_pod add_pod release_pod
  remove_pod-add_pod g g' n pod k v e absent no_affinity =
      let gone = delete_key-append k n.pods pod absent (has_key-get_pod_key pod k e) in
      rw (e, remove_pod, gone)
        (
          refl,
          refl,
          affinity_restored n pod k e no_affinity _ refl,
          amount-sub_request-add_request ext n.requested_resource pod v,
          refl,
        )
