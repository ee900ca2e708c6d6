-- ===== src/Tests/Nodes.antt =====
-- The theorems on host ports, the NodeInfo and the node tree at concrete nodes.
use ai_scheduler.Prelude.{
  ◌+◌, ◌-◌, ◌≡◌, refl, true, not, ◌&&◌, ◌||◌, List, [], ◌∷◌, none, some, Option, String, str_eq,
  arith, if◌then◌else◌, ◌↔◌, Bool-cases, inl, inr, sym, ap, ◌∙◌,
}
use ai_scheduler.Prelude.Dict
use ai_scheduler.Prelude.Int64
use ai_scheduler.Kube.{Pod, Container, Node, External}
use ai_scheduler.Info.Resource.Amount.{Same, empty_resource-IsResource}
use ai_scheduler.Info.HostPorts
use ai_scheduler.Info.HostPorts.{
  HostPortInfo, ProtocolPort, ip_has, check_conflict, sanitize_ip, port_key,
}
use ai_scheduler.Info.HostPorts.Conflict.{Collision, check_conflict_iff}
use ai_scheduler.Info.HostPorts.Clean.{IsClean, remove-IsClean}
use ai_scheduler.Info.NodeInfo
use ai_scheduler.Info.NodeInfo.{NodeInfo, new_node_info, next_generation, get_pod_key}
use ai_scheduler.Info.NodeInfo.Pods.{find_key}
use ai_scheduler.Info.NodeInfo.Accounting.{
  IsAccounted, new_node_info-IsAccounted, add_pod-IsAccounted, remove_pod-IsAccounted,
}
use ai_scheduler.Info.NodeInfo.Undo.{remove_pod-add_pod}
use ai_scheduler.Info.NodeTree
use ai_scheduler.Info.NodeTree.{NodeTree, new_node_tree, next}
use ai_scheduler.Info.NodeTree.Invariant.{
  IsTree, new_node_tree-IsTree, add_node-IsTree, remove_node-IsTree,
}
use ai_scheduler.Info.NodeTree.Members.{
  has_name, is_place, add_node_lem, remove_node_lem, update_node_lem,
}
use ai_scheduler.Info.NodeTree.RoundRobin.{Handed, next_hands}
use ai_scheduler.Tests.{kube, web, north, south}

abbrev http : ProtocolPort
http = record { protocol = "TCP"; port = 80 }

abbrev ports : HostPortInfo
ports = ("10.0.0.1", http ∷ []) ∷ []

check_conflict_iff_example :
    (check_conflict ports "" "TCP" 80 ≡ true) ↔ Collision ports (sanitize_ip "") (port_key "TCP" 80)
unfolding Int64.le Dict.lookup
check_conflict_iff_example = check_conflict_iff ports "" "TCP" 80 (refl, tt) refl

ports-IsClean : IsClean ports
unfolding Dict.lookup
ports-IsClean = record { distinct = (refl, tt); inhabited = (omega arith, tt) }

remove-IsClean_example : IsClean (HostPorts.remove ports "10.0.0.1" "TCP" 80)
remove-IsClean_example = remove-IsClean ports "10.0.0.1" "TCP" 80 ports-IsClean

add_pod-IsAccounted_example : IsAccounted kube (NodeInfo.add_pod kube 1 (new_node_info 0) web).0
add_pod-IsAccounted_example =
    add_pod-IsAccounted kube 1 (new_node_info 0) web (new_node_info-IsAccounted kube 0)

abbrev with_web : NodeInfo
with_web = (NodeInfo.add_pod kube 1 (new_node_info 0) web).0

web_alone : with_web.pods ≡ web ∷ []
unfolding NodeInfo.add_pod new_node_info
web_alone = refl

containers_of : Option Pod → List Container
containers_of none = web.containers
containers_of (some p) = p.containers

containers_of_found : (k : String) → containers_of (find_key k (web ∷ [])) ≡ web.containers
unfolding find_key containers_of
containers_of_found k = elim (Bool-cases (NodeInfo.has_key k web)) [
  | inl e ↦ rw (e) refl
  | inr e ↦ rw (e) refl
]

same_containers :
    (k : String) (p : Pod)
    → get_pod_key web ≡ some k
    → find_key k with_web.pods ≡ some p
    → p.containers ≡ web.containers
unfolding containers_of
same_containers k p e h =
    sym (ap containers_of h)
    ∙ (ap (λ ps. containers_of (find_key k ps)) web_alone ∙ containers_of_found k)

remove_pod-IsAccounted_example : IsAccounted kube (NodeInfo.remove_pod kube 2 with_web web).0
remove_pod-IsAccounted_example =
    remove_pod-IsAccounted kube 2 with_web web
      (add_pod-IsAccounted kube 1 (new_node_info 0) web (new_node_info-IsAccounted kube 0))
      same_containers

remove_pod-add_pod_example :
    let back = NodeInfo.remove_pod kube 2 (NodeInfo.add_pod kube 1 (new_node_info 0) web).0 web in
    (back.2 ≡ none)
    × (back.0.pods ≡ [])
    × (back.0.pods_with_affinity ≡ [])
    × Same back.0.requested_resource (new_node_info 0).requested_resource
    × (back.0.generation ≡ next_generation 2)
unfolding get_pod_key find_key new_node_info str_eq
remove_pod-add_pod_example =
    remove_pod-add_pod kube 1 2 (new_node_info 0) web "u1" empty_resource-IsResource refl refl refl

abbrev one_node : NodeTree
one_node = NodeTree.add_node kube new_node_tree north

one_node-IsTree : IsTree one_node
one_node-IsTree = add_node-IsTree kube new_node_tree north new_node_tree-IsTree

add_node-IsTree_example : IsTree (NodeTree.add_node kube one_node south)
add_node-IsTree_example = add_node-IsTree kube one_node south one_node-IsTree

remove_node-IsTree_example : IsTree (NodeTree.remove_node kube one_node north).0
remove_node-IsTree_example = remove_node-IsTree kube one_node north one_node-IsTree

-- A cluster whose zones are the nodes' labels.
abbrev zoned : External
zoned = record kube { zone_key = λ node. zone_of (Dict.lookup "zone" node.labels) }
  where
    zone_of : Option String → String
    zone_of none = ""
    zone_of (some zone) = zone

abbrev moved_north : Node
moved_north = record north { labels = ("zone", "west") ∷ [] }

abbrev zoned_node : NodeTree
zoned_node = NodeTree.add_node zoned new_node_tree north

update_node_lem_example :
    IsTree (NodeTree.update_node zoned zoned_node north moved_north)
    × ((zone name : String)
        → has_name zone name (NodeTree.update_node zoned zoned_node north moved_north).tree ≡ (
            is_place zoned moved_north zone name
            || (not (is_place zoned north zone name) && has_name zone name zoned_node.tree)))
unfolding Dict.lookup str_eq has_name NodeTree.add_node NodeTree.contains new_node_tree Dict.insert
update_node_lem_example =
    update_node_lem zoned zoned_node north moved_north
      (add_node-IsTree zoned new_node_tree north new_node_tree-IsTree) refl (λ e. refl)

add_node_lem_example :
    (has_name "east" "n1" (NodeTree.add_node kube one_node south).tree
      ≡ (is_place kube south "east" "n1" || has_name "east" "n1" one_node.tree))
    × ((NodeTree.add_node kube one_node south).num_nodes ≡ (
        if has_name "east" "n2" one_node.tree then one_node.num_nodes else one_node.num_nodes + 1))
add_node_lem_example = add_node_lem kube one_node south "east" "n1"

remove_node_lem_example :
    ((NodeTree.remove_node kube one_node north).1 ≡ has_name "east" "n1" one_node.tree)
    × (has_name "east" "n1" (NodeTree.remove_node kube one_node north).0.tree
        ≡ (not (is_place kube north "east" "n1") && has_name "east" "n1" one_node.tree))
    × ((NodeTree.remove_node kube one_node north).0.num_nodes ≡ (
        if has_name "east" "n1" one_node.tree then one_node.num_nodes - 1 else one_node.num_nodes))
remove_node_lem_example = remove_node_lem kube one_node north "east" "n1" one_node-IsTree

next_hands_example : Handed one_node (next one_node)
unfolding NodeTree.add_node new_node_tree Dict.lookup
next_hands_example = next_hands one_node one_node-IsTree (ground arith)
