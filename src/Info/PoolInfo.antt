-- ===== src/Info/PoolInfo.antt =====
-- type PoolInfo of pkg/scheduler/info/pool_info.go: the nodes of a pool, the doubly linked list that
-- orders them by their last update, and the resources of the pool. A PoolInfo is not nil here.
pub mod Policy
pub mod Resources
use ai_scheduler.Prelude.{
  ℕ, Bool, true, false, ◌&&◌, ◌||◌, not, List, [], ◌∷◌, none, some, Option, String, str_eq, length,
  ◌==◌, if◌then◌else◌,
}
use ai_scheduler.Prelude.Dict
use ai_scheduler.Prelude.Dict.{Dict}
use ai_scheduler.Kube.{Pod, Node, Pool, PoolSpec, LabelSelector, External}
use ai_scheduler.Info.Resource
use ai_scheduler.Info.Resource.{Resource, empty_resource, get_resource_request_for_pool}
use ai_scheduler.Info.NodeInfo
use ai_scheduler.Info.NodeInfo.{NodeInfo, Error, node_not_found}
use ai_scheduler.Info.NodeTree
use ai_scheduler.Info.NodeTree.{NodeTree, new_node_tree}
use ai_scheduler.Info.Store.{Store, item_at, set_info, fresh, allocate, unlink, push_front}

abbrev pub default_pool_name : String
default_pool_name = ""

-- v1alpha1.GroupNameAnnotationKey
abbrev pub group_name_annotation_key : String
group_name_annotation_key = "resource.aibee.cn/pool"

pub record PoolInfo : Type 0 where
  pub pool : Option Pool
  pub nodes : Dict ℕ
  pub head_node : Option ℕ
  pub node_tree : NodeTree
  pub capacity : Resource
  pub allocatable : Resource
  pub used : Resource
  pub shared : Resource

unfoldable pub new_pool_info : PoolInfo
new_pool_info = record {
  pool = none;
  nodes = [];
  head_node = none;
  node_tree = new_node_tree;
  capacity = empty_resource;
  allocatable = empty_resource;
  used = empty_resource;
  shared = empty_resource;
}

unfoldable pub get_pod_annotations_pool_name : Pod → String
get_pod_annotations_pool_name pod = elim (Dict.lookup group_name_annotation_key pod.annotations) [
  | none ↦ ""
  | some name ↦ name
]

unfoldable pub slice_contains_string : List String → String → Bool
slice_contains_string [] s = false
slice_contains_string (x ∷ xs) s = str_eq x s || slice_contains_string xs s

unfoldable pub name : PoolInfo → String
name p = elim p.pool [ none ↦ "" | some q ↦ q.name ]

unfoldable pub set_pool : PoolInfo → Pool → PoolInfo
set_pool p q = record p { pool = some q }

unfoldable pub disable_sharing : PoolInfo → Bool
disable_sharing p = elim p.pool [ none ↦ false | some q ↦ q.spec.disable_sharing ]

unfoldable pub disable_borrowing : PoolInfo → Bool
disable_borrowing p = elim p.pool [ none ↦ true | some q ↦ q.spec.disable_borrowing ]

unfoldable pub disable_preemption : PoolInfo → Bool
disable_preemption p = elim p.pool [ none ↦ true | some q ↦ q.spec.disable_preemption ]

unfoldable pub is_default_pool : PoolInfo → Bool
unfolding name
is_default_pool p = str_eq (name p) default_pool_name

unfoldable pub match_pod : PoolInfo → Pod → Bool
unfolding name get_pod_annotations_pool_name
match_pod p pod = str_eq (name p) (get_pod_annotations_pool_name pod)

unfoldable pub contains_node : PoolInfo → String → Option ℕ
contains_node p node_name = if str_eq node_name "" then none else Dict.lookup node_name p.nodes

unfoldable pub borrows_from : PoolSpec → String → Bool
unfolding slice_contains_string
borrows_from spec other =
    length spec.borrowing_pools == 0 || slice_contains_string spec.borrowing_pools other

-- Once borrowing is known to be enabled the pool is set.
unfoldable pub can_borrow_pool : PoolInfo → PoolInfo → Bool
unfolding name disable_borrowing disable_sharing borrows_from
can_borrow_pool p other =
    if str_eq (name p) (name other)
    then true
    else if disable_borrowing p || disable_sharing other
    then false
    else elim p.pool [ none ↦ false | some q ↦ borrows_from q.spec (name other) ]

unfoldable pub idle : PoolInfo → Resource
idle p = Resource.sub p.allocatable p.used

-- moveNodeInfoToHead. A name that is not in the map is only logged.
unfoldable pub move_node_info_to_head : Store → PoolInfo → String → Store × PoolInfo
move_node_info_to_head s p node_name = elim (Dict.lookup node_name p.nodes) [
  | none ↦ (s, p)
  | some ni ↦
      if (elim p.head_node [ none ↦ false | some h ↦ h == ni ])
      then (s, p)
      else (push_front (unlink s ni) p.head_node ni, record p { head_node = some ni })
]

-- removeNodeInfoFromList. The item keeps its own links.
unfoldable pub remove_node_info_from_list : Store → PoolInfo → String → Store × PoolInfo
remove_node_info_from_list s p node_name = elim (Dict.lookup node_name p.nodes) [
  | none ↦ (s, p)
  | some ni ↦
      let s' = unlink s ni in
      let head =
        if (elim p.head_node [ none ↦ false | some h ↦ h == ni ])
        then (item_at s' ni).next
        else p.head_node in
      (s', record p { head_node = head; nodes = Dict.remove node_name p.nodes })
]

-- The item of a name, allocated and entered in the map where there was none.
unfoldable pub get_or_create : Store → PoolInfo → String → Store × PoolInfo × ℕ
get_or_create s p node_name = elim (Dict.lookup node_name p.nodes) [
  | some ni ↦ (s, p, ni)
  | none ↦ (allocate s, record p { nodes = Dict.insert node_name (fresh s) p.nodes }, fresh s)
]

-- An item without pods and node leaves the list and the map; another one goes to the head.
unfoldable pub keep_or_drop : Store → PoolInfo → String → NodeInfo → Store × PoolInfo
unfolding remove_node_info_from_list move_node_info_to_head
keep_or_drop s p node_name n =
    if length n.pods == 0 && (elim n.node [ none ↦ true | some _ ↦ false ])
    then remove_node_info_from_list s p node_name
    else move_node_info_to_head s p node_name

module _ (ext : External) where
  unfoldable pub match_node : PoolInfo → Node → Bool
  match_node p node = if is_default_pool p then false else elim p.pool [
    | none ↦ false
    | some q ↦ elim q.spec.node_selector [
      | none ↦ false
      | some selector ↦ elim (ext.selector_matches selector node.labels) [
        | none ↦ true
        | some matches ↦ matches
      ]
    ]
  ]

  unfoldable pub plus_pod_resource : PoolInfo → Pod → PoolInfo
  plus_pod_resource p pod =
      let res = get_resource_request_for_pool ext pod in
      record p {
        used = Resource.plus p.used res;
        shared = if match_pod p pod then p.shared else Resource.plus p.shared res;
      }

  unfoldable pub reduce_pod_resource : PoolInfo → Pod → PoolInfo
  reduce_pod_resource p pod =
      let res = get_resource_request_for_pool ext pod in
      record p {
        used = Resource.sub p.used res;
        shared = if match_pod p pod then p.shared else Resource.sub p.shared res;
      }

  unfoldable pub plus_pods : PoolInfo → List Pod → PoolInfo
  unfolding plus_pod_resource
  plus_pods p [] = p
  plus_pods p (pod ∷ pods) = plus_pods (plus_pod_resource p pod) pods

  unfoldable pub reduce_pods : PoolInfo → List Pod → PoolInfo
  unfolding reduce_pod_resource
  reduce_pods p [] = p
  reduce_pods p (pod ∷ pods) = reduce_pods (reduce_pod_resource p pod) pods

  -- AddPod, which never fails.
  unfoldable pub add_pod : Store → PoolInfo → Pod → Store × PoolInfo
  unfolding get_or_create move_node_info_to_head
  add_pod s p pod =
      let (s1, p1, ni) = get_or_create s p pod.node_name in
      let (n, g) = NodeInfo.add_pod ext s1.generation (item_at s1 ni).info pod in
      let s2 : Store = record (set_info s1 ni n) { generation = g } in
      let (s3, p3) = move_node_info_to_head s2 p1 pod.node_name in (s3, plus_pod_resource p3 pod)

  unfoldable pub remove_pod : Store → PoolInfo → Pod → Store × PoolInfo × Option Error
  unfolding keep_or_drop
  remove_pod s p pod = elim (Dict.lookup pod.node_name p.nodes) [
    | none ↦ (s, p, some node_not_found)
    | some ni ↦
        let (n, g, failed) = NodeInfo.remove_pod ext s.generation (item_at s ni).info pod in
        let s1 : Store = record (set_info s ni n) { generation = g } in
        elim failed [
          | some e ↦ (s1, p, some e)
          | none ↦
              let (s2, p2) = keep_or_drop s1 p pod.node_name n in
              (s2, reduce_pod_resource p2 pod, none)
        ]
  ]

  -- What AddNode and UpdateNode do to the two totals of the pool's nodes.
  unfoldable pub count_node : PoolInfo → Node → PoolInfo
  count_node p node = record p {
    node_tree = NodeTree.add_node ext p.node_tree node;
    capacity = Resource.add ext p.capacity node.capacity;
    allocatable = Resource.add ext p.allocatable node.allocatable;
  }

  unfoldable pub discount_node : PoolInfo → Node → PoolInfo
  discount_node p node = record p {
    node_tree = (NodeTree.remove_node ext p.node_tree node).0;
    capacity = Resource.sub p.capacity (Resource.new_resource ext node.capacity);
    allocatable = Resource.sub p.allocatable (Resource.new_resource ext node.allocatable);
  }

  unfoldable pub add_node : Store → PoolInfo → Node → Store × PoolInfo
  unfolding get_or_create move_node_info_to_head count_node
  add_node s p node =
      let (s1, p1, ni) = get_or_create s p node.name in
      let (s2, p2) = move_node_info_to_head s1 p1 node.name in
      let (n, g) = NodeInfo.set_node ext s2.generation (item_at s2 ni).info node in
      (record (set_info s2 ni n) { generation = g }, count_node p2 node)

  unfoldable pub remove_node : Store → PoolInfo → Node → Store × PoolInfo × Option Error
  unfolding keep_or_drop discount_node
  remove_node s p node = elim (Dict.lookup node.name p.nodes) [
    | none ↦ (s, p, some node_not_found)
    | some ni ↦
        let (n, g) = NodeInfo.remove_node s.generation (item_at s ni).info in
        let s1 : Store = record (set_info s ni n) { generation = g } in
        let (s2, p2) = keep_or_drop s1 p node.name n in (s2, discount_node p2 node, none)
  ]

  -- UpdateNode, for an old node that is not nil.
  unfoldable pub update_node : Store → PoolInfo → Node → Node → Store × PoolInfo
  unfolding get_or_create move_node_info_to_head
  update_node s p old new =
      let (s1, p1, ni) = get_or_create s p new.name in
      let (s2, p2) = move_node_info_to_head s1 p1 new.name in
      let cdelta =
        Resource.sub (Resource.new_resource ext new.capacity)
          (Resource.new_resource ext old.capacity) in
      let adelta =
        Resource.sub (Resource.new_resource ext new.allocatable)
          (Resource.new_resource ext old.allocatable) in
      let (n, g) = NodeInfo.set_node ext s2.generation (item_at s2 ni).info new in
      (
        record (set_info s2 ni n) { generation = g },
        record p2 {
          node_tree = NodeTree.update_node ext p2.node_tree old new;
          capacity = Resource.plus p2.capacity cdelta;
          allocatable = Resource.plus p2.allocatable adelta;
        },
      )

  -- AddNodeInfo. An item without a node is passed over, and one of the same name is replaced.
  unfoldable pub add_node_info : Store → PoolInfo → ℕ → Store × PoolInfo
  unfolding move_node_info_to_head count_node plus_pods
  add_node_info s p item = elim (item_at s item).info.node [
    | none ↦ (s, p)
    | some node ↦
        let p1 : PoolInfo = record p { nodes = Dict.insert node.name item p.nodes } in
        let (s2, p2) = move_node_info_to_head s p1 node.name in
        (s2, plus_pods (count_node p2 node) (item_at s item).info.pods)
  ]

  -- RemoveNodeInfo. Where the tree lacks the node, the call ends with the list already changed.
  unfoldable pub remove_node_info : Store → PoolInfo → ℕ → Store × PoolInfo × Option Error
  unfolding remove_node_info_from_list reduce_pods
  remove_node_info s p item = elim (item_at s item).info.node [
    | none ↦ (s, p, none)
    | some node ↦
        if not (Dict.has node.name p.nodes)
        then (s, p, some node_not_found)
        else let (s2, p2) = remove_node_info_from_list s p node.name in
          let (tree, removed) = NodeTree.remove_node ext p2.node_tree node in
          if not removed then (s2, record p2 { node_tree = tree }, some node_not_found) else (
            s2,
            reduce_pods
                (record p2 {
                  node_tree = tree;
                  capacity = Resource.sub p2.capacity (Resource.new_resource ext node.capacity);
                  allocatable =
                      Resource.sub p2.allocatable (Resource.new_resource ext node.allocatable);
                })
                (item_at s item).info.pods,
            none,
          )
  ]
