-- ===== src/Info/NodeTree/Members.antt =====
-- Which (zone, name) pairs AddNode, RemoveNode and UpdateNode of node_tree.go leave in the tree.
use ai_scheduler.Prelude.{
  ◌+◌, ◌-◌, ◌≡◌, refl, Bool, false, not, ◌&&◌, ◌||◌, List, [], ◌∷◌, ◌++◌, none, some, String,
  str_eq, length, if◌then◌else◌, arith, inl, inr, Bool-cases, true, Option-cases, str_eq_iff,
}
use ai_scheduler.Prelude.Dict
use ai_scheduler.Prelude.Dict.{Dict}
use ai_scheduler.Kube.{Node, External}
use ai_scheduler.Info.NodeTree.{
  NodeArray, NodeTree, contains, remove_first, remove_zone, put_array, add_node, remove_node,
  update_node,
}
use ai_scheduler.Info.NodeTree.Invariant.{
  IsTree, contains-append, contains-remove_first, update_node-IsTree,
}

unfoldable pub has_name : String → String → Dict NodeArray → Bool
has_name zone name m = elim (Dict.lookup zone m) [ none ↦ false | some na ↦ contains name na.nodes ]

-- Whether the pair is the place of a node.
unfoldable pub is_place : External → Node → String → String → Bool
is_place ext n zone name = str_eq (ext.zone_key n) zone && str_eq n.name name

has_name-insert :
    (k : String) (na : NodeArray) (m : Dict NodeArray) (zone name : String)
    → has_name zone name (Dict.insert k na m)
      ≡ (if str_eq k zone then contains name na.nodes else has_name zone name m)
unfolding has_name
has_name-insert k na m zone name = ground (arith, Dict.lookup-insert k zone na m)

has_name-remove :
    (k : String) (m : Dict NodeArray) (zone name : String)
    → has_name zone name (Dict.remove k m) ≡ (if str_eq k zone then false else has_name zone name m)
unfolding has_name
has_name-remove k m zone name = ground (arith, Dict.lookup-remove k zone m)

pub has_name-some :
    (zone name : String) (na : NodeArray) (m : Dict NodeArray)
    → Dict.lookup zone m ≡ some na
    → has_name zone name m ≡ contains name na.nodes
unfolding has_name
has_name-some zone name na m e = ground arith

has_name-none :
    (zone name : String) (m : Dict NodeArray)
    → Dict.lookup zone m ≡ none
    → has_name zone name m ≡ false
unfolding has_name
has_name-none zone name m e = ground arith

contains_one : (x y : String) → contains y (x ∷ []) ≡ str_eq x y
unfolding contains
contains_one x y = ground arith

contains_empty : (xs : List String) (y : String) → length xs ≡ 0 → contains y xs ≡ false
unfolding contains
contains_empty [] y e = refl
contains_empty (x ∷ xs) y e = absurd (omega arith)

module _ (ext : External) where
  -- AddNode adds the node's place and no other, and counts the node if its place was free.
  pub add_node_lem :
      (nt : NodeTree) (n : Node) (zone name : String)
      → (has_name zone name (add_node ext nt n).tree
          ≡ (is_place ext n zone name || has_name zone name nt.tree))
        × ((add_node ext nt n).num_nodes
            ≡ (if has_name (ext.zone_key n) n.name nt.tree then nt.num_nodes else nt.num_nodes + 1))
  unfolding add_node is_place
  add_node_lem nt n zone name =
      let key = ext.zone_key n in
      elim (Option-cases (Dict.lookup key nt.tree)) [
        | inl e ↦ ground (
          arith,
          has_name-none key name nt.tree e,
          has_name-none key n.name nt.tree e,
          has_name-insert key (record { nodes = n.name ∷ []; last_index = 0 }) nt.tree zone name,
          contains_one n.name name,
          str_eq_iff key zone,
        )
        | inr (na, e) ↦ ground (
          arith,
          has_name-some key name na nt.tree e,
          has_name-some key n.name na nt.tree e,
          has_name-insert key (record na { nodes = na.nodes ++ n.name ∷ [] }) nt.tree zone name,
          contains-append name n.name na.nodes,
          str_eq_iff key zone,
          str_eq_iff n.name name,
        )
      ]

  -- On a tree that is well formed, RemoveNode succeeds exactly where the tree has the node's
  -- place; it takes that place away and no other, and counts one node less.
  pub remove_node_lem :
      (nt : NodeTree) (n : Node) (zone name : String)
      → IsTree nt
      → ((remove_node ext nt n).1 ≡ has_name (ext.zone_key n) n.name nt.tree)
        × (has_name zone name (remove_node ext nt n).0.tree
            ≡ (not (is_place ext n zone name) && has_name zone name nt.tree))
        × ((remove_node ext nt n).0.num_nodes
            ≡ (if has_name (ext.zone_key n) n.name nt.tree then nt.num_nodes - 1 else nt.num_nodes))
  unfolding remove_node is_place put_array remove_zone
  remove_node_lem nt n zone name t =
      let key = ext.zone_key n in
      elim (Option-cases (Dict.lookup key nt.tree)) [
        | inl e ↦ ground (
          arith,
          has_name-none key name nt.tree e,
          has_name-none key n.name nt.tree e,
          str_eq_iff key zone,
        )
        | inr (na, e) ↦
            let left = remove_first n.name na.nodes in
            ground (
              arith,
              has_name-some key name na nt.tree e,
              has_name-some key n.name na nt.tree e,
              has_name-insert key (record na { nodes = left }) nt.tree zone name,
              has_name-remove key nt.tree zone name,
              contains-remove_first n.name name na.nodes (t.arrays key na e).1,
              contains_empty left name,
              str_eq_iff key zone,
              str_eq_iff n.name name,
            )
      ]

  -- On a tree that is well formed, for an old and a new node of one name, and with the old node in
  -- the tree where both have one zone: after UpdateNode the tree is well formed, has the place of
  -- the new node, has the old node's place only where the new one's is the same, and has any other
  -- place exactly if it had it before.
  pub update_node_lem :
      (nt : NodeTree) (old new : Node)
      → IsTree nt
      → old.name ≡ new.name
      → (ext.zone_key old ≡ ext.zone_key new → has_name (ext.zone_key old) old.name nt.tree ≡ true)
      → IsTree (update_node ext nt old new)
        × ((zone name : String)
            → has_name zone name (update_node ext nt old new).tree ≡ (
                is_place ext new zone name
                || (not (is_place ext old zone name) && has_name zone name nt.tree)))
  unfolding update_node is_place
  update_node_lem nt old new t same here = (
    update_node-IsTree ext nt old new t,
    (λ zone name. elim (Bool-cases (str_eq (ext.zone_key old) (ext.zone_key new))) [
      | inl one ↦
          let old_at = here ((str_eq_iff _ _).0 one) in
          ground (
            arith,
            str_eq_iff (ext.zone_key old) (ext.zone_key new),
            str_eq_iff (ext.zone_key new) zone,
            str_eq_iff new.name name,
          )
      | inr two ↦ rw (
        two,
        (add_node_lem (remove_node ext nt old).0 new zone name).0,
        (remove_node_lem nt old zone name t).1,
      )
    ]),
  )
