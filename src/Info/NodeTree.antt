-- ===== src/Info/NodeTree.antt =====
-- pkg/scheduler/info/node_tree.go: the names of the nodes by zone, and the round robin over them.
-- The mutex serialises the operations. Counts and indices are those of slices, so plain numbers.
pub mod Invariant
pub mod Members
pub mod RoundRobin
use ai_scheduler.Prelude.{
  ℕ, zero, suc, ◌+◌, ◌-◌, Bool, true, false, ◌||◌, List, [], ◌∷◌, ◌++◌, none, some, Option, String,
  str_eq, length, if◌then◌else◌, leb, ◌==◌,
}
use ai_scheduler.Prelude.Dict
use ai_scheduler.Prelude.Dict.{Dict}
use ai_scheduler.Kube.{Node, External}

pub record NodeArray : Type 0 where
  pub nodes : List String
  pub last_index : ℕ

pub record NodeTree : Type 0 where
  pub tree : Dict NodeArray
  pub zones : List String
  pub zone_index : ℕ
  pub num_nodes : ℕ

unfoldable pub contains : String → List String → Bool
contains x [] = false
contains x (y ∷ ys) = str_eq y x || contains x ys

unfoldable pub remove_first : String → List String → List String
remove_first x [] = []
remove_first x (y ∷ ys) = let rest = remove_first x ys in if str_eq y x then ys else y ∷ rest

unfoldable pub get_or : List String → ℕ → String → String
get_or [] i d = d
get_or (x ∷ xs) zero d = x
get_or (x ∷ xs) (suc i) d = get_or xs i d

unfoldable pub new_node_tree : NodeTree
new_node_tree = record { tree = []; zones = []; zone_index = 0; num_nodes = 0 }

-- (nodeName, exhausted), and the array afterwards.
unfoldable pub array_next : NodeArray → String × Bool × NodeArray
array_next na =
    if length na.nodes == 0
    then ("", false, na)
    else if leb (length na.nodes) na.last_index
    then ("", true, na)
    else (get_or na.nodes na.last_index "", false, record na { last_index = na.last_index + 1 })

-- The zone of a removal is in `zones` once (see IsTree), so its loop deletes one entry.
unfoldable pub remove_zone : String → NodeTree → NodeTree
remove_zone zone nt = record nt {
  tree = Dict.remove zone nt.tree;
  zones = remove_first zone nt.zones;
}

unfoldable pub reset_arrays : Dict NodeArray → Dict NodeArray
reset_arrays [] = []
reset_arrays ((zone, na) ∷ m) = (zone, record na { last_index = 0 }) ∷ reset_arrays m

unfoldable pub reset_exhausted : NodeTree → NodeTree
reset_exhausted nt = record nt { tree = reset_arrays nt.tree; zone_index = 0 }

-- How a call of Next ends. `panic` is the use of a zone that the tree lacks.
pub data Outcome : Type 0 where
  found : String → NodeTree → Outcome
  panic out_of_fuel : Outcome

unfoldable pub next_loop : ℕ → ℕ → NodeTree → Outcome
next_loop zero num_exhausted nt = out_of_fuel
next_loop (suc fuel) num_exhausted nt =
    let i = if leb (length nt.zones) nt.zone_index then 0 else nt.zone_index in
    let zone = get_or nt.zones i "" in
    elim (Dict.lookup zone nt.tree) [
      | none ↦ panic
      | some na ↦
          let (name, exhausted, na') = array_next na in
          let moved : NodeTree = record nt {
            zone_index = i + 1;
            tree = Dict.insert zone na' nt.tree;
          } in
          elim exhausted [
            | true ↦
                next_loop fuel (num_exhausted + 1) (
                  if leb (length nt.zones) (num_exhausted + 1)
                  then reset_exhausted moved
                  else moved)
            | false ↦ found name moved
          ]
    ]

-- One round for each zone and one more after the reset.
unfoldable pub next : NodeTree → Outcome
unfolding next_loop
next nt = if length nt.zones == 0 then found "" nt else next_loop (length nt.zones + 1) 0 nt

-- The array after the deletion, or no zone where that left it empty.
unfoldable pub put_array : String → NodeArray → NodeTree → NodeTree
put_array zone na nt =
    if length na.nodes == 0
    then remove_zone zone nt
    else record nt { tree = Dict.insert zone na nt.tree }

module _ (ext : External) where
  unfoldable pub add_node : NodeTree → Node → NodeTree
  add_node nt n =
      let zone = ext.zone_key n in
      elim (Dict.lookup zone nt.tree) [
        | some na ↦ if contains n.name na.nodes then nt else record nt {
          tree = Dict.insert zone (record na { nodes = na.nodes ++ n.name ∷ [] }) nt.tree;
          num_nodes = nt.num_nodes + 1;
        }
        | none ↦ record nt {
          zones = nt.zones ++ zone ∷ [];
          tree = Dict.insert zone (record { nodes = n.name ∷ []; last_index = 0 }) nt.tree;
          num_nodes = nt.num_nodes + 1;
        }
      ]

  -- The Bool is false where the call returns its error.
  unfoldable pub remove_node : NodeTree → Node → NodeTree × Bool
  unfolding put_array
  remove_node nt n =
      let zone = ext.zone_key n in
      elim (Dict.lookup zone nt.tree) [
        | none ↦ (nt, false)
        | some na ↦
            if contains n.name na.nodes
            then (
              record (put_array zone (record na { nodes = remove_first n.name na.nodes }) nt) {
                num_nodes = nt.num_nodes - 1;
              },
              true,
            )
            else (nt, false)
      ]

  -- For an old node that is not nil.
  unfoldable pub update_node : NodeTree → Node → Node → NodeTree
  update_node nt old new =
      if str_eq (ext.zone_key old) (ext.zone_key new)
      then nt
      else add_node (remove_node nt old).0 new

  unfoldable pub add_nodes : NodeTree → List Node → NodeTree
  add_nodes nt [] = nt
  add_nodes nt (n ∷ ns) = add_nodes (add_node nt n) ns
