-- ===== src/Info/NodeTree/Invariant.antt =====
-- What a NodeTree satisfies, and that adding, removing and updating nodes keeps it.
use ai_scheduler.Prelude.{
  ℕ, ◌+◌, ◌-◌, ◌<◌, ◌≤◌, ◌≡◌, refl, ◌∙◌, true, false, not, ◌&&◌, ◌||◌, List, [], ◌∷◌, ◌++◌, none,
  some, String, str_eq, length, ◌==◌, arith, Bool-cases, inl, inr, Option-cases, length-append,
  str_eq_iff,
}
use ai_scheduler.Prelude.Dict
use ai_scheduler.Prelude.Dict.{Dict}
use ai_scheduler.Kube.{Node, External}
use ai_scheduler.Info.NodeTree.{
  NodeArray, NodeTree, contains, remove_first, new_node_tree, remove_zone, put_array, add_node,
  remove_node, update_node, add_nodes,
}

abbrev pub Unique : List String → Type 0
Unique [] = Unit {0}
Unique (x ∷ xs) = (contains x xs ≡ false) × Unique xs

-- The number of names in all arrays.
unfoldable pub total : Dict NodeArray → ℕ
total [] = 0
total ((zone, na) ∷ m) = length na.nodes + total m

-- The zones are the keys of the tree, each once; no array is empty or holds a name twice; and
-- numNodes counts the names.
pub record IsTree (nt : NodeTree) : Type 0 where
  pub distinct : Dict.Distinct nt.tree
  pub listed : (z : String) → contains z nt.zones ≡ Dict.has z nt.tree
  pub once : Unique nt.zones
  pub arrays :
      (z : String) (na : NodeArray)
      → Dict.lookup z nt.tree ≡ some na
      → (0 < length na.nodes) × Unique na.nodes
  pub counted : nt.num_nodes ≡ total nt.tree

pub contains-append :
    (z y : String) (xs : List String) → contains z (xs ++ y ∷ []) ≡ (str_eq y z || contains z xs)
unfolding contains
contains-append z y [] = refl
contains-append z y (x ∷ xs) = ground (arith, contains-append z y xs)

append-Unique :
    (y : String) (xs : List String) → contains y xs ≡ false → Unique xs → Unique (xs ++ y ∷ [])
unfolding contains
append-Unique y [] absent u = (refl, tt)
append-Unique y (x ∷ xs) absent u =
    ground (arith, contains-append x y xs, append-Unique y xs, str_eq_iff y x, str_eq_iff x y)

pub contains-remove_first :
    (x z : String) (xs : List String)
    → Unique xs
    → contains z (remove_first x xs) ≡ (not (str_eq x z) && contains z xs)
unfolding contains remove_first
contains-remove_first x z [] u = ground arith
contains-remove_first x z (y ∷ ys) u =
    ground (arith, str_eq_iff y x, str_eq_iff x z, str_eq_iff y z, contains-remove_first x z ys u.1)

remove_first-Unique : (x : String) (xs : List String) → Unique xs → Unique (remove_first x xs)
unfolding remove_first
remove_first-Unique x [] u = tt
remove_first-Unique x (y ∷ ys) u =
    ground (arith, contains-remove_first x y ys u.1, remove_first-Unique x ys u.1)

length-remove_first :
    (x : String) (xs : List String)
    → contains x xs ≡ true
    → length (remove_first x xs) + 1 ≡ length xs
unfolding contains remove_first
length-remove_first x [] h = cc
length-remove_first x (y ∷ ys) h = ground (arith, length-remove_first x ys)

-- The length of the array of a zone, if there is one.
unfoldable len_at : String → Dict NodeArray → ℕ
len_at z m = elim (Dict.lookup z m) [ none ↦ 0 | some na ↦ length na.nodes ]

total-insert :
    (z : String) (na : NodeArray) (m : Dict NodeArray)
    → total (Dict.insert z na m) + len_at z m ≡ total m + length na.nodes
unfolding total Dict.insert len_at Dict.lookup
total-insert z na [] = omega arith
total-insert z na ((k, nb) ∷ m) = ground (arith, total-insert z na m)

remove_absent : (z : String) (m : Dict NodeArray) → Dict.lookup z m ≡ none → Dict.remove z m ≡ m
unfolding Dict.remove Dict.lookup
remove_absent z [] h = refl
remove_absent z ((k, nb) ∷ m) h = ground (arith, remove_absent z m)

total-remove :
    (z : String) (m : Dict NodeArray)
    → Dict.Distinct m
    → total (Dict.remove z m) + len_at z m ≡ total m
unfolding total Dict.remove len_at Dict.lookup
total-remove z [] d = omega arith
total-remove z ((k, nb) ∷ m) d =
    ground (arith, total-remove z m d.1, str_eq_iff k z, remove_absent z m)

len_at-some :
    (z : String) (na : NodeArray) (m : Dict NodeArray)
    → Dict.lookup z m ≡ some na
    → len_at z m ≡ length na.nodes
unfolding len_at
len_at-some z na m e = ground arith

len_at-none : (z : String) (m : Dict NodeArray) → Dict.lookup z m ≡ none → len_at z m ≡ 0
unfolding len_at
len_at-none z m e = ground arith

total_ge :
    (z : String) (na : NodeArray) (m : Dict NodeArray)
    → Dict.lookup z m ≡ some na
    → length na.nodes ≤ total m
unfolding total Dict.lookup
total_ge z na [] e = cc
total_ge z na ((k, nb) ∷ m) e = ground (arith, total_ge z na m)

pub new_node_tree-IsTree : IsTree new_node_tree
unfolding new_node_tree contains Dict.has Dict.lookup total
new_node_tree-IsTree = record {
  distinct = tt;
  listed = λ z. refl;
  once = tt;
  arrays = λ z na e. cc;
  counted = refl;
}

-- A zone's array is replaced by one that is not empty and holds no name twice.
pub put-IsTree :
    (nt : NodeTree) (zone : String) (na nb : NodeArray) (i k : ℕ)
    → IsTree nt
    → Dict.lookup zone nt.tree ≡ some na
    → 0 < length nb.nodes
    → Unique nb.nodes
    → k + length na.nodes ≡ nt.num_nodes + length nb.nodes
    → IsTree (record nt { tree = Dict.insert zone nb nt.tree; zone_index = i; num_nodes = k })
put-IsTree nt zone na nb i k t e pos u c = record {
  distinct = Dict.insert-Distinct zone nb nt.tree t.distinct;
  listed = λ z. ground (
    arith,
    t.listed z,
    Dict.has-insert zone z nb nt.tree,
    Dict.has-lookup zone na nt.tree e,
    str_eq_iff zone z,
  );
  once = t.once;
  arrays = λ z nc h.
      ground (arith, t.arrays z nc, Dict.lookup-insert zone z nb nt.tree, str_eq_iff zone z);
  counted = omega (arith, t.counted, total-insert zone nb nt.tree, len_at-some zone na nt.tree e);
}

new_zone-IsTree :
    (nt : NodeTree) (zone name : String)
    → IsTree nt
    → Dict.lookup zone nt.tree ≡ none
    → IsTree (record nt {
      zones = nt.zones ++ zone ∷ [];
      tree = Dict.insert zone (record { nodes = name ∷ []; last_index = 0 }) nt.tree;
      num_nodes = nt.num_nodes + 1;
    })
unfolding contains
new_zone-IsTree nt zone name t e =
    let na : NodeArray = record { nodes = name ∷ []; last_index = 0 } in
    record {
      distinct = Dict.insert-Distinct zone na nt.tree t.distinct;
      listed = λ z.
          ground
            (arith, t.listed z, Dict.has-insert zone z na nt.tree, contains-append z zone nt.zones);
      once = append-Unique zone nt.zones (t.listed zone ∙ Dict.has-none zone nt.tree e) t.once;
      arrays = λ z nc h.
          ground (arith, t.arrays z nc, Dict.lookup-insert zone z na nt.tree, str_eq_iff zone z);
      counted = omega (arith, t.counted, total-insert zone na nt.tree, len_at-none zone nt.tree e);
    }

drop_zone-IsTree :
    (nt : NodeTree) (zone : String) (na : NodeArray) (k : ℕ)
    → IsTree nt
    → Dict.lookup zone nt.tree ≡ some na
    → k + length na.nodes ≡ nt.num_nodes
    → IsTree (record (remove_zone zone nt) { num_nodes = k })
unfolding remove_zone
drop_zone-IsTree nt zone na k t e c = record {
  distinct = Dict.remove-Distinct zone nt.tree t.distinct;
  listed = λ z. ground (
    arith,
    t.listed z,
    Dict.has-remove zone z nt.tree,
    contains-remove_first zone z nt.zones t.once,
  );
  once = remove_first-Unique zone nt.zones t.once;
  arrays = λ z nc h. ground (arith, t.arrays z nc, Dict.lookup-remove zone z nt.tree);
  counted =
      omega (arith, t.counted, total-remove zone nt.tree t.distinct, len_at-some zone na nt.tree e);
}

module _ (ext : External) where
  -- AddNode keeps the invariant, for a node that the tree has and for one that it has not.
  pub add_node-IsTree : (nt : NodeTree) (n : Node) → IsTree nt → IsTree (add_node ext nt n)
  unfolding add_node
  add_node-IsTree nt n t = elim (Option-cases (Dict.lookup (ext.zone_key n) nt.tree)) [
    | inl e ↦ rw (e, add_node) (new_zone-IsTree nt (ext.zone_key n) n.name t e)
    | inr (na, e) ↦ elim (Bool-cases (contains n.name na.nodes)) [
      | inl old ↦ rw (e, add_node, old) t
      | inr new ↦
          rw (e, add_node, new)
            (put-IsTree nt (ext.zone_key n) na (record na { nodes = na.nodes ++ n.name ∷ [] })
              nt.zone_index (nt.num_nodes + 1) t e
              (omega (arith, length-append na.nodes (n.name ∷ [])))
              (append-Unique n.name na.nodes new (t.arrays _ na e).1)
              (omega (arith, length-append na.nodes (n.name ∷ []))))
    ]
  ]

  -- RemoveNode keeps the invariant, whether or not it finds the node, and drops a zone with its
  -- last node.
  pub remove_node-IsTree : (nt : NodeTree) (n : Node) → IsTree nt → IsTree (remove_node ext nt n).0
  unfolding remove_node put_array
  remove_node-IsTree nt n t = elim (Option-cases (Dict.lookup (ext.zone_key n) nt.tree)) [
    | inl e ↦ rw (e, remove_node) t
    | inr (na, e) ↦ elim (Bool-cases (contains n.name na.nodes)) [
      | inr absent ↦ rw (e, remove_node, absent) t
      | inl present ↦
          let left = remove_first n.name na.nodes in
          let size = length-remove_first n.name na.nodes present in
          let counted = t.counted in
          let fits = total_ge (ext.zone_key n) na nt.tree e in
          elim (Bool-cases (length left == 0)) [
            | inl gone ↦
                rw (e, remove_node, present, gone)
                  (drop_zone-IsTree nt (ext.zone_key n) na (nt.num_nodes - 1) t e (ground arith))
            | inr some_left ↦
                rw (e, remove_node, present, some_left)
                  (put-IsTree nt (ext.zone_key n) na (record na { nodes = left }) nt.zone_index
                    (nt.num_nodes - 1) t e (ground arith)
                    (remove_first-Unique n.name na.nodes (t.arrays _ na e).1) (omega arith))
          ]
    ]
  ]

  -- UpdateNode keeps the invariant, also where the old node was not in the tree.
  pub update_node-IsTree :
      (nt : NodeTree) (old new : Node) → IsTree nt → IsTree (update_node ext nt old new)
  unfolding update_node
  update_node-IsTree nt old new t =
      ground (arith, add_node-IsTree (remove_node ext nt old).0 new (remove_node-IsTree nt old t))

  pub add_nodes-IsTree : (nt : NodeTree) (ns : List Node) → IsTree nt → IsTree (add_nodes ext nt ns)
  unfolding add_nodes
  add_nodes-IsTree nt [] t = t
  add_nodes-IsTree nt (n ∷ ns) t = add_nodes-IsTree (add_node ext nt n) ns (add_node-IsTree nt n t)
