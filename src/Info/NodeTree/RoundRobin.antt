-- ===== src/Info/NodeTree/RoundRobin.antt =====
-- Next of node_tree.go: its loop ends, and hands out a node of the tree.
use ai_scheduler.Prelude.{
  ℕ, zero, suc, ◌+◌, ◌<◌, ◌≤◌, ◌≡◌, refl, sym, ◌∙◌, ap, true, false, List, [], ◌∷◌, none, some,
  String, str_eq, length, if◌then◌else◌, leb, leb→le, ◌==◌, arith, Bool-cases, inl, inr, ◌⊎◌,
  str_eq_iff, str_eq_refl,
}
use ai_scheduler.Prelude.Dict
use ai_scheduler.Prelude.Dict.{Dict}
use ai_scheduler.Info.NodeTree.{
  NodeArray, NodeTree, contains, get_or, array_next, reset_arrays, reset_exhausted, Outcome, found,
  next_loop, next,
}
use ai_scheduler.Info.NodeTree.Invariant.{IsTree, total, put-IsTree}
use ai_scheduler.Info.NodeTree.Members.{has_name, has_name-some}

-- No array has handed out a node since the last reset.
abbrev AllFresh : Dict NodeArray → Type 0
AllFresh m = (z : String) (na : NodeArray) → Dict.lookup z m ≡ some na → na.last_index ≡ 0

get_or-contains :
    (xs : List String) (i : ℕ) (d : String) → i < length xs → contains (get_or xs i d) xs ≡ true
unfolding get_or contains
get_or-contains [] i d h = absurd (omega arith)
get_or-contains (x ∷ xs) zero d h = ground (arith, str_eq_refl x)
get_or-contains (x ∷ xs) (suc i) d h = ground (arith, get_or-contains xs i d (omega arith))

lookup-reset_arrays :
    (z : String) (m : Dict NodeArray) (nb : NodeArray)
    → Dict.lookup z (reset_arrays m) ≡ some nb
    → (na : NodeArray) × (Dict.lookup z m ≡ some na) × (nb ≡ record na { last_index = 0 })
unfolding reset_arrays Dict.lookup
lookup-reset_arrays z [] nb e = cc
lookup-reset_arrays z ((k, na) ∷ m) nb e = elim (Bool-cases (str_eq k z)) [
  | inl hit ↦ (na, ground arith, ground arith)
  | inr miss ↦ let (nc, p, q) = lookup-reset_arrays z m nb (ground arith) in (nc, ground arith, q)
]

lookup-reset_arrays-none :
    (z : String) (m : Dict NodeArray)
    → Dict.lookup z m ≡ none
    → Dict.lookup z (reset_arrays m) ≡ none
unfolding reset_arrays Dict.lookup
lookup-reset_arrays-none z [] e = refl
lookup-reset_arrays-none z ((k, na) ∷ m) e = ground (arith, lookup-reset_arrays-none z m)

has-reset_arrays : (z : String) (m : Dict NodeArray) → Dict.has z (reset_arrays m) ≡ Dict.has z m
unfolding reset_arrays Dict.has Dict.lookup
has-reset_arrays z [] = refl
has-reset_arrays z ((k, na) ∷ m) = ground (arith, has-reset_arrays z m)

reset_arrays-Distinct : (m : Dict NodeArray) → Dict.Distinct m → Dict.Distinct (reset_arrays m)
unfolding reset_arrays
reset_arrays-Distinct [] d = tt
reset_arrays-Distinct ((k, na) ∷ m) d =
    (lookup-reset_arrays-none k m d.0, reset_arrays-Distinct m d.1)

total-reset_arrays : (m : Dict NodeArray) → total (reset_arrays m) ≡ total m
unfolding reset_arrays total
total-reset_arrays [] = refl
total-reset_arrays ((k, na) ∷ m) = omega (arith, total-reset_arrays m)

pub reset_exhausted-IsTree : (nt : NodeTree) → IsTree nt → IsTree (reset_exhausted nt)
unfolding reset_exhausted
reset_exhausted-IsTree nt t = record {
  distinct = reset_arrays-Distinct nt.tree t.distinct;
  listed = λ z. t.listed z ∙ sym (has-reset_arrays z nt.tree);
  once = t.once;
  arrays = λ z nb e. let (na, p, q) = lookup-reset_arrays z nt.tree nb e in rw q (t.arrays z na p);
  counted = t.counted ∙ sym (total-reset_arrays nt.tree);
}

reset_exhausted-AllFresh : (nt : NodeTree) → AllFresh (reset_exhausted nt).tree
unfolding reset_exhausted
reset_exhausted-AllFresh nt z nb e =
    let (na, p, q) = lookup-reset_arrays z nt.tree nb e in ap (λ (x : NodeArray). x.last_index) q

-- A call that hands out a name of the tree and leaves a tree.
pub record Handed (nt : NodeTree) (r : Outcome) : Type 0 where
  pub name : String
  pub after : NodeTree
  pub result : r ≡ found name after
  pub zone : String
  pub member : has_name zone name nt.tree ≡ true
  pub kept : IsTree after

has_name-step :
    (m : Dict NodeArray) (k : String) (na nb : NodeArray) (zone name : String)
    → Dict.lookup k m ≡ some na
    → nb.nodes ≡ na.nodes
    → has_name zone name (Dict.insert k nb m) ≡ has_name zone name m
unfolding has_name
has_name-step m k na nb zone name e same =
    ground (arith, Dict.lookup-insert k zone nb m, str_eq_iff k zone)

has_name-reset :
    (m : Dict NodeArray) (zone name : String)
    → has_name zone name (reset_arrays m) ≡ has_name zone name m
unfolding has_name reset_arrays Dict.lookup
has_name-reset [] zone name = refl
has_name-reset ((k, na) ∷ m) zone name = ground (arith, has_name-reset m zone name)

-- A result that holds for a later state of the loop, with the same names, holds for this one.
Handed-earlier :
    (nt later : NodeTree) (r : Outcome)
    → ((zone name : String) → has_name zone name later.tree ≡ has_name zone name nt.tree)
    → Handed later r
    → Handed nt r
Handed-earlier nt later r same h = record {
  name = h.name;
  after = h.after;
  result = h.result;
  zone = h.zone;
  member = sym (same h.zone h.name) ∙ h.member;
  kept = h.kept;
}

-- The zone that the round looks at, and its array.
current :
    (nt : NodeTree)
    → IsTree nt
    → 0 < length nt.zones
    → let i = if leb (length nt.zones) nt.zone_index then 0 else nt.zone_index in
      (na : NodeArray) × (Dict.lookup (get_or nt.zones i "") nt.tree ≡ some na)
current nt t pos =
    let i = if leb (length nt.zones) nt.zone_index then 0 else nt.zone_index in
    Dict.has-true _ nt.tree
      (sym (t.listed (get_or nt.zones i "")) ∙ get_or-contains nt.zones i "" (ground arith))

module _ (nt : NodeTree) (zone : String) (na : NodeArray) (i : ℕ) (t : IsTree nt)
    (e : Dict.lookup zone nt.tree ≡ some na) where
  -- The state after a round that handed out nothing.
  abbrev passed : NodeTree
  passed = record nt { zone_index = i; tree = Dict.insert zone na nt.tree }

  -- The state after a round that handed out the array's next name.
  abbrev advanced : NodeTree
  advanced = record nt {
    zone_index = i;
    tree = Dict.insert zone (record na { last_index = na.last_index + 1 }) nt.tree;
  }

  passed-IsTree : IsTree passed
  passed-IsTree =
      put-IsTree nt zone na na i nt.num_nodes t e (t.arrays zone na e).0 (t.arrays zone na e).1 refl

  advanced-IsTree : IsTree advanced
  advanced-IsTree =
      put-IsTree nt zone na (record na { last_index = na.last_index + 1 }) i nt.num_nodes t e
        (t.arrays zone na e).0 (t.arrays zone na e).1 refl

  hand_out :
      na.last_index < length na.nodes
      → Handed nt (found (get_or na.nodes na.last_index "") advanced)
  hand_out h = record {
    name = get_or na.nodes na.last_index "";
    after = advanced;
    result = refl;
    zone = zone;
    member = has_name-some zone _ na nt.tree e ∙ get_or-contains na.nodes na.last_index "" h;
    kept = advanced-IsTree;
  }

not_fresh :
    (nt : NodeTree) (zone : String) (na : NodeArray) (exhausted : ℕ)
    → Dict.lookup zone nt.tree ≡ some na
    → 0 < length na.nodes
    → length na.nodes ≤ na.last_index
    → (exhausted < length nt.zones) ⊎ AllFresh nt.tree
    → exhausted < length nt.zones
not_fresh nt zone na exhausted e pos h (inl below) = below
not_fresh nt zone na exhausted e pos h (inr fresh) = absurd (omega (arith, fresh zone na e))

array_next_more :
    (na : NodeArray)
    → na.last_index < length na.nodes
    → array_next na
      ≡ (get_or na.nodes na.last_index "", false, record na { last_index = na.last_index + 1 })
unfolding array_next
array_next_more na h = ground arith

array_next_done :
    (na : NodeArray)
    → 0 < length na.nodes
    → length na.nodes ≤ na.last_index
    → array_next na ≡ ("", true, na)
unfolding array_next
array_next_done na pos h = ground arith

next_loop_hands :
    (fuel exhausted : ℕ) (nt : NodeTree)
    → IsTree nt
    → 0 < length nt.zones
    → exhausted ≤ length nt.zones
    → (exhausted < length nt.zones) ⊎ AllFresh nt.tree
    → length nt.zones < fuel + exhausted
    → Handed nt (next_loop fuel exhausted nt)
unfolding next_loop reset_exhausted
next_loop_hands zero exhausted nt t pos le fresh enough = absurd (omega arith)
next_loop_hands (suc fuel) exhausted nt t pos le fresh enough =
    let i = if leb (length nt.zones) nt.zone_index then 0 else nt.zone_index in
    let zone = get_or nt.zones i "" in
    let (na, e) = current nt t pos in
    let some_nodes = (t.arrays zone na e).0 in
    elim (Bool-cases (leb (length na.nodes) na.last_index)) [
      | inr left ↦
          let step = array_next_more na (ground arith) in
          rw (e, next_loop, step, step) (hand_out nt zone na (i + 1) t e (ground arith))
      | inl done ↦
          let more_to_come : exhausted < length nt.zones =
            not_fresh nt zone na exhausted e some_nodes (leb→le _ _ done) fresh in
          let next_nt = passed nt zone na (i + 1) t e in
          let next_t = passed-IsTree nt zone na (i + 1) t e in
          let step = array_next_done na some_nodes (leb→le _ _ done) in
          let same = λ (z name : String). has_name-step nt.tree zone na na z name e refl in
          elim (Bool-cases (leb (length nt.zones) (exhausted + 1))) [
            | inl last ↦
                rw (e, next_loop, step, last, step)
                  (Handed-earlier nt (reset_exhausted next_nt) _
                    (λ z name. has_name-reset next_nt.tree z name ∙ same z name)
                    (next_loop_hands fuel (exhausted + 1) (reset_exhausted next_nt)
                      (reset_exhausted-IsTree next_nt next_t) pos (omega arith)
                      (inr (reset_exhausted-AllFresh next_nt)) (omega arith)))
            | inr more ↦
                rw (e, next_loop, step, more, step)
                  (Handed-earlier nt next_nt _ same (
                    next_loop_hands fuel (exhausted + 1) next_nt next_t pos (omega arith)
                      (inl (ground arith)) (omega arith)))
          ]
    ]

-- Next ends, on a well formed tree with zones, with the name of one of its nodes, and keeps the
-- tree well formed: it never uses a zone that the tree lacks and never spins.
pub next_hands : (nt : NodeTree) → IsTree nt → 0 < length nt.zones → Handed nt (next nt)
unfolding next
next_hands nt t pos =
    let some_zones : (length nt.zones == 0) ≡ false = ground arith in
    rw (some_zones, next)
      (next_loop_hands (length nt.zones + 1) 0 nt t pos (omega arith) (inl pos) (omega arith))
