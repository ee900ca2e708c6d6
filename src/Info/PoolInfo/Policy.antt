-- ===== src/Info/PoolInfo/Policy.antt =====
-- Which pool a pod may borrow and which nodes a pool takes, of pool_info.go.
use ai_scheduler.Prelude.{
  ◌≡◌, refl, ap, ◌↔◌, ◌⊎◌, inl, inr, true, false, List, [], ◌∷◌, none, some, String, str_eq, length,
  ◌==◌, arith, str_eq_iff, ℕ, zero, suc, ◌∙◌, sym, subst, get_elem?, Bool-cases, Option-cases, ◌≢◌,
}
use ai_scheduler.Kube.{Node, Pool, PoolSpec, LabelSelector, External}
use ai_scheduler.Info.PoolInfo.{
  PoolInfo, name, disable_borrowing, disable_sharing, can_borrow_pool, borrows_from,
  slice_contains_string, match_node, is_default_pool, default_pool_name,
}

-- The pool goes by the name: a pool that is not set goes by the empty one.
pub data Named (p : PoolInfo) (n : String) : Type 0 where
  set_to : (q : Pool) → p.pool ≡ some q → q.name ≡ n → Named p n
  no_pool : p.pool ≡ none → n ≡ "" → Named p n

-- Both pools go by one name, or the pool is set and its settings allow borrowing, those of the
-- other, where it is set, allow sharing, and the pool's list is empty or has the other's name.
pub data MayBorrow (p other : PoolInfo) : Type 0 where
  itself : (n : String) → Named p n → Named other n → MayBorrow p other
  listed :
      (q : Pool) (n : String)
      → p.pool ≡ some q
      → Named other n
      → q.spec.disable_borrowing ≡ false
      → ((r : Pool) → other.pool ≡ some r → r.spec.disable_sharing ≡ false)
      → (q.spec.borrowing_pools ≡ []) ⊎ ((i : ℕ) × (get_elem? q.spec.borrowing_pools i ≡ some n))
      → MayBorrow p other

Named-name : (p : PoolInfo) (n : String) → Named p n → name p ≡ n
unfolding name
Named-name p n (set_to q e h) = rw (e) h
Named-name p n (no_pool e h) = rw (e, h)

name-Named : (p : PoolInfo) → Named p (name p)
unfolding name
name-Named p = elim (Option-cases p.pool) [
  | inl e ↦ no_pool e (rw (e))
  | inr (q, e) ↦ set_to q e (rw (e))
]

disable_sharing_lem :
    (p : PoolInfo)
    → (disable_sharing p ≡ false) ↔ ((r : Pool) → p.pool ≡ some r → r.spec.disable_sharing ≡ false)
unfolding disable_sharing
disable_sharing_lem p = (
  (λ h r e. ground arith),
  (λ h. elim (Option-cases p.pool) [ inl e ↦ rw (e) | inr (r, e) ↦ rw (e) (h r e) ]),
)

nil_of_length : (xs : List String) → (length xs == 0) ≡ true → xs ≡ []
nil_of_length [] e = refl
nil_of_length (x ∷ xs) e = absurd (ground arith)

place_of :
    (xs : List String) (s : String)
    → slice_contains_string xs s ≡ true
    → (i : ℕ) × (get_elem? xs i ≡ some s)
unfolding slice_contains_string
place_of [] s h = absurd (ground arith)
place_of (x ∷ xs) s h = elim (Bool-cases (str_eq x s)) [
  | inl e ↦ (0, ap some ((str_eq_iff x s).0 e))
  | inr e ↦ let (i, at) = place_of xs s (ground arith) in (suc i, at)
]

contains_at :
    (xs : List String) (s : String) (i : ℕ)
    → get_elem? xs i ≡ some s
    → slice_contains_string xs s ≡ true
unfolding slice_contains_string
contains_at [] s i h = absurd (ground arith)
contains_at (x ∷ xs) s zero h = ground (arith, str_eq_iff x s)
contains_at (x ∷ xs) s (suc i) h = ground (arith, contains_at xs s i h)

borrows_from_iff :
    (spec : PoolSpec) (other : String)
    → (borrows_from spec other ≡ true)
      ↔ ((spec.borrowing_pools ≡ []) ⊎ ((i : ℕ) × (get_elem? spec.borrowing_pools i ≡ some other)))
unfolding borrows_from
borrows_from_iff spec other = (
  (λ h. elim (Bool-cases (length spec.borrowing_pools == 0)) [
    | inl empty ↦ inl (nil_of_length spec.borrowing_pools empty)
    | inr full ↦ inr (place_of spec.borrowing_pools other (ground arith))
  ]),
  (λ h. elim h [
    | inl empty ↦ rw (ap (length {A = String}) empty)
    | inr (i, at) ↦ let there = contains_at spec.borrowing_pools other i at in ground arith
  ]),
)

can_borrow-MayBorrow : (p other : PoolInfo) → can_borrow_pool p other ≡ true → MayBorrow p other
unfolding can_borrow_pool disable_borrowing
can_borrow-MayBorrow p other h = elim (Bool-cases (str_eq (name p) (name other))) [
  | inl same ↦
      itself (name p) (name-Named p)
        (subst (Named other) (sym ((str_eq_iff _ _).0 same)) (name-Named other))
  | inr other_name ↦ elim (Option-cases p.pool) [
    | inl e ↦ absurd (ground arith)
    | inr (q, e) ↦
        listed q (name other) e (name-Named other) (ground arith)
          ((disable_sharing_lem other).0 (ground arith))
          ((borrows_from_iff q.spec (name other)).0 (ground arith))
  ]
]

MayBorrow-can_borrow : (p other : PoolInfo) → MayBorrow p other → can_borrow_pool p other ≡ true
unfolding can_borrow_pool disable_borrowing
MayBorrow-can_borrow p other (itself n g h) =
    let same = Named-name p n g ∙ sym (Named-name other n h) in
    ground (arith, str_eq_iff (name p) (name other))
MayBorrow-can_borrow p other (listed q n e h borrow share there) =
    let called = Named-name other n h in
    let shares = (disable_sharing_lem other).1 share in
    let on_list = (borrows_from_iff q.spec n).1 there in ground arith

-- CanBorrowPool answers true exactly where both pools go by one name, or the pool is set with
-- borrowing enabled, the other has sharing enabled or is not set, and the other's name is on the
-- pool's list of pools or that list is empty. A pool that is not set goes by the empty name.
pub can_borrow_pool_iff :
    (p other : PoolInfo) → (can_borrow_pool p other ≡ true) ↔ MayBorrow p other
can_borrow_pool_iff p other = (can_borrow-MayBorrow p other, MayBorrow-can_borrow p other)

-- The pool has a name and a selector that the labels of the node match, or one that is not valid.
pub record Takes (ext : External) (p : PoolInfo) (node : Node) : Type 0 where
  pub pool : Pool
  pub selector : LabelSelector
  pub is_set : p.pool ≡ some pool
  pub named : pool.name ≢ default_pool_name
  pub selects : pool.spec.node_selector ≡ some selector
  pub matches :
      (ext.selector_matches selector node.labels ≡ some true)
      ⊎ (ext.selector_matches selector node.labels ≡ none)

-- MatchNode answers true exactly where the pool takes the node. A selector that is not valid
-- matches every node.
pub match_node_iff :
    (ext : External) (p : PoolInfo) (node : Node)
    → (match_node ext p node ≡ true) ↔ Takes ext p node
unfolding match_node is_default_pool name
match_node_iff ext p node = (
  λ h. elim (Option-cases p.pool) [
    | inl unset ↦ absurd (ground arith)
    | inr (q, is_set) ↦ elim (Option-cases q.spec.node_selector) [
      | inl no_selector ↦ absurd (ground arith)
      | inr (selector, selects) ↦ record {
        pool = q;
        selector = selector;
        is_set = is_set;
        named = λ e. ground (arith, (str_eq_iff q.name default_pool_name).1 e);
        selects = selects;
        matches = elim (Option-cases (ext.selector_matches selector node.labels)) [
          | inl bad ↦ inr bad
          | inr (b, good) ↦ inl (ground arith)
        ];
      }
    ]
  ],
  λ t.
      ground
        (arith, t.is_set, t.selects, t.matches, t.named, str_eq_iff t.pool.name default_pool_name),
)
