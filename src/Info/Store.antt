-- ===== src/Info/Store.antt =====
-- The NodeInfoListItems of pkg/scheduler/info/pool_info.go, which the pools of a cache hand to one
-- another: a store of items, with a pointer for each, and the package's generation counter.
use ai_scheduler.Prelude.{ℕ, List, [], ◌∷◌, ◌++◌, Option, none, some, length, get_elem?, set}
use ai_scheduler.Info.NodeInfo.{NodeInfo, new_node_info, next_generation}

pub record NodeInfoListItem : Type 0 where
  pub info : NodeInfo
  pub next : Option ℕ
  pub prev : Option ℕ

pub record Store : Type 0 where
  pub items : List NodeInfoListItem
  pub generation : ℕ

-- newNodeInfoListItem(NewNodeInfo()) with a generation number drawn from `g`.
unfoldable pub new_item : ℕ → NodeInfoListItem
new_item g = record { info = new_node_info g; next = none; prev = none }

-- The item behind a pointer. Every pointer in use was allocated; another one would read a new item.
unfoldable pub item_at : Store → ℕ → NodeInfoListItem
unfolding new_item
item_at s p = elim (get_elem? s.items p) [ none ↦ new_item 0 | some it ↦ it ]

unfoldable pub put_item : Store → ℕ → NodeInfoListItem → Store
put_item s p it = record s { items = set s.items p it }

unfoldable pub set_info : Store → ℕ → NodeInfo → Store
unfolding put_item item_at
set_info s p n = put_item s p (record (item_at s p) { info = n })

unfoldable pub set_next : Store → ℕ → Option ℕ → Store
unfolding put_item item_at
set_next s p q = put_item s p (record (item_at s p) { next = q })

unfoldable pub set_prev : Store → ℕ → Option ℕ → Store
unfolding put_item item_at
set_prev s p q = put_item s p (record (item_at s p) { prev = q })

-- The pointer of the next item that is allocated.
unfoldable pub fresh : Store → ℕ
fresh s = length s.items

unfoldable pub allocate : Store → Store
unfolding new_item
allocate s = record {
  items = s.items ++ new_item s.generation ∷ [];
  generation = next_generation s.generation;
}

-- x.prev.next = q and x.next.prev = q, where the neighbour is not nil.
unfoldable pub set_next_of : Store → Option ℕ → Option ℕ → Store
unfolding set_next
set_next_of s none q = s
set_next_of s (some p) q = set_next s p q

unfoldable pub set_prev_of : Store → Option ℕ → Option ℕ → Store
unfolding set_prev
set_prev_of s none q = s
set_prev_of s (some p) q = set_prev s p q

-- The two assignments that take an item out from between its neighbours.
unfoldable pub unlink : Store → ℕ → Store
unfolding set_next_of set_prev_of item_at
unlink s ni =
    let s' = set_next_of s (item_at s ni).prev (item_at s ni).next in
    set_prev_of s' (item_at s' ni).next (item_at s' ni).prev

-- The assignments that put it before the head.
unfoldable pub push_front : Store → Option ℕ → ℕ → Store
unfolding set_prev_of set_next set_prev
push_front s head ni = set_prev (set_next (set_prev_of s head (some ni)) ni head) ni none
