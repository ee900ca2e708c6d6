-- ===== src/Util/Heap.antt =====
-- pkg/scheduler/util/heap.go: a binary heap of the keys of its objects, beside a map from each key to
-- the object and its place. The operations of Go's container/heap that it calls are written out with
-- it, on Less, Swap, Push and Pop. `key_func` and `less` are the two functions that a Heap is made with.
pub mod Places
pub mod Swaps
pub mod Order
pub mod Up
pub mod Keys
pub mod Down
pub mod Content
pub mod Least
pub mod Laws
use ai_scheduler.Prelude.{
  ℕ, zero, suc, ◌+◌, ◌-◌, ◌*◌, ◌/◌, Bool, true, false, List, [], ◌∷◌, ◌++◌, none, some, Option,
  String, length, get_elem?, set, ltb, leb, ◌==◌, if◌then◌else◌,
}
use ai_scheduler.Prelude.Dict
use ai_scheduler.Prelude.Dict.{Dict}

pub record HeapItem {ℓ} (V : Type ℓ) : Type ℓ where
  pub obj : V
  pub index : ℕ

pub record Heap {ℓ} (V : Type ℓ) : Type ℓ where
  pub items : Dict (HeapItem V)
  pub queue : List String

-- How Delete ends.
pub data HeapError : Type 0 where
  key_error not_found : HeapError

-- h.queue[0 : len(h.queue)-1]
unfoldable pub drop_last : List String → List String
drop_last [] = []
drop_last (x ∷ []) = []
drop_last (x ∷ y ∷ xs) = x ∷ drop_last (y ∷ xs)

module _ {ℓ} {V : Type ℓ} where
  unfoldable pub new_heap : Heap V
  new_heap = record { items = []; queue = [] }

  unfoldable pub len : Heap V → ℕ
  len h = length h.queue

  -- h.queue[i]. Every index below is within the queue; one that is not would read the empty key.
  unfoldable pub key_at : Heap V → ℕ → String
  key_at h i = elim (get_elem? h.queue i) [ none ↦ "" | some key ↦ key ]

  unfoldable pub get_by_key : Heap V → String → Option V
  get_by_key h key = elim (Dict.lookup key h.items) [ none ↦ none | some item ↦ some item.obj ]

  -- item.index = i, for the item of a key.
  unfoldable pub set_index : Heap V → String → ℕ → Heap V
  set_index h key i = elim (Dict.lookup key h.items) [
    | none ↦ h
    | some item ↦ record h { items = Dict.insert key (record item { index = i }) h.items }
  ]

  unfoldable pub swap : Heap V → ℕ → ℕ → Heap V
  unfolding set_index
  swap h i j =
      let a = key_at h i in
      let b = key_at h j in
      let h' : Heap V = record h { queue = set (set h.queue i b) j a } in
      set_index (set_index h' b i) a j

  unfoldable pub push_last : Heap V → String → V → Heap V
  push_last h key obj = record {
    items = Dict.insert key (record { obj = obj; index = length h.queue }) h.items;
    queue = h.queue ++ key ∷ [];
  }

  -- heapData.Pop: the last key, and its object where it has one.
  unfoldable pub pop_last : Heap V → Heap V × Option V
  unfolding drop_last
  pop_last h =
      let key = key_at h (length h.queue - 1) in
      (record { items = Dict.remove key h.items; queue = drop_last h.queue }, get_by_key h key)

  unfoldable pub peek : Heap V → Option V
  peek h = elim h.queue [ [] ↦ none | key ∷ keys ↦ get_by_key h key ]

  unfoldable pub list : Heap V → List V
  list h = objects h.items
    where
      objects : Dict (HeapItem V) → List V
      objects [] = []
      objects ((key, item) ∷ items) = item.obj ∷ objects items

  module _ (less : V → V → Bool) where
    -- Less(i, j)
    unfoldable pub less_at : Heap V → ℕ → ℕ → Bool
    less_at h i j =
        if ltb (length h.queue) i
        then false
        else if ltb (length h.queue) j
        then false
        else elim (get_by_key h (key_at h i)) [
          | none ↦ false
          | some a ↦ elim (get_by_key h (key_at h j)) [ none ↦ false | some b ↦ less a b ]
        ]

    -- container/heap. `up` and `down` run on fuel: the place of `up` falls, that of `down` grows.
    unfoldable pub up_loop : ℕ → Heap V → ℕ → Heap V
    up_loop zero h j = h
    up_loop (suc k) h j =
        let i = (j - 1) / 2 in
        let rest = up_loop k (swap h i j) i in
        if i == j then h else if less_at h j i then rest else h

    unfoldable pub up : Heap V → ℕ → Heap V
    unfolding up_loop
    up h j = up_loop (j + 1) h j

    -- The smaller child of a place whose left child is below n.
    unfoldable pub smaller_child : Heap V → ℕ → ℕ → ℕ
    smaller_child h i n =
        let left = 2 * i + 1 in
        let right = left + 1 in
        if ltb right n then if less_at h right left then right else left else left

    -- The place where the loop stops.
    unfoldable pub down_loop : ℕ → Heap V → ℕ → ℕ → Heap V × ℕ
    unfolding smaller_child
    down_loop zero h i n = (h, i)
    down_loop (suc k) h i n =
        let j = smaller_child h i n in
        let rest = down_loop k (swap h i j) j n in
        if leb n (2 * i + 1) then (h, i) else if less_at h j i then rest else (h, i)

    -- The Bool is whether the entry has moved.
    unfoldable pub down : Heap V → ℕ → ℕ → Heap V × Bool
    unfolding down_loop
    down h i n = let r = down_loop (suc n) h i n in (r.0, ltb i r.1)

    -- if !down(h, i, n) { up(h, i) }
    unfoldable pub sift : Heap V → ℕ → ℕ → Heap V
    unfolding up down
    sift h i n = let r = down h i n in if r.1 then r.0 else up r.0 i

    unfoldable pub fix : Heap V → ℕ → Heap V
    unfolding sift
    fix h i = sift h i (length h.queue)

    unfoldable pub heap_push : Heap V → String → V → Heap V
    unfolding up
    heap_push h key obj = up (push_last h key obj) (length h.queue)

    -- heap.Remove, before the call of Pop.
    unfoldable pub to_last : Heap V → ℕ → Heap V
    unfolding sift
    to_last h i = let n = length h.queue - 1 in if n == i then h else sift (swap h i n) i n

    unfoldable pub heap_remove : Heap V → ℕ → Heap V × Option V
    unfolding to_last pop_last
    heap_remove h i = pop_last (to_last h i)

    -- Heap.Pop of a heap that is not empty: on an empty one Swap(0, -1) ends the process. The object is
    -- `none` where Pop returns its error.
    unfoldable pub pop : Heap V → Heap V × Option V
    unfolding down pop_last
    pop h = let n = length h.queue - 1 in pop_last (down (swap h 0 n) 0 n).0

    -- Heap.Add, once the key is known.
    unfoldable pub add_key : Heap V → String → V → Heap V
    unfolding fix heap_push
    add_key h key obj = elim (Dict.lookup key h.items) [
      | none ↦ heap_push h key obj
      | some item ↦
          fix (record h { items = Dict.insert key (record item { obj = obj }) h.items }) item.index
    ]

    unfoldable pub add_key_if_not_present : Heap V → String → V → Heap V
    unfolding heap_push
    add_key_if_not_present h key obj = elim (Dict.lookup key h.items) [
      | none ↦ heap_push h key obj
      | some item ↦ h
    ]

    unfoldable pub delete_key : Heap V → String → Heap V × Option HeapError
    unfolding heap_remove
    delete_key h key = elim (Dict.lookup key h.items) [
      | none ↦ (h, some HeapError.not_found)
      | some item ↦ ((heap_remove h item.index).0, none)
    ]

    module _ (key_func : V → Option String) where
      unfoldable pub add : Heap V → V → Heap V × Option HeapError
      unfolding add_key
      add h obj = elim (key_func obj) [
        | none ↦ (h, some HeapError.key_error)
        | some key ↦ (add_key h key obj, none)
      ]

      unfoldable pub add_if_not_present : Heap V → V → Heap V × Option HeapError
      unfolding add_key_if_not_present
      add_if_not_present h obj = elim (key_func obj) [
        | none ↦ (h, some HeapError.key_error)
        | some key ↦ (add_key_if_not_present h key obj, none)
      ]

      unfoldable pub update : Heap V → V → Heap V × Option HeapError
      unfolding add
      update h obj = add h obj

      unfoldable pub delete : Heap V → V → Heap V × Option HeapError
      unfolding delete_key
      delete h obj = elim (key_func obj) [
        | none ↦ (h, some HeapError.key_error)
        | some key ↦ delete_key h key
      ]

  -- Get, with `none` for a missing item and for a key error: the callers look at the object only.
  unfoldable pub get : (V → Option String) → Heap V → V → Option V
  get key_func h obj = elim (key_func obj) [ none ↦ none | some key ↦ get_by_key h key ]
