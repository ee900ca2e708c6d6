-- ===== src/Util/Heap/Keys.antt =====
-- What the operations of pkg/scheduler/util/heap.go do to the objects of a heap and to its keys,
-- whatever the order: also where the order has changed since the objects came in.
use ai_scheduler.Prelude.{
  ℕ, zero, suc, ◌+◌, ◌-◌, ◌*◌, ◌/◌, ◌<◌, ◌≤◌, ◌≡◌, refl, ap, sym, ◌∙◌, subst, Bool, none, some,
  String, length, List, [], ◌∷◌, ltb, leb, ◌==◌, if◌then◌else◌, arith, Bool-cases, Option-cases,
  inl, inr, str_eq, str_eq_iff,
}
use ai_scheduler.Prelude.Dict
use ai_scheduler.Util.Heap.{
  Heap, HeapItem, swap, less_at, up_loop, up, smaller_child, down_loop, down, sift, fix, heap_push,
  to_last, heap_remove, pop, peek, push_last, pop_last, add_key, delete_key, key_at, get_by_key,
}
use ai_scheduler.Util.Heap.Places.{
  IsIndexed, index_of, SameObjects, length-swap, get_by_key-swap, key_at-swap,
}
use ai_scheduler.Util.Heap.Swaps.{
  swap-IsIndexed, push_last-IsIndexed, get_by_key-push_last, length-push_last, length-pop_last,
  pop_last-IsIndexed, get_by_key-pop_last,
}
use ai_scheduler.Util.Heap.Up.{Sifts, Sifts-refl, Sifts-swap}
use ai_scheduler.Util.Heap.Least.{index_of-none, index_of-some, get_by_key-none}

module _ {ℓ} {V : Type ℓ} where
  pub Sifts-trans : (n : ℕ) (h h' h'' : Heap V) → Sifts n h h' → Sifts n h' h'' → Sifts n h h''
  Sifts-trans n h h' h'' s t = record {
    indexed = t.indexed;
    size = t.size ∙ s.size;
    same = λ key. t.same key ∙ s.same key;
    tail = λ k p. t.tail k p ∙ s.tail k p;
  }

module _ {ℓ} {V : Type ℓ} (less : V → V → Bool) where
  up_loop-Sifts :
      (k n : ℕ) (h : Heap V) (j : ℕ)
      → IsIndexed h
      → n ≤ length h.queue
      → j < n
      → Sifts n h (up_loop less k h j)
  unfolding up_loop
  up_loop-Sifts zero n h j x b p = Sifts-refl n h x
  up_loop-Sifts (suc k) n h j x b p =
      let i = (j - 1) / 2 in
      let l = length-swap h i j in
      let hi : i < n = omega arith in
      let moved = Sifts-swap n h (up_loop less k (swap h i j) i) i j b hi p (
        up_loop-Sifts k n (swap h i j) i (swap-IsIndexed h i j x (omega arith) (omega arith))
          (omega arith) hi) in
      elim (Bool-cases (i == j)) [
        | inl e ↦ rw (up_loop, e) (Sifts-refl n h x)
        | inr e ↦ elim (Bool-cases (less_at less h j i)) [
          | inl f ↦ rw (up_loop, e, f) moved
          | inr f ↦ rw (up_loop, e, f) (Sifts-refl n h x)
        ]
      ]

  smaller_child_bound : (h : Heap V) (i n : ℕ) → 2 * i + 1 < n → smaller_child less h i n < n
  unfolding smaller_child
  smaller_child_bound h i n p = ground arith

  down_loop-Sifts :
      (k : ℕ) (h : Heap V) (i n : ℕ)
      → IsIndexed h
      → n ≤ length h.queue
      → i < n
      → Sifts n h (down_loop less k h i n).0
  unfolding down_loop
  down_loop-Sifts zero h i n x b p = Sifts-refl n h x
  down_loop-Sifts (suc k) h i n x b p = elim (Bool-cases (leb n (2 * i + 1))) [
    | inl e ↦ rw (down_loop, e) (Sifts-refl n h x)
    | inr e ↦
        let j = smaller_child less h i n in
        let q : j < n = smaller_child_bound h i n (ground arith) in
        let l = length-swap h i j in
        elim (Bool-cases (less_at less h j i)) [
          | inl f ↦
              rw (down_loop, e, f)
                (Sifts-swap n h (down_loop less k (swap h i j) j n).0 i j b p q (
                  down_loop-Sifts k (swap h i j) j n
                    (swap-IsIndexed h i j x (omega arith) (omega arith)) (omega arith) q))
          | inr f ↦ rw (down_loop, e, f) (Sifts-refl n h x)
        ]
  ]

  down-Sifts :
      (n : ℕ) (h : Heap V) (i : ℕ)
      → IsIndexed h
      → n ≤ length h.queue
      → i < n
      → Sifts n h (down less h i n).0
  unfolding down
  down-Sifts n h i x b p = down_loop-Sifts (suc n) h i n x b p

  down_zero : (h : Heap V) → (down less h 0 0).0 ≡ h
  unfolding down
  down_zero h = refl

  pub sift-Sifts :
      (n : ℕ) (h : Heap V) (i : ℕ)
      → IsIndexed h
      → n ≤ length h.queue
      → i < n
      → Sifts n h (sift less h i n)
  unfolding sift up
  sift-Sifts n h i x b p =
      let s = down-Sifts n h i x b p in
      elim (Bool-cases (down less h i n).1) [
        | inl e ↦ rw (sift, e) s
        | inr e ↦
            let z = s.size in
            rw (sift, e)
              (Sifts-trans n h (down less h i n).0 (up less (down less h i n).0 i) s
                (up_loop-Sifts (i + 1) n (down less h i n).0 i s.indexed (omega arith) p))
      ]

module _ {ℓ} {V : Type ℓ} where
  -- The map and the queue agree, and the objects are those of `h` with this one under its key.
  abbrev pub With : Heap V → String → V → Heap V → Type ℓ
  With h key obj h' =
      IsIndexed h'
      × ((j : String) → get_by_key h' j ≡ (if str_eq key j then some obj else get_by_key h j))

  -- The map and the queue agree, and the objects are those of `h` without the key.
  abbrev pub Without : Heap V → String → Heap V → Type ℓ
  Without h key h' =
      IsIndexed h'
      × ((j : String) → get_by_key h' j ≡ (if str_eq key j then none else get_by_key h j))

  pop_last-Without :
      (h h' : Heap V) (key : String)
      → IsIndexed h'
      → 0 < length h'.queue
      → SameObjects h h'
      → key_at h' (length h'.queue - 1) ≡ key
      → Without h key (pop_last h').0
  pop_last-Without h h' key x p s e =
      (pop_last-IsIndexed h' x p, λ j. ground (arith, get_by_key-pop_last h' j, e, s j))

  replaced-IsIndexed :
      (h : Heap V) (key : String) (item : HeapItem V) (obj : V)
      → IsIndexed h
      → Dict.lookup key h.items ≡ some item
      → IsIndexed (record h { items = Dict.insert key (record item { obj = obj }) h.items })
  unfolding key_at index_of
  replaced-IsIndexed h key item obj x e = record {
    places = λ i p. ground (arith, same_index (key_at h i), x.places i p);
    keys = λ j i f. ground (arith, same_index j, x.keys j i);
  }
    where
      same_index :
          (j : String)
          → index_of (record h { items = Dict.insert key (record item { obj = obj }) h.items }) j
            ≡ index_of h j
      same_index j =
          ground
            (arith, Dict.lookup-insert key j (record item { obj = obj }) h.items, str_eq_iff key j)

  get_by_key-replaced :
      (h : Heap V) (key : String) (item : HeapItem V) (obj : V) (j : String)
      → get_by_key (record h { items = Dict.insert key (record item { obj = obj }) h.items }) j
        ≡ (if str_eq key j then some obj else get_by_key h j)
  unfolding get_by_key
  get_by_key-replaced h key item obj j =
      ground (arith, Dict.lookup-insert key j (record item { obj = obj }) h.items)

  pub peek_root :
      (h : Heap V) (a : V)
      → peek h ≡ some a
      → (0 < length h.queue) × (get_by_key h (key_at h 0) ≡ some a)
  unfolding peek key_at
  peek_root h a e = root h.queue refl
    where
      root :
          (q : List String)
          → h.queue ≡ q
          → (0 < length h.queue) × (get_by_key h (key_at h 0) ≡ some a)
      root [] f = absurd (ground arith)
      root (key ∷ keys) f = (rw (f) (omega arith), ground arith)

  -- Peek is empty for an empty heap only, and else the object at the root.
  pub peek-none : (h : Heap V) → IsIndexed h → peek h ≡ none → length h.queue ≡ 0
  unfolding peek key_at index_of get_by_key
  peek-none h x e = root h.queue refl
    where
      root : (q : List String) → h.queue ≡ q → length h.queue ≡ 0
      root [] f = rw (f) refl
      root (key ∷ keys) f =
          let p : 0 < length h.queue = rw (f) (omega arith) in absurd (ground (arith, x.places 0 p))

module _ {ℓ} {V : Type ℓ} (less : V → V → Bool) where
  heap_push-With :
      (h : Heap V) (key : String) (obj : V)
      → IsIndexed h
      → index_of h key ≡ none
      → With h key obj (heap_push less h key obj)
  unfolding heap_push up
  heap_push-With h key obj x e =
      let n = length-push_last h key obj in
      let s =
        up_loop-Sifts less (length h.queue + 1) (length h.queue + 1) (push_last h key obj)
          (length h.queue) (push_last-IsIndexed h key obj x e) (omega arith) (omega arith) in
      (s.indexed, λ j. s.same j ∙ get_by_key-push_last h key obj j)

  -- Add leaves the object under its key, and the others, whether or not the heap had the key.
  pub add_key-With :
      (h : Heap V) (key : String) (obj : V) → IsIndexed h → With h key obj (add_key less h key obj)
  unfolding add_key fix
  add_key-With h key obj x = elim (Option-cases (Dict.lookup key h.items)) [
    | inl e ↦ rw (add_key, e) (heap_push-With h key obj x (index_of-none h key e))
    | inr (item, e) ↦
        let h' : Heap V = record h {
          items = Dict.insert key (record item { obj = obj }) h.items;
        } in
        let (p, at) = x.keys key item.index (index_of-some h key item e) in
        let s =
          sift-Sifts less (length h.queue) h' item.index (replaced-IsIndexed h key item obj x e)
            (omega arith) p in
        rw (add_key, e) (s.indexed, λ j. s.same j ∙ get_by_key-replaced h key item obj j)
  ]

  -- The entry at place `i` has come to the last place.
  IsLast : Heap V → ℕ → Heap V → Type ℓ
  IsLast h i h' =
      IsIndexed h'
      × (length h'.queue ≡ length h.queue)
      × SameObjects h h'
      × (key_at h' (length h.queue - 1) ≡ key_at h i)

  swap-IsLast :
      (h : Heap V) (i : ℕ) (h' : Heap V)
      → i < length h.queue
      → Sifts (length h.queue - 1) (swap h i (length h.queue - 1)) h'
      → IsLast h i h'
  unfolding IsLast
  swap-IsLast h i h' p s = (
    s.indexed,
    s.size ∙ length-swap h i (length h.queue - 1),
    (λ key. s.same key ∙ get_by_key-swap h i (length h.queue - 1) key),
    s.tail (length h.queue - 1) (omega arith)
        ∙ ground (arith, key_at-swap h i (length h.queue - 1) (length h.queue - 1) p (omega arith)),
  )

  to_last-IsLast :
      (h : Heap V) (i : ℕ) → IsIndexed h → i < length h.queue → IsLast h i (to_last less h i)
  unfolding to_last IsLast
  to_last-IsLast h i x p = elim (Bool-cases (length h.queue - 1 == i)) [
    | inl e ↦ rw (to_last, e) (x, refl, (λ key. refl), ap (key_at h) (ground arith))
    | inr e ↦
        let l = length-swap h i (length h.queue - 1) in
        rw (to_last, e)
          (swap-IsLast h i _ p (
            sift-Sifts less (length h.queue - 1) (swap h i (length h.queue - 1)) i
              (swap-IsIndexed h i (length h.queue - 1) x p (omega arith)) (omega arith)
              (ground arith)))
  ]

  IsLast-Without :
      (h : Heap V) (i : ℕ) (h' : Heap V)
      → i < length h.queue
      → IsLast h i h'
      → Without h (key_at h i) (pop_last h').0 × ((pop_last h').1 ≡ get_by_key h (key_at h i))
  unfolding IsLast pop_last
  IsLast-Without h i h' p (x, size, same, last) =
      let last' : (key_at h' (length h'.queue - 1) ≡ key_at h i) =
        ap (λ m. key_at h' (m - 1)) size ∙ last in
      (
        pop_last-Without h h' (key_at h i) x (omega arith) same last',
        ap (get_by_key h') last' ∙ same (key_at h i),
      )

  -- Delete leaves the other objects.
  pub delete_key-Without :
      (h : Heap V) (key : String) → IsIndexed h → Without h key (delete_key less h key).0
  unfolding delete_key heap_remove
  delete_key-Without h key x = elim (Option-cases (Dict.lookup key h.items)) [
    | inl e ↦
        let g = get_by_key-none h key e in
        rw (delete_key, e) (x, λ j. ground (arith, str_eq_iff key j))
    | inr (item, e) ↦
        let (p, at) = x.keys key item.index (index_of-some h key item e) in
        let r =
          (IsLast-Without h item.index (to_last less h item.index) p
            (to_last-IsLast h item.index x p)).0 in
        rw (delete_key, e) (r.0, λ j. rw (r.1 j, at) refl)
  ]

  pop-IsLast_place :
      (h : Heap V)
      → IsIndexed h
      → 0 < length h.queue
      → IsLast h 0 (down less (swap h 0 (length h.queue - 1)) 0 (length h.queue - 1)).0
  unfolding IsLast
  pop-IsLast_place h x p =
      let n = length h.queue - 1 in
      let l = length-swap h 0 n in
      let w = swap-IsIndexed h 0 n x p (omega arith) in
      elim (Bool-cases (ltb 0 n)) [
        | inl e ↦
            swap-IsLast h 0 _ p (down-Sifts less n (swap h 0 n) 0 w (omega arith) (ground arith))
        | inr e ↦
            let last : (n ≡ 0) = ground arith in
            subst (IsLast h 0)
              (sym (
                subst (λ m. (down less (swap h 0 m) 0 m).0 ≡ swap h 0 m) (sym last)
                  (down_zero less (swap h 0 0))))
              (swap-IsLast h 0 (swap h 0 n) p (Sifts-refl n (swap h 0 n) w))
      ]

  -- Pop takes away what Peek showed.
  pub pop-Without :
      (h : Heap V) (a : V)
      → IsIndexed h
      → peek h ≡ some a
      → (key : String) × (get_by_key h key ≡ some a)
        × Without h key (pop less h).0
        × ((pop less h).1 ≡ some a)
  unfolding pop
  pop-Without h a x e =
      let (p, f) = peek_root h a e in
      let (w, r) = IsLast-Without h 0 _ p (pop-IsLast_place h x p) in (key_at h 0, f, w, r ∙ f)

  pub length-pop :
      (h : Heap V)
      → IsIndexed h
      → 0 < length h.queue
      → suc (length (pop less h).0.queue) ≡ length h.queue
  unfolding pop IsLast
  length-pop h x p =
      let e = (pop-IsLast_place h x p).1 in
      let l =
        length-pop_last (down less (swap h 0 (length h.queue - 1)) 0 (length h.queue - 1)).0 in
      omega arith
