-- ===== src/Util/Heap/Laws.antt =====
-- The methods of a Heap of pkg/scheduler/util/heap.go, as its clients see them.
use ai_scheduler.Prelude.{
  ◌-◌, ◌<◌, ◌≡◌, refl, ap, sym, ◌∙◌, subst, Bool, false, none, some, Option, String, length, List,
  [], ◌∷◌, ltb, if◌then◌else◌, arith, Bool-cases, Option-cases, inl, inr, str_eq, str_eq_iff,
}
use ai_scheduler.Prelude.Dict
use ai_scheduler.Util.Heap.{
  Heap, not_found, swap, pop, peek, add_key_if_not_present, delete_key, key_at, get_by_key, down,
}
use ai_scheduler.Util.Heap.Swaps.{swap-IsIndexed}
use ai_scheduler.Util.Heap.Order.{IsOrder, less_at-lem, root_least, object_at}
use ai_scheduler.Util.Heap.Up.{Sifts-refl}
use ai_scheduler.Util.Heap.Down.{down-Mends}
use ai_scheduler.Util.Heap.Content.{
  IsHeap, heap_push-IsHeap, Ends, pop_last-IsRemoved, swap-MidInv, Mends-Ends,
  heap_remove-IsRemoved,
}
use ai_scheduler.Util.Heap.Least.{
  index_of-none, index_of-some, get_by_key-none, get_by_key-some, index_of-get,
}

module _ {ℓ} {V : Type ℓ} where
  peek_root :
      (h : Heap V) (a : V)
      → peek h ≡ some a
      → (0 < length h.queue) × (get_by_key h (key_at h 0) ≡ some a)
  unfolding peek key_at
  peek_root h a e = root h.queue refl
    where
      root :
          (q : List String)
          → h.queue ≡ q
          → (0 < length h.queue) × (get_by_key h (key_at h 0) ≡ some a)
      root [] f = absurd (ground arith)
      root (key ∷ keys) f = (rw (f) (omega arith), ground arith)

module _ {ℓ} {V : Type ℓ} (less : V → V → Bool) where
  -- The objects of `h'` are those of `h` without the key.
  abbrev pub HasDeleted : Heap V → String → Heap V → Type ℓ
  HasDeleted h key h' =
      IsHeap less h'
      × ((j : String) → get_by_key h' j ≡ (if str_eq key j then none else get_by_key h j))

  module _ (o : IsOrder less) where
    -- Deleting a key leaves a heap of the other objects, and is an error exactly where the heap has no
    -- such key.
    pub delete_key-HasDeleted :
        (h : Heap V) (key : String)
        → IsHeap less h
        → HasDeleted h key (delete_key less h key).0
          × ((delete_key less h key).1
              ≡ elim (get_by_key h key) [ none ↦ some not_found | some a ↦ none ])
    unfolding delete_key
    delete_key-HasDeleted h key x = elim (Option-cases (Dict.lookup key h.items)) [
      | inl e ↦
          let g = get_by_key-none h key e in
          rw (delete_key, e, g) ((x, (λ j. ground (arith, str_eq_iff key j))), refl)
      | inr (item, e) ↦
          let (p, at) = x.indexed.keys key item.index (index_of-some h key item e) in
          let r = heap_remove-IsRemoved less o h item.index x p in
          let g = get_by_key-some h key item e in
          rw (delete_key, e, g) ((r.0, (λ j. rw (r.1 j, at) refl)), refl)
    ]

    -- A key that the heap has is left alone.
    pub add_key_if_not_present-IsHeap :
        (h : Heap V) (key : String) (obj : V)
        → IsHeap less h
        → IsHeap less (add_key_if_not_present less h key obj)
          × ((j : String)
              → get_by_key (add_key_if_not_present less h key obj) j ≡ elim (get_by_key h j) [
                | some a ↦ some a
                | none ↦ if str_eq key j then some obj else none
              ])
    unfolding add_key_if_not_present
    add_key_if_not_present-IsHeap h key obj x = elim (Option-cases (Dict.lookup key h.items)) [
      | inl e ↦
          let r = heap_push-IsHeap less o h key obj x (index_of-none h key e) in
          rw (add_key_if_not_present, e)
            (r.0, (λ j. ground (arith, r.1 j, str_eq_iff key j, get_by_key-none h key e)))
      | inr (item, e) ↦
          rw (add_key_if_not_present, e)
            (x, (λ j. ground (arith, str_eq_iff key j, get_by_key-some h key item e)))
    ]

    down_zero : (h : Heap V) → (down less h 0 0).0 ≡ h
    unfolding down
    down_zero h = refl

    pop-Ends :
        (h : Heap V)
        → IsHeap less h
        → 0 < length h.queue
        → Ends less o h 0 (down less (swap h 0 (length h.queue - 1)) 0 (length h.queue - 1)).0
    pop-Ends h x p = elim (Bool-cases (ltb 0 (length h.queue - 1))) [
      | inl e ↦ Mends-Ends less o h 0 _ p (
          down-Mends less o (length h.queue - 1) (swap h 0 (length h.queue - 1))
            (swap-MidInv less o h 0 x (ground arith)))
      | inr e ↦
          let last : (length h.queue - 1 ≡ 0) = ground arith in
          let stays =
            subst (λ n. (down less (swap h 0 n) 0 n).0 ≡ swap h 0 n) (sym last)
              (down_zero (swap h 0 0)) in
          subst (Ends less o h 0) (sym stays) (
            Mends-Ends less o h 0 (swap h 0 (length h.queue - 1)) p (
              Sifts-refl (length h.queue - 1) (swap h 0 (length h.queue - 1))
                  (swap-IsIndexed h 0 (length h.queue - 1) x.indexed p (omega arith)),
              λ c q r. absurd (omega arith),
            ))
    ]

    -- No object of the heap goes in front of this one.
    abbrev pub IsLeast : Heap V → V → Type ℓ
    IsLeast h a = (key : String) (b : V) → get_by_key h key ≡ some b → less b a ≡ false

    root-IsLeast :
        (h : Heap V) (a : V)
        → IsHeap less h
        → 0 < length h.queue
        → get_by_key h (key_at h 0) ≡ some a
        → IsLeast h a
    root-IsLeast h a x p e key b f =
        let (i, g) = index_of-get h key b f in
        let (q, at) = x.indexed.keys key i g in
        sym (less_at-lem less h i 0 b a q p (ap (get_by_key h) at ∙ f) e)
        ∙ root_least less o h x.indexed i x.ordered q

    -- What Pop of a heap that is not empty returns and leaves.
    pub record Popped (h : Heap V) (r : Heap V × Option V) : Type ℓ where
      pub key : String
      pub obj : V
      pub had : get_by_key h key ≡ some obj
      pub result : r.1 ≡ some obj
      pub least : IsLeast h obj
      pub left : HasDeleted h key r.0

    -- Pop of a heap that is not empty returns an object that no other goes in front of, and leaves a
    -- heap of the others.
    pub pop-Popped : (h : Heap V) → IsHeap less h → 0 < length h.queue → Popped h (pop less h)
    unfolding pop
    pop-Popped h x p =
        let (a, e) = object_at h 0 x.indexed p in
        let r = pop_last-IsRemoved less o h 0 _ p (pop-Ends h x p) in
        record {
          key = key_at h 0;
          obj = a;
          had = e;
          result = r.2 ∙ e;
          least = root-IsLeast h a x p e;
          left = (r.0, r.1);
        }

    -- Peek is empty for an empty heap only; what it gives is an object of the heap, and no other goes in
    -- front of it.
    pub peek-IsLeast :
        (h : Heap V) (a : V)
        → IsHeap less h
        → peek h ≡ some a
        → (get_by_key h (key_at h 0) ≡ some a) × IsLeast h a
    peek-IsLeast h a x e = let (p, q) = peek_root h a e in (q, root-IsLeast h a x p q)
