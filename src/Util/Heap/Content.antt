-- ===== src/Util/Heap/Content.antt =====
-- What Add, Delete and Pop of pkg/scheduler/util/heap.go leave in a heap, and that it stays a heap.
use ai_scheduler.Prelude.{
  ℕ, suc, ◌+◌, ◌-◌, ◌<◌, ◌≡◌, refl, ap, ◌∙◌, Bool, none, some, Option, String, length, ◌==◌,
  if◌then◌else◌, arith, Bool-cases, inl, inr, str_eq, str_eq_iff,
}
use ai_scheduler.Util.Heap.{
  Heap, swap, sift, heap_push, to_last, heap_remove, push_last, pop_last, key_at, get_by_key,
}
use ai_scheduler.Util.Heap.Places.{
  IsIndexed, index_of, SameObjects, length-swap, get_by_key-swap, key_at-swap,
}
use ai_scheduler.Util.Heap.Swaps.{
  swap-IsIndexed, places_differ, length-push_last, push_last-IsIndexed, get_by_key-push_last,
  length-pop_last, pop_last-IsIndexed, get_by_key-pop_last, key_at-pop_last, key_at-push_last,
}
use ai_scheduler.Util.Heap.Order.{IsOrder, IsOrdered, parent, less_at-swap, at_trans, less_at-same}
use ai_scheduler.Util.Heap.Up.{UpInv, Mends, up-Mends}
use ai_scheduler.Util.Heap.Down.{MidInv, sift-Mends}

module _ {ℓ} {V : Type ℓ} (less : V → V → Bool) where
  -- The map and the queue agree, and no child goes in front of its parent.
  pub record IsHeap (h : Heap V) : Type ℓ where
    pub indexed : IsIndexed h
    pub ordered : IsOrdered less (length h.queue) h

  module _ (o : IsOrder less) where
    push_last-UpInv :
        (h : Heap V) (key : String) (obj : V)
        → IsHeap h
        → index_of h key ≡ none
        → UpInv less o (length h.queue + 1) (push_last h key obj) (length h.queue)
    push_last-UpInv h key obj x e =
        let n = length-push_last h key obj in
        record {
          indexed = push_last-IsIndexed h key obj x.indexed e;
          bound = omega arith;
          inside = omega arith;
          edges = λ c p q r.
              let old = x.ordered c p (omega arith) in
              less_at-same less (push_last h key obj) h c (parent c) (omega arith) (omega arith)
                (omega arith) (omega arith) (kept c (omega arith)) (kept (parent c) (omega arith))
              ∙ old;
          bridged = λ c p q r s. absurd (omega arith);
        }
      where
        kept :
            (i : ℕ)
            → i < length h.queue
            → get_by_key (push_last h key obj) (key_at (push_last h key obj) i)
              ≡ get_by_key h (key_at h i)
        kept i p =
            let a = x.indexed.places i p in
            ground (
              arith,
              key_at-push_last h key obj i,
              get_by_key-push_last h key obj (key_at h i),
              str_eq_iff key (key_at h i),
            )

    pub heap_push-IsHeap :
        (h : Heap V) (key : String) (obj : V)
        → IsHeap h
        → index_of h key ≡ none
        → IsHeap (heap_push less h key obj)
          × ((j : String)
              → get_by_key (heap_push less h key obj) j
                ≡ (if str_eq key j then some obj else get_by_key h j))
    unfolding heap_push
    heap_push-IsHeap h key obj x e =
        let (s, ordered) =
          up-Mends less o (length h.queue + 1) (push_last h key obj) (length h.queue)
            (push_last-UpInv h key obj x e) in
        (
          record {
            indexed = s.indexed;
            ordered = λ c p q. ordered c p (omega (arith, s.size, length-push_last h key obj));
          },
          λ j. s.same j ∙ get_by_key-push_last h key obj j,
        )

    -- The entry at place `i` has come to the last place, and the others are in order.
    pub record Ends (h : Heap V) (i : ℕ) (h' : Heap V) : Type ℓ where
      pub indexed : IsIndexed h'
      pub size : length h'.queue ≡ length h.queue
      pub same : SameObjects h h'
      pub last : key_at h' (length h.queue - 1) ≡ key_at h i
      pub ordered : IsOrdered less (length h.queue - 1) h'

    abbrev pub IsRemoved : Heap V → String → Heap V × Option V → Type ℓ
    IsRemoved h key r =
        IsHeap r.0
        × ((j : String) → get_by_key r.0 j ≡ (if str_eq key j then none else get_by_key h j))
        × (r.1 ≡ get_by_key h key)

    pub pop_last-IsRemoved :
        (h : Heap V) (i : ℕ) (h' : Heap V)
        → 0 < length h.queue
        → Ends h i h'
        → IsRemoved h (key_at h i) (pop_last h')
    unfolding pop_last
    pop_last-IsRemoved h i h' p e =
        let n = e.size in
        let last' : (key_at h' (length h'.queue - 1) ≡ key_at h i) =
          ap (λ m. key_at h' (m - 1)) e.size ∙ e.last in
        (
          record {
            indexed = pop_last-IsIndexed h' e.indexed (omega arith);
            ordered = λ c q r.
                let m = length-pop_last h' in
                less_at-same less (pop_last h').0 h' c (parent c) r (omega arith) (omega arith)
                  (omega arith) (kept c (omega arith)) (kept (parent c) (omega arith))
                ∙ e.ordered c q (omega arith);
          },
          λ j. ground (arith, get_by_key-pop_last h' j, last', e.same j),
          popped last',
        )
      where
        kept :
            (c : ℕ)
            → suc c < length h'.queue
            → get_by_key (pop_last h').0 (key_at (pop_last h').0 c) ≡ get_by_key h' (key_at h' c)
        kept c q = ground (
          arith,
          key_at-pop_last h' c q,
          get_by_key-pop_last h' (key_at h' c),
          str_eq_iff (key_at h' (length h'.queue - 1)) (key_at h' c),
          places_differ h' (length h'.queue - 1) c e.indexed (omega arith) (omega arith),
        )

        popped :
            key_at h' (length h'.queue - 1) ≡ key_at h i
            → (pop_last h').1 ≡ get_by_key h (key_at h i)
        popped l = ap (get_by_key h') l ∙ e.same (key_at h i)

    -- The last entry has taken the place `i`.
    pub swap-MidInv :
        (h : Heap V) (i : ℕ)
        → IsHeap h
        → i < length h.queue - 1
        → MidInv less o (length h.queue - 1) (swap h i (length h.queue - 1)) i
    swap-MidInv h i x p =
        let n = length-swap h i (length h.queue - 1) in
        record {
          indexed = swap-IsIndexed h i (length h.queue - 1) x.indexed (omega arith) (omega arith);
          bound = omega arith;
          inside = p;
          edges = λ c q r s t. ground (
            arith,
            less_at-swap less h i (length h.queue - 1) c (parent c) (omega arith) (omega arith)
                (omega arith) (omega arith),
            x.ordered c q (omega arith),
          );
          bridged = λ c q r s t. ground (
            arith,
            less_at-swap less h i (length h.queue - 1) c (parent i) (omega arith) (omega arith)
                (omega arith) (omega arith),
            x.ordered c q (omega arith),
            x.ordered i t (omega arith),
            at_trans less o h x.indexed (parent i) i c (omega arith) (omega arith) (omega arith),
          );
        }

    pub Mends-Ends :
        (h : Heap V) (i : ℕ) (h' : Heap V)
        → i < length h.queue
        → Mends less o (length h.queue - 1) (swap h i (length h.queue - 1)) h'
        → Ends h i h'
    Mends-Ends h i h' p m =
        let s = m.0 in
        record {
          indexed = s.indexed;
          size = s.size ∙ length-swap h i (length h.queue - 1);
          same = λ key. s.same key ∙ get_by_key-swap h i (length h.queue - 1) key;
          last =
              s.tail (length h.queue - 1) (omega arith)
              ∙ ground (
                arith,
                key_at-swap h i (length h.queue - 1) (length h.queue - 1) p (omega arith),
              );
          ordered = m.1;
        }

    to_last-Ends :
        (h : Heap V) (i : ℕ) → IsHeap h → i < length h.queue → Ends h i (to_last less h i)
    unfolding to_last
    to_last-Ends h i x p = elim (Bool-cases (length h.queue - 1 == i)) [
      | inl e ↦
          rw (to_last, e)
            (record {
              indexed = x.indexed;
              size = refl;
              same = λ key. refl;
              last = ap (key_at h) (ground arith);
              ordered = λ c q r. x.ordered c q (omega arith);
            })
      | inr e ↦
          rw (to_last, e)
            (Mends-Ends h i (sift less (swap h i (length h.queue - 1)) i (length h.queue - 1)) p (
              sift-Mends less o (length h.queue - 1) (swap h i (length h.queue - 1)) i
                (swap-MidInv h i x (ground arith))))
    ]

    pub heap_remove-IsRemoved :
        (h : Heap V) (i : ℕ)
        → IsHeap h
        → i < length h.queue
        → IsRemoved h (key_at h i) (heap_remove less h i)
    unfolding heap_remove
    heap_remove-IsRemoved h i x p =
        pop_last-IsRemoved h i (to_last less h i) (omega arith) (to_last-Ends h i x p)
