-- ===== src/Util/Heap/Least.antt =====
-- The operations of pkg/scheduler/util/heap.go on a heap: what they hold afterwards, and that Pop and
-- Peek give an object that no other goes in front of.
use ai_scheduler.Prelude.{
  ℕ, ◌<◌, ◌≡◌, ◌≢◌, refl, ◌∙◌, Bool, none, some, String, length, if◌then◌else◌, arith, Option-cases,
  inl, inr, str_eq, str_eq_iff,
}
use ai_scheduler.Prelude.Dict
use ai_scheduler.Util.Heap.{Heap, HeapItem, new_heap, fix, add_key, key_at, get_by_key}
use ai_scheduler.Util.Heap.Places.{index_of}
use ai_scheduler.Util.Heap.Swaps.{places_differ}
use ai_scheduler.Util.Heap.Order.{IsOrder, parent, at_trans, less_at-same}
use ai_scheduler.Util.Heap.Down.{MidInv, sift-Mends}
use ai_scheduler.Util.Heap.Content.{IsHeap, heap_push-IsHeap}

module _ {ℓ} {V : Type ℓ} where
  pub index_of-none :
      (h : Heap V) (key : String) → Dict.lookup key h.items ≡ none → index_of h key ≡ none
  unfolding index_of
  index_of-none h key e = ground arith

  pub index_of-some :
      (h : Heap V) (key : String) (item : HeapItem V)
      → Dict.lookup key h.items ≡ some item
      → index_of h key ≡ some item.index
  unfolding index_of
  index_of-some h key item e = ground arith

  pub get_by_key-none :
      (h : Heap V) (key : String) → Dict.lookup key h.items ≡ none → get_by_key h key ≡ none
  unfolding get_by_key
  get_by_key-none h key e = ground arith

  pub get_by_key-some :
      (h : Heap V) (key : String) (item : HeapItem V)
      → Dict.lookup key h.items ≡ some item
      → get_by_key h key ≡ some item.obj
  unfolding get_by_key
  get_by_key-some h key item e = ground arith

  pub index_of-get :
      (h : Heap V) (key : String) (a : V)
      → get_by_key h key ≡ some a
      → (i : ℕ) × (index_of h key ≡ some i)
  unfolding get_by_key index_of
  index_of-get h key a e = elim (Option-cases (Dict.lookup key h.items)) [
    | inl n ↦ absurd (ground arith)
    | inr (item, s) ↦ (item.index, ground arith)
  ]

module _ {ℓ} {V : Type ℓ} (less : V → V → Bool) where
  -- A heap without objects.
  pub new_heap-IsHeap : IsHeap less (new_heap {V = V})
  unfolding new_heap index_of Dict.lookup
  new_heap-IsHeap = record {
    indexed = record {
      places = λ i p. absurd (ground arith);
      keys = λ key i e. absurd (ground arith);
    };
    ordered = λ c p q. absurd (ground arith);
  }

  -- The objects of `h'` are those of `h`, with this one under its key.
  abbrev pub HasAdded : Heap V → String → V → Heap V → Type ℓ
  HasAdded h key obj h' =
      IsHeap less h'
      × ((j : String) → get_by_key h' j ≡ (if str_eq key j then some obj else get_by_key h j))

  replaced : Heap V → String → HeapItem V → V → Heap V
  replaced h key item obj = record h { items = Dict.insert key (record item { obj = obj }) h.items }

  module _ (o : IsOrder less) where
    get_by_key-replaced :
        (h : Heap V) (key : String) (item : HeapItem V) (obj : V) (j : String)
        → get_by_key (replaced h key item obj) j
          ≡ (if str_eq key j then some obj else get_by_key h j)
    unfolding get_by_key replaced
    get_by_key-replaced h key item obj j =
        ground (arith, Dict.lookup-insert key j (record item { obj = obj }) h.items)

    index_of-replaced :
        (h : Heap V) (key : String) (item : HeapItem V) (obj : V) (j : String)
        → Dict.lookup key h.items ≡ some item
        → index_of (replaced h key item obj) j ≡ index_of h j
    unfolding index_of replaced
    index_of-replaced h key item obj j e =
        ground
          (arith, str_eq_iff key j, Dict.lookup-insert key j (record item { obj = obj }) h.items)

    key_at-replaced :
        (h : Heap V) (key : String) (item : HeapItem V) (obj : V) (i : ℕ)
        → key_at (replaced h key item obj) i ≡ key_at h i
    unfolding key_at replaced
    key_at-replaced h key item obj i = refl

    length-replaced :
        (h : Heap V) (key : String) (item : HeapItem V) (obj : V)
        → length (replaced h key item obj).queue ≡ length h.queue
    unfolding replaced
    length-replaced h key item obj = refl

    replaced-MidInv :
        (h : Heap V) (key : String) (item : HeapItem V) (obj : V)
        → IsHeap less h
        → Dict.lookup key h.items ≡ some item
        → MidInv less o (length h.queue) (replaced h key item obj) item.index
    replaced-MidInv h key item obj x e =
        let n = length-replaced h key item obj in
        let (hi, at) = x.indexed.keys key item.index (index_of-some h key item e) in
        record {
          indexed = record {
            places = λ i p. ground (
              arith,
              key_at-replaced h key item obj i,
              index_of-replaced h key item obj (key_at h i) e,
              x.indexed.places i (omega arith),
            );
            keys = λ j i f. ground (
              arith,
              key_at-replaced h key item obj i,
              index_of-replaced h key item obj j e,
              x.indexed.keys j i,
            );
          };
          bound = omega arith;
          inside = hi;
          edges = λ c p q r s.
              less_at-same less h' h c (parent c) (omega arith) (omega arith) q (omega arith)
                (kept hi at c q r) (kept hi at (parent c) (omega arith) s)
              ∙ x.ordered c p q;
          bridged = λ c p q r s.
              less_at-same less h' h c (parent item.index) (omega arith) (omega arith) q
                (omega arith) (kept hi at c q (ground arith))
                (kept hi at (parent item.index) (omega arith) (ground arith))
              ∙ at_trans less o h x.indexed (parent item.index) item.index c (omega arith) hi q
                  (x.ordered item.index s hi) (ground (arith, x.ordered c p q));
        }
      where
        h' : Heap V
        h' = replaced h key item obj

        kept :
            item.index < length h.queue
            → key_at h item.index ≡ key
            → (i : ℕ) → i < length h.queue
            → i ≢ item.index
            → get_by_key h' (key_at h' i) ≡ get_by_key h (key_at h i)
        kept hi at i p ne = ground (
          arith,
          key_at-replaced h key item obj i,
          get_by_key-replaced h key item obj (key_at h i),
          str_eq_iff key (key_at h i),
          places_differ h i item.index x.indexed p hi,
        )

    -- Heap.Add of a key, new or old, leaves a heap that has the object under its key and the other objects
    -- as they were, where the heap was one and the order is a strict weak order.
    pub add_key-HasAdded :
        (h : Heap V) (key : String) (obj : V)
        → IsHeap less h
        → HasAdded h key obj (add_key less h key obj)
    unfolding add_key fix replaced
    add_key-HasAdded h key obj x = elim (Option-cases (Dict.lookup key h.items)) [
      | inl e ↦ rw (add_key, e) (heap_push-IsHeap less o h key obj x (index_of-none h key e))
      | inr (item, e) ↦
          let (s, ordered) =
            sift-Mends less o (length h.queue) (replaced h key item obj) item.index
              (replaced-MidInv h key item obj x e) in
          rw (add_key, e)
            (
              record {
                indexed = s.indexed;
                ordered = λ c p q. ordered c p (omega (arith, s.size));
              },
              λ j. s.same j ∙ get_by_key-replaced h key item obj j,
            )
    ]
