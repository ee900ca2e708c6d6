-- ===== src/Util/Heap/Places.antt =====
-- The map and the queue of a heap agree, and what the assignments to the map do to both.
use ai_scheduler.Prelude.{
  ℕ, ◌<◌, ◌≡◌, refl, ap, ◌∙◌, List, none, some, Option, String, length, set, ◌==◌, if◌then◌else◌,
  arith, str_eq, str_eq_iff, Option-cases, inl, inr, length-set, get_elem?-set,
}
use ai_scheduler.Prelude.Dict
use ai_scheduler.Prelude.Dict.{Dict}
use ai_scheduler.Util.Heap.{Heap, key_at, get_by_key, set_index, swap}

module _ {ℓ} {V : Type ℓ} where
  unfoldable pub index_of : Heap V → String → Option ℕ
  index_of h key = elim (Dict.lookup key h.items) [ none ↦ none | some item ↦ some item.index ]

  -- Each place of the queue is that of its key, and each key is at its place.
  pub record IsIndexed (h : Heap V) : Type ℓ where
    pub places : (i : ℕ) → i < length h.queue → index_of h (key_at h i) ≡ some i
    pub keys :
        (key : String) (i : ℕ) → index_of h key ≡ some i → (i < length h.queue) × (key_at h i ≡ key)

  -- The same objects under the same keys.
  abbrev pub SameObjects : Heap V → Heap V → Type ℓ
  SameObjects h h' = (key : String) → get_by_key h' key ≡ get_by_key h key

  pub index_of-set_index :
      (h : Heap V) (k : String) (i x : ℕ) (j : String)
      → index_of h k ≡ some x
      → index_of (set_index h k i) j ≡ (if str_eq k j then some i else index_of h j)
  unfolding index_of set_index
  index_of-set_index h k i x j e = elim (Option-cases (Dict.lookup k h.items)) [
    | inl n ↦ absurd (ground arith)
    | inr (item, s) ↦ ground (arith, Dict.lookup-insert k j (record item { index = i }) h.items)
  ]

  pub get_by_key-set_index : (h : Heap V) (k : String) (i : ℕ) → SameObjects h (set_index h k i)
  unfolding get_by_key set_index
  get_by_key-set_index h k i j = elim (Option-cases (Dict.lookup k h.items)) [
    | inl n ↦ ground arith
    | inr (item, s) ↦
        ground (arith, Dict.lookup-insert k j (record item { index = i }) h.items, str_eq_iff k j)
  ]

  pub queue-set_index : (h : Heap V) (k : String) (i : ℕ) → (set_index h k i).queue ≡ h.queue
  unfolding set_index
  queue-set_index h k i = elim (Option-cases (Dict.lookup k h.items)) [
    | inl n ↦ rw (set_index, n) refl
    | inr (item, s) ↦ rw (set_index, s) refl
  ]

  pub queue-swap :
      (h : Heap V) (i j : ℕ) → (swap h i j).queue ≡ set (set h.queue i (key_at h j)) j (key_at h i)
  unfolding swap
  queue-swap h i j = queue-set_index _ _ _ ∙ queue-set_index _ _ _

  pub length-swap : (h : Heap V) (i j : ℕ) → length (swap h i j).queue ≡ length h.queue
  length-swap h i j =
      ap (length {A = String}) (queue-swap h i j)
      ∙ (length-set (set h.queue i (key_at h j)) j (key_at h i) ∙ length-set h.queue i (key_at h j))

  pub key_at-swap :
      (h : Heap V) (i j k : ℕ)
      → i < length h.queue
      → j < length h.queue
      → key_at (swap h i j) k
        ≡ (if k == j then key_at h i else if k == i then key_at h j else key_at h k)
  unfolding key_at
  key_at-swap h i j k hi hj = rw (queue-swap h i j) (
      ground (
        arith,
        get_elem?-set (set h.queue i (key_at h j)) j k (key_at h i),
        get_elem?-set h.queue i k (key_at h j),
        length-set h.queue i (key_at h j),
      ))

  pub get_by_key-swap : (h : Heap V) (i j : ℕ) → SameObjects h (swap h i j)
  unfolding swap get_by_key
  get_by_key-swap h i j key = get_by_key-set_index _ _ _ key ∙ get_by_key-set_index _ _ _ key

  index_of_queue :
      (h : Heap V) (q : List String) (key : String)
      → index_of (record h { queue = q }) key ≡ index_of h key
  unfolding index_of
  index_of_queue h q key = refl

  pub index_of-swap :
      (h : Heap V) (i j : ℕ) (key : String)
      → IsIndexed h
      → i < length h.queue
      → j < length h.queue
      → index_of (swap h i j) key ≡ (
          if str_eq (key_at h i) key
          then some j
          else if str_eq (key_at h j) key
          then some i
          else index_of h key)
  unfolding swap
  index_of-swap h i j key x hi hj =
      let h' : Heap V = record h { queue = set (set h.queue i (key_at h j)) j (key_at h i) } in
      let first = index_of-set_index h' (key_at h j) i j in
      let at_j = index_of_queue h h'.queue (key_at h j) ∙ x.places j hj in
      let at_i : (index_of (set_index h' (key_at h j) i) (key_at h i) ≡ some i) =
        ground (
          arith,
          first (key_at h i) at_j,
          index_of_queue h h'.queue (key_at h i) ∙ x.places i hi,
        ) in
      index_of-set_index (set_index h' (key_at h j) i) (key_at h i) j i key at_i
      ∙ ground (arith, first key at_j, index_of_queue h h'.queue key)
