-- ===== src/Util/Heap/Order.antt =====
-- The order of a heap: what Less sees of two places, and how Swap moves it.
use ai_scheduler.Prelude.{
  ℕ, zero, suc, ◌-◌, ◌/◌, ◌<◌, ◌≡◌, ap, sym, ◌∙◌, Bool, true, false, none, some, Option, length,
  ◌==◌, if◌then◌else◌, arith, Option-cases, Bool-cases, inl, inr,
}
use ai_scheduler.Prelude.Dict
use ai_scheduler.Util.Heap.{Heap, key_at, get_by_key, swap, less_at}
use ai_scheduler.Util.Heap.Places.{IsIndexed, index_of, key_at-swap, get_by_key-swap, length-swap}

-- Where Swap takes a place from.
abbrev pub swapped : ℕ → ℕ → ℕ → ℕ
swapped i j k = if k == j then i else if k == i then j else k

abbrev pub parent : ℕ → ℕ
parent c = (c - 1) / 2

-- `less x y` is a strict weak order: x goes in front of y.
pub record IsOrder {ℓ} {V : Type ℓ} (less : V → V → Bool) : Type ℓ where
  pub asym : (x y : V) → less x y ≡ true → less y x ≡ false
  pub trans : (x y z : V) → less y x ≡ false → less z y ≡ false → less z x ≡ false

module _ {ℓ} {V : Type ℓ} where
  -- Every place holds an object.
  pub object_at :
      (h : Heap V) (i : ℕ)
      → IsIndexed h
      → i < length h.queue
      → (a : V) × (get_by_key h (key_at h i) ≡ some a)
  unfolding get_by_key index_of
  object_at h i x p = elim (Option-cases (Dict.lookup (key_at h i) h.items)) [
    | inl e ↦ let q = x.places i p in absurd (ground arith)
    | inr (item, e) ↦ (item.obj, ground arith)
  ]

  pub key_at-swapped :
      (h : Heap V) (i j k : ℕ)
      → i < length h.queue
      → j < length h.queue
      → key_at (swap h i j) k ≡ key_at h (swapped i j k)
  key_at-swapped h i j k hi hj = ground (arith, key_at-swap h i j k hi hj)

module _ {ℓ} {V : Type ℓ} (less : V → V → Bool) where
  pub less_at-lem :
      (h : Heap V) (i j : ℕ) (a b : V)
      → i < length h.queue
      → j < length h.queue
      → get_by_key h (key_at h i) ≡ some a
      → get_by_key h (key_at h j) ≡ some b
      → less_at less h i j ≡ less a b
  unfolding less_at
  less_at-lem h i j a b p q e f = ground arith

  abbrev less_value : Option V → Option V → Bool
  less_value none q = false
  less_value (some a) none = false
  less_value (some a) (some b) = less a b

  abbrev value : Heap V → ℕ → Option V
  value h i = get_by_key h (key_at h i)

  less_at-value :
      (h : Heap V) (i j : ℕ)
      → i < length h.queue
      → j < length h.queue
      → less_at less h i j ≡ less_value (value h i) (value h j)
  unfolding less_at
  less_at-value h i j p q = elim (Option-cases (value h i)) [
    | inl e ↦ ground arith
    | inr (a, e) ↦ elim (Option-cases (value h j)) [
      | inl f ↦ ground arith
      | inr (b, f) ↦ ground arith
    ]
  ]

  value-swap :
      (h : Heap V) (i j k : ℕ)
      → i < length h.queue
      → j < length h.queue
      → value (swap h i j) k ≡ value h (swapped i j k)
  value-swap h i j k hi hj =
      get_by_key-swap h i j (key_at (swap h i j) k)
      ∙ ap (get_by_key h) (key_at-swapped h i j k hi hj)

  pub less_at-swap :
      (h : Heap V) (i j k l : ℕ)
      → i < length h.queue
      → j < length h.queue
      → k < length h.queue
      → l < length h.queue
      → less_at less (swap h i j) k l ≡ less_at less h (swapped i j k) (swapped i j l)
  less_at-swap h i j k l hi hj hk hl =
      let n = length-swap h i j in
      less_at-value (swap h i j) k l (omega arith) (omega arith)
      ∙ (ap (λ a. less_value a (value (swap h i j) l)) (value-swap h i j k hi hj)
          ∙ (ap (less_value (value h (swapped i j k))) (value-swap h i j l hi hj)
              ∙ sym
                  (less_at-value h (swapped i j k) (swapped i j l) (ground arith) (ground arith))))

  -- The edges from the places below `n` to their parents are in order.
  abbrev pub IsOrdered : ℕ → Heap V → Type 0
  IsOrdered n h = (c : ℕ) → 0 < c → c < n → less_at less h c (parent c) ≡ false

  module _ (o : IsOrder less) (h : Heap V) (x : IsIndexed h) where
    pub at-asym :
        (i j : ℕ)
        → i < length h.queue
        → j < length h.queue
        → less_at less h i j ≡ true
        → less_at less h j i ≡ false
    at-asym i j p q e =
        let (a, ea) = object_at h i x p in
        let (b, eb) = object_at h j x q in
        ground (arith, less_at-lem h i j a b p q ea eb, less_at-lem h j i b a q p eb ea, o.asym a b)

    pub at_trans :
        (i j k : ℕ)
        → i < length h.queue
        → j < length h.queue
        → k < length h.queue
        → less_at less h j i ≡ false
        → less_at less h k j ≡ false
        → less_at less h k i ≡ false
    at_trans i j k p q r e f =
        let (a, ea) = object_at h i x p in
        let (b, eb) = object_at h j x q in
        let (c, ec) = object_at h k x r in
        ground (
          arith,
          less_at-lem h j i b a q p eb ea,
          less_at-lem h k j c b r q ec eb,
          less_at-lem h k i c a r p ec ea,
          o.trans a b c,
        )

    root_least_below :
        (k i : ℕ)
        → IsOrdered (length h.queue) h
        → i < k
        → i < length h.queue
        → less_at less h i 0 ≡ false
    root_least_below zero i s f p = absurd (omega arith)
    root_least_below (suc k) zero s f p = elim (Bool-cases (less_at less h 0 0)) [
      | inl e ↦ at-asym 0 0 p p e
      | inr e ↦ e
    ]
    root_least_below (suc k) (suc i) s f p =
        at_trans 0 (parent (suc i)) (suc i) (omega arith) (omega arith) p
          (root_least_below k (parent (suc i)) s (omega arith) (omega arith))
          (s (suc i) (omega arith) p)

    -- No place goes in front of the root.
    pub root_least :
        (i : ℕ) → IsOrdered (length h.queue) h → i < length h.queue → less_at less h i 0 ≡ false
    root_least i s p = root_least_below (suc i) i s (omega arith) p

  -- Less sees the objects of two places alone.
  pub less_at-same :
      (h h' : Heap V) (i j : ℕ)
      → i < length h.queue
      → j < length h.queue
      → i < length h'.queue
      → j < length h'.queue
      → get_by_key h (key_at h i) ≡ get_by_key h' (key_at h' i)
      → get_by_key h (key_at h j) ≡ get_by_key h' (key_at h' j)
      → less_at less h i j ≡ less_at less h' i j
  less_at-same h h' i j p q r s e f =
      less_at-value h i j p q
      ∙ (ap (λ a. less_value a (value h j)) e
          ∙ (ap (less_value (value h' i)) f ∙ sym (less_at-value h' i j r s)))
