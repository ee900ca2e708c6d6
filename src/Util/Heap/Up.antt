-- ===== src/Util/Heap/Up.antt =====
-- `up` of container/heap mends the edge above one place.
use ai_scheduler.Prelude.{
  ℕ, zero, suc, ◌+◌, ◌<◌, ◌≤◌, ◌≡◌, ◌≢◌, refl, ◌∙◌, Bool, true, false, length, ◌==◌, arith,
  Bool-cases, inl, inr,
}
use ai_scheduler.Util.Heap.{Heap, swap, less_at, up_loop, up, key_at}
use ai_scheduler.Util.Heap.Places.{
  IsIndexed, SameObjects, get_by_key-swap, length-swap, key_at-swap,
}
use ai_scheduler.Util.Heap.Swaps.{swap-IsIndexed}
use ai_scheduler.Util.Heap.Order.{IsOrder, IsOrdered, parent, less_at-swap, at-asym, at_trans}

module _ {ℓ} {V : Type ℓ} where
  -- Swaps of places below `n` have led from one heap to the other.
  pub record Sifts (n : ℕ) (h h' : Heap V) : Type ℓ where
    pub indexed : IsIndexed h'
    pub size : length h'.queue ≡ length h.queue
    pub same : SameObjects h h'
    pub tail : (k : ℕ) → n ≤ k → key_at h' k ≡ key_at h k

  pub Sifts-refl : (n : ℕ) (h : Heap V) → IsIndexed h → Sifts n h h
  Sifts-refl n h x = record { indexed = x; size = refl; same = λ key. refl; tail = λ k p. refl }

  pub Sifts-swap :
      (n : ℕ) (h h' : Heap V) (i j : ℕ)
      → n ≤ length h.queue
      → i < n
      → j < n
      → Sifts n (swap h i j) h'
      → Sifts n h h'
  Sifts-swap n h h' i j b hi hj s = record {
    indexed = s.indexed;
    size = s.size ∙ length-swap h i j;
    same = λ key. s.same key ∙ get_by_key-swap h i j key;
    tail = λ k p. ground (arith, s.tail k p, key_at-swap h i j k (omega arith) (omega arith));
  }

module _ {ℓ} {V : Type ℓ} (less : V → V → Bool) (o : IsOrder less) (n : ℕ) where
  -- Only the edge above `i` may be out of order.
  pub record UpInv (h : Heap V) (i : ℕ) : Type ℓ where
    pub indexed : IsIndexed h
    pub bound : n ≤ length h.queue
    pub inside : i < n
    pub edges : (c : ℕ) → 0 < c → c < n → c ≢ i → less_at less h c (parent c) ≡ false
    pub bridged :
        (c : ℕ) → 0 < c → c < n → parent c ≡ i → 0 < i → less_at less h c (parent i) ≡ false

  swap-UpInv :
      (h : Heap V) (i : ℕ)
      → UpInv h i
      → 0 < i
      → less_at less h i (parent i) ≡ true
      → UpInv (swap h (parent i) i) (parent i)
  swap-UpInv h i v pos below =
      let b = v.bound in
      let hi : i < length h.queue = omega (arith, v.inside, v.bound) in
      let hp : parent i < length h.queue = omega arith in
      record {
        indexed = swap-IsIndexed h (parent i) i v.indexed hp hi;
        bound = omega (arith, v.bound, length-swap h (parent i) i);
        inside = omega (arith, v.inside);
        edges = λ c p q r. ground (
          arith,
          less_at-swap less h (parent i) i c (parent c) hp hi (omega arith) (omega arith),
          at-asym less o h v.indexed i (parent i) hi hp below,
          v.edges c p q,
          v.bridged c p q,
          at_trans less o h v.indexed i (parent i) c hi hp (omega arith),
        );
        bridged = λ c p q r s. ground (
          arith,
          less_at-swap less h (parent i) i c (parent (parent i)) hp hi (omega arith) (omega arith),
          v.edges c p q,
          v.edges (parent i) s (omega arith),
          at_trans less o h v.indexed (parent (parent i)) (parent i) c (omega arith) hp
              (omega arith),
        );
      }

  -- The entries below `n` are in order, and swaps have led there.
  abbrev pub Mends : Heap V → Heap V → Type ℓ
  Mends h h' = Sifts n h h' × IsOrdered less n h'

  up_loop-Mends : (k : ℕ) (h : Heap V) (i : ℕ) → i < k → UpInv h i → Mends h (up_loop less k h i)
  unfolding up_loop
  up_loop-Mends zero h i f v = absurd (omega arith)
  up_loop-Mends (suc k) h i f v = elim (Bool-cases (parent i == i)) [
    | inl root ↦
        rw (up_loop, root) (Sifts-refl n h v.indexed, λ c p q. v.edges c p q (ground arith))
    | inr pos ↦ elim (Bool-cases (less_at less h i (parent i))) [
      | inr settled ↦
          rw (up_loop, pos, settled)
            (Sifts-refl n h v.indexed, λ c p q. ground (arith, v.edges c p q))
      | inl below ↦
          let rest =
            up_loop-Mends k (swap h (parent i) i) (parent i) (ground arith)
              (swap-UpInv h i v (ground arith) below) in
          rw (up_loop, pos, below)
            (
              Sifts-swap n h (up_loop less k (swap h (parent i) i) (parent i)) (parent i) i v.bound
                  (omega (arith, v.inside)) v.inside rest.0,
              rest.1,
            )
    ]
  ]

  pub up-Mends : (h : Heap V) (i : ℕ) → UpInv h i → Mends h (up less h i)
  unfolding up
  up-Mends h i v = up_loop-Mends (i + 1) h i (omega arith) v
