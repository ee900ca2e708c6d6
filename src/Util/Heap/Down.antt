-- ===== src/Util/Heap/Down.antt =====
-- `down` of container/heap mends the edges below one place, and says whether it had to.
use ai_scheduler.Prelude.{
  ℕ, zero, suc, ◌+◌, ◌-◌, ◌*◌, ◌<◌, ◌≤◌, ◌≡◌, ◌≢◌, refl, Bool, true, false, length, ltb, leb, arith,
  Bool-cases, inl, inr, ◌⊎◌,
}
use ai_scheduler.Util.Heap.{Heap, swap, less_at, smaller_child, down_loop, down, sift}
use ai_scheduler.Util.Heap.Places.{IsIndexed, length-swap}
use ai_scheduler.Util.Heap.Swaps.{swap-IsIndexed}
use ai_scheduler.Util.Heap.Order.{IsOrder, parent, less_at-swap, at-asym, at_trans}
use ai_scheduler.Util.Heap.Up.{Sifts-refl, Sifts-swap, UpInv, Mends, up-Mends}

module _ {ℓ} {V : Type ℓ} (less : V → V → Bool) (o : IsOrder less) (n : ℕ) where
  -- The edges around `i` may be out of order, and they alone.
  pub record MidInv (h : Heap V) (i : ℕ) : Type ℓ where
    pub indexed : IsIndexed h
    pub bound : n ≤ length h.queue
    pub inside : i < n
    pub edges : (c : ℕ) → 0 < c → c < n → c ≢ i → parent c ≢ i → less_at less h c (parent c) ≡ false
    pub bridged :
        (c : ℕ) → 0 < c → c < n → parent c ≡ i → 0 < i → less_at less h c (parent i) ≡ false

  -- The edge above it is in order.
  abbrev pub IsSettled : Heap V → ℕ → Type 0
  IsSettled h i = 0 < i → less_at less h i (parent i) ≡ false

  -- A child that no other child goes in front of.
  record IsSmallerChild (h : Heap V) (i m : ℕ) : Type 0 where
    inside : m < n
    child : (m ≡ 2 * i + 1) ⊎ (m ≡ 2 * i + 2)
    least : (c : ℕ) → 0 < c → c < n → parent c ≡ i → less_at less h c m ≡ false

  irreflexive : (h : Heap V) (i : ℕ) → IsIndexed h → i < length h.queue → less_at less h i i ≡ false
  irreflexive h i x p = elim (Bool-cases (less_at less h i i)) [
    | inl e ↦ at-asym less o h x i i p p e
    | inr e ↦ e
  ]

  smaller_child-IsSmallerChild :
      (h : Heap V) (i : ℕ)
      → IsIndexed h
      → n ≤ length h.queue
      → 2 * i + 1 < n
      → IsSmallerChild h i (smaller_child less h i n)
  unfolding smaller_child
  smaller_child-IsSmallerChild h i x b p =
      let left = irreflexive h (2 * i + 1) x (omega arith) in
      record {
        inside = ground arith;
        child = ground arith;
        least = λ c q r s. ground (
          arith,
          irreflexive h (2 * i + 1 + 1) x,
          at-asym less o h x (2 * i + 1 + 1) (2 * i + 1),
        );
      }

  -- One step down leaves the edge above the new place in order.
  swap-MidInv :
      (h : Heap V) (i m : ℕ)
      → MidInv h i
      → IsSmallerChild h i m
      → less_at less h m i ≡ true
      → MidInv (swap h i m) m × IsSettled (swap h i m) m
  swap-MidInv h i m v s below =
      let hi : i < length h.queue = omega (arith, v.inside, v.bound) in
      let hm : m < length h.queue = omega (arith, s.inside, v.bound) in
      let b = v.bound in
      let up : (parent m ≡ i) = ground (arith, s.child) in
      let larger : i < m = ground (arith, s.child) in
      (
        record {
          indexed = swap-IsIndexed h i m v.indexed hi hm;
          bound = omega (arith, v.bound, length-swap h i m);
          inside = s.inside;
          edges = λ c p q r t. ground (
            arith,
            less_at-swap less h i m c (parent c) hi hm (omega arith) (omega arith),
            v.edges c p q,
            v.bridged m (omega arith) s.inside up,
            s.least c p q,
          );
          bridged = λ c p q r t. ground (
            arith,
            less_at-swap less h i m c (parent m) hi hm (omega arith) (omega arith),
            v.edges c p q,
          );
        },
        λ pos. ground (
          arith,
          less_at-swap less h i m m (parent m) hi hm hm (omega arith),
          at-asym less o h v.indexed m i hm hi below,
        ),
      )

  -- What holds of the end of the loop where its first step is a swap.
  step :
      (k : ℕ) (h : Heap V) (i : ℕ)
      → leb n (2 * i + 1) ≡ false
      → less_at less h (smaller_child less h i n) i ≡ true
      → down_loop less (suc k) h i n
        ≡ down_loop less k (swap h i (smaller_child less h i n)) (smaller_child less h i n) n
  unfolding down_loop
  step k h i e f = rw (down_loop, e, f) refl

  leaf :
      (k : ℕ) (h : Heap V) (i : ℕ)
      → leb n (2 * i + 1) ≡ true
      → down_loop less (suc k) h i n ≡ (h, i)
  unfolding down_loop
  leaf k h i e = rw (down_loop, e) refl

  rest :
      (k : ℕ) (h : Heap V) (i : ℕ)
      → leb n (2 * i + 1) ≡ false
      → less_at less h (smaller_child less h i n) i ≡ false
      → down_loop less (suc k) h i n ≡ (h, i)
  unfolding down_loop
  rest k h i e f = rw (down_loop, e, f) refl

  -- The edges below a place that its smaller child does not go in front of.
  below_rests :
      (h : Heap V) (i : ℕ)
      → MidInv h i
      → leb n (2 * i + 1) ≡ false
      → less_at less h (smaller_child less h i n) i ≡ false
      → (c : ℕ) → 0 < c
      → c < n
      → parent c ≡ i
      → less_at less h c (parent c) ≡ false
  below_rests h i v e f c p q r =
      let b = v.bound in
      let s = smaller_child-IsSmallerChild h i v.indexed v.bound (ground arith) in
      let m = smaller_child less h i n in
      let hm : m < n = s.inside in
      let hi : i < n = v.inside in
      ground (
        arith,
        s.least c p q r,
        at_trans less o h v.indexed i m c (omega arith) (omega arith) (omega arith),
      )

  down_loop-Mends :
      (k : ℕ) (h : Heap V) (i : ℕ)
      → n - i ≤ k
      → MidInv h i
      → IsSettled h i
      → Mends less o n h (down_loop less k h i n).0
  down_loop-Mends zero h i f v t = absurd (omega (arith, v.inside))
  down_loop-Mends (suc k) h i f v t = elim (Bool-cases (leb n (2 * i + 1))) [
    | inl e ↦
        rw (leaf k h i e) (Sifts-refl n h v.indexed, λ c p q. ground (arith, v.edges c p q, t))
    | inr e ↦ elim (Bool-cases (less_at less h (smaller_child less h i n) i)) [
      | inr g ↦ rw (rest k h i e g) (
        Sifts-refl n h v.indexed,
        λ c p q. ground (arith, v.edges c p q, t, below_rests h i v e g c p q),
      )
      | inl g ↦
          let s = smaller_child-IsSmallerChild h i v.indexed v.bound (ground arith) in
          let m = smaller_child less h i n in
          let v' = swap-MidInv h i m v s g in
          let larger : i < m = ground (arith, s.child) in
          let r = down_loop-Mends k (swap h i m) m (omega arith) v'.0 v'.1 in
          rw (step k h i e g) (Sifts-swap n h _ i m v.bound v.inside s.inside r.0, r.1)
    ]
  ]

  down_loop-le : (k : ℕ) (h : Heap V) (i : ℕ) → i ≤ (down_loop less k h i n).1
  unfolding down_loop smaller_child
  down_loop-le zero h i = omega arith
  down_loop-le (suc k) h i =
      ground
        (arith, down_loop-le k (swap h i (smaller_child less h i n)) (smaller_child less h i n))

  MidInv-UpInv :
      (h : Heap V) (i : ℕ)
      → MidInv h i
      → ((c : ℕ) → 0 < c → c < n → parent c ≡ i → less_at less h c (parent c) ≡ false)
      → UpInv less o n h i
  MidInv-UpInv h i v below = record {
    indexed = v.indexed;
    bound = v.bound;
    inside = v.inside;
    edges = λ c p q r. ground (arith, v.edges c p q r, below c p q);
    bridged = v.bridged;
  }

  stays : (h : Heap V) (i : ℕ) → ltb i i ≡ false
  stays h i = ground arith

  -- Where the edges around one place alone may be out of order, `down` or else `up` mends them.
  pub sift-Mends : (h : Heap V) (i : ℕ) → MidInv h i → Mends less o n h (sift less h i n)
  unfolding sift down
  sift-Mends h i v = elim (Bool-cases (leb n (2 * i + 1))) [
    | inl e ↦
        rw (sift, leaf n h i e, stays h i)
          (up-Mends less o n h i (MidInv-UpInv h i v (λ c p q r. absurd (ground arith))))
    | inr e ↦ elim (Bool-cases (less_at less h (smaller_child less h i n) i)) [
      | inr g ↦
          rw (sift, rest n h i e g, stays h i)
            (up-Mends less o n h i (MidInv-UpInv h i v (below_rests h i v e g)))
      | inl g ↦
          let s = smaller_child-IsSmallerChild h i v.indexed v.bound (ground arith) in
          let m = smaller_child less h i n in
          let v' = swap-MidInv h i m v s g in
          let larger : i < m = ground (arith, s.child) in
          let r = down_loop-Mends n (swap h i m) m (omega arith) v'.0 v'.1 in
          let moved : (ltb i (down_loop less n (swap h i m) m n).1 ≡ true) =
            ground (arith, down_loop-le n (swap h i m) m) in
          rw (sift, step n h i e g, moved) (Sifts-swap n h _ i m v.bound v.inside s.inside r.0, r.1)
    ]
  ]

  -- `down` from the root mends the edges below it.
  pub down-Mends : (h : Heap V) → MidInv h 0 → Mends less o n h (down less h 0 n).0
  unfolding down
  down-Mends h v = down_loop-Mends (suc n) h 0 (omega arith) v (λ p. absurd (omega arith))
