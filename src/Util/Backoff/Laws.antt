-- ===== src/Util/Backoff/Laws.antt =====
-- What the operations of pkg/scheduler/util/backoff_utils.go do to the entries.
use ai_scheduler.Prelude.{
  ℕ, zero, suc, ◌+◌, ◌*◌, ◌≤◌, ◌<◌, ◌≡◌, refl, min, false, none, some, Option, String, length,
  if◌then◌else◌, arith, Bool-cases, Option-cases, inl, inr, ◌⊎◌, str_eq_iff,
}
use ai_scheduler.Prelude.Int64
use ai_scheduler.Prelude.Int64.{IsNonneg}
use ai_scheduler.Util.Heap.{Heap, get_by_key, peek, pop}
use ai_scheduler.Util.Heap.Places.{IsIndexed}
use ai_scheduler.Util.Heap.Order.{IsOrder}
use ai_scheduler.Util.Heap.Content.{IsHeap}
use ai_scheduler.Util.Heap.Least.{index_of-get}
use ai_scheduler.Util.Heap.Laws.{IsLeast, pop-Popped, peek-IsLeast}
use ai_scheduler.Util.Heap.Keys.{peek_root, peek-none, length-pop, pop-Without}
use ai_scheduler.Util.Backoff.{
  BackoffEntry, PodBackoff, time_sub, get_backoff, compare_update, is_expired, gc_loop, gc,
}

-- getBackoff doubles the back-off of an entry up to the maximum, the first time aside, and gives the
-- back-off that the entry has afterwards, provided that twice the maximum does not overflow.
pub get_backoff_lem :
    (m : ℕ) (b : BackoffEntry)
    → IsNonneg (m * 2)
    → b.backoff ≤ m
    → let r = get_backoff m b in
      (r.0 ≡ (if b.initialized then min (b.backoff * 2) m else b.backoff))
      × (r.0 ≤ m)
      × (r.1.backoff ≡ r.0)
      × (r.1.last_update ≡ b.last_update)
unfolding get_backoff
get_backoff_lem m b p q = elim (Bool-cases b.initialized) [
  | inl e ↦
      let same = Int64.mul-nonneg b.backoff 2 (omega arith) in
      let order = Int64.lt-nonneg m (b.backoff * 2) (omega arith) (omega arith) in
      rw (get_backoff, e, same, order) (ground arith)
  | inr e ↦ rw (get_backoff, e) (refl, q, refl, refl)
]

pub compare_update-IsOrder : IsOrder compare_update
unfolding compare_update
compare_update-IsOrder = record { asym = λ x y e. ground arith; trans = λ x y z e f. ground arith }

expired_antitone :
    (m now : ℕ) (b c : BackoffEntry)
    → b.last_update ≤ c.last_update
    → is_expired m now b ≡ false
    → is_expired m now c ≡ false
unfolding is_expired time_sub Int64.lt
expired_antitone m now b c p e = ground arith

-- The entry, where it is no older than the maximum back-off.
abbrev pub unless_expired : ℕ → ℕ → Option BackoffEntry → Option BackoffEntry
unless_expired m now none = none
unless_expired m now (some b) = if is_expired m now b then none else some b

-- What Gc leaves.
abbrev pub Collected : ℕ → ℕ → Heap BackoffEntry → Heap BackoffEntry → Type 0
Collected m now h h' =
    IsHeap compare_update h'
    × ((key : String) → get_by_key h' key ≡ unless_expired m now (get_by_key h key))

get_by_key_empty :
    (h : Heap BackoffEntry) (key : String)
    → IsIndexed h
    → length h.queue ≡ 0
    → get_by_key h key ≡ none
get_by_key_empty h key x e = elim (Option-cases (get_by_key h key)) [
  | inl n ↦ n
  | inr (b, s) ↦ let (i, f) = index_of-get h key b s in absurd (ground (arith, x.keys key i f))
]

fresh-Collected :
    (m now : ℕ) (h : Heap BackoffEntry) (b : BackoffEntry)
    → IsHeap compare_update h
    → IsLeast compare_update compare_update-IsOrder h b
    → is_expired m now b ≡ false
    → Collected m now h h
unfolding compare_update
fresh-Collected m now h b x least e = (x, λ key. stays key (Option-cases (get_by_key h key)))
  where
    stays :
        (key : String)
        → (get_by_key h key ≡ none) ⊎ ((a : BackoffEntry) × (get_by_key h key ≡ some a))
        → get_by_key h key ≡ unless_expired m now (get_by_key h key)
    stays key (inl n) = rw (n) refl
    stays key (inr (c, s)) = ground (arith, least key c s, expired_antitone m now b c)

gc_loop-Collected :
    (k m now : ℕ) (h : Heap BackoffEntry)
    → length h.queue < k
    → IsHeap compare_update h
    → Collected m now h (gc_loop k m now h)
unfolding gc_loop
gc_loop-Collected zero m now h p x = absurd (omega arith)
gc_loop-Collected (suc k) m now h p x = elim (Option-cases (peek h)) [
  | inl e ↦
      let z = peek-none h x.indexed e in
      rw (gc_loop, e) (x, λ key. rw (get_by_key_empty h key x.indexed z) refl)
  | inr (b, e) ↦ elim (Bool-cases (is_expired m now b)) [
    | inr f ↦
        rw (gc_loop, e, f)
          (fresh-Collected m now h b x
            (peek-IsLeast compare_update compare_update-IsOrder h b x e).1 f)
    | inl f ↦
        let (q, root) = peek_root h b e in
        let s = pop-Popped compare_update compare_update-IsOrder h x q in
        let (key, had, w, result) = pop-Without compare_update h b x.indexed e in
        let h' : Heap BackoffEntry = (pop compare_update h).0 in
        let rest =
          gc_loop-Collected k m now h' (omega (arith, length-pop compare_update h x.indexed q))
            s.left.0 in
        rw (gc_loop, e, f) (rest.0, λ j. ground (arith, rest.1 j, w.1 j, had, f, str_eq_iff key j))
  ]
]

-- Gc ends with exactly the entries that are no older than the maximum back-off, in a heap.
pub gc-Collected :
    (now : ℕ) (p : PodBackoff)
    → IsHeap compare_update p.expiry_q
    → Collected p.max_duration now p.expiry_q (gc now p).expiry_q
unfolding gc
gc-Collected now p x =
    gc_loop-Collected (length p.expiry_q.queue + 1) p.max_duration now p.expiry_q (omega arith) x
