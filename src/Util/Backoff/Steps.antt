-- ===== src/Util/Backoff/Steps.antt =====
-- The invariant of a PodBackoff of pkg/scheduler/util/backoff_utils.go, and what BackoffPod, Gc and
-- ClearPodBackoff do to it and to the times at which the pods' back-off ends.
use ai_scheduler.Prelude.{
  ℕ, ◌+◌, ◌*◌, ◌≤◌, ◌≡◌, ◌≢◌, refl, ap, sym, ◌∙◌, min, true, false, none, some, Option, String,
  if◌then◌else◌, arith, Option-cases, inl, inr, ◌⊎◌, str_eq, str_eq_iff, str_eq_refl,
}
use ai_scheduler.Prelude.Int64
use ai_scheduler.Prelude.Int64.{IsNonneg}
use ai_scheduler.Util.Heap
use ai_scheduler.Util.Heap.{Heap, get_by_key, new_heap, add_key, delete_key, HeapError}
use ai_scheduler.Util.Heap.Content.{IsHeap}
use ai_scheduler.Util.Heap.Least.{add_key-HasAdded}
use ai_scheduler.Util.Heap.Laws.{delete_key-HasDeleted}
use ai_scheduler.Util.Backoff.{
  NamespacedName, BackoffEntry, PodBackoff, time_add, backoff_time, get_backoff, compare_update, gc,
  get_entry, backoff_pod, get_backoff_time, clear_pod_backoff, backoff_entry_key_func,
}
use ai_scheduler.Util.Backoff.Laws.{
  get_backoff_lem, compare_update-IsOrder, gc-Collected, unless_expired,
}

module _ (key_of : NamespacedName → String) where
  -- A heap whose entries are under their pods' keys, and back off for no longer than the maximum.
  pub record IsBackoff (p : PodBackoff) : Type 0 where
    pub heap : IsHeap compare_update p.expiry_q
    pub range : IsNonneg (p.max_duration * 2)
    pub default : p.default_duration ≤ p.max_duration
    pub entries :
        (key : String) (b : BackoffEntry)
        → get_by_key p.expiry_q key ≡ some b
        → (key ≡ key_of b.pod_name) × (b.backoff ≤ p.max_duration)

  -- The back-off that BackoffPod gives next: the first one, or twice the last.
  unfoldable pub next_backoff : PodBackoff → Option BackoffEntry → ℕ
  next_backoff p none = p.default_duration
  next_backoff p (some b) = if b.initialized then min (b.backoff * 2) p.max_duration else b.backoff

  -- The entry that BackoffPod leaves.
  pub record Backed (now : ℕ) (pod : NamespacedName) (p : PodBackoff) (r : PodBackoff × ℕ)
      : Type 0 where
    pub duration : r.1 ≡ next_backoff p (get_by_key p.expiry_q (key_of pod))
    pub bound : r.1 ≤ p.max_duration
    pub ends : get_backoff_time key_of pod r.0 ≡ some (now + r.1)
    pub others :
        (q : NamespacedName)
        → key_of q ≢ key_of pod
        → get_backoff_time key_of q r.0 ≡ get_backoff_time key_of q p
    pub invariant : IsBackoff r.0

  add_entry-IsBackoff :
      (p : PodBackoff) (b : BackoffEntry)
      → IsBackoff p
      → b.backoff ≤ p.max_duration
      → IsBackoff (record p { expiry_q = add_key compare_update p.expiry_q (key_of b.pod_name) b })
  add_entry-IsBackoff p b x q =
      let (heap, same) =
        add_key-HasAdded compare_update compare_update-IsOrder p.expiry_q (key_of b.pod_name) b
          x.heap in
      record {
        heap = heap;
        range = x.range;
        default = x.default;
        entries = λ key c e.
            ground (arith, same key, str_eq_iff (key_of b.pod_name) key, x.entries key c);
      }

  get_backoff_time-add :
      (p : PodBackoff) (b : BackoffEntry) (pod : NamespacedName)
      → IsBackoff p
      → get_backoff_time key_of pod
          (record p { expiry_q = add_key compare_update p.expiry_q (key_of b.pod_name) b })
        ≡ (if str_eq (key_of b.pod_name) (key_of pod)
            then some (backoff_time b)
            else get_backoff_time key_of pod p)
  unfolding get_backoff_time
  get_backoff_time-add p b pod x = ground (
    arith,
    (add_key-HasAdded compare_update compare_update-IsOrder p.expiry_q (key_of b.pod_name) b
          x.heap).1
        (key_of pod),
  )

  update_entry :
      (q : Heap BackoffEntry) (b : BackoffEntry)
      → (Heap.update compare_update (backoff_entry_key_func key_of) q b).0
        ≡ add_key compare_update q (key_of b.pod_name) b
  unfolding Heap.update Heap.add backoff_entry_key_func
  update_entry q b = refl

  pod_name-get_backoff : (m : ℕ) (b : BackoffEntry) → (get_backoff m b).1.pod_name ≡ b.pod_name
  unfolding get_backoff
  pod_name-get_backoff m b = ground arith

  get_entry_lem :
      (pod : NamespacedName) (p : PodBackoff)
      → IsBackoff p
      → let r = get_entry key_of pod p in
        IsBackoff r.0
        × (r.0.max_duration ≡ p.max_duration)
        × (key_of r.1.pod_name ≡ key_of pod)
        × (r.1.backoff ≤ p.max_duration)
        × ((if r.1.initialized then min (r.1.backoff * 2) p.max_duration else r.1.backoff)
            ≡ next_backoff p (get_by_key p.expiry_q (key_of pod)))
        × ((q : NamespacedName)
            → key_of q ≢ key_of pod
            → get_backoff_time key_of q r.0 ≡ get_backoff_time key_of q p)
  unfolding get_entry next_backoff
  get_entry_lem pod p x = elim (Option-cases (get_by_key p.expiry_q (key_of pod))) [
    | inr (b, e) ↦
        let (k, q) = x.entries (key_of pod) b e in
        rw (get_entry, e) (x, refl, sym k, q, refl, λ r ne. refl)
    | inl e ↦
        let b : BackoffEntry = record {
          initialized = false;
          pod_name = pod;
          backoff = p.default_duration;
          last_update = 0;
        } in
        rw (get_entry, e, update_entry p.expiry_q b)
          (
            add_entry-IsBackoff p b x x.default,
            refl,
            refl,
            x.default,
            refl,
            λ r ne.
                ground (arith, get_backoff_time-add p b r x, str_eq_iff (key_of pod) (key_of r)),
          )
  ]

  backoff_time_lem :
      (b : BackoffEntry) (m : ℕ)
      → b.backoff ≤ m
      → IsNonneg (m * 2)
      → backoff_time b ≡ b.last_update + b.backoff
  unfolding backoff_time time_add Int64.is_negative
  backoff_time_lem b m p q = ground arith

  -- BackoffPod, on a PodBackoff in good order, gives the pod's first back-off or twice its last up to
  -- the maximum, ends the pod's back-off that much after `now`, changes that of no pod with another
  -- key, and leaves the PodBackoff in good order.
  pub backoff_pod-Backed :
      (now : ℕ) (pod : NamespacedName) (p : PodBackoff)
      → IsBackoff p
      → Backed now pod p (backoff_pod key_of now pod p)
  unfolding backoff_pod
  backoff_pod-Backed now pod p x =
      let (y, m, k, bound, next, others) = get_entry_lem pod p x in
      let r = get_entry key_of pod p in
      let touched : BackoffEntry = record r.1 { last_update = now } in
      let d = get_backoff p.max_duration touched in
      let (value, small, kept, at) = get_backoff_lem p.max_duration touched x.range bound in
      let named = ap key_of (pod_name-get_backoff p.max_duration touched) ∙ k in
      let added = λ (q : NamespacedName). get_backoff_time-add r.0 d.1 q y in
      rw (backoff_pod, update_entry r.0.expiry_q d.1)
        (record {
          duration = value ∙ next;
          bound = small;
          ends =
              added pod
              ∙ ground (
                arith,
                named,
                str_eq_refl (key_of pod),
                backoff_time_lem d.1 p.max_duration (omega arith) x.range,
              );
          others = λ q ne.
              ground (arith, added q, named, str_eq_iff (key_of pod) (key_of q), others q ne);
          invariant = add_entry-IsBackoff r.0 d.1 y (omega arith);
        })

  delete_entry :
      (q : Heap BackoffEntry) (b : BackoffEntry)
      → Heap.delete compare_update (backoff_entry_key_func key_of) q b
        ≡ delete_key compare_update q (key_of b.pod_name)
  unfolding Heap.delete backoff_entry_key_func
  delete_entry q b = refl

  -- Gc keeps a PodBackoff in good order.
  pub gc-IsBackoff : (now : ℕ) (p : PodBackoff) → IsBackoff p → IsBackoff (gc now p)
  unfolding gc
  gc-IsBackoff now p x =
      let (heap, same) = gc-Collected now p x.heap in
      record {
        heap = heap;
        range = x.range;
        default = x.default;
        entries = λ key b e. kept key b (same key) (Option-cases (get_by_key p.expiry_q key)) e;
      }
    where
      kept :
          (key : String) (b : BackoffEntry)
          → get_by_key (gc now p).expiry_q key
            ≡ unless_expired p.max_duration now (get_by_key p.expiry_q key)
          → (get_by_key p.expiry_q key ≡ none)
            ⊎ ((c : BackoffEntry) × (get_by_key p.expiry_q key ≡ some c))
          → get_by_key (gc now p).expiry_q key ≡ some b
          → (key ≡ key_of b.pod_name) × (b.backoff ≤ p.max_duration)
      kept key b s (inl n) e = absurd (ground arith)
      kept key b s (inr (c, f)) e = ground (arith, x.entries key c f)

  -- ClearPodBackoff ends the pod's back-off and that of no pod with another key, tells whether there
  -- was one, and keeps a PodBackoff in good order.
  pub clear_pod_backoff_lem :
      (pod : NamespacedName) (p : PodBackoff)
      → IsBackoff p
      → let r = clear_pod_backoff key_of pod p in
        IsBackoff r.0
        × (r.1 ≡ elim (get_backoff_time key_of pod p) [ none ↦ false | some t ↦ true ])
        × ((q : NamespacedName)
            → get_backoff_time key_of q r.0
              ≡ (if str_eq (key_of pod) (key_of q) then none else get_backoff_time key_of q p))
  unfolding clear_pod_backoff get_backoff_time
  clear_pod_backoff_lem pod p x = elim (Option-cases (get_by_key p.expiry_q (key_of pod))) [
    | inl e ↦
        rw (clear_pod_backoff, e) (x, refl, λ q. ground (arith, str_eq_iff (key_of pod) (key_of q)))
    | inr (b, e) ↦
        let k = (x.entries (key_of pod) b e).0 in
        let r =
          delete_key-HasDeleted compare_update compare_update-IsOrder p.expiry_q (key_of pod)
            x.heap in
        rw (clear_pod_backoff, e, delete_entry p.expiry_q b, sym k, r.1)
          (
            record {
              heap = r.0.0;
              range = x.range;
              default = x.default;
              entries = λ key c f.
                  ground (arith, r.0.1 key, str_eq_iff (key_of pod) key, x.entries key c);
            },
            rw (e) refl,
            λ q. ground (arith, r.0.1 (key_of q)),
          )
  ]
