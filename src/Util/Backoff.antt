-- ===== src/Util/Backoff.antt =====
-- pkg/scheduler/util/backoff_utils.go: the back-off of the pods that were tried in vain. A time is the
-- number of nanoseconds since the zero time, a duration the int64 word of its nanoseconds; the current
-- time is an argument where the code asks the clock. `key_of` is NamespacedName.String.
-- tryLock, unlock and TryBackoffAndWait, which sleeps, are left out.
pub mod Laws
pub mod Steps
use ai_scheduler.Prelude.{
  ℕ, zero, suc, ◌+◌, ◌-◌, ◌≤◌, min, Bool, true, false, none, some, Option, String, length, ltb, leb,
  if◌then◌else◌,
}
use ai_scheduler.Prelude.Int64
use ai_scheduler.Util.Heap
use ai_scheduler.Util.Heap.{Heap, HeapError}

-- ktypes.NamespacedName
pub record NamespacedName : Type 0 where
  pub namespace : String
  pub name : String

pub record BackoffEntry : Type 0 where
  pub initialized : Bool
  pub pod_name : NamespacedName
  pub backoff : ℕ
  pub last_update : ℕ

-- Time.Add and Time.Sub, which stops at the largest and the smallest duration.
unfoldable pub time_add : ℕ → ℕ → ℕ
time_add t d = if Int64.is_negative d then t - Int64.magnitude d else t + d

unfoldable pub time_sub : ℕ → ℕ → ℕ
time_sub t u =
    if leb u t
    then min (t - u) (Int64.half_modulus - 1)
    else Int64.modulus - min (u - t) Int64.half_modulus

unfoldable pub backoff_time : BackoffEntry → ℕ
unfolding time_add
backoff_time b = time_add b.last_update b.backoff

-- The duration, and the entry afterwards.
unfoldable pub get_backoff : ℕ → BackoffEntry → ℕ × BackoffEntry
get_backoff max_duration b =
    let doubled = Int64.mul b.backoff 2 in
    let new_duration = if Int64.lt max_duration doubled then max_duration else doubled in
    if b.initialized
    then (new_duration, record b { backoff = new_duration })
    else (b.backoff, record b { initialized = true })

-- backoffEntryCompareUpdate
unfoldable pub compare_update : BackoffEntry → BackoffEntry → Bool
compare_update b1 b2 = ltb b1.last_update b2.last_update

pub record PodBackoff : Type 0 where
  pub expiry_q : Heap BackoffEntry
  pub default_duration : ℕ
  pub max_duration : ℕ

unfoldable pub create_pod_backoff : ℕ → ℕ → PodBackoff
create_pod_backoff default_duration max_duration = record {
  expiry_q = Heap.new_heap;
  default_duration = default_duration;
  max_duration = max_duration;
}

-- now.Sub(be.lastUpdate) > p.maxDuration
unfoldable pub is_expired : ℕ → ℕ → BackoffEntry → Bool
unfolding time_sub
is_expired max_duration now b = Int64.lt max_duration (time_sub now b.last_update)

-- The loop of Gc, on fuel: each step takes an entry away.
unfoldable pub gc_loop : ℕ → ℕ → ℕ → Heap BackoffEntry → Heap BackoffEntry
unfolding is_expired compare_update
gc_loop zero max_duration now q = q
gc_loop (suc k) max_duration now q =
    let rest = gc_loop k max_duration now (Heap.pop compare_update q).0 in
    elim (Heap.peek q) [ none ↦ q | some b ↦ if is_expired max_duration now b then rest else q ]

unfoldable pub gc : ℕ → PodBackoff → PodBackoff
unfolding gc_loop
gc now p = record p {
  expiry_q = gc_loop (length p.expiry_q.queue + 1) p.max_duration now p.expiry_q;
}

module _ (key_of : NamespacedName → String) where
  -- backoffEntryKeyFunc
  unfoldable pub backoff_entry_key_func : BackoffEntry → Option String
  backoff_entry_key_func b = some (key_of b.pod_name)

  -- The entry, which is new at the zero time where the pod has none.
  unfoldable pub get_entry : NamespacedName → PodBackoff → PodBackoff × BackoffEntry
  unfolding compare_update backoff_entry_key_func
  get_entry pod p = elim (Heap.get_by_key p.expiry_q (key_of pod)) [
    | some b ↦ (p, b)
    | none ↦
        let b : BackoffEntry = record {
          initialized = false;
          pod_name = pod;
          backoff = p.default_duration;
          last_update = 0;
        } in
        (
          record p {
            expiry_q = (Heap.update compare_update backoff_entry_key_func p.expiry_q b).0;
          },
          b,
        )
  ]

  -- The heap holds the entry itself, so that what getBackoff writes to it after Update is written to the
  -- heap's: neither the order nor the key reads it.
  unfoldable pub backoff_pod : ℕ → NamespacedName → PodBackoff → PodBackoff × ℕ
  unfolding get_entry get_backoff compare_update backoff_entry_key_func
  backoff_pod now pod p =
      let r = get_entry pod p in
      let d = get_backoff p.max_duration (record r.1 { last_update = now }) in
      (
        record r.0 {
          expiry_q = (Heap.update compare_update backoff_entry_key_func r.0.expiry_q d.1).0;
        },
        d.0,
      )

  -- `none` where the pod has no entry: the code then returns the zero time and false.
  unfoldable pub get_backoff_time : NamespacedName → PodBackoff → Option ℕ
  unfolding backoff_time
  get_backoff_time pod p = elim (Heap.get_by_key p.expiry_q (key_of pod)) [
    | none ↦ none
    | some b ↦ some (backoff_time b)
  ]

  unfoldable pub clear_pod_backoff : NamespacedName → PodBackoff → PodBackoff × Bool
  unfolding compare_update backoff_entry_key_func
  clear_pod_backoff pod p = elim (Heap.get_by_key p.expiry_q (key_of pod)) [
    | none ↦ (p, false)
    | some b ↦
        let r = Heap.delete compare_update backoff_entry_key_func p.expiry_q b in
        (record p { expiry_q = r.0 }, elim r.1 [ none ↦ true | some e ↦ false ])
  ]
