-- ===== src/Util/Heap/Swaps.antt =====
-- Swap, Push and Pop of heapData keep the map and the queue of the heap in agreement; Swap keeps the
-- objects, Push adds one and Pop takes the last one out.
use ai_scheduler.Prelude.{
  ℕ, zero, suc, ◌+◌, ◌-◌, ◌<◌, ◌≡◌, refl, List, [], ◌∷◌, ◌++◌, none, some, String, length,
  get_elem?, ◌==◌, if◌then◌else◌, arith, str_eq, str_eq_iff, length-append,
}
use ai_scheduler.Prelude.Dict
use ai_scheduler.Util.Heap.{Heap, key_at, get_by_key, swap, push_last, pop_last, drop_last}
use ai_scheduler.Util.Heap.Places.{IsIndexed, index_of, index_of-swap, key_at-swap, length-swap}

get_elem?-push :
    (xs : List String) (x : String) (i : ℕ)
    → get_elem? (xs ++ x ∷ []) i ≡ (if i == length xs then some x else get_elem? xs i)
get_elem?-push [] x zero = ground arith
get_elem?-push [] x (suc i) = ground arith
get_elem?-push (y ∷ ys) x zero = ground arith
get_elem?-push (y ∷ ys) x (suc i) = ground (arith, get_elem?-push ys x i)

get_elem?-drop_last :
    (xs : List String) (i : ℕ) → suc i < length xs → get_elem? (drop_last xs) i ≡ get_elem? xs i
unfolding drop_last
get_elem?-drop_last [] i h = absurd (omega arith)
get_elem?-drop_last (x ∷ []) i h = absurd (omega arith)
get_elem?-drop_last (x ∷ y ∷ xs) zero h = refl
get_elem?-drop_last (x ∷ y ∷ xs) (suc i) h = get_elem?-drop_last (y ∷ xs) i (omega arith)

pub length-drop_last : (xs : List String) → length (drop_last xs) ≡ length xs - 1
unfolding drop_last
length-drop_last [] = refl
length-drop_last (x ∷ []) = refl
length-drop_last (x ∷ y ∷ xs) = omega (arith, length-drop_last (y ∷ xs))

module _ {ℓ} {V : Type ℓ} where
  -- Two places of the queue hold two keys.
  pub places_differ :
      (h : Heap V) (i j : ℕ)
      → IsIndexed h
      → i < length h.queue
      → j < length h.queue
      → key_at h i ≡ key_at h j
      → i ≡ j
  places_differ h i j x hi hj e = let a = x.places i hi in let b = x.places j hj in ground arith

  pub swap-IsIndexed :
      (h : Heap V) (i j : ℕ)
      → IsIndexed h
      → i < length h.queue
      → j < length h.queue
      → IsIndexed (swap h i j)
  swap-IsIndexed h i j x hi hj = record {
    places = λ k hk.
        let n = length-swap h i j in
        let hk' : k < length h.queue = omega arith in
        ground (
          arith,
          key_at-swap h i j k hi hj,
          index_of-swap h i j (key_at (swap h i j) k) x hi hj,
          str_eq_iff (key_at h i) (key_at (swap h i j) k),
          str_eq_iff (key_at h j) (key_at (swap h i j) k),
          x.places k hk',
          places_differ h i k x hi hk',
          places_differ h j k x hj hk',
          places_differ h i j x hi hj,
        );
    keys = λ key k e. ground (
      arith,
      length-swap h i j,
      key_at-swap h i j k hi hj,
      index_of-swap h i j key x hi hj,
      str_eq_iff (key_at h i) key,
      str_eq_iff (key_at h j) key,
      x.keys key k,
      x.places i hi,
      x.places j hj,
    );
  }

  pub key_at-push_last :
      (h : Heap V) (key : String) (obj : V) (i : ℕ)
      → key_at (push_last h key obj) i ≡ (if i == length h.queue then key else key_at h i)
  unfolding key_at push_last
  key_at-push_last h key obj i = ground (arith, get_elem?-push h.queue key i)

  pub index_of-push_last :
      (h : Heap V) (key : String) (obj : V) (j : String)
      → index_of (push_last h key obj) j
        ≡ (if str_eq key j then some (length h.queue) else index_of h j)
  unfolding index_of push_last
  index_of-push_last h key obj j =
      ground
        (arith, Dict.lookup-insert key j (record { obj = obj; index = length h.queue }) h.items)

  pub get_by_key-push_last :
      (h : Heap V) (key : String) (obj : V) (j : String)
      → get_by_key (push_last h key obj) j ≡ (if str_eq key j then some obj else get_by_key h j)
  unfolding get_by_key push_last
  get_by_key-push_last h key obj j =
      ground
        (arith, Dict.lookup-insert key j (record { obj = obj; index = length h.queue }) h.items)

  pub length-push_last :
      (h : Heap V) (key : String) (obj : V)
      → length (push_last h key obj).queue ≡ length h.queue + 1
  unfolding push_last
  length-push_last h key obj = length-append h.queue (key ∷ [])

  pub push_last-IsIndexed :
      (h : Heap V) (key : String) (obj : V)
      → IsIndexed h
      → index_of h key ≡ none
      → IsIndexed (push_last h key obj)
  push_last-IsIndexed h key obj x e = record {
    places = λ i hi. ground (
      arith,
      length-push_last h key obj,
      key_at-push_last h key obj i,
      index_of-push_last h key obj (key_at (push_last h key obj) i),
      str_eq_iff key (key_at (push_last h key obj) i),
      x.places i,
    );
    keys = λ j i f. ground (
      arith,
      length-push_last h key obj,
      key_at-push_last h key obj i,
      index_of-push_last h key obj j,
      str_eq_iff key j,
      x.keys j i,
    );
  }

  pub length-pop_last : (h : Heap V) → length (pop_last h).0.queue ≡ length h.queue - 1
  unfolding pop_last
  length-pop_last h = length-drop_last h.queue

  pub key_at-pop_last :
      (h : Heap V) (i : ℕ) → suc i < length h.queue → key_at (pop_last h).0 i ≡ key_at h i
  unfolding key_at pop_last
  key_at-pop_last h i hi = ground (arith, get_elem?-drop_last h.queue i hi)

  pub index_of-pop_last :
      (h : Heap V) (j : String)
      → index_of (pop_last h).0 j
        ≡ (if str_eq (key_at h (length h.queue - 1)) j then none else index_of h j)
  unfolding index_of pop_last
  index_of-pop_last h j =
      ground (arith, Dict.lookup-remove (key_at h (length h.queue - 1)) j h.items)

  pub get_by_key-pop_last :
      (h : Heap V) (j : String)
      → get_by_key (pop_last h).0 j
        ≡ (if str_eq (key_at h (length h.queue - 1)) j then none else get_by_key h j)
  unfolding get_by_key pop_last
  get_by_key-pop_last h j =
      ground (arith, Dict.lookup-remove (key_at h (length h.queue - 1)) j h.items)

  pub pop_last-IsIndexed :
      (h : Heap V) → IsIndexed h → 0 < length h.queue → IsIndexed (pop_last h).0
  pop_last-IsIndexed h x p = record {
    places = λ i hi.
        let n = length-pop_last h in
        let hi' : suc i < length h.queue = omega arith in
        ground (
          arith,
          key_at-pop_last h i hi',
          index_of-pop_last h (key_at h i),
          str_eq_iff (key_at h (length h.queue - 1)) (key_at h i),
          x.places i (omega arith),
          places_differ h (length h.queue - 1) i x (omega arith) (omega arith),
        );
    keys = λ j i f. ground (
      arith,
      length-pop_last h,
      key_at-pop_last h i,
      index_of-pop_last h j,
      str_eq_iff (key_at h (length h.queue - 1)) j,
      x.keys j i,
    );
  }
