-- ===== src/Queue/Places.antt =====
-- The three queues of a PriorityQueue hold a pod in one place at most, and what an addition to one of
-- them or a deletion does to that.
use ai_scheduler.Prelude.{
  ℕ, ◌+◌, ◌≤◌, ◌≡◌, sym, ap, ◌∙◌, Bool, true, false, ◌||◌, ◌&&◌, not, none, some, String, str_eq,
  str_eq_iff, if◌then◌else◌, arith, Option-cases, inl, inr, [],
}
use ai_scheduler.Prelude.Dict
use ai_scheduler.Prelude.Dict.{Dict}
use ai_scheduler.Kube.{Pod}
use ai_scheduler.Util.Heap.{Heap, get_by_key, add_key, delete_key}
use ai_scheduler.Util.Heap.Places.{IsIndexed}
use ai_scheduler.Util.Heap.Order.{IsOrder}
use ai_scheduler.Util.Heap.Content.{IsHeap}
use ai_scheduler.Util.Heap.Least.{add_key-HasAdded}
use ai_scheduler.Util.Heap.Laws.{HasDeleted, delete_key-HasDeleted}
use ai_scheduler.Util.Heap.Keys.{With, Without}
use ai_scheduler.Queue.{
  QueueApi, PodInfo, ns_name_for_pod, get_pod_full_name, delete, add_or_update,
}

-- What holds of the pods that the queue is handed: that the keys tell them apart alike. They do for
-- names that the API server accepts, since no key joins by a character of a name.
pub record Naming (api : QueueApi) : Type 1 where
  pub IsNamed : Pod → Type 0
  pub same_key :
      (p q : Pod)
      → IsNamed p
      → IsNamed q
      → str_eq (api.meta_namespace_key p) (api.meta_namespace_key q)
        ≡ str_eq (get_pod_full_name p) (get_pod_full_name q)
  pub same_backoff :
      (p q : Pod)
      → IsNamed p
      → IsNamed q
      → str_eq (api.meta_namespace_key p) (api.meta_namespace_key q) ≡ true
      → api.namespaced_key (ns_name_for_pod p) ≡ api.namespaced_key (ns_name_for_pod q)

unfoldable pub held : Heap PodInfo → String → Bool
held h key = elim (get_by_key h key) [ none ↦ false | some i ↦ true ]

abbrev pub one_if : Bool → ℕ
one_if b = if b then 1 else 0

module _ (api : QueueApi) where
  unfoldable pub is_in : Heap PodInfo → Pod → Bool
  unfolding held
  is_in h p = held h (api.meta_namespace_key p)

  unfoldable pub is_unschedulable : Dict PodInfo → Pod → Bool
  unfolding get_pod_full_name
  is_unschedulable u p = Dict.has (get_pod_full_name p) u

module _ (api : QueueApi) (less : PodInfo → PodInfo → Bool) (names : Naming api) where
  -- The three queues are in good order, hold each pod under its key, and each in one place at most.
  pub record Holds (a b : Heap PodInfo) (u : Dict PodInfo) : Type 0 where
    pub active : IsHeap less a
    pub backoff : IsIndexed b
    pub distinct : Dict.Distinct u
    pub active_entries :
        (key : String) (i : PodInfo)
        → get_by_key a key ≡ some i
        → (key ≡ api.meta_namespace_key i.pod) × names.IsNamed i.pod
    pub backoff_entries :
        (key : String) (i : PodInfo)
        → get_by_key b key ≡ some i
        → (key ≡ api.meta_namespace_key i.pod) × names.IsNamed i.pod
    pub unschedulable_entries :
        (key : String) (i : PodInfo)
        → Dict.lookup key u ≡ some i
        → (key ≡ get_pod_full_name i.pod) × names.IsNamed i.pod
    pub one_place :
        (p : Pod)
        → names.IsNamed p
        → one_if (is_in api a p) + one_if (is_in api b p) + one_if (is_unschedulable api u p) ≤ 1

  pub is_in-add :
      (h h' : Heap PodInfo) (key : String) (i : PodInfo) (p : Pod)
      → ((j : String) → get_by_key h' j ≡ (if str_eq key j then some i else get_by_key h j))
      → is_in api h' p ≡ (str_eq key (api.meta_namespace_key p) || is_in api h p)
  unfolding is_in held
  is_in-add h h' key i p e = ground (arith, e (api.meta_namespace_key p))

  -- Nothing new is held.
  abbrev Within : Heap PodInfo → Heap PodInfo → Type 0
  Within h h' =
      (key : String) (i : PodInfo) → get_by_key h' key ≡ some i → get_by_key h key ≡ some i

  is_in-Within :
      (h h' : Heap PodInfo) (p : Pod) → Within h h' → is_in api h' p ≡ true → is_in api h p ≡ true
  unfolding is_in held
  is_in-Within h h' p w e = elim (Option-cases (get_by_key h' (api.meta_namespace_key p))) [
    | inl n ↦ absurd (ground arith)
    | inr (i, s) ↦ ground (arith, w (api.meta_namespace_key p) i s)
  ]

  is_unschedulable_within :
      (u u' : Dict PodInfo) (p : Pod)
      → ((key : String) (i : PodInfo) → Dict.lookup key u' ≡ some i → Dict.lookup key u ≡ some i)
      → is_unschedulable api u' p ≡ true
      → is_unschedulable api u p ≡ true
  unfolding is_unschedulable
  is_unschedulable_within u u' p w e =
      let (i, s) = Dict.has-true (get_pod_full_name p) u' e in
      Dict.has-lookup (get_pod_full_name p) i u (w (get_pod_full_name p) i s)

  -- Queues in good order that hold nothing new.
  pub Within-Holds :
      (a a' b b' : Heap PodInfo) (u u' : Dict PodInfo)
      → Holds a b u
      → IsHeap less a'
      → IsIndexed b'
      → Dict.Distinct u'
      → Within a a'
      → Within b b'
      → ((key : String) (i : PodInfo) → Dict.lookup key u' ≡ some i → Dict.lookup key u ≡ some i)
      → Holds a' b' u'
  Within-Holds a a' b b' u u' x ha hb du wa wb wu = record {
    active = ha;
    backoff = hb;
    distinct = du;
    active_entries = λ key i e. x.active_entries key i (wa key i e);
    backoff_entries = λ key i e. x.backoff_entries key i (wb key i e);
    unschedulable_entries = λ key i e. x.unschedulable_entries key i (wu key i e);
    one_place = λ p m. ground (
      arith,
      is_in-Within a a' p wa,
      is_in-Within b b' p wb,
      is_unschedulable_within u u' p wu,
      x.one_place p m,
    );
  }

  deleted-Within :
      (h h' : Heap PodInfo) (key : String)
      → ((j : String) → get_by_key h' j ≡ (if str_eq key j then none else get_by_key h j))
      → Within h h'
  deleted-Within h h' key s j i e = ground (arith, s j)

  pub is_in-delete :
      (h h' : Heap PodInfo) (key : String) (p : Pod)
      → ((j : String) → get_by_key h' j ≡ (if str_eq key j then none else get_by_key h j))
      → is_in api h' p ≡ (not (str_eq key (api.meta_namespace_key p)) && is_in api h p)
  unfolding is_in held
  is_in-delete h h' key p e = ground (arith, e (api.meta_namespace_key p))

  -- Pods with one key are in the same places.
  pub is_in_key :
      (h : Heap PodInfo) (p q : Pod)
      → str_eq (api.meta_namespace_key p) (api.meta_namespace_key q) ≡ true
      → is_in api h p ≡ is_in api h q
  unfolding is_in
  is_in_key h p q e =
      ap (held h) ((str_eq_iff (api.meta_namespace_key p) (api.meta_namespace_key q)).0 e)

  pub is_unschedulable_key :
      (u : Dict PodInfo) (p q : Pod)
      → names.IsNamed p
      → names.IsNamed q
      → str_eq (api.meta_namespace_key p) (api.meta_namespace_key q) ≡ true
      → is_unschedulable api u p ≡ is_unschedulable api u q
  unfolding is_unschedulable
  is_unschedulable_key u p q n m e =
      ap (λ k. Dict.has k u)
        ((str_eq_iff (get_pod_full_name p) (get_pod_full_name q)).0
          (sym (names.same_key p q n m) ∙ e))

  module _ (o : IsOrder less) where
    pub add_active-Holds :
        (a b : Heap PodInfo) (u : Dict PodInfo) (i : PodInfo)
        → Holds a b u
        → names.IsNamed i.pod
        → is_in api b i.pod ≡ false
        → is_unschedulable api u i.pod ≡ false
        → Holds (add_key less a (api.meta_namespace_key i.pod) i) b u
    add_active-Holds a b u i x n eb eu =
        let (heap, same) = add_key-HasAdded less o a (api.meta_namespace_key i.pod) i x.active in
        record {
          active = heap;
          backoff = x.backoff;
          distinct = x.distinct;
          active_entries = λ key j e. ground (
            arith,
            same key,
            str_eq_iff (api.meta_namespace_key i.pod) key,
            x.active_entries key j,
          );
          backoff_entries = x.backoff_entries;
          unschedulable_entries = x.unschedulable_entries;
          one_place = λ p m. ground (
            arith,
            is_in-add a (add_key less a (api.meta_namespace_key i.pod) i)
                (api.meta_namespace_key i.pod) i p same,
            is_in_key b i.pod p,
            is_unschedulable_key u i.pod p n m,
            x.one_place p m,
          );
        }

    pub delete_active-Holds :
        (a b : Heap PodInfo) (u : Dict PodInfo) (key : String)
        → Holds a b u
        → Holds (delete_key less a key).0 b u
    delete_active-Holds a b u key x =
        let (heap, same) = (delete_key-HasDeleted less o a key x.active).0 in
        Within-Holds a (delete_key less a key).0 b b u u x heap x.backoff x.distinct
          (deleted-Within a (delete_key less a key).0 key same) (λ k i e. e) (λ k i e. e)

  -- What left the activeQ by Pop.
  pub popped_active-Holds :
      (a a' b : Heap PodInfo) (u : Dict PodInfo) (key : String)
      → Holds a b u
      → HasDeleted less a key a'
      → Holds a' b u
  popped_active-Holds a a' b u key x (heap, same) =
      Within-Holds a a' b b u u x heap x.backoff x.distinct (deleted-Within a a' key same)
        (λ k i e. e) (λ k i e. e)

  pub Without-backoff-Holds :
      (a b b' : Heap PodInfo) (u : Dict PodInfo) (key : String)
      → Holds a b u
      → Without b key b'
      → Holds a b' u
  Without-backoff-Holds a b b' u key x (indexed, same) =
      Within-Holds a a b b' u u x x.active indexed x.distinct (λ k i e. e)
        (deleted-Within b b' key same) (λ k i e. e)

  pub With-backoff-Holds :
      (a b b' : Heap PodInfo) (u : Dict PodInfo) (i : PodInfo)
      → Holds a b u
      → names.IsNamed i.pod
      → is_in api a i.pod ≡ false
      → is_unschedulable api u i.pod ≡ false
      → With b (api.meta_namespace_key i.pod) i b'
      → Holds a b' u
  With-backoff-Holds a b b' u i x n ea eu (indexed, same) = record {
    active = x.active;
    backoff = indexed;
    distinct = x.distinct;
    active_entries = x.active_entries;
    backoff_entries = λ key j e.
        ground
          (arith, same key, str_eq_iff (api.meta_namespace_key i.pod) key, x.backoff_entries key j);
    unschedulable_entries = x.unschedulable_entries;
    one_place = λ p m. ground (
      arith,
      is_in-add b b' (api.meta_namespace_key i.pod) i p same,
      is_in_key a i.pod p,
      is_unschedulable_key u i.pod p n m,
      x.one_place p m,
    );
  }

  lookup-delete_within :
      (u : Dict PodInfo) (k key : String) (i : PodInfo)
      → Dict.lookup key (Dict.remove k u) ≡ some i
      → Dict.lookup key u ≡ some i
  lookup-delete_within u k key i e = ground (arith, Dict.lookup-remove k key u)

  pub delete-Holds :
      (a b : Heap PodInfo) (u : Dict PodInfo) (pod : Pod)
      → Holds a b u
      → Holds a b (delete api pod u)
  unfolding delete
  delete-Holds a b u pod x =
      Within-Holds a a b b u (Dict.remove (get_pod_full_name pod) u) x x.active x.backoff
        (Dict.remove-Distinct (get_pod_full_name pod) u x.distinct) (λ k i e. e) (λ k i e. e)
        (lookup-delete_within u (get_pod_full_name pod))

  pub clear-Holds : (a b : Heap PodInfo) (u : Dict PodInfo) → Holds a b u → Holds a b []
  unfolding Dict.lookup
  clear-Holds a b u x =
      Within-Holds a a b b u [] x x.active x.backoff tt (λ k i e. e) (λ k i e. e)
        (λ k i e. absurd (ground arith))

  is_unschedulable-add :
      (u : Dict PodInfo) (i : PodInfo) (p : Pod)
      → is_unschedulable api (add_or_update api i u) p
        ≡ (str_eq (get_pod_full_name i.pod) (get_pod_full_name p) || is_unschedulable api u p)
  unfolding is_unschedulable add_or_update
  is_unschedulable-add u i p = Dict.has-insert (get_pod_full_name i.pod) (get_pod_full_name p) i u

  pub add_or_update-Holds :
      (a b : Heap PodInfo) (u : Dict PodInfo) (i : PodInfo)
      → Holds a b u
      → names.IsNamed i.pod
      → is_in api a i.pod ≡ false
      → is_in api b i.pod ≡ false
      → Holds a b (add_or_update api i u)
  unfolding add_or_update
  add_or_update-Holds a b u i x n ea eb = record {
    active = x.active;
    backoff = x.backoff;
    distinct = Dict.insert-Distinct (get_pod_full_name i.pod) i u x.distinct;
    active_entries = x.active_entries;
    backoff_entries = x.backoff_entries;
    unschedulable_entries = λ key j e. ground (
      arith,
      Dict.lookup-insert (get_pod_full_name i.pod) key i u,
      str_eq_iff (get_pod_full_name i.pod) key,
      x.unschedulable_entries key j,
    );
    one_place = λ p m. ground (
      arith,
      is_unschedulable-add u i p,
      names.same_key i.pod p n m,
      is_in_key a i.pod p,
      is_in_key b i.pod p,
      x.one_place p m,
    );
  }

  -- A delete of the unschedulableQ takes the pod out.
  pub is_unschedulable-delete :
      (u : Dict PodInfo) (pod : Pod) → is_unschedulable api (delete api pod u) pod ≡ false
  unfolding is_unschedulable delete
  is_unschedulable-delete u pod =
      Dict.has-none (get_pod_full_name pod) (Dict.remove (get_pod_full_name pod) u)
        (Dict.lookup-remove_self (get_pod_full_name pod) u)

  pub is_unschedulable-remove :
      (u : Dict PodInfo) (pod p : Pod)
      → names.IsNamed pod
      → names.IsNamed p
      → is_unschedulable api (delete api pod u) p ≡ (
          not (str_eq (api.meta_namespace_key pod) (api.meta_namespace_key p))
          && is_unschedulable api u p)
  unfolding is_unschedulable delete
  is_unschedulable-remove u pod p n m =
      rw (names.same_key pod p n m)
        (Dict.has-remove (get_pod_full_name pod) (get_pod_full_name p) u)

  pub is_unschedulable-insert :
      (u : Dict PodInfo) (i : PodInfo) (p : Pod)
      → names.IsNamed i.pod
      → names.IsNamed p
      → is_unschedulable api (add_or_update api i u) p ≡ (
          str_eq (api.meta_namespace_key i.pod) (api.meta_namespace_key p)
          || is_unschedulable api u p)
  is_unschedulable-insert u i p n m = rw (names.same_key i.pod p n m) (is_unschedulable-add u i p)
