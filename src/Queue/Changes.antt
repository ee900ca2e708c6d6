-- ===== src/Queue/Changes.antt =====
-- The single additions and deletions of the three queues of a PriorityQueue, on the places of the pods.
use ai_scheduler.Prelude.{◌≡◌, sym, ◌∙◌, Bool, true, false, if◌then◌else◌, arith}
use ai_scheduler.Kube.{Pod}
use ai_scheduler.Util.Heap.{Heap, add_key, delete_key}
use ai_scheduler.Util.Heap.Order.{IsOrder}
use ai_scheduler.Util.Heap.Least.{add_key-HasAdded}
use ai_scheduler.Util.Heap.Laws.{delete_key-HasDeleted}
use ai_scheduler.Util.Heap.Keys.{add_key-With, Without}
use ai_scheduler.Util.Backoff.{PodBackoff}
use ai_scheduler.Util.Backoff.Steps.{IsBackoff}
use ai_scheduler.Queue.{QueueApi, PriorityQueue, PodInfo, delete, add_or_update}
use ai_scheduler.Queue.Places.{
  Naming, is_in, is_unschedulable, is_in-add, is_in-delete, is_unschedulable-remove,
  is_unschedulable-insert, is_in_key, add_active-Holds, With-backoff-Holds, Without-backoff-Holds,
  delete-Holds, delete_active-Holds, add_or_update-Holds,
}
use ai_scheduler.Queue.Invariant.{
  Place, nowhere, in_active_q, in_backoff_q, in_unschedulable_q, same, place, place_of,
  place_of_lem, IsQueue, Leads, leads,
}

abbrev pub is_active_q : Place → Bool
is_active_q in_active_q = true
is_active_q in_backoff_q = false
is_active_q in_unschedulable_q = false
is_active_q nowhere = false

abbrev pub is_backoff_q : Place → Bool
is_backoff_q in_active_q = false
is_backoff_q in_backoff_q = true
is_backoff_q in_unschedulable_q = false
is_backoff_q nowhere = false

abbrev pub is_unschedulable_q : Place → Bool
is_unschedulable_q in_active_q = false
is_unschedulable_q in_backoff_q = false
is_unschedulable_q in_unschedulable_q = true
is_unschedulable_q nowhere = false

module _ (api : QueueApi) (less : PodInfo → PodInfo → Bool) (names : Naming api) where
  -- The place of a pod tells of each queue whether it has the pod.
  pub place_tells :
      (q : PriorityQueue) (p : Pod)
      → IsQueue api less names q
      → names.IsNamed p
      → (is_in api q.active_q p ≡ is_active_q (place_of api q p))
        × (is_in api q.pod_backoff_q p ≡ is_backoff_q (place_of api q p))
        × (is_unschedulable api q.unschedulable_q p ≡ is_unschedulable_q (place_of api q p))
  unfolding place
  place_tells q p x n = ground (arith, place_of_lem api q p, x.places.one_place p n)

  pub backing-Leads :
      (b : PodBackoff) (q : PriorityQueue)
      → IsQueue api less names q
      → IsBackoff api.namespaced_key b
      → Leads api less names (record q { pod_backoff = b }) (place_of api q)
  backing-Leads b q x y =
      leads api less names (record q { pod_backoff = b }) (place_of api q) x.places y
        (λ p m. sym (place_of_lem api q p))

  pub put_backoff :
      (cmp : PodInfo → PodInfo → Bool) (i : PodInfo) (q : PriorityQueue)
      → IsQueue api less names q
      → names.IsNamed i.pod
      → is_active_q (place_of api q i.pod) ≡ false
      → is_unschedulable_q (place_of api q i.pod) ≡ false
      → Leads api less names
          (record q {
            pod_backoff_q = add_key cmp q.pod_backoff_q (api.meta_namespace_key i.pod) i;
          })
          (λ p. if same api i.pod p then in_backoff_q else place_of api q p)
  unfolding place
  put_backoff cmp i q x n ea eu =
      let w = add_key-With cmp q.pod_backoff_q (api.meta_namespace_key i.pod) i x.places.backoff in
      let b' : Heap PodInfo = add_key cmp q.pod_backoff_q (api.meta_namespace_key i.pod) i in
      let (ta, tb, tu) = place_tells q i.pod x n in
      leads api less names (record q { pod_backoff_q = b' }) _
        (With-backoff-Holds api less names q.active_q q.pod_backoff_q b' q.unschedulable_q i
          x.places n (ta ∙ ea) (tu ∙ eu) w)
        x.backing
        (λ p m. ground (
          arith,
          place_tells q p x m,
          is_in_key api less names q.active_q i.pod p,
          place_of_lem api q p,
          is_in-add api less names q.pod_backoff_q b' (api.meta_namespace_key i.pod) i p w.1,
          ta,
          ea,
        ))

  pub put_unschedulable :
      (i : PodInfo) (q : PriorityQueue)
      → IsQueue api less names q
      → names.IsNamed i.pod
      → is_active_q (place_of api q i.pod) ≡ false
      → is_backoff_q (place_of api q i.pod) ≡ false
      → Leads api less names
          (record q { unschedulable_q = add_or_update api i q.unschedulable_q })
          (λ p. if same api i.pod p then in_unschedulable_q else place_of api q p)
  unfolding place
  put_unschedulable i q x n ea eb =
      let (ta, tb, tu) = place_tells q i.pod x n in
      leads api less names (record q { unschedulable_q = add_or_update api i q.unschedulable_q }) _
        (add_or_update-Holds api less names q.active_q q.pod_backoff_q q.unschedulable_q i x.places
          n (ta ∙ ea) (tb ∙ eb))
        x.backing
        (λ p m. ground (
          arith,
          is_in_key api less names q.active_q i.pod p,
          is_in_key api less names q.pod_backoff_q i.pod p,
          place_of_lem api q p,
          is_unschedulable-insert api less names q.unschedulable_q i p n m,
          ta,
          tb,
          ea,
          eb,
        ))

  -- What a pod's place becomes when the pod is deleted from one of the queues.
  abbrev pub forget : (Place → Bool) → Place → Place
  forget test w = if test w then nowhere else w

  pub drop_backoff :
      (b' : Heap PodInfo) (pod : Pod) (q : PriorityQueue)
      → IsQueue api less names q
      → Without q.pod_backoff_q (api.meta_namespace_key pod) b'
      → Leads api less names
          (record q { pod_backoff_q = b' })
          (λ p. if same api pod p then forget is_backoff_q (place_of api q p) else place_of api q p)
  unfolding place
  drop_backoff b' pod q x w =
      leads api less names (record q { pod_backoff_q = b' }) _
        (Without-backoff-Holds api less names q.active_q q.pod_backoff_q b' q.unschedulable_q
          (api.meta_namespace_key pod) x.places w)
        x.backing
        (λ p m. ground (
          arith,
          place_of_lem api q p,
          x.places.one_place p m,
          is_in-delete api less names q.pod_backoff_q b' (api.meta_namespace_key pod) p w.1,
        ))

  pub drop_unschedulable :
      (pod : Pod) (q : PriorityQueue)
      → names.IsNamed pod
      → IsQueue api less names q
      → Leads api less names
          (record q { unschedulable_q = delete api pod q.unschedulable_q })
          (λ p.
            if same api pod p
            then forget is_unschedulable_q (place_of api q p)
            else place_of api q p)
  unfolding place
  drop_unschedulable pod q n x =
      leads api less names (record q { unschedulable_q = delete api pod q.unschedulable_q }) _
        (delete-Holds api less names q.active_q q.pod_backoff_q q.unschedulable_q pod x.places)
        x.backing
        (λ p m. ground (
          arith,
          place_of_lem api q p,
          x.places.one_place p m,
          is_unschedulable-remove api less names q.unschedulable_q pod p n m,
        ))

  module _ (o : IsOrder less) where
    pub put_active :
        (i : PodInfo) (q : PriorityQueue)
        → IsQueue api less names q
        → names.IsNamed i.pod
        → is_backoff_q (place_of api q i.pod) ≡ false
        → is_unschedulable_q (place_of api q i.pod) ≡ false
        → Leads api less names
            (record q { active_q = add_key less q.active_q (api.meta_namespace_key i.pod) i })
            (λ p. if same api i.pod p then in_active_q else place_of api q p)
    unfolding place
    put_active i q x n eb eu =
        let added =
          (add_key-HasAdded less o q.active_q (api.meta_namespace_key i.pod) i x.places.active).1 in
        let a' : Heap PodInfo = add_key less q.active_q (api.meta_namespace_key i.pod) i in
        let (ta, tb, tu) = place_tells q i.pod x n in
        leads api less names (record q { active_q = a' }) _
          (add_active-Holds api less names o q.active_q q.pod_backoff_q q.unschedulable_q i x.places
            n (tb ∙ eb) (tu ∙ eu))
          x.backing
          (λ p m. ground (
            arith,
            place_of_lem api q p,
            is_in-add api less names q.active_q a' (api.meta_namespace_key i.pod) i p added,
          ))

    pub drop_active :
        (pod : Pod) (q : PriorityQueue)
        → IsQueue api less names q
        → Leads api less names
            (record q { active_q = (delete_key less q.active_q (api.meta_namespace_key pod)).0 })
            (λ p.
              if same api pod p then forget is_active_q (place_of api q p) else place_of api q p)
    unfolding place
    drop_active pod q x =
        let s =
          (delete_key-HasDeleted less o q.active_q (api.meta_namespace_key pod)
            x.places.active).0.1 in
        let a' : Heap PodInfo = (delete_key less q.active_q (api.meta_namespace_key pod)).0 in
        leads api less names (record q { active_q = a' }) _
          (delete_active-Holds api less names o q.active_q q.pod_backoff_q q.unschedulable_q
            (api.meta_namespace_key pod) x.places)
          x.backing
          (λ p m. ground (
            arith,
            place_of_lem api q p,
            x.places.one_place p m,
            is_in-delete api less names q.active_q a' (api.meta_namespace_key pod) p s,
          ))
