-- ===== src/Queue/Updates.antt =====
-- Update of pkg/scheduler/internal/queue/scheduling_queue.go on the places of the pods.
use ai_scheduler.Prelude.{
  ℕ, ◌≡◌, refl, sym, ◌∙◌, Bool, true, false, none, some, Option, str_eq_iff, if◌then◌else◌, arith,
  Option-cases, inl, inr, Bool-cases,
}
use ai_scheduler.Kube.{Pod}
use ai_scheduler.Util.Heap
use ai_scheduler.Util.Heap.{Heap, HeapError, get_by_key, add_key, delete_key}
use ai_scheduler.Util.Heap.Order.{IsOrder}
use ai_scheduler.Util.Heap.Keys.{delete_key-Without}
use ai_scheduler.Queue.{
  QueueApi, QueueError, PriorityQueue, PodInfo, get, delete, pods_compare_backoff_completed,
  new_pod_info, new_pod_info_no_timestamp, clear_pod_backoff, get_pod_full_name, is_pod_updated,
  pod_info_key_func,
}
use ai_scheduler.Queue.Ops.{
  update, update_in_active, update_in_backoff, update_in_unschedulable, update_elsewhere,
  delete_from_backoff,
}
use ai_scheduler.Queue.Nominated
use ai_scheduler.Queue.Places.{Naming}
use ai_scheduler.Queue.Invariant.{
  Place, nowhere, in_active_q, in_backoff_q, in_unschedulable_q, same, place_of, IsQueue, Leads,
  add_to_active_lem, nominate-Leads, others-Leads, get_is_in, is_unschedulable-get, in_active_lem,
  in_backoff_lem,
}
use ai_scheduler.Queue.Presence.{place_of_key, found_active, found_backoff, found_unschedulable}
use ai_scheduler.Queue.Steps.{clear_pod_backoff-IsBackoff}
use ai_scheduler.Queue.Changes.{
  is_active_q, is_backoff_q, place_tells, backing-Leads, put_unschedulable, drop_backoff,
  drop_unschedulable, put_active,
}

module _ (api : QueueApi) (less : PodInfo → PodInfo → Bool) (o : IsOrder less)
    (names : Naming api) where
  -- Where an updated pod goes: to the activeQ, except that one in the unschedulableQ stays where the
  -- update does not bear on its scheduling.
  abbrev pub after_update : Bool → Place → Place
  after_update updated nowhere = in_active_q
  after_update updated in_active_q = in_active_q
  after_update updated in_backoff_q = in_active_q
  after_update updated in_unschedulable_q = if updated then in_active_q else in_unschedulable_q

  abbrev pub Goes : Pod → Place → PriorityQueue → PriorityQueue × Option QueueError → Type 0
  Goes new w q r =
      (r.1 ≡ none) × Leads api less names r.0 (λ p. if same api new p then w else place_of api q p)

  update_in_active-Goes :
      (old new : Pod) (i : PodInfo) (q : PriorityQueue)
      → IsQueue api less names q
      → names.IsNamed new
      → place_of api q new ≡ in_active_q
      → Goes new in_active_q q (update_in_active api less old new i q)
  unfolding update_in_active
  update_in_active-Goes old new i q x n at =
      let j : PodInfo = record { pod = new; timestamp = i.timestamp } in
      let npm = Nominated.update old new q.nominated_pods in
      rw (add_to_active_lem api less j (record q { nominated_pods = npm })) (
        refl,
        others-Leads api less names npm q.scheduling_cycle q.move_request_cycle q.closed _ _
            (put_active api less names o j q x n (ground arith) (ground arith)),
      )

  update_in_backoff-Goes :
      (old new : Pod) (i : PodInfo) (q : PriorityQueue)
      → IsQueue api less names q
      → names.IsNamed old
      → names.IsNamed new
      → same api old new ≡ true
      → place_of api q old ≡ in_backoff_q
      → Goes new in_active_q q (update_in_backoff api less old new i q)
  unfolding update_in_backoff new_pod_info_no_timestamp delete_from_backoff Heap.delete
      pod_info_key_func
  update_in_backoff-Goes old new i q x m n e at =
      let j : PodInfo = record { pod = new; timestamp = i.timestamp } in
      let npm = Nominated.update old new q.nominated_pods in
      let cmp = pods_compare_backoff_completed api q.pod_backoff in
      let key = api.meta_namespace_key old in
      let b' : Heap PodInfo = (delete_key cmp q.pod_backoff_q key).0 in
      let q1 : PriorityQueue = record q { pod_backoff_q = b' } in
      let (x1, f1) =
        drop_backoff api less names b' old q x
          (delete_key-Without cmp q.pod_backoff_q key x.places.backoff) in
      let same_place = place_of_key api less o names q old new m n e in
      let (x2, f2) =
        put_active api less names o j q1 x1 n (ground (arith, f1 new n))
          (ground (arith, f1 new n)) in
      rw (add_to_active_lem api less j (record q1 { nominated_pods = npm })) (
        refl,
        others-Leads api less names npm q.scheduling_cycle q.move_request_cycle q.closed _ _ (
          x2,
          λ p w. ground (arith, f2 p w, f1 p w, str_eq_iff key (api.meta_namespace_key new)),
        ),
      )

  update_in_unschedulable-Goes :
      (old new : Pod) (u : PodInfo) (q : PriorityQueue)
      → IsQueue api less names q
      → names.IsNamed new
      → names.IsNamed u.pod
      → same api u.pod new ≡ true
      → place_of api q new ≡ in_unschedulable_q
      → Goes new
          (if is_pod_updated api old new then in_active_q else in_unschedulable_q)
          q
          (update_in_unschedulable api less old new u q)
  unfolding update_in_unschedulable
  update_in_unschedulable-Goes old new u q x n m e at =
      let j : PodInfo = record { pod = new; timestamp = u.timestamp } in
      let npm = Nominated.update old new q.nominated_pods in
      elim (Bool-cases (is_pod_updated api old new)) [
        | inl f ↦
            let c = clear_pod_backoff api new q.pod_backoff in
            let q1 : PriorityQueue = record q { pod_backoff = c } in
            let (x1, f1) =
              backing-Leads api less names c q x
                (clear_pod_backoff-IsBackoff api less o names new q.pod_backoff x.backing) in
            let (x2, f2) = drop_unschedulable api less names u.pod q1 m x1 in
            let q2 : PriorityQueue = record q1 {
              unschedulable_q = delete api u.pod q.unschedulable_q;
            } in
            let (x3, f3) =
              put_active api less names o j q2 x2 n (ground (arith, f2 new n, f1 new n))
                (ground (arith, f2 new n, f1 new n)) in
            rw
              (
                update_in_unschedulable,
                f,
                add_to_active_lem api less j (record q2 { nominated_pods = npm }),
              )
              (
                refl,
                others-Leads api less names npm q.scheduling_cycle q.move_request_cycle q.closed _ _
                    (
                      x3,
                      λ p w. ground (
                        arith,
                        f3 p w,
                        f2 p w,
                        f1 p w,
                        str_eq_iff (api.meta_namespace_key u.pod) (api.meta_namespace_key new),
                      ),
                    ),
              )
        | inr f ↦
            rw (update_in_unschedulable, f)
              (
                refl,
                others-Leads api less names npm q.scheduling_cycle q.move_request_cycle q.closed _ _
                    (put_unschedulable api less names j q x n (ground arith) (ground arith)),
              )
      ]

  entry_of :
      (q : PriorityQueue) (pod : Pod) (u : PodInfo)
      → IsQueue api less names q
      → get api pod q.unschedulable_q ≡ some u
      → (get_pod_full_name pod ≡ get_pod_full_name u.pod) × names.IsNamed u.pod
  unfolding get
  entry_of q pod u x e = x.places.unschedulable_entries (get_pod_full_name pod) u e

  update_elsewhere-Goes :
      (now : ℕ) (old new : Pod) (q : PriorityQueue)
      → IsQueue api less names q
      → names.IsNamed new
      → is_active_q (place_of api q new) ≡ false
      → is_backoff_q (place_of api q new) ≡ false
      → (r : PriorityQueue × Option QueueError) × (update_elsewhere api less now (some old) new q
          ≡ some r)
        × Goes new (after_update (is_pod_updated api old new) (place_of api q new)) q r
  unfolding update_elsewhere new_pod_info
  update_elsewhere-Goes now old new q x n ea eb =
      let j : PodInfo = record { pod = new; timestamp = now } in
      elim (Option-cases (get api new q.unschedulable_q)) [
        | inr (u, e) ↦
            let at = found_unschedulable api less o names q new u x n e in
            let (key, named) = entry_of q new u x e in
            let k : (same api u.pod new ≡ true) = ground (
              arith,
              names.same_key u.pod new named n,
              str_eq_iff (get_pod_full_name u.pod) (get_pod_full_name new),
            ) in
            rw (update_elsewhere, e, at)
              (_, refl, update_in_unschedulable-Goes old new u q x n named k at)
        | inl e ↦
            let at : (place_of api q new ≡ nowhere) =
              ground
                (arith, place_tells api less names q new x n, is_unschedulable-get api q new) in
            rw (update_elsewhere, e, at, add_to_active_lem api less j q)
              (
                _,
                refl,
                (
                  refl,
                  nominate-Leads api less names new _ _
                      (put_active api less names o j q x n (ground arith) (ground arith)),
                ),
              )
      ]

  -- Update of a pod under a key that it keeps, on a queue in good order, has no error, brings the pod
  -- into the activeQ, except where it was in the unschedulableQ and the update does not bear on its
  -- scheduling: then it stays. It moves no other pod and keeps the queue in good order.
  pub update-Goes :
      (now : ℕ) (old new : Pod) (q : PriorityQueue)
      → names.IsNamed old
      → names.IsNamed new
      → same api old new ≡ true
      → IsQueue api less names q
      → (r : PriorityQueue × Option QueueError) × (update api less now (some old) new q ≡ some r)
        × Goes new (after_update (is_pod_updated api old new) (place_of api q new)) q r
  unfolding update new_pod_info_no_timestamp
  update-Goes now old new q m n e x =
      let i : PodInfo = record { pod = old; timestamp = 0 } in
      let active = in_active_lem api i q in
      let backing = in_backoff_lem api i q in
      let key = api.meta_namespace_key old in
      let moved = place_of_key api less o names q old new m n e in
      let tells = place_tells api less names q old x m in
      elim (Option-cases (get_by_key q.active_q key)) [
        | inr (a, f) ↦
            let at = sym moved ∙ found_active api less o names q old a x m f in
            rw (update, active, f, at) (_, refl, update_in_active-Goes old new a q x n at)
        | inl f ↦ elim (Option-cases (get_by_key q.pod_backoff_q key)) [
          | inr (b, g) ↦
              let at = found_backoff api less o names q old b x m g in
              rw (update, active, f, backing, g, sym moved, at)
                (_, refl, update_in_backoff-Goes old new b q x m n e at)
          | inl g ↦
              rw (update, active, f, backing, g)
                (update_elsewhere-Goes now old new q x n
                  (ground (arith, tells, moved, get_is_in api q.active_q old))
                  (ground (arith, tells, moved, get_is_in api q.pod_backoff_q old)))
        ]
      ]
