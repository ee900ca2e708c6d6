-- ===== src/Info/PoolInfo/Resources.antt =====
-- The resource totals of a pool under the operations of pool_info.go.
use ai_scheduler.Prelude.{ℕ, ◌≡◌, refl, ◌∙◌, ap, arith, Bool-cases, inl, inr}
use ai_scheduler.Prelude.Int64
use ai_scheduler.Prelude.Int64.{InRange}
use ai_scheduler.Kube.{Pod, Node, External, ResourceList}
use ai_scheduler.Info.Resource
use ai_scheduler.Info.Resource.{Resource, empty_resource, get_resource_request_for_pool}
use ai_scheduler.Info.Resource.Amount.{
  Dimension, amount, IsResource, Same, amount-sub, amount-empty_resource, empty_resource-IsResource,
}
use ai_scheduler.Info.Resource.Arithmetic.{sub-plus}
use ai_scheduler.Info.Resource.Requests.{
  requested, amount-add, add-IsResource, new_resource-IsResource,
  get_resource_request_for_pool-IsResource,
}
use ai_scheduler.Info.PoolInfo.{
  PoolInfo, match_pod, plus_pod_resource, reduce_pod_resource, count_node, discount_node,
}

-- The totals are int64 words, and hold no scalar twice.
pub record IsTotalled (p : PoolInfo) : Type 0 where
  pub capacity : IsResource p.capacity
  pub allocatable : IsResource p.allocatable
  pub used : IsResource p.used
  pub shared : IsResource p.shared

pub record SameTotals (p q : PoolInfo) : Type 0 where
  pub capacity : Same p.capacity q.capacity
  pub allocatable : Same p.allocatable q.allocatable
  pub used : Same p.used q.used
  pub shared : Same p.shared q.shared

add_zero_left : (a b : ℕ) → Int64.add a b ≡ Int64.add a (Int64.add 0 b)
unfolding Int64.add
add_zero_left a b = omega arith

module _ (ext : External) where
  pub amount-new_resource :
      (d : Dimension) (rl : ResourceList)
      → amount d (Resource.new_resource ext rl) ≡ Int64.add 0 (requested ext d rl)
  unfolding Resource.new_resource
  amount-new_resource d rl =
      amount-add ext d empty_resource rl (empty_resource-IsResource.words d)
      ∙ ap (λ (x : ℕ). Int64.add x (requested ext d rl)) (amount-empty_resource d)

  -- Adding a list is adding the resource made of it.
  pub amount-add_new :
      (d : Dimension) (r : Resource) (rl : ResourceList)
      → IsResource r
      → amount d (Resource.add ext r rl)
        ≡ Int64.add (amount d r) (amount d (Resource.new_resource ext rl))
  amount-add_new d r rl v =
      rw (amount-add ext d r rl (v.words d), amount-new_resource d rl)
        (add_zero_left (amount d r) (requested ext d rl))

  sub-add_new :
      (r : Resource) (rl : ResourceList)
      → IsResource r
      → Same (Resource.sub (Resource.add ext r rl) (Resource.new_resource ext rl)) r
  sub-add_new r rl v d =
      rw
        (
          amount-sub d _ _ (add-IsResource ext r rl v) (new_resource-IsResource ext rl),
          amount-add_new d r rl v,
        )
        (Int64.sub-add _ _ (v.words d) ((new_resource-IsResource ext rl).words d))

  -- In a pool whose totals are int64 words and hold no scalar twice, taking a pod's request back
  -- out leaves the totals as they were before it was counted: the pod is in `shared` on the way
  -- out exactly where it was on the way in.
  pub reduce-plus_pod_resource :
      (p : PoolInfo) (pod : Pod)
      → IsTotalled p
      → SameTotals (reduce_pod_resource ext (plus_pod_resource ext p pod) pod) p
  unfolding reduce_pod_resource plus_pod_resource match_pod
  reduce-plus_pod_resource p pod t =
      let res = get_resource_request_for_pool-IsResource ext pod in
      record {
        capacity = λ d. refl;
        allocatable = λ d. refl;
        used = sub-plus p.used _ t.used res;
        shared = elim (Bool-cases (match_pod p pod)) [
          | inl own ↦ rw own (λ d. refl)
          | inr other ↦ rw other (sub-plus p.shared _ t.shared res)
        ];
      }

  -- In a pool whose totals are int64 words and hold no scalar twice, taking a node's resources
  -- back out leaves the totals as they were before it was counted.
  pub discount-count_node :
      (p : PoolInfo) (node : Node)
      → IsTotalled p
      → SameTotals (discount_node ext (count_node ext p node) node) p
  unfolding discount_node count_node
  discount-count_node p node t = record {
    capacity = sub-add_new p.capacity node.capacity t.capacity;
    allocatable = sub-add_new p.allocatable node.allocatable t.allocatable;
    used = λ d. refl;
    shared = λ d. refl;
  }
