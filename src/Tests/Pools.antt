-- ===== src/Tests/Pools.antt =====
-- The theorems on pools at concrete pools.
use ai_scheduler.Prelude.{◌≡◌, true, some, ◌↔◌}
use ai_scheduler.Info.Resource.Amount.{empty_resource-IsResource}
use ai_scheduler.Info.PoolInfo.{
  PoolInfo, new_pool_info, can_borrow_pool, match_node, plus_pod_resource, reduce_pod_resource,
}
use ai_scheduler.Info.PoolInfo.Policy.{MayBorrow, can_borrow_pool_iff, Takes, match_node_iff}
use ai_scheduler.Info.PoolInfo.Resources.{IsTotalled, SameTotals, reduce-plus_pod_resource}
use ai_scheduler.Tests.{kube, web, north, gpu_pool, cpu_pool}

abbrev gpu : PoolInfo
gpu = record new_pool_info { pool = some gpu_pool }

abbrev cpu : PoolInfo
cpu = record new_pool_info { pool = some cpu_pool }

can_borrow_pool_iff_example : (can_borrow_pool gpu cpu ≡ true) ↔ MayBorrow gpu cpu
can_borrow_pool_iff_example = can_borrow_pool_iff gpu cpu

match_node_iff_example : (match_node kube gpu north ≡ true) ↔ Takes kube gpu north
match_node_iff_example = match_node_iff kube gpu north

gpu-IsTotalled : IsTotalled gpu
unfolding new_pool_info
gpu-IsTotalled = record {
  capacity = empty_resource-IsResource;
  allocatable = empty_resource-IsResource;
  used = empty_resource-IsResource;
  shared = empty_resource-IsResource;
}

reduce-plus_pod_resource_example :
    SameTotals (reduce_pod_resource kube (plus_pod_resource kube gpu web) web) gpu
reduce-plus_pod_resource_example = reduce-plus_pod_resource kube gpu web gpu-IsTotalled
