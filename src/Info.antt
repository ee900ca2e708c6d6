-- ===== src/Info.antt =====
-- pkg/scheduler/info: what the scheduler keeps about nodes and pools.
pub mod HostPorts
pub mod Resource
pub mod NodeInfo
pub mod NodeTree
pub mod Store
pub mod PoolInfo
