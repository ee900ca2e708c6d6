-- ===== src/Priorities.antt =====
-- pkg/scheduler/algorithm/priorities: the functions that score a node for a pod.
pub mod Allocation
pub mod Reduce
pub mod Taints
pub mod Limits
