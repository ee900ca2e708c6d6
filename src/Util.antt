-- ===== src/Util.antt =====
-- pkg/scheduler/util: the heap, the back-off of pods and the helpers of the queues.
pub mod Heap
pub mod Backoff
