-- ===== src/Lib.antt =====
-- The scheduler's bookkeeping, modelled and proved.
--
-- ai-scheduler is the Kubernetes scheduler with resource pools: every node belongs to a pool, by the
-- pool's node selector, and every pod asks for a pool by an annotation. The scheduler assumes a pod on
-- a node before the API server has confirmed the binding, and keeps per node and per pool what is
-- requested, used and free; the predicates and priorities read those totals.
--
-- Parts, from the bottom up:
--   * Kube: the API objects by the fields that the code reads, and, in the record External, the
--     functions of other repositories that it calls: IsScalarResourceName, GetZoneKey, and the
--     matching of label selectors. They are parameters everywhere.
--   * Info.HostPorts: pkg/scheduler/info/host_ports.go. A Go map is an association list (Prelude.Dict);
--     Add, Remove, CheckConflict, Len are add, remove, check_conflict, len.
--   * Info.Resource: type Resource of pkg/scheduler/info/node_info.go and the pod requests of
--     pkg/scheduler/info/util.go. An int64 is a word below 2 ^ 64 in two's complement (Prelude.Int64),
--     and every operation wraps around as in Go.
--   * Info.NodeInfo: type NodeInfo of pkg/scheduler/info/node_info.go. AddPod, RemovePod, SetNode,
--     RemoveNode, Filter and FilterOutPods keep their names in snake case. The generation counter of
--     the package is passed in and out.
--   * Info.NodeTree: pkg/scheduler/info/node_tree.go. The loop of Next runs on fuel: one step for each
--     zone and one more, since the arrays start afresh once as many zones as there are were exhausted.
--   * Info.Store and Info.PoolInfo: pkg/scheduler/info/pool_info.go. The list items of all pools live in
--     one store and are named by their index in it, since pools hand items to one another. The nil
--     receivers that some methods accept are left out.
--   * Cache: the pods of pkg/scheduler/internal/cache/cache.go, with Cache.Phases for the state machine
--     that pkg/scheduler/internal/cache/interface.go draws. AddPod, RemovePod and so on are add_pod,
--     remove_pod; the private addPod, updatePod, removePod are add_to_pool, update_in_pool and
--     remove_from_pool. A nil pointer, panic and klog.Fatalf are the outcome `crashed`. The mutex makes
--     each exported method one step, so that a history of the cache is a sequence of calls.
--     Cache.Images has addNodeImageStates and removeNodeImageStates, on the cache's map of images.
--   * Priorities: least_requested.go, most_requested.go, resource_allocation.go, reduce.go,
--     resource_limits.go, taint_toleration.go of pkg/scheduler/algorithm/priorities.
--   * Util.Heap: pkg/scheduler/util/heap.go and what it calls of container/heap. The loops of up and down
--     run on fuel, one more than the place and than the length, since the place falls or grows.
--   * Util.Backoff: pkg/scheduler/util/backoff_utils.go. The loop of Gc runs on fuel: one step for each
--     entry and one more, since each takes an entry away.
--   * Queue: pkg/scheduler/internal/queue/scheduling_queue.go, with Queue.Nominated for the nominated
--     pods, Queue.Moves for the moves between the three queues, Queue.Ops for the other methods and
--     Queue.Order for the orders, that of pool_queue.go included. The other children prove, for each
--     operation, in which of the queues every pod is afterwards (Queue.Invariant.Leads). What the queue
--     calls in other repositories is the record QueueApi; that its keys tell the pods apart alike is the
--     record Naming. The loop of flushBackoffQCompleted has fuel for each pod and one turn more.
--   * Predicates: of pkg/scheduler/algorithm/predicates/predicates.go those on resources, the host, host
--     ports, taints, conditions, and the pressure on disks and process ids.
--   * Prelude: Boolean tests, lists, maps and machine integers. Tests: the theorems at concrete objects.
--
-- Not modelled: the moves of nodes between pools, the snapshots, the queues of all the pools together,
-- the FIFO, which wraps one of another repository, the remaining predicates, the generic scheduler with
-- its extenders, and the other priorities; the wiring, the generated clients, metrics and logging.
pub mod Prelude
pub mod Kube
pub mod Info
pub mod Priorities
pub mod Util
pub mod Queue
pub mod Predicates
pub mod Cache
pub mod Tests
