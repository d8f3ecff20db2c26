-- ===== src/Lib.antt =====
-- The core of a cluster scheduler: the cache of what is allocated, and the books that the scheduler
-- keeps of what is asked for and promised. Paths are below yunikorn-core/pkg.
--
-- Quantity, Resource: common/resources/resources.go. A `Quantity` is the bit pattern of an int64, a
--   number below 2 ^ 64, and `add` and `sub` wrap around. A `*Resource` is a dictionary, a nil one
--   `none`. In-place updates return the new value.
-- Dict: Go maps as association lists. No theorem depends on the order of a walk over a map but where
--   a definition says so.
-- State: cache/object_state.go and cache/application_state.go, with `HandleQueueEvent`,
--   `HandlePartitionEvent` and `HandleApplicationEvent`. The engine github.com/looplab/fsm is a
--   parameter, the record `Fsm`, with the three facts that its documentation gives; State/Engine has
--   an instance.
-- Acl, Text: common/security/acl.go and the string functions that the code calls, for ASCII. Text/Names
--   takes dotted queue names apart.
-- PartitionName: common/utils.go.
-- Allocation, Node, Application: cache/allocation_info.go, cache/node_info.go,
--   cache/application_info.go. Accounts has the sums that nodes and applications keep.
-- Queue: cache/queue_info.go. Queues lie on a heap and refer to each other by address. A queue is
--   made after its parent, so it has the larger address; Queue/Grow shows that the constructors keep
--   this. A walk to the root has the address plus one as its fuel, which is enough for that reason.
--   Queue/Manage has adding, marking and removing of queues and the checks of access, Queue/Config the
--   queues made from the configuration and by placement rules. The children of a queue are younger
--   than it (Queue/Links), so the number of addresses is enough fuel for `MarkQueueForRemoval`, as
--   Queue/Marked shows. Queue/Paths has the paths.
-- Partition: cache/partition_info.go. An operation is an action on a partition: it ends with a value
--   or an error and with the partition as it is then, or it meets a nil pointer (Partition/Monad).
--   Partition/Defs has allocations and applications, Partition/Removal nodes, releases and removals,
--   Partition/Create the queues made for a placement, Partition/Reload a reloaded configuration. The
--   random uuids are a list of draws: the loop for a new uuid takes the first that is not in use. A
--   queue name is cut shorter in each round of a search, so its length plus one is enough fuel.
-- Config: common/configs/configvalidator.go and the types of common/configs/config.go, from the
--   configuration that the YAML reader gives. Config/Partition has `NewPartitionInfo`. Config/Names
--   and Config/Accepts describe what is accepted, Config/Props, Config/Child, Config/Extends and
--   Config/Built follow the queues as they are made, Config/Root and Config/Validated the loop of
--   `Validate`, and Config/Ready takes a configuration through to the partition.
-- Placement: scheduler/placement. Placement/Filter and Placement/Rules have the filters and the rules,
--   Placement/Manager the manager. What Go's `regexp` makes of a text is a parameter, `compile` and
--   `match_string`, of which nothing is assumed. A rule answers with a name, an error, or the nil queue
--   that the code then calls. Placement/Answers, Placement/Places, Placement/Chosen and
--   Placement/Placed say where an application may end.
-- Requests: scheduler/requests.go and scheduler/scheduling_allocation_ask.go. The float64 arithmetic
--   of `MultiplyBy` is a parameter, and what is assumed of it stands in Requests/Books and, for exact
--   products below 2 ^ 53, in Requests/Exact; an int32 is its bit pattern.
-- Scheduling: scheduler/scheduling_queue.go and the queues of scheduler/scheduling_partition.go, on a
--   heap of their own that points into the cache. The loop of `createSchedulingQueue` has rounds as its
--   fuel, since it need not end; a walk up has the address plus one. Scheduling/Applications has the
--   applications of a scheduling partition.
-- SchedulingNode: scheduler/scheduling_node.go without the predicate plugins of the shim.
-- Tests: runs on a small partition.
--
-- Operations use each other as in the code: adding an allocation to a partition charges the queues,
-- then writes the node, the application and the partition's own list. A configuration is validated,
-- the partition is made from it with its queues, and a placement looks up and creates queues there.
--
-- Not modelled: locks, logging and metrics; the fairness ratios, which are float64 throughout; the
-- sorting of queues, the scheduler loop and preemption; the cluster cache; YAML reading; the web
-- service, the proxy to resource managers, the Kubernetes shim and generated protobuf code.
pub mod Prelude
pub mod Config
pub mod Dict
pub mod Quantity
pub mod Resource
pub mod State
pub mod PartitionName
pub mod Allocation
pub mod Accounts
pub mod Text
pub mod Acl
pub mod Application
pub mod Queue
pub mod Partition
pub mod Node
pub mod Tests
pub mod Scheduling
pub mod SchedulingNode
pub mod Requests
pub mod Placement
