-- ===== src/Partition/Defs.antt =====
-- The methods of a partition that add: allocations, applications (cache/partition_info.go).
use yunikorn_study.Prelude.{
  String, ℕ, Option, none, some, Bool, false, not, ◌||◌, if◌then◌else◌, List, [], ◌∷◌,
}
use yunikorn_study.Dict.{Dict, lookup, insert}
use yunikorn_study.Text.{split, to_lower}
use yunikorn_study.Resource.{add_resource, fit_in}
use yunikorn_study.Allocation.{Allocation, AllocationProposal, new_allocation}
use yunikorn_study.Node
use yunikorn_study.Node.{Node}
use yunikorn_study.Application
use yunikorn_study.Application.{Application}
use yunikorn_study.Queue.{Heap, inc_allocated_resource}
use yunikorn_study.State.{is_draining, is_stopped}
use yunikorn_study.Partition.Monad.{
  Partition, stopped, application_exists, no_node, no_application, no_leaf_queue, over_node, Action,
  ◌>>=◌, ◌>>◌, pure, get, modify, guard, or_fail, or_hang, charge,
}

-- The walk of `getQueue` down the children; `none` is the nil queue.
unfoldable pub walk_down : Heap → ℕ → List String → Option ℕ
walk_down h p [] = some p
walk_down h p (part ∷ parts) = elim (h.cell p) [
  | none ↦ none
  | some q ↦ elim (lookup part q.children) [ none ↦ none | some c ↦ walk_down h c parts ]
]

-- The first part of the name is not looked at: it stands for the root.
abbrev pub walk_parts : Heap → ℕ → List String → Option ℕ
walk_parts h root [] = some root
walk_parts h root (first ∷ parts) = walk_down h root parts

unfoldable pub get_queue : Partition → String → Option ℕ
get_queue pi name = walk_parts pi.queues pi.root (split b'.' (to_lower name))

-- `queue == nil || !queue.IsLeafQueue()`, where it fails.
unfoldable pub get_leaf_queue : Partition → String → Option ℕ
get_leaf_queue pi name = elim (get_queue pi name) [
  | none ↦ none
  | some p ↦ elim (pi.queues.cell p) [ none ↦ none | some q ↦ if q.is_leaf then some p else none ]
]

-- The list holds what uuid.NewV4 returns, call by call; `none` means that none of these is new.
unfoldable pub get_new_allocation_uuid : Dict Allocation → List String → Option String
get_new_allocation_uuid allocations [] = none
get_new_allocation_uuid allocations (uuid ∷ draws) = elim (lookup uuid allocations) [
  | none ↦ some uuid
  | some _ ↦ get_new_allocation_uuid allocations draws
]

-- The writes at the end of `addNewAllocationInternal`.
unfoldable pub record_allocation : Node → Application → Allocation → Partition → Partition
record_allocation node app allocation pi = record pi {
  nodes = insert allocation.node_id (Node.add_allocation node allocation) pi.nodes;
  applications =
      insert allocation.application_id (Application.add_allocation app allocation) pi.applications;
  allocations = insert allocation.uuid allocation pi.allocations;
}

-- The second half of `addNewAllocationInternal`, on the node, the application and the queue found.
unfoldable pub place_allocation :
    AllocationProposal → Bool → List String → Node → Application → ℕ → Action Allocation
place_allocation alloc node_reported draws node app queue = do
  guard
      (fit_in (some node.total_resource)
        (some (add_resource (some node.allocated_resource) (some alloc.allocated_resource))))
      over_node
  pi ← get
  charge (inc_allocated_resource pi.queues queue (some alloc.allocated_resource) node_reported)
  uuid ← or_hang (get_new_allocation_uuid pi.allocations draws)
  let allocation = new_allocation uuid alloc
  modify (record_allocation node app allocation)
  pure allocation

unfoldable pub add_new_allocation_internal :
    AllocationProposal → Bool → List String → Action Allocation
add_new_allocation_internal alloc node_reported draws = do
  pi ← get
  guard (not (is_stopped pi.state)) stopped
  node ← or_fail (lookup alloc.node_id pi.nodes) no_node
  app ← or_fail (lookup alloc.application_id pi.applications) no_application
  queue ← or_fail (get_leaf_queue pi alloc.queue_name) no_leaf_queue
  place_allocation alloc node_reported draws node app queue

unfoldable pub add_new_allocation : AllocationProposal → List String → Action Allocation
unfolding add_new_allocation_internal
add_new_allocation proposal draws = add_new_allocation_internal proposal false draws

-- `false` for a failure where the application exists already and that is no failure.
unfoldable pub add_new_application : Application → Bool → Action (Unit {0})
add_new_application info fail_if_exist = do
  pi ← get
  guard (not (is_draining pi.state || is_stopped pi.state)) stopped
  elim (lookup info.application_id pi.applications) [
    | some _ ↦ guard (not fail_if_exist) application_exists
    | none ↦ modify (λ pi. record pi {
      applications =
          insert info.application_id (record info { leaf_queue = get_queue pi info.queue_name })
            pi.applications;
    })
  ]
