-- ===== src/Partition/Removal.antt =====
-- The methods of a partition that remove, and the registration of a node (cache/partition_info.go).
use yunikorn_study.Prelude.{
  String, ℕ, Option, none, some, true, false, not, ◌||◌, if◌then◌else◌, List, [], ◌∷◌, ◌==◌,
}
use yunikorn_study.Dict.{Dict, lookup, insert, erase}
use yunikorn_study.Resource.{
  Resource, new_resource, add_resource, sub_resource, add_to, or_zero, new_resource_from_proto,
}
use yunikorn_study.Allocation.{Allocation, AllocationProposal}
use yunikorn_study.Node
use yunikorn_study.Node.{Node}
use yunikorn_study.Application
use yunikorn_study.Application.{Application}
use yunikorn_study.Queue.{Heap, QueueError, set_max, dec_allocated_resource}
use yunikorn_study.State.{ApplicationFsm, run_application, is_accepted, is_draining, is_stopped}
use yunikorn_study.Partition.Monad.{
  Partition, stopped, node_exists, Result, ok, err, Action, ◌>>=◌, ◌>>◌, pure, get, modify, guard,
}
use yunikorn_study.Partition.Defs.{add_new_allocation_internal}

abbrev pub settled :
    Partition → Option (Heap × Option QueueError) → Option (Result (Unit {0}) × Partition)
settled pi none = none
settled pi (some (h, e)) = some (ok tt, record pi { queues = h })

-- `DecAllocatedResource` on a queue that may be nil; an error is only logged.
abbrev pub settle : Option ℕ → Resource → Action (Unit {0})
settle none r pi = some (ok tt, pi)
settle (some queue) r pi = settled pi (dec_allocated_resource pi.queues queue (some r))

abbrev pub put_application : String → Application → Partition → Partition
put_application id app pi = record pi { applications = insert id app pi.applications }

abbrev pub put_node : String → Node → Partition → Partition
put_node id node pi = record pi { nodes = insert id node pi.nodes }

-- One round of the loop of `removeNodeInternal`: by what the application gave up, and by the
-- application found.
abbrev pub release_charged : Allocation → Application × Option Allocation → Action (Unit {0})
release_charged alloc (app, none) = pure tt
release_charged alloc (app, some _) =
    modify (put_application alloc.application_id app)
    >> settle app.leaf_queue alloc.allocated_resource

abbrev pub release_found : Allocation → Option Application → Action (Unit {0})
release_found alloc none = pure tt
release_found alloc (some app) =
    release_charged alloc (Application.remove_allocation app alloc.uuid)

unfoldable pub release_node_allocation : Allocation → Action (Unit {0})
release_node_allocation alloc pi =
    release_found alloc (lookup alloc.application_id pi.applications) pi

unfoldable pub release_node_allocations : List Allocation → Action (Unit {0})
release_node_allocations [] = pure tt
release_node_allocations (alloc ∷ allocs) =
    release_node_allocation alloc >> release_node_allocations allocs

-- `pi.totalPartitionResource = total; pi.Root.MaxResource = total`
abbrev pub set_total : Resource → Partition → Partition
set_total total pi = record pi {
  total_partition_resource = total;
  queues = set_max pi.queues pi.root (some total);
}

abbrev pub remove_found : String → Option Node → Action (Unit {0})
remove_found node_id none = pure tt
remove_found node_id (some node) =
    release_node_allocations (Node.all_allocations node)
    >> modify (λ pi.
      set_total (sub_resource (some pi.total_partition_resource) (some node.total_resource))
        (record pi { nodes = erase node_id pi.nodes }))

unfoldable pub remove_node_internal : String → Action (Unit {0})
remove_node_internal node_id pi = remove_found node_id (lookup node_id pi.nodes) pi

-- What a node reports about an allocation, as a proposal.
abbrev pub reported_proposal : Allocation → AllocationProposal
reported_proposal allocation = record {
  node_id = allocation.node_id;
  application_id = allocation.application_id;
  queue_name = allocation.queue_name;
  allocated_resource = new_resource_from_proto allocation.resource_per_alloc;
  allocation_key = allocation.allocation_key;
  tags = allocation.tags;
  priority = allocation.priority;
  partition_name = String.[];
}

unfoldable pub add_node_reported_allocation : Allocation × List String → Action Allocation
add_node_reported_allocation (allocation, draws) =
    add_new_allocation_internal (reported_proposal allocation) true draws

unfoldable pub add_node_reported_allocations : List (Allocation × List String) → Action (Unit {0})
add_node_reported_allocations [] = pure tt
add_node_reported_allocations (a ∷ allocs) =
    add_node_reported_allocation a >> add_node_reported_allocations allocs

-- After an error the node is removed again.
abbrev or_remove_node : String → Action (Unit {0}) → Action (Unit {0})
or_remove_node node_id m pi = elim (m pi) [
  | none ↦ none
  | some (r, pi') ↦ elim r [
    | ok _ ↦ some (ok tt, pi')
    | err e ↦ (remove_node_internal node_id >> (λ pi. some (err e, pi))) pi'
  ]
]

-- The second loop of `addNewNode`: accepted applications with an allocation are running now.
unfoldable pub start_applications :
    ApplicationFsm → List (Allocation × List String) → Partition → Partition
start_applications fsm [] pi = pi
start_applications fsm ((alloc, draws) ∷ allocs) pi =
    start_applications fsm allocs (elim (lookup alloc.application_id pi.applications) [
      | none ↦ pi
      | some app ↦
          if is_accepted app.state
          then put_application alloc.application_id
              (Application.handle_event fsm app run_application).0 pi
          else pi
    ])

-- Each reported allocation comes with what uuid.NewV4 returns for it.
unfoldable pub add_new_node :
    ApplicationFsm → Node → List (Allocation × List String) → Action (Unit {0})
unfolding remove_node_internal
add_new_node fsm node existing = do
  pi ← get
  guard (not (is_draining pi.state || is_stopped pi.state)) stopped
  elim (lookup node.node_id pi.nodes) [ some _ ↦ guard false node_exists | none ↦ pure tt ]
  modify (λ pi.
      put_node node.node_id node
        (set_total (add_resource (some pi.total_partition_resource) (some node.total_resource)) pi))
  or_remove_node node.node_id (add_node_reported_allocations existing)
  modify (start_applications fsm existing)

-- commonevents.ReleaseAllocation
pub record ReleaseAllocation : Type 0 where
  pub uuid : String
  pub application_id : String

-- The allocations to release, and the application without them.
unfoldable pub take_from_application : Application → String → Application × List Allocation
take_from_application app uuid =
    if uuid == ""
    then Application.remove_all_allocations app
    else (let (app', removed) = Application.remove_allocation app uuid in
        (app', elim removed [ none ↦ [] | some a ↦ a ∷ [] ]))

-- The loop over the nodes, with the resources that were released on the way.
unfoldable pub release_from_nodes : List Allocation → Dict Node → Resource → Dict Node × Resource
release_from_nodes [] nodes total = (nodes, total)
release_from_nodes (alloc ∷ allocs) nodes total = elim (lookup alloc.node_id nodes) [
  | none ↦ release_from_nodes allocs nodes total
  | some node ↦ elim (Node.get_allocation node alloc.uuid) [
    | none ↦ release_from_nodes allocs nodes total
    | some _ ↦
        release_from_nodes allocs
          (insert alloc.node_id (Node.remove_allocation node alloc.uuid).0 nodes)
          (or_zero (add_to (some total) (some alloc.allocated_resource)))
  ]
]

abbrev pub erase_allocations : List Allocation → Dict Allocation → Dict Allocation
erase_allocations [] m = m
erase_allocations (alloc ∷ allocs) m = erase_allocations allocs (erase alloc.uuid m)

release_taken : List Allocation → Option ℕ → Action (List Allocation)
release_taken [] queue pi = some (ok [], pi)
release_taken (a ∷ allocs) queue pi =
    let (nodes', total) = release_from_nodes (a ∷ allocs) pi.nodes new_resource in
    (settle queue total
        >> (modify (λ pi. record pi { allocations = erase_allocations (a ∷ allocs) pi.allocations })
            >> pure (a ∷ allocs)))
      (record pi { nodes = nodes' })

unfoldable pub release_allocations_for_application :
    Option ReleaseAllocation → Action (List Allocation)
unfolding release_taken
release_allocations_for_application none pi = some (ok [], pi)
release_allocations_for_application (some to_release) pi =
    elim (lookup to_release.application_id pi.applications) [
      | none ↦ some (ok [], pi)
      | some app ↦
          let (app', released) = take_from_application app to_release.uuid in
          release_taken released app.leaf_queue (put_application to_release.application_id app' pi)
    ]

-- The loop of `RemoveApplication`: an allocation that the partition knows is deleted there, and on its
-- node, if that is there.
unfoldable pub remove_from_nodes : List Allocation → Partition → Partition
remove_from_nodes [] pi = pi
remove_from_nodes (alloc ∷ allocs) pi = elim (lookup alloc.uuid pi.allocations) [
  | none ↦ remove_from_nodes allocs pi
  | some _ ↦ remove_from_nodes allocs (
      let pi' = record pi { allocations = erase alloc.uuid pi.allocations } in
      elim (lookup alloc.node_id pi.nodes) [
        | none ↦ pi'
        | some node ↦ put_node alloc.node_id (Node.remove_allocation node alloc.uuid).0 pi'
      ])
]

remove_taken : Resource → List Allocation → Option ℕ → Action (Unit {0})
remove_taken total [] queue pi = some (ok tt, pi)
remove_taken total (a ∷ allocs) queue pi = settle queue total (remove_from_nodes (a ∷ allocs) pi)

unfoldable pub remove_application : String → Action (Option Application × List Allocation)
unfolding remove_taken
remove_application app_id pi = elim (lookup app_id pi.applications) [
  | none ↦ some (ok (none, []), pi)
  | some app ↦
      let (app', allocs) = Application.remove_all_allocations app in
      (remove_taken app.allocated_resource allocs app.leaf_queue
          >> (modify (λ pi. record pi { applications = erase app_id pi.applications })
              >> pure (some app', allocs)))
        (put_application app_id app' pi)
]

unfoldable pub remove_rejected_app : String → Action (Unit {0})
remove_rejected_app app_id =
    modify (λ pi. record pi { applications = erase app_id pi.applications })
