-- ===== src/Partition/Sound.antt =====
-- The invariant of a partition, and that adding an allocation keeps it (cache/partition_info.go).
use yunikorn_study.Prelude.{
  String, ◌≡◌, refl, sym, ap, ◌∙◌, inl, inr, none, some, Bool, true, List, arith, Option-cases,
}
use mathlib.Core.Path.{subst}
use yunikorn_study.Dict.{
  Dict, lookup, insert, lookup-insert, lookup-insert_eq, AllValues, insert-AllValues,
}
use yunikorn_study.Resource.{add_resource, fit_in}
use yunikorn_study.Resource.Loops.{IsValid}
use yunikorn_study.Allocation.{Allocation, AllocationProposal, new_allocation}
use yunikorn_study.Node
use yunikorn_study.Node.{Node}
use yunikorn_study.Node.Accounting as NodeBooks
use yunikorn_study.Application
use yunikorn_study.Application.{Application}
use yunikorn_study.Application.Accounting as ApplicationBooks
use yunikorn_study.Queue.{Heap}
use yunikorn_study.Queue.Climb.{IsTree}
use yunikorn_study.Queue.Allocate.{inc_allocated_resource-IsTree}
use yunikorn_study.Partition.Monad.{Partition, Result, ok, err}
use yunikorn_study.Partition.Defs.{
  get_new_allocation_uuid, record_allocation, add_new_allocation_internal,
}
use yunikorn_study.Partition.Books.{
  AddSpec, Added, get_leaf_queue_cell, add_new_allocation_internal-AddSpec,
}

-- The partition knows every allocation of a map.
abbrev pub AreKnown : Dict Allocation → Dict Allocation → Type 0
AreKnown known m = (u : String) (a : Allocation) → lookup u m ≡ some a → ¬ (lookup u known ≡ none)

abbrev pub IsSoundNode : Dict Allocation → Node → Type 0
IsSoundNode known n = NodeBooks.IsSound n × AreKnown known n.allocations

abbrev pub IsSoundApplication : Dict Allocation → Application → Type 0
IsSoundApplication known a = ApplicationBooks.IsBalanced a × AreKnown known a.allocations

-- The queues are a tree, the books of every node and every application are right, and the partition
-- knows all their allocations.
pub record IsSound (pi : Partition) : Type 0 where
  pub tree : IsTree pi.queues
  pub nodes : AllValues (IsSoundNode pi.allocations) pi.nodes
  pub applications : AllValues (IsSoundApplication pi.allocations) pi.applications

-- What is known stays known when an allocation is added.
still_known :
    (u k : String) (a : Allocation) (known : Dict Allocation)
    → lookup k (insert u a known) ≡ none
    → lookup k known ≡ none
still_known u k a known e = ground (arith, lookup-insert u k a known)

AreKnown-grow :
    (a : Allocation) (known m : Dict Allocation)
    → AreKnown known m
    → AreKnown (insert a.uuid a known) m
AreKnown-grow a known m h u b e n = h u b e (still_known a.uuid u a known n)

AreKnown-insert :
    (a : Allocation) (known m : Dict Allocation)
    → AreKnown known m
    → AreKnown (insert a.uuid a known) (insert a.uuid a m)
AreKnown-insert a known m h u b e n =
    h u b (ground (arith, lookup-insert a.uuid u a known, lookup-insert a.uuid u a m))
      (still_known a.uuid u a known n)

not_known :
    (u : String) (known m : Dict Allocation)
    → AreKnown known m
    → lookup u known ≡ none
    → lookup u m ≡ none
not_known u known m h n = elim (Option-cases (lookup u m)) [
  | inl e ↦ e
  | inr (a, e) ↦ absurd (h u a e n)
]

module _ (pi : Partition) (a : Allocation) (valid : IsValid a.allocated_resource)
    (sound : IsSound pi) (fresh : lookup a.uuid pi.allocations ≡ none) where
  grown_node :
      (n : Node)
      → IsSoundNode pi.allocations n
      → IsSoundNode (insert a.uuid a pi.allocations) (Node.add_allocation n a)
  unfolding Node.add_allocation
  grown_node n h = (
    NodeBooks.add_allocation-IsSound n a h.0 valid
        (not_known a.uuid pi.allocations n.allocations h.1 fresh),
    AreKnown-insert a pi.allocations n.allocations h.1,
  )

  grown_application :
      (app : Application)
      → IsSoundApplication pi.allocations app
      → IsSoundApplication (insert a.uuid a pi.allocations) (Application.add_allocation app a)
  unfolding Application.add_allocation
  grown_application app h = (
    ApplicationBooks.add_allocation-IsBalanced app a h.0 valid
        (not_known a.uuid pi.allocations app.allocations h.1 fresh),
    AreKnown-insert a pi.allocations app.allocations h.1,
  )

  record_allocation-IsSound :
      (node : Node) (app : Application) (queues : Heap)
      → IsTree queues
      → lookup a.node_id pi.nodes ≡ some node
      → lookup a.application_id pi.applications ≡ some app
      → IsSound (record_allocation node app a (record pi { queues = queues }))
  unfolding record_allocation
  record_allocation-IsSound node app queues tree n m = record {
    tree = tree;
    nodes =
        insert-AllValues (IsSoundNode (insert a.uuid a pi.allocations)) a.node_id
          (Node.add_allocation node a) pi.nodes
          (λ k v e. (
            (sound.nodes k v e).0,
            AreKnown-grow a pi.allocations v.allocations (sound.nodes k v e).1,
          ))
          (grown_node node (sound.nodes a.node_id node n));
    applications =
        insert-AllValues (IsSoundApplication (insert a.uuid a pi.allocations)) a.application_id
          (Application.add_allocation app a) pi.applications
          (λ k v e. (
            (sound.applications k v e).0,
            AreKnown-grow a pi.allocations v.allocations (sound.applications k v e).1,
          ))
          (grown_application app (sound.applications a.application_id app m));
  }

Added-IsSound :
    (pi pi' : Partition) (alloc : AllocationProposal) (nr : Bool) (a : Allocation)
    → IsSound pi
    → IsValid alloc.allocated_resource
    → Added pi alloc nr a pi'
    → IsSound pi'
unfolding new_allocation
Added-IsSound pi pi' alloc nr a sound valid x =
    let (q, c) = get_leaf_queue_cell pi alloc.queue_name x.queue x.queue_found in
    let b = new_allocation x.uuid alloc in
    let end : pi' ≡ record_allocation x.node x.app b (record pi { queues = x.queues }) =
      x.result
      ∙ ap (λ y. record_allocation x.node x.app y (record pi { queues = x.queues })) x.allocation in
    subst IsSound (sym end) (
      record_allocation-IsSound pi b valid sound x.fresh x.node x.app x.queues
        (inc_allocated_resource-IsTree pi.queues x.queues x.queue q _ nr sound.tree c x.charged)
        x.node_found x.app_found)

-- Adding an allocation of a valid resource keeps a partition sound, whether it succeeds or fails, where
-- a new uuid is drawn: the queues are a tree, what each node and application has allocated is the sum of
-- its allocations, and the partition knows all of these.
pub add_new_allocation_internal-IsSound :
    (pi : Partition) (alloc : AllocationProposal) (nr : Bool) (draws : List String) (u : String)
    (r : Result Allocation) (pi' : Partition)
    → IsSound pi
    → IsValid alloc.allocated_resource
    → get_new_allocation_uuid pi.allocations draws ≡ some u
    → add_new_allocation_internal alloc nr draws pi ≡ some (r, pi')
    → IsSound pi'
add_new_allocation_internal-IsSound pi alloc nr draws u r pi' sound valid drawn e = by_result r (
    subst (AddSpec pi alloc nr) e
      (add_new_allocation_internal-AddSpec pi alloc nr draws u sound.tree drawn))
  where
    by_result : (r : Result Allocation) → AddSpec pi alloc nr (some (r, pi')) → IsSound pi'
    by_result (ok a) x = Added-IsSound pi pi' alloc nr a sound valid x
    by_result (err x) same = subst IsSound (sym same) sound

Added-fits :
    (pi pi' : Partition) (alloc : AllocationProposal) (nr : Bool) (a : Allocation)
    → Added pi alloc nr a pi'
    → (n : Node) × (lookup alloc.node_id pi'.nodes ≡ some n)
      × (lookup a.uuid n.allocations ≡ some a)
      × (fit_in (some n.total_resource) (some n.allocated_resource) ≡ true)
unfolding record_allocation Node.add_allocation new_allocation
Added-fits pi pi' alloc nr a x = (
  Node.add_allocation x.node a,
  ap (λ p. lookup alloc.node_id p.nodes) x.result
      ∙ lookup-insert_eq a.node_id alloc.node_id (Node.add_allocation x.node a) pi.nodes
          (ap (λ y. y.node_id) x.allocation),
  lookup-insert_eq a.uuid a.uuid a x.node.allocations refl,
  ap
        (λ y.
          fit_in (some x.node.total_resource)
            (some (add_resource (some x.node.allocated_resource) (some y.allocated_resource))))
        x.allocation
      ∙ x.fits,
)

-- An allocation that is added never takes a node over its total resource: the node it went to is
-- there afterwards, and what it has allocated fits in.
pub add_new_allocation_internal_fits :
    (pi : Partition) (alloc : AllocationProposal) (nr : Bool) (draws : List String) (u : String)
    (a : Allocation) (pi' : Partition)
    → IsTree pi.queues
    → get_new_allocation_uuid pi.allocations draws ≡ some u
    → add_new_allocation_internal alloc nr draws pi ≡ some (ok a, pi')
    → (n : Node) × (lookup alloc.node_id pi'.nodes ≡ some n)
      × (lookup a.uuid n.allocations ≡ some a)
      × (fit_in (some n.total_resource) (some n.allocated_resource) ≡ true)
add_new_allocation_internal_fits pi alloc nr draws u a pi' tree drawn e =
    Added-fits pi pi' alloc nr a (
      subst (AddSpec pi alloc nr) e
        (add_new_allocation_internal-AddSpec pi alloc nr draws u tree drawn))
