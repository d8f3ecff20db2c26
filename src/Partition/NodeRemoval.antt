-- ===== src/Partition/NodeRemoval.antt =====
-- Removing a node from a partition (cache/partition_info.go).
use yunikorn_study.Prelude.{
  String, ℕ, ◌≡◌, refl, ap, ◌∙◌, inl, inr, Option, none, some, true, false, Option-cases,
  Bool-cases, eqb, List, [], ◌∷◌,
}
use yunikorn_study.Dict.{Dict, lookup, erase, lookup-erase_eq, insert-AllValues, erase-AllValues}
use yunikorn_study.Resource.{Resource, sub_resource}
use yunikorn_study.Allocation.{Allocation}
use yunikorn_study.Node
use yunikorn_study.Node.{Node}
use yunikorn_study.Application
use yunikorn_study.Application.{Application}
use yunikorn_study.Application.Accounting as ApplicationBooks
use mathlib.Core.Option
use mathlib.Core.Path.{subst}
use yunikorn_study.Queue.{Queue, Heap, set_max}
use yunikorn_study.Queue.Shape.{SameShape, IsTree-SameShape}
use yunikorn_study.Partition.Monad.{Partition, Result, ok, modify, >>-ok}
use yunikorn_study.Partition.Removal.{
  put_application, set_total, release_charged, remove_found, release_node_allocation,
  release_node_allocations, remove_node_internal,
}
use yunikorn_study.Partition.Sound.{IsSoundNode, IsSoundApplication}
use yunikorn_study.Partition.Released.{
  without, IsStep, no_application, not_held, given_back, IsReleased, all_done, next_one, GivesUp,
  IsReleased-GivesUp,
}
use yunikorn_study.Partition.Release.{
  IsWell, HasQueue, HasQueue-SameShape, settle_ends, AreKnown-erase,
}

-- What releasing the allocations of a node leaves alone.
record Kept (pi pi' : Partition) : Type 0 where
  allocations : pi'.allocations ≡ pi.allocations
  nodes : pi'.nodes ≡ pi.nodes
  total : pi'.total_partition_resource ≡ pi.total_partition_resource

-- A call that gives back the allocations of a list, without an error, in a well-formed partition that
-- kept what it has to.
abbrev Releases : (Partition → Type 0) → Partition → Option (Result (Unit {0}) × Partition) → Type 0
Releases gives pi o =
    (pi' : Partition) × (o ≡ some (ok tt, pi')) × IsWell pi' × Kept pi pi' × gives pi'

Kept-refl : (pi : Partition) → Kept pi pi
Kept-refl pi = record { allocations = refl; nodes = refl; total = refl }

Kept-trans : (p q r : Partition) → Kept p q → Kept q r → Kept p r
Kept-trans p q r a b = record {
  allocations = b.allocations ∙ a.allocations;
  nodes = b.nodes ∙ a.nodes;
  total = b.total ∙ a.total;
}

-- The application with the new books, and queues of the same shape.
put_application-IsWell :
    (pi : Partition) (id : String) (app : Application) (h : Heap)
    → IsWell pi
    → IsSoundApplication pi.allocations app
    → HasQueue pi.queues app
    → SameShape h pi.queues
    → IsWell (record (put_application id app pi) { queues = h })
put_application-IsWell pi id app h well sound has s = record {
  sound = record {
    tree = IsTree-SameShape h pi.queues s well.sound.tree;
    nodes = well.sound.nodes;
    applications =
        insert-AllValues (IsSoundApplication pi.allocations) id app pi.applications
          well.sound.applications sound;
  };
  placed =
      insert-AllValues (HasQueue h) id app pi.applications
        (λ k v e. HasQueue-SameShape h pi.queues v s (well.placed k v e))
        (HasQueue-SameShape h pi.queues app s has);
}

-- What an application gives up leaves its books right, and its queue where it was.
remove_allocation-IsSoundApplication :
    (known : Dict Allocation) (app : Application) (uuid : String)
    → IsSoundApplication known app
    → IsSoundApplication known (Application.remove_allocation app uuid).0
unfolding Application.remove_allocation
remove_allocation-IsSoundApplication known app uuid h = (
  (ApplicationBooks.remove_allocation-IsBalanced app uuid h.0).0,
  elim (Option-cases (lookup uuid app.allocations)) [
    | inl n ↦ rw n h.1
    | inr (a, e) ↦ rw e (AreKnown-erase uuid known app.allocations h.1)
  ],
)

remove_allocation-without :
    (app : Application) (uuid : String) (held : Allocation)
    → lookup uuid app.allocations ≡ some held
    → (Application.remove_allocation app uuid).0 ≡ without app uuid held
unfolding Application.remove_allocation
remove_allocation-without app uuid held e = rw e refl

-- An allocation that the application has goes back to its queue.
release_held :
    (pi : Partition) (alloc : Allocation) (app : Application) (held : Allocation)
    → IsWell pi
    → lookup alloc.application_id pi.applications ≡ some app
    → lookup alloc.uuid app.allocations ≡ some held
    → Releases
        (IsStep alloc pi)
        pi
        (release_charged alloc (without app alloc.uuid held, some held) pi)
release_held pi alloc app held well n a =
    let books =
      remove_allocation-IsSoundApplication pi.allocations app alloc.uuid
        (well.sound.applications alloc.application_id app n) in
    let app' = without app alloc.uuid held in
    let taken : (Application.remove_allocation app alloc.uuid).0 ≡ app' =
      remove_allocation-without app alloc.uuid held a in
    let has = well.placed alloc.application_id app n in
    let (h', e, s, back) =
      settle_ends (put_application alloc.application_id app' pi) app.leaf_queue
        alloc.allocated_resource well.sound.tree has in
    (
      record (put_application alloc.application_id app' pi) { queues = h' },
      e,
      put_application-IsWell pi alloc.application_id app' h' well
          (subst (IsSoundApplication pi.allocations) taken books) has s,
      record { allocations = refl; nodes = refl; total = refl },
      given_back app held h' n a back,
    )

release_node_allocation_lem :
    (pi : Partition) (alloc : Allocation)
    → IsWell pi
    → Releases (IsStep alloc pi) pi (release_node_allocation alloc pi)
unfolding release_node_allocation Application.remove_allocation
release_node_allocation_lem pi alloc well =
    elim (Option-cases (lookup alloc.application_id pi.applications)) [
      | inl n ↦ rw n (pi, refl, well, Kept-refl pi, no_application n)
      | inr (app, n) ↦ elim (Option-cases (lookup alloc.uuid app.allocations)) [
        | inl a ↦ rw n (rw a (pi, refl, well, Kept-refl pi, not_held app n a))
        | inr (held, a) ↦ rw n (rw a (release_held pi alloc app held well n a))
      ]
    ]

release_node_allocations_lem :
    (pi : Partition) (allocs : List Allocation)
    → IsWell pi
    → Releases (IsReleased allocs pi) pi (release_node_allocations allocs pi)
unfolding release_node_allocations
release_node_allocations_lem pi [] well = (pi, refl, well, Kept-refl pi, all_done)
release_node_allocations_lem pi (alloc ∷ allocs) well =
    let (pi₁, e, well₁, kept, s) = release_node_allocation_lem pi alloc well in
    let (pi₂, e', well₂, kept₂, r) = release_node_allocations_lem pi₁ allocs well₁ in
    (
      pi₂,
      >>-ok (release_node_allocation alloc) (release_node_allocations allocs) pi pi₁ e ∙ e',
      well₂,
      Kept-trans pi pi₁ pi₂ kept kept₂,
      next_one s r,
    )

-- The shape of the queues when the root's maximum is written.
set_max-SameShape : (h : Heap) (p : ℕ) (m : Option Resource) → SameShape (set_max h p m) h
unfolding set_max
set_max-SameShape h p m j = elim (Bool-cases (eqb j p)) [
  | inr off ↦ ap parent_of (write off)
  | inl on ↦ ap parent_of (write_here on) ∙ same (h.cell j)
]
  where
    parent_of : Option Queue → Option (Option ℕ)
    parent_of o = elim o [ none ↦ none | some q ↦ some q.parent ]

    put : Queue → Queue
    put q = record q { max_resource = m }

    same : (o : Option Queue) → parent_of (Option.map put o) ≡ parent_of o
    same none = refl
    same (some q) = refl

    write : eqb j p ≡ false → (set_max h p m).cell j ≡ h.cell j
    write off = rw off

    write_here : eqb j p ≡ true → (set_max h p m).cell j ≡ Option.map put (h.cell j)
    write_here on = rw on

-- The partition without the node, with the total resource that is left.
abbrev without_node : Node → String → Partition → Partition
without_node node node_id pi =
    set_total (sub_resource (some pi.total_partition_resource) (some node.total_resource))
      (record pi { nodes = erase node_id pi.nodes })

without_node-IsWell :
    (node : Node) (node_id : String) (pi : Partition)
    → IsWell pi
    → IsWell (without_node node node_id pi)
without_node-IsWell node node_id pi well =
    let h = (without_node node node_id pi).queues in
    let s : SameShape h pi.queues = set_max-SameShape pi.queues pi.root _ in
    record {
      sound = record {
        tree = IsTree-SameShape h pi.queues s well.sound.tree;
        nodes = erase-AllValues (IsSoundNode pi.allocations) node_id pi.nodes well.sound.nodes;
        applications = well.sound.applications;
      };
      placed = λ k v e. HasQueue-SameShape h pi.queues v s (well.placed k v e);
    }

-- What is left once a node is removed, where `released` is the partition after the loop.
pub record IsRemoved (pi : Partition) (node_id : String) (node : Node) (pi' : Partition)
    : Type 0 where
  pub is_well : IsWell pi'
  pub gone : lookup node_id pi'.nodes ≡ none
  pub nodes : pi'.nodes ≡ erase node_id pi.nodes
  pub total :
      pi'.total_partition_resource
      ≡ sub_resource (some pi.total_partition_resource) (some node.total_resource)
  pub allocations : pi'.allocations ≡ pi.allocations
  pub given_up : GivesUp (Node.all_allocations node) pi pi'
  pub released : Partition
  pub is_released : IsReleased (Node.all_allocations node) pi released
  pub queues :
      pi'.queues ≡ set_max released.queues released.root (some pi'.total_partition_resource)

-- Removing a node always succeeds. The node is gone, the other nodes are as they were, the total
-- of the partition is less by its resources, and the partition is well-formed still. Every
-- application is there still, in its queue, and has exactly those of its allocations that are not
-- of the node. One after the other, each allocation of the node that its application has is given
-- back to the queue: the queues up to the root have less, unless one of them refuses, and then
-- none changes. But the partition's own list of allocations is not touched, so it goes on listing
-- those of the node.
pub remove_node_internal_lem :
    (pi : Partition) (node_id : String) (node : Node)
    → IsWell pi
    → lookup node_id pi.nodes ≡ some node
    → (pi' : Partition) × (remove_node_internal node_id pi ≡ some (ok tt, pi'))
      × IsRemoved pi node_id node pi'
unfolding remove_node_internal
remove_node_internal_lem pi node_id node well found =
    let (pi₁, e, well₁, kept, rel) =
      release_node_allocations_lem pi (Node.all_allocations node) well in
    let end : remove_found node_id (some node) pi ≡ some (ok tt, without_node node node_id pi₁) =
      >>-ok (release_node_allocations (Node.all_allocations node))
        (modify (without_node node node_id)) pi pi₁ e in
    (
      without_node node node_id pi₁,
      ap (λ o. remove_found node_id o pi) found ∙ end,
      record {
        is_well = without_node-IsWell node node_id pi₁ well₁;
        gone = lookup-erase_eq node_id node_id pi₁.nodes refl;
        nodes = ap (erase node_id) kept.nodes;
        total = ap (λ t. sub_resource (some t) (some node.total_resource)) kept.total;
        allocations = kept.allocations;
        given_up = IsReleased-GivesUp (Node.all_allocations node) pi pi₁ rel;
        released = pi₁;
        is_released = rel;
        queues = refl;
      },
    )
