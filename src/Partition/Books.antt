-- ===== src/Partition/Books.antt =====
-- What adding an allocation to a partition changes (cache/partition_info.go).
use yunikorn_study.Prelude.{
  String, ℕ, suc, ◌≡◌, refl, ap, inl, inr, Option, none, some, Bool, true, false, List, [], ◌∷◌,
  arith, Option-cases, Bool-cases,
}
use yunikorn_study.Dict.{Dict, lookup}
use yunikorn_study.Resource.{Resource, add_resource, fit_in}
use yunikorn_study.Allocation.{Allocation, AllocationProposal, new_allocation}
use yunikorn_study.Node.{Node}
use yunikorn_study.Application.{Application}
use yunikorn_study.Queue.{Queue, Heap, QueueError, inc_allocated_resource, inc_refuse}
use yunikorn_study.Queue.Climb.{IsTree}
use yunikorn_study.Queue.Allocate.{inc_allocated_resource-IsAtomic}
use yunikorn_study.Queue.Walk.{climb_failure}
use yunikorn_study.State.{is_stopped}
use yunikorn_study.Partition.Monad.{Partition, Result, ok, err}
use yunikorn_study.Partition.Defs.{
  get_queue, get_leaf_queue, get_new_allocation_uuid, record_allocation, place_allocation,
  add_new_allocation_internal,
}

-- A uuid that is given out is not in use, and one is given out as soon as a new one is drawn.
pub get_new_allocation_uuid_fresh :
    (allocations : Dict Allocation) (draws : List String) (u : String)
    → get_new_allocation_uuid allocations draws ≡ some u
    → lookup u allocations ≡ none
unfolding get_new_allocation_uuid
get_new_allocation_uuid_fresh m [] u e = cc
get_new_allocation_uuid_fresh m (d ∷ draws) u e =
    ground (arith, get_new_allocation_uuid_fresh m draws u)

inc_failure :
    (h h' : Heap) (p : ℕ) (alloc : Option Resource) (nr : Bool) (x : QueueError)
    → inc_allocated_resource h p alloc nr ≡ some (h', some x)
    → h' ≡ h
unfolding inc_allocated_resource
inc_failure h h' p alloc nr x e =
    (climb_failure (inc_refuse alloc nr) (λ r. add_resource (some r) alloc) h (suc p) p h' x e).0

pub get_leaf_queue_cell :
    (pi : Partition) (name : String) (p : ℕ)
    → get_leaf_queue pi name ≡ some p
    → (q : Queue) × (pi.queues.cell p ≡ some q)
unfolding get_leaf_queue
get_leaf_queue_cell pi name p e = elim (Option-cases (get_queue pi name)) [
  | inl g ↦ cc (rw (g, get_leaf_queue) at e)
  | inr (p', g) ↦ elim (Option-cases (pi.queues.cell p')) [
    | inl c ↦ ground arith
    | inr (q, c) ↦ (q, ground arith)
  ]
]

-- What holds of a partition when an allocation has been added.
pub record Added (pi : Partition) (alloc : AllocationProposal) (nr : Bool) (a : Allocation)
    (pi' : Partition) : Type 0 where
  pub node : Node
  pub app : Application
  pub queue : ℕ
  pub queues : Heap
  pub uuid : String
  pub running : is_stopped pi.state ≡ false
  pub node_found : lookup alloc.node_id pi.nodes ≡ some node
  pub app_found : lookup alloc.application_id pi.applications ≡ some app
  pub queue_found : get_leaf_queue pi alloc.queue_name ≡ some queue
  pub fits :
      fit_in
        (some node.total_resource)
        (some (add_resource (some node.allocated_resource) (some alloc.allocated_resource)))
      ≡ true
  pub charged :
      inc_allocated_resource pi.queues queue (some alloc.allocated_resource) nr
      ≡ some (queues, none)
  pub fresh : lookup uuid pi.allocations ≡ none
  pub allocation : a ≡ new_allocation uuid alloc
  pub result : pi' ≡ record_allocation node app a (record pi { queues = queues })

-- How a call ends: an error changes nothing, and a success has passed every check.
abbrev pub AddSpec :
    Partition → AllocationProposal → Bool → Option (Result Allocation × Partition) → Type 0
AddSpec pi alloc nr none = ⊥
AddSpec pi alloc nr (some (err e, pi')) = pi' ≡ pi
AddSpec pi alloc nr (some (ok a, pi')) = Added pi alloc nr a pi'

module _ (pi : Partition) (alloc : AllocationProposal) (nr : Bool) (draws : List String)
    (u : String) (tree : IsTree pi.queues)
    (drawn : get_new_allocation_uuid pi.allocations draws ≡ some u) where
  charged_queues :
      (p : ℕ)
      → get_leaf_queue pi alloc.queue_name ≡ some p
      → ¬ (inc_allocated_resource pi.queues p (some alloc.allocated_resource) nr ≡ none)
  charged_queues p l e =
      let (q, c) = get_leaf_queue_cell pi alloc.queue_name p l in
      rw e at
        (inc_allocated_resource-IsAtomic pi.queues p q (some alloc.allocated_resource) nr tree c)

  place_allocation-AddSpec :
      (node : Node) (app : Application) (p : ℕ)
      → is_stopped pi.state ≡ false
      → lookup alloc.node_id pi.nodes ≡ some node
      → lookup alloc.application_id pi.applications ≡ some app
      → get_leaf_queue pi alloc.queue_name ≡ some p
      → AddSpec pi alloc nr (place_allocation alloc nr draws node app p pi)
  unfolding place_allocation
  place_allocation-AddSpec node app p s n a l =
      elim (Bool-cases (
        fit_in (some node.total_resource)
          (some (add_resource (some node.allocated_resource) (some alloc.allocated_resource))))) [
            | inr over ↦ rw over refl
            | inl fits ↦
                rw fits
                  (elim (Option-cases
                    (inc_allocated_resource pi.queues p (some alloc.allocated_resource) nr)) [
                      | inl c ↦ absurd (charged_queues p l c)
                      | inr ((h, some x), c) ↦
                          rw c (
                            ap (λ q. record pi { queues = q }) (inc_failure pi.queues h p _ nr x c))
                      | inr ((h, none), c) ↦ rw c (
                          rw drawn (record {
                            node = node;
                            app = app;
                            queue = p;
                            queues = h;
                            uuid = u;
                            running = s;
                            node_found = n;
                            app_found = a;
                            queue_found = l;
                            fits = fits;
                            charged = c;
                            fresh = get_new_allocation_uuid_fresh pi.allocations draws u drawn;
                            allocation = refl;
                            result = refl;
                          }))
                    ])
          ]

  -- In a tree of queues, and once a new uuid is drawn, a call ends: with an error, and the partition
  -- is as it was, or with an allocation that passed every check and is recorded.
  pub add_new_allocation_internal-AddSpec :
      AddSpec pi alloc nr (add_new_allocation_internal alloc nr draws pi)
  unfolding add_new_allocation_internal
  add_new_allocation_internal-AddSpec = elim (Bool-cases (is_stopped pi.state)) [
    | inl s ↦ rw s refl
    | inr s ↦ rw s (elim (Option-cases (lookup alloc.node_id pi.nodes)) [
      | inl n ↦ rw n refl
      | inr (node, n) ↦ rw n (elim (Option-cases (lookup alloc.application_id pi.applications)) [
        | inl a ↦ rw a refl
        | inr (app, a) ↦ rw a (elim (Option-cases (get_leaf_queue pi alloc.queue_name)) [
          | inl l ↦ rw l refl
          | inr (p, l) ↦ rw l (place_allocation-AddSpec node app p s n a l)
        ])
      ])
    ])
  ]
