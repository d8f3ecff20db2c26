-- ===== src/Queue.antt =====
-- cache/queue_info.go. Queues point at their parent and their children: a heap holds them, and a
-- `*QueueInfo` is an address in it. The locks and the metrics of a queue are left out.
pub mod Manage
pub mod Access
pub mod Config
pub mod Heaps
pub mod Grow
pub mod Links
pub mod Marking
pub mod Marked
pub mod Paths
pub mod Climb
pub mod Walk
pub mod Shape
pub mod Allocate
use Prim.Native.String.{◌++◌}
use mathlib.Core.Option
use yunikorn_study.Prelude.{
  String, ℕ, suc, zero, Option, none, some, Bool, true, false, not, ◌&&◌, ◌||◌, if◌then◌else◌, eqb,
  List, [], ◌∷◌,
}
use yunikorn_study.Dict.{Dict, lookup, insert, erase}
use yunikorn_study.Resource.{Resource, add_resource, sub_resource, fit_in, is_zero}
use yunikorn_study.Acl.{Acl, UserGroup, check_access}
use yunikorn_study.Text.{to_lower}
use yunikorn_study.State.{
  ObjectState, ObjectFsm, ObjectEvent, FsmError, remove, is_draining, is_running,
  handle_object_event,
}

-- A nil map of children is read as an empty one everywhere.
pub record Queue : Type 0 where
  pub name : String
  pub max_resource : Option Resource
  pub guaranteed_resource : Option Resource
  pub parent : Option ℕ
  pub properties : Option (Dict String)
  pub admin_acl : Acl
  pub submit_acl : Acl
  pub allocated_resource : Resource
  pub is_leaf : Bool
  pub is_managed : Bool
  pub state : ObjectState
  pub state_time : ℕ
  pub children : Dict ℕ

-- `next` is the first address that was never used.
pub record Heap : Type 0 where
  pub next : ℕ
  pub cell : ℕ → Option Queue

abbrev pub write : Heap → ℕ → Queue → Heap
write h p q = record h { cell = λ j. if eqb j p then some q else h.cell j }

-- Writes fields of the queue at `p`.
-- `qi.allocatedResource = r`
abbrev pub put_allocated : Resource → Queue → Queue
put_allocated r q = record q { allocated_resource = r }

unfoldable pub set_allocated : Heap → ℕ → Resource → Heap
set_allocated h p r = record h {
  cell = λ j. if eqb j p then Option.map (put_allocated r) (h.cell j) else h.cell j;
}

pub data QueueError : Type 0 where
  over_max too_small child_of_leaf child_of_draining : ℕ → QueueError
  invalid_name : String → QueueError

-- `qi.MaxResource = max`
unfoldable pub set_max : Heap → ℕ → Option Resource → Heap
set_max h p max = record h {
  cell = λ j.
      let put : Queue → Queue = λ q. record q { max_resource = max } in
      if eqb j p then Option.map put (h.cell j) else h.cell j;
}

-- What follows the check of the parent.
abbrev pub finish : ℕ → Resource → Heap × Option QueueError → Heap × Option QueueError
finish p r (h, none) = (set_allocated h p r, none)
finish p r (h, some e) = (h, some e)

-- The shape of `IncAllocatedResource` and `DecAllocatedResource`: a check of this queue, then the
-- whole call on the parent, then the write of what was computed before it. `none` means that the
-- fuel ran out or that a pointer was bad.
unfoldable pub climb :
    ℕ
    → (ℕ → Queue → Option QueueError)
    → (Resource → Resource)
    → Heap
    → ℕ
    → Option (Heap × Option QueueError)
climb zero refuse change h p = none
climb (suc fuel) refuse change h p = elim (h.cell p) [
  | none ↦ none
  | some q ↦ elim (refuse p q) [
    | some e ↦ some (h, some e)
    | none ↦
        Option.map (finish p (change q.allocated_resource))
          (elim q.parent [ none ↦ some (h, none) | some up ↦ climb fuel refuse change h up ])
  ]
]

abbrev pub inc_refuse : Option Resource → Bool → ℕ → Queue → Option QueueError
inc_refuse alloc node_reported p q = if node_reported then none else elim q.max_resource [
  | none ↦ none
  | some m ↦
      if fit_in (some m) (some (add_resource (some q.allocated_resource) alloc))
      then none
      else some (over_max p)
]

-- The fuel is the number of addresses up to `p`: a parent is older than its children.
unfoldable pub inc_allocated_resource :
    Heap → ℕ → Option Resource → Bool → Option (Heap × Option QueueError)
inc_allocated_resource h p alloc node_reported =
    climb (suc p) (inc_refuse alloc node_reported) (λ r. add_resource (some r) alloc) h p

abbrev pub dec_refuse : Option Resource → ℕ → Queue → Option QueueError
dec_refuse none p q = none
dec_refuse (some a) p q =
    if fit_in (some q.allocated_resource) (some a) then none else some (too_small p)

unfoldable pub dec_allocated_resource :
    Heap → ℕ → Option Resource → Option (Heap × Option QueueError)
dec_allocated_resource h p alloc =
    climb (suc p) (dec_refuse alloc) (λ r. sub_resource (some r) alloc) h p
