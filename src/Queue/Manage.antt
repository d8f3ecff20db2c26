-- ===== src/Queue/Manage.antt =====
-- Adding, marking and removing queues, and the walks up for paths and access (cache/queue_info.go).
use mathlib.Core.Option
use Prim.Native.String.{◌++◌}
use yunikorn_study.Prelude.{
  String, ℕ, suc, zero, Option, none, some, Bool, true, false, not, ◌&&◌, ◌||◌, if◌then◌else◌, eqb,
  [], ◌∷◌,
}
use yunikorn_study.Dict.{Dict, insert, erase}
use yunikorn_study.Text.{to_lower}
use yunikorn_study.Resource.{is_zero}
use yunikorn_study.Acl.{UserGroup, check_access}
use yunikorn_study.State.{
  ObjectState, ObjectFsm, ObjectEvent, FsmError, remove, is_draining, is_running,
  handle_object_event,
}
use yunikorn_study.Queue.{Queue, Heap, QueueError, child_of_leaf, child_of_draining}

-- Writes fields of the queue at `p`.
abbrev pub update : Heap → ℕ → (Queue → Queue) → Heap
update h p f = record h { cell = λ j. if eqb j p then Option.map f (h.cell j) else h.cell j }

abbrev pub put_child : String → ℕ → Queue → Queue
put_child name child q = record q { children = insert name child q.children }

-- `AddChildQueue` of the queue at `child`, under its name.
unfoldable pub add_child_queue : Heap → ℕ → String → ℕ → Option (Heap × Option QueueError)
add_child_queue h p name child = elim (h.cell p) [
  | none ↦ none
  | some q ↦ some (
      if q.is_leaf
      then (h, some (child_of_leaf p))
      else (if is_draining q.state
          then (h, some (child_of_draining p))
          else (update h p (put_child name child), none)))
]

unfoldable pub remove_child_queue : Heap → ℕ → String → Heap
remove_child_queue h p name =
    let drop : Queue → Queue = λ q. record q { children = erase (to_lower name) q.children } in
    update h p drop

abbrev has_children : Dict ℕ → Bool
has_children [] = false
has_children (c ∷ m) = true

-- `RemoveQueue`; `none` is the call on a nil parent.
unfoldable pub remove_queue : Heap → ℕ → Option (Heap × Bool)
remove_queue h p = elim (h.cell p) [
  | none ↦ none
  | some q ↦
      if q.is_managed && is_running q.state
      then some (h, false)
      else (if has_children q.children || not (is_zero (some q.allocated_resource))
          then some (h, false)
          else elim q.parent [
            | none ↦ none
            | some up ↦ some (remove_child_queue h up q.name, true)
          ])
]

abbrev pub put_state : ObjectState × ℕ → Queue → Queue
put_state (s, t) q = record q { state = s; state_time = t }

-- `HandleQueueEvent` at the time `now`.
unfoldable pub handle_queue_event :
    ObjectFsm → ℕ → Heap → ℕ → Queue → ObjectEvent → Heap × Option FsmError
handle_queue_event fsm now h p q event =
    let (st, err) = handle_object_event fsm now (q.state, q.state_time) event in
    (update h p (put_state st), err)

-- The loop over the children.
unfoldable pub each_child : (Heap → ℕ → Heap) → Dict ℕ → Heap → Heap
each_child call [] h = h
each_child call ((name, child) ∷ m) h = each_child call m (call h child)

-- `MarkQueueForRemoval`; the fuel bounds the depth, and `now` gives the time of each call.
unfoldable pub mark_queue_for_removal : ℕ → ObjectFsm → (ℕ → ℕ) → Heap → ℕ → Heap
unfolding each_child
mark_queue_for_removal zero fsm now h p = h
mark_queue_for_removal (suc fuel) fsm now h p = elim (h.cell p) [
  | none ↦ h
  | some q ↦
      if q.is_managed
      then each_child (mark_queue_for_removal fuel fsm now) q.children
          (handle_queue_event fsm (now p) h p q remove).0
      else h
]

-- `GetQueuePath`; `none` means that the fuel ran out.
unfoldable pub queue_path : ℕ → Heap → ℕ → Option String
queue_path zero h p = none
queue_path (suc fuel) h p = elim (h.cell p) [
  | none ↦ none
  | some q ↦ elim q.parent [
    | none ↦ some q.name
    | some up ↦ Option.map (λ path. path ++ ("." ++ q.name)) (queue_path fuel h up)
  ]
]

unfoldable pub get_queue_path : Heap → ℕ → Option String
unfolding queue_path
get_queue_path h p = queue_path (suc p) h p

-- The recursion of `CheckSubmitAccess` and `CheckAdminAccess`, by what one queue allows.
unfoldable pub check_up : ℕ → (Queue → Bool) → Heap → ℕ → Option Bool
check_up zero allows h p = none
check_up (suc fuel) allows h p = elim (h.cell p) [
  | none ↦ none
  | some q ↦
      if allows q
      then some true
      else elim q.parent [ none ↦ some false | some up ↦ check_up fuel allows h up ]
]

abbrev pub allows_submit : UserGroup → Queue → Bool
allows_submit user q = check_access q.submit_acl user || check_access q.admin_acl user

abbrev pub allows_admin : UserGroup → Queue → Bool
allows_admin user q = check_access q.admin_acl user

unfoldable pub check_submit_access : Heap → ℕ → UserGroup → Option Bool
check_submit_access h p user = check_up (suc p) (allows_submit user) h p

unfoldable pub check_admin_access : Heap → ℕ → UserGroup → Option Bool
check_admin_access h p user = check_up (suc p) (allows_admin user) h p
