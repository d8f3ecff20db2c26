-- ===== src/Scheduling.antt =====
-- The scheduling queues: scheduler/scheduling_queue.go, scheduler/scheduling_job.go and the queue part
-- of scheduler/scheduling_partition.go. A scheduling queue lies on a heap of its own, and holds the
-- address of its queue in the cache.
pub mod Pending
pub mod Removal
pub mod Applications
use mathlib.Core.Option
use yunikorn_study.Prelude.{
  String, ℕ, suc, zero, Option, none, some, Bool, true, false, not, ◌&&◌, ◌||◌, if◌then◌else◌, eqb,
  List, [], ◌∷◌, ◌==◌,
}
use yunikorn_study.Dict.{Dict, lookup, insert, erase}
use yunikorn_study.Text.{split, to_lower}
use yunikorn_study.Text.Names.{before_last_dot, after_last_dot}
use yunikorn_study.Resource.{Resource, new_resource, add_resource, sub_resource, is_zero}
use yunikorn_study.Acl.{UserGroup}
use yunikorn_study.State.{is_running}
use yunikorn_study.Queue.{Queue, Heap}
use yunikorn_study.Queue.Manage.{get_queue_path, check_submit_access}
use yunikorn_study.Partition.Monad.{Partition}
use yunikorn_study.Partition.Defs.{get_queue}
use yunikorn_study.Requests.{Requests}

pub data SortType : Type 0 where
  fair fifo max_available_resources : SortType

-- What queues read of a scheduling application: the id of its application in the cache, its requests,
-- and the queue in which it runs.
pub record SchedulingApplication : Type 0 where
  pub application_id : String
  pub requests : Requests
  pub queue : Option ℕ

pub record SchedulingQueue : Type 0 where
  pub name : String
  pub cached : ℕ
  pub proposing_resource : Resource
  pub application_sort_type : SortType
  pub queue_sort_type : SortType
  pub children : Dict ℕ
  pub applications : Dict SchedulingApplication
  pub parent : Option ℕ
  pub allocating_resource : Option Resource
  pub pending_resource : Resource

pub record SchedulingHeap : Type 0 where
  pub next : ℕ
  pub cell : ℕ → Option SchedulingQueue

abbrev pub change : SchedulingHeap → ℕ → (SchedulingQueue → SchedulingQueue) → SchedulingHeap
change h p f = record h { cell = λ j. if eqb j p then Option.map f (h.cell j) else h.cell j }

-- The loop over the properties.
unfoldable pub sort_type : Dict String → SortType → SortType
sort_type [] s = s
sort_type ((key, text) ∷ prop) s =
    sort_type prop (if key == "application.sort.policy" && text == "fair" then fair else s)

abbrev pub or_no_properties : Option (Dict String) → Dict String
or_no_properties none = []
or_no_properties (some m) = m

-- `updateSchedulingQueueProperties`
unfoldable pub update_scheduling_queue_properties :
    Option (Dict String) → SchedulingQueue → SchedulingQueue
update_scheduling_queue_properties prop sq = record sq {
  application_sort_type = sort_type (or_no_properties prop) fifo;
  queue_sort_type = fair;
}

abbrev pub put_child : String → ℕ → SchedulingQueue → SchedulingQueue
put_child name child sq = record sq { children = insert name child sq.children }

-- A new queue takes the next address, and stands among the children of its parent.
abbrev pub put_queue : SchedulingHeap → SchedulingQueue → SchedulingHeap
put_queue h sq =
    let h' : SchedulingHeap = record {
      next = suc h.next;
      cell = λ j. if eqb j h.next then some sq else h.cell j;
    } in
    elim sq.parent [
      | none ↦ h'
      | some up ↦ change h' up (put_child (after_last_dot sq.name) h.next)
    ]

abbrev pub new_queue_at : ℕ → Queue → String → Option ℕ → SchedulingQueue
new_queue_at p q path parent = update_scheduling_queue_properties q.properties (record {
  name = path;
  cached = p;
  proposing_resource = new_resource;
  application_sort_type = fair;
  queue_sort_type = fair;
  children = [];
  applications = [];
  parent = parent;
  allocating_resource = none;
  pending_resource = new_resource;
})

abbrev pub then_put :
    (SchedulingHeap → Option SchedulingHeap)
    → String
    → ℕ
    → Option (SchedulingHeap × ℕ)
    → Option SchedulingHeap
then_put go name me none = none
then_put go name me (some (h, c)) = go (change h me (put_child name c))

-- The loop over the children in the cache; `make` makes one of them below the queue at `me`.
unfoldable pub make_children :
    (SchedulingHeap → ℕ → Option (SchedulingHeap × ℕ))
    → ℕ
    → Dict ℕ
    → SchedulingHeap
    → Option SchedulingHeap
make_children make me [] h = some h
make_children make me ((name, child) ∷ m) h =
    then_put (λ h'. make_children make me m h') name me (make h child)

-- `NewSchedulingQueueInfo`; `none` is a nil queue in the cache, or out of fuel.
unfoldable pub new_scheduling_queue :
    ℕ → Heap → SchedulingHeap → ℕ → Option ℕ → Option (SchedulingHeap × ℕ)
new_scheduling_queue zero queues h p parent = none
new_scheduling_queue (suc fuel) queues h p parent = elim (queues.cell p) [
  | none ↦ none
  | some q ↦ elim (get_queue_path queues p) [
    | none ↦ none
    | some path ↦
        Option.map (λ h'. (h', h.next))
          (make_children (λ h' c. new_scheduling_queue fuel queues h' c (some h.next)) h.next
            q.children (put_queue h (new_queue_at p q path parent)))
  ]
]

abbrev pub add_pending : Resource → SchedulingQueue → SchedulingQueue
add_pending delta sq = record sq {
  pending_resource = add_resource (some sq.pending_resource) (some delta);
}

abbrev pub sub_pending : Resource → SchedulingQueue → SchedulingQueue
sub_pending delta sq = record sq {
  pending_resource = sub_resource (some sq.pending_resource) (some delta);
}

-- The walk of `IncPendingResource` and `DecPendingResource`: the parent first, then the queue.
unfoldable pub change_up :
    ℕ → (SchedulingQueue → SchedulingQueue) → SchedulingHeap → ℕ → Option SchedulingHeap
change_up zero f h p = none
change_up (suc fuel) f h p = elim (h.cell p) [
  | none ↦ none
  | some sq ↦ elim sq.parent [
    | none ↦ some (change h p f)
    | some up ↦ Option.map (λ h'. change h' p f) (change_up fuel f h up)
  ]
]

-- The fuel is the number of addresses up to `p`: a parent is older than its children.
unfoldable pub inc_pending_resource : SchedulingHeap → ℕ → Resource → Option SchedulingHeap
inc_pending_resource h p delta = change_up (suc p) (add_pending delta) h p

unfoldable pub dec_pending_resource : SchedulingHeap → ℕ → Resource → Option SchedulingHeap
dec_pending_resource h p delta = change_up (suc p) (sub_pending delta) h p

unfoldable pub add_scheduling_application :
    SchedulingHeap → ℕ → SchedulingApplication → SchedulingHeap
add_scheduling_application h p app =
    let put : SchedulingQueue → SchedulingQueue =
      λ sq. record sq { applications = insert app.application_id app sq.applications } in
    change h p put

abbrev pub drop_application : SchedulingHeap → ℕ → SchedulingApplication → SchedulingHeap
drop_application h p app =
    let drop : SchedulingQueue → SchedulingQueue =
      λ sq. record sq { applications = erase app.application_id sq.applications } in
    change h p drop

-- `RemoveSchedulingApplication` of a queue. `none` is the call on a nil parent.
unfoldable pub remove_scheduling_application :
    SchedulingHeap → ℕ → SchedulingApplication → Option SchedulingHeap
remove_scheduling_application h p app =
    let total = app.requests.total_pending_resource in
    if is_zero (some total) then some (drop_application h p app) else elim (h.cell p) [
      | none ↦ none
      | some sq ↦ elim sq.parent [
        | none ↦ none
        | some up ↦
            Option.map (λ h'. drop_application h' p app)
              (dec_pending_resource (change h p (sub_pending total)) up total)
      ]
    ]

unfoldable pub remove_child_queue : SchedulingHeap → ℕ → String → SchedulingHeap
remove_child_queue h p name =
    let drop : SchedulingQueue → SchedulingQueue =
      λ sq. record sq { children = erase name sq.children } in
    change h p drop

abbrev pub is_empty {ℓ} : {V : Type ℓ} → Dict V → Bool
is_empty [] = true
is_empty (x ∷ m) = false

-- `RemoveQueue`; `none` is the call on a nil parent or a nil queue of the cache.
unfoldable pub remove_queue : Heap → SchedulingHeap → ℕ → Option (SchedulingHeap × Bool)
remove_queue queues h p = elim (h.cell p) [
  | none ↦ none
  | some sq ↦ elim (queues.cell sq.cached) [
    | none ↦ none
    | some q ↦
        if q.is_managed && is_running q.state
        then some (h, false)
        else (if not (is_empty sq.children) || not (is_empty sq.applications)
            then some (h, false)
            else elim sq.parent [
              | none ↦ none
              | some up ↦ some (remove_child_queue h up sq.name, true)
            ])
  ]
]

unfoldable pub inc_allocating_resource : SchedulingHeap → ℕ → Option Resource → SchedulingHeap
inc_allocating_resource h p new =
    let put : SchedulingQueue → SchedulingQueue =
      λ sq. record sq { allocating_resource = some (add_resource sq.allocating_resource new) } in
    change h p put

unfoldable pub set_allocating_resource : SchedulingHeap → ℕ → Option Resource → SchedulingHeap
set_allocating_resource h p new =
    let put : SchedulingQueue → SchedulingQueue = λ sq. record sq { allocating_resource = new } in
    change h p put

-- The walk of `getQueue` down the children; `none` is the nil queue.
unfoldable pub walk_children : SchedulingHeap → ℕ → List String → Option ℕ
walk_children h p [] = some p
walk_children h p (part ∷ parts) = elim (h.cell p) [
  | none ↦ none
  | some sq ↦ elim (lookup part sq.children) [ none ↦ none | some c ↦ walk_children h c parts ]
]

abbrev pub walk_from : SchedulingHeap → ℕ → List String → Option ℕ
walk_from h root [] = some root
walk_from h root (first ∷ parts) = walk_children h root parts

unfoldable pub get_scheduling_queue : SchedulingHeap → ℕ → String → Option ℕ
get_scheduling_queue h root name = walk_from h root (split b'.' (to_lower name))

-- The loop of `createSchedulingQueue`: the queue that is there, and the name of the queue to make.
-- Each round cuts the last part off `name`, the same name in every round. `none` is out of fuel, or a
-- name without a dot.
unfoldable pub find_existing :
    ℕ → SchedulingHeap → ℕ → String → String → String → Option (ℕ × String)
find_existing zero h root name current missing = none
find_existing (suc fuel) h root name current missing = elim (get_scheduling_queue h root current) [
  | some p ↦ some (p, missing)
  | none ↦ elim (before_last_dot name) [
    | none ↦ none
    | some shorter ↦ find_existing fuel h root name shorter current
  ]
]

abbrev pub make_below :
    Partition → SchedulingHeap → UserGroup → Option ℕ → ℕ × String → Option SchedulingHeap
make_below pi h user none (parent, missing) = some h
make_below pi h user (some c) (parent, missing) = elim (h.cell parent) [
  | none ↦ none
  | some sq ↦ elim (check_submit_access pi.queues sq.cached user) [
    | none ↦ none
    | some false ↦ some h
    | some true ↦
        Option.map (λ r. r.0)
          (new_scheduling_queue (suc pi.queues.next) pi.queues h c (some parent))
  ]
]

-- `createSchedulingQueue` with `fuel` rounds of its loop.
unfoldable pub create_scheduling_queue :
    ℕ → Partition → SchedulingHeap → ℕ → String → UserGroup → Option SchedulingHeap
create_scheduling_queue fuel pi h root name user = elim (find_existing fuel h root name name "") [
  | none ↦ none
  | some (parent, missing) ↦ make_below pi h user (get_queue pi missing) (parent, missing)
]
