-- ===== src/Scheduling/Applications.antt =====
-- The scheduling partition: its applications (scheduler/scheduling_partition.go). An application of the
-- cache is the one that the partition of the cache holds, so that a placement writes it there.
use yunikorn_study.Prelude.{String, ℕ, Option, none, some, Bool, true, false, if◌then◌else◌}
use yunikorn_study.Dict.{Dict, lookup, insert, erase}
use yunikorn_study.Acl.{UserGroup}
use yunikorn_study.Application.{Application}
use yunikorn_study.Queue.Manage.{check_submit_access}
use yunikorn_study.Partition.Monad.{Partition}
use yunikorn_study.Placement.Manager.{Manager, PlaceError, place_application}
use yunikorn_study.Scheduling.{
  SchedulingApplication, SchedulingHeap, add_scheduling_application, remove_scheduling_application,
  get_scheduling_queue, create_scheduling_queue,
}

pub record SchedulingPartition (Exp : Type 0) : Type 0 where
  pub root : ℕ
  pub rm_id : String
  pub name : String
  pub applications : Dict SchedulingApplication
  pub placement_manager : Manager Exp
  pub queues : SchedulingHeap

pub data AddError : Type 0 where
  is_present no_queue : AddError
  not_placed : PlaceError → AddError

-- The writes at the end.
abbrev pub put_in_queue :
    {Exp : Type 0}
    → SchedulingPartition Exp
    → SchedulingApplication
    → SchedulingHeap
    → ℕ
    → SchedulingPartition Exp
put_in_queue psc app h p =
    let app' : SchedulingApplication = record app { queue = some p } in
    record psc {
      queues = add_scheduling_application h p app';
      applications = insert app.application_id app' psc.applications;
    }

-- Whether a queue that is there is a leaf with submit access; `none` is a nil queue of the cache.
unfoldable pub takes_application : Partition → SchedulingHeap → ℕ → UserGroup → Option Bool
takes_application pi h p user = elim (h.cell p) [
  | none ↦ none
  | some sq ↦ elim (pi.queues.cell sq.cached) [
    | none ↦ none
    | some q ↦ if q.is_leaf then check_submit_access pi.queues sq.cached user else some false
  ]
]

module _ {Exp : Type 0} (compile : String → Option Exp) (match_string : Exp → String → Bool) where
  abbrev pub Added : Type 0
  Added = Option (SchedulingPartition Exp × Partition × Option AddError)

  abbrev pub to_found :
      SchedulingPartition Exp → Partition → SchedulingApplication → ℕ → Option Bool → Added
  to_found psc pi app p none = none
  to_found psc pi app p (some false) = some (psc, pi, some no_queue)
  to_found psc pi app p (some true) = some (put_in_queue psc app psc.queues p, pi, none)

  abbrev pub to_created :
      SchedulingPartition Exp
      → Partition
      → SchedulingApplication
      → String
      → Option SchedulingHeap
      → Added
  to_created psc pi app name none = none
  to_created psc pi app name (some h) = elim (get_scheduling_queue h psc.root name) [
    | none ↦ some (record psc { queues = h }, pi, some no_queue)
    | some p ↦ some (put_in_queue psc app h p, pi, none)
  ]

  abbrev pub to_queue :
      ℕ
      → SchedulingPartition Exp
      → Partition
      → SchedulingApplication
      → Application
      → Option ℕ
      → Added
  to_queue fuel psc pi app info (some p) =
      to_found psc pi app p (takes_application pi psc.queues p info.user)
  to_queue fuel psc pi app info none =
      to_created psc pi app info.queue_name
        (create_scheduling_queue fuel pi psc.queues psc.root info.queue_name info.user)

  -- What follows the placement; the application of the cache is written back.
  abbrev pub after_place :
      ℕ
      → SchedulingPartition Exp
      → SchedulingApplication
      → Option (Partition × Application × Option PlaceError)
      → Added
  after_place fuel psc app none = none
  after_place fuel psc app (some (pi, info, some e)) = some (
    psc,
    record pi { applications = insert app.application_id info pi.applications },
    some (not_placed e),
  )
  after_place fuel psc app (some (pi, info, none)) =
      to_queue fuel psc
        (record pi { applications = insert app.application_id info pi.applications }) app info
        (get_scheduling_queue psc.queues psc.root info.queue_name)

  -- `AddSchedulingApplication` of a partition, where the loop of `createSchedulingQueue` has `fuel` rounds.
  -- `none` is a nil pointer, or that this loop has not ended.
  unfoldable pub add_application :
      ℕ → SchedulingPartition Exp → Partition → SchedulingApplication → Added
  add_application fuel psc pi app = elim (lookup app.application_id psc.applications) [
    | some old ↦ some (psc, pi, some is_present)
    | none ↦ elim (lookup app.application_id pi.applications) [
      | none ↦ none
      | some info ↦ after_place fuel psc app (
          if psc.placement_manager.initialised
          then place_application compile match_string psc.placement_manager pi info
          else some (pi, info, none))
    ]
  ]

abbrev pub take_out :
    {Exp : Type 0}
    → SchedulingPartition Exp
    → String
    → SchedulingApplication
    → Option SchedulingHeap
    → Option (SchedulingPartition Exp × Option SchedulingApplication)
take_out psc app_id app none = none
take_out psc app_id app (some h) =
    some (record psc { queues = h; applications = erase app_id psc.applications }, some app)

-- `RemoveSchedulingApplication` of a partition: the application, or `none` for an error. The outer
-- `none` is the panic where its queue is not there, or a nil pointer.
unfoldable pub remove_partition_application :
    {Exp : Type 0}
    → SchedulingPartition Exp
    → Partition
    → String
    → Option (SchedulingPartition Exp × Option SchedulingApplication)
remove_partition_application psc pi app_id = elim (lookup app_id psc.applications) [
  | none ↦ some (psc, none)
  | some app ↦ elim (lookup app_id pi.applications) [
    | none ↦ none
    | some info ↦ elim (get_scheduling_queue psc.queues psc.root info.queue_name) [
      | none ↦ none
      | some p ↦ take_out psc app_id app (remove_scheduling_application psc.queues p app)
    ]
  ]
]
