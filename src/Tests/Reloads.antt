-- ===== src/Tests/Reloads.antt =====
-- A reload of the small partition.
use mathlib.Core.List.{Memᴰ}
use yunikorn_study.Prelude.{ℕ, ◌≡◌, refl, Option, none, some, Bool, true, false, [], ◌∷◌, arith}
use yunikorn_study.Dict.{lookup, insert}
use yunikorn_study.Text.{split, to_lower}
use yunikorn_study.Acl.{new_acl}
use yunikorn_study.State.{
  ObjectState, draining, handle_object_event, ObjectEvent-discrete, ObjectState-discrete,
}
use yunikorn_study.Queue.{Heap}
use yunikorn_study.Queue.Manage.{
  queue_path, get_queue_path, mark_queue_for_removal, each_child, handle_queue_event,
}
use yunikorn_study.Queue.Config.{
  QueueFields, no_queues, and_queue, queue_config, update_queue_props, new_resource_from_conf,
  conf_loop, merge_properties, copy_properties,
}
use yunikorn_study.Queue.Heaps.{IsQueue}
use yunikorn_study.Queue.Marked.{IsMarked, Marks, mark_queue_for_removal-Marks}
use yunikorn_study.Partition.Monad.{Partition}
use yunikorn_study.Partition.Defs.{get_queue, walk_down}
use yunikorn_study.Partition.Reload.{
  update_partition_details, update_queues, update_each, update_existing, mark_unvisited,
}
use yunikorn_study.Placement.Chosen.{IsReady}
use yunikorn_study.Config.Validated.{validate-HasRoot}
use yunikorn_study.Config.Ready.{update_partition_details-IsReady}
use yunikorn_study.Tests.Fixtures.{heap, heap-IsHeap, partition}
use yunikorn_study.Tests.States.{object_fsm}
use yunikorn_study.Tests.Configs.{conf, checked, compiled, conf_valid}
use yunikorn_study.Tests.Placements.{partition-IsReady, heap-IsLinked}

abbrev clock : ℕ → ℕ
clock p = 7

update_partition_details-IsReady_example :
    (pi' : Partition) × ((done : Bool) × (update_partition_details partition object_fsm clock
          checked.queues checked.preemption
        ≡ some (pi', done))
      × IsReady pi'
      × (pi'.root ≡ 0)
      × (pi'.is_preemptable ≡ true)
      × ((j : ℕ) → IsQueue heap j → IsQueue pi'.queues j))
update_partition_details-IsReady_example =
    update_partition_details-IsReady partition object_fsm clock checked
      (validate-HasRoot compiled (conf ∷ []) (checked ∷ []) checked conf_valid (Memᴰ.head refl))
      partition-IsReady

abbrev capital : QueueFields
capital = record {
  name = "Default";
  parent = false;
  guaranteed = none;
  max = none;
  properties = none;
  admin_acl = "";
  submit_acl = "";
}

abbrev state_of : ℕ → Option (Heap × Bool) → Option ObjectState
state_of p none = none
state_of p (some (h, done)) = elim (h.cell p) [ none ↦ none | some q ↦ some q.state ]

-- A queue that is configured with a capital letter is updated and then marked for removal.
capital_is_marked :
    state_of 1 (
      update_queues partition object_fsm clock heap
        (and_queue (queue_config capital no_queues) no_queues)
        0)
    ≡ some draining
unfolding update_queues update_each update_existing mark_unvisited get_queue walk_down split
    to_lower get_queue_path queue_path mark_queue_for_removal each_child handle_queue_event
    handle_object_event update_queue_props new_resource_from_conf conf_loop merge_properties
    copy_properties new_acl lookup insert ObjectEvent-discrete ObjectState-discrete
capital_is_marked = refl

mark_queue_for_removal-Marks_example :
    Marks object_fsm clock heap (mark_queue_for_removal 2 object_fsm clock heap 0) (IsMarked heap 0)
mark_queue_for_removal-Marks_example =
    mark_queue_for_removal-Marks object_fsm clock 2 heap 0 heap-IsHeap heap-IsLinked (omega arith)
