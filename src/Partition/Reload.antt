-- ===== src/Partition/Reload.antt =====
-- A reloaded configuration: `updatePartitionDetails`, `updateQueues`, `MarkPartitionForRemoval` and
-- `Remove` of cache/partition_info.go. A call may take the time anew: `now` gives the time at which
-- the queue at an address is marked.
use Prim.Native.String.{◌++◌}
use yunikorn_study.Prelude.{
  String, ℕ, Option, none, some, Bool, true, false, ◌||◌, [], ◌∷◌, if◌then◌else◌,
}
use yunikorn_study.Dict.{Dict, insert}
use yunikorn_study.Acl.{is_member}
use yunikorn_study.State.{ObjectFsm, remove, handle_object_event, is_draining, is_stopped}
use yunikorn_study.Queue.{Queue, Heap}
use yunikorn_study.Queue.Manage.{update, mark_queue_for_removal, get_queue_path}
use yunikorn_study.Queue.Config.{
  QueueFields, queue_config, QueueConfigs, no_queues, and_queue, has_queues, go_below,
  properties_at, update_queue_props, new_managed_queue,
}
use yunikorn_study.Partition.Monad.{Partition}
use yunikorn_study.Partition.Defs.{get_queue}

-- The fields of the configuration written to the queue at `c`, under the parent that it has.
abbrev pub props_of : Heap → QueueFields → Bool → Queue → Queue × Bool
props_of h fields below q = update_queue_props (properties_at h q.parent) fields below q

abbrev pub written : Heap → ℕ → Bool → Heap × Option ℕ
written h c true = (h, none)
written h c false = (h, some c)

-- `queue.updateQueueProps(conf)`: the queue, or `none` for an error, which may come half way. The outer
-- `none` is a call on a nil queue.
unfoldable pub update_existing : Heap → ℕ → QueueFields → Bool → Option (Heap × Option ℕ)
update_existing h c fields below = elim (h.cell c) [
  | none ↦ none
  | some q ↦
      some
        (written (update h c (λ x. (props_of h fields below x).0)) c (props_of h fields below q).1)
]

-- The queue of one configuration: made under `p`, or updated where there is one of that path.
abbrev pub reload_queue : Heap → ℕ → QueueFields → Bool → Option ℕ → Option (Heap × Option ℕ)
reload_queue h p fields below none = new_managed_queue h fields below (some p)
reload_queue h p fields below (some c) = update_existing h c fields below

abbrev pub reload_next :
    (Heap → Option (Heap × Option (Dict Bool)))
    → Option (Heap × Bool)
    → Option (Heap × Option (Dict Bool))
reload_next next none = none
reload_next next (some (h, false)) = some (h, none)
reload_next next (some (h, true)) = next h

abbrev pub at_path : Option String → (String → Option (Heap × Bool)) → Option (Heap × Bool)
at_path none go = none
at_path (some path) go = go path

module _ (pi : Partition) (fsm : ObjectFsm) (now : ℕ → ℕ) where
  -- The loop over the children that were not visited. A child is marked with as much fuel as there are
  -- addresses.
  unfoldable pub mark_unvisited : Dict Bool → Dict ℕ → Heap → Heap
  mark_unvisited visited [] h = h
  mark_unvisited visited ((name, child) ∷ children) h =
      mark_unvisited visited children
        (if is_member name visited then h else mark_queue_for_removal h.next fsm now h child)

  abbrev pub mark_level : Heap → Dict Bool → Option Queue → Option (Heap × Bool)
  mark_level h visited none = none
  mark_level h visited (some q) = some (mark_unvisited visited q.children h, true)

  -- What follows the loop over the configuration of one level.
  abbrev pub finish_level : ℕ → Option (Heap × Option (Dict Bool)) → Option (Heap × Bool)
  finish_level p none = none
  finish_level p (some (h, none)) = some (h, false)
  finish_level p (some (h, some visited)) = mark_level h visited (h.cell p)

  -- The loop of `updateQueues` over the queues configured under `p`, whose path with a dot is `path`:
  -- the names visited, or `none` for an error.
  unfoldable pub update_each :
      Heap → String → ℕ → QueueConfigs → Dict Bool → Option (Heap × Option (Dict Bool))
  update_each h path p no_queues visited = some (h, some visited)
  update_each h path p (and_queue (queue_config fields below) queues) visited =
      reload_next (λ h'. update_each h' path p queues (insert fields.name true visited))
        (go_below
          (λ h' c.
            at_path (get_queue_path h' c)
              (λ up. finish_level c (update_each h' (up ++ ".") c below [])))
          (reload_queue h p fields (has_queues below)
            (get_queue (record pi { queues = h }) (path ++ fields.name))))

  -- `updateQueues`: the queues, and whether it succeeds.
  unfoldable pub update_queues : Heap → QueueConfigs → ℕ → Option (Heap × Bool)
  update_queues h queues p =
      at_path (get_queue_path h p)
        (λ path. finish_level p (update_each h (path ++ ".") p queues []))

  abbrev pub put_reloaded : Bool → Option (Heap × Bool) → Option (Partition × Bool)
  put_reloaded preemption none = none
  put_reloaded preemption (some (h, done)) =
      some (record pi { queues = h; is_preemptable = preemption }, done)

  abbrev pub reload_root : QueueFields → QueueConfigs → Option ℕ → Option (Heap × Bool)
  reload_root fields below none = none
  reload_root fields below (some root) =
      go_below (λ h p. update_queues h below p)
        (update_existing pi.queues root fields (has_queues below))

  -- `updatePartitionDetails`, from the queues and the preemption flag of the configuration.
  unfoldable pub update_partition_details : Option QueueConfigs → Bool → Option (Partition × Bool)
  update_partition_details none preemption = none
  update_partition_details (some no_queues) preemption = none
  update_partition_details (some (and_queue (queue_config fields below) others)) preemption =
      put_reloaded preemption (reload_root fields below (get_queue pi fields.name))

-- `MarkPartitionForRemoval`: an error is only logged.
unfoldable pub mark_partition_for_removal : ObjectFsm → ℕ → Partition → Partition
mark_partition_for_removal fsm now pi =
    let (s, t) = (handle_object_event fsm now (pi.state, pi.state_time) remove).0 in
    record pi { state = s; state_time = t }

-- `Remove` asks the cluster to drop the partition in these states only.
unfoldable pub is_removable : Partition → Bool
is_removable pi = is_draining pi.state || is_stopped pi.state
