-- ===== src/Config/Partition.antt =====
-- `NewPartitionInfo` (cache/partition_info.go). The user group cache and the link to the cluster of a
-- new partition are left out, as they are in its record.
use yunikorn_study.Prelude.{String, ℕ, Option, none, some, Bool, true, false, List, []}
use yunikorn_study.Resource.{new_resource}
use yunikorn_study.State.{active}
use yunikorn_study.Queue.{Heap}
use yunikorn_study.Queue.Config.{
  queue_config, QueueConfigs, no_queues, and_queue, has_queues, go_on, go_below, new_managed_queue,
  add_queue_info,
}
use yunikorn_study.Partition.Monad.{Partition}
use yunikorn_study.Placement.Rules.{RuleConfig}
use yunikorn_study.Config.{PartitionConfig}

-- A partition with the placement rules that it holds for the scheduler; an error; or a partition
-- whose root is nil, which is made where the root queue fails and nothing below it does.
pub data NewPartition : Type 0 where
  new_partition : Partition → List RuleConfig → NewPartition
  failed nil_root : NewPartition

abbrev pub no_queue_heap : Heap
no_queue_heap = record { next = 0; cell = λ j. none }

-- `addQueueInfo` where the parent is nil: the queues of the level are made without a parent.
unfoldable pub add_under_nil : Heap → QueueConfigs → Option (Heap × Bool)
add_under_nil h no_queues = some (h, true)
add_under_nil h (and_queue (queue_config conf below) queues) =
    go_on (λ h'. add_under_nil h' queues)
      (go_below (λ h' p. add_queue_info h' below p)
        (new_managed_queue h conf (has_queues below) none))

abbrev pub partition_of : PartitionConfig → String → ℕ → Heap → Partition
partition_of conf rm root h = record {
  name = conf.name;
  root = root;
  rm_id = rm;
  allocations = [];
  nodes = [];
  applications = [];
  state = active;
  state_time = 0;
  is_preemptable = conf.preemption;
  total_partition_resource = new_resource;
  queues = h;
}

-- What follows `addQueueInfo`, by the root.
abbrev pub with_root :
    PartitionConfig → String → Option ℕ → Option (Heap × Bool) → Option NewPartition
with_root conf rm root none = none
with_root conf rm root (some (h, false)) = some failed
with_root conf rm none (some (h, true)) = some nil_root
with_root conf rm (some root) (some (h, true)) =
    some (new_partition (partition_of conf rm root h) conf.placement_rules)

-- What follows `NewManagedQueue` of the root: its error is overwritten.
abbrev pub below_root :
    PartitionConfig → String → QueueConfigs → Option (Heap × Option ℕ) → Option NewPartition
below_root conf rm below none = none
below_root conf rm below (some (h, none)) = with_root conf rm none (add_under_nil h below)
below_root conf rm below (some (h, some root)) =
    with_root conf rm (some root) (add_queue_info h below root)

-- `NewPartitionInfo`; `none` is the panic on a configuration without queues.
unfoldable pub new_partition_info : PartitionConfig → String → Option NewPartition
new_partition_info conf rm = elim conf.queues [
  | none ↦ none
  | some no_queues ↦ none
  | some (and_queue (queue_config fields below) others) ↦
      below_root conf rm below (new_managed_queue no_queue_heap fields (has_queues below) none)
]
