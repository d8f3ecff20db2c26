-- ===== src/Config/Ready.antt =====
-- From the configuration to the partition: what `Validate` accepts, `NewPartitionInfo` makes, with a
-- tree of queues that placements work on.
use mathlib.Core.List.{Memᴰ}
use yunikorn_study.Prelude.{
  String, ℕ, ◌≡◌, refl, ◌∙◌, ap, Option, none, some, Bool, false, ◌||◌, List, [], Bool-cases,
  Option-cases, inl, inr,
}
use yunikorn_study.State.{ObjectFsm, is_draining}
use yunikorn_study.Queue.{Queue, Heap}
use yunikorn_study.Queue.Config.{
  QueueFields, queue_config, QueueConfigs, no_queues, and_queue, has_queues, go_below, allocate,
  manage, register_under, new_managed_queue,
}
use yunikorn_study.Queue.Heaps.{IsHeap, IsQueue, allocate-IsHeap, allocate_new}
use yunikorn_study.Queue.Links.{IsLinked, allocate-IsLinked}
use yunikorn_study.Partition.Monad.{Partition}
use yunikorn_study.Partition.Defs.{get_queue, walk_down}
use yunikorn_study.Partition.Reload.{
  update_existing, update_queues, reload_root, put_reloaded, update_partition_details,
}
use yunikorn_study.Partition.Reloaded.{update_existing-Yields, update_queues-Ends}
use yunikorn_study.Queue.Marking.{Stays-trans}
use yunikorn_study.Text.{split, to_lower}
use yunikorn_study.Placement.Chosen.{IsReady}
use yunikorn_study.Config.{
  PartitionConfig, valid, validate, check_root, check_queues, check_resources, check_acl,
  check_names, check_each, is_set,
}
use yunikorn_study.Config.Props.{IsConfigured, both_checked, update_queue_props-IsMade}
use yunikorn_study.Config.Extends.{HasEach, IsConfigured-later}
use yunikorn_study.Config.Built.{HavePlainAcls, add_queue_info-IsBuilt, not_leaf}
use yunikorn_study.Config.Root.{HasRoot}
use yunikorn_study.Config.Validated.{validate-HasRoot}
use yunikorn_study.Config.Partition.{
  new_partition, no_queue_heap, with_root, below_root, partition_of, new_partition_info,
}

no_queue_heap-IsHeap : IsHeap no_queue_heap
no_queue_heap-IsHeap = record { tree = λ p up q c o. cc; bounded = λ j (q, c). cc }

no_queue_heap-IsLinked : IsLinked no_queue_heap
no_queue_heap-IsLinked j q c = cc

root_checked :
    (conf : QueueFields) (below : QueueConfigs)
    → check_root (queue_config conf below) ≡ none
    → (check_resources conf ≡ none) × (check_names below [] 1 ≡ none) × (check_each below 2 ≡ none)
unfolding check_root check_queues
root_checked conf below e = elim (Bool-cases (is_set conf.guaranteed || is_set conf.max)) [
  | inl s ↦ cc (rw s at e)
  | inr s ↦
      let (resources, a) = both_checked (check_resources conf) _ (rw s at e) in
      let (admin, b) = both_checked (check_acl conf.admin_acl) _ a in
      let (submit, d) = both_checked (check_acl conf.submit_acl) _ b in
      let (names, each) = both_checked (check_names below [] 1) (check_each below 2) d in
      (resources, names, each)
]

-- The partition has every queue of its configuration, the root first, under the queue that it stands
-- under, with what its configuration says.
pub record HasQueues (conf : PartitionConfig) (pi : Partition) : Type 0 where
  pub fields : QueueFields
  pub below : QueueConfigs
  pub queues : conf.queues ≡ some (and_queue (queue_config fields below) no_queues)
  pub root : Queue
  pub at_root : pi.queues.cell pi.root ≡ some root
  pub is_root : IsConfigured fields (has_queues below) none root
  pub each : HasEach pi.queues pi.root below

new_partition_info_lem :
    (conf : PartitionConfig) (rm : String) (r : HasRoot conf)
    → HavePlainAcls (and_queue (queue_config r.conf r.below) no_queues)
    → (pi : Partition) × (new_partition_info conf rm ≡ some (new_partition pi conf.placement_rules))
      × IsReady pi
      × HasQueues conf pi
unfolding new_partition_info HavePlainAcls new_managed_queue
new_partition_info_lem conf rm r (submit, admin, plain, _) =
    let (resources, names, each) = root_checked r.conf r.below r.checked in
    let (root, e, is, bare, state) =
      update_queue_props-IsMade none r.conf (has_queues r.below) none resources submit admin in
    let h : Heap = allocate no_queue_heap root in
    let made : new_managed_queue no_queue_heap r.conf (has_queues r.below) none ≡ some (h, some 0) =
      ap (manage no_queue_heap) e ∙ ap (register_under no_queue_heap root) is.parent_at in
    let heap =
      allocate-IsHeap no_queue_heap root no_queue_heap-IsHeap (λ up c. cc (is.parent_at, c)) in
    let linked =
      allocate-IsLinked no_queue_heap root no_queue_heap-IsHeap no_queue_heap-IsLinked bare in
    let c = allocate_new no_queue_heap root no_queue_heap-IsHeap in
    let (h', e', heap', linked', grown, has) =
      add_queue_info-IsBuilt h r.below 0 root 1 heap linked c bare
        (not_leaf r.conf (has_queues r.below) none root is) (ap is_draining state) names each
        plain in
    let (root', c', later) = grown.here root c in
    (
      partition_of conf rm 0 h',
      rw (r.queues, new_partition_info)
          (ap (below_root conf rm r.below) made ∙ ap (with_root conf rm (some 0)) e'),
      record { heap = heap'; linked = linked'; root = (root', c') },
      record {
        fields = r.conf;
        below = r.below;
        queues = r.queues;
        root = root';
        at_root = c';
        is_root = IsConfigured-later r.conf (has_queues r.below) none root root' later is;
        each = has;
      },
    )

-- Every partition of a configuration that `Validate` accepts, if its ACL texts have at most one space,
-- is made by `NewPartitionInfo` without an error or a nil queue on the way, with every configured queue
-- in its place, its name in lower case and its ACLs, limits and kind as configured, and in a tree
-- on which placement rules work.
pub validate-new_partition_info :
    {Exp : Type 0} (compile : String → Option Exp) (confs checked : List PartitionConfig)
    (conf : PartitionConfig) (rm : String)
    → validate compile confs ≡ valid checked
    → Memᴰ conf checked
    → ((queues : QueueConfigs) → conf.queues ≡ some queues → HavePlainAcls queues)
    → (pi : Partition) × (new_partition_info conf rm ≡ some (new_partition pi conf.placement_rules))
      × IsReady pi
      × HasQueues conf pi
validate-new_partition_info compile confs checked conf rm e m plain =
    let r = validate-HasRoot compile confs checked conf e m in
    new_partition_info_lem conf rm r (plain _ r.queues)

at_root_name :
    (pi : Partition) (name : String) → to_lower name ≡ "root" → get_queue pi name ≡ some pi.root
unfolding get_queue walk_down split
at_root_name pi name e = rw e refl

-- `updatePartitionDetails` with a partition configuration that has one root queue and passed the
-- checks, on a partition that placements work on, ends without a nil queue on the way, with success or
-- with the first error. It keeps every queue, the root and that placements work on the partition.
pub update_partition_details-IsReady :
    (pi : Partition) (fsm : ObjectFsm) (now : ℕ → ℕ) (conf : PartitionConfig)
    → HasRoot conf
    → IsReady pi
    → (pi' : Partition) × ((done : Bool) × (update_partition_details pi fsm now conf.queues
            conf.preemption
          ≡ some (pi', done))
        × IsReady pi'
        × (pi'.root ≡ pi.root)
        × (pi'.is_preemptable ≡ conf.preemption)
        × ((j : ℕ) → IsQueue pi.queues j → IsQueue pi'.queues j))
unfolding update_partition_details
update_partition_details-IsReady pi fsm now conf r ready =
    let (h₁, (o, e₁, s₁, there)) =
      update_existing-Yields pi.queues pi.root r.conf (has_queues r.below) ready.heap ready.linked
        ready.root in
    let go : Option (Heap × Option ℕ) → Option (Partition × Bool) = λ x.
      put_reloaded pi fsm now conf.preemption
        (go_below (λ h p. update_queues pi fsm now h r.below p) x) in
    let start : update_partition_details pi fsm now conf.queues conf.preemption
        ≡ go (update_existing pi.queues pi.root r.conf (has_queues r.below)) =
      ap (λ q. update_partition_details pi fsm now q conf.preemption) r.queues
      ∙ ap (λ x. put_reloaded pi fsm now conf.preemption (reload_root pi fsm now r.conf r.below x))
          (at_root_name pi r.conf.name r.name) in
    elim (Option-cases o) [
      | inl f ↦ (
        record pi { queues = h₁; is_preemptable = conf.preemption },
        (
          false,
          start ∙ ap go (e₁ ∙ ap (λ x. some (h₁, x)) f),
          record { heap = s₁.heap; linked = s₁.linked; root = s₁.kept pi.root ready.root },
          refl,
          refl,
          s₁.kept,
        ),
      )
      | inr (c, f) ↦
          let (h₂, (done, e₂, s₂)) =
            update_queues-Ends pi fsm now h₁ r.below c s₁.heap s₁.linked (there c f)
              (s₁.kept pi.root ready.root) in
          let s = Stays-trans s₁ s₂ in
          (
            record pi { queues = h₂; is_preemptable = conf.preemption },
            (
              done,
              start
                  ∙ ap go (e₁ ∙ ap (λ x. some (h₁, x)) f)
                  ∙ ap (put_reloaded pi fsm now conf.preemption) e₂,
              record { heap = s.heap; linked = s.linked; root = s.kept pi.root ready.root },
              refl,
              refl,
              s.kept,
            ),
          )
    ]
