-- ===== src/Config/Root.antt =====
-- What `Validate` of common/configs/configvalidator.go leaves: it finds nothing more to change.
use yunikorn_study.Prelude.{
  ◌≡◌, refl, sym, ◌∙◌, ap, inl, inr, none, some, true, false, ◌||◌, ◌⊎◌, ◌==◌, eq_iff, Bool-cases,
  Option-cases,
}
use yunikorn_study.Text.{to_lower}
use yunikorn_study.Queue.Config.{QueueFields, queue_config, QueueConfigs, no_queues, and_queue}
use yunikorn_study.Config.{
  PartitionConfig, valid, root_queue, inserted_fields, check_root, check_queues_structure,
  is_default, name_default,
}

-- A partition with one root queue, which is a parent and passes the checks.
pub record HasRoot (partition : PartitionConfig) : Type 0 where
  pub conf : QueueFields
  pub below : QueueConfigs
  pub queues : partition.queues ≡ some (and_queue (queue_config conf below) no_queues)
  pub parent : conf.parent ≡ true
  pub name : to_lower conf.name ≡ "root"
  pub checked : check_root (queue_config conf below) ≡ none

pub valid_eq : {A : Type 0} (x y : A) → valid x ≡ valid y → x ≡ y
valid_eq x y e = cc

lower_root : to_lower "root" ≡ "root"
unfolding to_lower
lower_root = refl

-- The root queue is a parent of that name.
root_queue_lem :
    (queues : QueueConfigs)
    → (conf : QueueFields) × ((below : QueueConfigs) × (root_queue queues ≡ queue_config conf below)
        × (conf.parent ≡ true)
        × (to_lower conf.name ≡ "root"))
unfolding root_queue
root_queue_lem no_queues = (inserted_fields, (no_queues, refl, refl, lower_root))
root_queue_lem (and_queue queue (and_queue next queues)) =
    (inserted_fields, (and_queue queue (and_queue next queues), refl, refl, lower_root))
root_queue_lem (and_queue (queue_config conf below) no_queues) =
    elim (Bool-cases (to_lower conf.name == "root")) [
      | inl e ↦ (
        record conf { parent = true },
        (below, rw e refl, refl, (eq_iff (to_lower conf.name) "root").0 e),
      )
      | inr e ↦ (
        inserted_fields,
        (and_queue (queue_config conf below) no_queues, rw e refl, refl, lower_root),
      )
    ]

-- `checkQueuesStructure` leaves one root queue.
pub check_queues_structure-HasRoot :
    (partition checked : PartitionConfig)
    → check_queues_structure partition ≡ valid checked
    → HasRoot checked × (checked.name ≡ partition.name)
unfolding check_queues_structure
check_queues_structure-HasRoot partition checked e = elim (Option-cases partition.queues) [
  | inl c ↦ cc (rw (c, check_queues_structure) at e)
  | inr (queues, c) ↦ elim (Option-cases (check_root (root_queue queues))) [
    | inr (x, d) ↦ cc (rw d at (rw (c, check_queues_structure) at e))
    | inl d ↦
        let (conf, (below, is, parent, name)) = root_queue_lem queues in
        let same = valid_eq _ _ (rw d at (rw (c, check_queues_structure) at e)) in
        (
          record {
            conf = conf;
            below = below;
            queues = sym (ap (λ x. x.queues) same) ∙ ap (λ r. some (and_queue r no_queues)) is;
            parent = parent;
            name = name;
            checked = ap check_root (sym is) ∙ d;
          },
          sym (ap (λ x. x.name) same),
        )
  ]
]

-- The root queue of such a partition is kept.
root_queue-HasRoot :
    (conf : QueueFields) (below : QueueConfigs)
    → conf.parent ≡ true
    → to_lower conf.name ≡ "root"
    → root_queue (and_queue (queue_config conf below) no_queues) ≡ queue_config conf below
unfolding root_queue
root_queue-HasRoot conf below parent name =
    let test : to_lower conf.name == "root" ≡ true = (eq_iff (to_lower conf.name) "root").1 name in
    rw test (ap (λ b. queue_config (record conf { parent = b }) below) (sym parent))

-- The checks of the queues pass such a partition as it is.
pub check_queues_structure_kept :
    (partition : PartitionConfig)
    → HasRoot partition
    → check_queues_structure partition ≡ valid partition
unfolding check_queues_structure
check_queues_structure_kept partition r =
    let same = root_queue-HasRoot r.conf r.below r.parent r.name in
    rw (r.queues, check_queues_structure) (rw same (rw r.checked refl))

name_default-cases :
    (partition : PartitionConfig)
    → ((is_default partition ≡ true) × ((name_default partition).name ≡ "default"))
      ⊎ ((is_default partition ≡ false) × (name_default partition ≡ partition))
name_default-cases partition = elim (Bool-cases (is_default partition)) [
  | inl e ↦ inl (e, rw e refl)
  | inr e ↦ inr (e, rw e refl)
]

lower_default : to_lower "default" ≡ "default"
unfolding to_lower
lower_default = refl

is_default_named :
    (partition : PartitionConfig) → partition.name ≡ "default" → is_default partition ≡ true
is_default_named partition e = rw (e, lower_default) refl

-- A partition that has the name of another after it is made default is as default as that one, and
-- is not renamed again.
pub name_default_kept :
    (partition checked : PartitionConfig)
    → checked.name ≡ (name_default partition).name
    → (is_default checked ≡ is_default partition) × (name_default checked ≡ checked)
name_default_kept partition checked e = elim (name_default-cases partition) [
  | inl (d, n) ↦
      let test = is_default_named checked (e ∙ n) in
      (test ∙ sym d, rw test (ap (λ t. record checked { name = t }) (sym (e ∙ n))))
  | inr (d, n) ↦
      let same : checked.name ≡ partition.name = e ∙ ap (λ x. x.name) n in
      let test : is_default checked ≡ false =
        ap (λ t. t == "" || to_lower t == "default") same ∙ d in
      (test ∙ sym d, rw test refl)
]
