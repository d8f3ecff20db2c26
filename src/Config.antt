-- ===== src/Config.antt =====
-- The configuration of the scheduler (common/configs/config.go) and its validation
-- (common/configs/configvalidator.go). What reads YAML is not part of it: a configuration is what the
-- reader made of the text. `compile` stands for `regexp.Compile`; its result is only asked for.

pub mod Names
pub mod Accepts
pub mod Props
pub mod Extends
pub mod Child
pub mod Built
pub mod Root
pub mod Validated
pub mod Partition
pub mod Ready
use yunikorn_study.Prelude.{
  String, ℕ, suc, Option, none, some, Bool, true, false, List, [], ◌∷◌, not, ◌&&◌, ◌||◌, ◌==◌,
  if◌then◌else◌, eqb, leb, ltb, length,
}
use Prim.Native.Char.{Char, code}
use yunikorn_study.Dict.{Dict}
use yunikorn_study.Text.{to_lower, equal_fold, trim_space, fields}
use yunikorn_study.Acl.{is_user_name, is_group_name, is_member}
use yunikorn_study.Dict.{insert}
use yunikorn_study.Queue.Config.{
  QueueFields, QueueConfig, queue_config, QueueConfigs, no_queues, and_queue, parse_int,
  is_queue_name,
}
use yunikorn_study.Placement.Filter.{FilterConfig, is_special_text}
use yunikorn_study.Placement.Rules.{RuleFields, RuleConfig, no_config, rule_config}

-- `configs.User`
pub record User : Type 0 where
  pub name : String
  pub max_resources : Dict String
  pub max_applications : ℕ

-- `queues` is `none` for a nil slice. The preemption part is its one flag.
pub record PartitionConfig : Type 0 where
  pub name : String
  pub queues : Option QueueConfigs
  pub placement_rules : List RuleConfig
  pub users : List User
  pub preemption : Bool

pub data ConfigError : Type 0 where
  acl_spaces bad_rule_name bad_filter_type bad_queue_name : String → ConfigError
  bad_filter_list : List String → ConfigError
  bad_resource : String → ConfigError
  duplicate_queue : String → ℕ → ConfigError
  no_queue_config root_has_limits two_defaults : ConfigError

-- `if err != nil { return err }` and what follows.
infixr 3 ◌then_check◌
abbrev pub ◌then_check◌ : Option ConfigError → Option ConfigError → Option ConfigError
some e then_check next = some e
none then_check next = next

-- `checkACL`
unfoldable pub check_acl : String → Option ConfigError
check_acl text =
    let acl = trim_space text in
    if acl == "" || acl == "*"
    then none
    else (if ltb 2 (length (fields acl)) then some (acl_spaces acl) else none)

-- `checkResource`
unfoldable pub check_resource : Dict String → Option ConfigError
check_resource [] = none
check_resource ((key, text) ∷ res) =
    let rest = check_resource res in
    elim (parse_int text) [ none ↦ some (bad_resource text) | some v ↦ rest ]

-- One half of `checkResources`: a nil map is not looked at.
abbrev pub check_limit : Option (Dict String) → Option ConfigError
check_limit none = none
check_limit (some res) = check_resource res

-- `checkResources`
unfoldable pub check_resources : QueueFields → Option ConfigError
check_resources conf = check_limit conf.guaranteed then_check check_limit conf.max

is_rule_start : Char → Bool
is_rule_start c =
    eqb (code c) b'_'
    || ((leb b'a' (code c) && leb (code c) b'z') || (leb b'A' (code c) && leb (code c) b'Z'))

rule_rest : String → Bool
rule_rest String.[] = true
rule_rest (String.◌∷◌ c s) =
    (is_rule_start c || (leb b'0' (code c) && leb (code c) b'9')) && rule_rest s

-- ^[_a-zA-Z][a-zA-Z0-9_]*$
unfoldable pub is_rule_name : String → Bool
unfolding is_rule_start rule_rest
is_rule_name String.[] = false
is_rule_name (String.◌∷◌ c s) = is_rule_start c && rule_rest s

abbrev is_compiled {ℓ} : {Exp : Type ℓ} → Option Exp → Bool
is_compiled none = false
is_compiled (some e) = true

module _ {Exp : Type 0} (compile : String → Option Exp) where
  -- The check of the users or the groups of a filter: only a list of one name is looked at.
  unfoldable pub check_list : (String → Bool) → List String → Option ConfigError
  check_list is_name [] = none
  check_list is_name (name ∷ next ∷ names) = none
  check_list is_name (name ∷ []) =
      if is_name name
      then none
      else (if not (is_compiled (compile name)) || not (is_special_text name)
          then some (bad_filter_list (name ∷ []))
          else none)

  -- `checkPlacementFilter`
  unfoldable pub check_placement_filter : FilterConfig → Option ConfigError
  check_placement_filter filter =
      if not (filter.kind == "")
        && (not (equal_fold filter.kind "allow") && not (equal_fold filter.kind "deny"))
      then some (bad_filter_type filter.kind)
      else check_list is_user_name filter.users then_check check_list is_group_name filter.groups

  -- `checkPlacementRule`; the nil parent is not checked.
  unfoldable pub check_placement_rule : RuleConfig → Option ConfigError
  check_placement_rule no_config = none
  check_placement_rule (rule_config conf parent) =
      let above = check_placement_rule parent in
      if is_rule_name conf.name
      then above then_check check_placement_filter conf.filter
      else some (bad_rule_name conf.name)

  -- `checkPlacementRules`
  unfoldable pub check_placement_rules : List RuleConfig → Option ConfigError
  check_placement_rules [] = none
  check_placement_rules (rule ∷ rules) =
      check_placement_rule rule then_check check_placement_rules rules

-- The loop of `checkQueues` over the names of one level, with the map of the names seen.
unfoldable pub check_names : QueueConfigs → Dict Bool → ℕ → Option ConfigError
check_names no_queues seen level = none
check_names (and_queue (queue_config conf below) queues) seen level =
    let rest = check_names queues (insert (to_lower conf.name) true seen) level in
    if is_queue_name conf.name
    then (if is_member (to_lower conf.name) seen
        then some (duplicate_queue conf.name level)
        else rest)
    else some (bad_queue_name conf.name)

-- `checkQueues` of one queue, and of each of a list.
unfoldable mutual
  pub check_queues : QueueConfig → ℕ → Option ConfigError
  check_queues (queue_config conf below) level =
      check_resources conf
      then_check check_acl conf.admin_acl
      then_check check_acl conf.submit_acl
      then_check check_names below [] level
      then_check check_each below (suc level)

  pub check_each : QueueConfigs → ℕ → Option ConfigError
  check_each no_queues level = none
  check_each (and_queue queue queues) level =
      check_queues queue level then_check check_each queues level

-- `var rootQueue QueueConfig`, with its three fields set.
abbrev pub inserted_fields : QueueFields
inserted_fields = record {
  name = "root";
  parent = true;
  guaranteed = none;
  max = none;
  properties = none;
  admin_acl = "";
  submit_acl = "";
}

abbrev pub inserted_root : QueueConfigs → QueueConfig
inserted_root queues = queue_config inserted_fields queues

-- The root queue of the partition: the single one of that name, as a parent, or one that is inserted.
unfoldable pub root_queue : QueueConfigs → QueueConfig
root_queue (and_queue (queue_config conf below) no_queues) =
    if to_lower conf.name == "root"
    then queue_config (record conf { parent = true }) below
    else inserted_root (and_queue (queue_config conf below) no_queues)
root_queue no_queues = inserted_root no_queues
root_queue (and_queue queue (and_queue next queues)) =
    inserted_root (and_queue queue (and_queue next queues))

abbrev pub is_set : Option (Dict String) → Bool
is_set none = false
is_set (some m) = true

unfoldable pub check_root : QueueConfig → Option ConfigError
check_root (queue_config conf below) =
    if is_set conf.guaranteed || is_set conf.max
    then some root_has_limits
    else check_queues (queue_config conf below) 1

-- A validation ends with an error, or with the configuration as it is changed.
pub data Checked (A : Type 0) : Type 0 where
  invalid : ConfigError → Checked A
  valid : A → Checked A

abbrev pub or_valid : {A : Type 0} → Option ConfigError → A → Checked A
or_valid (some e) a = invalid e
or_valid none a = valid a

-- `checkQueuesStructure`
unfoldable pub check_queues_structure : PartitionConfig → Checked PartitionConfig
check_queues_structure partition = elim partition.queues [
  | none ↦ invalid no_queue_config
  | some queues ↦
      let root = root_queue queues in
      or_valid (check_root root) (record partition { queues = some (and_queue root no_queues) })
]

-- `checkUserDefinition`: it checks nothing yet.
abbrev pub check_user_definition : PartitionConfig → Option ConfigError
check_user_definition partition = none

abbrev pub is_default : PartitionConfig → Bool
is_default partition = partition.name == "" || to_lower partition.name == "default"

abbrev pub name_default : PartitionConfig → PartitionConfig
name_default partition =
    if is_default partition then record partition { name = "default" } else partition

abbrev pub and_partition :
    PartitionConfig → Checked (List PartitionConfig) → Checked (List PartitionConfig)
and_partition partition (invalid e) = invalid e
and_partition partition (valid partitions) = valid (partition ∷ partitions)

module _ {Exp : Type 0} (compile : String → Option Exp) where
  -- What follows the check of the queues of one partition.
  abbrev pub check_rest :
      Checked PartitionConfig → Checked (List PartitionConfig) → Checked (List PartitionConfig)
  check_rest (invalid e) rest = invalid e
  check_rest (valid partition) rest =
      elim (check_placement_rules compile partition.placement_rules
        then_check check_user_definition partition) [
          | some e ↦ invalid e
          | none ↦ and_partition partition rest
        ]

  -- The loop of `Validate`; `seen` says that a default partition came before. The partitions that are
  -- written back are the result, since a configuration with an error is dropped.
  unfoldable pub validate_loop : Bool → List PartitionConfig → Checked (List PartitionConfig)
  validate_loop seen [] = valid []
  validate_loop seen (partition ∷ partitions) =
      let rest = validate_loop (seen || is_default partition) partitions in
      if is_default partition && seen
      then invalid two_defaults
      else check_rest (check_queues_structure (name_default partition)) rest

  -- `Validate` of a configuration that is not nil.
  unfoldable pub validate : List PartitionConfig → Checked (List PartitionConfig)
  validate partitions = validate_loop false partitions
