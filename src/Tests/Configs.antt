-- ===== src/Tests/Configs.antt =====
-- A configuration from its text to the partition.
use mathlib.Core.List.{Memᴰ}
use mathlib.Core.Path.{subst}
use yunikorn_study.Prelude.{String, ◌≡◌, ◌↔◌, refl, Option, none, some, true, false, [], ◌∷◌, arith}
use yunikorn_study.Text.{split, to_lower, trim_space, fields, equal_fold}
use yunikorn_study.Dict.{lookup, insert}
use yunikorn_study.Acl.{is_user_name, is_group_name}
use yunikorn_study.Queue.Config.{
  QueueFields, QueueConfigs, no_queues, and_queue, queue_config, parse_int, is_queue_name,
}
use yunikorn_study.Partition.Monad.{Partition}
use yunikorn_study.Placement.Chosen.{IsReady}
use yunikorn_study.Placement.Filter.{is_special_text}
use yunikorn_study.Placement.Rules.{RuleConfig, no_config, rule_config}
use yunikorn_study.Config.{
  PartitionConfig, inserted_root, valid, validate, validate_loop, check_queues_structure,
  root_queue, check_root, check_queues, check_each, check_names, check_acl, check_resource,
  check_resources, check_placement_rules, check_placement_rule, check_placement_filter, check_list,
  is_rule_name,
}
use yunikorn_study.Config.Names.{AreNames}
use yunikorn_study.Config.Accepts.{IsRight, AreRight, check_queues_iff}
use yunikorn_study.Config.Built.{HavePlainAcls}
use yunikorn_study.Config.Validated.{validate-validate}
use yunikorn_study.Config.Partition.{new_partition_info, new_partition}
use yunikorn_study.Config.Ready.{HasQueues, validate-new_partition_info}

abbrev conf_fields : String → QueueFields
conf_fields name = record {
  name = name;
  parent = false;
  guaranteed = some (("memory", "10") ∷ []);
  max = some (("memory", "50") ∷ []);
  properties = none;
  admin_acl = "";
  submit_acl = "*";
}

-- Two queues, the first with one below it.
abbrev conf_queues : QueueConfigs
conf_queues =
    and_queue
      (queue_config (conf_fields "Dev")
        (and_queue (queue_config (conf_fields "a") no_queues) no_queues))
      (and_queue (queue_config (conf_fields "b") no_queues) no_queues)

abbrev user_rule : RuleConfig
user_rule =
    rule_config
      (record {
        name = "user";
        create = true;
        filter = record { kind = "Deny"; users = "alice" ∷ []; groups = [] };
        value = "";
      })
      no_config

abbrev pub conf : PartitionConfig
conf = record {
  name = "";
  queues = some conf_queues;
  placement_rules = user_rule ∷ [];
  users = [];
  preemption = true;
}

abbrev pub checked : PartitionConfig
checked = record conf {
  name = "default";
  queues = some (and_queue (inserted_root conf_queues) no_queues);
}

abbrev pub compiled : String → Option String
compiled s = some s

pub conf_valid : validate compiled (conf ∷ []) ≡ valid (checked ∷ [])
unfolding validate validate_loop check_queues_structure root_queue check_root check_queues
    check_each check_names check_acl check_resource check_resources check_placement_rules
    check_placement_rule check_placement_filter check_list is_rule_name is_queue_name parse_int
    to_lower trim_space fields equal_fold lookup insert is_user_name is_group_name is_special_text
conf_valid = refl

validate-validate_example : validate compiled (checked ∷ []) ≡ valid (checked ∷ [])
validate-validate_example = validate-validate compiled (conf ∷ []) (checked ∷ []) conf_valid

some_queues : (x y : QueueConfigs) → some x ≡ some y → x ≡ y
some_queues x y e = cc

conf_plain : (queues : QueueConfigs) → checked.queues ≡ some queues → HavePlainAcls queues
unfolding HavePlainAcls split
conf_plain queues e = subst HavePlainAcls (some_queues _ queues e) (
  omega arith,
  omega arith,
  (
    omega arith,
    omega arith,
    (omega arith, omega arith, tt, tt),
    (omega arith, omega arith, tt, tt),
  ),
  tt,
)

validate-new_partition_info_example :
    (pi : Partition) × (new_partition_info checked "rm"
      ≡ some (new_partition pi checked.placement_rules))
    × IsReady pi
    × HasQueues checked pi
validate-new_partition_info_example =
    validate-new_partition_info compiled (conf ∷ []) (checked ∷ []) checked "rm" conf_valid
      (Memᴰ.head refl) conf_plain

abbrev under_dev : QueueConfigs
under_dev = and_queue (queue_config (conf_fields "a") no_queues) no_queues

check_queues_iff_example :
    (check_queues (queue_config (conf_fields "Dev") under_dev) 1 ≡ none)
    ↔ (IsRight (conf_fields "Dev") × AreNames under_dev × AreRight under_dev)
check_queues_iff_example = check_queues_iff (conf_fields "Dev") under_dev 1
