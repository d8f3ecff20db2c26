-- ===== src/Placement/Rules.antt =====
-- The rules of scheduler/placement: rule.go, user_rule.go, fixed_rule.go, tag_rule.go, provided_rule.go
-- and test_rule.go. The application of a call is never nil.
use Prim.Native.String.{◌++◌}
use yunikorn_study.Prelude.{
  String, ℕ, Option, none, some, Bool, true, false, not, ◌&&◌, ◌||◌, ◌==◌, if◌then◌else◌,
}
use yunikorn_study.Text.{to_lower}
use yunikorn_study.Text.Names.{has_prefix, replace_dot}
use yunikorn_study.Application.{Application, get_tag}
use yunikorn_study.Partition.Monad.{Partition}
use yunikorn_study.Partition.Defs.{get_queue}
use yunikorn_study.Placement.Filter.{Filter, FilterConfig, new_filter, allow_user}

-- `configs.PlacementRule` without its parent.
pub record RuleFields : Type 0 where
  pub name : String
  pub create : Bool
  pub filter : FilterConfig
  pub value : String

-- A rule of the configuration and its parent; the nil parent ends the chain.
pub data RuleConfig : Type 0 where
  no_config : RuleConfig
  rule_config : RuleFields → RuleConfig → RuleConfig

-- What the types of rules add to `basicRule`.
pub data Kind : Type 0 where
  user provided test : Kind
  fixed : String → Bool → Kind
  tag : String → Kind

-- `initialise` of a fixed rule: a qualified value may not have a parent rule.
abbrev pub fixed_kind : String → Bool → Option Kind
fixed_kind value has_parent =
    if value == "" || (has_prefix "root" value && has_parent)
    then none
    else some (fixed value (has_prefix "root" value))

-- `initialise` of a tag rule.
abbrev pub tag_kind : String → Option Kind
tag_kind value = if value == "" then none else some (tag value)

-- The type of `normalise(conf.Name)`, and the checks of `initialise` before the parent is made.
unfoldable pub kind_of : RuleFields → Bool → Option Kind
kind_of conf has_parent =
    let name = to_lower conf.name in
    let value = to_lower conf.value in
    if name == "user"
    then some user
    else (if name == "fixed"
        then fixed_kind value has_parent
        else (if name == "provided"
            then some provided
            else (if name == "tag"
                then tag_kind value
                else (if name == "test" then some test else none))))

abbrev pub is_config : RuleConfig → Bool
is_config no_config = false
is_config (rule_config conf parent) = true

-- A rule and its parent; the nil parent ends the chain.
pub data Rule (Exp : Type 0) : Type 0 where
  no_rule : Rule Exp
  rule : Kind → Bool → Filter Exp → Rule Exp → Rule Exp

-- The answer of a rule: a queue name, "" where it does not match; an error for a parent that is a
-- leaf; or a nil queue that is asked whether it is a leaf.
pub data Answer : Type 0 where
  found leaf_parent : String → Answer
  nil_queue : Answer

-- What the parent rule means for a rule: the name of the parent queue, or the answer already.
pub data Parent : Type 0 where
  below : String → Parent
  answered : Answer → Parent

module _ {Exp : Type 0} (compile : String → Option Exp) (match_string : Exp → String → Bool) where
  abbrev pub build : RuleFields → Option Kind → Option (Rule Exp) → Option (Rule Exp)
  build conf none parent = none
  build conf (some kind) none = none
  build conf (some kind) (some parent) =
      some (rule kind conf.create (new_filter compile match_string conf.filter) parent)

  -- `newRule`, with `initialise`; `none` is an error.
  unfoldable pub new_rule : RuleConfig → Option (Rule Exp)
  new_rule no_config = some no_rule
  new_rule (rule_config conf parent) =
      build conf (kind_of conf (is_config parent)) (new_rule parent)

  -- `if !strings.HasPrefix(name, "root.") { name = "root." + name }`
  abbrev pub qualify : String → String
  qualify name = if has_prefix "root." name then name else "root." ++ name

  abbrev pub check_parent : Partition → String → Option ℕ → Parent
  check_parent pi name none = answered nil_queue
  check_parent pi name (some p) = elim (pi.queues.cell p) [
    | none ↦ answered nil_queue
    | some q ↦ if q.is_leaf then answered (leaf_parent name) else below name
  ]

  abbrev pub from_parent : Partition → Answer → Parent
  from_parent pi (found name) =
      if name == ""
      then answered (found "")
      else check_parent pi (qualify name) (get_queue pi (qualify name))
  from_parent pi a = answered a

  -- The part of `placeApplication` that runs the parent rule.
  abbrev pub parent_queue : Partition → Rule Exp → Answer → Parent
  parent_queue pi no_rule a = below "root"
  parent_queue pi (rule kind create filter parent) a = from_parent pi a

  -- The last part: without the create flag the queue must exist.
  abbrev pub must_exist : Bool → String → Option ℕ → Answer
  must_exist create name none = if create then found name else found ""
  must_exist create name (some p) = found name

  abbrev pub existing : Partition → Bool → String → Answer
  existing pi create name = must_exist create name (get_queue pi name)

  abbrev pub under : Partition → Bool → Parent → String → Answer
  under pi create (below parent) name = existing pi create (parent ++ ("." ++ name))
  under pi create (answered a) name = a

  -- `placeApplication` of each type, where the parent rule means `up`.
  abbrev pub place_by_user : Partition → Application → Bool → Filter Exp → Parent → Answer
  place_by_user pi app create filter up =
      if allow_user compile match_string filter app.user
      then under pi create up (replace_dot app.user.user)
      else found ""

  abbrev pub place_by_provided : Partition → Application → Bool → Filter Exp → Parent → Answer
  place_by_provided pi app create filter up =
      if not (app.queue_name == "") && allow_user compile match_string filter app.user
      then (if has_prefix "root." app.queue_name
          then existing pi create app.queue_name
          else under pi create up (replace_dot app.queue_name))
      else found ""

  abbrev pub place_by_fixed :
      Partition → Application → String → Bool → Bool → Filter Exp → Parent → Answer
  place_by_fixed pi app queue qualified create filter up =
      if allow_user compile match_string filter app.user
      then (if qualified then existing pi create queue else under pi create up queue)
      else found ""

  abbrev pub place_by_tag : Partition → Application → String → Bool → Filter Exp → Parent → Answer
  place_by_tag pi app name create filter up =
      let value = get_tag app name in
      if not (value == "") && allow_user compile match_string filter app.user
      then (if has_prefix "root." value
          then existing pi create value
          else under pi create up (replace_dot value))
      else found ""

  abbrev pub place_by_test : Application → Answer
  place_by_test app =
      if app.queue_name == "" then found "test" else found (replace_dot app.queue_name)

  abbrev pub place_kind : Partition → Application → Kind → Bool → Filter Exp → Parent → Answer
  place_kind pi app user create filter up = place_by_user pi app create filter up
  place_kind pi app provided create filter up = place_by_provided pi app create filter up
  place_kind pi app (fixed queue qualified) create filter up =
      place_by_fixed pi app queue qualified create filter up
  place_kind pi app (tag name) create filter up = place_by_tag pi app name create filter up
  place_kind pi app test create filter up = place_by_test app

  -- `placeApplication`. A parent rule changes nothing, so that it is no matter whether it is run.
  unfoldable pub place : Partition → Application → Rule Exp → Answer
  place pi app no_rule = found ""
  place pi app (rule kind create filter parent) =
      let up = parent_queue pi parent (place pi app parent) in
      place_kind pi app kind create filter up
