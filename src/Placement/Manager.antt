-- ===== src/Placement/Manager.antt =====
-- scheduler/placement/placement.go: the chain of rules, and the placement of an application.
use Prim.Native.String.{count}
use mathlib.Core.Option
use yunikorn_study.Prelude.{
  String, ℕ, zero, suc, Option, none, some, Bool, true, false, List, [], ◌∷◌, ◌==◌, if◌then◌else◌,
}
use yunikorn_study.Text.Names.{before_last_dot}
use yunikorn_study.Application.{Application, set_queue}
use yunikorn_study.Queue.Manage.{check_submit_access, get_queue_path}
use yunikorn_study.Partition.Monad.{Partition}
use yunikorn_study.Partition.Defs.{get_queue}
use yunikorn_study.Partition.Create.{CreateError, create_queues}
use yunikorn_study.Placement.Rules.{
  RuleConfig, Rule, Answer, found, leaf_parent, nil_queue, new_rule, place,
}

pub record Manager (Exp : Type 0) : Type 0 where
  pub name : String
  pub rules : List (Rule Exp)
  pub initialised : Bool

pub data PlaceError : Type 0 where
  rule_failed : String → PlaceError
  not_created : CreateError → PlaceError
  no_rule_matched : PlaceError

-- What the loop over the rules ends with.
pub data Placement : Type 0 where
  placed : Partition → String → Placement
  refused : PlaceError → Placement

-- The walk up a name that is not there, to the first queue that is.
unfoldable pub nearest : ℕ → Partition → String → Option ℕ
nearest zero pi current = none
nearest (suc fuel) pi current = elim (before_last_dot current) [
  | none ↦ none
  | some shorter ↦ elim (get_queue pi shorter) [ none ↦ nearest fuel pi shorter | some p ↦ some p ]
]

-- What comes after `CheckSubmitAccess`: the placement if there is access, the next rule if not.
abbrev pub if_allowed : Option Bool → Option Placement → Option Placement → Option Placement
if_allowed none go next = none
if_allowed (some true) go next = go
if_allowed (some false) go next = next

abbrev pub after_create : String → Option (Partition × Option CreateError) → Option Placement
after_create name none = none
after_create name (some (pi', none)) = some (placed pi' name)
after_create name (some (pi', some e)) = some (refused (not_created e))

-- A queue that is not there is created below the nearest one that is.
abbrev pub place_new :
    Partition → Application → String → Option ℕ → Option Placement → Option Placement
place_new pi app name none next = none
place_new pi app name (some p) next =
    if_allowed (check_submit_access pi.queues p app.user)
      (after_create name (create_queues pi name)) next

abbrev pub place_named :
    Partition → Application → String → Option ℕ → Option Placement → Option Placement
place_named pi app name (some p) next =
    if_allowed (check_submit_access pi.queues p app.user) (some (placed pi name)) next
place_named pi app name none next = place_new pi app name (nearest (suc (count name)) pi name) next

abbrev pub place_answer : Partition → Application → Answer → Option Placement → Option Placement
place_answer pi app nil_queue next = none
place_answer pi app (leaf_parent name) next = some (refused (rule_failed name))
place_answer pi app (found name) next =
    if name == "" then next else place_named pi app name (get_queue pi name) next

-- What comes after the loop: the application, and the error.
abbrev pub put_queue :
    Partition → Application → Option ℕ → Option (Partition × Application × Option PlaceError)
put_queue pi app none = none
put_queue pi app (some p) =
    Option.map (λ path. (pi, set_queue app p path, none)) (get_queue_path pi.queues p)

abbrev pub settle :
    Partition
    → Application
    → Option Placement
    → Option (Partition × Application × Option PlaceError)
settle pi app none = none
settle pi app (some (refused e)) = some (pi, record app { queue_name = "" }, some e)
settle pi app (some (placed pi' name)) = put_queue pi' app (get_queue pi' name)

module _ {Exp : Type 0} (compile : String → Option Exp) (match_string : Exp → String → Bool) where
  abbrev cons_rule : Option (Rule Exp) → Option (List (Rule Exp)) → Option (List (Rule Exp))
  cons_rule none rest = none
  cons_rule (some r) rest = Option.map (λ rs. r ∷ rs) rest

  build_loop : List RuleConfig → Option (List (Rule Exp))
  build_loop [] = some []
  build_loop (conf ∷ rules) = cons_rule (new_rule compile match_string conf) (build_loop rules)

  -- `buildRules`; `none` is an error, which an empty list is too.
  unfoldable pub build_rules : List RuleConfig → Option (List (Rule Exp))
  unfolding build_loop
  build_rules [] = none
  build_rules (conf ∷ rules) = build_loop (conf ∷ rules)

  abbrev pub activate : Manager Exp → Option (List (Rule Exp)) → Manager Exp × Bool
  activate m none = (m, true)
  activate m (some rules) = (record m { rules = rules; initialised = true }, false)

  -- `initialise`: the manager, and whether there is an error.
  unfoldable pub initialise : Manager Exp → List RuleConfig → Manager Exp × Bool
  initialise m rules = activate m (build_rules rules)

  -- `NewPlacementManager`: an error leaves the manager without rules.
  unfoldable pub new_placement_manager : String → List RuleConfig → Manager Exp
  new_placement_manager name [] = record { name = name; rules = []; initialised = false }
  new_placement_manager name (conf ∷ rules) =
      (initialise (record { name = name; rules = []; initialised = false }) (conf ∷ rules)).0

  unfoldable pub update_rules : Manager Exp → List RuleConfig → Manager Exp × Bool
  update_rules m [] =
      if m.initialised then (record m { initialised = false; rules = [] }, false) else (m, false)
  update_rules m (conf ∷ rules) = initialise m (conf ∷ rules)

  -- The loop over the rules; the outer `none` is a nil queue.
  unfoldable pub try_rules : Partition → Application → List (Rule Exp) → Option Placement
  try_rules pi app [] = some (refused no_rule_matched)
  try_rules pi app (r ∷ rules) =
      place_answer pi app (place compile match_string pi app r) (try_rules pi app rules)

  -- `PlaceApplication`: the partition and the application afterwards, and the error.
  unfoldable pub place_application :
      Manager Exp → Partition → Application → Option (Partition × Application × Option PlaceError)
  place_application m pi app =
      if m.initialised then settle pi app (try_rules pi app m.rules) else some (pi, app, none)
