-- ===== src/Tests/Placements.antt =====
-- Placements on the small partition.
use mathlib.Core.Path.{subst}
use yunikorn_study.Prelude.{
  String, ℕ, ◌≡◌, refl, Option, none, some, Bool, true, false, not, [], ◌∷◌, arith, ◌==◌,
  if◌then◌else◌, inl, inr,
}
use yunikorn_study.Dict.{lookup, IsMap}
use yunikorn_study.Text.{to_lower, split}
use yunikorn_study.Application.{Application}
use yunikorn_study.Queue.Manage.{check_submit_access, check_up}
use yunikorn_study.Queue.Config.{new_unmanaged_queue, is_queue_name}
use yunikorn_study.Acl.{check_access, has_group}
use yunikorn_study.Queue.Heaps.{IsHeap, IsQueue, allocate_cases}
use yunikorn_study.Queue.Links.{IsLinked, IsChildOf, AreChildren, no_children}
use yunikorn_study.Partition.Monad.{Partition}
use yunikorn_study.Partition.Create.{
  CreateError, create_queues, create_queues-IsHeap, missing, create_loop,
}
use yunikorn_study.Placement.Filter.{
  FilterConfig, Filter, new_filter, allow_user, is_special_text, is_matched, allow_user-new_filter,
}
use yunikorn_study.Placement.Rules.{
  RuleFields, no_config, rule_config, Rule, rule, no_rule, user, fixed, new_rule, kind_of, place,
}
use yunikorn_study.Placement.Places.{IsPlaced, place-IsPlaced}
use yunikorn_study.Placement.Manager.{Manager, try_rules, nearest, place_application}
use yunikorn_study.Placement.Chosen.{IsReady}
use yunikorn_study.Partition.Defs.{get_queue, walk_down}
use yunikorn_study.Text.Names.{before_last_dot, after_last_dot, has_prefix}
use yunikorn_study.Tests.Fixtures.{
  root, leaf, no_heap, no_heap-IsHeap, root_heap, root_heap-IsHeap, heap, heap-IsHeap, application,
  partition, one-AllValues,
}
use yunikorn_study.Tests.Fixtures as Fixtures

default_only : IsMap root.children
unfolding lookup
default_only = (refl, tt)

pub heap-IsLinked : IsLinked heap
heap-IsLinked j q c = elim (allocate_cases root_heap leaf root_heap-IsHeap j q c) [
  | inl (same, is) ↦ subst (λ x. AreChildren heap j x.children) is (no_children heap j)
  | inr old ↦ elim (allocate_cases no_heap root no_heap-IsHeap j q old) [
    | inl (same, is) ↦
        subst (λ x. AreChildren heap j x.children) is
          (one-AllValues (IsChildOf heap j) "default" 1 ((leaf, refl), omega arith), default_only)
    | inr e ↦ cc
  ]
]

pub partition-IsReady : IsReady partition
partition-IsReady = record { heap = heap-IsHeap; linked = heap-IsLinked; root = (root, refl) }

create_queues-IsHeap_example :
    (pi' : Partition) × ((e : Option CreateError) × (create_queues partition "root.users.bob"
        ≡ some (pi', e))
      × IsHeap pi'.queues
      × IsLinked pi'.queues
      × (pi'.root ≡ 0)
      × ((j : ℕ) → IsQueue heap j → IsQueue pi'.queues j)
      × ((x : CreateError) → e ≡ some x → pi' ≡ partition))
create_queues-IsHeap_example =
    create_queues-IsHeap partition "root.users.bob" heap-IsHeap heap-IsLinked (root, refl)

abbrev compiled : String → Option String
compiled s = some s

abbrev same_text : String → String → Bool
same_text e s = e == s

abbrev deny_bob : FilterConfig
deny_bob = record { kind = "deny"; users = "bob" ∷ "carol" ∷ []; groups = "ops" ∷ [] }

allow_user-new_filter_example :
    allow_user compiled same_text (new_filter compiled same_text deny_bob) Fixtures.user ≡ (
      let allow = false in
      if false then allow else (if is_matched deny_bob Fixtures.user then allow else not allow))
unfolding is_special_text
allow_user-new_filter_example =
    allow_user-new_filter compiled same_text deny_bob Fixtures.user refl refl

abbrev user_fields : RuleFields
user_fields = record { name = "user"; create = true; filter = deny_bob; value = "" }

abbrev user_rule : Rule String
user_rule = rule user true (new_filter compiled same_text deny_bob) no_rule

user_made : new_rule compiled same_text (rule_config user_fields no_config) ≡ some user_rule
unfolding new_rule kind_of to_lower
user_made = refl

not_test : (to_lower "user" == "test") ≡ false
unfolding to_lower
not_test = refl

place-IsPlaced_example :
    IsPlaced compiled same_text partition application user_fields user_rule
      (place compiled same_text partition application user_rule)
place-IsPlaced_example =
    place-IsPlaced compiled same_text partition application user_fields no_config user_rule
      user_made not_test

abbrev open_filter : Filter String
open_filter = record {
  allow = true;
  empty = true;
  user_list = [];
  group_list = [];
  user_exp = none;
  group_exp = none;
}

abbrev manager : Manager String
manager = record {
  name = "rm";
  rules = user_rule ∷ rule (fixed "teams" false) true open_filter no_rule ∷ [];
  initialised = true;
}

abbrev by_admin : Application
by_admin = record application { user = Fixtures.admin }

abbrev open_manager : Manager String
open_manager = record manager { rules = rule (fixed "!" false) true open_filter no_rule ∷ [] }

-- A name that is no queue name: its creation gives no error, and its queue is nil.
nil_placement : place_application compiled same_text open_manager partition by_admin ≡ none
unfolding place_application try_rules place allow_user get_queue walk_down split to_lower lookup
    nearest before_last_dot check_submit_access check_up check_access has_group create_queues
    missing create_loop has_prefix new_unmanaged_queue is_queue_name after_last_dot
nil_placement = refl
