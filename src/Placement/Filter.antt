-- ===== src/Placement/Filter.antt =====
-- scheduler/placement/filter.go: the users and groups that a placement rule is for. What Go's `regexp`
-- makes of an expression of the configuration is a parameter: `compile` gives the compiled expression,
-- or `none` for an error, and `match_string` runs it.
use Prim.Native.Char.{Char, code}
use yunikorn_study.Prelude.{
  String, ◌≡◌, refl, Option, none, some, Bool, true, false, List, [], ◌∷◌, eqb, not, ◌&&◌, ◌||◌,
  ◌==◌, if◌then◌else◌, arith,
}
use yunikorn_study.Dict.{Dict, lookup}
use yunikorn_study.Acl.{UserGroup, is_member, is_user_name, is_group_name, add_names, has_group}
use yunikorn_study.Acl.Access.{is_listed, any_listed, is_member-add_names, has_group-add_names}

-- `configs.Filter`
pub record FilterConfig : Type 0 where
  pub kind : String
  pub users : List String
  pub groups : List String

is_special : Char → Bool
is_special c =
    ((eqb (code c) b'^' || eqb (code c) b'$') || (eqb (code c) b'*' || eqb (code c) b'+'))
    || (((eqb (code c) b'?' || eqb (code c) b'(') || (eqb (code c) b')' || eqb (code c) b'['))
        || ((eqb (code c) b'{' || eqb (code c) b'}') || eqb (code c) b'|'))

-- `SpecialRegExp.MatchString`: some character is one of ^$*+?()[{}|
unfoldable pub is_special_text : String → Bool
unfolding is_special
is_special_text String.[] = false
is_special_text (String.◌∷◌ c s) = is_special c || is_special_text s

pub record Filter (Exp : Type 0) : Type 0 where
  pub allow : Bool
  pub empty : Bool
  pub user_list : Dict Bool
  pub group_list : Dict Bool
  pub user_exp : Option Exp
  pub group_exp : Option Exp

module _ {Exp : Type 0} (compile : String → Option Exp) (match_string : Exp → String → Bool) where
  unfoldable pub filter_user : Filter Exp → String → Bool
  filter_user filter user = elim filter.user_exp [
    | none ↦ is_member user filter.user_list
    | some exp ↦ match_string exp user
  ]

  unfoldable pub filter_group : Filter Exp → String → Bool
  filter_group filter group = elim filter.group_exp [
    | none ↦ is_member group filter.group_list
    | some exp ↦ match_string exp group
  ]

  -- The loop over the groups: the first match is taken.
  group_loop : Filter Exp → List String → Bool
  group_loop filter [] = not filter.allow
  group_loop filter (group ∷ groups) =
      let rest = group_loop filter groups in
      if filter_group filter group then filter.allow else rest

  unfoldable pub allow_user : Filter Exp → UserGroup → Bool
  unfolding group_loop
  allow_user filter user_obj =
      if filter.empty
      then filter.allow
      else (if filter_user filter user_obj.user
          then filter.allow
          else group_loop filter user_obj.groups)

  -- The part of `newFilter` that reads the users.
  unfoldable pub set_filter_users : List String → Filter Exp → Filter Exp
  set_filter_users [] filter = filter
  set_filter_users (user ∷ []) filter =
      if is_special_text user
      then record filter { user_exp = compile user; empty = false }
      else record filter { user_list = add_names is_user_name (user ∷ []) []; empty = false }
  set_filter_users (user ∷ next ∷ users) filter = record filter {
    user_list = add_names is_user_name (user ∷ next ∷ users) [];
    empty = false;
  }

  -- The part of `newFilter` that reads the groups.
  unfoldable pub set_filter_groups : List String → Filter Exp → Filter Exp
  set_filter_groups [] filter = filter
  set_filter_groups (group ∷ []) filter =
      if is_special_text group
      then record filter { group_exp = compile group; empty = false }
      else record filter { group_list = add_names is_group_name (group ∷ []) []; empty = false }
  set_filter_groups (group ∷ next ∷ groups) filter = record filter {
    group_list = add_names is_group_name (group ∷ next ∷ groups) [];
    empty = false;
  }

  unfoldable pub new_filter : FilterConfig → Filter Exp
  new_filter conf = set_filter_groups conf.groups (
      set_filter_users conf.users (record {
        allow = not (conf.kind == "deny");
        empty = true;
        user_list = [];
        group_list = [];
        user_exp = none;
        group_exp = none;
      }))

-- A list that is not one regular expression.
abbrev pub is_plain : List String → Bool
is_plain (name ∷ []) = not (is_special_text name)
is_plain _ = true

abbrev pub is_nil : List String → Bool
is_nil [] = true
is_nil (x ∷ xs) = false

-- Who a filter of plain lists matches.
abbrev pub is_matched : FilterConfig → UserGroup → Bool
is_matched conf u =
    (is_listed u.user conf.users && is_user_name u.user)
    || any_listed is_group_name u.groups conf.groups

no_member : (k : String) → is_member k [] ≡ false
no_member k = unfold lookup in refl

module _ {Exp : Type 0} (compile : String → Option Exp) (match_string : Exp → String → Bool) where
  abbrev base : Bool → Filter Exp
  base allow = record {
    allow = allow;
    empty = true;
    user_list = [];
    group_list = [];
    user_exp = none;
    group_exp = none;
  }

  abbrev with_users : Bool → List String → Filter Exp
  with_users allow users = record (base allow) {
    user_list = add_names is_user_name users [];
    empty = is_nil users;
  }

  abbrev with_both : Bool → List String → List String → Filter Exp
  with_both allow users groups = record (with_users allow users) {
    group_list = add_names is_group_name groups [];
    empty = is_nil groups && is_nil users;
  }

  users_set :
      (allow : Bool) (users : List String)
      → is_plain users ≡ true
      → set_filter_users compile match_string users (base allow) ≡ with_users allow users
  unfolding set_filter_users add_names
  users_set allow [] h = refl
  users_set allow (u ∷ []) h = ground arith
  users_set allow (u ∷ v ∷ users) h = refl

  groups_set :
      (allow : Bool) (users groups : List String)
      → is_plain groups ≡ true
      → set_filter_groups compile match_string groups (with_users allow users)
        ≡ with_both allow users groups
  unfolding set_filter_groups add_names
  groups_set allow users [] h = refl
  groups_set allow users (u ∷ []) h = ground arith
  groups_set allow users (u ∷ v ∷ groups) h = refl

  group_loop_lem :
      (f : Filter Exp) (groups : List String)
      → f.group_exp ≡ none
      → group_loop compile match_string f groups
        ≡ (if has_group groups f.group_list then f.allow else not f.allow)
  unfolding group_loop has_group filter_group
  group_loop_lem f [] h = refl
  group_loop_lem f (g ∷ groups) h = ground (arith, h, group_loop_lem f groups h)

  both_allow :
      (allow : Bool) (users groups : List String) (u : UserGroup)
      → allow_user compile match_string (with_both allow users groups) u ≡ (
          if is_nil groups && is_nil users
          then allow
          else (if (is_listed u.user users && is_user_name u.user)
                || any_listed is_group_name u.groups groups
              then allow
              else not allow))
  unfolding allow_user filter_user
  both_allow allow users groups u = ground (
    arith,
    group_loop_lem (with_both allow users groups) u.groups refl,
    has_group-add_names is_group_name u.groups groups,
    is_member-add_names is_user_name u.user users [],
    no_member u.user,
  )

  -- A filter of plain names, where a list of a single name counts as plain if it has none of the special
  -- characters of a regular expression, is a deny filter where its type is exactly "deny", and an allow
  -- filter otherwise. It answers by its type for everybody where it has no names, and else for exactly
  -- the users that are named with a proper name and the members of a group that is named with a
  -- proper name; everybody else gets the opposite answer.
  pub allow_user-new_filter :
      (conf : FilterConfig) (u : UserGroup)
      → is_plain conf.users ≡ true
      → is_plain conf.groups ≡ true
      → allow_user compile match_string (new_filter compile match_string conf) u ≡ (
          let allow = not (conf.kind == "deny") in
          if is_nil conf.groups && is_nil conf.users
          then allow
          else (if is_matched conf u then allow else not allow))
  unfolding new_filter
  allow_user-new_filter conf u h g =
      let allow = not (conf.kind == "deny") in
      rw (users_set allow conf.users h, groups_set allow conf.users conf.groups g)
        (both_allow allow conf.users conf.groups u)
