-- ===== src/Acl/Access.antt =====
-- Who is let in by an access list (common/security/acl.go).
use Prim.Native.Char.{Char}
use yunikorn_study.Prelude.{
  String, ◌≡◌, refl, inl, inr, Bool, true, false, List, [], ◌∷◌, arith, ◌==◌, ◌&&◌, ◌||◌, eq_iff,
  if◌then◌else◌, Bool-cases,
}
use yunikorn_study.Dict.{Dict, lookup, insert, lookup-insert}
use yunikorn_study.Acl.{
  UserGroup, Acl, empty_acl, is_member, is_user_name, is_group_name, add_names, is_wildcard_list,
  set_users, set_groups, has_group, check_access, new_acl, set_fields, set_all_allowed,
}
use yunikorn_study.Text.{split, trim_space}

-- A name that a list holds.
abbrev pub is_listed : String → List String → Bool
is_listed name [] = false
is_listed name (n ∷ names) = if n == name then true else is_listed name names

-- Some name of one list that a check passes stands on another.
abbrev pub any_listed : (String → Bool) → List String → List String → Bool
any_listed ok [] names = false
any_listed ok (g ∷ groups) names =
    if is_listed g names && ok g then true else any_listed ok groups names

pub is_member-add_names :
    (ok : String → Bool) (name : String) (names : List String) (m : Dict Bool)
    → is_member name (add_names ok names m)
      ≡ (is_member name m || (is_listed name names && ok name))
unfolding add_names
is_member-add_names ok name [] m = ground arith
is_member-add_names ok name (n ∷ names) m = ground (
  arith,
  eq_iff n name,
  is_member-add_names ok name names (if ok n then insert n true m else m),
  lookup-insert n name true m,
)

pub has_group-add_names :
    (ok : String → Bool) (groups names : List String)
    → has_group groups (add_names ok names []) ≡ any_listed ok groups names
unfolding has_group
has_group-add_names ok [] names = refl
has_group-add_names ok (g ∷ groups) names =
    ground
      (arith, has_group-add_names ok groups names, is_member-add_names ok g names [], no_member g)
  where
    no_member : (k : String) → is_member k [] ≡ false
    no_member k = unfold lookup in refl

set_users_lem :
    (a : Acl) (users : List String)
    → is_wildcard_list users ≡ false
    → set_users a users ≡ record a { users = add_names is_user_name users [] }
unfolding set_users add_names
set_users_lem a [] h = refl
set_users_lem a (n ∷ names) h = rw h

set_groups_lem :
    (a : Acl) (groups : List String)
    → a.all_allowed ≡ false
    → is_wildcard_list groups ≡ false
    → set_groups a groups ≡ record a { groups = add_names is_group_name groups [] }
unfolding set_groups add_names
set_groups_lem a [] p h = refl
set_groups_lem a (n ∷ names) p h = ground (arith, p, h)

-- The list of users and groups that are named, before any wildcard.
abbrev named : List String → List String → Acl
named users groups = record {
  users = add_names is_user_name users [];
  groups = add_names is_group_name groups [];
  all_allowed = false;
}

set_both :
    (users groups : List String)
    → is_wildcard_list users ≡ false
    → is_wildcard_list groups ≡ false
    → set_groups (set_users empty_acl users) groups ≡ named users groups
set_both users groups h g =
    rw (set_users_lem empty_acl users h)
      (set_groups_lem (record empty_acl { users = add_names is_user_name users [] }) groups refl g)

check_named :
    (users groups : List String) (u : UserGroup)
    → check_access (named users groups) u ≡ (
        (is_listed u.user users && is_user_name u.user) || any_listed is_group_name u.groups groups)
unfolding check_access lookup
check_named users groups u = ground (
  arith,
  is_member-add_names is_user_name u.user users [],
  has_group-add_names is_group_name u.groups groups,
)

-- A list of users and one of groups, neither of them the wildcard, let in exactly the users that
-- are named and have a proper name, and the members of a group that is named and has a proper name.
pub check_access-set_users-set_groups :
    (users groups : List String) (u : UserGroup)
    → is_wildcard_list users ≡ false
    → is_wildcard_list groups ≡ false
    → check_access (set_groups (set_users empty_acl users) groups) u ≡ (
        (is_listed u.user users && is_user_name u.user) || any_listed is_group_name u.groups groups)
check_access-set_users-set_groups users groups u h g =
    rw (set_both users groups h g) (check_named users groups u)

set_users_allowed :
    (a : Acl) (users : List String) → a.all_allowed ≡ true → (set_users a users).all_allowed ≡ true
unfolding set_users
set_users_allowed a [] h = h
set_users_allowed a (n ∷ names) h = ground arith

set_groups_allowed :
    (a : Acl) (groups : List String)
    → a.all_allowed ≡ true
    → (set_groups a groups).all_allowed ≡ true
unfolding set_groups
set_groups_allowed a [] h = h
set_groups_allowed a (n ∷ names) h = ground arith

set_fields_allowed :
    (a : Acl) (fields : List String)
    → a.all_allowed ≡ true
    → (set_fields a fields).all_allowed ≡ true
unfolding set_fields
set_fields_allowed a [] h = h
set_fields_allowed a (users ∷ []) h = set_users_allowed a (split b',' users) h
set_fields_allowed a (users ∷ groups ∷ rest) h =
    set_groups_allowed (set_users a (split b',' users)) (split b',' groups)
      (set_users_allowed a (split b',' users) h)

cons-ne-nil : (c : Char) (s : String) → ¬ (String.◌∷◌ c s ≡ "")
cons-ne-nil c s e = cc

no_wildcard : (text : String) → trim_space text ≡ "*" → (text == "") ≡ false
unfolding trim_space
no_wildcard String.[] h = cc
no_wildcard (String.◌∷◌ c s) h = elim (Bool-cases (String.◌∷◌ c s == "")) [
  | inl same ↦ absurd (cons-ne-nil c s ((eq_iff (String.◌∷◌ c s) "").0 same))
  | inr other ↦ other
]

-- A text that is the wildcard but for blanks around it lets everybody in, unless it is refused for
-- its number of fields.
pub check_access_wildcard :
    (text : String) (u : UserGroup)
    → trim_space text ≡ "*"
    → (new_acl text).1 ≡ false
    → check_access (new_acl text).0 u ≡ true
unfolding check_access new_acl set_all_allowed
check_access_wildcard text u w ok = ground (
  arith,
  no_wildcard text w,
  eq_iff (trim_space text) "*",
  set_fields_allowed (set_all_allowed empty_acl text) (split b' ' text),
)
