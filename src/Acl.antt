-- ===== src/Acl.antt =====
-- common/security/acl.go.
pub mod Access
use Prim.Native.Char.{Char, code}
use yunikorn_study.Prelude.{
  String, ℕ, ◌≡◌, refl, Bool, true, false, Option, none, some, List, [], ◌∷◌, eqb, ltb, leb, length,
  ◌==◌, ◌&&◌, ◌||◌, if◌then◌else◌,
}
use yunikorn_study.Dict.{Dict, lookup, insert}
use yunikorn_study.Text.{split, trim_space}

-- The part of security.UserGroup that access checks read.
pub record UserGroup : Type 0 where
  pub user : String
  pub groups : List String

pub record Acl : Type 0 where
  pub users : Dict Bool
  pub groups : Dict Bool
  pub all_allowed : Bool

-- `ACL{}`
abbrev pub empty_acl : Acl
empty_acl = record { users = []; groups = []; all_allowed = false }

-- A set of names as a map to Boolean; `m[k]` is false for a missing key.
abbrev pub is_member : String → Dict Bool → Bool
is_member k m = elim (lookup k m) [ none ↦ false | some b ↦ b ]

is_letter : Char → Bool
is_letter c =
    eqb (code c) b'_'
    || ((leb b'a' (code c) && leb (code c) b'z') || (leb b'A' (code c) && leb (code c) b'Z'))

is_digit : Char → Bool
is_digit c = leb b'0' (code c) && leb (code c) b'9'

is_user_char : Char → Bool
is_user_char c =
    (is_letter c || is_digit c) || (eqb (code c) b'.' || (eqb (code c) b'@' || eqb (code c) b'-'))

user_rest : String → Bool
user_rest String.[] = true
user_rest (String.◌∷◌ c s) = if is_user_char c then user_rest s else eqb (code c) b'$' && s == ""

-- ^[_a-zA-Z][a-zA-Z0-9_.@-]*[$]?$
unfoldable pub is_user_name : String → Bool
unfolding is_letter is_digit is_user_char user_rest
is_user_name String.[] = false
is_user_name (String.◌∷◌ c s) = is_letter c && user_rest s

group_rest : String → Bool
group_rest String.[] = true
group_rest (String.◌∷◌ c s) =
    if is_letter c || (is_digit c || eqb (code c) b'-') then group_rest s else false

-- ^[_a-zA-Z][a-zA-Z0-9_-]*$
unfoldable pub is_group_name : String → Bool
unfolding is_letter is_digit group_rest
is_group_name String.[] = false
is_group_name (String.◌∷◌ c s) = is_letter c && group_rest s

-- The loops that fill a map with the names that pass a check.
unfoldable pub add_names : (String → Bool) → List String → Dict Bool → Dict Bool
add_names ok [] m = m
add_names ok (name ∷ names) m = add_names ok names (if ok name then insert name true m else m)

abbrev pub is_wildcard_list : List String → Bool
is_wildcard_list (name ∷ []) = name == "*"
is_wildcard_list _ = false

unfoldable pub set_all_allowed : Acl → String → Acl
set_all_allowed a part = record a { all_allowed = trim_space part == "*" }

unfoldable pub set_users : Acl → List String → Acl
set_users a [] = record a { users = [] }
set_users a (user ∷ user_list) =
    if is_wildcard_list (user ∷ user_list)
    then record a { users = []; all_allowed = true }
    else record a { users = add_names is_user_name (user ∷ user_list) [] }

unfoldable pub set_groups : Acl → List String → Acl
set_groups a [] = record a { groups = [] }
set_groups a (group ∷ group_list) =
    if a.all_allowed
    then record a { groups = [] }
    else (if is_wildcard_list (group ∷ group_list)
        then record a { users = []; groups = []; all_allowed = true }
        else record a { groups = add_names is_group_name (group ∷ group_list) [] })

set_fields : Acl → List String → Acl
set_fields acl [] = acl
set_fields acl (users ∷ []) = set_users acl (split b',' users)
set_fields acl (users ∷ groups ∷ rest) =
    set_groups (set_users acl (split b',' users)) (split b',' groups)

-- The ACL, and whether the error for more than two fields is returned.
unfoldable pub new_acl : String → Acl × Bool
unfolding set_fields
new_acl acl_str =
    if acl_str == ""
    then (empty_acl, false)
    else (let fields = split b' ' acl_str in
        if ltb 2 (length fields)
        then (empty_acl, true)
        else (set_fields (set_all_allowed empty_acl acl_str) fields, false))

-- The loop over the groups of a user.
unfoldable pub has_group : List String → Dict Bool → Bool
has_group [] groups = false
has_group (group ∷ rest) groups = if is_member group groups then true else has_group rest groups

unfoldable pub check_access : Acl → UserGroup → Bool
check_access a user_obj =
    if a.all_allowed
    then true
    else (if is_member user_obj.user a.users then true else has_group user_obj.groups a.groups)
