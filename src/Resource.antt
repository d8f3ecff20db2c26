-- ===== src/Resource.antt =====
-- common/resources/resources.go: named quantities and the operations on them.
-- A `*Resource` that may be nil is an `Option Resource`; the operations that change a resource in
-- place return its new value.
pub mod Loops
pub mod Arith
pub mod Order
pub mod Update
use yunikorn_study.Prelude.{
  String, ℕ, Bool, true, false, Option, none, some, List, [], ◌∷◌, ◌&&◌, not, eqb, if◌then◌else◌,
}
use yunikorn_study.Dict.{Dict, lookup, insert}
use yunikorn_study.Quantity.{Quantity, add, sub, lt, is_negative}

abbrev pub Resource : Type 0
Resource = Dict Quantity

-- `m.Resources[k]`, which is 0 for a missing key.
unfoldable pub value : String → Resource → Quantity
value k r = elim (lookup k r) [ none ↦ 0 | some v ↦ v ]

abbrev pub new_resource : Resource
new_resource = []

-- The global `Zero`.
abbrev pub zero_resource : Resource
zero_resource = new_resource

-- `if left == nil { left = Zero }`
abbrev pub or_zero : Option Resource → Resource
or_zero none = zero_resource
or_zero (some r) = r

-- `for k, v := range m { out[k] = f(k, out[k], v) }`
unfoldable pub update_each :
    (String → Quantity → Quantity → Quantity) → Resource → Resource → Resource
update_each f [] out = out
update_each f ((k, v) ∷ m) out = update_each f m (insert k (f k (value k out) v) out)

-- `for k, v := range m { if !test(k, v) { return false } }; return true`
unfoldable pub all_of : (String → Quantity → Bool) → Resource → Bool
all_of test [] = true
all_of test ((k, v) ∷ m) = if test k v then all_of test m else false

abbrev pub copy_value : String → Quantity → Quantity → Quantity
copy_value k old v = v

abbrev pub add_value : String → Quantity → Quantity → Quantity
add_value k old v = add old v

abbrev pub sub_value : String → Quantity → Quantity → Quantity
sub_value k old v = sub old v

-- The message's map holds pointers to quantities that are not nil.
unfoldable pub new_resource_from_proto : Resource → Resource
new_resource_from_proto proto = update_each copy_value proto new_resource

unfoldable pub to_proto : Resource → Resource
to_proto m = update_each copy_value m new_resource

-- `Clone` leaves out what is zero.
clone_each : Resource → Resource → Resource
clone_each [] out = out
clone_each ((k, v) ∷ m) out = clone_each m (if eqb v 0 then out else insert k v out)

unfoldable pub clone : Resource → Resource
unfolding clone_each
clone m = clone_each m new_resource

-- `Add`
unfoldable pub add_resource : Option Resource → Option Resource → Resource
add_resource left right =
    update_each add_value (or_zero left) (update_each copy_value (or_zero right) new_resource)

-- `Sub`
unfoldable pub sub_resource : Option Resource → Option Resource → Resource
sub_resource left right =
    update_each sub_value (or_zero right) (update_each copy_value (or_zero left) new_resource)

abbrev pub floor_value : String → Quantity → Quantity → Quantity
floor_value k old v = if is_negative old then 0 else old

-- The last loop walks the map that it writes, and writes only at the key where it stands.
unfoldable pub sub_eliminate_negative : Option Resource → Option Resource → Resource
sub_eliminate_negative left right =
    let out = sub_resource left right in update_each floor_value out out

-- `AddTo`: the value of `base` after the call. A nil base stays nil for the caller.
unfoldable pub add_to : Option Resource → Option Resource → Option Resource
add_to base none = base
add_to none (some a) = none
add_to (some b) (some a) = some (update_each add_value a b)

-- `SubFrom`: the values of `base` and of the global `Zero` after the call. A nil base is replaced
-- by `Zero` itself, which is then written.
unfoldable pub sub_from : Option Resource → Option Resource → Resource → Option Resource × Resource
sub_from base none zero_value = (base, zero_value)
sub_from none (some s) zero_value = (none, update_each sub_value s zero_value)
sub_from (some b) (some s) zero_value = (some (update_each sub_value s b), zero_value)

fits_value : Resource → String → Quantity → Bool
fits_value larger k v = not (lt (if is_negative (value k larger) then 0 else value k larger) v)

unfoldable pub fit_in : Option Resource → Option Resource → Bool
unfolding fits_value
fit_in larger smaller = all_of (fits_value (or_zero larger)) (or_zero smaller)

-- The code first answers true for one and the same pointer, which both loops do too.
unfoldable pub equals : Option Resource → Option Resource → Bool
equals none none = true
equals none (some r) = false
equals (some l) none = false
equals (some l) (some r) =
    all_of (λ k v. eqb (value k r) v) l && all_of (λ k v. eqb (value k l) v) r

unfoldable pub strictly_greater_than_or_equals : Option Resource → Option Resource → Bool
strictly_greater_than_or_equals larger smaller =
    let l = or_zero larger in
    let s = or_zero smaller in
    all_of (λ k v. not (lt v (value k s))) l && all_of (λ k v. not (lt (value k l) v)) s

-- A loop of `StrictlyGreaterThan`: `none` is its `return false`, and `gap` the difference added.
unfoldable pub gap_loop :
    (String → Quantity → Bool)
    → (String → Quantity → Quantity)
    → Resource
    → Quantity
    → Option Quantity
gap_loop less gap [] delta = some delta
gap_loop less gap ((k, v) ∷ m) delta =
    if less k v then none else gap_loop less gap m (add delta (gap k v))

unfoldable pub strictly_greater_than : Option Resource → Option Resource → Bool
strictly_greater_than larger smaller =
    let l = or_zero larger in
    let s = or_zero smaller in
    elim (gap_loop (λ k v. lt v (value k s)) (λ k v. sub v (value k s)) l 0) [
      | none ↦ false
      | some delta ↦ elim (gap_loop (λ k v. lt (value k l) v) (λ k v. sub (value k l) v) s delta) [
        | none ↦ false
        | some total ↦ lt 0 total
      ]
    ]

-- The loop of `StrictlyGreaterThanZero`, which breaks at a negative value.
unfoldable pub greater_loop : Resource → Bool → Bool
greater_loop [] greater = greater
greater_loop ((k, v) ∷ m) greater =
    if is_negative v then false else greater_loop m (if lt 0 v then true else greater)

unfoldable pub strictly_greater_than_zero : Option Resource → Bool
strictly_greater_than_zero none = false
strictly_greater_than_zero (some r) = greater_loop r false

unfoldable pub min_quantity : Quantity → Quantity → Quantity
min_quantity x y = if lt x y then x else y

unfoldable pub max_quantity : Quantity → Quantity → Quantity
max_quantity x y = if lt y x then x else y

unfoldable pub component_wise_min : Option Resource → Option Resource → Resource
component_wise_min (some l) (some r) =
    update_each (λ k old v. min_quantity v (value k l)) r
      (update_each (λ k old v. min_quantity v (value k r)) l new_resource)
component_wise_min _ _ = new_resource

unfoldable pub component_wise_max : Option Resource → Option Resource → Resource
component_wise_max (some l) (some r) =
    update_each (λ k old v. max_quantity v (value k l)) r
      (update_each (λ k old v. max_quantity v (value k r)) l new_resource)
component_wise_max _ _ = new_resource

unfoldable pub is_zero : Option Resource → Bool
is_zero none = true
is_zero (some r) = all_of (λ k v. eqb v 0) r
