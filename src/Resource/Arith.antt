-- ===== src/Resource/Arith.antt =====
-- Add, Sub and the other operations that build a new resource, key by key
-- (common/resources/resources.go).
use yunikorn_study.Prelude.{String, ◌≡◌, refl, ◌<◌, Option, some, arith, if◌then◌else◌}
use yunikorn_study.Dict.{lookup, IsMap}
use yunikorn_study.Quantity.{
  Quantity, word, add, sub, add-lt-word, sub-lt-word, add_comm, add-zero, sub-zero, sub-add,
  add-sub, is_negative,
}
use yunikorn_study.Resource.{
  Resource, value, new_resource, or_zero, update_each, copy_value, add_value, sub_value,
  floor_value, add_resource, sub_resource, sub_eliminate_negative, component_wise_min,
  component_wise_max, min_quantity, max_quantity,
}
use yunikorn_study.Resource.Loops.{
  IsValid, value-none, value-lt-word, value-update_each, update_each-IsMap, update_each-IsWords,
}

-- The quantity under a key of a pointer that may be nil.
abbrev pub quantity : String → Option Resource → Quantity
quantity k p = value k (or_zero p)

abbrev pub IsResource : Option Resource → Type 0
IsResource p = IsValid (or_zero p)

pub quantity-lt-word : (k : String) (p : Option Resource) → IsResource p → quantity k p < word
quantity-lt-word k p h = value-lt-word k (or_zero p) h.is_words

pub copy_lem :
    (k : String) (r : Resource)
    → IsMap r
    → value k (update_each copy_value r new_resource) ≡ value k r
unfolding value lookup
copy_lem k r h = ground (arith, value-update_each copy_value k r new_resource h)

pub copy-IsValid : (r : Resource) → IsValid r → IsValid (update_each copy_value r new_resource)
copy-IsValid r h = record {
  is_map = update_each-IsMap copy_value r new_resource tt;
  is_words = update_each-IsWords copy_value (λ k old v p q. q) r new_resource h.is_words tt;
}

-- `add_each` and `sub_each`: the loops over a valid resource, in terms of values alone.
pub value-update_each-add :
    (k : String) (m out : Resource)
    → IsValid m
    → IsValid out
    → value k (update_each add_value m out) ≡ add (value k out) (value k m)
unfolding value
value-update_each-add k m out h g = ground (
  arith,
  value-update_each add_value k m out h.is_map,
  add-zero (value k out) (value-lt-word k out g.is_words),
)

pub value-update_each-sub :
    (k : String) (m out : Resource)
    → IsValid m
    → IsValid out
    → value k (update_each sub_value m out) ≡ sub (value k out) (value k m)
unfolding value
value-update_each-sub k m out h g = ground (
  arith,
  value-update_each sub_value k m out h.is_map,
  sub-zero (value k out) (value-lt-word k out g.is_words),
)

pub update_each_add-IsValid :
    (m out : Resource) → IsValid m → IsValid out → IsValid (update_each add_value m out)
update_each_add-IsValid m out h g = record {
  is_map = update_each-IsMap add_value m out g.is_map;
  is_words =
      update_each-IsWords add_value (λ k old v p q. add-lt-word old v) m out h.is_words g.is_words;
}

pub update_each_sub-IsValid :
    (m out : Resource) → IsValid m → IsValid out → IsValid (update_each sub_value m out)
update_each_sub-IsValid m out h g = record {
  is_map = update_each-IsMap sub_value m out g.is_map;
  is_words =
      update_each-IsWords sub_value (λ k old v p q. sub-lt-word old v) m out h.is_words g.is_words;
}

pub add_resource-IsValid :
    (l r : Option Resource) → IsResource l → IsResource r → IsValid (add_resource l r)
unfolding add_resource
add_resource-IsValid l r h g = update_each_add-IsValid (or_zero l) _ h (copy-IsValid (or_zero r) g)

pub sub_resource-IsValid :
    (l r : Option Resource) → IsResource l → IsResource r → IsValid (sub_resource l r)
unfolding sub_resource
sub_resource-IsValid l r h g = update_each_sub-IsValid (or_zero r) _ g (copy-IsValid (or_zero l) h)

-- `Add` adds the int64 quantities under every key, a missing key or a nil resource counting as 0.
pub value-add_resource :
    (k : String) (l r : Option Resource)
    → IsResource l
    → IsResource r
    → value k (add_resource l r) ≡ add (quantity k l) (quantity k r)
unfolding add_resource
value-add_resource k l r h g = ground (
  arith,
  value-update_each-add k (or_zero l) (update_each copy_value (or_zero r) new_resource) h
      (copy-IsValid (or_zero r) g),
  copy_lem k (or_zero r) g.is_map,
  add_comm (quantity k l) (quantity k r),
)

-- `Sub` subtracts them.
pub value-sub_resource :
    (k : String) (l r : Option Resource)
    → IsResource l
    → IsResource r
    → value k (sub_resource l r) ≡ sub (quantity k l) (quantity k r)
unfolding sub_resource
value-sub_resource k l r h g = ground (
  arith,
  value-update_each-sub k (or_zero r) (update_each copy_value (or_zero l) new_resource) g
      (copy-IsValid (or_zero l) h),
  copy_lem k (or_zero l) h.is_map,
)

-- Subtracting what was added, or adding what was subtracted, gives back every quantity, whatever
-- wrapped around in between.
pub sub_resource-add_resource :
    (k : String) (l r : Option Resource)
    → IsResource l
    → IsResource r
    → (value k (sub_resource (some (add_resource l r)) r) ≡ quantity k l)
      × (value k (add_resource (some (sub_resource l r)) r) ≡ quantity k l)
sub_resource-add_resource k l r h g =
    let bound = quantity-lt-word k l h in
    let limit = quantity-lt-word k r g in
    (
      ground (
        arith,
        value-sub_resource k (some (add_resource l r)) r (add_resource-IsValid l r h g) g,
        value-add_resource k l r h g,
        sub-add (quantity k l) (quantity k r) bound limit,
      ),
      ground (
        arith,
        value-add_resource k (some (sub_resource l r)) r (sub_resource-IsValid l r h g) g,
        value-sub_resource k l r h g,
        add-sub (quantity k l) (quantity k r) bound limit,
      ),
    )

-- `SubEliminateNegative` is `Sub` with every negative difference replaced by 0.
pub value-sub_eliminate_negative :
    (k : String) (l r : Option Resource)
    → IsResource l
    → IsResource r
    → value k (sub_eliminate_negative l r)
      ≡ (let d = sub (quantity k l) (quantity k r) in if is_negative d then 0 else d)
unfolding sub_eliminate_negative
value-sub_eliminate_negative k l r h g =
    let out = sub_resource l r in
    ground (
      arith,
      value-update_each floor_value k out out (sub_resource-IsValid l r h g).is_map,
      value-sub_resource k l r h g,
      value-none k out,
    )

min_quantity_comm : (x y : Quantity) → x < word → y < word → min_quantity x y ≡ min_quantity y x
unfolding min_quantity
min_quantity_comm x y p q = ground arith

max_quantity_comm : (x y : Quantity) → x < word → y < word → max_quantity x y ≡ max_quantity y x
unfolding max_quantity
max_quantity_comm x y p q = ground arith

-- Two loops that write a symmetric choice of both values under the keys of either map.
choose_lem :
    (choose : Quantity → Quantity → Quantity) (k : String) (l r : Resource)
    → IsMap l
    → IsMap r
    → choose (value k l) (value k r) ≡ choose (value k r) (value k l)
    → choose 0 0 ≡ 0
    → value k (
        update_each
          (λ j old v. choose v (value j l))
          r
          (update_each (λ j old v. choose v (value j r)) l new_resource))
      ≡ choose (value k l) (value k r)
choose_lem choose k l r h g sym_choose idle =
    let first = update_each (λ j old v. choose v (value j r)) l new_resource in
    ground (
      arith,
      value-update_each (λ j old v. choose v (value j l)) k r first g,
      value-update_each (λ j old v. choose v (value j r)) k l new_resource h,
      value-none k l,
      value-none k r,
      value-none k new_resource (unfold lookup in refl),
    )

-- `ComponentWiseMin` and `ComponentWiseMax` hold the smaller and the larger int64 under each key, a
-- missing key counting as 0.
pub value-component_wise :
    (k : String) (l r : Resource)
    → IsValid l
    → IsValid r
    → (value k (component_wise_min (some l) (some r)) ≡ min_quantity (value k l) (value k r))
      × (value k (component_wise_max (some l) (some r)) ≡ max_quantity (value k l) (value k r))
unfolding component_wise_min component_wise_max
value-component_wise k l r h g =
    let p = value-lt-word k l h.is_words in
    let q = value-lt-word k r g.is_words in
    (
      choose_lem min_quantity k l r h.is_map g.is_map
          (min_quantity_comm (value k l) (value k r) p q) (unfold min_quantity in refl),
      choose_lem max_quantity k l r h.is_map g.is_map
          (max_quantity_comm (value k l) (value k r) p q) (unfold max_quantity in refl),
    )
