-- ===== src/Resource/Update.antt =====
-- Copies, and the operations that write a resource in place (common/resources/resources.go).
use yunikorn_study.Prelude.{
  String, ◌≡◌, refl, ◌<◌, ◌≢◌, ◌↔◌, true, Option, none, some, [], ◌∷◌, arith, eq_iff, if◌then◌else◌,
  eqb, ◌∙◌, sym,
}
use yunikorn_study.Dict.{lookup, insert, IsMap, lookup-insert}
use yunikorn_study.Quantity.{Quantity, word, add, sub, add-zero, sub-zero}
use yunikorn_study.Resource.{
  Resource, value, new_resource, zero_resource, clone, clone_each, add_to, sub_from, is_zero,
  to_proto, new_resource_from_proto,
}
use yunikorn_study.Resource.Loops.{
  IsValid, value-none, all_of_sound, all_of_complete, value-lt-word,
}
use yunikorn_study.Resource.Arith.{
  quantity, IsResource, copy_lem, copy-IsValid, value-update_each-add, value-update_each-sub,
}

sub_zero_cancel : (a : Quantity) → a < word → sub 0 a ≡ 0 → a ≡ 0
unfolding sub
sub_zero_cancel a h e = omega arith

clone_each_lem :
    (k : String) (m out : Resource)
    → IsMap m
    → lookup k (clone_each m out) ≡ (if eqb (value k m) 0 then lookup k out else some (value k m))
unfolding clone_each value lookup
clone_each_lem k [] out h = refl
clone_each_lem k ((j, v) ∷ m) out h = ground (
  arith,
  eq_iff j k,
  clone_each_lem k m (if eqb v 0 then out else insert j v out) h.1,
  lookup-insert j k v out,
)

-- A clone has every quantity of the original, and no entry for what is zero.
pub lookup-clone :
    (k : String) (m : Resource)
    → IsMap m
    → lookup k (clone m) ≡ (if eqb (value k m) 0 then none else some (value k m))
unfolding clone lookup
lookup-clone k m h = clone_each_lem k m new_resource h

-- A resource survives the way through its protobuf message.
pub new_resource_from_proto-to_proto :
    (k : String) (m : Resource)
    → IsValid m
    → value k (new_resource_from_proto (to_proto m)) ≡ value k m
unfolding new_resource_from_proto to_proto
new_resource_from_proto-to_proto k m h =
    copy_lem k (to_proto m) (copy-IsValid m h).is_map ∙ copy_lem k m h.is_map

-- `IsZero` is true exactly when every quantity is 0.
pub is_zero_iff :
    (r : Option Resource) → IsResource r → (is_zero r ≡ true) ↔ ((k : String) → quantity k r ≡ 0)
unfolding is_zero value
is_zero_iff none h = (λ e k. unfold lookup in refl, λ all. refl)
is_zero_iff (some r) h = (
  λ e k. ground (arith, all_of_sound (λ j v. eqb v 0) k (value k r) r e),
  λ all. all_of_complete (λ j v. eqb v 0) r h.is_map (λ k v e. ground (arith, all k)),
)

-- On a base that is not nil `AddTo` and `SubFrom` leave every key with the sum and the difference, a
-- nil operand counting as 0, and `SubFrom` leaves the global `Zero` as it was.
pub quantity-add_to-sub_from :
    (k : String) (b z : Resource) (a : Option Resource)
    → IsValid b
    → IsResource a
    → (quantity k (add_to (some b) a) ≡ add (value k b) (quantity k a))
      × (quantity k (sub_from (some b) a z).0 ≡ sub (value k b) (quantity k a))
      × ((sub_from (some b) a z).1 ≡ z)
unfolding add_to sub_from
quantity-add_to-sub_from k b z none h g =
    let bound = value-lt-word k b h.is_words in
    let gone = value-none k zero_resource (unfold lookup in refl) in
    (
      ground (arith, gone, add-zero (value k b) bound),
      ground (arith, gone, sub-zero (value k b) bound),
      refl,
    )
quantity-add_to-sub_from k b z (some a) h g =
    (value-update_each-add k a b g h, value-update_each-sub k a b g h, refl)

-- `SubFrom` on a nil base writes the global `Zero`: where the subtracted quantity is not 0, `Zero` is
-- not 0 afterwards.
pub sub_from_nil_breaks_zero :
    (k : String) (s : Resource)
    → IsValid s
    → value k s ≢ 0
    → value k (sub_from none (some s) zero_resource).1 ≢ 0
unfolding sub_from value lookup
sub_from_nil_breaks_zero k s h n e = n (
    sub_zero_cancel (value k s) (value-lt-word k s h.is_words)
      (sym (value-update_each-sub k s zero_resource h (record { is_map = tt; is_words = tt })) ∙ e))
