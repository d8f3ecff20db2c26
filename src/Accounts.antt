-- ===== src/Accounts.antt =====
-- The books that nodes and applications keep: a map of allocations and the sum of their resources.
use yunikorn_study.Prelude.{
  String, ℕ, ◌+◌, ◌%◌, ◌≡◌, refl, ◌<◌, none, some, [], ◌∷◌, arith, ◌==◌, eq_iff, Bool-cases, inl,
  inr, ◌∙◌,
}
use mathlib.Core.Path.{subst}
use yunikorn_study.Dict.{Dict, lookup, insert, erase, IsMap, insert-IsMap, erase-IsMap}
use yunikorn_study.Quantity.{word, add, sub}
use yunikorn_study.Resource.{Resource, value, new_resource, add_resource, sub_resource}
use yunikorn_study.Resource.Loops.{IsValid, value-lt-word}
use yunikorn_study.Resource.Arith.{
  value-add_resource, value-sub_resource, add_resource-IsValid, sub_resource-IsValid,
}
use yunikorn_study.Allocation.{Allocation}

-- The sum under one key, before it wraps around.
abbrev pub sum_of : String → Dict Allocation → ℕ
sum_of k [] = 0
sum_of k ((u, a) ∷ m) = value k a.allocated_resource + sum_of k m

-- Every resource in the map is a resource, and stands under the uuid that it carries.
abbrev pub AreValid : Dict Allocation → Type 0
AreValid [] = Unit
AreValid ((u, a) ∷ m) = IsValid a.allocated_resource × (a.uuid ≡ u) × AreValid m

-- The allocated resource is the sum of the allocations, as int64, under every key.
pub record Balances (allocated : Resource) (allocations : Dict Allocation) : Type 0 where
  pub is_map : IsMap allocations
  pub is_resource : IsValid allocated
  pub are_valid : AreValid allocations
  pub balanced : (k : String) → value k allocated ≡ sum_of k allocations % word

pub Balances-empty : Balances new_resource []
unfolding value lookup
Balances-empty = record {
  is_map = tt;
  is_resource = record { is_map = tt; is_words = tt };
  are_valid = tt;
  balanced = λ k. refl;
}

sum_of-insert :
    (k u : String) (a : Allocation) (m : Dict Allocation)
    → lookup u m ≡ none
    → sum_of k (insert u a m) ≡ sum_of k m + value k a.allocated_resource
unfolding insert lookup
sum_of-insert k u a [] h = omega arith
sum_of-insert k u a ((w, b) ∷ m) h = ground (arith, sum_of-insert k u a m)

pub sum_of-erase_missing :
    (k u : String) (m : Dict Allocation) → lookup u m ≡ none → sum_of k (erase u m) ≡ sum_of k m
unfolding erase lookup
sum_of-erase_missing k u [] h = refl
sum_of-erase_missing k u ((w, b) ∷ m) h = ground (arith, sum_of-erase_missing k u m)

sum_of-erase :
    (k u : String) (a : Allocation) (m : Dict Allocation)
    → IsMap m
    → lookup u m ≡ some a
    → sum_of k (erase u m) + value k a.allocated_resource ≡ sum_of k m
unfolding erase lookup
sum_of-erase k u a [] h e = ground arith
sum_of-erase k u a ((w, b) ∷ m) h e =
    ground (arith, eq_iff w u, sum_of-erase k u a m h.1, sum_of-erase_missing k u m)

AreValid-insert :
    (u : String) (a : Allocation) (m : Dict Allocation)
    → IsValid a.allocated_resource
    → a.uuid ≡ u
    → AreValid m
    → AreValid (insert u a m)
unfolding insert
AreValid-insert u a [] h p g = (h, p, tt)
AreValid-insert u a ((w, b) ∷ m) h p g = elim (Bool-cases (w == u)) [
  | inl same ↦ rw same (h, p, g.2)
  | inr other ↦ rw other (g.0, g.1, AreValid-insert u a m h p g.2)
]

AreValid-erase : (u : String) (m : Dict Allocation) → AreValid m → AreValid (erase u m)
unfolding erase
AreValid-erase u [] g = tt
AreValid-erase u ((w, b) ∷ m) g = elim (Bool-cases (w == u)) [
  | inl same ↦ rw same (AreValid-erase u m g.2)
  | inr other ↦ rw other (g.0, g.1, AreValid-erase u m g.2)
]

pub AreValid-lookup :
    (u : String) (a : Allocation) (m : Dict Allocation)
    → AreValid m
    → lookup u m ≡ some a
    → IsValid a.allocated_resource × (a.uuid ≡ u)
unfolding lookup
AreValid-lookup u a [] g e = cc
AreValid-lookup u a ((w, b) ∷ m) g e = elim (Bool-cases (w == u)) [
  | inl same ↦
      let b_eq : b ≡ a = ground (arith, same, e) in
      subst (λ x. IsValid x.allocated_resource × (x.uuid ≡ u)) b_eq (g.0, g.1 ∙ (eq_iff w u).0 same)
  | inr other ↦ AreValid-lookup u a m g.2 (rw other at e)
]

added : {x y : ℕ} (s q t : ℕ) → x ≡ add y q → y ≡ s % word → t ≡ s + q → x ≡ t % word
unfolding add
added s q t p o l = omega arith

taken : {x y : ℕ} (s q t : ℕ) → x ≡ sub y q → y ≡ s % word → t + q ≡ s → q < word → x ≡ t % word
unfolding sub
taken s q t p o l h = omega arith

-- A new allocation is added on both sides.
pub Balances-insert :
    (a : Allocation) (r : Resource) (m : Dict Allocation)
    → IsValid a.allocated_resource
    → lookup a.uuid m ≡ none
    → Balances r m
    → Balances (add_resource (some r) (some a.allocated_resource)) (insert a.uuid a m)
Balances-insert a r m h fresh b = record {
  is_map = insert-IsMap a.uuid a m b.is_map;
  is_resource = add_resource-IsValid (some r) (some a.allocated_resource) b.is_resource h;
  are_valid = AreValid-insert a.uuid a m h refl b.are_valid;
  balanced = λ k.
      added (sum_of k m) (value k a.allocated_resource) _
        (value-add_resource k (some r) (some a.allocated_resource) b.is_resource h) (b.balanced k)
        (sum_of-insert k a.uuid a m fresh);
}

-- An allocation that is there is taken off on both sides.
pub Balances-erase :
    (u : String) (a : Allocation) (r : Resource) (m : Dict Allocation)
    → lookup u m ≡ some a
    → Balances r m
    → Balances (sub_resource (some r) (some a.allocated_resource)) (erase u m)
Balances-erase u a r m found b =
    let valid = (AreValid-lookup u a m b.are_valid found).0 in
    record {
      is_map = erase-IsMap u m b.is_map;
      is_resource = sub_resource-IsValid (some r) (some a.allocated_resource) b.is_resource valid;
      are_valid = AreValid-erase u m b.are_valid;
      balanced = λ k.
          taken (sum_of k m) (value k a.allocated_resource) _
            (value-sub_resource k (some r) (some a.allocated_resource) b.is_resource valid)
            (b.balanced k) (sum_of-erase k u a m b.is_map found)
            (value-lt-word k a.allocated_resource valid.is_words);
    }
