-- ===== src/Dict.antt =====
-- Go's `map[string]V`, as an association list in the order in which the map is walked.
use yunikorn_study.Prelude.{
  String, ◌≡◌, refl, true, false, Option, none, some, List, [], ◌∷◌, arith, ◌==◌, eq_iff,
  if◌then◌else◌, Bool-cases, inl, inr, sym, ◌∙◌,
}
use mathlib.Core.Path.{subst}

abbrev pub Dict {ℓ} : Type ℓ → Type ℓ
Dict V = List (String × V)

module _ {ℓ} {V : Type ℓ} where
  -- `m[k]`, where a missing key is told apart.
  unfoldable pub lookup : String → Dict V → Option V
  lookup key [] = none
  lookup key ((k, found) ∷ rest) = if k == key then some found else lookup key rest

  -- `delete(m, k)`
  unfoldable pub erase : String → Dict V → Dict V
  erase key [] = []
  erase key ((k, kept) ∷ entries) =
      let rest = erase key entries in if k == key then rest else (k, kept) ∷ rest

  -- `m[k] = v`
  unfoldable pub insert : String → V → Dict V → Dict V
  insert key new [] = (key, new) ∷ []
  insert key new ((k, old) ∷ rest) =
      if k == key then (key, new) ∷ rest else (k, old) ∷ insert key new rest

  -- No key stands twice, as in every map.
  abbrev pub IsMap : Dict V → Type ℓ
  IsMap [] = Unit
  IsMap ((k, v) ∷ m) = (lookup k m ≡ none) × IsMap m

  pub lookup-insert :
      (written read : String) (v : V) (m : Dict V)
      → lookup read (insert written v m) ≡ (if written == read then some v else lookup read m)
  unfolding insert lookup
  lookup-insert written read v [] = refl
  lookup-insert written read v ((k, old) ∷ rest) =
      let smaller = lookup-insert written read v rest in
      ground (arith, smaller, eq_iff written read, eq_iff k written, eq_iff k read)

  pub lookup-insert_eq :
      (j k : String) (v : V) (m : Dict V) → j ≡ k → lookup k (insert j v m) ≡ some v
  lookup-insert_eq j k v m e = ground (arith, lookup-insert j k v m, eq_iff j k)

  pub lookup-erase :
      (k j : String) (m : Dict V) → lookup j (erase k m) ≡ (if k == j then none else lookup j m)
  unfolding lookup erase
  lookup-erase k j [] = ground arith
  lookup-erase k j ((i, w) ∷ m) =
      ground (arith, eq_iff k j, eq_iff i k, eq_iff i j, lookup-erase k j m)

  pub lookup-erase_eq : (j k : String) (m : Dict V) → j ≡ k → lookup k (erase j m) ≡ none
  lookup-erase_eq j k m e = ground (arith, lookup-erase j k m, eq_iff j k)

  pub insert-IsMap : (k : String) (v : V) (m : Dict V) → IsMap m → IsMap (insert k v m)
  unfolding insert lookup
  insert-IsMap k v [] h = (refl, tt)
  insert-IsMap k v ((i, w) ∷ m) h =
      ground (arith, insert-IsMap k v m h.1, lookup-insert k i v m, eq_iff k i, eq_iff i k)

  pub erase-IsMap : (k : String) (m : Dict V) → IsMap m → IsMap (erase k m)
  unfolding erase
  erase-IsMap k [] h = tt
  erase-IsMap k ((i, w) ∷ m) h =
      ground (arith, erase-IsMap k m h.1, lookup-erase k i m, eq_iff k i, eq_iff i k)

-- A property of every value of a map.
module _ {ℓ κ} {V : Type ℓ} (P : V → Type κ) where
  abbrev pub AllValues : Dict V → Type (ℓ ⊔ κ)
  AllValues m = (k : String) (v : V) → lookup k m ≡ some v → P v

  pub insert-AllValues :
      (j : String) (w : V) (m : Dict V) → AllValues m → P w → AllValues (insert j w m)
  insert-AllValues j w m all p k v e = elim (Bool-cases (j == k)) [
    | inl same ↦
        let found : some w ≡ some v = sym (lookup_at j k w m same) ∙ e in
        subst P (some_eq w v found) p
    | inr other ↦ all k v (sym (lookup_off j k w m other) ∙ e)
  ]
    where
      some_eq : (x y : V) → some x ≡ some y → x ≡ y
      some_eq x y e = cc

      lookup_at :
          (j k : String) (w : V) (m : Dict V) → (j == k) ≡ true → lookup k (insert j w m) ≡ some w
      lookup_at j k w m same = rw (lookup-insert j k w m, same)

      lookup_off :
          (j k : String) (w : V) (m : Dict V)
          → (j == k) ≡ false
          → lookup k (insert j w m) ≡ lookup k m
      lookup_off j k w m other = rw (lookup-insert j k w m, other)

  pub erase-AllValues : (j : String) (m : Dict V) → AllValues m → AllValues (erase j m)
  erase-AllValues j m all k v e = elim (Bool-cases (j == k)) [
    | inl same ↦ cc (lookup_erased same)
    | inr other ↦ all k v (sym (lookup_kept other) ∙ e)
  ]
    where
      lookup_erased : (j == k) ≡ true → lookup k (erase j m) ≡ none
      lookup_erased same = rw (lookup-erase j k m, same)

      lookup_kept : (j == k) ≡ false → lookup k (erase j m) ≡ lookup k m
      lookup_kept other = rw (lookup-erase j k m, other)
