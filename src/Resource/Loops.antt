-- ===== src/Resource/Loops.antt =====
-- What the loops over a resource's map compute (common/resources/resources.go).
use yunikorn_study.Prelude.{
  String, ◌≡◌, refl, ◌<◌, Bool, true, false, none, some, [], ◌∷◌, arith, ◌==◌, eq_iff,
  if◌then◌else◌,
}
use yunikorn_study.Dict.{lookup, insert, IsMap, lookup-insert, insert-IsMap}
use yunikorn_study.Quantity.{Quantity, word}
use yunikorn_study.Resource.{Resource, value, update_each, all_of}

-- Every quantity is the pattern of an int64.
abbrev pub IsWords : Resource → Type 0
IsWords [] = Unit
IsWords ((k, v) ∷ m) = (v < word) × IsWords m

pub record IsValid (r : Resource) : Type 0 where
  pub is_map : IsMap r
  pub is_words : IsWords r

abbrev pub has : String → Resource → Bool
has k r = elim (lookup k r) [ none ↦ false | some _ ↦ true ]

pub value-none : (k : String) (r : Resource) → lookup k r ≡ none → value k r ≡ 0
unfolding value
value-none k r h = ground arith

pub value-insert :
    (k j : String) (v : Quantity) (m : Resource)
    → value j (insert k v m) ≡ (if k == j then v else value j m)
unfolding value
value-insert k j v m = ground (arith, lookup-insert k j v m)

pub value-lt-word : (k : String) (r : Resource) → IsWords r → value k r < word
unfolding value lookup
value-lt-word k [] h = ground arith
value-lt-word k ((j, v) ∷ m) h = ground (arith, value-lt-word k m h.1)

-- The loop writes at each key of `m`, once, from the value that it found there.
pub lookup-update_each :
    (f : String → Quantity → Quantity → Quantity) (k : String) (m out : Resource)
    → IsMap m
    → lookup k (update_each f m out)
      ≡ (if has k m then some (f k (value k out) (value k m)) else lookup k out)
unfolding update_each lookup value
lookup-update_each f k [] out h = refl
lookup-update_each f k ((j, v) ∷ m) out h = ground (
  arith,
  lookup-update_each f k m (insert j (f j (value j out) v) out) h.1,
  lookup-insert j k (f j (value j out) v) out,
  eq_iff j k,
)

pub value-update_each :
    (f : String → Quantity → Quantity → Quantity) (k : String) (m out : Resource)
    → IsMap m
    → value k (update_each f m out)
      ≡ (if has k m then f k (value k out) (value k m) else value k out)
unfolding value
value-update_each f k m out h = ground (arith, lookup-update_each f k m out h)

pub update_each-IsMap :
    (f : String → Quantity → Quantity → Quantity) (m out : Resource)
    → IsMap out
    → IsMap (update_each f m out)
unfolding update_each
update_each-IsMap f [] out h = h
update_each-IsMap f ((j, v) ∷ m) out h =
    update_each-IsMap f m (insert j (f j (value j out) v) out)
      (insert-IsMap j (f j (value j out) v) out h)

insert-IsWords :
    (k : String) (v : Quantity) (m : Resource) → v < word → IsWords m → IsWords (insert k v m)
unfolding insert
insert-IsWords k v [] p h = (p, tt)
insert-IsWords k v ((j, w) ∷ m) p h = ground (arith, insert-IsWords k v m p h.1)

pub update_each-IsWords :
    (f : String → Quantity → Quantity → Quantity)
    → ((k : String) (old v : Quantity) → old < word → v < word → f k old v < word)
    → (m out : Resource) → IsWords m
    → IsWords out
    → IsWords (update_each f m out)
unfolding update_each
update_each-IsWords f fits [] out h k = k
update_each-IsWords f fits ((j, v) ∷ m) out h k =
    update_each-IsWords f fits m (insert j (f j (value j out) v) out) h.1
      (insert-IsWords j _ out (fits j (value j out) v (value-lt-word j out k) h.0) k)

-- A loop that tests every entry passes where all entries do.
pub all_of_sound :
    (test : String → Quantity → Bool) (k : String) (v : Quantity) (m : Resource)
    → all_of test m ≡ true
    → lookup k m ≡ some v
    → test k v ≡ true
unfolding all_of lookup
all_of_sound test k v [] h e = ground arith
all_of_sound test k v ((j, w) ∷ m) h e = ground (arith, eq_iff j k, all_of_sound test k v m)

pub all_of_complete :
    (test : String → Quantity → Bool) (m : Resource)
    → IsMap m
    → ((k : String) (v : Quantity) → lookup k m ≡ some v → test k v ≡ true)
    → all_of test m ≡ true
unfolding all_of lookup
all_of_complete test [] h all = refl
all_of_complete test ((j, w) ∷ m) h all =
    ground (arith, all j w, eq_iff j j, all_of_complete test m h.1 (λ k v e. all k v (later k v e)))
  where
    later :
        (k : String) (v : Quantity)
        → lookup k m ≡ some v
        → (if j == k then some w else lookup k m) ≡ some v
    later k v e = ground (arith, eq_iff j k)
