-- ===== src/Resource/Order.antt =====
-- The comparisons of resources decide what they say of every key (common/resources/resources.go).
use yunikorn_study.Prelude.{
  String, ◌≡◌, refl, ◌<◌, ◌≤◌, ◌↔◌, Bool, true, false, Option, none, some, [], ◌∷◌, arith, ◌==◌,
  eq_iff, if◌then◌else◌, eqb, not, ◌&&◌, Option-cases, Bool-cases, inl, inr, ◌⊎◌,
}
use yunikorn_study.Dict.{lookup, IsMap}
use yunikorn_study.Quantity.{Quantity, word, rank, lt, is_negative, add, sub}
use yunikorn_study.Resource.{
  Resource, value, or_zero, all_of, fits_value, fit_in, equals, strictly_greater_than_or_equals,
  strictly_greater_than, gap_loop, strictly_greater_than_zero, greater_loop,
}
use yunikorn_study.Resource.Loops.{IsValid, all_of_sound, all_of_complete, value-lt-word}
use yunikorn_study.Resource.Arith.{quantity, IsResource}

-- A loop that tests every value against another resource passes where the test holds at every key,
-- if it holds of a missing key.
all_of_iff :
    (test : String → Quantity → Bool) (m : Resource)
    → IsMap m
    → ((k : String) → value k m ≡ 0 → test k 0 ≡ true)
    → (all_of test m ≡ true) ↔ ((k : String) → test k (value k m) ≡ true)
unfolding value
all_of_iff test m h missing = (
  λ e k. ground (arith, missing k, all_of_sound test k (value k m) m e),
  λ all. all_of_complete test m h (λ k v e. ground (arith, all k)),
)

-- `a <= b` of int64.
infix 50 ◌≤₆₄◌
abbrev pub ◌≤₆₄◌ : Quantity → Quantity → Type 0
a ≤₆₄ b = rank a ≤ rank b

-- A negative capacity counts as 0.
abbrev pub capacity : Quantity → Quantity
capacity q = if is_negative q then 0 else q

-- `FitIn` is true exactly when, under every key, the smaller quantity is at most the larger one,
-- a negative larger one counting as 0.
pub fit_in_iff :
    (larger smaller : Option Resource)
    → IsResource smaller
    → (fit_in larger smaller ≡ true)
      ↔ ((k : String) → quantity k smaller ≤₆₄ capacity (quantity k larger))
unfolding fit_in fits_value
fit_in_iff larger smaller h =
    let test = fits_value (or_zero larger) in
    let both = all_of_iff test (or_zero smaller) h.is_map (λ k e. ground arith) in
    (λ e k. ground (arith, both.0 e k), λ all. both.1 (λ k. ground (arith, all k)))

both_loops :
    (left right : String → Quantity → Bool) (P : String → Bool) (l r : Resource)
    → IsMap l
    → IsMap r
    → ((k : String) → left k (value k l) ≡ P k)
    → ((k : String) → right k (value k r) ≡ P k)
    → ((k : String) → value k l ≡ 0 → value k r ≡ 0 → P k ≡ true)
    → ((all_of left l && all_of right r) ≡ true) ↔ ((k : String) → P k ≡ true)
unfolding value
both_loops left right P l r h g at_left at_right missing = (
  λ e k. ground (
    arith,
    at_left k,
    at_right k,
    missing k,
    all_of_sound left k (value k l) l,
    all_of_sound right k (value k r) r,
  ),
  λ all. ground (
    arith,
    all_of_complete left l h (λ k v e. ground (arith, at_left k, all k)),
    all_of_complete right r g (λ k v e. ground (arith, at_right k, all k)),
  ),
)

-- `Equals` on two resources is true exactly when every key has the same quantity in both.
pub equals_iff :
    (l r : Resource)
    → IsValid l
    → IsValid r
    → (equals (some l) (some r) ≡ true) ↔ ((k : String) → value k l ≡ value k r)
unfolding equals
equals_iff l r h g =
    let both =
      both_loops (λ k v. eqb (value k r) v) (λ k v. eqb (value k l) v)
        (λ k. eqb (value k l) (value k r)) l r h.is_map g.is_map (λ k. ground arith)
        (λ k. ground arith) (λ k p q. ground arith) in
    (λ e k. ground (arith, both.0 e k), λ all. both.1 (λ k. ground (arith, all k)))

-- `StrictlyGreaterThanOrEquals` is true exactly when no quantity of the smaller resource exceeds
-- the larger one's as an int64.
pub strictly_greater_than_or_equals_iff :
    (l s : Option Resource)
    → IsResource l
    → IsResource s
    → (strictly_greater_than_or_equals l s ≡ true) ↔ ((k : String) → quantity k s ≤₆₄ quantity k l)
unfolding strictly_greater_than_or_equals
strictly_greater_than_or_equals_iff l s h g =
    let both =
      both_loops (λ k v. not (lt v (quantity k s))) (λ k v. not (lt (quantity k l) v))
        (λ k. not (lt (quantity k l) (quantity k s))) (or_zero l) (or_zero s) h.is_map g.is_map
        (λ k. refl) (λ k. refl) (λ k p q. ground (arith, p, q)) in
    (λ e k. ground (arith, both.0 e k), λ all. both.1 (λ k. ground (arith, all k)))

gap_loop_sound :
    (less : String → Quantity → Bool) (gap : String → Quantity → Quantity) (k : String)
    (m : Resource) (v delta total : Quantity)
    → gap_loop less gap m delta ≡ some total
    → lookup k m ≡ some v
    → less k v ≡ false
unfolding gap_loop lookup
gap_loop_sound less gap k [] v delta total h e = ground arith
gap_loop_sound less gap k ((j, w) ∷ m) v delta total h e =
    ground (arith, eq_iff j k, gap_loop_sound less gap k m v (add delta (gap j w)) total)

-- Differences that are all 0 leave the sum at 0.
gap_loop_flat :
    (less : String → Quantity → Bool) (gap : String → Quantity → Quantity) (m : Resource)
    {total : Quantity}
    → IsMap m
    → ((k : String) (v : Quantity) → lookup k m ≡ some v → gap k v ≡ 0)
    → gap_loop less gap m 0 ≡ some total
    → total ≡ 0
unfolding gap_loop lookup add
gap_loop_flat less gap [] h flat e = ground arith
gap_loop_flat less gap ((j, w) ∷ m) h flat e =
    let here : gap j w ≡ 0 = flat j w (ground (arith, eq_iff j j)) in
    gap_loop_flat less gap m h.1 (λ k v p. flat k v (ground (arith, eq_iff j k)))
      (ground (arith, here))

-- The two loops of `StrictlyGreaterThan`, when it answers true.
record Gaps (l s : Resource) : Type 0 where
  delta : Quantity
  total : Quantity
  first : gap_loop (λ k v. lt v (value k s)) (λ k v. sub v (value k s)) l 0 ≡ some delta
  second : gap_loop (λ k v. lt (value k l) v) (λ k v. sub (value k l) v) s delta ≡ some total
  positive : lt 0 total ≡ true

gaps : (l s : Option Resource) → strictly_greater_than l s ≡ true → Gaps (or_zero l) (or_zero s)
unfolding strictly_greater_than
gaps l s e =
    elim (Option-cases
      (gap_loop (λ k v. lt v (quantity k s)) (λ k v. sub v (quantity k s)) (or_zero l) 0)) [
        | inl none_first ↦ ground arith
        | inr (delta, p) ↦
            elim (Option-cases (
              gap_loop (λ k v. lt (quantity k l) v) (λ k v. sub (quantity k l) v) (or_zero s)
                delta)) [
                  | inl none_second ↦ ground arith
                  | inr (total, q) ↦ record {
                    delta = delta;
                    total = total;
                    first = p;
                    second = q;
                    positive = ground arith;
                  }
                ]
      ]

sub_self : (a : Quantity) → a < word → sub a a ≡ 0
unfolding sub
sub_self a h = omega arith

Gaps-le : (k : String) (l s : Resource) → Gaps l s → value k s ≤₆₄ value k l
unfolding value
Gaps-le k l s x = ground (
  arith,
  gap_loop_sound (λ j v. lt v (value j s)) (λ j v. sub v (value j s)) k l (value k l) 0 x.delta
      x.first,
  gap_loop_sound (λ j v. lt (value j l) v) (λ j v. sub (value j l) v) k s (value k s) x.delta
      x.total x.second,
)

value_of_lookup : (k : String) (v : Quantity) (m : Resource) → lookup k m ≡ some v → value k m ≡ v
unfolding value
value_of_lookup k v m e = ground arith

Gaps-differ :
    (l s : Resource) → IsValid l → IsValid s → Gaps l s → ¬ ((k : String) → value k l ≡ value k s)
Gaps-differ l s h g x same =
    let no_delta : x.delta ≡ 0 =
      gap_loop_flat (λ j v. lt v (value j s)) (λ j v. sub v (value j s)) l {total = x.delta}
        h.is_map
        (λ k v e.
          ground (arith, same k, value_of_lookup k v l e, sub_self v, value-lt-word k l h.is_words))
        x.first in
    let no_total : x.total ≡ 0 =
      gap_loop_flat (λ j v. lt (value j l) v) (λ j v. sub (value j l) v) s {total = x.total}
        g.is_map
        (λ k v e.
          ground (arith, same k, value_of_lookup k v s e, sub_self v, value-lt-word k s g.is_words))
        (rw (← no_delta) x.second) in
    ground (arith, x.positive)

-- Where `StrictlyGreaterThan` answers true no quantity is smaller than the other resource's, and
-- the two resources differ somewhere.
pub strictly_greater_than_sound :
    (l s : Option Resource)
    → IsResource l
    → IsResource s
    → strictly_greater_than l s ≡ true
    → ((k : String) → quantity k s ≤₆₄ quantity k l)
      × ¬ ((k : String) → quantity k l ≡ quantity k s)
strictly_greater_than_sound l s h g e = (
  λ k. Gaps-le k (or_zero l) (or_zero s) (gaps l s e),
  Gaps-differ (or_zero l) (or_zero s) h g (gaps l s e),
)

greater_loop_nonneg :
    (k : String) (m : Resource) (greater : Bool)
    → greater_loop m greater ≡ true
    → is_negative (value k m) ≡ false
unfolding greater_loop value lookup
greater_loop_nonneg k [] greater e = refl
greater_loop_nonneg k ((j, v) ∷ m) greater e =
    ground (arith, greater_loop_nonneg k m (if lt 0 v then true else greater))

greater_loop_some :
    (m : Resource) (greater : Bool)
    → IsMap m
    → greater_loop m greater ≡ true
    → (greater ≡ true) ⊎ ((k : String) × (lt 0 (value k m) ≡ true))
unfolding greater_loop value lookup
greater_loop_some [] greater h e = inl e
greater_loop_some ((j, v) ∷ m) greater h e = elim (Bool-cases (lt 0 v)) [
  | inl positive ↦ inr (j, ground (arith, eq_iff j j))
  | inr low ↦ elim (greater_loop_some m greater h.1 (ground (arith, low))) [
    | inl already ↦ inl already
    | inr (k, p) ↦ inr (k, ground (arith, eq_iff j k))
  ]
]

greater_loop_complete :
    (m : Resource) (greater : Bool)
    → IsMap m
    → ((k : String) → is_negative (value k m) ≡ false)
    → (greater ≡ true) ⊎ ((k : String) × (lt 0 (value k m) ≡ true))
    → greater_loop m greater ≡ true
unfolding greater_loop value lookup
greater_loop_complete [] greater h nonneg (inl already) = already
greater_loop_complete [] greater h nonneg (inr (k, p)) = ground arith
greater_loop_complete ((j, v) ∷ m) greater h nonneg found = ground (
  arith,
  nonneg j,
  eq_iff j j,
  greater_loop_complete m (if lt 0 v then true else greater) h.1
      (λ k. ground (arith, nonneg k, eq_iff j k)) (later found),
)
  where
    later :
        (greater ≡ true) ⊎ ((k : String) × (lt 0 (value k ((j, v) ∷ m)) ≡ true))
        → ((if lt 0 v then true else greater) ≡ true) ⊎ ((k : String) × (lt 0 (value k m) ≡ true))
    later (inl already) = inl (ground arith)
    later (inr (k, p)) = elim (Bool-cases (j == k)) [
      | inl here ↦ inl (ground (arith, p))
      | inr away ↦ inr (k, ground (arith, p))
    ]

no_positive : (k : String) → ¬ (lt 0 (quantity k none) ≡ true)
unfolding value lookup
no_positive k p = ground arith

-- `StrictlyGreaterThanZero` is true exactly when no quantity is negative and some one is positive.
pub strictly_greater_than_zero_iff :
    (r : Option Resource)
    → IsResource r
    → (strictly_greater_than_zero r ≡ true)
      ↔ (((k : String) → 0 ≤₆₄ quantity k r) × ((k : String) × (lt 0 (quantity k r) ≡ true)))
unfolding strictly_greater_than_zero
strictly_greater_than_zero_iff none h = (λ e. cc, λ both. absurd (no_positive both.1.0 both.1.1))
strictly_greater_than_zero_iff (some r) h = (
  λ e. (
    λ k. ground (arith, greater_loop_nonneg k r false e),
    elim (greater_loop_some r false h.is_map e) [ inl no_start ↦ cc | inr found ↦ found ],
  ),
  λ both. greater_loop_complete r false h.is_map (λ k. ground (arith, both.0 k)) (inr both.1),
)
