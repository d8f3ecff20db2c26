-- ===== src/Text/Names.antt =====
-- Dotted names: what the code uses of Go's `strings` to take them apart and to put them together.
use Prim.Native.Char.{Char, code}
use Prim.Native.String.{◌++◌, count}
use Prim.Native.String.count
use text.Mathlib.TextLemmas.{cons-append}
use yunikorn_study.Prelude.{
  String, ◌≡◌, refl, ◌∙◌, ◌<◌, inl, inr, Option, none, some, Bool, true, false, [], ◌∷◌, eqb, not,
  ◌&&◌, ap, if◌then◌else◌, arith, Bool-cases, Option-cases,
}
use yunikorn_study.Text.{split, to_lower, exchange, lower, to_lower-cons, split-cons}

-- strings.HasPrefix
unfoldable pub has_prefix : String → String → Bool
has_prefix String.[] s = true
has_prefix (String.◌∷◌ p pre) String.[] = false
has_prefix (String.◌∷◌ p pre) (String.◌∷◌ c s) = eqb (code p) (code c) && has_prefix pre s

-- `strings.Replace(name, ".", "_dot_", -1)`
unfoldable pub replace_dot : String → String
replace_dot String.[] = String.[]
replace_dot (String.◌∷◌ c s) =
    let rest = replace_dot s in if eqb (code c) b'.' then "_dot_" ++ rest else String.◌∷◌ c rest

abbrev before_rest : Char → Option String → Option String
before_rest c (some t) = some (String.◌∷◌ c t)
before_rest c none = if eqb (code c) b'.' then some String.[] else none

-- `s[0:strings.LastIndex(s, ".")]`; `none` where there is no dot, and Go panics.
unfoldable pub before_last_dot : String → Option String
before_last_dot String.[] = none
before_last_dot (String.◌∷◌ c s) = before_rest c (before_last_dot s)

abbrev after_rest : Char → Option String → String → Option String
after_rest c (some t) s = some t
after_rest c none s = if eqb (code c) b'.' then some s else none

after_dot : String → Option String
after_dot String.[] = none
after_dot (String.◌∷◌ c s) = after_rest c (after_dot s) s

-- `s[strings.LastIndex(s, ".")+1:]`, which is all of `s` where there is no dot.
unfoldable pub after_last_dot : String → String
unfolding after_dot
after_last_dot s = elim (after_dot s) [ none ↦ s | some t ↦ t ]

name_before : before_last_dot "root.a.b" ≡ some "root.a"
unfolding before_last_dot
name_before = refl

name_after : after_last_dot "root.a.b" ≡ "b"
unfolding after_last_dot
name_after = refl

-- What stands before the last dot is shorter.
pub count-before_last_dot : (s t : String) → before_last_dot s ≡ some t → count t < count s
unfolding before_last_dot
count-before_last_dot String.[] t e = cc
count-before_last_dot (String.◌∷◌ c s) t e = elim (Option-cases (before_last_dot s)) [
  | inl n ↦ last c s t (rw n at e)
  | inr (r, n) ↦
      let shorter = count-before_last_dot s r n in
      let now : String.◌∷◌ c r ≡ t = some_eq _ _ (rw n at e) in
      ground (arith, shorter, count.cons c r, count.cons c s, ap count now)
]
  where
    some_eq : (x y : String) → some x ≡ some y → x ≡ y
    some_eq x y e = cc

    last :
        (c : Char) (s t : String)
        → (if eqb (code c) b'.' then some String.[] else none) ≡ some t
        → count t < count (String.◌∷◌ c s)
    last c s t e = elim (Bool-cases (eqb (code c) b'.')) [
      | inl d ↦
          let now : String.[] ≡ t = some_eq _ _ (rw d at e) in
          ground (arith, count.cons c s, ap count now, count.nil)
      | inr d ↦ cc (rw d at e)
    ]

pub has_prefix-append : (p s : String) → has_prefix p (p ++ s) ≡ true
unfolding has_prefix
has_prefix-append String.[] s = refl
has_prefix-append (String.◌∷◌ c p) s =
    rw (cons-append c p s) (ground (arith, has_prefix-append p s))

no_dot : String → Bool
no_dot String.[] = true
no_dot (String.◌∷◌ c s) = not (eqb (code c) b'.') && no_dot s

exchange_dot :
    (from to : String) (c : Char)
    → no_dot from ≡ true
    → no_dot to ≡ true
    → eqb (code (exchange from to c)) b'.' ≡ eqb (code c) b'.'
unfolding no_dot
exchange_dot String.[] to c h g = refl
exchange_dot (String.◌∷◌ f from) String.[] c h g = refl
exchange_dot (String.◌∷◌ f from) (String.◌∷◌ t to) c h g = ground (arith, exchange_dot from to c)

lower_dot : (c : Char) → eqb (code (lower c)) b'.' ≡ eqb (code c) b'.'
unfolding lower no_dot
lower_dot c = exchange_dot "ABCDEFGHIJKLMNOPQRSTUVWXYZ" "abcdefghijklmnopqrstuvwxyz" c refl refl

no_dot_after :
    (c : Char) (s : String)
    → before_last_dot (String.◌∷◌ c s) ≡ none
    → (before_last_dot s ≡ none) × (eqb (code c) b'.' ≡ false)
unfolding before_last_dot
no_dot_after c s e = elim (Option-cases (before_last_dot s)) [
  | inl n ↦ (n, not_here c (rw n at e))
  | inr (t, n) ↦ cc (rw n at e)
]
  where
    not_here :
        (c : Char)
        → (if eqb (code c) b'.' then some String.[] else none) ≡ none
        → eqb (code c) b'.' ≡ false
    not_here c e = ground arith

after_dot-none : (s : String) → before_last_dot s ≡ none → after_dot s ≡ none
unfolding after_dot
after_dot-none String.[] e = refl
after_dot-none (String.◌∷◌ c s) e =
    let (n, other) = no_dot_after c s e in rw (after_dot-none s n, other) refl

after_dot_shorter :
    (s r : String)
    → before_last_dot s ≡ some r
    → (t : String) × (after_dot s ≡ some t) × (count t < count s)
unfolding before_last_dot after_dot
after_dot_shorter String.[] r e = cc
after_dot_shorter (String.◌∷◌ c s) r e = elim (Option-cases (before_last_dot s)) [
  | inr (u, n) ↦
      let (t, a, l) = after_dot_shorter s u n in (t, rw a refl, ground (arith, l, count.cons c s))
  | inl n ↦
      let none_after = after_dot-none s n in
      let dot = is_dot c (rw n at e) in
      (s, rw (none_after, dot) refl, ground (arith, count.cons c s))
]
  where
    is_dot :
        (c : Char)
        → (if eqb (code c) b'.' then some String.[] else none) ≡ some r
        → eqb (code c) b'.' ≡ true
    is_dot c e = ground arith

-- What stands after the last dot is shorter than a name with a dot.
pub count-after_last_dot :
    (s r : String) → before_last_dot s ≡ some r → count (after_last_dot s) < count s
unfolding after_last_dot
count-after_last_dot s r e = let (t, a, l) = after_dot_shorter s r e in rw (a, after_last_dot) l

to_lower_nil : to_lower String.[] ≡ String.[]
unfolding to_lower
to_lower_nil = refl

split_nil : split b'.' String.[] ≡ String.[] ∷ []
unfolding split
split_nil = refl

-- A name without a dot has one part.
pub split-to_lower_single :
    (s : String) → before_last_dot s ≡ none → split b'.' (to_lower s) ≡ to_lower s ∷ []
split-to_lower_single String.[] e = rw to_lower_nil split_nil
split-to_lower_single (String.◌∷◌ c s) e =
    let (n, other) = no_dot_after c s e in
    let low : eqb (code (lower c)) b'.' ≡ false = lower_dot c ∙ other in
    rw (to_lower-cons c s, split-cons b'.' (lower c) (to_lower s), low, split-to_lower_single s n)
      refl

pub has_prefix_more : (p s t : String) → has_prefix p s ≡ true → has_prefix p (s ++ t) ≡ true
unfolding has_prefix
has_prefix_more String.[] s t h = refl
has_prefix_more (String.◌∷◌ c p) String.[] t h = cc
has_prefix_more (String.◌∷◌ c p) (String.◌∷◌ d s) t h =
    rw (cons-append d s t) (ground (arith, h, has_prefix_more p s t))

pub has_prefix_less : (p q s : String) → has_prefix (p ++ q) s ≡ true → has_prefix p s ≡ true
unfolding has_prefix
has_prefix_less String.[] q s h = refl
has_prefix_less (String.◌∷◌ c p) q String.[] h = cc (rw (cons-append c p q) at h)
has_prefix_less (String.◌∷◌ c p) q (String.◌∷◌ d s) h =
    let e = rw (cons-append c p q) at h in ground (arith, e, has_prefix_less p q s)
