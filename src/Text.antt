-- ===== src/Text.antt =====
-- What the code uses of Go's `strings`, on the ASCII letters that its names are checked to hold.
pub mod Names
use Prim.Native.Char.{Char, code}
use yunikorn_study.Prelude.{
  String, ℕ, ◌≡◌, refl, Bool, List, [], ◌∷◌, eqb, leb, ◌==◌, ◌&&◌, ◌||◌, false, not, if◌then◌else◌,
}

-- The character of `to` that stands where `from` holds `c`.
abbrev pub exchange : String → String → Char → Char
exchange String.[] to c = c
exchange (String.◌∷◌ f from) String.[] c = c
exchange (String.◌∷◌ f from) (String.◌∷◌ t to) c =
    if eqb (code f) (code c) then t else exchange from to c

unfoldable pub lower : Char → Char
lower = exchange "ABCDEFGHIJKLMNOPQRSTUVWXYZ" "abcdefghijklmnopqrstuvwxyz"

-- strings.ToLower
unfoldable pub to_lower : String → String
unfolding lower
to_lower String.[] = String.[]
to_lower (String.◌∷◌ c s) = String.◌∷◌ (lower c) (to_lower s)

pub to_lower-cons :
    (c : Char) (s : String) → to_lower (String.◌∷◌ c s) ≡ String.◌∷◌ (lower c) (to_lower s)
unfolding to_lower
to_lower-cons c s = refl

-- strings.EqualFold
unfoldable pub equal_fold : String → String → Bool
unfolding to_lower
equal_fold s t = to_lower s == to_lower t

abbrev pub cons_first : Char → List String → List String
cons_first c [] = String.◌∷◌ c String.[] ∷ []
cons_first c (s ∷ l) = String.◌∷◌ c s ∷ l

-- strings.Split at a separator of one character, given by its code.
unfoldable pub split : ℕ → String → List String
split sep String.[] = String.[] ∷ []
split sep (String.◌∷◌ c s) =
    let rest = split sep s in if eqb (code c) sep then String.[] ∷ rest else cons_first c rest

pub split-cons :
    (sep : ℕ) (c : Char) (s : String)
    → split sep (String.◌∷◌ c s)
      ≡ (if eqb (code c) sep then String.[] ∷ split sep s else cons_first c (split sep s))
unfolding split
split-cons sep c s = refl

split_path : split b'.' (to_lower "Root.a.Bc") ≡ "root" ∷ "a" ∷ "bc" ∷ []
unfolding split to_lower
split_path = refl

-- The ASCII characters that strings.TrimSpace takes off.
is_space : Char → Bool
is_space c = eqb (code c) 32 || (leb 9 (code c) && leb (code c) 13)

trim_left : String → String
trim_left String.[] = String.[]
trim_left (String.◌∷◌ c s) = let rest = trim_left s in if is_space c then rest else String.◌∷◌ c s

trim_right : String → String
trim_right String.[] = String.[]
trim_right (String.◌∷◌ c s) =
    let rest = trim_right s in if is_space c && rest == "" then String.[] else String.◌∷◌ c rest

-- strings.TrimSpace
unfoldable pub trim_space : String → String
unfolding is_space trim_left trim_right
trim_space s = trim_right (trim_left s)

trim_space_both_ends : trim_space " a b  " ≡ "a b"
unfolding trim_space
trim_space_both_ends = refl

abbrev starts_word : String → Bool
starts_word String.[] = false
starts_word (String.◌∷◌ c s) = not (is_space c)

-- strings.Fields: the words between white space.
unfoldable pub fields : String → List String
unfolding is_space
fields String.[] = []
fields (String.◌∷◌ c s) =
    let rest = fields s in
    if is_space c
    then rest
    else (if starts_word s then cons_first c rest else String.◌∷◌ c String.[] ∷ rest)

fields_of : fields " a  bc " ≡ "a" ∷ "bc" ∷ []
unfolding fields
fields_of = refl
