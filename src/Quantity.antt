-- ===== src/Quantity.antt =====
-- The type `Quantity` (an int64) of common/resources/resources.go.
use yunikorn_study.Prelude.{ℕ, ◌+◌, ◌-◌, ◌%◌, ◌<◌, ◌≡◌, Bool, arith, ltb}

-- 2 ^ 64 and 2 ^ 63.
abbrev pub word : ℕ
word = 18446744073709551616

abbrev pub half_word : ℕ
half_word = 9223372036854775808

-- A quantity is the two's complement bit pattern of an int64, a number below 2 ^ 64.
abbrev pub Quantity : Type 0
Quantity = ℕ

-- `a + b` and `a - b` of int64, with their wrap-around.
unfoldable pub add : Quantity → Quantity → Quantity
add a b = (a + b) % word

unfoldable pub sub : Quantity → Quantity → Quantity
sub a b = (a + word - b) % word

-- The integer that a pattern stands for, moved up by 2 ^ 63: this keeps the signed order.
abbrev pub rank : Quantity → ℕ
rank a = (a + half_word) % word

-- `a < b` and `a <= b` of int64.
abbrev pub lt : Quantity → Quantity → Bool
lt a b = ltb (rank a) (rank b)

abbrev pub is_negative : Quantity → Bool
is_negative a = lt a 0

pub add-lt-word : (a b : Quantity) → add a b < word
unfolding add
add-lt-word a b = omega arith

pub sub-lt-word : (a b : Quantity) → sub a b < word
unfolding sub
sub-lt-word a b = omega arith

pub sub-add : (a b : Quantity) → a < word → b < word → sub (add a b) b ≡ a
unfolding add sub
sub-add a b h k = omega arith

pub add-sub : (a b : Quantity) → a < word → b < word → add (sub a b) b ≡ a
unfolding add sub
add-sub a b h k = omega arith

pub add_comm : (a b : Quantity) → add a b ≡ add b a
unfolding add
add_comm a b = omega arith

pub add_assoc : (a b c : Quantity) → add (add a b) c ≡ add a (add b c)
unfolding add
add_assoc a b c = omega arith

pub add-zero : (a : Quantity) → a < word → add a 0 ≡ a
unfolding add
add-zero a h = omega arith

pub zero-add : (a : Quantity) → a < word → add 0 a ≡ a
unfolding add
zero-add a h = omega arith

pub sub-zero : (a : Quantity) → a < word → sub a 0 ≡ a
unfolding sub
sub-zero a h = omega arith
