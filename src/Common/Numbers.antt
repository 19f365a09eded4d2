-- ===== src/Common/Numbers.antt =====
-- JavaScript numbers: NaN and the exact integers, with the comparisons of the language (every one
-- with NaN is false) and their decimal form.
use Prim.Native.Nat.{ℕ, zero, suc, ◌+◌, ◌/◌, ◌%◌}
use mathlib.Core.Bool.{Bool, true, false}
use mathlib.Core.List.{[], ◌∷◌, ◌++◌}
use vor.Common.Tests.{ltb, ◌==◌}
use vor.Common.Int.{ℤ, pos, negsuc, ◌+ℤ◌, ◌-ℤ◌, ltb_ℤ, leb_ℤ}
use vor.Common.Strings.{Text}

pub data Number : Type 0 where
  nan : Number
  int : ℤ → Number

-- The integer of a natural number.
abbrev pub nat : ℕ → Number
nat n = int (pos n)

-- `a < b`
abbrev pub num_lt : Number → Number → Bool
num_lt (int a) (int b) = ltb_ℤ a b
num_lt nan b = false
num_lt (int a) nan = false

-- `a <= b`
abbrev pub num_le : Number → Number → Bool
num_le (int a) (int b) = leb_ℤ a b
num_le nan b = false
num_le (int a) nan = false

abbrev pub int_eq : ℤ → ℤ → Bool
int_eq (pos a) (pos b) = a == b
int_eq (negsuc a) (negsuc b) = a == b
int_eq (pos a) (negsuc b) = false
int_eq (negsuc a) (pos b) = false

-- `a === b`
abbrev pub num_eq : Number → Number → Bool
num_eq (int a) (int b) = int_eq a b
num_eq nan b = false
num_eq (int a) nan = false

abbrev pub num_add : Number → Number → Number
num_add (int a) (int b) = int (a +ℤ b)
num_add nan b = nan
num_add (int a) nan = nan

abbrev pub num_sub : Number → Number → Number
num_sub (int a) (int b) = int (a -ℤ b)
num_sub nan b = nan
num_sub (int a) nan = nan

-- The decimal digits of a number, the fuel above it.
unfoldable pub decimal_from : ℕ → ℕ → Text
decimal_from zero n = []
decimal_from (suc fuel) n = elim (ltb n 10) [
  | true ↦ (48 + n) ∷ []
  | false ↦ decimal_from fuel (n / 10) ++ (48 + n % 10) ∷ []
]

unfoldable pub decimal : ℕ → Text
unfolding decimal_from
decimal n = decimal_from (suc n) n

-- `String(n)` for an integer
unfoldable pub print_int : ℤ → Text
unfolding decimal
print_int (pos n) = decimal n
print_int (negsuc n) = 45 ∷ decimal (suc n)
