-- ===== src/Canonical/Parse/Literals.antt =====
-- The literals of `JSON.parse`: strings, numbers, white space and words.
use mathlib.Core.Option
use vor.Common.{
  ℕ, zero, suc, ◌+◌, ◌-◌, ◌*◌, Bool, true, false, ◌||◌, ◌&&◌, Option, none, some, [], ◌∷◌, ◌++◌,
  leb, ltb, ◌==◌, if◌then◌else◌, Text, int, pos, negsuc, ℤ, drop_while, nat,
}
use vor.Canonical.{JsonValue, number}

-- Inside a string: plain, after a backslash, or in `\uXXXX` with digits left and the value so far.
pub data Mode : Type 0 where
  plain escaped : Mode
  hex : ℕ → ℕ → Mode

pub data Scan : Type 0 where
  fail stop : Scan
  go : Mode → Text → Scan

unfoldable pub hex_value : ℕ → Option ℕ
hex_value c =
    if leb 48 c && leb c 57
    then some (c - 48)
    else if leb 97 c && leb c 102
    then some (c - 87)
    else if leb 65 c && leb c 70
    then some (c - 55)
    else none

unfoldable pub scan_escape : ℕ → Scan
scan_escape c =
    if c == 34 || c == 92 || c == 47
    then go plain (c ∷ [])
    else if c == 98
    then go plain (8 ∷ [])
    else if c == 116
    then go plain (9 ∷ [])
    else if c == 110
    then go plain (10 ∷ [])
    else if c == 102
    then go plain (12 ∷ [])
    else if c == 114
    then go plain (13 ∷ [])
    else if c == 117
    then go (hex 4 0) []
    else fail

unfoldable pub scan_hex : ℕ → ℕ → Option ℕ → Scan
scan_hex left v none = fail
scan_hex left v (some d) =
    if left == 1 then go plain ((v * 16 + d) ∷ []) else go (hex (left - 1) (v * 16 + d)) []

unfoldable pub scan_unit : Mode → ℕ → Scan
unfolding scan_escape scan_hex hex_value
scan_unit plain c =
    if c == 34
    then stop
    else if c == 92
    then go escaped []
    else if ltb c 32
    then fail
    else go plain (c ∷ [])
scan_unit escaped c = scan_escape c
scan_unit (hex left v) c = scan_hex left v (hex_value c)

abbrev pub prepend : Text → Option (Text × Text) → Option (Text × Text)
prepend out none = none
prepend out (some (s, rest)) = some (out ++ s, rest)

-- The rest of a string literal after its opening quote, and what follows it.
unfoldable pub scan_string : Mode → Text → Option (Text × Text)
unfolding scan_unit
scan_string m [] = none
scan_string m (c ∷ s) = elim (scan_unit m c) [
  | fail ↦ none
  | stop ↦ some ([], s)
  | go m' out ↦ prepend out (scan_string m' s)
]

unfoldable pub is_digit : ℕ → Bool
is_digit c = leb 48 c && leb c 57

-- The value of the digits in front, and what follows them.
unfoldable pub digits_from : ℕ → Text → ℕ × Text
unfolding is_digit
digits_from v [] = (v, [])
digits_from v (c ∷ s) = elim (is_digit c) [
  | true ↦ digits_from (v * 10 + (c - 48)) s
  | false ↦ (v, c ∷ s)
]

-- A fraction or an exponent follows.
unfoldable pub is_fraction : Text → Bool
is_fraction [] = false
is_fraction (c ∷ s) = c == 46 || c == 101 || c == 69

-- No digit follows a leading zero.
unfoldable pub natural : Text → Option (ℕ × Text)
unfolding digits_from is_fraction
natural [] = none
natural (c ∷ s) =
    if c == 48
    then (if is_fraction s then none else some (0, s))
    else if is_digit c
    then (let (v, rest) = digits_from 0 (c ∷ s) in
        if is_fraction rest then none else some (v, rest))
    else none

-- `-0` reads as 0, to which it is `===`.
abbrev pub negate : ℕ → ℤ
negate zero = pos 0
negate (suc n) = negsuc n

unfoldable pub parse_number : Text → Option (JsonValue × Text)
unfolding natural
parse_number [] = none
parse_number (c ∷ s) =
    if c == 45
    then Option.map (λ r. (number (int (negate r.0)), r.1)) (natural s)
    else Option.map (λ r. (number (nat r.0), r.1)) (natural (c ∷ s))

unfoldable pub is_space : ℕ → Bool
is_space c = c == 32 || c == 9 || c == 10 || c == 13

unfoldable pub skip : Text → Text
unfolding is_space
skip s = drop_while is_space s

-- What follows a literal word.
unfoldable pub after : Text → Text → Option Text
after [] s = some s
after (p ∷ ps) [] = none
after (p ∷ ps) (c ∷ s) = if c == p then after ps s else none
