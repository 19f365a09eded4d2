-- ===== src/Subscription/Uri.antt =====
-- The functions of the language that the link parser calls: decodeURIComponent and parseInt.
use vor.Common.{
  ℕ, ◌+◌, ◌*◌, Bool, true, false, ◌&&◌, not, Option, none, some, [], ◌∷◌, ◌++◌, map, ◌==◌,
  if◌then◌else◌, Text, Number, nan, int, nat, is_white, drop_while, Decoder, invalid, more, fresh,
  decode_byte,
}
use vor.Canonical.Parse.{hex_value, is_digit, digits_from, negate}

abbrev pub byte_of : Option ℕ → Option ℕ → Option ℕ
byte_of none low = none
byte_of (some high) none = none
byte_of (some high) (some low) = some (high * 16 + low)

abbrev pub before : Text → Option Text → Option Text
before out none = none
before out (some rest) = some (out ++ rest)

-- `decodeURIComponent`; `none` is its exception. An escape gives a byte of a UTF-8 sequence, which no
-- other unit may break off.
unfoldable pub decode_uri_from : Decoder → Text → Option Text
unfolding hex_value decode_byte
decode_uri_from d [] = if d.needed == 0 then some [] else none
decode_uri_from d (c ∷ []) = if d.needed == 0 && not (c == 37) then some (c ∷ []) else none
decode_uri_from d (c ∷ a ∷ []) =
    if d.needed == 0 && not (c == 37) && not (a == 37) then some (c ∷ a ∷ []) else none
decode_uri_from d (c ∷ a ∷ b ∷ s) = elim (c == 37) [
  | true ↦ elim (byte_of (hex_value a) (hex_value b)) [
    | none ↦ none
    | some byte ↦ elim (decode_byte d byte) [
      | invalid ↦ none
      | more d' out ↦ before out (decode_uri_from d' s)
    ]
  ]
  | false ↦ elim (d.needed == 0) [
    | true ↦ before (c ∷ []) (decode_uri_from d (a ∷ b ∷ s))
    | false ↦ none
  ]
]

abbrev pub or_same : Text → Option Text → Text
or_same s none = s
or_same s (some t) = t

-- A plus sign reads as a space.
abbrev pub plus_unit : ℕ → ℕ
plus_unit c = if c == 43 then 32 else c

unfoldable pub urldecode : Text → Text
unfolding decode_uri_from
urldecode s = or_same s (decode_uri_from fresh (map plus_unit s))

-- `Number.parseInt(s, 10)`: NaN unless digits follow the white space and the sign.
abbrev pub starts_digit : Text → Bool
starts_digit [] = false
starts_digit (c ∷ s) = is_digit c

abbrev pub unsigned : Text → Option ℕ
unsigned s = if starts_digit s then some (digits_from 0 s).0 else none

abbrev pub plain_number : Option ℕ → Number
plain_number none = nan
plain_number (some n) = nat n

abbrev pub negated_number : Option ℕ → Number
negated_number none = nan
negated_number (some n) = int (negate n)

abbrev pub signed : Text → Number
signed [] = nan
signed (c ∷ s) =
    if c == 45
    then negated_number (unsigned s)
    else if c == 43
    then plain_number (unsigned s)
    else plain_number (unsigned (c ∷ s))

unfoldable pub parse_int : Text → Number
unfolding is_white is_digit digits_from
parse_int s = signed (drop_while is_white s)
