-- ===== src/Canonical.antt =====
-- Deterministic canonical JSON, apps/preview/src/lib/vor/canonical.ts. An array and an object have
-- list types of their own; an object's members stand in the order of `Object.keys`.
pub mod Parse
pub mod Quote
pub mod Reads
pub mod RoundTrip
use mathlib.Core.Option
use vor.Common.{
  ℕ, suc, ◌+◌, ◌-◌, ◌/◌, ◌%◌, Bool, true, false, ◌&&◌, Option, none, some, List, [], ◌∷◌, ◌++◌, ltb,
  leb, ◌==◌, if◌then◌else◌, Text, codes, Number, nan, int, print_int, Bytes, utf8, is_high, is_low,
  pending,
}

mutual
  pub data JsonValue : Type 0 where
    null : JsonValue
    boolean : Bool → JsonValue
    number : Number → JsonValue
    string : Text → JsonValue
    array : Items → JsonValue
    object : Members → JsonValue

  pub data Items : Type 0 where
    nil : Items
    item : JsonValue → Items → Items

  pub data Members : Type 0 where
    end : Members
    member : Text → JsonValue → Members → Members

-- A lower-case hexadecimal digit.
abbrev pub hex_digit : ℕ → ℕ
hex_digit d = if ltb d 10 then 48 + d else 87 + d

-- `\uXXXX`
unfoldable pub unicode_escape : ℕ → Text
unicode_escape c =
    92
    ∷ 117
    ∷ hex_digit (c / 4096 % 16)
    ∷ hex_digit (c / 256 % 16)
    ∷ hex_digit (c / 16 % 16)
    ∷ hex_digit (c % 16)
    ∷ []

-- `JSON.stringify` of one unit that is no surrogate
unfoldable pub escape_unit : ℕ → Text
unfolding unicode_escape
escape_unit c =
    if c == 34
    then 92 ∷ 34 ∷ []
    else if c == 92
    then 92 ∷ 92 ∷ []
    else if c == 8
    then 92 ∷ 98 ∷ []
    else if c == 9
    then 92 ∷ 116 ∷ []
    else if c == 10
    then 92 ∷ 110 ∷ []
    else if c == 12
    then 92 ∷ 102 ∷ []
    else if c == 13
    then 92 ∷ 114 ∷ []
    else if ltb c 32
    then unicode_escape c
    else c ∷ []

-- A lone surrogate is escaped, a pair is kept.
unfoldable pub escape_emit : Option ℕ → ℕ → Text
unfolding escape_unit is_high is_low
escape_emit none c = if is_high c then [] else if is_low c then unicode_escape c else escape_unit c
escape_emit (some h) c =
    if is_low c then h ∷ c ∷ [] else unicode_escape h ++ (if is_high c then [] else escape_unit c)

unfoldable pub escape_from : Option ℕ → Text → Text
unfolding escape_emit
escape_from none [] = []
escape_from (some h) [] = unicode_escape h
escape_from p (c ∷ s) = escape_emit p c ++ escape_from (pending c) s

-- `escapeJsonString`
unfoldable pub escape_json_string : Text → Text
unfolding escape_from
escape_json_string s = 34 ∷ (escape_from none s ++ 34 ∷ [])

-- The comparator of the key sort: is `ea - eb` negative or zero, byte by byte, then by length?
unfoldable pub bytes_le : Bytes → Bytes → Bool
bytes_le [] eb = true
bytes_le (a ∷ ea) [] = false
bytes_le (a ∷ ea) (b ∷ eb) = if a == b then bytes_le ea eb else ltb a b

unfoldable pub key_le : Text → Text → Bool
unfolding bytes_le utf8
key_le a b = bytes_le (utf8 a) (utf8 b)

-- The stable sort of the entries by their keys.
unfoldable pub insert_key : Text × Text → List (Text × Text) → List (Text × Text)
unfolding key_le
insert_key e [] = e ∷ []
insert_key e (f ∷ es) =
    let later = f ∷ insert_key e es in if key_le e.0 f.0 then e ∷ f ∷ es else later

unfoldable pub sort_keys : List (Text × Text) → List (Text × Text)
unfolding insert_key
sort_keys [] = []
sort_keys (e ∷ es) = insert_key e (sort_keys es)

-- The entries with their written values, separated by commas.
unfoldable pub write_entries : List (Text × Text) → Text
unfolding escape_json_string
write_entries [] = []
write_entries ((k, v) ∷ []) = escape_json_string k ++ (58 ∷ v)
write_entries ((k, v) ∷ e ∷ es) =
    escape_json_string k ++ (58 ∷ (v ++ (44 ∷ write_entries (e ∷ es))))

abbrev pub write_items : List Text → Text
write_items [] = []
write_items (t ∷ []) = t
write_items (t ∷ u ∷ ts) = t ++ (44 ∷ write_items (u ∷ ts))

infixl 5 ◌>>=◌
abbrev pub ◌>>=◌ {ℓ κ} : {A : Type ℓ} {B : Type κ} → Option A → (A → Option B) → Option B
none >>= k = none
some a >>= k = k a

-- `none` is the exception for a number that is not finite.
unfoldable mutual
  unfolding escape_json_string sort_keys write_entries print_int

  -- `canonicalJson`
  pub canonical_json : JsonValue → Option Text
  canonical_json null = some (codes "null")
  canonical_json (boolean true) = some (codes "true")
  canonical_json (boolean false) = some (codes "false")
  canonical_json (number nan) = none
  canonical_json (number (int n)) = some (print_int n)
  canonical_json (string s) = some (escape_json_string s)
  canonical_json (array vs) = do ts ← canonical_items vs; some (91 ∷ (write_items ts ++ 93 ∷ []))
  canonical_json (object ms) = do
    es ← canonical_members ms
    some (123 ∷ (write_entries (sort_keys es) ++ 125 ∷ []))

  pub canonical_items : Items → Option (List Text)
  canonical_items nil = some []
  canonical_items (item v vs) = do t ← canonical_json v; ts ← canonical_items vs; some (t ∷ ts)

  pub canonical_members : Members → Option (List (Text × Text))
  canonical_members end = some []
  canonical_members (member k v ms) = do
    t ← canonical_json v
    es ← canonical_members ms
    some ((k, t) ∷ es)
