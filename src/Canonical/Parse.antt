-- ===== src/Canonical/Parse.antt =====
-- `JSON.parse` over code units. Numbers are integers: one with a fraction or an exponent is outside
-- the model and is refused. A repeated key keeps its first place and its last value.
pub mod Literals
unfoldable pub use Literals.*
use mathlib.Core.Option
use vor.Common.{
  ℕ, zero, suc, ◌+◌, ◌-◌, ◌*◌, Bool, true, false, ◌||◌, ◌&&◌, Option, none, some, [], ◌∷◌, ◌++◌,
  leb, ltb, ◌==◌, if◌then◌else◌, length, Text, text_eq, codes, int, pos, negsuc, ℤ, drop_while, nat,
}
use vor.Canonical.{
  canonical_json, JsonValue, null, boolean, number, string, array, object, Items, nil, item,
  Members, end, member,
}

unfoldable pub get : Text → Members → Option JsonValue
get k end = none
get k (member j v ms) = if text_eq j k then some v else get k ms

unfoldable pub remove : Text → Members → Members
remove k end = end
remove k (member j v ms) = let kept = member j v (remove k ms) in if text_eq j k then ms else kept

-- A member in front of later ones, of which one with the same key overrides its value.
abbrev pub put_first : Text → JsonValue → Members → Option JsonValue → Members
put_first k v ms none = member k v ms
put_first k v ms (some w) = member k w (remove k ms)

-- The parsers of the parts are arguments: `parse_value` gives them with less fuel.
unfoldable pub item_tail : JsonValue → Text → (Text → Option (Items × Text)) → Option (Items × Text)
item_tail v [] items = none
item_tail v (c ∷ s) items = elim (c == 44) [
  | true ↦ Option.map (λ r. (item v r.0, r.1)) (items s)
  | false ↦ if c == 93 then some (item v nil, s) else none
]

unfoldable pub next_item :
    Option (JsonValue × Text) → (Text → Option (Items × Text)) → Option (Items × Text)
unfolding item_tail skip
next_item none items = none
next_item (some (v, s)) items = item_tail v (skip s) items

unfoldable pub member_tail :
    Text → JsonValue → Text → (Text → Option (Members × Text)) → Option (Members × Text)
unfolding get remove
member_tail k v [] members = none
member_tail k v (c ∷ s) members = elim (c == 44) [
  | true ↦ Option.map (λ r. (put_first k v r.0 (get k r.0), r.1)) (members s)
  | false ↦ if c == 125 then some (member k v end, s) else none
]

unfoldable pub member_value :
    Text → Option (JsonValue × Text) → (Text → Option (Members × Text)) → Option (Members × Text)
unfolding member_tail skip
member_value k none members = none
member_value k (some (v, s)) members = member_tail k v (skip s) members

-- After the key: the colon and the value.
unfoldable pub member_colon :
    Text
    → Text
    → (Text → Option (JsonValue × Text))
    → (Text → Option (Members × Text))
    → Option (Members × Text)
unfolding member_value
member_colon k [] value members = none
member_colon k (c ∷ s) value members = elim (c == 58) [
  | true ↦ member_value k (value s) members
  | false ↦ none
]

unfoldable pub member_key :
    Option (Text × Text)
    → (Text → Option (JsonValue × Text))
    → (Text → Option (Members × Text))
    → Option (Members × Text)
unfolding member_colon skip
member_key none value members = none
member_key (some (k, s)) value members = member_colon k (skip s) value members

unfoldable pub next_member :
    Text
    → (Text → Option (JsonValue × Text))
    → (Text → Option (Members × Text))
    → Option (Members × Text)
unfolding member_key scan_string
next_member [] value members = none
next_member (c ∷ s) value members = elim (c == 34) [
  | true ↦ member_key (scan_string plain s) value members
  | false ↦ none
]

unfoldable pub open_array : Text → (Text → Option (Items × Text)) → Option (JsonValue × Text)
open_array [] items = none
open_array (c ∷ s) items = elim (c == 93) [
  | true ↦ some (array nil, s)
  | false ↦ Option.map (λ r. (array r.0, r.1)) (items (c ∷ s))
]

unfoldable pub open_object : Text → (Text → Option (Members × Text)) → Option (JsonValue × Text)
open_object [] members = none
open_object (c ∷ s) members = elim (c == 125) [
  | true ↦ some (object end, s)
  | false ↦ Option.map (λ r. (object r.0, r.1)) (members (c ∷ s))
]

abbrev pub word : JsonValue → Text → Text → Option (JsonValue × Text)
word v w s = Option.map (λ rest. (v, rest)) (after w s)

-- The first unit of a value decides what it is.
unfoldable pub start_value :
    Text
    → (Text → Option (Items × Text))
    → (Text → Option (Members × Text))
    → Option (JsonValue × Text)
unfolding open_array open_object scan_string after parse_number skip
start_value [] items members = none
start_value (c ∷ s) items members = elim (c == 123) [
  | true ↦ open_object (skip s) members
  | false ↦ elim (c == 91) [
    | true ↦ open_array (skip s) items
    | false ↦
        if c == 34
        then Option.map (λ r. (string r.0, r.1)) (scan_string plain s)
        else if c == 110
        then word null (codes "ull") s
        else if c == 116
        then word (boolean true) (codes "rue") s
        else if c == 102
        then word (boolean false) (codes "alse") s
        else parse_number (c ∷ s)
  ]
]

unfoldable mutual
  unfolding start_value next_item next_member skip

  pub parse_value : ℕ → Text → Option (JsonValue × Text)
  parse_value zero s = none
  parse_value (suc f) s = start_value (skip s) (parse_items f) (parse_members f)

  pub parse_items : ℕ → Text → Option (Items × Text)
  parse_items zero s = none
  parse_items (suc f) s = next_item (parse_value f s) (parse_items f)

  pub parse_members : ℕ → Text → Option (Members × Text)
  parse_members zero s = none
  parse_members (suc f) s = next_member (skip s) (parse_value f) (parse_members f)

abbrev pub whole : Option (JsonValue × Text) → Option JsonValue
whole none = none
whole (some (v, s)) = elim (skip s) [ [] ↦ some v | c ∷ r ↦ none ]

-- `JSON.parse`; `none` is its exception. An array or an object takes two rounds of fuel for each
-- unit that it consumes, at most.
unfoldable pub parse_json : Text → Option JsonValue
unfolding parse_value skip
parse_json s = whole (parse_value (length s + length s + 2) s)

abbrev pub canonical_of : Option JsonValue → Option Text
canonical_of none = none
canonical_of (some v) = canonical_json v

-- `canonicalizeStr`; `none` is an exception of either step
unfoldable pub canonicalize_str : Text → Option Text
unfolding parse_json canonical_json
canonicalize_str json = canonical_of (parse_json json)
