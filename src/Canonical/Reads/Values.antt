-- ===== src/Canonical/Reads/Values.antt =====
-- Texts that read as a value before a comma, a closing bracket or the end, with fuel twice their
-- length: literals, strings and arrays.
use mathlib.Core.Option
use mathlib.Core.List.{append_assoc}
use vor.Common.{
  ℕ, zero, suc, ◌+◌, ◌≤◌, ◌≡◌, refl, sym, ap, ◌∙◌, true, false, ◌||◌, Option, none, some, List, [],
  ◌∷◌, ◌++◌, ◌==◌, length, arith, All, Text, ℤ, int, print_int, codes,
}
use vor.Canonical.{
  JsonValue, null, boolean, number, string, Items, nil, item, Members, escape_from,
  escape_json_string,
}
use vor.Canonical.Parse.{
  is_space, skip, is_digit, start_value, parse_number, parse_value, parse_items, parse_members,
}
use vor.Canonical.Quote.{IsBasic, scan-escape_from}
use vor.Canonical.Reads.Integers.{is_end, print_int-StartsInteger, parse_number-print_int}

pub record Reads (t : Text) (v : JsonValue) : Type 0 where
  pub first : ℕ
  pub later : Text
  pub split : t ≡ first ∷ later
  pub visible : is_space first ≡ false
  pub opens : (first == 93) ≡ false
  pub read :
      (f : ℕ) (rest : Text)
      → length t + length t ≤ f
      → is_end rest ≡ true
      → parse_value f (t ++ rest) ≡ some (v, rest)

pub skip-visible : (c : ℕ) (s : Text) → is_space c ≡ false → skip (c ∷ s) ≡ c ∷ s
unfolding skip
skip-visible c s h = rw h refl

pub skip-end : (s : Text) → is_end s ≡ true → skip s ≡ s
unfolding skip is_space
skip-end [] h = refl
skip-end (c ∷ s) h = ground arith

pub null-Reads : Reads (codes "null") null
null-Reads = record {
  first = 110;
  later = codes "ull";
  split = refl;
  visible = unfold is_space in refl;
  opens = refl;
  read = read;
}
  where
    read :
        (f : ℕ) (rest : Text)
        → 8 ≤ f
        → is_end rest ≡ true
        → parse_value f (codes "null" ++ rest) ≡ some (null, rest)
    read zero rest h k = absurd (omega (arith, h))
    read (suc f) rest h k = unfold parse_value in refl

integer_starts :
    (c : ℕ) (s : Text) (items : Text → Option (Items × Text))
    (members : Text → Option (Members × Text))
    → (is_digit c || c == 45) ≡ true
    → start_value (c ∷ s) items members ≡ parse_number (c ∷ s)
unfolding start_value is_digit
integer_starts c s items members h = ground arith

integer_visible : (c : ℕ) → (is_digit c || c == 45) ≡ true → is_space c ≡ false
unfolding is_digit is_space
integer_visible c h = ground arith

integer_opens : (c : ℕ) → (is_digit c || c == 45) ≡ true → (c == 93) ≡ false
unfolding is_digit
integer_opens c h = ground arith

parse_value-word :
    (v : JsonValue) (t : Text)
    → ((f : ℕ) (rest : Text) → parse_value (suc f) (t ++ rest) ≡ some (v, rest))
    → (first : ℕ) (later : Text) → t ≡ first ∷ later
    → is_space first ≡ false
    → (first == 93) ≡ false
    → Reads t v
parse_value-word v t literal first later split visible opens = record {
  first = first;
  later = later;
  split = split;
  visible = visible;
  opens = opens;
  read = read;
}
  where
    read :
        (f : ℕ) (rest : Text)
        → length t + length t ≤ f
        → is_end rest ≡ true
        → parse_value f (t ++ rest) ≡ some (v, rest)
    read zero rest h k = absurd (omega (arith, h, ap length split))
    read (suc f) rest h k = literal f rest

pub true-Reads : Reads (codes "true") (boolean true)
unfolding parse_value is_space
true-Reads =
    parse_value-word (boolean true) (codes "true") (λ f rest. refl) 116 (codes "rue") refl refl refl

pub false-Reads : Reads (codes "false") (boolean false)
unfolding parse_value is_space
false-Reads =
    parse_value-word (boolean false) (codes "false") (λ f rest. refl) 102 (codes "alse") refl refl
      refl

pub number-Reads : (z : ℤ) → Reads (print_int z) (number (int z))
number-Reads z =
    let d = print_int-StartsInteger z in
    record {
      first = d.first;
      later = d.later;
      split = d.split;
      visible = integer_visible d.first d.sign;
      opens = integer_opens d.first d.sign;
      read = read;
    }
  where
    read :
        (f : ℕ) (rest : Text)
        → length (print_int z) + length (print_int z) ≤ f
        → is_end rest ≡ true
        → parse_value f (print_int z ++ rest) ≡ some (number (int z), rest)
    read zero rest h k = absurd (omega (arith, h, ap length (print_int-StartsInteger z).split))
    read (suc f) rest h k =
        let d = print_int-StartsInteger z in
        let opened = ap (λ t. t ++ rest) d.split in
        unfold parse_value in
        (ap (λ t. start_value (skip t) (parse_items f) (parse_members f)) opened
          ∙ ap (λ t. start_value t (parse_items f) (parse_members f))
              (skip-visible d.first (d.later ++ rest) (integer_visible d.first d.sign))
          ∙ integer_starts d.first (d.later ++ rest) (parse_items f) (parse_members f) d.sign
          ∙ ap parse_number (sym opened)
          ∙ parse_number-print_int z rest k)

string_starts :
    (s rest : Text) (items : Text → Option (Items × Text))
    (members : Text → Option (Members × Text))
    → All IsBasic s
    → start_value (34 ∷ (escape_from none s ++ (34 ∷ rest))) items members ≡ some (string s, rest)
unfolding start_value
string_starts s rest items members h =
    ap (Option.map (λ r. (string r.0, r.1))) (scan-escape_from s rest h)

pub string-Reads : (s : Text) → All IsBasic s → Reads (escape_json_string s) (string s)
unfolding escape_json_string is_space parse_value
string-Reads s h =
    parse_value-word (string s) (escape_json_string s)
      (λ f rest.
        ap (λ t. start_value (skip (34 ∷ t)) (parse_items f) (parse_members f))
          (append_assoc (escape_from none s) (34 ∷ []) rest)
        ∙ unfold skip in string_starts s rest (parse_items f) (parse_members f) h)
      34 (escape_from none s ++ 34 ∷ []) refl refl refl

-- The written values of an array, each read as its item.
abbrev pub ReadsAll : List Text → Items → Type 0
ReadsAll [] nil = Unit
ReadsAll [] (item v vs) = ⊥
ReadsAll (t ∷ ts) nil = ⊥
ReadsAll (t ∷ ts) (item v vs) = Reads t v × ReadsAll ts vs
