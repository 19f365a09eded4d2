-- ===== src/Canonical/Reads/Arrays.antt =====
-- A written array reads as its items.
use mathlib.Core.Option
use mathlib.Core.List.{append_assoc}
use vor.Common.{
  ℕ, zero, suc, ◌+◌, ◌≤◌, ◌≡◌, refl, sym, ap, ◌∙◌, true, false, Option, some, List, [], ◌∷◌, ◌++◌,
  ◌==◌, length, length-append, arith, Text,
}
use vor.Canonical.{JsonValue, array, Items, nil, item, write_items}
use vor.Canonical.Parse.{
  is_space, skip, open_array, next_item, start_value, parse_value, parse_items, parse_members,
}
use vor.Canonical.Reads.Integers.{is_end}
use vor.Canonical.Reads.Values.{Reads, ReadsAll, skip-visible}

-- The parser of items behind a value that was read.
last_item :
    (v : JsonValue) (rest : Text) (items : Text → Option (Items × Text))
    → next_item (some (v, 93 ∷ rest)) items ≡ some (item v nil, rest)
unfolding next_item skip is_space
last_item v rest items = refl

more_items :
    (v : JsonValue) (rest : Text) (items : Text → Option (Items × Text))
    → next_item (some (v, 44 ∷ rest)) items ≡ Option.map (λ r. (item v r.0, r.1)) (items rest)
unfolding next_item skip is_space
more_items v rest items = refl

parse_items-suc :
    (f : ℕ) (s : Text) → parse_items (suc f) s ≡ next_item (parse_value f s) (parse_items f)
unfolding parse_items
parse_items-suc f s = refl

-- The text of the items without their last bracket.
read_items :
    (t : Text) (ts : List Text) (vs : Items) (f : ℕ) (rest : Text)
    → ReadsAll (t ∷ ts) vs
    → length (write_items (t ∷ ts)) + length (write_items (t ∷ ts)) + 1 ≤ f
    → parse_items f (write_items (t ∷ ts) ++ (93 ∷ rest)) ≡ some (vs, rest)
read_items t ts vs zero rest h le = absurd (omega (arith, le))
read_items t ts nil (suc f) rest h le = absurd h
read_items t [] (item v nil) (suc f) rest (h, _) le =
    parse_items-suc f (t ++ (93 ∷ rest))
    ∙ ap (λ r. next_item r (parse_items f)) (h.read f (93 ∷ rest) (omega (arith, le)) refl)
    ∙ last_item v rest (parse_items f)
read_items t [] (item v (item w ws)) (suc f) rest (_, h) le = absurd h
read_items t (u ∷ ts) (item v vs) (suc f) rest (h, hs) le =
    let later = write_items (u ∷ ts) ++ (93 ∷ rest) in
    let long = length-append t (44 ∷ write_items (u ∷ ts)) in
    parse_items-suc f (write_items (t ∷ u ∷ ts) ++ (93 ∷ rest))
    ∙ ap (λ s. next_item (parse_value f s) (parse_items f))
        (append_assoc t (44 ∷ write_items (u ∷ ts)) (93 ∷ rest))
    ∙ ap (λ r. next_item r (parse_items f)) (h.read f (44 ∷ later) (omega (arith, le, long)) refl)
    ∙ more_items v later (parse_items f)
    ∙ ap (Option.map (λ r. (item v r.0, r.1)))
        (read_items u ts vs f rest hs (omega (arith, le, long)))

record Visible (t : Text) : Type 0 where
  first : ℕ
  later : Text
  split : t ≡ first ∷ later
  visible : is_space first ≡ false
  opens : (first == 93) ≡ false

write_items-Visible :
    (t : Text) (ts : List Text) (v : JsonValue) → Reads t v → Visible (write_items (t ∷ ts))
write_items-Visible t [] v h = record {
  first = h.first;
  later = h.later;
  split = h.split;
  visible = h.visible;
  opens = h.opens;
}
write_items-Visible t (u ∷ ts) v h = record {
  first = h.first;
  later = h.later ++ (44 ∷ write_items (u ∷ ts));
  split = ap (λ s. s ++ (44 ∷ write_items (u ∷ ts))) h.split;
  visible = h.visible;
  opens = h.opens;
}

open_array-items :
    (c : ℕ) (s : Text) (items : Text → Option (Items × Text))
    → (c == 93) ≡ false
    → open_array (c ∷ s) items ≡ Option.map (λ r. (array r.0, r.1)) (items (c ∷ s))
unfolding open_array
open_array-items c s items h = rw (h, open_array) refl

array_starts :
    (s : Text) (f : ℕ)
    → start_value (91 ∷ s) (parse_items f) (parse_members f) ≡ open_array (skip s) (parse_items f)
unfolding start_value
array_starts s f = refl

module _ (t : Text) (ts : List Text) (v : JsonValue) (vs : Items)
    (h : ReadsAll (t ∷ ts) (item v vs)) where
  abbrev body : Text
  body = write_items (t ∷ ts)

  read_array :
      (f : ℕ) (rest : Text)
      → length (91 ∷ (body ++ 93 ∷ [])) + length (91 ∷ (body ++ 93 ∷ [])) ≤ f
      → is_end rest ≡ true
      → parse_value f ((91 ∷ (body ++ 93 ∷ [])) ++ rest) ≡ some (array (item v vs), rest)
  read_array zero rest le k = absurd (omega (arith, le))
  read_array (suc f) rest le k =
      let long = length-append body (93 ∷ []) in
      let d = write_items-Visible t ts v h.0 in
      let opened : body ++ (93 ∷ rest) ≡ d.first ∷ (d.later ++ (93 ∷ rest)) =
        ap (λ s. s ++ (93 ∷ rest)) d.split in
      unfold parse_value in
      unfold skip in
      unfold is_space in
      (array_starts ((body ++ 93 ∷ []) ++ rest) f
        ∙ ap (λ s. open_array (skip s) (parse_items f)) (append_assoc body (93 ∷ []) rest ∙ opened)
        ∙ ap (λ s. open_array s (parse_items f))
            (skip-visible d.first (d.later ++ (93 ∷ rest)) d.visible)
        ∙ open_array-items d.first (d.later ++ (93 ∷ rest)) (parse_items f) d.opens
        ∙ ap (λ s. Option.map (λ r. (array r.0, r.1)) (parse_items f s)) (sym opened)
        ∙ ap (Option.map (λ r. (array r.0, r.1)))
            (read_items t ts (item v vs) f rest h (omega (arith, le, long))))

empty_array : Reads (91 ∷ 93 ∷ []) (array nil)
unfolding parse_value is_space
empty_array = record {
  first = 91;
  later = 93 ∷ [];
  split = refl;
  visible = refl;
  opens = refl;
  read = read;
}
  where
    read :
        (f : ℕ) (rest : Text)
        → 4 ≤ f
        → is_end rest ≡ true
        → parse_value f (91 ∷ 93 ∷ rest) ≡ some (array nil, rest)
    read zero rest le k = absurd (omega (arith, le))
    read (suc f) rest le k = unfold parse_value in refl

pub array-Reads :
    (ts : List Text) (vs : Items)
    → ReadsAll ts vs
    → Reads (91 ∷ (write_items ts ++ 93 ∷ [])) (array vs)
unfolding is_space
array-Reads [] nil h = empty_array
array-Reads [] (item v vs) h = absurd h
array-Reads (t ∷ ts) nil h = absurd h
array-Reads (t ∷ ts) (item v vs) h = record {
  first = 91;
  later = write_items (t ∷ ts) ++ 93 ∷ [];
  split = refl;
  visible = refl;
  opens = refl;
  read = read_array t ts v vs h;
}
