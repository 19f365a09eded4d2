-- ===== src/Canonical/Reads/Integers.antt =====
-- The parser of numbers on the decimal form of an integer.
use mathlib.Core.Option
use mathlib.Core.List.{append_assoc}
use vor.Common.{
  ℕ, zero, suc, ◌+◌, ◌*◌, ◌/◌, ◌%◌, ◌<◌, ◌≡◌, refl, sym, ap, ◌∙◌, Bool, Bool-cases, ◌⊎◌, inl, inr,
  true, false, ◌||◌, none, some, [], ◌∷◌, ◌++◌, ltb, ◌==◌, if◌then◌else◌, arith, Text, ℤ, pos,
  negsuc, int, nat, decimal, decimal_from, print_int, ltb→lt,
}
use vor.Canonical.{number}
use vor.Canonical.Parse.{is_digit, digits_from, is_fraction, natural, negate, parse_number}

-- What follows a value in a written text: nothing, a comma or a closing bracket.
abbrev pub is_end : Text → Bool
is_end [] = true
is_end (c ∷ s) = c == 44 || c == 93 || c == 125

digits_from-end : (v : ℕ) (s : Text) → is_end s ≡ true → digits_from v s ≡ (v, s)
unfolding digits_from is_digit
digits_from-end v [] h = refl
digits_from-end v (c ∷ s) h = ground arith

is_fraction-end : (s : Text) → is_end s ≡ true → is_fraction s ≡ false
unfolding is_fraction
is_fraction-end [] h = refl
is_fraction-end (c ∷ s) h = ground arith

digit_step :
    (v d : ℕ) (s : Text) → d < 10 → digits_from v ((48 + d) ∷ s) ≡ digits_from (v * 10 + d) s
unfolding digits_from is_digit
digit_step v d s h = ground arith

pub decimal_from-small : (fuel n : ℕ) → ltb n 10 ≡ true → decimal_from (suc fuel) n ≡ (48 + n) ∷ []
unfolding decimal_from
decimal_from-small fuel n h = rw (h, decimal_from) refl

pub decimal_from-large :
    (fuel n : ℕ)
    → ltb n 10 ≡ false
    → decimal_from (suc fuel) n ≡ decimal_from fuel (n / 10) ++ (48 + n % 10) ∷ []
unfolding decimal_from
decimal_from-large fuel n h = rw (h, decimal_from) refl

below : (fuel n : ℕ) → n < suc fuel → ltb n 10 ≡ false → n / 10 < fuel
below fuel n h large = ground arith

digits_from-decimal_from :
    (fuel n : ℕ) (s : Text) → n < fuel → digits_from 0 (decimal_from fuel n ++ s) ≡ digits_from n s
digits_from-decimal_from zero n s h = absurd (omega (arith, h))
digits_from-decimal_from (suc fuel) n s h = elim (Bool-cases (ltb n 10)) [
  | inl small ↦
      ap (λ t. digits_from 0 (t ++ s)) (decimal_from-small fuel n small)
      ∙ digit_step 0 n s (ltb→lt n 10 small)
      ∙ ap (λ m. digits_from m s) (omega arith)
  | inr large ↦
      ap (λ t. digits_from 0 (t ++ s)) (decimal_from-large fuel n large)
      ∙ ap (digits_from 0) (append_assoc (decimal_from fuel (n / 10)) ((48 + n % 10) ∷ []) s)
      ∙ digits_from-decimal_from fuel (n / 10) ((48 + n % 10) ∷ s) (below fuel n h large)
      ∙ digit_step (n / 10) (n % 10) s (omega arith)
      ∙ ap (λ m. digits_from m s) (omega arith)
]

-- The first digit, which is zero for zero only.
record StartsDigits (n : ℕ) (t : Text) : Type 0 where
  first : ℕ
  later : Text
  split : t ≡ first ∷ later
  digit : is_digit first ≡ true
  leads : (n ≡ 0) ⊎ ((first == 48) ≡ false)

decimal_from-StartsDigits : (fuel n : ℕ) → n < fuel → StartsDigits n (decimal_from fuel n)
unfolding is_digit
decimal_from-StartsDigits zero n h = absurd (omega (arith, h))
decimal_from-StartsDigits (suc fuel) n h = elim (Bool-cases (ltb n 10)) [
  | inl small ↦ record {
    first = 48 + n;
    later = [];
    split = decimal_from-small fuel n small;
    digit = ground arith;
    leads = ground arith;
  }
  | inr large ↦
      let d = decimal_from-StartsDigits fuel (n / 10) (below fuel n h large) in
      record {
        first = d.first;
        later = d.later ++ (48 + n % 10) ∷ [];
        split = decimal_from-large fuel n large ∙ ap (λ t. t ++ (48 + n % 10) ∷ []) d.split;
        digit = d.digit;
        leads = ground (arith, d.leads);
      }
]

digits_from-decimal :
    (n : ℕ) (rest : Text) → is_end rest ≡ true → digits_from 0 (decimal n ++ rest) ≡ (n, rest)
unfolding decimal
digits_from-decimal n rest h =
    digits_from-decimal_from (suc n) n rest (omega arith) ∙ digits_from-end n rest h

-- Digits that read as a number, the first of which leads, are a literal of it.
natural-digits :
    (n first : ℕ) (later rest : Text)
    → is_digit first ≡ true
    → (first == 48) ≡ false
    → is_fraction rest ≡ false
    → digits_from 0 (first ∷ later) ≡ (n, rest)
    → natural (first ∷ later) ≡ some (n, rest)
unfolding natural
natural-digits n first later rest digit leads whole read =
    ap
      (λ b.
        if b
        then (if is_fraction later then none else some (0, later))
        else (if is_digit first
            then (let (v, r) = digits_from 0 (first ∷ later) in
                if is_fraction r then none else some (v, r))
            else none))
      leads
    ∙ ap
        (λ b.
          if b
          then (let (v, r) = digits_from 0 (first ∷ later) in
              if is_fraction r then none else some (v, r))
          else none)
        digit
    ∙ ap (λ vr. if is_fraction vr.1 then none else some (vr.0, vr.1)) read
    ∙ ap (λ b. if b then none else some (n, rest)) whole

natural-zero : (rest : Text) → is_end rest ≡ true → natural (decimal 0 ++ rest) ≡ some (0, rest)
unfolding natural decimal decimal_from
natural-zero rest h = ap (λ b. if b then none else some (0, rest)) (is_fraction-end rest h)

natural-decimal :
    (n : ℕ) (rest : Text) → is_end rest ≡ true → natural (decimal n ++ rest) ≡ some (n, rest)
unfolding decimal decimal_from
natural-decimal n rest h =
    let d = decimal_from-StartsDigits (suc n) n (omega arith) in
    elim d.leads as (λ _. natural (decimal n ++ rest) ≡ some (n, rest)) [
      | inl nothing ↦
          ap (λ m. natural (decimal m ++ rest)) nothing
          ∙ natural-zero rest h
          ∙ ap (λ m. some (m, rest)) (sym nothing)
      | inr leads ↦
          let opened : decimal n ++ rest ≡ d.first ∷ (d.later ++ rest) =
            ap (λ t. t ++ rest) d.split in
          ap natural opened
          ∙ natural-digits n d.first (d.later ++ rest) rest d.digit leads (is_fraction-end rest h)
              (ap (digits_from 0) (sym opened) ∙ digits_from-decimal n rest h)
    ]

-- A written integer starts with a digit or a minus sign.
pub record StartsInteger (t : Text) : Type 0 where
  pub first : ℕ
  pub later : Text
  pub split : t ≡ first ∷ later
  pub sign : (is_digit first || first == 45) ≡ true

pub print_int-StartsInteger : (z : ℤ) → StartsInteger (print_int z)
unfolding print_int decimal is_digit
print_int-StartsInteger (pos n) =
    let d = decimal_from-StartsDigits (suc n) n (omega arith) in
    record { first = d.first; later = d.later; split = d.split; sign = ground (arith, d.digit) }
print_int-StartsInteger (negsuc n) = record {
  first = 45;
  later = decimal (suc n);
  split = refl;
  sign = refl;
}

no_minus : (first : ℕ) → is_digit first ≡ true → (first == 45) ≡ false
unfolding is_digit
no_minus first h = ground arith

pub parse_number-print_int :
    (z : ℤ) (rest : Text)
    → is_end rest ≡ true
    → parse_number (print_int z ++ rest) ≡ some (number (int z), rest)
unfolding print_int parse_number
parse_number-print_int (pos n) rest h =
    let d = decimal_from-StartsDigits (suc n) n (omega arith) in
    let opened : decimal n ++ rest ≡ d.first ∷ (d.later ++ rest) =
      unfold decimal in ap (λ t. t ++ rest) d.split in
    ap parse_number opened
    ∙ ap
        (λ b.
          if b
          then Option.map (λ r. (number (int (negate r.0)), r.1)) (natural (d.later ++ rest))
          else Option.map (λ r. (number (nat r.0), r.1)) (natural (d.first ∷ (d.later ++ rest))))
        (no_minus d.first d.digit)
    ∙ ap (λ t. Option.map (λ r. (number (nat r.0), r.1)) (natural t)) (sym opened)
    ∙ ap (Option.map (λ r. (number (nat r.0), r.1))) (natural-decimal n rest h)
parse_number-print_int (negsuc n) rest h =
    ap (Option.map (λ r. (number (int (negate r.0)), r.1))) (natural-decimal (suc n) rest h)
