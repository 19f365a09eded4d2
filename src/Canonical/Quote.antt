-- ===== src/Canonical/Quote.antt =====
-- String literals: `JSON.parse` reads back what `JSON.stringify` writes.
use vor.Common.{
  ℕ, ◌+◌, ◌*◌, ◌/◌, ◌%◌, ◌<◌, ◌≡◌, refl, ◌⊎◌, inl, inr, false, Option, none, some, [], ◌∷◌, ◌++◌,
  arith, All, Text, ltb, ltb→lt, ◌==◌, if◌then◌else◌, ==_iff, Bool-cases, pending, is_high, is_low,
}
use mathlib.Core.List.{append_assoc}
use vor.Canonical.{hex_digit, unicode_escape, escape_unit, escape_emit, escape_from}
use vor.Canonical.Parse.{
  plain, hex_value, scan_hex, scan_escape, scan_unit, scan_string, prepend, go,
}

-- A unit of the basic plane that is no surrogate.
abbrev pub IsBasic : ℕ → Type 0
IsBasic c = (c < 0xd800) ⊎ ((0xdfff < c) × (c < 0x10000))

hex_value-hex_digit : (d : ℕ) → d < 16 → hex_value (hex_digit d) ≡ some d
unfolding hex_value
hex_value-hex_digit d h = ground arith

prepend_nil : (o : Option (Text × Text)) → prepend [] o ≡ o
prepend_nil none = refl
prepend_nil (some (s, r)) = refl

-- A control character, as `\u00XX`.
scan-unicode_escape :
    (c : ℕ) (r : Text)
    → c < 32
    → scan_string plain (unicode_escape c ++ r) ≡ prepend (c ∷ []) (scan_string plain r)
unfolding scan_string unicode_escape scan_hex
scan-unicode_escape c r h =
    rw
      (
        hex_value-hex_digit (c / 4096 % 16) (omega arith),
        hex_value-hex_digit (c / 256 % 16) (omega arith),
        hex_value-hex_digit (c / 16 % 16) (omega arith),
        hex_value-hex_digit (c % 16) (omega arith),
      )
      (let value : ((((0 + c / 4096 % 16) * 16 + c / 256 % 16) * 16 + c / 16 % 16) * 16 + c % 16)
            ≡ c =
          omega arith in
        rw value (simp prepend_nil))

scan_unit_plain :
    (c : ℕ)
    → (c == 34) ≡ false
    → (c == 92) ≡ false
    → ltb c 32 ≡ false
    → scan_unit plain c ≡ go plain (c ∷ [])
unfolding scan_unit
scan_unit_plain c quote slash control = rw (quote, slash, control)

-- A unit that needs no escape stands for itself.
scan_plain :
    (c : ℕ) (r : Text)
    → (c == 34) ≡ false
    → (c == 92) ≡ false
    → ltb c 32 ≡ false
    → scan_string plain (c ∷ r) ≡ prepend (c ∷ []) (scan_string plain r)
unfolding scan_string
scan_plain c r quote slash control = rw (scan_unit_plain c quote slash control, scan_string)

-- A two-unit escape.
short :
    (e c : ℕ) (r : Text)
    → scan_escape e ≡ go plain (c ∷ [])
    → scan_string plain (92 ∷ e ∷ r) ≡ prepend (c ∷ []) (scan_string plain r)
unfolding scan_string
short e c r h = rw (h, scan_unit) (prepend_nil _)

rest_units :
    (c : ℕ) (r : Text)
    → (c == 34) ≡ false
    → (c == 92) ≡ false
    → scan_string plain (
        (if c == 10
          then 92 ∷ 110 ∷ []
          else if c == 12
          then 92 ∷ 102 ∷ []
          else if c == 13
          then 92 ∷ 114 ∷ []
          else if ltb c 32
          then unicode_escape c
          else c ∷ [])
        ++ r)
      ≡ prepend (c ∷ []) (scan_string plain r)
unfolding scan_escape
rest_units c r quote slash = elim (Bool-cases (c == 10)) [
  | inl e ↦ rw ((==_iff c 10).0 e) (short 110 10 r refl)
  | inr n10 ↦ rw n10 (elim (Bool-cases (c == 12)) [
    | inl e ↦ rw ((==_iff c 12).0 e) (short 102 12 r refl)
    | inr n12 ↦ rw n12 (elim (Bool-cases (c == 13)) [
      | inl e ↦ rw ((==_iff c 13).0 e) (short 114 13 r refl)
      | inr n13 ↦ rw n13 (elim (Bool-cases (ltb c 32)) [
        | inl e ↦ rw e (scan-unicode_escape c r (ltb→lt c 32 e))
        | inr e ↦ rw e (scan_plain c r quote slash e)
      ])
    ])
  ])
]

scan-escape_unit :
    (c : ℕ) (r : Text)
    → scan_string plain (escape_unit c ++ r) ≡ prepend (c ∷ []) (scan_string plain r)
unfolding escape_unit scan_escape
scan-escape_unit c r = elim (Bool-cases (c == 34)) [
  | inl e ↦ rw ((==_iff c 34).0 e) (short 34 34 r refl)
  | inr quote ↦ rw quote (elim (Bool-cases (c == 92)) [
    | inl e ↦ rw ((==_iff c 92).0 e) (short 92 92 r refl)
    | inr slash ↦ rw slash (elim (Bool-cases (c == 8)) [
      | inl e ↦ rw ((==_iff c 8).0 e) (short 98 8 r refl)
      | inr n8 ↦ rw n8 (elim (Bool-cases (c == 9)) [
        | inl e ↦ rw ((==_iff c 9).0 e) (short 116 9 r refl)
        | inr n9 ↦ rw n9 (rest_units c r quote slash)
      ])
    ])
  ])
]

-- A basic unit is neither half of a pair.
pub escape_emit_of_basic : (c : ℕ) → IsBasic c → escape_emit none c ≡ escape_unit c
unfolding escape_emit is_high is_low
escape_emit_of_basic c h = ground arith

pub pending_of_basic : (c : ℕ) → IsBasic c → pending c ≡ none
unfolding is_high
pending_of_basic c h = ground arith

-- Reading a written literal gives the text back, and leaves what follows it.
pub scan-escape_from :
    (t rest : Text)
    → All IsBasic t
    → scan_string plain (escape_from none t ++ (34 ∷ rest)) ≡ some (t, rest)
unfolding escape_from
scan-escape_from [] rest h = unfold scan_string in refl
scan-escape_from (c ∷ t) rest (p, h) =
    rw (escape_emit_of_basic c p, pending_of_basic c p, append_assoc)
      (rw (scan-escape_unit c (escape_from none t ++ (34 ∷ rest)), scan-escape_from t rest h))
