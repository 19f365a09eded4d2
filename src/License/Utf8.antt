-- ===== src/License/Utf8.antt =====
-- The payload bytes decode to the payload text.
use vor.Common.{
  ℕ, ◌+◌, ◌-◌, ◌*◌, ◌/◌, ◌%◌, ◌≤◌, ◌<◌, ◌≡◌, refl, ◌∙◌, ap, inl, inr, ◌≢◌, true, false, ◌&&◌,
  Option, none, some, [], ◌∷◌, ◌++◌, arith, All, All-append, ltb, leb, ◌==◌, if◌then◌else◌,
  Bool-cases, Text, Bytes, is_high, is_low, unit_bytes, emit_bytes, utf8_from, utf8, Decoder, fresh,
  units, more, decode_first, decode_next, decode_byte, decode_from, decode_fatal,
}
use mathlib.Core.Option
use vor.Canonical.Quote.{IsBasic, pending_of_basic}

decode_step :
    (d d' : Decoder) (b : ℕ) (bs : Bytes) (out : Text)
    → decode_byte d b ≡ more d' out
    → decode_from d (b ∷ bs) ≡ Option.map (λ rest. out ++ rest) (decode_from d' bs)
unfolding decode_from
decode_step d d' b bs out e = rw (e, decode_from)

map-nothing : (o : Option Text) → Option.map (λ rest. [] ++ rest) o ≡ o
map-nothing none = refl
map-nothing (some t) = refl

-- A byte that starts or continues a sequence.
decode_silent :
    (d d' : Decoder) (b : ℕ) (bs : Bytes)
    → decode_byte d b ≡ more d' []
    → decode_from d (b ∷ bs) ≡ decode_from d' bs
decode_silent d d' b bs e = decode_step d d' b bs [] e ∙ map-nothing (decode_from d' bs)

abbrev after_two : ℕ → Decoder
after_two c = record fresh { needed = 1; point = 0xc0 + c / 64 - 0xc0 }

first_of_one : (c : ℕ) → c < 128 → decode_byte fresh c ≡ more fresh (c ∷ [])
unfolding decode_byte decode_first
first_of_one c h = ground arith

first_of_two :
    (c : ℕ) → 128 ≤ c → c < 2048 → decode_byte fresh (0xc0 + c / 64) ≡ more (after_two c) []
unfolding decode_byte decode_first
first_of_two c h k = ground arith

second_of_two :
    (c : ℕ) → 128 ≤ c → c < 2048 → decode_byte (after_two c) (0x80 + c % 64) ≡ more fresh (c ∷ [])
unfolding decode_byte decode_next units
second_of_two c h k =
    let whole : (0xc0 + c / 64 - 0xc0) * 64 + (0x80 + c % 64 - 0x80) ≡ c = omega arith in
    rw whole (ground arith)

-- The decoder after the first byte of three.
abbrev after_three : ℕ → Decoder
after_three c = record {
  needed = 2;
  point = 0xe0 + c / 4096 - 0xe0;
  low = if 0xe0 + c / 4096 == 0xe0 then 0xa0 else 0x80;
  high = if 0xe0 + c / 4096 == 0xed then 0x9f else 0xbf;
}

abbrev mid_three : ℕ → Decoder
mid_three c = record fresh {
  needed = 1;
  point = (0xe0 + c / 4096 - 0xe0) * 64 + (0x80 + c / 64 % 64 - 0x80);
}

first_of_three :
    (c : ℕ) → 2048 ≤ c → c < 0x10000 → decode_byte fresh (0xe0 + c / 4096) ≡ more (after_three c) []
unfolding decode_byte decode_first
first_of_three c h k =
    let low : ltb (0xe0 + c / 4096) 0x80 ≡ false = ground arith in
    let two : (leb 0xc2 (0xe0 + c / 4096) && leb (0xe0 + c / 4096) 0xdf) ≡ false = ground arith in
    let three : (leb 0xe0 (0xe0 + c / 4096) && leb (0xe0 + c / 4096) 0xef) ≡ true = ground arith in
    rw (low, two, three)

second_of_three :
    (c : ℕ)
    → 2048 ≤ c
    → c < 0x10000
    → IsBasic c
    → decode_byte (after_three c) (0x80 + c / 64 % 64) ≡ more (mid_three c) []
unfolding decode_byte decode_next
second_of_three c h k basic =
    let in_range : (leb (if 0xe0 + c / 4096 == 0xe0 then 0xa0 else 0x80) (0x80 + c / 64 % 64)
          && leb (0x80 + c / 64 % 64) (if 0xe0 + c / 4096 == 0xed then 0x9f else 0xbf))
        ≡ true =
      ground arith in
    rw in_range

third_of_three :
    (c : ℕ)
    → 2048 ≤ c
    → c < 0x10000
    → decode_byte (mid_three c) (0x80 + c % 64) ≡ more fresh (c ∷ [])
unfolding decode_byte decode_next units
third_of_three c h k =
    let whole : ((0xe0 + c / 4096 - 0xe0) * 64 + (0x80 + c / 64 % 64 - 0x80)) * 64
          + (0x80 + c % 64 - 0x80)
        ≡ c =
      omega arith in
    rw whole (ground arith)

decode-unit_bytes :
    (c : ℕ) (bs : Bytes)
    → IsBasic c
    → decode_from fresh (unit_bytes c ++ bs) ≡ Option.map (λ rest. c ∷ rest) (decode_from fresh bs)
unfolding unit_bytes
decode-unit_bytes c bs basic = elim (Bool-cases (ltb c 0x80)) [
  | inl short ↦ rw short (decode_step fresh fresh c bs (c ∷ []) (first_of_one c (ground arith)))
  | inr long ↦ elim (Bool-cases (ltb c 0x800)) [
    | inl two ↦
        rw (long, two)
          (decode_silent fresh (after_two c) (0xc0 + c / 64) _
              (first_of_two c (ground arith) (ground arith))
            ∙ decode_step (after_two c) fresh (0x80 + c % 64) bs (c ∷ [])
                (second_of_two c (ground arith) (ground arith)))
    | inr three ↦
        rw (long, three)
          (decode_silent fresh (after_three c) (0xe0 + c / 4096) _
              (first_of_three c (ground arith) (ground arith))
            ∙ (decode_silent (after_three c) (mid_three c) (0x80 + c / 64 % 64) _
                  (second_of_three c (ground arith) (ground arith) basic)
                ∙ decode_step (mid_three c) fresh (0x80 + c % 64) bs (c ∷ [])
                    (third_of_three c (ground arith) (ground arith))))
  ]
]

emit_of_basic : (c : ℕ) → IsBasic c → emit_bytes none c ≡ unit_bytes c
unfolding emit_bytes is_high is_low
emit_of_basic c h = ground arith

decode-utf8_from : (s : Text) → All IsBasic s → decode_from fresh (utf8_from none s) ≡ some s
unfolding utf8_from
decode-utf8_from [] h = unfold decode_from in refl
decode-utf8_from (c ∷ s) (p, h) =
    rw (emit_of_basic c p, pending_of_basic c p)
      (decode-unit_bytes c (utf8_from none s) p
        ∙ ap (λ o. Option.map (λ rest. c ∷ rest) o) (decode-utf8_from s h))

-- A text of the basic plane without surrogates that starts with no byte order mark is what its bytes
-- decode to.
pub decode_fatal-utf8 :
    (c : ℕ) (s : Text)
    → c ≢ 0xfeff
    → All IsBasic (c ∷ s)
    → decode_fatal (utf8 (c ∷ s)) ≡ some (c ∷ s)
unfolding decode_fatal utf8
decode_fatal-utf8 c s no_mark h = rw (decode-utf8_from (c ∷ s) h) (ground arith)

unit_bytes-All : (c : ℕ) → IsBasic c → All (λ b. b < 256) (unit_bytes c)
unfolding unit_bytes
unit_bytes-All c h = ground arith

utf8_from-All : (s : Text) → All IsBasic s → All (λ b. b < 256) (utf8_from none s)
unfolding utf8_from
utf8_from-All [] h = tt
utf8_from-All (c ∷ s) (p, h) =
    rw (emit_of_basic c p, pending_of_basic c p)
      (All-append (λ b. b < 256) (unit_bytes c) (utf8_from none s) (unit_bytes-All c p)
        (utf8_from-All s h))

pub utf8-All : (s : Text) → All IsBasic s → All (λ b. b < 256) (utf8 s)
unfolding utf8
utf8-All s h = utf8_from-All s h
