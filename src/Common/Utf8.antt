-- ===== src/Common/Utf8.antt =====
-- `TextEncoder` and `TextDecoder` over UTF-16 code units. A lone surrogate is encoded as U+FFFD; the
-- decoder is the state machine of the Encoding standard.
use Prim.Native.Nat.{ℕ, ◌+◌, ◌-◌, ◌*◌, ◌/◌, ◌%◌}
use mathlib.Core.Bool.{Bool, true, false, ◌&&◌}
use mathlib.Core.Option
use mathlib.Core.Option.{Option, none, some}
use mathlib.Core.List.{List, [], ◌∷◌, ◌++◌}
use vor.Common.Tests.{ltb, leb, ◌==◌, if◌then◌else◌}
use vor.Common.Strings.{Text}

abbrev pub Bytes : Type 0
Bytes = List ℕ

unfoldable pub is_high : ℕ → Bool
is_high c = leb 0xd800 c && leb c 0xdbff

unfoldable pub is_low : ℕ → Bool
is_low c = leb 0xdc00 c && leb c 0xdfff

-- The bytes of a code point below U+10000.
unfoldable pub unit_bytes : ℕ → Bytes
unit_bytes c =
    if ltb c 0x80
    then c ∷ []
    else if ltb c 0x800
    then (0xc0 + c / 64) ∷ (0x80 + c % 64) ∷ []
    else (0xe0 + c / 4096) ∷ (0x80 + c / 64 % 64) ∷ (0x80 + c % 64) ∷ []

abbrev pub pair_point : ℕ → ℕ → ℕ
pair_point h l = 0x10000 + (h - 0xd800) * 1024 + (l - 0xdc00)

unfoldable pub pair_bytes : ℕ → ℕ → Bytes
pair_bytes h l =
    (0xf0 + pair_point h l / 262144)
    ∷ (0x80 + pair_point h l / 4096 % 64)
    ∷ (0x80 + pair_point h l / 64 % 64)
    ∷ (0x80 + pair_point h l % 64)
    ∷ []

abbrev pub replacement : Bytes
replacement = 0xef ∷ 0xbf ∷ 0xbd ∷ []

-- The bytes that a unit completes, after a high surrogate or not.
unfoldable pub emit_bytes : Option ℕ → ℕ → Bytes
unfolding is_high is_low unit_bytes pair_bytes
emit_bytes none c = if is_high c then [] else if is_low c then replacement else unit_bytes c
emit_bytes (some h) c =
    if is_low c then pair_bytes h c else replacement ++ (if is_high c then [] else unit_bytes c)

abbrev pub pending : ℕ → Option ℕ
pending c = if is_high c then some c else none

unfoldable pub utf8_from : Option ℕ → Text → Bytes
unfolding emit_bytes is_high
utf8_from none [] = []
utf8_from (some h) [] = replacement
utf8_from p (c ∷ s) = emit_bytes p c ++ utf8_from (pending c) s

-- `new TextEncoder().encode(s)`
unfoldable pub utf8 : Text → Bytes
unfolding utf8_from
utf8 s = utf8_from none s

-- The decoder between two bytes: what is still needed, the bits so far, the range of the next.
pub record Decoder : Type 0 where
  pub needed : ℕ
  pub point : ℕ
  pub low : ℕ
  pub high : ℕ

abbrev pub fresh : Decoder
fresh = record { needed = 0; point = 0; low = 0x80; high = 0xbf }

-- The code units of a code point.
unfoldable pub units : ℕ → Text
units p =
    if ltb p 0x10000
    then p ∷ []
    else (0xd800 + (p - 0x10000) / 1024) ∷ (0xdc00 + (p - 0x10000) % 1024) ∷ []

pub data Decoded : Type 0 where
  invalid : Decoded
  more : Decoder → Text → Decoded

unfoldable pub decode_first : ℕ → Decoded
decode_first b =
    if ltb b 0x80
    then more fresh (b ∷ [])
    else if leb 0xc2 b && leb b 0xdf
    then more (record fresh { needed = 1; point = b - 0xc0 }) []
    else if leb 0xe0 b && leb b 0xef
    then more
        (record {
          needed = 2;
          point = b - 0xe0;
          low = if b == 0xe0 then 0xa0 else 0x80;
          high = if b == 0xed then 0x9f else 0xbf;
        })
        []
    else if leb 0xf0 b && leb b 0xf4
    then more
        (record {
          needed = 3;
          point = b - 0xf0;
          low = if b == 0xf0 then 0x90 else 0x80;
          high = if b == 0xf4 then 0x8f else 0xbf;
        })
        []
    else invalid

unfoldable pub decode_next : Decoder → ℕ → Decoded
unfolding units
decode_next d b =
    let point = d.point * 64 + (b - 0x80) in
    if leb d.low b && leb b d.high
    then (if d.needed == 1
        then more fresh (units point)
        else more (record fresh { needed = d.needed - 1; point = point }) [])
    else invalid

unfoldable pub decode_byte : Decoder → ℕ → Decoded
unfolding decode_first decode_next
decode_byte d b = if d.needed == 0 then decode_first b else decode_next d b

unfoldable pub decode_from : Decoder → Bytes → Option Text
unfolding decode_byte
decode_from d [] = if d.needed == 0 then some [] else none
decode_from d (b ∷ bs) = elim (decode_byte d b) [
  | invalid ↦ none
  | more d' out ↦ Option.map (λ rest. out ++ rest) (decode_from d' bs)
]

-- A leading byte order mark is dropped.
abbrev pub strip_bom : Text → Text
strip_bom [] = []
strip_bom (c ∷ s) = if c == 0xfeff then s else c ∷ s

-- `new TextDecoder('utf-8', { fatal: true }).decode(bytes)`; `none` is the exception
unfoldable pub decode_fatal : Bytes → Option Text
unfolding decode_from
decode_fatal bs = Option.map strip_bom (decode_from fresh bs)

-- `new TextDecoder().decode(bytes)`: an error gives U+FFFD, and a byte that breaks a sequence off is
-- read again.
unfoldable pub decode_lossy_from : Decoder → Bytes → Text
unfolding decode_byte decode_first
decode_lossy_from d [] = if d.needed == 0 then [] else 0xfffd ∷ []
decode_lossy_from d (b ∷ bs) = elim (decode_byte d b) [
  | more d' out ↦ out ++ decode_lossy_from d' bs
  | invalid ↦ elim (d.needed == 0) [
    | true ↦ 0xfffd ∷ decode_lossy_from fresh bs
    | false ↦ elim (decode_first b) [
      | more d' out ↦ 0xfffd ∷ (out ++ decode_lossy_from d' bs)
      | invalid ↦ 0xfffd ∷ (0xfffd ∷ decode_lossy_from fresh bs)
    ]
  ]
]

unfoldable pub decode_lossy : Bytes → Text
unfolding decode_lossy_from
decode_lossy bs = strip_bom (decode_lossy_from fresh bs)
