-- ===== src/Crypto.antt =====
-- The crypto primitives, apps/preview/src/lib/vor/crypto.ts. `btoa` and `atob` are those of the
-- HTML standard, over bytes. The packages @noble/ed25519 and @noble/hashes are parameters.
pub mod Base64
use vor.Common.{
  ℕ, zero, suc, ◌+◌, ◌-◌, ◌*◌, ◌/◌, ◌%◌, Bool, true, false, ◌&&◌, ◌||◌, not, Option, none, some,
  List, [], ◌∷◌, ◌++◌, map, ltb, leb, ◌==◌, if◌then◌else◌, length, take, drop, replicate, filter,
  Text, trim, Bytes,
}

-- What the code calls of @noble/ed25519 and @noble/hashes. `hex_to_bytes` may throw.
pub record Noble : Type 0 where
  pub sha256 : Bytes → Bytes
  pub bytes_to_hex : Bytes → Text
  pub hex_to_bytes : Text → Option Bytes
  pub public_key : Bytes → Bytes
  pub sign : Bytes → Bytes → Bytes
  pub verify : Bytes → Bytes → Bytes → Bool

module _ (n : Noble) where
  unfoldable pub to_hex : Bytes → Text
  to_hex bytes = n.bytes_to_hex bytes

  unfoldable pub from_hex : Text → Option Bytes
  from_hex hex = n.hex_to_bytes (trim hex)

  unfoldable pub sha256_hex : Bytes → Text
  unfolding to_hex
  sha256_hex bytes = to_hex (n.sha256 bytes)

-- The base64 digit of a value below 64, and back.
unfoldable pub b64_digit : ℕ → ℕ
b64_digit v =
    if ltb v 26
    then 65 + v
    else if ltb v 52
    then 71 + v
    else if ltb v 62
    then v - 4
    else if v == 62
    then 43
    else 47

unfoldable pub b64_value : ℕ → Option ℕ
b64_value c =
    if leb 65 c && leb c 90
    then some (c - 65)
    else if leb 97 c && leb c 122
    then some (c - 71)
    else if leb 48 c && leb c 57
    then some (c + 4)
    else if c == 43
    then some 62
    else if c == 47
    then some 63
    else none

-- `btoa`
unfoldable pub btoa : Bytes → Text
unfolding b64_digit
btoa [] = []
btoa (a ∷ []) = b64_digit (a / 4) ∷ b64_digit (a % 4 * 16) ∷ 61 ∷ 61 ∷ []
btoa (a ∷ b ∷ []) =
    b64_digit (a / 4) ∷ b64_digit (a % 4 * 16 + b / 16) ∷ b64_digit (b % 16 * 4) ∷ 61 ∷ []
btoa (a ∷ b ∷ c ∷ bs) =
    b64_digit (a / 4)
    ∷ b64_digit (a % 4 * 16 + b / 16)
    ∷ b64_digit (b % 16 * 4 + c / 64)
    ∷ b64_digit (c % 64)
    ∷ btoa bs

-- ASCII white space, which `atob` drops.
abbrev pub is_ascii_white : ℕ → Bool
is_ascii_white c = c == 9 || c == 10 || c == 12 || c == 13 || c == 32

-- Drops one or two equals signs at the end.
unfoldable pub unpad : Text → Text
unpad [] = []
unpad (c ∷ []) = if c == 61 then [] else c ∷ []
unpad (c ∷ d ∷ []) = if d == 61 then (if c == 61 then [] else c ∷ []) else c ∷ d ∷ []
unpad (c ∷ d ∷ e ∷ s) = c ∷ unpad (d ∷ e ∷ s)

abbrev pub value_cons : Option ℕ → Option (List ℕ) → Option (List ℕ)
value_cons none vs = none
value_cons (some v) none = none
value_cons (some v) (some vs) = some (v ∷ vs)

unfoldable pub b64_values : Text → Option (List ℕ)
unfolding b64_value
b64_values [] = some []
b64_values (c ∷ s) = value_cons (b64_value c) (b64_values s)

-- The bytes of groups of four values; the bits left over are dropped.
unfoldable pub b64_bytes : List ℕ → Bytes
b64_bytes (a ∷ b ∷ c ∷ d ∷ vs) =
    (a * 4 + b / 16) ∷ (b % 16 * 16 + c / 4) ∷ (c % 4 * 64 + d) ∷ b64_bytes vs
b64_bytes (a ∷ b ∷ c ∷ []) = (a * 4 + b / 16) ∷ (b % 16 * 16 + c / 4) ∷ []
b64_bytes (a ∷ b ∷ []) = (a * 4 + b / 16) ∷ []
b64_bytes _ = []

abbrev pub atob_values : Option (List ℕ) → Option Bytes
atob_values none = none
atob_values (some vs) = some (b64_bytes vs)

-- `atob`; `none` is its exception
unfoldable pub atob : Text → Option Bytes
unfolding unpad b64_values b64_bytes
atob s =
    let clean = filter (λ c. not (is_ascii_white c)) s in
    let body = if length clean % 4 == 0 then unpad clean else clean in
    if length body % 4 == 1 then none else atob_values (b64_values body)

-- `replace(/\+/g, '-').replace(/\//g, '_')`, and back
unfoldable pub url_unit : ℕ → ℕ
url_unit c = if c == 43 then 45 else if c == 47 then 95 else c

unfoldable pub std_unit : ℕ → ℕ
std_unit c = if c == 45 then 43 else if c == 95 then 47 else c

-- `replace(/=+$/, '')`
abbrev pub keep_pad : ℕ → Text → Text
keep_pad c [] = if c == 61 then [] else c ∷ []
keep_pad c (d ∷ t) = c ∷ d ∷ t

unfoldable pub strip_pad : Text → Text
strip_pad [] = []
strip_pad (c ∷ s) = keep_pad c (strip_pad s)

unfoldable pub b64url_encode : Bytes → Text
unfolding btoa url_unit strip_pad
b64url_encode bytes = strip_pad (map url_unit (btoa bytes))

-- `while (clean.length % 4 !== 0) clean += '='`: three rounds at most
unfoldable pub pad_loop : ℕ → Text → Text
pad_loop zero t = t
pad_loop (suc fuel) t = elim (length t % 4 == 0) [ true ↦ t | false ↦ pad_loop fuel (t ++ 61 ∷ []) ]

unfoldable pub b64url_decode : Text → Option Bytes
unfolding std_unit pad_loop atob
b64url_decode s = atob (pad_loop 4 (map std_unit (trim s)))

abbrev pub or_else : Option Bytes → Option Bytes → Option Bytes
or_else none later = later
or_else (some b) later = some b

-- `v + '='.repeat((4 - (v.length % 4)) % 4)`
abbrev pub padded : Text → Text
padded v = v ++ replicate ((4 - length v % 4) % 4) 61

unfoldable pub b64_decode_forgiving : Text → Option Bytes
unfolding atob std_unit
b64_decode_forgiving s =
    let cleaned = filter (λ c. not (c == 10 || c == 13 || c == 32)) (trim s) in
    or_else (atob (padded cleaned)) (atob (padded (map std_unit cleaned)))

-- `slice(from, to)` on a text
abbrev pub slice : ℕ → ℕ → Text → Text
slice from to s = take (to - from) (drop from s)

-- The two bytes that mark a version 4 UUID; a byte out of place leaves the list as it is.
abbrev pub mark_uuid : Bytes → Bytes
mark_uuid (b0 ∷ b1 ∷ b2 ∷ b3 ∷ b4 ∷ b5 ∷ b6 ∷ b7 ∷ b8 ∷ bs) =
    b0 ∷ b1 ∷ b2 ∷ b3 ∷ b4 ∷ b5 ∷ (b6 % 16 + 0x40) ∷ b7 ∷ (b8 % 64 + 0x80) ∷ bs
mark_uuid bs = bs

-- `newUuidV4` of sixteen random bytes
unfoldable pub new_uuid_v4 : Noble → Bytes → Text
unfolding to_hex
new_uuid_v4 n random =
    let hex = to_hex n (mark_uuid random) in
    slice 0 8 hex
    ++ (45
        ∷ (slice 8 12 hex
            ++ (45 ∷ (slice 12 16 hex ++ (45 ∷ (slice 16 20 hex ++ (45 ∷ slice 20 32 hex)))))))

-- `randomHex` of the random bytes
unfoldable pub random_hex : Noble → Bytes → Text
unfolding to_hex
random_hex n random = to_hex n random
