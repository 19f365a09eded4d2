-- ===== src/Crypto/Base64/Digits.antt =====
-- Bytes as values of six bits, and those as the digits of base64.
use vor.Common.{
  ℕ, ◌+◌, ◌*◌, ◌/◌, ◌%◌, ◌<◌, ◌≡◌, refl, false, some, List, [], ◌∷◌, ◌++◌, map, arith, All, ◌==◌,
  Text, is_white, trim, trim_end, Bytes,
}
use vor.Crypto.{
  b64_digit, b64_value, btoa, is_ascii_white, b64_values, b64_bytes, url_unit, std_unit, strip_pad,
}

-- The values of six bits that the bytes are cut into, and the padding after their digits.
unfoldable pub sextets : Bytes → List ℕ
sextets [] = []
sextets (a ∷ []) = (a / 4) ∷ (a % 4 * 16) ∷ []
sextets (a ∷ b ∷ []) = (a / 4) ∷ (a % 4 * 16 + b / 16) ∷ (b % 16 * 4) ∷ []
sextets (a ∷ b ∷ c ∷ bs) =
    (a / 4) ∷ (a % 4 * 16 + b / 16) ∷ (b % 16 * 4 + c / 64) ∷ (c % 64) ∷ sextets bs

unfoldable pub pads : Bytes → Text
pads [] = []
pads (a ∷ []) = 61 ∷ 61 ∷ []
pads (a ∷ b ∷ []) = 61 ∷ []
pads (a ∷ b ∷ c ∷ bs) = pads bs

abbrev pub digits : List ℕ → Text
digits vs = map b64_digit vs

abbrev pub IsByte : ℕ → Type 0
IsByte b = b < 256

abbrev pub IsSextet : ℕ → Type 0
IsSextet v = v < 64

pub btoa-sextets : (bs : Bytes) → btoa bs ≡ digits (sextets bs) ++ pads bs
unfolding btoa sextets pads
btoa-sextets [] = refl
btoa-sextets (a ∷ []) = refl
btoa-sextets (a ∷ b ∷ []) = refl
btoa-sextets (a ∷ b ∷ c ∷ bs) = rw (btoa-sextets bs)

pub sextets-All : (bs : Bytes) → All IsByte bs → All IsSextet (sextets bs)
unfolding sextets
sextets-All [] h = tt
sextets-All (a ∷ []) (p, h) = (omega arith, (omega arith, tt))
sextets-All (a ∷ b ∷ []) (p, (q, h)) = (omega arith, (omega arith, (omega arith, tt)))
sextets-All (a ∷ b ∷ c ∷ bs) (p, (q, (r, h))) =
    (omega arith, (omega arith, (omega arith, (omega arith, sextets-All bs h))))

pub b64_bytes-sextets : (bs : Bytes) → All IsByte bs → b64_bytes (sextets bs) ≡ bs
unfolding b64_bytes sextets
b64_bytes-sextets [] h = refl
b64_bytes-sextets (a ∷ []) (p, h) =
    let first : a / 4 * 4 + a % 4 * 16 / 16 ≡ a = omega arith in rw first
b64_bytes-sextets (a ∷ b ∷ []) (p, (q, h)) =
    let first : a / 4 * 4 + (a % 4 * 16 + b / 16) / 16 ≡ a = omega arith in
    let second : (a % 4 * 16 + b / 16) % 16 * 16 + b % 16 * 4 / 4 ≡ b = omega arith in
    rw (first, second)
b64_bytes-sextets (a ∷ b ∷ c ∷ bs) (p, (q, (r, h))) =
    let first : a / 4 * 4 + (a % 4 * 16 + b / 16) / 16 ≡ a = omega arith in
    let second : (a % 4 * 16 + b / 16) % 16 * 16 + (b % 16 * 4 + c / 64) / 4 ≡ b = omega arith in
    let third : (b % 16 * 4 + c / 64) % 4 * 64 + c % 64 ≡ c = omega arith in
    rw (first, second, third, b64_bytes-sextets bs h)

pub b64_value-b64_digit : (v : ℕ) → v < 64 → b64_value (b64_digit v) ≡ some v
unfolding b64_value b64_digit
b64_value-b64_digit v h = ground arith

pub b64_values-digits : (vs : List ℕ) → All IsSextet vs → b64_values (digits vs) ≡ some vs
unfolding b64_values
b64_values-digits [] h = refl
b64_values-digits (v ∷ vs) (p, h) = rw (b64_value-b64_digit v p, b64_values-digits vs h)

-- A digit is neither padding nor white space, and the url alphabet translates back.
pub digit_not_pad : (v : ℕ) → v < 64 → (b64_digit v == 61) ≡ false
unfolding b64_digit
digit_not_pad v h = ground arith

pub url_not_pad : (v : ℕ) → v < 64 → (url_unit (b64_digit v) == 61) ≡ false
unfolding b64_digit url_unit
url_not_pad v h = ground arith

pub url_not_white : (v : ℕ) → v < 64 → is_white (url_unit (b64_digit v)) ≡ false
unfolding b64_digit url_unit is_white
url_not_white v h = ground arith

pub digit_not_white : (v : ℕ) → v < 64 → is_ascii_white (b64_digit v) ≡ false
unfolding b64_digit
digit_not_white v h = ground arith

pub std_unit-url_unit : (v : ℕ) → v < 64 → std_unit (url_unit (b64_digit v)) ≡ b64_digit v
unfolding b64_digit url_unit std_unit
std_unit-url_unit v h = ground arith

pub std_unit-digits :
    (vs : List ℕ) → All IsSextet vs → map std_unit (map url_unit (digits vs)) ≡ digits vs
std_unit-digits [] h = refl
std_unit-digits (v ∷ vs) (p, h) = rw (std_unit-url_unit v p, std_unit-digits vs h)

pub strip_pad-digits :
    (vs : List ℕ) (padding : Text)
    → All IsSextet vs
    → strip_pad (map url_unit padding) ≡ []
    → strip_pad (map url_unit (digits vs ++ padding)) ≡ map url_unit (digits vs)
unfolding strip_pad
strip_pad-digits [] padding h e = e
strip_pad-digits (v ∷ []) padding (p, h) e = rw (e, url_not_pad v p)
strip_pad-digits (v ∷ w ∷ vs) padding (p, h) e = rw (strip_pad-digits (w ∷ vs) padding h e)

pub trim_end-digits :
    (vs : List ℕ) → All IsSextet vs → trim_end (map url_unit (digits vs)) ≡ map url_unit (digits vs)
unfolding trim_end
trim_end-digits [] h = refl
trim_end-digits (v ∷ []) (p, h) = rw (url_not_white v p)
trim_end-digits (v ∷ w ∷ vs) (p, h) = rw (trim_end-digits (w ∷ vs) h)

pub trim-digits :
    (vs : List ℕ) → All IsSextet vs → trim (map url_unit (digits vs)) ≡ map url_unit (digits vs)
unfolding trim
trim-digits [] h = refl
trim-digits (v ∷ vs) (p, h) = rw (trim_end-digits (v ∷ vs) (p, h), url_not_white v p)
