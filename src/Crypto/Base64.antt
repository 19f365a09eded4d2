-- ===== src/Crypto/Base64.antt =====
-- The base64url codec gives bytes back.
pub mod Digits
use vor.Common.{
  ℕ, suc, ◌+◌, ◌*◌, ◌/◌, ◌%◌, ◌<◌, ◌≡◌, ◌≢◌, refl, ◌∙◌, ap, false, not, some, List, [], ◌∷◌, ◌++◌,
  map, arith, All, length, length-append, filter, ◌==◌, Text, is_white, trim, trim_end, Bytes,
}
use mathlib.Core.List.{append_assoc, append-nil}
use vor.Crypto.{
  b64_digit, b64_value, btoa, is_ascii_white, unpad, b64_values, b64_bytes, atob, url_unit,
  std_unit, strip_pad, b64url_encode, pad_loop, b64url_decode,
}
use vor.Crypto.Base64.Digits.{
  sextets, pads, digits, IsByte, IsSextet, btoa-sextets, sextets-All, b64_bytes-sextets,
  b64_value-b64_digit, b64_values-digits, digit_not_pad, url_not_pad, url_not_white,
  digit_not_white, std_unit-url_unit, std_unit-digits, strip_pad-digits, trim_end-digits,
  trim-digits,
}

-- The padding of a text: none, one sign or two, as its length asks.
data Fits (t : Text) : Text → Type 0 where
  whole : length t % 4 ≡ 0 → Fits t []
  one : length t % 4 ≡ 3 → Fits t (61 ∷ [])
  two : length t % 4 ≡ 2 → Fits t (61 ∷ 61 ∷ [])

Fits-cons : (c d e f : ℕ) {t padding : Text} → Fits t padding → Fits (c ∷ d ∷ e ∷ f ∷ t) padding
Fits-cons c d e f (whole h) = whole (omega (arith, h))
Fits-cons c d e f (one h) = one (omega (arith, h))
Fits-cons c d e f (two h) = two (omega (arith, h))

pads-Fits : (bs : Bytes) → Fits (digits (sextets bs)) (pads bs)
unfolding sextets pads
pads-Fits [] = whole refl
pads-Fits (a ∷ []) = two refl
pads-Fits (a ∷ b ∷ []) = one refl
pads-Fits (a ∷ b ∷ c ∷ bs) = Fits-cons _ _ _ _ (pads-Fits bs)

pad_loop-round :
    (fuel : ℕ) (t : Text) (n : ℕ)
    → length t % 4 ≡ suc n
    → pad_loop (suc fuel) t ≡ pad_loop fuel (t ++ 61 ∷ [])
unfolding pad_loop
pad_loop-round fuel t n h =
    let short : (length t % 4 == 0) ≡ false = ground arith in rw (short, pad_loop)

pad_loop-done : (fuel : ℕ) (t : Text) → length t % 4 ≡ 0 → pad_loop (suc fuel) t ≡ t
unfolding pad_loop
pad_loop-done fuel t h = rw (h, pad_loop)

pad_loop-Fits : (t padding : Text) → Fits t padding → pad_loop 4 t ≡ t ++ padding
pad_loop-Fits t padding (whole h) = rw (append-nil t) (pad_loop-done 3 t h)
pad_loop-Fits t padding (one h) =
    pad_loop-round 3 t 2 h
    ∙ pad_loop-done 2 (t ++ 61 ∷ []) (omega (arith, h, length-append t (61 ∷ [])))
pad_loop-Fits t padding (two h) =
    pad_loop-round 3 t 1 h
    ∙ (pad_loop-round 2 (t ++ 61 ∷ []) 2 (omega (arith, h, length-append t (61 ∷ [])))
        ∙ (ap (pad_loop 2) (append_assoc t (61 ∷ []) (61 ∷ []))
            ∙ pad_loop-done 1 (t ++ 61 ∷ 61 ∷ [])
                (omega (arith, h, length-append t (61 ∷ 61 ∷ [])))))

unpad-whole : (vs : List ℕ) → All IsSextet vs → unpad (digits vs) ≡ digits vs
unfolding unpad
unpad-whole [] h = refl
unpad-whole (v ∷ []) (p, h) = rw (digit_not_pad v p)
unpad-whole (v ∷ w ∷ []) (p, (q, h)) = rw (digit_not_pad w q)
unpad-whole (v ∷ w ∷ x ∷ vs) (p, h) = rw (unpad-whole (w ∷ x ∷ vs) h)

unpad-one : (vs : List ℕ) → All IsSextet vs → unpad (digits vs ++ 61 ∷ []) ≡ digits vs
unfolding unpad
unpad-one [] h = refl
unpad-one (v ∷ []) (p, h) = rw (digit_not_pad v p)
unpad-one (v ∷ w ∷ []) (p, h) = rw (unpad-one (w ∷ []) h)
unpad-one (v ∷ w ∷ x ∷ vs) (p, h) = rw (unpad-one (w ∷ x ∷ vs) h)

unpad-two : (vs : List ℕ) → All IsSextet vs → unpad (digits vs ++ 61 ∷ 61 ∷ []) ≡ digits vs
unfolding unpad
unpad-two [] h = refl
unpad-two (v ∷ []) (p, h) = refl
unpad-two (v ∷ w ∷ []) (p, h) = rw (unpad-two (w ∷ []) h)
unpad-two (v ∷ w ∷ x ∷ vs) (p, h) = rw (unpad-two (w ∷ x ∷ vs) h)

unpad-Fits :
    (vs : List ℕ) (padding : Text)
    → All IsSextet vs
    → Fits (digits vs) padding
    → unpad (digits vs ++ padding) ≡ digits vs
unpad-Fits vs padding h (whole k) = rw (append-nil (digits vs)) (unpad-whole vs h)
unpad-Fits vs padding h (one k) = unpad-one vs h
unpad-Fits vs padding h (two k) = unpad-two vs h

abbrev without_white : Text → Text
without_white s = filter (λ c. not (is_ascii_white c)) s

keep_padding : (t padding : Text) → Fits t padding → without_white padding ≡ padding
keep_padding t padding (whole h) = refl
keep_padding t padding (one h) = refl
keep_padding t padding (two h) = refl

keep_digits :
    (vs : List ℕ) (padding : Text)
    → All IsSextet vs
    → without_white padding ≡ padding
    → without_white (digits vs ++ padding) ≡ digits vs ++ padding
keep_digits [] padding k e = e
keep_digits (v ∷ vs) padding (p, k) e = rw (digit_not_white v p, keep_digits vs padding k e)

length_Fits : (t padding : Text) → Fits t padding → length (t ++ padding) % 4 ≡ 0
length_Fits t padding (whole h) = omega (arith, h, length-append t [])
length_Fits t padding (one h) = omega (arith, h, length-append t (61 ∷ []))
length_Fits t padding (two h) = omega (arith, h, length-append t (61 ∷ 61 ∷ []))

not_alone : (t padding : Text) → Fits t padding → (length t % 4 == 1) ≡ false
not_alone t padding (whole h) = rw h
not_alone t padding (one h) = rw h
not_alone t padding (two h) = rw h

atob-digits :
    (vs : List ℕ) (padding : Text)
    → All IsSextet vs
    → Fits (digits vs) padding
    → atob (digits vs ++ padding) ≡ some (b64_bytes vs)
unfolding atob
atob-digits vs padding h fits = rw (
  keep_digits vs padding h (keep_padding (digits vs) padding fits),
  length_Fits (digits vs) padding fits,
  unpad-Fits vs padding h fits,
  not_alone (digits vs) padding fits,
  b64_values-digits vs h,
)

strip_pad_of_Fits : (t padding : Text) → Fits t padding → strip_pad (map url_unit padding) ≡ []
unfolding strip_pad url_unit
strip_pad_of_Fits t padding (whole h) = refl
strip_pad_of_Fits t padding (one h) = refl
strip_pad_of_Fits t padding (two h) = refl

-- A unit of an encoded text is neither white space nor a full stop.
abbrev pub IsUrlUnit : ℕ → Type 0
IsUrlUnit c = (is_white c ≡ false) × (c ≢ 46)

url_not_stop : (v : ℕ) → v < 64 → url_unit (b64_digit v) ≢ 46
unfolding b64_digit url_unit
url_not_stop v h e = ground arith

digits-IsUrlUnit : (vs : List ℕ) → All IsSextet vs → All IsUrlUnit (map url_unit (digits vs))
digits-IsUrlUnit [] h = tt
digits-IsUrlUnit (v ∷ vs) (p, h) = ((url_not_white v p, url_not_stop v p), digits-IsUrlUnit vs h)

pub b64url_encode-IsUrlUnit :
    (bs : Bytes) → All (λ b. b < 256) bs → All IsUrlUnit (b64url_encode bs)
unfolding b64url_encode
b64url_encode-IsUrlUnit bs h =
    let ranged = sextets-All bs h in
    rw
      (
        btoa-sextets bs,
        strip_pad-digits (sextets bs) (pads bs) ranged
            (strip_pad_of_Fits (digits (sextets bs)) (pads bs) (pads-Fits bs)),
      )
      (digits-IsUrlUnit (sextets bs) ranged)

-- Decoding an encoded list of bytes gives the bytes back.
pub b64url_decode-b64url_encode :
    (bs : Bytes) → All (λ b. b < 256) bs → b64url_decode (b64url_encode bs) ≡ some bs
unfolding b64url_decode b64url_encode
b64url_decode-b64url_encode bs h =
    let vs = sextets bs in
    let ranged = sextets-All bs h in
    let fits = pads-Fits bs in
    rw (
      btoa-sextets bs,
      strip_pad-digits vs (pads bs) ranged (strip_pad_of_Fits (digits vs) (pads bs) fits),
      trim-digits vs ranged,
      std_unit-digits vs ranged,
      pad_loop-Fits (digits vs) (pads bs) fits,
      atob-digits vs (pads bs) ranged fits,
      b64_bytes-sextets bs h,
    )
