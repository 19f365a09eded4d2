-- ===== src/License/Envelope.antt =====
-- The envelope codec gives the parts back.
use vor.Common.{
  ℕ, ◌<◌, ◌≡◌, refl, ◌≢◌, false, [], ◌∷◌, ◌++◌, arith, All, All-append, Text, is_white, trim,
  trim_end, keep_end, split, join, split-append, split_last, Lacks, text_eq_refl, Bytes, utf8,
}
use vor.Crypto.{b64url_encode}
use vor.Crypto.Base64.{IsUrlUnit, b64url_encode-IsUrlUnit, b64url_decode-b64url_encode}
use vor.Canonical.Quote.{IsBasic}
use vor.License.{envelope_prefix, envelope_encode, envelope_decode, envelope_fields, decode_parts}
use vor.License.Errors.{ok}
use vor.License.Utf8.{decode_fatal-utf8, utf8-All}

abbrev pub IsVisible : ℕ → Type 0
IsVisible c = is_white c ≡ false

visible : (t : Text) → All IsUrlUnit t → All IsVisible t
visible [] h = tt
visible (c ∷ t) ((p, q), h) = (p, visible t h)

stopless : (t : Text) → All IsUrlUnit t → Lacks 46 t
stopless [] h = tt
stopless (c ∷ t) ((p, q), h) = (q, stopless t h)

trim_end-visible : (t : Text) → All IsVisible t → trim_end t ≡ t
unfolding trim_end keep_end
trim_end-visible [] h = refl
trim_end-visible (c ∷ []) (p, h) = rw p
trim_end-visible (c ∷ d ∷ t) (p, h) = rw (trim_end-visible (d ∷ t) h)

pub trim-visible : (t : Text) → All IsVisible t → trim t ≡ t
unfolding trim
trim-visible [] h = unfold trim_end in refl
trim-visible (c ∷ t) (p, h) = rw (trim_end-visible (c ∷ t) (p, h), p)

stop : is_white 46 ≡ false
unfolding is_white
stop = refl

-- Four fields between full stops, none of which has one or white space.
fields-IsVisible :
    (a b c d : Text)
    → All IsVisible a
    → All IsVisible b
    → All IsVisible c
    → All IsVisible d
    → All IsVisible (a ++ (46 ∷ (b ++ (46 ∷ (c ++ (46 ∷ d))))))
fields-IsVisible a b c d ha hb hc hd =
    All-append IsVisible a _ ha
      (stop, All-append IsVisible b _ hb (stop, All-append IsVisible c _ hc (stop, hd)))

split_fields :
    (a b c d : Text)
    → Lacks 46 a
    → Lacks 46 b
    → Lacks 46 c
    → Lacks 46 d
    → split 46 (a ++ (46 ∷ (b ++ (46 ∷ (c ++ (46 ∷ d)))))) ≡ a ∷ b ∷ c ∷ d ∷ []
split_fields a b c d ha hb hc hd = rw (
  split-append 46 a (b ++ (46 ∷ (c ++ (46 ∷ d)))) ha,
  split-append 46 b (c ++ (46 ∷ d)) hb,
  split-append 46 c d hc,
  split_last 46 d hd,
)

prefix-IsVisible : All IsVisible envelope_prefix
unfolding is_white
prefix-IsVisible = (refl, (refl, (refl, (refl, (refl, (refl, (refl, tt)))))))

prefix_stopless : Lacks 46 envelope_prefix
prefix_stopless = ground arith

-- Decoding an encoded envelope gives its three parts back, for bytes, and for a payload text of the
-- basic plane without surrogates that does not start with a byte order mark.
pub envelope_decode-envelope_encode :
    (c : ℕ) (payload : Text) (sig pk : Bytes)
    → c ≢ 0xfeff
    → All IsBasic (c ∷ payload)
    → All (λ b. b < 256) sig
    → All (λ b. b < 256) pk
    → envelope_decode (envelope_encode (c ∷ payload) sig pk)
      ≡ ok (record { payload_json = c ∷ payload; sig = sig; pk = pk })
unfolding envelope_decode envelope_encode envelope_fields decode_parts join
envelope_decode-envelope_encode c payload sig pk no_mark basic hs hp =
    let bytes = utf8-All (c ∷ payload) basic in
    let a = b64url_encode (utf8 (c ∷ payload)) in
    let ha = b64url_encode-IsUrlUnit (utf8 (c ∷ payload)) bytes in
    let ks = b64url_encode-IsUrlUnit sig hs in
    let kp = b64url_encode-IsUrlUnit pk hp in
    rw (
      trim-visible _ (
          fields-IsVisible envelope_prefix a (b64url_encode sig) (b64url_encode pk) prefix-IsVisible
            (visible a ha) (visible _ ks) (visible _ kp)),
      split_fields envelope_prefix a (b64url_encode sig) (b64url_encode pk) prefix_stopless
          (stopless a ha) (stopless _ ks) (stopless _ kp),
      text_eq_refl envelope_prefix,
      b64url_decode-b64url_encode (utf8 (c ∷ payload)) bytes,
      b64url_decode-b64url_encode sig hs,
      b64url_decode-b64url_encode pk hp,
      decode_fatal-utf8 c payload no_mark basic,
    )
