-- ===== src/Examples/Issued.antt =====
-- Canonical texts that are read back, and an issued licence that verifies.
use vor.Common.{
  ℕ, zero, suc, ◌+◌, ◌*◌, ◌-◌, ◌/◌, ◌%◌, ◌<◌, ◌≡◌, refl, ap, ◌∙◌, Bool, true, false, Option, none,
  some, List, [], ◌∷◌, ◌++◌, ◌&&◌, ltb, if◌then◌else◌, arith, replicate, Text, text_eq, codes, ℤ,
  pos, nat, Bytes, length, trim, inl, All,
}
use vor.Crypto.{Noble}
use vor.Canonical.{
  JsonValue, null, string, number, array, object, item, nil, member, end, hex_digit, canonical_json,
}
use vor.Canonical.Parse.{get, parse_json}
use vor.Canonical.Quote.{IsBasic}
use vor.Canonical.Reads.Sorted.{normal, IsPlain}
use vor.Canonical.RoundTrip.{parse_json-canonical_json}
use vor.License.{LicensePayload}
use vor.License.Envelope.{IsVisible, trim-visible}
use vor.License.Errors.{Result, ok, err}
use vor.License.Payload.{payload_value}
use vor.Keystore.{KeyStore, new_record, active_key_of, generate_keystore, trusted_from_keystore}
use vor.Keystore.Rotation.{IsConsistent}
use vor.Keystore.Issue.{PayloadOptions, build_payload, issue_license, IssuedLicense}
use vor.Keystore.Issue.Verifies.{AreBytes, IsNoble, verify_license-issue_license}
use vor.Keystore.Verify.{VerifyOptions, check_policy, verify_license}

abbrev are_ascii : Text → Bool
are_ascii [] = true
are_ascii (c ∷ s) = ltb c 128 && are_ascii s

ascii-AllBasic : (s : Text) → are_ascii s ≡ true → All IsBasic s
ascii-AllBasic [] h = tt
ascii-AllBasic (c ∷ s) h = (inl (ground (arith, h)), ascii-AllBasic s (ground (arith, h)))

-- Two members out of the order of their keys.
abbrev unsorted : JsonValue
unsorted = object (
    member (codes "b") (array (item (number (nat 12)) (item null nil)))
      (member (codes "a") (string (codes "x\"y")) end))

unsorted-IsPlain : IsPlain unsorted
unfolding IsPlain get text_eq
unsorted-IsPlain = (
  (refl, (refl, tt)),
  (
    ascii-AllBasic (codes "b") refl,
    (tt, (tt, tt)),
    (ascii-AllBasic (codes "a") refl, ascii-AllBasic (codes "x\"y") refl, tt),
  ),
)

unsorted_written : canonical_json unsorted ≡ some (codes "{\"a\":\"x\\\"y\",\"b\":[12,null]}")
unfolding canonical_json
unsorted_written = refl

parse_json-canonical_json_example :
    parse_json (codes "{\"a\":\"x\\\"y\",\"b\":[12,null]}") ≡ some (normal unsorted)
parse_json-canonical_json_example =
    parse_json-canonical_json unsorted (codes "{\"a\":\"x\\\"y\",\"b\":[12,null]}") unsorted-IsPlain
      unsorted_written

-- Hexadecimal digits of bytes, and back.
abbrev to_digits : Bytes → Text
to_digits [] = []
to_digits (b ∷ bs) = hex_digit (b / 16) ∷ hex_digit (b % 16) ∷ to_digits bs

abbrev digit_of : ℕ → ℕ
digit_of c = if ltb c 58 then c - 48 else c - 87

abbrev cons_byte : ℕ → Option Bytes → Option Bytes
cons_byte b none = none
cons_byte b (some bs) = some (b ∷ bs)

abbrev from_digits : Text → Option Bytes
from_digits [] = some []
from_digits (c ∷ []) = none
from_digits (c ∷ d ∷ t) = cons_byte (digit_of c * 16 + digit_of d) (from_digits t)

abbrev hex_noble : Noble
hex_noble = record {
  sha256 = λ b. b;
  bytes_to_hex = to_digits;
  hex_to_bytes = from_digits;
  public_key = λ sk. replicate 32 5;
  sign = λ message sk. replicate 64 7;
  verify = λ sig message pk. text_eq sig (replicate 64 7);
}

digit_of-hex_digit : (d : ℕ) → d < 16 → digit_of (hex_digit d) ≡ d
digit_of-hex_digit d h = ground arith

from_digits-to_digits : (b : Bytes) → AreBytes b → from_digits (to_digits b) ≡ some b
from_digits-to_digits [] h = refl
from_digits-to_digits (x ∷ b) (p, h) =
    rw
      (
        from_digits-to_digits b h,
        digit_of-hex_digit (x / 16) (omega (arith, p)),
        digit_of-hex_digit (x % 16) (omega arith),
      )
      (ap (λ y. some (y ∷ b)) (omega arith))

hex_digit-IsVisible : (d : ℕ) → d < 16 → IsVisible (hex_digit d)
unfolding vor.Common.is_white
hex_digit-IsVisible d h = ground arith

to_digits-AllVisible : (b : Bytes) → AreBytes b → All IsVisible (to_digits b)
to_digits-AllVisible [] h = tt
to_digits-AllVisible (x ∷ b) (p, h) = (
  hex_digit-IsVisible (x / 16) (omega (arith, p)),
  (hex_digit-IsVisible (x % 16) (omega arith), to_digits-AllVisible b h),
)

are_bytes : (n b : ℕ) → b < 256 → AreBytes (replicate n b)
are_bytes zero b h = tt
are_bytes (suc n) b h = (h, are_bytes n b h)

hex_noble-IsNoble : IsNoble hex_noble
unfolding text_eq
hex_noble-IsNoble = record {
  hex_back = from_digits-to_digits;
  hex_trimmed = λ b h. trim-visible (to_digits b) (to_digits-AllVisible b h);
  sig_length = λ m sk. refl;
  sig_bytes = λ m sk. are_bytes 64 7 (omega arith);
  key_length = λ sk. refl;
  key_bytes = λ sk. are_bytes 32 5 (omega arith);
  verifies = λ m sk. refl;
}

abbrev owner : KeyStore
owner = generate_keystore hex_noble (pos 1000) (replicate 32 9)

owner-IsConsistent : (c : IsConsistent hex_noble owner) × AreBytes c.secret
unfolding generate_keystore active_key_of vor.Keystore.Dictionary.find vor.Keystore.derive_key_id
    vor.Crypto.sha256_hex text_eq
owner-IsConsistent = (
  record {
    secret = replicate 32 9;
    entry = new_record hex_noble (replicate 32 9) (pos 1000) (codes "master key");
    listed = refl;
    in_use = refl;
    named = refl;
    signing = refl;
    public = refl;
    derived = refl;
  },
  are_bytes 32 9 (omega arith),
)

abbrev paid : PayloadOptions
paid = record {
  now = pos 1000;
  seconds = pos 86400;
  key_id = codes "VLA-0505050505050505";
  tier = codes "pro";
  entitlements = codes "core_tunnel" ∷ [];
  max_devices = nat 3;
  bound_hwids = [];
  metadata = some (codes " gift ");
  license_id = none;
  not_before = none;
}

abbrev sold : LicensePayload
sold = build_payload paid (codes "1234")

sold-IsPlain : IsPlain (payload_value sold)
unfolding IsPlain get text_eq payload_value build_payload
sold-IsPlain = (
  (refl, (refl, (refl, (refl, (refl, (refl, (refl, (refl, (refl, (refl, (refl, tt))))))))))),
  (
    ascii-AllBasic (codes "license_version") refl,
    tt,
    (
      ascii-AllBasic (codes "license_id") refl,
      ascii-AllBasic (codes "1234") refl,
      (
        ascii-AllBasic (codes "product") refl,
        ascii-AllBasic sold.product refl,
        (
          ascii-AllBasic (codes "key_id") refl,
          ascii-AllBasic paid.key_id refl,
          (
            ascii-AllBasic (codes "issued_at") refl,
            tt,
            (
              ascii-AllBasic (codes "not_before") refl,
              tt,
              (
                ascii-AllBasic (codes "expires_at") refl,
                tt,
                (
                  ascii-AllBasic (codes "license_tier") refl,
                  ascii-AllBasic (codes "pro") refl,
                  (
                    ascii-AllBasic (codes "entitlements") refl,
                    (ascii-AllBasic (codes "core_tunnel") refl, tt),
                    (
                      ascii-AllBasic (codes "device_policy") refl,
                      (
                        (refl, (refl, tt)),
                        (
                          ascii-AllBasic (codes "max_devices") refl,
                          tt,
                          (ascii-AllBasic (codes "bound_hwids") refl, tt, tt),
                        ),
                      ),
                      (
                        ascii-AllBasic (codes "metadata") refl,
                        ascii-AllBasic (codes "gift") refl,
                        tt,
                      ),
                    ),
                  ),
                ),
              ),
            ),
          ),
        ),
      ),
    ),
  ),
)

abbrev no_license : IssuedLicense
no_license = record { envelope = []; file = []; payload = sold }

abbrev issued_or : Result IssuedLicense → IssuedLicense
issued_or (ok i) = i
issued_or (err e) = no_license

abbrev licence : IssuedLicense
licence = issued_or (issue_license hex_noble owner sold)

abbrev next_hour : VerifyOptions
next_hour = record { now = nat 4600; clock_skew_secs = none; device_hwid = none; revoked = [] }

licence_issued : issue_license hex_noble owner sold ≡ ok licence
unfolding issue_license build_payload generate_keystore vor.License.Schema.validate_schema
    vor.Common.◌+ℤ◌ vor.Keystore.derive_key_id vor.Crypto.sha256_hex
    vor.License.Payload.payload_to_canonical vor.Crypto.from_hex vor.License.envelope_encode
    vor.Crypto.b64url_encode vor.Keystore.active_key_of vor.Keystore.Dictionary.find
licence_issued = refl

sold_passes : check_policy sold next_hour ≡ ok sold
unfolding check_policy build_payload vor.Common.◌+ℤ◌ vor.Common.◌-ℤ◌ vor.Common.includes
sold_passes = refl

verify_license-issue_license_example :
    verify_license hex_noble licence.envelope (some (trusted_from_keystore owner)) next_hour
    ≡ ok sold
verify_license-issue_license_example =
    verify_license-issue_license hex_noble hex_noble-IsNoble owner owner-IsConsistent.0 paid
      (codes "1234") licence next_hour owner-IsConsistent.1 sold-IsPlain licence_issued sold_passes
