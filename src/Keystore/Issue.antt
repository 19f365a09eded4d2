-- ===== src/Keystore/Issue.antt =====
-- Issuing a licence: `signCanonical`, `issueLicense` and `buildPayload` of keystore.ts.
pub mod Expired
pub mod Verifies
use vor.Common.{
  Option, none, some, List, [], ◌∷◌, ◌++◌, map, Text, codes, text_eq, trim, ℤ, ◌+ℤ◌, Number, int,
  nat, Bytes, utf8,
}
use vor.Crypto.{Noble, from_hex}
use vor.Hwid.{normalize_hwid}
use vor.Canonical.{string, escape_json_string}
use vor.License.{
  LicensePayload, Metadata, undefined, text, envelope_encode, product_id, format_version,
}
use vor.License.Schema.{validate_schema}
use vor.License.Payload.{payload_to_canonical}
use vor.License.Errors.{
  invalid_field, license_error, exception, Result, ok, ◌>>=◌, ◌>>◌, guard, from_option,
}
use vor.Keystore.{KeyRecord, KeyStore, active_key_of}

pub record IssuedLicense : Type 0 where
  pub envelope : Text
  pub file : Text
  pub payload : LicensePayload

-- `JSON.stringify({ format, version, envelope }, null, 2)`
abbrev pub license_file : Text → Text
license_file envelope =
    codes "{\n  \"format\": \"VORLIC\",\n  \"version\": 2,\n  \"envelope\": "
    ++ (escape_json_string envelope ++ codes "\n}")

abbrev pub public_of : Option KeyRecord → Text
public_of none = []
public_of (some r) = r.public

-- The options of `buildPayload`. `seconds` is `Math.round(days * 86_400)`.
pub record PayloadOptions : Type 0 where
  pub now : ℤ
  pub seconds : ℤ
  pub key_id : Text
  pub tier : Text
  pub entitlements : List Text
  pub max_devices : Number
  pub bound_hwids : List Text
  pub metadata : Option Text
  pub license_id : Option Text
  pub not_before : Option ℤ

abbrev pub or_now : Option ℤ → ℤ → ℤ
or_now none now = now
or_now (some t) now = t

abbrev pub or_fresh : Option Text → Text → Text
or_fresh none fresh = fresh
or_fresh (some id) fresh = id

abbrev pub unless_empty : Text → Metadata
unless_empty [] = undefined
unless_empty (c ∷ s) = text (c ∷ s)

-- `opts.metadata?.trim() ? opts.metadata.trim() : undefined`
abbrev pub trimmed_metadata : Option Text → Metadata
trimmed_metadata none = undefined
trimmed_metadata (some t) = unless_empty (trim t)

-- The second argument is the result of `crypto.randomUUID()`.
unfoldable pub build_payload : PayloadOptions → Text → LicensePayload
unfolding normalize_hwid
build_payload opts fresh =
    let nb = or_now opts.not_before opts.now in
    record {
      license_version = nat format_version;
      license_id = or_fresh opts.license_id fresh;
      product = product_id;
      key_id = opts.key_id;
      issued_at = int opts.now;
      not_before = int nb;
      expires_at = int (nb +ℤ opts.seconds);
      license_tier = opts.tier;
      entitlements = map string opts.entitlements;
      device_policy = record {
        max_devices = opts.max_devices;
        bound_hwids = map (λ h. string (normalize_hwid h)) opts.bound_hwids;
      };
      metadata = trimmed_metadata opts.metadata;
    }

module _ (n : Noble) where
  unfoldable pub sign_canonical : KeyStore → Text → Result Bytes
  sign_canonical ks canonical = do
    sk ← from_option (from_hex n ks.signing_key) exception
    ok (n.sign (utf8 canonical) sk)

  unfoldable pub issue_license : KeyStore → LicensePayload → Result IssuedLicense
  unfolding sign_canonical
  issue_license ks payload = do
    validate_schema payload
    guard (text_eq payload.key_id ks.active_key_id) (license_error invalid_field)
    canonical ← payload_to_canonical payload
    sig ← sign_canonical ks canonical
    pk ← from_option (from_hex n (public_of (active_key_of (some ks)))) exception
    let envelope = envelope_encode canonical sig pk
    ok (record { envelope = envelope; file = license_file envelope; payload = payload })
