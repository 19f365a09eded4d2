-- ===== src/License.antt =====
-- The licence format, apps/preview/src/lib/vor/license.ts. A payload holds what `JSON.parse` gave,
-- unchecked, so its lists hold JSON values. An error carries its code; the texts of the messages,
-- which are only displayed, are left out.
pub mod Errors
pub mod Schema
pub mod Payload
pub mod Utf8
pub mod Envelope
use vor.Common.{
  ℕ, suc, ◌+◌, ◌-◌, Bool, true, false, ◌&&◌, ◌||◌, not, Option, none, some, List, [], ◌∷◌, ◌++◌,
  ltb, leb, ◌==◌, if◌then◌else◌, length, drop, all, Text, codes, text_eq, includes, starts_with,
  trim, to_lower, split, join, Number, nan, nat, num_eq, num_lt, num_le, Bytes, utf8, decode_fatal,
}
use vor.Crypto.{b64url_encode, b64url_decode}
use vor.Canonical.{
  JsonValue, null, boolean, number, string, array, object, Items, nil, item, Members, end, member,
  canonical_json,
}
use vor.Canonical.Parse.{get, parse_json}
use vor.License.Errors.{
  ErrorCode, malformed, schema, missing_field, product_mismatch, invalid_field, unknown_entitlement,
  Thrown, license_error, exception, Result, ok, err, ◌>>=◌, ◌>>◌, guard, from_option,
}

abbrev pub product_id : Text
product_id = codes "VOR"

abbrev pub format_version : ℕ
format_version = 2

abbrev pub envelope_prefix : Text
envelope_prefix = codes "VORLIC1"

abbrev pub default_clock_skew_secs : ℕ
default_clock_skew_secs = 300

-- `ALL_ENTITLEMENTS`
abbrev pub all_entitlements : List Text
all_entitlements =
    codes "core_tunnel"
    ∷ codes "stealth_engine"
    ∷ codes "relay_chains"
    ∷ codes "unlimited_devices"
    ∷ codes "priority_fleet"
    ∷ []

-- `LicenseTier`
abbrev pub license_tiers : List Text
license_tiers = codes "standard" ∷ codes "pro" ∷ codes "enterprise" ∷ []

pub record DevicePolicy : Type 0 where
  pub max_devices : Number
  pub bound_hwids : List JsonValue

-- The metadata is absent, null or a text.
pub data Metadata : Type 0 where
  undefined no_metadata : Metadata
  text : Text → Metadata

pub record LicensePayload : Type 0 where
  pub license_version : Number
  pub license_id : Text
  pub product : Text
  pub key_id : Text
  pub issued_at : Number
  pub not_before : Number
  pub expires_at : Number
  pub license_tier : Text
  pub entitlements : List JsonValue
  pub device_policy : DevicePolicy
  pub metadata : Metadata

unfoldable pub envelope_encode : Text → Bytes → Bytes → Text
unfolding join
envelope_encode payload_canonical signature public_key = join 46 (
    envelope_prefix
    ∷ b64url_encode (utf8 payload_canonical)
    ∷ b64url_encode signature
    ∷ b64url_encode public_key
    ∷ [])

pub record EnvelopeParts : Type 0 where
  pub payload_json : Text
  pub sig : Bytes
  pub pk : Bytes

-- The three base64 fields, in the order of the source.
unfoldable pub decode_parts : Text → Text → Text → Result EnvelopeParts
decode_parts payload signature key = do
  payload_bytes ← from_option (b64url_decode payload) (license_error malformed)
  sig ← from_option (b64url_decode signature) (license_error malformed)
  pk ← from_option (b64url_decode key) (license_error malformed)
  payload_json ← from_option (decode_fatal payload_bytes) (license_error malformed)
  ok (record { payload_json = payload_json; sig = sig; pk = pk })

unfoldable pub envelope_fields : List Text → Result EnvelopeParts
unfolding decode_parts
envelope_fields (tag ∷ payload ∷ signature ∷ key ∷ []) = do
  guard (text_eq tag envelope_prefix) (license_error malformed)
  decode_parts payload signature key
envelope_fields _ = err (license_error malformed)

unfoldable pub envelope_decode : Text → Result EnvelopeParts
unfolding envelope_fields split trim
envelope_decode envelope = envelope_fields (split 46 (trim envelope))

abbrev pub envelope_of : Option JsonValue → Result Text
envelope_of (some (string e)) = ok e
envelope_of _ = err (license_error malformed)

-- `doc?.envelope` of the parsed document: a text whatever `format` says, or the error.
abbrev pub document_envelope : JsonValue → Result Text
document_envelope (object ms) = envelope_of (get (codes "envelope") ms)
document_envelope _ = err (license_error malformed)

unfoldable pub parse_license_file_text : Text → Result Text
unfolding trim starts_with parse_json get
parse_license_file_text input =
    let trimmed = trim input in
    if starts_with trimmed (codes "VORLIC1.")
    then ok trimmed
    else (from_option (parse_json trimmed) exception >>= document_envelope)
