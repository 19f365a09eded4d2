-- ===== src/Keystore.antt =====
-- The keystore and the trusted keys, apps/preview/src/lib/vor/keystore.ts: key generation and
-- rotation, issuing and verification. The random secret of a new key is an argument.
pub mod Dictionary
pub mod Rotation
pub mod Issue
pub mod Verify
use vor.Common.{
  ℕ, suc, ◌+◌, ◌-◌, ◌/◌, Bool, true, false, ◌&&◌, ◌||◌, not, Option, none, some, List, [], ◌∷◌,
  ◌++◌, map, ltb, ◌==◌, if◌then◌else◌, length, take, Text, codes, text_eq, includes, trim, ℤ, pos,
  negsuc, ◌+ℤ◌, ltb_ℤ, Number, nan, int, nat, num_lt, num_add, num_sub, print_int, Bytes, utf8,
}
use vor.Crypto.{Noble, to_hex, from_hex, sha256_hex}
use vor.Hwid.{normalize_hwid}
use vor.Canonical.{JsonValue, string, canonical_json, escape_json_string}
use vor.Canonical.Parse.{parse_json}
use vor.License.{
  LicensePayload, DevicePolicy, Metadata, undefined, text, EnvelopeParts, envelope_encode,
  envelope_decode, product_id, format_version, default_clock_skew_secs,
}
use vor.License.Schema.{validate_schema, is_empty}
use vor.License.Payload.{parse_payload_json, payload_to_canonical}
use vor.License.Errors.{
  ErrorCode, malformed, invalid_field, untrusted_key, signature, not_yet_valid, expired, device,
  revoked, Thrown, license_error, exception, Result, ok, err, ◌>>=◌, ◌>>◌, guard, from_option,
}
use vor.Keystore.Dictionary.{Dict, find, put, map_values}

pub data KeyStatus : Type 0 where
  active retired : KeyStatus

pub record KeyRecord : Type 0 where
  pub key_id : Text
  pub public : Text
  pub status : KeyStatus
  pub created_at : ℤ
  pub note : Text

pub record KeyStore : Type 0 where
  pub keystore_version : ℕ
  pub signing_key : Text
  pub active_key_id : Text
  pub keys : Dict KeyRecord

pub record TrustedKeys : Type 0 where
  pub trusted_version : ℕ
  pub keys : Dict KeyRecord

abbrev pub is_active : KeyStatus → Bool
is_active active = true
is_active retired = false

-- `retireOld && v.status === 'active'`
abbrev pub retire : ℤ → Bool → KeyRecord → KeyRecord
retire now retire_old v =
    if retire_old && is_active v.status
    then record v {
      status = retired;
      note = v.note ++ (codes " (retired at rotation " ++ (print_int now ++ codes ")"));
    }
    else v

unfoldable pub active_key_of : Option KeyStore → Option KeyRecord
active_key_of none = none
active_key_of (some ks) = find ks.active_key_id ks.keys

unfoldable pub trusted_from_keystore : KeyStore → TrustedKeys
trusted_from_keystore ks = record { trusted_version = 1; keys = ks.keys }

abbrev pub has_active : Option KeyRecord → Bool
has_active none = false
has_active (some r) = is_active r.status

unfoldable pub is_trusted : Option TrustedKeys → Text → Bool
is_trusted none key_id = false
is_trusted (some t) key_id = has_active (find key_id t.keys)

module _ (n : Noble) where
  unfoldable pub derive_key_id : Bytes → Text
  derive_key_id key = codes "VLA-" ++ take 16 (sha256_hex n key)

  abbrev pub new_record : Bytes → ℤ → Text → KeyRecord
  new_record secret now note = record {
    key_id = derive_key_id (n.public_key secret);
    public = to_hex n (n.public_key secret);
    status = active;
    created_at = now;
    note = note;
  }

  unfoldable pub generate_keystore : ℤ → Bytes → KeyStore
  generate_keystore now secret = record {
    keystore_version = 1;
    signing_key = to_hex n secret;
    active_key_id = derive_key_id (n.public_key secret);
    keys = (derive_key_id (n.public_key secret), new_record secret now (codes "master key")) ∷ [];
  }

  unfoldable pub rotate_keystore : KeyStore → ℤ → Bool → Bytes → KeyStore
  rotate_keystore ks now retire_old secret =
      let key_id = derive_key_id (n.public_key secret) in
      record ks {
        keys =
            put key_id (new_record secret now (codes "rotated master key"))
              (map_values (retire now retire_old) ks.keys);
        signing_key = to_hex n secret;
        active_key_id = key_id;
      }
