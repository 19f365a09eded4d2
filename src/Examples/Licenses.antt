-- ===== src/Examples/Licenses.antt =====
-- The licence theorems at concrete licences, keystores and logs.
use vor.Common.{
  ℕ, zero, suc, ◌≡◌, ◌≢◌, ◌↔◌, refl, Bool, true, false, Option, none, some, List, [], ◌∷◌, ◌++◌,
  arith, replicate, Text, codes, ℤ, pos, negsuc, ◌≤ℤ◌, int, nat, nan, Number, Bytes,
}
use vor.Crypto.{b64url_encode, b64url_decode}
use vor.Crypto.Base64.{b64url_decode-b64url_encode}
use vor.Examples.{toy_noble}
use vor.Common.{
  All, length, text_eq, if◌then◌else◌, ◌||◌, ◌-ℤ◌, ◌+ℤ◌, pos_part, ◌≤◌, ◌<◌, ◌+◌, ◌*◌, num_lt,
  num_sub, inl, codes,
}
use vor.Canonical.{escape_from}
use vor.License.{EnvelopeParts, envelope_decode}
use vor.Keystore.Verify.{check_policy, verify_to_report, accepted, skew_of}
use vor.Keystore.Verify.Sound.{IsVerified, verify_license_iff}
use vor.Keystore.Verify.Window.{verify_license-InWindow, missing_expiry_never_expires}
use vor.Keystore.Verify.Report.{AreDaysLeft, verify_to_report-days}
use vor.Keystore.Issue.Expired.{issue_expired_fails}
use vor.Keystore.{is_trusted, derive_key_id}
use vor.Keystore.Rotation.{
  is_trusted-rotate_keystore, Reachable-IsConsistent, IsConsistent, generated, rotated,
}
use vor.Audit.{AuditEntry, genesis, append_audit, audit_root, hash_entry, verify_audit_chain}
use vor.Audit.Chain.{
  IsChain, verify_audit_chain_iff, append_audit-intact, verify_audit_chain-forged,
}
use vor.License.{LicensePayload}
use vor.License.Errors.{Result, ok, err}
use vor.License.Schema.{validate_schema}
use vor.License.Schema.Accepts.{IsValidPayload, validate_schema_iff}
use vor.Keystore.{KeyStore, TrustedKeys, generate_keystore, rotate_keystore, trusted_from_keystore}
use vor.Keystore.Issue.{PayloadOptions, build_payload, issue_license, IssuedLicense}
use vor.Keystore.Verify.{VerifyOptions, verify_license}

abbrev pub master : Bytes
master = replicate 32 65

abbrev pub keystore : KeyStore
keystore = record (generate_keystore toy_noble (pos 1000) master) { keystore_version = 1 }

abbrev options : PayloadOptions
options = record {
  now = pos 1000;
  seconds = pos 86400;
  key_id = codes "VLA-AAAAAAAAAAAAAAAA";
  tier = codes "pro";
  entitlements = codes "core_tunnel" ∷ [];
  max_devices = nat 3;
  bound_hwids = [];
  metadata = none;
  license_id = none;
  not_before = none;
}

abbrev pub payload : LicensePayload
payload = build_payload options (codes "1234")

abbrev envelope_or : Result IssuedLicense → Text
envelope_or (ok i) = i.envelope
envelope_or (err e) = []

abbrev pub envelope : Text
envelope = envelope_or (issue_license toy_noble keystore payload)

abbrev pub at_noon : VerifyOptions
at_noon = record { now = nat 2000; clock_skew_secs = none; device_hwid = none; revoked = [] }

abbrev pub trusted : Option TrustedKeys
trusted = some (trusted_from_keystore keystore)

-- The licence issued above is accepted: issue, encode, decode, parse and verify compute.
pub issued_envelope_verifies : verify_license toy_noble envelope trusted at_noon ≡ ok payload
unfolding verify_license issue_license build_payload generate_keystore trusted_from_keystore
    vor.License.envelope_decode validate_schema vor.Common.◌+ℤ◌ vor.Keystore.derive_key_id
    vor.Crypto.sha256_hex vor.License.Payload.payload_to_canonical vor.Crypto.from_hex
    vor.License.envelope_encode vor.Crypto.b64url_encode vor.Keystore.active_key_of
    vor.Keystore.Dictionary.find vor.Crypto.b64url_decode vor.Common.decode_fatal
    vor.License.Payload.parse_payload_json vor.Keystore.is_trusted vor.Common.◌-ℤ◌
issued_envelope_verifies = refl

payload_valid : validate_schema payload ≡ ok tt
unfolding validate_schema build_payload vor.Common.◌+ℤ◌
payload_valid = refl

payload_passes : check_policy payload at_noon ≡ ok payload
unfolding check_policy build_payload vor.Common.◌+ℤ◌ vor.Common.◌-ℤ◌ vor.Common.includes
payload_passes = refl

payload_reported : verify_to_report toy_noble envelope trusted at_noon ≡ accepted payload (nat 0)
unfolding verify_to_report verify_license issue_license build_payload generate_keystore
    trusted_from_keystore vor.License.envelope_decode validate_schema vor.Common.◌+ℤ◌
    vor.Keystore.derive_key_id vor.Crypto.sha256_hex vor.License.Payload.payload_to_canonical
    vor.Crypto.from_hex vor.License.envelope_encode vor.Crypto.b64url_encode
    vor.Keystore.active_key_of vor.Keystore.Dictionary.find vor.Crypto.b64url_decode
    vor.Common.decode_fatal vor.License.Payload.parse_payload_json vor.Keystore.is_trusted
    vor.Common.◌-ℤ◌
payload_reported = refl

verify_license_iff_example : (verify_license toy_noble envelope trusted at_noon ≡ ok payload) ↔ (
    (parts : EnvelopeParts) × (envelope_decode envelope ≡ ok parts)
    × IsVerified toy_noble trusted at_noon parts payload)
verify_license_iff_example = verify_license_iff toy_noble envelope trusted at_noon payload

payload_end : payload.expires_at ≡ int (pos 87400)
unfolding build_payload vor.Common.◌+ℤ◌
payload_end = refl

payload_start : payload.not_before ≡ int (pos 1000)
unfolding build_payload
payload_start = refl

verify_license-InWindow_example :
    (pos 1000 ≤ℤ pos 2000 +ℤ pos 300) × (pos 2000 ≤ℤ pos 87400 +ℤ pos 300)
verify_license-InWindow_example =
    verify_license-InWindow toy_noble envelope trusted at_noon payload (pos 2000) (pos 1000)
      (pos 87400) refl refl payload_start payload_end issued_envelope_verifies

verify_to_report-days_example :
    (verify_license toy_noble envelope trusted at_noon ≡ ok payload)
    × AreDaysLeft (nat 2000) payload.expires_at (nat 0)
verify_to_report-days_example =
    verify_to_report-days toy_noble envelope trusted at_noon payload (nat 0) payload_reported

far_later :
    num_lt (nat 99999999999) (num_sub payload.not_before (skew_of at_noon.clock_skew_secs)) ≡ false
unfolding build_payload vor.Common.◌-ℤ◌
far_later = refl

missing_expiry_never_expires_example :
    (validate_schema (record payload { expires_at = nan }) ≡ ok tt)
    × (check_policy (record payload { expires_at = nan }) (record at_noon { now = nat 99999999999 })
        ≡ ok (record payload { expires_at = nan }))
missing_expiry_never_expires_example =
    missing_expiry_never_expires payload at_noon (nat 99999999999) payload_valid payload_passes
      far_later

validate_schema_iff_example : (validate_schema payload ≡ ok tt) ↔ IsValidPayload payload
validate_schema_iff_example = validate_schema_iff payload

-- The options of the demo's expired licence: three days in the past.
abbrev demo_expired : PayloadOptions
demo_expired = record options { seconds = negsuc 259199 }

issue_expired_fails_example :
    issue_license toy_noble keystore (build_payload demo_expired (codes "1234"))
    ≢ ok (record { envelope = []; file = []; payload = payload })
issue_expired_fails_example =
    issue_expired_fails toy_noble keystore demo_expired (codes "1234")
      (record { envelope = []; file = []; payload = payload }) (omega arith)

abbrev second : Bytes
second = replicate 32 66

is_trusted-rotate_keystore_example :
    is_trusted
      (some (trusted_from_keystore (rotate_keystore toy_noble keystore (pos 5) true second)))
      (codes "VLA-AAAAAAAAAAAAAAAA")
    ≡ (text_eq (derive_key_id toy_noble second) (codes "VLA-AAAAAAAAAAAAAAAA")
        || (if true then false else is_trusted trusted (codes "VLA-AAAAAAAAAAAAAAAA")))
is_trusted-rotate_keystore_example =
    is_trusted-rotate_keystore toy_noble keystore (pos 5) second true (codes "VLA-AAAAAAAAAAAAAAAA")

Reachable-IsConsistent_example :
    IsConsistent toy_noble
      (rotate_keystore toy_noble (generate_keystore toy_noble (pos 1) master) (pos 5) true second)
Reachable-IsConsistent_example =
    Reachable-IsConsistent toy_noble (rotated (pos 5) true second (generated (pos 1) master))

abbrev first_entry : AuditEntry
first_entry = append_audit toy_noble [] (pos 7) (codes "issue") (codes "ok")

first_entry-IsChain : IsChain toy_noble genesis (first_entry ∷ [])
unfolding append_audit audit_root hash_entry
first_entry-IsChain = (refl, refl, tt)

append_audit-intact_example :
    IsChain toy_noble genesis
      (first_entry ∷ append_audit toy_noble (first_entry ∷ []) (pos 8) (codes "revoke") [] ∷ [])
    × (audit_root toy_noble
          (first_entry ∷ append_audit toy_noble (first_entry ∷ []) (pos 8) (codes "revoke") [] ∷ [])
        ≡ (append_audit toy_noble (first_entry ∷ []) (pos 8) (codes "revoke") []).hash)
    × ((append_audit toy_noble (first_entry ∷ []) (pos 8) (codes "revoke") []).seq ≡ pos 1)
append_audit-intact_example =
    append_audit-intact toy_noble (first_entry ∷ []) (pos 8) (codes "revoke") [] first_entry-IsChain

first_entry_numbered : All (λ e. e.seq ≢ negsuc 0) (first_entry ∷ [])
unfolding append_audit
first_entry_numbered = ((λ h. cc), tt)

verify_audit_chain_iff_example :
    (verify_audit_chain toy_noble (first_entry ∷ []) ≡ negsuc 0)
    ↔ IsChain toy_noble genesis (first_entry ∷ [])
verify_audit_chain_iff_example =
    verify_audit_chain_iff toy_noble (first_entry ∷ []) first_entry_numbered

-- An entry numbered -1 with a wrong hash reads as an intact log.
abbrev forged : AuditEntry
forged = record {
  seq = negsuc 0;
  ts = pos 9;
  action = codes "revoke";
  detail = [];
  prev_hash = [];
  hash = [];
}

forged_hash : forged.hash ≢ hash_entry toy_noble forged
unfolding hash_entry vor.Canonical.canonical_json vor.Crypto.sha256_hex
forged_hash h = cc

verify_audit_chain-forged_example :
    verify_audit_chain toy_noble (first_entry ∷ forged ∷ []) ≡ negsuc 0
verify_audit_chain-forged_example =
    verify_audit_chain-forged toy_noble (first_entry ∷ []) [] forged first_entry-IsChain forged_hash

b64url_decode-b64url_encode_example :
    b64url_decode (b64url_encode (251 ∷ 255 ∷ 190 ∷ 7 ∷ [])) ≡ some (251 ∷ 255 ∷ 190 ∷ 7 ∷ [])
b64url_decode-b64url_encode_example =
    b64url_decode-b64url_encode (251 ∷ 255 ∷ 190 ∷ 7 ∷ [])
      (omega arith, (omega arith, (omega arith, (omega arith, tt))))
