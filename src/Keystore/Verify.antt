-- ===== src/Keystore/Verify.antt =====
-- `verifyLicense` and `verifyToReport` of keystore.ts, in the order of their checks.
pub mod Sound
pub mod Window
pub mod Report
use vor.Common.{
  ◌/◌, Bool, false, ◌||◌, not, Option, none, some, List, [], ◌∷◌, map, ◌==◌, if◌then◌else◌, length,
  Text, text_eq, includes, pos, negsuc, ltb_ℤ, Number, nan, int, nat, num_lt, num_add, num_sub,
  utf8,
}
use vor.Crypto.{Noble}
use vor.Hwid.{normalize_hwid}
use vor.Canonical.{JsonValue, string, canonical_json}
use vor.Canonical.Parse.{parse_json}
use vor.License.{LicensePayload, EnvelopeParts, envelope_decode, default_clock_skew_secs}
use vor.License.Schema.{validate_schema, is_empty}
use vor.License.Payload.{parse_payload_json}
use vor.License.Errors.{
  Thrown, ErrorCode, malformed, untrusted_key, signature, not_yet_valid, expired, device, revoked,
  license_error, exception, Result, ok, err, ◌>>=◌, ◌>>◌, guard, from_option,
}
use vor.Keystore.{TrustedKeys, is_trusted, derive_key_id}

pub record VerifyOptions : Type 0 where
  pub now : Number
  pub clock_skew_secs : Option Number
  pub device_hwid : Option Text
  pub revoked : List Text

-- `Math.max(0, x)`
abbrev pub max_zero : Number → Number
max_zero nan = nan
max_zero (int z) = if ltb_ℤ z (pos 0) then nat 0 else int z

abbrev pub skew_of : Option Number → Number
skew_of none = nat default_clock_skew_secs
skew_of (some s) = max_zero s

-- The bound HWIDs as texts: `validateSchema` let only those through.
abbrev pub hwid_texts : List JsonValue → List Text
hwid_texts [] = []
hwid_texts (string h ∷ hs) = h ∷ hwid_texts hs
hwid_texts (_ ∷ hs) = hwid_texts hs

-- `!opts.deviceHwid` is also true of the empty text.
unfoldable pub is_bound : List JsonValue → Option Text → Bool
unfolding normalize_hwid
is_bound bound none = false
is_bound bound (some []) = false
is_bound bound (some (c ∷ hwid)) =
    includes (map normalize_hwid (hwid_texts bound)) (normalize_hwid (c ∷ hwid))

-- What is thrown with a bound in the message: `toISOString` throws a RangeError itself for a time that
-- is no number or more than 8640000000000 seconds from the epoch.
abbrev pub dated_error : Number → ErrorCode → Thrown
dated_error nan code = exception
dated_error (int z) code =
    if ltb_ℤ (pos 8640000000000) z || ltb_ℤ z (negsuc 8639999999999)
    then exception
    else license_error code

-- `isTrusted`'s caller: the checks 6, 8 and 9 on a payload whose signature holds.
unfoldable pub check_policy : LicensePayload → VerifyOptions → Result LicensePayload
check_policy p opts = do
  let skew = skew_of opts.clock_skew_secs
  guard (not (num_lt opts.now (num_sub p.not_before skew))) (dated_error p.not_before not_yet_valid)
  guard (not (num_lt (num_add p.expires_at skew) opts.now)) (dated_error p.expires_at expired)
  guard
      (is_empty p.device_policy.bound_hwids
        || is_bound p.device_policy.bound_hwids opts.device_hwid)
      (license_error device)
  guard (not (includes opts.revoked p.license_id)) (license_error revoked)
  ok p

-- `Math.max(0, Math.floor((p.expires_at - now) / 86_400))`
abbrev pub days_of : Number → Number
days_of nan = nan
days_of (int (pos secs)) = nat (secs / 86400)
days_of (int (negsuc secs)) = nat 0

-- `VerificationReport`: `rejected` holds the error code.
pub data VerificationReport : Type 0 where
  accepted : LicensePayload → Number → VerificationReport
  rejected : ErrorCode → VerificationReport

abbrev pub report_of : Number → Result LicensePayload → VerificationReport
report_of now (ok p) = accepted p (days_of (num_sub p.expires_at now))
report_of now (err (license_error code)) = rejected code
report_of now (err exception) = rejected malformed

module _ (n : Noble) where
  -- Check 5: the canonical form of the payload text, and the signature over it.
  unfoldable pub check_signature : EnvelopeParts → Result (Unit {0})
  check_signature parts = do
    value ← from_option (parse_json parts.payload_json) exception
    canonical ← from_option (canonical_json value) exception
    guard (n.verify parts.sig (utf8 canonical) parts.pk) (license_error signature)

  -- Checks 2 to 9.
  unfoldable pub verify_parts :
      EnvelopeParts → Option TrustedKeys → VerifyOptions → Result LicensePayload
  unfolding check_signature check_policy
  verify_parts parts trusted opts = do
    payload ← parse_payload_json parts.payload_json
    validate_schema payload
    guard (length parts.sig == 64) (license_error malformed)
    guard (length parts.pk == 32) (license_error malformed)
    guard (text_eq (derive_key_id n parts.pk) payload.key_id) (license_error malformed)
    guard (is_trusted trusted payload.key_id) (license_error untrusted_key)
    check_signature parts
    check_policy payload opts

  unfoldable pub verify_license : Text → Option TrustedKeys → VerifyOptions → Result LicensePayload
  unfolding verify_parts
  verify_license envelope trusted opts =
      envelope_decode envelope >>= λ parts. verify_parts parts trusted opts

  unfoldable pub verify_to_report : Text → Option TrustedKeys → VerifyOptions → VerificationReport
  unfolding verify_license
  verify_to_report envelope trusted opts = report_of opts.now (verify_license envelope trusted opts)
