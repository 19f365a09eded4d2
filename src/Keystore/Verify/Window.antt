-- ===== src/Keystore/Verify/Window.antt =====
-- The time window of a licence, and what a payload without an expiry means to it.
use vor.Common.{
  ◌≡◌, refl, false, Option, none, arith, Text, ℤ, pos, ◌+ℤ◌, ◌-ℤ◌, ◌≤ℤ◌, int, nan, nat, Number,
  num_lt, num_add, num_sub, int_laws, ltb_ℤ,
}
use vor.Crypto.{Noble}
use vor.License.{LicensePayload}
use vor.License.Schema.{validate_schema}
use vor.License.Schema.Accepts.{validate_schema_iff}
use vor.License.Errors.{ok}
use vor.Keystore.{TrustedKeys}
use vor.Keystore.Verify.{VerifyOptions, check_policy, verify_license, skew_of}
use vor.Keystore.Verify.Sound.{verify_license_iff, check_policy_iff}

not_lt_le : (a b : ℤ) → ltb_ℤ a b ≡ false → b ≤ℤ a
not_lt_le a b h = ground arith

window_start : (t b : ℤ) → num_lt (int t) (num_sub (int b) (nat 300)) ≡ false → b ≤ℤ t +ℤ pos 300
window_start t b h = omega (int_laws, not_lt_le t (b -ℤ pos 300) h)

window_end : (t e : ℤ) → num_lt (num_add (int e) (nat 300)) (int t) ≡ false → t ≤ℤ e +ℤ pos 300
window_end t e h = not_lt_le (e +ℤ pos 300) t h

-- At a time given in whole seconds and with the default skew, an accepted payload whose bounds are
-- numbers began at most 300 seconds later, and ended at most 300 seconds earlier.
pub verify_license-InWindow :
    (n : Noble) (envelope : Text) (trusted : Option TrustedKeys) (opts : VerifyOptions)
    (p : LicensePayload) (t b e : ℤ)
    → opts.clock_skew_secs ≡ none
    → opts.now ≡ int t
    → p.not_before ≡ int b
    → p.expires_at ≡ int e
    → verify_license n envelope trusted opts ≡ ok p
    → (b ≤ℤ t +ℤ pos 300) × (t ≤ℤ e +ℤ pos 300)
verify_license-InWindow n envelope trusted opts p t b e skew now start end h =
    let (parts, _, v) = (verify_license_iff n envelope trusted opts p).0 h in
    (
      window_start t b (rw (skew, now, start) at v.begun),
      window_end t e (rw (skew, now, end) at v.unexpired),
    )

-- A payload that the schema accepts is still accepted when its `expires_at` is missing, which reads
-- as NaN; and where the policy passes once, it then passes at every later time that is not before
-- its start less the skew.
pub missing_expiry_never_expires :
    (p : LicensePayload) (opts : VerifyOptions) (later : Number)
    → validate_schema p ≡ ok tt
    → check_policy p opts ≡ ok p
    → num_lt later (num_sub p.not_before (skew_of opts.clock_skew_secs)) ≡ false
    → (validate_schema (record p { expires_at = nan }) ≡ ok tt)
      × (check_policy (record p { expires_at = nan }) (record opts { now = later })
          ≡ ok (record p { expires_at = nan }))
missing_expiry_never_expires p opts later valid passed begun =
    let (to, from) = validate_schema_iff (record p { expires_at = nan }) in
    let v = (validate_schema_iff p).0 valid in
    let (_, _, _, device, unrevoked) = (check_policy_iff p p opts).0 passed in
    (
      from (record {
        version = v.version;
        id_given = v.id_given;
        key_given = v.key_given;
        product = v.product;
        ends_after = refl;
        issued_before = refl;
        entitled = v.entitled;
        entitlements = v.entitlements;
        tier = v.tier;
        hwids = v.hwids;
      }),
      (check_policy_iff (record p { expires_at = nan }) _ (record opts { now = later })).1
          (refl, begun, refl, device, unrevoked),
    )
