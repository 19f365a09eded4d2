-- ===== src/Keystore/Verify/Sound.antt =====
-- What a licence that `verifyLicense` returns has established, and that nothing else is needed.
use vor.Common.{
  ◌≡◌, refl, ◌≢◌, ◌↔◌, ◌⊎◌, inl, inr, true, false, ◌||◌, Option, none, some, List, [], ◌∷◌, map,
  arith, ==_iff, length, All, Any, Text, text_eq_iff, includes, includes-false_iff, num_lt, num_add,
  num_sub, utf8, Option-cases, not-true, ap, subst, text_eq_sound,
}
use mathlib.Core.Bool.{false≢true}
use vor.Crypto.{Noble}
use vor.Hwid.{normalize_hwid}
use vor.Canonical.{JsonValue, canonical_json}
use vor.Canonical.Parse.{parse_json}
use vor.License.{LicensePayload, EnvelopeParts, envelope_decode}
use vor.License.Schema.{validate_schema, is_empty}
use vor.License.Payload.{parse_payload_json}
use vor.License.Errors.{
  ok, ok-injective, >>=-eq-ok, guard-eq-ok, >>-eq-ok, from_option-eq-ok, guard_sound, exception,
}
use vor.Keystore.{
  KeyStatus, KeyRecord, TrustedKeys, active, retired, is_trusted, is_active, derive_key_id,
}
use vor.Keystore.Dictionary.{find}
use vor.Keystore.Verify.{
  VerifyOptions, hwid_texts, is_bound, skew_of, check_signature, check_policy, verify_parts,
  verify_license,
}

-- The key is among the trusted ones, and not retired.
abbrev pub IsTrustedKey : Option TrustedKeys → Text → Type 0
IsTrustedKey trusted id =
    (t : TrustedKeys) × (r : KeyRecord) × (trusted ≡ some t)
    × (find id t.keys ≡ some r)
    × (r.status ≡ active)

-- The signature verifies over the canonical form of the parsed payload.
abbrev pub IsSigned : Noble → EnvelopeParts → Type 0
IsSigned n parts =
    (v : JsonValue) × (c : Text) × (parse_json parts.payload_json ≡ some v)
    × (canonical_json v ≡ some c)
    × (n.verify parts.sig (utf8 c) parts.pk ≡ true)

-- No device is named, or this device is one of those named.
abbrev pub AllowsDevice : List JsonValue → Option Text → Type 0
AllowsDevice bound hwid =
    (bound ≡ [])
    ⊎ ((h : Text) × (hwid ≡ some h)
        × (h ≢ [])
        × Any (λ b. normalize_hwid b ≡ normalize_hwid h) (hwid_texts bound))

pub record IsVerified (n : Noble) (trusted : Option TrustedKeys) (opts : VerifyOptions)
    (parts : EnvelopeParts) (p : LicensePayload) : Type 0 where
  pub parsed : parse_payload_json parts.payload_json ≡ ok p
  pub valid : validate_schema p ≡ ok tt
  pub sig_length : length parts.sig ≡ 64
  pub pk_length : length parts.pk ≡ 32
  pub key_bound : derive_key_id n parts.pk ≡ p.key_id
  pub key_trusted : IsTrustedKey trusted p.key_id
  pub signed : IsSigned n parts
  pub begun : num_lt opts.now (num_sub p.not_before (skew_of opts.clock_skew_secs)) ≡ false
  pub unexpired : num_lt (num_add p.expires_at (skew_of opts.clock_skew_secs)) opts.now ≡ false
  pub on_device : AllowsDevice p.device_policy.bound_hwids opts.device_hwid
  pub unrevoked : All (λ r. r ≢ p.license_id) opts.revoked

is_active_sound : (s : KeyStatus) → is_active s ≡ true → s ≡ active
is_active_sound active h = refl
is_active_sound retired h = cc

is_trusted_sound :
    (trusted : Option TrustedKeys) (id : Text)
    → is_trusted trusted id ≡ true
    → IsTrustedKey trusted id
unfolding is_trusted
is_trusted_sound none id h = cc
is_trusted_sound (some t) id h = elim (Option-cases (find id t.keys)) [
  | inl missing ↦ absurd (false≢true (rw missing at h))
  | inr (r, found) ↦ (t, r, refl, found, is_active_sound r.status (rw found at h))
]

pub is_trusted_complete :
    (trusted : Option TrustedKeys) (id : Text)
    → IsTrustedKey trusted id
    → is_trusted trusted id ≡ true
unfolding is_trusted
is_trusted_complete trusted id (t, r, e, f, a) = rw (e, is_trusted) (rw (f, a))

-- `is_bound` in words.
includes-map_iff :
    (f : Text → Text) (ts : List Text) (s : Text)
    → (includes (map f ts) s ≡ true) ↔ Any (λ t. f t ≡ s) ts
unfolding includes
includes-map_iff f [] s = (λ h. cc, λ h. absurd h)
includes-map_iff f (t ∷ ts) s = ground (arith, includes-map_iff f ts s, text_eq_iff (f t) s)

named_device :
    {b : JsonValue} {bs : List JsonValue} {h : Text}
    → AllowsDevice (b ∷ bs) (some h)
    → Any (λ t. normalize_hwid t ≡ normalize_hwid h) (hwid_texts (b ∷ bs))
named_device (inl e) = cc
named_device {h} (inr (h', e, _, any)) = let same : h ≡ h' = cc in rw same any

device_test_iff :
    (bound : List JsonValue) (hwid : Option Text)
    → ((is_empty bound || is_bound bound hwid) ≡ true) ↔ AllowsDevice bound hwid
unfolding is_bound
device_test_iff [] hwid = (λ h. inl refl, λ h. refl)
device_test_iff (b ∷ bs) none = (λ h. cc, λ h. ground arith)
device_test_iff (b ∷ bs) (some []) = (λ h. cc, λ h. ground arith)
device_test_iff (b ∷ bs) (some (c ∷ h)) =
    let (to, from) =
      includes-map_iff normalize_hwid (hwid_texts (b ∷ bs)) (normalize_hwid (c ∷ h)) in
    (λ e. inr (c ∷ h, refl, (λ q. cc), to e), λ a. from (named_device a))

pub check_policy_iff :
    (p q : LicensePayload) (opts : VerifyOptions)
    → (check_policy p opts ≡ ok q) ↔ (
        (p ≡ q)
        × (num_lt opts.now (num_sub p.not_before (skew_of opts.clock_skew_secs)) ≡ false)
        × (num_lt (num_add p.expires_at (skew_of opts.clock_skew_secs)) opts.now ≡ false)
        × AllowsDevice p.device_policy.bound_hwids opts.device_hwid
        × All (λ r. r ≢ p.license_id) opts.revoked)
unfolding check_policy
check_policy_iff p q opts =
    let (device_to, device_from) = device_test_iff p.device_policy.bound_hwids opts.device_hwid in
    let (revoked_to, revoked_from) = includes-false_iff opts.revoked p.license_id in
    (
      λ h.
          let (begun, h1) = guard-eq-ok _ _ _ h in
          let (unexpired, h2) = guard-eq-ok _ _ _ h1 in
          let (on_device, h3) = guard-eq-ok _ _ _ h2 in
          let (unrevoked, h4) = guard-eq-ok _ _ _ h3 in
          (
            ok-injective h4,
            not-true begun,
            not-true unexpired,
            device_to on_device,
            revoked_to (not-true unrevoked),
          ),
      λ (same, begun, unexpired, on_device, unrevoked).
          rw (begun, unexpired, device_from on_device, revoked_from unrevoked) (ap ok same),
    )

check_signature_sound :
    (n : Noble) (parts : EnvelopeParts) → check_signature n parts ≡ ok tt → IsSigned n parts
unfolding check_signature
check_signature_sound n parts h =
    let (v, parsed, h1) = from_option-eq-ok (parse_json parts.payload_json) exception _ h in
    let (c, written, h2) = from_option-eq-ok (canonical_json v) exception _ h1 in
    (v, c, parsed, written, guard_sound _ _ h2)

check_signature_complete :
    (n : Noble) (parts : EnvelopeParts) → IsSigned n parts → check_signature n parts ≡ ok tt
unfolding check_signature
check_signature_complete n parts (v, c, parsed, written, verified) = rw (parsed, written, verified)

verify_parts_sound :
    (n : Noble) (parts : EnvelopeParts) (trusted : Option TrustedKeys) (opts : VerifyOptions)
    (p q : LicensePayload)
    → parse_payload_json parts.payload_json ≡ ok p
    → verify_parts n parts trusted opts ≡ ok q
    → (p ≡ q) × IsVerified n trusted opts parts p
unfolding verify_parts
verify_parts_sound n parts trusted opts p q parsed h =
    let h1 = rw (parsed, verify_parts) at h in
    let (valid, h2) = >>-eq-ok (validate_schema p) _ h1 in
    let (sig_length, h3) = guard-eq-ok _ _ _ h2 in
    let (pk_length, h4) = guard-eq-ok _ _ _ h3 in
    let (key_bound, h5) = guard-eq-ok _ _ _ h4 in
    let (key_trusted, h6) = guard-eq-ok _ _ _ h5 in
    let (signed, h7) = >>-eq-ok (check_signature n parts) _ h6 in
    let (same, begun, unexpired, on_device, unrevoked) = (check_policy_iff p q opts).0 h7 in
    (
      same,
      record {
        parsed = parsed;
        valid = valid;
        sig_length = (==_iff _ _).0 sig_length;
        pk_length = (==_iff _ _).0 pk_length;
        key_bound = text_eq_sound _ _ key_bound;
        key_trusted = is_trusted_sound trusted p.key_id key_trusted;
        signed = check_signature_sound n parts signed;
        begun = begun;
        unexpired = unexpired;
        on_device = on_device;
        unrevoked = unrevoked;
      },
    )

verify_parts_complete :
    (n : Noble) (parts : EnvelopeParts) (trusted : Option TrustedKeys) (opts : VerifyOptions)
    (p : LicensePayload)
    → IsVerified n trusted opts parts p
    → verify_parts n parts trusted opts ≡ ok p
unfolding verify_parts
verify_parts_complete n parts trusted opts p v =
    rw (v.parsed, verify_parts)
      (rw
        (
          v.valid,
          (==_iff _ _).1 v.sig_length,
          (==_iff _ _).1 v.pk_length,
          (text_eq_iff _ _).1 v.key_bound,
          is_trusted_complete trusted p.key_id v.key_trusted,
          check_signature_complete n parts v.signed,
        )
        ((check_policy_iff p p opts).1 (refl, v.begun, v.unexpired, v.on_device, v.unrevoked)))

-- `verifyLicense` returns a payload exactly when the envelope decodes to parts that hold it, the
-- schema accepts it, signature and key have their lengths, the key hashes to the declared id, that
-- id is trusted and active, the signature verifies over the canonical form of the payload text, the
-- time is within the window widened by the skew, the device is allowed and the id is not revoked.
pub verify_license_iff :
    (n : Noble) (envelope : Text) (trusted : Option TrustedKeys) (opts : VerifyOptions)
    (p : LicensePayload)
    → (verify_license n envelope trusted opts ≡ ok p) ↔ (
        (parts : EnvelopeParts) × (envelope_decode envelope ≡ ok parts)
        × IsVerified n trusted opts parts p)
unfolding verify_license
verify_license_iff n envelope trusted opts p = (to, from)
  where
    to :
        verify_license n envelope trusted opts ≡ ok p
        → (parts : EnvelopeParts) × (envelope_decode envelope ≡ ok parts)
          × IsVerified n trusted opts parts p
    to h =
        let (parts, decoded, h1) = >>=-eq-ok (envelope_decode envelope) _ h in
        let (q, parsed, _) = >>=-eq-ok (parse_payload_json parts.payload_json) _ h1 in
        let (same, v) = verify_parts_sound n parts trusted opts q p parsed h1 in
        (parts, decoded, subst (IsVerified n trusted opts parts) same v)

    from :
        (parts : EnvelopeParts) × (envelope_decode envelope ≡ ok parts)
          × IsVerified n trusted opts parts p
        → verify_license n envelope trusted opts ≡ ok p
    from (parts, decoded, v) =
        rw (decoded, verify_license) (verify_parts_complete n parts trusted opts p v)
