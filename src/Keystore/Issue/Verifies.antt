-- ===== src/Keystore/Issue/Verifies.antt =====
-- A licence that was issued is accepted, where the policy lets its payload through.
use vor.Common.{
  ◌<◌, ◌≡◌, refl, sym, ap, ◌∙◌, subst, true, Option, none, some, List, [], ◌∷◌, map, length, arith,
  All, Text, text_eq, text_eq_iff, trim, Bytes, utf8,
}
use vor.Crypto.{Noble, to_hex, from_hex}
use vor.Hwid.{normalize_hwid}
use vor.Canonical.{string, canonical_json}
use vor.Canonical.Quote.{IsBasic}
use vor.Canonical.Reads.Sorted.{normal, IsPlain}
use vor.Canonical.RoundTrip.{parse_json-canonical_json, some-injective}
use vor.Canonical.RoundTrip.Fixed.{canonical_json-normal}
use vor.Canonical.RoundTrip.Basic.{canonical_json-AllBasic, canonical_json-brace}
use vor.License.{LicensePayload, EnvelopeParts, envelope_encode, envelope_decode}
use vor.License.Envelope.{envelope_decode-envelope_encode}
use vor.License.Errors.{
  exception, ok, guard, ok-injective, >>=-eq-ok, >>-eq-ok, guard_sound, from_option-eq-ok,
  from_option_sound,
}
use vor.License.Payload.{payload_members, payload_value, payload_to_canonical}
use vor.License.Payload.ReadBack.{IsKept, parse_payload_json-payload_to_canonical}
use vor.License.Schema.{validate_schema}
use vor.Keystore.{KeyStore, active_key_of, trusted_from_keystore}
use vor.Keystore.Rotation.{IsConsistent}
use vor.Keystore.Issue.{
  PayloadOptions, unless_empty, trimmed_metadata, build_payload, IssuedLicense, public_of,
  sign_canonical, issue_license,
}
use vor.Keystore.Verify.{VerifyOptions, check_policy, verify_license}
use vor.Keystore.Verify.Sound.{IsVerified, IsTrustedKey, check_policy_iff, verify_license_iff}

abbrev pub AreBytes : Bytes → Type 0
AreBytes bs = All (λ b. b < 256) bs

-- What the packages of noble document: hex is read back, signatures and keys are 64 and 32 bytes, and
-- a signature verifies for its message under the public key of its secret.
pub record IsNoble (n : Noble) : Type 0 where
  pub hex_back : (b : Bytes) → AreBytes b → n.hex_to_bytes (n.bytes_to_hex b) ≡ some b
  pub hex_trimmed : (b : Bytes) → AreBytes b → trim (n.bytes_to_hex b) ≡ n.bytes_to_hex b
  pub sig_length : (m sk : Bytes) → length (n.sign m sk) ≡ 64
  pub sig_bytes : (m sk : Bytes) → AreBytes (n.sign m sk)
  pub key_length : (sk : Bytes) → length (n.public_key sk) ≡ 32
  pub key_bytes : (sk : Bytes) → AreBytes (n.public_key sk)
  pub verifies : (m sk : Bytes) → n.verify (n.sign m sk) m (n.public_key sk) ≡ true

from_hex-to_hex :
    (n : Noble) (laws : IsNoble n) (b : Bytes) → AreBytes b → from_hex n (to_hex n b) ≡ some b
unfolding from_hex to_hex
from_hex-to_hex n laws b h = ap n.hex_to_bytes (laws.hex_trimmed b h) ∙ laws.hex_back b h

-- What `issueLicense` did, if it returned: the parts of the envelope under a consistent keystore.
record Issued (n : Noble) (ks : KeyStore) (secret : Bytes) (p : LicensePayload) (i : IssuedLicense)
    : Type 0 where
  canonical : Text
  valid : validate_schema p ≡ ok tt
  named : p.key_id ≡ ks.active_key_id
  written : payload_to_canonical p ≡ ok canonical
  sealed :
      i.envelope ≡ envelope_encode canonical (n.sign (utf8 canonical) secret) (n.public_key secret)

module _ (n : Noble) (laws : IsNoble n) (ks : KeyStore) (c : IsConsistent n ks)
    (secret_bytes : AreBytes c.secret) where
  signing_secret : (sk : Bytes) → from_hex n ks.signing_key ≡ some sk → c.secret ≡ sk
  signing_secret sk h =
      some-injective
        (sym (from_hex-to_hex n laws c.secret secret_bytes) ∙ ap (from_hex n) (sym c.signing) ∙ h)

  public_key :
      (pk : Bytes)
      → from_hex n (public_of (active_key_of (some ks))) ≡ some pk
      → n.public_key c.secret ≡ pk
  public_key pk h = some-injective (
      sym (from_hex-to_hex n laws (n.public_key c.secret) (laws.key_bytes c.secret))
      ∙ ap (from_hex n) (sym c.public)
      ∙ ap (λ o. from_hex n (public_of o)) (sym c.listed)
      ∙ h)

  issue_license-Issued :
      (p : LicensePayload) (i : IssuedLicense)
      → issue_license n ks p ≡ ok i
      → Issued n ks c.secret p i
  unfolding issue_license sign_canonical
  issue_license-Issued p i h =
      let (valid, h1) = >>-eq-ok (validate_schema p) _ h in
      let (named, h2) = >>-eq-ok (guard (text_eq p.key_id ks.active_key_id) _) _ h1 in
      let (t, written, h3) = >>=-eq-ok (payload_to_canonical p) _ h2 in
      let (sig, signs, h4) = >>=-eq-ok (sign_canonical n ks t) _ h3 in
      let (sk, secret, h5) = from_option-eq-ok (from_hex n ks.signing_key) exception _ signs in
      let (pk, public, h6) =
        from_option-eq-ok (from_hex n (public_of (active_key_of (some ks)))) exception _ h4 in
      record {
        canonical = t;
        valid = valid;
        named = (text_eq_iff p.key_id ks.active_key_id).0 (guard_sound _ _ named);
        written = written;
        sealed =
            sym (ap (λ j. j.envelope) (ok-injective h6))
            ∙ ap (λ s. envelope_encode t s pk) (sym (ok-injective h5))
            ∙ ap (λ s. envelope_encode t (n.sign (utf8 t) s) pk) (sym (signing_secret sk secret))
            ∙ ap (envelope_encode t (n.sign (utf8 t) c.secret)) (sym (public_key pk public));
      }

  -- The canonical text of a payload starts with a brace.
  starts_object :
      (p : LicensePayload) (t : Text) → payload_to_canonical p ≡ ok t → (s : Text) × (t ≡ 123 ∷ s)
  unfolding payload_to_canonical payload_value
  starts_object p t h =
      canonical_json-brace (payload_members p) t
        (from_option_sound (canonical_json (payload_value p)) exception h)

  trusted_key : IsTrustedKey (some (trusted_from_keystore ks)) ks.active_key_id
  unfolding trusted_from_keystore active_key_of
  trusted_key = (trusted_from_keystore ks, c.entry, refl, c.listed, c.in_use)

  module _ (p : LicensePayload) (es hs : List Text) (plain : IsPlain (payload_value p))
      (kept : IsKept p.metadata) (entitled : p.entitlements ≡ map string es)
      (bound : p.device_policy.bound_hwids ≡ map string hs) (i : IssuedLicense) (v : VerifyOptions)
      (issues : issue_license n ks p ≡ ok i) (passes : check_policy p v ≡ ok p) where
    parts_of : Text → EnvelopeParts
    parts_of t = record {
      payload_json = t;
      sig = n.sign (utf8 t) c.secret;
      pk = n.public_key c.secret;
    }

    parts_verify :
        (t : Text)
        → validate_schema p ≡ ok tt
        → p.key_id ≡ ks.active_key_id
        → payload_to_canonical p ≡ ok t
        → IsVerified n (some (trusted_from_keystore ks)) v (parts_of t) p
    unfolding parts_of payload_to_canonical
    parts_verify t valid named written =
        let canonical = from_option_sound (canonical_json (payload_value p)) exception written in
        let (_, begun, unexpired, on_device, unrevoked) = (check_policy_iff p p v).0 passes in
        record {
          parsed =
              parse_payload_json-payload_to_canonical p t es hs plain kept entitled bound written;
          valid = valid;
          sig_length = laws.sig_length (utf8 t) c.secret;
          pk_length = laws.key_length c.secret;
          key_bound = sym c.derived ∙ sym named;
          key_trusted =
              subst (IsTrustedKey (some (trusted_from_keystore ks))) (sym named) trusted_key;
          signed = (
            normal (payload_value p),
            t,
            parse_json-canonical_json (payload_value p) t plain canonical,
            canonical_json-normal (payload_value p) t canonical,
            laws.verifies (utf8 t) c.secret,
          );
          begun = begun;
          unexpired = unexpired;
          on_device = on_device;
          unrevoked = unrevoked;
        }

    decodes :
        (t : Text)
        → payload_to_canonical p ≡ ok t
        → envelope_decode (envelope_encode t (n.sign (utf8 t) c.secret) (n.public_key c.secret))
          ≡ ok (parts_of t)
    unfolding parts_of payload_to_canonical
    decodes t written =
        let (s, brace) = starts_object p t written in
        let canonical = from_option_sound (canonical_json (payload_value p)) exception written in
        let basic =
          subst (All IsBasic) brace (canonical_json-AllBasic (payload_value p) t canonical plain) in
        let sig = n.sign (utf8 t) c.secret in
        ap (λ u. envelope_decode (envelope_encode u sig (n.public_key c.secret))) brace
        ∙ envelope_decode-envelope_encode 123 s sig (n.public_key c.secret) (λ e. omega (arith, e))
            basic (laws.sig_bytes (utf8 t) c.secret) (laws.key_bytes c.secret)
        ∙ ap (λ u. ok (record { payload_json = u; sig = sig; pk = n.public_key c.secret }))
            (sym brace)

    issued_verifies : verify_license n i.envelope (some (trusted_from_keystore ks)) v ≡ ok p
    issued_verifies =
        let d = issue_license-Issued p i issues in
        ap (λ e. verify_license n e (some (trusted_from_keystore ks)) v) d.sealed
        ∙ (verify_license_iff n _ (some (trusted_from_keystore ks)) v p).1 (
          parts_of d.canonical,
          decodes d.canonical d.written,
          parts_verify d.canonical d.valid d.named d.written,
        )

unless_empty-IsKept : (t : Text) → IsKept (unless_empty t)
unless_empty-IsKept [] = tt
unless_empty-IsKept (c ∷ s) = tt

trimmed_metadata-IsKept : (o : Option Text) → IsKept (trimmed_metadata o)
trimmed_metadata-IsKept none = tt
trimmed_metadata-IsKept (some t) = unless_empty-IsKept (trim t)

bound_texts :
    (hs : List Text) → map (λ h. string (normalize_hwid h)) hs ≡ map string (map normalize_hwid hs)
bound_texts [] = refl
bound_texts (h ∷ hs) = ap (λ vs. string (normalize_hwid h) ∷ vs) (bound_texts hs)

-- What `issueLicense` issues of a payload of `buildPayload` is accepted by `verifyLicense` with the
-- keys of that keystore and gives that payload, if the keystore is consistent, its secret is a
-- sequence of bytes, no text of the payload has a surrogate, the policy's checks let the payload
-- through, and the packages of noble do what they document.
pub verify_license-issue_license :
    (n : Noble) (laws : IsNoble n) (ks : KeyStore) (c : IsConsistent n ks) (opts : PayloadOptions)
    (uuid : Text) (i : IssuedLicense) (v : VerifyOptions)
    → AreBytes c.secret
    → IsPlain (payload_value (build_payload opts uuid))
    → issue_license n ks (build_payload opts uuid) ≡ ok i
    → check_policy (build_payload opts uuid) v ≡ ok (build_payload opts uuid)
    → verify_license n i.envelope (some (trusted_from_keystore ks)) v ≡ ok (build_payload opts uuid)
unfolding build_payload
verify_license-issue_license n laws ks c opts uuid i v secret_bytes plain issues passes =
    issued_verifies n laws ks c secret_bytes (build_payload opts uuid) opts.entitlements
      (map normalize_hwid opts.bound_hwids) plain (trimmed_metadata-IsKept opts.metadata) refl
      (bound_texts opts.bound_hwids) i v issues passes
