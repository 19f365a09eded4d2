-- ===== src/Keystore/Issue/Expired.antt =====
-- Issuing a licence that has already expired.
use vor.Common.{◌≡◌, ◌≢◌, true, arith, Text, ℤ, pos, ◌+ℤ◌, ◌≤ℤ◌, leb_ℤ, +ℤ_parts}
use vor.Crypto.{Noble}
use vor.License.Schema.{validate_schema}
use vor.License.Schema.Accepts.{validate_schema_iff}
use vor.License.Errors.{ok, >>-eq-ok}
use vor.Keystore.{KeyStore}
use vor.Keystore.Issue.{PayloadOptions, or_now, build_payload, IssuedLicense, issue_license}

ends_before : (a s : ℤ) → s ≤ℤ pos 0 → leb_ℤ (a +ℤ s) a ≡ true
ends_before a s h = ground (arith, +ℤ_parts a s)

-- A payload built for a duration of 0 days or less never passes the schema, so no licence is issued
-- for it: the console's "negative = already expired" and the demo's expired licence both fail.
pub issue_expired_fails :
    (n : Noble) (ks : KeyStore) (opts : PayloadOptions) (fresh : Text) (issued : IssuedLicense)
    → opts.seconds ≤ℤ pos 0
    → issue_license n ks (build_payload opts fresh) ≢ ok issued
unfolding issue_license build_payload
issue_expired_fails n ks opts fresh issued h e =
    let (valid, _) = >>-eq-ok (validate_schema (build_payload opts fresh)) _ e in
    let v = (validate_schema_iff (build_payload opts fresh)).0 valid in
    cc (v.ends_after, ends_before (or_now opts.not_before opts.now) opts.seconds h)
