-- ===== src/Manager/Form.antt =====
-- The form of `IssueModal` in ManagerView.tsx, its `submit`, and what the console does with a licence
-- that was issued.
use vor.Common.{
  ℕ, Bool, true, false, not, none, some, List, [], ◌∷◌, ◌++◌, map, filter, if◌then◌else◌, Text,
  codes, text_eq, includes, trim, split, ℤ, pos, Number, nan, int, nat,
}
use vor.Crypto.{Noble}
use vor.License.{LicensePayload}
use vor.License.Errors.{Thrown, Result, ok, err}
use vor.Keystore.{KeyStore}
use vor.Keystore.Issue.{PayloadOptions, build_payload, IssuedLicense, issue_license}
use vor.Keystore.Verify.{hwid_texts}
use vor.Store.{success, log_event}
use vor.Store.License.{now_secs}
use vor.Manager.{StoredLicense, Desk, push_audit}
use vor.Manager.Operations.{short_license_id, some_text, log_manager}

-- What `submit` reads of `Number(days)`: whether it is finite, whether it is zero, and else
-- `Math.round(d * 86_400)`, the seconds that `buildPayload` makes of it. The days may be a fraction.
pub data Duration : Type 0 where
  not_finite zero_days : Duration
  lasts : ℤ → Duration

-- `max_devices` is the number that the text of that field denotes.
pub record IssueForm : Type 0 where
  pub org : Text
  pub tier : Text
  pub days : Duration
  pub max_devices : Number
  pub hwids : Text
  pub ents : List Text
  pub meta : Text

pub data Submitted : Type 0 where
  no_org bad_duration : Submitted
  threw : Thrown → Submitted
  issued : IssuedLicense → StoredLicense → Submitted

abbrev pub is_empty_text : Text → Bool
is_empty_text [] = true
is_empty_text (c ∷ s) = false

-- `!Number.isFinite(d) || d === 0`
abbrev pub is_bad_duration : Duration → Bool
is_bad_duration not_finite = true
is_bad_duration zero_days = true
is_bad_duration (lasts z) = false

-- Only a duration that is not bad gets here.
abbrev pub duration_seconds : Duration → ℤ
duration_seconds (lasts z) = z
duration_seconds _ = pos 0

-- `Number(maxDevices) || 0`
abbrev pub number_or_zero : Number → Number
number_or_zero nan = nat 0
number_or_zero (int z) = int z

-- The lines of the field, trimmed, without the empty ones.
abbrev pub hwid_lines : Text → List Text
hwid_lines hwids = filter (λ x. not (is_empty_text x)) (map trim (split 10 hwids))

unfoldable pub form_options : ℕ → KeyStore → IssueForm → PayloadOptions
form_options now ks form = record {
  now = pos (now_secs now);
  seconds = duration_seconds form.days;
  key_id = ks.active_key_id;
  tier = form.tier;
  entitlements = form.ents;
  max_devices = number_or_zero form.max_devices;
  bound_hwids = hwid_lines form.hwids;
  metadata = some form.meta;
  license_id = none;
  not_before = none;
}

abbrev pub summary_of : IssueForm → LicensePayload → IssuedLicense → StoredLicense
summary_of form p i = record {
  license_id = p.license_id;
  org = trim form.org;
  envelope = i.envelope;
  tier = form.tier;
  issued_at = p.issued_at;
  expires_at = p.expires_at;
  max_devices = p.device_policy.max_devices;
  bound_hwids = hwid_texts p.device_policy.bound_hwids;
  entitlements = form.ents;
  metadata = some_text form.meta;
  revoked = false;
  revoked_reason = none;
}

abbrev pub submitted : IssueForm → LicensePayload → Result IssuedLicense → Submitted
submitted form p (ok i) = issued i (summary_of form p i)
submitted form p (err e) = threw e

-- The check boxes of the entitlements.
unfoldable pub toggle_entitlement : Text → List Text → List Text
toggle_entitlement e prev =
    if includes prev e then filter (λ x. not (text_eq x e)) prev else prev ++ e ∷ []

-- The button that fills in this device's HWID.
abbrev pub use_this_device : Text → Text → Text
use_this_device device_hwid hwids = if is_empty_text (trim hwids) then device_hwid else hwids

module _ (n : Noble) where
  -- `submit`; the text is the result of `crypto.randomUUID()`.
  unfoldable pub submit : ℕ → Text → KeyStore → IssueForm → Submitted
  unfolding form_options
  submit now uuid ks form =
      let p = build_payload (form_options now ks form) uuid in
      if is_empty_text (trim form.org)
      then no_org
      else if is_bad_duration form.days
      then bad_duration
      else submitted form p (issue_license n ks p)

  module _ {F : Type 0} where
    -- `onIssued`
    unfoldable pub on_issued : ℕ → KeyStore → StoredLicense → Desk F → Desk F
    unfolding push_audit log_event
    on_issued now ks summary d =
        let next = d.licenses ++ summary ∷ [] in
        log_manager now success (
          push_audit n now (codes "SIG_ISSUED")
            (codes "key "
              ++ (ks.active_key_id
                  ++ (codes " authorized license "
                      ++ (short_license_id summary.license_id ++ (codes " for " ++ summary.org)))))
            (record d { saved_licenses = some next; licenses = next }))

    abbrev pub settle_submit : ℕ → KeyStore → Submitted → Desk F → Desk F
    settle_submit now ks (issued i summary) d = on_issued now ks summary d
    settle_submit now ks _ d = d

    unfoldable pub submit_form : ℕ → Text → KeyStore → IssueForm → Desk F → Desk F
    unfolding submit on_issued
    submit_form now uuid ks form d = settle_submit now ks (submit now uuid ks form) d
