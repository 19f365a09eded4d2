-- ===== src/Examples/Manager.antt =====
-- The theorems on the manager at a console that is opened, gets its keys and revokes a licence.
use vor.Common.{
  ℕ, suc, ◌+◌, ◌*◌, map, trim, ◌≡◌, ◌≢◌, refl, ap, ◌∙◌, Bool, true, false, Option, none, some, List,
  [], ◌∷◌, ◌++◌, Text, codes, replicate, nat, int, pos, includes, text_eq, ◌||◌, ◌+ℤ◌, ◌-ℤ◌,
}
use vor.Canonical.{string}
use vor.License.{LicensePayload}
use vor.License.Errors.{Result, ok, err}
use vor.Keystore.{generate_keystore, trusted_from_keystore, derive_key_id, rotate_keystore}
use vor.Keystore.Rotation.{IsConsistent}
use vor.Keystore.Verify.{verify_license, is_bound}
use vor.Store.{World}
use vor.Store.License.{verify_options, or_none}
use vor.Shell.{unlock_console}
use vor.Manager.{StoredLicense, Desk, push_audit, extended}
use vor.Manager.Issued.{bind-rebinds, submit-issued}
use vor.Manager.Form.{
  IssueForm, Submitted, lasts, issued, submit_form, form_options, submit, is_empty_text, hwid_lines,
}
use vor.Hwid.{normalize_hwid}
use vor.Keystore.Issue.{IssuedLicense, issue_license, build_payload}
use vor.Manager.Operations.{bind_options}
use vor.Manager.Operations.{generate_keys, revoke, rotate, export_crl}
use vor.Manager.Session.{mount, Steps, none_yet, later, shell_unlocks, generates, mounts, exports}
use vor.Manager.Ledger.{IsIntact, Steps-IsIntact}
use vor.Manager.Ledger.Entries.{saved_log}
use vor.Manager.Ledger.Growth.{IsOrderly, Extends, Steps-Extends, rotate-deferred_loses}
use vor.Manager.Keys.{IsNew, Steps-IsConsistent}
use vor.Manager.Revocation.{rotate-trusted, revoked_never_verifies, hard_rotation_refuses}
use vor.Examples.{toy_noble}
use vor.Examples.Device.{browser}
use vor.Examples.Engines.{empty_world}
use vor.Examples.Licenses.{master, keystore, envelope, trusted, payload, at_noon}

abbrev blank : Desk (Option ℕ)
blank = record {
  world = empty_world;
  saved_keystore = none;
  saved_licenses = none;
  saved_audit = none;
  saved_forged = none;
  ks = none;
  licenses = [];
  audit = [];
  revoked = [];
  device_hwid = [];
  bind_target = none;
}

abbrev opened : Desk (Option ℕ)
opened =
    mount toy_noble browser
      (record blank { world = unlock_console 5000 (codes "1234") empty_world })

abbrev keyed : Bool → Desk (Option ℕ)
keyed eager = generate_keys toy_noble browser eager 6000 master opened

opened_unlocked : opened.world.store.manager_unlocked ≡ true
unfolding mount unlock_console vor.Common.trim vor.Store.Actions.set_manager_unlocked
opened_unlocked = refl

opened_ks : opened.ks ≡ none
unfolding mount unlock_console vor.Common.trim vor.Store.Actions.set_manager_unlocked
opened_ks = refl

session : (eager : Bool) → Steps toy_noble browser blank (keyed eager)
unfolding mount vor.Store.initial_store
session eager =
    later (later (none_yet blank) (shell_unlocks blank 5000 (codes "1234") refl))
      (generates opened eager 6000 master opened_unlocked opened_ks)

blank-IsNew : IsNew toy_noble blank
unfolding vor.Store.initial_store
blank-IsNew = (refl, refl)

keyed_saved : (keyed true).saved_keystore ≡ some (generate_keystore toy_noble (pos 6) master)
unfolding generate_keys
keyed_saved = refl

Steps-IsIntact_example : IsIntact toy_noble (keyed false)
Steps-IsIntact_example = Steps-IsIntact toy_noble browser (session false) (tt, tt)

-- Keys are generated with a late updater, the page is mounted again, and the console logs an export.
abbrev shown_again : Desk (Option ℕ)
shown_again = mount toy_noble browser (keyed false)

abbrev exported : Desk (Option ℕ)
exported = export_crl toy_noble 7000 shown_again

shown_again_unlocked : shown_again.world.store.manager_unlocked ≡ true
unfolding mount unlock_console vor.Common.trim vor.Store.Actions.set_manager_unlocked generate_keys
shown_again_unlocked = refl

late_session : Steps toy_noble browser blank exported
late_session =
    later (later (session false) (mounts (keyed false)))
      (exports shown_again 7000 shown_again_unlocked)

late_session-IsOrderly : IsOrderly toy_noble browser late_session
unfolding late_session session
late_session-IsOrderly =
    ((((tt, (λ _. refl), refl), (λ _. refl), refl), (λ e. cc), refl), (λ _. refl), refl)

Steps-Extends_example : Extends toy_noble [] (saved_log exported)
Steps-Extends_example =
    Steps-Extends toy_noble browser late_session late_session-IsOrderly (λ _. refl)

Steps-IsConsistent_example :
    IsConsistent toy_noble (generate_keystore toy_noble (pos 6) master)
    × ((keyed true).world.storage.trusted
        ≡ some (trusted_from_keystore (generate_keystore toy_noble (pos 6) master)))
Steps-IsConsistent_example =
    Steps-IsConsistent toy_noble browser (generate_keystore toy_noble (pos 6) master) (session true)
      blank-IsNew keyed_saved

-- The digests of two devices.
abbrev device_a : Text
device_a = replicate 64 97

abbrev device_b : Text
device_b = replicate 64 98

-- A licence with another id.
abbrev other : StoredLicense
other = record {
  license_id = codes "9999";
  org = codes "Apex";
  envelope = [];
  tier = codes "pro";
  issued_at = nat 6;
  expires_at = nat 86406;
  max_devices = nat 3;
  bound_hwids = device_a ∷ [];
  entitlements = codes "core_tunnel" ∷ [];
  metadata = none;
  revoked = false;
  revoked_reason = none;
}

abbrev after_revocation : Desk (Option ℕ)
after_revocation = revoke toy_noble 7000 other (keyed true)

keyed_unlocked : (keyed true).world.store.manager_unlocked ≡ true
unfolding generate_keys
keyed_unlocked = opened_unlocked

after_revoked : after_revocation.world.storage.revoked ≡ some (codes "9999" ∷ [])
unfolding revoke generate_keys vor.Common.includes mount unlock_console vor.Common.trim
    vor.Store.Actions.set_manager_unlocked
after_revoked = refl

accepted_when_other :
    (hwid : Option Text)
    → verify_license toy_noble envelope trusted (record {
      now = nat 2000;
      clock_skew_secs = none;
      device_hwid = hwid;
      revoked = codes "9999" ∷ [];
    })
      ≡ ok payload
unfolding verify_license vor.Keystore.Issue.issue_license vor.Keystore.Issue.build_payload
    generate_keystore trusted_from_keystore vor.License.envelope_decode
    vor.License.Schema.validate_schema vor.Common.◌+ℤ◌ derive_key_id vor.Crypto.sha256_hex
    vor.License.Payload.payload_to_canonical vor.Crypto.from_hex vor.License.envelope_encode
    vor.Crypto.b64url_encode vor.Keystore.active_key_of vor.Keystore.Dictionary.find
    vor.Crypto.b64url_decode vor.Common.decode_fatal vor.License.Payload.parse_payload_json
    vor.Keystore.is_trusted vor.Common.◌-ℤ◌ vor.Common.includes
accepted_when_other hwid = refl

still_accepted :
    verify_license toy_noble envelope trusted
      (verify_options 2000000 after_revocation.world.storage)
    ≡ ok payload
still_accepted =
    ap
      (λ r. verify_license toy_noble envelope trusted (record {
        now = nat 2000;
        clock_skew_secs = none;
        device_hwid = after_revocation.world.storage.hwidentity;
        revoked = or_none r;
      }))
      after_revoked
    ∙ accepted_when_other after_revocation.world.storage.hwidentity

revoked_never_verifies_example : payload.license_id ≢ codes "9999"
revoked_never_verifies_example =
    revoked_never_verifies toy_noble browser 7000 2000000 other envelope trusted payload blank-IsNew
      (session true) keyed_unlocked (none_yet after_revocation) tt still_accepted

accepted_by_rotated :
    verify_license toy_noble envelope
      (some (trusted_from_keystore (rotate_keystore toy_noble keystore (pos 8) true master)))
      at_noon
    ≡ ok payload
unfolding verify_license vor.Keystore.Issue.issue_license vor.Keystore.Issue.build_payload
    generate_keystore trusted_from_keystore vor.License.envelope_decode
    vor.License.Schema.validate_schema vor.Common.◌+ℤ◌ derive_key_id vor.Crypto.sha256_hex
    vor.License.Payload.payload_to_canonical vor.Crypto.from_hex vor.License.envelope_encode
    vor.Crypto.b64url_encode vor.Keystore.active_key_of vor.Keystore.Dictionary.find
    vor.Crypto.b64url_decode vor.Common.decode_fatal vor.License.Payload.parse_payload_json
    vor.Keystore.is_trusted vor.Common.◌-ℤ◌ rotate_keystore vor.Keystore.Dictionary.put
    vor.Keystore.Dictionary.map_values
accepted_by_rotated = refl

rotated_accepts :
    verify_license toy_noble envelope
      (rotate toy_noble browser true 8000 true master keystore (keyed true)).world.storage.trusted
      at_noon
    ≡ ok payload
rotated_accepts =
    ap (λ t. verify_license toy_noble envelope t at_noon)
      (rotate-trusted toy_noble browser true 8000 true master keystore (keyed true))
    ∙ accepted_by_rotated

hard_rotation_refuses_example : payload.key_id ≡ derive_key_id toy_noble master
hard_rotation_refuses_example =
    hard_rotation_refuses toy_noble browser true 8000 master keystore (keyed true) envelope at_noon
      payload rotated_accepts

rotate-deferred_loses_example :
    saved_log (
      push_audit toy_noble 9000
        (codes "CRL_EXPORT")
        []
        (rotate toy_noble browser false 8000 false master keystore (keyed true)))
    ≡ extended toy_noble 9000 (codes "CRL_EXPORT") [] (saved_log (keyed true))
rotate-deferred_loses_example =
    rotate-deferred_loses toy_noble browser 8000 9000 false master keystore (codes "CRL_EXPORT") []
      (keyed true)

abbrev issued_or : Result IssuedLicense → IssuedLicense
issued_or (ok i) = i
issued_or (err e) = record { envelope = []; file = []; payload = payload }

abbrev bound_issue : Result IssuedLicense
bound_issue =
    issue_license toy_noble keystore
      (build_payload (bind_options 7000 8000 keystore other device_b) [])

bound_issued : bound_issue ≡ ok (issued_or bound_issue)
unfolding issue_license vor.License.Schema.validate_schema build_payload bind_options
    generate_keystore derive_key_id vor.Crypto.sha256_hex vor.Common.◌+ℤ◌ vor.Common.◌-ℤ◌
    vor.Store.Actions.distinct vor.License.Payload.payload_to_canonical vor.Crypto.from_hex
bound_issued = refl

bind-rebinds_example :
    ((issued_or bound_issue).payload.license_id ≡ codes "9999")
    × ((issued_or bound_issue).payload.expires_at ≡ int (pos 7 +ℤ (pos 86406 -ℤ pos 8)))
    × (is_bound (issued_or bound_issue).payload.device_policy.bound_hwids (some device_b) ≡ (
        includes (normalize_hwid device_a ∷ []) (normalize_hwid device_b)
        || text_eq (normalize_hwid device_b) (normalize_hwid device_b)))
bind-rebinds_example =
    bind-rebinds toy_noble 7000 8000 keystore other device_b (issued_or bound_issue) (pos 86406) 98
      (replicate 63 98) refl bound_issued

abbrev form : IssueForm
form = record {
  org = codes " Apex ";
  tier = codes "pro";
  days = lasts (pos 43200);
  max_devices = nat 3;
  hwids = codes "  " ++ (device_a ++ codes "\n\n");
  ents = codes "core_tunnel" ∷ [];
  meta = [];
}

abbrev form_issue : Result IssuedLicense
form_issue =
    issue_license toy_noble keystore (build_payload (form_options 7000 keystore form) (codes "77"))

abbrev row_or : Submitted → StoredLicense
row_or (issued i s) = s
row_or _ = other

form_issued :
    submit toy_noble 7000 (codes "77") keystore form
    ≡ issued (issued_or form_issue) (row_or (submit toy_noble 7000 (codes "77") keystore form))
unfolding submit vor.Common.trim issue_license vor.License.Schema.validate_schema build_payload
    generate_keystore derive_key_id vor.Crypto.sha256_hex vor.Common.◌+ℤ◌ vor.Common.split
    vor.License.Payload.payload_to_canonical vor.Crypto.from_hex
form_issued = refl

abbrev form_row : StoredLicense
form_row = row_or (submit toy_noble 7000 (codes "77") keystore form)

submit-issued_example :
    (is_empty_text (trim form.org) ≡ false)
    × ((k : ℕ) × (lasts (pos 43200) ≡ lasts (pos (suc k)))
        × ((issued_or form_issue).payload.expires_at ≡ nat (7 + suc k)))
    × ((issued_or form_issue).payload.license_id ≡ codes "77")
    × ((issued_or form_issue).payload.device_policy.bound_hwids
        ≡ map (λ h. string (normalize_hwid h)) (hwid_lines form.hwids))
    × (form_row.license_id ≡ codes "77")
    × (form_row.expires_at ≡ (issued_or form_issue).payload.expires_at)
    × (form_row.envelope ≡ (issued_or form_issue).envelope)
    × (form_row.bound_hwids ≡ map normalize_hwid (hwid_lines form.hwids))
    × (form_row.revoked ≡ false)
    × ((submit_form toy_noble 7000 (codes "77") keystore form shown_again).licenses
        ≡ shown_again.licenses ++ form_row ∷ [])
    × ((submit_form toy_noble 7000 (codes "77") keystore form shown_again).saved_licenses
        ≡ some (shown_again.licenses ++ form_row ∷ []))
submit-issued_example =
    submit-issued toy_noble 7000 (codes "77") keystore form (issued_or form_issue) form_row
      shown_again form_issued
