-- ===== src/Manager/Operations.antt =====
-- The handlers of ManagerView.tsx: unlocking, key generation and rotation, revocation, binding,
-- issuing, the trust snapshot, the revocation list and the forged demo.
use vor.Common.{
  ℕ, ◌*◌, ◌-◌, Bool, true, Option, none, some, List, [], ◌∷◌, ◌++◌, map, leb, if◌then◌else◌, length,
  take, Text, codes, text_eq, includes, trim, split, join, ℤ, pos, Number, nan, int, nat, num_sub,
  decimal,
}
use vor.Crypto.{Noble}
use vor.Hwid.{Browser, normalize_hwid, hwid_display}
use vor.License.Errors.{Result, ok, err}
use vor.Keystore.{KeyStore, trusted_from_keystore, generate_keystore, rotate_keystore}
use vor.Keystore.Issue.{PayloadOptions, build_payload, IssuedLicense, issue_license}
use vor.Keystore.Verify.{hwid_texts}
use vor.Store.{Level, warn, error, success, log_event}
use vor.Store.License.{now_secs}
use vor.Store.Actions.{distinct, set_manager_unlocked}
use vor.Manager.{StoredLicense, Desk, push_audit, push_and_reload}

-- `id.slice(0, 8)`
abbrev pub short_license_id : Text → Text
short_license_id id = take 8 id

-- The number of a payload that `buildPayload` made: it is never NaN.
abbrev pub whole : Number → ℤ
whole nan = pos 0
whole (int z) = z

-- `metadata || undefined`
abbrev pub some_text : Text → Option Text
some_text [] = none
some_text (c ∷ s) = some (c ∷ s)

-- `label || other`
abbrev pub label_or : Text → Text → Text
label_or [] other = other
label_or (c ∷ s) other = c ∷ s

abbrev pub revocation_reason : Text
revocation_reason = codes "operator revocation (console)"

abbrev pub mark_revoked : Text → StoredLicense → StoredLicense
mark_revoked id x =
    if text_eq x.license_id id
    then record x { revoked = true; revoked_reason = some revocation_reason }
    else x

abbrev pub add_id : Text → List Text → List Text
add_id id prev = if includes prev id then prev else prev ++ id ∷ []

abbrev pub with_envelope : Text → Text → List Text → StoredLicense → StoredLicense
with_envelope id envelope hwids x =
    if text_eq x.license_id id then record x { envelope = envelope; bound_hwids = hwids } else x

-- What the re-signed licence of `bindHwid` is built from. `days` is (expires_at - then) / 86400, by a
-- second reading of the clock, and its `Math.round(days * 86_400)` is the difference itself.
unfoldable pub bind_options : ℕ → ℕ → KeyStore → StoredLicense → Text → PayloadOptions
bind_options now second_now ks l hwid = record {
  now = pos (now_secs now);
  seconds = whole (num_sub l.expires_at (nat (now_secs second_now)));
  key_id = ks.active_key_id;
  tier = l.tier;
  entitlements = l.entitlements;
  max_devices = l.max_devices;
  bound_hwids = distinct [] (l.bound_hwids ++ normalize_hwid hwid ∷ []);
  metadata = l.metadata;
  license_id = some l.license_id;
  not_before = none;
}

-- The demo licence of the key operations.
abbrev pub demo_options : ℕ → KeyStore → PayloadOptions
demo_options now ks = record {
  now = pos (now_secs now);
  seconds = pos (365 * 86400);
  key_id = ks.active_key_id;
  tier = codes "pro";
  entitlements = codes "core_tunnel" ∷ [];
  max_devices = nat 0;
  bound_hwids = [];
  metadata = some (codes "demo seed");
  license_id = none;
  not_before = none;
}

-- The payload part of an envelope with its last four units replaced.
abbrev pub tamper_parts : List Text → List Text
tamper_parts (p0 ∷ p1 ∷ ps) = p0 ∷ (take (length p1 - 4) p1 ++ codes "AAAA") ∷ take 2 ps
tamper_parts ps = ps

module _ {F : Type 0} where
  abbrev pub log_manager : ℕ → Level → Desk F → Desk F
  log_manager now level d = record d { world = log_event now (codes "manager") level d.world }

  -- `lsSet('vor.keystore', ks)` and `lsSet('vor.trusted', trustedFromKeystore(ks))`
  unfoldable pub save_keys : KeyStore → Desk F → Desk F
  save_keys ks d =
      let w = d.world in
      let st = w.storage in
      record d {
        world = record w { storage = record st { trusted = some (trusted_from_keystore ks) } };
        saved_keystore = some ks;
      }

  unfoldable pub unlock : Text → Desk F → Desk F
  unlock passcode d =
      if leb 4 (length (trim passcode))
      then record d { world = set_manager_unlocked true d.world }
      else d

  module _ (n : Noble) (b : Browser) where
    -- GENERATE KEYSTORE
    unfoldable pub generate_keys : Bool → ℕ → List ℕ → Desk F → Desk F
    unfolding push_and_reload save_keys log_event
    generate_keys eager now secret d =
        let store = generate_keystore n (pos (now_secs now)) secret in
        push_and_reload n b eager now (codes "KEYGEN")
          (codes "keystore created — active key " ++ store.active_key_id)
          (log_manager now success (save_keys store d))

    unfoldable pub rotate : Bool → ℕ → Bool → List ℕ → KeyStore → Desk F → Desk F
    unfolding push_and_reload save_keys log_event
    rotate eager now retire_old secret ks d =
        let next = rotate_keystore n ks (pos (now_secs now)) retire_old secret in
        push_and_reload n b eager now (codes (if retire_old then "ROTATE_HARD" else "ROTATE_SOFT"))
          (codes "active key → "
            ++ (next.active_key_id
                ++ codes (
                    if retire_old
                    then " (old keys RETIRED — fail-closed)"
                    else " (old keys stay verifiable)")))
          (log_manager now success (save_keys next d))

  module _ (n : Noble) where
    unfoldable pub revoke : ℕ → StoredLicense → Desk F → Desk F
    unfolding push_audit log_event
    revoke now l d =
        let w = d.world in
        let st = w.storage in
        let licenses = map (mark_revoked l.license_id) d.licenses in
        let revoked = add_id l.license_id d.revoked in
        log_manager now warn (
          push_audit n now (codes "REVOKE_EVENT")
            (codes "license "
              ++ (short_license_id l.license_id ++ (codes " blacklisted — " ++ revocation_reason)))
            (record d {
              world = record w { storage = record st { revoked = some revoked } };
              saved_licenses = some licenses;
              licenses = licenses;
              revoked = revoked;
            }))

    -- What `bindHwid` does with the outcome of `issueLicense`.
    unfoldable pub settle_bind :
        ℕ → StoredLicense → Text → Text → Result IssuedLicense → Desk F → Desk F
    unfolding push_audit log_event
    settle_bind now l hwid label (ok issued) d =
        let licenses =
          map
            (with_envelope l.license_id issued.envelope
              (hwid_texts issued.payload.device_policy.bound_hwids))
            d.licenses in
        log_manager now success (
          push_audit n now (codes "HWID_BIND")
            (codes "node "
              ++ (label_or label (hwid_display (normalize_hwid hwid) 6 6)
                  ++ (codes " bound to license "
                      ++ (short_license_id l.license_id ++ codes " (re-signed)"))))
            (record d { saved_licenses = some licenses; licenses = licenses; bind_target = none }))
    settle_bind now l hwid label (err e) d = log_manager now error d

    unfoldable pub bind_hwid : ℕ → ℕ → KeyStore → StoredLicense → Text → Text → Desk F → Desk F
    unfolding settle_bind
    bind_hwid now second_now ks l hwid label d =
        settle_bind second_now l hwid label
          (issue_license n ks (build_payload (bind_options now second_now ks l hwid) [])) d

    unfoldable pub sync_trust : ℕ → KeyStore → Desk F → Desk F
    unfolding push_audit log_event
    sync_trust now ks d =
        let w = d.world in
        let st = w.storage in
        push_audit n now (codes "TRUST_SYNC")
          (codes "trusted snapshot v1 published (" ++ (decimal (length ks.keys) ++ codes " keys)"))
          (log_manager now success (record d {
            world = record w { storage = record st { trusted = some (trusted_from_keystore ks) } };
          }))

    -- The download itself is left out.
    unfoldable pub export_crl : ℕ → Desk F → Desk F
    unfolding push_audit
    export_crl now d =
        push_audit n now (codes "CRL_EXPORT")
          (decimal (length d.revoked) ++ codes " revoked license id(s) exported") d

    unfoldable pub settle_forge : ℕ → Result IssuedLicense → Desk F → Desk F
    unfolding push_audit
    settle_forge now (ok issued) d =
        push_audit n now (codes "DEMO_FORGE") (codes "tampered envelope cached for gate test")
          (record d { saved_forged = some (join 46 (tamper_parts (split 46 issued.envelope))) })
    settle_forge now (err e) d = d

    unfoldable pub forge_demo : ℕ → Text → KeyStore → Desk F → Desk F
    unfolding settle_forge
    forge_demo now uuid ks d =
        settle_forge now (issue_license n ks (build_payload (demo_options now ks) uuid)) d
