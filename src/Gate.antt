-- ===== src/Gate.antt =====
-- The licence gate, apps/preview/src/components/vor/LicenseGate.tsx: the demo authority, the check of
-- a pasted or loaded licence, and its demos. The waits of 550 and 1200 ms are steps of their own.
pub mod Refused
use vor.Common.{
  ℕ, ◌*◌, ◌-◌, Bool, true, false, Option, none, some, List, [], ◌∷◌, if◌then◌else◌, Text, codes,
  text_eq, trim, ℤ, pos, negsuc, nat,
}
use vor.Crypto.{Noble}
use vor.Canonical.{JsonValue, null, string, object, Members, end, member, canonical_json}
use vor.Canonical.Parse.{parse_json}
use vor.License.{LicensePayload, envelope_encode, envelope_decode, parse_license_file_text}
use vor.License.Errors.{Result, ok, err, exception, ◌>>=◌, from_option}
use vor.Keystore.{KeyStore, generate_keystore}
use vor.Keystore.Issue.{PayloadOptions, build_payload, IssuedLicense, issue_license}
use vor.Keystore.Verify.{verify_license}
use vor.Store.{World}
use vor.Store.License.{now_secs, clear_report, verify_options, verify_and_activate}
use vor.Manager.{Desk}
use vor.Manager.Operations.{save_keys}

-- `ks` unless `!ks || !ks.signing_key`
abbrev pub kept_or : Option KeyStore → KeyStore → KeyStore
kept_or none fresh = fresh
kept_or (some ks) fresh = elim ks.signing_key [ [] ↦ fresh | c ∷ s ↦ ks ]

module _ {F : Type 0} (n : Noble) where
  -- The keystore of `ensureDemoAuthority`: the saved one, or a new one from the secret.
  unfoldable pub demo_keystore : ℕ → List ℕ → Desk F → KeyStore
  demo_keystore now secret d =
      kept_or d.saved_keystore (generate_keystore n (pos (now_secs now)) secret)

  -- `ensureDemoAuthority`: a saved keystore is kept as it is, and its trusted keys are saved again.
  unfoldable pub ensure_demo_authority : ℕ → List ℕ → Desk F → Desk F
  unfolding demo_keystore save_keys
  ensure_demo_authority now secret d = save_keys (demo_keystore now secret d) d

-- `doc[k] = v`
unfoldable pub set_member : Text → JsonValue → Members → Members
unfolding text_eq
set_member k v end = member k v end
set_member k v (member j w ms) =
    let later = member j w (set_member k v ms) in if text_eq j k then member j v ms else later

abbrev pub with_id : Text → JsonValue → Result JsonValue
with_id id (object ms) = ok (object (set_member (codes "license_id") (string id) ms))
with_id id null = err exception
with_id id v = ok v

abbrev pub zero_uuid : Text
zero_uuid = codes "00000000-0000-4000-8000-000000000000"

abbrev demo_payload_options : ℤ → Text → List Text → ℕ → Text → ℕ → KeyStore → PayloadOptions
demo_payload_options seconds tier entitlements devices note now ks = record {
  now = pos (now_secs now);
  seconds = seconds;
  key_id = ks.active_key_id;
  tier = tier;
  entitlements = entitlements;
  max_devices = nat devices;
  bound_hwids = [];
  metadata = some note;
  license_id = none;
  not_before = none;
}

abbrev pub tampered_options : ℕ → KeyStore → PayloadOptions
tampered_options =
    demo_payload_options (pos (365 * 86400)) (codes "pro")
      (codes "core_tunnel" ∷ codes "stealth_engine" ∷ []) 3 (codes "demo: tamper test")

-- `days: -3`
abbrev pub expired_options : ℕ → KeyStore → PayloadOptions
expired_options =
    demo_payload_options (negsuc (3 * 86400 - 1)) (codes "standard") (codes "core_tunnel" ∷ []) 1
      (codes "demo: expiry test")

module _ (n : Noble) where
  -- The forged envelope of `demoTampered`. Writing a document and reading it again changes nothing
  -- that its canonical form shows, so that step is left out.
  unfoldable pub forged_envelope : ℕ → Text → KeyStore → Result Text
  unfolding issue_license build_payload envelope_decode parse_json canonical_json envelope_encode
  forged_envelope now uuid ks = do
    issued ← issue_license n ks (build_payload (tampered_options now ks) uuid)
    parts ← envelope_decode issued.envelope
    doc ← from_option (parse_json parts.payload_json) exception
    edited ← with_id zero_uuid doc
    canonical ← from_option (canonical_json edited) exception
    ok (envelope_encode canonical parts.sig parts.pk)

  -- `demoExpired`: the envelope that it goes on to verify.
  unfoldable pub expired_envelope : ℕ → Text → KeyStore → Result IssuedLicense
  unfolding issue_license build_payload
  expired_envelope now uuid ks = issue_license n ks (build_payload (expired_options now ks) uuid)

-- The state of the component: the text of its field, and what it waits for.
pub data Busy : Type 0 where
  ready verifying arming : Busy

pub record GateState : Type 0 where
  pub input : Text
  pub busy : Busy

abbrev pub broken_envelope : Text
broken_envelope = codes "VORLIC1.broken.signature.key"

abbrev pub is_returned : Result LicensePayload → Bool
is_returned (ok p) = true
is_returned (err e) = false

module _ {F : Type 0} where
  -- The start of `runVerify`.
  unfoldable pub begin_verify : GateState × World F → GateState × World F
  unfolding clear_report
  begin_verify (g, w) = (record g { busy = verifying }, clear_report w)

  -- The timer that shows the armed gate runs out.
  unfoldable pub end_arming : GateState × World F → GateState × World F
  end_arming (g, w) = (record g { busy = ready }, w)

  -- `paste`, where the clipboard could be read
  unfoldable pub paste : Text → GateState × World F → GateState × World F
  paste [] gw = gw
  paste (c ∷ s) (g, w) = (record g { input = trim (c ∷ s) }, w)

  module _ (n : Noble) where
    -- The first timer of `runVerify`, for its envelope.
    unfoldable pub end_verify : ℕ → Text → GateState × World F → GateState × World F
    unfolding verify_and_activate
    end_verify now envelope (g, w) = (
      record g {
        busy =
            if is_returned
              (verify_license n envelope w.storage.trusted (verify_options now w.storage))
            then arming
            else ready;
      },
      verify_and_activate n now false envelope w,
    )

    -- What `onFile` does with the envelope of the file, or without one.
    unfoldable pub take_file : ℕ → Result Text → GateState × World F → GateState × World F
    unfolding begin_verify verify_and_activate
    take_file now (ok envelope) (g, w) = begin_verify (record g { input = envelope }, w)
    take_file now (err e) (g, w) = (g, verify_and_activate n now false broken_envelope w)

    -- `onFile`, once the file was read
    unfoldable pub on_file : ℕ → Text → GateState × World F → GateState × World F
    unfolding parse_license_file_text take_file
    on_file now content gw = take_file now (parse_license_file_text content) gw
