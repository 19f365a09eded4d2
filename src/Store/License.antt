-- ===== src/Store/License.antt =====
-- The licence in the store: `verifyAndActivate`, `clearReport`, `deactivate` of store.ts.
use vor.Common.{
  ℕ, suc, ◌/◌, Bool, true, false, Option, none, some, List, [], if◌then◌else◌, Text, codes, nat,
}
use vor.Crypto.{Noble}
use vor.License.{LicensePayload}
use vor.License.Errors.{Result, ok, err}
use vor.Keystore.Verify.{VerifyOptions, report_of, verify_license}
use vor.Tunnel.{idle}
use vor.Store.{World, Storage, gate, client, info, warn, error, success, log_event}

abbrev pub or_none : Option (List Text) → List Text
or_none none = []
or_none (some ids) = ids

-- `Math.floor(Date.now() / 1000)`
abbrev pub now_secs : ℕ → ℕ
now_secs now = now / 1000

abbrev pub verify_options : ℕ → Storage → VerifyOptions
verify_options now st = record {
  now = nat (now_secs now);
  clock_skew_secs = none;
  device_hwid = st.hwidentity;
  revoked = or_none st.revoked;
}

module _ {F : Type 0} where
  unfoldable pub clear_report : World F → World F
  clear_report w = let s = w.store in record w { store = record s { last_report = none } }

  unfoldable pub deactivate : ℕ → World F → World F
  unfolding log_event
  deactivate now w =
      let s = w.store in
      let st = w.storage in
      let token = suc w.connect_token in
      log_event now (codes "license") info (record w {
        store = record s {
          activated = none;
          last_report = none;
          view = gate;
          tunnel = idle;
          session_start = none;
          connect_token_ref = token;
        };
        connect_token = token;
        storage = record st { activated = none };
      })

  -- What follows a verification that returned or threw.
  unfoldable pub settle : ℕ → Bool → Text → Result LicensePayload → World F → World F
  unfolding log_event
  settle now silent envelope (ok p) w =
      let s = w.store in
      let st = w.storage in
      log_event now (codes "license") success (record w {
        store = record s {
          last_report = some (report_of (nat (now_secs now)) (ok p));
          activated = some p;
          activation_anim = true;
          view = client;
        };
        storage = record st {
          activated = some (record {
            envelope = envelope;
            license_id = p.license_id;
            activated_at = now_secs now;
          });
        };
      })
  settle now silent envelope (err e) w =
      let s = w.store in
      log_event now (codes "license") (if silent then warn else error) (record w {
        store = record s {
          last_report = some (report_of (nat (now_secs now)) (err e));
          activated = none;
        };
      })

  unfoldable pub verify_and_activate : Noble → ℕ → Bool → Text → World F → World F
  unfolding settle
  verify_and_activate n now silent envelope w =
      settle now silent envelope
        (verify_license n envelope w.storage.trusted (verify_options now w.storage)) w

  -- The timer of the activation animation.
  unfoldable pub end_animation : World F → World F
  end_animation w = let s = w.store in record w { store = record s { activation_anim = false } }
