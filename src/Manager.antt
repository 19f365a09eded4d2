-- ===== src/Manager.antt =====
-- The licence manager, apps/preview/src/components/vor/ManagerView.tsx: its records, what it keeps in
-- the page and in the browser's storage, and how it loads and logs. The clock is read once in a
-- handler and is an argument.
pub mod Operations
pub mod Form
pub mod Session
pub mod Ledger
pub mod Keys
pub mod Revocation
pub mod Issued
use vor.Common.{ℕ, Bool, true, false, Option, none, some, List, [], ◌∷◌, ◌++◌, Text, pos, Number}
use vor.Crypto.{Noble}
use vor.Hwid.{Browser, machine_hwid}
use vor.Audit.{AuditEntry, append_audit}
use vor.Keystore.{KeyStore}
use vor.Store.{World}
use vor.Store.License.{or_none, now_secs}

pub record StoredLicense : Type 0 where
  pub license_id : Text
  pub org : Text
  pub envelope : Text
  pub tier : Text
  pub issued_at : Number
  pub expires_at : Number
  pub max_devices : Number
  pub bound_hwids : List Text
  pub entitlements : List Text
  pub metadata : Option Text
  pub revoked : Bool
  pub revoked_reason : Option Text

-- The world of the store, the entries of `localStorage` that the store does not read, and the
-- component's own state: key store, licences, log, revoked ids, HWID and the licence to bind.
pub record Desk (F : Type 0) : Type 0 where
  pub world : World F
  pub saved_keystore : Option KeyStore
  pub saved_licenses : Option (List StoredLicense)
  pub saved_audit : Option (List AuditEntry)
  pub saved_forged : Option Text
  pub ks : Option KeyStore
  pub licenses : List StoredLicense
  pub audit : List AuditEntry
  pub revoked : List Text
  pub device_hwid : Text
  pub bind_target : Option StoredLicense

abbrev pub or_nil {ℓ} : {A : Type ℓ} → Option (List A) → List A
or_nil none = []
or_nil (some xs) = xs

-- `[...prev, appendAudit(prev, nowSecs(), action, detail)]`
abbrev pub extended : Noble → ℕ → Text → Text → List AuditEntry → List AuditEntry
extended n now action detail prev =
    prev ++ append_audit n prev (pos (now_secs now)) action detail ∷ []

module _ {F : Type 0} where
  -- The state of a component that is mounted anew.
  abbrev pub fresh_desk : Desk F → Desk F
  fresh_desk d = record d {
    ks = none;
    licenses = [];
    audit = [];
    revoked = [];
    device_hwid = [];
    bind_target = none;
  }

  module _ (n : Noble) (b : Browser) where
    -- `reload`, with `loadManagerData`, which may write the HWID
    unfoldable pub reload : Desk F → Desk F
    reload d =
        let w = d.world in
        let st = w.storage in
        let (hwid, kept) = machine_hwid n b st.hwidentity in
        record d {
          world = record w { storage = record st { hwidentity = kept } };
          ks = d.saved_keystore;
          licenses = or_nil d.saved_licenses;
          audit = or_nil d.saved_audit;
          revoked = or_none st.revoked;
          device_hwid = hwid;
        }

  module _ (n : Noble) where
    -- `pushAudit`: the updater extends the log of the state and saves it.
    unfoldable pub push_audit : ℕ → Text → Text → Desk F → Desk F
    push_audit now action detail d =
        let next = extended n now action detail d.audit in
        record d { audit = next; saved_audit = some next }

  -- `pushAudit` and then `reload` in one handler. React runs an updater at once if the component
  -- has no update pending (`eager`), else when it renders: then `reload` has read the log before the
  -- updater saves its own, and the log that was read is the state in the end.
  unfoldable pub push_and_reload : Noble → Browser → Bool → ℕ → Text → Text → Desk F → Desk F
  unfolding push_audit reload
  push_and_reload n b true now action detail d = reload n b (push_audit n now action detail d)
  push_and_reload n b false now action detail d = record (reload n b d) {
    saved_audit = (push_audit n now action detail d).saved_audit;
  }
