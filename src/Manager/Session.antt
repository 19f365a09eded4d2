-- ===== src/Manager/Session.antt =====
-- What can happen at the manager: its handlers, its mounting, other parts of the page and the gate's
-- demos, and the reset of all data, as a step relation.
use vor.Common.{ℕ, ◌≡◌, Bool, true, false, Option, none, some, List, if◌then◌else◌, Text}
use vor.Crypto.{Noble}
use vor.Hwid.{Browser}
use vor.Keystore.{KeyStore}
use vor.Store.{World, VorStore, Storage}
use vor.Shell.{unlock_console}
use vor.Gate.{ensure_demo_authority}
use vor.Manager.{StoredLicense, Desk, fresh_desk, reload}
use vor.Manager.Operations.{
  unlock, generate_keys, rotate, revoke, bind_hwid, sync_trust, export_crl, forge_demo,
}
use vor.Manager.Form.{IssueForm, submit_form}

-- The browser's storage without the entries of the page.
abbrev pub no_storage : Storage
no_storage = record {
  lang = none;
  activated = none;
  trusted = none;
  revoked = none;
  settings = none;
  hwidentity = none;
  manager_ok = false;
}

module _ {F : Type 0} (n : Noble) (b : Browser) where
  -- The effect that reloads once the console is unlocked. Its timer of 0 ms is taken to fire before
  -- the next handler runs.
  unfoldable pub load_if_unlocked : Desk F → Desk F
  unfolding reload
  load_if_unlocked d = if d.world.store.manager_unlocked then reload n b d else d

  -- The component is mounted, with the state of its hooks anew.
  unfoldable pub mount : Desk F → Desk F
  unfolding load_if_unlocked
  mount d = load_if_unlocked (fresh_desk d)

  abbrev pub IsUnlocked : Desk F → Type 0
  IsUnlocked d = d.world.store.manager_unlocked ≡ true

  -- The page is loaded anew, by hand or by the reset, with a locked console.
  abbrev pub reload_page : VorStore F → Desk F → Desk F
  reload_page store d =
      let w = d.world in
      fresh_desk (record d { world = record w { store = store; connect_token = 0 } })

  -- The reset of all data in the settings, SettingsTab.tsx. The forged envelope of the demo stays.
  unfoldable pub reset_all : VorStore F → Desk F → Desk F
  reset_all store d =
      let w = d.world in
      reload_page store (record d {
        world = record w { storage = no_storage };
        saved_keystore = none;
        saved_licenses = none;
        saved_audit = none;
      })

  -- One step; where a handler logs and reloads, `eager` as in `push_and_reload`. Each write to the
  -- storage succeeds.
  pub data Step : Desk F → Desk F → Type 0 where
    mounts : (d : Desk F) → Step d (mount d)
    unlocks :
        (d : Desk F) (passcode : Text)
        → d.world.store.manager_unlocked ≡ false
        → Step d (load_if_unlocked (unlock passcode d))
    -- The shell's own form, after whose success the console is mounted.
    shell_unlocks :
        (d : Desk F) (now : ℕ) (input : Text)
        → d.world.store.manager_unlocked ≡ false
        → Step d (mount (record d { world = unlock_console now input d.world }))
    generates :
        (d : Desk F) (eager : Bool) (now : ℕ) (secret : List ℕ)
        → IsUnlocked d
        → d.ks ≡ none
        → Step d (generate_keys n b eager now secret d)
    targets :
        (d : Desk F) (target : Option StoredLicense)
        → IsUnlocked d
        → Step d (record d { bind_target = target })
    revokes : (d : Desk F) (now : ℕ) (l : StoredLicense) → IsUnlocked d → Step d (revoke n now l d)
    binds :
        (d : Desk F) (now second_now : ℕ) (ks : KeyStore) (l : StoredLicense) (hwid label : Text)
        → IsUnlocked d
        → d.ks ≡ some ks
        → Step d (bind_hwid n now second_now ks l hwid label d)
    rotates :
        (d : Desk F) (eager : Bool) (now : ℕ) (retire_old : Bool) (secret : List ℕ) (ks : KeyStore)
        → IsUnlocked d
        → d.ks ≡ some ks
        → Step d (rotate n b eager now retire_old secret ks d)
    syncs :
        (d : Desk F) (now : ℕ) (ks : KeyStore)
        → IsUnlocked d
        → d.ks ≡ some ks
        → Step d (sync_trust n now ks d)
    exports : (d : Desk F) (now : ℕ) → IsUnlocked d → Step d (export_crl n now d)
    forges :
        (d : Desk F) (now : ℕ) (uuid : Text) (ks : KeyStore)
        → IsUnlocked d
        → d.ks ≡ some ks
        → Step d (forge_demo n now uuid ks d)
    submits :
        (d : Desk F) (now : ℕ) (uuid : Text) (ks : KeyStore) (form : IssueForm)
        → IsUnlocked d
        → d.ks ≡ some ks
        → Step d (submit_form n now uuid ks form d)
    -- The other views write neither the trusted keys nor the revoked ids, and do not unlock.
    elsewhere :
        (d : Desk F) (w : World F)
        → w.storage.trusted ≡ d.world.storage.trusted
        → w.storage.revoked ≡ d.world.storage.revoked
        → w.store.manager_unlocked ≡ d.world.store.manager_unlocked
        → Step d (record d { world = w })
    -- A demo of the gate, and back to the manager.
    demos :
        (d : Desk F) (now : ℕ) (secret : List ℕ)
        → Step d (mount (ensure_demo_authority n now secret d))
    reloads :
        (d : Desk F) (store : VorStore F)
        → store.manager_unlocked ≡ false
        → Step d (reload_page store d)
    wipes :
        (d : Desk F) (store : VorStore F)
        → store.manager_unlocked ≡ false
        → Step d (reset_all store d)

  pub data Steps : Desk F → Desk F → Type 0 where
    none_yet : (d : Desk F) → Steps d d
    later : {d e f : Desk F} → Steps d e → Step e f → Steps d f

  abbrev pub is_reset : {d e : Desk F} → Step d e → Bool
  is_reset (wipes d store _) = true
  is_reset _ = false

  -- No step is the reset of all data.
  abbrev pub KeepsData : {d e : Desk F} → Steps d e → Type 0
  KeepsData (none_yet d) = Unit
  KeepsData (later steps s) = KeepsData steps × (is_reset s ≡ false)
