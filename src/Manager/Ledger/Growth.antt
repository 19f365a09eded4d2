-- ===== src/Manager/Ledger/Growth.antt =====
-- The saved audit log as a list to which entries are only added, and what is lost where an updater
-- runs late.
use vor.Common.{ℕ, ◌≡◌, refl, sym, ◌∙◌, Bool, true, false, List, Text, pos, not}
use vor.Crypto.{Noble}
use vor.Hwid.{Browser}
use vor.Audit.{AuditEntry}
use vor.Keystore.{KeyStore, generate_keystore, rotate_keystore}
use vor.Store.{success}
use vor.Store.License.{now_secs}
use vor.Shell.{unlock_console}
use vor.Gate.{ensure_demo_authority}
use vor.Manager.{Desk, fresh_desk, reload, extended, push_audit, push_and_reload}
use vor.Manager.Operations.{
  unlock, generate_keys, rotate, revoke, bind_hwid, sync_trust, export_crl, forge_demo, save_keys,
  log_manager,
}
use vor.Manager.Form.{submit_form}
use vor.Manager.Session.{
  load_if_unlocked, mount, Step, mounts, unlocks, shell_unlocks, generates, targets, revokes, binds,
  rotates, syncs, exports, forges, submits, elsewhere, demos, reloads, wipes, is_reset, Steps,
  none_yet, later,
}
use vor.Manager.Ledger.Entries.{
  Appends, same, extended-Appends, saved_log, ShowsLog, Grows, push_audit-Grows, new_keys-Grows,
  load_if_unlocked-Grows, unlock-saved_log, settle_bind-Grows, settle_forge-Grows,
  settle_submit-Grows,
}

-- Any number of entries, appended one at a time.
pub data Extends (n : Noble) (es : List AuditEntry) : List AuditEntry → Type 0 where
  nothing : Extends n es es
  further : {fs gs : List AuditEntry} → Extends n es fs → Appends n fs gs → Extends n es gs

module _ {F : Type 0} (n : Noble) where
  -- The page still shows the log that `reload` read before the updater of a key generation or of a
  -- rotation saved its own.
  abbrev after_step : (b : Browser) → Bool → {d e : Desk F} → Step n b d e → Bool
  after_step b p (generates d eager now secret _ _) = not eager
  after_step b p (rotates d eager now retire_old secret ks _ _) = not eager
  after_step b p (mounts d) = false
  after_step b p (unlocks d passcode _) = false
  after_step b p (shell_unlocks d now input _) = false
  after_step b p (demos d now secret) = false
  after_step b p (reloads d store _) = false
  after_step b p _ = p

  abbrev pub is_behind : (b : Browser) {d e : Desk F} → Steps n b d e → Bool
  is_behind b (none_yet d) = false
  is_behind b (later steps s) = after_step b (is_behind b steps) s

  -- The handlers that may call `pushAudit`.
  abbrev may_log : (b : Browser) {d e : Desk F} → Step n b d e → Bool
  may_log b (mounts d) = false
  may_log b (unlocks d passcode _) = false
  may_log b (shell_unlocks d now input _) = false
  may_log b (targets d target _) = false
  may_log b (elsewhere d w _ _ _) = false
  may_log b (demos d now secret) = false
  may_log b (reloads d store _) = false
  may_log b (wipes d store _) = false
  may_log b _ = true

  -- No handler logs while the page is behind, and no step is the reset of all data.
  abbrev pub IsOrderly : (b : Browser) {d e : Desk F} → Steps n b d e → Type 0
  IsOrderly b (none_yet d) = Unit
  IsOrderly b (later steps s) =
      IsOrderly b steps
      × (may_log b s ≡ true → is_behind b steps ≡ false)
      × (is_reset n b s ≡ false)

  -- What a step has to do: unless the page is behind the console shows the saved log, and one entry
  -- is new at most.
  abbrev GrowsUnless : Bool → Desk F → Desk F → Type 0
  GrowsUnless p d e = (p ≡ false → ShowsLog e) × Appends n (saved_log d) (saved_log e)

  of_Grows : (p : Bool) (d e : Desk F) → Grows n d e → GrowsUnless p d e
  of_Grows p d e (shows, grows) = ((λ _. shows), grows)

  push_and_reload-Grows :
      (b : Browser) (eager : Bool) (now : ℕ) (action detail : Text) (ks : KeyStore) (d : Desk F)
      → d.audit ≡ saved_log d
      → GrowsUnless
          (not eager)
          d
          (push_and_reload n b eager now action detail (log_manager now success (save_keys ks d)))
  unfolding push_and_reload push_audit save_keys
  push_and_reload-Grows b true now action detail ks d shown =
      of_Grows false d
        (push_and_reload n b true now action detail (log_manager now success (save_keys ks d)))
        (new_keys-Grows n b now action detail ks d shown)
  push_and_reload-Grows b false now action detail ks d shown =
      ((λ e. cc), extended-Appends n now action detail d.audit (saved_log d) shown)

  Step-Grows :
      (b : Browser) (p : Bool) {d e : Desk F} (s : Step n b d e)
      → (may_log b s ≡ true → p ≡ false)
      → is_reset n b s ≡ false
      → (p ≡ false → ShowsLog d)
      → GrowsUnless (after_step b p s) d e
  unfolding generate_keys rotate revoke bind_hwid sync_trust export_crl forge_demo submit_form mount
      ensure_demo_authority save_keys
  Step-Grows b p (mounts d) q k h =
      of_Grows false d (load_if_unlocked n b (fresh_desk d))
        (load_if_unlocked-Grows n b (fresh_desk d))
  Step-Grows b p (unlocks d passcode _) q k h =
      of_Grows false d (load_if_unlocked n b (unlock passcode d)) (unlock-saved_log n b passcode d)
  Step-Grows b p (shell_unlocks d now input _) q k h =
      let v = fresh_desk (record d { world = unlock_console now input d.world }) in
      of_Grows false d (load_if_unlocked n b v) (load_if_unlocked-Grows n b v)
  Step-Grows b p (generates d eager now secret u _) q k h =
      push_and_reload-Grows b eager now _ _ (generate_keystore n (pos (now_secs now)) secret) d
        (h (q refl) u)
  Step-Grows b p (targets d target _) q k h = (h, same)
  Step-Grows b p (revokes d now l u) q k h =
      of_Grows p d (revoke n now l d) (push_audit-Grows n now _ _ d (h (q refl) u))
  Step-Grows b p (binds d now second_now ks l hwid label u _) q k h =
      of_Grows p d (bind_hwid n now second_now ks l hwid label d)
        (settle_bind-Grows n second_now l hwid label _ d (h (q refl) u))
  Step-Grows b p (rotates d eager now retire_old secret ks u _) q k h =
      push_and_reload-Grows b eager now _ _
        (rotate_keystore n ks (pos (now_secs now)) retire_old secret) d (h (q refl) u)
  Step-Grows b p (syncs d now ks u _) q k h =
      of_Grows p d (sync_trust n now ks d) (push_audit-Grows n now _ _ d (h (q refl) u))
  Step-Grows b p (exports d now u) q k h =
      of_Grows p d (export_crl n now d) (push_audit-Grows n now _ _ d (h (q refl) u))
  Step-Grows b p (forges d now uuid ks u _) q k h =
      of_Grows p d (forge_demo n now uuid ks d) (settle_forge-Grows n now _ d (h (q refl) u))
  Step-Grows b p (submits d now uuid ks form u _) q k h =
      of_Grows p d (submit_form n now uuid ks form d)
        (settle_submit-Grows n now ks _ d (h (q refl) u))
  Step-Grows b p (elsewhere d w t r u) q k h = ((λ e v. h e (sym u ∙ v)), same)
  Step-Grows b p (demos d now secret) q k h =
      let v = fresh_desk (ensure_demo_authority n now secret d) in
      of_Grows false d (load_if_unlocked n b v) (load_if_unlocked-Grows n b v)
  Step-Grows b p (reloads d store locked) q k h = ((λ e v. cc), same)
  Step-Grows b p (wipes d store locked) q k h = cc

  Steps-Grows :
      (b : Browser) {d e : Desk F} (steps : Steps n b d e)
      → IsOrderly b steps
      → ShowsLog d
      → (is_behind b steps ≡ false → ShowsLog e) × Extends n (saved_log d) (saved_log e)
  Steps-Grows b (none_yet d) o h = ((λ _. h), nothing)
  Steps-Grows b (later steps s) (o, q, k) h =
      let (shown, grown) = Steps-Grows b steps o h in
      let (shows, last) = Step-Grows b (is_behind b steps) s q k shown in
      (shows, further grown last)

  -- Whether React runs an updater at once or late: if the console, where it is unlocked, shows the
  -- saved log, its steps implement the log to which entries are only appended, one at a time, as
  -- long as no handler logs between a key generation or a rotation whose updater ran late and the
  -- next mounting, the data is not reset and every write to the storage succeeds.
  pub Steps-Extends :
      (b : Browser) {d e : Desk F} (steps : Steps n b d e)
      → IsOrderly b steps
      → ShowsLog d
      → Extends n (saved_log d) (saved_log e)
  Steps-Extends b steps o h = (Steps-Grows b steps o h).1

  -- Where the updater runs after `reload` has read the log, the next entry that the console logs
  -- overwrites the entry of the rotation: the saved log is the one before it with the later entry.
  pub rotate-deferred_loses :
      (b : Browser) (now t : ℕ) (retire_old : Bool) (secret : List ℕ) (ks : KeyStore)
      (action detail : Text) (d : Desk F)
      → saved_log (push_audit n t action detail (rotate n b false now retire_old secret ks d))
        ≡ extended n t action detail (saved_log d)
  unfolding push_audit rotate push_and_reload reload save_keys
  rotate-deferred_loses b now t retire_old secret ks action detail d = refl
