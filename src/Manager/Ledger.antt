-- ===== src/Manager/Ledger.antt =====
-- The audit log of the manager under its handlers: it stays an intact chain, whatever happens.
pub mod Entries
pub mod Growth
use vor.Common.{ℕ, Bool, true, false, List, [], ◌∷◌, ◌++◌, Text, ℤ, pos, if-Holds}
use vor.Crypto.{Noble}
use vor.Hwid.{Browser}
use vor.Audit.{AuditEntry, genesis, append_audit}
use vor.Audit.Chain.{IsChain, append_audit-intact}
use vor.License.Errors.{Result, ok, err}
use vor.Keystore.Issue.{build_payload, IssuedLicense, issue_license}
use vor.Store.License.{now_secs}
use vor.Keystore.{KeyStore}
use vor.Manager.{
  StoredLicense, Desk, or_nil, fresh_desk, reload, extended, push_audit, push_and_reload,
}
use vor.Manager.Operations.{
  unlock, generate_keys, rotate, revoke, settle_bind, bind_hwid, bind_options, sync_trust,
  export_crl, settle_forge, demo_options, forge_demo, save_keys,
}
use vor.Manager.Form.{
  IssueForm, Submitted, no_org, bad_duration, threw, issued, submit, on_issued, settle_submit,
  submit_form,
}
use vor.Gate.{ensure_demo_authority}
use vor.Shell.{unlock_console}
use vor.Manager.Session.{
  load_if_unlocked, mount, Step, mounts, unlocks, shell_unlocks, generates, targets, revokes, binds,
  rotates, syncs, exports, forges, submits, elsewhere, demos, reloads, wipes, is_reset, KeepsData,
  reset_all, reload_page, Steps, none_yet, later,
}

grown :
    (n : Noble) (es : List AuditEntry) (ts : ℤ) (action detail : Text)
    → IsChain n genesis es
    → IsChain n genesis (es ++ append_audit n es ts action detail ∷ [])
grown n es ts action detail h = (append_audit-intact n es ts action detail h).0

module _ {F : Type 0} (n : Noble) where
  -- The log of the state and the saved one are intact chains.
  abbrev pub IsIntact : Desk F → Type 0
  IsIntact d = IsChain n genesis d.audit × IsChain n genesis (or_nil d.saved_audit)

  module _ (now : ℕ) (action detail : Text) where
    push_audit-IsIntact : (d : Desk F) → IsIntact d → IsIntact (push_audit n now action detail d)
    unfolding push_audit
    push_audit-IsIntact d (h, k) =
        let more = grown n d.audit (pos (now_secs now)) action detail h in (more, more)

    push_and_reload-IsIntact :
        (b : Browser) (eager : Bool) (d : Desk F)
        → IsIntact d
        → IsIntact (push_and_reload n b eager now action detail d)
    unfolding push_and_reload
    push_and_reload-IsIntact b true d (h, k) =
        let more = grown n d.audit (pos (now_secs now)) action detail h in (more, more)
    push_and_reload-IsIntact b false d (h, k) =
        (k, grown n d.audit (pos (now_secs now)) action detail h)

  load_if_unlocked-IsIntact :
      (b : Browser) (d : Desk F) → IsIntact d → IsIntact (load_if_unlocked n b d)
  unfolding load_if_unlocked reload
  load_if_unlocked-IsIntact b d h =
      if-Holds IsIntact d.world.store.manager_unlocked (reload n b d) d (h.1, h.1) h

  mount-IsIntact : (b : Browser) (d : Desk F) → IsIntact d → IsIntact (mount n b d)
  unfolding mount
  mount-IsIntact b d (h, k) = load_if_unlocked-IsIntact b (fresh_desk d) (tt, k)

  bind_hwid-IsIntact :
      (now : ℕ) (l : StoredLicense) (hwid label : Text) (r : Result IssuedLicense) (d : Desk F)
      → IsIntact d
      → IsIntact (settle_bind n now l hwid label r d)
  unfolding settle_bind
  bind_hwid-IsIntact now l hwid label (ok i) d h = push_audit-IsIntact now _ _ d h
  bind_hwid-IsIntact now l hwid label (err e) d h = h

  settle_forge-IsIntact :
      (now : ℕ) (r : Result IssuedLicense) (d : Desk F)
      → IsIntact d
      → IsIntact (settle_forge n now r d)
  unfolding settle_forge
  settle_forge-IsIntact now (ok i) d h = push_audit-IsIntact now _ _ d h
  settle_forge-IsIntact now (err e) d h = h

  settle_submit-IsIntact :
      (now : ℕ) (ks : KeyStore) (s : Submitted) (d : Desk F)
      → IsIntact d
      → IsIntact (settle_submit n now ks s d)
  unfolding on_issued
  settle_submit-IsIntact now ks (issued i l) d h = push_audit-IsIntact now _ _ d h
  settle_submit-IsIntact now ks (threw e) d h = h
  settle_submit-IsIntact now ks no_org d h = h
  settle_submit-IsIntact now ks bad_duration d h = h

  Step-IsIntact : (b : Browser) {d e : Desk F} → Step n b d e → IsIntact d → IsIntact e
  unfolding unlock generate_keys rotate revoke bind_hwid sync_trust export_crl forge_demo
      submit_form ensure_demo_authority save_keys reset_all
  Step-IsIntact b (mounts d) h = mount-IsIntact b d h
  Step-IsIntact b (unlocks d passcode _) h =
      load_if_unlocked-IsIntact b _ (if-Holds IsIntact _ _ d h h)
  Step-IsIntact b (shell_unlocks d now input _) h = mount-IsIntact b _ h
  Step-IsIntact b (generates d eager now secret _ _) h =
      push_and_reload-IsIntact now _ _ b eager _ h
  Step-IsIntact b (targets d target _) h = h
  Step-IsIntact b (revokes d now l _) h = push_audit-IsIntact now _ _ d h
  Step-IsIntact b (binds d now second_now ks l hwid label _ _) h =
      bind_hwid-IsIntact second_now l hwid label _ d h
  Step-IsIntact b (rotates d eager now retire_old secret ks _ _) h =
      push_and_reload-IsIntact now _ _ b eager _ h
  Step-IsIntact b (syncs d now ks _ _) h = push_audit-IsIntact now _ _ d h
  Step-IsIntact b (exports d now _) h = push_audit-IsIntact now _ _ d h
  Step-IsIntact b (forges d now uuid ks _ _) h = settle_forge-IsIntact now _ d h
  Step-IsIntact b (submits d now uuid ks form _ _) h = settle_submit-IsIntact now ks _ d h
  Step-IsIntact b (elsewhere d w _ _ _) h = h
  Step-IsIntact b (demos d now secret) h = mount-IsIntact b _ h
  Step-IsIntact b (reloads d store _) h = (tt, h.1)
  Step-IsIntact b (wipes d store _) h = (tt, tt)

  -- If the audit log that the console shows and the one that it saved are intact chains, they are
  -- after any number of its steps, whether the updates of the page run at once or late.
  pub Steps-IsIntact : (b : Browser) {d e : Desk F} → Steps n b d e → IsIntact d → IsIntact e
  Steps-IsIntact b (none_yet d) h = h
  Steps-IsIntact b (later steps s) h = Step-IsIntact b s (Steps-IsIntact b steps h)
