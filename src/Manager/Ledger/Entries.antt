-- ===== src/Manager/Ledger/Entries.antt =====
-- What the handlers of the console add to the saved audit log.
use vor.Common.{
  ℕ, ◌≡◌, refl, subst, Bool, true, false, List, [], ◌∷◌, ◌++◌, Text, ℤ, pos, if-Holds,
  if◌then◌else◌, leb, length, trim,
}
use vor.Crypto.{Noble}
use vor.Hwid.{Browser}
use vor.Audit.{AuditEntry, append_audit}
use vor.License.Errors.{Result, ok, err}
use vor.Keystore.{KeyStore}
use vor.Keystore.Issue.{IssuedLicense}
use vor.Store.{success}
use vor.Store.License.{now_secs}
use vor.Store.Actions.{set_manager_unlocked}
use vor.Manager.{StoredLicense, Desk, or_nil, reload, extended, push_audit, push_and_reload}
use vor.Manager.Operations.{unlock, settle_bind, settle_forge, save_keys, log_manager}
use vor.Manager.Form.{Submitted, no_org, bad_duration, threw, issued, on_issued, settle_submit}
use vor.Manager.Session.{load_if_unlocked}

-- The abstract log: an entry is appended to it, or it stays.
pub data Appends (n : Noble) (es : List AuditEntry) : List AuditEntry → Type 0 where
  same : Appends n es es
  more :
      (ts : ℤ) (action detail : Text) → Appends n es (es ++ append_audit n es ts action detail ∷ [])

pub extended-Appends :
    (n : Noble) (now : ℕ) (action detail : Text) (es log : List AuditEntry)
    → es ≡ log
    → Appends n log (extended n now action detail es)
extended-Appends n now action detail es log shown =
    subst (λ l. Appends n l (extended n now action detail es)) shown
      (more (pos (now_secs now)) action detail)

module _ {F : Type 0} where
  abbrev pub saved_log : Desk F → List AuditEntry
  saved_log d = or_nil d.saved_audit

  -- The unlocked console shows the saved log.
  abbrev pub ShowsLog : Desk F → Type 0
  ShowsLog d = d.world.store.manager_unlocked ≡ true → d.audit ≡ saved_log d

module _ {F : Type 0} (n : Noble) where
  -- What a step has to do: the console shows the saved log, and one entry is new at most.
  abbrev pub Grows : Desk F → Desk F → Type 0
  Grows d e = ShowsLog e × Appends n (saved_log d) (saved_log e)

  pub push_audit-Grows :
      (now : ℕ) (action detail : Text) (d : Desk F)
      → d.audit ≡ saved_log d
      → Grows d (push_audit n now action detail d)
  unfolding push_audit
  push_audit-Grows now action detail d shown =
      (λ _. refl, extended-Appends n now action detail d.audit (saved_log d) shown)

  pub new_keys-Grows :
      (b : Browser) (now : ℕ) (action detail : Text) (ks : KeyStore) (d : Desk F)
      → d.audit ≡ saved_log d
      → Grows d
          (push_and_reload n b true now action detail (log_manager now success (save_keys ks d)))
  unfolding push_and_reload push_audit reload save_keys
  new_keys-Grows b now action detail ks d shown =
      (λ _. refl, extended-Appends n now action detail d.audit (saved_log d) shown)

  chosen-Grows :
      (b : Browser) (c : Bool) (d : Desk F)
      → d.world.store.manager_unlocked ≡ c
      → Grows d (if c then reload n b d else d)
  unfolding reload
  chosen-Grows b true d u = (λ _. refl, same)
  chosen-Grows b false d u = (λ v. cc, same)

  pub load_if_unlocked-Grows : (b : Browser) (d : Desk F) → Grows d (load_if_unlocked n b d)
  unfolding load_if_unlocked
  load_if_unlocked-Grows b d = chosen-Grows b d.world.store.manager_unlocked d refl

  pub unlock-saved_log :
      (b : Browser) (passcode : Text) (d : Desk F)
      → Grows d (load_if_unlocked n b (unlock passcode d))
  unfolding unlock set_manager_unlocked
  unlock-saved_log b passcode d =
      if-Holds (λ e. Grows d (load_if_unlocked n b e)) (leb 4 (length (trim passcode)))
        (record d { world = set_manager_unlocked true d.world }) d
        (load_if_unlocked-Grows b (record d { world = set_manager_unlocked true d.world }))
        (load_if_unlocked-Grows b d)

  pub settle_bind-Grows :
      (now : ℕ) (l : StoredLicense) (hwid label : Text) (r : Result IssuedLicense) (d : Desk F)
      → d.audit ≡ saved_log d
      → Grows d (settle_bind n now l hwid label r d)
  unfolding settle_bind
  settle_bind-Grows now l hwid label (ok i) d h = push_audit-Grows now _ _ d h
  settle_bind-Grows now l hwid label (err e) d h = (λ _. h, same)

  pub settle_forge-Grows :
      (now : ℕ) (r : Result IssuedLicense) (d : Desk F)
      → d.audit ≡ saved_log d
      → Grows d (settle_forge n now r d)
  unfolding settle_forge
  settle_forge-Grows now (ok i) d h = push_audit-Grows now _ _ d h
  settle_forge-Grows now (err e) d h = (λ _. h, same)

  pub settle_submit-Grows :
      (now : ℕ) (ks : KeyStore) (s : Submitted) (d : Desk F)
      → d.audit ≡ saved_log d
      → Grows d (settle_submit n now ks s d)
  unfolding on_issued
  settle_submit-Grows now ks (issued i l) d h = push_audit-Grows now _ _ d h
  settle_submit-Grows now ks (threw e) d h = (λ _. h, same)
  settle_submit-Grows now ks no_org d h = (λ _. h, same)
  settle_submit-Grows now ks bad_duration d h = (λ _. h, same)
