-- ===== src/Manager/Keys.antt =====
-- The keystore, the trusted keys and the revoked ids that the manager saves, under its handlers.
use vor.Common.{
  ℕ, ◌≡◌, refl, sym, ap, ◌∙◌, subst, Bool, true, false, Option, none, some, List, [], ◌∷◌, Text,
  pos, leb, length, trim, codes, if-Holds, if◌then◌else◌,
}
use vor.Crypto.{Noble}
use vor.Hwid.{Browser}
use vor.License.Errors.{Result, ok, err}
use vor.Keystore.{KeyStore, trusted_from_keystore, generate_keystore}
use vor.Keystore.Rotation.{Reachable, generated, rotated, IsConsistent, Reachable-IsConsistent}
use vor.Keystore.Issue.{IssuedLicense}
use vor.Store.{World, success, log_event}
use vor.Store.Actions.{set_manager_unlocked}
use vor.Shell.{unlock_console}
use vor.Store.License.{or_none, now_secs}
use vor.Manager.{StoredLicense, Desk, fresh_desk, reload, push_audit, push_and_reload}
use vor.Manager.Operations.{
  unlock, generate_keys, rotate, revoke, settle_bind, bind_hwid, sync_trust, export_crl,
  settle_forge, forge_demo, save_keys,
}
use vor.Manager.Form.{
  Submitted, no_org, bad_duration, threw, issued, on_issued, settle_submit, submit_form,
}
use vor.Gate.{kept_or, demo_keystore, ensure_demo_authority}
use vor.Manager.Session.{
  load_if_unlocked, mount, Step, mounts, unlocks, shell_unlocks, generates, targets, revokes, binds,
  rotates, syncs, exports, forges, submits, elsewhere, demos, reloads, wipes, reset_all, Steps,
  none_yet, later,
}

some-injective : {A : Type 0} {a b : A} → some a ≡ some b → a ≡ b
some-injective h = cc

demo_keystore-Reachable :
    (n : Noble) (now : ℕ) (secret : List ℕ) (o : Option KeyStore)
    → ((k : KeyStore) → o ≡ some k → Reachable n k)
    → Reachable n (kept_or o (generate_keystore n (pos (now_secs now)) secret))
demo_keystore-Reachable n now secret none h = generated _ secret
demo_keystore-Reachable n now secret (some k) h = kept k.signing_key
  where
    kept :
        (key : Text)
        → Reachable n
            (elim key [ [] ↦ generate_keystore n (pos (now_secs now)) secret | c ∷ s ↦ k ])
    kept [] = generated _ secret
    kept (c ∷ s) = h k refl

module _ {F : Type 0} (n : Noble) where
  -- A saved keystore was generated and rotated only, and the trusted keys are its own.
  abbrev pub HasKeys : Desk F → Type 0
  HasKeys d =
      (k : KeyStore)
      → d.saved_keystore ≡ some k
      → Reachable n k × (d.world.storage.trusted ≡ some (trusted_from_keystore k))

  -- The unlocked console shows the keystore and the revoked ids that are saved.
  abbrev pub IsLoaded : Desk F → Type 0
  IsLoaded d =
      d.world.store.manager_unlocked ≡ true
      → (d.ks ≡ d.saved_keystore) × (d.revoked ≡ or_none d.world.storage.revoked)

  abbrev pub IsSound : Desk F → Type 0
  IsSound d = HasKeys d × IsLoaded d

  save_keys-HasKeys : (ks : KeyStore) (d : Desk F) → Reachable n ks → HasKeys (save_keys ks d)
  unfolding save_keys
  save_keys-HasKeys ks d r k e =
      subst
        (λ k. Reachable n k × (some (trusted_from_keystore ks) ≡ some (trusted_from_keystore k)))
        (some-injective e) (r, refl)

  push_and_reload-IsSound :
      (b : Browser) (eager : Bool) (now : ℕ) (action detail : Text) (d : Desk F)
      → HasKeys d
      → IsSound (push_and_reload n b eager now action detail d)
  unfolding push_and_reload
  push_and_reload-IsSound b true now action detail d h = (h, λ _. (refl, refl))
  push_and_reload-IsSound b false now action detail d h = (h, λ _. (refl, refl))

  chosen-IsSound :
      (b : Browser) (c : Bool) (d : Desk F)
      → d.world.store.manager_unlocked ≡ c
      → HasKeys d
      → IsSound (if c then reload n b d else d)
  unfolding reload
  chosen-IsSound b true d u h = (h, λ _. (refl, refl))
  chosen-IsSound b false d u h = (h, λ v. cc)

  load_if_unlocked-IsSound :
      (b : Browser) (d : Desk F) → HasKeys d → IsSound (load_if_unlocked n b d)
  unfolding load_if_unlocked
  load_if_unlocked-IsSound b d h = chosen-IsSound b d.world.store.manager_unlocked d refl h

  -- A handler that changes none of what the invariant reads keeps it.
  push_audit-IsSound :
      (now : ℕ) (action detail : Text) (d : Desk F)
      → IsSound d
      → IsSound (push_audit n now action detail d)
  unfolding push_audit
  push_audit-IsSound now action detail d h = h

  revoke-IsSound :
      (now : ℕ) (l : StoredLicense) (d : Desk F) → IsSound d → IsSound (revoke n now l d)
  unfolding revoke
  revoke-IsSound now l d (h, k) = (h, λ u. ((k u).0, refl))

  settle_bind-IsSound :
      (now : ℕ) (l : StoredLicense) (hwid label : Text) (r : Result IssuedLicense) (d : Desk F)
      → IsSound d
      → IsSound (settle_bind n now l hwid label r d)
  unfolding settle_bind
  settle_bind-IsSound now l hwid label (ok i) d h = h
  settle_bind-IsSound now l hwid label (err e) d h = h

  settle_forge-IsSound :
      (now : ℕ) (r : Result IssuedLicense) (d : Desk F)
      → IsSound d
      → IsSound (settle_forge n now r d)
  unfolding settle_forge
  settle_forge-IsSound now (ok i) d h = h
  settle_forge-IsSound now (err e) d h = h

  settle_submit-IsSound :
      (now : ℕ) (ks : KeyStore) (s : Submitted) (d : Desk F)
      → IsSound d
      → IsSound (settle_submit n now ks s d)
  unfolding on_issued
  settle_submit-IsSound now ks (issued i l) d h = h
  settle_submit-IsSound now ks (threw e) d h = h
  settle_submit-IsSound now ks no_org d h = h
  settle_submit-IsSound now ks bad_duration d h = h

  -- The keystore that the console shows is the saved one.
  held :
      (d : Desk F) (ks : KeyStore)
      → IsSound d
      → d.world.store.manager_unlocked ≡ true
      → d.ks ≡ some ks
      → Reachable n ks × (d.saved_keystore ≡ some ks)
  held d ks (h, k) u e = let saved = sym (k u).0 ∙ e in ((h ks saved).0, saved)

  unlock-HasKeys : (passcode : Text) (d : Desk F) → HasKeys d → HasKeys (unlock passcode d)
  unfolding unlock set_manager_unlocked
  unlock-HasKeys passcode d h =
      if-Holds HasKeys (leb 4 (length (trim passcode)))
        (record d { world = set_manager_unlocked true d.world }) d h h

  unlock_console-HasKeys :
      (now : ℕ) (input : Text) (d : Desk F)
      → HasKeys d
      → HasKeys (fresh_desk (record d { world = unlock_console now input d.world }))
  unfolding unlock_console set_manager_unlocked log_event
  unlock_console-HasKeys now input d h =
      if-Holds (λ w. HasKeys (fresh_desk (record d { world = w }))) (leb 4 (length (trim input)))
        (log_event now (codes "manager") success (set_manager_unlocked true d.world)) d.world h h

  sync_trust-IsSound :
      (now : ℕ) (ks : KeyStore) (d : Desk F)
      → d.world.store.manager_unlocked ≡ true
      → d.ks ≡ some ks
      → IsSound d
      → IsSound (sync_trust n now ks d)
  unfolding sync_trust save_keys
  sync_trust-IsSound now ks d u e h = (
    λ k saved. save_keys-HasKeys ks d (held d ks h u e).0 k (sym (held d ks h u e).1 ∙ saved),
    h.1,
  )

  elsewhere-IsSound :
      (d : Desk F) (w : World F)
      → w.storage.trusted ≡ d.world.storage.trusted
      → w.storage.revoked ≡ d.world.storage.revoked
      → w.store.manager_unlocked ≡ d.world.store.manager_unlocked
      → IsSound d
      → IsSound (record d { world = w })
  elsewhere-IsSound d w t r u (h, k) = (
    λ ks e. ((h ks e).0, t ∙ (h ks e).1),
    λ v. ((k (sym u ∙ v)).0, (k (sym u ∙ v)).1 ∙ ap or_none (sym r)),
  )

  Step-IsSound : (b : Browser) {d e : Desk F} → Step n b d e → IsSound d → IsSound e
  unfolding unlock generate_keys rotate bind_hwid sync_trust export_crl forge_demo submit_form mount
      ensure_demo_authority demo_keystore push_audit reset_all
  Step-IsSound b (mounts d) h = load_if_unlocked-IsSound b (fresh_desk d) h.0
  Step-IsSound b (unlocks d passcode _) h =
      load_if_unlocked-IsSound b (unlock passcode d) (unlock-HasKeys passcode d h.0)
  Step-IsSound b (shell_unlocks d now input _) h =
      load_if_unlocked-IsSound b
        (fresh_desk (record d { world = unlock_console now input d.world }))
        (unlock_console-HasKeys now input d h.0)
  Step-IsSound b (generates d eager now secret _ _) h =
      push_and_reload-IsSound b eager now _ _ _ (save_keys-HasKeys _ d (generated _ secret))
  Step-IsSound b (targets d target _) h = h
  Step-IsSound b (revokes d now l _) h = revoke-IsSound now l d h
  Step-IsSound b (binds d now second_now ks l hwid label _ _) h =
      settle_bind-IsSound second_now l hwid label _ d h
  Step-IsSound b (rotates d eager now retire_old secret ks u e) h =
      push_and_reload-IsSound b eager now _ _ _
        (save_keys-HasKeys _ d (rotated _ retire_old secret (held d ks h u e).0))
  Step-IsSound b (syncs d now ks u e) h = sync_trust-IsSound now ks d u e h
  Step-IsSound b (exports d now _) h = h
  Step-IsSound b (forges d now uuid ks _ _) h = settle_forge-IsSound now _ d h
  Step-IsSound b (submits d now uuid ks form _ _) h = settle_submit-IsSound now ks _ d h
  Step-IsSound b (elsewhere d w t r u) h = elsewhere-IsSound d w t r u h
  Step-IsSound b (demos d now secret) h = load_if_unlocked-IsSound b _ (
      save_keys-HasKeys _ d
        (demo_keystore-Reachable n now secret d.saved_keystore (λ k e. (h.0 k e).0)))
  Step-IsSound b (reloads d store locked) h = (h.0, λ u. cc)
  Step-IsSound b (wipes d store locked) h = (λ k e. cc, λ u. cc)

  pub Steps-IsSound : (b : Browser) {d e : Desk F} → Steps n b d e → IsSound d → IsSound e
  Steps-IsSound b (none_yet d) h = h
  Steps-IsSound b (later steps s) h = Step-IsSound b s (Steps-IsSound b steps h)

  -- A browser that holds no keystore, and a locked console.
  abbrev pub IsNew : Desk F → Type 0
  IsNew d = (d.saved_keystore ≡ none) × (d.world.store.manager_unlocked ≡ false)

  pub IsNew-IsSound : (d : Desk F) → IsNew d → IsSound d
  IsNew-IsSound d (bare, locked) = (λ k e. cc, λ u. cc)

  -- Whatever the manager, the gate's demos and the reset of all data do from a browser without a
  -- keystore on, if every write to the storage succeeds, a keystore that is saved afterwards is
  -- consistent, and the saved trusted keys are exactly its keys.
  pub Steps-IsConsistent :
      (b : Browser) {d e : Desk F} (k : KeyStore)
      → Steps n b d e
      → IsNew d
      → e.saved_keystore ≡ some k
      → IsConsistent n k × (e.world.storage.trusted ≡ some (trusted_from_keystore k))
  Steps-IsConsistent b {d} k steps new saved =
      let (r, synced) = (Steps-IsSound b steps (IsNew-IsSound d new)).0 k saved in
      (Reachable-IsConsistent n r, synced)
