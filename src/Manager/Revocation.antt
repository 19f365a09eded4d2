-- ===== src/Manager/Revocation.antt =====
-- Revocation and hard rotation at the manager, up to what the client's verification then refuses.
use vor.Common.{
  ℕ, ◌≡◌, ◌≢◌, refl, sym, ap, ◌∙◌, subst, Bool, true, false, Option, some, List, [], ◌∷◌, ◌++◌,
  Text, pos, if-Holds, includes, text_eq_iff, includes-false_iff, arith, leb, length, trim, codes,
}
use vor.Crypto.{Noble}
use vor.Hwid.{Browser}
use vor.License.{LicensePayload}
use vor.License.Errors.{Result, ok, err}
use vor.Keystore.{
  KeyStore, TrustedKeys, derive_key_id, is_trusted, rotate_keystore, trusted_from_keystore,
}
use vor.Keystore.Issue.{IssuedLicense}
use vor.Keystore.Verify.{VerifyOptions, verify_license}
use vor.Keystore.Verify.Sound.{verify_license_iff, is_trusted_complete}
use vor.Keystore.Rotation.{is_trusted-rotate_keystore}
use vor.Store.{success, log_event}
use vor.Store.Actions.{set_manager_unlocked}
use vor.Store.License.{or_none, now_secs, verify_options}
use vor.Manager.{StoredLicense, Desk, fresh_desk, reload, push_audit, push_and_reload}
use vor.Manager.Operations.{
  unlock, generate_keys, rotate, revoke, settle_bind, bind_hwid, sync_trust, export_crl,
  settle_forge, forge_demo, save_keys, add_id,
}
use vor.Manager.Form.{
  Submitted, no_org, bad_duration, threw, issued, on_issued, settle_submit, submit_form,
}
use vor.Gate.{ensure_demo_authority}
use vor.Shell.{unlock_console}
use vor.Manager.Session.{
  load_if_unlocked, mount, Step, mounts, unlocks, shell_unlocks, generates, targets, revokes, binds,
  rotates, syncs, exports, forges, submits, elsewhere, demos, reloads, wipes, is_reset, KeepsData,
  reset_all, Steps, none_yet, later,
}
use vor.Manager.Keys.{IsSound, Steps-IsSound, IsNew, IsNew-IsSound}

includes-append_mem :
    (xs ys : List Text) (t : Text) → includes xs t ≡ true → includes (xs ++ ys) t ≡ true
unfolding includes
includes-append_mem [] ys t h = cc
includes-append_mem (x ∷ xs) ys t h = ground (arith, includes-append_mem xs ys t)

includes-last : (xs : List Text) (t : Text) → includes (xs ++ t ∷ []) t ≡ true
unfolding includes
includes-last [] t = rw ((text_eq_iff t t).1 refl) refl
includes-last (x ∷ xs) t = ground (arith, includes-last xs t)

add_id-has : (id : Text) (ids : List Text) → includes (add_id id ids) id ≡ true
add_id-has id ids = ground (arith, includes-last ids id)

add_id-keeps :
    (id : Text) (ids : List Text) (t : Text)
    → includes ids t ≡ true
    → includes (add_id id ids) t ≡ true
add_id-keeps id ids t h =
    if-Holds (λ xs. includes xs t ≡ true) (includes ids id) ids (ids ++ id ∷ []) h
      (includes-append_mem ids (id ∷ []) t h)

module _ {F : Type 0} (n : Noble) (id : Text) where
  -- The saved list of revoked ids names the licence.
  abbrev pub IsRevoked : Desk F → Type 0
  IsRevoked d = includes (or_none d.world.storage.revoked) id ≡ true

  load_if_unlocked-IsRevoked :
      (b : Browser) (d : Desk F) → IsRevoked d → IsRevoked (load_if_unlocked n b d)
  unfolding load_if_unlocked reload
  load_if_unlocked-IsRevoked b d h =
      if-Holds IsRevoked d.world.store.manager_unlocked (reload n b d) d h h

  push_and_reload-IsRevoked :
      (b : Browser) (eager : Bool) (now : ℕ) (action detail : Text) (d : Desk F)
      → IsRevoked d
      → IsRevoked (push_and_reload n b eager now action detail d)
  unfolding push_and_reload
  push_and_reload-IsRevoked b true now action detail d h = h
  push_and_reload-IsRevoked b false now action detail d h = h

  -- A revocation adds to the ids that are saved, because the console shows those.
  revoke-IsRevoked :
      (now : ℕ) (l : StoredLicense) (d : Desk F)
      → IsSound n d
      → d.world.store.manager_unlocked ≡ true
      → IsRevoked d
      → IsRevoked (revoke n now l d)
  unfolding revoke
  revoke-IsRevoked now l d (h, k) u r =
      add_id-keeps l.license_id d.revoked id (ap (λ ids. includes ids id) (k u).1 ∙ r)

  settle_bind-IsRevoked :
      (now : ℕ) (l : StoredLicense) (hwid label : Text) (r : Result IssuedLicense) (d : Desk F)
      → IsRevoked d
      → IsRevoked (settle_bind n now l hwid label r d)
  unfolding settle_bind
  settle_bind-IsRevoked now l hwid label (ok i) d h = h
  settle_bind-IsRevoked now l hwid label (err e) d h = h

  settle_forge-IsRevoked :
      (now : ℕ) (r : Result IssuedLicense) (d : Desk F)
      → IsRevoked d
      → IsRevoked (settle_forge n now r d)
  unfolding settle_forge
  settle_forge-IsRevoked now (ok i) d h = h
  settle_forge-IsRevoked now (err e) d h = h

  settle_submit-IsRevoked :
      (now : ℕ) (ks : KeyStore) (s : Submitted) (d : Desk F)
      → IsRevoked d
      → IsRevoked (settle_submit n now ks s d)
  unfolding on_issued
  settle_submit-IsRevoked now ks (issued i l) d h = h
  settle_submit-IsRevoked now ks (threw e) d h = h
  settle_submit-IsRevoked now ks no_org d h = h
  settle_submit-IsRevoked now ks bad_duration d h = h

  unlock-IsRevoked : (passcode : Text) (d : Desk F) → IsRevoked d → IsRevoked (unlock passcode d)
  unfolding unlock set_manager_unlocked
  unlock-IsRevoked passcode d h =
      if-Holds IsRevoked (leb 4 (length (trim passcode)))
        (record d { world = set_manager_unlocked true d.world }) d h h

  unlock_console-IsRevoked :
      (now : ℕ) (input : Text) (d : Desk F)
      → IsRevoked d
      → IsRevoked (record d { world = unlock_console now input d.world })
  unfolding unlock_console set_manager_unlocked log_event
  unlock_console-IsRevoked now input d h =
      if-Holds (λ w. IsRevoked (record d { world = w })) (leb 4 (length (trim input)))
        (log_event now (codes "manager") success (set_manager_unlocked true d.world)) d.world h h

  Step-IsRevoked :
      (b : Browser) {d e : Desk F} (s : Step n b d e)
      → is_reset n b s ≡ false
      → IsSound n d
      → IsRevoked d
      → IsRevoked e
  unfolding generate_keys rotate bind_hwid sync_trust export_crl forge_demo submit_form mount
      ensure_demo_authority save_keys push_audit reset_all
  Step-IsRevoked b (mounts d) k s h = load_if_unlocked-IsRevoked b (fresh_desk d) h
  Step-IsRevoked b (unlocks d passcode _) k s h =
      load_if_unlocked-IsRevoked b (unlock passcode d) (unlock-IsRevoked passcode d h)
  Step-IsRevoked b (shell_unlocks d now input _) k s h =
      load_if_unlocked-IsRevoked b
        (fresh_desk (record d { world = unlock_console now input d.world }))
        (unlock_console-IsRevoked now input d h)
  Step-IsRevoked b (generates d eager now secret _ _) k s h =
      push_and_reload-IsRevoked b eager now _ _ _ h
  Step-IsRevoked b (targets d target _) k s h = h
  Step-IsRevoked b (revokes d now l u) k s h = revoke-IsRevoked now l d s u h
  Step-IsRevoked b (binds d now second_now ks l hwid label _ _) k s h =
      settle_bind-IsRevoked second_now l hwid label _ d h
  Step-IsRevoked b (rotates d eager now retire_old secret ks _ _) k s h =
      push_and_reload-IsRevoked b eager now _ _ _ h
  Step-IsRevoked b (syncs d now ks _ _) k s h = h
  Step-IsRevoked b (exports d now _) k s h = h
  Step-IsRevoked b (forges d now uuid ks _ _) k s h = settle_forge-IsRevoked now _ d h
  Step-IsRevoked b (submits d now uuid ks form _ _) k s h = settle_submit-IsRevoked now ks _ d h
  Step-IsRevoked b (elsewhere d w t r u) k s h = ap (λ o. includes (or_none o) id) r ∙ h
  Step-IsRevoked b (demos d now secret) k s h =
      load_if_unlocked-IsRevoked b (fresh_desk (ensure_demo_authority n now secret d)) h
  Step-IsRevoked b (reloads d store _) k s h = h
  Step-IsRevoked b (wipes d store _) k s h = cc

  pub Steps-IsRevoked :
      (b : Browser) {d e : Desk F} (steps : Steps n b d e)
      → KeepsData n b steps
      → IsSound n d
      → IsRevoked d
      → IsRevoked e
  Steps-IsRevoked b (none_yet d) k s h = h
  Steps-IsRevoked b (later steps step) (ks, k) s h =
      Step-IsRevoked b step k (Steps-IsSound n b steps s) (Steps-IsRevoked b steps ks s h)

  revoke-IsRevoked_now :
      (now : ℕ) (l : StoredLicense) (d : Desk F) → l.license_id ≡ id → IsRevoked (revoke n now l d)
  unfolding revoke
  revoke-IsRevoked_now now l d same =
      subst (λ t. includes (add_id l.license_id d.revoked) t ≡ true) same
        (add_id-has l.license_id d.revoked)

  not_revoked :
      (envelope : Text) (trusted : Option TrustedKeys) (t : ℕ) (d : Desk F) (p : LicensePayload)
      → IsRevoked d
      → verify_license n envelope trusted (verify_options t d.world.storage) ≡ ok p
      → p.license_id ≢ id
  not_revoked envelope trusted t d p h accepted same =
      let (parts, _, v) =
        (verify_license_iff n envelope trusted (verify_options t d.world.storage) p).0 accepted in
      let ids = or_none d.world.storage.revoked in
      let absent = (includes-false_iff ids p.license_id).1 v.unrevoked in
      cc (h, absent, ap (includes ids) same)

pub rotate-trusted :
    {F : Type 0} (n : Noble) (b : Browser) (eager : Bool) (now : ℕ) (retire_old : Bool)
    (secret : List ℕ) (ks : KeyStore) (d : Desk F)
    → (rotate n b eager now retire_old secret ks d).world.storage.trusted
      ≡ some (trusted_from_keystore (rotate_keystore n ks (pos (now_secs now)) retire_old secret))
unfolding rotate push_and_reload save_keys
rotate-trusted n b true now retire_old secret ks d = refl
rotate-trusted n b false now retire_old secret ks d = refl

module _ {F : Type 0} (n : Noble) (b : Browser) where
  -- Once the unlocked console has revoked a licence, in a browser that held no keystore at first,
  -- verification with the saved list of revoked ids accepts no licence of that id after any number
  -- of steps of the console, the gate's demos and the other views, whichever keys are trusted, if
  -- none of them is the reset of all data and every write to the storage succeeds.
  pub revoked_never_verifies :
      {start d e : Desk F} (now t : ℕ) (l : StoredLicense) (envelope : Text)
      (trusted : Option TrustedKeys) (p : LicensePayload)
      → IsNew n start
      → Steps n b start d
      → d.world.store.manager_unlocked ≡ true
      → (after : Steps n b (revoke n now l d) e) → KeepsData n b after
      → verify_license n envelope trusted (verify_options t e.world.storage) ≡ ok p
      → p.license_id ≢ l.license_id
  revoked_never_verifies {start} {d} {e} now t l envelope trusted p new before unlocked after kept
        accepted =
      let revoked_sound =
        Steps-IsSound n b (later before (revokes d now l unlocked)) (IsNew-IsSound n start new) in
      not_revoked n l.license_id envelope trusted t e p
        (Steps-IsRevoked n l.license_id b after kept revoked_sound
          (revoke-IsRevoked_now n l.license_id now l d refl))
        accepted

  -- After a hard rotation, verification with the keys that the console saved accepts only licences
  -- that name the new key.
  pub hard_rotation_refuses :
      (eager : Bool) (now : ℕ) (secret : List ℕ) (ks : KeyStore) (d : Desk F) (envelope : Text)
      (opts : VerifyOptions) (p : LicensePayload)
      → verify_license n envelope (rotate n b eager now true secret ks d).world.storage.trusted opts
        ≡ ok p
      → p.key_id ≡ derive_key_id n (n.public_key secret)
  hard_rotation_refuses eager now secret ks d envelope opts p accepted =
      let saved = (rotate n b eager now true secret ks d).world.storage.trusted in
      let (parts, _, v) = (verify_license_iff n envelope saved opts p).0 accepted in
      let trusted = is_trusted_complete saved p.key_id v.key_trusted in
      let at_new =
        sym (ap (λ o. is_trusted o p.key_id) (rotate-trusted n b eager now true secret ks d))
        ∙ trusted in
      let same =
        sym (is_trusted-rotate_keystore n ks (pos (now_secs now)) secret true p.key_id) ∙ at_new in
      ground (arith, same, text_eq_iff (derive_key_id n (n.public_key secret)) p.key_id)
