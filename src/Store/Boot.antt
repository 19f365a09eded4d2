-- ===== src/Store/Boot.antt =====
-- `boot` of store.ts: up to the fetch of the model, and what follows it. The document's language and
-- direction are left out.
use vor.Common.{
  ℕ, ◌≡◌, refl, sym, ap, subst, ◌∙◌, ◌⊎◌, inl, inr, true, Option, none, some, [], ◌∷◌, Text, codes,
  Floats,
}
use vor.Crypto.{Noble}
use vor.License.{LicensePayload}
use vor.License.Errors.{Thrown, Result, ok, err}
use vor.Keystore.Verify.{verify_license}
use vor.Dpi.Model.{ModelManifest}
use vor.Store.{
  Lang, fa, VorSettings, default_settings, StoredActivation, World, error, success, log_event,
}
use vor.Store.License.{verify_options, settle, verify_and_activate}
use vor.Store.Actions.{refresh_verdict}

abbrev or_fa : Option Lang → Lang
or_fa none = fa
or_fa (some l) = l

-- `{ ...DEFAULT_SETTINGS, ...stored }`
abbrev with_stored : Option (VorSettings → VorSettings) → VorSettings
with_stored none = default_settings
with_stored (some patch) = patch default_settings

module _ {F : Type 0} where
  unfoldable pub boot_start : ℕ → World F → World F
  unfolding log_event
  boot_start now w =
      let s = w.store in
      log_event now (codes "runtime") success (record w {
        store = record s {
          lang = or_fa w.storage.lang;
          settings = with_stored w.storage.settings;
          booted = true;
        };
      })

  unfoldable pub fail_model : ℕ → World F → World F
  unfolding log_event
  fail_model now w =
      let s = w.store in
      log_event now (codes "dpi-model") error (record w { store = record s { model_error = true } })

  -- A stored activation that was refused is removed.
  abbrev pub remove_refused : Result LicensePayload → World F → World F
  remove_refused (ok p) w = w
  remove_refused (err e) w =
      let st = w.storage in record w { storage = record st { activated = none } }

  -- The cached licence is verified again, silently; an empty envelope counts as none.
  abbrev pub recheck_envelope : Noble → ℕ → Text → World F → World F
  recheck_envelope n now [] w = w
  recheck_envelope n now (c ∷ e) w =
      remove_refused (verify_license n (c ∷ e) w.storage.trusted (verify_options now w.storage))
        (verify_and_activate n now true (c ∷ e) w)

  abbrev pub recheck_saved : Noble → ℕ → Option StoredActivation → World F → World F
  recheck_saved n now none w = w
  recheck_saved n now (some saved) w = recheck_envelope n now saved.envelope w

  unfoldable pub recheck_cached : Noble → ℕ → World F → World F
  unfolding verify_and_activate verify_license
  recheck_cached n now w = recheck_saved n now w.storage.activated w

  recheck_settles :
      (n : Noble) (now : ℕ) (e : Text) (r : Result LicensePayload) (w : World F)
      → ((p : LicensePayload) × (r ≡ ok p)
          × ((remove_refused r (settle now true e r w)).store.activated ≡ some p))
        ⊎ ((x : Thrown) × (r ≡ err x)
            × ((remove_refused r (settle now true e r w)).store.activated ≡ none)
            × ((remove_refused r (settle now true e r w)).storage.activated ≡ none))
  unfolding settle
  recheck_settles n now e (ok p) w = inl (p, refl, refl)
  recheck_settles n now e (err x) w = inr (x, refl, refl, refl)

  -- The two outcomes for the world after the check.
  abbrev pub IsRechecked : Noble → ℕ → Text → World F → World F → Type 0
  IsRechecked n now envelope w after =
      ((p : LicensePayload) × (verify_license n envelope w.storage.trusted
            (verify_options now w.storage)
          ≡ ok p)
        × (after.store.activated ≡ some p))
      ⊎ ((x : Thrown) × (verify_license n envelope w.storage.trusted (verify_options now w.storage)
            ≡ err x)
          × (after.store.activated ≡ none)
          × (after.storage.activated ≡ none))

  -- Where the storage holds an activation, the check at boot verifies its envelope: either it is
  -- accepted, and the payload is the activated licence, or it is refused, and then no licence is
  -- active and the stored activation is gone.
  pub recheck_cached-fail_closed :
      (n : Noble) (now : ℕ) (w : World F) (saved : StoredActivation) (c : ℕ) (e : Text)
      → w.storage.activated ≡ some saved
      → saved.envelope ≡ c ∷ e
      → IsRechecked n now (c ∷ e) w (recheck_cached n now w)
  unfolding recheck_cached verify_and_activate
  recheck_cached-fail_closed n now w saved c e stored filled =
      let opened = ap (λ o. recheck_saved n now o w) stored in
      let named = ap (λ t. recheck_envelope n now t w) filled in
      subst (IsRechecked n now (c ∷ e) w) (sym (opened ∙ named)) (
        recheck_settles n now (c ∷ e)
          (verify_license n (c ∷ e) w.storage.trusted (verify_options now w.storage)) w)

module _ (fl : Floats) where
  open fl use {F}

  abbrev pub refreshed_or_failed : ℕ → World F → Option (World F) → World F
  refreshed_or_failed now w none = fail_model now w
  refreshed_or_failed now w (some w') = w'

  abbrev pub take_model : ℕ → ModelManifest F → World F → World F
  take_model now m w =
      let s = w.store in
      log_event now (codes "dpi-model") success (record w { store = record s { model = some m } })

  -- The model that was fetched, or `none` if the fetch or its check failed.
  unfoldable pub load_model : ℕ → Option (ModelManifest F) → World F → World F
  unfolding fail_model log_event refresh_verdict
  load_model now none w = fail_model now w
  load_model now (some m) w =
      let taken = take_model now m w in refreshed_or_failed now taken (refresh_verdict fl now taken)

  unfoldable pub boot_end : Noble → ℕ → Option (ModelManifest F) → World F → World F
  unfolding load_model recheck_cached
  boot_end n now model w = recheck_cached n now (load_model now model w)
