-- ===== src/Store/System/Activation.antt =====
-- A licence is activated only by a verification of it.
use vor.Common.{
  ℕ, suc, ◌≡◌, refl, sym, ◌∙◌, Bool, true, Option, none, some, List, [], ◌∷◌, Text, arith, ap,
  Floats,
}
use vor.Crypto.{Noble}
use vor.License.{LicensePayload}
use vor.License.Errors.{Result, ok, err}
use vor.Keystore.{TrustedKeys}
use vor.Keystore.Verify.{VerifyOptions, verify_license}
use vor.Store.{World, StoredActivation, initial_store}
use vor.Store.License.{
  clear_report, deactivate, settle, verify_and_activate, verify_options, end_animation,
}
use vor.Store.Actions.{
  set_lang, set_view, set_tab, clear_cms, set_manual_override, update_settings,
  set_manager_unlocked,
}
use vor.Store.Connect.{Phase, connect, run_start}
use vor.Store.System.{Act, System, Resumed, Reachable}
use vor.Store.System.Act.{
  langs, views, tabs, logs, verifies, clears, deactivates, disconnects, scenarios, toggles, plans,
  clears_cms, overrides, settings, unlocks, features, animations, ticks, resets, stores, boots,
  models, rechecks,
}
use vor.Store.System.Effects.{
  Steady, log_event-Steady, disconnect-Steady, set_scenario-Steady, toggle_cm-Steady,
  apply_plan-Steady, set_feature-Steady, end_reset-Steady, tick-Steady,
}
use vor.Store.Boot.{recheck_cached, recheck_envelope, recheck_saved, remove_refused}
use vor.Store.System.Booting.{boot_start-Steady, load_model-Steady}
use vor.Store.System.Resumptions.{resume-Steady}

-- `verifyLicense` returned this payload for some envelope, trusted keys and options, with the
-- default skew.
abbrev pub WasVerified : Noble → LicensePayload → Type 0
WasVerified n p =
    (envelope : Text) × (trusted : Option TrustedKeys) × (opts : VerifyOptions)
    × (opts.clock_skew_secs ≡ none)
    × (verify_license n envelope trusted opts ≡ ok p)

module _ (n : Noble) (fl : Floats) (id_after : Text → Text → Bool) where
  open fl use {F}

  -- The licence that is activated, if there is one, was verified.
  IsLicensed : World F → Type 0
  IsLicensed w = (p : LicensePayload) → w.store.activated ≡ some p → WasVerified n p

  of_Steady : {w w' : World F} → Steady w w' → IsLicensed w → IsLicensed w'
  unfolding IsLicensed
  of_Steady h k p same = k p (sym h.licence ∙ same)

  settle-IsLicensed :
      (now : ℕ) (silent : Bool) (envelope : Text) (r : Result LicensePayload) (w : World F)
      → verify_license n envelope w.storage.trusted (verify_options now w.storage) ≡ r
      → IsLicensed (settle now silent envelope r w)
  unfolding settle IsLicensed
  settle-IsLicensed now silent envelope (ok q) w verified p same =
      let eq : q ≡ p = cc in
      (
        envelope,
        w.storage.trusted,
        verify_options now w.storage,
        refl,
        verified ∙ ap (λ x. ok x) eq,
      )
  settle-IsLicensed now silent envelope (err e) w verified p same = cc

  removed-IsLicensed :
      (now : ℕ) (e : Text) (r : Result LicensePayload) (w : World F)
      → IsLicensed (settle now true e r w)
      → IsLicensed (remove_refused r (settle now true e r w))
  unfolding IsLicensed
  removed-IsLicensed now e (ok p) w k = k
  removed-IsLicensed now e (err x) w k = k

  recheck_envelope-IsLicensed :
      (now : ℕ) (e : Text) (w : World F) → IsLicensed w → IsLicensed (recheck_envelope n now e w)
  unfolding verify_and_activate
  recheck_envelope-IsLicensed now [] w k = k
  recheck_envelope-IsLicensed now (c ∷ e) w k =
      let r = verify_license n (c ∷ e) w.storage.trusted (verify_options now w.storage) in
      removed-IsLicensed now (c ∷ e) r w (settle-IsLicensed now true (c ∷ e) r w refl)

  recheck_saved-IsLicensed :
      (now : ℕ) (o : Option StoredActivation) (w : World F)
      → IsLicensed w
      → IsLicensed (recheck_saved n now o w)
  recheck_saved-IsLicensed now none w k = k
  recheck_saved-IsLicensed now (some saved) w k = recheck_envelope-IsLicensed now saved.envelope w k

  Act-IsLicensed : {w w' : World F} → Act n fl id_after w w' → IsLicensed w → IsLicensed w'
  unfolding set_lang set_view set_tab clear_report deactivate end_animation clear_cms
      set_manual_override update_settings set_manager_unlocked verify_and_activate recheck_cached
      IsLicensed
  Act-IsLicensed (langs w l) k = k
  Act-IsLicensed (views w v) k = k
  Act-IsLicensed (tabs w t) k = k
  Act-IsLicensed (logs w now stage level) k = of_Steady (log_event-Steady now stage level w) k
  Act-IsLicensed (verifies w now silent envelope) k = settle-IsLicensed now silent envelope _ w refl
  Act-IsLicensed (clears w) k = k
  Act-IsLicensed (deactivates w now) k = λ p same. cc
  Act-IsLicensed (disconnects w now) k = of_Steady (disconnect-Steady now w) k
  Act-IsLicensed (scenarios w now sc) k = of_Steady (set_scenario-Steady now sc w) k
  Act-IsLicensed (toggles w now kind) k = of_Steady (toggle_cm-Steady now kind w) k
  Act-IsLicensed (plans w now) k = of_Steady (apply_plan-Steady now w) k
  Act-IsLicensed (clears_cms w) k = k
  Act-IsLicensed (overrides w v) k = k
  Act-IsLicensed (settings w patch) k = k
  Act-IsLicensed (unlocks w v) k = k
  Act-IsLicensed (features w now setter v) k = of_Steady (set_feature-Steady fl now setter v w) k
  Act-IsLicensed (animations w) k = k
  Act-IsLicensed (ticks w now d) k = of_Steady (tick-Steady fl now d w) k
  Act-IsLicensed (resets w now) k = of_Steady (end_reset-Steady fl now w) k
  Act-IsLicensed (boots w now) k = of_Steady (boot_start-Steady now w) k
  Act-IsLicensed (models w now model) k = of_Steady (load_model-Steady fl now model w) k
  Act-IsLicensed (rechecks w now) k = recheck_saved-IsLicensed now w.storage.activated w k
  Act-IsLicensed (stores w st) k = k

  Resumed-IsLicensed :
      {w w' : World F} {rs rs' : List (ℕ × Phase F)}
      → Resumed n fl id_after w rs w' rs'
      → IsLicensed w
      → IsLicensed w'
  Resumed-IsLicensed (Resumed.here w token ph rs d) k =
      of_Steady (resume-Steady fl id_after token d ph w) k
  Resumed-IsLicensed (Resumed.there r later) k = Resumed-IsLicensed later k

  run_start-activated :
      (now : ℕ) (w : World F) → (run_start now w).0.store.activated ≡ w.store.activated
  unfolding run_start
  run_start-activated now w = ground arith

  Reachable-IsLicensed : {s : System n fl id_after} → Reachable n fl id_after s → IsLicensed s.world
  unfolding initial_store connect IsLicensed
  Reachable-IsLicensed (Reachable.starts st) = λ p same. cc
  Reachable-IsLicensed (Reachable.acts r act) = Act-IsLicensed act (Reachable-IsLicensed r)
  Reachable-IsLicensed (Reachable.connects {s} now r) =
      let w = s.world in
      let st = w.store in
      let token = suc w.connect_token in
      let begun : World F = record w {
        store = record st { connect_token_ref = token };
        connect_token = token;
      } in
      λ p same. Reachable-IsLicensed r p (sym (run_start-activated now begun) ∙ same)
  Reachable-IsLicensed (Reachable.resumes r resumed) =
      Resumed-IsLicensed resumed (Reachable-IsLicensed r)

  -- Whatever happened before, a payload that the store holds as the activated licence is one that
  -- `verifyLicense` returned for some envelope, trusted keys and options, with the default skew.
  pub Reachable-WasVerified :
      {s : System n fl id_after} (p : LicensePayload)
      → Reachable n fl id_after s
      → s.world.store.activated ≡ some p
      → WasVerified n p
  unfolding IsLicensed
  Reachable-WasVerified p reached same = Reachable-IsLicensed reached p same
