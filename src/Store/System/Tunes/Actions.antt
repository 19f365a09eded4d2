-- ===== src/Store/System/Tunes/Actions.antt =====
-- What the actions without arithmetic, and the check of a saved licence, do to the tunnel.
use vor.Common.{ℕ, refl, inr, Bool, true, Option, none, some, [], ◌∷◌, Text, arith}
use vor.Crypto.{Noble}
use vor.Dpi.{Scenario}
use vor.Dpi.Plans.{CountermeasurePlan}
use vor.License.{LicensePayload}
use vor.License.Errors.{Result, ok, err}
use vor.Keystore.Verify.{verify_license}
use vor.Store.{World, StoredActivation, log_event}
use vor.Store.Actions.{
  is_connected, is_blackout, disconnect, arm_blackout, enter_blackout, retarget, set_scenario,
  apply_actions,
}
use vor.Store.Boot.{recheck_envelope, recheck_saved, remove_refused}
use vor.Store.License.{settle, verify_options, verify_and_activate}
use vor.Store.System.Tunes.{Tunes, same, keeps, Tunes-compose, Tunes-if}

module _ {F : Type 0} where
  pub disconnect-Tunes : (now : ℕ) (w : World F) → Tunes w (disconnect now w)
  unfolding disconnect log_event
  disconnect-Tunes now w = record { grows = omega arith; moved = inr (omega arith) }

  arm_blackout-Tunes : (now : ℕ) (w : World F) → Tunes w (arm_blackout now w)
  unfolding arm_blackout log_event
  arm_blackout-Tunes now w = same refl refl

  enter_blackout-Tunes : (now : ℕ) (w : World F) → Tunes w (enter_blackout now w)
  unfolding enter_blackout
  enter_blackout-Tunes now w =
      let armed = arm_blackout-Tunes now w in
      Tunes-if (is_connected (arm_blackout now w).store.tunnel)
        (Tunes-compose (disconnect-Tunes now (arm_blackout now w)) armed) armed

  retarget-Tunes : (now : ℕ) (sc : Scenario) (w : World F) → Tunes w (retarget now sc w)
  unfolding retarget log_event
  retarget-Tunes now sc w = same refl refl

  pub set_scenario-Tunes : (now : ℕ) (sc : Scenario) (w : World F) → Tunes w (set_scenario now sc w)
  unfolding set_scenario
  set_scenario-Tunes now sc w =
      let switched = retarget-Tunes now sc w in
      Tunes-if (is_blackout sc)
        (Tunes-compose (enter_blackout-Tunes now (retarget now sc w)) switched) switched

  pub apply_actions-Tunes :
      (now : ℕ) (plan : Option CountermeasurePlan) (w : World F)
      → Tunes w (apply_actions now plan w)
  unfolding apply_actions log_event
  apply_actions-Tunes now none w = keeps w
  apply_actions-Tunes now (some plan) w = same refl refl

  pub settle-Tunes :
      (now : ℕ) (silent : Bool) (envelope : Text) (r : Result LicensePayload) (w : World F)
      → Tunes w (settle now silent envelope r w)
  unfolding settle log_event
  settle-Tunes now silent envelope (ok p) w = same refl refl
  settle-Tunes now silent envelope (err e) w = same refl refl

  removed-Tunes :
      (now : ℕ) (e : Text) (r : Result LicensePayload) (w : World F)
      → Tunes w (remove_refused r (settle now true e r w))
  unfolding settle log_event
  removed-Tunes now e (ok p) w = same refl refl
  removed-Tunes now e (err x) w = same refl refl

  recheck_envelope-Tunes :
      (n : Noble) (now : ℕ) (e : Text) (w : World F) → Tunes w (recheck_envelope n now e w)
  unfolding verify_and_activate
  recheck_envelope-Tunes n now [] w = keeps w
  recheck_envelope-Tunes n now (c ∷ e) w =
      removed-Tunes now (c ∷ e)
        (verify_license n (c ∷ e) w.storage.trusted (verify_options now w.storage)) w

  pub recheck_saved-Tunes :
      (n : Noble) (now : ℕ) (o : Option StoredActivation) (w : World F)
      → Tunes w (recheck_saved n now o w)
  recheck_saved-Tunes n now none w = keeps w
  recheck_saved-Tunes n now (some saved) w = recheck_envelope-Tunes n now saved.envelope w
