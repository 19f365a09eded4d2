-- ===== src/Store/System/Effects.antt =====
-- What the actions, the timers and the runs leave alone: the tokens only grow, together, and the
-- activated licence changes only where a licence is verified or deactivated.
use vor.Common.{
  ℕ, ◌≤◌, ◌≡◌, refl, ◌∙◌, Bool, true, false, Option, none, some, Text, arith, Floats, if◌then◌else◌,
  codes,
}
use vor.Dpi.{DpiFeatures, Scenario}
use vor.Dpi.Model.{DpiVerdict, ModelManifest, classify}
use vor.Dpi.Plans.{CountermeasurePlan}
use vor.Tunnel.{TelemetryPoint}
use vor.Store.{World, Level, log_event, success, warn}
use vor.Store.Actions.{
  disconnect, arm_blackout, retarget, take_verdict, put_feature, is_benign, enter_blackout,
  set_scenario, toggle_cm, apply_actions, apply_plan, apply_verdict, log_change, verdict_for,
  refresh_verdict, or_before, set_feature, is_connected, is_blackout, class_eq,
}
use vor.Store.Engine.{
  TickDraws, break_tunnel, mend_tunnel, next_point, move_features, push_point, inject_reset,
  end_reset, tick_telemetry, tick_features, tick,
}

-- The store's token is the module's if it was, the module's token does not fall, and the licence is
-- the same.
pub record Steady {F : Type 0} (w w' : World F) : Type 0 where
  pub synced :
      w.store.connect_token_ref ≡ w.connect_token → w'.store.connect_token_ref ≡ w'.connect_token
  pub grows : w.connect_token ≤ w'.connect_token
  pub licence : w'.store.activated ≡ w.store.activated

abbrev pub still : {F : Type 0} (w : World F) → Steady w w
still w = record { synced = λ h. h; grows = omega arith; licence = refl }

pub Steady-compose : {F : Type 0} {u v w : World F} → Steady v w → Steady u v → Steady u w
Steady-compose q p = record {
  synced = λ h. q.synced (p.synced h);
  grows = omega (arith, p.grows, q.grows);
  licence = q.licence ∙ p.licence;
}

-- Either branch of a test.
pub Steady-if :
    {F : Type 0} {u v w : World F} (b : Bool)
    → Steady u v
    → Steady u w
    → Steady u (if b then v else w)
Steady-if true p q = p
Steady-if false p q = q

module _ {F : Type 0} where
  pub disconnect-Steady : (now : ℕ) (w : World F) → Steady w (disconnect now w)
  unfolding disconnect
  disconnect-Steady now w = record { synced = λ h. refl; grows = omega arith; licence = refl }

  arm_blackout-Steady : (now : ℕ) (w : World F) → Steady w (arm_blackout now w)
  unfolding arm_blackout
  arm_blackout-Steady now w = record { synced = λ h. h; grows = omega arith; licence = refl }

  enter_blackout-Steady : (now : ℕ) (w : World F) → Steady w (enter_blackout now w)
  unfolding enter_blackout
  enter_blackout-Steady now w =
      let armed = arm_blackout-Steady now w in
      Steady-if (is_connected (arm_blackout now w).store.tunnel)
        (Steady-compose (disconnect-Steady now (arm_blackout now w)) armed) armed

  retarget-Steady : (now : ℕ) (sc : Scenario) (w : World F) → Steady w (retarget now sc w)
  unfolding retarget
  retarget-Steady now sc w = record { synced = λ h. h; grows = omega arith; licence = refl }

  pub set_scenario-Steady :
      (now : ℕ) (sc : Scenario) (w : World F) → Steady w (set_scenario now sc w)
  unfolding set_scenario
  set_scenario-Steady now sc w =
      let switched = retarget-Steady now sc w in
      Steady-if (is_blackout sc)
        (Steady-compose (enter_blackout-Steady now (retarget now sc w)) switched) switched

  pub toggle_cm-Steady : (now : ℕ) (kind : Text) (w : World F) → Steady w (toggle_cm now kind w)
  unfolding toggle_cm
  toggle_cm-Steady now kind w = record { synced = λ h. h; grows = omega arith; licence = refl }

  apply_actions-Steady :
      (now : ℕ) (plan : Option CountermeasurePlan) (w : World F)
      → Steady w (apply_actions now plan w)
  unfolding apply_actions
  apply_actions-Steady now none w = still w
  apply_actions-Steady now (some plan) w = record {
    synced = λ h. h;
    grows = omega arith;
    licence = refl;
  }

  pub apply_plan-Steady : (now : ℕ) (w : World F) → Steady w (apply_plan now w)
  unfolding apply_plan
  apply_plan-Steady now w = apply_actions-Steady now w.store.plan w

  pub log_event-Steady :
      (now : ℕ) (stage : Text) (level : Level) (w : World F)
      → Steady w (log_event now stage level w)
  unfolding log_event
  log_event-Steady now stage level w = record {
    synced = λ h. h;
    grows = omega arith;
    licence = refl;
  }

module _ (fl : Floats) where
  open fl use {F}

  log_change-Steady :
      (now : ℕ) (prev : Option (DpiVerdict F)) (v : DpiVerdict F) (w : World F)
      → Steady w (log_change fl now prev v w)
  log_change-Steady now none v w = still w
  log_change-Steady now (some p) v w =
      Steady-if (class_eq p.class v.class) (still w)
        (log_event-Steady now (codes "dpi") (if is_benign fl v.class then success else warn) w)

  take_verdict-Steady : (v : DpiVerdict F) (w : World F) → Steady w (take_verdict fl v w)
  unfolding take_verdict
  take_verdict-Steady v w = record { synced = λ h. h; grows = omega arith; licence = refl }

  apply_verdict-Steady :
      (now : ℕ) (v : Option (DpiVerdict F)) (w : World F)
      → Steady w (or_before fl w (apply_verdict fl now v w))
  unfolding apply_verdict
  apply_verdict-Steady now none w = still w
  apply_verdict-Steady now (some v) w =
      Steady-compose (log_change-Steady now w.store.verdict v (take_verdict fl v w))
        (take_verdict-Steady v w)

  verdict_for-Steady :
      (now : ℕ) (model : Option (ModelManifest F)) (w : World F)
      → Steady w (or_before fl w (verdict_for fl now model w))
  unfolding verdict_for
  verdict_for-Steady now none w = still w
  verdict_for-Steady now (some model) w =
      apply_verdict-Steady now (classify fl model w.store.features) w

  pub refresh_verdict-Steady :
      (now : ℕ) (w : World F) → Steady w (or_before fl w (refresh_verdict fl now w))
  unfolding refresh_verdict
  refresh_verdict-Steady now w = verdict_for-Steady now w.store.model w

  put_feature-Steady :
      (setter : DpiFeatures F → F → DpiFeatures F) (v : F) (w : World F)
      → Steady w (put_feature fl setter v w)
  put_feature-Steady setter v w = record { synced = λ h. h; grows = omega arith; licence = refl }

  pub set_feature-Steady :
      (now : ℕ) (setter : DpiFeatures F → F → DpiFeatures F) (v : F) (w : World F)
      → Steady w (set_feature fl now setter v w)
  unfolding set_feature
  set_feature-Steady now setter v w =
      Steady-compose (refresh_verdict-Steady now (put_feature fl setter v w))
        (put_feature-Steady setter v w)

  break_tunnel-Steady : (now : ℕ) (w : World F) → Steady w (break_tunnel fl now w)
  unfolding break_tunnel
  break_tunnel-Steady now w = record { synced = λ h. h; grows = omega arith; licence = refl }

  inject_reset-Steady : (now : ℕ) (draw : F) (w : World F) → Steady w (inject_reset fl now draw w)
  unfolding inject_reset
  inject_reset-Steady now draw w = Steady-if _ (break_tunnel-Steady now w) (still w)

  mend_tunnel-Steady : (now : ℕ) (w : World F) → Steady w (mend_tunnel fl now w)
  unfolding mend_tunnel
  mend_tunnel-Steady now w = record { synced = λ h. h; grows = omega arith; licence = refl }

  pub end_reset-Steady : (now : ℕ) (w : World F) → Steady w (end_reset fl now w)
  unfolding end_reset
  end_reset-Steady now w = Steady-if _ (mend_tunnel-Steady now w) (still w)

  push_point-Steady : (p : TelemetryPoint F) (w : World F) → Steady w (push_point fl p w)
  unfolding push_point
  push_point-Steady p w = record { synced = λ h. h; grows = omega arith; licence = refl }

  tick_telemetry-Steady :
      (now : ℕ) (d : TickDraws F) (w : World F) → Steady w (tick_telemetry fl now d w)
  unfolding tick_telemetry
  tick_telemetry-Steady now d w =
      Steady-if (is_connected w.store.tunnel)
        (Steady-compose (inject_reset-Steady now d.reset (push_point fl (next_point fl d w) w))
          (push_point-Steady (next_point fl d w) w))
        (still w)

  move_features-Steady : (d : TickDraws F) (w : World F) → Steady w (move_features fl d w)
  unfolding move_features
  move_features-Steady d w = record { synced = λ h. h; grows = omega arith; licence = refl }

  tick_features-Steady : (d : TickDraws F) (w : World F) → Steady w (tick_features fl d w)
  unfolding tick_features
  tick_features-Steady d w = Steady-if w.store.manual_override (still w) (move_features-Steady d w)

  pub tick-Steady : (now : ℕ) (d : TickDraws F) (w : World F) → Steady w (tick fl now d w)
  unfolding tick
  tick-Steady now d w =
      let a = tick_telemetry fl now d w in
      let b = tick_features fl d a in
      Steady-compose (refresh_verdict-Steady now b)
        (Steady-compose (tick_features-Steady d a) (tick_telemetry-Steady now d w))
