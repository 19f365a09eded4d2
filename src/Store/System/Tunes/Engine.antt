-- ===== src/Store/System/Tunes/Engine.antt =====
-- What the verdict, the features, the engine loop and every act of the step relation do to the tunnel.
use vor.Common.{
  ℕ, ◌≡◌, refl, Bool-cases, inl, inr, Bool, true, Option, none, some, Text, codes, arith, Floats,
  if◌then◌else◌,
}
use vor.Crypto.{Noble}
use vor.Dpi.{DpiFeatures}
use vor.Dpi.Model.{DpiVerdict, ModelManifest, classify}
use vor.Tunnel.{
  TunnelState, idle, preparing, checking_network, selecting_transport, connecting, handshake,
  connected, reconnecting, switching_transport, diagnosing, license_required, license_expired,
  config_error,
}
use vor.Store.{World, log_event, success, warn}
use vor.Store.Actions.{
  is_connected, is_benign, class_eq, apply_plan, toggle_cm, put_feature, set_feature, take_verdict,
  log_change, apply_verdict, verdict_for, refresh_verdict, or_before, set_lang, set_view, set_tab,
  clear_cms, set_manual_override, update_settings, set_manager_unlocked,
}
use vor.Store.Engine.{
  TickDraws, is_reconnecting, break_tunnel, mend_tunnel, next_point, move_features, push_point,
  inject_reset, end_reset, tick_telemetry, tick_features, tick,
}
use vor.Store.Boot.{
  boot_start, fail_model, take_model, refreshed_or_failed, load_model, recheck_cached,
}
use vor.Store.License.{clear_report, deactivate, verify_and_activate, end_animation}
use vor.Store.System.{Act}
use vor.Store.System.Act.{
  langs, views, tabs, logs, verifies, clears, deactivates, disconnects, scenarios, toggles, plans,
  clears_cms, overrides, settings, unlocks, features, animations, ticks, resets, stores, boots,
  models, rechecks,
}
use vor.Store.System.Tunes.{Tunes, same, keeps, Tunes-compose, Tunes-if}
use vor.Store.System.Tunes.Actions.{
  disconnect-Tunes, set_scenario-Tunes, apply_actions-Tunes, settle-Tunes, recheck_saved-Tunes,
}

connected_only : (t : TunnelState) → is_connected t ≡ true → t ≡ connected
connected_only idle h = cc
connected_only preparing h = cc
connected_only checking_network h = cc
connected_only selecting_transport h = cc
connected_only connecting h = cc
connected_only handshake h = cc
connected_only connected h = refl
connected_only reconnecting h = cc
connected_only switching_transport h = cc
connected_only diagnosing h = cc
connected_only license_required h = cc
connected_only license_expired h = cc
connected_only config_error h = cc

reconnecting_only : (t : TunnelState) → is_reconnecting t ≡ true → t ≡ reconnecting
reconnecting_only idle h = cc
reconnecting_only preparing h = cc
reconnecting_only checking_network h = cc
reconnecting_only selecting_transport h = cc
reconnecting_only connecting h = cc
reconnecting_only handshake h = cc
reconnecting_only connected h = cc
reconnecting_only reconnecting h = refl
reconnecting_only switching_transport h = cc
reconnecting_only diagnosing h = cc
reconnecting_only license_required h = cc
reconnecting_only license_expired h = cc
reconnecting_only config_error h = cc

module _ (fl : Floats) where
  open fl use {F}

  log_change-Tunes :
      (now : ℕ) (prev : Option (DpiVerdict F)) (v : DpiVerdict F) (w : World F)
      → Tunes w (log_change fl now prev v w)
  unfolding log_event
  log_change-Tunes now none v w = keeps w
  log_change-Tunes now (some p) v w =
      let level = if is_benign fl v.class then success else warn in
      Tunes-if {v = w} {w = log_event now (codes "dpi") level w} (class_eq p.class v.class)
        (keeps w) (same refl refl)

  apply_verdict-Tunes :
      (now : ℕ) (v : Option (DpiVerdict F)) (w : World F)
      → Tunes w (or_before fl w (apply_verdict fl now v w))
  unfolding apply_verdict take_verdict
  apply_verdict-Tunes now none w = keeps w
  apply_verdict-Tunes now (some v) w =
      Tunes-compose (log_change-Tunes now w.store.verdict v (take_verdict fl v w)) (same refl refl)

  verdict_for-Tunes :
      (now : ℕ) (model : Option (ModelManifest F)) (w : World F)
      → Tunes w (or_before fl w (verdict_for fl now model w))
  unfolding verdict_for
  verdict_for-Tunes now none w = keeps w
  verdict_for-Tunes now (some model) w =
      apply_verdict-Tunes now (classify fl model w.store.features) w

  refresh_verdict-Tunes :
      (now : ℕ) (w : World F) → Tunes w (or_before fl w (refresh_verdict fl now w))
  unfolding refresh_verdict
  refresh_verdict-Tunes now w = verdict_for-Tunes now w.store.model w

  set_feature-Tunes :
      (now : ℕ) (setter : DpiFeatures F → F → DpiFeatures F) (v : F) (w : World F)
      → Tunes w (set_feature fl now setter v w)
  unfolding set_feature
  set_feature-Tunes now setter v w =
      Tunes-compose (refresh_verdict-Tunes now (put_feature fl setter v w)) (same refl refl)

  -- A connected tunnel may break.
  inject_reset-Tunes :
      (now : ℕ) (draw : F) (w : World F)
      → w.store.tunnel ≡ connected
      → Tunes w (inject_reset fl now draw w)
  unfolding inject_reset break_tunnel log_event
  inject_reset-Tunes now draw w up =
      Tunes-if {v = break_tunnel fl now w} {w = w} _
        record { grows = omega arith; moved = inl (inr (inl up, inr refl)) } (keeps w)

  tick_telemetry-Tunes :
      (now : ℕ) (d : TickDraws F) (w : World F) → Tunes w (tick_telemetry fl now d w)
  unfolding tick_telemetry push_point
  tick_telemetry-Tunes now d w = elim (Bool-cases (is_connected w.store.tunnel)) [
    | inl up ↦
        rw (up, tick_telemetry)
          (Tunes-compose
            (inject_reset-Tunes now d.reset (push_point fl (next_point fl d w) w)
              (connected_only w.store.tunnel up))
            (same refl refl))
    | inr down ↦ rw (down, tick_telemetry) (keeps w)
  ]

  tick_features-Tunes : (d : TickDraws F) (w : World F) → Tunes w (tick_features fl d w)
  unfolding tick_features move_features
  tick_features-Tunes d w =
      Tunes-if {v = w} {w = move_features fl d w} w.store.manual_override (keeps w) (same refl refl)

  tick-Tunes : (now : ℕ) (d : TickDraws F) (w : World F) → Tunes w (tick fl now d w)
  unfolding tick
  tick-Tunes now d w =
      let a = tick_telemetry fl now d w in
      let b = tick_features fl d a in
      Tunes-compose (refresh_verdict-Tunes now b)
        (Tunes-compose (tick_features-Tunes d a) (tick_telemetry-Tunes now d w))

  end_reset-Tunes : (now : ℕ) (w : World F) → Tunes w (end_reset fl now w)
  unfolding end_reset mend_tunnel log_event
  end_reset-Tunes now w = elim (Bool-cases (is_reconnecting w.store.tunnel)) [
    | inl broken ↦
        rw (broken, end_reset)
          record {
            grows = omega arith;
            moved = inl (inr (inr (reconnecting_only w.store.tunnel broken), inl refl));
          }
    | inr other ↦ rw (other, end_reset) (keeps w)
  ]

  refreshed-Tunes :
      (now : ℕ) (w : World F) (o : Option (World F))
      → Tunes w (or_before fl w o)
      → Tunes w (refreshed_or_failed fl now w o)
  unfolding fail_model log_event
  refreshed-Tunes now w none h = same refl refl
  refreshed-Tunes now w (some w') h = h

  load_model-Tunes :
      (now : ℕ) (model : Option (ModelManifest F)) (w : World F)
      → Tunes w (load_model fl now model w)
  unfolding load_model fail_model log_event
  load_model-Tunes now none w = same refl refl
  load_model-Tunes now (some m) w =
      let taken = take_model fl now m w in
      Tunes-compose
        (refreshed-Tunes now taken (refresh_verdict fl now taken) (refresh_verdict-Tunes now taken))
        (same refl refl)

module _ (n : Noble) (fl : Floats) (id_after : Text → Text → Bool) where
  open fl use {F}

  pub Act-Tunes : {w w' : World F} → Act n fl id_after w w' → Tunes w w'
  unfolding set_lang set_view set_tab clear_report deactivate end_animation clear_cms
      set_manual_override update_settings set_manager_unlocked verify_and_activate recheck_cached
      toggle_cm apply_plan boot_start log_event
  Act-Tunes (langs w l) = same refl refl
  Act-Tunes (views w v) = same refl refl
  Act-Tunes (tabs w t) = same refl refl
  Act-Tunes (logs w now stage level) = same refl refl
  Act-Tunes (verifies w now silent envelope) = settle-Tunes now silent envelope _ w
  Act-Tunes (clears w) = same refl refl
  Act-Tunes (deactivates w now) = record { grows = omega arith; moved = inr (omega arith) }
  Act-Tunes (disconnects w now) = disconnect-Tunes now w
  Act-Tunes (scenarios w now sc) = set_scenario-Tunes now sc w
  Act-Tunes (toggles w now kind) = same refl refl
  Act-Tunes (plans w now) = apply_actions-Tunes now w.store.plan w
  Act-Tunes (clears_cms w) = same refl refl
  Act-Tunes (overrides w v) = same refl refl
  Act-Tunes (settings w patch) = same refl refl
  Act-Tunes (unlocks w v) = same refl refl
  Act-Tunes (features w now setter v) = set_feature-Tunes fl now setter v w
  Act-Tunes (animations w) = same refl refl
  Act-Tunes (ticks w now d) = tick-Tunes fl now d w
  Act-Tunes (resets w now) = end_reset-Tunes fl now w
  Act-Tunes (boots w now) = same refl refl
  Act-Tunes (models w now model) = load_model-Tunes fl now model w
  Act-Tunes (rechecks w now) = recheck_saved-Tunes n now w.storage.activated w
  Act-Tunes (stores w st) = same refl refl
