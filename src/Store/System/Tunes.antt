-- ===== src/Store/System/Tunes.antt =====
-- What the actions and the timers do to the tunnel: they leave its state, or exchange a connected
-- and a reconnecting one, unless they take a new token.
pub mod Actions
pub mod Engine
use vor.Common.{
  ℕ, suc, ◌≤◌, ◌≡◌, refl, sym, Bool-cases, ◌∙◌, subst, ◌⊎◌, inl, inr, Bool, true, false, Option,
  none, some, List, [], ◌∷◌, Text, codes, arith, Floats, if◌then◌else◌,
}
use vor.Crypto.{Noble}
use vor.Dpi.{DpiFeatures, Scenario}
use vor.Dpi.Model.{DpiVerdict, ModelManifest, classify}
use vor.Dpi.Plans.{CountermeasurePlan}
use vor.License.{LicensePayload}
use vor.License.Errors.{Result, ok, err}
use vor.Keystore.Verify.{verify_license}
use vor.Tunnel.{
  TunnelState, TelemetryPoint, idle, preparing, checking_network, selecting_transport, connecting,
  handshake, connected, reconnecting, switching_transport, diagnosing, license_required,
  license_expired, config_error,
}
use vor.Store.{World, StoredActivation, log_event, success, warn}
use vor.Store.Actions.{
  is_connected, is_blackout, is_benign, class_eq, disconnect, arm_blackout, enter_blackout,
  retarget, set_scenario, apply_plan, apply_actions, toggle_cm, put_feature, set_feature,
  take_verdict, log_change, apply_verdict, verdict_for, refresh_verdict, or_before, set_lang,
  set_view, set_tab, clear_cms, set_manual_override, update_settings, set_manager_unlocked,
}
use vor.Store.Engine.{
  TickDraws, is_reconnecting, break_tunnel, mend_tunnel, next_point, move_features, push_point,
  inject_reset, end_reset, tick_telemetry, tick_features, tick,
}
use vor.Store.Boot.{
  boot_start, fail_model, take_model, refreshed_or_failed, load_model, recheck_cached,
  recheck_envelope, recheck_saved, remove_refused,
}
use vor.Store.License.{
  clear_report, deactivate, settle, verify_options, verify_and_activate, end_animation,
}
use vor.Store.System.{Act}
use vor.Store.System.Act.{
  langs, views, tabs, logs, verifies, clears, deactivates, disconnects, scenarios, toggles, plans,
  clears_cms, overrides, settings, unlocks, features, animations, ticks, resets, stores, boots,
  models, rechecks,
}

abbrev pub IsUp : TunnelState → Type 0
IsUp t = (t ≡ connected) ⊎ (t ≡ reconnecting)

abbrev pub Follows : TunnelState → TunnelState → Type 0
Follows a b = (b ≡ a) ⊎ (IsUp a × IsUp b)

Follows-compose : {a b c : TunnelState} → Follows b c → Follows a b → Follows a c
Follows-compose (inl q) (inl p) = inl (q ∙ p)
Follows-compose (inl q) (inr (a, b)) = inr (a, subst IsUp (sym q) b)
Follows-compose (inr (b, c)) (inl p) = inr (subst IsUp p b, c)
Follows-compose (inr (b, c)) (inr (a, x)) = inr (a, c)

-- The tunnel follows, or there is a new token.
pub record Tunes {F : Type 0} (w w' : World F) : Type 0 where
  pub grows : w.connect_token ≤ w'.connect_token
  pub moved : Follows w.store.tunnel w'.store.tunnel ⊎ (suc w.connect_token ≤ w'.connect_token)

pub same :
    {F : Type 0} {w w' : World F}
    → w'.connect_token ≡ w.connect_token
    → w'.store.tunnel ≡ w.store.tunnel
    → Tunes w w'
same h t = record { grows = omega (arith, h); moved = inl (inl t) }

pub keeps : {F : Type 0} (w : World F) → Tunes w w
keeps w = same refl refl

either :
    {a b c : TunnelState} {k m n : ℕ}
    → m ≤ n
    → k ≤ m
    → (Follows b c ⊎ (suc m ≤ n))
    → (Follows a b ⊎ (suc k ≤ m))
    → Follows a c ⊎ (suc k ≤ n)
either q p (inl y) (inl x) = inl (Follows-compose y x)
either q p (inr y) x = inr (omega arith)
either q p (inl y) (inr x) = inr (omega arith)

pub Tunes-compose : {F : Type 0} {u v w : World F} → Tunes v w → Tunes u v → Tunes u w
Tunes-compose q p = record {
  grows = omega (arith, p.grows, q.grows);
  moved = either q.grows p.grows q.moved p.moved;
}

pub Tunes-if :
    {F : Type 0} {u v w : World F} (b : Bool) → Tunes u v → Tunes u w → Tunes u (if b then v else w)
Tunes-if true p q = p
Tunes-if false p q = q
