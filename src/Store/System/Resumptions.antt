-- ===== src/Store/System/Resumptions.antt =====
-- The runs change neither the tokens nor the activated licence.
use vor.Common.{
  ℕ, zero, suc, refl, Bool, true, false, Option, none, some, Text, codes, arith, Floats,
  if◌then◌else◌, ◌==◌,
}
use vor.Dpi.{Scenario}
use vor.Tunnel.{
  TransportClass, TunnelState, selecting_transport, connecting, config_error, checking_network,
  handshake, reconnecting, switching_transport, transport_eq, ladder_at, ladder_index, max_attempts,
}
use vor.Tunnel.Scoring.{DecisionExplanation, pick_best}
use vor.Store.{World, Level, info, warn, error, log_event}
use vor.Store.Actions.{is_blackout}
use vor.Store.Connect.{
  Phase, prepare, check, backoff, dial, shake, switch, finished, Draw, set_tunnel, is_alive,
  attempt_loop, select, dial_best, log_blackout, candidates, fail_attempt, succeed, advance, resume,
  fail_chance, escalate, record_failure,
}
use vor.Store.System.Effects.{Steady, still, Steady-compose, Steady-if, log_event-Steady}

-- Either branch of a test, which also gives a phase.
Steady-if_phase :
    {F : Type 0} {u : World F} (b : Bool) (r s : World F × Phase F)
    → Steady u r.0
    → Steady u s.0
    → Steady u (if b then r else s).0
Steady-if_phase true r s p q = p
Steady-if_phase false r s p q = q

module _ {F : Type 0} where
  set_tunnel-Steady : (t : TunnelState) (w : World F) → Steady w (set_tunnel t w)
  set_tunnel-Steady t w = record { synced = λ h. h; grows = omega arith; licence = refl }

  -- A change of the tunnel's state that is logged, before or after.
  log_then_set :
      (now : ℕ) (stage : Text) (level : Level) (t : TunnelState) (w : World F)
      → Steady w (set_tunnel t (log_event now stage level w))
  log_then_set now stage level t w =
      Steady-compose (set_tunnel-Steady t (log_event now stage level w))
        (log_event-Steady now stage level w)

  set_then_log :
      (now : ℕ) (stage : Text) (level : Level) (t : TunnelState) (w : World F)
      → Steady w (log_event now stage level (set_tunnel t w))
  set_then_log now stage level t w =
      Steady-compose (log_event-Steady now stage level (set_tunnel t w)) (set_tunnel-Steady t w)

module _ (fl : Floats) (id_after : Text → Text → Bool) where
  open fl use {F}

  log_blackout-Steady :
      (now : ℕ) (b : Bool) (w : World F) → Steady w (log_blackout fl id_after now b w)
  log_blackout-Steady now b w =
      Steady-if b (log_event-Steady now (codes "blackout") warn w) (still w)

  unfoldable pub choose : DecisionExplanation F → World F → World F
  choose best w =
      let s = w.store in
      record w { store = record s { selected = some best; transport = best.transport } }

  choose-Steady : (best : DecisionExplanation F) (w : World F) → Steady w (choose best w)
  unfolding choose
  choose-Steady best w = record { synced = λ h. h; grows = omega arith; licence = refl }

  dial_best-Steady :
      (now k : ℕ) (best : Option (DecisionExplanation F)) (sc : Scenario) (w : World F)
      → Steady w (dial_best fl id_after now k best sc w).0
  unfolding dial_best choose
  dial_best-Steady now k none sc w = log_then_set now (codes "scoring") error config_error w
  dial_best-Steady now k (some best) sc w =
      let a = log_event now (codes "scoring") info (choose best w) in
      let b = log_blackout fl id_after now (is_blackout sc) a in
      Steady-compose (set_then_log now (codes "transport") info connecting b) (
        Steady-compose (log_blackout-Steady now (is_blackout sc) a) (
          Steady-compose (log_event-Steady now (codes "scoring") info (choose best w))
            (choose-Steady best w)))

  select-Steady : (now k : ℕ) (w : World F) → Steady w (select fl id_after now k w).0
  unfolding select
  select-Steady now k w =
      Steady-compose
        (dial_best-Steady now k
          (pick_best fl id_after (candidates fl id_after w.store.scenario w.store.endpoints))
          w.store.scenario (set_tunnel selecting_transport w))
        (set_tunnel-Steady selecting_transport w)

  -- The attempt and the state of the tunnel.
  unfoldable pub try_again : ℕ → TunnelState → World F → World F
  try_again k t w = let s = w.store in record w { store = record s { attempt = k; tunnel = t } }

  try_again-Steady : (k : ℕ) (t : TunnelState) (w : World F) → Steady w (try_again k t w)
  unfolding try_again
  try_again-Steady k t w = record { synced = λ h. h; grows = omega arith; licence = refl }

  attempt_loop-Steady : (now k : ℕ) (w : World F) → Steady w (attempt_loop fl id_after now k w).0
  unfolding attempt_loop try_again
  attempt_loop-Steady now zero w =
      Steady-compose (select-Steady now 0 (try_again 0 selecting_transport w))
        (try_again-Steady 0 selecting_transport w)
  attempt_loop-Steady now (suc k) w =
      let logged = log_event now (codes "controller") warn w in
      Steady-if_phase (suc k == max_attempts)
        (set_tunnel config_error (log_event now (codes "controller") error w), finished)
        (try_again (suc k) reconnecting logged, backoff (suc k))
        (log_then_set now (codes "controller") error config_error w)
        (Steady-compose (try_again-Steady (suc k) reconnecting logged)
          (log_event-Steady now (codes "controller") warn w))

  record_failure-Steady :
      (now : ℕ) (best : DecisionExplanation F) (w : World F)
      → Steady w (record_failure fl id_after now best w)
  unfolding record_failure
  record_failure-Steady now best w = record { synced = λ h. h; grows = omega arith; licence = refl }

  unfoldable pub climb : TransportClass → World F → World F
  climb t w =
      let s = w.store in
      record w { store = record s { transport = t; tunnel = switching_transport } }

  climb-Steady : (t : TransportClass) (w : World F) → Steady w (climb t w)
  unfolding climb
  climb-Steady t w = record { synced = λ h. h; grows = omega arith; licence = refl }

  escalate-Steady : (now k : ℕ) (w : World F) → Steady w (escalate fl id_after now k w).0
  unfolding escalate climb
  escalate-Steady now k w =
      let next = ladder_at (suc (ladder_index w.store.transport)) in
      Steady-if_phase (transport_eq next w.store.transport) (attempt_loop fl id_after now (suc k) w)
        (log_event now (codes "controller") warn (climb next w), switch k)
        (attempt_loop-Steady now (suc k) w)
        (Steady-compose (log_event-Steady now (codes "controller") warn (climb next w))
          (climb-Steady next w))

  fail_attempt-Steady :
      (now k : ℕ) (best : DecisionExplanation F) (w : World F)
      → Steady w (fail_attempt fl id_after now k best w).0
  unfolding fail_attempt
  fail_attempt-Steady now k best w =
      Steady-compose (escalate-Steady now k (record_failure fl id_after now best w))
        (record_failure-Steady now best w)

  succeed-Steady :
      (now : ℕ) (jitter : F) (best : DecisionExplanation F) (w : World F)
      → Steady w (succeed fl id_after now jitter best w).0
  unfolding succeed
  succeed-Steady now jitter best w = record { synced = λ h. h; grows = omega arith; licence = refl }

  advance-Steady :
      (d : Draw F) (ph : Phase F) (w : World F) → Steady w (advance fl id_after d ph w).0
  unfolding advance
  advance-Steady d prepare w = set_then_log d.now (codes "network") info checking_network w
  advance-Steady d check w = attempt_loop-Steady d.now 0 w
  advance-Steady d (backoff k) w = select-Steady d.now k w
  advance-Steady d (dial k best sc) w = set_then_log d.now (codes "tls") info handshake w
  advance-Steady d (shake k best sc) w =
      Steady-if_phase
        (fl.lt d.failure (fail_chance fl id_after sc best.transport w.store.active_cms))
        (fail_attempt fl id_after d.now k best w) (succeed fl id_after d.now d.jitter best w)
        (fail_attempt-Steady d.now k best w) (succeed-Steady d.now d.jitter best w)
  advance-Steady d (switch k) w = attempt_loop-Steady d.now (suc k) w
  advance-Steady d finished w = still w

  pub resume-Steady :
      (token : ℕ) (d : Draw F) (ph : Phase F) (w : World F)
      → Steady w (resume fl id_after token d ph w).0
  unfolding resume
  resume-Steady token d ph w =
      Steady-if_phase (is_alive token w) (advance fl id_after d ph w) (w, finished)
        (advance-Steady d ph w) (still w)
