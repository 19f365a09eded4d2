-- ===== src/Store/Engine.antt =====
-- The 1 Hz engine loop, `startEngine` of store.ts, and the timer of its reconnect bursts.
use vor.Common.{
  ℕ, Bool, true, false, ◌&&◌, ◌||◌, not, List, if◌then◌else◌, Text, codes, includes, Floats,
}
use vor.Dpi.{DpiFeatures, Scenario}
use vor.Dpi.Features.{step_features}
use vor.Tunnel.{TunnelState, connected, reconnecting, TelemetryPoint}
use vor.Tunnel.Telemetry.{Draws, step_telemetry}
use vor.Store.{World, error, success, log_event, push_series}
use vor.Store.Actions.{is_connected, refresh_verdict, or_before}

abbrev pub is_reconnecting : TunnelState → Bool
is_reconnecting reconnecting = true
is_reconnecting _ = false

abbrev pub is_active_dpi : Scenario → Bool
is_active_dpi Scenario.active_dpi = true
is_active_dpi _ = false

-- What `Math.random()` gives to one tick.
pub record TickDraws (F : Type 0) : Type 0 where
  pub telemetry : Draws F
  pub reset : F
  pub features : DpiFeatures F

module _ (fl : Floats) where
  open fl use {F, dec, add, mul, div, lt}

  -- The new point, the transferred amount and the series, capped.
  unfoldable pub push_point : TelemetryPoint F → World F → World F
  unfolding push_series
  push_point p w =
      let s = w.store in
      let q = s.series in
      record w {
        store = record s {
          telemetry = p;
          transferred_mb = add s.transferred_mb (div (add p.down p.up) (dec 8 0));
          series = record {
            down = push_series q.down p.down;
            up = push_series q.up p.up;
            latency = push_series q.latency p.latency;
            jitter = push_series q.jitter p.jitter;
            loss = push_series q.loss p.loss;
          };
        };
      }

  unfoldable pub break_tunnel : ℕ → World F → World F
  unfolding log_event
  break_tunnel now w =
      let logged = log_event now (codes "ids") error w in
      let s = logged.store in record logged { store = record s { tunnel = reconnecting } }

  -- An injected reset breaks an undefended tunnel.
  unfoldable pub inject_reset : ℕ → F → World F → World F
  unfolding break_tunnel includes
  inject_reset now draw w =
      if is_active_dpi w.store.scenario
        && not (includes w.store.active_cms (codes "client_hello_split"))
        && lt draw (dec 7 2)
      then break_tunnel now w
      else w

  unfoldable pub mend_tunnel : ℕ → World F → World F
  unfolding log_event
  mend_tunnel now w =
      let s = w.store in
      log_event now (codes "controller") success
        (record w { store = record s { tunnel = connected } })

  -- The timer that `inject_reset` starts, 1500 ms later.
  unfoldable pub end_reset : ℕ → World F → World F
  unfolding mend_tunnel
  end_reset now w = if is_reconnecting w.store.tunnel then mend_tunnel now w else w

  abbrev pub next_point : TickDraws F → World F → TelemetryPoint F
  next_point d w =
      let s = w.store in step_telemetry fl s.scenario true s.active_cms s.settings.mtu d.telemetry

  unfoldable pub tick_telemetry : ℕ → TickDraws F → World F → World F
  unfolding push_point inject_reset step_telemetry
  tick_telemetry now d w =
      if is_connected w.store.tunnel
      then inject_reset now d.reset (push_point (next_point d w) w)
      else w

  abbrev pub scale_if : Bool → ℕ → F → F
  scale_if b hundredths v = if b then mul v (dec hundredths 2) else v

  -- The countermeasures repair the channel.
  unfoldable pub repair_features : List Text → DpiFeatures F → DpiFeatures F
  unfolding includes
  repair_features cms f =
      let fronted = includes cms (codes "fake_sni") in
      let hopping = includes cms (codes "port_hopping") in
      record f {
        reset_after_client_hello =
            scale_if (includes cms (codes "client_hello_split") || fronted) 55
              f.reset_after_client_hello;
        rst_rate =
            scale_if fronted 70
              (scale_if (includes cms (codes "packet_fragmentation")) 55 f.rst_rate);
        probe_hit_rate = scale_if (includes cms (codes "utls_fingerprint")) 60 f.probe_hit_rate;
        throttle_ratio =
            scale_if hopping 72 (scale_if (includes cms (codes "mux")) 78 f.throttle_ratio);
        rtt_variance = scale_if hopping 90 f.rtt_variance;
        timing_regularity = scale_if (includes cms (codes "padding")) 60 f.timing_regularity;
        handshake_fail_ratio =
            scale_if (includes cms (codes "dns_mode") || includes cms (codes "transport_switch")) 55
              f.handshake_fail_ratio;
      }

  unfoldable pub move_features : TickDraws F → World F → World F
  unfolding repair_features step_features
  move_features d w =
      let s = w.store in
      record w {
        store = record s {
          features =
              repair_features s.active_cms
                (step_features fl s.features s.scenario (dec 35 3) d.features);
        };
      }

  unfoldable pub tick_features : TickDraws F → World F → World F
  unfolding move_features
  tick_features d w = if w.store.manual_override then w else move_features d w

  -- One round of the interval.
  unfoldable pub tick : ℕ → TickDraws F → World F → World F
  unfolding tick_telemetry tick_features refresh_verdict
  tick now d w =
      let moved = tick_features d (tick_telemetry now d w) in
      or_before fl moved (refresh_verdict fl now moved)
