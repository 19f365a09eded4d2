-- ===== src/Tunnel/Telemetry.antt =====
-- One tick of the telemetry, `stepTelemetry` of tunnel.ts. The results of `Math.random()` are
-- arguments, in the order of the calls.
use vor.Common.{Bool, ◌||◌, List, if◌then◌else◌, Text, codes, includes, Floats, fmax, clamp, ℕ}
use vor.Dpi.{Scenario}
use vor.Tunnel.{TelemetryPoint}

-- The baselines of a scenario, changed by the countermeasures at work.
pub record Baseline (F : Type 0) : Type 0 where
  pub down : F
  pub latency : F
  pub loss : F
  pub jitter : F

-- One draw of `Math.random()` for each of the five measurements.
pub record Draws (F : Type 0) : Type 0 where
  pub down : F
  pub up : F
  pub latency : F
  pub jitter : F
  pub loss : F

module _ (fl : Floats) where
  open fl use {F, dec, add, sub, mul, div, round}

  unfoldable pub baseline : Scenario → List Text → Baseline F
  unfolding includes
  baseline Scenario.calm cms = record {
    down = dec 138 0;
    latency = dec 18 0;
    loss = dec 0 0;
    jitter = dec 6 1;
  }
  baseline Scenario.throttling cms = record {
    down =
        if includes cms (codes "mux") || includes cms (codes "port_hopping")
        then dec 78 0
        else dec 26 0;
    latency = dec 64 0;
    loss = if includes cms (codes "padding") then dec 2 1 else dec 8 1;
    jitter = dec 6 1;
  }
  baseline Scenario.active_dpi cms = record {
    down = if includes cms (codes "transport_switch") then dec 96 0 else dec 34 0;
    latency = if includes cms (codes "client_hello_split") then dec 42 0 else dec 96 0;
    loss = if includes cms (codes "packet_fragmentation") then dec 6 1 else dec 42 1;
    jitter = if includes cms (codes "fake_sni") then dec 14 1 else dec 65 1;
  }
  baseline Scenario.blackout cms = record {
    down = if includes cms (codes "transport_switch") then dec 42 0 else dec 6 0;
    latency = if includes cms (codes "dns_mode") then dec 88 0 else dec 190 0;
    loss = if includes cms (codes "packet_fragmentation") then dec 14 1 else dec 9 0;
    jitter = dec 5 0;
  }

  -- `v + (Math.random() - 0.5) * 2 * amt`
  abbrev pub walk : F → F → F → F
  walk draw v amt = add v (mul (mul (sub draw (dec 5 1)) (dec 2 0)) amt)

  abbrev pub round_at : F → F → F
  round_at scale v = div (round (mul v scale)) scale

  unfoldable pub initial_telemetry : TelemetryPoint F
  initial_telemetry = record {
    down = dec 0 0;
    up = dec 0 0;
    latency = dec 0 0;
    jitter = dec 0 0;
    loss = dec 0 0;
  }

  -- The five measurements before they are rounded.
  unfoldable pub walked : Baseline F → ℕ → Draws F → TelemetryPoint F
  walked b mtu draws =
      let mtu_factor = add (dec 1 0) (div (sub (dec mtu 0) (dec 1420 0)) (dec 14200 0)) in
      let down =
        fmax fl (dec 4 1) (walk draws.down (mul b.down mtu_factor) (mul b.down (dec 6 2))) in
      record {
        down = down;
        up = fmax fl (dec 2 1) (walk draws.up (mul down (dec 34 2)) (mul down (dec 5 2)));
        latency =
            fmax fl (dec 6 0)
              (walk draws.latency b.latency (fmax fl (dec 12 1) (mul b.latency (dec 8 2))));
        jitter = fmax fl (dec 1 1) (walk draws.jitter b.jitter (dec 4 1));
        loss =
            clamp fl (dec 0 0) (dec 30 0)
              (walk draws.loss b.loss (add (mul b.loss (dec 3 1)) (dec 5 2)));
      }

  unfoldable pub step_telemetry : Scenario → Bool → List Text → ℕ → Draws F → TelemetryPoint F
  unfolding baseline walked initial_telemetry
  step_telemetry scenario connected cms mtu draws =
      let p = walked (baseline scenario cms) mtu draws in
      if connected
      then record {
        down = round_at (dec 10 0) p.down;
        up = round_at (dec 10 0) p.up;
        latency = round_at (dec 10 0) p.latency;
        jitter = round_at (dec 10 0) p.jitter;
        loss = round_at (dec 100 0) p.loss;
      }
      else initial_telemetry
