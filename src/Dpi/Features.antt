-- ===== src/Dpi/Features.antt =====
-- The feature trajectories of the threat scenarios, `stepFeatures` of dpi.ts. The results of
-- `Math.random()` are an argument, one for each feature.
use vor.Common.{Floats, ℕ}
use vor.Dpi.{DpiFeatures, Scenario, unit_clamp}

module _ (fl : Floats) where
  open fl use {F, dec, add, sub, mul}

  -- The eight features from hundredths.
  abbrev pub hundredths : ℕ → ℕ → ℕ → ℕ → ℕ → ℕ → ℕ → ℕ → DpiFeatures F
  hundredths a b c d e g h i = record {
    rtt_variance = dec a 2;
    rst_rate = dec b 2;
    handshake_fail_ratio = dec c 2;
    reset_after_client_hello = dec d 2;
    payload_entropy = dec e 2;
    timing_regularity = dec g 2;
    throttle_ratio = dec h 2;
    probe_hit_rate = dec i 2;
  }

  -- `SCENARIO_TARGETS`
  unfoldable pub scenario_target : Scenario → DpiFeatures F
  scenario_target Scenario.calm = hundredths 15 5 8 4 88 12 8 3
  scenario_target Scenario.throttling = hundredths 45 20 25 14 55 78 72 10
  scenario_target Scenario.active_dpi = hundredths 70 68 62 72 24 44 30 66
  scenario_target Scenario.blackout = hundredths 90 50 85 45 12 30 85 20

  -- `cur + (t - cur) * 0.22 + (Math.random() - 0.5) * 2 * noise`, before the clamp
  abbrev pub moved : F → F → F → F → F
  moved noise draw t cur =
      add (add cur (mul (sub t cur) (dec 22 2))) (mul (mul (sub draw (dec 5 1)) (dec 2 0)) noise)

  abbrev pub step_one : F → F → F → F → F
  step_one noise draw t cur = unit_clamp fl (moved noise draw t cur)

  unfoldable pub step_features : DpiFeatures F → Scenario → F → DpiFeatures F → DpiFeatures F
  unfolding scenario_target
  step_features cur scenario noise draws =
      let t = scenario_target scenario in
      record {
        rtt_variance = step_one noise draws.rtt_variance t.rtt_variance cur.rtt_variance;
        rst_rate = step_one noise draws.rst_rate t.rst_rate cur.rst_rate;
        handshake_fail_ratio =
            step_one noise draws.handshake_fail_ratio t.handshake_fail_ratio
              cur.handshake_fail_ratio;
        reset_after_client_hello =
            step_one noise draws.reset_after_client_hello t.reset_after_client_hello
              cur.reset_after_client_hello;
        payload_entropy =
            step_one noise draws.payload_entropy t.payload_entropy cur.payload_entropy;
        timing_regularity =
            step_one noise draws.timing_regularity t.timing_regularity cur.timing_regularity;
        throttle_ratio = step_one noise draws.throttle_ratio t.throttle_ratio cur.throttle_ratio;
        probe_hit_rate = step_one noise draws.probe_hit_rate t.probe_hit_rate cur.probe_hit_rate;
      }

  -- `ZERO_FEATURES`
  unfoldable pub zero_features : DpiFeatures F
  zero_features = hundredths 0 0 0 0 90 10 0 0
