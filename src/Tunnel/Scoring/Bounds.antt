-- ===== src/Tunnel/Scoring/Bounds.antt =====
-- The range of the scores.
use vor.Common.{◌≡◌, false, Floats, OrderLaws, clamp_bounds}
use vor.Tunnel.{TransportClass, EndpointHealth}
use vor.Tunnel.Scoring.{
  score_endpoint, components_of, weighted, judge_latency, judge_failures, judge_route, mean_latency,
}

-- The score before it is clamped.
abbrev pub raw_score : (fl : Floats) → EndpointHealth fl.F → fl.F
raw_score fl h =
    (judge_route fl h.cdn_routed
      (judge_failures fl h.fail_streak
        (judge_latency fl (mean_latency fl h) (weighted fl (components_of fl h))).0).0).0

-- The score of an endpoint is a number between 0 and 100, unless the measurements make it NaN.
pub score_endpoint_bounds :
    (fl : Floats) (laws : OrderLaws fl) (h : EndpointHealth fl.F) (t : TransportClass)
    → fl.is_nan (raw_score fl h) ≡ false
    → (fl.is_nan (score_endpoint fl h t).score ≡ false)
      × (fl.lt (score_endpoint fl h t).score (fl.dec 0 0) ≡ false)
      × (fl.lt (fl.dec 100 0) (score_endpoint fl h t).score ≡ false)
unfolding score_endpoint
score_endpoint_bounds fl laws h t number =
    clamp_bounds fl laws (fl.dec 0 0) (fl.dec 100 0) (raw_score fl h) (laws.dec_is_number 0 0)
      (laws.dec_is_number 100 0) laws.zero_lt_hundred number
