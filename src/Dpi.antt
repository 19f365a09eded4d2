-- ===== src/Dpi.antt =====
-- The DPI classifier and the countermeasure plans, apps/preview/src/lib/vor/dpi.ts. Labels and
-- explanations are display texts and are left out.
pub mod Model
pub mod Plans
pub mod Features
pub mod Sanitize
use vor.Common.{
  ℕ, Bool, true, false, Option, none, some, List, [], ◌∷◌, ◌++◌, map, if◌then◌else◌, Text, codes,
  Floats, clamp,
}

pub record DpiFeatures (F : Type 0) : Type 0 where
  pub rtt_variance : F
  pub rst_rate : F
  pub handshake_fail_ratio : F
  pub reset_after_client_hello : F
  pub payload_entropy : F
  pub timing_regularity : F
  pub throttle_ratio : F
  pub probe_hit_rate : F

pub data DpiClass : Type 0 where
  benign throttling active_dpi : DpiClass

pub data Scenario : Type 0 where
  calm throttling active_dpi blackout : Scenario

-- `featuresToArray`, in the order of `FEATURE_ORDER`
abbrev pub features_to_array : {F : Type 0} → DpiFeatures F → List F
features_to_array f =
    f.rtt_variance ∷ f.rst_rate ∷ f.handshake_fail_ratio ∷ f.reset_after_client_hello
    ∷ f.payload_entropy ∷ f.timing_regularity ∷ f.throttle_ratio ∷ f.probe_hit_rate ∷ []

-- The same change of every feature.
abbrev pub map_features : {F G : Type 0} → (F → G) → DpiFeatures F → DpiFeatures G
map_features g f = record {
  rtt_variance = g f.rtt_variance;
  rst_rate = g f.rst_rate;
  handshake_fail_ratio = g f.handshake_fail_ratio;
  reset_after_client_hello = g f.reset_after_client_hello;
  payload_entropy = g f.payload_entropy;
  timing_regularity = g f.timing_regularity;
  throttle_ratio = g f.throttle_ratio;
  probe_hit_rate = g f.probe_hit_rate;
}

-- `Math.min(1, Math.max(0, v))`
unfoldable pub unit_clamp : (fl : Floats) → fl.F → fl.F
unfolding clamp
unit_clamp fl v = clamp fl (fl.dec 0 0) (fl.dec 1 0) v

unfoldable pub sanitize_features : (fl : Floats) → DpiFeatures fl.F → DpiFeatures fl.F
unfolding unit_clamp
sanitize_features fl f = map_features (unit_clamp fl) f
