-- ===== src/Examples/Engines.antt =====
-- The theorems on the tunnel, the classifier and the connection runs at concrete inputs.
use vor.Common.{
  ◌⊎◌, min, ℕ, zero, suc, ◌+◌, ◌-◌, ◌*◌, ◌≤◌, ◌<◌, ◌≡◌, refl, Bool, true, false, Option, none, some,
  List, [], ◌∷◌, map, arith, All, replicate, Text, codes, text_eq, get_elem?, length,
}
use vor.Examples.{toy_floats, toy_laws}
use vor.Tunnel.{TransportClass, grpc_tls, reality_direct, EndpointHealth, backoff_ms}
use vor.Tunnel.Scoring.{DecisionExplanation, Candidate, score_endpoint, pick_best, mean_latency}
use vor.Tunnel.Scoring.Bounds.{raw_score, score_endpoint_bounds}
use vor.Tunnel.Scoring.Best.{IsNumber, NotBelow, pick_best-is_best}
use vor.Dpi.{DpiFeatures, benign, throttling, active_dpi, features_to_array, sanitize_features}
use vor.Dpi.Features.{zero_features}
use vor.Dpi.Sanitize.{InUnit, sanitize_features-at}
use vor.Dpi.Model.{ModelManifest, DpiVerdict, classify, best_of, prob_at, class_at}
use vor.Dpi.Model.Argmax.{classify-best}
use vor.Store.{base_endpoints}
use vor.Store.{World, initial_store}
use vor.Store.Connect.Selection.{IsCdnChoice, select-blackout}
use vor.Tunnel.{ws_tls_cdn}
use vor.Store.Connect.{select, dial, dial_best, candidates}
use vor.Dpi.{Scenario}
use vor.Store.Connect.{prepare, finished, Draw}
use vor.Store.Connect.Escalation.{DialsAlike, after_switch, with_transport, after_switch-alike}
use vor.Store.Connect.Phases.{resume_all, resume_all-finished}

abbrev pub never_after : Text → Text → Bool
never_after a b = false

abbrev frankfurt : EndpointHealth (Option ℕ)
frankfurt = record {
  endpoint_id = codes "fra-04";
  latencies = some 1800 ∷ some 1900 ∷ [];
  loss_pct = some 0;
  fail_streak = 0;
  cdn_routed = false;
}

abbrev istanbul : EndpointHealth (Option ℕ)
istanbul = record {
  endpoint_id = codes "cdn-ist-01";
  latencies = some 5800 ∷ [];
  loss_pct = some 40;
  fail_streak = 2;
  cdn_routed = true;
}

raw_number : toy_floats.is_nan (raw_score toy_floats frankfurt) ≡ false
unfolding vor.Tunnel.Scoring.judge_route vor.Tunnel.Scoring.judge_failures
    vor.Tunnel.Scoring.judge_latency mean_latency vor.Tunnel.Scoring.jitter_of vor.Common.fmax
    vor.Common.clamp
raw_number = refl

score_endpoint_bounds_example :
    (toy_floats.is_nan (score_endpoint toy_floats frankfurt reality_direct).score ≡ false)
    × (toy_floats.lt (score_endpoint toy_floats frankfurt reality_direct).score (some 0) ≡ false)
    × (toy_floats.lt (some 10000) (score_endpoint toy_floats frankfurt reality_direct).score
        ≡ false)
score_endpoint_bounds_example =
    score_endpoint_bounds toy_floats toy_laws frankfurt reality_direct raw_number

abbrev two_candidates : List (Candidate toy_floats)
two_candidates =
    record { health = istanbul; transport = reality_direct }
    ∷ record { health = frankfurt; transport = reality_direct }
    ∷ []

abbrev picked : DecisionExplanation (Option ℕ)
picked = score_endpoint toy_floats frankfurt reality_direct

picks_frankfurt : pick_best toy_floats never_after two_candidates ≡ some picked
unfolding pick_best score_endpoint vor.Common.clamp
picks_frankfurt = refl

both_numbers :
    All
      (λ c.
        IsNumber toy_floats toy_laws never_after (score_endpoint toy_floats c.health c.transport))
      two_candidates
unfolding score_endpoint vor.Common.clamp
both_numbers = (refl, (refl, tt))

pick_best-is_best_example :
    All
      (λ c.
        NotBelow toy_floats toy_laws never_after picked
          (score_endpoint toy_floats c.health c.transport))
      two_candidates
    × (toy_floats.is_nan picked.score ≡ false)
pick_best-is_best_example =
    pick_best-is_best toy_floats toy_laws never_after two_candidates picked
      (λ d. toy_floats.is_nan d.score ≡ false) both_numbers both_numbers picks_frankfurt

abbrev odd_features : DpiFeatures (Option ℕ)
odd_features = record (zero_features toy_floats) { rst_rate = some 250; probe_hit_rate = none }

sanitize_features-at_example :
    (w : Option ℕ) × (get_elem? (features_to_array (sanitize_features toy_floats odd_features)) 7
      ≡ some w)
    × (((true ≡ false) × InUnit toy_floats w) ⊎ ((true ≡ true) × (w ≡ none)))
sanitize_features-at_example = sanitize_features-at toy_floats toy_laws odd_features 7 none refl

abbrev toy_model : ModelManifest (Option ℕ)
toy_model = record {
  version = codes "1";
  classes = benign ∷ throttling ∷ active_dpi ∷ [];
  val_accuracy = some 99;
  weights = record {
    w1 = replicate 16 (replicate 8 (some 100));
    b1 = replicate 16 (some 0);
    w2 = replicate 8 (replicate 16 (some 10));
    b2 = replicate 8 (some 1);
    w3 = replicate 8 (some 1) ∷ replicate 8 (some 50) ∷ replicate 8 (some 2) ∷ [];
    b3 = replicate 3 (some 0);
  };
}

abbrev calm_features : DpiFeatures (Option ℕ)
calm_features = record (zero_features toy_floats) { rst_rate = some 50 }

abbrev verdict_or : Option (DpiVerdict (Option ℕ)) → DpiVerdict (Option ℕ)
verdict_or none = record {
  class = benign;
  confidence = none;
  probs = (none, none, none);
  model_version = [];
  train_accuracy = none;
}
verdict_or (some v) = v

abbrev toy_verdict : DpiVerdict (Option ℕ)
toy_verdict = verdict_or (classify toy_floats toy_model calm_features)

classifies : classify toy_floats toy_model calm_features ≡ some toy_verdict
unfolding classify
classifies = refl

classify-best_example :
    (toy_verdict.class ≡ class_at (best_of toy_floats toy_verdict.probs) toy_model.classes)
    × (toy_verdict.confidence
        ≡ prob_at toy_floats (best_of toy_floats toy_verdict.probs) toy_verdict.probs)
    × (toy_floats.lt toy_verdict.confidence toy_verdict.probs.0 ≡ false)
    × (toy_floats.lt toy_verdict.confidence toy_verdict.probs.1 ≡ false)
    × (toy_floats.lt toy_verdict.confidence toy_verdict.probs.2 ≡ false)
classify-best_example =
    classify-best toy_floats toy_laws toy_model calm_features toy_verdict classifies

abbrev pub empty_world : World (Option ℕ)
empty_world = record {
  store = initial_store toy_floats;
  connect_token = 0;
  storage = record {
    lang = none;
    activated = none;
    trusted = none;
    revoked = none;
    settings = none;
    hwidentity = none;
    manager_ok = false;
  };
}

abbrev pub draw : Draw (Option ℕ)
draw = record { now = 5; failure = some 50; jitter = some 50 }

after_switch-alike_example :
    DialsAlike
      (after_switch toy_floats never_after draw draw 0 (with_transport grpc_tls empty_world))
      (after_switch toy_floats never_after draw draw 0 empty_world)
after_switch-alike_example =
    after_switch-alike toy_floats never_after draw draw 0 grpc_tls empty_world

resume_all-finished_example :
    (resume_all toy_floats never_after 0 (replicate 21 (draw, λ w. w)) (empty_world, prepare)).1
    ≡ finished
resume_all-finished_example =
    resume_all-finished toy_floats never_after 0 (replicate 21 (draw, λ w. w)) empty_world prepare
      tt (omega arith)

-- The same world in a blackout.
abbrev dark : World (Option ℕ)
dark = record {
  store = record (initial_store toy_floats) { scenario = Scenario.blackout };
  connect_token = 0;
  storage = empty_world.storage;
}

abbrev best_or : Option (DecisionExplanation (Option ℕ)) → DecisionExplanation (Option ℕ)
best_or none = picked
best_or (some d) = d

abbrev dark_choice : DecisionExplanation (Option ℕ)
dark_choice = best_or (
    pick_best toy_floats never_after
      (candidates toy_floats never_after Scenario.blackout (base_endpoints toy_floats)))

dials_dark_choice :
    (select toy_floats never_after 5 0 dark).1 ≡ dial 0 dark_choice Scenario.blackout
unfolding select dial_best candidates pick_best base_endpoints initial_store
dials_dark_choice = refl

select-blackout_example :
    IsCdnChoice dark.store.endpoints dark_choice
    × ((select toy_floats never_after 5 0 dark).0.store.transport ≡ ws_tls_cdn)
select-blackout_example =
    select-blackout toy_floats never_after 5 0 dark dark_choice refl dials_dark_choice
