-- ===== src/Tunnel/Scoring.antt =====
-- Scoring and choice of an endpoint, `scoreEndpoint` and `pickBest` of tunnel.ts. The texts of the
-- reasons are left out; which reasons are given is kept. The locale's order of ids is an argument.
pub mod Bounds
pub mod Members
pub mod Best
use vor.Common.{
  ℕ, zero, suc, ◌+◌, ◌*◌, min, Bool, true, false, Option, none, some, List, [], ◌∷◌, ◌++◌, map, ltb,
  leb, ◌==◌, if◌then◌else◌, length, Text, Floats, fmax, fmin, clamp,
}
use vor.Tunnel.{TransportClass, EndpointHealth}

pub data Reason : Type 0 where
  latency_excellent latency_acceptable latency_poor : Reason
  consecutive_failures : ℕ → Reason
  cdn_resilient loss_and_jitter : Reason

pub record Components (F : Type 0) : Type 0 where
  pub latency : F
  pub jitter : F
  pub loss : F
  pub stability : F

pub record DecisionExplanation (F : Type 0) : Type 0 where
  pub endpoint_id : Text
  pub transport : TransportClass
  pub score : F
  pub reasons : List Reason
  pub components : Components F

module _ (fl : Floats) where
  open fl use {F, dec, add, sub, mul, div, abs, lt}

  abbrev pub sum_from : F → List F → F
  sum_from acc [] = acc
  sum_from acc (x ∷ xs) = sum_from (add acc x) xs

  unfoldable pub mean_latency : EndpointHealth F → F
  mean_latency h =
      if length h.latencies == 0
      then dec 0 0
      else div (sum_from (dec 0 0) h.latencies) (dec (length h.latencies) 0)

  -- The loop over neighbours, with the largest difference so far.
  abbrev pub jitter_from : F → F → List F → F
  jitter_from most prev [] = most
  jitter_from most prev (x ∷ xs) = jitter_from (fmax fl most (abs (sub x prev))) x xs

  abbrev pub jitter_list : List F → F
  jitter_list [] = dec 0 0
  jitter_list (x ∷ xs) = jitter_from (dec 0 0) x xs

  unfoldable pub jitter_of : EndpointHealth F → F
  jitter_of h = jitter_list h.latencies

  abbrev pub components_of : EndpointHealth F → Components F
  components_of h = record {
    latency = div (dec 10 1) (add (dec 10 1) (div (mean_latency h) (dec 2000 1)));
    jitter = div (dec 10 1) (add (dec 10 1) (div (jitter_of h) (dec 400 1)));
    loss = clamp fl (dec 0 0) (dec 1 0) (sub (dec 10 1) (div h.loss_pct (dec 1000 1)));
    stability =
        if h.fail_streak == 0
        then dec 10 1
        else fmax fl (dec 0 0) (sub (dec 10 1) (mul (dec h.fail_streak 0) (dec 25 2)));
  }

  -- 100 · (0.4 · latency + 0.15 · jitter + 0.25 · loss + 0.2 · stability)
  abbrev pub weighted : Components F → F
  weighted c = mul (dec 1000 1) (
      add (add (add (mul (dec 4 1) c.latency) (mul (dec 15 2) c.jitter)) (mul (dec 25 2) c.loss))
        (mul (dec 2 1) c.stability))

  -- Each adjustment returns the score and the reason that it adds.
  unfoldable pub judge_latency : F → F → F × List Reason
  judge_latency lat score =
      if lt lat (dec 80 0)
      then (score, latency_excellent ∷ [])
      else if lt lat (dec 200 0)
      then (score, latency_acceptable ∷ [])
      else (mul score (dec 9 1), latency_poor ∷ [])

  unfoldable pub judge_failures : ℕ → F → F × List Reason
  judge_failures streak score =
      if leb 2 streak
      then (sub score (mul (dec 100 1) (dec (min 5 streak) 0)), consecutive_failures streak ∷ [])
      else (score, [])

  unfoldable pub judge_route : Bool → F → F × List Reason
  judge_route cdn score = if cdn then (mul score (dec 105 2), cdn_resilient ∷ []) else (score, [])

  unfoldable pub score_endpoint : EndpointHealth F → TransportClass → DecisionExplanation F
  unfolding judge_latency judge_failures judge_route mean_latency jitter_of
  score_endpoint h transport =
      let components = components_of h in
      let (s1, r1) = judge_latency (mean_latency h) (weighted components) in
      let (s2, r2) = judge_failures h.fail_streak s1 in
      let (s3, r3) = judge_route h.cdn_routed s2 in
      record {
        endpoint_id = h.endpoint_id;
        transport = transport;
        score = clamp fl (dec 0 0) (dec 100 0) s3;
        reasons = r1 ++ (r2 ++ (r3 ++ loss_and_jitter ∷ []));
        components = components;
      }

  pub record Candidate : Type 0 where
    pub health : EndpointHealth F
    pub transport : TransportClass

  -- Whether the comparator puts `a` strictly after `b`: `b.score - a.score` is positive, or is
  -- falsy and the locale puts the id of `a` after that of `b`.
  unfoldable pub goes_after :
      (Text → Text → Bool) → DecisionExplanation F → DecisionExplanation F → Bool
  goes_after id_after a b =
      if lt a.score b.score
      then true
      else if lt b.score a.score
      then false
      else id_after a.endpoint_id b.endpoint_id

  -- The stable sort, by insertion.
  unfoldable pub insert_best :
      (Text → Text → Bool)
      → DecisionExplanation F
      → List (DecisionExplanation F)
      → List (DecisionExplanation F)
  unfolding goes_after
  insert_best id_after d [] = d ∷ []
  insert_best id_after d (e ∷ es) =
      let later = e ∷ insert_best id_after d es in
      if goes_after id_after d e then later else d ∷ e ∷ es

  unfoldable pub sort_best :
      (Text → Text → Bool) → List (DecisionExplanation F) → List (DecisionExplanation F)
  unfolding insert_best
  sort_best id_after [] = []
  sort_best id_after (d ∷ ds) = insert_best id_after d (sort_best id_after ds)

  abbrev pub first_of_list : List (DecisionExplanation F) → Option (DecisionExplanation F)
  first_of_list [] = none
  first_of_list (d ∷ ds) = some d

  unfoldable pub pick_best : (Text → Text → Bool) → List Candidate → Option (DecisionExplanation F)
  unfolding sort_best score_endpoint
  pick_best id_after candidates =
      first_of_list (sort_best id_after (map (λ c. score_endpoint c.health c.transport) candidates))
