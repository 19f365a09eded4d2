-- ===== src/Store/Connect.antt =====
-- The connection runs, `connect` and `runConnectFor` of store.ts. A run stops at each
-- `await sleepChecked`; a phase is where it waits, and `resume` goes on from there.
pub mod Phases
pub mod Selection
pub mod Outcome
pub mod Escalation
use vor.Common.{
  ℕ, zero, suc, ◌+◌, ◌*◌, min, Bool, true, false, ◌&&◌, ◌||◌, not, Option, none, some, List, [],
  ◌∷◌, ◌++◌, map, filter, ◌==◌, if◌then◌else◌, take_last, Text, codes, text_eq, includes, Floats,
  fmax,
}
use vor.Dpi.{Scenario}
use vor.Tunnel.{
  TransportClass, ws_tls_cdn, transport_eq, ladder_at, ladder_index, EndpointHealth, TunnelState,
  preparing, checking_network, selecting_transport, connecting, handshake, connected, reconnecting,
  switching_transport, license_required, config_error, max_attempts, backoff_ms,
}
use vor.Tunnel.Scoring.{DecisionExplanation, Candidate, pick_best, mean_latency}
use vor.Store.{VorStore, World, Level, info, warn, error, success, log_event}
use vor.Store.Actions.{is_blackout}

-- Where a run waits. An attempt is numbered from 0; `dial` and `shake` hold the endpoint that was
-- chosen and the scenario at that time.
pub data Phase (F : Type 0) : Type 0 where
  prepare check : Phase F
  backoff : ℕ → Phase F
  dial : ℕ → DecisionExplanation F → Scenario → Phase F
  shake : ℕ → DecisionExplanation F → Scenario → Phase F
  switch : ℕ → Phase F
  finished : Phase F

-- What the browser gives at a resumption: the clock, and the two draws of `Math.random()`.
pub record Draw (F : Type 0) : Type 0 where
  pub now : ℕ
  pub failure : F
  pub jitter : F

-- How long each phase waits, in milliseconds.
unfoldable pub delay_ms : {F : Type 0} → Phase F → ℕ
unfolding backoff_ms
delay_ms prepare = 650
delay_ms check = 750
delay_ms (backoff k) = min (backoff_ms k) 2200
delay_ms (dial k best sc) = 850
delay_ms (shake k best sc) = 700
delay_ms (switch k) = 500
delay_ms finished = 0

module _ {F : Type 0} where
  abbrev pub set_tunnel : TunnelState → World F → World F
  set_tunnel t w = let s = w.store in record w { store = record s { tunnel = t } }

  -- `connectTokenRef === token`
  abbrev pub is_alive : ℕ → World F → Bool
  is_alive token w = w.store.connect_token_ref == token

  -- The start of a run, up to its first wait.
  unfoldable pub run_start : ℕ → World F → World F × Phase F
  unfolding log_event
  run_start now w =
      let s = w.store in
      elim s.activated [
        | none ↦
            (log_event now (codes "controller") error (set_tunnel license_required w), finished)
        | some p ↦ (
          log_event now (codes "controller") info (record w {
            store = record s { attempt = 0; tunnel = preparing; session_start = none };
          }),
          prepare,
        )
      ]

  -- `connect`: a new token, and the start of its run.
  unfoldable pub connect : ℕ → World F → World F × Phase F
  unfolding run_start
  connect now w =
      let s = w.store in
      let token = suc w.connect_token in
      run_start now
        (record w { store = record s { connect_token_ref = token }; connect_token = token })

  -- The change of the endpoints with the id of `best`.
  abbrev pub at_endpoint :
      Text
      → (EndpointHealth F → EndpointHealth F)
      → List (EndpointHealth F)
      → List (EndpointHealth F)
  at_endpoint id f es = map (λ e. if text_eq e.endpoint_id id then f e else e) es

module _ (fl : Floats) (id_after : Text → Text → Bool) where
  open fl use {F, dec, add, sub, mul, lt}

  -- The candidates with their indices: the ladder's transport, or the CDN in a blackout.
  abbrev pub number_candidates : Bool → ℕ → List (EndpointHealth F) → List (Candidate fl)
  number_candidates blackout i [] = []
  number_candidates blackout i (e ∷ es) =
      record { health = e; transport = if blackout then ws_tls_cdn else ladder_at i }
      ∷ number_candidates blackout (suc i) es

  unfoldable pub candidates : Scenario → List (EndpointHealth F) → List (Candidate fl)
  unfolding ladder_at
  candidates scenario es =
      number_candidates (is_blackout scenario) 0
        (filter (λ e. if is_blackout scenario then e.cdn_routed else true) es)

  abbrev pub log_blackout : ℕ → Bool → World F → World F
  log_blackout now blackout w = if blackout then log_event now (codes "blackout") warn w else w

  unfoldable pub dial_best :
      ℕ → ℕ → Option (DecisionExplanation F) → Scenario → World F → World F × Phase F
  unfolding log_event
  dial_best now k none scenario w =
      (set_tunnel config_error (log_event now (codes "scoring") error w), finished)
  dial_best now k (some best) scenario w =
      let s = w.store in
      let chosen = record w {
        store = record s { selected = some best; transport = best.transport };
      } in
      let logged =
        log_blackout now (is_blackout scenario) (log_event now (codes "scoring") info chosen) in
      (log_event now (codes "transport") info (set_tunnel connecting logged), dial k best scenario)

  -- The choice of an endpoint in attempt `k`.
  unfoldable pub select : ℕ → ℕ → World F → World F × Phase F
  unfolding dial_best candidates pick_best
  select now k w =
      let selecting = set_tunnel selecting_transport w in
      let scenario = w.store.scenario in
      dial_best now k (pick_best fl id_after (candidates scenario w.store.endpoints)) scenario
        selecting

  -- The head of the loop: attempt `k`, or the end of the budget.
  unfoldable pub attempt_loop : ℕ → ℕ → World F → World F × Phase F
  unfolding select log_event
  attempt_loop now zero w =
      let s = w.store in
      select now 0 (record w { store = record s { attempt = 0; tunnel = selecting_transport } })
  attempt_loop now (suc k) w =
      if suc k == max_attempts
      then (set_tunnel config_error (log_event now (codes "controller") error w), finished)
      else (let logged = log_event now (codes "controller") warn w in
          let s = logged.store in
          (
            record logged { store = record s { attempt = suc k; tunnel = reconnecting } },
            backoff (suc k),
          ))

  abbrev pub defended : List Text → Bool
  defended cms =
      includes cms (codes "client_hello_split")
      && (includes cms (codes "packet_fragmentation") || includes cms (codes "transport_switch"))

  unfoldable pub fail_chance : Scenario → TransportClass → List Text → F
  unfolding includes
  fail_chance Scenario.calm t cms = dec 4 2
  fail_chance Scenario.throttling t cms = dec 15 2
  fail_chance Scenario.active_dpi t cms = if defended cms then dec 6 2 else dec 6 1
  fail_chance Scenario.blackout t cms = if transport_eq t ws_tls_cdn then dec 8 2 else dec 5 1

  -- After a failure: the ladder is climbed if it can be, before the next attempt.
  unfoldable pub escalate : ℕ → ℕ → World F → World F × Phase F
  unfolding attempt_loop log_event ladder_at
  escalate now k w =
      let s = w.store in
      let next = ladder_at (suc (ladder_index s.transport)) in
      if transport_eq next s.transport then attempt_loop now (suc k) w else (
        log_event now (codes "controller") warn
            (record w { store = record s { transport = next; tunnel = switching_transport } }),
        switch k,
      )

  -- The failure streak of the endpoint grows.
  unfoldable pub record_failure : ℕ → DecisionExplanation F → World F → World F
  unfolding log_event text_eq
  record_failure now best w =
      let logged = log_event now (codes "transport") error w in
      let s = logged.store in
      record logged {
        store = record s {
          endpoints =
              at_endpoint best.endpoint_id (λ e. record e { fail_streak = suc e.fail_streak })
                s.endpoints;
        };
      }

  unfoldable pub fail_attempt : ℕ → ℕ → DecisionExplanation F → World F → World F × Phase F
  unfolding escalate record_failure
  fail_attempt now k best w = escalate now k (record_failure now best w)

  -- The latencies of the endpoint after a success.
  abbrev pub healthy : F → EndpointHealth F → EndpointHealth F
  healthy jitter e = record e {
    fail_streak = 0;
    latencies =
        take_last 3 e.latencies
        ++ fmax fl (dec 8 0) (add (mean_latency fl e) (sub (mul jitter (dec 4 0)) (dec 2 0))) ∷ [];
  }

  unfoldable pub succeed : ℕ → F → DecisionExplanation F → World F → World F × Phase F
  unfolding log_event text_eq mean_latency fmax
  succeed now jitter best w =
      let s = w.store in
      (
        log_event now (codes "tunnel") success (record w {
          store = record s {
            tunnel = connected;
            session_start = some now;
            endpoints = at_endpoint best.endpoint_id (healthy jitter) s.endpoints;
          };
        }),
        finished,
      )

  -- What a live run does after the wait of its phase.
  unfoldable pub advance : Draw F → Phase F → World F → World F × Phase F
  unfolding attempt_loop select fail_attempt succeed fail_chance log_event
  advance d prepare w =
      (log_event d.now (codes "network") info (set_tunnel checking_network w), check)
  advance d check w = attempt_loop d.now 0 w
  advance d (backoff k) w = select d.now k w
  advance d (dial k best sc) w =
      (log_event d.now (codes "tls") info (set_tunnel handshake w), shake k best sc)
  advance d (shake k best sc) w =
      if lt d.failure (fail_chance sc best.transport w.store.active_cms)
      then fail_attempt d.now k best w
      else succeed d.now d.jitter best w
  advance d (switch k) w = attempt_loop d.now (suc k) w
  advance d finished w = (w, finished)

  -- The end of `sleepChecked`: a run whose token is no longer current stops.
  unfoldable pub resume : ℕ → Draw F → Phase F → World F → World F × Phase F
  unfolding advance
  resume token d ph w = if is_alive token w then advance d ph w else (w, finished)
