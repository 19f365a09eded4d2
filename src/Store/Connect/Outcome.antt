-- ===== src/Store/Connect/Outcome.antt =====
-- What a run comes to that nothing disturbs: a connected tunnel, or a configuration error.
use vor.Common.{
  ℕ, zero, suc, ◌≤◌, ◌≡◌, refl, subst, sym, codes, ◌⊎◌, inl, inr, Bool, true, false, Option, none,
  some, List, [], ◌∷◌, arith, length, length-map, map, Text, Floats, if◌then◌else◌, ◌==◌, ==_iff,
}
use vor.Dpi.{Scenario}
use vor.License.{LicensePayload}
use vor.Tunnel.{
  preparing, checking_network, connecting, handshake, switching_transport, connected, config_error,
  reconnecting, selecting_transport, transport_eq, ladder_at, ladder_index, max_attempts,
}
use vor.Tunnel.Scoring.{DecisionExplanation, pick_best}
use vor.Store.{World, log_event, info, warn, error}
use vor.Store.System.Resumptions.{choose, try_again, climb}
use vor.Store.Actions.{is_blackout}
use vor.Store.Connect.{
  Phase, set_tunnel, candidates, prepare, check, backoff, dial, shake, switch, finished, Draw,
  is_alive, run_start, connect, log_blackout, attempt_loop, select, dial_best, fail_attempt,
  succeed, advance, resume, fail_chance, escalate, record_failure,
}
use vor.Store.Connect.Phases.{IsWithin, resume_all, resume_all-finished}

-- The tunnel is connected since some time, or in its configuration error.
abbrev pub IsSettled : {F : Type 0} → World F → Type 0
IsSettled w =
    ((t : ℕ) × (w.store.tunnel ≡ connected) × (w.store.session_start ≡ some t))
    ⊎ (w.store.tunnel ≡ config_error)

-- The state of the tunnel that a live run shows while it waits, and when it has finished.
abbrev pub Shows : {F : Type 0} → Phase F → World F → Type 0
Shows prepare w = w.store.tunnel ≡ preparing
Shows check w = w.store.tunnel ≡ checking_network
Shows (backoff k) w = w.store.tunnel ≡ reconnecting
Shows (dial k best sc) w = w.store.tunnel ≡ connecting
Shows (shake k best sc) w = w.store.tunnel ≡ handshake
Shows (switch k) w = w.store.tunnel ≡ switching_transport
Shows finished w = IsSettled w

-- The run of a token is live, and shows its phase.
abbrev pub Goes : {F : Type 0} → ℕ → World F × Phase F → Type 0
Goes token (w, ph) = (w.store.connect_token_ref ≡ token) × Shows ph w

Goes-if :
    {F : Type 0} {token : ℕ} (b : Bool) (r s : World F × Phase F)
    → Goes token r
    → Goes token s
    → Goes token (if b then r else s)
Goes-if true r s p q = p
Goes-if false r s p q = q

module _ (fl : Floats) (id_after : Text → Text → Bool) (token : ℕ) where
  open fl use {F}

  abbrev IsOwn : World F → Type 0
  IsOwn w = w.store.connect_token_ref ≡ token

  log_blackout-IsOwn :
      (now : ℕ) (b : Bool) (w : World F) → IsOwn w → IsOwn (log_blackout fl id_after now b w)
  unfolding log_event
  log_blackout-IsOwn now true w h = h
  log_blackout-IsOwn now false w h = h

  dial_best-Goes :
      (now k : ℕ) (o : Option (DecisionExplanation F)) (sc : Scenario) (w : World F)
      → IsOwn w
      → Goes token (dial_best fl id_after now k o sc w)
  unfolding dial_best log_event choose
  dial_best-Goes now k none sc w h = (h, inr refl)
  dial_best-Goes now k (some best) sc w h =
      let logged = log_event now (codes "scoring") info (choose fl id_after best w) in
      (log_blackout-IsOwn now (is_blackout sc) logged h, refl)

  select-Goes : (now k : ℕ) (w : World F) → IsOwn w → Goes token (select fl id_after now k w)
  unfolding select
  select-Goes now k w h =
      dial_best-Goes now k
        (pick_best fl id_after (candidates fl id_after w.store.scenario w.store.endpoints))
        w.store.scenario (set_tunnel selecting_transport w) h

  attempt_loop-Goes :
      (now k : ℕ) (w : World F) → IsOwn w → Goes token (attempt_loop fl id_after now k w)
  unfolding attempt_loop log_event try_again
  attempt_loop-Goes now zero w h =
      select-Goes now 0 (try_again fl id_after 0 selecting_transport w) h
  attempt_loop-Goes now (suc k) w h =
      Goes-if (suc k == max_attempts)
        (set_tunnel config_error (log_event now (codes "controller") error w), finished)
        (
          try_again fl id_after (suc k) reconnecting (log_event now (codes "controller") warn w),
          backoff (suc k),
        )
        (h, inr refl) (h, refl)

  escalate-Goes : (now k : ℕ) (w : World F) → IsOwn w → Goes token (escalate fl id_after now k w)
  unfolding escalate log_event climb
  escalate-Goes now k w h =
      let next = ladder_at (suc (ladder_index w.store.transport)) in
      Goes-if (transport_eq next w.store.transport) (attempt_loop fl id_after now (suc k) w)
        (log_event now (codes "controller") warn (climb fl id_after next w), switch k)
        (attempt_loop-Goes now (suc k) w h) (h, refl)

  fail_attempt-Goes :
      (now k : ℕ) (best : DecisionExplanation F) (w : World F)
      → IsOwn w
      → Goes token (fail_attempt fl id_after now k best w)
  unfolding fail_attempt record_failure log_event
  fail_attempt-Goes now k best w h = escalate-Goes now k (record_failure fl id_after now best w) h

  pub advance-Goes :
      (d : Draw F) (ph : Phase F) (w : World F)
      → IsOwn w
      → (ph ≡ finished → IsSettled w)
      → Goes token (advance fl id_after d ph w)
  unfolding advance succeed log_event
  advance-Goes d prepare w h s = (h, refl)
  advance-Goes d check w h s = attempt_loop-Goes d.now 0 w h
  advance-Goes d (backoff k) w h s = select-Goes d.now k w h
  advance-Goes d (dial k best sc) w h s = (h, refl)
  advance-Goes d (shake k best sc) w h s =
      Goes-if (fl.lt d.failure (fail_chance fl id_after sc best.transport w.store.active_cms))
        (fail_attempt fl id_after d.now k best w) (succeed fl id_after d.now d.jitter best w)
        (fail_attempt-Goes d.now k best w h) (h, inl (d.now, refl, refl))
  advance-Goes d (switch k) w h s = attempt_loop-Goes d.now (suc k) w h
  advance-Goes d finished w h s = (h, s refl)

  resume-Goes :
      (d : Draw F) (ph : Phase F) (w : World F)
      → Goes token (w, ph)
      → Goes token (resume fl id_after token d ph w)
  unfolding resume
  resume-Goes d ph w (h, s) =
      let alive : is_alive token w ≡ true = (==_iff w.store.connect_token_ref token).1 h in
      subst (λ b. Goes token (if b then advance fl id_after d ph w else (w, finished))) (sym alive)
        (advance-Goes d ph w h (λ e. subst (λ x. Shows x w) e s))

  -- A resumption after a wait in which nothing else happens.
  abbrev pub undisturbed : Draw F → Draw F × (World F → World F)
  undisturbed d = (d, λ w. w)

  resume_all-Goes :
      (ds : List (Draw F)) (r : World F × Phase F)
      → Goes token r
      → Goes token (resume_all fl id_after token (map undisturbed ds) r)
  unfolding resume_all
  resume_all-Goes [] r g = g
  resume_all-Goes (d ∷ ds) (w, ph) g =
      resume_all-Goes ds (resume fl id_after token d ph w) (resume-Goes d ph w g)

pub connect-prepares :
    {F : Type 0} (now : ℕ) (w : World F) (p : LicensePayload)
    → w.store.activated ≡ some p
    → ((connect now w).1 ≡ prepare)
      × ((connect now w).0.store.connect_token_ref ≡ suc w.connect_token)
      × Shows (connect now w).1 (connect now w).0
unfolding connect run_start log_event
connect-prepares now w p licensed = rw licensed (refl, refl, refl)

-- `connect` under an active licence, whose run nothing disturbs in its waits, is finished after at
-- most 21 resumptions, whatever the draws are, and then the tunnel is connected with a start of the
-- session, or is in its configuration error.
pub connect-settles :
    (fl : Floats) (id_after : Text → Text → Bool) (now : ℕ) (w : World fl.F) (p : LicensePayload)
    (ds : List (Draw fl.F))
    → w.store.activated ≡ some p
    → 21 ≤ length ds
    → let token = suc w.connect_token in
      let r =
        resume_all fl id_after token (map (undisturbed fl id_after token) ds) (connect now w) in
      (r.1 ≡ finished) × IsSettled r.0
unfolding connect run_start
connect-settles fl id_after now w p ds licensed enough =
    let token = suc w.connect_token in
    let moves = map (undisturbed fl id_after token) ds in
    let (prepares, own, shows) = connect-prepares now w p licensed in
    let ends =
      resume_all-finished fl id_after token moves (connect now w).0 (connect now w).1
        (subst IsWithin (sym prepares) tt)
        (omega (arith, length-map (undisturbed fl id_after token) ds, enough)) in
    (
      ends,
      subst (λ ph. Shows ph (resume_all fl id_after token moves (connect now w)).0) ends
          (resume_all-Goes fl id_after token ds (connect now w) (own, shows)).1,
    )
