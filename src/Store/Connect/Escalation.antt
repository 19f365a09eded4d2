-- ===== src/Store/Connect/Escalation.antt =====
-- What becomes of the transport to which a failed attempt escalates.
use vor.Common.{
  ℕ, suc, ◌≡◌, refl, Bool, true, false, Option, none, some, Text, Floats, ◌==◌, if◌then◌else◌,
  codes,
}
use vor.Dpi.{Scenario}
use vor.Tunnel.{TransportClass, max_attempts, selecting_transport, reconnecting, config_error}
use vor.Tunnel.Scoring.{DecisionExplanation, pick_best}
use vor.Store.{World, log_event, warn, error}
use vor.Store.Connect.{
  Phase, backoff, dial, switch, finished, Draw, set_tunnel, candidates, dial_best, select,
  attempt_loop, advance,
}

-- The world with another transport.
abbrev pub with_transport : {F : Type 0} → TransportClass → World F → World F
with_transport t w = let s = w.store in record w { store = record s { transport = t } }

-- Two results have the same phase, and the same world if they dial.
abbrev pub DialsAlike : {F : Type 0} → World F × Phase F → World F × Phase F → Type 0
DialsAlike {F} (v, p) (w, q) =
    (p ≡ q) × ((k : ℕ) (best : DecisionExplanation F) (sc : Scenario) → q ≡ dial k best sc → v ≡ w)

module _ (fl : Floats) (id_after : Text → Text → Bool) where
  open fl use {F}

  dial_best-alike :
      (now k : ℕ) (o : Option (DecisionExplanation F)) (sc : Scenario) (t : TransportClass)
      (w : World F)
      → DialsAlike
          (dial_best fl id_after now k o sc (with_transport t w))
          (dial_best fl id_after now k o sc w)
  unfolding dial_best log_event
  dial_best-alike now k none sc t w = (refl, λ j b s e. cc)
  dial_best-alike now k (some best) sc t w = (refl, λ j b s e. refl)

  select-alike :
      (now k : ℕ) (t : TransportClass) (w : World F)
      → DialsAlike (select fl id_after now k (with_transport t w)) (select fl id_after now k w)
  unfolding select
  select-alike now k t w =
      dial_best-alike now k
        (pick_best fl id_after (candidates fl id_after w.store.scenario w.store.endpoints))
        w.store.scenario t (set_tunnel selecting_transport w)

  -- The next two resumptions of a run that has escalated.
  abbrev pub after_switch : Draw F → Draw F → ℕ → World F → World F × Phase F
  after_switch d e k w = let r = advance fl id_after d (switch k) w in advance fl id_after e r.1 r.0

  -- The head of the loop, and the resumption after it.
  abbrev retried : Bool → Draw F → Draw F → ℕ → World F → World F × Phase F
  retried b d e k w =
      let logged = log_event d.now (codes "controller") warn w in
      let s = logged.store in
      let r : World F × Phase F =
        if b
        then (set_tunnel config_error (log_event d.now (codes "controller") error w), finished)
        else (
          record logged { store = record s { attempt = suc k; tunnel = reconnecting } },
          backoff (suc k),
        ) in
      advance fl id_after e r.1 r.0

  retried-alike :
      (b : Bool) (d e : Draw F) (k : ℕ) (t : TransportClass) (w : World F)
      → DialsAlike (retried b d e k (with_transport t w)) (retried b d e k w)
  unfolding advance log_event
  retried-alike true d e k t w = (refl, λ j b s h. cc)
  retried-alike false d e k t w =
      let logged = log_event d.now (codes "controller") warn w in
      let s = logged.store in
      select-alike e.now (suc k) t
        (record logged { store = record s { attempt = suc k; tunnel = reconnecting } })

  -- The transport to which a failed attempt escalated has no effect on the next attempt: with any
  -- other transport in the store the run comes to the same phase, and to the same store if it dials.
  pub after_switch-alike :
      (d e : Draw F) (k : ℕ) (t : TransportClass) (w : World F)
      → DialsAlike (after_switch d e k (with_transport t w)) (after_switch d e k w)
  unfolding advance attempt_loop log_event
  after_switch-alike d e k t w = retried-alike (suc k == max_attempts) d e k t w
