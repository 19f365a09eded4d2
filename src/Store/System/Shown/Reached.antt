-- ===== src/Store/System/Shown/Reached.antt =====
-- The tunnel's state in the reachable systems.
use vor.Common.{
  ℕ, suc, ◌≤◌, ◌<◌, ◌≡◌, ◌≢◌, refl, sym, ap, subst, ◌⊎◌, inl, inr, Bool, Bool-cases, true, Option,
  none, some, List, [], ◌∷◌, Text, arith, Floats, ==_iff, if◌then◌else◌,
}
use vor.Crypto.{Noble}
use vor.License.{LicensePayload}
use vor.Store.{World, initial_store, log_event}
use vor.Store.Connect.{
  Phase, prepare, check, backoff, dial, shake, switch, finished, Draw, connect, run_start, advance,
  resume, is_alive,
}
use vor.Store.Connect.Outcome.{Goes, advance-Goes}
use vor.Store.System.{System, Resumed, Reachable}
use vor.Store.System.Runs.{AreBelow, Reachable-IsOrdered, Act-tokens, run_start-tokens}
use vor.Store.System.Tunes.Engine.{Act-Tunes}
use vor.Store.System.Shown.{IsShown, IsShown-Shows, AreShown, AreShown-Tunes}

run_start-IsShown :
    {F : Type 0} (now : ℕ) (w : World F) (o : Option LicensePayload)
    → w.store.activated ≡ o
    → IsShown (run_start now w).1 (run_start now w).0.store.tunnel
unfolding run_start log_event
run_start-IsShown now w none h = rw h tt
run_start-IsShown now w (some p) h = rw h refl

module _ (n : Noble) (fl : Floats) (id_after : Text → Text → Bool) where
  open fl use {F}

  abbrev Moved : ℕ → World F × Phase F → Type 0
  Moved token (w, ph) = (w.store.connect_token_ref ≡ token) × IsShown ph w.store.tunnel

  of_Goes : (token : ℕ) (r : World F × Phase F) → Goes token r → Moved token r
  of_Goes token (w, ph) (own, shows) = (own, IsShown-Shows ph w shows)

  advance-started :
      (token : ℕ) (d : Draw F) (ph : Phase F) (w : World F)
      → w.store.connect_token_ref ≡ token
      → ph ≢ finished
      → Moved token (advance fl id_after d ph w)
  advance-started token d ph w h waits =
      of_Goes token (advance fl id_after d ph w)
        (advance-Goes fl id_after token d ph w h (λ e. absurd (waits e)))

  advance-Moved :
      (token : ℕ) (d : Draw F) (ph : Phase F) (w : World F)
      → w.store.connect_token_ref ≡ token
      → Moved token (advance fl id_after d ph w)
  unfolding advance
  advance-Moved token d prepare w h = advance-started token d prepare w h (λ e. cc)
  advance-Moved token d check w h = advance-started token d check w h (λ e. cc)
  advance-Moved token d (backoff k) w h = advance-started token d (backoff k) w h (λ e. cc)
  advance-Moved token d (dial k best sc) w h =
      advance-started token d (dial k best sc) w h (λ e. cc)
  advance-Moved token d (shake k best sc) w h =
      advance-started token d (shake k best sc) w h (λ e. cc)
  advance-Moved token d (switch k) w h = advance-started token d (switch k) w h (λ e. cc)
  advance-Moved token d finished w h = (h, tt)

  -- A resumption leaves the world alone, or is that of a live run.
  resume-Moved :
      (token : ℕ) (d : Draw F) (ph : Phase F) (w : World F)
      → Moved token (resume fl id_after token d ph w)
        ⊎ (resume fl id_after token d ph w ≡ (w, finished))
  unfolding resume
  resume-Moved token d ph w = elim (Bool-cases (is_alive token w)) [
    | inl alive ↦ inl (
        subst (λ b. Moved token (if b then advance fl id_after d ph w else (w, finished)))
          (sym alive)
          (advance-Moved token d ph w ((==_iff w.store.connect_token_ref token).0 alive)))
    | inr stale ↦ inr (ap (λ b. if b then advance fl id_after d ph w else (w, finished)) stale)
  ]

  -- Runs of older tokens are not live.
  AreShown-older :
      (w : World F) (b : ℕ) (rs : List (ℕ × Phase F))
      → b ≤ w.store.connect_token_ref
      → AreBelow b rs
      → AreShown w rs
  AreShown-older w b [] h below = tt
  AreShown-older w b ((token, ph) ∷ rs) h (p, below) = (
    (λ alive.
        let mine : w.store.connect_token_ref ≡ token =
          (==_iff w.store.connect_token_ref token).0 alive in
        absurd (omega (arith, mine, p, h))),
    AreShown-older w token rs (omega (arith, p, h)) below,
  )

  AreShown-resumed :
      (token : ℕ) (w : World F) (rs : List (ℕ × Phase F)) (r : World F × Phase F)
      → (Moved token r ⊎ (r ≡ (w, finished)))
      → AreBelow token rs
      → AreShown w rs
      → AreShown r.0 ((token, r.1) ∷ rs) × ((r.0 ≡ w) ⊎ (r.0.store.connect_token_ref ≡ token))
  AreShown-resumed token w rs r (inl (own, shown)) below old =
      (((λ alive. shown), AreShown-older r.0 token rs (omega (arith, own)) below), inr own)
  AreShown-resumed token w rs r (inr same) below old =
      subst
        (λ x.
          AreShown x.0 ((token, x.1) ∷ rs) × ((x.0 ≡ w) ⊎ (x.0.store.connect_token_ref ≡ token)))
        (sym same) (((λ alive. tt), old), inl refl)

  Resumed-AreShown :
      {w w' : World F} {rs rs' : List (ℕ × Phase F)} (b : ℕ)
      → Resumed n fl id_after w rs w' rs'
      → AreBelow b rs
      → AreShown w rs
      → AreShown w' rs' × ((w' ≡ w) ⊎ (w'.store.connect_token_ref < b))
  Resumed-AreShown b (Resumed.here w token ph rs d) (p, below) (shown, old) =
      let (all, moved) =
        AreShown-resumed token w rs (resume fl id_after token d ph w) (resume-Moved token d ph w)
          below old in
      (all, elim moved [ inl same ↦ inl same | inr own ↦ inr (omega (arith, own, p)) ])
  Resumed-AreShown {w} {w'} b (Resumed.there (token, ph) later) (p, below) (shown, old) =
      let (all, moved) = Resumed-AreShown token later below old in
      elim moved [
        | inl same ↦ (
          (subst (λ x. is_alive token x ≡ true → IsShown ph x.store.tunnel) (sym same) shown, all),
          inl same,
        )
        | inr older ↦ (
          (
            (λ alive.
                let mine : w'.store.connect_token_ref ≡ token =
                  (==_iff w'.store.connect_token_ref token).0 alive in
                absurd (omega (arith, mine, older))),
            all,
          ),
          inr (omega (arith, older, p)),
        )
      ]

  Reachable-AreShown :
      {s : System n fl id_after} → Reachable n fl id_after s → AreShown s.world s.runs
  unfolding initial_store connect
  Reachable-AreShown (Reachable.starts st) = tt
  Reachable-AreShown (Reachable.acts {s} {w} r act) =
      let o = Reachable-IsOrdered n fl id_after r in
      let (synced, grows) = Act-tokens n fl id_after act in
      AreShown-Tunes s.world w (suc s.world.connect_token) s.runs (Act-Tunes n fl id_after act)
        o.synced (synced o.synced) (omega arith) o.below (Reachable-AreShown r)
  Reachable-AreShown (Reachable.connects {s} now r) =
      let o = Reachable-IsOrdered n fl id_after r in
      let st = s.world.store in
      let token = suc s.world.connect_token in
      let world = s.world in
      let begun : World F = record world {
        store = record st { connect_token_ref = token };
        connect_token = token;
      } in
      let (synced, grows) = run_start-tokens n fl id_after now begun in
      (
        (λ alive. run_start-IsShown now begun st.activated refl),
        AreShown-older (run_start now begun).0 token s.runs (omega (arith, synced refl, grows))
            o.below,
      )
  Reachable-AreShown (Reachable.resumes {s} {w} {rs} r resumed) =
      let o = Reachable-IsOrdered n fl id_after r in
      (Resumed-AreShown (suc s.world.connect_token) resumed o.below (Reachable-AreShown r)).0

  -- In a reachable system the tunnel's state is that of the phase in which the newest run waits, if
  -- that run is live: whatever the actions, the timers and the other runs did, except that the timer
  -- of an earlier reset may show a backoff as connected.
  pub tunnel-IsShown :
      {s : System n fl id_after} (token : ℕ) (ph : Phase F) (rs : List (ℕ × Phase F))
      → Reachable n fl id_after s
      → s.runs ≡ (token, ph) ∷ rs
      → is_alive token s.world ≡ true
      → IsShown ph s.world.store.tunnel
  tunnel-IsShown {s} token ph rs reached same alive =
      (subst (AreShown s.world) same (Reachable-AreShown reached)).0 alive
