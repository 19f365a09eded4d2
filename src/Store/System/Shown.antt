-- ===== src/Store/System/Shown.antt =====
-- The tunnel's state against the phases of the live runs.
pub mod Reached
use vor.Common.{
  ℕ, suc, ◌≤◌, ◌<◌, ◌≡◌, ◌≢◌, refl, sym, ap, ◌∙◌, subst, ◌⊎◌, inl, inr, Bool, Bool-cases, true,
  false, Option, none, some, List, [], ◌∷◌, Text, arith, All, Floats, ==_iff, if◌then◌else◌,
}
use vor.Crypto.{Noble}
use vor.License.{LicensePayload}
use vor.Tunnel.{
  TunnelState, preparing, checking_network, connecting, handshake, connected, reconnecting,
  switching_transport,
}
use vor.Store.{World, initial_store, log_event}
use vor.Store.Connect.{
  Phase, prepare, check, backoff, dial, shake, switch, finished, Draw, connect, run_start, advance,
  resume, is_alive,
}
use vor.Store.Connect.Outcome.{IsSettled, Shows, Goes, advance-Goes}
use vor.Store.System.{Act, System, Resumed, Reachable}
use vor.Store.System.Runs.{AreBelow, IsOrdered, Reachable-IsOrdered, Act-tokens, run_start-tokens}
use vor.Store.System.Tunes.{IsUp, Follows, Tunes}

-- The states that the tunnel may show while a live run waits in a phase: in a backoff it may be set
-- to connected by the timer of an earlier reset.
abbrev pub IsShown : {F : Type 0} → Phase F → TunnelState → Type 0
IsShown prepare t = t ≡ preparing
IsShown check t = t ≡ checking_network
IsShown (backoff k) t = IsUp t
IsShown (dial k best sc) t = t ≡ connecting
IsShown (shake k best sc) t = t ≡ handshake
IsShown (switch k) t = t ≡ switching_transport
IsShown finished t = Unit {0}

pub IsShown-Shows :
    {F : Type 0} (ph : Phase F) (w : World F) → Shows ph w → IsShown ph w.store.tunnel
IsShown-Shows prepare w h = h
IsShown-Shows check w h = h
IsShown-Shows (backoff k) w h = inr h
IsShown-Shows (dial k best sc) w h = h
IsShown-Shows (shake k best sc) w h = h
IsShown-Shows (switch k) w h = h
IsShown-Shows finished w h = tt

down : {t u : TunnelState} → t ≡ u → IsUp t → u ≢ connected → u ≢ reconnecting → ⊥
down h (inl up) p q = p (sym h ∙ up)
down h (inr up) p q = q (sym h ∙ up)

IsShown-up :
    {F : Type 0} (ph : Phase F) (a b : TunnelState) → IsUp a → IsUp b → IsShown ph a → IsShown ph b
IsShown-up prepare a b up v h = absurd (down h up (λ e. cc) (λ e. cc))
IsShown-up check a b up v h = absurd (down h up (λ e. cc) (λ e. cc))
IsShown-up (backoff k) a b up v h = v
IsShown-up (dial k best sc) a b up v h = absurd (down h up (λ e. cc) (λ e. cc))
IsShown-up (shake k best sc) a b up v h = absurd (down h up (λ e. cc) (λ e. cc))
IsShown-up (switch k) a b up v h = absurd (down h up (λ e. cc) (λ e. cc))
IsShown-up finished a b up v h = tt

IsShown-Follows :
    {F : Type 0} (ph : Phase F) (a b : TunnelState) → Follows a b → IsShown ph a → IsShown ph b
IsShown-Follows ph a b (inl e) h = subst (IsShown ph) (sym e) h
IsShown-Follows ph a b (inr (u, v)) h = IsShown-up ph a b u v h

-- Every live run of a list shows its phase.
abbrev pub AreShown : {F : Type 0} → World F → List (ℕ × Phase F) → Type 0
AreShown w rs = All (λ r. is_alive r.0 w ≡ true → IsShown r.1 w.store.tunnel) rs

pub AreShown-Tunes :
    {F : Type 0} (w w' : World F) (b : ℕ) (rs : List (ℕ × Phase F))
    → Tunes w w'
    → w.store.connect_token_ref ≡ w.connect_token
    → w'.store.connect_token_ref ≡ w'.connect_token
    → b ≤ suc w.connect_token
    → AreBelow b rs
    → AreShown w rs
    → AreShown w' rs
AreShown-Tunes w w' b [] t s s' h below shown = tt
AreShown-Tunes w w' b ((token, ph) ∷ rs) t s s' h (p, below) (shown, more) = (
  (λ alive.
      let mine : w'.store.connect_token_ref ≡ token =
        (==_iff w'.store.connect_token_ref token).0 alive in
      elim t.moved [
        | inl follows ↦ IsShown-Follows ph w.store.tunnel w'.store.tunnel follows (
            shown (
              (==_iff w.store.connect_token_ref token).1
                (omega (arith, t.grows, s, s', mine, p, h))))
        | inr newer ↦ absurd (omega (arith, newer, s', mine, p, h))
      ]),
  AreShown-Tunes w w' token rs t s s' (omega (arith, p, h)) below more,
)
