-- ===== src/Tabs.antt =====
-- The handlers of the client's tabs: the dial of TunnelTab.tsx, the sweep and the countdown of
-- DiagnosticsTab.tsx, the scope of DefenseTab.tsx (apps/preview/src/components/vor).
use vor.Common.{
  ℕ, zero, suc, ◌/◌, ◌%◌, Bool, true, false, ◌&&◌, ◌||◌, Option, none, some, List, [], ◌∷◌, ◌++◌,
  map, ltb, if◌then◌else◌, Text, codes, decimal, Floats, fmin,
}
use vor.Dpi.Model.{DpiVerdict}
use vor.Tunnel.{
  TunnelState, idle, preparing, checking_network, selecting_transport, connecting, handshake,
  connected, reconnecting, switching_transport, diagnosing, license_required, license_expired,
  config_error,
}
use vor.Store.{World, info, success, log_event}
use vor.Store.Actions.{disconnect}
use vor.Store.Connect.{Phase, connect}

-- `busyStates.includes(tunnel)`
abbrev pub is_busy : TunnelState → Bool
is_busy preparing = true
is_busy checking_network = true
is_busy selecting_transport = true
is_busy connecting = true
is_busy handshake = true
is_busy reconnecting = true
is_busy switching_transport = true
is_busy diagnosing = true
is_busy _ = false

abbrev pub is_linked : TunnelState → Bool
is_linked connected = true
is_linked _ = false

abbrev pub is_idle : TunnelState → Bool
is_idle idle = true
is_idle _ = false

abbrev pub is_refused : TunnelState → Bool
is_refused config_error = true
is_refused license_required = true
is_refused license_expired = true
is_refused _ = false

pub data DialMode : Type 0 where
  armed failed linking disarmed : DialMode

unfoldable pub dial_mode : TunnelState → DialMode
dial_mode t =
    if is_linked t
    then armed
    else if is_refused t
    then failed
    else if is_busy t
    then linking
    else disarmed

unfoldable pub dial_caption : TunnelState → Text
dial_caption t =
    if is_linked t
    then codes "ARMED"
    else if is_busy t
    then codes "LINKING"
    else if is_idle t
    then codes "DISARMED"
    else codes "FAULT"

pub data Sweep : Type 0 where
  waiting running swept : Sweep

module _ {F : Type 0} where
  -- `onDial`: the world, and the phase of the run that was started, if one was.
  unfoldable pub on_dial : ℕ → World F → World F × Option (Phase F)
  unfolding disconnect connect
  on_dial now w =
      if is_linked w.store.tunnel || is_busy w.store.tunnel
      then (disconnect now w, none)
      else ((connect now w).0, some (connect now w).1)

  -- What the tab does each time that it is mounted.
  unfoldable pub auto_connect_on_mount : ℕ → World F → World F × Option (Phase F)
  unfolding connect log_event
  auto_connect_on_mount now w =
      let logged = log_event now (codes "controller") info w in
      if w.store.settings.auto_connect && is_idle w.store.tunnel
      then ((connect now logged).0, some (connect now logged).1)
      else (w, none)

  -- `runSweep`, and the timer that ends it
  unfoldable pub run_sweep : ℕ → World F → Sweep × World F
  unfolding log_event
  run_sweep now w = (running, log_event now (codes "attestation") info w)

  unfoldable pub end_sweep : ℕ → World F → Sweep × World F
  unfolding log_event
  end_sweep now w = (swept, log_event now (codes "attestation") success w)

-- The countdown, at each second
unfoldable pub kem_tick : ℕ → ℕ
kem_tick zero = 0
kem_tick (suc r) = r

-- `padStart(2, '0')` of a number
abbrev pub padded_two : ℕ → Text
padded_two n = if ltb n 10 then 48 ∷ decimal n else decimal n

unfoldable pub kem_label : ℕ → Text
kem_label r = decimal (r / 60) ++ (58 ∷ (padded_two (r % 60) ++ codes " REMAIN"))

module _ (fl : Floats) where
  open fl use {F, dec, add, mul, div}

  abbrev pub or_flat : List F → List F
  or_flat [] = dec 0 0 ∷ []
  or_flat (v ∷ vs) = v ∷ vs

  abbrev pub benign_share : Option (DpiVerdict F) → F
  benign_share none = dec 0 0
  benign_share (some v) = mul v.probs.0 (dec 2 1)

  -- The samples of the oscilloscope
  unfoldable pub scope : List F → Option (DpiVerdict F) → List F
  scope down verdict =
      map (λ v. fmin fl (dec 1 0) (add (add (div v (dec 160 0)) (dec 1 1)) (benign_share verdict)))
        (or_flat down)
