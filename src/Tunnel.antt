-- ===== src/Tunnel.antt =====
-- The tunnel engine, apps/preview/src/lib/vor/tunnel.ts: the transport ladder, the scoring of the
-- endpoints, the states of the tunnel and the backoff. Labels and regions are display texts.
pub mod Scoring
pub mod Telemetry
pub mod Backoff
use vor.Common.{
  ℕ, zero, suc, ◌+◌, ◌*◌, ◌^◌, min, Bool, true, false, Option, none, some, List, [], ◌∷◌, ◌==◌,
  if◌then◌else◌, Text, codes,
}

pub data TransportClass : Type 0 where
  reality_direct ws_tls_cdn grpc_tls httpupgrade_cdn ss2022 : TransportClass

abbrev pub transport_ladder : List TransportClass
transport_ladder = reality_direct ∷ ws_tls_cdn ∷ grpc_tls ∷ httpupgrade_cdn ∷ ss2022 ∷ []

-- `TRANSPORT_LADDER[Math.min(i, TRANSPORT_LADDER.length - 1)]`
unfoldable pub ladder_at : ℕ → TransportClass
ladder_at zero = reality_direct
ladder_at (suc zero) = ws_tls_cdn
ladder_at (suc (suc zero)) = grpc_tls
ladder_at (suc (suc (suc zero))) = httpupgrade_cdn
ladder_at (suc (suc (suc (suc i)))) = ss2022

-- `TRANSPORT_LADDER.indexOf(t)`
abbrev pub ladder_index : TransportClass → ℕ
ladder_index reality_direct = 0
ladder_index ws_tls_cdn = 1
ladder_index grpc_tls = 2
ladder_index httpupgrade_cdn = 3
ladder_index ss2022 = 4

abbrev pub transport_eq : TransportClass → TransportClass → Bool
transport_eq s t = ladder_index s == ladder_index t

pub record EndpointHealth (F : Type 0) : Type 0 where
  pub endpoint_id : Text
  pub latencies : List F
  pub loss_pct : F
  pub fail_streak : ℕ
  pub cdn_routed : Bool

pub data TunnelState : Type 0 where
  idle preparing checking_network selecting_transport connecting handshake : TunnelState
  connected reconnecting switching_transport diagnosing : TunnelState
  license_required license_expired config_error : TunnelState

abbrev pub max_attempts : ℕ
max_attempts = 5

abbrev pub base_backoff_ms : ℕ
base_backoff_ms = 500

abbrev pub max_backoff_ms : ℕ
max_backoff_ms = 8000

unfoldable pub backoff_ms : ℕ → ℕ
backoff_ms attempt = min max_backoff_ms (base_backoff_ms * 2 ^ min 4 attempt)

pub record TelemetryPoint (F : Type 0) : Type 0 where
  pub down : F
  pub up : F
  pub latency : F
  pub jitter : F
  pub loss : F
