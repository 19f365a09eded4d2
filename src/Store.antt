-- ===== src/Store.antt =====
-- The engine store, apps/preview/src/lib/vor/store.ts: its state and what it persists. The texts of
-- events, of errors and of the view are left out; the clock and the random draws are arguments.
pub mod Actions
pub mod License
pub mod Connect
pub mod Engine
pub mod System
pub mod Buffers
pub mod Boot
pub mod Measures
use vor.Common.{
  ℕ, suc, ◌+◌, Bool, true, false, Option, none, some, List, [], ◌∷◌, ◌++◌, leb, if◌then◌else◌,
  length, drop, take_last, ◌-◌, Text, codes, Floats, map,
}
use vor.License.{LicensePayload}
use vor.Keystore.{TrustedKeys}
use vor.Keystore.Verify.{VerificationReport}
use vor.Dpi.{DpiFeatures, Scenario}
use vor.Dpi.Features.{zero_features}
use vor.Dpi.Model.{ModelManifest, DpiVerdict}
use vor.Dpi.Plans.{CountermeasurePlan}
use vor.Tunnel.{TransportClass, reality_direct, EndpointHealth, TunnelState, idle, TelemetryPoint}
use vor.Tunnel.Scoring.{DecisionExplanation}
use vor.Tunnel.Telemetry.{initial_telemetry}

pub data Lang : Type 0 where
  fa en : Lang

pub data View : Type 0 where
  gate client manager : View

pub data ClientTab : Type 0 where
  tunnel analytics defense diagnostics settings : ClientTab

pub data Level : Type 0 where
  info warn error success : Level

pub record EngineEvent : Type 0 where
  pub ts : ℕ
  pub stage : Text
  pub level : Level

-- `VorSettings`; the choices are texts, as they are stored.
pub record VorSettings : Type 0 where
  pub protocol : Text
  pub mtu : ℕ
  pub congestion : Text
  pub rekey_min : ℕ
  pub port_hopping : Bool
  pub port_range : Text
  pub dns_mode : Text
  pub kill_switch : Bool
  pub auto_connect : Bool
  pub accent : Text

abbrev pub default_settings : VorSettings
default_settings = record {
  protocol = codes "wireguard";
  mtu = 1420;
  congestion = codes "bbr";
  rekey_min = 15;
  port_hopping = false;
  port_range = codes "10000-20000";
  dns_mode = codes "doh";
  kill_switch = true;
  auto_connect = false;
  accent = codes "emerald";
}

pub record StoredActivation : Type 0 where
  pub envelope : Text
  pub license_id : Text
  pub activated_at : ℕ

abbrev pub series_cap : ℕ
series_cap = 48

abbrev pub events_cap : ℕ
events_cap = 200

pub record Series (F : Type 0) : Type 0 where
  pub down : List F
  pub up : List F
  pub latency : List F
  pub jitter : List F
  pub loss : List F

-- `VorStoreFull`
pub record VorStore (F : Type 0) : Type 0 where
  pub booted : Bool
  pub lang : Lang
  pub view : View
  pub tab : ClientTab
  pub activated : Option LicensePayload
  pub last_report : Option VerificationReport
  pub activation_anim : Bool
  pub tunnel : TunnelState
  pub attempt : ℕ
  pub transport : TransportClass
  pub selected : Option (DecisionExplanation F)
  pub telemetry : TelemetryPoint F
  pub series : Series F
  pub session_start : Option ℕ
  pub endpoints : List (EndpointHealth F)
  pub transferred_mb : F
  pub model : Option (ModelManifest F)
  pub model_error : Bool
  pub features : DpiFeatures F
  pub verdict : Option (DpiVerdict F)
  pub scenario : Scenario
  pub plan : Option CountermeasurePlan
  pub active_cms : List Text
  pub manual_override : Bool
  pub events : List EngineEvent
  pub settings : VorSettings
  pub manager_unlocked : Bool
  pub connect_token_ref : ℕ

-- The entries of `localStorage` that the store reads and writes; `none` is a missing or unreadable
-- one, for which `lsGet` returns its fallback.
pub record Storage : Type 0 where
  pub lang : Option Lang
  pub activated : Option StoredActivation
  pub trusted : Option TrustedKeys
  pub revoked : Option (List Text)
  pub settings : Option (VorSettings → VorSettings)
  pub hwidentity : Option Text
  pub manager_ok : Bool

-- The store, the module's `connectToken`, and the browser's storage.
pub record World (F : Type 0) : Type 0 where
  pub store : VorStore F
  pub connect_token : ℕ
  pub storage : Storage

-- `pushSeries`
unfoldable pub push_series : {F : Type 0} → List F → F → List F
push_series arr v =
    (if leb series_cap (length arr) then drop (length arr - series_cap + 1) arr else arr) ++ v ∷ []

-- `logEvent`
unfoldable pub log_event : {F : Type 0} → ℕ → Text → Level → World F → World F
log_event ts stage level w =
    let s = w.store in
    record w {
      store = record s {
        events =
            take_last (events_cap - 1) s.events
            ++ record { ts = ts; stage = stage; level = level } ∷ [];
      };
    }

module _ (fl : Floats) where
  open fl use {F, dec}

  abbrev pub endpoint : Text → List F → F → Bool → EndpointHealth F
  endpoint id latencies loss cdn = record {
    endpoint_id = id;
    latencies = latencies;
    loss_pct = loss;
    fail_streak = 0;
    cdn_routed = cdn;
  }

  abbrev pub ms : ℕ → ℕ → ℕ → ℕ → List F
  ms a b c d = dec a 0 ∷ dec b 0 ∷ dec c 0 ∷ dec d 0 ∷ []

  -- `BASE_ENDPOINTS` of tunnel.ts
  unfoldable pub base_endpoints : List (EndpointHealth F)
  base_endpoints =
      endpoint (codes "fra-04") (ms 18 19 17 18) (dec 0 0) false
      ∷ endpoint (codes "ams-02") (ms 34 36 33 35) (dec 1 1) false
      ∷ endpoint (codes "cdn-ist-01") (ms 58 61 55 60) (dec 4 1) true
      ∷ endpoint (codes "sg-01") (ms 142 150 138 147) (dec 12 1) false
      ∷ []

  unfoldable pub initial_store : VorStore F
  initial_store = record {
    booted = false;
    lang = fa;
    view = gate;
    tab = ClientTab.tunnel;
    activated = none;
    last_report = none;
    activation_anim = false;
    tunnel = idle;
    attempt = 0;
    transport = reality_direct;
    selected = none;
    telemetry = initial_telemetry fl;
    series = record { down = []; up = []; latency = []; jitter = []; loss = [] };
    session_start = none;
    endpoints = base_endpoints;
    transferred_mb = dec 0 0;
    model = none;
    model_error = false;
    features = zero_features fl;
    verdict = none;
    scenario = Scenario.calm;
    plan = none;
    active_cms = [];
    manual_override = false;
    events = [];
    settings = default_settings;
    manager_unlocked = false;
    connect_token_ref = 0;
  }
