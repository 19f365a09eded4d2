-- ===== src/Dpi/Plans.antt =====
-- The countermeasure plans, `planFor` and `blackoutPlan` of dpi.ts. The explanations are left out.
use vor.Common.{ℕ, List, [], ◌∷◌, ◌++◌, if◌then◌else◌, Text, codes, Floats}
use vor.Dpi.{DpiFeatures, DpiClass, sanitize_features}

pub data DnsMode : Type 0 where
  domestic_direct dot doh bootstrap_ips : DnsMode

pub data CountermeasureKind : Type 0 where
  client_hello_split : (at_byte : ℕ) → CountermeasureKind
  packet_fragmentation : (mss : ℕ) → CountermeasureKind
  utls_fingerprint : (profile : Text) → CountermeasureKind
  fake_sni : (front_domain : Text) → CountermeasureKind
  padding : (bytes : ℕ) → CountermeasureKind
  mux : (max_concurrency : ℕ) → CountermeasureKind
  port_hopping : (interval_secs : ℕ) (range : Text) → CountermeasureKind
  dns_mode : DnsMode → CountermeasureKind
  transport_switch : (to : Text) → CountermeasureKind
  blackout_mode : CountermeasureKind

-- `a.kind`
unfoldable pub kind_of : CountermeasureKind → Text
kind_of (client_hello_split b) = codes "client_hello_split"
kind_of (packet_fragmentation m) = codes "packet_fragmentation"
kind_of (utls_fingerprint p) = codes "utls_fingerprint"
kind_of (fake_sni d) = codes "fake_sni"
kind_of (padding b) = codes "padding"
kind_of (mux m) = codes "mux"
kind_of (port_hopping s r) = codes "port_hopping"
kind_of (dns_mode m) = codes "dns_mode"
kind_of (transport_switch t) = codes "transport_switch"
kind_of blackout_mode = codes "blackout_mode"

pub data Trigger : Type 0 where
  verdict : DpiClass → Trigger
  blackout : Trigger

pub record CountermeasurePlan : Type 0 where
  pub triggered_by : Trigger
  pub actions : List CountermeasureKind

module _ (fl : Floats) where
  unfoldable pub actions_for : DpiClass → DpiFeatures fl.F → List CountermeasureKind
  actions_for DpiClass.benign f = utls_fingerprint (codes "chrome") ∷ []
  actions_for DpiClass.throttling f =
      (if fl.lt (fl.dec 5 1) f.timing_regularity then padding 64 ∷ [] else [])
      ++ (mux 4 ∷ port_hopping 45 (codes "10000-20000") ∷ [])
  actions_for DpiClass.active_dpi f =
      client_hello_split 7
      ∷ utls_fingerprint (codes "randomized")
      ∷ packet_fragmentation 48
      ∷ ((if fl.lt (fl.dec 4 1) f.reset_after_client_hello
            then fake_sni (codes "cdn.jsdelivr.net") ∷ []
            else [])
          ++ transport_switch (codes "ws_tls_cdn") ∷ [])

  unfoldable pub plan_for : DpiClass → DpiFeatures fl.F → CountermeasurePlan
  unfolding actions_for
  plan_for cls raw = record {
    triggered_by = verdict cls;
    actions = actions_for cls (sanitize_features fl raw);
  }

abbrev pub blackout_plan : CountermeasurePlan
blackout_plan = record {
  triggered_by = blackout;
  actions =
      blackout_mode
      ∷ dns_mode bootstrap_ips
      ∷ client_hello_split 5
      ∷ packet_fragmentation 40
      ∷ transport_switch (codes "ws_tls_cdn")
      ∷ [];
}
