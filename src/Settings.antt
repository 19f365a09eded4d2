-- ===== src/Settings.antt =====
-- The profiles of the settings view, apps/preview/src/components/vor/SettingsTab.tsx: the import of a
-- subscription and the activation of one of its links.
pub mod Imported
use vor.Common.{
  ℕ, ◌+◌, ◌-◌, Bool, true, false, ◌&&◌, not, Option, none, some, List, [], ◌∷◌, ◌++◌, map, filter,
  any, leb, ltb, if◌then◌else◌, length, Text, codes, Number, nan, int, print_int,
}
use vor.Subscription.{
  ProfileEndpoint, ParsedProfile, ParseError, empty, unsupported_scheme, malformed, ParseResult,
  parsed, failed, throws,
}
use vor.Subscription.Links.{parse_subscription}
use vor.Store.{World, success, error, log_event}

-- `StoredProfile`, which the browser's storage keeps as `vor.activeProfile`.
pub record StoredProfile : Type 0 where
  pub raw : Text
  pub protocol : Text
  pub address : Text
  pub port : Number

pub record ImportRow : Type 0 where
  pub ok : Bool
  pub label : Text
  pub raw : Option Text

-- The state of the view: the rows of the last import and the active profile, which is also saved.
pub record SettingsState : Type 0 where
  pub results : Option (List ImportRow)
  pub active : Option StoredProfile

-- `toUpperCase` on the names of protocols, which are ASCII
abbrev pub to_upper : Text → Text
to_upper s = map (λ c. if leb b'a' c && leb c b'z' then c - 32 else c) s

abbrev pub print_number : Number → Text
print_number nan = codes "NaN"
print_number (int z) = print_int z

abbrev pub sni_label : Option Text → Text
sni_label none = []
sni_label (some []) = []
sni_label (some (c ∷ s)) = codes " · SNI " ++ (c ∷ s)

abbrev pub error_label : ParseError → Text
error_label empty = codes "empty input"
error_label (unsupported_scheme s) = codes "unsupported scheme: " ++ s
error_label (malformed reason) = codes "malformed (" ++ (reason ++ codes ")")

-- A list with a `throws` is no result: the call threw.
abbrev pub is_throw : ParseResult → Bool
is_throw throws = true
is_throw _ = false

abbrev pub returned : List ParseResult → Option (List ParseResult)
returned rs = if any is_throw rs then none else some rs

abbrev pub import_row : ParseResult → ImportRow
import_row (parsed p) = record {
  ok = true;
  label =
      to_upper p.protocol
      ++ (32
          ∷ (p.endpoint.address
              ++ (58 ∷ (print_number p.endpoint.port ++ sni_label p.endpoint.sni))));
  raw = some p.raw;
}
import_row (failed e) = record { ok = false; label = error_label e; raw = none }
import_row throws = record { ok = false; label = []; raw = none }

abbrev pub is_ok_row : ImportRow → Bool
is_ok_row r = r.ok

abbrev pub profile_of : ParsedProfile → Text → StoredProfile
profile_of p raw = record {
  raw = raw;
  protocol = p.protocol;
  address = p.endpoint.address;
  port = p.endpoint.port;
}

-- `parsed[0]`, if it is a profile
abbrev pub first_profile : Option (List ParseResult) → Option ParsedProfile
first_profile (some (parsed p ∷ rs)) = some p
first_profile _ = none

module _ {F : Type 0} where
  abbrev pub settle_import :
      ℕ → Option (List ParseResult) → SettingsState × World F → SettingsState × World F
  settle_import now none (s, w) = (s, w)
  settle_import now (some rs) (s, w) =
      let out = map import_row rs in
      (
        record s { results = some out },
        log_event now (codes "subscription")
            (if ltb 0 (length (filter is_ok_row out)) then success else error) w,
      )

  -- `runImport`
  unfoldable pub run_import : ℕ → Text → SettingsState × World F → SettingsState × World F
  unfolding parse_subscription log_event
  run_import now text sw = settle_import now (returned (parse_subscription text)) sw

  abbrev pub settle_activate :
      ℕ → Text → Option ParsedProfile → SettingsState × World F → SettingsState × World F
  settle_activate now raw none (s, w) = (s, w)
  settle_activate now raw (some p) (s, w) =
      (record s { active = some (profile_of p raw) }, log_event now (codes "profile") success w)

  -- `activate`
  unfoldable pub activate : ℕ → Text → SettingsState × World F → SettingsState × World F
  unfolding parse_subscription log_event
  activate now raw sw =
      settle_activate now raw (first_profile (returned (parse_subscription raw))) sw
