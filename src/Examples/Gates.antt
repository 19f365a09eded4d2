-- ===== src/Examples/Gates.antt =====
-- The theorems on the gate and the shell at concrete states.
use vor.Common.{◌≡◌, refl, ap, ◌∙◌, false, none, some, codes}
use vor.License.{LicensePayload, parse_license_file_text}
use vor.License.Errors.{malformed, license_error, ok, err}
use vor.Keystore.Verify.{rejected}
use vor.Store.{World, client}
use vor.Store.Boot.{boot_start}
use vor.Store.System.{System, Reachable, Act}
use vor.Store.System.Activation.{WasVerified}
use vor.Store.License.{settle, verify_and_activate}
use vor.Gate.{GateState, ready, on_file}
use vor.Gate.Refused.{on_file-refuses}
use vor.Shell.{client_tab, shell_screen}
use vor.Shell.Safety.{client_is_licensed}
use vor.Store
use vor.Examples.{toy_noble, toy_floats}
use vor.Examples.Engines.{empty_world, never_after}
use vor.Examples.Licenses.{payload, envelope, issued_envelope_verifies}
use vor.Examples.Systems.{opened, licensed, licensed_system, licensed_system-Reachable}

abbrev typed : GateState
typed = record { input = codes "VORLIC1.x"; busy = ready }

bare_number : parse_license_file_text (codes "7") ≡ err (license_error malformed)
unfolding parse_license_file_text vor.Canonical.Parse.parse_json
bare_number = refl

on_file-refuses_example :
    ((on_file toy_noble 5 (codes "7") (typed, empty_world)).0 ≡ typed)
    × ((on_file toy_noble 5 (codes "7") (typed, empty_world)).1.store.last_report
        ≡ some (rejected malformed))
    × ((on_file toy_noble 5 (codes "7") (typed, empty_world)).1.store.activated ≡ none)
on_file-refuses_example =
    on_file-refuses toy_noble 5 (codes "7") (license_error malformed) typed empty_world bare_number

-- The licensed system once its boot has begun.
abbrev booted_system : System toy_noble toy_floats never_after
booted_system = record licensed_system { world = boot_start 2000001 licensed }

booted_system-Reachable : Reachable toy_noble toy_floats never_after booted_system
booted_system-Reachable = Reachable.acts licensed_system-Reachable (Act.boots licensed 2000001)

drawn_once_settled :
    shell_screen (boot_start 2000001 (settle 2000000 false envelope (ok payload) opened)).store
    ≡ client_tab Store.ClientTab.tunnel
unfolding settle shell_screen boot_start vor.Store.initial_store
drawn_once_settled = refl

client_drawn : shell_screen booted_system.world.store ≡ client_tab Store.ClientTab.tunnel
unfolding verify_and_activate
client_drawn =
    ap (λ r. shell_screen (boot_start 2000001 (settle 2000000 false envelope r opened)).store)
      issued_envelope_verifies
    ∙ drawn_once_settled

client_is_licensed_example :
    (p : LicensePayload) × (booted_system.world.store.activated ≡ some p) × WasVerified toy_noble p
client_is_licensed_example =
    client_is_licensed toy_noble toy_floats never_after {s = booted_system} Store.ClientTab.tunnel
      booted_system-Reachable client_drawn
