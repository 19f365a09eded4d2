-- ===== src/Examples/Systems.antt =====
-- The theorems on the store with its runs, at a short history: the storage trusts a key, a licence is
-- verified, and the operator connects twice.
use vor.Common.{
  ℕ, true, ==_iff, suc, map, replicate, arith, ◌≡◌, refl, false, Option, none, some, [], ◌∷◌,
}
use vor.Examples.{toy_noble, toy_floats}
use vor.Examples.Licenses.{envelope, payload, trusted, issued_envelope_verifies}
use vor.Examples.Engines.{never_after, draw}
use vor.Store.Connect.Phases.{resume_all}
use vor.Store.Connect.Outcome.{IsSettled, undisturbed, connect-prepares, connect-settles}
use vor.Store.System.Shown.{IsShown}
use vor.Store.System.Shown.Reached.{tunnel-IsShown}
use vor.License.{LicensePayload}
use vor.Store.{World, Storage, StoredActivation, initial_store}
use vor.Store.Boot.{IsRechecked, recheck_cached, recheck_cached-fail_closed}
use vor.Common.{codes}
use vor.Store.License.{verify_and_activate, verify_options, settle, deactivate}
use vor.License.Errors.{Result, ok}
use vor.Keystore.Verify.{verify_license}
use vor.Store.Actions.{disconnect}
use vor.Store.Connect.{Phase, finished, connect, is_alive}
use vor.Store.System.{Act, System, Reachable}
use vor.Store.System.Runs.{AreStale, Reachable-AreStale}
use vor.Store.System.Activation.{WasVerified, Reachable-WasVerified}

abbrev storage : Storage
storage = record {
  lang = none;
  activated = none;
  trusted = trusted;
  revoked = none;
  settings = none;
  hwidentity = none;
  manager_ok = false;
}

abbrev pub opened : World (Option ℕ)
opened = record { store = initial_store toy_floats; connect_token = 0; storage = storage }

abbrev pub licensed : World (Option ℕ)
licensed = verify_and_activate toy_noble 2000000 false envelope opened

abbrev pub licensed_system : System toy_noble toy_floats never_after
licensed_system = record { world = licensed; runs = [] }

pub licensed_system-Reachable : Reachable toy_noble toy_floats never_after licensed_system
licensed_system-Reachable =
    Reachable.acts (Reachable.starts storage) (Act.verifies opened 2000000 false envelope)

settles :
    (r : Result LicensePayload)
    → r ≡ ok payload
    → (settle 2000000 false envelope r opened).store.activated ≡ some payload
unfolding settle
settles r same = rw same

pub licence_is_active : licensed.store.activated ≡ some payload
unfolding verify_and_activate
licence_is_active =
    settles (verify_license toy_noble envelope trusted (verify_options 2000000 storage))
      issued_envelope_verifies

Reachable-WasVerified_example : WasVerified toy_noble payload
Reachable-WasVerified_example =
    Reachable-WasVerified toy_noble toy_floats never_after {s = licensed_system} payload
      licensed_system-Reachable licence_is_active

abbrev once : World (Option ℕ)
once = (connect 2000001 licensed).0

connect-settles_example :
    let r =
      resume_all toy_floats never_after
        (suc licensed.connect_token)
        (map (undisturbed toy_floats never_after (suc licensed.connect_token)) (replicate 21 draw))
        (connect 2000001 licensed) in
    (r.1 ≡ finished) × IsSettled r.0
connect-settles_example =
    connect-settles toy_floats never_after 2000001 licensed payload (replicate 21 draw)
      licence_is_active (omega arith)

abbrev twice : World (Option ℕ)
twice = (connect 2000002 once).0

abbrev first_run : ℕ × Phase (Option ℕ)
first_run = (suc licensed.connect_token, (connect 2000001 licensed).1)

abbrev connected_once : System toy_noble toy_floats never_after
connected_once = record { world = once; runs = first_run ∷ [] }

first_run_alive : is_alive (suc licensed.connect_token) once ≡ true
first_run_alive =
    let (prepares, own, shows) = connect-prepares 2000001 licensed payload licence_is_active in
    (==_iff once.store.connect_token_ref (suc licensed.connect_token)).1 own

tunnel-IsShown_example : IsShown (connect 2000001 licensed).1 once.store.tunnel
tunnel-IsShown_example =
    tunnel-IsShown toy_noble toy_floats never_after {s = connected_once}
      (suc licensed.connect_token) (connect 2000001 licensed).1 []
      (Reachable.connects 2000001 licensed_system-Reachable) refl first_run_alive

abbrev second_run : ℕ × Phase (Option ℕ)
second_run = (suc once.connect_token, (connect 2000002 once).1)

abbrev connected_twice : System toy_noble toy_floats never_after
connected_twice = record { world = twice; runs = second_run ∷ first_run ∷ [] }

connected_twice-Reachable : Reachable toy_noble toy_floats never_after connected_twice
connected_twice-Reachable =
    Reachable.connects 2000002 (Reachable.connects 2000001 licensed_system-Reachable)

Reachable-AreStale_example :
    AreStale toy_noble toy_floats never_after twice (first_run ∷ [])
    × AreStale toy_noble toy_floats never_after (disconnect 9 twice) (second_run ∷ first_run ∷ [])
    × AreStale toy_noble toy_floats never_after (deactivate 9 twice) (second_run ∷ first_run ∷ [])
Reachable-AreStale_example =
    Reachable-AreStale toy_noble toy_floats never_after {s = connected_twice} 9 second_run
      (first_run ∷ []) connected_twice-Reachable refl

-- A storage with a cached activation whose envelope is no longer one.
abbrev stale_activation : StoredActivation
stale_activation = record {
  envelope = codes "VORLIC1.x";
  license_id = codes "1234";
  activated_at = 7;
}

abbrev reopened : World (Option ℕ)
reopened = record {
  store = initial_store toy_floats;
  connect_token = 0;
  storage = record storage { activated = some stale_activation };
}

recheck_cached-fail_closed_example :
    IsRechecked toy_noble 2000000
      (codes "VORLIC1.x")
      reopened
      (recheck_cached toy_noble 2000000 reopened)
recheck_cached-fail_closed_example =
    recheck_cached-fail_closed toy_noble 2000000 reopened stale_activation 86 (codes "ORLIC1.x")
      refl refl

-- The check refuses it and removes it.
stale_activation_removed : (recheck_cached toy_noble 2000000 reopened).storage.activated ≡ none
unfolding recheck_cached vor.License.envelope_decode
stale_activation_removed = refl
