-- ===== src/Shell/Safety.antt =====
-- The client is drawn for a verified licence only.
use vor.Common.{◌≡◌, refl, Bool, true, false, Option, none, some, Text, Floats, if◌then◌else◌}
use vor.Crypto.{Noble}
use vor.License.{LicensePayload}
use vor.Store.{View, gate, client, manager, ClientTab, VorStore}
use vor.Store.System.{System, Reachable}
use vor.Store.System.Activation.{WasVerified, Reachable-WasVerified}
use vor.Shell.{splash, client_tab, effective_view, screen_of, shell_screen}

screen_of-client :
    (v : View) (o : Option LicensePayload) (unlocked : Bool) (tab t : ClientTab)
    → screen_of (effective_view v o) unlocked tab ≡ client_tab t
    → (p : LicensePayload) × (o ≡ some p)
unfolding effective_view
screen_of-client client (some p) unlocked tab t h = (p, refl)
screen_of-client client none unlocked tab t h = cc
screen_of-client gate o unlocked tab t h = cc
screen_of-client manager o true tab t h = cc
screen_of-client manager o false tab t h = cc

screen-client :
    {F : Type 0} (booted : Bool) (s : VorStore F) (t : ClientTab)
    → (if booted
        then screen_of (effective_view s.view s.activated) s.manager_unlocked s.tab
        else splash)
      ≡ client_tab t
    → (p : LicensePayload) × (s.activated ≡ some p)
screen-client true s t h = screen_of-client s.view s.activated s.manager_unlocked s.tab t h
screen-client false s t h = cc

-- In every state that the store can reach, whatever the order of actions, timers and runs, a tab of
-- the client is drawn only if a licence is active, and `verifyLicense` returned that licence.
pub client_is_licensed :
    (n : Noble) (fl : Floats) (id_after : Text → Text → Bool) {s : System n fl id_after}
    (t : ClientTab)
    → Reachable n fl id_after s
    → shell_screen s.world.store ≡ client_tab t
    → (p : LicensePayload) × (s.world.store.activated ≡ some p) × WasVerified n p
unfolding shell_screen
client_is_licensed n fl id_after {s} t reached drawn =
    let (p, active) = screen-client s.world.store.booted s.world.store t drawn in
    (p, active, Reachable-WasVerified n fl id_after p reached active)
