-- ===== src/Shell.antt =====
-- The shell, apps/preview/src/components/vor/VorShell.tsx: which shell_screen is drawn, and the form that
-- unlocks the manager.
pub mod Safety
use vor.Common.{
  ℕ, Bool, true, false, not, ◌&&◌, Option, none, some, leb, if◌then◌else◌, length, Text, codes,
  trim,
}
use vor.License.{LicensePayload}
use vor.Store.{View, gate, client, manager, ClientTab, success, VorStore, World, log_event}
use vor.Store.Actions.{set_manager_unlocked}

pub data ShellScreen : Type 0 where
  splash license_gate license_manager manager_unlock : ShellScreen
  client_tab : ClientTab → ShellScreen

-- `view === 'client' && !activated ? 'gate' : view`
unfoldable pub effective_view : View → Option LicensePayload → View
effective_view client none = gate
effective_view client (some p) = client
effective_view gate activated = gate
effective_view manager activated = manager

abbrev pub screen_of : View → Bool → ClientTab → ShellScreen
screen_of gate unlocked tab = license_gate
screen_of manager unlocked tab = if unlocked then license_manager else manager_unlock
screen_of client unlocked tab = client_tab tab

module _ {F : Type 0} where
  -- `VorShell`
  unfoldable pub shell_screen : VorStore F → ShellScreen
  unfolding effective_view
  shell_screen s =
      if s.booted
      then screen_of (effective_view s.view s.activated) s.manager_unlocked s.tab
      else splash

  -- The submission of `ManagerUnlock`.
  unfoldable pub unlock_console : ℕ → Text → World F → World F
  unfolding log_event
  unlock_console now input w =
      if leb 4 (length (trim input))
      then log_event now (codes "manager") success (set_manager_unlocked true w)
      else w
