-- ===== src/Store/System.antt =====
-- The store with its runs: what can happen between two timers, as a step relation. The storage may
-- change at any time, by the manager or another tab.
pub mod Effects
pub mod Booting
pub mod Resumptions
pub mod Runs
pub mod Tunes
pub mod Shown
pub mod Activation
use vor.Common.{ℕ, suc, Bool, Option, List, [], ◌∷◌, Text, Floats}
use vor.Crypto.{Noble}
use vor.Dpi.{DpiFeatures, Scenario}
use vor.Store.{Lang, View, ClientTab, Level, VorSettings, Storage, World, log_event, initial_store}
use vor.Store.License.{clear_report, deactivate, verify_and_activate, end_animation}
use vor.Store.Actions.{
  set_lang, set_view, set_tab, disconnect, set_scenario, toggle_cm, apply_plan, clear_cms,
  set_manual_override, update_settings, set_manager_unlocked, set_feature,
}
use vor.Store.Engine.{TickDraws, tick, end_reset}
use vor.Dpi.Model.{ModelManifest}
use vor.Store.Boot.{boot_start, load_model, recheck_cached}
use vor.Store.Connect.{Phase, Draw, connect, resume}

module _ (n : Noble) (fl : Floats) (id_after : Text → Text → Bool) where
  open fl use {F}

  -- The actions of the store but `connect`, the engine's timers, the steps of `boot` between its
  -- waits, and a change of the storage.
  pub data Act : World F → World F → Type 0 where
    langs : (w : World F) (l : Lang) → Act w (set_lang l w)
    views : (w : World F) (v : View) → Act w (set_view v w)
    tabs : (w : World F) (t : ClientTab) → Act w (set_tab t w)
    logs :
        (w : World F) (now : ℕ) (stage : Text) (level : Level) → Act w (log_event now stage level w)
    verifies :
        (w : World F) (now : ℕ) (silent : Bool) (envelope : Text)
        → Act w (verify_and_activate n now silent envelope w)
    clears : (w : World F) → Act w (clear_report w)
    deactivates : (w : World F) (now : ℕ) → Act w (deactivate now w)
    disconnects : (w : World F) (now : ℕ) → Act w (disconnect now w)
    scenarios : (w : World F) (now : ℕ) (sc : Scenario) → Act w (set_scenario now sc w)
    toggles : (w : World F) (now : ℕ) (kind : Text) → Act w (toggle_cm now kind w)
    plans : (w : World F) (now : ℕ) → Act w (apply_plan now w)
    clears_cms : (w : World F) → Act w (clear_cms w)
    overrides : (w : World F) (v : Bool) → Act w (set_manual_override v w)
    settings : (w : World F) (patch : VorSettings → VorSettings) → Act w (update_settings patch w)
    unlocks : (w : World F) (v : Bool) → Act w (set_manager_unlocked v w)
    features :
        (w : World F) (now : ℕ) (setter : DpiFeatures F → F → DpiFeatures F) (v : F)
        → Act w (set_feature fl now setter v w)
    animations : (w : World F) → Act w (end_animation w)
    ticks : (w : World F) (now : ℕ) (d : TickDraws F) → Act w (tick fl now d w)
    resets : (w : World F) (now : ℕ) → Act w (end_reset fl now w)
    boots : (w : World F) (now : ℕ) → Act w (boot_start now w)
    models :
        (w : World F) (now : ℕ) (model : Option (ModelManifest F))
        → Act w (load_model fl now model w)
    rechecks : (w : World F) (now : ℕ) → Act w (recheck_cached n now w)
    stores : (w : World F) (st : Storage) → Act w (record w { storage = st })

  -- The store and the runs that were started, the newest first, each with its token.
  pub record System : Type 0 where
    pub world : World F
    pub runs : List (ℕ × Phase F)

  -- One of the runs goes on.
  pub data Resumed : World F → List (ℕ × Phase F) → World F → List (ℕ × Phase F) → Type 0 where
    here :
        (w : World F) (token : ℕ) (ph : Phase F) (rs : List (ℕ × Phase F)) (d : Draw F)
        → Resumed w
            ((token, ph) ∷ rs)
            (resume fl id_after token d ph w).0
            ((token, (resume fl id_after token d ph w).1) ∷ rs)
    there :
        {w w' : World F} {rs rs' : List (ℕ × Phase F)} (r : ℕ × Phase F)
        → Resumed w rs w' rs'
        → Resumed w (r ∷ rs) w' (r ∷ rs')

  pub data Reachable : System → Type 0 where
    starts :
        (st : Storage)
        → Reachable (record {
          world = record { store = initial_store fl; connect_token = 0; storage = st };
          runs = [];
        })
    acts :
        {s : System} {w : World F}
        → Reachable s
        → Act s.world w
        → Reachable (record s { world = w })
    connects :
        {s : System} (now : ℕ)
        → Reachable s
        → Reachable (record {
          world = (connect now s.world).0;
          runs = (suc s.world.connect_token, (connect now s.world).1) ∷ s.runs;
        })
    resumes :
        {s : System} {w : World F} {rs : List (ℕ × Phase F)}
        → Reachable s
        → Resumed s.world s.runs w rs
        → Reachable (record { world = w; runs = rs })
