-- ===== src/Store/Actions.antt =====
-- The other actions of the store: view, scenario, countermeasures, features, settings, verdict, boot.
use vor.Common.{
  ℕ, suc, Bool, true, false, ◌||◌, not, Option, none, some, List, [], ◌∷◌, ◌++◌, map, filter,
  if◌then◌else◌, Text, codes, text_eq, includes, Floats,
}
use vor.Dpi.{DpiFeatures, DpiClass, Scenario, unit_clamp}
use vor.Dpi.Model.{ModelManifest, DpiVerdict, classify}
use vor.Dpi.Plans.{CountermeasurePlan, kind_of, plan_for, blackout_plan}
use vor.Tunnel.{TunnelState, idle, connected}
use vor.Store.{Lang, View, ClientTab, info, warn, success, VorSettings, World, log_event}

abbrev pub is_connected : TunnelState → Bool
is_connected connected = true
is_connected _ = false

abbrev pub is_blackout : Scenario → Bool
is_blackout Scenario.blackout = true
is_blackout _ = false

abbrev pub class_eq : DpiClass → DpiClass → Bool
class_eq DpiClass.benign DpiClass.benign = true
class_eq DpiClass.throttling DpiClass.throttling = true
class_eq DpiClass.active_dpi DpiClass.active_dpi = true
class_eq _ _ = false

-- `Array.from(new Set(kinds))`: the first of each, in order.
unfoldable pub distinct : List Text → List Text → List Text
unfolding includes
distinct seen [] = []
distinct seen (k ∷ ks) = elim (includes seen k) [
  | true ↦ distinct seen ks
  | false ↦ k ∷ distinct (k ∷ seen) ks
]

module _ {F : Type 0} where
  unfoldable pub set_lang : Lang → World F → World F
  set_lang l w =
      let s = w.store in
      let st = w.storage in
      record w { store = record s { lang = l }; storage = record st { lang = some l } }

  unfoldable pub set_view : View → World F → World F
  set_view v w = let s = w.store in record w { store = record s { view = v } }

  unfoldable pub set_tab : ClientTab → World F → World F
  set_tab t w = let s = w.store in record w { store = record s { tab = t } }

  unfoldable pub disconnect : ℕ → World F → World F
  unfolding log_event
  disconnect now w =
      let s = w.store in
      let token = suc w.connect_token in
      log_event now (codes "controller") warn (record w {
        store = record s { connect_token_ref = token; tunnel = idle; session_start = none };
        connect_token = token;
      })

  -- The plan of a blackout, armed.
  unfoldable pub arm_blackout : ℕ → World F → World F
  unfolding log_event
  arm_blackout now w =
      let s = w.store in
      log_event now (codes "blackout") warn
        (record w { store = record s { plan = some blackout_plan } })

  -- The end of `setScenario` in a blackout.
  unfoldable pub enter_blackout : ℕ → World F → World F
  unfolding disconnect arm_blackout
  enter_blackout now w =
      let armed = arm_blackout now w in
      if is_connected armed.store.tunnel then disconnect now armed else armed

  unfoldable pub retarget : ℕ → Scenario → World F → World F
  unfolding log_event
  retarget now scenario w =
      let s = w.store in
      log_event now (codes "dpi") info (record w {
        store = record s { scenario = scenario; active_cms = []; manual_override = false };
      })

  unfoldable pub set_scenario : ℕ → Scenario → World F → World F
  unfolding enter_blackout retarget
  set_scenario now scenario w =
      let switched = retarget now scenario w in
      if is_blackout scenario then enter_blackout now switched else switched

  unfoldable pub toggle_cm : ℕ → Text → World F → World F
  unfolding log_event includes text_eq
  toggle_cm now kind w =
      let s = w.store in
      let on = not (includes s.active_cms kind) in
      log_event now (codes "countermeasure") (if on then success else info) (record w {
        store = record s {
          active_cms =
              if on
              then s.active_cms ++ kind ∷ []
              else filter (λ k. not (text_eq k kind)) s.active_cms;
        };
      })

  unfoldable pub apply_actions : ℕ → Option CountermeasurePlan → World F → World F
  unfolding log_event distinct
  apply_actions now none w = w
  apply_actions now (some plan) w =
      let s = w.store in
      log_event now (codes "countermeasure") success (record w {
        store = record s { active_cms = distinct [] (s.active_cms ++ map kind_of plan.actions) };
      })

  unfoldable pub apply_plan : ℕ → World F → World F
  unfolding apply_actions
  apply_plan now w = apply_actions now w.store.plan w

  unfoldable pub clear_cms : World F → World F
  clear_cms w = let s = w.store in record w { store = record s { active_cms = [] } }

  unfoldable pub set_manual_override : Bool → World F → World F
  set_manual_override v w = let s = w.store in record w { store = record s { manual_override = v } }

  -- The patch is the change that it makes.
  unfoldable pub update_settings : (VorSettings → VorSettings) → World F → World F
  update_settings patch w =
      let s = w.store in
      let st = w.storage in
      let next = patch s.settings in
      record w {
        store = record s { settings = next };
        storage = record st { settings = some (λ _. next) };
      }

  unfoldable pub set_manager_unlocked : Bool → World F → World F
  set_manager_unlocked unlocked w =
      let s = w.store in
      let st = w.storage in
      record w {
        store = record s { manager_unlocked = unlocked };
        storage = record st { manager_ok = unlocked || st.manager_ok };
      }

module _ (fl : Floats) where
  open fl use {F}

  -- The plan after a verdict: a new one if there was no verdict, or one of another class.
  abbrev pub next_plan :
      Scenario
      → Option (DpiVerdict F)
      → DpiVerdict F
      → DpiFeatures F
      → Option CountermeasurePlan
      → Option CountermeasurePlan
  next_plan Scenario.blackout prev v f plan = some blackout_plan
  next_plan scenario none v f plan = some (plan_for fl v.class f)
  next_plan scenario (some p) v f plan =
      if class_eq p.class v.class then plan else some (plan_for fl v.class f)

  abbrev pub is_benign : DpiClass → Bool
  is_benign DpiClass.benign = true
  is_benign _ = false

  abbrev pub log_change : ℕ → Option (DpiVerdict F) → DpiVerdict F → World F → World F
  log_change now none v w = w
  log_change now (some p) v w =
      if class_eq p.class v.class
      then w
      else log_event now (codes "dpi") (if is_benign v.class then success else warn) w

  unfoldable pub take_verdict : DpiVerdict F → World F → World F
  take_verdict v w =
      let s = w.store in
      record w {
        store = record s {
          verdict = some v;
          plan = next_plan s.scenario s.verdict v s.features s.plan;
        };
      }

  -- `none` is the exception of a malformed model.
  unfoldable pub apply_verdict : ℕ → Option (DpiVerdict F) → World F → Option (World F)
  unfolding log_event take_verdict
  apply_verdict now none w = none
  apply_verdict now (some v) w = some (log_change now w.store.verdict v (take_verdict v w))

  unfoldable pub verdict_for : ℕ → Option (ModelManifest F) → World F → Option (World F)
  unfolding apply_verdict
  verdict_for now none w = some w
  verdict_for now (some model) w = apply_verdict now (classify fl model w.store.features) w

  unfoldable pub refresh_verdict : ℕ → World F → Option (World F)
  unfolding verdict_for
  refresh_verdict now w = verdict_for now w.store.model w

  -- The world after a call that may have thrown: before it, if it did.
  abbrev pub or_before : World F → Option (World F) → World F
  or_before w none = w
  or_before w (some w') = w'

  abbrev pub put_feature : (DpiFeatures F → F → DpiFeatures F) → F → World F → World F
  put_feature setter v w =
      let s = w.store in
      record w { store = record s { features = setter s.features (unit_clamp fl v) } }

  -- The setter names the feature that it changes.
  unfoldable pub set_feature : ℕ → (DpiFeatures F → F → DpiFeatures F) → F → World F → World F
  unfolding refresh_verdict
  set_feature now setter v w =
      let changed = put_feature setter v w in or_before changed (refresh_verdict now changed)
