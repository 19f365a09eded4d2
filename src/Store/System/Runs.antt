-- ===== src/Store/System/Runs.antt =====
-- At most one connection run is live, and an action that ends the session leaves none.
use vor.Common.{
  ℕ, suc, ◌≤◌, ◌<◌, ◌≡◌, refl, ◌≢◌, Bool, true, false, Option, none, some, List, [], ◌∷◌, Text,
  arith, All, Floats, ==_iff, subst,
}
use vor.Crypto.{Noble}
use vor.License.{LicensePayload}
use vor.License.Errors.{Result, ok, err}
use vor.Keystore.Verify.{verify_license}
use vor.Store.Boot.{recheck_cached, recheck_envelope, recheck_saved, remove_refused}
use vor.Store.System.Booting.{boot_start-Steady, load_model-Steady}
use vor.Store.{World, StoredActivation, initial_store}
use vor.Store.License.{
  clear_report, deactivate, settle, verify_options, verify_and_activate, end_animation,
}
use vor.Store.Actions.{
  set_lang, set_view, set_tab, disconnect, clear_cms, set_manual_override, update_settings,
  set_manager_unlocked,
}
use vor.Store.Connect.{Phase, connect, run_start, is_alive}
use vor.Store.System.{Act, System, Resumed, Reachable}
use vor.Store.System.Act.{
  langs, views, tabs, logs, verifies, clears, deactivates, disconnects, scenarios, toggles, plans,
  clears_cms, overrides, settings, unlocks, features, animations, ticks, resets, stores, boots,
  models, rechecks,
}
use vor.Store.System.Effects.{
  Steady, log_event-Steady, disconnect-Steady, set_scenario-Steady, toggle_cm-Steady,
  apply_plan-Steady, set_feature-Steady, end_reset-Steady, tick-Steady,
}
use vor.Store.System.Resumptions.{resume-Steady}

-- The two tokens agree if they did, and the module's does not fall.
abbrev pub KeepsTokens : {F : Type 0} → World F → World F → Type 0
KeepsTokens w w' =
    (w.store.connect_token_ref ≡ w.connect_token → w'.store.connect_token_ref ≡ w'.connect_token)
    × (w.connect_token ≤ w'.connect_token)

of_Steady : {F : Type 0} {w w' : World F} → Steady w w' → KeepsTokens w w'
of_Steady h = (h.synced, h.grows)

-- The tokens of the runs fall from the newest run to the oldest, below a bound.
abbrev pub AreBelow : {F : Type 0} → ℕ → List (ℕ × Phase F) → Type 0
AreBelow b [] = Unit
AreBelow b ((token, ph) ∷ rs) = (token < b) × AreBelow token rs

AreBelow-weaken :
    {F : Type 0} {b c : ℕ} (rs : List (ℕ × Phase F)) → b ≤ c → AreBelow b rs → AreBelow c rs
AreBelow-weaken [] h k = tt
AreBelow-weaken ((token, ph) ∷ rs) h (p, k) = (omega arith, k)

-- No run of a list has this token.
abbrev AreOther : {F : Type 0} → ℕ → List (ℕ × Phase F) → Type 0
AreOther token rs = All (λ r. r.0 ≢ token) rs

AreOther-below :
    {F : Type 0} (b token : ℕ) (rs : List (ℕ × Phase F))
    → b ≤ token
    → AreBelow b rs
    → AreOther token rs
AreOther-below b token [] h k = tt
AreOther-below b token ((t, ph) ∷ rs) h (p, k) =
    ((λ same. omega (arith, same)), AreOther-below t token rs (omega arith) k)

settle-tokens :
    {F : Type 0} (now : ℕ) (silent : Bool) (envelope : Text) (r : Result LicensePayload)
    (w : World F)
    → KeepsTokens w (settle now silent envelope r w)
unfolding settle
settle-tokens now silent envelope (ok p) w = (λ h. h, omega arith)
settle-tokens now silent envelope (err e) w = (λ h. h, omega arith)

removed-tokens :
    {F : Type 0} (now : ℕ) (e : Text) (r : Result LicensePayload) (w : World F)
    → KeepsTokens w (remove_refused r (settle now true e r w))
unfolding settle
removed-tokens now e (ok p) w = (λ h. h, omega arith)
removed-tokens now e (err x) w = (λ h. h, omega arith)

recheck_envelope-tokens :
    {F : Type 0} (n : Noble) (now : ℕ) (e : Text) (w : World F)
    → KeepsTokens w (recheck_envelope n now e w)
unfolding verify_and_activate
recheck_envelope-tokens n now [] w = (λ h. h, omega arith)
recheck_envelope-tokens n now (c ∷ e) w =
    removed-tokens now (c ∷ e)
      (verify_license n (c ∷ e) w.storage.trusted (verify_options now w.storage)) w

recheck_saved-tokens :
    {F : Type 0} (n : Noble) (now : ℕ) (o : Option StoredActivation) (w : World F)
    → KeepsTokens w (recheck_saved n now o w)
recheck_saved-tokens n now none w = (λ h. h, omega arith)
recheck_saved-tokens n now (some saved) w = recheck_envelope-tokens n now saved.envelope w

module _ (n : Noble) (fl : Floats) (id_after : Text → Text → Bool) where
  open fl use {F}

  pub Act-tokens : {w w' : World F} → Act n fl id_after w w' → KeepsTokens w w'
  unfolding set_lang set_view set_tab clear_report deactivate end_animation clear_cms
      set_manual_override update_settings set_manager_unlocked verify_and_activate recheck_cached
  Act-tokens (langs w l) = (λ h. h, omega arith)
  Act-tokens (views w v) = (λ h. h, omega arith)
  Act-tokens (tabs w t) = (λ h. h, omega arith)
  Act-tokens (logs w now stage level) = of_Steady (log_event-Steady now stage level w)
  Act-tokens (verifies w now silent envelope) = settle-tokens now silent envelope _ w
  Act-tokens (clears w) = (λ h. h, omega arith)
  Act-tokens (deactivates w now) = (λ h. refl, omega arith)
  Act-tokens (disconnects w now) = of_Steady (disconnect-Steady now w)
  Act-tokens (scenarios w now sc) = of_Steady (set_scenario-Steady now sc w)
  Act-tokens (toggles w now kind) = of_Steady (toggle_cm-Steady now kind w)
  Act-tokens (plans w now) = of_Steady (apply_plan-Steady now w)
  Act-tokens (clears_cms w) = (λ h. h, omega arith)
  Act-tokens (overrides w v) = (λ h. h, omega arith)
  Act-tokens (settings w patch) = (λ h. h, omega arith)
  Act-tokens (unlocks w v) = (λ h. h, omega arith)
  Act-tokens (features w now setter v) = of_Steady (set_feature-Steady fl now setter v w)
  Act-tokens (animations w) = (λ h. h, omega arith)
  Act-tokens (ticks w now d) = of_Steady (tick-Steady fl now d w)
  Act-tokens (resets w now) = of_Steady (end_reset-Steady fl now w)
  Act-tokens (boots w now) = of_Steady (boot_start-Steady now w)
  Act-tokens (models w now model) = of_Steady (load_model-Steady fl now model w)
  Act-tokens (rechecks w now) = recheck_saved-tokens n now w.storage.activated w
  Act-tokens (stores w st) = (λ h. h, omega arith)

  Resumed-tokens :
      {w w' : World F} {rs rs' : List (ℕ × Phase F)}
      → Resumed n fl id_after w rs w' rs'
      → KeepsTokens w w' × ((b : ℕ) → AreBelow b rs → AreBelow b rs')
  Resumed-tokens (Resumed.here w token ph rs d) =
      (of_Steady (resume-Steady fl id_after token d ph w), λ b h. h)
  Resumed-tokens (Resumed.there (t, ph) later) =
      let (keeps, below) = Resumed-tokens later in (keeps, λ b (p, h). (p, below t h))

  pub run_start-tokens : (now : ℕ) (w : World F) → KeepsTokens w (run_start now w).0
  unfolding run_start
  run_start-tokens now w = ground arith

  -- The tokens agree, and those of the runs fall from the current one.
  pub record IsOrdered (s : System n fl id_after) : Type 0 where
    pub synced : s.world.store.connect_token_ref ≡ s.world.connect_token
    pub below : AreBelow (suc s.world.connect_token) s.runs

  pub Reachable-IsOrdered : {s : System n fl id_after} → Reachable n fl id_after s → IsOrdered s
  unfolding initial_store connect
  Reachable-IsOrdered (Reachable.starts st) = record { synced = refl; below = tt }
  Reachable-IsOrdered (Reachable.acts {s} r act) =
      let old = Reachable-IsOrdered r in
      let (synced, grows) = Act-tokens act in
      record {
        synced = synced old.synced;
        below = AreBelow-weaken s.runs (omega (arith, grows)) old.below;
      }
  Reachable-IsOrdered (Reachable.connects {s} now r) =
      let old = Reachable-IsOrdered r in
      let w = s.world in
      let st = w.store in
      let token = suc w.connect_token in
      let begun : World F = record w {
        store = record st { connect_token_ref = token };
        connect_token = token;
      } in
      let (synced, grows) = run_start-tokens now begun in
      record { synced = synced refl; below = (omega (arith, grows), old.below) }
  Reachable-IsOrdered (Reachable.resumes {s} {w} {rs} r resumed) =
      let old = Reachable-IsOrdered r in
      let (keeps, below) = Resumed-tokens resumed in
      let (synced, grows) = keeps in
      record {
        synced = synced old.synced;
        below = AreBelow-weaken rs (omega (arith, grows)) (below _ old.below);
      }

  -- No run of a list is live in a world.
  abbrev pub AreStale : World F → List (ℕ × Phase F) → Type 0
  AreStale w rs = All (λ r. is_alive r.0 w ≡ false) rs

  AreStale-other :
      (w : World F) (rs : List (ℕ × Phase F))
      → AreOther w.store.connect_token_ref rs
      → AreStale w rs
  AreStale-other w [] h = tt
  AreStale-other w ((token, ph) ∷ rs) (other, h) =
      (ground (arith, ==_iff w.store.connect_token_ref token), AreStale-other w rs h)

  -- In a reachable system that has runs, all but the newest are stale, whatever the actions, the
  -- timers and the waits were; and once the session is torn down or the licence deactivated, the
  -- newest is stale too.
  pub Reachable-AreStale :
      {s : System n fl id_after} (now : ℕ) (r : ℕ × Phase F) (rs : List (ℕ × Phase F))
      → Reachable n fl id_after s
      → s.runs ≡ r ∷ rs
      → AreStale s.world rs
        × AreStale (disconnect now s.world) (r ∷ rs)
        × AreStale (deactivate now s.world) (r ∷ rs)
  unfolding disconnect deactivate
  Reachable-AreStale {s} now (token, ph) rs reached same =
      let o = Reachable-IsOrdered reached in
      let (newest, older) = subst (AreBelow (suc s.world.connect_token)) same o.below in
      let all_older =
        AreOther-below (suc s.world.connect_token) (suc s.world.connect_token) ((token, ph) ∷ rs)
          (omega arith) (newest, older) in
      (
        AreStale-other s.world rs (
            AreOther-below token s.world.store.connect_token_ref rs (omega (arith, o.synced))
              older),
        AreStale-other (disconnect now s.world) ((token, ph) ∷ rs) all_older,
        AreStale-other (deactivate now s.world) ((token, ph) ∷ rs) all_older,
      )
