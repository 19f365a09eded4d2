-- ===== src/Store/System/Booting.antt =====
-- What the steps of `boot` keep.
use vor.Common.{ℕ, refl, arith, Option, none, some, Floats}
use vor.Dpi.Model.{ModelManifest}
use vor.Store.{World}
use vor.Store.Actions.{refresh_verdict, or_before}
use vor.Store.Boot.{boot_start, fail_model, refreshed_or_failed, take_model, load_model}
use vor.Store.System.Effects.{Steady, Steady-compose, refresh_verdict-Steady}

module _ {F : Type 0} where
  pub boot_start-Steady : (now : ℕ) (w : World F) → Steady w (boot_start now w)
  unfolding boot_start
  boot_start-Steady now w = record { synced = λ h. h; grows = omega arith; licence = refl }

  fail_model-Steady : (now : ℕ) (w : World F) → Steady w (fail_model now w)
  unfolding fail_model
  fail_model-Steady now w = record { synced = λ h. h; grows = omega arith; licence = refl }

module _ (fl : Floats) where
  open fl use {F}

  take_model-Steady :
      (now : ℕ) (m : ModelManifest F) (w : World F) → Steady w (take_model fl now m w)
  unfolding vor.Store.log_event
  take_model-Steady now m w = record { synced = λ h. h; grows = omega arith; licence = refl }

  refreshed-Steady :
      (now : ℕ) (w : World F) (o : Option (World F))
      → Steady w (or_before fl w o)
      → Steady w (refreshed_or_failed fl now w o)
  refreshed-Steady now w none h = fail_model-Steady now w
  refreshed-Steady now w (some w') h = h

  pub load_model-Steady :
      (now : ℕ) (model : Option (ModelManifest F)) (w : World F)
      → Steady w (load_model fl now model w)
  unfolding load_model
  load_model-Steady now none w = fail_model-Steady now w
  load_model-Steady now (some m) w =
      let taken = take_model fl now m w in
      Steady-compose
        (refreshed-Steady now taken (refresh_verdict fl now taken)
          (refresh_verdict-Steady fl now taken))
        (take_model-Steady now m w)
