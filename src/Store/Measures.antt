-- ===== src/Store/Measures.antt =====
-- The active countermeasures after a plan is applied, or one is toggled.
use vor.Common.{
  ℕ, ◌≡◌, refl, true, false, ◌||◌, not, some, List, [], ◌∷◌, ◌++◌, map, filter, arith,
  if◌then◌else◌, Bool-cases, inl, inr, Text, text_eq, text_eq_iff, includes,
}
use vor.Dpi.Plans.{CountermeasurePlan, kind_of}
use vor.Store.{World}
use vor.Store.Actions.{distinct, toggle_cm, apply_actions, apply_plan}

includes-append :
    (xs ys : List Text) (t : Text) → includes (xs ++ ys) t ≡ (includes xs t || includes ys t)
unfolding includes
includes-append [] ys t = refl
includes-append (x ∷ xs) ys t = ground (arith, includes-append xs ys t)

includes-distinct :
    (seen ks : List Text) (t : Text)
    → (includes (distinct seen ks) t || includes seen t) ≡ (includes ks t || includes seen t)
unfolding includes distinct
includes-distinct seen [] t = refl
includes-distinct seen (k ∷ ks) t = elim (Bool-cases (includes seen k)) [
  | inl old ↦
      rw (old, distinct) (ground (arith, includes-distinct seen ks t, text_eq_iff k t, old_too old))
  | inr new ↦ rw (new, distinct) (ground (arith, includes-distinct (k ∷ seen) ks t))
]
  where
    old_too : includes seen k ≡ true → text_eq k t ≡ true → includes seen t ≡ true
    old_too old same = rw ((text_eq_iff k t).0 same) at old

includes-filter :
    (xs : List Text) (k t : Text)
    → includes (filter (λ x. not (text_eq x k)) xs) t
      ≡ (if text_eq k t then false else includes xs t)
unfolding includes
includes-filter [] k t = ground arith
includes-filter (x ∷ xs) k t =
    ground (arith, includes-filter xs k t, text_eq_iff k t, text_eq_iff x k, text_eq_iff x t)

module _ {F : Type 0} where
  -- After a plan is applied the active countermeasures are those that were active and those of the
  -- plan's actions.
  pub apply_plan-includes :
      (now : ℕ) (w : World F) (plan : CountermeasurePlan) (t : Text)
      → w.store.plan ≡ some plan
      → includes (apply_plan now w).store.active_cms t
        ≡ (includes w.store.active_cms t || includes (map kind_of plan.actions) t)
  unfolding apply_plan apply_actions
  apply_plan-includes now w plan t planned =
      let all = w.store.active_cms ++ map kind_of plan.actions in
      rw planned (
        ground (
          arith,
          includes-distinct [] all t,
          includes-append w.store.active_cms (map kind_of plan.actions) t,
        ))

  -- A toggle turns its countermeasure on if it was off and off if it was on, and leaves the others.
  pub toggle_cm-includes :
      (now : ℕ) (kind : Text) (w : World F) (t : Text)
      → includes (toggle_cm now kind w).store.active_cms t ≡ (
          if text_eq kind t
          then not (includes w.store.active_cms kind)
          else includes w.store.active_cms t)
  unfolding toggle_cm
  toggle_cm-includes now kind w t =
      let cms = w.store.active_cms in
      elim (Bool-cases (includes cms kind)) [
        | inl on ↦ rw on (includes-filter cms kind t)
        | inr off ↦ rw (off, includes-append cms (kind ∷ []) t) (ground (arith, text_eq_iff kind t))
      ]
