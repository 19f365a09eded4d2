-- ===== src/Dpi/Sanitize.antt =====
-- What the defensive clamp does to the features.
use vor.Common.{
  ◌⊎◌, inl, inr, Bool-cases, ℕ, zero, suc, ◌≡◌, true, false, some, List, [], ◌∷◌, map, Floats,
  OrderLaws, clamp_bounds, clamp-nan, get_elem?,
}
use vor.Dpi.{DpiFeatures, unit_clamp, features_to_array, sanitize_features}

-- A number from 0 to 1.
abbrev pub InUnit : (fl : Floats) → fl.F → Type 0
InUnit fl v =
    (fl.is_nan v ≡ false) × (fl.lt v (fl.dec 0 0) ≡ false) × (fl.lt (fl.dec 1 0) v ≡ false)

pub unit_clamp-InUnit :
    (fl : Floats) (laws : OrderLaws fl) (v : fl.F)
    → fl.is_nan v ≡ false
    → InUnit fl (unit_clamp fl v)
unfolding unit_clamp
unit_clamp-InUnit fl laws v h =
    clamp_bounds fl laws (fl.dec 0 0) (fl.dec 1 0) v (laws.dec_is_number 0 0)
      (laws.dec_is_number 1 0) laws.zero_lt_one h

unit_clamp-nan :
    (fl : Floats) (laws : OrderLaws fl) (v : fl.F)
    → fl.is_nan v ≡ true
    → unit_clamp fl v ≡ fl.not_a_number
unfolding unit_clamp
unit_clamp-nan fl laws v h = clamp-nan fl laws (fl.dec 0 0) (fl.dec 1 0) v h

get_elem?-map :
    {A B : Type 0} (f : A → B) (xs : List A) (i : ℕ) {v : A}
    → get_elem? xs i ≡ some v
    → get_elem? (map f xs) i ≡ some (f v)
get_elem?-map f [] i h = cc
get_elem?-map f (x ∷ xs) zero h = cc
get_elem?-map f (x ∷ xs) (suc i) h = get_elem?-map f xs i h

-- Each feature that is a number is brought into the range from 0 to 1; a feature that is NaN passes
-- the clamp as NaN.
pub sanitize_features-at :
    (fl : Floats) (laws : OrderLaws fl) (f : DpiFeatures fl.F) (i : ℕ) (v : fl.F)
    → get_elem? (features_to_array f) i ≡ some v
    → (w : fl.F) × (get_elem? (features_to_array (sanitize_features fl f)) i ≡ some w)
      × (((fl.is_nan v ≡ false) × InUnit fl w) ⊎ ((fl.is_nan v ≡ true) × (w ≡ fl.not_a_number)))
unfolding sanitize_features
sanitize_features-at fl laws f i v h = (
  unit_clamp fl v,
  get_elem?-map (unit_clamp fl) (features_to_array f) i h,
  elim (Bool-cases (fl.is_nan v)) [
    | inl nan ↦ inr (nan, unit_clamp-nan fl laws v nan)
    | inr number ↦ inl (number, unit_clamp-InUnit fl laws v number)
  ],
)
