-- ===== src/Common/Doubles.antt =====
-- IEEE doubles as the code uses them: the type and its operations are a parameter, with what the
-- language says of comparisons. `dec n d` is the literal n · 10^-d.
use Prim.Native.Nat.{ℕ}
use mathlib.Core.Path.{◌≡◌}
use mathlib.Core.Bool.{Bool, true, false, ◌||◌}
use native.Mathlib.Omega.{arith}
use vor.Common.Tests.{if◌then◌else◌}

pub record Floats : Type 1 where
  pub F : Type 0
  pub dec : ℕ → ℕ → F
  pub add : F → F → F
  pub sub : F → F → F
  pub mul : F → F → F
  pub div : F → F → F
  pub abs : F → F
  pub exp : F → F
  -- `Math.round`
  pub round : F → F
  pub not_a_number : F
  pub is_nan : F → Bool
  pub lt : F → F → Bool

-- Comparisons with NaN are false, and `<` is irreflexive, asymmetric and transitive.
pub record OrderLaws (fl : Floats) : Type 0 where
  pub nan_is_nan : fl.is_nan fl.not_a_number ≡ true
  pub dec_is_number : (n d : ℕ) → fl.is_nan (fl.dec n d) ≡ false
  pub lt_irrefl : (a : fl.F) → fl.lt a a ≡ false
  pub lt_asymm : (a b : fl.F) → fl.lt a b ≡ true → fl.lt b a ≡ false
  pub lt_trans : (a b c : fl.F) → fl.lt a b ≡ true → fl.lt b c ≡ true → fl.lt a c ≡ true
  pub not_lt_trans :
      (a b c : fl.F)
      → fl.is_nan b ≡ false
      → fl.lt a b ≡ false
      → fl.lt b c ≡ false
      → fl.lt a c ≡ false
  pub zero_lt_one : fl.lt (fl.dec 0 0) (fl.dec 1 0) ≡ true
  pub zero_lt_hundred : fl.lt (fl.dec 0 0) (fl.dec 100 0) ≡ true

module _ (fl : Floats) where
  open fl use {F, is_nan, not_a_number, lt, dec}

  -- `Math.max` and `Math.min` of two numbers
  unfoldable pub fmax : F → F → F
  fmax a b = if is_nan a || is_nan b then not_a_number else if lt a b then b else a

  unfoldable pub fmin : F → F → F
  fmin a b = if is_nan a || is_nan b then not_a_number else if lt b a then b else a

  -- `Math.min(hi, Math.max(lo, x))`
  unfoldable pub clamp : F → F → F → F
  unfolding fmax fmin
  clamp lo hi x = fmin hi (fmax lo x)

  -- A clamped number lies in its range; only a NaN stays outside, as NaN.
  pub clamp_bounds :
      OrderLaws fl
      → (lo hi x : F) → is_nan lo ≡ false
      → is_nan hi ≡ false
      → lt lo hi ≡ true
      → is_nan x ≡ false
      → (is_nan (clamp lo hi x) ≡ false)
        × (lt (clamp lo hi x) lo ≡ false)
        × (lt hi (clamp lo hi x) ≡ false)
  unfolding clamp
  clamp_bounds laws lo hi x nlo nhi ord nx = ground (
    arith,
    laws.lt_irrefl lo,
    laws.lt_irrefl hi,
    laws.lt_asymm lo hi,
    laws.lt_asymm lo x,
    laws.lt_asymm x hi,
    laws.lt_asymm hi x,
  )

  pub clamp-nan : OrderLaws fl → (lo hi x : F) → is_nan x ≡ true → clamp lo hi x ≡ not_a_number
  unfolding clamp
  clamp-nan laws lo hi x nx = ground (arith, laws.nan_is_nan)
