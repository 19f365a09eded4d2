-- ===== src/Dpi/Model.antt =====
-- Inference, `classify` of dpi.ts: 8 → 16 (ReLU) → 8 (ReLU) → 3 (softmax). An array read out of range
-- gives `undefined`, which arithmetic turns into NaN, and a missing row is a TypeError (`none`).
pub mod Argmax
use vor.Common.{
  ℕ, zero, suc, Bool, true, false, Option, none, some, List, [], ◌∷◌, if◌then◌else◌, Text, Floats,
  fmax,
}
use vor.Dpi.{DpiFeatures, DpiClass, benign, sanitize_features, features_to_array}

pub record Weights (F : Type 0) : Type 0 where
  pub w1 : List (List F)
  pub b1 : List F
  pub w2 : List (List F)
  pub b2 : List F
  pub w3 : List (List F)
  pub b3 : List F

-- What the code reads of the manifest.
pub record ModelManifest (F : Type 0) : Type 0 where
  pub version : Text
  pub classes : List DpiClass
  pub val_accuracy : F
  pub weights : Weights F

pub record DpiVerdict (F : Type 0) : Type 0 where
  pub class : DpiClass
  pub confidence : F
  pub probs : F × F × F
  pub model_version : Text
  pub train_accuracy : F

abbrev pub rest_of {ℓ} : {A : Type ℓ} → List A → List A
rest_of [] = []
rest_of (x ∷ xs) = xs

abbrev pub class_at : ℕ → List DpiClass → DpiClass
class_at i [] = benign
class_at zero (c ∷ cs) = c
class_at (suc i) (c ∷ cs) = class_at i cs

infixl 5 ◌>>=◌
abbrev ◌>>=◌ {ℓ κ} : {A : Type ℓ} {B : Type κ} → Option A → (A → Option B) → Option B
none >>= k = none
some a >>= k = k a

module _ (fl : Floats) where
  open fl use {F, dec, add, sub, mul, div, exp, lt, not_a_number}

  abbrev pub first_or_nan : List F → F
  first_or_nan [] = not_a_number
  first_or_nan (x ∷ xs) = x

  -- `for (j …) acc += row[j] * x[j]`, with the rounds left
  unfoldable pub dot : ℕ → F → List F → List F → F
  dot zero acc row x = acc
  dot (suc n) acc row x =
      dot n (add acc (mul (first_or_nan row) (first_or_nan x))) (rest_of row) (rest_of x)

  abbrev pub relu : F → F
  relu acc = if lt (dec 0 0) acc then acc else dec 0 0

  -- The outer loop, with the rounds left and those of the inner loop.
  unfoldable pub layer : ℕ → ℕ → (F → F) → List (List F) → List F → List F → Option (List F)
  unfolding dot
  layer zero cols act ws bs x = some []
  layer (suc n) cols act [] bs x = none
  layer (suc n) cols act (row ∷ ws) bs x = do
    rest ← layer n cols act ws (rest_of bs) x
    some (act (dot cols (first_or_nan bs) row x) ∷ rest)

  -- `best` after the loop over the classes 1 and 2
  unfoldable pub best_of : F × F × F → ℕ
  best_of (p0, p1, p2) = if lt p0 p1 then (if lt p1 p2 then 2 else 1) else if lt p0 p2 then 2 else 0

  abbrev pub prob_at : ℕ → F × F × F → F
  prob_at zero (p0, p1, p2) = p0
  prob_at (suc zero) (p0, p1, p2) = p1
  prob_at (suc (suc i)) (p0, p1, p2) = p2

  -- The numerically stable softmax of three logits.
  unfoldable pub softmax : F → F → F → F × F × F
  unfolding fmax
  softmax l0 l1 l2 =
      let most = fmax fl (fmax fl l0 l1) l2 in
      let e0 = exp (sub l0 most) in
      let e1 = exp (sub l1 most) in
      let e2 = exp (sub l2 most) in
      let sum = add (add (add (dec 0 0) e0) e1) e2 in (div e0 sum, div e1 sum, div e2 sum)

  abbrev pub verdict_of : ModelManifest F → F × F × F → DpiVerdict F
  verdict_of model probs = record {
    class = class_at (best_of probs) model.classes;
    confidence = prob_at (best_of probs) probs;
    probs = probs;
    model_version = model.version;
    train_accuracy = model.val_accuracy;
  }

  abbrev pub softmax_list : List F → F × F × F
  softmax_list (l0 ∷ l1 ∷ l2 ∷ ls) = softmax l0 l1 l2
  softmax_list _ = (not_a_number, not_a_number, not_a_number)

  -- The three layers.
  unfoldable pub logits_of : Weights F → DpiFeatures F → Option (List F)
  unfolding layer sanitize_features
  logits_of w raw = do
    h1 ← layer 16 8 relu w.w1 w.b1 (features_to_array (sanitize_features fl raw))
    h2 ← layer 8 16 relu w.w2 w.b2 h1
    layer 3 8 (λ acc. acc) w.w3 w.b3 h2

  abbrev pub verdict_from : ModelManifest F → Option (List F) → Option (DpiVerdict F)
  verdict_from model none = none
  verdict_from model (some logits) = some (verdict_of model (softmax_list logits))

  unfoldable pub classify : ModelManifest F → DpiFeatures F → Option (DpiVerdict F)
  unfolding logits_of best_of softmax
  classify model raw = verdict_from model (logits_of model.weights raw)
