-- ===== src/Dpi/Model/Argmax.antt =====
-- The class of a verdict is the most probable one.
use vor.Common.{◌≡◌, refl, ap, subst, false, some, none, Option, List, arith, Floats, OrderLaws}
use vor.Dpi.{DpiFeatures}
use vor.Dpi.Model.{
  ModelManifest, DpiVerdict, best_of, prob_at, class_at, classify, verdict_of, softmax_list,
  verdict_from, logits_of,
}

-- No one of three probabilities is above the one at the chosen index.
best_of_max :
    (fl : Floats) (laws : OrderLaws fl) (p0 p1 p2 : fl.F)
    → let best = prob_at fl (best_of fl (p0, p1, p2)) (p0, p1, p2) in
      (fl.lt best p0 ≡ false) × (fl.lt best p1 ≡ false) × (fl.lt best p2 ≡ false)
unfolding best_of
best_of_max fl laws p0 p1 p2 = ground (
  arith,
  laws.lt_irrefl p0,
  laws.lt_irrefl p1,
  laws.lt_irrefl p2,
  laws.lt_asymm p0 p1,
  laws.lt_asymm p0 p2,
  laws.lt_asymm p1 p2,
  laws.lt_trans p0 p1 p2,
  laws.lt_trans p0 p2 p1,
)

verdict_from-verdict_of :
    (fl : Floats) (model : ModelManifest fl.F) (logits : Option (List fl.F)) (v : DpiVerdict fl.F)
    → verdict_from fl model logits ≡ some v
    → v ≡ verdict_of fl model v.probs
verdict_from-verdict_of fl model none v h = cc
verdict_from-verdict_of fl model (some logits) v h =
    let same : verdict_of fl model (softmax_list fl logits) ≡ v = cc in
    subst (λ w. w ≡ verdict_of fl model w.probs) same refl

-- The confidence of a verdict is that of its three probabilities at the chosen place, and no one of
-- them is above it, also where some are NaN; its class is the model's class at that place.
pub classify-best :
    (fl : Floats) (laws : OrderLaws fl) (model : ModelManifest fl.F) (raw : DpiFeatures fl.F)
    (v : DpiVerdict fl.F)
    → classify fl model raw ≡ some v
    → (v.class ≡ class_at (best_of fl v.probs) model.classes)
      × (v.confidence ≡ prob_at fl (best_of fl v.probs) v.probs)
      × (fl.lt v.confidence v.probs.0 ≡ false)
      × (fl.lt v.confidence v.probs.1 ≡ false)
      × (fl.lt v.confidence v.probs.2 ≡ false)
unfolding classify
classify-best fl laws model raw v h =
    let same = verdict_from-verdict_of fl model (logits_of fl model.weights raw) v h in
    let (a, b, c) = best_of_max fl laws v.probs.0 v.probs.1 v.probs.2 in
    let chosen : v.confidence ≡ prob_at fl (best_of fl v.probs) v.probs =
      ap (λ w. w.confidence) same in
    (ap (λ w. w.class) same, chosen, rw chosen a, rw chosen b, rw chosen c)
