-- ===== src/Tunnel/Scoring/Best.antt =====
-- The endpoint that is picked has the best score.
use vor.Common.{
  ◌≡◌, subst, Bool, true, false, some, List, [], ◌∷◌, map, arith, All, Floats, OrderLaws, Text,
  Bool-cases, inl, inr,
}
use vor.Tunnel.Scoring.Members.{
  All-insert_best, All-sort_best, sort_best-All, All-map-score, All-map-score_from, pick_best-All,
}
use vor.Tunnel.Scoring.{
  DecisionExplanation, Candidate, score_endpoint, goes_after, insert_best, sort_best, pick_best,
  first_of_list,
}

module _ (fl : Floats) (laws : OrderLaws fl) (id_after : Text → Text → Bool) where
  abbrev pub IsNumber : DecisionExplanation fl.F → Type 0
  IsNumber d = fl.is_nan d.score ≡ false

  -- `d` scores no less than `e`.
  abbrev pub NotBelow : DecisionExplanation fl.F → DecisionExplanation fl.F → Type 0
  NotBelow d e = fl.lt d.score e.score ≡ false

  -- The first of a list scores no less than any of it.
  abbrev pub IsTopped : List (DecisionExplanation fl.F) → Type 0
  IsTopped [] = Unit
  IsTopped (d ∷ ds) = All (NotBelow d) ds

  goes_after-NotBelow :
      (d e : DecisionExplanation fl.F) → goes_after fl id_after d e ≡ true → NotBelow e d
  unfolding goes_after
  goes_after-NotBelow d e h = ground (arith, laws.lt_asymm d.score e.score)

  stays-NotBelow :
      (d e : DecisionExplanation fl.F) → goes_after fl id_after d e ≡ false → NotBelow d e
  unfolding goes_after
  stays-NotBelow d e h = ground arith

  NotBelow-All :
      (d e : DecisionExplanation fl.F) (es : List (DecisionExplanation fl.F))
      → IsNumber e
      → NotBelow d e
      → All (NotBelow e) es
      → All (NotBelow d) es
  NotBelow-All d e [] k p h = tt
  NotBelow-All d e (f ∷ es) k p (q, h) =
      (laws.not_lt_trans d.score e.score f.score k p q, NotBelow-All d e es k p h)

  IsTopped-insert_best :
      (d : DecisionExplanation fl.F) (es : List (DecisionExplanation fl.F))
      → All IsNumber es
      → IsTopped es
      → IsTopped (insert_best fl id_after d es)
  unfolding insert_best
  IsTopped-insert_best d [] k h = tt
  IsTopped-insert_best d (e ∷ es) (number, k) h = elim (Bool-cases (goes_after fl id_after d e)) [
    | inl after ↦
        rw after (All-insert_best fl id_after (NotBelow e) d es (goes_after-NotBelow d e after) h)
    | inr before ↦
        rw before
          (stays-NotBelow d e before, NotBelow-All d e es number (stays-NotBelow d e before) h)
  ]

  IsTopped-sort_best :
      (ds : List (DecisionExplanation fl.F)) → All IsNumber ds → IsTopped (sort_best fl id_after ds)
  unfolding sort_best
  IsTopped-sort_best [] k = tt
  IsTopped-sort_best (d ∷ ds) (number, k) =
      IsTopped-insert_best d (sort_best fl id_after ds) (All-sort_best fl id_after IsNumber ds k)
        (IsTopped-sort_best ds k)

  top_NotBelow :
      (ds : List (DecisionExplanation fl.F)) (best : DecisionExplanation fl.F)
      → IsTopped ds
      → first_of_list fl ds ≡ some best
      → All (NotBelow best) ds
  top_NotBelow [] best h e = tt
  top_NotBelow (d ∷ ds) best h e =
      let same : d ≡ best = cc in
      subst (λ b. All (NotBelow b) (d ∷ ds)) same (laws.lt_irrefl d.score, h)

  -- Where no candidate's score is NaN, the pick scores no less than any candidate, and what holds of
  -- every candidate's explanation holds of the pick.
  pub pick_best-is_best :
      (cs : List (Candidate fl)) (best : DecisionExplanation fl.F)
      (P : DecisionExplanation fl.F → Type 0)
      → All (λ c. IsNumber (score_endpoint fl c.health c.transport)) cs
      → All (λ c. P (score_endpoint fl c.health c.transport)) cs
      → pick_best fl id_after cs ≡ some best
      → All (λ c. NotBelow best (score_endpoint fl c.health c.transport)) cs × P best
  unfolding pick_best
  pick_best-is_best cs best P numbers h e =
      let scored = map (λ c. score_endpoint fl c.health c.transport) cs in
      let topped = IsTopped-sort_best scored (All-map-score_from fl id_after IsNumber cs numbers) in
      (
        All-map-score fl id_after (NotBelow best) cs (
            sort_best-All fl id_after (NotBelow best) scored
              (top_NotBelow (sort_best fl id_after scored) best topped e)),
        pick_best-All fl id_after P cs best h e,
      )
