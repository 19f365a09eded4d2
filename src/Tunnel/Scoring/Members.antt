-- ===== src/Tunnel/Scoring/Members.antt =====
-- What holds of all endpoints holds of the sorted ones, and the other way round.
use vor.Common.{◌≡◌, subst, Bool, some, List, [], ◌∷◌, map, All, Floats, Text, Bool-cases, inl, inr}
use vor.Tunnel.Scoring.{
  DecisionExplanation, Candidate, score_endpoint, goes_after, insert_best, sort_best, pick_best,
  first_of_list,
}

module _ (fl : Floats) (id_after : Text → Text → Bool) where
  module _ (P : DecisionExplanation fl.F → Type 0) where
    pub All-insert_best :
        (d : DecisionExplanation fl.F) (es : List (DecisionExplanation fl.F))
        → P d
        → All P es
        → All P (insert_best fl id_after d es)
    unfolding insert_best
    All-insert_best d [] p h = (p, tt)
    All-insert_best d (e ∷ es) p (q, h) = elim (Bool-cases (goes_after fl id_after d e)) [
      | inl after ↦ rw after (q, All-insert_best d es p h)
      | inr before ↦ rw before (p, (q, h))
    ]

    pub All-sort_best :
        (ds : List (DecisionExplanation fl.F)) → All P ds → All P (sort_best fl id_after ds)
    unfolding sort_best
    All-sort_best [] h = tt
    All-sort_best (d ∷ ds) (p, h) =
        All-insert_best d (sort_best fl id_after ds) p (All-sort_best ds h)

    pub insert_best-All :
        (d : DecisionExplanation fl.F) (es : List (DecisionExplanation fl.F))
        → All P (insert_best fl id_after d es)
        → P d × All P es
    unfolding insert_best
    insert_best-All d [] h = h
    insert_best-All d (e ∷ es) h = elim (Bool-cases (goes_after fl id_after d e)) [
      | inl after ↦
          let (q, rest) = rw (after, insert_best) at h in
          let (p, k) = insert_best-All d es rest in (p, (q, k))
      | inr before ↦ rw (before, insert_best) at h
    ]

    pub sort_best-All :
        (ds : List (DecisionExplanation fl.F)) → All P (sort_best fl id_after ds) → All P ds
    unfolding sort_best
    sort_best-All [] h = tt
    sort_best-All (d ∷ ds) h =
        let (p, k) = insert_best-All d (sort_best fl id_after ds) h in (p, sort_best-All ds k)

    pub All-map-score :
        (cs : List (Candidate fl))
        → All P (map (λ c. score_endpoint fl c.health c.transport) cs)
        → All (λ c. P (score_endpoint fl c.health c.transport)) cs
    All-map-score [] h = tt
    All-map-score (c ∷ cs) (p, h) = (p, All-map-score cs h)

    pub All-map-score_from :
        (cs : List (Candidate fl))
        → All (λ c. P (score_endpoint fl c.health c.transport)) cs
        → All P (map (λ c. score_endpoint fl c.health c.transport) cs)
    All-map-score_from [] h = tt
    All-map-score_from (c ∷ cs) (p, h) = (p, All-map-score_from cs h)

  pub first_All :
      (P : DecisionExplanation fl.F → Type 0) (ds : List (DecisionExplanation fl.F))
      (best : DecisionExplanation fl.F)
      → All P ds
      → first_of_list fl ds ≡ some best
      → P best
  first_All P [] best h e = cc
  first_All P (d ∷ ds) best (p, h) e = let same : d ≡ best = cc in subst P same p

  -- What holds of every candidate's explanation holds of the pick.
  pub pick_best-All :
      (P : DecisionExplanation fl.F → Type 0) (cs : List (Candidate fl))
      (best : DecisionExplanation fl.F)
      → All (λ c. P (score_endpoint fl c.health c.transport)) cs
      → pick_best fl id_after cs ≡ some best
      → P best
  unfolding pick_best
  pick_best-All P cs best h e =
      first_All P (sort_best fl id_after (map (λ c. score_endpoint fl c.health c.transport) cs))
        best (All-sort_best P _ (All-map-score_from P cs h)) e
