-- ===== src/Store/Connect/Selection.antt =====
-- Which endpoint an attempt dials in a blackout.
use vor.Common.{
  ℕ, suc, ◌≡◌, refl, inl, inr, Bool, true, Option, none, some, List, [], ◌∷◌, Text, arith, All, Any,
  filter, Bool-cases, Floats, ◌∙◌,
}
use vor.Dpi.{Scenario}
use vor.Tunnel.{EndpointHealth, ws_tls_cdn}
use vor.Tunnel.Scoring.{DecisionExplanation, score_endpoint}
use vor.Tunnel.Scoring.Members.{pick_best-All}
use vor.Store.{World}
use vor.Store.Connect.{dial, number_candidates, candidates, dial_best, select}

module _ {F : Type 0} where
  filter-All :
      (p : EndpointHealth F → Bool) (P : EndpointHealth F → Type 0) (es : List (EndpointHealth F))
      → All P es
      → All (λ e. (p e ≡ true) × P e) (filter p es)
  filter-All p P [] h = tt
  filter-All p P (e ∷ es) (q, h) = elim (Bool-cases (p e)) [
    | inl holds ↦ rw holds ((holds, q), filter-All p P es h)
    | inr fails ↦ rw fails (filter-All p P es h)
  ]

  All-map :
      (P Q : EndpointHealth F → Type 0) (es : List (EndpointHealth F))
      → ((e : EndpointHealth F) → P e → Q e)
      → All P es
      → All Q es
  All-map P Q [] f h = tt
  All-map P Q (e ∷ es) f (p, h) = (f e p, All-map P Q es f h)

  members : (es : List (EndpointHealth F)) → All (λ e. Any (λ x. x ≡ e) es) es
  members [] = tt
  members (e ∷ es) = (
    inl refl,
    All-map (λ x. Any (λ y. y ≡ x) es) (λ x. Any (λ y. y ≡ x) (e ∷ es)) es (λ x h. inr h)
        (members es),
  )

  -- The endpoint is among those of the list, and CDN-routed.
  abbrev pub IsCdnOf : List (EndpointHealth F) → EndpointHealth F → Type 0
  IsCdnOf es e = (e.cdn_routed ≡ true) × Any (λ x. x ≡ e) es

  -- An explanation of a CDN-routed endpoint of the list, over the CDN transport.
  abbrev pub IsCdnChoice : List (EndpointHealth F) → DecisionExplanation F → Type 0
  IsCdnChoice es d =
      (d.transport ≡ ws_tls_cdn)
      × ((e : EndpointHealth F) × (d.endpoint_id ≡ e.endpoint_id) × IsCdnOf es e)

module _ (fl : Floats) (id_after : Text → Text → Bool) where
  open fl use {F}

  number_candidates-All :
      (i : ℕ) (all es : List (EndpointHealth F))
      → All (IsCdnOf all) es
      → All
          (λ c. IsCdnChoice all (score_endpoint fl c.health c.transport))
          (number_candidates fl id_after true i es)
  unfolding score_endpoint
  number_candidates-All i all [] h = tt
  number_candidates-All i all (e ∷ es) (p, h) =
      ((refl, (e, refl, p)), number_candidates-All (suc i) all es h)

  candidates-All :
      (es : List (EndpointHealth F))
      → All
          (λ c. IsCdnChoice es (score_endpoint fl c.health c.transport))
          (candidates fl id_after Scenario.blackout es)
  unfolding candidates
  candidates-All es =
      number_candidates-All 0 es (filter (λ e. e.cdn_routed) es)
        (filter-All (λ e. e.cdn_routed) (λ e. Any (λ x. x ≡ e) es) es (members es))

  dial_best-chosen :
      (now k : ℕ) (o : Option (DecisionExplanation F)) (sc : Scenario) (w : World F)
      (best : DecisionExplanation F)
      → (dial_best fl id_after now k o sc w).1 ≡ dial k best sc
      → (o ≡ some best) × ((dial_best fl id_after now k o sc w).0.store.transport ≡ best.transport)
  unfolding dial_best
  dial_best-chosen now k none sc w best h = cc
  dial_best-chosen now k (some d) sc w best h = ground arith

  -- In a blackout an attempt that dials an endpoint dials one that is CDN-routed and among the
  -- store's, over the CDN transport, which becomes the store's.
  pub select-blackout :
      (now k : ℕ) (w : World F) (best : DecisionExplanation F)
      → w.store.scenario ≡ Scenario.blackout
      → (select fl id_after now k w).1 ≡ dial k best w.store.scenario
      → IsCdnChoice w.store.endpoints best
        × ((select fl id_after now k w).0.store.transport ≡ ws_tls_cdn)
  unfolding select
  select-blackout now k w best blackout h =
      let (picked, shown) = dial_best-chosen now k _ w.store.scenario _ best h in
      let chosen =
        pick_best-All fl id_after (IsCdnChoice w.store.endpoints)
          (candidates fl id_after Scenario.blackout w.store.endpoints) best
          (candidates-All w.store.endpoints) (rw blackout at picked) in
      (chosen, shown ∙ chosen.0)
