-- ===== src/Dependencies/Coverage.antt =====
-- The resolved curves against the product and the configuration.
use price_streaming.Prelude.{
  ==_iff, All, All-append, Bool-cases, List, Outcome, Outcome-cases, String, String_eq, [], add,
  arith, elem, elem-add, inl, inr, ok, refl, true, ◌∷◌, ◌≡◌, ◌⊎◌,
}
use price_streaming.Rates.{
  FloatingRateIndex, RateSpecification, fixed, floating, InterestRatePayout, InterestRateSwap,
}
use price_streaming.Product.{Decimal}
use price_streaming.Curve.{CurveId, MarketCurve}
use price_streaming.Dependencies.{
  MarketConfiguration, ProjectionCurve, PricingDependencies, find_projection, projection_curve_for,
  collect_onto, collect_floating_rate_indices, projection_curve, projections, resolve,
}

-- Each floating payout satisfies a predicate of its index.
abbrev pub OnIndex : (FloatingRateIndex → Type 0) → InterestRatePayout → Type 0
OnIndex P p = elim p.rate_specification [ fixed rate ↦ Unit | floating index spread ↦ P index ]

pub rate-cases :
    (r : RateSpecification)
    → ((rate : Decimal) × (r ≡ fixed rate))
      ⊎ ((index : FloatingRateIndex) × (spread : Decimal) × (r ≡ floating index spread))
rate-cases (fixed rate) = inl (rate, refl)
rate-cases (floating index spread) = inr (index, spread, refl)

All-add : (P : String → Type 0) (i : String) (xs : List String) → P i → All P xs → All P (add i xs)
All-add P i xs h hs = elim (Bool-cases (elem i xs)) [
  | inl there ↦ rw there hs
  | inr new ↦ rw new (All-append P xs (i ∷ []) hs (h, tt))
]

All-collect_onto :
    (P : FloatingRateIndex → Type 0) (ps : List InterestRatePayout) (is : List FloatingRateIndex)
    → All (OnIndex P) ps
    → All P is
    → All P (collect_onto ps is)
unfolding collect_onto
All-collect_onto P [] is h hs = hs
All-collect_onto P (p ∷ ps) is h hs = elim (rate-cases p.rate_specification) [
  | inl (rate, e) ↦ rw (collect_onto, e) (All-collect_onto P ps is h.1 hs)
  | inr (index, spread, e) ↦
      rw (collect_onto, e)
        (All-collect_onto P ps (add index is) h.1 (All-add P index is (rw e at h.0) hs))
]

-- The indices that are collected: those of the floating payouts, each once.
elem-collect_onto :
    (i : FloatingRateIndex) (ps : List InterestRatePayout) (is : List FloatingRateIndex)
    → elem i is ≡ true
    → elem i (collect_onto ps is) ≡ true
unfolding collect_onto
elem-collect_onto i [] is h = h
elem-collect_onto i (p ∷ ps) is h = elim (rate-cases p.rate_specification) [
  | inl (rate, e) ↦ rw (collect_onto, e) (elem-collect_onto i ps is h)
  | inr (index, spread, e) ↦
      rw (collect_onto, e)
        (elem-collect_onto i ps (add index is) (ground (arith, elem-add i index is, h)))
]

-- The index of every floating payout is collected.
collected :
    (ps : List InterestRatePayout) (is every : List FloatingRateIndex)
    → collect_onto ps is ≡ every
    → All (OnIndex (λ i. elem i every ≡ true)) ps
unfolding collect_onto
collected [] is every h = tt
collected (p ∷ ps) is every h = elim (rate-cases p.rate_specification) [
  | inl (rate, e) ↦ (rw e tt, collected ps is every (rw (collect_onto, e) at h))
  | inr (index, spread, e) ↦
      let h' : collect_onto ps (add index is) ≡ every = rw (collect_onto, e) at h in
      let there : elem index (collect_onto ps (add index is)) ≡ true =
        elem-collect_onto index ps (add index is)
          (ground (arith, elem-add index index is, ==_iff index index)) in
      (rw e (rw h' at there), collected ps (add index is) every h')
]

module _ (get : CurveId → Outcome MarketCurve) (market : MarketConfiguration) where
  find-projections :
      (is : List FloatingRateIndex) (ps : List ProjectionCurve) (i : FloatingRateIndex)
      → projections get market is ≡ ok ps
      → elem i is ≡ true
      → find_projection i ps ≡ projection_curve get market i
  unfolding projections find_projection
  find-projections [] ps i h m = absurd (cc m)
  find-projections (j ∷ is) ps i h m = elim (Outcome-cases (projection_curve get market j)) [
    | inr (x, bad) ↦ absurd (cc (rw bad at h))
    | inl (c, got) ↦ elim (Outcome-cases (projections get market is)) [
      | inr (x, bad) ↦ absurd (cc (rw (got, bad) at h))
      | inl (more, rest) ↦
          let e : ok (record { floating_rate_index = j; curve = c } ∷ more) ≡ ok ps =
            rw (got, rest) at h in
          let e' : record { floating_rate_index = j; curve = c } ∷ more ≡ ps = cc e in
          rw (← e') (ground (arith, find-projections is more i rest, m, got, ==_iff j i))
    ]
  ]

  All-OnIndex :
      (P Q : FloatingRateIndex → Type 0) (ps : List InterestRatePayout)
      → ((i : FloatingRateIndex) → P i → Q i)
      → All (OnIndex P) ps
      → All (OnIndex Q) ps
  All-OnIndex P Q [] f h = tt
  All-OnIndex P Q (p ∷ ps) f h = elim (rate-cases p.rate_specification) [
    | inl (rate, e) ↦ (rw e tt, All-OnIndex P Q ps f h.1)
    | inr (index, spread, e) ↦ (rw e (f index (rw e at h.0)), All-OnIndex P Q ps f h.1)
  ]

  -- When a product's dependencies are resolved, the discount curve is the configured one, and the
  -- dependencies give for the index of every floating payout the curve that the configuration
  -- names for that index.
  pub resolve_lem :
      (product : InterestRateSwap) (d : PricingDependencies)
      → resolve get market product ≡ ok d
      → (get market.discount_curve_id ≡ ok d.discount_curve)
        × All (OnIndex (λ i. projection_curve_for d i ≡ projection_curve get market i)) product
  unfolding resolve projection_curve_for collect_floating_rate_indices
  resolve_lem product d h = elim (Outcome-cases (get market.discount_curve_id)) [
    | inr (x, bad) ↦ absurd (cc (rw bad at h))
    | inl (c, got) ↦ elim (Outcome-cases (projections get market (collect_onto product []))) [
      | inr (x, bad) ↦ absurd (cc (rw (got, bad) at h))
      | inl (ps, found) ↦
          let e : ok (record { discount_curve = c; projection_curves = ps }) ≡ ok d =
            rw (got, found) at h in
          let e' : record { discount_curve = c; projection_curves = ps } ≡ d = cc e in
          rw (← e') (
            got,
            All-OnIndex _ _ product (λ i m. find-projections (collect_onto product []) ps i found m)
                (collected product [] (collect_onto product []) refl),
          )
    ]
  ]

  abbrev pub IsAvailable : FloatingRateIndex → Type 0
  IsAvailable i = (c : MarketCurve) × (projection_curve get market i ≡ ok c)

  projections_ok :
      (is : List FloatingRateIndex)
      → All IsAvailable is
      → (ps : List ProjectionCurve) × (projections get market is ≡ ok ps)
  unfolding projections
  projections_ok [] h = ([], refl)
  projections_ok (i ∷ is) h =
      let (ps, e) = projections_ok is h.1 in
      (record { floating_rate_index = i; curve = h.0.0 } ∷ ps, rw (h.0.1, e))

  -- If the discount curve and, for the index of every floating payout, a configured curve are there,
  -- then the resolution succeeds.
  pub resolve_ok :
      (product : InterestRateSwap) (c : MarketCurve)
      → get market.discount_curve_id ≡ ok c
      → All (OnIndex IsAvailable) product
      → (d : PricingDependencies) × (resolve get market product ≡ ok d)
  unfolding resolve collect_floating_rate_indices
  resolve_ok product c got h =
      let (ps, e) =
        projections_ok (collect_onto product []) (All-collect_onto IsAvailable product [] h tt) in
      (record { discount_curve = c; projection_curves = ps }, rw (got, e))
