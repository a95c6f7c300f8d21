-- ===== src/Curve/Shape.antt =====
-- What the checks of a market curve and of a quote snapshot let through.
use price_streaming.Prelude.{
  IsIncreasing, List, Outcome-cases, [], arith, inl, inr, ok, refl, sorted-distinct_iff, sym, true,
  ℕ_eq, ◌↔◌, ◌∙◌, ◌∷◌, ◌≡◌,
}
use price_streaming.Product.{Date}
use price_streaming.Rates.{decimal_eq}
use price_streaming.Curve.{
  DateTime, CurveId, CurveNode, CurveInterpolation, Tenor_eq, one, dates, check_nodes,
  make_market_curve,
}

-- The nodes of a curve: the first at the reference date with factor 1, each later one at a date
-- above that of the one before it.
abbrev pub IsTermStructure : Date → List CurveNode → Type 0
IsTermStructure reference [] = ⊥
IsTermStructure reference (n ∷ ns) =
    (n.pillar_date ≡ reference)
    × (decimal_eq n.discount_factor one ≡ true)
    × IsIncreasing n.pillar_date (dates ns)

check_nodes-IsTermStructure :
    (reference : Date) (ns : List CurveNode)
    → (check_nodes reference ns ≡ ok tt) ↔ IsTermStructure reference ns
unfolding check_nodes
check_nodes-IsTermStructure reference [] = (λ h. absurd (cc h), λ h. absurd h)
check_nodes-IsTermStructure reference (n ∷ ns) =
    let order = sorted-distinct_iff n.pillar_date (dates ns) in
    (
      λ h. (ground (arith, h), ground (arith, h), order.0 (ground (arith, h))),
      λ h. ground (arith, h.0, h.1, order.1 h.2),
    )

-- A market curve is accepted if and only if its nodes are a term structure: the first at the
-- reference date with discount factor 1, and each later one at a strictly later date.
pub make_market_curve-IsTermStructure :
    (i : CurveId) (reference : Date) (as_of : DateTime) (ns : List CurveNode)
    (k : CurveInterpolation)
    → (make_market_curve i reference as_of ns k
        ≡ ok (record {
          curve_id = i;
          reference_date = reference;
          as_of = as_of;
          nodes = ns;
          interpolation = k;
        }))
      ↔ IsTermStructure reference ns
unfolding make_market_curve
make_market_curve-IsTermStructure i reference as_of ns k =
    let shape = check_nodes-IsTermStructure reference ns in
    elim (Outcome-cases (check_nodes reference ns)) [
      | inl (u, good) ↦ (λ h. shape.0 good, λ h. rw good refl)
      | inr (x, bad) ↦ (λ h. absurd (cc (rw bad at h)), λ h. absurd (cc (sym bad ∙ shape.1 h)))
    ]
