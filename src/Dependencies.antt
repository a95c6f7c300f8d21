-- ===== src/Dependencies.antt =====
-- Which curves a swap is priced with: application/pricing/model/market_configuration.py and
-- pricing_dependencies.py, application/pricing/dependency/pricing_dependency_resolver.py.
pub mod Coverage
use price_streaming.Prelude.{
  List, Outcome, String_eq, [], add, application_error, bind, distinct, if◌then◌else◌, map, ok,
  projection_curve_not_configured, projection_curve_not_resolved, raise, ◌==◌, ◌∷◌,
}
use price_streaming.Rates.{
  FloatingRateIndex, RateSpecification, fixed, floating, InterestRatePayout, InterestRateSwap,
}
use price_streaming.Curve.{CurveId, MarketCurve}

pub record ProjectionCurveConfiguration : Type 0 where
  pub configured_index : FloatingRateIndex
  pub curve_id : CurveId

pub record MarketConfiguration : Type 0 where
  pub discount_curve_id : CurveId
  pub projection_configurations : List ProjectionCurveConfiguration

-- `MarketConfiguration(...)` with its `__post_init__`
unfoldable pub make_market_configuration :
    CurveId → List ProjectionCurveConfiguration → Outcome MarketConfiguration
make_market_configuration discount cs =
    if distinct (map (λ c. c.configured_index) cs)
    then ok (record { discount_curve_id = discount; projection_configurations = cs })
    else raise (application_error "Floating Rate Indices must be unique.")

unfoldable pub find_curve_id :
    FloatingRateIndex → List ProjectionCurveConfiguration → Outcome CurveId
find_curve_id index [] = raise (projection_curve_not_configured index)
find_curve_id index (c ∷ cs) =
    let rest = find_curve_id index cs in if c.configured_index == index then ok c.curve_id else rest

-- `projection_curve_id_for`
unfoldable pub projection_curve_id_for : MarketConfiguration → FloatingRateIndex → Outcome CurveId
unfolding find_curve_id
projection_curve_id_for m index = find_curve_id index m.projection_configurations

pub record ProjectionCurve : Type 0 where
  pub floating_rate_index : FloatingRateIndex
  pub curve : MarketCurve

pub record PricingDependencies : Type 0 where
  pub discount_curve : MarketCurve
  pub projection_curves : List ProjectionCurve

unfoldable pub find_projection : FloatingRateIndex → List ProjectionCurve → Outcome MarketCurve
find_projection index [] = raise (projection_curve_not_resolved index)
find_projection index (p ∷ ps) =
    let rest = find_projection index ps in
    if p.floating_rate_index == index then ok p.curve else rest

-- `projection_curve_for`
unfoldable pub projection_curve_for : PricingDependencies → FloatingRateIndex → Outcome MarketCurve
unfolding find_projection
projection_curve_for d index = find_projection index d.projection_curves

-- The loop of `_collect_floating_rate_indices`, with the list built so far.
unfoldable pub collect_onto :
    List InterestRatePayout → List FloatingRateIndex → List FloatingRateIndex
collect_onto [] indices = indices
collect_onto (p ∷ ps) indices = elim p.rate_specification [
  | fixed rate ↦ collect_onto ps indices
  | floating index spread ↦ collect_onto ps (add index indices)
]

unfoldable pub collect_floating_rate_indices : InterestRateSwap → List FloatingRateIndex
unfolding collect_onto
collect_floating_rate_indices product = collect_onto product []

-- `ICurveProvider` is the argument `get`.
module _ (get : CurveId → Outcome MarketCurve) (market : MarketConfiguration) where
  unfoldable pub projection_curve : FloatingRateIndex → Outcome MarketCurve
  projection_curve index = bind (projection_curve_id_for market index) get

  unfoldable pub projections : List FloatingRateIndex → Outcome (List ProjectionCurve)
  projections [] = ok []
  projections (index ∷ rest) =
      let more = projections rest in
      bind (projection_curve index)
        λ c. bind more (λ ps. ok (record { floating_rate_index = index; curve = c } ∷ ps))

  -- `PricingDependencyResolver.resolve`
  unfoldable pub resolve : InterestRateSwap → Outcome PricingDependencies
  unfolding collect_floating_rate_indices
  resolve product = bind (get market.discount_curve_id) λ discount.
      bind (projections (collect_floating_rate_indices product))
        λ ps. ok (record { discount_curve = discount; projection_curves = ps })
