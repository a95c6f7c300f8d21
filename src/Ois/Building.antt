-- ===== src/Ois/Building.antt =====
-- infrastructure/application/market/adapter/curve_builder/quantlib, application/market/use_case and
-- `consume_market_data` of presentation/pricing_worker/main.py: curves from quote snapshots.
pub mod Store
use price_streaming.Prelude.{
  Action, Bool, List, Outcome, String, String_eq, [], bind, continue, false, if◌then◌else◌, map,
  not, ok, raise, true, value_error, ℤ, ◌&&◌, ◌==◌, ◌∷◌,
}
use price_streaming.Product.{Decimal, Date}
use price_streaming.Rates.{
  DayCountFraction, act_360, act_365_fixed, thirty_360, PeriodFrequency, BusinessDayConvention,
  SwapConvention,
}
use price_streaming.Curve.{
  Tenor, SwapQuoteSnapshot, MarketCurve, CurveId, CurveStore, make_market_curve,
  log_linear_discount, put_curve,
}
use price_streaming.Curve.Messages.{CurveNodeMessage, nodes_to_domain}
use price_streaming.Ois.{QlSettings, with_evaluation_date, overnight_index}

-- What `QuantLibConventionMapper.calendar` returns: a calendar, or the exception as a value.
pub data CalendarValue : Type 0 where
  japan value_error_object : CalendarValue

unfoldable pub calendar : String → CalendarValue
calendar i = if i == "JP" then japan else value_error_object

-- The arguments of `ql.OISRateHelper`; `business_day_convention` and `frequency` map each member to
-- QuantLib's of the same name.
pub record RateHelper : Type 0 where
  pub settlement_days : ℤ
  pub helper_tenor : Tenor
  pub rate : Decimal
  pub payment_convention : BusinessDayConvention
  pub payment_frequency : PeriodFrequency
  pub payment_calendar : CalendarValue

abbrev pub is_act_365_fixed : DayCountFraction → Bool
is_act_365_fixed act_365_fixed = true
is_act_365_fixed _ = false

-- `_validate_convention`
unfoldable pub validate_convention : SwapConvention → Outcome Unit
validate_convention c =
    if c.floating_rate_index == "JPY-TONA" && not (is_act_365_fixed c.fixed_leg_day_count)
    then raise value_error
    else ok tt

unfoldable pub rate_helpers : SwapQuoteSnapshot → SwapConvention → List RateHelper
unfolding calendar
rate_helpers snapshot c =
    map
      (λ q. record {
        settlement_days = c.settlement_days;
        helper_tenor = q.tenor;
        rate = q.par_rate;
        payment_convention = c.business_day_convention;
        payment_frequency = c.fixed_leg_frequency;
        payment_calendar = calendar c.business_calendar_id;
      })
      snapshot.quotes

-- `bootstrap` is QuantLib's `PiecewiseLogLinearDiscount` at an evaluation date: the nodes of the
-- curve as decimals, or an exception.
module _ (bootstrap : Date → List RateHelper → Outcome (List CurveNodeMessage)) where
  -- The block under the evaluation date.
  unfoldable pub build_nodes :
      SwapQuoteSnapshot → SwapConvention → Action QlSettings (List CurveNodeMessage)
  unfolding rate_helpers overnight_index
  build_nodes snapshot c s = elim (overnight_index c.floating_rate_index) [
    | raise x ↦ (raise x, s)
    | ok _ ↦ (bootstrap s.evaluation_date (rate_helpers snapshot c), s)
  ]

  -- `QuantLibCurveBuilder.build`; the nodes are made under the evaluation date as well, which they do
  -- not read.
  unfoldable pub build_curve :
      CurveId → SwapQuoteSnapshot → SwapConvention → Action QlSettings MarketCurve
  unfolding build_nodes with_evaluation_date validate_convention
  build_curve i snapshot c s = elim (validate_convention c) [
    | raise x ↦ (raise x, s)
    | ok _ ↦
        let (o, s') = with_evaluation_date snapshot.as_of.local_date (build_nodes snapshot c) s in
        (
          bind (bind o nodes_to_domain) λ ns.
              make_market_curve i snapshot.as_of.local_date snapshot.as_of ns log_linear_discount,
          s',
        )
  ]

  -- `BuildMarketCurveUseCase.execute`
  unfoldable pub execute_build :
      CurveId → SwapQuoteSnapshot → SwapConvention → Action (QlSettings × CurveStore) MarketCurve
  execute_build i snapshot c (s, store) = elim (build_curve i snapshot c s).0 [
    | raise x ↦ (raise x, ((build_curve i snapshot c s).1, store))
    | ok curve ↦ (ok curve, ((build_curve i snapshot c s).1, put_curve curve store))
  ]

  -- `consume_market_data` over the snapshots that arrive; what raises ends the task.
  unfoldable pub consume_market_data :
      CurveId → SwapConvention → List SwapQuoteSnapshot → Action (QlSettings × CurveStore) Unit
  consume_market_data i c [] w = (ok tt, w)
  consume_market_data i c (snapshot ∷ rest) w =
      continue (execute_build i snapshot c w).0 (execute_build i snapshot c w).1
        (λ _. consume_market_data i c rest)
