-- ===== src/Ois.antt =====
-- infrastructure/application/pricing/adapter/swap_pricer/quantlib with infrastructure/quantlib: how
-- a swap is handed to QuantLib. What QuantLib builds is the record of the arguments it was given
-- (decimals before `float`), and what it computes is the argument `engine`.
pub mod Pricing
pub mod Building
use price_streaming.Prelude.{
  Action, Bool, List, Outcome, String_eq, [], application_error, bind, false, filter, if◌then◌else◌,
  int_eq, map, nat_eq, not, ok, raise, true, value_error, ℕ, ℤ, ◌==◌, ◌||◌, ◌∷◌,
}
use price_streaming.Product.{Decimal, Date, Currency, jpy}
use price_streaming.Rates.{
  PayerReceiver, payer, receiver, DayCountFraction, PeriodFrequency, monthly, quarterly,
  semi_annual, annual, decimal_eq, FloatingRateIndex, RateSpecification, fixed, floating,
  InterestRatePayout, InterestRateSwap,
}
use price_streaming.Curve.{MarketCurve, CurveInterpolation, log_linear_discount, CurveNode}
use price_streaming.Dependencies.{PricingDependencies, projection_curve_for}

-- `ql.DiscountCurve(dates, discount_factors, Actual365Fixed())`
pub record DiscountCurve : Type 0 where
  pub curve_dates : List Date
  pub discount_factors : List Decimal

-- `ql.Period` in months or years.
pub data Period : Type 0 where
  months years : ℕ → Period

unfoldable pub to_quantlib_period : PeriodFrequency → Period
to_quantlib_period monthly = months 1
to_quantlib_period quarterly = months 3
to_quantlib_period semi_annual = months 6
to_quantlib_period annual = years 1

-- The arguments of `ql.OvernightIndexedSwap`, those of its schedule laid out.
pub record OvernightIndexedSwap : Type 0 where
  pub swap_type : PayerReceiver
  pub notional : Decimal
  pub effective_date : Date
  pub termination_date : Date
  pub period : Period
  pub fixed_rate : Decimal
  pub fixed_day_count : DayCountFraction
  pub index_name : FloatingRateIndex
  pub index_curve : DiscountCurve
  pub spread : Decimal
  pub payment_lag : ℤ

-- Whether the constructors of QuantLib raise on the arguments that they are given: `ql.DiscountCurve`,
-- `ql.Schedule` from a start to an end in periods, and `ql.OvernightIndexedSwap`.
pub record QuantLib : Type 0 where
  pub discount_curve : DiscountCurve → Outcome Unit
  pub schedule : (effective_date termination_date : Date) → Period → Outcome Unit
  pub overnight_indexed_swap : OvernightIndexedSwap → Outcome Unit

-- The arguments of `ql.DiscountCurve` for a curve.
unfoldable pub curve_arguments : MarketCurve → DiscountCurve
curve_arguments c = record {
  curve_dates = map (λ n. n.pillar_date) c.nodes;
  discount_factors = map (λ n. n.discount_factor) c.nodes;
}

-- `QuantLibCurveFactory.build`; the one interpolation that there is is supported.
unfoldable pub build_discount_curve : QuantLib → MarketCurve → Outcome DiscountCurve
unfolding curve_arguments
build_discount_curve ql c =
    bind (ql.discount_curve (curve_arguments c)) (λ _. ok (curve_arguments c))

abbrev pub frequency_eq : PeriodFrequency → PeriodFrequency → Bool
frequency_eq monthly monthly = true
frequency_eq quarterly quarterly = true
frequency_eq semi_annual semi_annual = true
frequency_eq annual annual = true
frequency_eq _ _ = false

abbrev pub side_eq : PayerReceiver → PayerReceiver → Bool
side_eq payer payer = true
side_eq receiver receiver = true
side_eq _ _ = false

abbrev pub is_jpy : Currency → Bool
is_jpy jpy = true

unfoldable pub is_fixed : InterestRatePayout → Bool
is_fixed p = elim p.rate_specification [ fixed rate ↦ true | floating index spread ↦ false ]

unfoldable pub is_floating : InterestRatePayout → Bool
is_floating p = elim p.rate_specification [ fixed rate ↦ false | floating index spread ↦ true ]

-- `legs[0]` of a list that must have one element.
unfoldable pub only : List InterestRatePayout → Outcome InterestRatePayout
only [] = raise value_error
only (p ∷ []) = ok p
only (p ∷ _ ∷ _) = raise value_error

-- `_extract_legs`
unfoldable pub extract_legs : InterestRateSwap → Outcome (InterestRatePayout × InterestRatePayout)
unfolding is_fixed is_floating only
extract_legs swap =
    bind (only (filter is_fixed swap)) λ f. bind (only (filter is_floating swap)) λ g. ok (f, g)

-- `if test: raise ValueError(...)`
abbrev pub refuse_if : Bool → Outcome Unit
refuse_if true = raise value_error
refuse_if false = ok tt

-- `_validate`
unfoldable pub validate : (fixed_leg floating_leg : InterestRatePayout) → Outcome Unit
unfolding decimal_eq
validate f g =
    let fp = f.calculation_period_dates in
    let gp = g.calculation_period_dates in
    bind
      (refuse_if (
        not (is_jpy f.notional_schedule.money_currency)
        || not (is_jpy g.notional_schedule.money_currency)))
      λ _.
        bind (refuse_if (not (decimal_eq f.notional_schedule.amount g.notional_schedule.amount)))
          λ _. bind (refuse_if (side_eq f.payer_receiver g.payer_receiver)) λ _.
            bind
              (refuse_if (
                not (nat_eq fp.effective_date gp.effective_date)
                || not (nat_eq fp.termination_date gp.termination_date)))
              λ _. bind (refuse_if (not (frequency_eq fp.frequency gp.frequency))) λ _.
                bind
                  (refuse_if (
                    not (frequency_eq f.payment_dates.payment_frequency fp.frequency)
                    || not (frequency_eq g.payment_dates.payment_frequency gp.frequency)))
                  λ _. refuse_if (
                    not (
                      int_eq f.payment_dates.payment_lag_business_days
                        g.payment_dates.payment_lag_business_days))

-- `_overnight_index`: the one index that is supported.
unfoldable pub overnight_index : FloatingRateIndex → Outcome Unit
overnight_index name = if name == "JPY-TONA" then ok tt else raise value_error

-- The arguments that `build` passes on.
unfoldable pub swap_of :
    InterestRatePayout
    → Decimal
    → FloatingRateIndex
    → Decimal
    → DiscountCurve
    → OvernightIndexedSwap
unfolding to_quantlib_period
swap_of f rate index spread curve = record {
  swap_type = f.payer_receiver;
  notional = f.notional_schedule.amount;
  effective_date = f.calculation_period_dates.effective_date;
  termination_date = f.calculation_period_dates.termination_date;
  period = to_quantlib_period f.calculation_period_dates.frequency;
  fixed_rate = rate;
  fixed_day_count = f.day_count_fraction;
  index_name = index;
  index_curve = curve;
  spread = spread;
  payment_lag = f.payment_dates.payment_lag_business_days;
}

-- The end of `build`, for the rates of the two legs.
unfoldable pub build_legs :
    QuantLib
    → PricingDependencies
    → InterestRatePayout
    → Decimal
    → FloatingRateIndex
    → Decimal
    → Outcome OvernightIndexedSwap
unfolding overnight_index build_discount_curve swap_of
build_legs ql d f rate index spread =
    let dates = f.calculation_period_dates in
    bind (projection_curve_for d index) λ c. bind (build_discount_curve ql c) λ curve.
      bind (overnight_index index) λ _.
        bind
          (ql.schedule dates.effective_date dates.termination_date
            (to_quantlib_period dates.frequency))
          λ _.
            let swap = swap_of f rate index spread curve in
            bind (ql.overnight_indexed_swap swap) (λ _. ok swap)

-- `QuantLibSwapFactory.build`; the assertions on the rates raise if they fail.
unfoldable pub build :
    QuantLib → InterestRateSwap → PricingDependencies → Outcome OvernightIndexedSwap
unfolding extract_legs validate build_legs
build ql swap d = bind (extract_legs swap) λ legs. bind (validate legs.0 legs.1) λ _.
    elim legs.0.rate_specification [
      | floating index spread ↦ raise (application_error "AssertionError")
      | fixed rate ↦ elim legs.1.rate_specification [
        | fixed r ↦ raise (application_error "AssertionError")
        | floating index spread ↦ build_legs ql d legs.0 rate index spread
      ]
    ]

-- `PricingResult`
pub record PricingResult : Type 0 where
  pub npv : Decimal
  pub fair_rate : Decimal

-- `ql.Settings.instance().evaluationDate`, which all of QuantLib shares.
pub record QlSettings : Type 0 where
  pub evaluation_date : Date

-- The `with` block of `_evaluation_date`: the date is set back however the block ends.
unfoldable pub with_evaluation_date :
    {A : Type 0} → Date → Action QlSettings A → Action QlSettings A
with_evaluation_date value body s =
    let (o, s') = body (record s { evaluation_date = value }) in
    (o, record s' { evaluation_date = s.evaluation_date })

module _ (ql : QuantLib)
    (engine : Date → DiscountCurve → OvernightIndexedSwap → Outcome PricingResult) where
  -- The block of `price`: the engine reads the date that is set when it runs.
  unfoldable pub price_block :
      InterestRateSwap → PricingDependencies → Action QlSettings PricingResult
  price_block swap d s = (
    bind (build_discount_curve ql d.discount_curve)
        λ curve. bind (build ql swap d) λ q. engine s.evaluation_date curve q,
    s,
  )

  -- `QuantLibSwapPricer.price`
  unfoldable pub price : InterestRateSwap → PricingDependencies → Action QlSettings PricingResult
  unfolding with_evaluation_date price_block
  price swap d = with_evaluation_date d.discount_curve.reference_date (price_block swap d)
