-- ===== src/Examples/Curve.antt =====
-- A discount curve and a swap of two legs.
use price_streaming.Prelude.{
  All, Bool, List, Outcome, String, String_eq, [], arith, bind, none, ok, pos, refl, some, ℕ, ℕ_eq,
  ℤ_eq, ◌+◌, ◌==◌, ◌↔◌, ◌∷◌, ◌≡◌,
}
use price_streaming.Dict
use price_streaming.Examples.Pricing.{par}
use price_streaming.Product.{jpy}
use price_streaming.Rates.{
  DayCountFraction, PeriodFrequency, BusinessDayConvention, PayerReceiver, RateSpecification,
  InterestRatePayout, InterestRateSwap, SwapConvention, fixed, floating,
}
use price_streaming.Curve.{
  DateTime, TenorUnit, SwapQuoteSnapshot, CurveNode, MarketCurve, CurveInterpolation, CurveStore,
  one, make_market_curve, get_curve,
}
use price_streaming.Curve.Shape.{IsTermStructure, make_market_curve-IsTermStructure}
use price_streaming.Curve.Messages.{
  SwapQuoteMessage, SwapQuoteSnapshotMessage, CurveNodeMessage, received_snapshots,
}
use price_streaming.Curve.Accepted.{IsQuotable, received_snapshots-IsQuotable}
use price_streaming.Dependencies.{
  MarketConfiguration, PricingDependencies, projection_curve, projection_curve_for,
  projection_curve_id_for, projections, resolve,
}
use price_streaming.Dependencies.Coverage.{OnIndex, resolve_lem}
use price_streaming.Ois.{
  Period, QlSettings, DiscountCurve, OvernightIndexedSwap, PricingResult, build_discount_curve,
  curve_arguments, QuantLib, build_legs, swap_of, build, price,
}
use price_streaming.Ois.Pricing.{IsMade, IsMatched, build-IsMatched, build-resolve, price_lem}
use price_streaming.Ois.Building.{RateHelper, consume_market_data}
use price_streaming.Ois.Building.Store.{IsCurveStore, consume_market_data-IsCurveStore}

abbrev noon : DateTime
noon = record { local_date = 10; local_time = 12; tzinfo = some (pos 9) }

abbrev nodes : List CurveNode
nodes =
    record { pillar_date = 10; discount_factor = one }
    ∷ record { pillar_date = 40; discount_factor = par }
    ∷ []

abbrev market_curve : MarketCurve
market_curve = record {
  curve_id = "JPY-OIS";
  reference_date = 10;
  as_of = noon;
  nodes = nodes;
  interpolation = CurveInterpolation.log_linear_discount;
}

make_market_curve-IsTermStructure_example :
    (make_market_curve "JPY-OIS" 10 noon nodes CurveInterpolation.log_linear_discount
      ≡ ok market_curve)
    ↔ IsTermStructure 10 nodes
make_market_curve-IsTermStructure_example =
    make_market_curve-IsTermStructure "JPY-OIS" 10 noon nodes CurveInterpolation.log_linear_discount

abbrev is_blank : String → Bool
is_blank text = text == ""

abbrev quote_message : SwapQuoteMessage
quote_message = record { tenor_value = pos 1; tenor_unit = TenorUnit.year; par_rate = par }

abbrev snapshot_message : String → SwapQuoteSnapshotMessage
snapshot_message i = record { quote_set_id = i; as_of = noon; quotes = quote_message ∷ [] }

received_snapshots-IsQuotable_example : All IsQuotable (
    received_snapshots is_blank
      (none ∷ some (snapshot_message "") ∷ some (snapshot_message "TONA") ∷ []))
received_snapshots-IsQuotable_example =
    received_snapshots-IsQuotable is_blank
      (none ∷ some (snapshot_message "") ∷ some (snapshot_message "TONA") ∷ [])

-- The two legs of an overnight index swap.
abbrev leg : PayerReceiver → RateSpecification → InterestRatePayout
leg side rate = record {
  payer_receiver = side;
  notional_schedule = record { amount = par; money_currency = jpy };
  calculation_period_dates = record {
    effective_date = 12;
    termination_date = 42;
    frequency = PeriodFrequency.annual;
  };
  payment_dates = record {
    payment_frequency = PeriodFrequency.annual;
    payment_lag_business_days = pos 2;
  };
  day_count_fraction = DayCountFraction.act_365_fixed;
  rate_specification = rate;
}

abbrev fixed_leg : InterestRatePayout
fixed_leg = leg PayerReceiver.payer (fixed par)

abbrev floating_leg : InterestRatePayout
floating_leg = leg PayerReceiver.receiver (floating "JPY-TONA" par)

abbrev ois : InterestRateSwap
ois = fixed_leg ∷ floating_leg ∷ []

abbrev curves : CurveStore
curves = ("JPY-OIS", market_curve) ∷ []

abbrev configuration : MarketConfiguration
configuration = record {
  discount_curve_id = "JPY-OIS";
  projection_configurations = record { configured_index = "JPY-TONA"; curve_id = "JPY-OIS" } ∷ [];
}

abbrev dependencies : PricingDependencies
dependencies = record {
  discount_curve = market_curve;
  projection_curves = record { floating_rate_index = "JPY-TONA"; curve = market_curve } ∷ [];
}

curve_found : get_curve curves "JPY-OIS" ≡ ok market_curve
unfolding get_curve Dict.get
curve_found = refl

projected : projection_curve (get_curve curves) configuration "JPY-TONA" ≡ ok market_curve
unfolding projection_curve get_curve Dict.get projection_curve_id_for
projected = refl

resolved : resolve (get_curve curves) configuration ois ≡ ok dependencies
unfolding resolve get_curve Dict.get projections projection_curve projection_curve_id_for
resolved = refl

resolve_lem_example :
    (get_curve curves "JPY-OIS" ≡ ok market_curve)
    × All
        (OnIndex (λ i.
          projection_curve_for dependencies i
          ≡ projection_curve (get_curve curves) configuration i))
        ois
resolve_lem_example = resolve_lem (get_curve curves) configuration ois dependencies resolved

found : projection_curve_for dependencies "JPY-TONA" ≡ ok market_curve
unfolding projection_curve_for
found = refl

-- A QuantLib that takes everything.
abbrev quantlib : QuantLib
quantlib = record {
  discount_curve = λ c. ok tt;
  schedule = λ s e p. ok tt;
  overnight_indexed_swap = λ s. ok tt;
}

all-IsMade : IsMade quantlib fixed_leg par par market_curve
all-IsMade = record { curve_made = refl; schedule_made = refl; swap_made = refl }

build-IsMatched_example :
    (build quantlib ois dependencies
      ≡ ok (swap_of fixed_leg par "JPY-TONA" par (curve_arguments market_curve)))
    ↔ IsMatched fixed_leg floating_leg
build-IsMatched_example =
    build-IsMatched dependencies fixed_leg floating_leg quantlib par par market_curve refl refl
      found all-IsMade

abbrev quantlib_swap : OvernightIndexedSwap
quantlib_swap = record {
  swap_type = PayerReceiver.payer;
  notional = par;
  effective_date = 12;
  termination_date = 42;
  period = Period.years 1;
  fixed_rate = par;
  fixed_day_count = DayCountFraction.act_365_fixed;
  index_name = "JPY-TONA";
  index_curve = record { curve_dates = 10 ∷ 40 ∷ []; discount_factors = one ∷ par ∷ [] };
  spread = par;
  payment_lag = pos 2;
}

built : build quantlib ois dependencies ≡ ok quantlib_swap
unfolding build projection_curve_for swap_of build_discount_curve curve_arguments build_legs
built = refl

build-resolve_example :
    (c : MarketCurve) × (projection_curve (get_curve curves) configuration "JPY-TONA" ≡ ok c)
    × (quantlib_swap.index_curve ≡ curve_arguments c)
build-resolve_example =
    build-resolve quantlib (get_curve curves) configuration ois dependencies quantlib_swap resolved
      built

-- An engine that gives the rate of the fixed leg.
abbrev engine : ℕ → DiscountCurve → OvernightIndexedSwap → Outcome PricingResult
engine date c s = ok (record { npv = s.notional; fair_rate = s.fixed_rate })

abbrev settings : QlSettings
settings = record { evaluation_date = 7 }

price_lem_example : price quantlib engine ois dependencies settings ≡ (
  bind
      (build_discount_curve quantlib market_curve)
      λ curve. bind (build quantlib ois dependencies) (engine 10 curve),
  settings,
)
price_lem_example = price_lem quantlib engine ois dependencies settings

abbrev convention : SwapConvention
convention = record {
  floating_rate_index = "JPY-TONA";
  fixed_leg_frequency = PeriodFrequency.annual;
  fixed_leg_day_count = DayCountFraction.act_365_fixed;
  business_calendar_id = "JP";
  business_day_convention = BusinessDayConvention.following;
  settlement_days = pos 2;
}

abbrev quote_snapshot : SwapQuoteSnapshot
quote_snapshot = record {
  quote_set_id = "TONA";
  as_of = noon;
  quotes =
      record { tenor = record { tenor_value = pos 1; unit = TenorUnit.year }; par_rate = par } ∷ [];
}

abbrev bootstrap : ℕ → List RateHelper → Outcome (List CurveNodeMessage)
bootstrap date helpers = ok (
    record { pillar_date = date; discount_factor = one }
    ∷ record { pillar_date = date + 30; discount_factor = par }
    ∷ [])

none_stored : IsCurveStore []
unfolding Dict.get
none_stored i c h = absurd (ground arith)

consume_market_data-IsCurveStore_example :
    ((consume_market_data bootstrap "JPY-OIS" convention (quote_snapshot ∷ []) (settings, [])).1.0
      ≡ settings)
    × IsCurveStore
        (consume_market_data bootstrap "JPY-OIS" convention
          (quote_snapshot ∷ [])
          (settings, [])).1.1
consume_market_data-IsCurveStore_example =
    consume_market_data-IsCurveStore bootstrap "JPY-OIS" convention (quote_snapshot ∷ []) settings
      [] none_stored
