-- ===== src/Rates.antt =====
-- domain/product/interest_rate: interest rate swaps as payouts, and the market conventions. Each
-- constructor runs the checks of its class's `__post_init__`.
use price_streaming.Prelude.{
  Bool, List, Outcome, String, String_eq, domain_error, if◌then◌else◌, is_negative, leb, length,
  ltb, nat_eq, not, ok, raise, suc, value_error, zero, ℕ, ℤ, ◌&&◌, ◌*◌,
}
use price_streaming.Product.{Decimal, Date, Currency}

pub data PayerReceiver : Type 0 where
  payer receiver : PayerReceiver

pub data DayCountFraction : Type 0 where
  act_360 act_365_fixed thirty_360 : DayCountFraction

pub data PeriodFrequency : Type 0 where
  monthly quarterly semi_annual annual : PeriodFrequency

pub data BusinessDayConvention : Type 0 where
  following modified_following preceding modified_preceding unadjusted : BusinessDayConvention

-- `d < 0`; a zero with a sign is not below zero.
unfoldable pub below_zero : Decimal → Bool
below_zero d = d.negative && not (nat_eq d.digits 0)

-- `10 ** n`
unfoldable pub pow10 : ℕ → ℕ
pow10 zero = 1
pow10 (suc n) = 10 * pow10 n

-- `a == b` of decimals: equal values, whatever the scales are.
unfoldable pub decimal_eq : Decimal → Decimal → Bool
unfolding pow10 below_zero
decimal_eq a b =
    nat_eq (a.digits * pow10 b.scale) (b.digits * pow10 a.scale)
    && (if below_zero a then below_zero b else not (below_zero b))

pub record Money : Type 0 where
  pub amount : Decimal
  pub money_currency : Currency

unfoldable pub make_money : Decimal → Currency → Outcome Money
unfolding below_zero
make_money amount currency =
    if below_zero amount
    then raise (domain_error "Amount must not be negative")
    else ok (record { amount = amount; money_currency = currency })

-- `NotionalSchedule.initial_value`
abbrev pub NotionalSchedule : Type 0
NotionalSchedule = Money

-- `FloatingRateIndex.value`
abbrev pub FloatingRateIndex : Type 0
FloatingRateIndex = String

-- `FixedRateSpecification` and `FloatingRateSpecification`
pub data RateSpecification : Type 0 where
  fixed : (rate : Decimal) → RateSpecification
  floating : (index : FloatingRateIndex) (spread : Decimal) → RateSpecification

pub record CalculationPeriodDates : Type 0 where
  pub effective_date : Date
  pub termination_date : Date
  pub frequency : PeriodFrequency

unfoldable pub make_calculation_period_dates :
    Date → Date → PeriodFrequency → Outcome CalculationPeriodDates
make_calculation_period_dates effective termination frequency =
    if leb termination effective
    then raise (domain_error "effective_date must be before termination_date")
    else ok (record {
      effective_date = effective;
      termination_date = termination;
      frequency = frequency;
    })

pub record PaymentDates : Type 0 where
  pub payment_frequency : PeriodFrequency
  pub payment_lag_business_days : ℤ

unfoldable pub make_payment_dates : PeriodFrequency → ℤ → Outcome PaymentDates
make_payment_dates frequency lag =
    if is_negative lag
    then raise value_error
    else ok (record { payment_frequency = frequency; payment_lag_business_days = lag })

pub record InterestRatePayout : Type 0 where
  pub payer_receiver : PayerReceiver
  pub notional_schedule : NotionalSchedule
  pub calculation_period_dates : CalculationPeriodDates
  pub payment_dates : PaymentDates
  pub day_count_fraction : DayCountFraction
  pub rate_specification : RateSpecification

-- `InterestRateSwap.payouts`
abbrev pub InterestRateSwap : Type 0
InterestRateSwap = List InterestRatePayout

unfoldable pub make_interest_rate_swap : List InterestRatePayout → Outcome InterestRateSwap
make_interest_rate_swap payouts =
    if ltb (length payouts) 2
    then raise (domain_error "InterestRateSwap requires at least two payouts.")
    else ok payouts

pub record SwapConvention : Type 0 where
  pub floating_rate_index : FloatingRateIndex
  pub fixed_leg_frequency : PeriodFrequency
  pub fixed_leg_day_count : DayCountFraction
  pub business_calendar_id : String
  pub business_day_convention : BusinessDayConvention
  pub settlement_days : ℤ

-- `SwapConvention.__post_init__`
unfoldable pub check_swap_convention : SwapConvention → Outcome SwapConvention
check_swap_convention c =
    if is_negative c.settlement_days
    then raise (domain_error "Settlement days must not be negative")
    else ok c

-- `BusinessCalendarId(text)`, where `is_blank` is `not text.strip()`.
unfoldable pub make_business_calendar_id : (is_blank : String → Bool) → String → Outcome String
make_business_calendar_id is_blank text =
    if is_blank text then raise (domain_error "BusinessCalendar ID is empty.") else ok text
