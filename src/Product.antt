-- ===== src/Product.antt =====
-- domain/product/swap.py and domain/product/shared.py: the swap that an RFQ is about.
use price_streaming.Prelude.{
  Bool, Option, Outcome, String, String_eq, if◌then◌else◌, none, ok, raise, some, value_error, ℕ,
  ◌==◌, ◌≡◌,
}

-- A finite `Decimal`: `digits / 10 ^ scale`, or its negative.
pub record Decimal : Type 0 where
  pub negative : Bool
  pub digits : ℕ
  pub scale : ℕ

-- `datetime.date` by its ordinal.
abbrev pub Date : Type 0
Date = ℕ

-- The text forms of Python's standard library: `str(d)`, `Decimal(s)`, `d.isoformat()` and
-- `date.fromisoformat(s)`, where a reader fails on a text that spells no value.
pub record Texts : Type 0 where
  pub decimal_str : Decimal → String
  pub decimal : String → Option Decimal
  pub decimal-decimal_str : (d : Decimal) → decimal (decimal_str d) ≡ some d
  pub isoformat : Date → String
  pub fromisoformat : String → Option Date
  pub fromisoformat-isoformat : (d : Date) → fromisoformat (isoformat d) ≡ some d

pub data PayReceive : Type 0 where
  pay receive : PayReceive

pub data Currency : Type 0 where
  jpy : Currency

unfoldable pub pay_receive_str : PayReceive → String
pay_receive_str pay = "pay"
pay_receive_str receive = "receive"

-- `PayReceive(text)`
unfoldable pub pay_receive : String → Outcome PayReceive
pay_receive s =
    if s == "pay" then ok pay else if s == "receive" then ok receive else raise value_error

unfoldable pub currency_str : Currency → String
currency_str jpy = "JPY"

-- `Currency(text)`
unfoldable pub currency : String → Outcome Currency
currency s = if s == "JPY" then ok jpy else raise value_error

-- What the field `notional` holds at run time: a `Decimal`, or the text that a row was read from.
pub data Notional : Type 0 where
  decimal : Decimal → Notional
  text : String → Notional

pub record InterestRateSwap : Type 0 where
  pub notional : Notional
  pub effective_date : Date
  pub maturity_date : Date
  pub fixed_leg : PayReceive
  pub swap_currency : Currency

-- `x if x is not None else default`
unfoldable pub or_else {ℓ} : {A : Type ℓ} → Option A → A → A
or_else (some x) d = x
or_else none d = d

unfoldable pub with_change :
    InterestRateSwap
    → Option Notional
    → Option Date
    → Option Date
    → Option PayReceive
    → Option Currency
    → InterestRateSwap
unfolding or_else
with_change s notional effective maturity leg cur = record {
  notional = or_else notional s.notional;
  effective_date = or_else effective s.effective_date;
  maturity_date = or_else maturity s.maturity_date;
  fixed_leg = or_else leg s.fixed_leg;
  swap_currency = or_else cur s.swap_currency;
}

module _ (t : Texts) where
  -- `str(notional)`
  unfoldable pub notional_str : Notional → String
  notional_str (decimal d) = t.decimal_str d
  notional_str (text s) = s

  -- `Decimal(notional)`
  unfoldable pub to_decimal : Notional → Outcome Decimal
  to_decimal (decimal d) = ok d
  to_decimal (text s) = elim (t.decimal s) [ some d ↦ ok d | none ↦ raise value_error ]

  -- `date.fromisoformat(text)`
  unfoldable pub parse_date : String → Outcome Date
  parse_date s = elim (t.fromisoformat s) [ some d ↦ ok d | none ↦ raise value_error ]
