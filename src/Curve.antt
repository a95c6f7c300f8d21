-- ===== src/Curve.antt =====
-- domain/market: tenors, swap quotes and market curves with the checks of their `__post_init__`, the
-- store of curves (infrastructure/application/market/adapter/market_curve_store/in_memory) and the
-- use cases of application/market.
pub mod Shape
pub mod Messages
pub mod Accepted
use price_streaming.Prelude.{
  ==_iff, Bool, Eq, List, Option, Outcome, String, String_eq, [], arith, bind, curve_not_found,
  distinct, domain_error, false, if◌then◌else◌, is_negative, list_eq, map, nat_eq, none, not, ok,
  raise, some, sorted, true, ℕ, ℕ_eq, ℤ, ℤ_eq, ◌&&◌, ◌==◌, ◌||◌, ◌↔◌, ◌∷◌, ◌≡◌,
}
use price_streaming.Dict
use price_streaming.Dict.{Dict}
use price_streaming.Product.{Decimal, Date}
use price_streaming.Rates.{below_zero, decimal_eq}

-- A `datetime`: the date and the time of day where it was taken, and the time zone if it has one.
pub record DateTime : Type 0 where
  pub local_date : Date
  pub local_time : ℕ
  pub tzinfo : Option ℤ

-- `AwareDateTime(value)`
unfoldable pub aware_datetime : DateTime → Outcome DateTime
aware_datetime t = elim t.tzinfo [
  | none ↦ raise (domain_error "AwareDateTime must have timezone.")
  | some z ↦ ok t
]

-- `CurveId.value` and `QuoteSetId.value`
abbrev pub CurveId : Type 0
CurveId = String

-- `is_blank` is `not text.strip()`.
module _ (is_blank : String → Bool) where
  unfoldable pub make_curve_id : String → Outcome CurveId
  make_curve_id text = if is_blank text then raise (domain_error "Market ID is empty.") else ok text

  unfoldable pub make_quote_set_id : String → Outcome String
  make_quote_set_id text =
      if is_blank text then raise (domain_error "QuoteSet ID is empty.") else ok text

pub data TenorUnit : Type 0 where
  day week month year : TenorUnit

pub record Tenor : Type 0 where
  pub tenor_value : ℤ
  pub unit : TenorUnit

unfoldable pub make_tenor : ℤ → TenorUnit → Outcome Tenor
make_tenor value unit =
    if is_negative value
    then raise (domain_error "Tenor value must not be negative")
    else ok (record { tenor_value = value; unit = unit })

abbrev pub unit_eq : TenorUnit → TenorUnit → Bool
unit_eq day day = true
unit_eq week week = true
unit_eq month month = true
unit_eq year year = true
unit_eq _ _ = false

pub unit_eq_iff : (a b : TenorUnit) → (unit_eq a b ≡ true) ↔ (a ≡ b)
unit_eq_iff day b = elim b [ day ↦ ground arith | _ ↦ ground arith ]
unit_eq_iff week b = elim b [ day ↦ ground arith | _ ↦ ground arith ]
unit_eq_iff month b = elim b [ day ↦ ground arith | _ ↦ ground arith ]
unit_eq_iff year b = elim b [ day ↦ ground arith | _ ↦ ground arith ]

abbrev pub tenor_eq : Tenor → Tenor → Bool
tenor_eq a b = a.tenor_value == b.tenor_value && unit_eq a.unit b.unit

pub tenor_eq_iff : (a b : Tenor) → (tenor_eq a b ≡ true) ↔ (a ≡ b)
tenor_eq_iff a b = ground (arith, ==_iff a.tenor_value b.tenor_value, unit_eq_iff a.unit b.unit)

instance abbrev pub Tenor_eq : Eq Tenor
Tenor_eq = record { beq = tenor_eq; beq_iff = tenor_eq_iff }

pub record SwapQuote : Type 0 where
  pub tenor : Tenor
  pub par_rate : Decimal

pub record SwapQuoteSnapshot : Type 0 where
  pub quote_set_id : String
  pub as_of : DateTime
  pub quotes : List SwapQuote

unfoldable pub make_swap_quote_snapshot :
    String → DateTime → List SwapQuote → Outcome SwapQuoteSnapshot
make_swap_quote_snapshot quote_set_id as_of [] =
    raise (domain_error "SwapQuoteSnapshot requres at least one quote.")
make_swap_quote_snapshot quote_set_id as_of (q ∷ qs) =
    if distinct (map (λ x. x.tenor) (q ∷ qs))
    then ok (record { quote_set_id = quote_set_id; as_of = as_of; quotes = q ∷ qs })
    else raise (domain_error "SwapQuoteSnapshot must unique tenor.")

pub record CurveNode : Type 0 where
  pub pillar_date : Date
  pub discount_factor : Decimal

-- `d <= 0`
unfoldable pub not_above_zero : Decimal → Bool
unfolding below_zero
not_above_zero d = d.negative || nat_eq d.digits 0

unfoldable pub make_curve_node : Date → Decimal → Outcome CurveNode
unfolding not_above_zero
make_curve_node pillar factor =
    if not_above_zero factor
    then raise (domain_error "Discount factor must be positive")
    else ok (record { pillar_date = pillar; discount_factor = factor })

pub data CurveInterpolation : Type 0 where
  log_linear_discount : CurveInterpolation

pub record MarketCurve : Type 0 where
  pub curve_id : CurveId
  pub reference_date : Date
  pub as_of : DateTime
  pub nodes : List CurveNode
  pub interpolation : CurveInterpolation

abbrev pub one : Decimal
one = record { negative = false; digits = 1; scale = 0 }

abbrev pub dates : List CurveNode → List Date
dates ns = map (λ n. n.pillar_date) ns

-- `MarketCurve.__post_init__`
unfoldable pub check_nodes : Date → List CurveNode → Outcome Unit
unfolding decimal_eq
check_nodes reference [] = raise (domain_error "MarketCurve must contain at least one node.")
check_nodes reference (n ∷ ns) =
    if not (list_eq (dates (n ∷ ns)) (sorted (dates (n ∷ ns))))
    then raise (domain_error "Curve nodes must be ordered by pillar date.")
    else if not (distinct (dates (n ∷ ns)))
    then raise (domain_error "MarketCurve must unique node dates.")
    else if not (nat_eq n.pillar_date reference)
    then raise (domain_error "First node must be the reference date")
    else if not (decimal_eq n.discount_factor one)
    then raise (domain_error "Reference date discount factor must be 1")
    else ok tt

unfoldable pub make_market_curve :
    CurveId → Date → DateTime → List CurveNode → CurveInterpolation → Outcome MarketCurve
make_market_curve curve_id reference as_of nodes interpolation =
    bind (check_nodes reference nodes) λ _. ok (record {
      curve_id = curve_id;
      reference_date = reference;
      as_of = as_of;
      nodes = nodes;
      interpolation = interpolation;
    })

-- `InMemoryMarketCurveStore._curves`
abbrev pub CurveStore : Type 0
CurveStore = Dict CurveId MarketCurve

-- `put`, which is all that `UpdateMarketCurveUseCase.execute` calls.
unfoldable pub put_curve : MarketCurve → CurveStore → CurveStore
put_curve c store = Dict.put store c.curve_id c

-- `get`
unfoldable pub get_curve : CurveStore → CurveId → Outcome MarketCurve
get_curve store i = elim (Dict.get store i) [ none ↦ raise (curve_not_found i) | some c ↦ ok c ]
