-- ===== src/Curve/Messages.antt =====
-- infrastructure/zeromq/market/message: the market messages and their mappers; the subscriber of
-- quote snapshots (infrastructure/application/market/adapter/swap_quote_snapshot_subscriber/zeromq).
use price_streaming.Prelude.{
  Bool, List, Option, Outcome, String, [], bind, none, ok, raise, some, ℕ_eq, ℤ, ◌∷◌,
}
use price_streaming.Product.{Decimal, Date}
use price_streaming.Curve.{
  DateTime, aware_datetime, make_curve_id, make_quote_set_id, TenorUnit, make_tenor, SwapQuote,
  SwapQuoteSnapshot, make_swap_quote_snapshot, CurveNode, make_curve_node, log_linear_discount,
  MarketCurve, make_market_curve,
}

-- `TenorMessage` and `SwapQuoteMessage`; pydantic admits the four units.
pub record SwapQuoteMessage : Type 0 where
  pub tenor_value : ℤ
  pub tenor_unit : TenorUnit
  pub par_rate : Decimal

pub record SwapQuoteSnapshotMessage : Type 0 where
  pub quote_set_id : String
  pub as_of : DateTime
  pub quotes : List SwapQuoteMessage

pub record CurveNodeMessage : Type 0 where
  pub pillar_date : Date
  pub discount_factor : Decimal

pub record CurveSnapshotMessage : Type 0 where
  pub curve_id : String
  pub reference_date : Date
  pub as_of : DateTime
  pub nodes : List CurveNodeMessage

unfoldable pub quotes_to_domain : List SwapQuoteMessage → Outcome (List SwapQuote)
quotes_to_domain [] = ok []
quotes_to_domain (q ∷ qs) =
    let rest = quotes_to_domain qs in
    bind (make_tenor q.tenor_value q.tenor_unit)
      λ t. bind rest (λ more. ok (record { tenor = t; par_rate = q.par_rate } ∷ more))

unfoldable pub nodes_to_domain : List CurveNodeMessage → Outcome (List CurveNode)
nodes_to_domain [] = ok []
nodes_to_domain (n ∷ ns) =
    let rest = nodes_to_domain ns in
    bind (make_curve_node n.pillar_date n.discount_factor) λ m. bind rest (λ more. ok (m ∷ more))

-- `is_blank` is `not text.strip()`.
module _ (is_blank : String → Bool) where
  -- `SwapQuoteSnapshotMapper.to_domain`
  unfoldable pub snapshot_to_domain : SwapQuoteSnapshotMessage → Outcome SwapQuoteSnapshot
  unfolding quotes_to_domain
  snapshot_to_domain m = bind (make_quote_set_id is_blank m.quote_set_id) λ i.
      bind (aware_datetime m.as_of)
        λ t. bind (quotes_to_domain m.quotes) λ qs. make_swap_quote_snapshot i t qs

  -- `CurveSnapshotMapper.to_domain`
  unfoldable pub curve_to_domain : CurveSnapshotMessage → Outcome MarketCurve
  unfolding nodes_to_domain
  curve_to_domain m = bind (make_curve_id is_blank m.curve_id) λ i.
      bind (aware_datetime m.as_of) λ t.
        bind (nodes_to_domain m.nodes)
          λ ns. make_market_curve i m.reference_date t ns log_linear_discount

  -- The loop of `subscribe` over the payloads received: a payload that is no UTF-8 text or no
  -- message is `none` and is skipped, and so is a message that the domain refuses.
  unfoldable pub received_snapshots :
      List (Option SwapQuoteSnapshotMessage) → List SwapQuoteSnapshot
  received_snapshots [] = []
  received_snapshots (none ∷ rest) = received_snapshots rest
  received_snapshots (some m ∷ rest) =
      let more = received_snapshots rest in
      elim (snapshot_to_domain m) [ ok s ↦ s ∷ more | raise x ↦ more ]
