-- ===== src/Ois/Building/Store.antt =====
-- The curves that a worker holds.
use price_streaming.Prelude.{
  ==_iff, All, Bool-cases, List, Outcome, Outcome-cases, String_eq, [], arith, false, inl, inr, ok,
  refl, some, subst, sym, ◌==◌, ◌∙◌, ◌∷◌, ◌≡◌,
}
use price_streaming.Dict
use price_streaming.Dict.{Dict, get-put}
use price_streaming.Rates.{SwapConvention}
use price_streaming.Product.{Date}
use price_streaming.Curve.{
  DateTime, CurveId, CurveNode, MarketCurve, CurveStore, SwapQuoteSnapshot, make_curve_node,
  check_nodes, not_above_zero, make_market_curve, log_linear_discount, put_curve,
}
use price_streaming.Curve.Shape.{IsTermStructure, make_market_curve-IsTermStructure}
use price_streaming.Curve.Messages.{CurveNodeMessage, nodes_to_domain}
use price_streaming.Ois.{QlSettings, with_evaluation_date}
use price_streaming.Ois.Building.{
  RateHelper, validate_convention, build_nodes, build_curve, execute_build, consume_market_data,
}

-- A curve that can be priced with: a term structure of positive discount factors.
pub record IsUsable (c : MarketCurve) : Type 0 where
  pub term_structure : IsTermStructure c.reference_date c.nodes
  pub positive : All (λ n. not_above_zero n.discount_factor ≡ false) c.nodes

nodes_to_domain-positive :
    (ms : List CurveNodeMessage) (ns : List CurveNode)
    → nodes_to_domain ms ≡ ok ns
    → All (λ n. not_above_zero n.discount_factor ≡ false) ns
unfolding nodes_to_domain make_curve_node
nodes_to_domain-positive [] [] h = tt
nodes_to_domain-positive [] (n ∷ ns) h = absurd (cc h)
nodes_to_domain-positive (m ∷ ms) ns h = elim (Bool-cases (not_above_zero m.discount_factor)) [
  | inl below ↦ absurd (cc (rw below at h))
  | inr above ↦ elim (Outcome-cases (nodes_to_domain ms)) [
    | inr (x, bad) ↦ absurd (cc (rw (above, bad) at h))
    | inl (more, good) ↦
        let n : CurveNode = record {
          pillar_date = m.pillar_date;
          discount_factor = m.discount_factor;
        } in
        let e : ok (n ∷ more) ≡ ok ns = rw (above, good) at h in
        let e' : n ∷ more ≡ ns = cc e in
        subst (All (λ n. not_above_zero n.discount_factor ≡ false)) e'
          (above, nodes_to_domain-positive ms more good)
  ]
]

made-IsUsable :
    (i : CurveId) (reference : Date) (as_of : DateTime) (ms : List CurveNodeMessage)
    (ns : List CurveNode) (c : MarketCurve)
    → nodes_to_domain ms ≡ ok ns
    → make_market_curve i reference as_of ns log_linear_discount ≡ ok c
    → (c.curve_id ≡ i) × IsUsable c
unfolding make_market_curve
made-IsUsable i reference as_of ms ns c read h = elim (Outcome-cases (check_nodes reference ns)) [
  | inr (x, bad) ↦ absurd (cc (rw bad at h))
  | inl (u, good) ↦
      let made : MarketCurve = record {
        curve_id = i;
        reference_date = reference;
        as_of = as_of;
        nodes = ns;
        interpolation = log_linear_discount;
      } in
      let accepted : make_market_curve i reference as_of ns log_linear_discount ≡ ok made =
        rw good refl in
      let e : made ≡ c = cc (sym accepted ∙ h) in
      subst (λ (k : MarketCurve). (k.curve_id ≡ i) × IsUsable k) e
        (
          refl,
          record {
            term_structure =
                (make_market_curve-IsTermStructure i reference as_of ns log_linear_discount).0
                  accepted;
            positive = nodes_to_domain-positive ms ns read;
          },
        )
]

-- Each stored curve stands under its own id and can be priced with.
abbrev pub IsCurveStore : CurveStore → Type 0
IsCurveStore store =
    (i : CurveId) (c : MarketCurve) → Dict.get store i ≡ some c → (c.curve_id ≡ i) × IsUsable c

module _ (bootstrap : Date → List RateHelper → Outcome (List CurveNodeMessage)) where
  date-build_curve :
      (i : CurveId) (sn : SwapQuoteSnapshot) (k : SwapConvention) (s : QlSettings)
      → (build_curve bootstrap i sn k s).1 ≡ s
  unfolding build_curve with_evaluation_date build_nodes
  date-build_curve i sn k s = ground arith

  build_curve-IsUsable :
      (i : CurveId) (sn : SwapQuoteSnapshot) (k : SwapConvention) (s : QlSettings) (c : MarketCurve)
      → (build_curve bootstrap i sn k s).0 ≡ ok c
      → (c.curve_id ≡ i) × IsUsable c
  unfolding build_curve with_evaluation_date
  build_curve-IsUsable i sn k s c h = elim (Outcome-cases (validate_convention k)) [
    | inr (x, bad) ↦ absurd (cc (rw (build_curve, bad) at h))
    | inl (u, good) ↦
        let at_date = record s { evaluation_date = sn.as_of.local_date } in
        elim (Outcome-cases (build_nodes bootstrap sn k at_date).0) [
          | inr (x, bad) ↦ absurd (cc (rw (build_curve, good, bad) at h))
          | inl (ms, built) ↦ elim (Outcome-cases (nodes_to_domain ms)) [
            | inr (x, bad) ↦ absurd (cc (rw (build_curve, good, built, bad) at h))
            | inl (ns, read) ↦
                made-IsUsable i sn.as_of.local_date sn.as_of ms ns c read
                  (rw (build_curve, good, built, read) at h)
          ]
        ]
  ]

  execute_build-IsCurveStore :
      (i : CurveId) (sn : SwapQuoteSnapshot) (k : SwapConvention) (s : QlSettings)
      (store : CurveStore)
      → IsCurveStore store
      → ((execute_build bootstrap i sn k (s, store)).1.0 ≡ s)
        × IsCurveStore (execute_build bootstrap i sn k (s, store)).1.1
  unfolding execute_build put_curve
  execute_build-IsCurveStore i sn k s store h =
      elim (Outcome-cases (build_curve bootstrap i sn k s).0) [
        | inr (x, bad) ↦ rw (execute_build, bad) (date-build_curve i sn k s, h)
        | inl (c, built) ↦
            let usable = build_curve-IsUsable i sn k s c built in
            rw (execute_build, built)
              (
                date-build_curve i sn k s,
                λ j c' e. elim (Bool-cases (c.curve_id == j)) [
                  | inl same ↦
                      let e' : c ≡ c' = ground (arith, e, same, get-put store c.curve_id j c) in
                      subst (λ (q : MarketCurve). (q.curve_id ≡ j) × IsUsable q) e'
                        ((==_iff c.curve_id j).0 same, usable.1)
                  | inr other ↦ h j c' (ground (arith, e, other, get-put store c.curve_id j c))
                ],
              )
      ]

  -- Whatever quote snapshots arrive and whatever QuantLib raises or returns, from a store where this
  -- holds: every curve that the worker holds stands under its own id, begins at its reference date
  -- with factor 1, has strictly increasing dates and positive factors; and the evaluation date that
  -- QuantLib shares is what it was.
  pub consume_market_data-IsCurveStore :
      (i : CurveId) (k : SwapConvention) (sns : List SwapQuoteSnapshot) (s : QlSettings)
      (store : CurveStore)
      → IsCurveStore store
      → ((consume_market_data bootstrap i k sns (s, store)).1.0 ≡ s)
        × IsCurveStore (consume_market_data bootstrap i k sns (s, store)).1.1
  unfolding consume_market_data
  consume_market_data-IsCurveStore i k [] s store h = (refl, h)
  consume_market_data-IsCurveStore i k (sn ∷ sns) s store h =
      let (date, kept) = execute_build-IsCurveStore i sn k s store h in
      elim (Outcome-cases (execute_build bootstrap i sn k (s, store)).0) [
        | inr (x, bad) ↦ rw (consume_market_data, bad) (date, kept)
        | inl (c, good) ↦
            let w = (execute_build bootstrap i sn k (s, store)).1 in
            let (date', kept') = consume_market_data-IsCurveStore i k sns w.0 w.1 kept in
            rw (consume_market_data, good) (date' ∙ date, kept')
      ]
