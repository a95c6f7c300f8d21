-- ===== src/Ois/Pricing.antt =====
-- A swap that is priced: its legs, and the curve that its floating leg is projected with.
use price_streaming.Prelude.{
  All, Bool, List, Outcome, Outcome-cases, String_eq, [], ap, arith, bind, false, filter, if_ind,
  inl, inr, int_eq_iff, ok, refl, subst, sym, true, ℕ, ◌↔◌, ◌∙◌, ◌∷◌, ◌≡◌,
}
use price_streaming.Product.{Decimal, Currency, jpy}
use price_streaming.Rates.{
  decimal_eq, FloatingRateIndex, fixed, floating, InterestRatePayout, InterestRateSwap,
}
use price_streaming.Curve.{CurveId, MarketCurve}
use price_streaming.Dependencies.{
  MarketConfiguration, PricingDependencies, projection_curve_for, projection_curve, resolve,
}
use price_streaming.Dependencies.Coverage.{rate-cases, resolve_lem}
use price_streaming.Ois.{
  DiscountCurve, build_discount_curve, curve_arguments, to_quantlib_period, QuantLib,
  OvernightIndexedSwap, frequency_eq, side_eq, is_jpy, is_fixed, is_floating, only, extract_legs,
  validate, overnight_index, build_legs, swap_of, build, PricingResult, QlSettings,
  with_evaluation_date, price_block, price,
}

-- The two legs fit: equal amounts, opposite sides, the same period, and payments with the period.
pub record IsMatched (f g : InterestRatePayout) : Type 0 where
  pub same_amount : decimal_eq f.notional_schedule.amount g.notional_schedule.amount ≡ true
  pub opposite_sides : side_eq f.payer_receiver g.payer_receiver ≡ false
  pub same_start :
      f.calculation_period_dates.effective_date ≡ g.calculation_period_dates.effective_date
  pub same_end :
      f.calculation_period_dates.termination_date ≡ g.calculation_period_dates.termination_date
  pub same_frequency :
      frequency_eq f.calculation_period_dates.frequency g.calculation_period_dates.frequency ≡ true
  pub paid_each_period :
      frequency_eq f.payment_dates.payment_frequency f.calculation_period_dates.frequency ≡ true
  pub received_each_period :
      frequency_eq g.payment_dates.payment_frequency g.calculation_period_dates.frequency ≡ true
  pub same_lag :
      f.payment_dates.payment_lag_business_days ≡ g.payment_dates.payment_lag_business_days

is_jpy-true : (c : Currency) → is_jpy c ≡ true
is_jpy-true jpy = refl

validate-IsMatched : (f g : InterestRatePayout) → (validate f g ≡ ok tt) ↔ IsMatched f g
unfolding validate
validate-IsMatched f g =
    let lag =
      int_eq_iff f.payment_dates.payment_lag_business_days
        g.payment_dates.payment_lag_business_days in
    let jpy_f = is_jpy-true f.notional_schedule.money_currency in
    let jpy_g = is_jpy-true g.notional_schedule.money_currency in
    (
      λ h. record {
        same_amount = ground (arith, h, jpy_f, jpy_g);
        opposite_sides = ground (arith, h, jpy_f, jpy_g);
        same_start = ground (arith, h, jpy_f, jpy_g);
        same_end = ground (arith, h, jpy_f, jpy_g);
        same_frequency = ground (arith, h, jpy_f, jpy_g);
        paid_each_period = ground (arith, h, jpy_f, jpy_g);
        received_each_period = ground (arith, h, jpy_f, jpy_g);
        same_lag = lag.0 (ground (arith, h, jpy_f, jpy_g));
      },
      λ m. ground (
        arith,
        jpy_f,
        jpy_g,
        m.same_amount,
        m.opposite_sides,
        m.same_start,
        m.same_end,
        m.same_frequency,
        m.paid_each_period,
        m.received_each_period,
        lag.1 m.same_lag,
      ),
    )

-- The constructors of QuantLib take what `build` gives them: the curve, the schedule and the swap.
pub record IsMade (ql : QuantLib) (f : InterestRatePayout) (rate spread : Decimal) (c : MarketCurve)
    : Type 0 where
  pub curve_made : ql.discount_curve (curve_arguments c) ≡ ok tt
  pub schedule_made :
      ql.schedule f.calculation_period_dates.effective_date
        f.calculation_period_dates.termination_date
        (to_quantlib_period f.calculation_period_dates.frequency)
      ≡ ok tt
  pub swap_made :
      ql.overnight_indexed_swap (swap_of f rate "JPY-TONA" spread (curve_arguments c)) ≡ ok tt

module _ (d : PricingDependencies) (f g : InterestRatePayout) where
  extract_legs_pair :
      (rate spread : Decimal) (index : FloatingRateIndex)
      → f.rate_specification ≡ fixed rate
      → g.rate_specification ≡ floating index spread
      → extract_legs (f ∷ g ∷ []) ≡ ok (f, g)
  unfolding extract_legs is_fixed is_floating only
  extract_legs_pair rate spread index hf hg = ground (arith, hf, hg)

  build_legs_tona :
      (ql : QuantLib) (rate spread : Decimal) (c : MarketCurve)
      → projection_curve_for d "JPY-TONA" ≡ ok c
      → IsMade ql f rate spread c
      → build_legs ql d f rate "JPY-TONA" spread
        ≡ ok (swap_of f rate "JPY-TONA" spread (curve_arguments c))
  unfolding build_legs overnight_index build_discount_curve
  build_legs_tona ql rate spread c found made =
      rw (found, made.curve_made, made.schedule_made, made.swap_made) refl

  -- A swap of a fixed leg and then a floating leg on JPY-TONA whose projection curve is there, with terms
  -- from which QuantLib makes its objects, is handed to QuantLib, with the terms of the fixed leg,
  -- the spread and that curve, if and only if the legs fit: equal amounts, opposite sides, the same
  -- period, payments with the period, and equal lags.
  pub build-IsMatched :
      (ql : QuantLib) (rate spread : Decimal) (c : MarketCurve)
      → f.rate_specification ≡ fixed rate
      → g.rate_specification ≡ floating "JPY-TONA" spread
      → projection_curve_for d "JPY-TONA" ≡ ok c
      → IsMade ql f rate spread c
      → (build ql (f ∷ g ∷ []) d ≡ ok (swap_of f rate "JPY-TONA" spread (curve_arguments c)))
        ↔ IsMatched f g
  unfolding build
  build-IsMatched ql rate spread c hf hg found made =
      let legs = extract_legs_pair rate spread "JPY-TONA" hf hg in
      let built = build_legs_tona ql rate spread c found made in
      elim (Outcome-cases (validate f g)) [
        | inl (u, good) ↦
            (λ h. (validate-IsMatched f g).0 good, λ m. ground (arith, legs, good, hf, hg, built))
        | inr (x, bad) ↦ (
          λ h. absurd (ground (arith, legs, bad, h)),
          λ m. absurd (cc (sym bad ∙ (validate-IsMatched f g).1 m)),
        )
      ]

All-kept :
    (Q : InterestRatePayout → Type 0) (p : InterestRatePayout → Bool) (xs : List InterestRatePayout)
    → All Q xs
    → All Q (filter p xs)
All-kept Q p [] h = tt
All-kept Q p (x ∷ xs) h = if_ind (All Q) (p x) (h.0, All-kept Q p xs h.1) (All-kept Q p xs h.1)

only-All :
    (Q : InterestRatePayout → Type 0) (xs : List InterestRatePayout) (p : InterestRatePayout)
    → only xs ≡ ok p
    → All Q xs
    → Q p
unfolding only
only-All Q [] p e h = absurd (cc e)
only-All Q (x ∷ []) p e h = let e' : x ≡ p = cc e in subst Q e' h.0
only-All Q (x ∷ y ∷ xs) p e h = absurd (cc e)

floating_leg-All :
    (Q : InterestRatePayout → Type 0) (swap : InterestRateSwap)
    (legs : InterestRatePayout × InterestRatePayout)
    → extract_legs swap ≡ ok legs
    → All Q swap
    → Q legs.1
unfolding extract_legs
floating_leg-All Q swap legs e h = elim (Outcome-cases (only (filter is_fixed swap))) [
  | inr (x, bad) ↦ absurd (cc (rw bad at e))
  | inl (f, ef) ↦ elim (Outcome-cases (only (filter is_floating swap))) [
    | inr (x, bad) ↦ absurd (cc (rw (ef, bad) at e))
    | inl (g, eg) ↦
        let e' : ok (f, g) ≡ ok legs = rw (ef, eg) at e in
        let e'' : (f, g) ≡ legs = cc e' in
        subst (λ (l : InterestRatePayout × InterestRatePayout). Q l.1) e''
          (only-All Q (filter is_floating swap) g eg (All-kept Q is_floating swap h))
  ]
]

-- What `build_legs` passes on is built from the curve of the dependencies.
curve-build_legs :
    (ql : QuantLib) (d : PricingDependencies) (f : InterestRatePayout) (rate : Decimal)
    (i : FloatingRateIndex) (spread : Decimal) (s : OvernightIndexedSwap)
    → build_legs ql d f rate i spread ≡ ok s
    → (s.index_name ≡ i)
      × ((c : MarketCurve) × (projection_curve_for d i ≡ ok c)
          × (s.index_curve ≡ curve_arguments c))
unfolding build_legs swap_of build_discount_curve
curve-build_legs ql d f rate i spread s h =
    let dates = f.calculation_period_dates in
    elim (Outcome-cases (projection_curve_for d i)) [
      | inr (x, bad) ↦ absurd (cc (rw bad at h))
      | inl (c, found) ↦
          let q = swap_of f rate i spread (curve_arguments c) in
          let e : q ≡ s = ground (
            arith,
            h,
            found,
            Outcome-cases (ql.discount_curve (curve_arguments c)),
            Outcome-cases (overnight_index i),
            Outcome-cases (
                ql.schedule dates.effective_date dates.termination_date
                  (to_quantlib_period dates.frequency)),
            Outcome-cases (ql.overnight_indexed_swap q),
          ) in
          (
            ap (λ (o : OvernightIndexedSwap). o.index_name) (sym e),
            (c, found, ap (λ (o : OvernightIndexedSwap). o.index_curve) (sym e)),
          )
    ]

module _ (ql : QuantLib) (get : CurveId → Outcome MarketCurve) (market : MarketConfiguration) where
  -- When the dependencies of a swap are resolved and the swap is handed to QuantLib with them, its
  -- floating leg is projected with the curve that the configuration names for its index.
  pub build-resolve :
      (swap : InterestRateSwap) (d : PricingDependencies) (s : OvernightIndexedSwap)
      → resolve get market swap ≡ ok d
      → build ql swap d ≡ ok s
      → (c : MarketCurve) × (projection_curve get market s.index_name ≡ ok c)
        × (s.index_curve ≡ curve_arguments c)
  unfolding build
  build-resolve swap d s resolved h = elim (Outcome-cases (extract_legs swap)) [
    | inr (x, bad) ↦ absurd (cc (rw bad at h))
    | inl (legs, el) ↦ elim (Outcome-cases (validate legs.0 legs.1)) [
      | inr (x, bad) ↦ absurd (cc (rw (el, bad) at h))
      | inl (u, good) ↦ elim (rate-cases legs.0.rate_specification) [
        | inr (i, sp, rf) ↦ absurd (ground (arith, el, good, rf, h))
        | inl (rate, rf) ↦ elim (rate-cases legs.1.rate_specification) [
          | inl (r, rg) ↦ absurd (ground (arith, el, good, rf, rg, h))
          | inr (i, spread, rg) ↦
              let h' : build_legs ql d legs.0 rate i spread ≡ ok s =
                ground (arith, el, good, rf, rg, h) in
              let (name, (c, found, curve)) = curve-build_legs ql d legs.0 rate i spread s h' in
              let covered =
                floating_leg-All _ swap legs el (resolve_lem get market swap d resolved).1 in
              let covered' : projection_curve_for d i ≡ projection_curve get market i =
                rw rg at covered in
              (c, rw name (sym covered' ∙ found), curve)
        ]
      ]
    ]
  ]

module _ (ql : QuantLib)
    (engine : ℕ → DiscountCurve → OvernightIndexedSwap → Outcome PricingResult) where
  -- Whatever a pricing raises or returns, the evaluation date that QuantLib shares is afterwards what
  -- it was before, and the engine ran, if at all, at the reference date of the discount curve, on
  -- that curve and the swap that was built.
  pub price_lem :
      (swap : InterestRateSwap) (d : PricingDependencies) (s : QlSettings)
      → price ql engine swap d s ≡ (
        bind
            (build_discount_curve ql d.discount_curve)
            λ curve. bind (build ql swap d) (engine d.discount_curve.reference_date curve),
        s,
      )
  unfolding price with_evaluation_date price_block
  price_lem swap d s = refl
