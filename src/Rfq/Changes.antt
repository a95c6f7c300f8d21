-- ===== src/Rfq/Changes.antt =====
-- The use cases that change an RFQ and stop its pricing (application/rfq/use_case/change_rfq.py and
-- stop_rfq_pricing.py), up to the statement of each that raises, and quote specifications
-- (domain/request_for_quote/quote_specification.py).
use price_streaming.Prelude.{
  Action, List, Option, Option-cases, Outcome, Outcome-cases, PyError, String, String_eq, [], ap,
  arith, attribute_error, distinct, domain_error, if◌then◌else◌, inl, inr, none, ok, raise, refl,
  runtime_error, some, throw, true, type_error, ℕ, ℕ_eq, ◌>>◌, ◌↔◌, ◌∙◌, ◌∷◌, ◌≡◌, ◌≢◌,
}
use price_streaming.Product.{Notional, Date, PayReceive, Currency, Decimal, with_change}
use price_streaming.Rfq.{
  RequestForQuote, RfqTables, Service, change_product, get_rfq, save_rfq, in_transaction,
  begin_session, exit_session, rollback_session, session_block,
}

-- The arguments of `ChangeRfqUseCase.execute`.
pub record RfqChange : Type 0 where
  pub notional : Option Decimal
  pub effective_date : Option Date
  pub maturity_date : Option Date
  pub fixed_leg : Option PayReceive
  pub swap_currency : Option Currency

unfoldable pub decimal_notional : Option Decimal → Option Notional
decimal_notional none = none
decimal_notional (some d) = some (Notional.decimal d)

unfoldable pub changed_rfq : RfqChange → RequestForQuote → RequestForQuote
unfolding decimal_notional
changed_rfq c rfq = change_product rfq (
    with_change rfq.product (decimal_notional c.notional) c.effective_date c.maturity_date
      c.fixed_leg c.swap_currency)

module _ (sv : Service) where
  -- The block of `ChangeRfqUseCase.execute`. The unit of work has no `get_pricing_request_repository`,
  -- which is called once the RFQ has been saved, so nothing after that call runs.
  unfoldable pub change_block : String → RfqChange → Action RfqTables ℕ
  unfolding changed_rfq
  change_block rfq_id c s = elim (get_rfq sv rfq_id s) [
    | raise x ↦ (raise x, s)
    | ok none ↦ (raise runtime_error, s)
    | ok (some rfq) ↦ (save_rfq sv (changed_rfq c rfq) >> throw attribute_error) s
  ]

  unfoldable pub change_rfq : String → RfqChange → Action RfqTables ℕ
  unfolding change_block
  change_rfq rfq_id c = in_transaction sv (change_block rfq_id c)

  -- `StopRfqPricingUseCase.execute`: the event lacks required arguments, so its construction raises.
  unfoldable pub stop_rfq : String → Action RfqTables Unit
  stop_rfq rfq_id = in_transaction sv (throw type_error)

  -- Every change of an RFQ raises, whether the RFQ is there or not, and leaves the tables as they were.
  pub change_rfq_fails :
      (rfq_id : String) (c : RfqChange) (s : RfqTables)
      → (x : PyError) × (change_rfq rfq_id c s ≡ (raise x, s))
  unfolding change_rfq in_transaction change_block save_rfq session_block begin_session exit_session
      rollback_session get_rfq price_streaming.Dict.get
  change_rfq_fails rfq_id c s = elim (Outcome-cases (get_rfq sv rfq_id s)) [
    | inr (x, bad) ↦ (x, rw (change_rfq, in_transaction, change_block, bad) refl)
    | inl (found, good) ↦ elim (Option-cases found) [
      | inl missing ↦
          (runtime_error, rw (change_rfq, in_transaction, change_block, good ∙ ap ok missing) refl)
      | inr (rfq, there) ↦
          (attribute_error, rw (change_rfq, in_transaction, change_block, good ∙ ap ok there) refl)
    ]
  ]

  -- So does every stop.
  pub stop_rfq_fails : (rfq_id : String) (s : RfqTables) → stop_rfq rfq_id s ≡ (raise type_error, s)
  unfolding stop_rfq in_transaction session_block begin_session exit_session rollback_session
  stop_rfq_fails rfq_id s = refl

-- `QuoteSpecification(targets)`; a `QuoteFieldId` is its value.
unfoldable pub make_quote_specification : List String → Outcome (List String)
make_quote_specification [] =
    raise (domain_error "QuoteSpecification requires at least one quote target.")
make_quote_specification (t ∷ ts) =
    if distinct (t ∷ ts)
    then ok (t ∷ ts)
    else raise (domain_error "QuoteSpecification must have unique targets.")

-- A specification is accepted if and only if it has a target and none twice.
pub make_quote_specification_iff :
    (ts : List String) → (make_quote_specification ts ≡ ok ts) ↔ ((ts ≢ []) × (distinct ts ≡ true))
unfolding make_quote_specification
make_quote_specification_iff [] = (λ h. absurd (cc h), λ h. absurd (h.0 refl))
make_quote_specification_iff (t ∷ ts) =
    (λ h. (λ e. absurd (cc e), ground (arith, h)), λ h. ground (arith, h.1))
