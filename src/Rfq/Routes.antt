-- ===== src/Rfq/Routes.antt =====
-- Reading RFQs: application/rfq/use_case/get_rfq.py and list_rfqs.py with `list_all` of the repository,
-- and the handlers of presentation/fastapi/routers/rfq.py that create, list and get.
pub mod Listed
use price_streaming.Prelude.{
  Action, List, Outcome, String, String_eq, [], bind, continue, map, none, ok, pure, raise,
  runtime_error, some, ℕ, ℕ_eq, ◌∷◌,
}
use price_streaming.Dict
use price_streaming.Dict.{values}
use price_streaming.Product.{Decimal, Date, Notional, PayReceive, Currency, pay_receive_str}
use price_streaming.Rfq.{
  RequestForQuote, RfqOrm, RfqTables, Service, create_rfq, get_rfq, rfq_of_row,
}

-- `CreateSwapRfqRequest`, as pydantic has read it.
pub record CreateSwapRfqRequest : Type 0 where
  pub notional : Decimal
  pub effective_date : Date
  pub maturity_date : Date
  pub fixed_leg : PayReceive
  pub swap_currency : Currency
  pub assigned_trader : String
  pub registered_by : String

pub record CreateRfqResponse : Type 0 where
  pub rfq_id : String
  pub revision : ℕ

pub record RfqDto : Type 0 where
  pub rfq_id : String
  pub notional : Notional
  pub effective_date : Date
  pub maturity_date : Date
  pub fixed_leg : PayReceive
  pub swap_currency : Currency

unfoldable pub dto_of : RequestForQuote → RfqDto
dto_of rfq = record {
  rfq_id = rfq.rfq_id;
  notional = rfq.product.notional;
  effective_date = rfq.product.effective_date;
  maturity_date = rfq.product.maturity_date;
  fixed_leg = rfq.product.fixed_leg;
  swap_currency = rfq.product.swap_currency;
}

module _ (sv : Service) where
  unfoldable pub rfqs_of_rows : List RfqOrm → Outcome (List RequestForQuote)
  rfqs_of_rows [] = ok []
  rfqs_of_rows (r ∷ rs) =
      let rest = rfqs_of_rows rs in
      bind (rfq_of_row sv r) λ rfq. bind rest (λ more. ok (rfq ∷ more))

  -- `ListRfqsUseCase.execute`, which returns `list_all()`; the database chooses the order of the rows.
  unfoldable pub list_rfqs : RfqTables → Outcome (List RequestForQuote)
  unfolding rfqs_of_rows
  list_rfqs s = rfqs_of_rows (sv.row_order (values s.rfqs))

  -- `GetRfqUseCase.execute`
  unfoldable pub find_rfq : String → RfqTables → Outcome RequestForQuote
  find_rfq rfq_id s =
      bind (get_rfq sv rfq_id s)
        λ found. elim found [ none ↦ raise runtime_error | some rfq ↦ ok rfq ]

  -- The handlers `create_rfq`, `list_rfqs` and `get_rfq` of the router.
  unfoldable pub post_route : (at : ℕ) → CreateSwapRfqRequest → Action RfqTables CreateRfqResponse
  post_route at r s =
      continue
        (create_rfq sv r.notional r.effective_date r.maturity_date (pay_receive_str r.fixed_leg)
          r.swap_currency r.assigned_trader r.registered_by at s).0
        (create_rfq sv r.notional r.effective_date r.maturity_date (pay_receive_str r.fixed_leg)
          r.swap_currency r.assigned_trader r.registered_by at s).1
        (λ rfq_id. pure (record { rfq_id = rfq_id; revision = 1 }))

  unfoldable pub list_route : RfqTables → Outcome (List RfqDto)
  unfolding list_rfqs dto_of
  list_route s = bind (list_rfqs s) λ rfqs. ok (map dto_of rfqs)

  unfoldable pub get_route : String → RfqTables → Outcome RfqDto
  unfolding find_rfq dto_of
  get_route rfq_id s = bind (find_rfq rfq_id s) λ rfq. ok (dto_of rfq)
