-- ===== src/Session/Store.antt =====
-- infrastructure/application/pricing/adapter/sql_alchemy_pricing_session_store.py,
-- sql_alchemy_pricing_session_unit_of_work.py, and `PricingSessionOrm` of postgres/models.py.
pub mod Roundtrip
use price_streaming.Prelude.{
  Action, Bool, List, Option, Outcome, String, String_eq, [], bind, database_error, if◌then◌else◌,
  none, ok, raise, some, ℕ, ◌==◌, ◌∷◌,
}
use price_streaming.Dict
use price_streaming.Dict.{Dict, values}
use price_streaming.Product.{
  Texts, Notional, InterestRateSwap, notional_str, parse_date, pay_receive, pay_receive_str,
  currency, currency_str,
}
use price_streaming.Session.{
  MarketDataId, SwapPricingRequest, PricingSession, active, StatusValue, status, status_text,
  status_to_str, to_str, from_str,
}

-- The JSON column `request`, with its object `product` laid out.
pub record PricingSessionOrm : Type 0 where
  pub request_id : String
  pub revision : ℕ
  pub notional : String
  pub effective_date : String
  pub maturity_date : String
  pub fixed_leg : String
  pub swap_currency : String
  pub dependencies : List String
  pub row_status : String

abbrev pub SessionTable : Type 0
SessionTable = Dict String PricingSessionOrm

-- A unit of work: the rows as committed, and as this transaction sees them.
pub record Uow : Type 0 where
  pub committed : SessionTable
  pub working : SessionTable

-- `__aenter__`
unfoldable pub enter : SessionTable → Uow
enter table = record { committed = table; working = table }

unfoldable pub commit : (commit_ok : Bool) → Action Uow Unit
commit commit_ok u =
    if commit_ok then (ok tt, record u { committed = u.working }) else (raise database_error, u)

unfoldable pub rollback : Uow → Uow
rollback u = record u { working = u.committed }

-- `__aexit__`: an exception rolls back, and what was not committed is gone.
unfoldable pub exit : {A : Type 0} → Outcome A → Uow → SessionTable
unfolding rollback
exit (ok a) u = u.committed
exit (raise x) u = (rollback u).committed

module _ (t : Texts) where
  unfoldable pub to_orm : PricingSession → Outcome PricingSessionOrm
  unfolding notional_str pay_receive_str currency_str
  to_orm s = bind (status_to_str s.session_status) λ st. ok (record {
    request_id = s.request.request_id;
    revision = s.request.revision;
    notional = notional_str t s.request.product.notional;
    effective_date = t.isoformat s.request.product.effective_date;
    maturity_date = t.isoformat s.request.product.maturity_date;
    fixed_leg = pay_receive_str s.request.product.fixed_leg;
    swap_currency = currency_str s.request.product.swap_currency;
    dependencies = s.dependencies;
    row_status = st;
  })

  unfoldable pub save : PricingSession → Action Uow Unit
  save s u = elim (to_orm s) [
    | raise x ↦ (raise x, u)
    | ok row ↦ (ok tt, record u { working = Dict.put u.working row.request_id row })
  ]

  -- The request of a row: `notional` stays the text of the column.
  unfoldable pub read_request : PricingSessionOrm → Outcome SwapPricingRequest
  unfolding parse_date pay_receive currency
  read_request r = bind (parse_date t r.effective_date) λ effective.
      bind (parse_date t r.maturity_date) λ maturity. bind (pay_receive r.fixed_leg) λ leg.
        bind (currency r.swap_currency) λ cur. ok (record {
          request_id = r.request_id;
          revision = r.revision;
          product = record {
            notional = Notional.text r.notional;
            effective_date = effective;
            maturity_date = maturity;
            fixed_leg = leg;
            swap_currency = cur;
          };
        })

  -- The row that `get_by_id` returns, if there is one: `status` stays the text of the column.
  unfoldable pub read_row : PricingSessionOrm → Outcome PricingSession
  read_row r = bind (read_request r) λ q. ok (record {
    request = q;
    dependencies = r.dependencies;
    session_status = status_text r.row_status;
  })

  unfoldable pub get_by_id : String → SessionTable → Outcome (Option PricingSession)
  unfolding read_row
  get_by_id request_id table = elim (Dict.get table request_id) [
    | none ↦ ok none
    | some r ↦ bind (read_row r) (λ s. ok (some s))
  ]

  unfoldable pub read_active : PricingSessionOrm → Outcome PricingSession
  read_active r = bind (read_request r) λ q.
      bind (from_str r.row_status)
        λ st. ok (record { request = q; dependencies = r.dependencies; session_status = status st })

  -- `select(...).where(status == ACTIVE)`, and each row read.
  unfoldable pub read_rows : List PricingSessionOrm → Outcome (List PricingSession)
  read_rows [] = ok []
  read_rows (r ∷ rows) =
      let rest = read_rows rows in
      if r.row_status == to_str active
      then bind (read_active r) (λ s. bind rest (λ ss. ok (s ∷ ss)))
      else rest

  unfoldable pub list_active : SessionTable → Outcome (List PricingSession)
  unfolding read_rows
  list_active table = read_rows (values table)
