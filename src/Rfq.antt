-- ===== src/Rfq.antt =====
-- The RFQ aggregate and how it is created: domain/request_for_quote, application/rfq with
-- application/domain_event_dispatcher.py, and the repository and unit of work below infrastructure.
pub mod Create
pub mod Routes
pub mod Sent
pub mod Changes
use price_streaming.Prelude.{
  Action, Bool, List, Option, Outcome, String, String_eq, [], bind, continue, database_error,
  if◌then◌else◌, none, ok, raise, some, ℕ, ◌+◌, ◌∷◌,
}
use price_streaming.Dict
use price_streaming.Dict.{Dict}
use price_streaming.Product.{
  Decimal, Date, Texts, Notional, InterestRateSwap, PayReceive, Currency, notional_str, to_decimal,
  parse_date, pay_receive, pay_receive_str, currency, currency_str,
}
use price_streaming.Pricing.{RfqRegisteredEvent}
use price_streaming.Outbox.{OutboxEvent, OutboxTable, add_event}

-- `RfqRegistredDomainEvent`
pub record RfqRegisteredDomainEvent : Type 0 where
  pub rfq_id : String
  pub revision : ℕ
  pub product : InterestRateSwap
  pub assigned_trader : String
  pub registered_by : String
  pub occurred_at : ℕ

pub record RequestForQuote : Type 0 where
  pub rfq_id : String
  pub revision : ℕ
  pub product : InterestRateSwap
  pub assigned_trader : String
  pub registered_by : String
  pub domain_events : List RfqRegisteredDomainEvent

-- `RequestForQuote.register`
unfoldable pub register_rfq : String → InterestRateSwap → String → String → ℕ → RequestForQuote
register_rfq rfq_id product assigned_trader registered_by occurred_at = record {
  rfq_id = rfq_id;
  revision = 1;
  product = product;
  assigned_trader = assigned_trader;
  registered_by = registered_by;
  domain_events =
      record {
        rfq_id = rfq_id;
        revision = 1;
        product = product;
        assigned_trader = assigned_trader;
        registered_by = registered_by;
        occurred_at = occurred_at;
      }
      ∷ [];
}

unfoldable pub pull_domain_events :
    RequestForQuote → List RfqRegisteredDomainEvent × RequestForQuote
pull_domain_events rfq = (rfq.domain_events, record rfq { domain_events = [] })

unfoldable pub change_product : RequestForQuote → InterestRateSwap → RequestForQuote
change_product rfq product = record rfq { product = product; revision = rfq.revision + 1 }

-- `RfqOrm`, with its JSON column laid out.
pub record RfqOrm : Type 0 where
  pub rfq_id : String
  pub revision : ℕ
  pub notional : String
  pub effective_date : String
  pub maturity_date : String
  pub fixed_leg : String
  pub rfq_currency : String
  pub assigned_trader : String
  pub registered_by : String

-- The tables that the unit of work of RFQs writes.
pub record RfqTables : Type 0 where
  pub rfqs : Dict String RfqOrm
  pub outbox : OutboxTable

-- What the service meets: text forms, the JSON of an event, random ids, the time of the outbox
-- event, whether the commit succeeds, and the order in which a `select` without `ORDER BY` gives the
-- rows of the table.
pub record Service : Type 0 where
  pub texts : Texts
  pub model_dump : RfqRegisteredEvent → String
  pub uuid : ℕ → String
  pub now : ℕ
  pub commit_ok : Bool
  pub row_order : List RfqOrm → List RfqOrm

-- A session in its transaction: what the database holds, and what the session has of it with its own
-- writes.
pub record RfqSession : Type 0 where
  pub committed : RfqTables
  pub working : RfqTables

-- `__aenter__`
unfoldable pub begin_session : RfqTables → RfqSession
begin_session s = record { committed = s; working = s }

-- `commit`, which the database may refuse.
unfoldable pub commit_session : Service → Action RfqSession Unit
commit_session sv ss =
    if sv.commit_ok
    then (ok tt, record ss { committed = ss.working })
    else (raise database_error, ss)

unfoldable pub rollback_session : RfqSession → RfqSession
rollback_session ss = record ss { working = ss.committed }

-- `__aexit__`: a rollback if the block raised; closing a session drops what it did not commit, so that
-- the database holds what was committed.
unfoldable pub exit_session : {A : Type 0} → Outcome A → RfqSession → RfqTables
unfolding rollback_session
exit_session (raise x) ss = (rollback_session ss).committed
exit_session (ok a) ss = ss.committed

-- What the block does with the repositories of its session, and then `commit` as its last statement.
unfoldable pub session_block : {A : Type 0} → Service → Action RfqTables A → Action RfqSession A
unfolding commit_session
session_block sv body ss =
    let (o, working) = body ss.working in
    elim o [
      | raise x ↦ (raise x, record ss { working = working })
      | ok a ↦
          let (done, ss') = commit_session sv (record ss { working = working }) in
          (bind done (λ _. ok a), ss')
    ]

-- `async with uow_factory() as uow`
unfoldable pub in_transaction : {A : Type 0} → Service → Action RfqTables A → Action RfqTables A
unfolding begin_session session_block exit_session
in_transaction sv body s =
    let (o, ss) = session_block sv body (begin_session s) in (o, exit_session o ss)

module _ (sv : Service) where
  unfoldable pub rfq_row : RequestForQuote → RfqOrm
  unfolding notional_str pay_receive_str currency_str
  rfq_row rfq = record {
    rfq_id = rfq.rfq_id;
    revision = rfq.revision;
    notional = notional_str sv.texts rfq.product.notional;
    effective_date = sv.texts.isoformat rfq.product.effective_date;
    maturity_date = sv.texts.isoformat rfq.product.maturity_date;
    fixed_leg = pay_receive_str rfq.product.fixed_leg;
    rfq_currency = currency_str rfq.product.swap_currency;
    assigned_trader = rfq.assigned_trader;
    registered_by = rfq.registered_by;
  }

  -- `save`: a merge by primary key.
  unfoldable pub save_rfq : RequestForQuote → Action RfqTables Unit
  save_rfq rfq s = (ok tt, record s { rfqs = Dict.put s.rfqs rfq.rfq_id (rfq_row rfq) })

  -- `_from_orm_to_model`
  unfoldable pub rfq_of_row : RfqOrm → Outcome RequestForQuote
  unfolding to_decimal parse_date pay_receive currency
  rfq_of_row r = bind (to_decimal sv.texts (Notional.text r.notional)) λ notional.
      bind (parse_date sv.texts r.effective_date) λ effective.
        bind (parse_date sv.texts r.maturity_date) λ maturity. bind (pay_receive r.fixed_leg) λ leg.
          bind (currency r.rfq_currency) λ cur. ok (record {
            rfq_id = r.rfq_id;
            revision = r.revision;
            product = record {
              notional = Notional.decimal notional;
              effective_date = effective;
              maturity_date = maturity;
              fixed_leg = leg;
              swap_currency = cur;
            };
            assigned_trader = r.assigned_trader;
            registered_by = r.registered_by;
            domain_events = [];
          })

  -- `get_by_id`
  unfoldable pub get_rfq : String → RfqTables → Outcome (Option RequestForQuote)
  unfolding rfq_of_row
  get_rfq rfq_id s = elim (Dict.get s.rfqs rfq_id) [
    | none ↦ ok none
    | some r ↦ bind (rfq_of_row r) (λ rfq. ok (some rfq))
  ]

  -- The integration event and the outbox event of `RfqRegisteredHandler`.
  unfoldable pub integration_event : String → RfqRegisteredDomainEvent → RfqRegisteredEvent
  integration_event event_id e = record {
    event_id = event_id;
    rfq_id = e.rfq_id;
    revision = e.revision;
    product = e.product;
    assigned_trader = e.assigned_trader;
    registered_by = e.registered_by;
    occurred_at = e.occurred_at;
  }

  unfoldable pub to_outbox_event : RfqRegisteredEvent → OutboxEvent
  to_outbox_event registered = record {
    event_id = registered.event_id;
    event_type = "rfq.registered";
    schema_version = 1;
    aggregate_type = "rfq";
    aggregate_id = registered.rfq_id;
    payload = sv.model_dump registered;
    occurred_at = registered.occurred_at;
    created_at = sv.now;
  }

  -- `RfqRegisteredHandler.__call__`, with its random id.
  unfoldable pub rfq_registered_handler : String → RfqRegisteredDomainEvent → Action RfqTables Unit
  unfolding integration_event to_outbox_event
  rfq_registered_handler event_id e s =
      let (o, outbox) = add_event (to_outbox_event (integration_event event_id e)) s.outbox in
      (o, record s { outbox = outbox })

  -- `DomainEventDispatcher.dispatch` with the one handler that the service registers, for each event
  -- that the aggregate recorded.
  unfoldable pub dispatch_all : ℕ → List RfqRegisteredDomainEvent → Action RfqTables Unit
  dispatch_all n [] s = (ok tt, s)
  dispatch_all n (e ∷ es) s =
      continue (rfq_registered_handler (sv.uuid n) e s).0 (rfq_registered_handler (sv.uuid n) e s).1
        (λ _. dispatch_all (n + 1) es)

  -- `CreateRfqUseCase.execute` from the point where `PayReceive(fixed_leg)` has been read; the first
  -- random id is that of the RFQ.
  unfoldable pub create_registered :
      InterestRateSwap → String → String → (at : ℕ) → Action RfqTables String
  unfolding register_rfq pull_domain_events save_rfq
  create_registered swap assigned_trader registered_by at =
      let rfq = register_rfq (sv.uuid 0) swap assigned_trader registered_by at in
      in_transaction sv (λ s. continue (save_rfq rfq s).0 (save_rfq rfq s).1 (λ _ s'.
        continue (dispatch_all 1 (pull_domain_events rfq).0 s').0
          (dispatch_all 1 (pull_domain_events rfq).0 s').1 (λ _ s''. (ok rfq.rfq_id, s''))))

  unfoldable pub create_rfq :
      Decimal
      → Date
      → Date
      → (fixed_leg : String) → Currency
      → String
      → String
      → (at : ℕ) → Action RfqTables String
  unfolding pay_receive
  create_rfq notional effective maturity fixed_leg cur assigned_trader registered_by at s =
      elim (pay_receive fixed_leg) [
        | raise x ↦ (raise x, s)
        | ok leg ↦
            create_registered
              (record {
                notional = Notional.decimal notional;
                effective_date = effective;
                maturity_date = maturity;
                fixed_leg = leg;
                swap_currency = cur;
              })
              assigned_trader registered_by at s
      ]
