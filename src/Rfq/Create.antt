-- ===== src/Rfq/Create.antt =====
-- Creating an RFQ: what is stored, and what an error leaves.
use price_streaming.Prelude.{
  ==_iff, Action, Outcome-cases, PyError, String, String_eq, arith, inl, inr, none, ok, raise, refl,
  some, true, ℕ, ◌≡◌,
}
use price_streaming.Dict
use price_streaming.Dict.{get-put}
use price_streaming.Product.{
  Decimal, Date, Notional, PayReceive, Currency, notional_str, to_decimal, pay_receive,
  pay_receive_str,
}
use price_streaming.Session.Store.Roundtrip.{
  parse_date-isoformat, pay_receive-pay_receive_str, currency-currency_str,
}
use price_streaming.Outbox.{OutboxRow, add_event}
use price_streaming.Rfq.{
  RequestForQuote, RfqTables, Service, register_rfq, pull_domain_events, in_transaction,
  begin_session, commit_session, exit_session, rollback_session, session_block, rfq_row, rfq_of_row,
  save_rfq, get_rfq, integration_event, to_outbox_event, rfq_registered_handler, dispatch_all,
  create_registered, create_rfq,
}

in_transaction_fails :
    {A : Type 0} (sv : Service) (body : Action RfqTables A) (s : RfqTables) (x : PyError)
    → (in_transaction sv body s).0 ≡ raise x
    → (in_transaction sv body s).1 ≡ s
unfolding in_transaction session_block commit_session exit_session begin_session rollback_session
in_transaction_fails sv body s x h = ground (arith, h)

module _ (sv : Service) where
  to_decimal-decimal_str :
      (d : Decimal) → to_decimal sv.texts (Notional.text (sv.texts.decimal_str d)) ≡ ok d
  unfolding to_decimal
  to_decimal-decimal_str d = rw (to_decimal, sv.texts.decimal-decimal_str d)

  -- The RFQ that a creation registers.
  abbrev pub created :
      Decimal → Date → Date → PayReceive → Currency → String → String → ℕ → RequestForQuote
  created d effective maturity leg cur trader by at =
      register_rfq (sv.uuid 0)
        (record {
          notional = Notional.decimal d;
          effective_date = effective;
          maturity_date = maturity;
          fixed_leg = leg;
          swap_currency = cur;
        })
        trader by at

  pub rfq_of_row-rfq_row :
      (d : Decimal) (effective maturity : Date) (leg : PayReceive) (cur : Currency)
      (trader by : String) (at : ℕ)
      → rfq_of_row sv (rfq_row sv (created d effective maturity leg cur trader by at))
        ≡ ok (pull_domain_events (created d effective maturity leg cur trader by at)).1
  unfolding rfq_row register_rfq pull_domain_events notional_str rfq_of_row
  rfq_of_row-rfq_row d effective maturity leg cur trader by at = rw (
    to_decimal-decimal_str d,
    parse_date-isoformat sv.texts effective,
    parse_date-isoformat sv.texts maturity,
    pay_receive-pay_receive_str leg,
    currency-currency_str cur,
  )

  -- The outbox row of a registered RFQ.
  abbrev pub new_row : RequestForQuote → ℕ → OutboxRow
  new_row rfq at = record {
    event = to_outbox_event sv (
        integration_event sv (sv.uuid 1) (record {
          rfq_id = rfq.rfq_id;
          revision = rfq.revision;
          product = rfq.product;
          assigned_trader = rfq.assigned_trader;
          registered_by = rfq.registered_by;
          occurred_at = at;
        }));
    claim_id = none;
    claimed_until = none;
    attempt_count = 0;
    published_at = none;
  }

  pub create_rfq_ok :
      (d : Decimal) (effective maturity : Date) (leg : PayReceive) (cur : Currency)
      (trader by : String) (at : ℕ) (s : RfqTables)
      → sv.commit_ok ≡ true
      → Dict.get s.outbox (sv.uuid 1) ≡ none
      → create_rfq sv d effective maturity (pay_receive_str leg) cur trader by at s ≡ (
          let rfq = created d effective maturity leg cur trader by at in
          (
            ok (sv.uuid 0),
            record {
              rfqs = Dict.put s.rfqs (sv.uuid 0) (rfq_row sv rfq);
              outbox = Dict.put s.outbox (sv.uuid 1) (new_row rfq at);
            },
          ))
  unfolding create_rfq create_registered in_transaction session_block commit_session begin_session
      exit_session rollback_session dispatch_all rfq_registered_handler add_event to_outbox_event
      integration_event register_rfq pull_domain_events save_rfq
  create_rfq_ok d effective maturity leg cur trader by at s committed new =
      rw (create_rfq, pay_receive-pay_receive_str leg) (ground (arith, new, committed))

  -- When the commit succeeds and no outbox row has the fresh event id: a creation returns the
  -- RFQ's id, the RFQ is read back by that id as it was registered, at revision 1, and the outbox
  -- has a row for it that nobody has claimed and that is not published.
  pub create_rfq_lem :
      (d : Decimal) (effective maturity : Date) (leg : PayReceive) (cur : Currency)
      (trader by : String) (at : ℕ) (s : RfqTables)
      → sv.commit_ok ≡ true
      → Dict.get s.outbox (sv.uuid 1) ≡ none
      → ((create_rfq sv d effective maturity (pay_receive_str leg) cur trader by at s).0
          ≡ ok (sv.uuid 0))
        × (get_rfq sv
              (sv.uuid 0)
              (create_rfq sv d effective maturity (pay_receive_str leg) cur trader by at s).1
            ≡ ok (some (pull_domain_events (created d effective maturity leg cur trader by at)).1))
        × ((row : OutboxRow) × (Dict.get
                (create_rfq sv d effective maturity
                  (pay_receive_str leg)
                  cur
                  trader
                  by
                  at
                  s).1.outbox
                (sv.uuid 1)
              ≡ some row)
            × (row.event.aggregate_id ≡ sv.uuid 0)
            × (row.claimed_until ≡ none)
            × (row.published_at ≡ none))
  unfolding get_rfq to_outbox_event integration_event register_rfq
  create_rfq_lem d effective maturity leg cur trader by at s committed new =
      let rfq = created d effective maturity leg cur trader by at in
      rw (create_rfq_ok d effective maturity leg cur trader by at s committed new) (
        refl,
        ground (
          arith,
          get-put s.rfqs (sv.uuid 0) (sv.uuid 0) (rfq_row sv rfq),
          ==_iff (sv.uuid 0) (sv.uuid 0),
          rfq_of_row-rfq_row d effective maturity leg cur trader by at,
        ),
        (
          new_row rfq at,
          ground (
            arith,
            get-put s.outbox (sv.uuid 1) (sv.uuid 1) (new_row rfq at),
            ==_iff (sv.uuid 1) (sv.uuid 1),
          ),
          refl,
          refl,
          refl,
        ),
      )

  -- Whatever makes a creation raise, a bad leg, an event id that is taken or the commit: the tables
  -- are as they were, with neither the RFQ nor an event.
  pub create_rfq_fails :
      (notional : Decimal) (effective maturity : Date) (leg : String) (cur : Currency)
      (trader by : String) (at : ℕ) (s : RfqTables) (x : PyError)
      → (create_rfq sv notional effective maturity leg cur trader by at s).0 ≡ raise x
      → (create_rfq sv notional effective maturity leg cur trader by at s).1 ≡ s
  unfolding create_rfq create_registered
  create_rfq_fails notional effective maturity leg cur trader by at s x h =
      elim (Outcome-cases (pay_receive leg)) [
        | inr (y, bad) ↦ rw (create_rfq, bad) refl
        | inl (l, good) ↦
            rw (create_rfq, good) (in_transaction_fails sv _ s x (rw (create_rfq, good) at h))
      ]
