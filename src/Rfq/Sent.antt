-- ===== src/Rfq/Sent.antt =====
-- An RFQ from the request of its creation through the outbox and its publishers to a worker.
use price_streaming.Prelude.{
  ==_refl, String, String_eq, ap, bind, false, length, none, ok, refl, some, subst, sym, true, ℕ,
  ℕ_eq, ◌+◌, ◌∙◌, ◌≡◌,
}
use mathlib.Core.List.{Memᴰ}
use price_streaming.Dict
use price_streaming.Dict.{get-put}
use price_streaming.Outbox.{OutboxEvent, OutboxRow, OutboxTable, add_event, execute}
use price_streaming.Outbox.Publishers.{Relay, RelayReach, RelayStep, empty_relay, next, recorded}
use price_streaming.Outbox.Publishers.Run.{RelayReach-trans, broker_at, delivers_all}
use price_streaming.Outbox.Publishers.Delivered.{recorded_stays}
use price_streaming.Delivery.{IntegrationEventEnvelope, Wire}
use price_streaming.Delivery.Kafka
use price_streaming.Routing.{envelope}
use price_streaming.Routing.Received.{ReadsBack, read_registered, registered_event}
use price_streaming.Rfq.{RfqTables, Service, integration_event, register_rfq, to_outbox_event}
use price_streaming.Rfq.Create.{create_rfq_ok}
use price_streaming.Rfq.Routes.{CreateSwapRfqRequest, post_route}

add_event_fresh :
    (e : OutboxEvent) (t : OutboxTable)
    → Dict.get t e.event_id ≡ none
    → (add_event e t).1
      ≡ Dict.put t e.event_id (record {
        event = e;
        claim_id = none;
        claimed_until = none;
        attempt_count = 0;
        published_at = none;
      })
unfolding add_event
add_event_fresh e t h = rw (add_event, h) refl

module _ (sv : Service) (wire : Wire) (dump : IntegrationEventEnvelope → String) where
  outbox-post_route :
      (at : ℕ) (q : CreateSwapRfqRequest) (s : RfqTables)
      → sv.commit_ok ≡ true
      → Dict.get s.outbox (sv.uuid 1) ≡ none
      → (post_route sv at q s).1.outbox
        ≡ (add_event (to_outbox_event sv (registered_event sv at q)) s.outbox).1
  unfolding post_route to_outbox_event registered_event integration_event register_rfq
  outbox-post_route at q s committed new =
      rw
        (create_rfq_ok sv q.notional q.effective_date q.maturity_date q.fixed_leg q.swap_currency
          q.assigned_trader q.registered_by at s committed new)
        (sym (add_event_fresh (to_outbox_event sv (registered_event sv at q)) s.outbox new))

  event_recorded :
      (at : ℕ) (q : CreateSwapRfqRequest) (t : OutboxTable)
      → Dict.get t (sv.uuid 1) ≡ none
      → (row : OutboxRow) × (Dict.get
            (add_event (to_outbox_event sv (registered_event sv at q)) t).1
            (sv.uuid 1)
          ≡ some row)
        × (row.event ≡ to_outbox_event sv (registered_event sv at q))
  unfolding to_outbox_event registered_event
  event_recorded at q t new =
      let e = to_outbox_event sv (registered_event sv at q) in
      let row : OutboxRow = record {
        event = e;
        claim_id = none;
        claimed_until = none;
        attempt_count = 0;
        published_at = none;
      } in
      (
        row,
        ap (λ d. Dict.get d (sv.uuid 1)) (add_event_fresh e t new)
            ∙ get-put t (sv.uuid 1) (sv.uuid 1) row
            ∙ rw (==_refl (sv.uuid 1)) refl,
        refl,
      )

  -- Take a state that publishers reach from an empty outbox, and a request to create an RFQ whose commit
  -- succeeds, whose event id is fresh there and whose event pydantic reads back as it wrote it. That
  -- commit is a step of the outbox. From every state that is reached after it, with whatever claims
  -- and crashes of publishers: thirty seconds later one `execute` over the whole table, with a broker
  -- that takes events, leaves the event of the request with the broker, and from its message the
  -- Kafka subscriber of the pricing worker reads the RFQ as it was asked for.
  pub delivers_post_route :
      (now at : ℕ) (q : CreateSwapRfqRequest) (s : RfqTables) (r r' : Relay) (i : ℕ)
      (claim_id : String)
      → RelayReach (empty_relay now) r
      → s.outbox ≡ r.table
      → sv.commit_ok ≡ true
      → Dict.get s.outbox (sv.uuid 1) ≡ none
      → ReadsBack sv wire dump (registered_event sv at q)
      → RelayReach (record r { table = (post_route sv at q s).1.outbox }) r'
      → RelayStep r (record r { table = (post_route sv at q s).1.outbox })
        × ((end : Relay) × RelayReach r' end
            × (end.clock ≡ r'.clock + 30000000)
            × (end.table
                ≡ (execute
                    (broker_at (r'.clock + 30000000) (λ e. true))
                    (r'.clock + 30000000)
                    (λ j. false)
                    claim_id
                    (length r'.table)
                    r'.table).1)
            × ((e : OutboxEvent) × Memᴰ e end.sent
                × (bind (wire.read_envelope (dump (envelope e))) (Kafka.deserialize wire)
                    ≡ ok (registered_event sv at q))))
  delivers_post_route now at q s r r' i claim_id reach same committed new reads after =
      let e = to_outbox_event sv (registered_event sv at q) in
      let stored : (add_event e r.table).1 ≡ (post_route sv at q s).1.outbox =
        sym (outbox-post_route at q s committed new ∙ ap (λ t. (add_event e t).1) same) in
      let step = subst (λ t. RelayStep r (record r { table = t })) stored (recorded e) in
      let (row, at_row, own) =
        event_recorded at q r.table (subst (λ t. Dict.get t (sv.uuid 1) ≡ none) same new) in
      let at_first = subst (λ t. Dict.get t (sv.uuid 1) ≡ some row) stored at_row in
      let (row', at_row', own', _) =
        recorded_stays now (sv.uuid 1) row (next reach step) after at_first in
      let whole = RelayReach-trans (next reach step) after in
      let (end, run, clk, tbl, all_sent) = delivers_all now i claim_id whole in
      (
        step,
        (
          end,
          run,
          clk,
          tbl,
          (
            e,
            subst (λ x. Memᴰ x end.sent) (own' ∙ own) (all_sent (sv.uuid 1) row' at_row'),
            (read_registered sv wire dump (registered_event sv at q) reads).0,
          ),
        ),
      )
