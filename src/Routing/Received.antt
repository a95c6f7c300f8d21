-- ===== src/Routing/Received.antt =====
-- A created RFQ on its way from the outbox through each broker to the workers.
use price_streaming.Prelude.{
  ==_iff, List, String, String_eq, [], arith, bind, none, ok, refl, some, true, ℕ, ℕ_eq, ◌<◌, ◌∷◌,
  ◌≡◌,
}
use price_streaming.Dict
use price_streaming.Dict.{get-put}
use price_streaming.Product.{Notional}
use price_streaming.Pricing.{RfqRegisteredEvent}
use price_streaming.Outbox.{OutboxRow}
use price_streaming.Delivery.{IntegrationEventEnvelope, Wire}
use price_streaming.Delivery.Kafka
use price_streaming.Delivery.Quorum
use price_streaming.Routing.Delivered.{publish_rabbitmq-declare_quorum}
use price_streaming.Notification.Subscriber.{deserialize_registered}
use price_streaming.Rfq.{RfqTables, Service, integration_event, to_outbox_event, register_rfq}
use price_streaming.Rfq.Create.{created, new_row, create_rfq_ok}
use price_streaming.Rfq.Routes.{CreateSwapRfqRequest, post_route}
use price_streaming.Routing.{
  envelope, publish_kafka, publish_rabbitmq, declare_quorum, resolve_shard, resolve_topic,
}

-- The event that a worker is to see of a created RFQ.
unfoldable pub registered_event : Service → (at : ℕ) → CreateSwapRfqRequest → RfqRegisteredEvent
registered_event sv at r = record {
  event_id = sv.uuid 1;
  rfq_id = sv.uuid 0;
  revision = 1;
  product = record {
    notional = Notional.decimal r.notional;
    effective_date = r.effective_date;
    maturity_date = r.maturity_date;
    fixed_leg = r.fixed_leg;
    swap_currency = r.swap_currency;
  };
  assigned_trader = r.assigned_trader;
  registered_by = r.registered_by;
  occurred_at = at;
}

module _ (sv : Service) (wire : Wire) (dump : IntegrationEventEnvelope → String) where
  -- pydantic reads back what it wrote of an event, and of the envelope that it is sent in.
  pub record ReadsBack (e : RfqRegisteredEvent) : Type 0 where
    pub reads_envelope :
        wire.read_envelope (dump (envelope (to_outbox_event sv e)))
        ≡ ok (envelope (to_outbox_event sv e))
    pub reads_event : wire.read_event e.event_id (sv.model_dump e) ≡ ok e

  pub read_registered :
      (e : RfqRegisteredEvent)
      → ReadsBack e
      → (bind (wire.read_envelope (dump (envelope (to_outbox_event sv e)))) (Kafka.deserialize wire)
          ≡ ok e)
        × (bind
              (wire.read_envelope (dump (envelope (to_outbox_event sv e))))
              (Quorum.deserialize wire)
            ≡ ok e)
        × (bind
              (wire.read_envelope (dump (envelope (to_outbox_event sv e))))
              (deserialize_registered wire)
            ≡ ok e)
  unfolding envelope to_outbox_event Kafka.deserialize Quorum.deserialize deserialize_registered
  read_registered e j =
      let from_envelope = j.reads_envelope in
      let from_payload = j.reads_event in
      (
        rw (from_envelope, from_payload) refl,
        rw (from_envelope, from_payload) refl,
        rw (from_envelope, from_payload) refl,
      )

  -- When the commit succeeds and the random ids are fresh, and pydantic reads back what it wrote: the
  -- outbox has a row for an RFQ that was created through the interface; Kafka is given that row's event
  -- on the topic of RFQ events under the RFQ's id; over the quorum queues declared for the resolver's
  -- shard count RabbitMQ has the same message, once, in the queue of the RFQ's shard; and from it the
  -- Kafka subscriber and the quorum queue subscriber of the pricing worker and the Kafka subscriber of
  -- the notification worker all read the same event, with the id, revision 1, the swap, the trader and
  -- the time of the request.
  pub deserialize-post_route :
      (sha256 : String → List ℕ) (prefix : List ℕ) (shard_count at : ℕ) (r : CreateSwapRfqRequest)
      (s : RfqTables)
      → ReadsBack (registered_event sv at r)
      → sv.commit_ok ≡ true
      → Dict.get s.outbox (sv.uuid 1) ≡ none
      → 0 < shard_count
      → (row : OutboxRow) × (Dict.get (post_route sv at r s).1.outbox (sv.uuid 1) ≡ some row)
        × ((value : String) × (publish_kafka dump true row.event [] ≡ (
          ok tt,
          record { topic = "rfq-domain-events"; key = sv.uuid 0; value = value } ∷ [],
        ))
            × ((queue : List ℕ) × (Dict.get
                    (declare_quorum prefix 0 shard_count).1
                    (resolve_shard sha256 shard_count (sv.uuid 0))
                  ≡ some queue)
                × (publish_rabbitmq dump sha256 shard_count
                      (declare_quorum prefix 0 shard_count).0
                      row.event
                      []
                    ≡ (ok tt, (queue, value) ∷ [])))
            × (bind (wire.read_envelope value) (Kafka.deserialize wire)
                ≡ ok (registered_event sv at r))
            × (bind (wire.read_envelope value) (Quorum.deserialize wire)
                ≡ ok (registered_event sv at r))
            × (bind (wire.read_envelope value) (deserialize_registered wire)
                ≡ ok (registered_event sv at r)))
  unfolding post_route publish_kafka resolve_topic to_outbox_event registered_event
      integration_event register_rfq
  deserialize-post_route sha256 prefix shard_count at r s j committed new shards =
      let rfq =
        created sv r.notional r.effective_date r.maturity_date r.fixed_leg r.swap_currency
          r.assigned_trader r.registered_by at in
      let row = new_row sv rfq at in
      let made =
        create_rfq_ok sv r.notional r.effective_date r.maturity_date r.fixed_leg r.swap_currency
          r.assigned_trader r.registered_by at s committed new in
      let (a, b, c) = read_registered (registered_event sv at r) j in
      let rabbit =
        publish_rabbitmq-declare_quorum sha256 dump prefix shard_count row.event [] shards in
      (
        row,
        rw made (
            ground (
              arith,
              get-put s.outbox (sv.uuid 1) (sv.uuid 1) row,
              ==_iff (sv.uuid 1) (sv.uuid 1),
            )),
        (dump (envelope (to_outbox_event sv (registered_event sv at r))), refl, rabbit, a, b, c),
      )
