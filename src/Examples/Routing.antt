-- ===== src/Examples/Routing.antt =====
-- Two shards, and one event for the second of them.
use price_streaming.Prelude.{List, String, String_eq, [], arith, ok, ℕ, ℕ_eq, ℤ_eq, ◌∷◌, ◌≡◌}
use price_streaming.Outbox.{OutboxEvent}
use price_streaming.Delivery.{IntegrationEventEnvelope}
use price_streaming.Delivery.StreamName.{shard_id_from_stream}
use price_streaming.Routing.{bind_super_stream, envelope, resolve_shard, publish_rabbitmq}
use price_streaming.Routing.Delivered.{publish_rabbitmq-bind_super_stream}

abbrev pub sha256 : String → List ℕ
sha256 text = 255 ∷ 0 ∷ 0 ∷ 0 ∷ 0 ∷ 0 ∷ 0 ∷ 1 ∷ 7 ∷ []

abbrev dump : IntegrationEventEnvelope → String
dump e = e.message_id

abbrev routed_event : OutboxEvent
routed_event = record {
  event_id = "e1";
  event_type = "rfq.registered";
  schema_version = 1;
  aggregate_type = "rfq";
  aggregate_id = "r1";
  payload = "{}";
  occurred_at = 5;
  created_at = 5;
}

-- The name of the queues and streams: "rfq".
abbrev pub rfq : List ℕ
rfq = 114 ∷ 102 ∷ 113 ∷ []

publish_rabbitmq-bind_super_stream_example :
    (stream : List ℕ) × (shard_id_from_stream rfq stream ≡ ok (resolve_shard sha256 2 "r1"))
    × (publish_rabbitmq dump sha256 2 (bind_super_stream rfq 0 2) routed_event []
        ≡ (ok tt, (stream, dump (envelope routed_event)) ∷ []))
publish_rabbitmq-bind_super_stream_example =
    publish_rabbitmq-bind_super_stream sha256 dump rfq 2 routed_event [] (omega arith)
