-- ===== src/Delivery/Quorum.antt =====
-- infrastructure/application/pricing/adapter/pricing_rfq_domain_events_subscriber/rabbitmq: a queue
-- of the broker for each shard.
pub mod Acks
use price_streaming.Prelude.{
  Action, Bool, List, Outcome, String, String_eq, [], bind, broker_error, if◌then◌else◌, nat_eq,
  none, ok, raise, runtime_error, some, value_error, ℕ, ℕ_eq, ◌&&◌, ◌++◌, ◌+◌, ◌==◌, ◌>>=◌, ◌∷◌,
}
use price_streaming.Dict
use price_streaming.Dict.{Dict}
use price_streaming.Pricing.{RfqRegisteredEvent}
use price_streaming.Ownership.{PricingShardId}
use price_streaming.Delivery.{DeliveryId, Delivery, IntegrationEventEnvelope, Wire}

-- `_PendingRabbitMqDelivery`; a message is its delivery tag.
pub record PendingMessage : Type 0 where
  pub shard_id : PricingShardId
  pub message : ℕ

-- `RabbitMqQuorumRfqDomainEventsSubscriber`: the shards that have a queue, and the tags acked.
pub record QuorumSubscriber : Type 0 where
  pub queues : Dict PricingShardId String
  pub pendings : Dict DeliveryId PendingMessage
  pub issued : ℕ
  pub acked : List ℕ

unfoldable pub deserialize : Wire → IntegrationEventEnvelope → Outcome RfqRegisteredEvent
deserialize wire e =
    if e.message_type == "rfq.registered" && nat_eq e.schema_version 1
    then wire.read_event e.message_id e.payload
    else raise value_error

-- The start of `subscribe`: the name of the shard's queue.
unfoldable pub open_queue : PricingShardId → QuorumSubscriber → Outcome String
open_queue shard s = elim (Dict.get s.queues shard) [ none ↦ raise value_error | some q ↦ ok q ]

-- The loop of `subscribe` up to `yield`, for one message.
unfoldable pub deliver :
    Wire → PricingShardId → (tag : ℕ) → String → Action QuorumSubscriber Delivery
unfolding deserialize
deliver wire shard tag body s = elim (bind (wire.read_envelope body) (deserialize wire)) [
  | raise x ↦ (raise x, s)
  | ok event ↦
      let i = wire.uuid s.issued in
      (
        ok (record { delivery_id = i; shard_id = shard; event = event }),
        record s {
          pendings = Dict.put s.pendings i (record { shard_id = shard; message = tag });
          issued = s.issued + 1;
        },
      )
]

-- The `finally` round the `yield`.
unfoldable pub settle : Delivery → QuorumSubscriber → QuorumSubscriber
settle d s = record s { pendings = Dict.remove s.pendings d.delivery_id }

unfoldable pub ack : (ack_ok : Bool) → Delivery → Action QuorumSubscriber Unit
ack ack_ok d s = elim (Dict.get s.pendings d.delivery_id) [
  | none ↦ (raise runtime_error, s)
  | some p ↦
      let s' = record s { pendings = Dict.remove s.pendings d.delivery_id } in
      if ack_ok
      then (ok tt, record s' { acked = s.acked ++ p.message ∷ [] })
      else (raise broker_error, s')
]

-- One message through the consumer of a shard: delivered, handled, acked if the handler returned,
-- and settled in any case.
unfoldable pub process :
    Wire
    → (handler : Delivery → Outcome Unit) → (ack_ok : Bool) → PricingShardId
    → (tag : ℕ) → String
    → Action QuorumSubscriber Unit
process wire handler ack_ok shard tag body = deliver wire shard tag body >>= λ d s.
    elim (handler d) [
      | raise x ↦ (raise x, settle d s)
      | ok _ ↦ ((ack ack_ok d s).0, settle d (ack ack_ok d s).1)
    ]
