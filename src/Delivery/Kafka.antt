-- ===== src/Delivery/Kafka.antt =====
-- infrastructure/application/pricing/adapter/pricing_rfq_domain_events_subscriber/kafka: one
-- dispatcher fills a mailbox for each shard.
pub mod Commits
pub mod Routing
use price_streaming.Prelude.{
  Action, Bool, List, Option, Outcome, String, String_eq, [], bind, broker_error, if◌then◌else◌,
  nat_eq, none, ok, raise, runtime_error, some, value_error, ℕ, ℕ_eq, ◌&&◌, ◌++◌, ◌+◌, ◌==◌, ◌∷◌,
}
use price_streaming.Dict
use price_streaming.Dict.{Dict}
use price_streaming.Pricing.{RfqRegisteredEvent}
use price_streaming.Ownership.{PricingShardId}
use price_streaming.Delivery.{DeliveryId, Delivery, IntegrationEventEnvelope, Wire}

-- A record of the consumer: `message.value` is its text.
pub record Message : Type 0 where
  pub topic : String
  pub partition : ℕ
  pub offset : ℕ
  pub value : String

-- `_KafkaPendingDelivery`, with the `TopicPartition` laid out.
pub record Pending : Type 0 where
  pub shard_id : PricingShardId
  pub topic : String
  pub partition : ℕ
  pub offset : ℕ

-- `KafkaRfqDomainEventsSubscriber`: a shard's queue is an object, so `queues` maps the shard to its
-- number and `mailboxes` holds the objects. `commits` lists what the consumer committed.
pub record Subscriber : Type 0 where
  pub queues : Dict PricingShardId ℕ
  pub mailboxes : Dict ℕ (List Delivery)
  pub created : ℕ
  pub pendings : Dict DeliveryId Pending
  pub issued : ℕ
  pub commits : List (String × ℕ × ℕ)

-- `_deserialize`
unfoldable pub deserialize : Wire → IntegrationEventEnvelope → Outcome RfqRegisteredEvent
deserialize wire e =
    if e.message_type == "rfq.registered" && nat_eq e.schema_version 1
    then wire.read_event e.message_id e.payload
    else raise value_error

unfoldable pub contents : Dict ℕ (List Delivery) → ℕ → List Delivery
contents boxes q = elim (Dict.get boxes q) [ none ↦ [] | some ds ↦ ds ]

-- `self._queues.setdefault(shard_id, asyncio.Queue())`: the number of the shard's queue.
unfoldable pub set_default : PricingShardId → Subscriber → ℕ × Subscriber
set_default shard s = elim (Dict.get s.queues shard) [
  | some q ↦ (q, s)
  | none ↦ (
    s.created,
    record s {
      queues = Dict.put s.queues shard s.created;
      mailboxes = Dict.put s.mailboxes s.created [];
      created = s.created + 1;
    },
  )
]

-- `queue.put_nowait(delivery)`
unfoldable pub put_nowait : ℕ → Delivery → Subscriber → Subscriber
unfolding contents
put_nowait q d s = record s {
  mailboxes = Dict.put s.mailboxes q (contents s.mailboxes q ++ d ∷ []);
}

unfoldable pub enqueue : Wire → Message → RfqRegisteredEvent → Subscriber → Subscriber
unfolding set_default put_nowait
enqueue wire m event s =
    let delivery_id = wire.uuid s.issued in
    let pending = Dict.put s.pendings delivery_id (record {
      shard_id = m.partition;
      topic = m.topic;
      partition = m.partition;
      offset = m.offset;
    }) in
    let (q, s') =
      set_default m.partition (record s { pendings = pending; issued = s.issued + 1 }) in
    put_nowait q (record { delivery_id = delivery_id; shard_id = m.partition; event = event }) s'

-- The body of the loop of `run`.
unfoldable pub dispatch : Wire → Message → Action Subscriber Unit
unfolding enqueue deserialize
dispatch wire m s = elim (bind (wire.read_envelope m.value) (deserialize wire)) [
  | raise x ↦ (raise x, s)
  | ok event ↦ (ok tt, enqueue wire m event s)
]

-- `await queue.get()` in `subscribe`: nothing while the queue is empty.
unfoldable pub receive : ℕ → Subscriber → Option Delivery × Subscriber
unfolding contents
receive q s = elim (contents s.mailboxes q) [
  | [] ↦ (none, s)
  | d ∷ ds ↦ (some d, record s { mailboxes = Dict.put s.mailboxes q ds })
]

-- The deliveries of a shard, taken out of the pending ones.
unfoldable pub drop_pendings : PricingShardId → Dict DeliveryId Pending → Dict DeliveryId Pending
drop_pendings shard [] = []
drop_pendings shard ((i, p) ∷ rest) =
    if nat_eq p.shard_id shard then drop_pendings shard rest else (i, p) ∷ drop_pendings shard rest

-- The `finally` of `subscribe`, for the generator that reads queue `q`.
unfoldable pub close : PricingShardId → ℕ → Subscriber → Subscriber
unfolding drop_pendings
close shard q s = record s {
  queues = elim (Dict.get s.queues shard) [
    | none ↦ s.queues
    | some q' ↦ if nat_eq q' q then Dict.remove s.queues shard else s.queues
  ];
  pendings = drop_pendings shard s.pendings;
}

-- `ack`: the consumer's commit succeeds or raises, as the broker decides.
unfoldable pub ack : (commit_ok : Bool) → Delivery → Action Subscriber Unit
ack commit_ok d s = elim (Dict.get s.pendings d.delivery_id) [
  | none ↦ (raise runtime_error, s)
  | some p ↦
      let s' = record s { pendings = Dict.remove s.pendings d.delivery_id } in
      if commit_ok
      then (ok tt, record s' { commits = s.commits ++ (p.topic, p.partition, p.offset + 1) ∷ [] })
      else (raise broker_error, s')
]
