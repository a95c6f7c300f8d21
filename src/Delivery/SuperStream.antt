-- ===== src/Delivery/SuperStream.antt =====
-- infrastructure/application/pricing/adapter/*/rabbitmq_super_stream: the events and the ownership
-- of the partitions of a super stream.
pub mod Resume
use price_streaming.Prelude.{
  Action, Bool, List, Option, Outcome, String, String_eq, [], bind, broker_error, false,
  if◌then◌else◌, nat_eq, none, ok, raise, runtime_error, some, true, value_error, ℕ, ℕ_eq, ◌&&◌,
  ◌++◌, ◌+◌, ◌==◌, ◌∷◌,
}
use price_streaming.Dict
use price_streaming.Dict.{Dict}
use price_streaming.Pricing.{RfqRegisteredEvent}
use price_streaming.Ownership.{PricingShardId, OwnershipChange, acquired, released}
use price_streaming.Delivery.StreamName.{shard_id_from_stream}
use price_streaming.Delivery.{DeliveryId, Delivery, IntegrationEventEnvelope, Wire}

-- `MessageContext`; the consumer object is left out, since the stream names it.
pub record Context : Type 0 where
  pub stream : List ℕ
  pub offset : ℕ
  pub subscriber_name : Option String

pub record PendingOffset : Type 0 where
  pub stream : List ℕ
  pub offset : ℕ
  pub subscriber_name : String

-- `RabbitMqSuperStreamPricingRfqDomainEventsSubscriber`. `stored` is the broker's offset store, by
-- stream and subscriber.
pub record StreamSubscriber : Type 0 where
  pub queues : Dict PricingShardId (List Delivery)
  pub pendings : Dict DeliveryId PendingOffset
  pub issued : ℕ
  pub stored : List (List ℕ × String × ℕ)

unfoldable pub deserialize : Wire → IntegrationEventEnvelope → Outcome RfqRegisteredEvent
deserialize wire e =
    if e.message_type == "rfq.registered" && nat_eq e.schema_version 1
    then wire.read_event e.message_id e.payload
    else raise value_error

unfoldable pub mailbox : Dict PricingShardId (List Delivery) → PricingShardId → List Delivery
mailbox queues shard = elim (Dict.get queues shard) [ none ↦ [] | some ds ↦ ds ]

-- Equality of stream names.
unfoldable pub same_name : List ℕ → List ℕ → Bool
same_name [] [] = true
same_name (x ∷ xs) (y ∷ ys) = nat_eq x y && same_name xs ys
same_name _ _ = false

module _ (wire : Wire) (super_stream : List ℕ) where
  -- What `on_message` reads from a message, in the order of the source.
  unfoldable pub read_message : String → Context → Outcome (PricingShardId × RfqRegisteredEvent)
  unfolding deserialize
  read_message body ctx = bind (shard_id_from_stream super_stream ctx.stream) λ shard.
      bind (wire.read_envelope body) λ e. bind (deserialize wire e) λ event. ok (shard, event)

  unfoldable pub on_message : String → Context → Action StreamSubscriber Unit
  unfolding mailbox read_message
  on_message body ctx s = elim (read_message body ctx) [
    | raise x ↦ (raise x, s)
    | ok se ↦
        let i = wire.uuid s.issued in
        elim ctx.subscriber_name [
          | none ↦ (raise runtime_error, record s { issued = s.issued + 1 })
          | some name ↦ (
            ok tt,
            record s {
              pendings =
                  Dict.put s.pendings i
                    (record { stream = ctx.stream; offset = ctx.offset; subscriber_name = name });
              queues = Dict.put s.queues se.0 (
                  mailbox s.queues se.0
                  ++ record { delivery_id = i; shard_id = se.0; event = se.1 } ∷ []);
              issued = s.issued + 1;
            },
          )
        ]
  ]

-- `yield await queue.get()` in `subscribe`: nothing while the queue is empty.
unfoldable pub receive : PricingShardId → StreamSubscriber → Option Delivery × StreamSubscriber
unfolding mailbox
receive shard s = elim (mailbox s.queues shard) [
  | [] ↦ (none, s)
  | d ∷ ds ↦ (some d, record s { queues = Dict.put s.queues shard ds })
]

-- `ack`: the broker stores the offset of the message itself.
unfoldable pub ack : (store_ok : Bool) → Delivery → Action StreamSubscriber Unit
ack store_ok d s = elim (Dict.get s.pendings d.delivery_id) [
  | none ↦ (raise runtime_error, s)
  | some p ↦
      let s' = record s { pendings = Dict.remove s.pendings d.delivery_id } in
      if store_ok
      then (ok tt, record s' { stored = s.stored ++ (p.stream, p.subscriber_name, p.offset) ∷ [] })
      else (raise broker_error, s')
]

-- `OffsetNotFound`, or the offset that was stored last for the stream and the consumer group.
unfoldable pub query_offset : List ℕ → String → List (List ℕ × String × ℕ) → Option ℕ
query_offset stream name [] = none
query_offset stream name ((s, n, o) ∷ rest) =
    let later = query_offset stream name rest in
    elim later [
      | some o' ↦ some o'
      | none ↦ if same_name s stream && n == name then some o else none
    ]

-- `RabbitmqSuperStreamPricingShardOwnership`: the mailbox of changes.
pub record StreamOwnership : Type 0 where
  pub super_stream : List ℕ
  pub consumer_group : String
  pub changes : List OwnershipChange
  pub issued : ℕ

-- `on_consumer_update`: the offset from which the broker shall deliver.
unfoldable pub on_consumer_update :
    (uuid : ℕ → String)
    → (stored : List (List ℕ × String × ℕ)) → (is_active : Bool) → List ℕ
    → Action StreamOwnership ℕ
unfolding query_offset
on_consumer_update uuid stored is_active stream o =
    elim (shard_id_from_stream o.super_stream stream) [
      | raise x ↦ (raise x, o)
      | ok shard ↦
          if is_active
          then (
            ok (elim (query_offset stream o.consumer_group stored) [
              | some offset ↦ offset + 1
              | none ↦ 0
            ]),
            record o {
              changes = o.changes ++ acquired (uuid o.issued) shard ∷ [];
              issued = o.issued + 1;
            },
          )
          else (
            ok 0,
            record o {
              changes = o.changes ++ released (uuid o.issued) shard ∷ [];
              issued = o.issued + 1;
            },
          )
    ]
