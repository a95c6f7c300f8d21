-- ===== src/Routing.antt =====
-- How an event finds its shard: infrastructure/application/pricing/adapter/pricing_shard_resolver/
-- rabbitmq, infrastructure/rabbitmq/topology.py and infrastructure/application/adapter/
-- integration_event_publisher. Names are lists of code points.
pub mod Shards
pub mod Delivered
pub mod Received
pub mod Partitions
pub mod Agreed
use price_streaming.Prelude.{
  Action, Bool, List, Outcome, String, String_eq, [], broker_error, if◌then◌else◌, list_eq, ltb,
  map, negsuc, ok, pos, raise, suc, take, value_error, zero, ℕ, ℕ_eq, ℤ, ◌%◌, ◌*◌, ◌++◌, ◌+◌, ◌-◌,
  ◌==◌, ◌^◌, ◌∷◌,
}
use price_streaming.Dict
use price_streaming.Dict.{Dict}
use price_streaming.Ownership.{PricingShardId}
use price_streaming.Outbox.{OutboxEvent}
use price_streaming.Delivery.{IntegrationEventEnvelope}
use price_streaming.Delivery.StreamName.{decimal_text, partition_stream_name}

-- `int.from_bytes(bytes, byteorder="big")`
unfoldable pub from_bytes : ℕ → List ℕ → ℕ
from_bytes acc [] = acc
from_bytes acc (b ∷ bs) = from_bytes (acc * 256 + b) bs

-- The same with `signed=True`, of eight bytes.
unfoldable pub signed_64 : ℕ → ℤ
signed_64 u = if ltb u (2 ^ 63) then pos u else negsuc (2 ^ 64 - u - 1)

-- `value % n` of Python, for `n > 0`: the result has the sign of `n`.
unfoldable pub python_mod : ℤ → ℕ → ℕ
python_mod (pos a) n = a % n
python_mod (negsuc a) n = n - 1 - a % n

-- `StablePricingShardResolver(shard_count)`
unfoldable pub make_resolver : ℤ → Outcome ℕ
make_resolver (negsuc n) = raise value_error
make_resolver (pos zero) = raise value_error
make_resolver (pos (suc n)) = ok (suc n)

-- `hashlib.sha256(text.encode("utf-8")).digest()`, as bytes.
module _ (sha256 : String → List ℕ) where
  -- `StablePricingShardResolver.resolve`
  unfoldable pub resolve_shard : (shard_count : ℕ) → String → PricingShardId
  unfolding from_bytes signed_64 python_mod
  resolve_shard shard_count request_id =
      python_mod (signed_64 (from_bytes 0 (take 8 (sha256 request_id)))) shard_count

-- `f"pricing.{shard}"`
unfoldable pub routing_key : PricingShardId → List ℕ
routing_key shard = (112 ∷ 114 ∷ 105 ∷ 99 ∷ 105 ∷ 110 ∷ 103 ∷ 46 ∷ []) ++ decimal_text shard

-- `f"{queue_prefix}.{shard}"`
unfoldable pub queue_name : List ℕ → PricingShardId → List ℕ
queue_name prefix shard = (prefix ++ 46 ∷ []) ++ decimal_text shard

-- What is bound to the exchange: routing keys and queues.
abbrev pub Bindings : Type 0
Bindings = List (List ℕ × List ℕ)

-- The loop of `declare_quorum_pricing_topology` over `remaining` shards from `shard` on: the
-- bindings, and the queues by shard.
unfoldable pub declare_quorum :
    (prefix : List ℕ) → (shard remaining : ℕ) → Bindings × Dict PricingShardId (List ℕ)
unfolding routing_key queue_name
declare_quorum prefix shard zero = ([], [])
declare_quorum prefix shard (suc remaining) =
    let (bindings, queues) = declare_quorum prefix (shard + 1) remaining in
    (
      (routing_key shard, queue_name prefix shard) ∷ bindings,
      (shard, queue_name prefix shard) ∷ queues,
    )

-- The loop of `bind_super_stream_pricing_topology`.
unfoldable pub bind_super_stream : (super_stream : List ℕ) → (shard remaining : ℕ) → Bindings
unfolding routing_key
bind_super_stream super_stream shard zero = []
bind_super_stream super_stream shard (suc remaining) =
    (routing_key shard, partition_stream_name super_stream shard)
    ∷ bind_super_stream super_stream (shard + 1) remaining

-- The queues that a topic exchange hands a message to, for binding keys without wildcards.
unfoldable pub routed : List ℕ → Bindings → List (List ℕ)
routed key [] = []
routed key ((k, q) ∷ rest) = let more = routed key rest in if list_eq k key then q ∷ more else more

-- `KafkaEventRouter.resolve_topic`
unfoldable pub resolve_topic : String → Outcome String
resolve_topic event_type =
    if event_type == "rfq.registered"
    then ok "rfq-domain-events"
    else if event_type == "pricing.swap.activate"
    then ok "rfq-pricing-lifecycle"
    else raise value_error

-- The envelope that both publishers send.
unfoldable pub envelope : OutboxEvent → IntegrationEventEnvelope
envelope e = record {
  message_id = e.event_id;
  message_type = e.event_type;
  schema_version = e.schema_version;
  payload = e.payload;
  occurred_at = e.occurred_at;
}

-- A message of a Kafka producer: the topic, the key and the value.
pub record ProducerRecord : Type 0 where
  pub topic : String
  pub key : String
  pub value : String

-- `dump` is `model_dump_json`.
module _ (dump : IntegrationEventEnvelope → String) where
  -- `KafkaIntegrationEventPublisher.publish`: what the producer is handed.
  unfoldable pub publish_kafka : (send_ok : Bool) → OutboxEvent → Action (List ProducerRecord) Unit
  unfolding resolve_topic envelope
  publish_kafka send_ok e sent = elim (resolve_topic e.event_type) [
    | raise x ↦ (raise x, sent)
    | ok topic ↦
        if send_ok
        then (
          ok tt,
          sent ++ record { topic = topic; key = e.aggregate_id; value = dump (envelope e) } ∷ [],
        )
        else (raise broker_error, sent)
  ]

  -- `RabbitMqIntegrationEventPublisher.publish` on an exchange: each queue that the message is routed
  -- to has it behind its others; with `mandatory=True` and `on_return_raises=True`, as the channel of
  -- bootstrap/provider/rfq_events.py has it, one that no queue takes is returned and raises.
  unfoldable pub publish_rabbitmq :
      (sha256 : String → List ℕ)
      → (shard_count : ℕ) → Bindings
      → OutboxEvent
      → Action (List (List ℕ × String)) Unit
  unfolding envelope
  publish_rabbitmq sha256 shard_count bindings e sent =
      elim (routed (routing_key (resolve_shard sha256 shard_count e.aggregate_id)) bindings) [
        | [] ↦ (raise broker_error, sent)
        | q ∷ qs ↦ (ok tt, sent ++ map (λ x. (x, dump (envelope e))) (q ∷ qs))
      ]
