-- ===== src/Delivery.antt =====
-- application/pricing/model/rfq_domain_event_delivery.py and
-- application/integration/events/integration_event_envelope.py: what a broker hands to a worker.
pub mod StreamName
pub mod Kafka
pub mod Quorum
pub mod SuperStream
use price_streaming.Prelude.{Outcome, String, ℕ}
use price_streaming.Pricing.{RfqRegisteredEvent}
use price_streaming.Ownership.{PricingShardId}

-- `RfqDomainEventDeliveryId.value`
abbrev pub DeliveryId : Type 0
DeliveryId = String

pub record Delivery : Type 0 where
  pub delivery_id : DeliveryId
  pub shard_id : PricingShardId
  pub event : RfqRegisteredEvent

-- The payload stays the JSON text of an object.
pub record IntegrationEventEnvelope : Type 0 where
  pub message_id : String
  pub message_type : String
  pub schema_version : ℕ
  pub payload : String
  pub occurred_at : ℕ

-- What the workers take from pydantic and `uuid`: reading an envelope and an event (the message id
-- and the payload), and the n-th random id.
pub record Wire : Type 0 where
  pub read_envelope : String → Outcome IntegrationEventEnvelope
  pub read_event : String → String → Outcome RfqRegisteredEvent
  pub uuid : ℕ → String
