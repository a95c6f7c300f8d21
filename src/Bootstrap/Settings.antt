-- ===== src/Bootstrap/Settings.antt =====
-- bootstrap/settings: the settings of each process, of what its providers read of them.
use price_streaming.Prelude.{
  List, Outcome, String, String_eq, [], attribute_error, map, none, ok, raise, some, type_error, ℕ,
  ℕ_eq, ℤ, ◌∷◌,
}
use text.Mathlib.TextBridge.{of_list, to_list}
use price_streaming.Dict
use price_streaming.Dict.{Dict}
use price_streaming.Product.{Decimal}

pub record KafkaPricingEventsSettings : Type 0 where
  pub bootstrap_servers : String
  pub topic : String
  pub partition_count : ℤ
  pub consumer_group : String

pub record RabbitMqQuorumPricingEventsSettings : Type 0 where
  pub url : String
  pub exchange : String
  pub queue_prefix : List ℕ
  pub shard_count : ℤ
  pub worker_id : String
  pub lease_seconds : ℤ
  pub max_shards_per_worker : ℤ

pub record RabbitMqSuperStreamPricingEventsSettings : Type 0 where
  pub amqp_url : String
  pub exchange : String
  pub host : String
  pub super_stream : List ℕ
  pub consumer_group : String
  pub partition_count : ℤ

pub data PricingEventsSettings : Type 0 where
  kafka : KafkaPricingEventsSettings → PricingEventsSettings
  rabbitmq_quorum : RabbitMqQuorumPricingEventsSettings → PricingEventsSettings
  rabbitmq_super_stream : RabbitMqSuperStreamPricingEventsSettings → PricingEventsSettings

pub record RedisSettings : Type 0 where
  pub url : String
  pub channel_prefix : String

pub record ZeroMqMarketDataSettings : Type 0 where
  pub endpoint : String
  pub topic : String

pub record PricingWorkerSettings : Type 0 where
  pub database : String
  pub rfq_domain_event : PricingEventsSettings
  pub market_data : ZeroMqMarketDataSettings
  pub pricing_updates : RedisSettings

pub record ApiSettings : Type 0 where
  pub database : String
  pub notification_updates : RedisSettings
  pub pricing_updates : RedisSettings

pub data RfqEventsPublisherSettings : Type 0 where
  kafka_publisher : (bootstrap_servers topic : String) → RfqEventsPublisherSettings
  rabbitmq_publisher :
      (url exchange : String) (pricing_shard_count : ℤ) → RfqEventsPublisherSettings

-- `RabbitMqRfqEventsSubscriberSettings` behind its `backend`, with all its fields.
pub record RabbitMqRfqEventsSubscriberSettings : Type 0 where
  pub url : String
  pub exchange : String
  pub queue_prefix : String
  pub shared_count : ℤ
  pub prefetch_count : ℤ
  pub worker_id : String
  pub lease_seconds : ℤ
  pub renew_interval_seconds : Decimal
  pub max_shards_per_worker : ℤ

pub data RfqEventsSubscriberSettings : Type 0 where
  kafka_subscriber : (bootstrap_servers topic group_id : String) → RfqEventsSubscriberSettings
  rabbitmq_subscriber : RabbitMqRfqEventsSubscriberSettings → RfqEventsSubscriberSettings
  super_stream_subscriber : (host super_stream : String) → RfqEventsSubscriberSettings

-- What an attribute of settings holds.
pub data SettingValue : Type 0 where
  string_value : String → SettingValue
  int_value : ℤ → SettingValue
  float_value : Decimal → SettingValue
  list_value : List String → SettingValue

-- The attributes of the settings object, by name.
unfoldable pub attributes : RabbitMqRfqEventsSubscriberSettings → Dict String SettingValue
attributes s =
    ("backend", string_value "rabbitmq_quorum")
    ∷ ("url", string_value s.url)
    ∷ ("exchange", string_value s.exchange)
    ∷ ("queue_prefix", string_value s.queue_prefix)
    ∷ ("shared_count", int_value s.shared_count)
    ∷ ("prefetch_count", int_value s.prefetch_count)
    ∷ ("worker_id", string_value s.worker_id)
    ∷ ("lease_seconds", int_value s.lease_seconds)
    ∷ ("renew_interval_seconds", float_value s.renew_interval_seconds)
    ∷ ("max_shards_per_worker", int_value s.max_shards_per_worker)
    ∷ []

-- What a loop over a value runs through; one over a text, through its characters.
unfoldable pub iterated : SettingValue → Outcome (List String)
iterated (string_value s) = ok (map (λ c. of_list (c ∷ [])) (to_list s))
iterated (int_value n) = raise type_error
iterated (float_value x) = raise type_error
iterated (list_value ts) = ok ts

-- `settings.name`, as a loop reads it.
unfoldable pub read_attribute : RabbitMqRfqEventsSubscriberSettings → String → Outcome (List String)
unfolding attributes iterated
read_attribute s name = elim (Dict.get (attributes s) name) [
  | none ↦ raise attribute_error
  | some v ↦ iterated v
]

pub record OutboxWorkerSettings : Type 0 where
  pub database : String
  pub rfq_events : RfqEventsPublisherSettings

pub record NotificationWorkerSettings : Type 0 where
  pub database : String
  pub rfq_events : RfqEventsSubscriberSettings
  pub notification_updates : RedisSettings
