-- ===== src/Examples/Bootstrap.antt =====
-- Processes that start, fail and end.
use price_streaming.Prelude.{
  false, Action, [], broker_error, database_error, none, ok, pos, raise, refl, runtime_error, some,
  ℕ, ◌++◌, ◌∷◌, ◌≡◌,
}
use price_streaming.Dict.{values}
use price_streaming.Bootstrap.{
  Faults, Handles, consumer_stop, redis_close, stream_subscribe, amqp_connection, stream_consumer,
}
use price_streaming.Routing.{make_resolver}
use price_streaming.Bootstrap.Settings.{
  ApiSettings, NotificationWorkerSettings, OutboxWorkerSettings, PricingWorkerSettings,
  RabbitMqSuperStreamPricingEventsSettings, RedisSettings, kafka, kafka_publisher,
  rabbitmq_subscriber,
}
use price_streaming.Bootstrap.Backends.{
  PricingEventsBackend, provide_super_stream_pricing_events_backend,
}
use price_streaming.Bootstrap.Processes.{
  ApiContainer, NotificationWorkerContainer, OutboxWorkerContainer, PricingWorkerContainer,
  bootstrap_api, bootstrap_notification_worker, bootstrap_outbox_worker, bootstrap_pricing_worker,
}
use price_streaming.Bootstrap.Restored.{Restores, Restores-result}
use price_streaming.Bootstrap.Ended.{processes_close}
use price_streaming.Bootstrap.Leaks.{left_open, provide_super_stream-left_open, raises, is_refused}
use price_streaming.Bootstrap.Refused.{Raises, bootstrap_notification_worker-Raises}

abbrev redis_settings : RedisSettings
redis_settings = record { url = "redis://cache"; channel_prefix = "rfq" }

abbrev api_settings : ApiSettings
api_settings = record {
  database = "db";
  notification_updates = redis_settings;
  pricing_updates = redis_settings;
}

abbrev notification_settings : NotificationWorkerSettings
notification_settings = record {
  database = "db";
  rfq_events = rabbitmq_subscriber (record {
    url = "amqp://q";
    exchange = "rfq.pricing";
    queue_prefix = "rfq.pricing";
    shared_count = pos 4;
    prefetch_count = pos 10;
    worker_id = "w1";
    lease_seconds = pos 10;
    renew_interval_seconds = record { negative = false; digits = 3; scale = 0 };
    max_shards_per_worker = pos 2;
  });
  notification_updates = redis_settings;
}

abbrev outbox_settings : OutboxWorkerSettings
outbox_settings = record { database = "db"; rfq_events = kafka_publisher "kafka:9092" "rfq" }

abbrev pricing_settings : PricingWorkerSettings
pricing_settings = record {
  database = "db";
  rfq_domain_event = kafka (record {
    bootstrap_servers = "kafka:9092";
    topic = "rfq";
    partition_count = pos 4;
    consumer_group = "pricing";
  });
  market_data = record { endpoint = "tcp://feed"; topic = "" };
  pricing_updates = redis_settings;
}

-- The consumer does not stop, and Redis does not close.
abbrev failing_ends : Faults
failing_ends consumer_stop = some broker_error
failing_ends (redis_close url) = some runtime_error
failing_ends _ = none

abbrev serve : ApiContainer → Action Handles ℕ
serve c w = (ok 1, w)

abbrev notify : NotificationWorkerContainer → Action Handles ℕ
notify c w = (ok 2, w)

abbrev publish : OutboxWorkerContainer → Action Handles ℕ
publish c w = (raise database_error, w)

abbrev price : PricingWorkerContainer → Action Handles ℕ
price c w = (raise runtime_error, w)

processes_close_example :
    Restores (bootstrap_api failing_ends api_settings serve)
    × Restores (bootstrap_notification_worker failing_ends notification_settings notify)
    × Restores (bootstrap_outbox_worker failing_ends outbox_settings publish)
    × Restores (bootstrap_pricing_worker failing_ends pricing_settings price)
processes_close_example =
    processes_close failing_ends api_settings notification_settings outbox_settings pricing_settings
      serve notify publish price tt (λ c. Restores-result (ok 1)) (λ c. Restores-result (ok 2))
      (λ c. Restores-result (raise database_error)) (λ c. Restores-result (raise runtime_error))

abbrev stream_settings : RabbitMqSuperStreamPricingEventsSettings
stream_settings = record {
  amqp_url = "amqp://q";
  exchange = "rfq.pricing";
  host = "mq";
  super_stream = 114 ∷ [];
  consumer_group = "pricing";
  partition_count = pos 4;
}

abbrev no_subscription : Faults
no_subscription stream_subscribe = some broker_error
no_subscription _ = none

abbrev idle_worker : PricingEventsBackend → Action Handles ℕ
idle_worker b w = (ok 0, w)

abbrev nothing_open : Handles
nothing_open = record { fresh = 0; opened = [] }

provide_super_stream-left_open_example :
    values
      (provide_super_stream_pricing_events_backend no_subscription stream_settings idle_worker
        nothing_open).1.opened
    ≡ left_open no_subscription stream_settings ++ []
provide_super_stream-left_open_example =
    provide_super_stream-left_open no_subscription stream_settings idle_worker nothing_open
      (λ b. Restores-result (ok 0)) tt

-- The subscription fails: both clients are still open.
leaked :
    left_open no_subscription stream_settings
    ≡ stream_consumer "mq" ∷ amqp_connection "amqp://q" ∷ []
unfolding left_open raises is_refused make_resolver
leaked = refl

bootstrap_notification_worker-Raises_example :
    Raises (bootstrap_notification_worker no_subscription notification_settings notify)
bootstrap_notification_worker-Raises_example =
    bootstrap_notification_worker-Raises no_subscription notification_settings notify (λ h. h)
