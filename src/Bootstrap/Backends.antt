-- ===== src/Bootstrap/Backends.antt =====
-- provider/pricing.py: the three backends of the pricing worker.
use price_streaming.Prelude.{Action, List, Outcome, String, negsuc, pos, ℕ, ℕ_eq, ℤ, ◌>>=◌, ◌>>◌}
use price_streaming.Dict.{Dict}
use price_streaming.Ownership.{PricingShardId}
use price_streaming.Routing.{declare_quorum, make_resolver}
use price_streaming.Routing.Partitions.{range_from}
use price_streaming.Bootstrap.{
  Handles, Faults, open_handle, call, close_handle, cancel_task, try_finally, consumer_start,
  consumer_subscribe, consumer_stop, connect_robust, open_channel, set_qos, declare_topology,
  bind_topology, connection_close, stream_start, stream_subscribe, stream_close, kafka_consumer,
  dispatcher_task, amqp_connection, stream_consumer, consumer_task,
}
use price_streaming.Bootstrap.Settings.{
  KafkaPricingEventsSettings, RabbitMqQuorumPricingEventsSettings,
  RabbitMqSuperStreamPricingEventsSettings, PricingEventsSettings, kafka, rabbitmq_quorum,
  rabbitmq_super_stream,
}

pub data PricingSubscriber : Type 0 where
  kafka_subscriber : (consumer : ℕ) → PricingSubscriber
  quorum_subscriber : (queues : Dict PricingShardId (List ℕ)) → PricingSubscriber
  stream_subscriber : (super_stream : List ℕ) → PricingSubscriber

pub data PricingOwnership : Type 0 where
  kafka_ownership : (topic : String) → PricingOwnership
  postgres_ownership :
      (worker_id : String) (shard_count lease_seconds max_shards_per_worker : ℤ) → PricingOwnership
  stream_ownership : (super_stream : List ℕ) (consumer_group : String) → PricingOwnership

pub data PricingResolver : Type 0 where
  partition_resolver : (partitions : List ℕ) → PricingResolver
  stable_resolver : (shard_count : ℕ) → PricingResolver

pub record PricingEventsBackend : Type 0 where
  pub subscriber : PricingSubscriber
  pub ownership : PricingOwnership
  pub shard_resolver : PricingResolver

-- The length of `range(n)`.
unfoldable pub range_length : ℤ → ℕ
range_length (pos n) = n
range_length (negsuc n) = 0

-- A constructor that may raise.
abbrev pub made : {A : Type 0} → Outcome A → Action Handles A
made result w = (result, w)

module _ {B : Type 0} (faults : Faults) where
  -- The task is the last that is made before the yield, so its part of the `finally` is round the
  -- body alone.
  unfoldable pub provide_kafka_pricing_events_backend :
      KafkaPricingEventsSettings → (PricingEventsBackend → Action Handles B) → Action Handles B
  unfolding open_handle call close_handle cancel_task try_finally range_length range_from
  provide_kafka_pricing_events_backend settings body = do
    call faults consumer_start
    consumer ← open_handle (kafka_consumer settings.bootstrap_servers)
    try_finally
        (do
          call faults consumer_subscribe
          dispatcher ← open_handle dispatcher_task
          try_finally
              (body (record {
                subscriber = kafka_subscriber consumer;
                ownership = kafka_ownership settings.topic;
                shard_resolver =
                    partition_resolver (range_from 0 (range_length settings.partition_count));
              }))
              (cancel_task dispatcher))
        (close_handle faults consumer_stop consumer)

  unfoldable pub provide_rabbitmq_quorum_pricing_events_backend :
      RabbitMqQuorumPricingEventsSettings
      → (PricingEventsBackend → Action Handles B)
      → Action Handles B
  unfolding open_handle call close_handle try_finally range_length
  provide_rabbitmq_quorum_pricing_events_backend settings body = do
    call faults connect_robust
    connection ← open_handle (amqp_connection settings.url)
    try_finally
        (do
          call faults open_channel
          call faults set_qos
          call faults declare_topology
          shard_count ← made (make_resolver settings.shard_count)
          body (record {
            subscriber =
                quorum_subscriber
                  (declare_quorum settings.queue_prefix 0 (range_length settings.shard_count)).1;
            ownership =
                postgres_ownership settings.worker_id settings.shard_count settings.lease_seconds
                  settings.max_shards_per_worker;
            shard_resolver = stable_resolver shard_count;
          }))
        (close_handle faults connection_close connection)

  -- The `try` begins behind the last of the calls.
  unfoldable pub provide_super_stream_pricing_events_backend :
      RabbitMqSuperStreamPricingEventsSettings
      → (PricingEventsBackend → Action Handles B)
      → Action Handles B
  unfolding open_handle call close_handle cancel_task try_finally
  provide_super_stream_pricing_events_backend settings body = do
    call faults connect_robust
    connection ← open_handle (amqp_connection settings.amqp_url)
    call faults open_channel
    call faults bind_topology
    shard_count ← made (make_resolver settings.partition_count)
    call faults stream_start
    consumer ← open_handle (stream_consumer settings.host)
    call faults stream_subscribe
    task ← open_handle consumer_task
    try_finally
        (body (record {
          subscriber = stream_subscriber settings.super_stream;
          ownership = stream_ownership settings.super_stream settings.consumer_group;
          shard_resolver = stable_resolver shard_count;
        }))
        (do
          cancel_task task
          close_handle faults stream_close consumer
          close_handle faults connection_close connection)

  unfoldable pub provide_pricing_events_backend :
      PricingEventsSettings → (PricingEventsBackend → Action Handles B) → Action Handles B
  unfolding provide_kafka_pricing_events_backend provide_rabbitmq_quorum_pricing_events_backend
      provide_super_stream_pricing_events_backend
  provide_pricing_events_backend (kafka s) body = provide_kafka_pricing_events_backend s body
  provide_pricing_events_backend (rabbitmq_quorum s) body =
      provide_rabbitmq_quorum_pricing_events_backend s body
  provide_pricing_events_backend (rabbitmq_super_stream s) body =
      provide_super_stream_pricing_events_backend s body
