-- ===== src/Bootstrap/Events.antt =====
-- provider/rfq_events.py: the publisher of the outbox worker and the subscriber of the notification
-- worker.
use price_streaming.Prelude.{
  Action, List, Option, String, [], none, pure, runtime_error, some, throw, ℕ, ℕ_eq, ◌>>=◌, ◌>>◌,
  ◌∷◌,
}
use price_streaming.Routing.{make_resolver}
use price_streaming.Bootstrap.{
  Handles, Faults, open_handle, call, close_handle, try_finally, consumer_start, consumer_stop,
  producer_start, producer_stop, connect_robust, open_channel, set_qos, declare_exchange,
  declare_queue, bind_queue, connection_close, kafka_consumer, kafka_producer, amqp_connection,
}
use price_streaming.Bootstrap.Settings.{
  RfqEventsPublisherSettings, kafka_publisher, rabbitmq_publisher, RfqEventsSubscriberSettings,
  kafka_subscriber, rabbitmq_subscriber, super_stream_subscriber, read_attribute,
}
use price_streaming.Bootstrap.Backends.{made}

pub data EventPublisher : Type 0 where
  kafka_event_publisher : (producer : ℕ) → EventPublisher
  rabbitmq_event_publisher : (exchange : String) (shard_count : ℕ) → EventPublisher

-- `KafkaRfqDomainEventsSubscriber` and `RabbitmqRfqDomainEventsSubscriber`, on their client.
pub data EventSubscriber : Type 0 where
  kafka_events rabbitmq_events : (client : ℕ) → EventSubscriber

-- `await queue.bind(exchange, routing_key=routing_key)` for each of them.
unfoldable pub bind_routing_keys : Faults → List String → Action Handles Unit
bind_routing_keys faults [] = pure tt
bind_routing_keys faults (routing_key ∷ rest) =
    call faults bind_queue >> bind_routing_keys faults rest

module _ {B : Type 0} (faults : Faults) where
  unfoldable pub provide_rfq_events_publisher :
      RfqEventsPublisherSettings → (EventPublisher → Action Handles B) → Action Handles B
  unfolding open_handle call close_handle try_finally
  provide_rfq_events_publisher (kafka_publisher servers topic) body = do
    call faults producer_start
    producer ← open_handle (kafka_producer servers)
    try_finally (body (kafka_event_publisher producer)) (close_handle faults producer_stop producer)
  provide_rfq_events_publisher (rabbitmq_publisher url exchange pricing_shard_count) body = do
    call faults connect_robust
    connection ← open_handle (amqp_connection url)
    try_finally
        (do
          call faults open_channel
          call faults declare_exchange
          shard_count ← made (make_resolver pricing_shard_count)
          body (rabbitmq_event_publisher exchange shard_count))
        (close_handle faults connection_close connection)

  -- The generator of `provide_rfq_events_subscriber`, or nothing where it ends without a `yield`: no
  -- case names the settings of a super stream.
  unfoldable pub subscriber_generator :
      RfqEventsSubscriberSettings → (EventSubscriber → Action Handles B) → Option (Action Handles B)
  unfolding open_handle call close_handle try_finally bind_routing_keys read_attribute
  subscriber_generator (kafka_subscriber servers topic group_id) body = some (do
    call faults consumer_start
    consumer ← open_handle (kafka_consumer servers)
    try_finally (body (kafka_events consumer)) (close_handle faults consumer_stop consumer))
  subscriber_generator (rabbitmq_subscriber settings) body = some (do
    call faults connect_robust
    connection ← open_handle (amqp_connection settings.url)
    try_finally
        (do
          call faults open_channel
          call faults set_qos
          call faults declare_exchange
          call faults declare_queue
          routing_keys ← made (read_attribute settings "routing_keys")
          bind_routing_keys faults routing_keys
          body (rabbitmq_events connection))
        (close_handle faults connection_close connection))
  subscriber_generator (super_stream_subscriber host super_stream) body = none

  -- `asynccontextmanager`: entering a generator that ends without a `yield` raises `RuntimeError`.
  unfoldable pub enter_generator : Option (Action Handles B) → Action Handles B
  enter_generator none = throw runtime_error
  enter_generator (some m) = m

  unfoldable pub provide_rfq_events_subscriber :
      RfqEventsSubscriberSettings → (EventSubscriber → Action Handles B) → Action Handles B
  unfolding subscriber_generator enter_generator
  provide_rfq_events_subscriber settings body = enter_generator (subscriber_generator settings body)
