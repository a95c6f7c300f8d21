-- ===== src/Bootstrap/Closed.antt =====
-- The providers close what they open.
use price_streaming.Prelude.{Action, List, String, [], ok, raise, ◌∷◌, runtime_error, ℕ, ℕ_eq, ◌>>◌}
use price_streaming.Routing.{make_resolver}
use price_streaming.Bootstrap.{
  Call, Handles, Faults, call, close_handle, close_socket, cancel_task, consumer_start,
  consumer_subscribe, consumer_stop, producer_start, producer_stop, connect_robust, open_channel,
  set_qos, declare_exchange, declare_queue, bind_queue, connection_close, declare_topology,
  socket_connect, engine_dispose, redis_close, kafka_consumer, kafka_producer, amqp_connection,
  dispatcher_task, redis_client, engine, socket,
}
use price_streaming.Bootstrap.Settings.{
  KafkaPricingEventsSettings, RabbitMqQuorumPricingEventsSettings, RfqEventsPublisherSettings,
  RfqEventsSubscriberSettings, ZeroMqMarketDataSettings, RedisSettings, kafka_publisher,
  kafka_subscriber, rabbitmq_publisher, rabbitmq_subscriber, super_stream_subscriber,
  read_attribute,
}
use price_streaming.Bootstrap.Updates.{
  RedisAdapter, with_redis_client, provide_notification_updates_publisher,
  provide_notification_updates_subscriber_factory, provide_pricing_updates_subscriber_factory,
  provide_pricing_updates_publisher, provide_session_maker, provide_swap_quote_snapshot_subscriber,
}
use price_streaming.Bootstrap.Backends.{
  PricingEventsBackend, provide_kafka_pricing_events_backend,
  provide_rabbitmq_quorum_pricing_events_backend,
}
use price_streaming.Bootstrap.Events.{
  EventPublisher, EventSubscriber, bind_routing_keys, enter_generator, provide_rfq_events_publisher,
  provide_rfq_events_subscriber, subscriber_generator,
}
use price_streaming.Bootstrap.Restored.{
  Restores, Restores-call, Restores-result, Restores-then, Restores-holding, Closes-close_handle,
  Closes-close_socket, Closes-cancel_task,
}

Restores-bind_routing_keys :
    (faults : Faults) (keys : List String) → Restores (bind_routing_keys faults keys)
unfolding bind_routing_keys
Restores-bind_routing_keys faults [] = Restores-result (ok tt)
Restores-bind_routing_keys faults (k ∷ ks) =
    Restores-then (call faults bind_queue) (λ _. bind_routing_keys faults ks)
      (Restores-call faults bind_queue) (λ _. Restores-bind_routing_keys faults ks)

module _ {B : Type 0} (faults : Faults) where
  -- A call that may raise, and then the rest.
  after_call : (c : Call) (m : Action Handles B) → Restores m → Restores (call faults c >> m)
  after_call c m h = Restores-then (call faults c) (λ _. m) (Restores-call faults c) (λ _. h)

  Restores-with_redis_client :
      (url : String) (body : ℕ → Action Handles B)
      → ((n : ℕ) → Restores (body n))
      → Restores (with_redis_client faults url body)
  unfolding with_redis_client
  Restores-with_redis_client url body h =
      Restores-holding (redis_client url) (close_handle faults (redis_close url)) body
        (Closes-close_handle faults (redis_close url)) h

  pub Restores-provide_notification_updates_publisher :
      (s : RedisSettings) (body : RedisAdapter → Action Handles B)
      → ((a : RedisAdapter) → Restores (body a))
      → Restores (provide_notification_updates_publisher faults s body)
  unfolding provide_notification_updates_publisher
  Restores-provide_notification_updates_publisher s body h =
      Restores-with_redis_client s.url _ (λ n. h _)

  pub Restores-provide_notification_updates_subscriber_factory :
      (s : RedisSettings) (body : RedisAdapter → Action Handles B)
      → ((a : RedisAdapter) → Restores (body a))
      → Restores (provide_notification_updates_subscriber_factory faults s body)
  unfolding provide_notification_updates_subscriber_factory
  Restores-provide_notification_updates_subscriber_factory s body h =
      Restores-with_redis_client s.url _ (λ n. h _)

  pub Restores-provide_pricing_updates_subscriber_factory :
      (s : RedisSettings) (body : RedisAdapter → Action Handles B)
      → ((a : RedisAdapter) → Restores (body a))
      → Restores (provide_pricing_updates_subscriber_factory faults s body)
  unfolding provide_pricing_updates_subscriber_factory
  Restores-provide_pricing_updates_subscriber_factory s body h =
      Restores-with_redis_client s.url _ (λ n. h _)

  pub Restores-provide_pricing_updates_publisher :
      (s : RedisSettings) (body : RedisAdapter → Action Handles B)
      → ((a : RedisAdapter) → Restores (body a))
      → Restores (provide_pricing_updates_publisher faults s body)
  unfolding provide_pricing_updates_publisher
  Restores-provide_pricing_updates_publisher s body h =
      Restores-with_redis_client s.url _ (λ n. h _)

  pub Restores-provide_session_maker :
      (url : String) (body : ℕ → Action Handles B)
      → ((n : ℕ) → Restores (body n))
      → Restores (provide_session_maker faults url body)
  unfolding provide_session_maker
  Restores-provide_session_maker url body h =
      Restores-holding (engine url) (close_handle faults engine_dispose) body
        (Closes-close_handle faults engine_dispose) h

  pub Restores-provide_swap_quote_snapshot_subscriber :
      (s : ZeroMqMarketDataSettings) (body : ℕ → Action Handles B)
      → ((n : ℕ) → Restores (body n))
      → Restores (provide_swap_quote_snapshot_subscriber faults s body)
  unfolding provide_swap_quote_snapshot_subscriber
  Restores-provide_swap_quote_snapshot_subscriber s body h =
      Restores-holding (socket s.endpoint) close_socket _ Closes-close_socket
        (λ n. after_call socket_connect (body n) (h n))

  pub Restores-provide_kafka_pricing_events_backend :
      (s : KafkaPricingEventsSettings) (body : PricingEventsBackend → Action Handles B)
      → ((b : PricingEventsBackend) → Restores (body b))
      → Restores (provide_kafka_pricing_events_backend faults s body)
  unfolding provide_kafka_pricing_events_backend
  Restores-provide_kafka_pricing_events_backend s body h = after_call consumer_start _ (
      Restores-holding (kafka_consumer s.bootstrap_servers) (close_handle faults consumer_stop) _
        (Closes-close_handle faults consumer_stop)
        (λ n.
          after_call consumer_subscribe _
            (Restores-holding dispatcher_task cancel_task _ Closes-cancel_task (λ t. h _))))

  pub Restores-provide_rabbitmq_quorum_pricing_events_backend :
      (s : RabbitMqQuorumPricingEventsSettings) (body : PricingEventsBackend → Action Handles B)
      → ((b : PricingEventsBackend) → Restores (body b))
      → Restores (provide_rabbitmq_quorum_pricing_events_backend faults s body)
  unfolding provide_rabbitmq_quorum_pricing_events_backend
  Restores-provide_rabbitmq_quorum_pricing_events_backend s body h = after_call connect_robust _ (
      Restores-holding (amqp_connection s.url) (close_handle faults connection_close) _
        (Closes-close_handle faults connection_close)
        (λ n. after_call open_channel _ (
          after_call set_qos _ (
            after_call declare_topology _ (
              Restores-then (λ w. (make_resolver s.shard_count, w)) _
                (Restores-result (make_resolver s.shard_count)) (λ count. h _))))))

  pub Restores-provide_rfq_events_publisher :
      (s : RfqEventsPublisherSettings) (body : EventPublisher → Action Handles B)
      → ((p : EventPublisher) → Restores (body p))
      → Restores (provide_rfq_events_publisher faults s body)
  unfolding provide_rfq_events_publisher
  Restores-provide_rfq_events_publisher (kafka_publisher servers topic) body h =
      after_call producer_start _ (
        Restores-holding (kafka_producer servers) (close_handle faults producer_stop) _
          (Closes-close_handle faults producer_stop) (λ n. h _))
  Restores-provide_rfq_events_publisher (rabbitmq_publisher url exchange n) body h =
      after_call connect_robust _ (
        Restores-holding (amqp_connection url) (close_handle faults connection_close) _
          (Closes-close_handle faults connection_close)
          (λ c. after_call open_channel _ (
            after_call declare_exchange _ (
              Restores-then (λ w. (make_resolver n, w)) _ (Restores-result (make_resolver n))
                (λ count. h _)))))

  pub Restores-provide_rfq_events_subscriber :
      (s : RfqEventsSubscriberSettings) (body : EventSubscriber → Action Handles B)
      → ((p : EventSubscriber) → Restores (body p))
      → Restores (provide_rfq_events_subscriber faults s body)
  unfolding provide_rfq_events_subscriber subscriber_generator enter_generator
  Restores-provide_rfq_events_subscriber (kafka_subscriber servers topic group_id) body h =
      after_call consumer_start _ (
        Restores-holding (kafka_consumer servers) (close_handle faults consumer_stop) _
          (Closes-close_handle faults consumer_stop) (λ n. h _))
  Restores-provide_rfq_events_subscriber (rabbitmq_subscriber s) body h =
      after_call connect_robust _ (
        Restores-holding (amqp_connection s.url) (close_handle faults connection_close) _
          (Closes-close_handle faults connection_close)
          (λ c. after_call open_channel _ (
            after_call set_qos _ (
              after_call declare_exchange _ (
                after_call declare_queue _ (
                  Restores-then (λ w. (read_attribute s "routing_keys", w)) _
                    (Restores-result (read_attribute s "routing_keys"))
                    (λ keys.
                      Restores-then (bind_routing_keys faults keys) _
                        (Restores-bind_routing_keys faults keys) (λ _. h _))))))))
  Restores-provide_rfq_events_subscriber (super_stream_subscriber host s) body h =
      Restores-result (raise runtime_error)
