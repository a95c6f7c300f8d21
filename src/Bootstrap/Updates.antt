-- ===== src/Bootstrap/Updates.antt =====
-- provider/realtime_updates.py, provider/database.py, and the providers of provider/pricing.py that
-- hold one client each. A client is made by a constructor, which opens nothing that may fail.
use price_streaming.Prelude.{Action, String, ℕ, ℕ_eq, ◌>>=◌, ◌>>◌}
use price_streaming.Bootstrap.{
  Handles, Faults, redis_close, engine_dispose, socket_connect, redis_client, engine, socket,
  open_handle, call, close_handle, close_socket, try_finally,
}
use price_streaming.Bootstrap.Settings.{RedisSettings, ZeroMqMarketDataSettings}

-- A client object with the prefix of its channels: `RedisNotificationPublisher`,
-- `RedisNotificationSubscriber`, `RedisPricingUpdatePublisher`, and `RedisPricingUpdateSubscriber`, whose
-- prefix is fixed.
pub record RedisAdapter : Type 0 where
  pub client : ℕ
  pub channel_prefix : String

module _ {B : Type 0} (faults : Faults) where
  -- What the six Redis providers share: the client, closed at the end.
  unfoldable pub with_redis_client : String → (ℕ → Action Handles B) → Action Handles B
  unfolding open_handle try_finally close_handle
  with_redis_client url body = do
    redis ← open_handle (redis_client url)
    try_finally (body redis) (close_handle faults (redis_close url) redis)

  unfoldable pub provide_notification_updates_publisher :
      RedisSettings → (RedisAdapter → Action Handles B) → Action Handles B
  unfolding with_redis_client
  provide_notification_updates_publisher settings body =
      with_redis_client settings.url
        (λ redis. body (record { client = redis; channel_prefix = settings.channel_prefix }))

  -- A factory is given as the subscriber that each of its calls makes.
  unfoldable pub provide_notification_updates_subscriber_factory :
      RedisSettings → (RedisAdapter → Action Handles B) → Action Handles B
  unfolding with_redis_client
  provide_notification_updates_subscriber_factory settings body =
      with_redis_client settings.url
        (λ redis. body (record { client = redis; channel_prefix = settings.channel_prefix }))

  unfoldable pub provide_pricing_updates_subscriber_factory :
      RedisSettings → (RedisAdapter → Action Handles B) → Action Handles B
  unfolding with_redis_client
  provide_pricing_updates_subscriber_factory settings body =
      with_redis_client settings.url
        (λ redis. body (record { client = redis; channel_prefix = "pricing" }))

  unfoldable pub provide_pricing_updates_publisher :
      RedisSettings → (RedisAdapter → Action Handles B) → Action Handles B
  unfolding with_redis_client
  provide_pricing_updates_publisher settings body =
      with_redis_client settings.url
        (λ redis. body (record { client = redis; channel_prefix = settings.channel_prefix }))

  -- A subscriber of notifications, and one of prices.
  unfoldable pub provide_notification_updates_subscriber :
      RedisSettings → (RedisAdapter → Action Handles B) → Action Handles B
  unfolding with_redis_client
  provide_notification_updates_subscriber settings body =
      with_redis_client settings.url
        (λ redis. body (record { client = redis; channel_prefix = settings.channel_prefix }))

  unfoldable pub provide_pricing_updates_subscriber :
      RedisSettings → (RedisAdapter → Action Handles B) → Action Handles B
  unfolding with_redis_client
  provide_pricing_updates_subscriber settings body =
      with_redis_client settings.url
        (λ redis. body (record { client = redis; channel_prefix = "pricing" }))

  -- `provide_session_maker`: the engine, of which sessions are made.
  unfoldable pub provide_session_maker : String → (ℕ → Action Handles B) → Action Handles B
  unfolding open_handle try_finally close_handle
  provide_session_maker url body = do
    made ← open_handle (engine url)
    try_finally (body made) (close_handle faults engine_dispose made)

  -- `provide_swap_quote_snapshot_subscriber`: the socket, which closing with `linger=0` never fails.
  unfoldable pub provide_swap_quote_snapshot_subscriber :
      ZeroMqMarketDataSettings → (ℕ → Action Handles B) → Action Handles B
  unfolding open_handle try_finally call close_socket
  provide_swap_quote_snapshot_subscriber settings body = do
    sock ← open_handle (socket settings.endpoint)
    try_finally (do call faults socket_connect; body sock) (close_socket sock)
