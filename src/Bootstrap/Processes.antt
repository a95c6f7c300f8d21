-- ===== src/Bootstrap/Processes.antt =====
-- bootstrap/processes: the four processes, each a stack of providers (`AsyncExitStack`, which leaves
-- the blocks in the opposite order) round what the process does with its container.
use price_streaming.Prelude.{Action, ℕ, ℕ_eq}
use price_streaming.Bootstrap.{Handles, Faults}
use price_streaming.Bootstrap.Settings.{
  ApiSettings, NotificationWorkerSettings, OutboxWorkerSettings, PricingWorkerSettings,
}
use price_streaming.Bootstrap.Updates.{
  RedisAdapter, provide_notification_updates_publisher,
  provide_notification_updates_subscriber_factory, provide_pricing_updates_subscriber_factory,
  provide_pricing_updates_publisher, provide_session_maker, provide_swap_quote_snapshot_subscriber,
}
use price_streaming.Bootstrap.Backends.{PricingEventsBackend, provide_pricing_events_backend}
use price_streaming.Bootstrap.Events.{
  EventPublisher, EventSubscriber, provide_rfq_events_publisher, provide_rfq_events_subscriber,
}

pub record ApiContainer : Type 0 where
  pub session_maker : ℕ
  pub notification_updates_factory : RedisAdapter
  pub pricing_updates_factory : RedisAdapter

pub record NotificationWorkerContainer : Type 0 where
  pub session_maker : ℕ
  pub rfq_events : EventSubscriber
  pub notification_updates : RedisAdapter

pub record OutboxWorkerContainer : Type 0 where
  pub session_maker : ℕ
  pub publisher : EventPublisher

-- The fields of the backend stand in it; the session registry is an object in memory.
pub record PricingWorkerContainer : Type 0 where
  pub session_maker : ℕ
  pub swap_quote_snapshot_subscriber : ℕ
  pub pricing_updates : RedisAdapter
  pub backend : PricingEventsBackend

module _ {B : Type 0} (faults : Faults) where
  unfoldable pub bootstrap_api : ApiSettings → (ApiContainer → Action Handles B) → Action Handles B
  unfolding provide_session_maker provide_notification_updates_subscriber_factory
      provide_pricing_updates_subscriber_factory
  bootstrap_api settings body = provide_session_maker faults settings.database (λ session_maker.
      provide_notification_updates_subscriber_factory faults settings.notification_updates
        (λ notified.
          provide_pricing_updates_subscriber_factory faults settings.pricing_updates (λ priced.
            body (record {
              session_maker = session_maker;
              notification_updates_factory = notified;
              pricing_updates_factory = priced;
            }))))

  unfoldable pub bootstrap_notification_worker :
      NotificationWorkerSettings
      → (NotificationWorkerContainer → Action Handles B)
      → Action Handles B
  unfolding provide_session_maker provide_rfq_events_subscriber
      provide_notification_updates_publisher
  bootstrap_notification_worker settings body =
      provide_session_maker faults settings.database (λ session_maker.
        provide_rfq_events_subscriber faults settings.rfq_events (λ rfq_events.
          provide_notification_updates_publisher faults settings.notification_updates (λ updates.
            body (record {
              session_maker = session_maker;
              rfq_events = rfq_events;
              notification_updates = updates;
            }))))

  unfoldable pub bootstrap_outbox_worker :
      OutboxWorkerSettings → (OutboxWorkerContainer → Action Handles B) → Action Handles B
  unfolding provide_session_maker provide_rfq_events_publisher
  bootstrap_outbox_worker settings body =
      provide_session_maker faults settings.database (λ session_maker.
        provide_rfq_events_publisher faults settings.rfq_events
          (λ publisher. body (record { session_maker = session_maker; publisher = publisher })))

  unfoldable pub bootstrap_pricing_worker :
      PricingWorkerSettings → (PricingWorkerContainer → Action Handles B) → Action Handles B
  unfolding provide_session_maker provide_pricing_events_backend
      provide_swap_quote_snapshot_subscriber provide_pricing_updates_publisher
  bootstrap_pricing_worker settings body =
      provide_session_maker faults settings.database (λ session_maker.
        provide_pricing_events_backend faults settings.rfq_domain_event (λ backend.
          provide_swap_quote_snapshot_subscriber faults settings.market_data (λ snapshots.
            provide_pricing_updates_publisher faults settings.pricing_updates (λ updates.
              body (record {
                session_maker = session_maker;
                swap_quote_snapshot_subscriber = snapshots;
                pricing_updates = updates;
                backend = backend;
              })))))
