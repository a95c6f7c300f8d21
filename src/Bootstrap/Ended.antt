-- ===== src/Bootstrap/Ended.antt =====
-- The processes close what they open, whatever fails.
use price_streaming.Prelude.{Action, ℕ_eq}
use price_streaming.Bootstrap.{Handles, Faults}
use price_streaming.Bootstrap.Settings.{
  ApiSettings, NotificationWorkerSettings, OutboxWorkerSettings, PricingEventsSettings,
  PricingWorkerSettings, kafka, rabbitmq_quorum, rabbitmq_super_stream,
}
use price_streaming.Bootstrap.Backends.{PricingEventsBackend, provide_pricing_events_backend}
use price_streaming.Bootstrap.Processes.{
  ApiContainer, NotificationWorkerContainer, OutboxWorkerContainer, PricingWorkerContainer,
  bootstrap_api, bootstrap_notification_worker, bootstrap_outbox_worker, bootstrap_pricing_worker,
}
use price_streaming.Bootstrap.Restored.{Restores}
use price_streaming.Bootstrap.Closed.{
  Restores-provide_notification_updates_publisher,
  Restores-provide_notification_updates_subscriber_factory,
  Restores-provide_pricing_updates_subscriber_factory, Restores-provide_pricing_updates_publisher,
  Restores-provide_session_maker, Restores-provide_swap_quote_snapshot_subscriber,
  Restores-provide_kafka_pricing_events_backend,
  Restores-provide_rabbitmq_quorum_pricing_events_backend, Restores-provide_rfq_events_publisher,
  Restores-provide_rfq_events_subscriber,
}

-- The backends of which every call that may raise stands inside the `try`.
abbrev pub IsGuarded : PricingEventsSettings → Type 0
IsGuarded (kafka s) = Unit
IsGuarded (rabbitmq_quorum s) = Unit
IsGuarded (rabbitmq_super_stream s) = ⊥

module _ {B : Type 0} (faults : Faults) where
  Restores-provide_pricing_events_backend :
      (s : PricingEventsSettings) (body : PricingEventsBackend → Action Handles B)
      → IsGuarded s
      → ((b : PricingEventsBackend) → Restores (body b))
      → Restores (provide_pricing_events_backend faults s body)
  unfolding provide_pricing_events_backend
  Restores-provide_pricing_events_backend (kafka s) body g h =
      Restores-provide_kafka_pricing_events_backend faults s body h
  Restores-provide_pricing_events_backend (rabbitmq_quorum s) body g h =
      Restores-provide_rabbitmq_quorum_pricing_events_backend faults s body h
  Restores-provide_pricing_events_backend (rabbitmq_super_stream s) body g h = absurd g

  Restores-bootstrap_api :
      (s : ApiSettings) (body : ApiContainer → Action Handles B)
      → ((c : ApiContainer) → Restores (body c))
      → Restores (bootstrap_api faults s body)
  unfolding bootstrap_api
  Restores-bootstrap_api s body h =
      Restores-provide_session_maker faults s.database _ (λ session_maker.
        Restores-provide_notification_updates_subscriber_factory faults s.notification_updates _
          (λ n. Restores-provide_pricing_updates_subscriber_factory faults s.pricing_updates _ (λ p.
            h (record {
              session_maker = session_maker;
              notification_updates_factory = n;
              pricing_updates_factory = p;
            }))))

  Restores-bootstrap_notification_worker :
      (s : NotificationWorkerSettings) (body : NotificationWorkerContainer → Action Handles B)
      → ((c : NotificationWorkerContainer) → Restores (body c))
      → Restores (bootstrap_notification_worker faults s body)
  unfolding bootstrap_notification_worker
  Restores-bootstrap_notification_worker s body h =
      Restores-provide_session_maker faults s.database _ (λ session_maker.
        Restores-provide_rfq_events_subscriber faults s.rfq_events _ (λ events.
          Restores-provide_notification_updates_publisher faults s.notification_updates _ (λ n.
            h (record {
              session_maker = session_maker;
              rfq_events = events;
              notification_updates = n;
            }))))

  Restores-bootstrap_outbox_worker :
      (s : OutboxWorkerSettings) (body : OutboxWorkerContainer → Action Handles B)
      → ((c : OutboxWorkerContainer) → Restores (body c))
      → Restores (bootstrap_outbox_worker faults s body)
  unfolding bootstrap_outbox_worker
  Restores-bootstrap_outbox_worker s body h =
      Restores-provide_session_maker faults s.database _ (λ session_maker.
        Restores-provide_rfq_events_publisher faults s.rfq_events _ (λ publisher. h _))

  Restores-bootstrap_pricing_worker :
      (s : PricingWorkerSettings) (body : PricingWorkerContainer → Action Handles B)
      → IsGuarded s.rfq_domain_event
      → ((c : PricingWorkerContainer) → Restores (body c))
      → Restores (bootstrap_pricing_worker faults s body)
  unfolding bootstrap_pricing_worker
  Restores-bootstrap_pricing_worker s body g h =
      Restores-provide_session_maker faults s.database _ (λ session_maker.
        Restores-provide_pricing_events_backend s.rfq_domain_event _ g (λ backend.
          Restores-provide_swap_quote_snapshot_subscriber faults s.market_data _ (λ snapshots.
            Restores-provide_pricing_updates_publisher faults s.pricing_updates _ (λ u. h (record {
              session_maker = session_maker;
              swap_quote_snapshot_subscriber = snapshots;
              pricing_updates = u;
              backend = backend;
            })))))

  -- Whatever calls raise when the four processes start, run and end, each closes everything that it
  -- opened, if what it does with its container does so, and if the pricing worker has a Kafka or a
  -- quorum queue backend.
  pub processes_close :
      (a : ApiSettings) (n : NotificationWorkerSettings) (o : OutboxWorkerSettings)
      (p : PricingWorkerSettings) (serve : ApiContainer → Action Handles B)
      (notify : NotificationWorkerContainer → Action Handles B)
      (publish : OutboxWorkerContainer → Action Handles B)
      (price : PricingWorkerContainer → Action Handles B)
      → IsGuarded p.rfq_domain_event
      → ((c : ApiContainer) → Restores (serve c))
      → ((c : NotificationWorkerContainer) → Restores (notify c))
      → ((c : OutboxWorkerContainer) → Restores (publish c))
      → ((c : PricingWorkerContainer) → Restores (price c))
      → Restores (bootstrap_api faults a serve)
        × Restores (bootstrap_notification_worker faults n notify)
        × Restores (bootstrap_outbox_worker faults o publish)
        × Restores (bootstrap_pricing_worker faults p price)
  processes_close a n o p serve notify publish price g hs hn ho hp = (
    Restores-bootstrap_api a serve hs,
    Restores-bootstrap_notification_worker n notify hn,
    Restores-bootstrap_outbox_worker o publish ho,
    Restores-bootstrap_pricing_worker p price g hp,
  )
