-- ===== src/Notification/Subscriber.antt =====
-- The notification worker: presentation/notification_worker/main.py over `KafkaRfqDomainEventsSubscriber`
-- of infrastructure/application/adapter/rfq_domain_events_subscriber/kafka.
pub mod Acknowledged
use price_streaming.Prelude.{
  Action, Bool, List, Option, Outcome, String, String_eq, [], bind, broker_error, if◌then◌else◌,
  nat_eq, none, ok, raise, runtime_error, some, true, value_error, ℕ, ℕ_eq, ◌&&◌, ◌++◌, ◌+◌, ◌==◌,
  ◌>>◌, ◌∷◌,
}
use price_streaming.Pricing.{RfqRegisteredEvent}
use price_streaming.Delivery.{IntegrationEventEnvelope, Wire}
use price_streaming.Delivery.Kafka.{Message}
use price_streaming.Notification.{Meets, Notifier, Wiring, execute_notify}

-- `_deserialize`
unfoldable pub deserialize_registered : Wire → IntegrationEventEnvelope → Outcome RfqRegisteredEvent
deserialize_registered wire e =
    if e.message_type == "rfq.registered" && nat_eq e.schema_version 1
    then wire.read_event e.message_id e.payload
    else raise value_error

-- What `subscribe` makes of a message.
unfoldable pub event_of : Wire → Message → Outcome RfqRegisteredEvent
unfolding deserialize_registered
event_of wire m = bind (wire.read_envelope m.value) (deserialize_registered wire)

-- The worker's state: the table and the publications, `_current_message`, the offsets committed and
-- whether the consumer was stopped.
pub record NotificationWorker : Type 0 where
  pub notifier : Notifier
  pub current_message : Option Message
  pub commits : List (String × ℕ × ℕ)
  pub stopped : Bool

-- `ack`; the broker may fail the commit.
unfoldable pub ack_current : (commit_ok : Bool) → Action NotificationWorker Unit
ack_current commit_ok s = elim s.current_message [
  | none ↦ (raise runtime_error, s)
  | some m ↦
      if commit_ok
      then (ok tt, record s { commits = s.commits ++ (m.topic, m.partition, m.offset + 1) ∷ [] })
      else (raise broker_error, s)
]

-- The `finally` blocks of `subscribe`: at the `yield`, and around the loop.
unfoldable pub after_yield : NotificationWorker → NotificationWorker
after_yield s = record s { current_message = none }

unfoldable pub stop_consumer : NotificationWorker → NotificationWorker
stop_consumer s = record s { stopped = true }

-- A message, what its execution meets, and whether the commit of its offset succeeds.
pub record Arrival : Type 0 where
  pub message : Message
  pub meets : Meets
  pub commit_ok : Bool

module _ (w : Wiring) (wire : Wire) where
  -- The body of the loop of `consume_rfq_domain_events`.
  unfoldable pub notify_and_ack : Arrival → RfqRegisteredEvent → Action NotificationWorker Unit
  unfolding ack_current
  notify_and_ack a event s =
      let (r, notifier) = execute_notify w a.meets event s.notifier in
      elim r [
        | raise x ↦ (raise x, record s { notifier = notifier })
        | ok _ ↦ ack_current a.commit_ok (record s { notifier = notifier })
      ]

  -- One round of `subscribe` with the loop above; an exception ends both, and closes the generator.
  unfoldable pub consume_message : Arrival → Action NotificationWorker Unit
  unfolding event_of notify_and_ack after_yield stop_consumer
  consume_message a s =
      let s' = record s { current_message = some a.message } in
      elim (event_of wire a.message) [
        | raise x ↦ (raise x, stop_consumer s')
        | ok event ↦
            let (r, t) = notify_and_ack a event s' in
            elim r [
              | raise x ↦ (raise x, stop_consumer (after_yield t))
              | ok _ ↦ (ok tt, after_yield t)
            ]
      ]

  -- `consume_rfq_domain_events`, as far as messages have arrived.
  unfoldable pub consume_rfq_domain_events : List Arrival → Action NotificationWorker Unit
  unfolding consume_message
  consume_rfq_domain_events [] s = (ok tt, s)
  consume_rfq_domain_events (a ∷ rest) s = (consume_message a >> consume_rfq_domain_events rest) s
