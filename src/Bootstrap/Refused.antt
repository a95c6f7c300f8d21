-- ===== src/Bootstrap/Refused.antt =====
-- The notification worker with a RabbitMQ or a super stream source of events.
use price_streaming.Prelude.{
  Action, List, String, String_eq, Option-cases, Outcome-cases, PyError, attribute_error, inl, inr,
  raise, refl, runtime_error, ℕ, ℕ_eq, ◌+◌, ◌>>=◌, ◌>>◌, ◌∷◌, ◌≡◌,
}
use price_streaming.Dict
use price_streaming.Bootstrap.{
  Call, Handles, Faults, Resource, open_handle, call, close_handle, try_finally, connect_robust,
  open_channel, set_qos, declare_exchange, declare_queue, connection_close, amqp_connection, engine,
  engine_dispose,
}
use price_streaming.Bootstrap.Settings.{
  NotificationWorkerSettings, RfqEventsSubscriberSettings, kafka_subscriber, rabbitmq_subscriber,
  super_stream_subscriber, RabbitMqRfqEventsSubscriberSettings, attributes, read_attribute,
}
use price_streaming.Bootstrap.Updates.{provide_session_maker}
use price_streaming.Bootstrap.Events.{
  EventSubscriber, enter_generator, subscriber_generator, provide_rfq_events_subscriber,
}
use price_streaming.Bootstrap.Processes.{NotificationWorkerContainer, bootstrap_notification_worker}

pub record Raises {A : Type 0} (m : Action Handles A) : Type 0 where
  pub raised : (w : Handles) → (x : PyError) × ((m w).0 ≡ raise x)

module _ {B : Type 0} where
  Raises-throw : (x : PyError) → Raises {A = B} (λ w. (raise x, w))
  Raises-throw x = record { raised = λ w. (x, refl) }

  Raises-call :
      (faults : Faults) (c : Call) (m : Action Handles B) → Raises m → Raises (call faults c >> m)
  unfolding call
  Raises-call faults c m h = record {
    raised = λ w. elim (Option-cases (faults c)) [
      | inl fine ↦ rw (call, fine) (h.raised w)
      | inr (x, bad) ↦ rw (call, bad) (x, refl)
    ];
  }

  Raises-holding :
      (r : Resource) (cleanup : ℕ → Action Handles Unit) (body : ℕ → Action Handles B)
      → ((n : ℕ) → Raises (body n))
      → Raises (open_handle r >>= λ n. try_finally (body n) (cleanup n))
  unfolding open_handle try_finally
  Raises-holding r cleanup body h = record {
    raised = λ w.
        let w1 : Handles = record { fresh = w.fresh + 1; opened = (w.fresh, r) ∷ w.opened } in
        let (x, bad) = (h w.fresh).raised w1 in
        elim (Outcome-cases (cleanup w.fresh (body w.fresh w1).1).0) [
          | inl (u, fine) ↦ rw fine (x, bad)
          | inr (y, worse) ↦ rw worse (y, refl)
        ];
  }

-- No field of the settings is called `routing_keys`.
no_routing_keys :
    (s : RabbitMqRfqEventsSubscriberSettings)
    → read_attribute s "routing_keys" ≡ raise attribute_error
unfolding read_attribute attributes Dict.get
no_routing_keys s = refl

Raises-read_attribute :
    {B : Type 0} (s : RabbitMqRfqEventsSubscriberSettings) (k : List String → Action Handles B)
    → Raises ((λ w. (read_attribute s "routing_keys", w)) >>= k)
Raises-read_attribute s k = record { raised = λ w. rw (no_routing_keys s) (attribute_error, refl) }

-- The sources of which the provider makes a subscriber.
abbrev pub IsKafka : RfqEventsSubscriberSettings → Type 0
IsKafka (kafka_subscriber servers topic group_id) = Unit
IsKafka (rabbitmq_subscriber s) = ⊥
IsKafka (super_stream_subscriber host s) = ⊥

module _ {B : Type 0} (faults : Faults) where
  Raises-provide_rfq_events_subscriber :
      (s : RfqEventsSubscriberSettings) (body : EventSubscriber → Action Handles B)
      → ¬ IsKafka s
      → Raises (provide_rfq_events_subscriber faults s body)
  unfolding provide_rfq_events_subscriber subscriber_generator enter_generator
  Raises-provide_rfq_events_subscriber (kafka_subscriber servers topic group_id) body h =
      absurd (h tt)
  Raises-provide_rfq_events_subscriber (rabbitmq_subscriber s) body h =
      Raises-call faults connect_robust _ (
        Raises-holding (amqp_connection s.url) (close_handle faults connection_close) _ (λ c.
          Raises-call faults open_channel _ (
            Raises-call faults set_qos _ (
              Raises-call faults declare_exchange _
                (Raises-call faults declare_queue _ (Raises-read_attribute s _))))))
  Raises-provide_rfq_events_subscriber (super_stream_subscriber host s) body h =
      Raises-throw runtime_error

  -- With settings for RabbitMQ or a super stream, whatever the process is to do and whichever calls
  -- raise, the notification worker raises.
  pub bootstrap_notification_worker-Raises :
      (s : NotificationWorkerSettings) (body : NotificationWorkerContainer → Action Handles B)
      → ¬ IsKafka s.rfq_events
      → Raises (bootstrap_notification_worker faults s body)
  unfolding bootstrap_notification_worker provide_session_maker
  bootstrap_notification_worker-Raises s body h =
      Raises-holding (engine s.database) (close_handle faults engine_dispose) _
        (λ n. Raises-provide_rfq_events_subscriber s.rfq_events _ h)
