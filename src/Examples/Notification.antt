-- ===== src/Examples/Notification.antt =====
-- One RFQ that is notified of twice.
use price_streaming.Prelude.{
  runtime_error, All, String_eq, [], bind, broker_error, false, filter, map, none, ok, raise, refl,
  some, sym, true, value_error, ℕ_eq, ◌==◌, ◌∙◌, ◌∷◌, ◌≡◌,
}
use Prim.Native.String.{[] as empty}
use price_streaming.Examples.Pricing.{event}
use price_streaming.Examples.Codec.{digit, marks, read_date, read_date-marks}
use price_streaming.Examples.Updates.{join, split, split-join}
use price_streaming.Notification.Feed.{
  Reading, arrivals_of, client_disconnect, client_text, notification_websocket, publish_all,
  websocket_recipient,
}
use price_streaming.Notification.Feed.Shown.{
  ReadsBack, message_of, notification_websocket-publish_all,
}
use price_streaming.Delivery.{Wire}
use price_streaming.Notification.{
  Meets, Notification, Notifier, Wiring, execute_notify, find_by_source, notification_of,
}
use price_streaming.Notification.Unique.{IsNotificationTable, no_clash}
use price_streaming.Notification.Idempotent.{execute_notify-again}
use price_streaming.Notification.Refinement.{enter_if_absent, view, execute_notify-enter_if_absent}
use price_streaming.Notification.Subscriber.{Arrival, NotificationWorker, consume_rfq_domain_events}
use price_streaming.Notification.Subscriber.Acknowledged.{
  IsNotified, consume_rfq_domain_events-IsNotified,
}

abbrev wiring : Wiring
wiring = record {
  dumps = λ p. p.notification_id;
  isoformat = λ t. "2024-01-01";
  channel_prefix = "notifications";
}

abbrev notifier : Notifier
notifier = record { table = []; published = [] }

-- The publication fails the first time.
abbrev first_time : Meets
first_time = record { id = "n1"; others = []; commit_ok = true; publish_ok = false }

abbrev second_time : Meets
second_time = record { id = "n2"; others = []; commit_ok = true; publish_ok = true }

empty-IsNotificationTable : IsNotificationTable []
unfolding IsNotificationTable no_clash
empty-IsNotificationTable = (refl, refl)

first_raises : (execute_notify wiring first_time event notifier).0 ≡ raise broker_error
unfolding execute_notify find_by_source
first_raises = refl

execute_notify-again_example :
    (n : Notification) × (execute_notify wiring second_time event
        (execute_notify wiring first_time event notifier).1
      ≡ (ok n, (execute_notify wiring first_time event notifier).1))
    × (n.source_event_id ≡ event.event_id)
    × (n.recipient ≡ event.assigned_trader)
execute_notify-again_example =
    execute_notify-again wiring first_time second_time event notifier empty-IsNotificationTable refl
      (λ bad. absurd (cc (sym first_raises ∙ bad)))

execute_notify-enter_if_absent_example :
    find_by_source event.event_id event.assigned_trader
      (execute_notify wiring second_time event notifier).1.table
    ≡ ok (
        enter_if_absent event
          (notification_of "n2" event)
          (view [])
          event.event_id
          event.assigned_trader)
execute_notify-enter_if_absent_example =
    execute_notify-enter_if_absent wiring second_time event notifier empty-IsNotificationTable refl
      refl refl event.event_id event.assigned_trader

abbrev registered_wire : Wire
registered_wire = record {
  read_envelope = λ body. ok (record {
    message_id = "e1";
    message_type = "rfq.registered";
    schema_version = 1;
    payload = body;
    occurred_at = 5;
  });
  read_event = λ i payload. ok event;
  uuid = λ n. "d";
}

abbrev arrival : Arrival
arrival = record {
  message = record { topic = "rfq-domain-events"; partition = 1; offset = 7; value = "{}" };
  meets = second_time;
  commit_ok = true;
}

abbrev notification_worker : NotificationWorker
notification_worker = record {
  notifier = notifier;
  current_message = none;
  commits = [];
  stopped = false;
}

consume_rfq_domain_events-IsNotified_example :
    All
      (IsNotified wiring registered_wire
        (arrival ∷ [])
        (consume_rfq_domain_events wiring registered_wire
          (arrival ∷ [])
          notification_worker).1.notifier.table)
      (consume_rfq_domain_events wiring registered_wire
        (arrival ∷ [])
        notification_worker).1.commits
consume_rfq_domain_events-IsNotified_example =
    consume_rfq_domain_events-IsNotified wiring registered_wire (arrival ∷ []) notification_worker
      empty-IsNotificationTable refl (refl, tt)

abbrev text_wiring : Wiring
text_wiring = record {
  dumps = λ p.
      join p.notification_id
        (join p.notification_type (join p.resource_type (join p.resource_id p.created_at)));
  isoformat = λ t. marks digit t empty;
  channel_prefix = "notifications";
}

abbrev text_reading : Reading
text_reading = record {
  loads = λ s. bind (split s) λ a. bind (split a.par_rate) λ b. bind (split b.par_rate) λ c.
      bind (split c.par_rate) λ d. ok (record {
        notification_id = a.request_id;
        notification_type = b.request_id;
        resource_type = c.request_id;
        resource_id = d.request_id;
        created_at = d.par_rate;
      });
  fromisoformat = λ s. elim (read_date s) [ none ↦ raise value_error | some t ↦ ok t ];
}

text-ReadsBack : ReadsBack text_wiring text_reading
text-ReadsBack = record {
  loads-dumps = λ p.
      rw
        (
          split-join p.notification_id
              (join p.notification_type (join p.resource_type (join p.resource_id p.created_at))),
          split-join p.notification_type (join p.resource_type (join p.resource_id p.created_at)),
          split-join p.resource_type (join p.resource_id p.created_at),
          split-join p.resource_id p.created_at,
        )
        refl;
  fromisoformat-isoformat = λ t. rw (text_reading, read_date-marks t) refl;
}

abbrev for_kota : Notification
for_kota = record (notification_of "n1" event) { recipient = "Kota" }

notification_websocket-publish_all_example :
    notification_websocket text_reading "notifications"
      (λ m. true)
      (arrivals_of
        (publish_all text_wiring (for_kota ∷ notification_of "n2" event ∷ []) notifier).published)
      runtime_error
      (client_text "hello" ∷ client_disconnect ∷ [])
    ≡ (
      (
        map message_of (
            filter
              (λ n. n.recipient == websocket_recipient)
              (for_kota ∷ notification_of "n2" event ∷ [])),
        some (raise runtime_error),
      ),
      record { channels = []; closed = true },
    )
notification_websocket-publish_all_example =
    notification_websocket-publish_all text_wiring text_reading text-ReadsBack (λ m. true)
      (for_kota ∷ notification_of "n2" event ∷ []) notifier (client_text "hello" ∷ []) refl
      (λ m. refl)
