-- ===== src/Notification/Subscriber/Acknowledged.antt =====
-- The offsets that the notification worker commits.
use price_streaming.Prelude.{
  All, All-append, Bool-cases, List, Outcome, Outcome-cases, String, String_eq, [], all, any,
  database_error, inl, inr, ok, raise, refl, some, true, ℕ, ℕ_eq, ◌+◌, ◌∷◌, ◌≡◌, ◌≢◌,
}
use mathlib.Core.List.{Memᴰ}
use price_streaming.Pricing.{RfqRegisteredEvent}
use price_streaming.Delivery.{Wire}
use price_streaming.Notification.{
  Meets, Notifier, Wiring, NotificationRow, from_source, execute_notify,
}
use price_streaming.Notification.Unique.{IsNotificationTable, is_registered}
use price_streaming.Notification.Idempotent.{
  execute_notify-IsNotificationTable, execute_notify-keeps, stored,
}
use price_streaming.Notification.Subscriber.{
  Arrival, NotificationWorker, event_of, ack_current, after_yield, stop_consumer, notify_and_ack,
  consume_message, consume_rfq_domain_events,
}

module _ (w : Wiring) (wire : Wire) where
  -- The offset behind a message of the list, whose event has a notification in the table.
  pub IsNotified : List Arrival → List NotificationRow → String × ℕ × ℕ → Type 0
  IsNotified log table c =
      (a : Arrival) × Memᴰ a log
      × (c ≡ (a.message.topic, a.message.partition, a.message.offset + 1))
      × ((event : RfqRegisteredEvent) × (event_of wire a.message ≡ ok event)
          × (any (from_source event.event_id event.assigned_trader) table ≡ true))

  HasNotified : List Arrival → NotificationWorker → Type 0
  HasNotified log s =
      IsNotificationTable s.notifier.table × All (IsNotified log s.notifier.table) s.commits

  IsNotified-keeps :
      (log : List Arrival) (m : Meets) (event : RfqRegisteredEvent) (s : Notifier)
      (cs : List (String × ℕ × ℕ))
      → IsNotificationTable s.table
      → All (IsNotified log s.table) cs
      → All (IsNotified log (execute_notify w m event s).1.table) cs
  unfolding IsNotified
  IsNotified-keeps log m event s [] i h = tt
  IsNotified-keeps log m event s (c ∷ cs) i ((a, l, e, (v, r, f)), h) = (
    (
      a,
      l,
      e,
      (v, r, execute_notify-keeps w m event s (from_source v.event_id v.assigned_trader) i f),
    ),
    IsNotified-keeps log m event s cs i h,
  )

  ran : {A : Type 0} {r : Outcome A} {n : A} → r ≡ ok n → r ≢ raise database_error
  ran h bad = absurd (cc (rw bad at h))

  notify_and_ack-HasNotified :
      (log : List Arrival) (a : Arrival) (event : RfqRegisteredEvent) (s : NotificationWorker)
      → Memᴰ a log
      → all is_registered a.meets.others ≡ true
      → event_of wire a.message ≡ ok event
      → s.current_message ≡ some a.message
      → HasNotified log s
      → HasNotified log (notify_and_ack w wire a event s).1
  unfolding HasNotified notify_and_ack ack_current IsNotified
  notify_and_ack-HasNotified log a event s l o e c (i, h) =
      let j = execute_notify-IsNotificationTable w a.meets event s.notifier i o in
      let k = IsNotified-keeps log a.meets event s.notifier s.commits i h in
      elim (Outcome-cases (execute_notify w a.meets event s.notifier).0) [
        | inr (x, bad) ↦ rw (notify_and_ack, bad) (j, k)
        | inl (n, good) ↦ elim (Bool-cases a.commit_ok) [
          | inl done ↦
              let f = stored w a.meets event s.notifier i (ran good) in
              rw (notify_and_ack, ack_current, good, c, done)
                (
                  j,
                  All-append (IsNotified log (execute_notify w a.meets event s.notifier).1.table)
                      s.commits ((a.message.topic, a.message.partition, a.message.offset + 1) ∷ [])
                      k ((a, l, refl, (event, e, f)), tt),
                )
          | inr failed ↦ rw (notify_and_ack, ack_current, good, c, failed) (j, k)
        ]
      ]

  consume_message-HasNotified :
      (log : List Arrival) (a : Arrival) (s : NotificationWorker)
      → Memᴰ a log
      → all is_registered a.meets.others ≡ true
      → HasNotified log s
      → HasNotified log (consume_message w wire a s).1
  unfolding HasNotified consume_message stop_consumer after_yield
  consume_message-HasNotified log a s l o h =
      let s' : NotificationWorker = record s { current_message = some a.message } in
      elim (Outcome-cases (event_of wire a.message)) [
        | inr (x, bad) ↦ rw (consume_message, bad) h
        | inl (event, good) ↦
            let t = notify_and_ack-HasNotified log a event s' l o good refl h in
            elim (Outcome-cases (notify_and_ack w wire a event s').0) [
              | inl (_, acked) ↦ rw (consume_message, good, acked) t
              | inr (x, bad) ↦ rw (consume_message, good, bad) t
            ]
      ]

  consume-HasNotified :
      (log arrivals : List Arrival) (s : NotificationWorker)
      → ((a : Arrival) → Memᴰ a arrivals → Memᴰ a log)
      → All (λ a. all is_registered a.meets.others ≡ true) arrivals
      → HasNotified log s
      → HasNotified log (consume_rfq_domain_events w wire arrivals s).1
  unfolding consume_rfq_domain_events
  consume-HasNotified log [] s sub o h = h
  consume-HasNotified log (a ∷ rest) s sub o h =
      let t = consume_message-HasNotified log a s (sub a (Memᴰ.head refl)) o.0 h in
      elim (Outcome-cases (consume_message w wire a s).0) [
        | inr (x, bad) ↦ rw (consume_rfq_domain_events, bad) t
        | inl (_, good) ↦
            rw (consume_rfq_domain_events, good)
              (consume-HasNotified log rest (consume_message w wire a s).1
                (λ b m. sub b (Memᴰ.tail m)) o.1 t)
      ]

  -- Whichever messages arrive and whatever fails on the way, every offset that the worker commits, as
  -- it starts with none, is the one behind a message that arrived, whose event has a notification for
  -- the assigned trader in the table at the end; other processes insert only rows for registered RFQs.
  pub consume_rfq_domain_events-IsNotified :
      (arrivals : List Arrival) (s : NotificationWorker)
      → IsNotificationTable s.notifier.table
      → s.commits ≡ []
      → All (λ a. all is_registered a.meets.others ≡ true) arrivals
      → All
          (IsNotified arrivals (consume_rfq_domain_events w wire arrivals s).1.notifier.table)
          (consume_rfq_domain_events w wire arrivals s).1.commits
  unfolding HasNotified
  consume_rfq_domain_events-IsNotified arrivals s i c o =
      (consume-HasNotified arrivals arrivals s (λ a m. m) o (i, rw c tt)).1
