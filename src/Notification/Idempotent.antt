-- ===== src/Notification/Idempotent.antt =====
-- One notification for each event and trader.
use price_streaming.Prelude.{
  ==_iff, Bool, Bool-cases, List, String_eq, all, any, arith, broker_error, database_error, false,
  if◌then◌else◌, inl, inr, not, ok, raise, refl, true, ℕ_eq, ◌&&◌, ◌∙◌, ◌∷◌, ◌≡◌, ◌≢◌,
}
use price_streaming.Pricing.{RfqRegisteredEvent}
use price_streaming.Notification.{
  Notification, NotificationRow, Notifier, Meets, Wiring, clashes, notification_row,
  notification_of, from_source, insert_rows, insert_others, commit_uow, save_notification,
  publish_notification, execute_notify,
}
use price_streaming.Notification.Unique.{
  no_clash, is_registered, IsNotificationTable, insert_others-IsNotificationTable,
  insert_others-keeps, find_by_source-some, find_by_source-none,
}

module _ (w : Wiring) (m : Meets) (event : RfqRegisteredEvent) (s : Notifier) where
  unfoldable pub new_row : NotificationRow
  unfolding notification_row notification_of
  new_row = notification_row (notification_of m.id event)

  -- What an execution does of an event without a row.
  pub execute_notify-missing :
      any (from_source event.event_id event.assigned_trader) s.table ≡ false
      → (execute_notify w m event s).0 ≡ (
          if m.commit_ok && not (any (clashes new_row) (insert_others m.others s.table))
          then if m.publish_ok then ok (notification_of m.id event) else raise broker_error
          else raise database_error)
        × ((execute_notify w m event s).1.table ≡ (
            if m.commit_ok && not (any (clashes new_row) (insert_others m.others s.table))
            then new_row ∷ insert_others m.others s.table
            else insert_others m.others s.table))
  unfolding execute_notify commit_uow save_notification insert_rows publish_notification new_row
  execute_notify-missing h = (
    rw (execute_notify, find_by_source-none _ _ s.table h) (ground arith),
    rw (execute_notify, find_by_source-none _ _ s.table h) (ground arith),
  )

  pub execute_notify-found :
      IsNotificationTable s.table
      → any (from_source event.event_id event.assigned_trader) s.table ≡ true
      → (n : Notification) × (execute_notify w m event s ≡ (ok n, s))
        × (n.source_event_id ≡ event.event_id)
        × (n.recipient ≡ event.assigned_trader)
  unfolding execute_notify
  execute_notify-found i h =
      let (n, f, a, b) = find_by_source-some _ _ s.table i h in
      (n, rw (execute_notify, f) refl, a, b)

  is_registered-new_row : is_registered new_row ≡ true
  unfolding is_registered new_row
  is_registered-new_row = refl

  from_source-new_row : from_source event.event_id event.assigned_trader new_row ≡ true
  unfolding from_source new_row
  from_source-new_row = ground (
    arith,
    ==_iff event.event_id event.event_id,
    ==_iff event.assigned_trader event.assigned_trader,
  )

  -- The rows that stood in the table stay.
  pub execute_notify-keeps :
      (p : NotificationRow → Bool)
      → IsNotificationTable s.table
      → any p s.table ≡ true
      → any p (execute_notify w m event s).1.table ≡ true
  execute_notify-keeps p i h =
      elim (Bool-cases (any (from_source event.event_id event.assigned_trader) s.table)) [
        | inl found ↦ let (n, e, _, _) = execute_notify-found i found in rw e h
        | inr missing ↦
            let (_, e) = execute_notify-missing missing in
            let kept = insert_others-keeps p m.others s.table h in rw e (ground (arith, kept))
      ]

  -- The row, where the commit succeeds, keeps the table's keys.
  inserted :
      (table : List NotificationRow)
      → IsNotificationTable table
      → IsNotificationTable
          (if m.commit_ok && not (any (clashes new_row) table) then new_row ∷ table else table)
  unfolding IsNotificationTable no_clash
  inserted table j =
      (ground (arith, j.0, is_registered-new_row), ground (arith, j.1, is_registered-new_row))

  -- Whatever other processes insert between the query and the commit, rows for registered RFQs, and
  -- whether the commit and the publication succeed or raise, an execution keeps the table's keys:
  -- no two rows with one id, none with one event, recipient and type, and all of the registered type.
  pub execute_notify-IsNotificationTable :
      IsNotificationTable s.table
      → all is_registered m.others ≡ true
      → IsNotificationTable (execute_notify w m event s).1.table
  execute_notify-IsNotificationTable i o =
      elim (Bool-cases (any (from_source event.event_id event.assigned_trader) s.table)) [
        | inl found ↦ let (n, e, _, _) = execute_notify-found i found in rw e i
        | inr missing ↦
            let (_, e) = execute_notify-missing missing in
            let j = insert_others-IsNotificationTable m.others s.table o i in
            rw e (inserted (insert_others m.others s.table) j)
      ]

  pub stored :
      IsNotificationTable s.table
      → (execute_notify w m event s).0 ≢ raise database_error
      → any (from_source event.event_id event.assigned_trader) (execute_notify w m event s).1.table
        ≡ true
  stored i ran =
      elim (Bool-cases (any (from_source event.event_id event.assigned_trader) s.table)) [
        | inl found ↦ let (n, e, _, _) = execute_notify-found i found in rw e found
        | inr missing ↦
            let (r, e) = execute_notify-missing missing in
            elim (Bool-cases
              (m.commit_ok && not (any (clashes new_row) (insert_others m.others s.table)))) [
                | inl done ↦ rw (e, done) (ground (arith, from_source-new_row))
                | inr failed ↦ absurd (ran (r ∙ rw failed refl))
              ]
      ]

-- After an execution that did not fail in the database, though the publication may have raised, any
-- further execution of the event returns a stored notification of that event for that trader,
-- inserts nothing and publishes nothing, whatever it meets.
pub execute_notify-again :
    (w : Wiring) (m m' : Meets) (event : RfqRegisteredEvent) (s : Notifier)
    → IsNotificationTable s.table
    → all is_registered m.others ≡ true
    → (execute_notify w m event s).0 ≢ raise database_error
    → (n : Notification) × (execute_notify w m' event (execute_notify w m event s).1
        ≡ (ok n, (execute_notify w m event s).1))
      × (n.source_event_id ≡ event.event_id)
      × (n.recipient ≡ event.assigned_trader)
execute_notify-again w m m' event s i o ran =
    execute_notify-found w m' event (execute_notify w m event s).1
      (execute_notify-IsNotificationTable w m event s i o) (stored w m event s i ran)
