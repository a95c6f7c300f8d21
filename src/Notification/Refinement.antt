-- ===== src/Notification/Refinement.antt =====
-- The table of notifications as a map from an event and a trader to a notification.
use price_streaming.Prelude.{
  ==_iff, Bool-cases, List, Option, String, String_eq, [], any, ap, arith, false, filter,
  if◌then◌else◌, inl, inr, none, ok, refl, some, true, ℕ_eq, ◌&&◌, ◌==◌, ◌∙◌, ◌∷◌, ◌≡◌,
}
use price_streaming.Pricing.{RfqRegisteredEvent}
use price_streaming.Notification.{
  Notification, NotificationRow, Notifier, Meets, Wiring, clashes, notification_row,
  notification_of, from_source, find_by_source, one_or_none, insert_others, execute_notify,
}
use price_streaming.Notification.Unique.{
  IsNotificationTable, registered_of, find_by_source-none, filter-one,
  notification_of_row-registered,
}
use price_streaming.Notification.Idempotent.{
  new_row, execute_notify-IsNotificationTable, execute_notify-missing, execute_notify-found,
}

abbrev pub NotificationMap : Type 0
NotificationMap = String → String → Option Notification

-- The notification of a source, as the first row of it has it.
unfoldable pub view : List NotificationRow → NotificationMap
unfolding from_source registered_of
view [] e t = none
view (r ∷ rs) e t =
    let rest = view rs e t in if from_source e t r then some (registered_of r) else rest

-- The specification: a notification is entered for the event and its trader if there is none.
unfoldable pub enter_if_absent :
    RfqRegisteredEvent → Notification → NotificationMap → NotificationMap
enter_if_absent event n v e t = elim (v event.event_id event.assigned_trader) [
  | some _ ↦ v e t
  | none ↦ if event.event_id == e && event.assigned_trader == t then some n else v e t
]

view-none :
    (e t : String) (rs : List NotificationRow)
    → any (from_source e t) rs ≡ false
    → view rs e t ≡ none
unfolding view
view-none e t [] h = refl
view-none e t (r ∷ rs) h = ground (arith, h, view-none e t rs)

view-filter :
    (e t : String) (r : NotificationRow) (rs qs : List NotificationRow)
    → filter (from_source e t) rs ≡ r ∷ qs
    → view rs e t ≡ some (registered_of r)
unfolding view
view-filter e t r [] qs h = absurd (cc h)
view-filter e t r (q ∷ rs) qs h = elim (Bool-cases (from_source e t q)) [
  | inl here ↦
      let g : q ∷ filter (from_source e t) rs ≡ r ∷ qs = rw here at h in
      let same : q ≡ r = cc g in rw (here, same) refl
  | inr other ↦ rw other (view-filter e t r rs qs (rw other at h))
]

-- The repository's query is a lookup in the map.
find_by_source-view :
    (e t : String) (rs : List NotificationRow)
    → IsNotificationTable rs
    → find_by_source e t rs ≡ ok (view rs e t)
unfolding find_by_source one_or_none
find_by_source-view e t rs i = elim (Bool-cases (any (from_source e t) rs)) [
  | inl there ↦
      let (r, f, _, reg) = filter-one e t rs i there in
      rw (view-filter e t r rs [] f, find_by_source, f, notification_of_row-registered r reg) refl
  | inr missing ↦ rw (find_by_source-none e t rs missing, view-none e t rs missing) refl
]

-- A row with a fresh id is in no row's way but those of its source.
any-clashes :
    (r : NotificationRow) (rs : List NotificationRow)
    → any (λ q. q.notification_id == r.notification_id) rs ≡ false
    → any (from_source r.source_event_id r.recipient) rs ≡ false
    → any (clashes r) rs ≡ false
unfolding clashes from_source
any-clashes r [] i h = refl
any-clashes r (q ∷ rs) i h = ground (
  arith,
  any-clashes r rs,
  i,
  h,
  ==_iff q.notification_id r.notification_id,
  ==_iff r.notification_id q.notification_id,
  ==_iff q.source_event_id r.source_event_id,
  ==_iff r.source_event_id q.source_event_id,
  ==_iff q.recipient r.recipient,
  ==_iff r.recipient q.recipient,
)

module _ (w : Wiring) (m : Meets) (event : RfqRegisteredEvent) (s : Notifier) where
  view-new_row :
      (e t : String)
      → view (new_row w m event s ∷ s.table) e t ≡ (
          if event.event_id == e && event.assigned_trader == t
          then some (notification_of m.id event)
          else view s.table e t)
  unfolding view new_row notification_of notification_row from_source registered_of
  view-new_row e t = refl

  entered :
      any (from_source event.event_id event.assigned_trader) s.table ≡ false
      → m.others ≡ []
      → m.commit_ok ≡ true
      → any (λ q. q.notification_id == m.id) s.table ≡ false
      → (e t : String)
      → view (execute_notify w m event s).1.table e t
        ≡ enter_if_absent event (notification_of m.id event) (view s.table) e t
  unfolding enter_if_absent insert_others new_row
  entered missing o c fresh e t =
      let (_, g) = execute_notify-missing w m event s missing in
      let free = any-clashes (new_row w m event s) s.table fresh missing in
      rw (g, o, c, free, enter_if_absent, view-none _ _ s.table missing) (view-new_row e t)

  -- An execution whose commit succeeds, with an id that no row has and no other process at work,
  -- refines the entry of a notification where there is none: every query gives afterwards what the
  -- map holds, and the map is the one before with the event's notification entered if it was absent.
  pub execute_notify-enter_if_absent :
      IsNotificationTable s.table
      → m.others ≡ []
      → m.commit_ok ≡ true
      → any (λ q. q.notification_id == m.id) s.table ≡ false
      → (e t : String)
      → find_by_source e t (execute_notify w m event s).1.table
        ≡ ok (enter_if_absent event (notification_of m.id event) (view s.table) e t)
  unfolding enter_if_absent
  execute_notify-enter_if_absent i o c fresh e t =
      elim (Bool-cases (any (from_source event.event_id event.assigned_trader) s.table)) [
        | inl found ↦
            let (r, f, _, _) = filter-one _ _ s.table i found in
            let (n, g, _, _) = execute_notify-found w m event s i found in
            rw (g, enter_if_absent, view-filter _ _ r s.table [] f)
              (find_by_source-view e t s.table i)
        | inr missing ↦
            let k = execute_notify-IsNotificationTable w m event s i (rw o refl) in
            find_by_source-view e t (execute_notify w m event s).1.table k
            ∙ ap ok (entered missing o c fresh e t)
      ]
