-- ===== src/Notification/Unique.antt =====
-- The keys of the table of notifications, and the query by source.
use price_streaming.Prelude.{
  ==_iff, Bool, Bool-cases, List, String, String_eq, [], all, any, ap, arith, false, filter,
  if◌then◌else◌, inl, inr, none, not, ok, refl, some, true, ℕ_eq, ◌&&◌, ◌==◌, ◌∷◌, ◌≡◌,
}
use price_streaming.Notification.{
  Notification, NotificationType, NotificationRow, clashes, notification_of_row,
  notification_type_of, from_source, one_or_none, find_by_source, insert_others,
}

-- No two rows have the same key.
unfoldable pub no_clash : List NotificationRow → Bool
unfolding clashes
no_clash [] = true
no_clash (r ∷ rs) = not (any (clashes r) rs) && no_clash rs

unfoldable pub is_registered : NotificationRow → Bool
is_registered r = r.notification_type == "rfq_registered"

-- The keys of the table hold, and every row notifies of a registered RFQ.
unfoldable pub IsNotificationTable : List NotificationRow → Type 0
unfolding no_clash is_registered
IsNotificationTable table = (no_clash table ≡ true) × (all is_registered table ≡ true)

pub insert_others-IsNotificationTable :
    (rs table : List NotificationRow)
    → all is_registered rs ≡ true
    → IsNotificationTable table
    → IsNotificationTable (insert_others rs table)
unfolding IsNotificationTable insert_others no_clash
insert_others-IsNotificationTable [] table h t = t
insert_others-IsNotificationTable (r ∷ rs) table h t =
    insert_others-IsNotificationTable rs (if any (clashes r) table then table else r ∷ table)
      (ground (arith, h)) (ground (arith, h, t.0, t.1), ground (arith, h, t.0, t.1))

pub insert_others-keeps :
    (p : NotificationRow → Bool) (rs table : List NotificationRow)
    → any p table ≡ true
    → any p (insert_others rs table) ≡ true
unfolding insert_others
insert_others-keeps p [] table h = h
insert_others-keeps p (r ∷ rs) table h =
    insert_others-keeps p rs (if any (clashes r) table then table else r ∷ table)
      (ground (arith, h))

-- A second row from the source of a row has its key.
from_source-clashes :
    (e t : String) (r q : NotificationRow)
    → from_source e t r ≡ true
    → from_source e t q ≡ true
    → is_registered r ≡ true
    → is_registered q ≡ true
    → clashes r q ≡ true
unfolding from_source clashes is_registered
from_source-clashes e t r q hr hq gr gq = ground (
  arith,
  ==_iff r.source_event_id e,
  ==_iff q.source_event_id e,
  ==_iff r.recipient t,
  ==_iff q.recipient t,
  ==_iff r.notification_type "rfq_registered",
  ==_iff q.notification_type "rfq_registered",
  ==_iff r.source_event_id q.source_event_id,
  ==_iff r.recipient q.recipient,
  ==_iff r.notification_type q.notification_type,
)

no_more :
    (e t : String) (r : NotificationRow) (rs : List NotificationRow)
    → from_source e t r ≡ true
    → is_registered r ≡ true
    → all is_registered rs ≡ true
    → any (clashes r) rs ≡ false
    → filter (from_source e t) rs ≡ []
no_more e t r [] h reg regs c = refl
no_more e t r (q ∷ rs) h reg regs c =
    ground (arith, no_more e t r rs h reg, from_source-clashes e t r q h, h, reg, regs, c)

filter-none :
    (e t : String) (rs : List NotificationRow)
    → any (from_source e t) rs ≡ false
    → filter (from_source e t) rs ≡ []
filter-none e t [] h = refl
filter-none e t (r ∷ rs) h = ground (arith, filter-none e t rs, h)

unfoldable pub registered_of : NotificationRow → Notification
registered_of r = record {
  notification_id = r.notification_id;
  recipient = r.recipient;
  notification_type = NotificationType.rfq_registered;
  resource_type = r.resource_type;
  resource_id = r.resource_id;
  source_event_id = r.source_event_id;
  created_at = r.created_at;
  read_at = r.read_at;
}

pub notification_of_row-registered :
    (r : NotificationRow) → is_registered r ≡ true → notification_of_row r ≡ ok (registered_of r)
unfolding notification_of_row notification_type_of is_registered registered_of
notification_of_row-registered r h = ground (arith, h)

-- The table has one row of a source that it has a row of.
pub filter-one :
    (e t : String) (rs : List NotificationRow)
    → IsNotificationTable rs
    → any (from_source e t) rs ≡ true
    → (r : NotificationRow) × (filter (from_source e t) rs ≡ r ∷ [])
      × (from_source e t r ≡ true)
      × (is_registered r ≡ true)
unfolding IsNotificationTable no_clash
filter-one e t [] i h = absurd (ground arith)
filter-one e t (r ∷ rs) i h = elim (Bool-cases (from_source e t r)) [
  | inl here ↦ (
    r,
    rw here (
        ap (r ∷◌) (
          no_more e t r rs here (ground (arith, i.1)) (ground (arith, i.1)) (ground (arith, i.0)))),
    here,
    ground (arith, i.1),
  )
  | inr other ↦
      let (q, f, s, g) =
        filter-one e t rs (ground (arith, i.0), ground (arith, i.1)) (ground (arith, h, other)) in
      (q, rw other f, s, g)
]

-- A source that a row of the table has is found.
pub find_by_source-some :
    (e t : String) (rs : List NotificationRow)
    → IsNotificationTable rs
    → any (from_source e t) rs ≡ true
    → (n : Notification) × (find_by_source e t rs ≡ ok (some n))
      × (n.source_event_id ≡ e)
      × (n.recipient ≡ t)
unfolding find_by_source one_or_none registered_of from_source
find_by_source-some e t rs i h =
    let (r, f, s, reg) = filter-one e t rs i h in
    (
      registered_of r,
      rw (f, notification_of_row-registered r reg) refl,
      ground (arith, s, ==_iff r.source_event_id e),
      ground (arith, s, ==_iff r.recipient t),
    )

pub find_by_source-none :
    (e t : String) (rs : List NotificationRow)
    → any (from_source e t) rs ≡ false
    → find_by_source e t rs ≡ ok none
unfolding find_by_source one_or_none
find_by_source-none e t rs h = rw (filter-none e t rs h) refl
