-- ===== src/Notification.antt =====
-- Notifying the assigned trader: application/notification, the repository and unit of work of
-- notifications and the Redis publisher below infrastructure/application/adapter, and
-- `NotificationOrm` of infrastructure/postgres/models.py.
pub mod Unique
pub mod Idempotent
pub mod Refinement
pub mod Subscriber
pub mod Feed
use price_streaming.Prelude.{
  Action, Bool, List, Option, Outcome, String, String_eq, [], any, bind, broker_error,
  database_error, filter, if◌then◌else◌, none, ok, pure, raise, some, value_error, ℕ, ℕ_eq, ◌&&◌,
  ◌++◌, ◌==◌, ◌>>◌, ◌||◌, ◌∷◌,
}
use Prim.Native.String.{◌++◌ as ◌<>◌}
use price_streaming.Pricing.{RfqRegisteredEvent}

pub data NotificationType : Type 0 where
  rfq_registered rfq_quote_submitted : NotificationType

unfoldable pub notification_type_str : NotificationType → String
notification_type_str rfq_registered = "rfq_registered"
notification_type_str rfq_quote_submitted = "rfq_quote_submitted"

-- `NotificationType(value)`
unfoldable pub notification_type_of : String → Outcome NotificationType
notification_type_of value =
    if value == "rfq_registered"
    then ok rfq_registered
    else if value == "rfq_quote_submitted"
    then ok rfq_quote_submitted
    else raise value_error

-- Times are numbers.
pub record Notification : Type 0 where
  pub notification_id : String
  pub recipient : String
  pub notification_type : NotificationType
  pub resource_type : String
  pub resource_id : String
  pub source_event_id : String
  pub created_at : ℕ
  pub read_at : Option ℕ

-- `NotificationOrm`
pub record NotificationRow : Type 0 where
  pub notification_id : String
  pub recipient : String
  pub notification_type : String
  pub resource_type : String
  pub resource_id : String
  pub source_event_id : String
  pub created_at : ℕ
  pub read_at : Option ℕ

-- The primary key, and `uq_notification_source_recipient_type`.
unfoldable pub clashes : NotificationRow → NotificationRow → Bool
clashes q r =
    q.notification_id == r.notification_id
    || (q.source_event_id == r.source_event_id
        && (q.recipient == r.recipient && q.notification_type == r.notification_type))

-- A session of the unit of work: the table, and the objects that were added to the session.
pub record NotificationUow : Type 0 where
  pub table : List NotificationRow
  pub added : List NotificationRow

unfoldable pub notification_row : Notification → NotificationRow
unfolding notification_type_str
notification_row n = record {
  notification_id = n.notification_id;
  recipient = n.recipient;
  notification_type = notification_type_str n.notification_type;
  resource_type = n.resource_type;
  resource_id = n.resource_id;
  source_event_id = n.source_event_id;
  created_at = n.created_at;
  read_at = n.read_at;
}

unfoldable pub notification_of_row : NotificationRow → Outcome Notification
unfolding notification_type_of
notification_of_row r = bind (notification_type_of r.notification_type) λ t. ok (record {
  notification_id = r.notification_id;
  recipient = r.recipient;
  notification_type = t;
  resource_type = r.resource_type;
  resource_id = r.resource_id;
  source_event_id = r.source_event_id;
  created_at = r.created_at;
  read_at = r.read_at;
})

-- `save`
unfoldable pub save_notification : Notification → NotificationUow → NotificationUow
unfolding notification_row
save_notification n u = record u { added = u.added ++ notification_row n ∷ [] }

unfoldable pub from_source : String → String → NotificationRow → Bool
from_source source_event_id recipient r =
    r.source_event_id == source_event_id && r.recipient == recipient

-- `scalar_one_or_none`: more than one row raises.
unfoldable pub one_or_none : List NotificationRow → Outcome (Option Notification)
unfolding notification_of_row
one_or_none [] = ok none
one_or_none (r ∷ []) = bind (notification_of_row r) λ n. ok (some n)
one_or_none (r ∷ q ∷ rs) = raise database_error

-- `find_by_source`; it is called before anything is added to the session.
unfoldable pub find_by_source :
    String → String → List NotificationRow → Outcome (Option Notification)
unfolding from_source one_or_none
find_by_source source_event_id recipient table =
    one_or_none (filter (from_source source_event_id recipient) table)

-- The inserts of a flush; the order of the rows of a table means nothing.
unfoldable pub insert_rows :
    List NotificationRow → List NotificationRow → Outcome (List NotificationRow)
unfolding clashes
insert_rows [] table = ok table
insert_rows (r ∷ rs) table =
    if any (clashes r) table then raise database_error else insert_rows rs (r ∷ table)

-- `commit`, which the connection may fail.
unfoldable pub commit_uow : (commit_ok : Bool) → Action NotificationUow Unit
unfolding insert_rows
commit_uow commit_ok u =
    if commit_ok
    then elim (insert_rows u.added u.table) [
      | raise x ↦ (raise x, u)
      | ok table ↦ (ok tt, record { table = table; added = [] })
    ]
    else (raise database_error, u)

-- What other transactions inserted, each row if nothing stood in its way.
unfoldable pub insert_others : List NotificationRow → List NotificationRow → List NotificationRow
unfolding clashes
insert_others [] table = table
insert_others (r ∷ rs) table = insert_others rs (if any (clashes r) table then table else r ∷ table)

-- What an execution meets: the id that `uuid4` gives, the rows that other processes commit between
-- its query and its commit, and whether the commit and the publication succeed.
pub record Meets : Type 0 where
  pub id : String
  pub others : List NotificationRow
  pub commit_ok : Bool
  pub publish_ok : Bool

-- The payload that `json.dumps` is given.
pub record NotificationPayload : Type 0 where
  pub notification_id : String
  pub notification_type : String
  pub resource_type : String
  pub resource_id : String
  pub created_at : String

-- The table, and what was published: channels and messages.
pub record Notifier : Type 0 where
  pub table : List NotificationRow
  pub published : List (String × String)

-- The notification that `execute` makes of an event.
unfoldable pub notification_of : String → RfqRegisteredEvent → Notification
notification_of id event = record {
  notification_id = id;
  recipient = event.assigned_trader;
  notification_type = rfq_registered;
  resource_type = "rfq";
  resource_id = event.rfq_id;
  source_event_id = event.event_id;
  created_at = event.occurred_at;
  read_at = none;
}

-- `json.dumps`, `isoformat` and the channel prefix of the settings.
pub record Wiring : Type 0 where
  pub dumps : NotificationPayload → String
  pub isoformat : ℕ → String
  pub channel_prefix : String

module _ (w : Wiring) where
  -- `RedisNotificationPublisher.publish`
  unfoldable pub publish_notification : (publish_ok : Bool) → Notification → Action Notifier Unit
  unfolding notification_type_str
  publish_notification publish_ok n s =
      let channel = w.channel_prefix <> (":" <> n.recipient) in
      let payload = w.dumps (record {
        notification_id = n.notification_id;
        notification_type = notification_type_str n.notification_type;
        resource_type = n.resource_type;
        resource_id = n.resource_id;
        created_at = w.isoformat n.created_at;
      }) in
      if publish_ok
      then (ok tt, record s { published = s.published ++ (channel, payload) ∷ [] })
      else (raise broker_error, s)

  -- `NotifyAssignedTraderOnRfqRegisteredUseCase.execute`
  unfoldable pub execute_notify : Meets → RfqRegisteredEvent → Action Notifier Notification
  unfolding notification_of find_by_source insert_others save_notification commit_uow
      publish_notification
  execute_notify m event s =
      let n = notification_of m.id event in
      elim (find_by_source event.event_id event.assigned_trader s.table) [
        | raise x ↦ (raise x, s)
        | ok (some existing) ↦ (ok existing, s)
        | ok none ↦
            let table = insert_others m.others s.table in
            let (r, u) =
              commit_uow m.commit_ok (save_notification n (record { table = table; added = [] })) in
            elim r [
              | raise x ↦ (raise x, record s { table = table })
              | ok _ ↦
                  (publish_notification m.publish_ok n >> pure n) (record s { table = u.table })
            ]
      ]
