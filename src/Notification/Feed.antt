-- ===== src/Notification/Feed.antt =====
-- Notifications on their way to a client: infrastructure/application/adapter/notification_subscriber/
-- redis and the websocket of presentation/fastapi/routers/notification.py.
pub mod Shown
use price_streaming.Prelude.{
  Bool, List, Option, Outcome, PyError, String, application_error, none, some, String_eq, [], add,
  bind, difference, elem, false, if◌then◌else◌, ok, raise, runtime_error, true, ℕ, ℕ_eq, ◌==◌, ◌∷◌,
}
use Prim.Native.String.{◌++◌ as ◌<>◌}
use price_streaming.Notification.{
  Notification, NotificationPayload, NotificationType, Notifier, Wiring, notification_type_of,
  publish_notification,
}

-- `NotificationMessage` of application/port/notification_subscriber.py
pub record NotificationMessage : Type 0 where
  pub notification_id : String
  pub notification_type : NotificationType
  pub resource_type : String
  pub resource_id : String
  pub created_at : ℕ

-- What `listen` of the Redis client gives: the type of a message, and its data.
pub record PubSubMessage : Type 0 where
  pub kind : String
  pub content : String

-- The JSON object of a text and the time of an ISO text, as pydantic reads them.
pub record Reading : Type 0 where
  pub loads : String → Outcome NotificationPayload
  pub fromisoformat : String → Outcome ℕ

-- The channels that the connection is on, and whether it was closed.
pub record PubSub : Type 0 where
  pub channels : List String
  pub closed : Bool

-- `f"{self._channel_prefix}:{recipient}"`
unfoldable pub recipient_channel : String → String → String
recipient_channel prefix recipient = prefix <> (":" <> recipient)

module _ (reading : Reading) where
  -- `NotificationMessage.model_validate_json`
  unfoldable pub read_notification : String → Outcome NotificationMessage
  read_notification content = bind (reading.loads content) λ p.
      bind (notification_type_of p.notification_type) λ t.
        bind (reading.fromisoformat p.created_at) λ at. ok (record {
          notification_id = p.notification_id;
          notification_type = t;
          resource_type = p.resource_type;
          resource_id = p.resource_id;
          created_at = at;
        })

  -- `send_notifications` over the loop of `subscribe`, on the messages that arrive before the client
  -- disconnects: what the client was sent, and the exception of the task if it has one.
  unfoldable pub send_notifications :
      (send_ok : NotificationMessage → Bool)
      → List PubSubMessage
      → List NotificationMessage × Outcome Unit
  unfolding read_notification
  send_notifications send_ok [] = ([], ok tt)
  send_notifications send_ok (m ∷ ms) =
      let (sent, result) = send_notifications send_ok ms in
      if m.kind == "message"
      then elim (read_notification m.content) [
        | raise x ↦ ([], raise x)
        | ok n ↦ if send_ok n then (n ∷ sent, result) else ([], raise runtime_error)
      ]
      else (sent, result)

  -- `subscribe` of a recipient with the `finally` that leaves the channel and closes, which also runs
  -- when the task that sends is cancelled.
  unfoldable pub subscribe_notifications :
      (channel_prefix recipient : String)
      → (send_ok : NotificationMessage → Bool) → (arrivals : List String → List PubSubMessage)
      → PubSub
      → (List NotificationMessage × Outcome Unit) × PubSub
  unfolding send_notifications recipient_channel
  subscribe_notifications channel_prefix recipient send_ok arrivals pubsub =
      let channel = recipient_channel channel_prefix recipient in
      let left = record pubsub {
        channels = difference pubsub.channels (channel ∷ []);
        closed = true;
      } in
      (send_notifications send_ok (arrivals (add channel pubsub.channels)), left)

-- `recipient` of the websocket
abbrev pub websocket_recipient : String
websocket_recipient = "Kota"

-- What `websocket.receive()` returns: a message of the client, or that it has disconnected.
pub data ClientMessage : Type 0 where
  client_text : String → ClientMessage
  client_disconnect : ClientMessage

-- `except WebSocketDisconnect: pass`
unfoldable pub unless_disconnect : PyError → Outcome Unit
unless_disconnect (application_error name) =
    if name == "WebSocketDisconnect" then ok tt else raise (application_error name)
unless_disconnect x = raise x

-- `receive_until_disconnect` on what the client does, or nothing while it waits: the loop looks at no
-- message, and `again` is what `receive` raises when it is called after a disconnect.
unfoldable pub receive_until_disconnect :
    (again : PyError) → List ClientMessage → Option (Outcome Unit)
unfolding unless_disconnect
receive_until_disconnect again [] = none
receive_until_disconnect again (client_text t ∷ ms) = receive_until_disconnect again ms
receive_until_disconnect again (client_disconnect ∷ ms) = some (unless_disconnect again)

-- `notification_websocket`: what the client was sent, and how the handler ends if it does. If the task
-- that sends ends first, it ends with an exception; if not, it is cancelled once the other task
-- ends, and the handler raises what that one raised.
module _ (reading : Reading) where
  unfoldable pub notification_websocket :
      (channel_prefix : String)
      → (send_ok : NotificationMessage → Bool) → (arrivals : List String → List PubSubMessage)
      → (again : PyError) → List ClientMessage
      → (List NotificationMessage × Option (Outcome Unit)) × PubSub
  unfolding subscribe_notifications receive_until_disconnect
  notification_websocket channel_prefix send_ok arrivals again messages =
      let ((sent, result), pubsub) =
        subscribe_notifications reading channel_prefix websocket_recipient send_ok arrivals
          (record { channels = []; closed = false }) in
      let ended : Option (Outcome Unit) = elim result [
        | raise x ↦ some (raise x)
        | ok _ ↦ receive_until_disconnect again messages
      ] in
      ((sent, ended), pubsub)

-- What Redis hands a connection of what is published while it is on those channels.
unfoldable pub arrivals_of : List (String × String) → List String → List PubSubMessage
arrivals_of [] channels = []
arrivals_of ((c, content) ∷ rest) channels =
    let later = arrivals_of rest channels in
    if elem c channels then record { kind = "message"; content = content } ∷ later else later

-- The publisher, on one notification after the other.
unfoldable pub publish_all : Wiring → List Notification → Notifier → Notifier
publish_all w [] s = s
publish_all w (n ∷ ns) s = publish_all w ns (publish_notification w true n s).1
