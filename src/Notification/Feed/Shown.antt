-- ===== src/Notification/Feed/Shown.antt =====
-- What a client of the notification websocket is shown.
use price_streaming.Prelude.{
  ==_iff, Bool, Bool-cases, List, PyError, String, String_eq, [], raise, runtime_error, some, ap,
  arith, filter, inl, inr, map, ok, refl, sym, true, ℕ, ℕ_eq, ◌++◌, ◌==◌, ◌∙◌, ◌∷◌, ◌≡◌,
}
use Prim.Native.String.{◌++◌ as ◌<>◌}
use text.Mathlib.TextLemmas.{append_cancel_left}
use mathlib.Core.List.{append_assoc as list_append_assoc, append-nil}
use price_streaming.Notification.{
  Notification, NotificationPayload, NotificationType, Notifier, Wiring, notification_type_of,
  notification_type_str, publish_notification, rfq_registered, rfq_quote_submitted,
}
use price_streaming.Notification.Feed.{
  ClientMessage, NotificationMessage, Reading, arrivals_of, client_disconnect, client_text,
  receive_until_disconnect, unless_disconnect, notification_websocket, publish_all,
  read_notification, recipient_channel, send_notifications, subscribe_notifications,
  websocket_recipient,
}

-- What was written is read back.
pub record ReadsBack (w : Wiring) (reading : Reading) : Type 0 where
  pub loads-dumps : (p : NotificationPayload) → reading.loads (w.dumps p) ≡ ok p
  pub fromisoformat-isoformat : (t : ℕ) → reading.fromisoformat (w.isoformat t) ≡ ok t

-- The fields of a notification that a client sees.
abbrev pub message_of : Notification → NotificationMessage
message_of n = record {
  notification_id = n.notification_id;
  notification_type = n.notification_type;
  resource_type = n.resource_type;
  resource_id = n.resource_id;
  created_at = n.created_at;
}

module _ (w : Wiring) where
  abbrev payload_of : Notification → String
  payload_of n = w.dumps (record {
    notification_id = n.notification_id;
    notification_type = notification_type_str n.notification_type;
    resource_type = n.resource_type;
    resource_id = n.resource_id;
    created_at = w.isoformat n.created_at;
  })

  abbrev publication : Notification → String × String
  publication n = (w.channel_prefix <> (":" <> n.recipient), payload_of n)

  published-publish_all :
      (ns : List Notification) (s : Notifier)
      → (publish_all w ns s).published ≡ s.published ++ map publication ns
  unfolding publish_all publish_notification
  published-publish_all [] s = sym (append-nil s.published)
  published-publish_all (n ∷ ns) s =
      published-publish_all ns (publish_notification w true n s).1
      ∙ list_append_assoc s.published (publication n ∷ []) (map publication ns)

type_back : (t : NotificationType) → notification_type_of (notification_type_str t) ≡ ok t
unfolding notification_type_of notification_type_str
type_back rfq_registered = refl
type_back rfq_quote_submitted = refl

module _ (w : Wiring) (reading : Reading) (back : ReadsBack w reading) where
  read_notification-payload_of :
      (n : Notification) → read_notification reading (payload_of w n) ≡ ok (message_of n)
  unfolding read_notification
  read_notification-payload_of n =
      rw
        (
          read_notification,
          back.loads-dumps,
          type_back n.notification_type,
          back.fromisoformat-isoformat n.created_at,
        )
        refl

  channel_iff :
      (r q : String)
      → ((recipient_channel w.channel_prefix r) == (recipient_channel w.channel_prefix q))
        ≡ (r == q)
  unfolding recipient_channel
  channel_iff r q =
      let a = w.channel_prefix <> (":" <> r) in
      let b = w.channel_prefix <> (":" <> q) in
      let same : a ≡ b → r ≡ q = λ e.
        append_cancel_left ":" r q (append_cancel_left w.channel_prefix (":" <> r) (":" <> q) e) in
      let there : r ≡ q → a ≡ b = λ e. ap (λ x. w.channel_prefix <> (":" <> x)) e in
      ground (arith, same, there, ==_iff a b, ==_iff r q)

  send_notifications-arrivals :
      (send_ok : NotificationMessage → Bool) (recipient : String) (ns : List Notification)
      → ((m : NotificationMessage) → send_ok m ≡ true)
      → send_notifications reading send_ok
          (arrivals_of (map (publication w) ns) (recipient_channel w.channel_prefix recipient ∷ []))
        ≡ (map message_of (filter (λ n. n.recipient == recipient) ns), ok tt)
  unfolding send_notifications arrivals_of recipient_channel
  send_notifications-arrivals send_ok recipient [] takes = refl
  send_notifications-arrivals send_ok recipient (n ∷ ns) takes =
      let ih = send_notifications-arrivals send_ok recipient ns takes in
      elim (Bool-cases (n.recipient == recipient)) [
        | inl mine ↦ ground (
          arith,
          ih,
          mine,
          channel_iff recipient n.recipient,
          ==_iff recipient n.recipient,
          ==_iff n.recipient recipient,
          read_notification-payload_of n,
          takes (message_of n),
        )
        | inr other ↦ ground (
          arith,
          ih,
          other,
          channel_iff recipient n.recipient,
          ==_iff recipient n.recipient,
          ==_iff n.recipient recipient,
        )
      ]

  receive_until_disconnect_ends :
      (again : PyError) (ms : List ClientMessage)
      → receive_until_disconnect again (ms ++ client_disconnect ∷ [])
        ≡ some (unless_disconnect again)
  unfolding receive_until_disconnect
  receive_until_disconnect_ends again [] = refl
  receive_until_disconnect_ends again (client_text t ∷ ms) = receive_until_disconnect_ends again ms
  receive_until_disconnect_ends again (client_disconnect ∷ ms) = refl

  -- When JSON objects and times are read back as they were written, the client takes every message, and it
  -- disconnects after any messages of its own: of the notifications that are published while the
  -- websocket listens, it is sent exactly those for its recipient, in the order of their
  -- publication and with their fields, the connection to Redis ends on no channel and closed, and the
  -- handler raises the `RuntimeError` of a `receive` after a disconnect.
  pub notification_websocket-publish_all :
      (send_ok : NotificationMessage → Bool) (ns : List Notification) (s : Notifier)
      (ms : List ClientMessage)
      → s.published ≡ []
      → ((m : NotificationMessage) → send_ok m ≡ true)
      → notification_websocket reading w.channel_prefix send_ok
          (arrivals_of (publish_all w ns s).published)
          runtime_error
          (ms ++ client_disconnect ∷ [])
        ≡ (
          (
            map message_of (filter (λ n. n.recipient == websocket_recipient) ns),
            some (raise runtime_error),
          ),
          record { channels = []; closed = true },
        )
  unfolding notification_websocket subscribe_notifications unless_disconnect
  notification_websocket-publish_all send_ok ns s ms none_yet takes =
      let all : (publish_all w ns s).published ≡ map (publication w) ns =
        published-publish_all w ns s ∙ ap (◌++ map (publication w) ns) none_yet in
      rw
        (
          notification_websocket,
          subscribe_notifications,
          all,
          send_notifications-arrivals send_ok websocket_recipient ns takes,
          receive_until_disconnect_ends runtime_error ms,
        )
        refl
