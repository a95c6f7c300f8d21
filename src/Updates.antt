-- ===== src/Updates.antt =====
-- Price updates over Redis: `RedisPricingUpdatePublisher` and `RedisPricingUpdateSubscriber` below
-- infrastructure/application/adapter, application/pricing/use_case/pricing_subscription_service.py, and
-- the websocket of presentation/fastapi/routers/pricing.py.
pub mod Subscribed
use price_streaming.Prelude.{
  Action, Bool, List, Outcome, String, String_eq, [], add, bind, broker_error, difference, elem,
  false, if◌then◌else◌, map, modify, none, not, ok, raise, some, true, value_error, ℕ_eq, ◌++◌,
  ◌>>◌, ◌∷◌, ◌≡◌,
}
use Prim.Native.String.{◌++◌ as ◌<>◌}
use price_streaming.Product.{Decimal, Texts}

-- The object that `json.dumps` is given.
pub record PricePayload : Type 0 where
  pub request_id : String
  pub par_rate : String

-- `json.dumps` and `json.loads` with the encoding between them.
pub record Json : Type 0 where
  pub dumps : PricePayload → String
  pub loads : String → Outcome PricePayload
  pub loads-dumps : (p : PricePayload) → loads (dumps p) ≡ ok p

pub record PricingUpdate : Type 0 where
  pub request_id : String
  pub par_rate : Decimal

-- `RedisPricingUpdatePublisher._channel`, and the message it publishes there.
unfoldable pub publisher_channel : String → String → String
publisher_channel channel_prefix request_id = channel_prefix <> (":" <> request_id)

unfoldable pub update_message : Texts → Json → String → Decimal → String
update_message texts json request_id par_rate =
    json.dumps (record { request_id = request_id; par_rate = texts.decimal_str par_rate })

-- `RedisPricingUpdateSubscriber._channel`
unfoldable pub channel : String → String
channel request_id = "pricing:" <> request_id

-- `RedisPricingUpdateSubscriber`: the connection's channels and what it has received, the set of
-- request ids, the event and whether the connection was closed.
pub record UpdateSubscriber : Type 0 where
  pub channels : List String
  pub received : List String
  pub request_ids : List String
  pub has_subscription : Bool
  pub closed : Bool

unfoldable pub make_subscriber : UpdateSubscriber
make_subscriber = record {
  channels = [];
  received = [];
  request_ids = [];
  has_subscription = false;
  closed = false;
}

unfoldable pub is_empty : {A : Type 0} → List A → Bool
is_empty [] = true
is_empty (x ∷ xs) = false

-- `set(xs)`
unfoldable pub set_of : List String → List String
set_of [] = []
set_of (x ∷ xs) = add x (set_of xs)

unfoldable pub add_channels : List String → List String → List String
add_channels [] channels = channels
add_channels (c ∷ cs) channels = add c (add_channels cs channels)

-- `self._pubsub.subscribe(*channels)`, under `if added`
unfoldable pub subscribe : (subscribe_ok : Bool) → List String → Action UpdateSubscriber Unit
unfolding is_empty add_channels channel
subscribe subscribe_ok added s =
    if is_empty added
    then (ok tt, s)
    else if subscribe_ok
    then (ok tt, record s { channels = add_channels (map channel added) s.channels })
    else (raise broker_error, s)

-- `self._pubsub.unsubscribe(*channels)`, under `if removed`
unfoldable pub unsubscribe : (unsubscribe_ok : Bool) → List String → Action UpdateSubscriber Unit
unfolding is_empty channel
unsubscribe unsubscribe_ok removed s =
    if is_empty removed
    then (ok tt, s)
    else if unsubscribe_ok
    then (ok tt, record s { channels = difference s.channels (map channel removed) })
    else (raise broker_error, s)

-- Whether the connection takes each of the two commands.
pub record Answers : Type 0 where
  pub subscribe_ok : Bool
  pub unsubscribe_ok : Bool

unfoldable pub set_request_ids : Answers → List String → Action UpdateSubscriber Unit
unfolding is_empty subscribe unsubscribe
set_request_ids a request_ids s =
    let added = difference request_ids s.request_ids in
    let removed = difference s.request_ids request_ids in
    (subscribe a.subscribe_ok added
        >> unsubscribe a.unsubscribe_ok removed
        >> modify (λ t. record t {
          request_ids = request_ids;
          has_subscription = not (is_empty request_ids);
        }))
      s

-- `_receive_commands` of the websocket on the messages that arrived: each is the whole list of ids.
unfoldable pub receive_commands : List (Answers × List String) → Action UpdateSubscriber Unit
unfolding set_request_ids set_of
receive_commands [] s = (ok tt, s)
receive_commands ((a, request_ids) ∷ rest) s =
    (set_request_ids a (set_of request_ids) >> receive_commands rest) s

-- `close`
unfoldable pub close_subscriber : (unsubscribe_ok : Bool) → Action UpdateSubscriber Unit
unfolding unsubscribe
close_subscriber unsubscribe_ok s =
    (unsubscribe unsubscribe_ok s.request_ids >> modify (λ t. record t { closed = true })) s

-- What Redis does of a published message: the subscriber has it if it is on the channel.
unfoldable pub deliver_to : String → String → UpdateSubscriber → UpdateSubscriber
deliver_to c message s =
    if elem c s.channels then record s { received = s.received ++ message ∷ [] } else s

module _ (texts : Texts) (json : Json) where
  -- `RedisPricingUpdatePublisher.publish`
  unfoldable pub publish_update :
      (channel_prefix : String) → String → Decimal → UpdateSubscriber → UpdateSubscriber
  unfolding publisher_channel update_message deliver_to
  publish_update channel_prefix request_id par_rate s =
      deliver_to (publisher_channel channel_prefix request_id)
        (update_message texts json request_id par_rate) s

  -- `_deserialize` of `json.loads`
  unfoldable pub update_of : String → Outcome PricingUpdate
  update_of message = bind (json.loads message) λ p. elim (texts.decimal p.par_rate) [
    | none ↦ raise value_error
    | some d ↦ ok (record { request_id = p.request_id; par_rate = d })
  ]

  -- `updates`, as far as messages have been received, while there is a subscription.

  -- `updates` on the messages that were received; one that cannot be read ends it. The event for which
  -- it waits first is set while the subscriber is on a channel.
  unfoldable pub updates : List String → List PricingUpdate × Outcome Unit
  unfolding update_of
  updates [] = ([], ok tt)
  updates (m ∷ ms) =
      let (us, r) = updates ms in
      elim (update_of m) [ raise x ↦ ([], raise x) | ok u ↦ (u ∷ us, r) ]
