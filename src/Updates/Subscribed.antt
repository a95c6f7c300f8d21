-- ===== src/Updates/Subscribed.antt =====
-- The channels that a subscriber is on, and the updates that reach it.
use price_streaming.Prelude.{
  ==_iff, Bool-cases, List, String, String_eq, [], ap, arith, difference, elem, elem-add,
  elem-filter, if◌then◌else◌, inl, inr, map, not, ok, refl, sym, true, ℕ_eq, ◌&&◌, ◌++◌, ◌==◌, ◌||◌,
  ◌∙◌, ◌∷◌, ◌≡◌,
}
use text.Mathlib.TextLemmas.{append_cancel_left, append_assoc}
use price_streaming.Product.{Decimal, Texts}
use price_streaming.Updates.{
  Json, UpdateSubscriber, Answers, make_subscriber, publisher_channel, update_message, channel,
  is_empty, set_of, add_channels, subscribe, unsubscribe, set_request_ids, receive_commands,
  deliver_to, publish_update, update_of, updates,
}

channel_iff : (i j : String) → (channel i == channel j) ≡ (i == j)
unfolding channel
channel_iff i j =
    let same : channel i ≡ channel j → i ≡ j = append_cancel_left "pricing:" i j in
    let back : i ≡ j → channel i ≡ channel j = λ e. ap channel e in
    ground (arith, same, back, ==_iff (channel i) (channel j), ==_iff i j)

publisher_channel_lem : (i : String) → publisher_channel "pricing" i ≡ channel i
unfolding publisher_channel channel
publisher_channel_lem i = sym (append_assoc "pricing" ":" i)

elem-channel : (i : String) (xs : List String) → elem (channel i) (map channel xs) ≡ elem i xs
elem-channel i [] = refl
elem-channel i (x ∷ xs) = rw (channel_iff x i, elem-channel i xs) refl

elem-add_channels :
    (c : String) (cs channels : List String)
    → elem c (add_channels cs channels) ≡ (elem c cs || elem c channels)
unfolding add_channels
elem-add_channels c [] channels = refl
elem-add_channels c (d ∷ cs) channels =
    ground (arith, elem-add c d (add_channels cs channels), elem-add_channels c cs channels)

elem-set_of : (c : String) (xs : List String) → elem c (set_of xs) ≡ elem c xs
unfolding set_of
elem-set_of c [] = refl
elem-set_of c (x ∷ xs) = ground (arith, elem-add c x (set_of xs), elem-set_of c xs)

elem-difference :
    (c : String) (xs ys : List String) → elem c (difference xs ys) ≡ (elem c xs && not (elem c ys))
elem-difference c xs ys = elem-filter (λ x. not (elem x ys)) c xs

-- The connection takes both commands.
abbrev pub both : Answers
both = record { subscribe_ok = true; unsubscribe_ok = true }

-- The subscriber is on the channel of a request exactly if it holds the request's id.
pub IsSubscribed : UpdateSubscriber → Type 0
IsSubscribed s =
    ((i : String) → elem (channel i) s.channels ≡ elem i s.request_ids)
    × (s.has_subscription ≡ not (is_empty s.request_ids))

subscribe-elem :
    (added : List String) (s : UpdateSubscriber) (i : String)
    → elem (channel i) (subscribe true added s).1.channels
      ≡ (elem i added || elem (channel i) s.channels)
unfolding subscribe is_empty
subscribe-elem [] s i = refl
subscribe-elem (x ∷ xs) s i =
    elem-add_channels (channel i) (map channel (x ∷ xs)) s.channels
    ∙ ap (◌|| elem (channel i) s.channels) (elem-channel i (x ∷ xs))

unsubscribe-elem :
    (removed : List String) (s : UpdateSubscriber) (i : String)
    → elem (channel i) (unsubscribe true removed s).1.channels
      ≡ (elem (channel i) s.channels && not (elem i removed))
unfolding unsubscribe is_empty
unsubscribe-elem [] s i = ground arith
unsubscribe-elem (x ∷ xs) s i =
    elem-difference (channel i) s.channels (map channel (x ∷ xs))
    ∙ ap (λ b. elem (channel i) s.channels && not b) (elem-channel i (x ∷ xs))

subscribe_lem :
    (added : List String) (s : UpdateSubscriber)
    → subscribe true added s ≡ (ok tt, record s { channels = (subscribe true added s).1.channels })
unfolding subscribe is_empty
subscribe_lem [] s = refl
subscribe_lem (x ∷ xs) s = refl

unsubscribe_lem :
    (removed : List String) (s : UpdateSubscriber)
    → unsubscribe true removed s
      ≡ (ok tt, record s { channels = (unsubscribe true removed s).1.channels })
unfolding unsubscribe is_empty
unsubscribe_lem [] s = refl
unsubscribe_lem (x ∷ xs) s = refl

-- Where the connection takes both commands, setting the ids succeeds and the subscriber is on the
-- channels of exactly these ids afterwards.
set_request_ids-both :
    (ids : List String) (s : UpdateSubscriber)
    → IsSubscribed s
    → (t : UpdateSubscriber) × (set_request_ids both ids s ≡ (ok tt, t))
      × IsSubscribed t
      × (t.request_ids ≡ ids)
      × (t.received ≡ s.received)
unfolding set_request_ids IsSubscribed
set_request_ids-both ids s (h, _) =
    let added = difference ids s.request_ids in
    let removed = difference s.request_ids ids in
    let s1 : UpdateSubscriber = record s { channels = (subscribe true added s).1.channels } in
    let s2 : UpdateSubscriber = record s1 { channels = (unsubscribe true removed s1).1.channels } in
    (
      record s2 { request_ids = ids; has_subscription = not (is_empty ids) },
      rw (subscribe_lem added s, unsubscribe_lem removed s1) refl,
      (
        λ i. ground (
          arith,
          unsubscribe-elem removed s1 i,
          subscribe-elem added s i,
          h i,
          elem-difference i ids s.request_ids,
          elem-difference i s.request_ids ids,
        ),
        refl,
      ),
      refl,
      refl,
    )

-- After commands that the connection took, the last of them with `ids`.
receive_commands-both :
    (commands : List (List String)) (ids : List String) (s : UpdateSubscriber)
    → IsSubscribed s
    → (t : UpdateSubscriber) × (receive_commands (map (λ c. (both, c)) (commands ++ ids ∷ [])) s
        ≡ (ok tt, t))
      × IsSubscribed t
      × ((i : String) → elem i t.request_ids ≡ elem i ids)
      × (t.received ≡ s.received)
unfolding receive_commands
receive_commands-both [] ids s h =
    let (t, e, g, r, m) = set_request_ids-both (set_of ids) s h in
    (t, rw e refl, g, λ i. rw r (elem-set_of i ids), m)
receive_commands-both (c ∷ commands) ids s h =
    let (t, e, g, _, m) = set_request_ids-both (set_of c) s h in
    let (v, f, k, r, n) = receive_commands-both commands ids t g in (v, rw e f, k, r, n ∙ m)

module _ (texts : Texts) (json : Json) where
  update_of-update_message :
      (i : String) (d : Decimal)
      → update_of texts json (update_message texts json i d)
        ≡ ok (record { request_id = i; par_rate = d })
  unfolding update_of update_message
  update_of-update_message i d =
      rw
        (
          json.loads-dumps (record { request_id = i; par_rate = texts.decimal_str d }),
          texts.decimal-decimal_str d,
        )
        refl

  -- After any commands of the client that the connection took, a published price reaches the client,
  -- once, read back as its request id and its rate, if the id is among the ids of the last command,
  -- and nothing reaches it otherwise; the publisher's channel prefix is "pricing".
  pub publish_update-receive_commands :
      (commands : List (List String)) (ids : List String) (request_id : String) (par_rate : Decimal)
      → updates texts json
          (publish_update texts json "pricing" request_id par_rate
            (receive_commands
              (map (λ c. (both, c)) (commands ++ ids ∷ []))
              make_subscriber).1).received
        ≡ (
          if elem request_id ids
              then record { request_id = request_id; par_rate = par_rate } ∷ []
              else [],
          ok tt,
        )
  unfolding publish_update deliver_to updates make_subscriber IsSubscribed is_empty
  publish_update-receive_commands commands ids request_id par_rate =
      let (t, e, (g, _), r, m) =
        receive_commands-both commands ids make_subscriber ((λ i. refl), refl) in
      rw (e, publisher_channel_lem request_id, g request_id, r request_id)
        (elim (Bool-cases (elem request_id ids)) [
          | inl there ↦ rw (there, m, updates, update_of-update_message request_id par_rate) refl
          | inr missing ↦ rw (missing, m) refl
        ])
