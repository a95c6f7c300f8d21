-- ===== src/Bootstrap/Leaks.antt =====
-- What stays open behind the backend of a super stream, and the RabbitMQ subscriber of the notification
-- worker, which does not start.
use price_streaming.Prelude.{
  Action, All, Bool, List, Option-cases, Outcome, [], ap, arith, false, if◌then◌else◌, inl, inr,
  none, ok, raise, refl, some, true, ℕ, ℕ_eq, ◌++◌, ◌+◌, ◌<◌, ◌>>=◌, ◌>>◌, ◌||◌, ◌∙◌, ◌∷◌, ◌≡◌,
}
use price_streaming.Dict
use price_streaming.Dict.{Dict, values}
use price_streaming.Routing.{make_resolver}
use price_streaming.Bootstrap.{
  Call, Resource, Handles, Faults, open_handle, call, close_handle, cancel_task, try_finally,
  connect_robust, open_channel, bind_topology, connection_close, stream_start, stream_subscribe,
  stream_close, amqp_connection, stream_consumer, consumer_task,
}
use price_streaming.Bootstrap.Settings.{RabbitMqSuperStreamPricingEventsSettings}
use price_streaming.Bootstrap.Backends.{
  PricingEventsBackend, provide_super_stream_pricing_events_backend,
}
use price_streaming.Bootstrap.Restored.{
  All-below, IsFresh, Restores, remove-head, state_of_continue,
}

unfoldable pub raises : Faults → Call → Bool
raises faults c = elim (faults c) [ none ↦ false | some x ↦ true ]

unfoldable pub is_refused : {A : Type 0} → Outcome A → Bool
is_refused (ok a) = false
is_refused (raise x) = true

-- What is open behind the provider that was not open before it, the last one first.
unfoldable pub left_open : Faults → RabbitMqSuperStreamPricingEventsSettings → List Resource
unfolding raises is_refused
left_open faults s =
    if raises faults connect_robust
    then []
    else if raises faults open_channel
        || (raises faults bind_topology
            || (is_refused (make_resolver s.partition_count) || raises faults stream_start))
    then amqp_connection s.amqp_url ∷ []
    else if raises faults stream_subscribe
    then stream_consumer s.host ∷ amqp_connection s.amqp_url ∷ []
    else if raises faults stream_close
    then amqp_connection s.amqp_url ∷ []
    else []

module _ (n : ℕ) (a : Resource) (d : Dict ℕ Resource) (below : All (λ kv. kv.0 < n) d) where
  remove-second : (c : Resource) → Dict.remove ((n + 1, c) ∷ (n, a) ∷ d) (n + 1) ≡ (n, a) ∷ d
  remove-second c =
      remove-head (n + 1) c ((n, a) ∷ d) (omega arith, All-below n (n + 1) d (omega arith) below)

  remove-above :
      (t c : Resource)
      → Dict.remove ((n + 1 + 1, t) ∷ (n + 1, c) ∷ (n, a) ∷ d) (n + 1 + 1) ≡ (n + 1, c) ∷ (n, a) ∷ d
  remove-above t c =
      remove-head (n + 1 + 1) t ((n + 1, c) ∷ (n, a) ∷ d)
        (omega arith, (omega arith, All-below n (n + 1 + 1) d (omega arith) below))

module _ (faults : Faults) where
  -- A call, and what follows it if it does not raise.
  call_then :
      {B : Type 0} (P : Bool → Handles → Type 0) (c : Call) (m : Action Handles B) (w : Handles)
      → P true w
      → P false (m w).1
      → P (raises faults c) ((call faults c >> m) w).1
  unfolding call raises
  call_then P c m w bad fine = elim (Option-cases (faults c)) [
    | inl e ↦ rw (call, raises, e) fine
    | inr (x, e) ↦ rw (call, raises, e) bad
  ]

  result_then :
      {A B : Type 0} (P : Bool → Handles → Type 0) (o : Outcome A) (k : A → Action Handles B)
      (w : Handles)
      → P true w
      → ((a : A) → P false (k a w).1)
      → P (is_refused o) ((◌>>=◌ (λ s. (o, s)) k) w).1
  unfolding is_refused
  result_then P (ok a) k w bad fine = fine a
  result_then P (raise x) k w bad fine = bad

  state_of_call : (c : Call) (w : Handles) → values (call faults c w).1.opened ≡ values w.opened
  unfolding call
  state_of_call c w = elim (Option-cases (faults c)) [
    | inl e ↦ rw (call, e) refl
    | inr (x, e) ↦ rw (call, e) refl
  ]

  -- The `finally` of the provider, at the three objects that are open there.
  cleanup_leaves :
      (n : ℕ) (t c a : Resource) (d : Dict ℕ Resource) (w : Handles)
      → All (λ kv. kv.0 < n) d
      → w.opened ≡ (n + 1 + 1, t) ∷ (n + 1, c) ∷ (n, a) ∷ d
      → values
          ((cancel_task (n + 1 + 1)
              >> (close_handle faults stream_close (n + 1)
                  >> close_handle faults connection_close n))
            w).1.opened
        ≡ (if raises faults stream_close then a ∷ [] else []) ++ values d
  unfolding cancel_task close_handle
  cleanup_leaves n t c a d w below e =
      let w1 : Handles = record w { opened = Dict.remove w.opened (n + 1 + 1) } in
      let first : Dict.remove w.opened (n + 1 + 1) ≡ (n + 1, c) ∷ (n, a) ∷ d =
        ap (λ x. Dict.remove x (n + 1 + 1)) e ∙ remove-above n a d below t c in
      let second : Dict.remove w1.opened (n + 1) ≡ (n, a) ∷ d =
        ap (λ x. Dict.remove x (n + 1)) first ∙ remove-second n a d below c in
      let w2 : Handles = record w1 { opened = Dict.remove w1.opened (n + 1) } in
      call_then (λ b v. values v.opened ≡ (if b then a ∷ [] else []) ++ values d) stream_close
        (close_handle faults connection_close n) w2 (ap values second)
        (state_of_call connection_close (record w2 { opened = Dict.remove w2.opened n })
          ∙ ap values (ap (λ x. Dict.remove x n) second ∙ remove-head n a d below))

module _ (faults : Faults) (s : RabbitMqSuperStreamPricingEventsSettings) where
  abbrev amqp : Resource
  amqp = amqp_connection s.amqp_url

  abbrev stream : Resource
  stream = stream_consumer s.host

  abbrev after_subscribe : List Resource
  after_subscribe = if raises faults stream_close then amqp ∷ [] else []

  abbrev after_start : List Resource
  after_start = if raises faults stream_subscribe then stream ∷ amqp ∷ [] else after_subscribe

  abbrev start_raises : Bool
  start_raises = is_refused (make_resolver s.partition_count) || raises faults stream_start

  abbrev Leaving : Handles → List Resource → Handles → Type 0
  Leaving w rs v = values v.opened ≡ rs ++ values w.opened

  -- The `try` and its `finally`.
  body_leaves :
      {B : Type 0} (body : Action Handles B) (w : Handles)
      → Restores body
      → IsFresh w
      → Leaving w after_subscribe
          (try_finally body
            (cancel_task (w.fresh + 1 + 1)
              >> (close_handle faults stream_close (w.fresh + 1)
                  >> close_handle faults connection_close w.fresh))
            (record {
              fresh = w.fresh + 1 + 1 + 1;
              opened =
                  (w.fresh + 1 + 1, consumer_task)
                  ∷ (w.fresh + 1, stream)
                  ∷ (w.fresh, amqp)
                  ∷ w.opened;
            })).1
  unfolding try_finally
  body_leaves body w h f =
      let w3 : Handles = record {
        fresh = w.fresh + 1 + 1 + 1;
        opened =
            (w.fresh + 1 + 1, consumer_task) ∷ (w.fresh + 1, stream) ∷ (w.fresh, amqp) ∷ w.opened;
      } in
      let cleanup : Action Handles Unit =
        cancel_task (w.fresh + 1 + 1)
        >> (close_handle faults stream_close (w.fresh + 1)
            >> close_handle faults connection_close w.fresh) in
      let fresh3 : IsFresh w3 = (
        omega arith,
        (
          omega arith,
          (omega arith, All-below w.fresh (w.fresh + 1 + 1 + 1) w.opened (omega arith) f),
        ),
      ) in
      let (same, more) = h.restores w3 fresh3 in
      let after = (body w3).1 in
      ap (λ (v : Handles). values v.opened)
        (state_of_continue (cleanup after).0 (cleanup after).1 (body w3).0)
      ∙ cleanup_leaves faults w.fresh consumer_task stream amqp w.opened after f same

  -- Behind the provider of the super stream backend, round a process that closes what it opens, exactly
  -- the objects of `left_open` are open besides those that were open before: the connection if a
  -- call between it and the `try` raises or the closing of the consumer does, and the consumer too if
  -- its subscription raises.
  pub provide_super_stream-left_open :
      {B : Type 0} (body : PricingEventsBackend → Action Handles B) (w : Handles)
      → ((b : PricingEventsBackend) → Restores (body b))
      → IsFresh w
      → values (provide_super_stream_pricing_events_backend faults s body w).1.opened
        ≡ left_open faults s ++ values w.opened
  unfolding provide_super_stream_pricing_events_backend left_open open_handle
  provide_super_stream-left_open body w h f =
      let w1 : Handles = record { fresh = w.fresh + 1; opened = (w.fresh, amqp) ∷ w.opened } in
      let w2 : Handles = record {
        fresh = w.fresh + 1 + 1;
        opened = (w.fresh + 1, stream) ∷ w1.opened;
      } in
      call_then faults
        (λ b. Leaving w (
          if b
          then []
          else if raises faults open_channel || (raises faults bind_topology || start_raises)
          then amqp ∷ []
          else after_start))
        connect_robust _ w refl
        (call_then faults
          (λ b.
            Leaving w (
              if b || (raises faults bind_topology || start_raises)
              then amqp ∷ []
              else after_start))
          open_channel _ w1 refl
          (call_then faults (λ b. Leaving w (if b || start_raises then amqp ∷ [] else after_start))
            bind_topology _ w1 refl
            (result_then faults
              (λ b. Leaving w (if b || raises faults stream_start then amqp ∷ [] else after_start))
              (make_resolver s.partition_count) _ w1 refl
              (λ count.
                call_then faults (λ b. Leaving w (if b then amqp ∷ [] else after_start))
                  stream_start _ w1 refl
                  (call_then faults
                    (λ b. Leaving w (if b then stream ∷ amqp ∷ [] else after_subscribe))
                    stream_subscribe _ w2 refl (body_leaves _ w (h _) f))))))
