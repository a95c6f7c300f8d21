-- ===== src/Routing/Delivered.antt =====
-- The queue that a published event ends in.
use price_streaming.Prelude.{
  List, String, String_eq, [], ap, arith, list_eq, list_eq_iff, nat_eq, ok, refl, some, suc, sym,
  zero, ℕ, ℕ_eq, ℤ_eq, ◌++◌, ◌+◌, ◌<◌, ◌∙◌, ◌∷◌, ◌≡◌, ◌≤◌,
}
use price_streaming.Dict
use price_streaming.Outbox.{OutboxEvent}
use price_streaming.Delivery.{IntegrationEventEnvelope}
use price_streaming.Delivery.StreamName.{
  decimal_text, int_of, int_of-decimal_text, partition_stream_name, shard_id_from_stream,
  shard_id_from_stream-partition_stream_name,
}
use price_streaming.Routing.{
  routing_key, queue_name, Bindings, declare_quorum, bind_super_stream, routed, envelope,
  resolve_shard, publish_rabbitmq,
}
use price_streaming.Routing.Shards.{resolve_shard_bound}

-- Bindings of each shard's key to a queue.
bindings_of : (ℕ → List ℕ) → (shard remaining : ℕ) → Bindings
bindings_of queue shard zero = []
bindings_of queue shard (suc remaining) =
    (routing_key shard, queue shard) ∷ bindings_of queue (shard + 1) remaining

declare_quorum-bindings :
    (prefix : List ℕ) (shard remaining : ℕ)
    → (declare_quorum prefix shard remaining).0 ≡ bindings_of (queue_name prefix) shard remaining
unfolding declare_quorum bindings_of
declare_quorum-bindings prefix shard zero = refl
declare_quorum-bindings prefix shard (suc remaining) =
    ap ((routing_key shard, queue_name prefix shard) ∷◌)
      (declare_quorum-bindings prefix (shard + 1) remaining)

bind_super_stream-bindings :
    (super_stream : List ℕ) (shard remaining : ℕ)
    → bind_super_stream super_stream shard remaining
      ≡ bindings_of (partition_stream_name super_stream) shard remaining
unfolding bind_super_stream bindings_of
bind_super_stream-bindings super_stream shard zero = refl
bind_super_stream-bindings super_stream shard (suc remaining) =
    ap ((routing_key shard, partition_stream_name super_stream shard) ∷◌)
      (bind_super_stream-bindings super_stream (shard + 1) remaining)

routing_key_injective : {a b : ℕ} → routing_key a ≡ routing_key b → a ≡ b
unfolding routing_key
routing_key_injective {a} {b} h =
    let text : decimal_text a ≡ decimal_text b = cc h in
    let read : ok a ≡ ok b = sym (int_of-decimal_text a) ∙ ap int_of text ∙ int_of-decimal_text b in
    cc read

same_key : {a b : ℕ} → a ≡ b → routing_key a ≡ routing_key b
same_key h = ap routing_key h

list_eq-routing_key : (a b : ℕ) → list_eq (routing_key a) (routing_key b) ≡ nat_eq a b
list_eq-routing_key a b = ground (
  arith,
  list_eq_iff (routing_key a) (routing_key b),
  routing_key_injective {a = a} {b = b},
  same_key {a = a} {b = b},
)

same_queue : (queue : ℕ → List ℕ) {a b : ℕ} → a ≡ b → queue a ≡ queue b
same_queue queue h = ap queue h

routed-below :
    (queue : ℕ → List ℕ) (s shard remaining : ℕ)
    → s < shard
    → routed (routing_key s) (bindings_of queue shard remaining) ≡ []
unfolding routed bindings_of
routed-below queue s shard zero h = refl
routed-below queue s shard (suc remaining) h =
    rw (list_eq-routing_key shard s) (ground (arith, routed-below queue s (shard + 1) remaining))

routed-bindings_of :
    (queue : ℕ → List ℕ) (s shard remaining : ℕ)
    → shard ≤ s
    → s < shard + remaining
    → routed (routing_key s) (bindings_of queue shard remaining) ≡ queue s ∷ []
unfolding routed bindings_of
routed-bindings_of queue s shard zero above below = absurd (omega arith)
routed-bindings_of queue s shard (suc remaining) above below = rw (list_eq-routing_key shard s) (
    ground (
      arith,
      routed-below queue s (shard + 1) remaining,
      routed-bindings_of queue s (shard + 1) remaining,
      same_queue queue {a = shard} {b = s},
    ))

get-declare_quorum :
    (prefix : List ℕ) (s shard remaining : ℕ)
    → shard ≤ s
    → s < shard + remaining
    → Dict.get (declare_quorum prefix shard remaining).1 s ≡ some (queue_name prefix s)
unfolding declare_quorum Dict.get
get-declare_quorum prefix s shard zero above below = absurd (omega arith)
get-declare_quorum prefix s shard (suc remaining) above below = ground (
  arith,
  get-declare_quorum prefix s (shard + 1) remaining,
  same_queue (queue_name prefix) {a = shard} {b = s},
)

module _ (sha256 : String → List ℕ) (dump : IntegrationEventEnvelope → String) where
  publish_rabbitmq-bindings_of :
      (queue : ℕ → List ℕ) (shard_count : ℕ) (e : OutboxEvent) (sent : List (List ℕ × String))
      → 0 < shard_count
      → publish_rabbitmq dump sha256 shard_count (bindings_of queue 0 shard_count) e sent ≡ (
        ok tt,
        sent ++ (queue (resolve_shard sha256 shard_count e.aggregate_id), dump (envelope e)) ∷ [],
      )
  unfolding publish_rabbitmq
  publish_rabbitmq-bindings_of queue shard_count e sent h = rw (
    publish_rabbitmq,
    routed-bindings_of queue (resolve_shard sha256 shard_count e.aggregate_id) 0 shard_count
        (omega arith)
        (let bound = resolve_shard_bound sha256 shard_count e.aggregate_id h in omega arith),
  )

  -- Over the quorum queues that were declared for the resolver's shard count, publishing an event
  -- succeeds and puts exactly one message, the event's envelope, in the queue that the topology
  -- names for the shard of the event's aggregate, and in no other.
  pub publish_rabbitmq-declare_quorum :
      (prefix : List ℕ) (shard_count : ℕ) (e : OutboxEvent) (sent : List (List ℕ × String))
      → 0 < shard_count
      → (queue : List ℕ) × (Dict.get
            (declare_quorum prefix 0 shard_count).1
            (resolve_shard sha256 shard_count e.aggregate_id)
          ≡ some queue)
        × (publish_rabbitmq dump sha256 shard_count (declare_quorum prefix 0 shard_count).0 e sent
            ≡ (ok tt, sent ++ (queue, dump (envelope e)) ∷ []))
  publish_rabbitmq-declare_quorum prefix shard_count e sent h = (
    queue_name prefix (resolve_shard sha256 shard_count e.aggregate_id),
    get-declare_quorum prefix _ 0 shard_count (omega arith)
        (let bound = resolve_shard_bound sha256 shard_count e.aggregate_id h in omega arith),
    rw (declare_quorum-bindings prefix 0 shard_count)
        (publish_rabbitmq-bindings_of (queue_name prefix) shard_count e sent h),
  )

  -- Over the partitions of a super stream that were bound for the resolver's shard count,
  -- publishing an event succeeds and appends exactly one message, the event's envelope, to one
  -- partition, whose name the subscriber reads back as the shard of the event's aggregate.
  pub publish_rabbitmq-bind_super_stream :
      (super_stream : List ℕ) (shard_count : ℕ) (e : OutboxEvent) (sent : List (List ℕ × String))
      → 0 < shard_count
      → (stream : List ℕ) × (shard_id_from_stream super_stream stream
          ≡ ok (resolve_shard sha256 shard_count e.aggregate_id))
        × (publish_rabbitmq dump sha256 shard_count
              (bind_super_stream super_stream 0 shard_count)
              e
              sent
            ≡ (ok tt, sent ++ (stream, dump (envelope e)) ∷ []))
  publish_rabbitmq-bind_super_stream super_stream shard_count e sent h = (
    partition_stream_name super_stream (resolve_shard sha256 shard_count e.aggregate_id),
    shard_id_from_stream-partition_stream_name super_stream _,
    rw (bind_super_stream-bindings super_stream 0 shard_count)
        (publish_rabbitmq-bindings_of (partition_stream_name super_stream) shard_count e sent h),
  )
