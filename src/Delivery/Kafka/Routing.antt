-- ===== src/Delivery/Kafka/Routing.antt =====
-- Which mailbox the dispatcher of the Kafka subscriber puts a message into.
use price_streaming.Prelude.{
  List, Option-cases, String_eq, [], arith, if◌then◌else◌, inl, inr, nat_eq, none, some, ℕ, ℕ_eq,
  ◌++◌, ◌<◌, ◌∷◌, ◌≡◌,
}
use price_streaming.Dict
use price_streaming.Dict.{get-put}
use price_streaming.Pricing.{RfqRegisteredEvent}
use price_streaming.Ownership.{PricingShardId}
use price_streaming.Delivery.{Delivery, Wire}
use price_streaming.Delivery.Kafka.{Message, Subscriber, contents, set_default, put_nowait, enqueue}

-- The deliveries that wait for the consumer of a shard.
pub waiting_for : PricingShardId → Subscriber → List Delivery
waiting_for shard s = elim (Dict.get s.queues shard) [ none ↦ [] | some q ↦ contents s.mailboxes q ]

-- Queues are objects of their own: no number is used ahead, and no two shards share one.
pub record IsWired (s : Subscriber) : Type 0 where
  pub numbered : (shard q : ℕ) → Dict.get s.queues shard ≡ some q → q < s.created
  pub apart : (a b q : ℕ) → Dict.get s.queues a ≡ some q → Dict.get s.queues b ≡ some q → a ≡ b

enqueue-IsWired :
    (wire : Wire) (m : Message) (event : RfqRegisteredEvent) (s : Subscriber)
    → IsWired s
    → IsWired (enqueue wire m event s)
unfolding enqueue set_default put_nowait
enqueue-IsWired wire m event s w = elim (Option-cases (Dict.get s.queues m.partition)) [
  | inr (q, found) ↦ record {
    numbered = λ j q' e. ground (arith, found, e, w.numbered j q');
    apart = λ a b q' ea eb. ground (arith, found, ea, eb, w.apart a b q');
  }
  | inl absent ↦ record {
    numbered = λ j q' e.
        ground (arith, absent, e, w.numbered j q', get-put s.queues m.partition j s.created);
    apart = λ a b q' ea eb. ground (
      arith,
      absent,
      ea,
      eb,
      w.apart a b q',
      w.numbered a q',
      w.numbered b q',
      get-put s.queues m.partition a s.created,
      get-put s.queues m.partition b s.created,
    );
  }
]

-- While no two shards share a queue: a message goes behind those that wait for the shard of its
-- partition, and no other shard's mailbox changes.
pub waiting_for-enqueue :
    (wire : Wire) (m : Message) (event : RfqRegisteredEvent) (s : Subscriber) (j : PricingShardId)
    → IsWired s
    → waiting_for j (enqueue wire m event s) ≡ (
        if nat_eq m.partition j
        then waiting_for j s
          ++ record { delivery_id = wire.uuid s.issued; shard_id = m.partition; event = event } ∷ []
        else waiting_for j s)
unfolding waiting_for enqueue set_default put_nowait contents
waiting_for-enqueue wire m event s j w = elim (Option-cases (Dict.get s.queues m.partition)) [
  | inr (q, found) ↦ elim (Option-cases (Dict.get s.queues j)) [
    | inl none_j ↦ ground (arith, found, none_j)
    | inr (q', found') ↦ ground (
      arith,
      found,
      found',
      w.apart m.partition j q found,
      get-put s.mailboxes q q' (
          contents s.mailboxes q
          ++ record { delivery_id = wire.uuid s.issued; shard_id = m.partition; event = event }
            ∷ []),
    )
  ]
  | inl absent ↦
      let d : Delivery = record {
        delivery_id = wire.uuid s.issued;
        shard_id = m.partition;
        event = event;
      } in
      let boxes = Dict.put s.mailboxes s.created [] in
      elim (Option-cases (Dict.get s.queues j)) [
        | inl none_j ↦ ground (
          arith,
          absent,
          none_j,
          get-put s.queues m.partition j s.created,
          get-put boxes s.created s.created (contents boxes s.created ++ d ∷ []),
          get-put s.mailboxes s.created s.created [],
        )
        | inr (q', found') ↦ ground (
          arith,
          absent,
          found',
          w.numbered j q',
          get-put s.queues m.partition j s.created,
          get-put boxes s.created q' (contents boxes s.created ++ d ∷ []),
          get-put s.mailboxes s.created q' [],
        )
      ]
]
