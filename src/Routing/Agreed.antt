-- ===== src/Routing/Agreed.antt =====
-- Kafka from the producer to the mailbox of a shard.
use price_streaming.Prelude.{
  List, Outcome-cases, String, String_eq, [], ap, arith, if◌then◌else◌, inl, inr, nat_eq, ok, sym,
  true, ℕ, ℕ_eq, ◌++◌, ◌<◌, ◌∙◌, ◌∷◌, ◌≡◌,
}
use price_streaming.Ownership.{PricingShardId}
use price_streaming.Outbox.{OutboxEvent}
use price_streaming.Pricing.{RfqRegisteredEvent}
use price_streaming.Delivery.{IntegrationEventEnvelope, Wire}
use price_streaming.Delivery.Kafka.{Message, Subscriber, enqueue}
use price_streaming.Delivery.Kafka.Routing.{IsWired, waiting_for, waiting_for-enqueue}
use price_streaming.Routing.{ProducerRecord, publish_kafka, resolve_topic}
use price_streaming.Routing.Partitions.{
  IsRange, partition_for, range_from, resolve_partition, sorted-IsRange,
}

module _ (partitioner : String → List ℕ → ℕ) where
  resolve_partition-IsRange :
      (n : ℕ) (ps : List ℕ) (key : String)
      → 0 < n
      → IsRange n ps
      → resolve_partition partitioner ps key ≡ ok (partitioner key (range_from 0 n))
  unfolding resolve_partition partition_for
  resolve_partition-IsRange n [] key h (d, members) = absurd (ground (arith, members 0))
  resolve_partition-IsRange n (p ∷ ps) key h set =
      ap (λ xs. ok (partitioner key xs)) (sorted-IsRange n (p ∷ ps) set)

  module _ (dump : IntegrationEventEnvelope → String) (wire : Wire) where
    key-publish_kafka :
        (e : OutboxEvent) (r : ProducerRecord)
        → publish_kafka dump true e [] ≡ (ok tt, r ∷ [])
        → r.key ≡ e.aggregate_id
    unfolding publish_kafka
    key-publish_kafka e r h = elim (Outcome-cases (resolve_topic e.event_type)) [
      | inr (x, bad) ↦ absurd (cc (rw (publish_kafka, bad) at h))
      | inl (topic, good) ↦ ground (arith, h, good)
    ]

    -- A topic has `n` partitions, which the worker's resolver holds as a set in any order, and the
    -- producer was handed a record for an event: once the dispatcher reads a message of the partition
    -- that the partitioner gives for the record's key, a delivery of it waits behind the others for
    -- exactly the shard to which the resolver maps the event's aggregate, and for no other.
    pub resolve_partition-enqueue :
        (n : ℕ) (ps : List ℕ) (e : OutboxEvent) (r : ProducerRecord) (m : Message)
        (event : RfqRegisteredEvent) (s : Subscriber)
        → 0 < n
        → IsRange n ps
        → publish_kafka dump true e [] ≡ (ok tt, r ∷ [])
        → m.partition ≡ partitioner r.key (range_from 0 n)
        → IsWired s
        → (shard : PricingShardId) × (resolve_partition partitioner ps e.aggregate_id ≡ ok shard)
          × ((j : PricingShardId)
              → waiting_for j (enqueue wire m event s) ≡ (
                  if nat_eq shard j
                  then waiting_for j s
                    ++ record { delivery_id = wire.uuid s.issued; shard_id = shard; event = event }
                      ∷ []
                  else waiting_for j s))
    resolve_partition-enqueue n ps e r m event s some_partition set handed read w =
        let same = ap (λ k. partitioner k (range_from 0 n)) (key-publish_kafka e r handed) in
        (
          m.partition,
          resolve_partition-IsRange n ps e.aggregate_id some_partition set
              ∙ ap ok (sym (read ∙ same)),
          λ j. waiting_for-enqueue wire m event s j w,
        )
