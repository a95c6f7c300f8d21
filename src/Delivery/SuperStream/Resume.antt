-- ===== src/Delivery/SuperStream/Resume.antt =====
-- Offsets of a super stream: what an ack stores, and where the next owner of the partition starts.
use price_streaming.Prelude.{
  ==_iff, List, String, String_eq, [], ap, arith, ok, refl, some, true, ℕ, ◌++◌, ◌+◌, ◌∙◌, ◌∷◌, ◌≡◌,
}
use price_streaming.Dict
use price_streaming.Ownership.{PricingShardId}
use price_streaming.Delivery.{Delivery}
use price_streaming.Delivery.StreamName.{
  partition_stream_name, shard_id_from_stream-partition_stream_name,
}
use price_streaming.Delivery.SuperStream.{
  PendingOffset, StreamSubscriber, StreamOwnership, same_name, query_offset, ack,
  on_consumer_update,
}

same_name_refl : (xs : List ℕ) → same_name xs xs ≡ true
unfolding same_name
same_name_refl [] = refl
same_name_refl (x ∷ xs) = ground (arith, same_name_refl xs)

query_offset-append :
    (stream : List ℕ) (name : String) (offset : ℕ) (stored : List (List ℕ × String × ℕ))
    → query_offset stream name (stored ++ (stream, name, offset) ∷ []) ≡ some offset
unfolding query_offset
query_offset-append stream name offset [] = ground (arith, same_name_refl stream, ==_iff name name)
query_offset-append stream name offset ((s, n, o) ∷ rest) =
    rw (query_offset-append stream name offset rest)

stored-ack :
    (d : Delivery) (p : PendingOffset) (s : StreamSubscriber)
    → Dict.get s.pendings d.delivery_id ≡ some p
    → (ack true d s).1.stored ≡ s.stored ++ (p.stream, p.subscriber_name, p.offset) ∷ []
unfolding ack
stored-ack d p s found = ground (arith, found)

-- When a pending delivery of a partition is acked and the broker stores its offset, and a consumer
-- of the same group is the next to become active on the partition, that consumer starts at the
-- offset behind the acked message.
pub on_consumer_update-ack :
    (uuid : ℕ → String) (d : Delivery) (p : PendingOffset) (shard : PricingShardId)
    (s : StreamSubscriber) (o : StreamOwnership)
    → Dict.get s.pendings d.delivery_id ≡ some p
    → p.stream ≡ partition_stream_name o.super_stream shard
    → p.subscriber_name ≡ o.consumer_group
    → (on_consumer_update uuid
        (ack true d s).1.stored
        true
        (partition_stream_name o.super_stream shard)
        o).0
      ≡ ok (p.offset + 1)
unfolding on_consumer_update
on_consumer_update-ack uuid d p shard s o found on_stream in_group =
    let stream = partition_stream_name o.super_stream shard in
    let e : (ack true d s).1.stored ≡ s.stored ++ (stream, o.consumer_group, p.offset) ∷ [] =
      stored-ack d p s found
      ∙ ap (λ (x : List ℕ). s.stored ++ (x, p.subscriber_name, p.offset) ∷ []) on_stream
      ∙ ap (λ (x : String). s.stored ++ (stream, x, p.offset) ∷ []) in_group in
    ground (
      arith,
      e,
      shard_id_from_stream-partition_stream_name o.super_stream shard,
      query_offset-append stream o.consumer_group p.offset s.stored,
    )
