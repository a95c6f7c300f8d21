-- ===== src/Examples/Delivery.antt =====
-- Subscribers with one or two messages.
use price_streaming.Prelude.{
  List, Outcome, String, String_eq, [], arith, bind, database_error, if◌then◌else◌, map, nat_eq,
  none, ok, raise, refl, some, true, value_error, ℕ, ℕ_eq, ◌++◌, ◌==◌, ◌∷◌, ◌≡◌,
}
use price_streaming.Dict
use price_streaming.Dict.{IsFunctional}
use price_streaming.Examples.Pricing.{event}
use price_streaming.Delivery.{Delivery, Wire}
use price_streaming.Delivery.StreamName.{partition_stream_name}
use price_streaming.Delivery.Kafka.{Message, Pending, Subscriber, ack, enqueue}
use price_streaming.Delivery.Kafka.Commits.{commit_of, commits-consume, handled}
use price_streaming.Delivery.Kafka.Routing.{IsWired, waiting_for}
use price_streaming.Delivery.Quorum
use price_streaming.Delivery.Quorum.{QuorumSubscriber, process}
use price_streaming.Delivery.Quorum.Acks.{acked_after, process_lem}
use price_streaming.Delivery.SuperStream
use price_streaming.Delivery.SuperStream.{
  PendingOffset, StreamOwnership, StreamSubscriber, on_consumer_update,
}
use price_streaming.Delivery.SuperStream.Resume.{on_consumer_update-ack}
use price_streaming.Worker.{consume}
use price_streaming.Routing.{ProducerRecord, publish_kafka, resolve_topic}
use price_streaming.Routing.Partitions.{IsRange, resolve_partition}
use price_streaming.Routing.Agreed.{resolve_partition-enqueue}
use price_streaming.Examples.Outbox.{due}

abbrev wire : Wire
wire = record {
  read_envelope = λ body. raise value_error;
  read_event = λ i payload. ok event;
  uuid = λ n. if nat_eq n 0 then "d0" else if nat_eq n 1 then "d1" else "d2";
}

abbrev first_delivery : Delivery
first_delivery = record { delivery_id = "d0"; shard_id = 2; event = event }

abbrev second_delivery : Delivery
second_delivery = record { delivery_id = "d1"; shard_id = 2; event = event }

abbrev first_pending : Pending
first_pending = record { shard_id = 2; topic = "rfq"; partition = 2; offset = 40 }

abbrev second_pending : Pending
second_pending = record { shard_id = 2; topic = "rfq"; partition = 2; offset = 41 }

abbrev subscriber : Subscriber
subscriber = record {
  queues = (2, 0) ∷ [];
  mailboxes = (0, []) ∷ [];
  created = 1;
  pendings = ("d0", first_pending) ∷ ("d1", second_pending) ∷ [];
  issued = 2;
  commits = [];
}

-- The first delivery is handled, the second fails.
abbrev handler : Delivery → Outcome Unit
handler d = if d.delivery_id == "d0" then ok tt else raise database_error

abbrev deliveries : List (Delivery × Pending)
deliveries = (first_delivery, first_pending) ∷ (second_delivery, second_pending) ∷ []

pending_d0 : Dict.get subscriber.pendings "d0" ≡ some first_pending
unfolding Dict.get
pending_d0 = refl

pending_d1 : Dict.get subscriber.pendings "d1" ≡ some second_pending
unfolding Dict.get
pending_d1 = refl

pendings-IsFunctional : IsFunctional subscriber.pendings
unfolding Dict.get
pendings-IsFunctional = (refl, (refl, tt))

commits-consume_example :
    (consume
      (λ d w. (handler d, w))
      (ack true)
      (first_delivery ∷ second_delivery ∷ [])
      subscriber).1.commits
    ≡ [] ++ map commit_of (handled handler deliveries)
commits-consume_example =
    commits-consume handler deliveries subscriber (pending_d0, refl, (pending_d1, refl, tt))

subscriber-IsWired : IsWired subscriber
unfolding Dict.get
subscriber-IsWired = record {
  numbered = λ j q e. ground (arith, e);
  apart = λ a b q ea eb. ground (arith, ea, eb);
}

abbrev message : Message
message = record { topic = "rfq"; partition = 2; offset = 42; value = "{}" }

abbrev reading : Wire
reading = record {
  read_envelope = λ body. ok (record {
    message_id = "e1";
    message_type = "rfq.registered";
    schema_version = 1;
    payload = "{}";
    occurred_at = 7;
  });
  read_event = λ i payload. ok event;
  uuid = λ n. "d0";
}

abbrev quorum : QuorumSubscriber
quorum = record { queues = (2, "rfq-2") ∷ []; pendings = []; issued = 0; acked = 8 ∷ [] }

readable : bind (reading.read_envelope "{}") (Quorum.deserialize reading) ≡ ok event
unfolding Quorum.deserialize
readable = refl

process_lem_example :
    ((process reading handler true 2 9 "{}" quorum).1.acked
      ≡ acked_after
          (handler (record { delivery_id = reading.uuid 0; shard_id = 2; event = event }))
          true
          9
          quorum.acked)
    × (Dict.get (process reading handler true 2 9 "{}" quorum).1.pendings "d0"
        ≡ (if reading.uuid 0 == "d0" then none else Dict.get quorum.pendings "d0"))
process_lem_example = process_lem reading handler true 2 9 "{}" event quorum "d0" readable

abbrev rfq : List ℕ
rfq = 114 ∷ 102 ∷ 113 ∷ []

abbrev pending_offset : PendingOffset
pending_offset = record {
  stream = partition_stream_name rfq 2;
  offset = 40;
  subscriber_name = "pricing";
}

abbrev stream_subscriber : StreamSubscriber
stream_subscriber = record {
  queues = [];
  pendings = ("d0", pending_offset) ∷ [];
  issued = 1;
  stored = (partition_stream_name rfq 2, "pricing", 39) ∷ [];
}

abbrev stream_ownership : StreamOwnership
stream_ownership = record {
  super_stream = rfq;
  consumer_group = "pricing";
  changes = [];
  issued = 0;
}

pending_on_stream : Dict.get stream_subscriber.pendings "d0" ≡ some pending_offset
unfolding Dict.get
pending_on_stream = refl

on_consumer_update-ack_example :
    (on_consumer_update
      (λ n. "t1")
      (SuperStream.ack true first_delivery stream_subscriber).1.stored
      true
      (partition_stream_name rfq 2)
      stream_ownership).0
    ≡ ok 41
on_consumer_update-ack_example =
    on_consumer_update-ack (λ n. "t1") first_delivery pending_offset 2 stream_subscriber
      stream_ownership pending_on_stream refl refl

abbrev first_of_partitions : String → List ℕ → ℕ
first_of_partitions key ps = 2

abbrev partition_set : List ℕ
partition_set = 2 ∷ 0 ∷ 3 ∷ 1 ∷ []

partition_set-IsRange : IsRange 4 partition_set
partition_set-IsRange = (refl, λ p. ground arith)

abbrev due_record : ProducerRecord
due_record = record { topic = "rfq-domain-events"; key = "r1"; value = "{}" }

due_handed : publish_kafka (λ e. "{}") true due [] ≡ (ok tt, due_record ∷ [])
unfolding publish_kafka resolve_topic
due_handed = refl

resolve_partition-enqueue_example :
    (shard : ℕ) × (resolve_partition first_of_partitions partition_set "r1" ≡ ok shard)
    × ((j : ℕ)
        → waiting_for j (enqueue wire message event subscriber) ≡ (
            if nat_eq shard j
            then waiting_for j subscriber
              ++ record { delivery_id = wire.uuid 2; shard_id = shard; event = event } ∷ []
            else waiting_for j subscriber))
resolve_partition-enqueue_example =
    resolve_partition-enqueue first_of_partitions (λ e. "{}") wire 4 partition_set due due_record
      message event subscriber (omega arith) partition_set-IsRange due_handed refl
      subscriber-IsWired
