-- ===== src/Delivery/Kafka/Commits.antt =====
-- Acknowledgements of the Kafka subscriber: which offsets are committed.
use mathlib.Core.List.{append-nil, append_assoc}
use price_streaming.Prelude.{
  ==_iff, Bool, List, Outcome, Outcome-cases, String, String_eq, [], any, ap, arith, false,
  if◌then◌else◌, inl, inr, map, nat_eq, none, ok, raise, refl, runtime_error, some, sym, true, ℕ,
  ℕ_eq, ◌++◌, ◌+◌, ◌==◌, ◌∷◌, ◌≡◌,
}
use price_streaming.Dict
use price_streaming.Dict.{Dict, get-remove, IsFunctional}
use price_streaming.Ownership.{PricingShardId}
use price_streaming.Delivery.{DeliveryId, Delivery}
use price_streaming.Delivery.Kafka.{Pending, Subscriber, ack, close, drop_pendings}
use price_streaming.Worker.{consume}

get-drop_pendings :
    (shard : PricingShardId) (ps : Dict DeliveryId Pending) (i : DeliveryId)
    → IsFunctional ps
    → Dict.get (drop_pendings shard ps) i ≡ elim (Dict.get ps i) [
      | none ↦ none
      | some p ↦ if nat_eq p.shard_id shard then none else some p
    ]
unfolding drop_pendings Dict.get
get-drop_pendings shard [] i f = refl
get-drop_pendings shard ((j, p) ∷ ps) i f =
    ground (arith, get-drop_pendings shard ps i f.1, f.0, ==_iff j i)

-- Once the consumer of a shard is closed, the ack of a delivery of that shard that was pending
-- raises a RuntimeError and changes nothing, whether or not the broker would take the commit: the
-- offset stays uncommitted.
pub ack-close :
    (q : ℕ) (commit_ok : Bool) (d : Delivery) (p : Pending) (s : Subscriber)
    → IsFunctional s.pendings
    → Dict.get s.pendings d.delivery_id ≡ some p
    → ack commit_ok d (close p.shard_id q s) ≡ (raise runtime_error, close p.shard_id q s)
unfolding ack close
ack-close q commit_ok d p s f found =
    ground (arith, get-drop_pendings p.shard_id s.pendings d.delivery_id f, found)

-- The deliveries of a task, each with its pending entry, under different ids.
abbrev pub ArePending : List (Delivery × Pending) → Subscriber → Type 0
ArePending [] s = Unit
ArePending ((d, p) ∷ rest) s =
    (Dict.get s.pendings d.delivery_id ≡ some p)
    × (any (λ dp. dp.0.delivery_id == d.delivery_id) rest ≡ false)
    × ArePending rest s

abbrev pub if_ok :
    Outcome Unit → Delivery × Pending → List (Delivery × Pending) → List (Delivery × Pending)
if_ok (ok _) dp more = dp ∷ more
if_ok (raise x) dp more = []

-- The deliveries before the first one that the handler fails on.
abbrev pub handled :
    (Delivery → Outcome Unit) → List (Delivery × Pending) → List (Delivery × Pending)
handled h [] = []
handled h (dp ∷ rest) = let more = handled h rest in if_ok (h dp.0) dp more

-- The offset to commit for a delivery: that of the next message to read.
abbrev pub commit_of : Delivery × Pending → String × ℕ × ℕ
commit_of dp = (dp.1.topic, dp.1.partition, dp.1.offset + 1)

ArePending-remove :
    (rest : List (Delivery × Pending)) (i : DeliveryId) (s s' : Subscriber)
    → s'.pendings ≡ Dict.remove s.pendings i
    → any (λ dp. dp.0.delivery_id == i) rest ≡ false
    → ArePending rest s
    → ArePending rest s'
ArePending-remove [] i s s' e absent h = tt
ArePending-remove ((d, p) ∷ rest) i s s' e absent h = (
  ground (
    arith,
    ap (λ (ps : Dict DeliveryId Pending). Dict.get ps d.delivery_id) e,
    get-remove s.pendings i d.delivery_id,
    absent,
    h.0,
    ==_iff i d.delivery_id,
    ==_iff d.delivery_id i,
  ),
  h.1,
  ArePending-remove rest i s s' e (ground (arith, absent)) h.2,
)

commits-ack :
    (d : Delivery) (p : Pending) (s : Subscriber)
    → Dict.get s.pendings d.delivery_id ≡ some p
    → ack true d s ≡ (
      ok tt,
      record s {
        pendings = Dict.remove s.pendings d.delivery_id;
        commits = s.commits ++ commit_of (d, p) ∷ [];
      },
    )
unfolding ack
commits-ack d p s found = ground (arith, found)

-- Over deliveries that are pending, each under its own id, and with a broker that takes every
-- commit: the consumer task of a shard commits, in order, the next offset of exactly the deliveries
-- before the first one whose handling fails; that one and all behind it stay uncommitted.
pub commits-consume :
    (h : Delivery → Outcome Unit) (dps : List (Delivery × Pending)) (s : Subscriber)
    → ArePending dps s
    → (consume (λ d w. (h d, w)) (ack true) (map (λ dp. dp.0) dps) s).1.commits
      ≡ s.commits ++ map commit_of (handled h dps)
unfolding consume
commits-consume h [] s pending = sym (append-nil s.commits)
commits-consume h ((d, p) ∷ rest) s pending = elim (Outcome-cases (h d)) [
  | inr (x, hx) ↦ rw hx (sym (append-nil s.commits))
  | inl (u, hu) ↦
      let s' = record s {
        pendings = Dict.remove s.pendings d.delivery_id;
        commits = s.commits ++ commit_of (d, p) ∷ [];
      } in
      rw
        (
          hu,
          commits-ack d p s pending.0,
          commits-consume h rest s'
              (ArePending-remove rest d.delivery_id s s' refl pending.1 pending.2),
        )
        (append_assoc s.commits (commit_of (d, p) ∷ []) (map commit_of (handled h rest)))
]
