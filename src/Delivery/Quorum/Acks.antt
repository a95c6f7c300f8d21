-- ===== src/Delivery/Quorum/Acks.antt =====
-- One message through the subscriber of the quorum queues: when it is acked, and what stays pending.
use price_streaming.Prelude.{
  ==_iff, Bool, List, Outcome, Outcome-cases, String, String_eq, [], arith, bind, if◌then◌else◌,
  inl, inr, none, ok, raise, ℕ, ◌++◌, ◌==◌, ◌∷◌, ◌≡◌,
}
use price_streaming.Dict
use price_streaming.Dict.{get-put, get-remove}
use price_streaming.Pricing.{RfqRegisteredEvent}
use price_streaming.Ownership.{PricingShardId}
use price_streaming.Delivery.{Delivery, DeliveryId, Wire}
use price_streaming.Delivery.Quorum.{
  PendingMessage, QuorumSubscriber, deserialize, deliver, settle, ack, process,
}

-- What the broker has acked after a message.
abbrev pub acked_after : Outcome Unit → (ack_ok : Bool) → ℕ → List ℕ → List ℕ
acked_after (ok _) ack_ok tag acked = if ack_ok then acked ++ tag ∷ [] else acked
acked_after (raise x) ack_ok tag acked = acked

module _ (wire : Wire) (handler : Delivery → Outcome Unit) (ack_ok : Bool) where
  -- For a message that can be read: it is acked if and only if its handler returns and the broker
  -- takes the ack, and after it, whatever was raised, no entry for it stays pending, while the
  -- entries of all other deliveries are as they were.
  pub process_lem :
      (shard : PricingShardId) (tag : ℕ) (body : String) (event : RfqRegisteredEvent)
      (s : QuorumSubscriber) (j : DeliveryId)
      → bind (wire.read_envelope body) (deserialize wire) ≡ ok event
      → ((process wire handler ack_ok shard tag body s).1.acked
          ≡ acked_after
              (handler
                (record { delivery_id = wire.uuid s.issued; shard_id = shard; event = event }))
              ack_ok
              tag
              s.acked)
        × (Dict.get (process wire handler ack_ok shard tag body s).1.pendings j
            ≡ (if wire.uuid s.issued == j then none else Dict.get s.pendings j))
  unfolding process deliver settle ack
  process_lem shard tag body event s j readable =
      let i = wire.uuid s.issued in
      let p : PendingMessage = record { shard_id = shard; message = tag } in
      let put = Dict.put s.pendings i p in
      elim (Outcome-cases (handler (record { delivery_id = i; shard_id = shard; event = event }))) [
        | inr (x, failed) ↦ (
          ground (arith, readable, failed),
          ground (arith, readable, failed, get-remove put i j, get-put s.pendings i j p),
        )
        | inl (u, handled) ↦ (
          ground (arith, readable, handled, get-put s.pendings i i p, ==_iff i i),
          ground (
            arith,
            readable,
            handled,
            get-put s.pendings i i p,
            ==_iff i i,
            get-remove put i j,
            get-remove (Dict.remove put i) i j,
            get-put s.pendings i j p,
          ),
        )
      ]
