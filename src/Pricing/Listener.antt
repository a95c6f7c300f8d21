-- ===== src/Pricing/Listener.antt =====
-- infrastructure/application/adapter/rfq_domain_events_subscriber/kafka/pricing_rebalance_listener.py:
-- the listener that restores and releases sessions by itself, beside the use cases of shards.
pub mod Equivalent
use price_streaming.Prelude.{
  Action, List, String, String_eq, [], elem, if◌then◌else◌, ok, raise, ℕ, ℕ_eq, ◌==◌, ◌∷◌,
}
use price_streaming.Session.{PricingSession}
use price_streaming.Session.Store.{list_active}
use price_streaming.Routing.Partitions.{partition_for}
use price_streaming.Pricing.{Registry, Pricing, Env, register, unregister, list_all}

pub record TopicPartition : Type 0 where
  pub topic : String
  pub partition : ℕ

-- `PricingRebalanceListener`
pub record RebalanceListener : Type 0 where
  pub topic : String
  pub all_partitions : List ℕ

-- `{tp.partition for tp in partitions if tp.topic == self._topic}`
unfoldable pub partition_ids : String → List TopicPartition → List ℕ
partition_ids topic [] = []
partition_ids topic (tp ∷ tps) =
    let rest = partition_ids topic tps in if tp.topic == topic then tp.partition ∷ rest else rest

module _ (partitioner : String → List ℕ → ℕ) (l : RebalanceListener) where
  -- The loop of `on_partitions_revoked`.
  unfoldable pub release_revoked : List ℕ → List PricingSession → Action Registry Unit
  unfolding unregister
  release_revoked revoked [] reg = (ok tt, reg)
  release_revoked revoked (session ∷ rest) reg =
      let id = session.request.request_id in
      elim (partition_for partitioner id l.all_partitions) [
        | raise x ↦ (raise x, reg)
        | ok p ↦ release_revoked revoked rest (if elem p revoked then unregister reg id else reg)
      ]

  unfoldable pub listener_revoked : List TopicPartition → Action Pricing Unit
  unfolding partition_ids release_revoked list_all
  listener_revoked tps s =
      let (result, reg) =
        release_revoked (partition_ids l.topic tps) (list_all s.registry) s.registry in
      (result, record s { registry = reg })

  -- The loop of `on_partitions_assigned`.
  unfoldable pub restore_assigned : List ℕ → List PricingSession → Action Registry Unit
  unfolding register
  restore_assigned assigned [] reg = (ok tt, reg)
  restore_assigned assigned (session ∷ rest) reg =
      elim (partition_for partitioner session.request.request_id l.all_partitions) [
        | raise x ↦ (raise x, reg)
        | ok p ↦
            restore_assigned assigned rest (if elem p assigned then register reg session else reg)
      ]

  unfoldable pub listener_assigned : Env → List TopicPartition → Action Pricing Unit
  unfolding partition_ids restore_assigned list_active
  listener_assigned env tps s = elim (list_active env.texts s.table) [
    | raise x ↦ (raise x, s)
    | ok sessions ↦
        let (result, reg) = restore_assigned (partition_ids l.topic tps) sessions s.registry in
        (result, record s { registry = reg })
  ]
