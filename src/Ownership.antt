-- ===== src/Ownership.antt =====
-- application/pricing/model/pricing_shard_ownership_change.py: what a worker is told of its shards.
pub mod Lease
pub mod Rebalance
use price_streaming.Prelude.{String, ℕ}

-- `PricingShardId.value`
abbrev pub PricingShardId : Type 0
PricingShardId = ℕ

-- `PricingShardOwnershipTransitionId.value`
abbrev pub TransitionId : Type 0
TransitionId = String

pub data OwnershipChange : Type 0 where
  acquired released : TransitionId → PricingShardId → OwnershipChange

unfoldable pub transition_id : OwnershipChange → TransitionId
transition_id (acquired t s) = t
transition_id (released t s) = t
