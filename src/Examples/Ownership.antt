-- ===== src/Examples/Ownership.antt =====
-- Leases and rebalances with two workers and two shards.
use price_streaming.Prelude.{
  Bool, List, String, String_eq, [], arith, elem, false, length, none, refl, true, ℕ, ℕ_eq, ◌+◌,
  ◌<◌, ◌∷◌, ◌≡◌, ◌≤◌, ◌⊎◌,
}
use price_streaming.Dict
use price_streaming.Dict.{IsFunctional}
use price_streaming.Ownership.{PricingShardId, OwnershipChange, released, transition_id}
use price_streaming.Ownership.Lease.{
  LeaseRow, LeaseTable, Coordinator, round, is_available, candidates, claim_available, claim_rows,
  claimed_row, insert_row, order_by_shard, add_all,
}
use price_streaming.Ownership.Lease.Round.{length-round}
use price_streaming.Ownership.Lease.Cluster.{
  Cluster, Limits, here, next, tick, claimed, claim, coordinator, set_worker, IsSafe,
  exclusive_leases,
}
use price_streaming.Ownership.Rebalance.{RebalanceOwnership, publish, done, returns, gather}
use price_streaming.Ownership.Rebalance.Liveness.{complete_all, gather-complete_all}

abbrev free : LeaseRow
free = record { owner_id = none; lease_until = none; epoch = 0 }

abbrev leases : LeaseTable
leases = (0, free) ∷ (1, free) ∷ []

abbrev limits : Limits
limits = record { lease_duration = 30; max_shards = 1 }

abbrev start : Cluster
start = record { now = 100; table = leases; owned = λ w. []; granted = λ w j. 0 }

leases-IsFunctional : IsFunctional leases
unfolding Dict.get
leases-IsFunctional = (refl, (refl, tt))

start-IsSafe : IsSafe start
start-IsSafe = record { functional = leases-IsFunctional; leased = λ w j m. absurd (cc m) }

abbrev anyone : ℕ → Bool
anyone j = false

abbrev a : String
a = "a"

abbrev b : String
b = "b"

abbrev after_a : Cluster
after_a = claim limits start a anyone

-- The lease of worker `a` has run out, and `a` has not renewed it.
abbrev late : Cluster
late = record after_a { now = after_a.now + 40 }

abbrev after_b : Cluster
after_b = claim limits late b anyone

owned_by_a : elem 0 (after_b.owned a) ≡ true
unfolding claim coordinator set_worker claim_available candidates is_available insert_row
    order_by_shard claim_rows claimed_row add_all Dict.put
owned_by_a = refl

owned_by_b : elem 0 (after_b.owned b) ≡ true
unfolding claim coordinator set_worker claim_available candidates is_available insert_row
    order_by_shard claim_rows claimed_row add_all Dict.put
owned_by_b = refl

exclusive_leases_example :
    (a ≡ b) ⊎ ((after_b.granted a 0 < after_b.now) ⊎ (after_b.granted b 0 < after_b.now))
exclusive_leases_example =
    exclusive_leases limits start after_b a b 0 start-IsSafe
      (next (next (next here (claimed a anyone)) (tick 40)) (claimed b anyone)) owned_by_a
      owned_by_b

abbrev renewals : List PricingShardId
renewals = 0 ∷ []

abbrev worker_a : Coordinator
worker_a = record { worker_id = "a"; lease_duration = 30; max_shards = 1; owned = [] }

length-round_example : length (round 100 101 anyone worker_a leases).1.owned ≤ 1
length-round_example = length-round 100 101 anyone worker_a leases (omega arith)

abbrev open_release : RebalanceOwnership
open_release = record {
  topic = "rfq";
  changes = [];
  completions = ("t1", tt) ∷ [];
  futures = ("t1", done) ∷ [];
  issued = 1;
}

abbrev revoked : List OwnershipChange
revoked = released "t1" 0 ∷ []

gathered : gather revoked open_release ≡ returns
unfolding gather Dict.get transition_id
gathered = refl

gather-complete_all_example :
    gather revoked (complete_all revoked (publish revoked open_release)) ≡ returns
gather-complete_all_example = gather-complete_all revoked open_release
