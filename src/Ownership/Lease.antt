-- ===== src/Ownership/Lease.antt =====
-- infrastructure/application/pricing/adapter/pricing_shared_ownership/postgres: leases on shards in
-- a table that all workers share (`PricingShardLeaseOrm` of infrastructure/postgres/models.py).
pub mod Rows
pub mod Round
pub mod Cluster
use price_streaming.Prelude.{
  Bool, List, Option, String, String_eq, [], add, difference, false, filter, if◌then◌else◌, leb,
  length, ltb, none, not, some, suc, take, true, zero, ℕ, ℕ_eq, ◌&&◌, ◌++◌, ◌+◌, ◌-◌, ◌==◌, ◌∷◌,
}
use price_streaming.Dict
use price_streaming.Dict.{Dict, keys}
use price_streaming.Ownership.{PricingShardId, TransitionId, OwnershipChange, acquired, released}

pub record LeaseRow : Type 0 where
  pub owner_id : Option String
  pub lease_until : Option ℕ
  pub epoch : ℕ

abbrev pub LeaseTable : Type 0
LeaseTable = Dict PricingShardId LeaseRow

-- `PostgresPricingShardOwnership`; times are numbers of one clock.
pub record Coordinator : Type 0 where
  pub worker_id : String
  pub lease_duration : ℕ
  pub max_shards : ℕ
  pub owned : List PricingShardId

unfoldable pub is_owner : String → LeaseRow → Bool
is_owner worker row = elim row.owner_id [ none ↦ false | some w ↦ w == worker ]

unfoldable pub renewed_row : ℕ → LeaseRow → LeaseRow
renewed_row new_expiry row = record row { lease_until = some new_expiry }

-- The loop of `_renew_owned`: the table, and `successfully_renewed`.
unfoldable pub renew_rows :
    String → ℕ → List PricingShardId → LeaseTable → LeaseTable × List PricingShardId
unfolding is_owner renewed_row
renew_rows worker new_expiry [] table = (table, [])
renew_rows worker new_expiry (shard ∷ rest) table = elim (Dict.get table shard) [
  | none ↦ renew_rows worker new_expiry rest table
  | some row ↦
      if is_owner worker row
      then (let (table', renewed) =
            renew_rows worker new_expiry rest (Dict.put table shard (renewed_row new_expiry row)) in
          (table', shard ∷ renewed))
      else renew_rows worker new_expiry rest table
]

-- `_renew_owned`: the table, and the shards that are lost.
unfoldable pub renew_owned : Coordinator → ℕ → LeaseTable → LeaseTable × List PricingShardId
unfolding renew_rows
renew_owned c now table =
    let (table', renewed) = renew_rows c.worker_id (now + c.lease_duration) c.owned table in
    (table', difference c.owned renewed)

-- `owner_id IS NULL OR lease_until < now`
unfoldable pub is_available : ℕ → LeaseRow → Bool
is_available now row = elim row.owner_id [
  | none ↦ true
  | some w ↦ elim row.lease_until [ none ↦ false | some t ↦ ltb t now ]
]

-- `ORDER BY shard_id`
unfoldable pub insert_row : PricingShardId × LeaseRow → LeaseTable → LeaseTable
insert_row kv [] = kv ∷ []
insert_row kv (x ∷ xs) =
    let rest = insert_row kv xs in if leb kv.0 x.0 then kv ∷ x ∷ xs else x ∷ rest

unfoldable pub order_by_shard : LeaseTable → LeaseTable
unfolding insert_row
order_by_shard [] = []
order_by_shard (x ∷ xs) = insert_row x (order_by_shard xs)

-- The rows that the query of `_claim_available` locks; it skips those that others hold locked.
unfoldable pub candidates : ℕ → (PricingShardId → Bool) → ℕ → LeaseTable → LeaseTable
unfolding order_by_shard is_available
candidates now locked limit table =
    take limit (order_by_shard (filter (λ kv. is_available now kv.1 && not (locked kv.0)) table))

unfoldable pub claimed_row : String → ℕ → LeaseRow → LeaseRow
claimed_row worker new_expiry row = record {
  owner_id = some worker;
  lease_until = some new_expiry;
  epoch = row.epoch + 1;
}

-- The loop of `_claim_available`.
unfoldable pub claim_rows : String → ℕ → LeaseTable → LeaseTable → LeaseTable
unfolding claimed_row
claim_rows worker new_expiry [] table = table
claim_rows worker new_expiry ((shard, row) ∷ rest) table =
    claim_rows worker new_expiry rest (Dict.put table shard (claimed_row worker new_expiry row))

-- `_claim_available`: the table, and the shards that were acquired.
unfoldable pub claim_available :
    Coordinator → ℕ → (PricingShardId → Bool) → ℕ → LeaseTable → LeaseTable × List PricingShardId
unfolding claim_rows candidates
claim_available c now locked zero table = (table, [])
claim_available c now locked (suc limit) table =
    let rows = candidates now locked (suc limit) table in
    (claim_rows c.worker_id (now + c.lease_duration) rows table, keys rows)

-- `self._owned.add` for each acquired shard.
unfoldable pub add_all : List PricingShardId → List PricingShardId → List PricingShardId
add_all [] owned = owned
add_all (shard ∷ rest) owned = add_all rest (add shard owned)

-- One round of the loop of `changes`, the renewal at one time and the claim at a later one: the
-- table, the coordinator, the shards released and the shards acquired.
unfoldable pub round :
    ℕ
    → ℕ
    → (PricingShardId → Bool)
    → Coordinator
    → LeaseTable
    → LeaseTable × Coordinator × List PricingShardId × List PricingShardId
unfolding renew_owned claim_available add_all
round now later locked c table =
    let (table', lost) = renew_owned c now table in
    let kept = difference c.owned lost in
    let (table'', taken) = claim_available c later locked (c.max_shards - length kept) table' in
    (table'', record c { owned = add_all taken kept }, lost, taken)

-- The changes that a round yields, each under a fresh transition id.
unfoldable pub yields :
    (ℕ → TransitionId)
    → ℕ
    → (TransitionId → PricingShardId → OwnershipChange)
    → List PricingShardId
    → List OwnershipChange
yields uuid n kind [] = []
yields uuid n kind (shard ∷ rest) = kind (uuid n) shard ∷ yields uuid (n + 1) kind rest

unfoldable pub round_changes :
    (ℕ → TransitionId) → List PricingShardId → List PricingShardId → List OwnershipChange
unfolding yields
round_changes uuid lost taken =
    yields uuid 0 released lost ++ yields uuid (length lost) acquired taken
