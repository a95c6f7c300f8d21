-- ===== src/Ownership/Lease/Round.antt =====
-- One round of a worker: how many shards it owns, and the keys of the table.
use price_streaming.Prelude.{
  Bool, Bool-cases, List, Option-cases, String, String_eq, [], add, ap, arith, difference, elem,
  elem-add, inl, inr, length, length-add, length-filter, not, refl, suc, zero, ℕ, ℕ_eq, ◌+◌, ◌-◌,
  ◌||◌, ◌∷◌, ◌≡◌, ◌≤◌,
}
use price_streaming.Dict
use price_streaming.Dict.{Dict, keys, IsFunctional, put-IsFunctional}
use price_streaming.Ownership.{PricingShardId}
use price_streaming.Ownership.Lease.{
  LeaseTable, Coordinator, is_owner, renewed_row, renew_rows, renew_owned, candidates, claimed_row,
  claim_rows, claim_available, add_all, round,
}
use price_streaming.Ownership.Lease.Rows.{length-candidates}

length-keys : (d : LeaseTable) → length (keys d) ≡ length d
length-keys [] = refl
length-keys ((k, v) ∷ d) = ap suc (length-keys d)

length-add_all :
    (xs owned : List PricingShardId) → length (add_all xs owned) ≤ length xs + length owned
unfolding add_all
length-add_all [] owned = omega arith
length-add_all (x ∷ xs) owned = omega (arith, length-add_all xs (add x owned), length-add x owned)

pub elem-add_all :
    (xs owned : List PricingShardId) (j : PricingShardId)
    → elem j (add_all xs owned) ≡ (elem j xs || elem j owned)
unfolding add_all
elem-add_all [] owned j = refl
elem-add_all (x ∷ xs) owned j = ground (arith, elem-add_all xs (add x owned) j, elem-add j x owned)

pub renew_rows-IsFunctional :
    (worker : String) (expiry : ℕ) (shards : List PricingShardId) (table : LeaseTable)
    → IsFunctional table
    → IsFunctional (renew_rows worker expiry shards table).0
unfolding renew_rows
renew_rows-IsFunctional worker expiry [] table f = f
renew_rows-IsFunctional worker expiry (s ∷ ss) table f = elim (Option-cases (Dict.get table s)) [
  | inl absent ↦ rw (absent, renew_rows) (renew_rows-IsFunctional worker expiry ss table f)
  | inr (row, found) ↦ elim (Bool-cases (is_owner worker row)) [
    | inl mine ↦
        rw (found, renew_rows, mine)
          (renew_rows-IsFunctional worker expiry ss (Dict.put table s (renewed_row expiry row))
            (put-IsFunctional table s (renewed_row expiry row) f))
    | inr other ↦ rw (found, renew_rows, other) (renew_rows-IsFunctional worker expiry ss table f)
  ]
]

pub claim_rows-IsFunctional :
    (worker : String) (expiry : ℕ) (rows table : LeaseTable)
    → IsFunctional table
    → IsFunctional (claim_rows worker expiry rows table)
unfolding claim_rows
claim_rows-IsFunctional worker expiry [] table f = f
claim_rows-IsFunctional worker expiry ((s, row) ∷ rest) table f =
    claim_rows-IsFunctional worker expiry rest (Dict.put table s (claimed_row worker expiry row))
      (put-IsFunctional table s (claimed_row worker expiry row) f)

pub length-claim_available :
    (c : Coordinator) (now : ℕ) (locked : PricingShardId → Bool) (limit : ℕ) (table : LeaseTable)
    → length (claim_available c now locked limit table).1 ≤ limit
unfolding claim_available
length-claim_available c now locked zero table = omega arith
length-claim_available c now locked (suc limit) table = omega (
  arith,
  length-keys (candidates now locked (suc limit) table),
  length-candidates now locked (suc limit) table,
)

-- A worker that owns no more shards than its limit does not exceed it by a round, whatever the
-- table and the times are.
pub length-round :
    (now later : ℕ) (locked : PricingShardId → Bool) (c : Coordinator) (table : LeaseTable)
    → length c.owned ≤ c.max_shards
    → length (round now later locked c table).1.owned ≤ c.max_shards
unfolding round
length-round now later locked c table h =
    let (table', lost) = renew_owned c now table in
    let kept = difference c.owned lost in
    let limit = c.max_shards - length kept in
    omega (
      arith,
      length-filter (λ x. not (elem x lost)) c.owned,
      length-add_all (claim_available c later locked limit table').1 kept,
      length-claim_available c later locked limit table',
    )
