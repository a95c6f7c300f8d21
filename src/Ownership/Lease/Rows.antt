-- ===== src/Ownership/Lease/Rows.antt =====
-- What a renewal and a claim do to each row of the lease table.
use price_streaming.Prelude.{
  ==_iff, All, All-take, Bool, Bool-cases, List, Option, Option-cases, String, String_eq, [], arith,
  elem, false, filter, if_ind, if◌then◌else◌, inl, inr, leb, length, length-take, nat_eq, none, not,
  refl, some, subst, true, ℕ, ℕ_eq, ◌&&◌, ◌∷◌, ◌≡◌, ◌≤◌,
}
use price_streaming.Dict
use price_streaming.Dict.{Dict, keys, get-put, IsFunctional, All-entries}
use price_streaming.Ownership.{PricingShardId}
use price_streaming.Ownership.Lease.{
  LeaseRow, LeaseTable, is_owner, renewed_row, renew_rows, is_available, insert_row, order_by_shard,
  candidates, claimed_row, claim_rows,
}

-- Whether the row of a shard, if there is one, has this owner.
unfoldable pub owns : String → Option LeaseRow → Bool
owns worker none = false
owns worker (some row) = is_owner worker row

abbrev pub on_row : (LeaseRow → LeaseRow) → Option LeaseRow → Option LeaseRow
on_row f none = none
on_row f (some row) = some (f row)

module _ (worker : String) (new_expiry : ℕ) where
  is_owner-renewed_row :
      (row : LeaseRow) → is_owner worker (renewed_row new_expiry row) ≡ is_owner worker row
  unfolding is_owner renewed_row
  is_owner-renewed_row row = refl

  renewed_row-renewed_row :
      (row : LeaseRow)
      → renewed_row new_expiry (renewed_row new_expiry row) ≡ renewed_row new_expiry row
  unfolding renewed_row
  renewed_row-renewed_row row = refl

  -- A renewal extends exactly the rows of the listed shards that have the worker as their owner.
  pub get-renew_rows :
      (shards : List PricingShardId) (table : LeaseTable) (j : PricingShardId)
      → Dict.get (renew_rows worker new_expiry shards table).0 j ≡ (
          if elem j shards && owns worker (Dict.get table j)
          then on_row (renewed_row new_expiry) (Dict.get table j)
          else Dict.get table j)
  unfolding renew_rows owns
  get-renew_rows [] table j = refl
  get-renew_rows (s ∷ ss) table j = elim (Option-cases (Dict.get table s)) [
    | inl absent ↦ ground (arith, absent, get-renew_rows ss table j, ==_iff s j)
    | inr (row, found) ↦ ground (
      arith,
      found,
      get-renew_rows ss table j,
      get-renew_rows ss (Dict.put table s (renewed_row new_expiry row)) j,
      get-put table s j (renewed_row new_expiry row),
      ==_iff s j,
      is_owner-renewed_row row,
      renewed_row-renewed_row row,
    )
  ]

  -- The shards that it reports are the listed ones whose rows have the worker as their owner.
  pub elem-renew_rows :
      (shards : List PricingShardId) (table : LeaseTable) (j : PricingShardId)
      → elem j (renew_rows worker new_expiry shards table).1
        ≡ (elem j shards && owns worker (Dict.get table j))
  unfolding renew_rows owns
  elem-renew_rows [] table j = refl
  elem-renew_rows (s ∷ ss) table j = elim (Option-cases (Dict.get table s)) [
    | inl absent ↦ ground (arith, absent, elem-renew_rows ss table j, ==_iff s j)
    | inr (row, found) ↦ ground (
      arith,
      found,
      elem-renew_rows ss table j,
      elem-renew_rows ss (Dict.put table s (renewed_row new_expiry row)) j,
      get-put table s j (renewed_row new_expiry row),
      ==_iff s j,
      is_owner-renewed_row row,
    )
  ]

  -- A claim of rows of a table gives each of them the worker, the new expiry and the next epoch.
  pub get-claim_rows :
      (t₀ : LeaseTable) (rows table : LeaseTable) (j : PricingShardId)
      → All (λ kv. Dict.get t₀ kv.0 ≡ some kv.1) rows
      → Dict.get (claim_rows worker new_expiry rows table) j ≡ (
          if elem j (keys rows)
          then on_row (claimed_row worker new_expiry) (Dict.get t₀ j)
          else Dict.get table j)
  unfolding claim_rows
  get-claim_rows t₀ [] table j h = refl
  get-claim_rows t₀ ((s, row) ∷ rest) table j h =
      let put = Dict.put table s (claimed_row worker new_expiry row) in
      ground (
        arith,
        h.0,
        get-claim_rows t₀ rest put j h.1,
        get-put table s j (claimed_row worker new_expiry row),
        ==_iff s j,
      )

module _ (P : PricingShardId × LeaseRow → Type 0) where
  All-insert_row :
      (kv : PricingShardId × LeaseRow) (xs : LeaseTable)
      → P kv
      → All P xs
      → All P (insert_row kv xs)
  unfolding insert_row
  All-insert_row kv [] h hs = (h, tt)
  All-insert_row kv (x ∷ xs) h hs =
      if_ind (All P) (leb kv.0 x.0) (h, hs) (hs.0, All-insert_row kv xs h hs.1)

  All-order_by_shard : (xs : LeaseTable) → All P xs → All P (order_by_shard xs)
  unfolding order_by_shard
  All-order_by_shard [] hs = tt
  All-order_by_shard (x ∷ xs) hs =
      All-insert_row x (order_by_shard xs) hs.0 (All-order_by_shard xs hs.1)

-- What holds of a table's entries holds of those that a filter keeps, and so does its test.
All-filter_both :
    (P : PricingShardId × LeaseRow → Type 0) (p : PricingShardId × LeaseRow → Bool)
    (xs : LeaseTable)
    → All P xs
    → All (λ kv. P kv × (p kv ≡ true)) (filter p xs)
All-filter_both P p [] h = tt
All-filter_both P p (x ∷ xs) h = elim (Bool-cases (p x)) [
  | inl kept ↦ rw kept ((h.0, kept), All-filter_both P p xs h.1)
  | inr dropped ↦ rw dropped (All-filter_both P p xs h.1)
]

module _ (now : ℕ) (locked : PricingShardId → Bool) (limit : ℕ) where
  -- Each row that a claim takes stands in the table, was free or expired, and was not locked.
  pub All-candidates :
      (table : LeaseTable)
      → IsFunctional table
      → All
          (λ kv.
            (Dict.get table kv.0 ≡ some kv.1)
            × ((is_available now kv.1 && not (locked kv.0)) ≡ true))
          (candidates now locked limit table)
  unfolding candidates
  All-candidates table f =
      All-take _ limit _ (All-order_by_shard _ _ (All-filter_both _ _ table (All-entries table f)))

  pub length-candidates : (table : LeaseTable) → length (candidates now locked limit table) ≤ limit
  unfolding candidates
  length-candidates table = length-take limit _

-- Each key of some rows that satisfy a predicate has such a row.
pub row_of_key :
    (P : PricingShardId × LeaseRow → Type 0) (rows : LeaseTable) (j : PricingShardId)
    → All P rows
    → elem j (keys rows) ≡ true
    → (row : LeaseRow) × P (j, row)
row_of_key P [] j h m = absurd (cc m)
row_of_key P ((k, row) ∷ rows) j h m = elim (Bool-cases (nat_eq k j)) [
  | inl same ↦ (row, subst (λ i. P (i, row)) ((==_iff k j).0 same) h.0)
  | inr other ↦ row_of_key P rows j h.1 (rw other at m)
]
