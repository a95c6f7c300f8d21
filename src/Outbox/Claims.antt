-- ===== src/Outbox/Claims.antt =====
-- `claim_pending`: which rows a publisher of the outbox takes, and what the others see of it.
use price_streaming.Prelude.{
  ==_iff, All, All-take, Bool, Bool-cases, List, String, String_eq, [], arith, elem, false, filter,
  if_ind, if◌then◌else◌, inl, inr, leb, none, not, refl, some, subst, true, ℕ, ℕ_eq, ◌&&◌, ◌<◌,
  ◌==◌, ◌∷◌, ◌≡◌,
}
use price_streaming.Dict
use price_streaming.Dict.{Dict, keys, get-put, put-IsFunctional, IsFunctional, All-entries}
use price_streaming.Outbox.{
  OutboxRow, OutboxTable, claim_expired, is_pending, insert_row, order_by_occurred_at, pending_rows,
  claimed_row, claim_rows, claim_pending,
}

module _ (P : String × OutboxRow → Type 0) where
  All-insert_row :
      (kv : String × OutboxRow) (xs : OutboxTable) → P kv → All P xs → All P (insert_row kv xs)
  unfolding insert_row
  All-insert_row kv [] h hs = (h, tt)
  All-insert_row kv (x ∷ xs) h hs =
      if_ind (All P) (leb kv.1.event.occurred_at x.1.event.occurred_at) (h, hs)
        (hs.0, All-insert_row kv xs h hs.1)

  All-order_by_occurred_at : (xs : OutboxTable) → All P xs → All P (order_by_occurred_at xs)
  unfolding order_by_occurred_at
  All-order_by_occurred_at [] hs = tt
  All-order_by_occurred_at (x ∷ xs) hs =
      All-insert_row x (order_by_occurred_at xs) hs.0 (All-order_by_occurred_at xs hs.1)

  All-filter_kept :
      (p : String × OutboxRow → Bool) (xs : OutboxTable)
      → All P xs
      → All (λ kv. P kv × (p kv ≡ true)) (filter p xs)
  All-filter_kept p [] h = tt
  All-filter_kept p (x ∷ xs) h = elim (Bool-cases (p x)) [
    | inl kept ↦ rw kept ((h.0, kept), All-filter_kept p xs h.1)
    | inr dropped ↦ rw dropped (All-filter_kept p xs h.1)
  ]

pub All-pending_rows :
    (now limit : ℕ) (locked : String → Bool) (table : OutboxTable)
    → IsFunctional table
    → All
        (λ kv.
          (Dict.get table kv.0 ≡ some kv.1) × ((is_pending now kv.1 && not (locked kv.0)) ≡ true))
        (pending_rows now locked limit table)
unfolding pending_rows
All-pending_rows now limit locked table f =
    All-take _ limit _
      (All-order_by_occurred_at _ _ (All-filter_kept _ _ table (All-entries table f)))

module _ (claim_id : String) (claim_until : ℕ) where
  pub get-claim_rows :
      (t₀ : OutboxTable) (rows table : OutboxTable) (j : String)
      → All (λ kv. Dict.get t₀ kv.0 ≡ some kv.1) rows
      → Dict.get (claim_rows claim_id claim_until rows table) j ≡ (
          if elem j (keys rows)
          then elim (Dict.get t₀ j) [
            | none ↦ none
            | some row ↦ some (claimed_row claim_id claim_until row)
          ]
          else Dict.get table j)
  unfolding claim_rows
  get-claim_rows t₀ [] table j h = refl
  get-claim_rows t₀ ((k, row) ∷ rest) table j h =
      let put = Dict.put table k (claimed_row claim_id claim_until row) in
      ground (
        arith,
        h.0,
        get-claim_rows t₀ rest put j h.1,
        get-put table k j (claimed_row claim_id claim_until row),
        ==_iff k j,
      )

  pub claim_rows-IsFunctional :
      (rows table : OutboxTable)
      → IsFunctional table
      → IsFunctional (claim_rows claim_id claim_until rows table)
  unfolding claim_rows
  claim_rows-IsFunctional [] table f = f
  claim_rows-IsFunctional ((k, row) ∷ rest) table f =
      claim_rows-IsFunctional rest (Dict.put table k (claimed_row claim_id claim_until row))
        (put-IsFunctional table k (claimed_row claim_id claim_until row) f)

pub row_of_key :
    (P : String × OutboxRow → Type 0) (rows : OutboxTable) (j : String)
    → All P rows
    → elem j (keys rows) ≡ true
    → (row : OutboxRow) × P (j, row)
row_of_key P [] j h m = absurd (cc m)
row_of_key P ((k, row) ∷ rows) j h m = elim (Bool-cases (k == j)) [
  | inl same ↦ (row, subst (λ i. P (i, row)) ((==_iff k j).0 same) h.0)
  | inr other ↦ row_of_key P rows j h.1 (ground (arith, m, other))
]

pub All-first : {A : Type 0} (P Q : A → Type 0) (xs : List A) → All (λ x. P x × Q x) xs → All P xs
All-first P Q [] h = tt
All-first P Q (x ∷ xs) h = (h.0.0, All-first P Q xs h.1)

-- A row that is claimed until a later time is not pending.
claimed_row-is_pending :
    (claim_id : String) (claim_until now : ℕ) (row : OutboxRow)
    → now < claim_until
    → is_pending now (claimed_row claim_id claim_until row) ≡ false
unfolding is_pending claimed_row claim_expired
claimed_row-is_pending claim_id claim_until now row later = ground arith

-- While a claim lasts, a later claim, of any publisher, takes none of the rows that the first
-- one took: two publishers never hold the same event.
pub claims_disjoint :
    (claim_id : String) (now now' claim_until limit limit' : ℕ) (locked locked' : String → Bool)
    (table : OutboxTable) (j : String)
    → IsFunctional table
    → now' < claim_until
    → elem j (keys (pending_rows now locked limit table)) ≡ true
    → elem j (
        keys (
          pending_rows now' locked' limit'
            (claim_pending now locked claim_id limit claim_until table).0))
      ≡ false
unfolding claim_pending
claims_disjoint claim_id now now' claim_until limit limit' locked locked' table j f later first =
    let rows = pending_rows now locked limit table in
    let table' = claim_rows claim_id claim_until rows table in
    let all = All-pending_rows now limit locked table f in
    let (row, at_row) = row_of_key _ rows j all first in
    let after = get-claim_rows claim_id claim_until table rows table j (All-first _ _ rows all) in
    elim (Bool-cases (elem j (keys (pending_rows now' locked' limit' table')))) [
      | inr fresh ↦ fresh
      | inl again ↦
          let (row', at_row') =
            row_of_key _ (pending_rows now' locked' limit' table') j
              (All-pending_rows now' limit' locked' table'
                (claim_rows-IsFunctional claim_id claim_until rows table f))
              again in
          absurd (
            ground (
              arith,
              after,
              first,
              at_row.0,
              at_row'.0,
              at_row'.1,
              claimed_row-is_pending claim_id claim_until now' row later,
            ))
    ]
