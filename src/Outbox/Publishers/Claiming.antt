-- ===== src/Outbox/Publishers/Claiming.antt =====
-- What `claim_pending` makes of the row of a key, and what it returns.
use price_streaming.Prelude.{
  All, Bool, Bool-cases, String, String_eq, [], ap, arith, elem, false, inl, inr, map, refl, some,
  true, ℕ, ℕ_eq, ◌∙◌, ◌∷◌, ◌≡◌, ◌≤◌,
}
use price_streaming.Dict
use price_streaming.Dict.{IsFunctional, keys, values}
use price_streaming.Outbox.{
  OutboxEvent, OutboxRow, OutboxTable, claim_pending, claim_expired, claimed_row, is_none,
  pending_rows,
}
use price_streaming.Outbox.Claims.{
  All-pending_rows, All-first, claim_rows-IsFunctional, get-claim_rows, row_of_key,
}
use price_streaming.Outbox.Settled.{unpublished}
use price_streaming.Outbox.Publishers.Rows.{expires_by, RowFollows, Follows, Follows-refl}

-- The event stands in its row.
abbrev pub IsRecorded : OutboxTable → OutboxEvent → Type 0
IsRecorded t e = (row : OutboxRow) × (Dict.get t e.event_id ≡ some row) × (row.event ≡ e)

Follows-claimed :
    (bound until : ℕ) (claim_id j : String) (row : OutboxRow)
    → until ≤ bound
    → is_none row.published_at ≡ true
    → RowFollows bound false row (claimed_row claim_id until row)
unfolding claimed_row is_none expires_by claim_expired
Follows-claimed bound until claim_id j row h free tidy = (
  refl,
  (ground (arith, free), ground (arith, h)),
  λ p. absurd (cc (free, p)),
  λ p. ground (arith, free, p),
)

module _ (now limit until : ℕ) (locked : String → Bool) (claim_id : String) (t : OutboxTable)
    (f : IsFunctional t) where
  pub Follows-claim_pending :
      (bound : ℕ) (j : String)
      → until ≤ bound
      → Follows bound false j
          (Dict.get t j)
          (Dict.get (claim_pending now locked claim_id limit until t).0 j)
  unfolding claim_pending
  Follows-claim_pending bound j h =
      let rows = pending_rows now locked limit t in
      let all = All-pending_rows now limit locked t f in
      rw (get-claim_rows claim_id until t rows t j (All-first _ _ rows all))
        (elim (Bool-cases (elem j (keys rows))) [
          | inr other ↦ rw other (Follows-refl bound false j (Dict.get t j))
          | inl mine ↦
              let (row, (found, pending)) = row_of_key _ rows j all mine in
              rw (mine, found)
                (Follows-claimed bound until claim_id j row h
                  (unpublished now row (ground (arith, pending))))
        ])

  pub claim_pending-IsFunctional : IsFunctional (claim_pending now locked claim_id limit until t).0
  unfolding claim_pending
  claim_pending-IsFunctional =
      claim_rows-IsFunctional claim_id until (pending_rows now locked limit t) t f

  IsRecorded-rows :
      (P : String × OutboxRow → Type 0) (rows : OutboxTable)
      → ((j : String) (row : OutboxRow) → Dict.get t j ≡ some row → row.event.event_id ≡ j)
      → All (λ kv. (Dict.get t kv.0 ≡ some kv.1) × P kv) rows
      → All (IsRecorded t) (map (λ row. row.event) (values rows))
  IsRecorded-rows P [] own taken = tt
  IsRecorded-rows P ((k, row) ∷ rows) own taken = (
    (row, ap (Dict.get t) (own k row taken.0.0) ∙ taken.0.0, refl),
    IsRecorded-rows P rows own taken.1,
  )

  pub claim_pending-IsRecorded :
      ((j : String) (row : OutboxRow) → Dict.get t j ≡ some row → row.event.event_id ≡ j)
      → All (IsRecorded t) (claim_pending now locked claim_id limit until t).1
  unfolding claim_pending
  claim_pending-IsRecorded own =
      IsRecorded-rows _ (pending_rows now locked limit t) own
        (All-pending_rows now limit locked t f)
