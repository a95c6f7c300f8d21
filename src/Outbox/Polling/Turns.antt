-- ===== src/Outbox/Polling/Turns.antt =====
-- What one turn of the worker leaves of a table in which everything unpublished is due.
use price_streaming.Prelude.{
  All, Bool-cases, List, Option-cases, String, String_eq, [], ap, arith, elem, false, if_ind,
  if◌then◌else◌, inl, inr, none, some, subst, sym, true, ℕ, ℕ_eq, ◌+◌, ◌∙◌, ◌∷◌, ◌≡◌, ◌⊎◌,
}
use price_streaming.Dict
use price_streaming.Dict.{All-entries, Dict, IsFunctional, keys, values}
use price_streaming.Outbox.{
  Broker, OutboxEvent, OutboxRow, OutboxTable, PublishResult, claim_expired, claim_pending, execute,
  is_none, pending_rows, publish_loop, publish_one,
}
use price_streaming.Outbox.Claims.{claim_rows-IsFunctional}
use price_streaming.Outbox.Settled.{settled, get-execute}
use price_streaming.Outbox.Publishers.Rows.{mark_published-IsFunctional, mark_failed-IsFunctional}

publish_one-IsFunctional :
    (b : Broker) (c : String) (e : OutboxEvent) (t : OutboxTable)
    → IsFunctional t
    → IsFunctional (publish_one b c e t)
unfolding publish_one
publish_one-IsFunctional b c e t f =
    if_ind IsFunctional (b.accepts e)
      (mark_published-IsFunctional e.event_id c t (b.published_time e) f)
      (mark_failed-IsFunctional e.event_id c t f)

publish_loop-IsFunctional :
    (b : Broker) (c : String) (es : List OutboxEvent) (r : PublishResult) (t : OutboxTable)
    → IsFunctional t
    → IsFunctional (publish_loop b c es r t).1
unfolding publish_loop
publish_loop-IsFunctional b c [] r t f = f
publish_loop-IsFunctional b c (e ∷ es) r t f =
    publish_loop-IsFunctional b c es _ (publish_one b c e t) (publish_one-IsFunctional b c e t f)

-- A table that has each row once and under its event's id, and nothing that is unpublished claimed
-- beyond `from`.
pub record IsDue (from : ℕ) (t : OutboxTable) : Type 0 where
  pub functional : IsFunctional t
  pub own : (j : String) (row : OutboxRow) → Dict.get t j ≡ some row → row.event.event_id ≡ j
  pub due :
      (j : String) (row : OutboxRow)
      → Dict.get t j ≡ some row
      → is_none row.published_at ≡ true
      → claim_expired from row.claimed_until ≡ true

own_rows :
    (t rows : OutboxTable)
    → ((j : String) (row : OutboxRow) → Dict.get t j ≡ some row → row.event.event_id ≡ j)
    → All (λ kv. Dict.get t kv.0 ≡ some kv.1) rows
    → All (λ kv. kv.1.event.event_id ≡ kv.0) rows
own_rows t [] own h = tt
own_rows t ((j, row) ∷ rows) own (found, h) = (own j row found, own_rows t rows own h)

settled_id : (b : Broker) (row : OutboxRow) → (settled b row).event.event_id ≡ row.event.event_id
unfolding settled
settled_id b row = ground arith

settled_expired :
    (b : Broker) (from : ℕ) (row : OutboxRow)
    → claim_expired from (settled b row).claimed_until ≡ true
unfolding settled claim_expired
settled_expired b from row = ground arith

module _ (b : Broker) (now : ℕ) (claim_id : String) (t : OutboxTable) (from : ℕ)
    (d : IsDue from t) where
  abbrev pub taken_keys : List String
  taken_keys = keys (pending_rows now (λ j. false) 100 t)

  abbrev pub after : OutboxTable
  after = (execute b now (λ j. false) claim_id 100 t).1

  pub get-after :
      (j : String)
      → Dict.get after j ≡ (
          if elem j taken_keys
          then elim (Dict.get t j) [ none ↦ none | some row ↦ some (settled b row) ]
          else Dict.get t j)
  get-after j =
      get-execute b now (λ j. false) claim_id 100 t j d.functional
        (own_rows t t d.own (All-entries t d.functional))

  after-IsFunctional : IsFunctional after
  unfolding execute claim_pending
  after-IsFunctional = publish_loop-IsFunctional b claim_id _ _ _ (
      claim_rows-IsFunctional claim_id (now + 30000000) (pending_rows now (λ j. false) 100 t) t
        d.functional)

  -- A row of the new table: the old one, or that one settled.
  pub row_before :
      (j : String) (row' : OutboxRow)
      → Dict.get after j ≡ some row'
      → (row : OutboxRow) × (Dict.get t j ≡ some row) × ((row' ≡ row) ⊎ (row' ≡ settled b row))
  row_before j row' h = elim (Option-cases (Dict.get t j)) [
    | inl missing ↦
        let g = get-after j in
        absurd (elim (Bool-cases (elem j taken_keys)) [
          | inl mine ↦ cc (sym (rw (mine, missing) at g) ∙ h)
          | inr other ↦ cc (sym ((rw other at g) ∙ missing) ∙ h)
        ])
    | inr (row, found) ↦ (
      row,
      found,
      elim (Bool-cases (elem j taken_keys)) [
        | inl mine ↦
            let g = get-after j in
            let e : some (settled b row) ≡ some row' = sym (rw (mine, found) at g) ∙ h in
            inr (cc (sym e))
        | inr other ↦
            let g = get-after j in
            let e : some row ≡ some row' = sym ((rw other at g) ∙ found) ∙ h in inl (cc (sym e))
      ],
    )
  ]

  pub after-IsDue : IsDue from after
  after-IsDue = record {
    functional = after-IsFunctional;
    own = λ j row' h.
        let (row, found, how) = row_before j row' h in
        elim how [
          | inl same ↦ ap (λ (x : OutboxRow). x.event.event_id) same ∙ d.own j row found
          | inr new ↦
              ap (λ (x : OutboxRow). x.event.event_id) new ∙ settled_id b row ∙ d.own j row found
        ];
    due = λ j row' h free.
        let (row, found, how) = row_before j row' h in
        elim how [
          | inl same ↦
              subst (λ (x : OutboxRow). claim_expired from x.claimed_until ≡ true) (sym same)
                (d.due j row found
                  (subst (λ (x : OutboxRow). is_none x.published_at ≡ true) same free))
          | inr new ↦
              subst (λ (x : OutboxRow). claim_expired from x.claimed_until ≡ true) (sym new)
                (settled_expired b from row)
        ];
  }
