-- ===== src/Outbox/Settled.antt =====
-- `PublishOutboxEventsUseCase.execute`: what a run leaves in each row.
use price_streaming.Prelude.{
  ==_iff, All, Bool, Bool-cases, Option, Option-cases, String, String_eq, [], ap, arith, elem,
  if◌then◌else◌, inl, inr, length, map, none, refl, some, true, ℕ, ℕ_eq, ◌&&◌, ◌+◌, ◌==◌, ◌∙◌, ◌∷◌,
  ◌≡◌,
}
use price_streaming.Dict
use price_streaming.Dict.{Dict, IsFunctional, get-put, keys, values}
use price_streaming.Outbox.{
  Broker, OutboxEvent, OutboxRow, OutboxTable, PublishResult, is_none, is_pending, pending_rows,
  has_claim, claimed_row, claim_rows, claim_pending, mark_published, mark_failed, publish_one,
  publish_loop, execute,
}
use price_streaming.Outbox.Claims.{All-pending_rows, get-claim_rows, All-first, row_of_key}

-- What a run makes of a row that it claimed: the event is published, or the claim is given back.
unfoldable pub settled : Broker → OutboxRow → OutboxRow
settled b row =
    if b.accepts row.event
    then record row {
      published_at = some (b.published_time row.event);
      claim_id = none;
      claimed_until = none;
      attempt_count = row.attempt_count + 1;
    }
    else record row { claim_id = none; claimed_until = none; attempt_count = row.attempt_count + 1 }

module _ (b : Broker) (claim_id : String) where
  -- What `publish_one` makes of the row of its event.
  settle_one : OutboxEvent → OutboxRow → OutboxRow
  settle_one e row =
      if b.accepts e
      then if has_claim claim_id row && is_none row.published_at
        then record row {
          published_at = some (b.published_time e);
          claim_id = none;
          claimed_until = none;
        }
        else row
      else if has_claim claim_id row
      then record row { claim_id = none; claimed_until = none }
      else row

  get-publish_one :
      (e : OutboxEvent) (table : OutboxTable) (j : String)
      → Dict.get (publish_one b claim_id e table) j ≡ (
          if e.event_id == j
          then elim (Dict.get table j) [ none ↦ none | some row ↦ some (settle_one e row) ]
          else Dict.get table j)
  unfolding publish_one mark_published mark_failed settle_one
  get-publish_one e table j = elim (Option-cases (Dict.get table e.event_id)) [
    | inl missing ↦ ground (arith, missing, ==_iff e.event_id j)
    | inr (row, found) ↦ ground (
      arith,
      found,
      ==_iff e.event_id j,
      get-put table e.event_id j (record row {
        published_at = some (b.published_time e);
        claim_id = none;
        claimed_until = none;
      }),
      get-put table e.event_id j (record row { claim_id = none; claimed_until = none }),
    )
  ]

  settle_one-twice :
      (e : OutboxEvent) (row : OutboxRow) → settle_one e (settle_one e row) ≡ settle_one e row
  unfolding settle_one has_claim is_none
  settle_one-twice e row = ground arith

  -- The row of a key after the loop, of what it was before it and of the row that was claimed.
  settle_from : (claimed current : Option OutboxRow) → Option OutboxRow
  settle_from none current = none
  settle_from (some row) none = none
  settle_from (some row) (some q) = some (settle_one row.event q)

  settle_from-twice :
      (claimed : Option OutboxRow) (row : OutboxRow) (current : Option OutboxRow)
      → claimed ≡ some row
      → settle_from claimed (settle_from claimed current) ≡ settle_from claimed current
  unfolding settle_from
  settle_from-twice none row current h = refl
  settle_from-twice (some q) row none h = refl
  settle_from-twice (some q) row (some x) h = ap some (settle_one-twice q.event x)

  settle_from-some :
      (row : OutboxRow) (current : Option OutboxRow)
      → settle_from (some row) current
        ≡ elim current [ none ↦ none | some q ↦ some (settle_one row.event q) ]
  unfolding settle_from
  settle_from-some row none = refl
  settle_from-some row (some q) = refl

  get-publish_loop :
      (t₀ rows : OutboxTable) (r : PublishResult) (table : OutboxTable) (j : String)
      → All (λ kv. (Dict.get t₀ kv.0 ≡ some kv.1) × (kv.1.event.event_id ≡ kv.0)) rows
      → Dict.get (publish_loop b claim_id (map (λ row. row.event) (values rows)) r table).1 j ≡ (
          if elem j (keys rows)
          then settle_from (Dict.get t₀ j) (Dict.get table j)
          else Dict.get table j)
  unfolding publish_loop
  get-publish_loop t₀ [] r table j h = refl
  get-publish_loop t₀ ((k, row) ∷ rest) r table j ((found, own), h) =
      let e = row.event in
      let step = publish_one b claim_id e table in
      let counted =
        if b.accepts e
        then record r { published = r.published + 1 }
        else record r { failed = r.failed + 1 } in
      let ih = get-publish_loop t₀ rest counted step j h in
      let one = get-publish_one e table j in
      elim (Bool-cases (k == j)) [
        | inr other ↦
            let kept : Dict.get step j ≡ Dict.get table j = ground (arith, one, own, other) in
            rw (other, ← kept) ih
        | inl same ↦
            let at_j : Dict.get t₀ j ≡ some row = rw ((==_iff k j).0 same) at found in
            let now : Dict.get step j ≡ settle_from (Dict.get t₀ j) (Dict.get table j) =
              rw at_j (ground (arith, one, own, same, settle_from-some row (Dict.get table j))) in
            rw same (elim (Bool-cases (elem j (keys rest))) [
              | inl again ↦
                  (rw (again, now) at ih)
                  ∙ settle_from-twice (Dict.get t₀ j) row (Dict.get table j) at_j
              | inr last ↦ (rw last at ih) ∙ now
            ])
      ]

claimed-settled :
    (b : Broker) (claim_id : String) (until : ℕ) (row : OutboxRow)
    → is_none row.published_at ≡ true
    → settle_one b claim_id row.event (claimed_row claim_id until row) ≡ settled b row
unfolding settle_one settled claimed_row has_claim
claimed-settled b claim_id until row h = ground (arith, h, ==_iff claim_id claim_id)

pub unpublished :
    (now : ℕ) (row : OutboxRow) → is_pending now row ≡ true → is_none row.published_at ≡ true
unfolding is_pending
unpublished now row h = ground (arith, h)

-- The rows taken stand under their event's id as well.
owned :
    (table : OutboxTable) (Q : String × OutboxRow → Type 0) (rows : OutboxTable)
    → All (λ kv. kv.1.event.event_id ≡ kv.0) table
    → All (λ kv. (Dict.get table kv.0 ≡ some kv.1) × Q kv) rows
    → All (λ kv. (Dict.get table kv.0 ≡ some kv.1) × (kv.1.event.event_id ≡ kv.0)) rows
owned table Q [] own h = tt
owned table Q ((k, row) ∷ rest) own ((found, q), h) = (
  (found, Dict.All-of_get (λ i r. r.event.event_id ≡ i) table k own found),
  owned table Q rest own h,
)

-- After a run of the publisher over a table that has each row under its event's id, an event that
-- was among the pending rows taken is marked as published at the broker's time if the broker took it,
-- and otherwise free to be claimed again, with one more attempt in both cases; every other row is
-- what it was.
pub get-execute :
    (b : Broker) (now : ℕ) (locked : String → Bool) (claim_id : String) (limit : ℕ)
    (table : OutboxTable) (j : String)
    → IsFunctional table
    → All (λ kv. kv.1.event.event_id ≡ kv.0) table
    → Dict.get (execute b now locked claim_id limit table).1 j ≡ (
        if elem j (keys (pending_rows now locked limit table))
        then elim (Dict.get table j) [ none ↦ none | some row ↦ some (settled b row) ]
        else Dict.get table j)
unfolding execute claim_pending
get-execute b now locked claim_id limit table j f own =
    let rows = pending_rows now locked limit table in
    let all = All-pending_rows now limit locked table f in
    let claimed =
      get-claim_rows claim_id (now + 30000000) table rows table j (All-first _ _ rows all) in
    let after =
      get-publish_loop b claim_id table rows
        (record {
          claimed = length (map (λ (row : OutboxRow). row.event) (values rows));
          published = 0;
          failed = 0;
        })
        (claim_rows claim_id (now + 30000000) rows table) j (owned table _ rows own all) in
    elim (Bool-cases (elem j (keys rows))) [
      | inr no_claim ↦ rw no_claim ((rw no_claim at after) ∙ (rw no_claim at claimed))
      | inl mine ↦
          let (row, (found, pending)) = row_of_key _ rows j all mine in
          let now_settled =
            claimed-settled b claim_id (now + 30000000) row
              (unpublished now row (ground (arith, pending))) in
          rw (mine, found)
            ((rw (mine, found, (rw (mine, found) at claimed)) at after)
              ∙ settle_from-some b claim_id row (some (claimed_row claim_id (now + 30000000) row))
              ∙ ap some now_settled)
    ]
