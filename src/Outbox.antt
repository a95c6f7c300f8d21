-- ===== src/Outbox.antt =====
-- The outbox: application/outbox/use_case/publish_outbox_events.py over
-- infrastructure/.../outbox_repository/sql_alchemy_repository.py, `OutboxEvent` of
-- application/port/outbox_repository.py and `OutboxEventOrm` of infrastructure/postgres/models.py.
pub mod Claims
pub mod Publishing
pub mod Settled
pub mod Drained
pub mod Publishers
pub mod Polling
use price_streaming.Prelude.{
  Action, Bool, List, Option, String, String_eq, [], database_error, false, filter, if◌then◌else◌,
  leb, length, map, none, not, ok, raise, some, take, true, ℕ, ◌&&◌, ◌+◌, ◌==◌, ◌∷◌,
}
use price_streaming.Dict
use price_streaming.Dict.{Dict, values}

pub record OutboxEvent : Type 0 where
  pub event_id : String
  pub event_type : String
  pub schema_version : ℕ
  pub aggregate_type : String
  pub aggregate_id : String
  pub payload : String
  pub occurred_at : ℕ
  pub created_at : ℕ

-- `OutboxEventOrm`; the column `published` is written by nothing and is left out.
pub record OutboxRow : Type 0 where
  pub event : OutboxEvent
  pub claim_id : Option String
  pub claimed_until : Option ℕ
  pub attempt_count : ℕ
  pub published_at : Option ℕ

-- The rows under their primary key.
abbrev pub OutboxTable : Type 0
OutboxTable = Dict String OutboxRow

-- `add` with the insert that the commit of its transaction runs: a key that is there fails.
unfoldable pub add_event : OutboxEvent → Action OutboxTable Unit
add_event e table = elim (Dict.get table e.event_id) [
  | some _ ↦ (raise database_error, table)
  | none ↦ (
    ok tt,
    Dict.put table e.event_id (record {
      event = e;
      claim_id = none;
      claimed_until = none;
      attempt_count = 0;
      published_at = none;
    }),
  )
]

unfoldable pub is_none {ℓ} : {A : Type ℓ} → Option A → Bool
is_none none = true
is_none (some _) = false

-- `claimed_until IS NULL OR claimed_until <= now`
unfoldable pub claim_expired : ℕ → Option ℕ → Bool
claim_expired now none = true
claim_expired now (some t) = leb t now

-- The condition of `claim_pending`.
unfoldable pub is_pending : ℕ → OutboxRow → Bool
unfolding is_none claim_expired
is_pending now row = is_none row.published_at && claim_expired now row.claimed_until

-- `ORDER BY occurred_at`
unfoldable pub insert_row : String × OutboxRow → OutboxTable → OutboxTable
insert_row kv [] = kv ∷ []
insert_row kv (x ∷ xs) =
    let rest = insert_row kv xs in
    if leb kv.1.event.occurred_at x.1.event.occurred_at then kv ∷ x ∷ xs else x ∷ rest

unfoldable pub order_by_occurred_at : OutboxTable → OutboxTable
unfolding insert_row
order_by_occurred_at [] = []
order_by_occurred_at (x ∷ xs) = insert_row x (order_by_occurred_at xs)

unfoldable pub pending_rows : ℕ → (String → Bool) → ℕ → OutboxTable → OutboxTable
unfolding order_by_occurred_at is_pending
pending_rows now locked limit table =
    take limit
      (order_by_occurred_at (filter (λ kv. is_pending now kv.1 && not (locked kv.0)) table))

unfoldable pub claimed_row : String → ℕ → OutboxRow → OutboxRow
claimed_row claim_id claim_until row = record row {
  claim_id = some claim_id;
  claimed_until = some claim_until;
  attempt_count = row.attempt_count + 1;
}

unfoldable pub claim_rows : String → ℕ → OutboxTable → OutboxTable → OutboxTable
unfolding claimed_row
claim_rows claim_id claim_until [] table = table
claim_rows claim_id claim_until ((k, row) ∷ rest) table =
    claim_rows claim_id claim_until rest (Dict.put table k (claimed_row claim_id claim_until row))

-- `claim_pending`: the table, and the events claimed.
unfoldable pub claim_pending :
    ℕ → (String → Bool) → String → ℕ → ℕ → OutboxTable → OutboxTable × List OutboxEvent
unfolding pending_rows claim_rows
claim_pending now locked claim_id limit claim_until table =
    let rows = pending_rows now locked limit table in
    (claim_rows claim_id claim_until rows table, map (λ row. row.event) (values rows))

unfoldable pub has_claim : String → OutboxRow → Bool
has_claim claim_id row = elim row.claim_id [ none ↦ false | some c ↦ c == claim_id ]

-- `UPDATE … WHERE event_id = … AND claim_id = … AND published_at IS NULL`
unfoldable pub mark_published : String → String → ℕ → OutboxTable → OutboxTable
unfolding has_claim is_none
mark_published event_id claim_id published_at table = elim (Dict.get table event_id) [
  | none ↦ table
  | some row ↦
      if has_claim claim_id row && is_none row.published_at
      then Dict.put table event_id
          (record row { published_at = some published_at; claim_id = none; claimed_until = none })
      else table
]

unfoldable pub mark_failed : String → String → OutboxTable → OutboxTable
unfolding has_claim
mark_failed event_id claim_id table = elim (Dict.get table event_id) [
  | none ↦ table
  | some row ↦
      if has_claim claim_id row
      then Dict.put table event_id (record row { claim_id = none; claimed_until = none })
      else table
]

-- `PublishOutboxEventsResult`
pub record PublishResult : Type 0 where
  pub claimed : ℕ
  pub published : ℕ
  pub failed : ℕ

-- What publishing meets: for each event whether the broker takes it, and the time at which it was
-- published.
pub record Broker : Type 0 where
  pub accepts : OutboxEvent → Bool
  pub published_time : OutboxEvent → ℕ

-- The body of the loop of `execute`, whose own commits succeed.
unfoldable pub publish_one : Broker → String → OutboxEvent → OutboxTable → OutboxTable
unfolding mark_failed mark_published
publish_one b claim_id e table =
    if b.accepts e
    then mark_published e.event_id claim_id (b.published_time e) table
    else mark_failed e.event_id claim_id table

unfoldable pub publish_loop :
    Broker → String → List OutboxEvent → PublishResult → OutboxTable → PublishResult × OutboxTable
publish_loop b claim_id [] r table = (r, table)
publish_loop b claim_id (e ∷ es) r table =
    publish_loop b claim_id es
      (if b.accepts e
        then record r { published = r.published + 1 }
        else record r { failed = r.failed + 1 })
      (publish_one b claim_id e table)

-- `PublishOutboxEventsUseCase.execute`; a claim lasts thirty seconds, in microseconds.
unfoldable pub execute :
    Broker
    → (now : ℕ) → (locked : String → Bool) → (claim_id : String) → (limit : ℕ) → OutboxTable
    → PublishResult × OutboxTable
execute b now locked claim_id limit table =
    let (table', events) = claim_pending now locked claim_id limit (now + 30000000) table in
    publish_loop b claim_id events (record { claimed = length events; published = 0; failed = 0 })
      table'
