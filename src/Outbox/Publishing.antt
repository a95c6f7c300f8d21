-- ===== src/Outbox/Publishing.antt =====
-- `PublishOutboxEventsUseCase.execute`: the counts of its result.
use price_streaming.Prelude.{
  Bool, List, String, String_eq, [], arith, if◌then◌else◌, length, length-take, map, refl, ℕ, ℕ_eq,
  ◌+◌, ◌∷◌, ◌≡◌, ◌≤◌,
}
use price_streaming.Dict.{Dict, values}
use price_streaming.Outbox.{
  Broker, OutboxEvent, OutboxTable, PublishResult, pending_rows, claim_pending, publish_one,
  publish_loop, execute,
}

pub counts-publish_loop :
    (b : Broker) (claim_id : String) (es : List OutboxEvent) (r : PublishResult)
    (table : OutboxTable)
    → ((publish_loop b claim_id es r table).0.published
          + (publish_loop b claim_id es r table).0.failed
        ≡ r.published + r.failed + length es)
      × ((publish_loop b claim_id es r table).0.claimed ≡ r.claimed)
unfolding publish_loop
counts-publish_loop b claim_id [] r table = (omega arith, refl)
counts-publish_loop b claim_id (e ∷ es) r table =
    let ih =
      counts-publish_loop b claim_id es
        (if b.accepts e
          then record r { published = r.published + 1 }
          else record r { failed = r.failed + 1 })
        (publish_one b claim_id e table) in
    (ground (arith, ih.0), ground (arith, ih.1))

pub length-values : {K V : Type 0} (d : Dict K V) → length (values d) ≡ length d
length-values [] = refl
length-values ((k, v) ∷ d) = omega (arith, length-values d)

pub length-map : {A B : Type 0} (f : A → B) (xs : List A) → length (map f xs) ≡ length xs
length-map f [] = refl
length-map f (x ∷ xs) = omega (arith, length-map f xs)

length-pending_rows :
    (now limit : ℕ) (locked : String → Bool) (table : OutboxTable)
    → length (pending_rows now locked limit table) ≤ limit
unfolding pending_rows
length-pending_rows now limit locked table = length-take limit _

length-claimed :
    (now limit until : ℕ) (locked : String → Bool) (claim_id : String) (table : OutboxTable)
    → length (claim_pending now locked claim_id limit until table).1 ≤ limit
unfolding claim_pending
length-claimed now limit until locked claim_id table =
    let rows = pending_rows now locked limit table in
    omega (
      arith,
      length-map (λ row. row.event) (values rows),
      length-values rows,
      length-pending_rows now limit locked table,
    )

-- A run of the publisher claims at most `limit` events, and counts each event that it claimed once,
-- as published or as failed.
pub counts-execute :
    (b : Broker) (now limit : ℕ) (locked : String → Bool) (claim_id : String) (table : OutboxTable)
    → ((execute b now locked claim_id limit table).0.published
          + (execute b now locked claim_id limit table).0.failed
        ≡ (execute b now locked claim_id limit table).0.claimed)
      × ((execute b now locked claim_id limit table).0.claimed ≤ limit)
unfolding execute
counts-execute b now limit locked claim_id table =
    let (table', events) = claim_pending now locked claim_id limit (now + 30000000) table in
    let r =
      counts-publish_loop b claim_id events
        (record { claimed = length events; published = 0; failed = 0 }) table' in
    (
      omega (arith, r.0, r.1),
      omega (arith, r.1, length-claimed now limit (now + 30000000) locked claim_id table),
    )
