-- ===== src/Outbox/Publishers.antt =====
-- Several publishers over one outbox: `PublishOutboxEventsUseCase.execute` in the steps between its
-- awaits, each transaction one step, over infrastructure/.../outbox_delivery_uow. Steps of different
-- publishers interleave in any order, and each run may end at any of them.
pub mod Rows
pub mod Claiming
pub mod Held
pub mod Kept
pub mod Delivered
pub mod Run
use price_streaming.Prelude.{
  Bool, List, String, String_eq, [], if◌then◌else◌, ℕ, ℕ_eq, ◌+◌, ◌==◌, ◌∷◌, ◌≡◌,
}
use price_streaming.Dict
use price_streaming.Outbox.{
  OutboxEvent, OutboxTable, add_event, claim_pending, mark_published, mark_failed,
}

-- Where a publisher is in `execute`: between two runs, before the claim with the time that it read
-- first, at the head of its loop with the events left, or behind the broker's answer to an event.
pub data Phase : Type 0 where
  idle : Phase
  started : (claim_id : String) (began : ℕ) → Phase
  looping : (claim_id : String) (events : List OutboxEvent) → Phase
  accepted refused : (claim_id : String) (event : OutboxEvent) (events : List OutboxEvent) → Phase

-- `sent` holds the events that the broker took, the last one first.
pub record Relay : Type 0 where
  pub clock : ℕ
  pub table : OutboxTable
  pub sent : List OutboxEvent
  pub phase : ℕ → Phase

unfoldable pub set_phase : ℕ → Phase → (ℕ → Phase) → ℕ → Phase
set_phase i p phase j = if i == j then p else phase j

unfoldable pub claim_until : ℕ → ℕ
claim_until began = began + 30000000

-- The first transaction of `execute`, committed.
unfoldable pub claim_events : ℕ → (String → Bool) → String → ℕ → ℕ → Relay → Relay
unfolding set_phase claim_until
claim_events i locked claim_id began limit r =
    let (table, events) = claim_pending r.clock locked claim_id limit (claim_until began) r.table in
    record r { table = table; phase = set_phase i (looping claim_id events) r.phase }

-- A step of publisher `i`, or of what is round it: time passes, and the service commits an event.
pub data RelayStep (r : Relay) : Relay → Type 0 where
  tick : (n : ℕ) → RelayStep r (record r { clock = r.clock + n })
  recorded : (e : OutboxEvent) → RelayStep r (record r { table = (add_event e r.table).1 })
  begun :
      (i : ℕ) (claim_id : String)
      → r.phase i ≡ idle
      → RelayStep r (record r { phase = set_phase i (started claim_id r.clock) r.phase })
  claimed :
      (i : ℕ) (locked : String → Bool) (claim_id : String) (began limit : ℕ)
      → r.phase i ≡ started claim_id began
      → RelayStep r (claim_events i locked claim_id began limit r)
  -- `publish` returns.
  taken :
      (i : ℕ) (claim_id : String) (e : OutboxEvent) (es : List OutboxEvent)
      → r.phase i ≡ looping claim_id (e ∷ es)
      → RelayStep r
          (record r { sent = e ∷ r.sent; phase = set_phase i (accepted claim_id e es) r.phase })
  -- `publish` raises, though the broker may have the event.
  failed :
      (i : ℕ) (claim_id : String) (e : OutboxEvent) (es : List OutboxEvent)
      → r.phase i ≡ looping claim_id (e ∷ es)
      → RelayStep r (record r { phase = set_phase i (refused claim_id e es) r.phase })
  unanswered :
      (i : ℕ) (claim_id : String) (e : OutboxEvent) (es : List OutboxEvent)
      → r.phase i ≡ looping claim_id (e ∷ es)
      → RelayStep r
          (record r { sent = e ∷ r.sent; phase = set_phase i (refused claim_id e es) r.phase })
  marked :
      (i : ℕ) (claim_id : String) (e : OutboxEvent) (es : List OutboxEvent)
      → r.phase i ≡ accepted claim_id e es
      → RelayStep r (record r {
        table = mark_published e.event_id claim_id r.clock r.table;
        phase = set_phase i (looping claim_id es) r.phase;
      })
  given_back :
      (i : ℕ) (claim_id : String) (e : OutboxEvent) (es : List OutboxEvent)
      → r.phase i ≡ refused claim_id e es
      → RelayStep r (record r {
        table = mark_failed e.event_id claim_id r.table;
        phase = set_phase i (looping claim_id es) r.phase;
      })
  -- The loop is at its end, a commit fails and its transaction is rolled back, or the process dies.
  ended : (i : ℕ) → RelayStep r (record r { phase = set_phase i idle r.phase })

pub data RelayReach (r : Relay) : Relay → Type 0 where
  here : RelayReach r r
  next : {s t : Relay} → RelayReach r s → RelayStep s t → RelayReach r t

-- Nothing is recorded yet, and every publisher is between two runs.
unfoldable pub empty_relay : ℕ → Relay
empty_relay now = record { clock = now; table = []; sent = []; phase = λ i. idle }
