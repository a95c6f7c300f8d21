-- ===== src/Outbox/Polling.antt =====
-- `OutboxWorker.run` of presentation/outbox_publisher/main.py: run after run until one claims nothing,
-- when the worker sleeps.
pub mod Turns
pub mod Counted
pub mod Sleeps
use price_streaming.Prelude.{
  Option, String, String_eq, false, if◌then◌else◌, nat_eq, none, some, suc, zero, ℕ, ℕ_eq, ◌+◌,
}
use price_streaming.Outbox.{Broker, OutboxTable, execute}

-- What a turn of the loop meets: the time that it reads, its claim id, and the broker.
pub record Turn : Type 0 where
  pub now : ℕ
  pub claim_id : String
  pub broker : Broker

-- At most `fuel` turns, from the `k`-th on, with no row locked by others: the table when the worker sleeps.
unfoldable pub run_until_sleep : (ℕ → Turn) → (fuel k : ℕ) → OutboxTable → Option OutboxTable
run_until_sleep turns zero k table = none
run_until_sleep turns (suc fuel) k table =
    let t = turns k in
    let (result, after) = execute t.broker t.now (λ j. false) t.claim_id 100 table in
    let rest = run_until_sleep turns fuel (k + 1) after in
    if nat_eq result.claimed 0 then some after else rest
