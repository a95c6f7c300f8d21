-- ===== src/Examples/Publishers.antt =====
-- A publisher of the outbox that dies before it marks its event.
use price_streaming.Prelude.{
  All, String, String_eq, [], false, length, none, refl, some, true, ℕ_eq, ◌+◌, ◌∷◌, ◌≡◌,
}
use mathlib.Core.List.{Memᴰ}
use price_streaming.Dict
use price_streaming.Outbox.{
  OutboxRow, add_event, claim_pending, execute, is_none, is_pending, claim_expired, insert_row,
  order_by_occurred_at, pending_rows, claim_rows,
}
use price_streaming.Outbox.Publishers.{
  Relay, RelayReach, accepted, begun, claim_events, claim_until, claimed, empty_relay, ended, here,
  idle, looping, next, recorded, set_phase, started, taken,
}
use price_streaming.Outbox.Publishers.Claiming.{IsRecorded}
use price_streaming.Outbox.Publishers.Delivered.{published_sent, recorded_stays}
use price_streaming.Outbox.Publishers.Run.{RunsTo, broker_at, delivers_all, execute-RunsTo}
use price_streaming.Examples.Outbox.{due, unlocked}

abbrev before_claim : Relay
before_claim = record {
  clock = 5;
  table = (add_event due []).1;
  sent = [];
  phase = set_phase 0 (started "c1" 5) (λ i. idle);
}

abbrev holding : Relay
holding = claim_events 0 unlocked "c1" 5 100 before_claim

abbrev crashed : Relay
crashed = record holding {
  sent = due ∷ [];
  phase = set_phase 0 idle (set_phase 0 (accepted "c1" due []) holding.phase);
}

before_claim-reach : RelayReach (empty_relay 5) before_claim
unfolding empty_relay
before_claim-reach = next (next here (recorded due)) (begun 0 "c1" refl)

holding_events : holding.phase 0 ≡ looping "c1" (due ∷ [])
unfolding claim_events claim_pending add_event Dict.get Dict.put set_phase pending_rows is_pending
    is_none claim_expired insert_row order_by_occurred_at
holding_events = refl

crashed-reach : RelayReach (empty_relay 5) crashed
unfolding set_phase claim_events
crashed-reach =
    next
      (next (next before_claim-reach (claimed 0 unlocked "c1" 5 100 refl))
        (taken 0 "c1" due [] holding_events))
      (ended 0)

published_sent_example :
    ((j : String) (row : OutboxRow)
      → Dict.get crashed.table j ≡ some row
      → is_none row.published_at ≡ false
      → Memᴰ row.event crashed.sent)
    × All (IsRecorded crashed.table) crashed.sent
published_sent_example = published_sent 5 crashed-reach

abbrev claimed_due : OutboxRow
claimed_due = record {
  event = due;
  claim_id = some "c1";
  claimed_until = some 30000005;
  attempt_count = 1;
  published_at = none;
}

crashed_row : Dict.get crashed.table "e1" ≡ some claimed_due
unfolding claim_events claim_until claim_pending add_event Dict.get Dict.put pending_rows is_pending
    is_none claim_expired insert_row order_by_occurred_at claim_rows
crashed_row = refl

recorded_stays_example :
    (row' : OutboxRow) × (Dict.get crashed.table "e1" ≡ some row')
    × (row'.event ≡ due)
    × (is_none claimed_due.published_at ≡ false → row' ≡ claimed_due)
recorded_stays_example = recorded_stays 5 "e1" claimed_due crashed-reach here crashed_row

delivers_all_example :
    (s : Relay) × RelayReach crashed s
    × (s.clock ≡ crashed.clock + 30000000)
    × (s.table
        ≡ (execute
            (broker_at (crashed.clock + 30000000) (λ e. true))
            (crashed.clock + 30000000)
            (λ j. false)
            "c2"
            (length crashed.table)
            crashed.table).1)
    × ((j : String) (row : OutboxRow) → Dict.get crashed.table j ≡ some row → Memᴰ row.event s.sent)
delivers_all_example = delivers_all 5 1 "c2" crashed-reach

execute-RunsTo_example :
    RunsTo crashed 0
      (λ e. false)
      (claim_pending crashed.clock unlocked "c3" 100 (claim_until crashed.clock) crashed.table).1
      (execute
        (broker_at crashed.clock (λ e. false))
        crashed.clock
        unlocked
        "c3"
        100
        crashed.table).1
unfolding set_phase
execute-RunsTo_example = execute-RunsTo 0 "c3" (λ e. false) 100 unlocked crashed refl
