-- ===== src/Examples/Outbox.antt =====
-- An outbox with one event that is due.
use price_streaming.Prelude.{
  ==_iff, Bool, Bool-cases, String, String_eq, [], arith, elem, false, if◌then◌else◌, inl, inr,
  none, refl, some, sym, true, ℕ, ℕ_eq, ◌+◌, ◌==◌, ◌∷◌, ◌≡◌,
}
use price_streaming.Dict
use price_streaming.Dict.{IsFunctional, keys}
use price_streaming.Outbox.{
  Broker, OutboxEvent, OutboxRow, OutboxTable, pending_rows, claim_pending, execute, is_pending,
  is_none, claim_expired, insert_row, order_by_occurred_at,
}
use price_streaming.Outbox.Claims.{claims_disjoint}
use price_streaming.Outbox.Settled.{settled, get-execute}
use price_streaming.Outbox.Polling.{Turn, run_until_sleep}
use price_streaming.Outbox.Polling.Turns.{IsDue}
use price_streaming.Outbox.Polling.Sleeps.{AllPublished, run_until_sleep_lem}

abbrev pub due : OutboxEvent
due = record {
  event_id = "e1";
  event_type = "rfq.registered";
  schema_version = 1;
  aggregate_type = "rfq";
  aggregate_id = "r1";
  payload = "{}";
  occurred_at = 5;
  created_at = 5;
}

abbrev due_row : OutboxRow
due_row = record {
  event = due;
  claim_id = none;
  claimed_until = none;
  attempt_count = 0;
  published_at = none;
}

abbrev outbox : OutboxTable
outbox = ("e1", due_row) ∷ []

abbrev pub unlocked : String → Bool
unlocked k = false

abbrev broker : Broker
broker = record { accepts = λ e. true; published_time = λ e. 20 }

outbox-IsFunctional : IsFunctional outbox
unfolding Dict.get
outbox-IsFunctional = (refl, tt)

e1_pending : elem "e1" (keys (pending_rows 10 unlocked 5 outbox)) ≡ true
unfolding pending_rows is_pending is_none claim_expired insert_row order_by_occurred_at
e1_pending = refl

claims_disjoint_example :
    elem "e1" (keys (pending_rows 11 unlocked 5 (claim_pending 10 unlocked "c1" 5 40 outbox).0))
    ≡ false
claims_disjoint_example =
    claims_disjoint "c1" 10 11 40 5 5 unlocked unlocked outbox "e1" outbox-IsFunctional
      (omega arith) e1_pending

get-execute_example : Dict.get (execute broker 10 unlocked "c1" 5 outbox).1 "e1" ≡ (
    if elem "e1" (keys (pending_rows 10 unlocked 5 outbox))
    then elim (Dict.get outbox "e1") [ none ↦ none | some row ↦ some (settled broker row) ]
    else Dict.get outbox "e1")
get-execute_example =
    get-execute broker 10 unlocked "c1" 5 outbox "e1" outbox-IsFunctional (refl, tt)

e1_due : is_pending 10 due_row ≡ true
unfolding is_pending is_none claim_expired
e1_due = refl

e1_found : Dict.get outbox "e1" ≡ some due_row
unfolding Dict.get
e1_found = refl

abbrev turns : ℕ → Turn
turns k = record { now = 10 + k; claim_id = "c1"; broker = broker }

only_due :
    (j : String) (row : OutboxRow) → Dict.get outbox j ≡ some row → (j ≡ "e1") × (row ≡ due_row)
unfolding Dict.get
only_due j row h = elim (Bool-cases ("e1" == j)) [
  | inl same ↦ (sym ((==_iff "e1" j).0 same), cc (rw same at h))
  | inr other ↦ absurd (cc (rw other at h))
]

outbox-IsDue : IsDue 5 outbox
unfolding claim_expired
outbox-IsDue = record {
  functional = outbox-IsFunctional;
  own = λ j row h. let (k, r) = only_due j row h in rw (k, r) refl;
  due = λ j row h free. let (k, r) = only_due j row h in rw r refl;
}

run_until_sleep_lem_example :
    (t' : OutboxTable) × (run_until_sleep turns 2 0 outbox ≡ some t') × AllPublished outbox t'
run_until_sleep_lem_example =
    run_until_sleep_lem turns 5 outbox (λ k e. refl) (λ k. omega arith) outbox-IsDue
