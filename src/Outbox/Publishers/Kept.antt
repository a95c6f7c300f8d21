-- ===== src/Outbox/Publishers/Kept.antt =====
-- What holds of the outbox and its publishers after any steps: nothing is lost, and nothing counts as
-- published that the broker did not take.
use price_streaming.Prelude.{
  ==_iff, ==_refl, All, Bool, List, String, String_eq, [], arith, false, if_ind, some, subst, true,
  ℕ, ℕ_eq, ◌==◌, ◌∷◌, ◌≡◌, ◌≤◌,
}
use price_streaming.Dict
use price_streaming.Dict.{IsFunctional, get-empty}
use price_streaming.Outbox.{
  OutboxEvent, OutboxRow, OutboxTable, add_event, claim_pending, mark_failed, mark_published,
}
use price_streaming.Outbox.Publishers.{
  Phase, idle, started, looping, accepted, refused, Relay, RelayStep, tick, recorded, begun,
  claimed, taken, failed, unanswered, marked, given_back, ended, RelayReach, here, next, set_phase,
  claim_until, claim_events, empty_relay,
}
use price_streaming.Outbox.Publishers.Rows.{
  Follows, Follows-refl, Follows-add_event, Follows-mark_published, Follows-mark_failed,
  add_event-IsFunctional, mark_published-IsFunctional, mark_failed-IsFunctional,
}
use price_streaming.Outbox.Publishers.Claiming.{
  IsRecorded, Follows-claim_pending, claim_pending-IsFunctional, claim_pending-IsRecorded,
}
use price_streaming.Outbox.Publishers.Held.{
  was_sent, IsAccounted, Holds, IsKept, Accounted-Follows, IsAccounted-later, IsAccounted-sent,
  Holds-later, Holds-sent, Holds-table, recorded_on,
}

pub claim_until_mono : (a b : ℕ) → a ≤ b → claim_until a ≤ claim_until b
unfolding claim_until
claim_until_mono a b h = omega arith

was_sent-head : (e : OutboxEvent) (sent : List OutboxEvent) → was_sent e.event_id (e ∷ sent) ≡ true
unfolding was_sent
was_sent-head e sent = ground (arith, ==_refl e.event_id)

module _ (r : Relay) (kept : IsKept r) where
  open kept use {functional, accounted, recorded_events, held}

  IsRecorded-after :
      (t' : OutboxTable) (may : String → Bool)
      → ((j : String)
          → Follows (claim_until r.clock) (may j) j (Dict.get r.table j) (Dict.get t' j))
      → (es : List OutboxEvent) → All (IsRecorded r.table) es
      → All (IsRecorded t') es
  IsRecorded-after t' may follows [] h = tt
  IsRecorded-after t' may follows (e ∷ es) h = (
    recorded_on (claim_until r.clock) (may e.event_id) r.sent e (Dict.get r.table e.event_id)
        (Dict.get t' e.event_id) (follows e.event_id) (accounted e.event_id) h.0,
    IsRecorded-after t' may follows es h.1,
  )

  -- A transaction keeps the invariant if every row follows from what it was, only events that were
  -- sent are marked as published, and the publisher that ran it holds what is true.
  committed :
      (t' : OutboxTable) (may : String → Bool) (phase : ℕ → Phase)
      → IsFunctional t'
      → ((j : String)
          → Follows (claim_until r.clock) (may j) j (Dict.get r.table j) (Dict.get t' j))
      → ((j : String) → may j ≡ true → was_sent j r.sent ≡ true)
      → ((i : ℕ) → Holds t' r.sent r.clock (r.phase i) → Holds t' r.sent r.clock (phase i))
      → IsKept (record r { table = t'; phase = phase })
  committed t' may phase f follows allowed moved = record {
    functional = f;
    accounted = λ j.
        Accounted-Follows (claim_until r.clock) (may j) r.sent j (Dict.get r.table j)
          (Dict.get t' j) (follows j) (allowed j) (accounted j);
    recorded_events = IsRecorded-after t' may follows r.sent recorded_events;
    held = λ i. moved i (
        Holds-table r.table t' r.sent r.clock (r.phase i) (IsRecorded-after t' may follows)
          (held i));
  }

  set_phase-Holds :
      (t' : OutboxTable) (i : ℕ) (p : Phase)
      → Holds t' r.sent r.clock p
      → (j : ℕ) → Holds t' r.sent r.clock (r.phase j)
      → Holds t' r.sent r.clock (set_phase i p r.phase j)
  unfolding set_phase
  set_phase-Holds t' i p h j old = if_ind (Holds t' r.sent r.clock) (i == j) h old

  -- A step of publisher `i` that changes no row.
  moved :
      (i : ℕ) (p : Phase)
      → Holds r.table r.sent r.clock p
      → IsKept (record r { phase = set_phase i p r.phase })
  moved i p h =
      committed r.table (λ j. false) (set_phase i p r.phase) functional
        (λ j. Follows-refl (claim_until r.clock) false j (Dict.get r.table j))
        (λ j q. absurd (cc q)) (set_phase-Holds r.table i p h)

  sent_one : (e : OutboxEvent) → IsRecorded r.table e → IsKept (record r { sent = e ∷ r.sent })
  sent_one e h = record {
    functional = functional;
    accounted =
        λ j. IsAccounted-sent (claim_until r.clock) e r.sent j (Dict.get r.table j) (accounted j);
    recorded_events = (h, recorded_events);
    held = λ i. Holds-sent r.table e r.sent r.clock (r.phase i) (held i);
  }

  pub Holds-at : (i : ℕ) (p : Phase) → r.phase i ≡ p → Holds r.table r.sent r.clock p
  Holds-at i p h = subst (Holds r.table r.sent r.clock) h (held i)

  own_ids : (j : String) (row : OutboxRow) → Dict.get r.table j ≡ some row → row.event.event_id ≡ j
  own_ids j row found =
      let a = subst (IsAccounted (claim_until r.clock) r.sent j) found (accounted j) in a.0

  claimed-IsKept :
      (i : ℕ) (locked : String → Bool) (claim_id : String) (began limit : ℕ)
      → r.phase i ≡ started claim_id began
      → IsKept (claim_events i locked claim_id began limit r)
  unfolding claim_events
  claimed-IsKept i locked claim_id began limit h =
      committed t' (λ j. false) (set_phase i (looping claim_id es) r.phase)
        (claim_pending-IsFunctional r.clock limit until locked claim_id r.table functional) follows
        (λ j q. absurd (cc q))
        (set_phase-Holds t' i (looping claim_id es) (
          IsRecorded-after t' (λ j. false) follows es
            (claim_pending-IsRecorded r.clock limit until locked claim_id r.table functional
              own_ids)))
    where
      until : ℕ
      until = claim_until began

      t' : OutboxTable
      t' = (claim_pending r.clock locked claim_id limit until r.table).0

      es : List OutboxEvent
      es = (claim_pending r.clock locked claim_id limit until r.table).1

      follows :
          (j : String) → Follows (claim_until r.clock) false j (Dict.get r.table j) (Dict.get t' j)
      follows j =
          Follows-claim_pending r.clock limit until locked claim_id r.table functional
            (claim_until r.clock) j
            (claim_until_mono began r.clock (Holds-at i (started claim_id began) h))

-- Every step of a publisher keeps it.
pub RelayStep-IsKept : {r s : Relay} → RelayStep r s → IsKept r → IsKept s
RelayStep-IsKept {r} (tick n) k = record {
  functional = k.functional;
  accounted = λ j. IsAccounted-later r.clock n r.sent j (Dict.get r.table j) (k.accounted j);
  recorded_events = k.recorded_events;
  held = λ i. Holds-later r.table r.sent r.clock n (r.phase i) (k.held i);
}
RelayStep-IsKept {r} (recorded e) k =
    committed r k (add_event e r.table).1 (λ j. false) r.phase
      (add_event-IsFunctional e r.table k.functional)
      (Follows-add_event (claim_until r.clock) e r.table) (λ j q. absurd (cc q)) (λ i h. h)
RelayStep-IsKept {r} (begun i claim_id h) k = moved r k i (started claim_id r.clock) (omega arith)
RelayStep-IsKept {r} (claimed i locked claim_id began limit h) k =
    claimed-IsKept r k i locked claim_id began limit h
RelayStep-IsKept {r} (taken i claim_id e es h) k =
    let own = Holds-at r k i (looping claim_id (e ∷ es)) h in
    moved (record r { sent = e ∷ r.sent }) (sent_one r k e own.0) i (accepted claim_id e es)
      (was_sent-head e r.sent, own)
RelayStep-IsKept {r} (failed i claim_id e es h) k =
    moved r k i (refused claim_id e es) (Holds-at r k i (looping claim_id (e ∷ es)) h)
RelayStep-IsKept {r} (unanswered i claim_id e es h) k =
    let own = Holds-at r k i (looping claim_id (e ∷ es)) h in
    moved (record r { sent = e ∷ r.sent }) (sent_one r k e own.0) i (refused claim_id e es) own
RelayStep-IsKept {r} (marked i claim_id e es h) k =
    let own = Holds-at r k i (accepted claim_id e es) h in
    let t' = mark_published e.event_id claim_id r.clock r.table in
    let follows = λ (j : String).
      Follows-mark_published (claim_until r.clock) e.event_id claim_id r.table j r.clock in
    committed r k t' (λ j. e.event_id == j) (set_phase i (looping claim_id es) r.phase)
      (mark_published-IsFunctional e.event_id claim_id r.table r.clock k.functional) follows
      (λ j q. subst (λ x. was_sent x r.sent ≡ true) ((==_iff e.event_id j).0 q) own.0)
      (set_phase-Holds r k t' i (looping claim_id es)
        (IsRecorded-after r k t' (λ j. e.event_id == j) follows es own.1.1))
RelayStep-IsKept {r} (given_back i claim_id e es h) k =
    let own = Holds-at r k i (refused claim_id e es) h in
    let t' = mark_failed e.event_id claim_id r.table in
    let follows =
      λ (j : String). Follows-mark_failed (claim_until r.clock) e.event_id claim_id r.table j in
    committed r k t' (λ j. false) (set_phase i (looping claim_id es) r.phase)
      (mark_failed-IsFunctional e.event_id claim_id r.table k.functional) follows
      (λ j q. absurd (cc q))
      (set_phase-Holds r k t' i (looping claim_id es)
        (IsRecorded-after r k t' (λ j. false) follows es own.1))
RelayStep-IsKept {r} (ended i) k = moved r k i idle tt

pub empty_relay-IsKept : (now : ℕ) → IsKept (empty_relay now)
unfolding empty_relay
empty_relay-IsKept now = record {
  functional = tt;
  accounted = λ j. rw (get-empty j) tt;
  recorded_events = tt;
  held = λ i. tt;
}

pub RelayReach-IsKept : {r s : Relay} → RelayReach r s → IsKept r → IsKept s
RelayReach-IsKept here k = k
RelayReach-IsKept (next h st) k = RelayStep-IsKept st (RelayReach-IsKept h k)
