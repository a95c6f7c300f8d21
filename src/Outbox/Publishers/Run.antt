-- ===== src/Outbox/Publishers/Run.antt =====
-- A run of `execute` as steps of one publisher, and what such a run achieves after any failures.
use price_streaming.Prelude.{
  ==_refl, All, Bool, if◌then◌else◌, Bool-cases, List, String, String_eq, [], ap, arith, false, inl,
  inr, length, refl, some, subst, sym, true, ℕ, ℕ_eq, ◌+◌, ◌∙◌, ◌∷◌, ◌≡◌,
}
use mathlib.Core.List.{Memᴰ}
use price_streaming.Dict
use price_streaming.Dict.{All-entries}
use price_streaming.Outbox.{
  Broker, OutboxEvent, OutboxRow, OutboxTable, PublishResult, claim_pending, execute, is_none,
  is_pending, publish_loop, publish_one, mark_published, mark_failed,
}
use price_streaming.Outbox.Drained.{execute_drains}
use price_streaming.Outbox.Publishers.{
  Phase, idle, started, looping, accepted, refused, Relay, RelayStep, tick, begun, claimed, taken,
  failed, unanswered, recorded, marked, given_back, ended, RelayReach, here, next, set_phase,
  claim_until, claim_events, empty_relay,
}
use price_streaming.Outbox.Publishers.Rows.{expires_by}
use price_streaming.Outbox.Publishers.Kept.{RelayReach-IsKept, empty_relay-IsKept}
use price_streaming.Outbox.Publishers.Held.{IsAccounted, IsKept}
use price_streaming.Outbox.Publishers.Delivered.{published_sent, recorded_stays}

pub RelayReach-trans : {r s t : Relay} → RelayReach r s → RelayReach s t → RelayReach r t
RelayReach-trans a here = a
RelayReach-trans a (next b st) = next (RelayReach-trans a b) st

-- A step that publisher `i` takes.
abbrev pub IsOwn : ℕ → {r s : Relay} → RelayStep r s → Type 0
IsOwn i (tick n) = ⊥
IsOwn i (recorded e) = ⊥
IsOwn i (begun j claim_id h) = i ≡ j
IsOwn i (claimed j locked claim_id began limit h) = i ≡ j
IsOwn i (taken j claim_id e es h) = i ≡ j
IsOwn i (failed j claim_id e es h) = i ≡ j
IsOwn i (unanswered j claim_id e es h) = i ≡ j
IsOwn i (marked j claim_id e es h) = i ≡ j
IsOwn i (given_back j claim_id e es h) = i ≡ j
IsOwn i (ended j) = i ≡ j

-- Steps of publisher `i` alone.
pub data OwnReach (i : ℕ) (r : Relay) : Relay → Type 0 where
  own_here : OwnReach i r r
  own_next : {s t : Relay} → OwnReach i r s → (step : RelayStep s t) → IsOwn i step → OwnReach i r t

OwnReach-trans : {i : ℕ} {r s t : Relay} → OwnReach i r s → OwnReach i s t → OwnReach i r t
OwnReach-trans a own_here = a
OwnReach-trans a (own_next b st o) = own_next (OwnReach-trans a b) st o

RelayReach-own : {i : ℕ} {r s : Relay} → OwnReach i r s → RelayReach r s
RelayReach-own own_here = here
RelayReach-own (own_next a st o) = next (RelayReach-own a) st

set_phase-same : (i : ℕ) (p : Phase) (phase : ℕ → Phase) → set_phase i p phase i ≡ p
unfolding set_phase
set_phase-same i p phase = rw (==_refl i) refl

-- A broker that answers at one time.
abbrev pub broker_at : ℕ → (OutboxEvent → Bool) → Broker
broker_at now accepts = record { accepts = accepts; published_time = λ e. now }

-- The events that the broker takes of those, on top of what it has.
unfoldable pub taken_of :
    (OutboxEvent → Bool) → List OutboxEvent → List OutboxEvent → List OutboxEvent
taken_of accepts [] sent = sent
taken_of accepts (e ∷ es) sent = taken_of accepts es (if accepts e then e ∷ sent else sent)

-- Publisher `i` alone has run from `r` to a state with that table, is between two runs again, has had
-- the broker take exactly those of the events that it accepts, and time stands still.
abbrev pub RunsTo : Relay → ℕ → (OutboxEvent → Bool) → List OutboxEvent → OutboxTable → Type 0
RunsTo r i accepts es table =
    (s : Relay) × OwnReach i r s
    × (s.table ≡ table)
    × (s.clock ≡ r.clock)
    × (s.phase i ≡ idle)
    × (s.sent ≡ taken_of accepts es r.sent)

module _ (i : ℕ) (claim_id : String) (accepts : OutboxEvent → Bool) where
  loop-RunsTo :
      (es : List OutboxEvent) (res : PublishResult) (r : Relay)
      → r.phase i ≡ looping claim_id es
      → RunsTo r i accepts es (publish_loop (broker_at r.clock accepts) claim_id es res r.table).1
  unfolding publish_loop publish_one taken_of
  loop-RunsTo [] res r h = (
    record r { phase = set_phase i idle r.phase },
    own_next own_here (ended i) refl,
    refl,
    refl,
    set_phase-same i idle r.phase,
    refl,
  )
  loop-RunsTo (e ∷ es) res r h = elim (Bool-cases (accepts e)) [
    | inl yes_sent ↦
        let r1 : Relay = record r {
          sent = e ∷ r.sent;
          phase = set_phase i (accepted claim_id e es) r.phase;
        } in
        let at_i = set_phase-same i (accepted claim_id e es) r.phase in
        let (s, reach, tbl, clk, ph, out) =
          loop-RunsTo es (record res { published = res.published + 1 })
            (record r1 {
              table = mark_published e.event_id claim_id r.clock r.table;
              phase = set_phase i (looping claim_id es) r1.phase;
            })
            (set_phase-same i (looping claim_id es) r1.phase) in
        rw (publish_loop, publish_one, taken_of, yes_sent)
          (
            s,
            OwnReach-trans
                (own_next (own_next own_here (taken i claim_id e es h) refl)
                  (marked i claim_id e es at_i) refl)
                reach,
            tbl,
            clk,
            ph,
            out,
          )
    | inr not_sent ↦
        let r1 : Relay = record r { phase = set_phase i (refused claim_id e es) r.phase } in
        let at_i = set_phase-same i (refused claim_id e es) r.phase in
        let (s, reach, tbl, clk, ph, out) =
          loop-RunsTo es (record res { failed = res.failed + 1 })
            (record r1 {
              table = mark_failed e.event_id claim_id r.table;
              phase = set_phase i (looping claim_id es) r1.phase;
            })
            (set_phase-same i (looping claim_id es) r1.phase) in
        rw (publish_loop, publish_one, taken_of, not_sent)
          (
            s,
            OwnReach-trans
                (own_next (own_next own_here (failed i claim_id e es h) refl)
                  (given_back i claim_id e es at_i) refl)
                reach,
            tbl,
            clk,
            ph,
            out,
          )
  ]

  -- From a state in which publisher `i` is between two runs: with a broker that answers at once,
  -- `execute` is a sequence of steps of publisher `i` alone, which lead to the table that `execute`
  -- leaves, to a publisher between two runs, and to a broker that has taken exactly those of the
  -- claimed events that it accepts, in the order of the claim.
  pub execute-RunsTo :
      (limit : ℕ) (locked : String → Bool) (r : Relay)
      → r.phase i ≡ idle
      → RunsTo r i accepts
          (claim_pending r.clock locked claim_id limit (claim_until r.clock) r.table).1
          (execute (broker_at r.clock accepts) r.clock locked claim_id limit r.table).1
  unfolding execute claim_events claim_until
  execute-RunsTo limit locked r h =
      let r1 : Relay = record r { phase = set_phase i (started claim_id r.clock) r.phase } in
      let r2 : Relay = claim_events i locked claim_id r.clock limit r1 in
      let es = (claim_pending r.clock locked claim_id limit (claim_until r.clock) r.table).1 in
      let (s, reach, tbl, clk, ph, out) =
        loop-RunsTo es (record { claimed = length es; published = 0; failed = 0 }) r2
          (set_phase-same i (looping claim_id es) r1.phase) in
      (
        s,
        OwnReach-trans
            (own_next (own_next own_here (begun i claim_id h) refl)
              (claimed i locked claim_id r.clock limit
                (set_phase-same i (started claim_id r.clock) r.phase))
              refl)
            reach,
        tbl,
        clk,
        ph,
        out,
      )

own_ids :
    (r : Relay) (rows : OutboxTable)
    → IsKept r
    → All (λ kv. Dict.get r.table kv.0 ≡ some kv.1) rows
    → All (λ kv. kv.1.event.event_id ≡ kv.0) rows
own_ids r [] k h = tt
own_ids r ((j, row) ∷ rows) k (found, h) =
    let a = subst (IsAccounted (claim_until r.clock) r.sent j) found (k.accounted j) in
    (a.0, own_ids r rows k h)

-- A row that is not published is due once the longest claim is over.
due_later :
    (clock : ℕ) (sent : List OutboxEvent) (j : String) (row : OutboxRow)
    → IsAccounted (claim_until clock) sent j (some row)
    → is_none row.published_at ≡ true
    → is_pending (clock + 30000000) row ≡ true
unfolding is_pending expires_by claim_until
due_later clock sent j row (own, (tidy, over), out) free = ground (arith, over, free)

-- Whatever publishers did and whatever failed since the outbox was empty: if thirty seconds pass and one
-- publisher then runs with a limit that covers the table and a broker that takes events, the broker
-- has taken the event of every row that was recorded.
pub delivers_all :
    (now : ℕ) {r : Relay} (i : ℕ) (claim_id : String)
    → RelayReach (empty_relay now) r
    → (s : Relay) × RelayReach r s
      × (s.clock ≡ r.clock + 30000000)
      × (s.table
          ≡ (execute
              (broker_at (r.clock + 30000000) (λ e. true))
              (r.clock + 30000000)
              (λ j. false)
              claim_id
              (length r.table)
              r.table).1)
      × ((j : String) (row : OutboxRow) → Dict.get r.table j ≡ some row → Memᴰ row.event s.sent)
unfolding is_none
delivers_all now {r} i claim_id reach =
    let k = RelayReach-IsKept reach (empty_relay-IsKept now) in
    let waited : Relay = record r {
      clock = r.clock + 30000000;
      phase = set_phase i idle r.phase;
    } in
    let (s, run, tbl, clk, ph, out) =
      execute-RunsTo i claim_id (λ e. true) (length r.table) (λ j. false) waited
        (set_phase-same i idle r.phase) in
    let after =
      RelayReach-trans (next (next here (ended i)) (tick 30000000)) (RelayReach-own run) in
    let (out_sent, stands) = published_sent now (RelayReach-trans reach after) in
    (
      s,
      after,
      clk,
      tbl,
      λ j row found.
          let (row', at_s, same, final) = recorded_stays now j row reach after found in
          elim (Bool-cases (is_none row.published_at)) [
            | inr out ↦
                subst (λ e. Memᴰ e s.sent) same
                  (out_sent j row' at_s (
                    subst (λ (x : OutboxRow). is_none x.published_at ≡ false) (sym (final out))
                      out))
            | inl free ↦
                let a = subst (IsAccounted (claim_until r.clock) r.sent j) found (k.accounted j) in
                let (done, at_done, marked_at, never) =
                  execute_drains (broker_at (r.clock + 30000000) (λ e. true)) (r.clock + 30000000)
                    (λ j. false) claim_id (length r.table) r.table j row k.functional
                    (own_ids r r.table k (All-entries r.table k.functional)) (omega arith) found
                    (due_later r.clock r.sent j row a free) refl refl in
                let both : row' ≡ done = cc (at_s, at_done, tbl) in
                subst (λ e. Memᴰ e s.sent) same
                  (out_sent j row' at_s
                    (rw (ap (λ (x : OutboxRow). x.published_at) both ∙ marked_at) refl))
          ],
    )
