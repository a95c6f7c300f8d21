-- ===== src/Outbox/Publishers/Delivered.antt =====
-- What becomes of the events of the outbox, whatever publishers do and whatever fails.
use price_streaming.Prelude.{
  ==_iff, All, Bool, Bool-cases, List, Option, Option-cases, String, String_eq, [], ap, arith,
  false, inl, inr, none, refl, some, subst, sym, true, ℕ, ℕ_eq, ◌==◌, ◌∙◌, ◌∷◌, ◌≡◌,
}
use mathlib.Core.List.{Memᴰ}
use price_streaming.Dict
use price_streaming.Outbox.{OutboxEvent, OutboxRow, OutboxTable, is_none}
use price_streaming.Outbox.Publishers.{
  Relay, RelayStep, recorded, claimed, marked, given_back, RelayReach, here, next, claim_until,
  claim_events, empty_relay,
}
use price_streaming.Outbox.Publishers.Rows.{
  Follows, Follows-refl, Follows-add_event, Follows-mark_published, Follows-mark_failed,
}
use price_streaming.Outbox.Publishers.Claiming.{IsRecorded, Follows-claim_pending}
use price_streaming.Outbox.Publishers.Kept.{
  claim_until_mono, Holds-at, RelayReach-IsKept, empty_relay-IsKept,
}
use price_streaming.Outbox.Publishers.Held.{was_sent, IsAccounted, IsKept}

sent_event :
    (t : OutboxTable) (j : String) (row : OutboxRow) (sent : List OutboxEvent)
    → All (IsRecorded t) sent
    → Dict.get t j ≡ some row
    → was_sent j sent ≡ true
    → Memᴰ row.event sent
unfolding was_sent
sent_event t j row [] h found m = absurd (cc m)
sent_event t j row (e ∷ es) ((q, at_q, same), h) found m = elim (Bool-cases (e.event_id == j)) [
  | inr other ↦ Memᴰ.tail (sent_event t j row es h found (ground (arith, m, other)))
  | inl this ↦
      let at_j : Dict.get t j ≡ some q = rw (← (==_iff e.event_id j).0 this) at_q in
      let both : row ≡ q = cc (found, at_j) in
      Memᴰ.head (ap (λ (x : OutboxRow). x.event) both ∙ same)
]

-- Starting with an empty outbox, whatever steps publishers take and wherever their runs end: the broker
-- has taken the event of every row that is marked as published, and has taken no event but those that
-- stand in a row.
pub published_sent :
    (now : ℕ) {r : Relay}
    → RelayReach (empty_relay now) r
    → ((j : String) (row : OutboxRow)
        → Dict.get r.table j ≡ some row
        → is_none row.published_at ≡ false
        → Memᴰ row.event r.sent)
      × All (IsRecorded r.table) r.sent
published_sent now {r} reach =
    let k = RelayReach-IsKept reach (empty_relay-IsKept now) in
    (
      λ j row found out.
          let a = subst (IsAccounted (claim_until r.clock) r.sent j) found (k.accounted j) in
          sent_event r.table j row r.sent k.recorded_events found (ground (arith, a.2, out)),
      k.recorded_events,
    )

RelayStep-Follows :
    {r s : Relay}
    → RelayStep r s
    → IsKept r
    → (j : String)
    → (may : Bool) × Follows (claim_until r.clock) may j (Dict.get r.table j) (Dict.get s.table j)
unfolding claim_events
RelayStep-Follows {r} (recorded e) k j =
    (false, Follows-add_event (claim_until r.clock) e r.table j)
RelayStep-Follows {r} (claimed i locked claim_id began limit h) k j = (
  false,
  Follows-claim_pending r.clock limit (claim_until began) locked claim_id r.table k.functional
      (claim_until r.clock) j (claim_until_mono began r.clock (Holds-at r k i _ h)),
)
RelayStep-Follows {r} (marked i claim_id e es h) k j = (
  e.event_id == j,
  Follows-mark_published (claim_until r.clock) e.event_id claim_id r.table j r.clock,
)
RelayStep-Follows {r} (given_back i claim_id e es h) k j =
    (false, Follows-mark_failed (claim_until r.clock) e.event_id claim_id r.table j)
RelayStep-Follows {r} _ k j =
    (false, Follows-refl (claim_until r.clock) false j (Dict.get r.table j))

-- The row is there with its event, and as it is once it is published.
abbrev Stays : OutboxRow → Option OutboxRow → Type 0
Stays row none = ⊥
Stays row (some row') = (row'.event ≡ row.event) × (is_none row.published_at ≡ false → row' ≡ row)

Stays-Follows :
    (bound : ℕ) (may : Bool) (sent : List OutboxEvent) (j : String) (row : OutboxRow)
    (o o' : Option OutboxRow)
    → Stays row o
    → Follows bound may j o o'
    → IsAccounted bound sent j o
    → Stays row o'
Stays-Follows bound may sent j row none o' st h a = absurd st
Stays-Follows bound may sent j row (some q) none st h a = absurd h
Stays-Follows bound may sent j row (some q) (some q') st h a =
    let (same, tidy, final, new) = h a.1 in
    (
      same ∙ st.0,
      λ out.
          final (subst (λ (x : OutboxRow). is_none x.published_at ≡ false) (sym (st.1 out)) out)
          ∙ st.1 out,
    )

RelayReach-Stays :
    {r s : Relay} (j : String) (row : OutboxRow)
    → RelayReach r s
    → IsKept r
    → Stays row (Dict.get r.table j)
    → Stays row (Dict.get s.table j)
RelayReach-Stays j row here k st = st
RelayReach-Stays j row (next {s} {t} reach step) k st =
    let kept = RelayReach-IsKept reach k in
    let (may, follows) = RelayStep-Follows step kept j in
    Stays-Follows (claim_until s.clock) may s.sent j row (Dict.get s.table j) (Dict.get t.table j)
      (RelayReach-Stays j row reach k st) follows (kept.accounted j)

-- From any state that publishers reach from an empty outbox, whatever steps follow: the row of a
-- recorded event is still there with that event, and a row that is published is never changed again.
pub recorded_stays :
    (now : ℕ) {r s : Relay} (j : String) (row : OutboxRow)
    → RelayReach (empty_relay now) r
    → RelayReach r s
    → Dict.get r.table j ≡ some row
    → (row' : OutboxRow) × (Dict.get s.table j ≡ some row')
      × (row'.event ≡ row.event)
      × (is_none row.published_at ≡ false → row' ≡ row)
recorded_stays now {r} {s} j row before reach found =
    let k = RelayReach-IsKept before (empty_relay-IsKept now) in
    let st = RelayReach-Stays j row reach k (subst (Stays row) (sym found) (refl, λ h. refl)) in
    elim (Option-cases (Dict.get s.table j)) [
      | inl missing ↦ absurd (subst (Stays row) missing st)
      | inr (row', at_j) ↦ let kept = subst (Stays row) at_j st in (row', at_j, kept.0, kept.1)
    ]
