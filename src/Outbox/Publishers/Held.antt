-- ===== src/Outbox/Publishers/Held.antt =====
-- What is true of the rows, of the sent events and of what publishers hold, and what keeps it.
use price_streaming.Prelude.{
  All, Bool, Bool-cases, List, Option, String, String_eq, any, ap, arith, inl, inr, none, refl,
  some, true, ℕ, ℕ_eq, ◌+◌, ◌==◌, ◌||◌, ◌∙◌, ◌∷◌, ◌≡◌, ◌≤◌,
}
use price_streaming.Dict
use price_streaming.Dict.{IsFunctional, get-empty}
use price_streaming.Outbox.{OutboxEvent, OutboxRow, OutboxTable, claim_expired, is_none}
use price_streaming.Outbox.Publishers.{
  Phase, idle, started, looping, accepted, refused, Relay, claim_until,
}
use price_streaming.Outbox.Publishers.Rows.{expires_by, IsTidy, Follows}
use price_streaming.Outbox.Publishers.Claiming.{IsRecorded}

-- The broker took an event of that id.
unfoldable pub was_sent : String → List OutboxEvent → Bool
was_sent j sent = any (λ e. e.event_id == j) sent

abbrev pub IsAccounted : ℕ → List OutboxEvent → String → Option OutboxRow → Type 0
IsAccounted bound sent j none = Unit
IsAccounted bound sent j (some row) =
    (row.event.event_id ≡ j)
    × IsTidy bound row
    × ((is_none row.published_at || was_sent j sent) ≡ true)

-- What a publisher holds in its variables.
abbrev pub Holds : OutboxTable → List OutboxEvent → ℕ → Phase → Type 0
Holds t sent clock idle = Unit
Holds t sent clock (started claim_id began) = began ≤ clock
Holds t sent clock (looping claim_id es) = All (IsRecorded t) es
Holds t sent clock (accepted claim_id e es) =
    (was_sent e.event_id sent ≡ true) × All (IsRecorded t) (e ∷ es)
Holds t sent clock (refused claim_id e es) = All (IsRecorded t) (e ∷ es)

pub record IsKept (r : Relay) : Type 0 where
  pub functional : IsFunctional r.table
  pub accounted : (j : String) → IsAccounted (claim_until r.clock) r.sent j (Dict.get r.table j)
  pub recorded_events : All (IsRecorded r.table) r.sent
  pub held : (i : ℕ) → Holds r.table r.sent r.clock (r.phase i)

pub Accounted-Follows :
    (bound : ℕ) (may : Bool) (sent : List OutboxEvent) (j : String) (o o' : Option OutboxRow)
    → Follows bound may j o o'
    → (may ≡ true → was_sent j sent ≡ true)
    → IsAccounted bound sent j o
    → IsAccounted bound sent j o'
Accounted-Follows bound may sent j none none h allowed a = tt
Accounted-Follows bound may sent j none (some row') h allowed a = (h.0, h.2, ground (arith, h.1))
Accounted-Follows bound may sent j (some row) none h allowed a = absurd h
Accounted-Follows bound may sent j (some row) (some row') h allowed a =
    let (same, tidy, final, new) = h a.1 in
    (
      ap (λ (e : OutboxEvent). e.event_id) same ∙ a.0,
      tidy,
      elim (Bool-cases (is_none row'.published_at)) [
        | inl free ↦ ground (arith, free)
        | inr out ↦ elim (Bool-cases may) [
          | inl yes_may ↦ ground (arith, allowed yes_may)
          | inr may_not ↦ ground (arith, new out, may_not, a.2)
        ]
      ],
    )

pub IsAccounted-later :
    (now n : ℕ) (sent : List OutboxEvent) (j : String) (o : Option OutboxRow)
    → IsAccounted (claim_until now) sent j o
    → IsAccounted (claim_until (now + n)) sent j o
unfolding claim_until expires_by claim_expired
IsAccounted-later now n sent j none a = tt
IsAccounted-later now n sent j (some row) (own, (tidy, over), out) =
    (own, (tidy, ground (arith, over)), out)

pub IsAccounted-sent :
    (bound : ℕ) (e : OutboxEvent) (sent : List OutboxEvent) (j : String) (o : Option OutboxRow)
    → IsAccounted bound sent j o
    → IsAccounted bound (e ∷ sent) j o
unfolding was_sent
IsAccounted-sent bound e sent j none a = tt
IsAccounted-sent bound e sent j (some row) (own, tidy, out) = (own, tidy, ground (arith, out))

pub Holds-later :
    (t : OutboxTable) (sent : List OutboxEvent) (now n : ℕ) (p : Phase)
    → Holds t sent now p
    → Holds t sent (now + n) p
Holds-later t sent now n idle h = tt
Holds-later t sent now n (started c b) h = omega (arith, h)
Holds-later t sent now n (looping c es) h = h
Holds-later t sent now n (accepted c e es) h = h
Holds-later t sent now n (refused c e es) h = h

pub Holds-sent :
    (t : OutboxTable) (x : OutboxEvent) (sent : List OutboxEvent) (now : ℕ) (p : Phase)
    → Holds t sent now p
    → Holds t (x ∷ sent) now p
unfolding was_sent
Holds-sent t x sent now idle h = tt
Holds-sent t x sent now (started c b) h = h
Holds-sent t x sent now (looping c es) h = h
Holds-sent t x sent now (accepted c e es) h = (ground (arith, h.0), h.1)
Holds-sent t x sent now (refused c e es) h = h

pub Holds-table :
    (t t' : OutboxTable) (sent : List OutboxEvent) (now : ℕ) (p : Phase)
    → ((es : List OutboxEvent) → All (IsRecorded t) es → All (IsRecorded t') es)
    → Holds t sent now p
    → Holds t' sent now p
Holds-table t t' sent now idle keep h = tt
Holds-table t t' sent now (started c b) keep h = h
Holds-table t t' sent now (looping c es) keep h = keep es h
Holds-table t t' sent now (accepted c e es) keep h = (h.0, keep (e ∷ es) h.1)
Holds-table t t' sent now (refused c e es) keep h = keep (e ∷ es) h

-- An event in its row stays there.
pub recorded_on :
    (bound : ℕ) (may : Bool) (sent : List OutboxEvent) (e : OutboxEvent) (o o' : Option OutboxRow)
    → Follows bound may e.event_id o o'
    → IsAccounted bound sent e.event_id o
    → (row : OutboxRow) × (o ≡ some row) × (row.event ≡ e)
    → (row : OutboxRow) × (o' ≡ some row) × (row.event ≡ e)
recorded_on bound may sent e none o' h a (row, found, same) = absurd (cc found)
recorded_on bound may sent e (some q) none h a (row, found, same) = absurd h
recorded_on bound may sent e (some q) (some q') h a (row, found, same) =
    let this : q ≡ row = cc found in
    (q', refl, (h a.1).0 ∙ ap (λ (x : OutboxRow). x.event) this ∙ same)
