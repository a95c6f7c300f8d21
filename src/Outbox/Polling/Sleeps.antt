-- ===== src/Outbox/Polling/Sleeps.antt =====
-- The worker comes to sleep, and has published everything by then.
use price_streaming.Prelude.{
  Bool-cases, List, Option, String, String_eq, [], ap, arith, elem, false, inl, inr, length,
  length-filter, nat_eq, none, refl, some, suc, true, zero, ℕ, ℕ_eq, ◌+◌, ◌<◌, ◌∙◌, ◌∷◌, ◌≡◌, ◌≤◌,
  ◌⊎◌,
}
use price_streaming.Dict
use price_streaming.Dict.{Dict, keys, values}
use price_streaming.Outbox.{
  Broker, OutboxEvent, OutboxRow, OutboxTable, claim_expired, execute, is_none, is_pending,
  pending_rows,
}
use price_streaming.Outbox.Settled.{settled}
use price_streaming.Outbox.Polling.{Turn, run_until_sleep}
use price_streaming.Outbox.Polling.Turns.{
  IsDue, after, after-IsDue, get-after, row_before, taken_keys,
}
use price_streaming.Outbox.Polling.Counted.{
  elem-keys, length-keys, is_open, open_count, claimed-taken, open_count-after, none_pending,
}

length-zero : {A : Type 0} (xs : List A) → length xs ≡ 0 → xs ≡ []
length-zero [] h = refl
length-zero (x ∷ xs) h = absurd (omega (arith, h))

-- Every row of the first table is in the second one with its event, and published.
abbrev pub AllPublished : OutboxTable → OutboxTable → Type 0
AllPublished t t' =
    (j : String) (row : OutboxRow)
    → Dict.get t j ≡ some row
    → (row' : OutboxRow) × (Dict.get t' j ≡ some row')
      × (row'.event ≡ row.event)
      × (is_none row'.published_at ≡ false)

expired_later :
    (from now : ℕ) (until : Option ℕ)
    → from ≤ now
    → claim_expired from until ≡ true
    → claim_expired now until ≡ true
unfolding claim_expired
expired_later from now none h e = refl
expired_later from now (some t) h e = ground (arith, e)

List-cases : {A : Type 0} (xs : List A) → (xs ≡ []) ⊎ ((x : A) × (ys : List A) × (xs ≡ x ∷ ys))
List-cases [] = inl refl
List-cases (x ∷ xs) = inr (x, xs, refl)

event-settled : (b : Broker) (row : OutboxRow) → (settled b row).event ≡ row.event
unfolding settled
event-settled b row = ground arith

published_before :
    (b : Broker) (now : ℕ) (c : String) (t : OutboxTable) (from : ℕ) (d : IsDue from t)
    (t' : OutboxTable)
    → AllPublished (after b now c t from d) t'
    → AllPublished t t'
published_before b now c t from d t' published j row found =
    let g = get-after b now c t from d j in
    elim (Bool-cases (elem j (taken_keys b now c t from d))) [
      | inl mine ↦
          let (row', at_j, same, out) = published j (settled b row) (rw (mine, found) at g) in
          (row', at_j, same ∙ event-settled b row, out)
      | inr other ↦ published j row ((rw other at g) ∙ found)
    ]

module _ (turns : ℕ → Turn) (from : ℕ)
    (accepting : (k : ℕ) (e : OutboxEvent) → (turns k).broker.accepts e ≡ true)
    (later : (k : ℕ) → from ≤ (turns k).now) where
  -- A turn that claims nothing finds everything published.
  asleep :
      (k : ℕ) (t : OutboxTable) (d : IsDue from t)
      → pending_rows (turns k).now (λ j. false) 100 t ≡ []
      → AllPublished t (after (turns k).broker (turns k).now (turns k).claim_id t from d)
  unfolding is_pending
  asleep k t d nothing j row found =
      let g = get-after (turns k).broker (turns k).now (turns k).claim_id t from d j in
      let idle = none_pending (turns k).now t j row nothing found in
      (
        row,
        (rw nothing at g) ∙ found,
        refl,
        elim (Bool-cases (is_none row.published_at)) [
          | inr out ↦ out
          | inl free ↦
              let over =
                expired_later from (turns k).now row.claimed_until (later k)
                  (d.due j row found free) in
              let pending : is_pending (turns k).now row ≡ true = ground (arith, free, over) in
              absurd (cc (idle, pending))
        ],
      )

  -- With more turns than rows are open the worker comes to sleep.
  sleeps :
      (ks : List String) (fuel k : ℕ) (t : OutboxTable)
      → IsDue from t
      → ((i : String) (q : OutboxRow) → Dict.get t i ≡ some q → elem i ks ≡ true)
      → open_count ks t < fuel
      → (t' : OutboxTable) × (run_until_sleep turns fuel k t ≡ some t') × AllPublished t t'
  unfolding run_until_sleep
  sleeps ks zero k t d within h = absurd (omega arith)
  sleeps ks (suc fuel) k t d within h =
      let b = (turns k).broker in
      let now = (turns k).now in
      let c = (turns k).claim_id in
      let count = claimed-taken b now c t from d (accepting k) in
      elim (List-cases (pending_rows now (λ j. false) 100 t)) [
        | inl nothing ↦
            let zero_claimed : (execute b now (λ j. false) c 100 t).0.claimed ≡ 0 =
              count ∙ ap length nothing in
            (after b now c t from d, rw (run_until_sleep, zero_claimed) refl, asleep k t d nothing)
        | inr ((j, row), rows, first) ↦
            let some_claimed : (execute b now (λ j. false) c 100 t).0.claimed ≡ suc (length rows) =
              count ∙ ap length first in
            let not_zero : nat_eq (execute b now (λ j. false) c 100 t).0.claimed 0 ≡ false =
              ground (arith, some_claimed) in
            let fewer =
              open_count-after b now c t from d (accepting k) ks rows j row within first in
            let (t', slept, published) =
              sleeps ks fuel (k + 1) (after b now c t from d) (after-IsDue b now c t from d)
                (λ i q found.
                  let (p, before, how) = row_before b now c t from d i q found in within i p before)
                (omega (arith, fewer, h)) in
            (
              t',
              rw (run_until_sleep, not_zero) slept,
              published_before b now c t from d t' published,
            )
      ]

-- Every row stands once and under its event's id, none of those that are unpublished is claimed
-- beyond a time that no turn is before, nobody else locks a row and the broker takes every event: then
-- after at most one turn more than there are rows the worker sleeps, and it has published every row.
pub run_until_sleep_lem :
    (turns : ℕ → Turn) (from : ℕ) (t : OutboxTable)
    → ((k : ℕ) (e : OutboxEvent) → (turns k).broker.accepts e ≡ true)
    → ((k : ℕ) → from ≤ (turns k).now)
    → IsDue from t
    → (t' : OutboxTable) × (run_until_sleep turns (length t + 1) 0 t ≡ some t') × AllPublished t t'
unfolding open_count
run_until_sleep_lem turns from t accepting later d =
    let short = length-filter (λ j. is_open (Dict.get t j)) (keys t) in
    sleeps turns from accepting later (keys t) (length t + 1) 0 t d (elem-keys t)
      (omega (arith, short, length-keys t))
