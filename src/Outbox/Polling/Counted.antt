-- ===== src/Outbox/Polling/Counted.antt =====
-- The rows that are there and unpublished, counted before and after a turn of the worker.
use price_streaming.Prelude.{
  ==_iff, All, Bool, Bool-cases, List, Option, Option-cases, String, String_eq, [], arith, elem,
  false, filter, inl, inr, length, none, not, refl, some, subst, suc, take, true, ℕ, ℕ_eq, ◌&&◌,
  ◌+◌, ◌<◌, ◌==◌, ◌∙◌, ◌∷◌, ◌≡◌, ◌≤◌,
}
use price_streaming.Dict
use price_streaming.Dict.{Dict, keys, values}
use price_streaming.Outbox.{
  Broker, OutboxEvent, OutboxRow, OutboxTable, claim_pending, execute, is_none, is_pending,
  order_by_occurred_at, pending_rows,
}
use price_streaming.Outbox.Claims.{All-pending_rows}
use price_streaming.Outbox.Publishing.{counts-publish_loop, length-map, length-values}
use price_streaming.Outbox.Settled.{settled}
use price_streaming.Outbox.Drained.{elem-kept, length-order_by_occurred_at}
use price_streaming.Outbox.Polling.Turns.{IsDue, after, get-after, taken_keys}

length-filter_le :
    (p q : String → Bool) (xs : List String)
    → ((j : String) → q j ≡ true → p j ≡ true)
    → length (filter q xs) ≤ length (filter p xs)
length-filter_le p q [] h = omega arith
length-filter_le p q (x ∷ xs) h = ground (arith, length-filter_le p q xs h, h x)

-- A test that fails where the other holds, and holds nowhere else, is passed by fewer.
length-filter_lt :
    (p q : String → Bool) (xs : List String) (i : String)
    → ((j : String) → q j ≡ true → p j ≡ true)
    → elem i xs ≡ true
    → p i ≡ true
    → q i ≡ false
    → length (filter q xs) < length (filter p xs)
length-filter_lt p q [] i h m hp hq = absurd (cc m)
length-filter_lt p q (x ∷ xs) i h m hp hq = elim (Bool-cases (x == i)) [
  | inl same ↦ ground (arith, length-filter_le p q xs h, (==_iff x i).0 same, hp, hq)
  | inr other ↦ ground (arith, length-filter_lt p q xs i h (ground (arith, m, other)) hp hq, h x)
]

pub elem-keys :
    (t : OutboxTable) (j : String) (row : OutboxRow)
    → Dict.get t j ≡ some row
    → elem j (keys t) ≡ true
unfolding Dict.get
elem-keys [] j row h = absurd (cc h)
elem-keys ((k, q) ∷ t) j row h = ground (arith, h, elem-keys t j row)

pub length-keys : (t : OutboxTable) → length (keys t) ≡ length t
length-keys [] = refl
length-keys ((k, q) ∷ t) = omega (arith, length-keys t)

-- The row is there and unpublished.
unfoldable pub is_open : Option OutboxRow → Bool
is_open none = false
is_open (some row) = is_none row.published_at

is_open-settled :
    (b : Broker) (row : OutboxRow)
    → b.accepts row.event ≡ true
    → is_none (settled b row).published_at ≡ false
unfolding settled is_none
is_open-settled b row h = ground (arith, h)

unfoldable pub open_count : List String → OutboxTable → ℕ
open_count ks t = length (filter (λ j. is_open (Dict.get t j)) ks)

module _ (b : Broker) (now : ℕ) (claim_id : String) (t : OutboxTable) (from : ℕ) (d : IsDue from t)
    (accepting : (e : OutboxEvent) → b.accepts e ≡ true) where
  is_open-after :
      (j : String)
      → is_open (Dict.get (after b now claim_id t from d) j)
        ≡ (is_open (Dict.get t j) && not (elem j (taken_keys b now claim_id t from d)))
  unfolding is_open
  is_open-after j = elim (Option-cases (Dict.get t j)) [
    | inl missing ↦ ground (arith, get-after b now claim_id t from d j, missing)
    | inr (row, found) ↦ ground (
      arith,
      get-after b now claim_id t from d j,
      found,
      is_open-settled b row (accepting row.event),
    )
  ]

  pub claimed-taken :
      (execute b now (λ j. false) claim_id 100 t).0.claimed
      ≡ length (pending_rows now (λ j. false) 100 t)
  unfolding execute claim_pending
  claimed-taken =
      let rows = pending_rows now (λ j. false) 100 t in
      let (t', events) = claim_pending now (λ j. false) claim_id 100 (now + 30000000) t in
      let counts =
        counts-publish_loop b claim_id events
          (record { claimed = length events; published = 0; failed = 0 }) t' in
      omega (
        arith,
        counts.1,
        length-map (λ (row : OutboxRow). row.event) (values rows),
        length-values rows,
      )

  -- A turn that claims something leaves fewer rows open.
  pub open_count-after :
      (ks : List String) (rows : OutboxTable) (j : String) (row : OutboxRow)
      → ((i : String) (q : OutboxRow) → Dict.get t i ≡ some q → elem i ks ≡ true)
      → pending_rows now (λ j. false) 100 t ≡ (j, row) ∷ rows
      → open_count ks (after b now claim_id t from d) < open_count ks t
  unfolding open_count is_open is_pending
  open_count-after ks rows j row within first =
      let all = All-pending_rows now 100 (λ j. false) t d.functional in
      let here =
        subst (All (λ kv. (Dict.get t kv.0 ≡ some kv.1) × ((is_pending now kv.1 && true) ≡ true)))
          first all in
      let (found, pending) = here.0 in
      let mine : elem j (taken_keys b now claim_id t from d) ≡ true =
        rw first (ground (arith, ==_iff j j)) in
      length-filter_lt (λ i. is_open (Dict.get t i))
        (λ i. is_open (Dict.get (after b now claim_id t from d) i)) ks j
        (λ i h. ground (arith, is_open-after i, h)) (within j row found)
        (rw found (ground (arith, pending))) (is_open-after j ∙ ground (arith, mine))

take-empty : {A : Type 0} (n : ℕ) (xs : List A) → take (suc n) xs ≡ [] → length xs ≡ 0
take-empty n [] h = refl
take-empty n (x ∷ xs) h = absurd (cc h)

not_within : (t : OutboxTable) (j : String) → elem j (keys t) ≡ true → length t ≡ 0 → ⊥
not_within [] j m h = cc m
not_within (x ∷ t) j m h = omega (arith, h)

-- Where nothing is taken, nothing is due.
pub none_pending :
    (now : ℕ) (t : OutboxTable) (j : String) (row : OutboxRow)
    → pending_rows now (λ j. false) 100 t ≡ []
    → Dict.get t j ≡ some row
    → is_pending now row ≡ false
unfolding pending_rows
none_pending now t j row nothing found =
    let p : String × OutboxRow → Bool = λ kv. is_pending now kv.1 && true in
    let kept = filter p t in
    elim (Bool-cases (is_pending now row)) [
      | inr idle ↦ idle
      | inl due ↦
          let m = elem-kept p t j row found (ground (arith, due)) in
          let short : length (order_by_occurred_at kept) ≡ 0 =
            take-empty 99 (order_by_occurred_at kept) nothing in
          absurd (not_within kept j m (omega (arith, short, length-order_by_occurred_at kept)))
    ]
