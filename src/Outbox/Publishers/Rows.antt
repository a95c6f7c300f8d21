-- ===== src/Outbox/Publishers/Rows.antt =====
-- What an insert and the marks of the outbox make of the row of a key.
use price_streaming.Prelude.{
  ==_iff, Bool, Bool-cases, Option, Option-cases, String, String_eq, arith, false, if_ind,
  if◌then◌else◌, inl, inr, none, not, refl, some, true, ℕ, ℕ_eq, ◌&&◌, ◌==◌, ◌||◌, ◌≡◌,
}
use price_streaming.Dict
use price_streaming.Dict.{IsFunctional, get-put, keys, put-IsFunctional, values}
use price_streaming.Outbox.{
  OutboxEvent, OutboxRow, OutboxTable, add_event, claim_expired, has_claim, is_none, mark_published,
  mark_failed,
}

-- The claim of a row has expired by `bound`.
unfoldable pub expires_by : ℕ → OutboxRow → Bool
expires_by bound row = claim_expired bound row.claimed_until

-- A published row carries no claim, and a claim is over by `bound`.
abbrev pub IsTidy : ℕ → OutboxRow → Type 0
IsTidy bound row =
    ((is_none row.published_at || is_none row.claim_id) ≡ true) × (expires_by bound row ≡ true)

-- The row keeps its event and stays tidy; once published it is kept as it is; and it is published
-- only where `may` says so.
abbrev pub RowFollows : ℕ → Bool → OutboxRow → OutboxRow → Type 0
RowFollows bound may row row' =
    IsTidy bound row
    → (row'.event ≡ row.event)
      × IsTidy bound row'
      × (is_none row.published_at ≡ false → row' ≡ row)
      × (is_none row'.published_at ≡ false → (is_none row.published_at && not may) ≡ false)

-- The same for the row of key `j` that may be missing: no row disappears, and a new one is
-- unpublished and free.
abbrev pub Follows : ℕ → Bool → String → Option OutboxRow → Option OutboxRow → Type 0
Follows bound may j none none = Unit
Follows bound may j none (some row') =
    (row'.event.event_id ≡ j) × (is_none row'.published_at ≡ true) × IsTidy bound row'
Follows bound may j (some row) none = ⊥
Follows bound may j (some row) (some row') = RowFollows bound may row row'

pub Follows-refl :
    (bound : ℕ) (may : Bool) (j : String) (o : Option OutboxRow) → Follows bound may j o o
unfolding is_none
Follows-refl bound may j none = tt
Follows-refl bound may j (some row) = λ tidy. (refl, tidy, λ h. refl, λ h. ground (arith, h))

abbrev on_row : (OutboxRow → OutboxRow) → Option OutboxRow → Option OutboxRow
on_row f none = none
on_row f (some row) = some (f row)

Follows-on_row :
    (bound : ℕ) (may : Bool) (j : String) (f : OutboxRow → OutboxRow) (o : Option OutboxRow)
    → ((row : OutboxRow) → RowFollows bound may row (f row))
    → Follows bound may j o (on_row f o)
Follows-on_row bound may j f none h = tt
Follows-on_row bound may j f (some row) h = h row

abbrev new_row : OutboxEvent → OutboxRow
new_row e = record {
  event = e;
  claim_id = none;
  claimed_until = none;
  attempt_count = 0;
  published_at = none;
}

get-add_event :
    (e : OutboxEvent) (t : OutboxTable) (j : String)
    → Dict.get (add_event e t).1 j ≡ elim (Dict.get t j) [
      | some row ↦ some row
      | none ↦ (if e.event_id == j then some (new_row e) else none)
    ]
unfolding add_event
get-add_event e t j = elim (Option-cases (Dict.get t e.event_id)) [
  | inr (row, found) ↦ ground (arith, found, ==_iff e.event_id j)
  | inl missing ↦ ground (arith, missing, get-put t e.event_id j (new_row e), ==_iff e.event_id j)
]

Follows-new :
    (bound : ℕ) (e : OutboxEvent) (j : String) (o : Option OutboxRow)
    → Follows bound false j o (elim o [
      | some row ↦ some row
      | none ↦ (if e.event_id == j then some (new_row e) else none)
    ])
unfolding is_none expires_by claim_expired
Follows-new bound e j (some row) = Follows-refl bound false j (some row)
Follows-new bound e j none = elim (Bool-cases (e.event_id == j)) [
  | inl same ↦ rw same ((==_iff e.event_id j).0 same, refl, (refl, refl))
  | inr other ↦ rw other tt
]

pub Follows-add_event :
    (bound : ℕ) (e : OutboxEvent) (t : OutboxTable) (j : String)
    → Follows bound false j (Dict.get t j) (Dict.get (add_event e t).1 j)
Follows-add_event bound e t j = rw (get-add_event e t j) (Follows-new bound e j (Dict.get t j))

pub add_event-IsFunctional :
    (e : OutboxEvent) (t : OutboxTable) → IsFunctional t → IsFunctional (add_event e t).1
unfolding add_event
add_event-IsFunctional e t f = elim (Option-cases (Dict.get t e.event_id)) [
  | inr (row, found) ↦ rw (add_event, found) f
  | inl missing ↦ rw (add_event, missing) (put-IsFunctional t e.event_id (new_row e) f)
]

abbrev published_row : String → ℕ → OutboxRow → OutboxRow
published_row claim_id at row =
    if has_claim claim_id row && is_none row.published_at
    then record row { published_at = some at; claim_id = none; claimed_until = none }
    else row

abbrev freed_row : String → OutboxRow → OutboxRow
freed_row claim_id row =
    if has_claim claim_id row then record row { claim_id = none; claimed_until = none } else row

module _ (k claim_id : String) (t : OutboxTable) where
  get-mark_published :
      (at : ℕ) (j : String)
      → Dict.get (mark_published k claim_id at t) j
        ≡ (if k == j then on_row (published_row claim_id at) (Dict.get t j) else Dict.get t j)
  unfolding mark_published
  get-mark_published at j = elim (Option-cases (Dict.get t k)) [
    | inl missing ↦ ground (arith, missing, ==_iff k j)
    | inr (row, found) ↦ ground (
      arith,
      found,
      ==_iff k j,
      get-put t k j (record row { published_at = some at; claim_id = none; claimed_until = none }),
    )
  ]

  get-mark_failed :
      (j : String)
      → Dict.get (mark_failed k claim_id t) j
        ≡ (if k == j then on_row (freed_row claim_id) (Dict.get t j) else Dict.get t j)
  unfolding mark_failed
  get-mark_failed j = elim (Option-cases (Dict.get t k)) [
    | inl missing ↦ ground (arith, missing, ==_iff k j)
    | inr (row, found) ↦ ground (
      arith,
      found,
      ==_iff k j,
      get-put t k j (record row { claim_id = none; claimed_until = none }),
    )
  ]

module _ (k claim_id : String) (t : OutboxTable) where
  pub mark_published-IsFunctional :
      (at : ℕ) → IsFunctional t → IsFunctional (mark_published k claim_id at t)
  unfolding mark_published
  mark_published-IsFunctional at f = elim (Option-cases (Dict.get t k)) [
    | inl missing ↦ rw (mark_published, missing) f
    | inr (row, found) ↦
        rw (mark_published, found)
          (if_ind IsFunctional (has_claim claim_id row && is_none row.published_at)
            (put-IsFunctional t k
              (record row { published_at = some at; claim_id = none; claimed_until = none }) f)
            f)
  ]

  pub mark_failed-IsFunctional : IsFunctional t → IsFunctional (mark_failed k claim_id t)
  unfolding mark_failed
  mark_failed-IsFunctional f = elim (Option-cases (Dict.get t k)) [
    | inl missing ↦ rw (mark_failed, missing) f
    | inr (row, found) ↦
        rw (mark_failed, found)
          (if_ind IsFunctional (has_claim claim_id row)
            (put-IsFunctional t k (record row { claim_id = none; claimed_until = none }) f) f)
  ]

module _ (bound : ℕ) (k claim_id : String) (t : OutboxTable) (j : String) where
  pub Follows-mark_published :
      (at : ℕ)
      → Follows bound (k == j) j (Dict.get t j) (Dict.get (mark_published k claim_id at t) j)
  unfolding is_none expires_by claim_expired has_claim
  Follows-mark_published at =
      rw (get-mark_published k claim_id t at j) (elim (Bool-cases (k == j)) [
        | inl same ↦ rw same (
            Follows-on_row bound true j (published_row claim_id at) (Dict.get t j) (λ row tidy. (
              ground arith,
              ground (arith, tidy.0, tidy.1),
              λ h. ground (arith, h),
              λ h. ground arith,
            )))
        | inr other ↦ rw other (Follows-refl bound false j (Dict.get t j))
      ])

  pub Follows-mark_failed :
      Follows bound false j (Dict.get t j) (Dict.get (mark_failed k claim_id t) j)
  unfolding is_none expires_by claim_expired has_claim
  Follows-mark_failed = rw (get-mark_failed k claim_id t j) (elim (Bool-cases (k == j)) [
    | inl same ↦ rw same (
        Follows-on_row bound false j (freed_row claim_id) (Dict.get t j) (λ row tidy. (
          ground arith,
          ground (arith, tidy.0, tidy.1),
          λ h. ground (arith, h, tidy.0),
          λ h. ground (arith, h),
        )))
    | inr other ↦ rw other (Follows-refl bound false j (Dict.get t j))
  ])
