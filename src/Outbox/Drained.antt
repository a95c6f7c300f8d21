-- ===== src/Outbox/Drained.antt =====
-- `PublishOutboxEventsUseCase.execute`: what is due is published.
use price_streaming.Prelude.{
  ==_iff, All, Bool, Bool-cases, List, String, String_eq, [], ap, arith, elem, false, filter, inl,
  inr, length, length-filter, not, refl, some, suc, take, true, zero, ℕ, ℕ_eq, ◌&&◌, ◌==◌, ◌||◌,
  ◌∙◌, ◌∷◌, ◌≡◌, ◌≤◌,
}
use price_streaming.Dict
use price_streaming.Dict.{Dict, IsFunctional, keys}
use price_streaming.Outbox.{
  Broker, OutboxRow, OutboxTable, is_none, is_pending, insert_row, order_by_occurred_at,
  pending_rows, execute,
}
use price_streaming.Outbox.Settled.{settled, get-execute}

length-insert_row :
    (kv : String × OutboxRow) (xs : OutboxTable) → length (insert_row kv xs) ≡ suc (length xs)
unfolding insert_row
length-insert_row kv [] = refl
length-insert_row kv (x ∷ xs) = ground (arith, length-insert_row kv xs)

pub length-order_by_occurred_at : (xs : OutboxTable) → length (order_by_occurred_at xs) ≡ length xs
unfolding order_by_occurred_at
length-order_by_occurred_at [] = refl
length-order_by_occurred_at (x ∷ xs) =
    length-insert_row x (order_by_occurred_at xs) ∙ ap suc (length-order_by_occurred_at xs)

elem-insert_row :
    (j : String) (kv : String × OutboxRow) (xs : OutboxTable)
    → elem j (keys (insert_row kv xs)) ≡ (kv.0 == j || elem j (keys xs))
unfolding insert_row
elem-insert_row j kv [] = refl
elem-insert_row j kv (x ∷ xs) = ground (arith, elem-insert_row j kv xs)

elem-order_by_occurred_at :
    (j : String) (xs : OutboxTable) → elem j (keys (order_by_occurred_at xs)) ≡ elem j (keys xs)
unfolding order_by_occurred_at
elem-order_by_occurred_at j [] = refl
elem-order_by_occurred_at j (x ∷ xs) =
    elem-insert_row j x (order_by_occurred_at xs)
    ∙ ap (x.0 == j ||◌) (elem-order_by_occurred_at j xs)

take-length : {A : Type 0} (n : ℕ) (xs : List A) → length xs ≤ n → take n xs ≡ xs
take-length zero [] h = refl
take-length zero (x ∷ xs) h = absurd (omega arith)
take-length (suc n) [] h = refl
take-length (suc n) (x ∷ xs) h = ap (x ∷◌) (take-length n xs (omega arith))

pub elem-kept :
    (p : String × OutboxRow → Bool) (table : OutboxTable) (j : String) (row : OutboxRow)
    → Dict.get table j ≡ some row
    → p (j, row) ≡ true
    → elem j (keys (filter p table)) ≡ true
unfolding Dict.get
elem-kept p [] j row h hp = absurd (cc h)
elem-kept p ((k, q) ∷ rest) j row h hp = elim (Bool-cases (k == j)) [
  | inl same ↦
      let this : q ≡ row = ground (arith, h, same) in
      let kept : p (k, q) ≡ true = rw ((==_iff k j).0 same, this) hp in
      rw kept (ground (arith, same))
  | inr other ↦
      let later = elem-kept p rest j row (ground (arith, h, other)) hp in ground (arith, later)
]

-- With a limit that covers the table, a due row that nobody has locked is taken.
taken :
    (now : ℕ) (locked : String → Bool) (limit : ℕ) (table : OutboxTable) (j : String)
    (row : OutboxRow)
    → length table ≤ limit
    → Dict.get table j ≡ some row
    → is_pending now row ≡ true
    → locked j ≡ false
    → elem j (keys (pending_rows now locked limit table)) ≡ true
unfolding pending_rows
taken now locked limit table j row h found due free =
    let p : String × OutboxRow → Bool = λ kv. is_pending now kv.1 && not (locked kv.0) in
    let short : length (order_by_occurred_at (filter p table)) ≤ limit =
      omega (arith, length-order_by_occurred_at (filter p table), length-filter p table) in
    rw
      (
        take-length limit (order_by_occurred_at (filter p table)) short,
        elem-order_by_occurred_at j (filter p table),
      )
      (elem-kept p table j row found (ground (arith, due, free)))

settled-is_pending :
    (b : Broker) (row : OutboxRow) (now : ℕ)
    → b.accepts row.event ≡ true
    → (is_pending now (settled b row) ≡ false)
      × ((settled b row).published_at ≡ some (b.published_time row.event))
unfolding settled is_pending is_none
settled-is_pending b row now h = (ground (arith, h), ground (arith, h))

-- A run of the publisher whose limit covers the table, which has each row under its event's id,
-- publishes every due event that nobody else has locked and that the broker takes: its row has the
-- broker's time afterwards and is never due again.
pub execute_drains :
    (b : Broker) (now : ℕ) (locked : String → Bool) (claim_id : String) (limit : ℕ)
    (table : OutboxTable) (j : String) (row : OutboxRow)
    → IsFunctional table
    → All (λ kv. kv.1.event.event_id ≡ kv.0) table
    → length table ≤ limit
    → Dict.get table j ≡ some row
    → is_pending now row ≡ true
    → locked j ≡ false
    → b.accepts row.event ≡ true
    → (after : OutboxRow) × (Dict.get (execute b now locked claim_id limit table).1 j ≡ some after)
      × (after.published_at ≡ some (b.published_time row.event))
      × ((later : ℕ) → is_pending later after ≡ false)
execute_drains b now locked claim_id limit table j row f own h found due free accepted =
    let mine = taken now locked limit table j row h found due free in
    (
      settled b row,
      (rw (mine, found) at (get-execute b now locked claim_id limit table j f own)),
      (settled-is_pending b row now accepted).1,
      λ later. (settled-is_pending b row later accepted).0,
    )
