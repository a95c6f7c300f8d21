-- ===== src/Bootstrap/Restored.antt =====
-- Blocks that leave open what was open before them, whatever raises.
use price_streaming.Prelude.{
  Action, All, Option-cases, Outcome, Outcome-cases, [], ap, arith, continue, inl, inr, ok, raise,
  refl, subst, sym, ℕ, ℕ_eq, ◌+◌, ◌<◌, ◌>>=◌, ◌∙◌, ◌∷◌, ◌≡◌, ◌≤◌,
}
use price_streaming.Dict
use price_streaming.Dict.{Dict}
use price_streaming.Bootstrap.{
  Resource, Call, Handles, Faults, open_handle, call, close_handle, close_socket, cancel_task,
  try_finally,
}

-- Objects have different numbers: those that are open are below the next one.
abbrev pub IsFresh : Handles → Type 0
IsFresh w = All (λ kv. kv.0 < w.fresh) w.opened

-- What is open afterwards is exactly what was open before.
pub record Restores {A : Type 0} (m : Action Handles A) : Type 0 where
  pub restores : (w : Handles) → IsFresh w → ((m w).1.opened ≡ w.opened) × (w.fresh ≤ (m w).1.fresh)

pub All-below :
    (n m : ℕ) (d : Dict ℕ Resource) → n ≤ m → All (λ kv. kv.0 < n) d → All (λ kv. kv.0 < m) d
All-below n m [] h a = tt
All-below n m ((k, r) ∷ d) h a = (omega (arith, a.0), All-below n m d h a.1)

remove-absent : (n : ℕ) (d : Dict ℕ Resource) → All (λ kv. kv.0 < n) d → Dict.remove d n ≡ d
unfolding Dict.remove
remove-absent n [] h = refl
remove-absent n ((k, r) ∷ d) h = ground (arith, h.0, remove-absent n d h.1)

pub remove-head :
    (n : ℕ) (r : Resource) (d : Dict ℕ Resource)
    → All (λ kv. kv.0 < n) d
    → Dict.remove ((n, r) ∷ d) n ≡ d
unfolding Dict.remove
remove-head n r d h = ground (arith, remove-absent n d h)

IsFresh-after :
    {A : Type 0} (m : Action Handles A) (w : Handles) → Restores m → IsFresh w → IsFresh (m w).1
IsFresh-after m w h f =
    let (same, more) = h.restores w f in
    subst (All (λ kv. kv.0 < (m w).1.fresh)) (sym same)
      (All-below w.fresh (m w).1.fresh w.opened more f)

pub Restores-call : (faults : Faults) (c : Call) → Restores (call faults c)
unfolding call
Restores-call faults c = record {
  restores = λ w f. elim (Option-cases (faults c)) [
    | inl fine ↦ rw (call, fine) (refl, omega arith)
    | inr (x, bad) ↦ rw (call, bad) (refl, omega arith)
  ];
}

pub Restores-result : {A : Type 0} (result : Outcome A) → Restores (λ w. (result, w))
Restores-result result = record { restores = λ w f. (refl, omega arith) }

-- A step, and then what is done with its result.
pub Restores-then :
    {A B : Type 0} (m : Action Handles A) (k : A → Action Handles B)
    → Restores m
    → ((a : A) → Restores (k a))
    → Restores (m >>= k)
Restores-then m k hm hk = record {
  restores = λ w f. elim (Outcome-cases (m w).0) [
    | inl (a, fine) ↦
        let first = hm.restores w f in
        let second = (hk a).restores (m w).1 (IsFresh-after m w hm f) in
        rw fine (second.0 ∙ first.0, omega (arith, first.1, second.1))
    | inr (x, bad) ↦ rw bad (hm.restores w f)
  ];
}

-- An object that is made before a `try` whose `finally` closes it, as its one cleanup or its last.
pub record Closes (cleanup : ℕ → Action Handles Unit) : Type 0 where
  pub closes :
      (handle : ℕ) (w : Handles)
      → ((cleanup handle w).1.opened ≡ Dict.remove w.opened handle)
        × ((cleanup handle w).1.fresh ≡ w.fresh)

pub Closes-close_handle : (faults : Faults) (c : Call) → Closes (close_handle faults c)
unfolding close_handle call
Closes-close_handle faults c = record {
  closes = λ handle w. elim (Option-cases (faults c)) [
    | inl fine ↦ rw (close_handle, call, fine) (refl, refl)
    | inr (x, bad) ↦ rw (close_handle, call, bad) (refl, refl)
  ];
}

pub Closes-close_socket : Closes close_socket
unfolding close_socket
Closes-close_socket = record { closes = λ handle w. (refl, refl) }

pub Closes-cancel_task : Closes cancel_task
unfolding cancel_task
Closes-cancel_task = record { closes = λ handle w. (refl, refl) }

pub state_of_continue :
    {S A B : Type 0} (o : Outcome A) (s : S) (result : Outcome B)
    → (continue o s (λ _ s'. (result, s'))).1 ≡ s
state_of_continue (ok a) s result = refl
state_of_continue (raise x) s result = refl

pub Restores-holding :
    {A : Type 0} (r : Resource) (cleanup : ℕ → Action Handles Unit) (body : ℕ → Action Handles A)
    → Closes cleanup
    → ((handle : ℕ) → Restores (body handle))
    → Restores (open_handle r >>= λ handle. try_finally (body handle) (cleanup handle))
unfolding open_handle try_finally
Restores-holding r cleanup body c h = record {
  restores = λ w f.
      let with_r : Handles = record { fresh = w.fresh + 1; opened = (w.fresh, r) ∷ w.opened } in
      let fresh_r : IsFresh with_r =
        (omega arith, All-below w.fresh (w.fresh + 1) w.opened (omega arith) f) in
      let (same, more) = (h w.fresh).restores with_r fresh_r in
      let after = (body w.fresh with_r).1 in
      let (gone, kept) = c.closes w.fresh after in
      let state =
        state_of_continue (cleanup w.fresh after).0 (cleanup w.fresh after).1
          (body w.fresh with_r).0 in
      let removed : Dict.remove ((w.fresh, r) ∷ w.opened) w.fresh ≡ w.opened =
        remove-head w.fresh r w.opened f in
      (
        ap (λ (s : Handles). s.opened) state
            ∙ gone
            ∙ ap (λ d. Dict.remove d w.fresh) same
            ∙ removed,
        omega (arith, ap (λ (s : Handles). s.fresh) state, kept, more),
      );
}
