-- ===== src/Pricing/Run.antt =====
-- Everything that a pricing worker does to its sessions, in any order.
use price_streaming.Prelude.{
  Action, All, Bool-cases, List, Option-cases, Outcome, Outcome-cases, PyError, String, String_eq,
  [], arith, attribute_error, continue, if_ind, inl, inr, leb, modify, nat_eq, none, ok, raise,
  refl, runtime_error, some, subst, sym, ℕ, ◌∙◌, ◌∷◌, ◌≡◌, ◌≤◌,
}
use price_streaming.Dict
use price_streaming.Product.{Decimal, Texts}
use price_streaming.Session.{MarketDataId, PricingSession}
use price_streaming.Pricing.{
  Pricing, Env, RfqRegisteredEvent, handle_registered, stop, change_found, find_session,
  load_request, change, reprice, reprice_all, handle_market_data, restore_shard, release_shard,
  list_all,
}
use price_streaming.Market
use price_streaming.Session.Store.{get_by_id, save, read_row}
use price_streaming.Session.Store.Roundtrip.{to_orm-read_row}
use price_streaming.Pricing.Release.{get-release_shard}
use price_streaming.Pricing.Persist.{
  IsPersisted, SameSessions, price_and_publish-SameSessions, SameSessions-IsPersisted,
  apply_change-IsPersisted, handle_registered-IsPersisted, stop-IsPersisted,
  restore_shard-IsPersisted,
}

-- A call of one of the use cases, with its arguments.
pub data Command : Type 0 where
  registered : RfqRegisteredEvent → Command
  changed : (request_id : String) (revision : ℕ) → Command
  stopped : (request_id : String) → Command
  market_data : MarketDataId → Decimal → Command
  restored released : (shard : ℕ) → Command

pub run : (String → ℕ) → Env → Command → Action Pricing Unit
run resolve env (registered event) = handle_registered env event
run resolve env (changed request_id revision) = change env request_id revision
run resolve env (stopped request_id) = stop env request_id
run resolve env (market_data i v) = handle_market_data env i v
run resolve env (restored shard) = restore_shard resolve shard env
run resolve env (released shard) = modify (release_shard resolve shard)

-- A history: commands, each with the world that it met. What one raises ends that command only.
pub run_all : (String → ℕ) → List (Env × Command) → Pricing → Pricing
run_all resolve [] s = s
run_all resolve ((env, c) ∷ rest) s = run_all resolve rest (run resolve env c s).1

module _ (env : Env) where
  SameSessions-refl : (s : Pricing) → SameSessions s s
  SameSessions-refl s = record { same_registry = refl; same_table = refl }

  reprice-SameSessions :
      (i : MarketDataId) (v : PricingSession) (s : Pricing) → SameSessions s (reprice env i v s).1
  unfolding reprice
  reprice-SameSessions i v s =
      if_ind (λ (q : Outcome Unit × Pricing). SameSessions s q.1) _
        (price_and_publish-SameSessions env v v.dependencies s) (SameSessions-refl s)

  continue-IsPersisted :
      (o : Outcome Unit) (s : Pricing) (k : Action Pricing Unit)
      → IsPersisted env.texts s
      → IsPersisted env.texts (k s).1
      → IsPersisted env.texts (continue o s (λ _. k)).1
  continue-IsPersisted (ok _) s k p q = q
  continue-IsPersisted (raise x) s k p q = p

  reprice_all-IsPersisted :
      (i : MarketDataId) (vs : List PricingSession) (s : Pricing)
      → IsPersisted env.texts s
      → IsPersisted env.texts (reprice_all env i vs s).1
  unfolding reprice_all
  reprice_all-IsPersisted i [] s p = p
  reprice_all-IsPersisted i (v ∷ vs) s p =
      let s' = (reprice env i v s).1 in
      let p' = SameSessions-IsPersisted env s s' (reprice-SameSessions i v s) p in
      continue-IsPersisted (reprice env i v s).0 s' (reprice_all env i vs) p'
        (reprice_all-IsPersisted i vs s' p')

  change_found-IsPersisted :
      (k : String) (revision : ℕ) (v : PricingSession) (s : Pricing)
      → IsPersisted env.texts s
      → IsPersisted env.texts (change_found env k revision v s).1
  unfolding change_found
  change_found-IsPersisted k revision v s p = elim (Bool-cases (leb revision v.request.revision)) [
    | inl stale ↦ rw stale p
    | inr fresh ↦ rw fresh (elim (Outcome-cases (load_request env k revision s.requests)) [
      | inr (x, hx) ↦ rw hx p
      | inl (q, hq) ↦ rw hq (apply_change-IsPersisted env _ s p)
    ])
  ]

  find_session-state : (k : String) (s : Pricing) → (find_session env k s).1 ≡ s
  unfolding find_session
  find_session-state k s = ground arith

  change-IsPersisted :
      (k : String) (revision : ℕ) (s : Pricing)
      → IsPersisted env.texts s
      → IsPersisted env.texts (change env k revision s).1
  unfolding change
  change-IsPersisted k revision s p = elim (Outcome-cases (find_session env k s).0) [
    | inr (x, hx) ↦ rw (hx, find_session-state) p
    | inl (v, hv) ↦ rw (hv, find_session-state) (change_found-IsPersisted k revision v s p)
  ]

  find_session_unregistered :
      (k : String) (s : Pricing)
      → Dict.get s.registry k ≡ none
      → (x : PyError) × (find_session env k s ≡ (raise x, s))
  unfolding find_session get_by_id save
  find_session_unregistered k s absent = elim (Option-cases (Dict.get s.table k)) [
    | inl no_row ↦ (runtime_error, ground (arith, absent, no_row))
    | inr (r, row) ↦ elim (Outcome-cases (read_row env.texts r)) [
      | inr (x, hx) ↦ (x, ground (arith, absent, row, hx))
      | inl (v, hv) ↦
          (attribute_error, ground (arith, absent, row, hv, to_orm-read_row env.texts r v hv))
    ]
  ]

  -- A change of an RFQ whose session is not registered always raises, and changes nothing: the
  -- session is missing from the table, cannot be read, or cannot be saved again because the
  -- status that `get_by_id` gives it is a text.
  pub change_unregistered :
      (k : String) (revision : ℕ) (s : Pricing)
      → Dict.get s.registry k ≡ none
      → (x : PyError) × (change env k revision s ≡ (raise x, s))
  unfolding change
  change_unregistered k revision s absent =
      let (x, h) = find_session_unregistered k s absent in (x, rw (change, h))

  -- A change to a revision that is not newer than the registered one is ignored.
  pub change_stale :
      (k : String) (revision : ℕ) (s : Pricing) (v : PricingSession)
      → Dict.get s.registry k ≡ some v
      → revision ≤ v.request.revision
      → change env k revision s ≡ (ok tt, s)
  unfolding change find_session change_found
  change_stale k revision s v found old = ground arith

pub release_shard-IsPersisted :
    (t : Texts) (resolve : String → ℕ) (shard : ℕ) (s : Pricing)
    → IsPersisted t s
    → IsPersisted t (release_shard resolve shard s)
unfolding release_shard
release_shard-IsPersisted t resolve shard s p = record {
  keyed = λ j v e. p.keyed j v (kept j v e);
  stored = λ j v e. p.stored j v (kept j v e);
  one_row = p.one_row;
  keyed_rows = p.keyed_rows;
  canonical = p.canonical;
}
  where
    kept :
        (j : String) (v : PricingSession)
        → Dict.get (release_shard resolve shard s).registry j ≡ some v
        → Dict.get s.registry j ≡ some v
    kept j v e =
        let q = sym (get-release_shard resolve shard s j p.keyed) ∙ e in
        elim (Bool-cases (nat_eq (resolve j) shard)) [
          | inl here ↦ absurd (cc (rw here at q))
          | inr other ↦ rw other at q
        ]

module _ (resolve : String → ℕ) where
  run-IsPersisted :
      (env : Env) (c : Command) (s : Pricing)
      → IsPersisted env.texts s
      → IsPersisted env.texts (run resolve env c s).1
  unfolding run handle_market_data
  run-IsPersisted env (registered event) s p = handle_registered-IsPersisted env event s p
  run-IsPersisted env (changed k revision) s p = change-IsPersisted env k revision s p
  run-IsPersisted env (stopped k) s p = stop-IsPersisted env k s p
  run-IsPersisted env (market_data i v) s p =
      reprice_all-IsPersisted env i (list_all s.registry) _ (
        SameSessions-IsPersisted env s (record s { market = Market.update s.market i v })
          (record { same_registry = refl; same_table = refl }) p)
  run-IsPersisted env (restored shard) s p = restore_shard-IsPersisted env resolve shard s p
  run-IsPersisted env (released shard) s p = release_shard-IsPersisted env.texts resolve shard s p

  -- Whatever use cases run, in any order, with commits and publications that fail or not, from a
  -- worker where this holds and with the same text forms: every registered session stands under its
  -- own id and its row is committed, a restarted worker would save what it reads back as the row
  -- that it was, and the table has one row to a key.
  pub run_all-IsPersisted :
      (t : Texts) (history : List (Env × Command)) (s : Pricing)
      → All (λ ec. ec.0.texts ≡ t) history
      → IsPersisted t s
      → IsPersisted t (run_all resolve history s)
  unfolding run_all
  run_all-IsPersisted t [] s h p = p
  run_all-IsPersisted t ((env, c) ∷ rest) s h p =
      run_all-IsPersisted t rest (run resolve env c s).1 h.1 (
        subst (λ t'. IsPersisted t' (run resolve env c s).1) h.0
          (run-IsPersisted env c s (subst (λ t'. IsPersisted t' s) (sym h.0) p)))
