-- ===== src/Pricing/Persist.antt =====
-- The registry against the table: each use case and the stored rows.
use price_streaming.Prelude.{
  ==_iff, Bool, Bool-cases, List, Option-cases, Outcome-cases, PyError, String, String_eq, arith,
  bind, database_error, false, if◌then◌else◌, inl, inr, nat_eq, ok, raise, refl, some, sym, true, ℕ,
  ◌==◌, ◌∙◌, ◌≡◌, ◌⊎◌,
}
use price_streaming.Dict
use price_streaming.Dict.{get-put, get-remove, IsFunctional, put-IsFunctional, All-put, All-of_get}
use price_streaming.Product.{Texts, to_decimal}
use price_streaming.Session.{MarketDataId, PricingSession, deactivated}
use price_streaming.Session.Store.{
  PricingSessionOrm, to_orm, save, commit, enter, exit, read_active, list_active,
}
use price_streaming.Session.Store.Roundtrip.{as_stored, read_active-to_orm, to_orm-as_stored}
use price_streaming.Pricing.Restore.{
  IsKeyedTable, get-restore_shard, restore_shard_fails, active_session, active_session-row,
  id-read_active,
}
use price_streaming.Pricing.{
  Pricing, Env, RfqRegisteredEvent, register, unregister, with_uow, save_and_commit, price, publish,
  price_and_publish, activate, handle_registered, stop, apply_change, restore_shard,
}
use price_streaming.Pricing.Release.{IsKeyed}

-- Every registered session stands under its own id, and its row is the one that is committed.
pub record IsPersisted (t : Texts) (s : Pricing) : Type 0 where
  pub keyed : IsKeyed s.registry
  pub stored :
      (j : String) (v : PricingSession)
      → Dict.get s.registry j ≡ some v
      → bind (to_orm t v) (λ r. ok (some r)) ≡ ok (Dict.get s.table j)
  pub one_row : IsFunctional s.table
  pub keyed_rows : IsKeyedTable s.table
  -- A session that is read from a row would be saved as that same row.
  pub canonical :
      (j : String) (r : PricingSessionOrm) (v : PricingSession)
      → Dict.get s.table j ≡ some r
      → read_active t r ≡ ok v
      → to_orm t v ≡ ok r

-- Where only the market, the publications and the random numbers differ.
pub record SameSessions (s s' : Pricing) : Type 0 where
  pub same_registry : s'.registry ≡ s.registry
  pub same_table : s'.table ≡ s.table

module _ (env : Env) where
  id-to_orm :
      (v : PricingSession) (r : PricingSessionOrm)
      → to_orm env.texts v ≡ ok r
      → r.request_id ≡ v.request.request_id
  unfolding to_orm
  id-to_orm v r h = ground arith

  -- A save that is committed puts the session's row; any other changes nothing.
  pub with_uow-save_and_commit :
      (v : PricingSession) (s : Pricing)
      → ((r : PricingSessionOrm) × (to_orm env.texts v ≡ ok r)
          × (with_uow (save_and_commit env v) s
              ≡ (ok tt, record s { table = Dict.put s.table v.request.request_id r })))
        ⊎ ((x : PyError) × (with_uow (save_and_commit env v) s ≡ (raise x, s)))
  unfolding with_uow save_and_commit save commit enter exit
  with_uow-save_and_commit v s = elim (Outcome-cases (to_orm env.texts v)) [
    | inr (x, hx) ↦ inr (x, ground (arith, hx))
    | inl (r, hr) ↦ elim (Bool-cases env.commit_ok) [
      | inl yes_ok ↦ inl (r, hr, ground (arith, hr, yes_ok, id-to_orm v r hr))
      | inr not_ok ↦ inr (database_error, ground (arith, hr, not_ok))
    ]
  ]

  pub price_and_publish-SameSessions :
      (v : PricingSession) (ds : List MarketDataId) (s : Pricing)
      → SameSessions s (price_and_publish env v ds s).1
  unfolding price_and_publish price publish
  price_and_publish-SameSessions v ds s = ground arith

  to_orm-read_active :
      (v v' : PricingSession) (r : PricingSessionOrm)
      → to_orm env.texts v ≡ ok r
      → read_active env.texts r ≡ ok v'
      → to_orm env.texts v' ≡ ok r
  to_orm-read_active v v' r h h' =
      let e : as_stored env.texts v ≡ v' = cc (read_active-to_orm env.texts v r h, h') in
      rw (← e) (to_orm-as_stored env.texts v ∙ h)

  put_row-canonical :
      (v : PricingSession) (k : String) (r : PricingSessionOrm) (s : Pricing)
      → IsPersisted env.texts s
      → to_orm env.texts v ≡ ok r
      → (j : String) (r' : PricingSessionOrm) (v' : PricingSession)
      → Dict.get (Dict.put s.table k r) j ≡ some r'
      → read_active env.texts r' ≡ ok v'
      → to_orm env.texts v' ≡ ok r'
  put_row-canonical v k r s p h j r' v' e e' = elim (Bool-cases (k == j)) [
    | inl same ↦
        let q : r ≡ r' = ground (arith, e, get-put s.table k j r, same) in
        rw (← q) (to_orm-read_active v v' r h (rw q e'))
    | inr other ↦ p.canonical j r' v' (ground (arith, e, get-put s.table k j r, other)) e'
  ]

  pub put-IsPersisted :
      (v : PricingSession) (r : PricingSessionOrm) (s : Pricing)
      → IsPersisted env.texts s
      → to_orm env.texts v ≡ ok r
      → IsPersisted env.texts (record s {
        registry = register s.registry v;
        table = Dict.put s.table v.request.request_id r;
      })
  unfolding register
  put-IsPersisted v r s p h = record {
    keyed = λ j w e. ground (
      arith,
      p.keyed j w,
      get-put s.registry v.request.request_id j v,
      ==_iff v.request.request_id j,
    );
    stored = λ j w e. ground (
      arith,
      h,
      p.stored j w,
      get-put s.registry v.request.request_id j v,
      get-put s.table v.request.request_id j r,
      ==_iff v.request.request_id j,
    );
    one_row = put-IsFunctional s.table v.request.request_id r p.one_row;
    keyed_rows =
        All-put (λ k r'. r'.request_id ≡ k) s.table v.request.request_id r p.keyed_rows
          (id-to_orm v r h);
    canonical = put_row-canonical v v.request.request_id r s p h;
  }

  remove-IsPersisted :
      (k : String) (v : PricingSession) (r : PricingSessionOrm) (s : Pricing)
      → IsPersisted env.texts s
      → v.request.request_id ≡ k
      → to_orm env.texts v ≡ ok r
      → IsPersisted env.texts
          (record s { registry = unregister s.registry k; table = Dict.put s.table k r })
  unfolding unregister
  remove-IsPersisted k v r s p same h = record {
    keyed = λ j w e. ground (arith, p.keyed j w, get-remove s.registry k j);
    stored =
        λ j w e. ground (arith, p.stored j w, get-remove s.registry k j, get-put s.table k j r);
    one_row = put-IsFunctional s.table k r p.one_row;
    keyed_rows =
        All-put (λ j r'. r'.request_id ≡ j) s.table k r p.keyed_rows (id-to_orm v r h ∙ same);
    canonical = put_row-canonical v k r s p h;
  }

  pub SameSessions-IsPersisted :
      (s s' : Pricing) → SameSessions s s' → IsPersisted env.texts s → IsPersisted env.texts s'
  SameSessions-IsPersisted s s' q p = record {
    keyed = rw q.same_registry p.keyed;
    stored = rw (q.same_registry, q.same_table) p.stored;
    one_row = rw q.same_table p.one_row;
    keyed_rows = rw q.same_table p.keyed_rows;
    canonical = rw q.same_table p.canonical;
  }

  -- What follows a save that was committed: the registry is updated, and a price may go out.
  pub priced-IsPersisted :
      (v : PricingSession) (ds : List MarketDataId) (b : Bool) (s' : Pricing)
      → IsPersisted env.texts s'
      → IsPersisted env.texts (if b then price_and_publish env v ds s' else (ok tt, s')).1
  priced-IsPersisted v ds true s' p' =
      SameSessions-IsPersisted s' _ (price_and_publish-SameSessions v ds s') p'
  priced-IsPersisted v ds false s' p' = p'

  pub activate-IsPersisted :
      (v : PricingSession) (s : Pricing)
      → IsPersisted env.texts s
      → IsPersisted env.texts (activate env v s).1
  unfolding activate
  activate-IsPersisted v s p = elim (with_uow-save_and_commit v s) [
    | inr (x, hx) ↦ rw hx p
    | inl (r, hr, e) ↦ rw e (priced-IsPersisted v _ _ _ (put-IsPersisted v r s p hr))
  ]

  pub apply_change-IsPersisted :
      (v : PricingSession) (s : Pricing)
      → IsPersisted env.texts s
      → IsPersisted env.texts (apply_change env v s).1
  unfolding apply_change
  apply_change-IsPersisted v s p = elim (with_uow-save_and_commit v s) [
    | inr (x, hx) ↦ rw hx p
    | inl (r, hr, e) ↦ rw e (priced-IsPersisted v _ _ _ (put-IsPersisted v r s p hr))
  ]

  pub handle_registered-IsPersisted :
      (event : RfqRegisteredEvent) (s : Pricing)
      → IsPersisted env.texts s
      → IsPersisted env.texts (handle_registered env event s).1
  unfolding handle_registered
  handle_registered-IsPersisted event s p =
      elim (Outcome-cases (to_decimal env.texts event.product.notional)) [
        | inr (x, hx) ↦ rw (hx, handle_registered) p
        | inl (d, hd) ↦ rw (hd, handle_registered) (activate-IsPersisted _ s p)
      ]

  pub id-deactivated :
      (v : PricingSession) → (deactivated v).request.request_id ≡ v.request.request_id
  unfolding deactivated
  id-deactivated v = refl

  pub table-restore_shard :
      (resolve : String → ℕ) (shard : ℕ) (s : Pricing)
      → (restore_shard resolve shard env s).1.table ≡ s.table
  unfolding restore_shard
  table-restore_shard resolve shard s = ground arith

  -- A session found after a restore was there before it, or was read from its row.
  restored_source :
      (resolve : String → ℕ) (shard : ℕ) (s : Pricing) (ss : List PricingSession) (j : String)
      (v : PricingSession)
      → IsPersisted env.texts s
      → list_active env.texts s.table ≡ ok ss
      → Dict.get (restore_shard resolve shard env s).1.registry j ≡ some v
      → (Dict.get s.registry j ≡ some v)
        ⊎ ((r : PricingSessionOrm) × (Dict.get s.table j ≡ some r)
            × (read_active env.texts r ≡ ok v))
  restored_source resolve shard s ss j v p hs e =
      let q = sym (get-restore_shard env resolve shard s j ss p.one_row p.keyed_rows hs) ∙ e in
      elim (Bool-cases (nat_eq (resolve j) shard)) [
        | inr other ↦ inl (ground (arith, q, other))
        | inl here ↦ elim (Option-cases (active_session env.texts (Dict.get s.table j))) [
          | inl absent ↦ inl (ground (arith, q, here, absent))
          | inr (w, found) ↦
              inr (
                active_session-row env.texts (Dict.get s.table j) v
                  (ground (arith, q, here, found)))
        ]
      ]

  pub stop-IsPersisted :
      (k : String) (s : Pricing) → IsPersisted env.texts s → IsPersisted env.texts (stop env k s).1
  unfolding stop
  stop-IsPersisted k s p = elim (Option-cases (Dict.get s.registry k)) [
    | inl absent ↦ rw (absent, stop) p
    | inr (v, found) ↦
        rw (found, stop)
          (elim (with_uow-save_and_commit (deactivated v) s) [
            | inr (x, hx) ↦ rw hx p
            | inl (r, hr, e) ↦
                let same = p.keyed k v found in
                rw (e, id-deactivated v, same)
                  (remove-IsPersisted k (deactivated v) r s p (id-deactivated v ∙ same) hr)
          ])
  ]

  pub restore_shard-IsPersisted :
      (resolve : String → ℕ) (shard : ℕ) (s : Pricing)
      → IsPersisted env.texts s
      → IsPersisted env.texts (restore_shard resolve shard env s).1
  restore_shard-IsPersisted resolve shard s p =
      elim (Outcome-cases (list_active env.texts s.table)) [
        | inr (x, hx) ↦ rw (restore_shard_fails env resolve shard s x hx) p
        | inl (ss, hs) ↦ record {
          keyed = λ j v e. elim (restored_source resolve shard s ss j v p hs e) [
            | inl old ↦ p.keyed j v old
            | inr (r, hr, h) ↦
                id-read_active env.texts r v h
                ∙ All-of_get (λ k r'. r'.request_id ≡ k) s.table j p.keyed_rows hr
          ];
          stored = λ j v e.
              rw (table-restore_shard resolve shard s)
                (elim (restored_source resolve shard s ss j v p hs e) [
                  | inl old ↦ p.stored j v old
                  | inr (r, hr, h) ↦ rw (hr, p.canonical j r v hr h)
                ]);
          one_row = rw (table-restore_shard resolve shard s) p.one_row;
          keyed_rows = rw (table-restore_shard resolve shard s) p.keyed_rows;
          canonical = rw (table-restore_shard resolve shard s) p.canonical;
        }
      ]
