-- ===== src/Pricing/Restore.antt =====
-- What restoring a shard brings into the registry.
use price_streaming.Prelude.{
  ==_iff, All, Bool-cases, List, Option, Outcome-cases, PyError, String, String_eq, [], arith,
  if◌then◌else◌, inl, inr, nat_eq, none, ok, raise, refl, some, ℕ, ◌==◌, ◌∷◌, ◌≡◌,
}
use price_streaming.Dict
use price_streaming.Dict.{values, get-put, IsFunctional}
use price_streaming.Product.{Texts}
use price_streaming.Session.{PricingSession, to_str, active}
use price_streaming.Session.Store.{
  PricingSessionOrm, SessionTable, read_active, read_request, read_rows, list_active,
}
use price_streaming.Pricing.{
  Registry, Pricing, Env, register, restore_sessions, restore_shard, release_shard,
}
use price_streaming.Pricing.Release.{IsKeyed, get-release_shard}

-- The session that a list holds last under a request id.
unfoldable pub find_last : String → List PricingSession → Option PricingSession
find_last j [] = none
find_last j (s ∷ ss) = elim (find_last j ss) [
  | some s' ↦ some s'
  | none ↦ if s.request.request_id == j then some s else none
]

-- `some` value, or else the other one.
abbrev pub first_some : Option PricingSession → Option PricingSession → Option PricingSession
first_some (some s) o = some s
first_some none o = o

module _ (resolve : String → ℕ) (shard : ℕ) where
  pub get-restore_sessions :
      (ss : List PricingSession) (reg : Registry) (j : String)
      → Dict.get (restore_sessions resolve shard ss reg) j ≡ (
          if nat_eq (resolve j) shard
          then first_some (find_last j ss) (Dict.get reg j)
          else Dict.get reg j)
  unfolding restore_sessions register find_last
  get-restore_sessions [] reg j = ground arith
  get-restore_sessions (s ∷ ss) reg j =
      let id = s.request.request_id in
      elim (Bool-cases (nat_eq (resolve id) shard)) [
        | inl here ↦ rw here (
            ground (
              arith,
              get-restore_sessions ss (Dict.put reg id s) j,
              get-put reg id j s,
              ==_iff id j,
            ))
        | inr other ↦ rw other (ground (arith, get-restore_sessions ss reg j, ==_iff id j))
      ]

-- The session that a stored row stands for, if it is active.
pub active_session : Texts → Option PricingSessionOrm → Option PricingSession
active_session t none = none
active_session t (some r) =
    if r.row_status == to_str active
    then elim (read_active t r) [ ok s ↦ some s | raise x ↦ none ]
    else none

pub active_session-row :
    (t : Texts) (o : Option PricingSessionOrm) (v : PricingSession)
    → active_session t o ≡ some v
    → (r : PricingSessionOrm) × (o ≡ some r) × (read_active t r ≡ ok v)
unfolding active_session
active_session-row t none v h = absurd (cc h)
active_session-row t (some r) v h = (r, refl, ground arith)

-- Each row stands under its primary key.
abbrev pub IsKeyedTable : SessionTable → Type 0
IsKeyedTable table = All (λ kv. kv.1.request_id ≡ kv.0) table

module _ (t : Texts) where
  pub id-read_active :
      (r : PricingSessionOrm) (s : PricingSession)
      → read_active t r ≡ ok s
      → s.request.request_id ≡ r.request_id
  unfolding read_active read_request
  id-read_active r s h = ground arith

  find_last-read_rows :
      (table : SessionTable) (ss : List PricingSession) (j : String)
      → IsFunctional table
      → IsKeyedTable table
      → read_rows t (values table) ≡ ok ss
      → find_last j ss ≡ active_session t (Dict.get table j)
  unfolding read_rows find_last active_session Dict.get
  find_last-read_rows [] [] j f k h = refl
  find_last-read_rows [] (s ∷ ss) j f k h = cc
  find_last-read_rows ((i, r) ∷ table) ss j f k h =
      elim (Bool-cases (r.row_status == to_str active)) [
        | inr other ↦
            let ih = find_last-read_rows table ss j f.1 k.1 (rw other at h) in
            ground (arith, ih, f.0, ==_iff i j)
        | inl is_active ↦ elim (Outcome-cases (read_active t r)) [
          | inr (x, hx) ↦ absurd (cc (rw (is_active, hx) at h))
          | inl (s, hs) ↦ elim (Outcome-cases (read_rows t (values table))) [
            | inr (x, hx) ↦ absurd (cc (rw (is_active, hs, hx) at h))
            | inl (ss', hss) ↦
                let e : ok (s ∷ ss') ≡ ok ss = rw (is_active, hs, hss) at h in
                let e' : s ∷ ss' ≡ ss = cc e in
                rw (← e') (
                  ground (
                    arith,
                    find_last-read_rows table ss' j f.1 k.1 hss,
                    f.0,
                    k.0,
                    hs,
                    id-read_active r s hs,
                    ==_iff i j,
                    ==_iff s.request.request_id j,
                    is_active,
                  ))
          ]
        ]
      ]

module _ (env : Env) (resolve : String → ℕ) (shard : ℕ) where
  -- When the active rows can be read, restoring a shard puts into the registry, for every request
  -- id of the shard, the session of its stored row if that is active, keeps what stood there if it
  -- is not, and changes no session of another shard. The table has one row to a key.
  pub get-restore_shard :
      (s : Pricing) (j : String) (ss : List PricingSession)
      → IsFunctional s.table
      → IsKeyedTable s.table
      → list_active env.texts s.table ≡ ok ss
      → Dict.get (restore_shard resolve shard env s).1.registry j ≡ (
          if nat_eq (resolve j) shard
          then first_some (active_session env.texts (Dict.get s.table j)) (Dict.get s.registry j)
          else Dict.get s.registry j)
  unfolding restore_shard
  get-restore_shard s j ss f k h = ground (
    arith,
    h,
    get-restore_sessions resolve shard ss s.registry j,
    find_last-read_rows env.texts s.table ss j f k h,
  )

  -- When the sessions stand under their own ids, the table has one row to a key and the active rows
  -- can be read: after a release, a restore of the same shard makes its part of the registry the
  -- active rows of the table and nothing else; the rest of the registry is untouched.
  pub restore_shard-release_shard :
      (s : Pricing) (j : String) (ss : List PricingSession)
      → IsKeyed s.registry
      → IsFunctional s.table
      → IsKeyedTable s.table
      → list_active env.texts s.table ≡ ok ss
      → Dict.get (restore_shard resolve shard env (release_shard resolve shard s)).1.registry j ≡ (
          if nat_eq (resolve j) shard
          then active_session env.texts (Dict.get s.table j)
          else Dict.get s.registry j)
  unfolding release_shard active_session
  restore_shard-release_shard s j ss keyed f k h =
      let e = get-restore_shard (release_shard resolve shard s) j ss f k h in
      ground (arith, e, get-release_shard resolve shard s j keyed)

  -- If a row cannot be read, the restore raises and the worker is as it was.
  pub restore_shard_fails :
      (s : Pricing) (x : PyError)
      → list_active env.texts s.table ≡ raise x
      → restore_shard resolve shard env s ≡ (raise x, s)
  unfolding restore_shard
  restore_shard_fails s x h = ground arith

  -- When the active rows can be read, a restore changes the registry alone.
  pub restore_shard_ok :
      (s : Pricing) (ss : List PricingSession)
      → list_active env.texts s.table ≡ ok ss
      → restore_shard resolve shard env s
        ≡ (ok tt, record s { registry = restore_sessions resolve shard ss s.registry })
  unfolding restore_shard
  restore_shard_ok s ss h = ground (arith, h)
