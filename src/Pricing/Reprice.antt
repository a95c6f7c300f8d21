-- ===== src/Pricing/Reprice.antt =====
-- Which prices a market update sends out, and what stopping a session leaves.
use price_streaming.Prelude.{
  ==_iff, All, Bool-cases, List, Option-cases, String, String_eq, [], arith, elem, filter,
  if◌then◌else◌, inl, inr, length, none, ok, some, true, ℕ, ◌&&◌, ◌++◌, ◌+◌, ◌==◌, ◌∷◌, ◌≡◌,
}
use mathlib.Core.List.{append-nil, append_assoc}
use native.Mathlib.Nat.{add-zero}
use price_streaming.Dict
use price_streaming.Dict.{get-put, get-empty}
use price_streaming.Product.{Decimal}
use price_streaming.Session.{MarketDataId, PricingSession}
use price_streaming.Market
use price_streaming.Market.{MarketState, jpy_ois, contains_all, is_known, snapshot, market_rate}
use price_streaming.Pricing.{
  Pricing, Env, price, publish, price_and_publish, reprice, reprice_all, handle_market_data,
  list_all,
}

-- The sessions that a market update concerns: those that depend on the updated data, and whose
-- dependencies are all known.
abbrev pub affected : MarketDataId → MarketState → List PricingSession → List PricingSession
affected i m = filter (λ v. elem i v.dependencies && contains_all m v.dependencies)

-- One update for each session, in order, each with the next random number.
pub updates : Env → ℕ → List PricingSession → List (String × Decimal)
updates env n [] = []
updates env n (v ∷ vs) = (v.request.request_id, env.random n) ∷ updates env (n + 1) vs

-- A snapshot holds what the market holds, for the ids that it was taken of.
pub get-snapshot :
    (m : MarketState) (ds : List MarketDataId) (i : MarketDataId)
    → Dict.get (snapshot m ds) i ≡ (if elem i ds then Dict.get m i else none)
unfolding snapshot
get-snapshot m [] i = get-empty i
get-snapshot m (d ∷ ds) i = elim (Option-cases (Dict.get m d)) [
  | inl absent ↦ ground (arith, get-snapshot m ds i, ==_iff d i, absent)
  | inr (v, known) ↦
      ground (arith, get-snapshot m ds i, ==_iff d i, known, get-put (snapshot m ds) d i v)
]

-- If all of some ids are known, each of them is.
contains_all-elem :
    (m : MarketState) (ds : List MarketDataId) (i : MarketDataId)
    → elem i ds ≡ true
    → contains_all m ds ≡ true
    → (v : Decimal) × (Dict.get m i ≡ some v)
unfolding contains_all is_known
contains_all-elem m [] i h k = absurd (cc h)
contains_all-elem m (d ∷ ds) i h k = elim (Option-cases (Dict.get m i)) [
  | inr found ↦ found
  | inl absent ↦ elim (Bool-cases (d == i)) [
    | inl same ↦ absurd (ground (arith, k, absent, (==_iff d i).0 same))
    | inr other ↦ contains_all-elem m ds i (ground (arith, h, other)) (ground (arith, k))
  ]
]

module _ (env : Env) (all_published : (k : String) → env.publish_ok k ≡ true) where
  -- A session with all its data gets one price, and is published under its own id.
  price_and_publish_lem :
      (v : PricingSession) (s : Pricing)
      → elem jpy_ois v.dependencies ≡ true
      → contains_all s.market v.dependencies ≡ true
      → price_and_publish env v v.dependencies s ≡ (
        ok tt,
        record s {
          published = s.published ++ (v.request.request_id, env.random s.draws) ∷ [];
          draws = s.draws + 1;
        },
      )
  unfolding price_and_publish price publish market_rate
  price_and_publish_lem v s h k =
      let (rate, known) = contains_all-elem s.market v.dependencies jpy_ois h k in
      ground (
        arith,
        get-snapshot s.market v.dependencies jpy_ois,
        h,
        known,
        all_published v.request.request_id,
      )

  -- The loop over the sessions.
  reprice_all_lem :
      (i : MarketDataId) (vs : List PricingSession) (s : Pricing)
      → All (λ v. elem jpy_ois v.dependencies ≡ true) vs
      → reprice_all env i vs s ≡ (
        ok tt,
        record s {
          published = s.published ++ updates env s.draws (affected i s.market vs);
          draws = s.draws + length (affected i s.market vs);
        },
      )
  unfolding reprice_all reprice updates
  reprice_all_lem i [] s h = rw (append-nil, add-zero)
  reprice_all_lem i (v ∷ vs) s h =
      elim (Bool-cases (elem i v.dependencies && contains_all s.market v.dependencies)) [
        | inr skipped ↦ rw skipped (reprice_all_lem i vs s h.1)
        | inl hit ↦
            let s' = record s {
              published = s.published ++ (v.request.request_id, env.random s.draws) ∷ [];
              draws = s.draws + 1;
            } in
            rw
              (
                hit,
                price_and_publish_lem v s h.0 (ground (arith, hit)),
                reprice_all_lem i vs s' h.1,
              )
              (rw append_assoc (ground arith))
      ]

  -- When every publication succeeds and every session depends on JPY-OIS, a market update stores
  -- the value and publishes, in the order of the registry, exactly one price for each session that
  -- depends on the data and has all its data, under the session's own request id. Sessions and
  -- rows are untouched.
  pub handle_market_data_lem :
      (i : MarketDataId) (value : Decimal) (s : Pricing)
      → All (λ v. elem jpy_ois v.dependencies ≡ true) (list_all s.registry)
      → handle_market_data env i value s ≡ (
          let m = Market.update s.market i value in
          (
            ok tt,
            record s {
              market = m;
              published = s.published ++ updates env s.draws (affected i m (list_all s.registry));
              draws = s.draws + length (affected i m (list_all s.registry));
            },
          ))
  unfolding handle_market_data
  handle_market_data_lem i value s h =
      reprice_all_lem i (list_all s.registry) (record s { market = Market.update s.market i value })
        h
