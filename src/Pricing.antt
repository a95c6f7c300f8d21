-- ===== src/Pricing.antt =====
-- The pricing worker's use cases: application/pricing/use_case/*.py over the in-memory registry
-- (infrastructure/.../in_memory_pricing_session_store.py), the session table, the market state,
-- and the request repository (infrastructure/domain/pricing_request/repository).
pub mod Release
pub mod Restore
pub mod Listener
pub mod Persist
pub mod Run
pub mod Reprice
use price_streaming.Prelude.{
  Action, Bool, List, Outcome, String, String_eq, [], bind, broker_error, continue, database_error,
  elem, filter, if◌then◌else◌, leb, modify, nat_eq, none, ok, raise, runtime_error, some, ℕ, ◌&&◌,
  ◌++◌, ◌+◌, ◌==◌, ◌>>=◌, ◌>>◌, ◌∷◌,
}
use price_streaming.Dict
use price_streaming.Dict.{Dict, values}
use price_streaming.Product.{
  Decimal, Texts, Notional, InterestRateSwap, to_decimal, parse_date, pay_receive, currency,
}
use price_streaming.Session.{
  MarketDataId, SwapPricingRequest, PricingSession, active, status, with_new_request,
  with_new_dependencies, deactivated,
}
use price_streaming.Session.Store.{
  PricingSessionOrm, SessionTable, Uow, enter, commit, exit, save, get_by_id, list_active,
}
use price_streaming.Market
use price_streaming.Market.{MarketState, jpy_ois, contains_all, snapshot, market_rate}

-- `InMemoryPricingSessionRegistry._sessions`
abbrev pub Registry : Type 0
Registry = Dict String PricingSession

unfoldable pub register : Registry → PricingSession → Registry
register reg s = Dict.put reg s.request.request_id s

unfoldable pub unregister : Registry → String → Registry
unregister reg request_id = Dict.remove reg request_id

-- `list_all`
unfoldable pub list_all : Registry → List PricingSession
list_all reg = values reg

-- `PricingRequestOrm`, with its JSON column laid out.
pub record PricingRequestOrm : Type 0 where
  pub request_id : String
  pub revision : ℕ
  pub notional : String
  pub effective_date : String
  pub maturity_date : String
  pub fixed_leg : String
  pub swap_currency : String

-- What one worker process and its database hold. `published` lists the updates in the order in
-- which the publisher took them, and `draws` counts the calls of `random.random`.
pub record Pricing : Type 0 where
  pub registry : Registry
  pub table : SessionTable
  pub requests : List PricingRequestOrm
  pub market : MarketState
  pub published : List (String × Decimal)
  pub draws : ℕ

-- The world outside: the text forms, the random numbers, whether a commit succeeds, and for which
-- request ids a publication does.
pub record Env : Type 0 where
  pub texts : Texts
  pub random : ℕ → Decimal
  pub commit_ok : Bool
  pub publish_ok : String → Bool

-- `RfqRegisteredIntegrationEvent`, as far as pricing and notification read it.
pub record RfqRegisteredEvent : Type 0 where
  pub event_id : String
  pub rfq_id : String
  pub revision : ℕ
  pub product : InterestRateSwap
  pub assigned_trader : String
  pub registered_by : String
  pub occurred_at : ℕ

-- `async with uow_factory() as uow`
unfoldable pub with_uow : {A : Type 0} → Action Uow A → Action Pricing A
with_uow body s = let (r, u) = body (enter s.table) in (r, record s { table = exit r u })

module _ (env : Env) where
  unfoldable pub save_and_commit : PricingSession → Action Uow Unit
  save_and_commit session = do save env.texts session; commit env.commit_ok

  -- `SwapPricer.price`: a random rate, once the market data is there.
  unfoldable pub price : MarketState → Action Pricing Decimal
  price market s = elim (market_rate market jpy_ois) [
    | raise x ↦ (raise x, s)
    | ok rate ↦ (ok (env.random s.draws), record s { draws = s.draws + 1 })
  ]

  unfoldable pub publish : String → Decimal → Action Pricing Unit
  publish request_id par_rate s =
      if env.publish_ok request_id
      then (ok tt, record s { published = s.published ++ (request_id, par_rate) ∷ [] })
      else (raise broker_error, s)

  -- The end of each use case: price from a snapshot of the dependencies and publish.
  unfoldable pub price_and_publish : PricingSession → List MarketDataId → Action Pricing Unit
  price_and_publish session ds s =
      continue (price (snapshot s.market ds) s).0 (price (snapshot s.market ds) s).1
        (publish session.request.request_id)

  abbrev pub default_dependencies : List MarketDataId
  default_dependencies = jpy_ois ∷ []

  -- The swap, the request and the session that the handler builds from an event.
  unfoldable pub session_of_event : RfqRegisteredEvent → Decimal → PricingSession
  session_of_event event notional = record {
    request = record {
      request_id = event.rfq_id;
      revision = event.revision;
      product = record event.product { notional = Notional.decimal notional };
    };
    dependencies = default_dependencies;
    session_status = status active;
  }

  unfoldable pub activate : PricingSession → Action Pricing Unit
  activate session = do
    with_uow (save_and_commit session)
    modify (λ s. record s { registry = register s.registry session })
    λ s.
        if contains_all s.market default_dependencies
        then price_and_publish session default_dependencies s
        else (ok tt, s)

  -- `HandleRfqRegisteredForPricingUseCase.execute`
  unfoldable pub handle_registered : RfqRegisteredEvent → Action Pricing Unit
  handle_registered event s = elim (to_decimal env.texts event.product.notional) [
    | raise x ↦ (raise x, s)
    | ok notional ↦ activate (session_of_event event notional) s
  ]

  -- The body of the loop of `HandleMarketDataUpdateUseCase.execute`.
  unfoldable pub reprice : MarketDataId → PricingSession → Action Pricing Unit
  reprice i session s =
      if elem i session.dependencies && contains_all s.market session.dependencies
      then price_and_publish session session.dependencies s
      else (ok tt, s)

  unfoldable pub reprice_all : MarketDataId → List PricingSession → Action Pricing Unit
  reprice_all i [] s = (ok tt, s)
  reprice_all i (session ∷ rest) s =
      continue (reprice i session s).0 (reprice i session s).1 (λ _. reprice_all i rest)

  unfoldable pub handle_market_data : MarketDataId → Decimal → Action Pricing Unit
  handle_market_data i v s =
      let s' = record s { market = Market.update s.market i v } in
      reprice_all i (list_all s'.registry) s'

  -- `StopPricingUseCase.execute`
  unfoldable pub stop : String → Action Pricing Unit
  stop request_id s = elim (Dict.get s.registry request_id) [
    | none ↦ (ok tt, s)
    | some session ↦
        (do
          with_uow (save_and_commit (deactivated session))
          modify (λ s'. record s' { registry = unregister s'.registry request_id }))
          s
  ]

  -- `scalar_one()` of the request repository: exactly one row, or an exception.
  unfoldable pub load_request : String → ℕ → List PricingRequestOrm → Outcome SwapPricingRequest
  unfolding to_decimal parse_date pay_receive currency
  load_request request_id revision rows =
      elim (filter (λ r. r.request_id == request_id && nat_eq r.revision revision) rows) [
        | [] ↦ raise database_error
        | r ∷ (_ ∷ _) ↦ raise database_error
        | r ∷ [] ↦ bind (to_decimal env.texts (Notional.text r.notional)) λ notional.
            bind (parse_date env.texts r.effective_date) λ effective.
              bind (parse_date env.texts r.maturity_date) λ maturity.
                bind (pay_receive r.fixed_leg) λ leg. bind (currency r.swap_currency) λ cur.
                  ok (record {
                    request_id = r.request_id;
                    revision = r.revision;
                    product = record {
                      notional = Notional.decimal notional;
                      effective_date = effective;
                      maturity_date = maturity;
                      fixed_leg = leg;
                      swap_currency = cur;
                    };
                  })
      ]

  -- The session of `ChangePricingUseCase`: the registered one, or the stored one. The store's one
  -- is saved again through the closed unit of work, which commits nothing.
  unfoldable pub find_session : String → Action Pricing PricingSession
  find_session request_id s = elim (Dict.get s.registry request_id) [
    | some session ↦ (ok session, s)
    | none ↦ elim (get_by_id env.texts request_id s.table) [
      | raise x ↦ (raise x, s)
      | ok none ↦ (raise runtime_error, s)
      | ok (some session) ↦ elim (save env.texts session (enter s.table)).0 [
        | raise x ↦ (raise x, s)
        | ok _ ↦ (ok session, s)
      ]
    ]
  ]

  unfoldable pub apply_change : PricingSession → Action Pricing Unit
  apply_change session = do
    with_uow (save_and_commit session)
    modify (λ s. record s { registry = register s.registry session })
    λ s.
        if contains_all s.market session.dependencies
        then price_and_publish session session.dependencies s
        else (ok tt, s)

  unfoldable pub change_found : String → ℕ → PricingSession → Action Pricing Unit
  change_found request_id revision session s =
      if leb revision session.request.revision
      then (ok tt, s)
      else elim (load_request request_id revision s.requests) [
        | raise x ↦ (raise x, s)
        | ok loaded ↦
            apply_change
              (with_new_dependencies (with_new_request session loaded) default_dependencies) s
      ]

  -- `ChangePricingUseCase.execute`
  unfoldable pub change : String → ℕ → Action Pricing Unit
  change request_id revision = do
    session ← find_session request_id
    change_found request_id revision session

-- The loop of `RestorePricingShardUseCase.execute`.
module _ (resolve : String → ℕ) (shard : ℕ) where
  unfoldable pub restore_sessions : List PricingSession → Registry → Registry
  unfolding register
  restore_sessions [] reg = reg
  restore_sessions (session ∷ rest) reg =
      restore_sessions rest
        (if nat_eq (resolve session.request.request_id) shard then register reg session else reg)

  -- The loop of `ReleasePricingShardUseCase.execute`.
  unfoldable pub release_sessions : List PricingSession → Registry → Registry
  unfolding unregister
  release_sessions [] reg = reg
  release_sessions (session ∷ rest) reg = release_sessions rest (
      if nat_eq (resolve session.request.request_id) shard
      then unregister reg session.request.request_id
      else reg)

  unfoldable pub restore_shard : Env → Action Pricing Unit
  unfolding list_active restore_sessions
  restore_shard env s = elim (list_active env.texts s.table) [
    | raise x ↦ (raise x, s)
    | ok sessions ↦ (ok tt, record s { registry = restore_sessions sessions s.registry })
  ]

  unfoldable pub release_shard : Pricing → Pricing
  unfolding release_sessions list_all
  release_shard s = record s { registry = release_sessions (list_all s.registry) s.registry }
