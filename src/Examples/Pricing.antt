-- ===== src/Examples/Pricing.antt =====
-- The use cases at a small worker: one RFQ, one shard.
use price_streaming.Prelude.{
  ==_iff, List, String_eq, [], arith, false, if◌then◌else◌, length, nat_eq, none, ok, refl, true,
  ℕ_eq, ◌+◌, ◌∷◌, ◌≡◌,
}
use price_streaming.Dict
use price_streaming.Dict.{IsFunctional}
use price_streaming.Examples.Codec.{marks_texts}
use price_streaming.Product.{
  Decimal, InterestRateSwap, Notional, pay, jpy, parse_date, pay_receive, currency,
}
use price_streaming.Session.{PricingSession, active, status, from_str, to_str}
use price_streaming.Session.Store.{
  PricingSessionOrm, SessionTable, list_active, read_rows, read_active, read_request,
}
use price_streaming.Market
use price_streaming.Market.{MarketState, jpy_ois, snapshot}
use price_streaming.Pricing.Listener.{
  RebalanceListener, TopicPartition, listener_assigned, listener_revoked, partition_ids,
}
use price_streaming.Pricing.Listener.Equivalent.{
  partition_of, rebalance_as_use_cases, release_all, restore_all,
}
use price_streaming.Pricing.{
  Pricing, Env, RfqRegisteredEvent, handle_market_data, list_all, restore_shard, release_shard,
}
use price_streaming.Pricing.Release.{IsKeyed}
use price_streaming.Pricing.Restore.{active_session, restore_shard-release_shard}
use price_streaming.Pricing.Persist.{IsPersisted}
use price_streaming.Pricing.Run.{
  Command, registered, stopped, market_data, restored, released, run_all, run_all-IsPersisted,
}
use price_streaming.Pricing.Reprice.{affected, updates, handle_market_data_lem}

abbrev pub par : Decimal
par = record { negative = false; digits = 3; scale = 2 }

abbrev pub swap : InterestRateSwap
swap = record {
  notional = Notional.text "111";
  effective_date = 1;
  maturity_date = 2;
  fixed_leg = pay;
  swap_currency = jpy;
}

abbrev pub session : PricingSession
session = record {
  request = record { request_id = "r1"; revision = 1; product = swap };
  dependencies = jpy_ois ∷ [];
  session_status = status active;
}

abbrev pub row : PricingSessionOrm
row = record {
  request_id = "r1";
  revision = 1;
  notional = "111";
  effective_date = "1";
  maturity_date = "11";
  fixed_leg = "pay";
  swap_currency = "JPY";
  dependencies = jpy_ois ∷ [];
  row_status = "active";
}

abbrev pub table : SessionTable
table = ("r1", row) ∷ []

abbrev pub env : Env
env = record {
  texts = marks_texts;
  random = λ n. record { negative = false; digits = n; scale = 3 };
  commit_ok = true;
  publish_ok = λ k. true;
}

abbrev pub event : RfqRegisteredEvent
event = record {
  event_id = "e1";
  rfq_id = "r1";
  revision = 1;
  product = swap;
  assigned_trader = "t1";
  registered_by = "u1";
  occurred_at = 7;
}

-- A worker that has just started, over an empty table.
abbrev pub fresh : Pricing
fresh = record {
  registry = [];
  table = [];
  requests = [];
  market = (jpy_ois, par) ∷ [];
  published = [];
  draws = 0;
}

-- The session's row is there, the worker has nothing registered.
abbrev pub restarted : Pricing
restarted = record fresh { table = table }

-- The session is registered and stored.
abbrev pub serving : Pricing
serving = record restarted { registry = ("r1", session) ∷ [] }

fresh-IsPersisted : IsPersisted marks_texts fresh
unfolding Dict.get
fresh-IsPersisted = record {
  keyed = λ j v e. absurd (cc e);
  stored = λ j v e. absurd (cc e);
  one_row = tt;
  keyed_rows = tt;
  canonical = λ j r v e h. absurd (cc e);
}

abbrev pub history : List (Env × Command)
history =
    (env, registered event)
    ∷ (record env { commit_ok = false }, stopped "r1")
    ∷ (env, market_data jpy_ois par)
    ∷ (env, released 0)
    ∷ (env, restored 0)
    ∷ []

run_all-IsPersisted_example : IsPersisted marks_texts (run_all (λ k. 0) history fresh)
run_all-IsPersisted_example =
    run_all-IsPersisted (λ k. 0) marks_texts history fresh
      (refl, (refl, (refl, (refl, (refl, tt))))) fresh-IsPersisted

serving-IsKeyed : IsKeyed serving.registry
unfolding Dict.get
serving-IsKeyed j v e = ground (arith, e, ==_iff "r1" j)

table-IsFunctional : IsFunctional table
unfolding Dict.get
table-IsFunctional = (refl, tt)

list_active_table : list_active marks_texts table ≡ ok (session ∷ [])
unfolding list_active read_rows read_active read_request parse_date pay_receive currency from_str
    to_str
list_active_table = refl

restore_shard-release_shard_example :
    Dict.get (restore_shard (λ k. 0) 0 env (release_shard (λ k. 0) 0 serving)).1.registry "r1" ≡ (
      if nat_eq 0 0
      then active_session marks_texts (Dict.get table "r1")
      else Dict.get serving.registry "r1")
restore_shard-release_shard_example =
    restore_shard-release_shard env (λ k. 0) 0 serving "r1" (session ∷ []) serving-IsKeyed
      table-IsFunctional (refl, tt) list_active_table

absent_r1 : Dict.get restarted.registry "r1" ≡ none
unfolding Dict.get
absent_r1 = refl

handle_market_data_lem_example : handle_market_data env jpy_ois par serving ≡ (
    let m = Market.update serving.market jpy_ois par in
    (
      ok tt,
      record serving {
        market = m;
        published = updates env 0 (affected jpy_ois m (session ∷ []));
        draws = 0 + length (affected jpy_ois m (session ∷ []));
      },
    ))
unfolding list_all
handle_market_data_lem_example =
    handle_market_data_lem env (λ k. refl) jpy_ois par serving (refl, tt)

abbrev listener : RebalanceListener
listener = record { topic = "rfq"; all_partitions = 0 ∷ 1 ∷ [] }

abbrev moved : List TopicPartition
moved = record { topic = "rfq"; partition = 0 } ∷ record { topic = "other"; partition = 1 } ∷ []

rebalance_as_use_cases_example :
    (Dict.get (listener_revoked (λ k ps. 0) listener moved serving).1.registry "r1"
      ≡ Dict.get
          (release_all
            (partition_of (λ k ps. 0) listener)
            (partition_ids "rfq" moved)
            serving).registry
          "r1")
    × (Dict.get (listener_assigned (λ k ps. 0) listener env moved serving).1.registry "r1"
        ≡ Dict.get
            (restore_all
              (partition_of (λ k ps. 0) listener)
              env
              (partition_ids "rfq" moved)
              serving).1.registry
            "r1")
rebalance_as_use_cases_example =
    rebalance_as_use_cases (λ k ps. 0) listener env moved serving (session ∷ []) "r1" (omega arith)
      serving-IsKeyed list_active_table
