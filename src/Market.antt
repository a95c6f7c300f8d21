-- ===== src/Market.antt =====
-- domain/market/market.py and domain/pricing/swap_pricer.py.
use price_streaming.Prelude.{
  Bool, List, Outcome, String_eq, [], false, market_data_not_found, none, ok, raise, some, true,
  ◌&&◌, ◌∷◌,
}
use price_streaming.Dict
use price_streaming.Dict.{Dict}
use price_streaming.Product.{Decimal}
use price_streaming.Session.{MarketDataId}

-- `MarketState._values`, and the values of a `MarketSnapshot`.
abbrev pub MarketState : Type 0
MarketState = Dict MarketDataId Decimal

abbrev pub jpy_ois : MarketDataId
jpy_ois = "JPY-OIS"

unfoldable pub update : MarketState → MarketDataId → Decimal → MarketState
update m i v = Dict.put m i v

unfoldable pub is_known : MarketState → MarketDataId → Bool
is_known m i = elim (Dict.get m i) [ none ↦ false | some v ↦ true ]

unfoldable pub contains_all : MarketState → List MarketDataId → Bool
unfolding is_known
contains_all m [] = true
contains_all m (i ∷ is) = is_known m i && contains_all m is

unfoldable pub snapshot : MarketState → List MarketDataId → MarketState
snapshot m [] = []
snapshot m (i ∷ is) =
    let rest = snapshot m is in elim (Dict.get m i) [ none ↦ rest | some v ↦ Dict.put rest i v ]

-- `MarketSnapshot.get`
unfoldable pub market_rate : MarketState → MarketDataId → Outcome Decimal
market_rate m i = elim (Dict.get m i) [ none ↦ raise (market_data_not_found i) | some v ↦ ok v ]
