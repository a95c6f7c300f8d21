-- ===== src/Session.antt =====
-- application/pricing/session.py and domain/pricing/request.py.
pub mod Store
use price_streaming.Prelude.{
  List, Outcome, String, String_eq, attribute_error, if◌then◌else◌, ok, raise, value_error, ℕ, ◌==◌,
}
use price_streaming.Product.{InterestRateSwap}

abbrev pub MarketDataId : Type 0
MarketDataId = String

pub record SwapPricingRequest : Type 0 where
  pub request_id : String
  pub revision : ℕ
  pub product : InterestRateSwap

pub data PricingSessionStatus : Type 0 where
  active deactive : PricingSessionStatus

unfoldable pub to_str : PricingSessionStatus → String
to_str active = "active"
to_str deactive = "deactive"

unfoldable pub from_str : String → Outcome PricingSessionStatus
from_str s =
    if s == "active" then ok active else if s == "deactive" then ok deactive else raise value_error

-- What the field `status` holds at run time: the enumeration, or the text of a row.
pub data StatusValue : Type 0 where
  status : PricingSessionStatus → StatusValue
  status_text : String → StatusValue

-- `session.status.to_str()`: a `str` has no such method.
unfoldable pub status_to_str : StatusValue → Outcome String
unfolding to_str
status_to_str (status s) = ok (to_str s)
status_to_str (status_text s) = raise attribute_error

pub record PricingSession : Type 0 where
  pub request : SwapPricingRequest
  pub dependencies : List MarketDataId
  pub session_status : StatusValue

unfoldable pub with_new_request : PricingSession → SwapPricingRequest → PricingSession
with_new_request s r = record s { request = r }

unfoldable pub with_new_dependencies : PricingSession → List MarketDataId → PricingSession
with_new_dependencies s ds = record s { dependencies = ds }

unfoldable pub deactivated : PricingSession → PricingSession
deactivated s = record s { session_status = status deactive }
