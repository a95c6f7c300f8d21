-- ===== src/Session/Store/Roundtrip.antt =====
-- What a saved session is when it is read back.
use price_streaming.Prelude.{
  List, Outcome-cases, String, attribute_error, inl, inr, ok, raise, refl, ℕ, ◌≡◌,
}
use price_streaming.Product.{
  Texts, Notional, PayReceive, pay, receive, Currency, jpy, notional_str, parse_date, pay_receive,
  pay_receive_str, currency, currency_str,
}
use price_streaming.Session.{
  SwapPricingRequest, PricingSession, PricingSessionStatus, StatusValue, active, deactive, status,
  status_text, status_to_str, to_str, from_str,
}
use price_streaming.Session.Store.{PricingSessionOrm, to_orm, read_request, read_row, read_active}

pub pay_receive-pay_receive_str : (l : PayReceive) → pay_receive (pay_receive_str l) ≡ ok l
unfolding pay_receive pay_receive_str
pay_receive-pay_receive_str pay = refl
pay_receive-pay_receive_str receive = refl

pub currency-currency_str : (c : Currency) → currency (currency_str c) ≡ ok c
unfolding currency currency_str
currency-currency_str jpy = refl

pub from_str-to_str : (st : PricingSessionStatus) → from_str (to_str st) ≡ ok st
unfolding from_str to_str
from_str-to_str active = refl
from_str-to_str deactive = refl

module _ (t : Texts) where
  pub parse_date-isoformat : (d : ℕ) → parse_date t (t.isoformat d) ≡ ok d
  unfolding parse_date
  parse_date-isoformat d = rw (parse_date, t.fromisoformat-isoformat d)

  -- The session with its `notional` as the text that the column holds.
  pub as_stored : PricingSession → PricingSession
  as_stored s =
      let p = s.request.product in
      record s {
        request = record s.request {
          product = record p { notional = Notional.text (notional_str t p.notional) };
        };
      }

  -- The row of a session whose status is of the enumeration.
  row_of : SwapPricingRequest → List String → PricingSessionStatus → PricingSessionOrm
  row_of q ds st = record {
    request_id = q.request_id;
    revision = q.revision;
    notional = notional_str t q.product.notional;
    effective_date = t.isoformat q.product.effective_date;
    maturity_date = t.isoformat q.product.maturity_date;
    fixed_leg = pay_receive_str q.product.fixed_leg;
    swap_currency = currency_str q.product.swap_currency;
    dependencies = ds;
    row_status = to_str st;
  }

  read_request-row_of :
      (q : SwapPricingRequest) (ds : List String) (st : PricingSessionStatus)
      → read_request t (row_of q ds st)
        ≡ ok (record q {
          product = record q.product {
            notional = Notional.text (notional_str t q.product.notional);
          };
        })
  unfolding row_of read_request notional_str
  read_request-row_of q ds st = rw (
    read_request,
    parse_date-isoformat q.product.effective_date,
    parse_date-isoformat q.product.maturity_date,
    pay_receive-pay_receive_str q.product.fixed_leg,
    currency-currency_str q.product.swap_currency,
  )

  read_active-of_value :
      (v : StatusValue) (q : SwapPricingRequest) (ds : List String) (r : PricingSessionOrm)
      → to_orm t (record { request = q; dependencies = ds; session_status = v }) ≡ ok r
      → read_active t r
        ≡ ok (as_stored (record { request = q; dependencies = ds; session_status = v }))
  unfolding to_orm status_to_str as_stored row_of read_active
  read_active-of_value (status_text x) q ds r h = absurd (cc h)
  read_active-of_value (status st) q ds r h =
      let e : row_of q ds st ≡ r = cc h in
      rw (← e) (rw (read_request-row_of q ds st, from_str-to_str st))

  pub to_orm-as_stored : (s : PricingSession) → to_orm t (as_stored s) ≡ to_orm t s
  unfolding to_orm as_stored notional_str
  to_orm-as_stored s = refl

  pub read_active-to_orm :
      (s : PricingSession) (r : PricingSessionOrm)
      → to_orm t s ≡ ok r
      → read_active t r ≡ ok (as_stored s)
  read_active-to_orm s r h = read_active-of_value s.session_status s.request s.dependencies r h

  -- A row that `get_by_id` has read gives a session that cannot be saved: its status is a text.
  pub to_orm-read_row :
      (r : PricingSessionOrm) (s : PricingSession)
      → read_row t r ≡ ok s
      → to_orm t s ≡ raise attribute_error
  unfolding to_orm status_to_str read_row
  to_orm-read_row r s h = elim (Outcome-cases (read_request t r)) [
    | inr (x, hx) ↦ absurd (cc (rw hx at h))
    | inl (q, hq) ↦
        let h' = rw hq at h in
        let e : record {
          request = q;
          dependencies = r.dependencies;
          session_status = status_text r.row_status;
        }
            ≡ s =
          cc h' in
        rw (← e)
  ]
