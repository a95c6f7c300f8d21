-- ===== src/Examples/Worker.antt =====
-- The worker's loop over a few ownership changes.
use price_streaming.Prelude.{
  List, String, String_eq, [], arith, ok, refl, some, subst, sym, ℕ_eq, ◌∙◌, ◌∷◌, ◌≡◌,
}
use price_streaming.Dict
use price_streaming.Examples.Codec.{marks_texts}
use price_streaming.Examples.Pricing.{env, restarted, row, session, table}
use price_streaming.Ownership.{OwnershipChange, acquired, released}
use price_streaming.Session.{PricingSession, status_to_str, to_str}
use price_streaming.Session.Store.{PricingSessionOrm, read_active, to_orm}
use price_streaming.Session.Store.Roundtrip.{as_stored, read_active-to_orm, to_orm-as_stored}
use price_streaming.Pricing.Persist.{IsPersisted}
use price_streaming.Worker.{Runtime, Ports, run_owned_pricing_shards}
use price_streaming.Worker.Serving.{IsServedBy, IsServing, run_owned_pricing_shards-IsServedBy}

abbrev ports : Ports
ports = record { resolve = λ k. 0; await_task = λ c. ok tt; complete = λ c. ok tt }

abbrev idle : Runtime
idle = record { tasks = []; stopped = 0; pricing = restarted }

abbrev busy : Runtime
busy = record { tasks = 0 ∷ []; stopped = 0; pricing = restarted }

abbrev changes : List OwnershipChange
changes = acquired "t1" 0 ∷ released "t2" 0 ∷ acquired "t3" 1 ∷ []

row_of_session : to_orm marks_texts session ≡ ok row
unfolding to_orm status_to_str to_str
row_of_session = refl

only_row : (j : String) (r : PricingSessionOrm) → Dict.get table j ≡ some r → row ≡ r
unfolding Dict.get
only_row j r e = ground (arith, e)

read_back :
    (v : PricingSession) → read_active marks_texts row ≡ ok v → to_orm marks_texts v ≡ ok row
read_back v h =
    let e : ok (as_stored marks_texts session) ≡ ok v =
      sym (read_active-to_orm marks_texts session row row_of_session) ∙ h in
    let e' : as_stored marks_texts session ≡ v = cc e in
    subst (λ v'. to_orm marks_texts v' ≡ ok row) e'
      (to_orm-as_stored marks_texts session ∙ row_of_session)

restarted-IsPersisted : IsPersisted marks_texts restarted
unfolding Dict.get
restarted-IsPersisted = record {
  keyed = λ j v e. absurd (cc e);
  stored = λ j v e. absurd (cc e);
  one_row = (refl, tt);
  keyed_rows = (refl, tt);
  canonical = λ j r v e h.
      let same = only_row j r e in
      subst (λ q. to_orm marks_texts v ≡ ok q) same
        (read_back v (subst (λ q. read_active marks_texts q ≡ ok v) (sym same) h));
}

idle-IsServing : IsServing env ports idle
unfolding Dict.get
idle-IsServing = record { persisted = restarted-IsPersisted; served = λ j v e. absurd (cc e) }

run_owned_pricing_shards-IsServedBy_example :
    IsServedBy env ports changes (run_owned_pricing_shards env ports changes idle)
run_owned_pricing_shards-IsServedBy_example =
    run_owned_pricing_shards-IsServedBy env ports changes idle idle-IsServing
