-- ===== src/Rfq/Routes/Listed.antt =====
-- What the interface shows of an RFQ that it created.
use price_streaming.Prelude.{
  List, Outcome-cases, String, String_eq, [], ap, arith, inl, inr, map, none, ok, refl, true, ℕ,
  ℕ_eq, ◌++◌, ◌∷◌, ◌≡◌, ◌∙◌, subst,
}
use mathlib.Core.List.{Permᴰ}
use mathlib.Core.List.Permᴰ
use mathlib.Core.List.Permᴰ.{nil, cons, swap, trans}
use price_streaming.Dict
use price_streaming.Dict.{Dict, values}
use price_streaming.Product.{Notional}
use price_streaming.Rfq.{
  RequestForQuote, RfqOrm, RfqTables, Service, rfq_row, rfq_of_row, register_rfq,
  pull_domain_events,
}
use price_streaming.Rfq.Create.{created, create_rfq_ok, create_rfq_lem, rfq_of_row-rfq_row}
use price_streaming.Rfq.Routes.{
  CreateSwapRfqRequest, RfqDto, dto_of, rfqs_of_rows, list_rfqs, find_rfq, post_route, list_route,
  get_route,
}

-- The request's swap under an id.
abbrev pub requested : String → CreateSwapRfqRequest → RfqDto
requested rfq_id r = record {
  rfq_id = rfq_id;
  notional = Notional.decimal r.notional;
  effective_date = r.effective_date;
  maturity_date = r.maturity_date;
  fixed_leg = r.fixed_leg;
  swap_currency = r.swap_currency;
}

-- A new key goes behind the others.
values-put :
    {V : Type 0} (d : Dict String V) (k : String) (v : V)
    → Dict.get d k ≡ none
    → values (Dict.put d k v) ≡ values d ++ v ∷ []
unfolding Dict.get Dict.put
values-put [] k v h = refl
values-put ((j, w) ∷ d) k v h = ground (arith, h, values-put d k v)

-- A select without `ORDER BY` gives each row once.
pub record IsSelect (sv : Service) : Type 0 where
  pub all_rows : (rs : List RfqOrm) → Permᴰ (sv.row_order rs) rs

Permᴰ-map : {A B : Type 0} (f : A → B) {xs ys : List A} → Permᴰ xs ys → Permᴰ (map f xs) (map f ys)
Permᴰ-map f nil = nil
Permᴰ-map f (cons e p) = cons (ap f e) (Permᴰ-map f p)
Permᴰ-map f (swap e₁ e₂) = swap (ap f e₁) (ap f e₂)
Permᴰ-map f (trans p q) = trans (Permᴰ-map f p) (Permᴰ-map f q)

module _ (sv : Service) where
  rfqs_of_rows-cons :
      (r : RfqOrm) (rs : List RfqOrm) (xs : List RequestForQuote)
      → rfqs_of_rows sv (r ∷ rs) ≡ ok xs
      → (y : RequestForQuote) × (ys : List RequestForQuote) × (rfq_of_row sv r ≡ ok y)
        × (rfqs_of_rows sv rs ≡ ok ys)
        × (y ∷ ys ≡ xs)
  unfolding rfqs_of_rows
  rfqs_of_rows-cons r rs xs h = elim (Outcome-cases (rfq_of_row sv r)) [
    | inr (x, bad) ↦ absurd (cc (rw bad at h))
    | inl (y, good) ↦ elim (Outcome-cases (rfqs_of_rows sv rs)) [
      | inr (x, bad) ↦ absurd (cc (rw (good, bad) at h))
      | inl (ys, read) ↦
          let e : ok (y ∷ ys) ≡ ok xs = rw (good, read) at h in (y, ys, good, read, cc e)
    ]
  ]

  rfqs_of_rows_read :
      (r : RfqOrm) (rs : List RfqOrm) (y : RequestForQuote) (ys : List RequestForQuote)
      → rfq_of_row sv r ≡ ok y
      → rfqs_of_rows sv rs ≡ ok ys
      → rfqs_of_rows sv (r ∷ rs) ≡ ok (y ∷ ys)
  unfolding rfqs_of_rows
  rfqs_of_rows_read r rs y ys good read = rw (good, read) refl

  -- Rows in another order give the same RFQs in another order.
  rfqs_of_rows-Permᴰ :
      {rs rs' : List RfqOrm} (xs : List RequestForQuote)
      → Permᴰ rs rs'
      → rfqs_of_rows sv rs ≡ ok xs
      → (xs' : List RequestForQuote) × (rfqs_of_rows sv rs' ≡ ok xs') × Permᴰ xs xs'
  rfqs_of_rows-Permᴰ xs nil h = (xs, h, Permᴰ.refl xs)
  rfqs_of_rows-Permᴰ xs (cons {a} {b} {l₁} {l₂} e p) h =
      let (y, ys, good, read, whole) = rfqs_of_rows-cons a l₁ xs h in
      let (ys', read', q) = rfqs_of_rows-Permᴰ ys p read in
      (
        y ∷ ys',
        rfqs_of_rows_read b l₂ y ys' (subst (λ r. rfq_of_row sv r ≡ ok y) e good) read',
        subst (λ zs. Permᴰ zs (y ∷ ys')) whole (cons refl q),
      )
  rfqs_of_rows-Permᴰ xs (swap {a} {b} {a'} {b'} {l} e₁ e₂) h =
      let (y, ys, good, read, whole) = rfqs_of_rows-cons a (b ∷ l) xs h in
      let (z, zs, good', read', rest) = rfqs_of_rows-cons b l ys read in
      (
        z ∷ y ∷ zs,
        rfqs_of_rows_read a' (b' ∷ l) z (y ∷ zs) (subst (λ r. rfq_of_row sv r ≡ ok z) e₂ good')
            (rfqs_of_rows_read b' l y zs (subst (λ r. rfq_of_row sv r ≡ ok y) e₁ good) read'),
        subst (λ us. Permᴰ us (z ∷ y ∷ zs)) (ap (y ∷◌) rest ∙ whole) (swap refl refl),
      )
  rfqs_of_rows-Permᴰ xs (trans p q) h =
      let (ys, read, p') = rfqs_of_rows-Permᴰ xs p h in
      let (zs, read', q') = rfqs_of_rows-Permᴰ ys q read in (zs, read', trans p' q')

  -- A new row is listed with the others, wherever the database puts it.
  listed_with :
      (rs : List RfqOrm) (r : RfqOrm) (rfq : RequestForQuote) (xs : List RequestForQuote)
      → IsSelect sv
      → rfq_of_row sv r ≡ ok rfq
      → rfqs_of_rows sv (sv.row_order rs) ≡ ok xs
      → (ys : List RequestForQuote) × (rfqs_of_rows sv (sv.row_order (rs ++ r ∷ [])) ≡ ok ys)
        × Permᴰ (rfq ∷ xs) ys
  listed_with rs r rfq xs sel good h =
      let more = rfqs_of_rows_read r (sv.row_order rs) rfq xs good h in
      let same : Permᴰ (r ∷ sv.row_order rs) (sv.row_order (rs ++ r ∷ [])) =
        trans (cons refl (sel.all_rows rs))
          (trans (Permᴰ.append_comm (r ∷ []) rs) (Permᴰ.symm (sel.all_rows (rs ++ r ∷ [])))) in
      rfqs_of_rows-Permᴰ (rfq ∷ xs) same more

  -- When the commit succeeds, the random ids are fresh and a select gives each row once in some order: a
  -- request to create an RFQ is answered with its id and revision 1, a request for that id gives the
  -- swap that was asked for, and if the RFQs could be listed before, they are now with this swap, in
  -- some order.
  pub get_route-post_route :
      (at : ℕ) (r : CreateSwapRfqRequest) (s : RfqTables)
      → sv.commit_ok ≡ true
      → Dict.get s.outbox (sv.uuid 1) ≡ none
      → Dict.get s.rfqs (sv.uuid 0) ≡ none
      → IsSelect sv
      → ((post_route sv at r s).0 ≡ ok (record { rfq_id = sv.uuid 0; revision = 1 }))
        × (get_route sv (sv.uuid 0) (post_route sv at r s).1 ≡ ok (requested (sv.uuid 0) r))
        × ((ds : List RfqDto)
            → list_route sv s ≡ ok ds
            → (ds' : List RfqDto) × (list_route sv (post_route sv at r s).1 ≡ ok ds')
              × Permᴰ (requested (sv.uuid 0) r ∷ ds) ds')
  unfolding post_route get_route find_rfq list_route list_rfqs dto_of register_rfq
      pull_domain_events
  get_route-post_route at r s committed new fresh sel =
      let made =
        create_rfq_ok sv r.notional r.effective_date r.maturity_date r.fixed_leg r.swap_currency
          r.assigned_trader r.registered_by at s committed new in
      let shown =
        create_rfq_lem sv r.notional r.effective_date r.maturity_date r.fixed_leg r.swap_currency
          r.assigned_trader r.registered_by at s committed new in
      let rfq =
        created sv r.notional r.effective_date r.maturity_date r.fixed_leg r.swap_currency
          r.assigned_trader r.registered_by at in
      let read =
        rfq_of_row-rfq_row sv r.notional r.effective_date r.maturity_date r.fixed_leg
          r.swap_currency r.assigned_trader r.registered_by at in
      let found = rw made at shown.1 in
      (
        rw made refl,
        rw (made, found) refl,
        λ ds listed. elim (Outcome-cases (rfqs_of_rows sv (sv.row_order (values s.rfqs)))) [
          | inr (x, bad) ↦ absurd (cc (rw bad at listed))
          | inl (xs, before) ↦
              let e : ok (map dto_of xs) ≡ ok ds = rw before at listed in
              let (ys, after, p) =
                listed_with (values s.rfqs) (rfq_row sv rfq) (pull_domain_events rfq).1 xs sel read
                  before in
              (
                map dto_of ys,
                rw (made, values-put s.rfqs (sv.uuid 0) (rfq_row sv rfq) fresh, after) refl,
                subst (λ zs. Permᴰ (requested (sv.uuid 0) r ∷ zs) (map dto_of ys)) (cc e)
                    (Permᴰ-map dto_of p),
              )
        ],
      )
