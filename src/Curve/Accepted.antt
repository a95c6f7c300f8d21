-- ===== src/Curve/Accepted.antt =====
-- What reaches the worker from the market feed.
use price_streaming.Prelude.{
  All, Bool, Bool-cases, List, Option, Outcome-cases, String, [], arith, distinct, false, inl, inr,
  is_negative, map, none, ok, some, subst, true, ◌∷◌, ◌≡◌, ◌≢◌,
}
use price_streaming.Curve.{
  DateTime, aware_datetime, make_tenor, Tenor_eq, SwapQuote, SwapQuoteSnapshot,
  make_swap_quote_snapshot, make_quote_set_id,
}
use price_streaming.Curve.Messages.{
  SwapQuoteMessage, SwapQuoteSnapshotMessage, quotes_to_domain, snapshot_to_domain,
  received_snapshots,
}

-- A snapshot that a curve can be built from: it has a time zone and a quote, no tenor twice and no
-- tenor below zero.
pub record IsQuotable (s : SwapQuoteSnapshot) : Type 0 where
  pub has_quotes : s.quotes ≢ []
  pub distinct_tenors : distinct (map (λ q. q.tenor) s.quotes) ≡ true
  pub tenors_from_zero : All (λ q. is_negative q.tenor.tenor_value ≡ false) s.quotes
  pub has_tzinfo : s.as_of.tzinfo ≢ none

aware_datetime-tzinfo : (d t : DateTime) → aware_datetime d ≡ ok t → t.tzinfo ≢ none
unfolding aware_datetime
aware_datetime-tzinfo d t h e = ground (arith, h, e)

quotes_to_domain-tenors :
    (ms : List SwapQuoteMessage) (qs : List SwapQuote)
    → quotes_to_domain ms ≡ ok qs
    → All (λ q. is_negative q.tenor.tenor_value ≡ false) qs
unfolding quotes_to_domain make_tenor
quotes_to_domain-tenors [] [] h = tt
quotes_to_domain-tenors [] (q ∷ qs) h = absurd (cc h)
quotes_to_domain-tenors (m ∷ ms) qs h = elim (Bool-cases (is_negative m.tenor_value)) [
  | inl below ↦ absurd (cc (rw below at h))
  | inr above ↦ elim (Outcome-cases (quotes_to_domain ms)) [
    | inr (x, bad) ↦ absurd (cc (rw (above, bad) at h))
    | inl (more, good) ↦
        let e : ok (
              record {
                tenor = record { tenor_value = m.tenor_value; unit = m.tenor_unit };
                par_rate = m.par_rate;
              }
              ∷ more)
            ≡ ok qs =
          rw (above, good) at h in
        let e' : record {
          tenor = record { tenor_value = m.tenor_value; unit = m.tenor_unit };
          par_rate = m.par_rate;
        }
              ∷ more
            ≡ qs =
          cc e in
        subst (All (λ q. is_negative q.tenor.tenor_value ≡ false)) e'
          (above, quotes_to_domain-tenors ms more good)
  ]
]

snapshot-IsQuotable :
    (i : String) (d t : DateTime) (ms : List SwapQuoteMessage) (qs : List SwapQuote)
    (s : SwapQuoteSnapshot)
    → aware_datetime d ≡ ok t
    → quotes_to_domain ms ≡ ok qs
    → make_swap_quote_snapshot i t qs ≡ ok s
    → IsQuotable s
unfolding make_swap_quote_snapshot
snapshot-IsQuotable i d t ms [] s aware read h = absurd (cc h)
snapshot-IsQuotable i d t ms (q ∷ qs) s aware read h =
    elim (Bool-cases (distinct (map (λ x. x.tenor) (q ∷ qs)))) [
      | inr twice ↦ absurd (ground (arith, h, twice))
      | inl once ↦
          let e : record { quote_set_id = i; as_of = t; quotes = q ∷ qs } ≡ s =
            ground (arith, h, once) in
          subst IsQuotable e (record {
            has_quotes = λ x. absurd (cc x);
            distinct_tenors = once;
            tenors_from_zero = quotes_to_domain-tenors ms (q ∷ qs) read;
            has_tzinfo = aware_datetime-tzinfo d t aware;
          })
    ]

module _ (is_blank : String → Bool) where
  snapshot_to_domain-IsQuotable :
      (m : SwapQuoteSnapshotMessage) (s : SwapQuoteSnapshot)
      → snapshot_to_domain is_blank m ≡ ok s
      → IsQuotable s
  unfolding snapshot_to_domain
  snapshot_to_domain-IsQuotable m s h =
      elim (Outcome-cases (make_quote_set_id is_blank m.quote_set_id)) [
        | inr (x, bad) ↦ absurd (cc (rw bad at h))
        | inl (i, good) ↦ elim (Outcome-cases (aware_datetime m.as_of)) [
          | inr (x, bad) ↦ absurd (cc (rw (good, bad) at h))
          | inl (t, aware) ↦ elim (Outcome-cases (quotes_to_domain m.quotes)) [
            | inr (x, bad) ↦ absurd (cc (rw (good, aware, bad) at h))
            | inl (qs, read) ↦
                snapshot-IsQuotable i m.as_of t m.quotes qs s aware read
                  (rw (good, aware, read) at h)
          ]
        ]
      ]

  -- Whatever payloads the market feed receives, unreadable and invalid ones among them, every quote
  -- snapshot that it passes on has a time zone and at least one quote, no tenor twice and no tenor
  -- below zero.
  pub received_snapshots-IsQuotable :
      (ms : List (Option SwapQuoteSnapshotMessage))
      → All IsQuotable (received_snapshots is_blank ms)
  unfolding received_snapshots
  received_snapshots-IsQuotable [] = tt
  received_snapshots-IsQuotable (none ∷ rest) = received_snapshots-IsQuotable rest
  received_snapshots-IsQuotable (some m ∷ rest) =
      elim (Outcome-cases (snapshot_to_domain is_blank m)) [
        | inr (x, bad) ↦ rw (received_snapshots, bad) (received_snapshots-IsQuotable rest)
        | inl (s, good) ↦
            rw (received_snapshots, good)
              (snapshot_to_domain-IsQuotable m s good, received_snapshots-IsQuotable rest)
      ]
