-- ===== src/Routing/Partitions.antt =====
-- infrastructure/application/adapter/rfq_domain_events_subscriber/kafka/pricing_partition_router.py
-- and pricing_shard_resolver/kafka: the shard of a request is its partition of the topic. A set of
-- partitions is the list of its members in any order.
use price_streaming.Prelude.{
  Bool-cases, List, Outcome, String, [], arith, distinct, elem, false, inl, inr, insert_sorted, leb,
  ltb, nat_eq, ok, raise, refl, sorted, subst, suc, true, value_error, zero, ℕ, ℕ_eq, ◌&&◌, ◌+◌,
  ◌<◌, ◌||◌, ◌∙◌, ◌∷◌, ◌≡◌, ◌≤◌,
}
use price_streaming.Ownership.{PricingShardId}

-- `range(start, start + n)`
unfoldable pub range_from : ℕ → ℕ → List ℕ
range_from start zero = []
range_from start (suc n) = start ∷ range_from (start + 1) n

-- The set is `set(range(n))`.
abbrev pub IsRange : ℕ → List ℕ → Type 0
IsRange n ps = (distinct ps ≡ true) × ((p : ℕ) → elem p ps ≡ ltb p n)

-- `DefaultPartitioner` of the Kafka client, on the text of a key and the partitions.
module _ (partitioner : String → List ℕ → ℕ) where
  -- `KafkaPricingPartitionRouter.partition_for`
  unfoldable pub partition_for : String → List ℕ → Outcome ℕ
  partition_for request_id [] = raise value_error
  partition_for request_id (p ∷ ps) = ok (partitioner request_id (sorted (p ∷ ps)))

  -- `KafkaPricingShardResolver.resolve`
  unfoldable pub resolve_partition : (partitions : List ℕ) → String → Outcome PricingShardId
  unfolding partition_for
  resolve_partition partitions request_id = partition_for request_id partitions

-- Each number is above the one before it, the first at least `d`.
abbrev IsStrict : ℕ → List ℕ → Type 0
IsStrict d [] = Unit
IsStrict d (x ∷ xs) = (d ≤ x) × IsStrict (x + 1) xs

elem-insert_sorted :
    (x : ℕ) (ys : List ℕ) (a : ℕ) → elem a (insert_sorted x ys) ≡ (nat_eq x a || elem a ys)
elem-insert_sorted x [] a = refl
elem-insert_sorted x (y ∷ ys) a = ground (arith, elem-insert_sorted x ys a)

elem-sorted : (xs : List ℕ) (a : ℕ) → elem a (sorted xs) ≡ elem a xs
elem-sorted [] a = refl
elem-sorted (x ∷ xs) a = ground (arith, elem-insert_sorted x (sorted xs) a, elem-sorted xs a)

insert_sorted-IsStrict :
    (d x : ℕ) (ys : List ℕ)
    → d ≤ x
    → elem x ys ≡ false
    → IsStrict d ys
    → IsStrict d (insert_sorted x ys)
insert_sorted-IsStrict d x [] h m s = (h, tt)
insert_sorted-IsStrict d x (y ∷ ys) h m s = elim (Bool-cases (leb x y)) [
  | inl below ↦ rw below (h, (ground (arith, below, m), s.1))
  | inr above ↦
      rw above
        (s.0, insert_sorted-IsStrict (y + 1) x ys (ground (arith, above)) (ground (arith, m)) s.1)
]

sorted-IsStrict : (xs : List ℕ) → distinct xs ≡ true → IsStrict 0 (sorted xs)
sorted-IsStrict [] h = tt
sorted-IsStrict (x ∷ xs) h =
    insert_sorted-IsStrict 0 x (sorted xs) (omega arith) (elem-sorted xs x ∙ ground (arith, h))
      (sorted-IsStrict xs (ground (arith, h)))

absent_below : (a d : ℕ) (xs : List ℕ) → a < d → IsStrict d xs → elem a xs ≡ false
absent_below a d [] h s = refl
absent_below a d (x ∷ xs) h s =
    ground (arith, s.0, h, absent_below a (x + 1) xs (omega (arith, s.0, h)) s.1)

strict_range :
    (k n : ℕ) (xs : List ℕ)
    → IsStrict k xs
    → ((a : ℕ) → elem a xs ≡ (leb k a && ltb a (k + n)))
    → xs ≡ range_from k n
unfolding range_from
strict_range k zero [] s h = refl
strict_range k zero (x ∷ xs) s h = absurd (ground (arith, h x))
strict_range k (suc n) [] s h = absurd (ground (arith, h k))
strict_range k (suc n) (x ∷ xs) s h =
    let first : x ≡ k = elim (Bool-cases (nat_eq x k)) [
      | inl same ↦ ground (arith, same)
      | inr other ↦
          absurd
            (ground (arith, other, s.0, h k, absent_below k (x + 1) xs (omega (arith, s.0)) s.1))
    ] in
    let rest : xs ≡ range_from (k + 1) n =
      strict_range (k + 1) n xs (subst (λ d. IsStrict (d + 1) xs) first s.1)
        (λ a. ground (arith, first, h a, absent_below k (x + 1) xs (omega (arith, first)) s.1)) in
    rw (first, rest) refl

pub sorted-IsRange : (n : ℕ) (ps : List ℕ) → IsRange n ps → sorted ps ≡ range_from 0 n
sorted-IsRange n ps (d, members) =
    strict_range 0 n (sorted ps) (sorted-IsStrict ps d)
      (λ a. elem-sorted ps a ∙ members a ∙ ground arith)
