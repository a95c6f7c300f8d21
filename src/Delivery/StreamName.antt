-- ===== src/Delivery/StreamName.antt =====
-- The names of a super stream's partitions: `f"{super_stream}-{shard_id}"`, built in
-- infrastructure/rabbitmq/topology.py and read by the two super stream adapters. A name is the list
-- of its code points.
use price_streaming.Prelude.{
  Bool-cases, List, Option, Outcome, [], ap, arith, if◌then◌else◌, inl, inr, leb, ltb, nat_eq, none,
  ok, raise, refl, some, suc, true, value_error, zero, ℕ, ◌%◌, ◌&&◌, ◌*◌, ◌++◌, ◌+◌, ◌-◌, ◌<◌, ◌∙◌,
  ◌∷◌, ◌≡◌,
}
use Prim.Native.Nat.{◌/◌}
use price_streaming.Ownership.{PricingShardId}

-- The decimal digits of a number, in front of a text.
digits_onto : ℕ → ℕ → List ℕ → List ℕ
digits_onto zero n rest = rest
digits_onto (suc fuel) n rest =
    let more = digits_onto fuel (n / 10) ((48 + n % 10) ∷ rest) in
    if ltb n 10 then (48 + n) ∷ rest else more

-- `str(n)`; a number has fewer digits than `n + 1`.
unfoldable pub decimal_text : ℕ → List ℕ
unfolding digits_onto
decimal_text n = digits_onto (suc n) n []

-- `int(text)` of a text of digits. Signs, blanks and underscores, which `int` takes too, are not
-- among the names that the broker hands out.
int_from : ℕ → List ℕ → Outcome ℕ
int_from acc [] = ok acc
int_from acc (c ∷ cs) =
    let rest = int_from (acc * 10 + (c - 48)) cs in
    if leb 48 c && leb c 57 then rest else raise value_error

unfoldable pub int_of : List ℕ → Outcome ℕ
unfolding int_from
int_of [] = raise value_error
int_of (c ∷ cs) = int_from 0 (c ∷ cs)

-- `text.removeprefix(prefix)`, if `text.startswith(prefix)`.
unfoldable pub remove_prefix : List ℕ → List ℕ → Option (List ℕ)
remove_prefix [] text = some text
remove_prefix (p ∷ ps) [] = none
remove_prefix (p ∷ ps) (c ∷ cs) =
    let rest = remove_prefix ps cs in if nat_eq p c then rest else none

-- `partition_stream_name` of `bind_super_stream_pricing_topology`
unfoldable pub partition_stream_name : List ℕ → PricingShardId → List ℕ
partition_stream_name super_stream shard = (super_stream ++ 45 ∷ []) ++ decimal_text shard

-- `_shard_id_from_stream`
unfoldable pub shard_id_from_stream : List ℕ → List ℕ → Outcome PricingShardId
shard_id_from_stream super_stream stream = elim (remove_prefix (super_stream ++ 45 ∷ []) stream) [
  | none ↦ raise value_error
  | some rest ↦ int_of rest
]

remove_prefix-append : (ps text : List ℕ) → remove_prefix ps (ps ++ text) ≡ some text
unfolding remove_prefix
remove_prefix-append [] text = refl
remove_prefix-append (p ∷ ps) text = ground (arith, remove_prefix-append ps text)

int_from-digit :
    (acc d : ℕ) (rest : List ℕ)
    → d < 10
    → int_from acc ((48 + d) ∷ rest) ≡ int_from (acc * 10 + d) rest
unfolding int_from
int_from-digit acc d rest h =
    let e : 48 + d - 48 ≡ d = omega arith in
    let in_range : (leb 48 (48 + d) && leb (48 + d) 57) ≡ true = ground arith in rw (in_range, e)

int_from-digits_onto :
    (fuel n : ℕ) (rest : List ℕ) → n < fuel → int_from 0 (digits_onto fuel n rest) ≡ int_from n rest
unfolding digits_onto
int_from-digits_onto zero n rest h = elim h [ ]
int_from-digits_onto (suc fuel) n rest h = elim (Bool-cases (ltb n 10)) [
  | inl small ↦ rw small (
      int_from-digit 0 n rest (ground (arith, small))
      ∙ ap (λ (m : ℕ). int_from m rest) (omega arith))
  | inr large ↦ rw large (
      int_from-digits_onto fuel (n / 10) ((48 + n % 10) ∷ rest) (ground (arith, large))
      ∙ int_from-digit (n / 10) (n % 10) rest (omega arith)
      ∙ ap (λ (m : ℕ). int_from m rest) (omega arith))
]

int_of-digits_onto :
    (fuel n c : ℕ) (rest : List ℕ)
    → int_of (digits_onto fuel n (c ∷ rest)) ≡ int_from 0 (digits_onto fuel n (c ∷ rest))
unfolding digits_onto int_of
int_of-digits_onto zero n c rest = refl
int_of-digits_onto (suc fuel) n c rest = elim (Bool-cases (ltb n 10)) [
  | inl small ↦ rw small
  | inr large ↦ rw large (int_of-digits_onto fuel (n / 10) (48 + n % 10) (c ∷ rest))
]

-- A number is read back from its decimal digits.
pub int_of-decimal_text : (n : ℕ) → int_of (decimal_text n) ≡ ok n
unfolding decimal_text int_of
int_of-decimal_text n = elim (Bool-cases (ltb n 10)) [
  | inl small ↦
      rw small
        (int_from-digit 0 n [] (ground (arith, small)) ∙ unfold int_from in ap ok (omega arith))
  | inr large ↦ rw large (
      int_of-digits_onto n (n / 10) (48 + n % 10) []
      ∙ int_from-digits_onto n (n / 10) ((48 + n % 10) ∷ []) (ground (arith, large))
      ∙ int_from-digit (n / 10) (n % 10) [] (omega arith)
      ∙ unfold int_from in ap ok (omega arith))
]

-- A partition's name is read back as its shard, for every super stream and every shard.
pub shard_id_from_stream-partition_stream_name :
    (super_stream : List ℕ) (shard : PricingShardId)
    → shard_id_from_stream super_stream (partition_stream_name super_stream shard) ≡ ok shard
unfolding shard_id_from_stream partition_stream_name
shard_id_from_stream-partition_stream_name super_stream shard =
    rw (shard_id_from_stream, remove_prefix-append) (int_of-decimal_text shard)
