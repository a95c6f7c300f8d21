-- ===== src/Examples/Codec.antt =====
-- A text form of decimals and dates that can be read back: marks for the sign, the digits and the
-- scale, each repeated.
use Prim.Native.Char.{Char, char, code}
use Prim.Native.String.{[] as empty, ◌∷◌ as ◌∷ₛ◌}
use price_streaming.Prelude.{
  Bool, Option, String, ap, arith, false, if◌then◌else◌, nat_eq, none, refl, some, suc, true, zero,
  ℕ, ◌+◌, ◌∙◌, ◌≡◌,
}
use price_streaming.Product.{Decimal, Date, Texts}

abbrev pub sign : Char
sign = char 45 tt

abbrev pub digit : Char
digit = char 49 tt

abbrev pub point : Char
point = char 46 tt

abbrev pub marks : Char → ℕ → String → String
marks c zero rest = rest
marks c (suc n) rest = c ∷ₛ marks c n rest

abbrev pub read_marks : Decimal → String → Option Decimal
read_marks d empty = some d
read_marks d (c ∷ₛ s) =
    if nat_eq (code c) 45
    then read_marks (record d { negative = true }) s
    else if nat_eq (code c) 49
    then read_marks (record d { digits = d.digits + 1 }) s
    else read_marks (record d { scale = d.scale + 1 }) s

abbrev pub write_sign : Bool → String → String
write_sign true s = sign ∷ₛ s
write_sign false s = s

abbrev pub write : Decimal → String
write d = write_sign d.negative (marks digit d.digits (marks point d.scale empty))

abbrev pub decimal_of : (negative : Bool) (digits scale : ℕ) → Decimal
decimal_of b n k = record { negative = b; digits = n; scale = k }

read-points :
    (b : Bool) (n k j : ℕ)
    → read_marks (decimal_of b n k) (marks point j empty) ≡ some (decimal_of b n (k + j))
read-points b n k zero = ap (λ (x : ℕ). some (decimal_of b n x)) (omega arith)
read-points b n k (suc j) =
    read-points b n (k + 1) j ∙ ap (λ (x : ℕ). some (decimal_of b n x)) (omega arith)

read-digits :
    (b : Bool) (n m j : ℕ)
    → read_marks (decimal_of b n 0) (marks digit m (marks point j empty))
      ≡ some (decimal_of b (n + m) j)
read-digits b n zero j =
    let e : 0 + j ≡ j = omega arith in
    let e' : n ≡ n + 0 = omega arith in
    read-points b n 0 j
    ∙ ap (λ (x : ℕ). some (decimal_of b n x)) e
    ∙ ap (λ (x : ℕ). some (decimal_of b x j)) e'
read-digits b n (suc m) j =
    read-digits b (n + 1) m j ∙ ap (λ (x : ℕ). some (decimal_of b x j)) (omega arith)

pub read-write :
    (b : Bool) (n k : ℕ)
    → read_marks (decimal_of false 0 0) (write (decimal_of b n k)) ≡ some (decimal_of b n k)
read-write true n k =
    let e : 0 + n ≡ n = omega arith in
    read-digits true 0 n k ∙ ap (λ (x : ℕ). some (decimal_of true x k)) e
read-write false n k =
    let e : 0 + n ≡ n = omega arith in
    read-digits false 0 n k ∙ ap (λ (x : ℕ). some (decimal_of false x k)) e

abbrev pub read_date : String → Option Date
read_date empty = some 0
read_date (c ∷ₛ s) = elim (read_date s) [ none ↦ none | some n ↦ some (n + 1) ]

pub read_date-marks : (d : Date) → read_date (marks digit d empty) ≡ some d
read_date-marks zero = refl
read_date-marks (suc d) = rw (read_date-marks d) (ap some (omega arith))

abbrev pub marks_texts : Texts
marks_texts = record {
  decimal_str = write;
  decimal = read_marks (decimal_of false 0 0);
  decimal-decimal_str = λ d. read-write d.negative d.digits d.scale;
  isoformat = λ d. marks digit d empty;
  fromisoformat = read_date;
  fromisoformat-isoformat = read_date-marks;
}
