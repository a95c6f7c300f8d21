-- ===== src/Prelude/Ints.antt =====
-- Python's `int` where it may be negative, and sorted lists of numbers.
use Prim.Native.Nat.{ℕ, ◌≤◌, ◌<◌}
use mathlib.Core.Path.{◌≡◌, refl, sym, subst}
use mathlib.Core.Logic.{◌↔◌, inl, inr}
use mathlib.Core.Bool.{Bool, true, false, ◌&&◌}
use mathlib.Core.List.{List, [], ◌∷◌}
use native.Mathlib.Omega.{arith}
use price_streaming.Prelude.Tests.{Eq, ◌==◌, ==_iff, if◌then◌else◌, leb, nat_eq, ℕ_eq, Bool-cases}
use price_streaming.Prelude.Lists.{elem, distinct}

-- `negsuc n` is the number -(n + 1).
pub data ℤ : Type 0 where
  pos negsuc : ℕ → ℤ

abbrev pub is_negative : ℤ → Bool
is_negative (pos n) = false
is_negative (negsuc n) = true

abbrev pub int_eq : ℤ → ℤ → Bool
int_eq (pos a) (pos b) = nat_eq a b
int_eq (negsuc a) (negsuc b) = nat_eq a b
int_eq _ _ = false

pub int_eq_iff : (a b : ℤ) → (int_eq a b ≡ true) ↔ (a ≡ b)
int_eq_iff (pos a) (pos b) = ground arith
int_eq_iff (negsuc a) (negsuc b) = ground arith
int_eq_iff (pos a) (negsuc b) = ground arith
int_eq_iff (negsuc a) (pos b) = ground arith

instance abbrev pub ℤ_eq : Eq ℤ
ℤ_eq = record { beq = int_eq; beq_iff = int_eq_iff }

abbrev pub list_eq : {A : Type 0} ⦃e : Eq A⦄ → List A → List A → Bool
list_eq [] [] = true
list_eq (x ∷ xs) (y ∷ ys) = x == y && list_eq xs ys
list_eq _ _ = false

pub list_eq_iff : {A : Type 0} ⦃e : Eq A⦄ (xs ys : List A) → (list_eq xs ys ≡ true) ↔ (xs ≡ ys)
list_eq_iff [] [] = ground arith
list_eq_iff [] (y ∷ ys) = ground arith
list_eq_iff (x ∷ xs) [] = ground arith
list_eq_iff (x ∷ xs) (y ∷ ys) = ground (arith, list_eq_iff xs ys, ==_iff x y)

-- `sorted(xs)`
abbrev pub insert_sorted : ℕ → List ℕ → List ℕ
insert_sorted x [] = x ∷ []
insert_sorted x (y ∷ ys) = let rest = insert_sorted x ys in if leb x y then x ∷ y ∷ ys else y ∷ rest

abbrev pub sorted : List ℕ → List ℕ
sorted [] = []
sorted (x ∷ xs) = insert_sorted x (sorted xs)

-- Each number is above the one before it, the first above `d`.
abbrev pub IsIncreasing : ℕ → List ℕ → Type 0
IsIncreasing d [] = Unit
IsIncreasing d (x ∷ xs) = (d < x) × IsIncreasing x xs

-- The same with repetitions.
abbrev pub IsAscending : ℕ → List ℕ → Type 0
IsAscending d [] = Unit
IsAscending d (x ∷ xs) = (d ≤ x) × IsAscending x xs

insert_sorted-IsAscending :
    (d x : ℕ) (ys : List ℕ) → d ≤ x → IsAscending d ys → IsAscending d (insert_sorted x ys)
insert_sorted-IsAscending d x [] h a = (h, tt)
insert_sorted-IsAscending d x (y ∷ ys) h a = elim (Bool-cases (leb x y)) [
  | inl below ↦ rw below (h, (ground (arith, below), a.1))
  | inr above ↦ rw above (a.0, insert_sorted-IsAscending y x ys (ground (arith, above)) a.1)
]

sorted-IsAscending : (xs : List ℕ) → IsAscending 0 (sorted xs)
sorted-IsAscending [] = tt
sorted-IsAscending (x ∷ xs) =
    insert_sorted-IsAscending 0 x (sorted xs) (omega arith) (sorted-IsAscending xs)

absent_below : (a d : ℕ) (xs : List ℕ) → a ≤ d → IsIncreasing d xs → elem a xs ≡ false
absent_below a d [] h i = refl
absent_below a d (x ∷ xs) h i =
    ground (arith, i.0, h, absent_below a x xs (omega (arith, i.0, h)) i.1)

sorted_increasing : (d : ℕ) (xs : List ℕ) → IsIncreasing d xs → sorted (d ∷ xs) ≡ d ∷ xs
sorted_increasing d [] i = refl
sorted_increasing d (x ∷ xs) i = rw (sorted_increasing x xs i.1) (ground (arith, i.0))

distinct_increasing : (d : ℕ) (xs : List ℕ) → IsIncreasing d xs → distinct xs ≡ true
distinct_increasing d [] i = refl
distinct_increasing d (x ∷ xs) i =
    ground (arith, absent_below x x xs (omega arith) i.1, distinct_increasing x xs i.1)

IsIncreasing-of :
    (d : ℕ) (xs : List ℕ) → IsAscending d xs → distinct (d ∷ xs) ≡ true → IsIncreasing d xs
IsIncreasing-of d [] a h = tt
IsIncreasing-of d (x ∷ xs) a h =
    (ground (arith, a.0, h), IsIncreasing-of x xs a.1 (ground (arith, h)))

-- A list is its own sorting without repetitions exactly when it increases.
pub sorted-distinct_iff :
    (d : ℕ) (xs : List ℕ)
    → ((list_eq (d ∷ xs) (sorted (d ∷ xs)) && distinct (d ∷ xs)) ≡ true) ↔ IsIncreasing d xs
sorted-distinct_iff d xs = (
  λ h.
      let e = (list_eq_iff (d ∷ xs) (sorted (d ∷ xs))).0 (ground (arith, h)) in
      let a : IsAscending 0 (d ∷ xs) =
        subst (IsAscending 0) (sym e) (sorted-IsAscending (d ∷ xs)) in
      IsIncreasing-of d xs a.1 (ground (arith, h)),
  λ i. ground (
    arith,
    (list_eq_iff (d ∷ xs) (sorted (d ∷ xs))).1 (sym (sorted_increasing d xs i)),
    absent_below d d xs (omega arith) i,
    distinct_increasing d xs i,
  ),
)
