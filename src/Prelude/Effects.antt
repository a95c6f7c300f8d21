-- ===== src/Prelude/Effects.antt =====
-- What a Python call returns or raises, and stateful code that may raise. The state that was
-- reached is kept when an exception leaves a call.
use Prim.Native.String.{String}
use mathlib.Core.Path.{◌≡◌, refl}
use mathlib.Core.Logic.{◌⊎◌, inl, inr}

pub data PyError : Type 0 where
  runtime_error value_error type_error attribute_error database_error broker_error : PyError
  market_data_not_found : String → PyError
  curve_not_found : String → PyError
  projection_curve_not_configured : String → PyError
  projection_curve_not_resolved : String → PyError
  domain_error application_error : String → PyError

pub data Outcome (A : Type 0) : Type 0 where
  ok : A → Outcome A
  raise : PyError → Outcome A

abbrev pub Action : Type 0 → Type 0 → Type 0
Action S A = S → Outcome A × S

module _ {A B : Type 0} where
  abbrev pub bind : Outcome A → (A → Outcome B) → Outcome B
  bind (ok a) f = f a
  bind (raise x) f = raise x

module _ {S A B : Type 0} where
  abbrev pub continue : Outcome A → S → (A → Action S B) → Outcome B × S
  continue (ok a) s f = f a s
  continue (raise x) s f = (raise x, s)

  infixl 5 ◌>>=◌ ◌>>◌
  abbrev pub ◌>>=◌ : Action S A → (A → Action S B) → Action S B
  ◌>>=◌ m f s = continue (m s).0 (m s).1 f

  abbrev pub ◌>>◌ : Action S A → Action S B → Action S B
  ◌>>◌ m n = m >>= λ _. n

abbrev pub pure : {S A : Type 0} → A → Action S A
pure a s = (ok a, s)

abbrev pub throw : {S A : Type 0} → PyError → Action S A
throw x s = (raise x, s)

abbrev pub modify : {S : Type 0} → (S → S) → Action S Unit
modify f s = (ok tt, f s)

pub Outcome-cases :
    {A : Type 0} (o : Outcome A) → ((a : A) × (o ≡ ok a)) ⊎ ((x : PyError) × (o ≡ raise x))
Outcome-cases (ok a) = inl (a, refl)
Outcome-cases (raise x) = inr (x, refl)
