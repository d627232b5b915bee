-- ===== src/Prelude/Outcome.antt =====
-- A Go pair `(value, error)` of which exactly one part is meaningful.
use mathlib.Core.Path.{◌≡◌, refl}
use mathlib.Core.Logic.{◌⊎◌, inl, inr}

pub data Result {ℓ} (E : Type ℓ) (A : Type ℓ) : Type ℓ where
  ok : A → Result E A
  err : E → Result E A

-- A result with no value: a nil or non-nil error.
abbrev pub Done : Type 0
Done = Unit

-- An operation of an object that is mutated: its result, and the state that it leaves.
abbrev pub Action : Type 0 → Type 0 → Type 0 → Type 0
Action S E A = S → Result E A × S

infixl 5 ◌>>=◌
abbrev pub ◌>>=◌ : {E A B : Type 0} → Result E A → (A → Result E B) → Result E B
ok a >>= f = f a
err e >>= f = err e

-- `fmt.Errorf("...: %w", err)`
abbrev pub wrap : {E F A : Type 0} → (E → F) → Result E A → Result F A
wrap f (ok a) = ok a
wrap f (err e) = err (f e)

-- A call either succeeded or failed, with the equation that says so.
pub Result-cases :
    {E A : Type 0} (call : Result E A)
    → ((value : A) × (call ≡ ok value)) ⊎ ((error : E) × (call ≡ err error))
Result-cases (ok value) = inl (value, refl)
Result-cases (err error) = inr (error, refl)

-- Where two calls in a row end well, the first did, and the second did on its value.
pub both_ok :
    {E A B : Type 0} (first : Result E A) (second : A → Result E B) {last : B}
    → first >>= second ≡ ok last
    → (value : A) × (first ≡ ok value) × (second value ≡ ok last)
both_ok (err error) second ends = cc
both_ok (ok value) second ends = (value, refl, ends)
