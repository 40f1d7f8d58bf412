-- ===== src/Prelude/Outcomes.antt =====
-- How a call of the program ends: it returns, it throws, or its behaviour is undefined (a C++
-- program that reads a destroyed object).

use mathlib.Core.Path.{◌≡◌, refl}

-- The exceptions, by the class that the source throws (`runtime_error` for the bare class).
pub data Exception : Type 0 where
  no_destinations invalid_destination invalid_weight invalid_weight_factor : Exception
  invalid_type runtime_error : Exception
  dup_processor_name dup_container_name dup_lambda_name : Exception
  no_processor_found no_container_found init_done : Exception

pub data Outcome {ℓ} (A : Type ℓ) : Type ℓ where
  ok : A → Outcome A
  throws : Exception → Outcome A
  undefined : Outcome A

infixl 5 ◌>>=◌ ◌>>◌
abbrev pub ◌>>=◌ {ℓ κ} : {A : Type ℓ} {B : Type κ} → Outcome A → (A → Outcome B) → Outcome B
ok a >>= f = f a
throws e >>= f = throws e
undefined >>= f = undefined

abbrev pub ◌>>◌ {ℓ κ} : {A : Type ℓ} {B : Type κ} → Outcome A → Outcome B → Outcome B
m >> k = m >>= λ _. k

-- What holds of the value of a call that returns; a call that throws or is undefined has none.
abbrev pub Returns {ℓ} : {A : Type ℓ} → (A → Type 0) → Outcome A → Type 0
Returns P (ok a) = P a
Returns P (throws e) = ⊥
Returns P undefined = ⊥

pub Returns-mono :
    {A : Type 0} (P Q : A → Type 0) (o : Outcome A)
    → ((a : A) → P a → Q a)
    → Returns P o
    → Returns Q o
Returns-mono P Q (ok a) f h = f a h
Returns-mono P Q (throws x) f h = h
Returns-mono P Q undefined f h = h

pub Returns-ok :
    {A : Type 0} (P : A → Type 0) (o : Outcome A) → Returns P o → (a : A) × (o ≡ ok a) × P a
Returns-ok P (ok a) h = (a, refl, h)
Returns-ok P (throws x) h = absurd h
Returns-ok P undefined h = absurd h

-- What holds of the value of a call if it returns.
abbrev pub OnReturn {ℓ} : {A : Type ℓ} → (A → Type 0) → Outcome A → Type 0
OnReturn P (ok a) = P a
OnReturn P (throws e) = Unit
OnReturn P undefined = Unit

pub OnReturn-bind :
    {A B : Type 0} (P : A → Type 0) (Q : B → Type 0) (m : Outcome A) (k : A → Outcome B)
    → OnReturn P m
    → ((a : A) → P a → OnReturn Q (k a))
    → OnReturn Q (m >>= k)
OnReturn-bind P Q (ok a) k p f = f a p
OnReturn-bind P Q (throws e) k p f = tt
OnReturn-bind P Q undefined k p f = tt

pub OnReturn-ok :
    {A : Type 0} (P : A → Type 0) (o : Outcome A) (a : A) → OnReturn P o → o ≡ ok a → P a
OnReturn-ok P o a p e = rw e at p

pub OnReturn-self : {A : Type 0} (o : Outcome A) → OnReturn (λ a. o ≡ ok a) o
OnReturn-self (ok a) = refl
OnReturn-self (throws e) = tt
OnReturn-self undefined = tt
