-- ===== src/Prelude/Fault.antt =====
-- Python's exceptions as values: the result of code that may raise one.
use os_tep.Prelude.{Bool, true, false}

pub data Fault : Type 0 where
  assertion_error key_error index_error type_error name_error value_error : Fault
  attribute_error recursion_error : Fault
  exited : Fault
  -- no exception: the random numbers that are given do not suffice
  no_draw : Fault

pub data Result {ℓ} (A : Type ℓ) : Type ℓ where
  ok : A → Result A
  raise : Fault → Result A

infixl 5 ◌>>=◌ ◌>>◌
abbrev pub ◌>>=◌ {ℓ κ} : {A : Type ℓ} {B : Type κ} → Result A → (A → Result B) → Result B
ok a >>= f = f a
raise e >>= f = raise e

abbrev pub ◌>>◌ {ℓ} : {B : Type ℓ} → Result (Unit {0}) → Result B → Result B
m >> k = m >>= λ _. k

-- `assert(b)`, and a check that ends in another exception
abbrev pub check : Bool → Fault → Result (Unit {0})
check true e = ok tt
check false e = raise e

-- The value satisfies the predicate, and nothing was raised.
abbrev pub Returns {ℓ} : {A : Type ℓ} → (A → Type 0) → Result A → Type 0
Returns P (ok a) = P a
Returns P (raise e) = ⊥

pub Returns-bind {ℓ κ} :
    {A : Type ℓ} {B : Type κ} (P : A → Type 0) (Q : B → Type 0) (m : Result A) (f : A → Result B)
    → Returns P m
    → ((a : A) → P a → Returns Q (f a))
    → Returns Q (m >>= f)
Returns-bind P Q (ok a) f h k = k a h
Returns-bind P Q (raise e) f h k = absurd h

pub Returns-map {ℓ} :
    {A : Type ℓ} (P Q : A → Type 0) (m : Result A)
    → Returns P m
    → ((a : A) → P a → Q a)
    → Returns Q m
Returns-map P Q (ok a) h k = k a h
Returns-map P Q (raise e) h k = absurd h
