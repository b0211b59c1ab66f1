-- ===== src/Prelude/Results.antt =====
-- What a call of the program can end in besides a value, and the monads of fallible code: `Result`
-- for code that only computes, `M S` for code that changes a state of type `S`.
use mathlib.Core.Path.{◌≡◌}
use mathlib.Core.Option.{Option, none, some}
use native.Mathlib.Omega.{arith}

-- The exceptions of include/Exception.hpp and of the standard library that the modelled code throws
-- (messages are dropped), then the undefined behaviours that it can run into.
pub data Error : Type 0 where
  invalid_argument runtime_error out_of_range : Error
  empty_position open_position_error order_not_allowed : Error
  insufficient_margin insufficient_balance : Error
  invalid_timeframe : Error
  null_pointer relock bad_access division_by_zero : Error
  bad_optional_access assertion_failed : Error

pub data Result {ℓ} (A : Type ℓ) : Type ℓ where
  ok : A → Result A
  err : Error → Result A

-- A call on a state keeps what it wrote before it failed.
abbrev pub M {ℓ} : Type ℓ → Type ℓ → Type ℓ
M S A = S → Result A × S

module _ {ℓ} {S : Type ℓ} where
  abbrev pub bind : {A B : Type ℓ} → Result A × S → (A → M S B) → Result B × S
  bind (ok a, s) f = f a s
  bind (err e, s) f = (err e, s)

  infixl 5 ◌>>=◌ ◌>>◌
  abbrev pub ◌>>=◌ : {A B : Type ℓ} → M S A → (A → M S B) → M S B
  ◌>>=◌ m f s = bind (m s) f

  abbrev pub ◌>>◌ : {A B : Type ℓ} → M S A → M S B → M S B
  m >> k = m >>= λ _. k

  abbrev pub pure : {A : Type ℓ} → A → M S A
  pure a s = (ok a, s)

  abbrev pub throw : {A : Type ℓ} → Error → M S A
  throw e s = (err e, s)

  abbrev pub get : M S S
  get s = (ok s, s)

  abbrev pub modify : (S → S) → M S (Unit {ℓ})
  modify f s = (ok tt, f s)

module _ {ℓ κ} {A : Type ℓ} {B : Type κ} where
  abbrev pub and_then : Result A → (A → Result B) → Result B
  and_then (ok a) f = f a
  and_then (err e) f = err e

abbrev pub or_fail {ℓ} : {A : Type ℓ} → Option A → Error → Result A
or_fail none e = err e
or_fail (some a) e = ok a

pub or_fail-eq-ok {ℓ} :
    {A : Type ℓ} (o : Option A) (e : Error) {a : A} → or_fail o e ≡ ok a → o ≡ some a
or_fail-eq-ok o e h = ground arith
