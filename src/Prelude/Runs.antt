-- ===== src/Prelude/Runs.antt =====
-- What a function of the program does: it returns, or the process stops at a failed assertion or
-- at an access outside of what was written.
use mathlib.Core.Bool.{Bool, true, false}

-- `assertion_failed` is a failed `assert` or `g_assert`, or a call of `g_error`; `exited` is a call of
-- `exit`. `out_of_fuel` marks a loop cut off by the model. `thrown` is an exception of C++.
pub data Exception : Type 0 where
  runtime_error invalid_argument length_error domain_error logic_error out_of_range : Exception
  archive_exception thrown_text : Exception

pub data Fault : Type 0 where
  assertion_failed null_dereference out_of_bounds out_of_fuel exited : Fault
  thrown : Exception → Fault

pub data Result {ℓ} (A : Type ℓ) : Type ℓ where
  ok : A → Result A
  fault : Fault → Result A

-- A bind of results; `◌>>=◌` is left to the state monads.
abbrev pub and_then {ℓ κ} : {A : Type ℓ} {B : Type κ} → Result A → (A → Result B) → Result B
and_then (ok a) f = f a
and_then (fault e) f = fault e

-- The state monad with faults over a state `S`.
abbrev pub State : Type 0 → Type 0 → Type 0
State S A = S → Result (A × S)

module _ {S : Type 0} where
  abbrev pub pure : {A : Type 0} → A → State S A
  pure a s = ok (a, s)

  abbrev pub stop : {A : Type 0} → Fault → State S A
  stop e s = fault e

  abbrev pub get : State S S
  get s = ok (s, s)

  abbrev pub put : S → State S (Unit {0})
  put s' s = ok (tt, s')

  abbrev pub assert : Bool → State S (Unit {0})
  assert true = pure tt
  assert false = stop assertion_failed

  abbrev pub run_next : {A B : Type 0} → Result (A × S) → (A → State S B) → Result (B × S)
  run_next (ok (a, s)) f = f a s
  run_next (fault e) f = fault e

  infixl 5 ◌>>=◌ ◌>>◌
  abbrev pub ◌>>=◌ : {A B : Type 0} → State S A → (A → State S B) → State S B
  ◌>>=◌ m f = λ s. run_next (m s) f

  abbrev pub ◌>>◌ : {A B : Type 0} → State S A → State S B → State S B
  m >> k = m >>= λ _. k

  -- A computation of no state of its own.
  abbrev pub lift : {A : Type 0} → Result A → State S A
  lift (ok a) s = ok (a, s)
  lift (fault e) s = fault e
