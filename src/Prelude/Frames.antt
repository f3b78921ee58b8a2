-- ===== src/Prelude/Frames.antt =====
-- What a computation leaves as it was: a view of the state that it does not change where it returns.
use mathlib.Core.Path.{◌≡◌, refl, sym, ap, ◌∙◌}
use mathlib.Core.Bool.{Bool, true, false}
use cryptar.Prelude.Tests.{if◌then◌else◌}
use cryptar.Prelude.Runs.{Result, ok, fault, Fault, State, stop, assert, lift, run_next, ◌>>=◌}

module _ {S A : Type 0} where
  value_or : A × S → Result (A × S) → A × S
  value_or d (ok x) = x
  value_or d (fault e) = d

  -- What a run returns is the one thing that it returns.
  pub ok-inj :
      {a b : A} {s t : S} → Path (Result (A × S)) (ok (a, s)) (ok (b, t)) → (a ≡ b) × (s ≡ t)
  unfolding value_or
  ok-inj {a} {s} e = let same = ap (value_or (a, s)) e in (ap (λ x. x.0) same, ap (λ x. x.1) same)

  -- A run that goes on has a first part that returned.
  pub run_next-ok :
      {B : Type 0} (r : Result (A × S)) (k : A → State S B) {b : B} {s' : S}
      → run_next r k ≡ ok (b, s')
      → (a : A) × (s : S) × (r ≡ ok (a, s)) × (k a s ≡ ok (b, s'))
  run_next-ok (ok (a, s)) k e = (a, s, refl, e)
  run_next-ok (fault x) k e = cc

-- `m` leaves what `f` sees of the state.
pub record Keeps {S A V : Type 0} (f : S → V) (m : State S A) : Type 0 where
  pub same : (s : S) {a : A} {s' : S} → m s ≡ ok (a, s') → f s' ≡ f s

module _ {S V : Type 0} {f : S → V} where
  pub pure-Keeps : {A : Type 0} (a : A) → Keeps f (λ s. ok (a, s))
  pure-Keeps a = record { same = λ s e. ap f (sym (ok-inj e).1) }

  pub get-Keeps : Keeps f (λ s. ok (s, s))
  get-Keeps = record { same = λ s e. ap f (sym (ok-inj e).1) }

  pub stop-Keeps : {A : Type 0} (x : Fault) → Keeps f (let m : State S A = stop x in m)
  stop-Keeps x = record { same = λ s e. cc }

  pub assert-Keeps : (b : Bool) → Keeps f (let m : State S (Unit {0}) = assert b in m)
  assert-Keeps true = pure-Keeps tt
  assert-Keeps false = record { same = λ s e. cc }

  pub lift-Keeps : {A : Type 0} (r : Result A) → Keeps f (let m : State S A = lift r in m)
  lift-Keeps (ok a) = pure-Keeps a
  lift-Keeps (fault x) = record { same = λ s e. cc }

  pub >>=-Keeps :
      {A B : Type 0} {m : State S A} {k : A → State S B}
      → Keeps f m
      → ((a : A) → Keeps f (k a))
      → Keeps f (m >>= k)
  >>=-Keeps {m} {k} p q = record {
    same = λ s e.
        let (a, t, first, rest) = run_next-ok (m s) k e in (q a).same t rest ∙ p.same s first;
  }

  pub if-Keeps :
      {A : Type 0} (b : Bool) {m k : State S A}
      → Keeps f m
      → Keeps f k
      → Keeps f (if b then m else k)
  if-Keeps true p q = p
  if-Keeps false p q = q
