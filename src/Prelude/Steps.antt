-- ===== src/Prelude/Steps.antt =====
-- A C function over a state: it returns a result and leaves the state as it is at that point, also
-- where it returns an error.
use mathlib.Core.Bool.{Bool, true, false}
use driver_arinc.Prelude.Errors.{Errno, Result, ok, err}

abbrev pub Step : Type 0 → Type 0 → Type 0
Step S A = S → Result A × S

module _ {S : Type 0} where
  abbrev pub pure : {A : Type 0} → A → Step S A
  pure a s = (ok a, s)

  abbrev pub fail : {A : Type 0} → Errno → Step S A
  fail e s = (err e, s)

  infixl 5 ◌>>=◌ ◌>>◌
  abbrev pub ◌>>=◌ : {A B : Type 0} → Step S A → (A → Step S B) → Step S B
  ◌>>=◌ m f s = let (r, s') = m s in elim r [ ok a ↦ f a s' | err e ↦ (err e, s') ]

  abbrev pub ◌>>◌ : {A B : Type 0} → Step S A → Step S B → Step S B
  m >> k = m >>= λ _. k

  abbrev pub modify : (S → S) → Step S (Unit {0})
  modify f s = (ok tt, f s)

  abbrev pub gets : {A : Type 0} → (S → A) → Step S A
  gets f s = (ok (f s), s)

  -- `if (!c) return -e;`
  abbrev pub require : Bool → Errno → Step S (Unit {0})
  require true e s = (ok tt, s)
  require false e s = (err e, s)

  -- `if (err < 0) return -e;`: the error of the call is replaced.
  abbrev pub or_fail : {A : Type 0} → Step S A → Errno → Step S A
  or_fail m e s = let (r, s') = m s in elim r [ ok a ↦ (ok a, s') | err _ ↦ (err e, s') ]
