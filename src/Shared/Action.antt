-- ===== src/Shared/Action.antt =====
-- Operations that may throw: an exception ends the operation and keeps the changes made before it.
pub mod Keeps
pub mod Outcomes
pub mod Yields
use mathlib.Core.Bool.{Bool, true, false}
use proven_loop.Shared.Result.{Result, ok, err}

abbrev pub Action : Type 0 → Type 0 → Type 0 → Type 0
Action E S A = S → Result E A × S

module _ {E S : Type 0} where
  abbrev pub continue : {A B : Type 0} → (A → Action E S B) → Result E A × S → Result E B × S
  continue f (ok a, s) = f a s
  continue f (err e, s) = (err e, s)

  infixl 5 ◌>>=◌ ◌>>◌
  unfoldable pub ◌>>=◌ : {A B : Type 0} → Action E S A → (A → Action E S B) → Action E S B
  ◌>>=◌ m f s = continue f (m s)

  unfoldable pub ◌>>◌ : {B : Type 0} → Action E S (Unit {0}) → Action E S B → Action E S B
  unfolding ◌>>=◌
  ◌>>◌ m k = m >>= λ _. k

  abbrev pub return : {A : Type 0} → A → Action E S A
  return a s = (ok a, s)

  abbrev pub throw : {A : Type 0} → E → Action E S A
  throw e s = (err e, s)

  abbrev pub modify : (S → S) → Action E S (Unit {0})
  modify f s = (ok tt, f s)

  abbrev pub gets : {A : Type 0} → (S → A) → Action E S A
  gets f s = (ok (f s), s)

  -- A result that was computed from the state without changing it.
  abbrev pub reads : {A : Type 0} → (S → Result E A) → Action E S A
  reads f s = (f s, s)

  abbrev pub refuse_if : Bool → E → Action E S (Unit {0})
  refuse_if true e s = (err e, s)
  refuse_if false e s = (ok tt, s)
