-- ===== src/Shared/Action/Keeps.antt =====
-- A condition on the state that an operation keeps, whatever its outcome.
use proven_loop.Shared.{Bool, true, false, if◌then◌else◌}
use proven_loop.Shared.Result.{Result, ok, err}
use proven_loop.Shared.Action.{Action, ◌>>=◌, ◌>>◌, continue, refuse_if}

module _ {E S : Type 0} (P : S → Type 0) where
  unfoldable pub Keeps : {A : Type 0} → Action E S A → Type 0
  Keeps m = (s : S) → P s → P (m s).1

  continue-Keeps :
      {A B : Type 0} (f : A → Action E S B)
      → ((a : A) → Keeps (f a))
      → (r : Result E A × S) → P r.1
      → P (continue f r).1
  unfolding Keeps
  continue-Keeps f h (ok a, s) p = h a s p
  continue-Keeps f h (err e, s) p = p

  pub bind_after :
      {A B : Type 0} (m : Action E S A) (f : A → Action E S B) (s : S)
      → P (m s).1
      → ((a : A) → Keeps (f a))
      → P ((m >>= f) s).1
  unfolding ◌>>=◌
  bind_after m f s p h = continue-Keeps f h (m s) p

  pub bind-Keeps :
      {A B : Type 0} (m : Action E S A) (f : A → Action E S B)
      → Keeps m
      → ((a : A) → Keeps (f a))
      → Keeps (m >>= f)
  unfolding ◌>>=◌ Keeps
  bind-Keeps m f k h s p = continue-Keeps f h (m s) (k s p)

  pub then-Keeps :
      {B : Type 0} (m : Action E S (Unit {0})) (k : Action E S B)
      → Keeps m
      → Keeps k
      → Keeps (m >> k)
  unfolding ◌>>◌
  then-Keeps m k h h' = bind-Keeps m (λ _. k) h (λ _. h')

  pub refuse_if-Keeps : (b : Bool) (e : E) → Keeps (refuse_if b e)
  unfolding Keeps
  refuse_if-Keeps true e s p = p
  refuse_if-Keeps false e s p = p

  pub choice-Keeps :
      {A : Type 0} (b : Bool) (m k : Action E S A) → Keeps m → Keeps k → Keeps (if b then m else k)
  choice-Keeps true m k h h' = h
  choice-Keeps false m k h h' = h'

  -- An operation that leaves the state as it is.
  pub reads-Keeps : {A : Type 0} (f : S → Result E A) → Keeps (λ s. (f s, s))
  unfolding Keeps
  reads-Keeps f s p = p

  pub keeps : {A : Type 0} (m : Action E S A) → ((s : S) → P s → P (m s).1) → Keeps m
  unfolding Keeps
  keeps m h = h

  pub runs : {A : Type 0} (m : Action E S A) → Keeps m → (s : S) → P s → P (m s).1
  unfolding Keeps
  runs m h = h
