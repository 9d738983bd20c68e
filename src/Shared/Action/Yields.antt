-- ===== src/Shared/Action/Yields.antt =====
-- What holds of the value of an operation, whenever it returns one.
use proven_loop.Shared.{subst, Bool, true, false, if◌then◌else◌, ◌≡◌}
use proven_loop.Shared.Result.{ok}
use proven_loop.Shared.Action.{Action, ◌>>=◌, return}
use proven_loop.Shared.Action.Outcomes.{bind-ok}

module _ {E S A : Type 0} where
  unfoldable pub Yields : (A → Type 0) → Action E S A → Type 0
  Yields P m = (s : S) (a : A) (s' : S) → m s ≡ (ok a, s') → P a

  pub any-Yields : (m : Action E S A) → Yields (λ _. Unit) m
  unfolding Yields
  any-Yields m s a s' h = tt

  pub choice-Yields :
      (P : A → Type 0) (b : Bool) (m k : Action E S A)
      → Yields P m
      → Yields P k
      → Yields P (if b then m else k)
  choice-Yields P true m k h h' = h
  choice-Yields P false m k h h' = h'

  pub yields :
      (P : A → Type 0) (m : Action E S A)
      → Yields P m
      → (s : S) (a : A) (s' : S) → m s ≡ (ok a, s')
      → P a
  unfolding Yields
  yields P m h = h

module _ {E S A B : Type 0} (P : A → Type 0) (Q : B → Type 0) where
  pub bind-Yields :
      (m : Action E S A) (f : A → Action E S B)
      → Yields P m
      → ((a : A) → P a → Yields Q (f a))
      → Yields Q (m >>= f)
  unfolding Yields
  bind-Yields m f h k s b s' e =
      let (a, s1, first, second) = bind-ok m f s b s' e in k a (h s a s1 first) s1 b s' second

pub return-Yields :
    (E S : Type 0) {A : Type 0} (P : A → Type 0) (a : A) → P a → Yields {E = E} {S = S} P (return a)
unfolding Yields
return-Yields E S P a p s b s' h = subst P (cc) p
