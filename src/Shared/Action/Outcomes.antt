-- ===== src/Shared/Action/Outcomes.antt =====
-- What the outcome of a composed operation says of its parts.
use proven_loop.Shared.{ap}
use proven_loop.Shared.{◌≡◌, refl, ◌⊎◌, inl, inr}
use proven_loop.Shared.Result.{Result, ok, err}
use proven_loop.Shared.Action.{Action, ◌>>=◌, continue}

module _ {E S : Type 0} {A B : Type 0} where
  continue-ok :
      (f : A → Action E S B) (r : Result E A × S) (b : B) (s' : S)
      → continue f r ≡ (ok b, s')
      → (a : A) × (s1 : S) × (r ≡ (ok a, s1)) × (f a s1 ≡ (ok b, s'))
  continue-ok f (ok a, s) b s' h = (a, s, refl, h)
  continue-ok f (err e, s) b s' h = absurd (cc)

  pub bind-ok :
      (m : Action E S A) (f : A → Action E S B) (s : S) (b : B) (s' : S)
      → (m >>= f) s ≡ (ok b, s')
      → (a : A) × (s1 : S) × (m s ≡ (ok a, s1)) × (f a s1 ≡ (ok b, s'))
  unfolding ◌>>=◌
  bind-ok m f s b s' h = continue-ok f (m s) b s' h

  continue-err :
      (f : A → Action E S B) (r : Result E A × S) (e : E) (s' : S)
      → continue f r ≡ (err e, s')
      → (r ≡ (err e, s')) ⊎ ((a : A) × (s1 : S) × (r ≡ (ok a, s1)) × (f a s1 ≡ (err e, s')))
  continue-err f (ok a, s) e s' h = inr (a, s, refl, h)
  continue-err f (err x, s) e s' h = inl (cc)

  pub bind-err :
      (m : Action E S A) (f : A → Action E S B) (s : S) (e : E) (s' : S)
      → (m >>= f) s ≡ (err e, s')
      → (m s ≡ (err e, s')) ⊎ ((a : A) × (s1 : S) × (m s ≡ (ok a, s1)) × (f a s1 ≡ (err e, s')))
  unfolding ◌>>=◌
  bind-err m f s e s' h = continue-err f (m s) e s' h

  pub bind-of :
      (m : Action E S A) (f : A → Action E S B) (s : S) (a : A) (s1 : S)
      → m s ≡ (ok a, s1)
      → (m >>= f) s ≡ f a s1
  unfolding ◌>>=◌
  bind-of m f s a s1 h = ap (λ r. continue f r) h

  pub bind-refused :
      (m : Action E S A) (f : A → Action E S B) (s : S) (e : E) (s1 : S)
      → m s ≡ (err e, s1)
      → (m >>= f) s ≡ (err e, s1)
  unfolding ◌>>=◌
  bind-refused m f s e s1 h = ap (λ r. continue f r) h
