-- ===== src/Shared/Lists.antt =====
-- Lists over the native numbers, and predicates on lists by recursion.
use Prim.Native.Nat.{ℕ, zero, suc, ◌+◌, ◌≤◌}
use mathlib.Core.Path.{◌≡◌, refl, ap}
use mathlib.Core.Logic.{◌⊎◌, inl, inr}
use mathlib.Core.Bool.{Bool, false, true, ◌&&◌, ◌||◌}
use mathlib.Core.List.{List, [], ◌∷◌, ◌++◌}
use mathlib.Core.Option.{Option, none, some}
use native.Mathlib.Omega.{arith}
use proven_loop.Shared.Tests.{Eq, if◌then◌else◌}

module _ {ℓ} {A : Type ℓ} where
  abbrev pub length : List A → ℕ
  length [] = 0
  length (x ∷ xs) = suc (length xs)

  abbrev pub take : ℕ → List A → List A
  take zero xs = []
  take (suc n) [] = []
  take (suc n) (x ∷ xs) = x ∷ take n xs

  abbrev pub replicate : ℕ → A → List A
  replicate zero a = []
  replicate (suc n) a = a ∷ replicate n a

  -- The sum of a measure over a list.
  abbrev pub total : (A → ℕ) → List A → ℕ
  total f [] = 0
  total f (x ∷ xs) = f x + total f xs

  -- `list.at(-1)`.
  abbrev pub get_last? : List A → Option A
  get_last? [] = none
  get_last? (x ∷ []) = some x
  get_last? (x ∷ y ∷ r) = get_last? (y ∷ r)

  -- `list[list.length - 1] = v`, on a list that is not empty.
  abbrev pub set_last : List A → A → List A
  set_last [] v = []
  set_last (x ∷ []) v = v ∷ []
  set_last (x ∷ y ∷ r) v = x ∷ set_last (y ∷ r) v

  -- `list.filter(test)`, the test as a function into `Bool`.
  abbrev pub keep : (A → Bool) → List A → List A
  keep p [] = []
  keep p (x ∷ xs) = if p x then x ∷ keep p xs else keep p xs

  abbrev pub any : (A → Bool) → List A → Bool
  any p [] = false
  any p (x ∷ xs) = p x || any p xs

  abbrev pub all : (A → Bool) → List A → Bool
  all p [] = true
  all p (x ∷ xs) = p x && all p xs

  pub length-append : (xs ys : List A) → length (xs ++ ys) ≡ length xs + length ys
  length-append [] ys = omega arith
  length-append (x ∷ xs) ys = omega (arith, length-append xs ys)

  pub length-take-le : (n : ℕ) (xs : List A) → length (take n xs) ≤ n
  length-take-le zero xs = omega arith
  length-take-le (suc n) [] = omega arith
  length-take-le (suc n) (x ∷ xs) = omega (arith, length-take-le n xs)

  pub take_all : (n : ℕ) (xs : List A) → length xs ≤ n → take n xs ≡ xs
  take_all zero [] h = refl
  take_all zero (x ∷ xs) h = absurd (omega arith)
  take_all (suc n) [] h = refl
  take_all (suc n) (x ∷ xs) h = ap (λ r. x ∷ r) (take_all n xs (omega arith))

  pub length-keep-le : (p : A → Bool) (xs : List A) → length (keep p xs) ≤ length xs
  length-keep-le p [] = omega arith
  length-keep-le p (x ∷ xs) = ground (arith, length-keep-le p xs)

  pub total-append : (f : A → ℕ) (xs ys : List A) → total f (xs ++ ys) ≡ total f xs + total f ys
  total-append f [] ys = omega arith
  total-append f (x ∷ xs) ys = omega (arith, total-append f xs ys)

  pub length-set_last : (xs : List A) (v : A) → length (set_last xs v) ≡ length xs
  length-set_last [] v = refl
  length-set_last (x ∷ []) v = refl
  length-set_last (x ∷ y ∷ r) v = ap suc (length-set_last (y ∷ r) v)

  pub total-set_last :
      (f : A → ℕ) (xs : List A) (v w : A)
      → get_last? xs ≡ some w
      → total f (set_last xs v) + f w ≡ total f xs + f v
  total-set_last f [] v w h = absurd (cc)
  total-set_last f (x ∷ []) v w h = ground arith
  total-set_last f (x ∷ y ∷ r) v w h = omega (arith, total-set_last f (y ∷ r) v w h)

  get_last?-cons : (x : A) (xs : List A) → ¬ (get_last? (x ∷ xs) ≡ none)
  get_last?-cons x [] h = cc
  get_last?-cons x (y ∷ r) h = get_last?-cons y r h

  pub nil_of_get_last? : (xs : List A) → get_last? xs ≡ none → xs ≡ []
  nil_of_get_last? [] h = refl
  nil_of_get_last? (x ∷ r) h = absurd (get_last?-cons x r h)

  pub le-total-get_last? :
      (f : A → ℕ) (xs : List A) (v : A) → get_last? xs ≡ some v → f v ≤ total f xs
  le-total-get_last? f [] v h = absurd (cc)
  le-total-get_last? f (x ∷ []) v h = ground arith
  le-total-get_last? f (x ∷ y ∷ r) v h = omega (arith, le-total-get_last? f (y ∷ r) v h)

pub List-cases {ℓ} :
    {A : Type ℓ} (list : List A)
    → (list ≡ []) ⊎ ((first : A) × (others : List A) × (list ≡ first ∷ others))
List-cases [] = inl refl
List-cases (first ∷ others) = inr (first, others, refl)

-- A predicate on every element.
abbrev pub All {ℓ κ} : {T : Type ℓ} → (T → Type κ) → List T → Type κ
All Holds [] = Unit
All Holds (first ∷ others) = Holds first × All Holds others

module _ {ℓ κ} {A : Type ℓ} (P : A → Type κ) where
  pub All-append : (front back : List A) → All P front → All P back → All P (front ++ back)
  All-append [] back holds more = more
  All-append (first ∷ others) back (this, holds) more = (this, All-append others back holds more)

module _ {ℓ} {A : Type ℓ} ⦃e : Eq A⦄ where
  abbrev pub contains : A → List A → Bool
  contains a [] = false
  contains a (x ∷ xs) = e.is_same x a || contains a xs

  -- Every occurrence of a value taken out.
  abbrev pub without : A → List A → List A
  without a [] = []
  without a (x ∷ xs) = if e.is_same x a then without a xs else x ∷ without a xs

  -- `[...new Set(list)]`: the first occurrence of each value, in order.
  abbrev pub unique : List A → List A
  unique [] = []
  unique (x ∷ xs) = x ∷ without x (unique xs)

  pub length-without-le : (a : A) (xs : List A) → length (without a xs) ≤ length xs
  length-without-le a [] = omega arith
  length-without-le a (x ∷ xs) = ground (arith, length-without-le a xs)

  pub length-unique-le : (xs : List A) → length (unique xs) ≤ length xs
  length-unique-le [] = omega arith
  length-unique-le (x ∷ xs) = omega (arith, length-without-le x (unique xs), length-unique-le xs)
