-- ===== src/Shared/Sorting.antt =====
-- Array.prototype.sort with a comparison, which is stable: an insertion sort.
use Prim.Native.Nat.{ℕ, ◌+◌, compare, Ordering}
use mathlib.Core.Path.{◌≡◌, refl}
use mathlib.Core.Bool.{Bool, ◌&&◌, ◌||◌}
use mathlib.Core.List.{List, [], ◌∷◌}
use native.Mathlib.Omega.{arith}
use proven_loop.Shared.Lists.{total, all, any, All}

-- What a comparison says: its first argument goes before the second, nowhere else, or after it.
pub data Order : Type 0 where
  before same after : Order

-- `left || right`, for two comparisons.
abbrev pub or_else : Order → Order → Order
or_else same second = second
or_else first second = first

-- `left - right`, for two numbers.
abbrev pub number_order : ℕ → ℕ → Order
number_order a b = elim (compare a b) [
  | Ordering.lt ↦ before
  | Ordering.gt ↦ after
  | Ordering.eq ↦ same
]

module _ {ℓ} {A : Type ℓ} (order : A → A → Order) where
  unfoldable pub place : A → List A → List A
  place a [] = a ∷ []
  place a (first ∷ others) = elim (order a first) [
    | after ↦ first ∷ place a others
    | _ ↦ a ∷ first ∷ others
  ]

  unfoldable pub sort_by : List A → List A
  unfolding place
  sort_by [] = []
  sort_by (a ∷ list) = place a (sort_by list)

  total-place : (f : A → ℕ) (a : A) (list : List A) → total f (place a list) ≡ f a + total f list
  unfolding place
  total-place f a [] = omega arith
  total-place f a (first ∷ others) = ground (arith, total-place f a others)

  pub total-sort_by : (f : A → ℕ) (list : List A) → total f (sort_by list) ≡ total f list
  unfolding sort_by
  total-sort_by f [] = refl
  total-sort_by f (a ∷ list) = omega (arith, total-place f a (sort_by list), total-sort_by f list)

  all-place :
      (test : A → Bool) (a : A) (list : List A)
      → all test (place a list) ≡ (test a && all test list)
  unfolding place
  all-place test a [] = ground arith
  all-place test a (first ∷ others) = ground (arith, all-place test a others)

  pub all-sort_by : (test : A → Bool) (list : List A) → all test (sort_by list) ≡ all test list
  unfolding sort_by
  all-sort_by test [] = refl
  all-sort_by test (a ∷ list) =
      ground (arith, all-place test a (sort_by list), all-sort_by test list)

  any-place :
      (test : A → Bool) (a : A) (list : List A)
      → any test (place a list) ≡ (test a || any test list)
  unfolding place
  any-place test a [] = ground arith
  any-place test a (first ∷ others) = ground (arith, any-place test a others)

  pub any-sort_by : (test : A → Bool) (list : List A) → any test (sort_by list) ≡ any test list
  unfolding sort_by
  any-sort_by test [] = refl
  any-sort_by test (a ∷ list) =
      ground (arith, any-place test a (sort_by list), any-sort_by test list)

  module _ {κ} (P : A → Type κ) where
    All-place : (a : A) (list : List A) → P a → All P list → All P (place a list)
    unfolding place
    All-place a [] here others = (here, others)
    All-place a (first ∷ list) here others =
        elim (order a first)
          as (λ o. All P (elim o [ after ↦ first ∷ place a list | _ ↦ a ∷ first ∷ list ])) [
            | after ↦ (others.0, All-place a list here others.1)
            | before ↦ (here, others)
            | same ↦ (here, others)
          ]

    pub All-sort_by : (list : List A) → All P list → All P (sort_by list)
    unfolding sort_by
    All-sort_by [] holds = holds
    All-sort_by (a ∷ list) holds = All-place a (sort_by list) holds.0 (All-sort_by list holds.1)
