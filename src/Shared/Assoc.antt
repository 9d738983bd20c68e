-- ===== src/Shared/Assoc.antt =====
-- A keyed collection: a `Map`, or a directory whose file names are the keys; and the names alone.
use proven_loop.Shared.Tests.{Eq, if◌then◌else◌}
use proven_loop.Shared.Lists.{contains, without, length}
use Prim.Native.Nat.{◌+◌, ◌≤◌}
use mathlib.Core.Path.{◌≡◌, refl}
use mathlib.Core.Bool.{not, ◌&&◌, ◌||◌}
use mathlib.Core.List.{List, [], ◌∷◌, ◌++◌}
use mathlib.Core.Option.{Option, none, some}
use native.Mathlib.Omega.{arith}

module _ {ℓ κ} {K : Type ℓ} {V : Type κ} ⦃e : Eq K⦄ where
  unfoldable pub lookup : K → List (K × V) → Option V
  lookup key [] = none
  lookup key ((name, value) ∷ entries) =
      if e.is_same name key then some value else lookup key entries

  -- `map.set(key, value)`: a key that is present keeps its place.
  unfoldable pub insert : K → V → List (K × V) → List (K × V)
  insert key new [] = (key, new) ∷ []
  insert key new ((name, value) ∷ entries) =
      if e.is_same name key then (key, new) ∷ entries else (name, value) ∷ insert key new entries

  unfoldable pub delete : K → List (K × V) → List (K × V)
  delete key [] = []
  delete key ((name, value) ∷ entries) =
      if e.is_same name key then delete key entries else (name, value) ∷ delete key entries

  pub lookup-insert :
      (key other : K) (new : V) (entries : List (K × V))
      → lookup other (insert key new entries)
        ≡ (if e.is_same key other then some new else lookup other entries)
  unfolding insert lookup
  lookup-insert key other new [] = refl
  lookup-insert key other new ((name, value) ∷ entries) = ground (
    arith,
    lookup-insert key other new entries,
    e.is_same_iff key other,
    e.is_same_iff name key,
    e.is_same_iff name other,
  )

  pub length-insert-le : (k : K) (v : V) (m : List (K × V)) → length (insert k v m) ≤ length m + 1
  unfolding insert
  length-insert-le k v [] = omega arith
  length-insert-le k v ((i, w) ∷ m) = ground (arith, length-insert-le k v m)

  pub lookup-delete :
      (k j : K) (m : List (K × V))
      → lookup j (delete k m) ≡ (if e.is_same k j then none else lookup j m)
  unfolding lookup delete
  lookup-delete k j [] = ground arith
  lookup-delete k j ((i, w) ∷ m) =
      ground (arith, e.is_same_iff k j, e.is_same_iff i k, e.is_same_iff i j, lookup-delete k j m)

module _ {ℓ} {A : Type ℓ} ⦃e : Eq A⦄ where
  -- A name created if it is absent (`open(path, "wx")`, its EEXIST ignored).
  unfoldable pub touch : A → List A → List A
  touch a xs = if contains a xs then xs else xs ++ a ∷ []

  -- A name removed if it is present (`unlink(path)`, its ENOENT ignored).
  unfoldable pub unlink : A → List A → List A
  unlink a xs = without a xs

  contains-snoc :
      (a b : A) (xs : List A) → contains b (xs ++ a ∷ []) ≡ (e.is_same a b || contains b xs)
  contains-snoc a b [] = refl
  contains-snoc a b (x ∷ xs) = ground (arith, contains-snoc a b xs)

  pub contains-touch :
      (a b : A) (xs : List A) → contains b (touch a xs) ≡ (e.is_same a b || contains b xs)
  unfolding touch
  contains-touch a b xs = ground (arith, contains-snoc a b xs, e.is_same_iff a b)

  pub contains-unlink :
      (a b : A) (xs : List A) → contains b (unlink a xs) ≡ (not (e.is_same a b) && contains b xs)
  unfolding unlink
  contains-unlink a b [] = ground arith
  contains-unlink a b (x ∷ xs) =
      ground
        (arith, e.is_same_iff x a, e.is_same_iff x b, e.is_same_iff a b, contains-unlink a b xs)
