-- ===== src/Queue/Reset/Dropped.antt =====
-- Dropping every entry of a list from it, one by one, leaves none.
use mathlib.Core.List.{List, [], ◌∷◌}
use mathlib.Core.Path.{◌≡◌, refl}
use native.Mathlib.Omega.{arith}
use proven_loop.Shared.{
  true, String, String_eq, Pair_eq, ℕ_eq, List_eq, Option_eq, Eq, contains, all,
}
use proven_loop.Shared.Assoc.{delete, unlink}
use proven_loop.Queue.Reset.{names}

abbrev pub each : {A X : Type 0} → (A → X → X) → List A → X → X
each drop [] x = x
each drop (a ∷ list) x = each drop list (drop a x)

module _ {A : Type 0} ⦃e : Eq A⦄ where
  still-in :
      (a : A) (dropped list : List A)
      → all (λ b. contains b (a ∷ dropped)) list ≡ true
      → all (λ b. contains b dropped) (unlink a list) ≡ true
  unfolding unlink
  still-in a dropped [] h = refl
  still-in a dropped (b ∷ list) h =
      ground (arith, h, e.is_same_iff a b, e.is_same_iff b a, still-in a dropped list)

  unlink-each :
      (dropped list : List A)
      → all (λ b. contains b dropped) list ≡ true
      → each unlink dropped list ≡ []
  unlink-each [] [] h = refl
  unlink-each [] (b ∷ list) h = absurd (ground (arith, h))
  unlink-each (a ∷ dropped) list h = unlink-each dropped (unlink a list) (still-in a dropped list h)

  in_more :
      (a : A) (dropped list : List A)
      → all (λ b. contains b dropped) list ≡ true
      → all (λ b. contains b (a ∷ dropped)) list ≡ true
  in_more a dropped [] h = refl
  in_more a dropped (b ∷ list) h = ground (arith, h, in_more a dropped list)

  in_itself : (list : List A) → all (λ b. contains b list) list ≡ true
  in_itself [] = refl
  in_itself (a ∷ list) = ground (arith, e.is_same_iff a a, in_more a list list (in_itself list))

  pub unlink_all : (list : List A) → each unlink list list ≡ []
  unlink_all list = unlink-each list list (in_itself list)

module _ {V : Type 0} where
  still-named :
      (id : String) (dropped : List String) (entries : List (String × V))
      → all (λ b. contains b (id ∷ dropped)) (names entries) ≡ true
      → all (λ b. contains b dropped) (names (delete id entries)) ≡ true
  unfolding delete
  still-named id dropped [] h = refl
  still-named id dropped ((name, v) ∷ entries) h = ground (
    arith,
    h,
    String_eq.is_same_iff name id,
    String_eq.is_same_iff id name,
    still-named id dropped entries,
  )

  delete-each :
      (dropped : List String) (entries : List (String × V))
      → all (λ b. contains b dropped) (names entries) ≡ true
      → each delete dropped entries ≡ []
  delete-each [] [] h = refl
  delete-each [] (entry ∷ entries) h = absurd (ground (arith, h))
  delete-each (id ∷ dropped) entries h =
      delete-each dropped (delete id entries) (still-named id dropped entries h)

  pub delete_all : (entries : List (String × V)) → each delete (names entries) entries ≡ []
  delete_all entries = delete-each (names entries) entries (in_itself (names entries))
