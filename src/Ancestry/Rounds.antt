-- ===== src/Ancestry/Rounds.antt =====
-- The search of the ancestry index ends: each round takes one commit from the stack, and the sets
-- of parents that are pushed are those of commits that were not visited before.
use mathlib.Core.List.{List, [], ◌∷◌}
use text.Mathlib.Text.{◌==◌ as same_text}
use text.Mathlib.TextEquality.{eq_iff}
use mathlib.Core.Bool.{◌&&◌, ◌||◌}
use Prim.Native.Nat.{ℕ, zero, suc, ◌+◌, ◌≤◌}
use mathlib.Core.Logic.{inl, inr}
use mathlib.Core.Option.{some}
use mathlib.Core.Path.{◌≡◌, ap}
use native.Mathlib.Omega.{arith}
use proven_loop.Shared.{
  Bool, true, false, not, String, String_eq, Pair_eq, ℕ_eq, Option_eq, ◌==◌, contains,
  if◌then◌else◌, length, total, List-cases, Bool-cases, Option-cases, same_refl,
}
use proven_loop.Shared.Assoc.{lookup}
use proven_loop.Ancestry.{◌+◌}
use proven_loop.Ancestry.{length}
use proven_loop.Ancestry.{total}
use proven_loop.Ancestry.{some}
use proven_loop.Ancestry.{if◌then◌else◌}
use proven_loop.Ancestry.{◌≡◌}
use proven_loop.Ancestry.{◌∷◌}
use proven_loop.Ancestry.{ℕ}
use proven_loop.Ancestry.{lookup}
use proven_loop.Ancestry.{List}
use proven_loop.Ancestry.{String}
use proven_loop.Ancestry.{
  Parents, Search, push_parents, expand, round, search, fuel_for, is_ancestor, commit, is_empty,
  CommitAncestryQuery,
}

length-push_parents :
    (parents : Parents) (repo ancestor : String) (set pending next : List String)
    → push_parents parents repo ancestor set pending ≡ some next
    → length next ≡ length set + length pending
unfolding push_parents
length-push_parents parents repo ancestor [] pending next h = ground arith
length-push_parents parents repo ancestor (parent ∷ others) pending next h =
    ground (arith, length-push_parents parents repo ancestor others (parent ∷ pending) next)

module _ (repo : String) where
  -- The parents that may still be pushed.
  abbrev weight_of : List String → (String × String) × List String → ℕ
  weight_of visited ((place, child), set) =
      if same_text place repo && not (contains child visited) then length set else 0

  abbrev weight : List String → Parents → ℕ
  weight visited = total (weight_of visited)

  weight_of-le :
      (visited : List String) (entry : (String × String) × List String)
      → weight_of visited entry ≤ length entry.1
  weight_of-le visited ((place, child), set) = ground arith

  weight-le :
      (visited : List String) (parents : Parents)
      → weight visited parents ≤ total (λ entry. length entry.1) parents
  weight-le visited [] = omega arith
  weight-le visited (entry ∷ parents) =
      omega (arith, weight_of-le visited entry, weight-le visited parents)

  weight_of-cons-le :
      (current : String) (visited : List String) (entry : (String × String) × List String)
      → weight_of (current ∷ visited) entry ≤ weight_of visited entry
  weight_of-cons-le current visited ((place, child), set) = ground arith

  weight-cons-le :
      (current : String) (visited : List String) (parents : Parents)
      → weight (current ∷ visited) parents ≤ weight visited parents
  weight-cons-le current visited [] = omega arith
  weight-cons-le current visited (entry ∷ parents) =
      omega (arith, weight_of-cons-le current visited entry, weight-cons-le current visited parents)

  weight-lookup :
      (current : String) (visited set : List String) (parents : Parents)
      → contains current visited ≡ false
      → lookup (repo, current) parents ≡ some set
      → weight (current ∷ visited) parents + length set ≤ weight visited parents
  unfolding lookup
  weight-lookup current visited set [] fresh found = absurd (cc)
  weight-lookup current visited set (((place, child), held) ∷ parents) fresh found = ground (
    arith,
    weight-lookup current visited set parents fresh,
    weight-cons-le current visited parents,
    eq_iff place repo,
    eq_iff child current,
    same_refl current,
  )

  -- The commits on the stack, and the parents that may still be pushed.
  abbrev pub work : Parents → Search → ℕ
  work parents s = length s.pending + weight s.visited parents

module _ (parents : Parents) (repo ancestor : String) where
  pub work-round :
      (current : String) (s next : Search)
      → round parents repo ancestor current s ≡ some next
      → work repo parents next ≤ work repo parents s
  unfolding round expand
  work-round current s next h = elim (Bool-cases (contains current s.visited)) [
    | inl seen ↦ ground arith
    | inr fresh ↦ elim (Option-cases (lookup (repo, current) parents)) [
      | inl missing ↦ ground (arith, weight-cons-le repo current s.visited parents)
      | inr (set, found) ↦ elim (Option-cases (push_parents parents repo ancestor set s.pending)) [
        | inl hit ↦ ground arith
        | inr (pending, pushed) ↦ ground (
          arith,
          weight-lookup repo current s.visited set parents fresh found,
          length-push_parents parents repo ancestor set s.pending pending pushed,
        )
      ]
    ]
  ]

  pub search_returns :
      (fuel : ℕ) (s : Search)
      → work repo parents s ≤ fuel
      → (answer : Bool) × (search parents repo ancestor fuel s ≡ some answer)
  unfolding search
  search_returns zero s h = (false, ground arith)
  search_returns (suc fuel) s h = elim (List-cases s.pending) [
    | inl empty ↦ (false, ground arith)
    | inr (current, rest, e) ↦
        elim (Option-cases (round parents repo ancestor current (record s { pending = rest }))) [
          | inl hit ↦ (true, simp (search, e, hit))
          | inr (next, went) ↦
              let (answer, ends) = search_returns fuel next (
                omega (
                  arith,
                  work-round current (record s { pending = rest }) next went,
                  ap length e,
                )) in
              (answer, simp (search, e, went, ends))
        ]
  ]

-- The loop as isAncestor enters it.
pub first_search_returns :
    (parents : Parents) (repo ancestor descendant : String)
    → (answer : Bool) × (search parents repo ancestor
          (fuel_for parents)
          (record { pending = descendant ∷ []; visited = [] })
        ≡ some answer)
first_search_returns parents repo ancestor descendant =
    search_returns parents repo ancestor (fuel_for parents)
      (record { pending = descendant ∷ []; visited = [] })
      (omega (arith, weight-le repo [] parents))

-- For every index and every query the search of isAncestor ends with an answer, cycles among the
-- commits included: it makes no more rounds than one and the number of all the parents held.
pub is_ancestor_returns :
    (trim lower : String → String) (parents : Parents) (q : CommitAncestryQuery)
    → (answer : Bool) × (is_ancestor trim lower parents q ≡ some answer)
unfolding is_ancestor
is_ancestor_returns trim lower parents q =
    let ancestor = commit trim lower q.ancestor_commit in
    let descendant = commit trim lower q.descendant_commit in
    let (answer, ends) = first_search_returns parents (trim q.query_repo) ancestor descendant in
    elim (Bool-cases (
      is_empty ancestor
      || (is_empty descendant || (is_empty (trim q.query_repo) || (ancestor == descendant))))) [
        | inl refused ↦ (false, simp refused)
        | inr open_query ↦ (answer, simp (open_query, ends))
      ]
