-- ===== src/Ancestry/Sound.antt =====
-- The search answers true exactly for the commits on a line of parents.
use mathlib.Core.List.{List, [], ◌∷◌}
use text.Mathlib.TextEquality.{eq_iff}
use mathlib.Core.Bool.{◌||◌}
use Prim.Native.Nat.{ℕ, zero, suc}
use mathlib.Core.Logic.{◌≢◌, ◌↔◌, ◌⊎◌, inl, inr}
use mathlib.Core.Option.{none, some}
use mathlib.Core.Path.{◌≡◌, refl, sym, ap, subst}
use native.Mathlib.Omega.{arith}
use proven_loop.Shared.{
  Bool, true, false, String, String_eq, Pair_eq, ℕ_eq, Option_eq, ◌==◌, contains, Bool-cases,
  Option-cases, same_refl,
}
use proven_loop.Shared.Assoc.{lookup}
use proven_loop.Ancestry.{
  Parents, Search, push_parents, expand, round, search, fuel_for, is_ancestor, commit, is_empty,
  CommitAncestryQuery,
}
use proven_loop.Ancestry.Lineage.{Parent, Line, direct, further, Line-append}
use proven_loop.Ancestry.Rounds.{first_search_returns}

module _ (parents : Parents) (repo ancestor : String) where
  -- The ancestor is among the parents where the loop over them stops.
  push_parents-none :
      (set pending : List String)
      → push_parents parents repo ancestor set pending ≡ none
      → contains ancestor set ≡ true
  unfolding push_parents
  push_parents-none [] pending h = absurd (cc)
  push_parents-none (parent ∷ others) pending h =
      ground (arith, push_parents-none others (parent ∷ pending))

  push_parents-some :
      (set pending next : List String)
      → push_parents parents repo ancestor set pending ≡ some next
      → (contains ancestor set ≡ false)
        × ((name : String) → contains name next ≡ (contains name set || contains name pending))
  unfolding push_parents
  push_parents-some [] pending next h = (refl, λ name. ground arith)
  push_parents-some (parent ∷ others) pending next h = elim (Bool-cases (parent == ancestor)) [
    | inl hit ↦ absurd (ground arith)
    | inr miss ↦
        let (clear, members) = push_parents-some others (parent ∷ pending) next (ground arith) in
        (ground arith, λ name. ground (arith, members name))
  ]

  module _ (descendant : String) where
    -- What holds before each round, where the ancestor was not met yet.
    record Inv (s : Search) : Type 0 where
      start : (contains descendant s.pending || contains descendant s.visited) ≡ true
      above :
          (name : String)
          → contains name s.pending ≡ true
          → (name ≡ descendant) ⊎ Line parents repo descendant name
      closed :
          (child parent : String)
          → contains child s.visited ≡ true
          → Parent parents repo child parent
          → (parent ≢ ancestor) × ((contains parent s.pending || contains parent s.visited) ≡ true)

    -- A parent of a commit at or above the descendant is above it.
    reach_parent :
        (current parent : String) (set : List String)
        → (current ≡ descendant) ⊎ Line parents repo descendant current
        → lookup (repo, current) parents ≡ some set
        → contains parent set ≡ true
        → Line parents repo descendant parent
    reach_parent current parent set (inl here) found held =
        direct (record { set = set; entry = rw here at found; member = held })
    reach_parent current parent set (inr line) found held =
        Line-append line (record { set = set; entry = found; member = held })

    round-found :
        (current : String) (s : Search)
        → (current ≡ descendant) ⊎ Line parents repo descendant current
        → round parents repo ancestor current s ≡ none
        → Line parents repo descendant ancestor
    unfolding round expand
    round-found current s placed h = elim (Bool-cases (contains current s.visited)) [
      | inl seen ↦ absurd (ground arith)
      | inr fresh ↦ elim (Option-cases (lookup (repo, current) parents)) [
        | inl missing ↦ absurd (ground arith)
        | inr (set, found) ↦
            elim (Option-cases (push_parents parents repo ancestor set s.pending)) [
              | inl hit ↦
                  reach_parent current ancestor set placed found
                    (push_parents-none set s.pending hit)
              | inr (pending, pushed) ↦ absurd (ground arith)
            ]
      ]
    ]

    -- A commit is taken from the stack and its round ends without the ancestor.
    Inv-skip :
        (current : String) (rest visited : List String)
        → Inv (record { pending = current ∷ rest; visited = visited })
        → contains current visited ≡ true
        → Inv (record { pending = rest; visited = visited })
    Inv-skip current rest visited inv seen = record {
      start = ground (arith, inv.start, eq_iff current descendant);
      above = λ name h. inv.above name (ground arith);
      closed = λ child parent h p.
          let (other, held) = inv.closed child parent h p in
          (other, ground (arith, held, eq_iff current parent));
    }

    Inv-visit :
        (current : String) (rest visited pending : List String) (set : List String)
        → Inv (record { pending = current ∷ rest; visited = visited })
        → ((parent : String) → Parent parents repo current parent → contains parent set ≡ true)
        → ((parent : String) → contains parent set ≡ true → Line parents repo descendant parent)
        → contains ancestor set ≡ false
        → ((name : String) → contains name pending ≡ (contains name set || contains name rest))
        → Inv (record { pending = pending; visited = current ∷ visited })
    Inv-visit current rest visited pending set inv held line clear members = record {
      start = ground (arith, inv.start, members descendant);
      above = λ name h. elim (Bool-cases (contains name set)) [
        | inl new ↦ inr (line name new)
        | inr old ↦ inv.above name (ground (arith, members name))
      ];
      closed = λ child parent h p. elim (Bool-cases (current == child)) [
        | inl same ↦
            let new = held parent (rw (sym ((eq_iff current child).0 same)) at p) in
            (
              (λ e. ground (arith, ap (λ name. contains name set) e)),
              ground (arith, members parent),
            )
        | inr other ↦
            let (apart, waits) = inv.closed child parent (ground arith) p in
            (apart, ground (arith, waits, members parent))
      ];
    }

    Inv-round :
        (current : String) (rest visited : List String) (next : Search)
        → Inv (record { pending = current ∷ rest; visited = visited })
        → round parents repo ancestor current (record { pending = rest; visited = visited })
          ≡ some next
        → Inv next
    unfolding round expand
    Inv-round current rest visited next inv h = elim (Bool-cases (contains current visited)) [
      | inl seen ↦ subst Inv (ground arith) (Inv-skip current rest visited inv seen)
      | inr fresh ↦ elim (Option-cases (lookup (repo, current) parents)) [
        | inl missing ↦ subst Inv (ground arith) (
            Inv-visit current rest visited rest [] inv (λ parent p. ground (arith, p.entry))
              (λ parent p. absurd (cc)) refl (λ name. refl))
        | inr (set, found) ↦ elim (Option-cases (push_parents parents repo ancestor set rest)) [
          | inl hit ↦ absurd (ground arith)
          | inr (pending, pushed) ↦
              let placed = inv.above current (ground (arith, same_refl current)) in
              let (clear, members) = push_parents-some set rest pending pushed in
              subst Inv (ground arith) (
                Inv-visit current rest visited pending set inv
                  (λ parent p. ground (arith, p.entry, p.member))
                  (λ parent. reach_parent current parent set placed found) clear members)
        ]
      ]
    ]

    -- The answer of the loop, from a state that the invariant describes.
    Answers : Bool → Type 0
    Answers true = Line parents repo descendant ancestor
    Answers false = ¬ Line parents repo descendant ancestor

    -- Nothing waits: every parent of a visited commit is visited and is not the ancestor.
    closed-no-Line :
        (s : Search)
        → Inv s
        → s.pending ≡ []
        → (child : String) → contains child s.visited ≡ true
        → ¬ Line parents repo child ancestor
    closed-no-Line s inv empty child h (direct p) = (inv.closed child ancestor h p).0 refl
    closed-no-Line s inv empty child h (further {parent = parent} p line) =
        let (apart, waits) = inv.closed child parent h p in
        closed-no-Line s inv empty parent (ground (arith, waits, ap (contains parent) empty)) line

    none_left :
        (visited : List String) (answer : Bool)
        → Inv (record { pending = []; visited = visited })
        → some false ≡ some answer
        → Answers answer
    unfolding Answers
    none_left visited true inv h = absurd (cc)
    none_left visited false inv h =
        closed-no-Line (record { pending = []; visited = visited }) inv refl descendant
          (ground (arith, inv.start))

    Answers-true :
        (answer : Bool)
        → Line parents repo descendant ancestor
        → some true ≡ some answer
        → Answers answer
    unfolding Answers
    Answers-true true line h = line
    Answers-true false line h = absurd (cc)

    search-Answers :
        (fuel : ℕ) (pending visited : List String) (answer : Bool)
        → Inv (record { pending = pending; visited = visited })
        → search parents repo ancestor fuel (record { pending = pending; visited = visited })
          ≡ some answer
        → Answers answer
    unfolding search
    search-Answers zero [] visited answer inv h = none_left visited answer inv h
    search-Answers zero (current ∷ rest) visited answer inv h = absurd (cc)
    search-Answers (suc fuel) [] visited answer inv h = none_left visited answer inv h
    search-Answers (suc fuel) (current ∷ rest) visited answer inv h =
        elim (Option-cases
          (round parents repo ancestor current (record { pending = rest; visited = visited }))) [
            | inl hit ↦
                Answers-true answer
                  (round-found current (record { pending = rest; visited = visited })
                    (inv.above current (ground (arith, same_refl current))) hit)
                  (rw (hit, search) at h)
            | inr (next, went) ↦
                search-Answers fuel next.pending next.visited answer
                  (Inv-round current rest visited next inv went) (rw (went, search) at h)
          ]

-- The start of the loop.
Inv-start :
    (parents : Parents) (repo ancestor descendant : String)
    → Inv parents repo ancestor descendant (record { pending = descendant ∷ []; visited = [] })
Inv-start parents repo ancestor descendant = record {
  start = ground (arith, same_refl descendant);
  above = λ name h. inl (ground (arith, eq_iff descendant name));
  closed = λ child parent h p. absurd (cc);
}

answer_iff :
    (parents : Parents) (repo ancestor descendant : String) (answer : Bool)
    → Answers parents repo ancestor descendant answer
    → (answer ≡ true) ↔ Line parents repo descendant ancestor
unfolding Answers
answer_iff parents repo ancestor descendant true line = (λ h. line, λ l. refl)
answer_iff parents repo ancestor descendant false no_line =
    (λ h. absurd (cc), λ line. absurd (no_line line))

first_search_iff :
    (parents : Parents) (repo ancestor descendant : String)
    → (search parents repo ancestor
          (fuel_for parents)
          (record { pending = descendant ∷ []; visited = [] })
        ≡ some true)
      ↔ Line parents repo descendant ancestor
first_search_iff parents repo ancestor descendant =
    let (answer, ends) = first_search_returns parents repo ancestor descendant in
    let right =
      search-Answers parents repo ancestor descendant (fuel_for parents) (descendant ∷ []) [] answer
        (Inv-start parents repo ancestor descendant) ends in
    let (sound, full) = answer_iff parents repo ancestor descendant answer right in
    (λ h. sound (cc), λ line. cc (full line))

-- What isAncestor asks of a query before it searches, and what the search decides then.
pub record IsAncestor (trim lower : String → String) (parents : Parents) (q : CommitAncestryQuery)
    : Type 0 where
  pub named :
      is_empty (commit trim lower q.ancestor_commit)
        || (is_empty (commit trim lower q.descendant_commit) || is_empty (trim q.query_repo))
      ≡ false
  pub distinct : commit trim lower q.ancestor_commit ≢ commit trim lower q.descendant_commit
  pub line :
      Line parents
        (trim q.query_repo)
        (commit trim lower q.descendant_commit)
        (commit trim lower q.ancestor_commit)

-- For every index and every query isAncestor returns true exactly where the normalised identifiers
-- are not empty, the two commits are distinct, and one or more steps from a commit to one of its
-- parents lead from the descendant to the ancestor.
pub is_ancestor_iff :
    (trim lower : String → String) (parents : Parents) (q : CommitAncestryQuery)
    → (is_ancestor trim lower parents q ≡ some true) ↔ IsAncestor trim lower parents q
unfolding is_ancestor
is_ancestor_iff trim lower parents q =
    let ancestor = commit trim lower q.ancestor_commit in
    let descendant = commit trim lower q.descendant_commit in
    let repo = trim q.query_repo in
    let names = is_empty ancestor || (is_empty descendant || is_empty repo) in
    elim (Bool-cases names) [
      | inl blank ↦ (λ h. absurd (ground arith), λ claim. absurd (ground (arith, claim.named)))
      | inr named ↦ elim (Bool-cases (ancestor == descendant)) [
        | inl same ↦ (
          λ h. absurd (ground arith),
          λ claim. absurd (claim.distinct ((eq_iff ancestor descendant).0 same)),
        )
        | inr distinct ↦
            let (sound, full) = first_search_iff parents repo ancestor descendant in
            (
              λ h. record {
                named = ground arith;
                distinct = λ e. ground (arith, eq_iff ancestor descendant);
                line = sound (ground arith);
              },
              λ claim. ground (arith, full claim.line),
            )
      ]
    ]
