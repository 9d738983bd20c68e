-- ===== src/Ancestry/Envelopes/Accepted.antt =====
-- The edges that captured events give are edges that the index takes.
use mathlib.Core.List.{List, [], ◌∷◌}
use mathlib.Core.Bool.{◌||◌}
use mathlib.Core.Logic.{◌↔◌, inl, inr}
use mathlib.Core.Option.{Option, none, some}
use mathlib.Core.Path.{◌≡◌, refl}
use native.Mathlib.Omega.{arith}
use mathlib.Core.Path.{◌∙◌}
use proven_loop.Shared.Sorting.{Order, sort_by, all-sort_by}
use proven_loop.Shared.{
  Bool, true, false, not, String, String_eq, Pair_eq, ℕ_eq, List_eq, Option_eq, ◌==◌, any, all,
  if_cases, Bool-cases, Option-cases, map,
}
use proven_loop.Shared.Assoc.{insert}
use proven_loop.Shared.Result.{ok}
use proven_loop.Ancestry.{Parents, CommitAncestryEdge, normal, construct, is_empty}
use proven_loop.Ancestry.Lineage.{Parent}
use proven_loop.Ancestry.Held.{acceptable, leads, construct-Parent}
use proven_loop.Ancestry.Envelopes.{
  CommitEvent, EdgeMap, is_commit, edge_of, set_edge, set_candidates, set_event, set_events,
  is_commit_event, set_located, arguments_commits, compare_edges,
  commit_ancestry_edges_from_envelopes,
}

is_commit-nonempty : (text : String) → is_commit text ≡ true → is_empty text ≡ false
unfolding is_commit
is_commit-nonempty String.[] h = absurd (cc)
is_commit-nonempty (String.◌∷◌ c others) h = refl

all-cons {ℓ} :
    {A : Type ℓ} (test : A → Bool) (first : A) (others : List A)
    → all test (first ∷ others) ≡ true
    → (test first ≡ true) × (all test others ≡ true)
all-cons test first others h = (ground arith, ground arith)

cons-all {ℓ} :
    {A : Type ℓ} (test : A → Bool) (first : A) (others : List A)
    → test first ≡ true
    → all test others ≡ true
    → all test (first ∷ others) ≡ true
cons-all test first others h hs = ground arith

-- The event's repository, where it has one, is not blank.
abbrev pub is_located : (String → String) → CommitEvent → Bool
is_located trim e = elim e.event_repo [ none ↦ true | some repo ↦ not (is_empty (trim repo)) ]

module _ (trim lower fold_case : String → String) (compare : String → String → Order)
    (trim-commit : (text : String) → is_commit text ≡ true → trim text ≡ text)
    (lower-lower : (text : String) → lower (lower text) ≡ lower text) where
  edge_of-acceptable :
      (repo sha candidate : String) (e : CommitAncestryEdge)
      → is_empty (trim repo) ≡ false
      → edge_of trim lower fold_case compare repo sha candidate ≡ some e
      → acceptable trim lower e ≡ true
  unfolding edge_of normal
  edge_of-acceptable repo sha candidate e named h =
      let parent = lower (trim candidate) in
      let child = lower sha in
      elim (Bool-cases (
        is_empty parent
        || ((parent == child) || (not (is_commit parent) || not (is_commit child))))) [
          | inl skipped ↦ absurd (ground arith)
          | inr kept ↦
              let parent_is : is_commit parent ≡ true = ground arith in
              let child_is : is_commit child ≡ true = ground arith in
              ground (
                arith,
                trim-commit parent parent_is,
                trim-commit child child_is,
                lower-lower (trim candidate),
                lower-lower sha,
                is_commit-nonempty child child_is,
              )
        ]

  abbrev AreTaken : EdgeMap → Type 0
  AreTaken edges = all (λ entry. acceptable trim lower entry.1) edges ≡ true

  insert-AreTaken :
      (key : (String × String) × String) (e : CommitAncestryEdge) (edges : EdgeMap)
      → acceptable trim lower e ≡ true
      → AreTaken edges
      → AreTaken (insert key e edges)
  unfolding insert
  insert-AreTaken key e [] fine taken = ground arith
  insert-AreTaken key e ((name, held) ∷ edges) fine taken =
      let (first, others) =
        all-cons (λ entry. acceptable trim lower entry.1) (name, held) edges taken in
      if_cases AreTaken (Pair_eq.is_same name key)
        (λ hit. cons-all (λ entry. acceptable trim lower entry.1) (key, e) edges fine others)
        (λ miss.
          cons-all (λ entry. acceptable trim lower entry.1) (name, held) (insert key e edges) first
            (insert-AreTaken key e edges fine others))

  set_candidates-AreTaken :
      (repo sha : String) (candidates : List String) (edges : EdgeMap)
      → is_empty (trim repo) ≡ false
      → AreTaken edges
      → AreTaken (set_candidates trim lower fold_case compare repo sha candidates edges)
  unfolding set_candidates
  set_candidates-AreTaken repo sha [] edges named taken = taken
  set_candidates-AreTaken repo sha (candidate ∷ others) edges named taken =
      set_candidates-AreTaken repo sha others
        (set_edge (edge_of trim lower fold_case compare repo sha candidate) edges) named
        (elim (Option-cases (edge_of trim lower fold_case compare repo sha candidate)) [
          | inl skipped ↦ simp (skipped, taken)
          | inr (e, kept) ↦ simp (
            kept,
            insert-AreTaken ((e.repo_id, e.parent_commit), e.child_commit) e edges
                (edge_of-acceptable repo sha candidate e named kept) taken,
          )
        ])

  set_event-AreTaken :
      (e : CommitEvent) (edges : EdgeMap)
      → is_located trim e ≡ true
      → AreTaken edges
      → AreTaken (set_event trim lower fold_case compare e edges)
  unfolding set_event
  set_event-AreTaken e edges h taken =
      if_cases AreTaken (is_commit_event trim lower fold_case compare e)
        (λ _. located e.event_repo e.commit_sha refl) (λ _. taken)
    where
      located :
          (repo sha : Option String)
          → e.event_repo ≡ repo
          → AreTaken (set_located trim lower fold_case compare e repo sha edges)
      located none sha at = taken
      located (some repo) none at = taken
      located (some repo) (some sha) at =
          set_candidates-AreTaken repo sha
            (arguments_commits trim lower fold_case compare e.redacted_arguments) edges
            (ground arith) taken

  set_events-AreTaken :
      (events : List CommitEvent) (edges : EdgeMap)
      → all (is_located trim) events ≡ true
      → AreTaken edges
      → AreTaken (set_events trim lower fold_case compare events edges)
  unfolding set_events
  set_events-AreTaken [] edges h taken = taken
  set_events-AreTaken (e ∷ events) edges h taken =
      let (first, others) = all-cons (is_located trim) e events h in
      set_events-AreTaken events (set_event trim lower fold_case compare e edges) others
        (set_event-AreTaken e edges first taken)

  all-map :
      (edges : EdgeMap)
      → AreTaken edges
      → all (acceptable trim lower) (map (λ entry. entry.1) edges) ≡ true
  all-map [] h = refl
  all-map ((key, e) ∷ edges) h = ground (arith, all-map edges)

-- Where trim() leaves a text that commitPattern matches as it is, toLowerCase() changes nothing when
-- applied twice, and no event has a blank repository, the edges that
-- commitAncestryEdgesFromEnvelopes makes of any captured events are taken by the constructor of the
-- index, and the index gives a commit a parent exactly where one of them, normalised, says so.
pub construct-edges :
    (trim lower fold_case : String → String) (compare : String → String → Order)
    (trim-commit : (text : String) → is_commit text ≡ true → trim text ≡ text)
    (lower-lower : (text : String) → lower (lower text) ≡ lower text) (events : List CommitEvent)
    → all (is_located trim) events ≡ true
    → (parents : Parents) × (construct trim lower
          (commit_ancestry_edges_from_envelopes trim lower fold_case compare events)
        ≡ ok parents)
      × ((repo child parent : String)
          → Parent parents repo child parent ↔ (
              any
                (λ e. leads repo child parent (normal trim lower e))
                (commit_ancestry_edges_from_envelopes trim lower fold_case compare events)
              ≡ true))
unfolding commit_ancestry_edges_from_envelopes
construct-edges trim lower fold_case compare trim-commit lower-lower events h =
    let edges = set_events trim lower fold_case compare events [] in
    let taken =
      set_events-AreTaken trim lower fold_case compare trim-commit lower-lower events [] h refl in
    let sources =
      map (λ (entry : ((String × String) × String) × CommitAncestryEdge). entry.1) edges in
    construct-Parent trim lower (sort_by (compare_edges trim lower fold_case compare) sources) (
      all-sort_by (compare_edges trim lower fold_case compare) (acceptable trim lower) sources
      ∙ all-map trim lower fold_case compare trim-commit lower-lower edges taken)
