-- ===== src/Ancestry.antt =====
-- packages/domain/src/commit-ancestry.ts: the index of parent commits and its search.
-- `trim` and `lower` are the string methods trim() and toLowerCase(), whatever they do. A key of
-- the map is its pair of parts, which the code joins by a character that is in neither.
pub mod Lineage
pub mod Rounds
pub mod Sound
pub mod Held
pub mod Envelopes
mod Tests
use proven_loop.Shared.{
  ℕ, zero, suc, ◌+◌, ◌≡◌, Bool, true, false, ◌||◌, ◌&&◌, not, Option, none, some, List, [], ◌∷◌,
  String, String_eq, Pair_eq, ◌==◌, contains, if◌then◌else◌, length, total,
}
use proven_loop.Shared.Assoc.{lookup, insert, touch}
use proven_loop.Shared.Result.{Result, ok, err, ◌>>=◌}

pub record CommitAncestryQuery : Type 0 where
  pub ancestor_commit : String
  pub descendant_commit : String
  pub query_repo : String

pub record CommitAncestryEdge : Type 0 where
  pub child_commit : String
  pub parent_commit : String
  pub repo_id : String

-- A repository and a child commit, with the set of the commit's parents.
abbrev pub Parents : Type 0
Parents = List ((String × String) × List String)

pub data AncestryError : Type 0 where
  empty_identifier self_edge : AncestryError

abbrev pub is_empty : String → Bool
is_empty String.[] = true
is_empty (String.◌∷◌ _ _) = false

abbrev pub or_empty : Option (List String) → List String
or_empty none = []
or_empty (some set) = set

pub add_edge : Parents → CommitAncestryEdge → Parents
add_edge parents e =
    let key : String × String = (e.repo_id, e.child_commit) in
    insert key (touch e.parent_commit (or_empty (lookup key parents))) parents

module _ (trim lower : String → String) where
  abbrev pub commit : String → String
  commit identifier = lower (trim identifier)

  unfoldable pub normal : CommitAncestryEdge → CommitAncestryEdge
  normal e = record {
    child_commit = commit e.child_commit;
    parent_commit = commit e.parent_commit;
    repo_id = trim e.repo_id;
  }

  -- The two tests of the constructor's loop, on the normalised edge.
  pub checked : CommitAncestryEdge → Result AncestryError CommitAncestryEdge
  unfolding normal
  checked edge =
      let e = normal edge in
      if is_empty e.repo_id || (is_empty e.parent_commit || is_empty e.child_commit)
      then err empty_identifier
      else if e.parent_commit == e.child_commit
      then err self_edge
      else ok e

  pub add_edges : Parents → List CommitAncestryEdge → Result AncestryError Parents
  unfolding checked add_edge
  add_edges parents [] = ok parents
  add_edges parents (edge ∷ edges) = do e ← checked edge; add_edges (add_edge parents e) edges

  pub construct : List CommitAncestryEdge → Result AncestryError Parents
  unfolding add_edges
  construct edges = add_edges [] edges

-- The locals of the loop in isAncestor, the top of the stack first.
pub record Search : Type 0 where
  pub pending : List String
  pub visited : List String

module _ (parents : Parents) (repo ancestor : String) where
  -- The loop over the parents of a commit; none where it returns true.
  pub push_parents : List String → List String → Option (List String)
  push_parents [] pending = some pending
  push_parents (parent ∷ others) pending =
      if parent == ancestor then none else push_parents others (parent ∷ pending)

  -- The rest of the round after a commit that was not visited before.
  pub expand : String → Search → Option Search
  unfolding push_parents
  expand current s = elim (lookup (repo, current) parents) [
    | none ↦ some (record s { visited = current ∷ s.visited })
    | some set ↦ elim (push_parents set s.pending) [
      | none ↦ none
      | some pending ↦ some (record { pending = pending; visited = current ∷ s.visited })
    ]
  ]

  pub round : String → Search → Option Search
  unfolding expand
  round current s = if contains current s.visited then some s else expand current s

  -- The `while` loop: what it returns, or none where the fuel runs out.
  pub search : ℕ → Search → Option Bool
  unfolding round
  search zero s = elim s.pending [ [] ↦ some false | _ ∷ _ ↦ none ]
  search (suc fuel) s = elim s.pending [
    | [] ↦ some false
    | current ∷ rest ↦ elim (round current (record s { pending = rest })) [
      | none ↦ some true
      | some next ↦ search fuel next
    ]
  ]

-- One round for each commit that is ever pushed: the first, and the parents of each visited one.
abbrev pub fuel_for : Parents → ℕ
fuel_for parents = suc (total (λ entry. length entry.1) parents)

module _ (trim lower : String → String) where
  pub is_ancestor : Parents → CommitAncestryQuery → Option Bool
  unfolding search
  is_ancestor parents q =
      let ancestor = commit trim lower q.ancestor_commit in
      let descendant = commit trim lower q.descendant_commit in
      let repo = trim q.query_repo in
      if is_empty ancestor || (is_empty descendant || (is_empty repo || (ancestor == descendant)))
      then some false
      else search parents repo ancestor (fuel_for parents)
          (record { pending = descendant ∷ []; visited = [] })
