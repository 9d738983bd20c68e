-- ===== src/Ancestry/Tests.antt =====
-- The ancestry index on small inputs: a cycle, a fork, and an edge that is refused.
use mathlib.Core.List.{List, [], ◌∷◌}
use mathlib.Core.Logic.{◌↔◌}
use mathlib.Core.Option.{some}
use mathlib.Core.Path.{◌≡◌, refl}
use proven_loop.Shared.{
  Bool, true, false, String, String_eq, Pair_eq, ℕ_eq, List_eq, Option_eq, ◌==◌, if◌then◌else◌,
}
use proven_loop.Shared.Assoc.{lookup, insert, touch}
use proven_loop.Shared.Result.{ok, err}
use proven_loop.Ancestry.{
  Parents, CommitAncestryEdge, CommitAncestryQuery, AncestryError, construct, add_edges, add_edge,
  checked, normal, is_ancestor, search, round, expand, push_parents,
}
use proven_loop.Ancestry.Rounds.{is_ancestor_returns}
use proven_loop.Ancestry.Sound.{is_ancestor_iff, IsAncestor}

abbrev as_is : String → String
as_is text = text

-- Enough of toLowerCase() for the commits below.
abbrev lower : String → String
lower text = if text == "B" then "b" else text

abbrev edge : String → String → CommitAncestryEdge
edge child parent = record { child_commit = child; parent_commit = parent; repo_id = "r" }

abbrev query : String → String → CommitAncestryQuery
query ancestor descendant = record {
  ancestor_commit = ancestor;
  descendant_commit = descendant;
  query_repo = "r";
}

-- b → a → c → b is a cycle, and d stands on it.
abbrev edges : List CommitAncestryEdge
edges = edge "a" "B" ∷ edge "c" "a" ∷ edge "b" "c" ∷ edge "d" "c" ∷ edge "d" "x" ∷ []

abbrev index : Parents
index =
    (("r", "a"), "b" ∷ [])
    ∷ (("r", "c"), "a" ∷ [])
    ∷ (("r", "b"), "c" ∷ [])
    ∷ (("r", "d"), "c" ∷ "x" ∷ [])
    ∷ []

construct-edges_run : construct as_is lower edges ≡ ok index
unfolding construct add_edges add_edge checked normal lookup insert touch
construct-edges_run = refl

self_edge_run : construct as_is lower (edge "b" "B" ∷ []) ≡ err AncestryError.self_edge
unfolding construct add_edges add_edge checked normal lookup insert touch
self_edge_run = refl

far_ancestor : is_ancestor as_is lower index (query "B" "d") ≡ some true
unfolding is_ancestor search round expand push_parents lookup
far_ancestor = refl

no_ancestor : is_ancestor as_is lower index (query "d" "a") ≡ some false
unfolding is_ancestor search round expand push_parents lookup
no_ancestor = refl

is_ancestor_returns_example :
    (answer : Bool) × (is_ancestor as_is lower index (query "x" "b") ≡ some answer)
is_ancestor_returns_example = is_ancestor_returns as_is lower index (query "x" "b")

is_ancestor_iff_example :
    (is_ancestor as_is lower index (query "B" "d") ≡ some true)
    ↔ IsAncestor as_is lower index (query "B" "d")
is_ancestor_iff_example = is_ancestor_iff as_is lower index (query "B" "d")
