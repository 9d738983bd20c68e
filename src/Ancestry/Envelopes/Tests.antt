-- ===== src/Ancestry/Envelopes/Tests.antt =====
-- The edges of a captured commit, whose parent stands in a nested argument.
use mathlib.Core.List.{[], ◌∷◌}
use mathlib.Core.Logic.{◌↔◌}
use mathlib.Core.Option.{some}
use mathlib.Core.Path.{◌≡◌, refl}
use proven_loop.Shared.{true, String, String_eq, Pair_eq, ℕ_eq, List_eq, Option_eq, any}
use proven_loop.Shared.Assoc.{insert}
use proven_loop.Shared.Result.{ok}
use proven_loop.Shared.Sorting.{Order, sort_by, place}
use proven_loop.Ancestry.{Parents, CommitAncestryEdge, construct, normal}
use proven_loop.Ancestry.Held.{leads}
use proven_loop.Ancestry.Lineage.{Parent}
use proven_loop.Ancestry.Envelopes.{
  json_object, json_string, json_array, json_null, field, no_fields, item, no_items, CommitEvent,
  commit_ancestry_edges_from_envelopes, set_events, set_event, set_candidates, edge_of, is_commit,
  parent_commits, item_commits, field_commits, is_parent_key, normalized_key,
}
use proven_loop.Ancestry.Envelopes.Accepted.{construct-edges}

abbrev as_is : String → String
as_is text = text

abbrev edge : String → String → CommitAncestryEdge
edge child parent = record { child_commit = child; parent_commit = parent; repo_id = "r" }

abbrev child_sha : String
child_sha = "cccccccccccccccccccccccccccccccccccccccc"

abbrev parent_sha : String
parent_sha = "0123456789012345678901234567890123456789"

abbrev commit_event : CommitEvent
commit_event = record {
  event_type = "git.commit";
  trust = "tool";
  event_repo = some "r";
  commit_sha = some child_sha;
  redacted_arguments = some (
      json_object (
        field "message" (json_string "m") (
          field "git"
            (json_object (
              field "parent-shas"
                (json_array (item (json_string parent_sha) (item json_null no_items))) no_fields))
            no_fields)));
}

abbrev by_name : String → String → Order
by_name a b = Order.before

nested_parent :
    commit_ancestry_edges_from_envelopes as_is as_is as_is by_name (commit_event ∷ [])
    ≡ edge child_sha parent_sha ∷ []
unfolding commit_ancestry_edges_from_envelopes set_events set_event set_candidates edge_of is_commit
    sort_by place parent_commits item_commits field_commits is_parent_key normalized_key insert
nested_parent = refl

construct-edges_example :
    (parents : Parents) × (construct as_is as_is
        (commit_ancestry_edges_from_envelopes as_is as_is as_is by_name (commit_event ∷ []))
      ≡ ok parents)
    × ((repo child parent : String)
        → Parent parents repo child parent ↔ (
            any
              (λ e. leads repo child parent (normal as_is as_is e))
              (commit_ancestry_edges_from_envelopes as_is as_is as_is by_name (commit_event ∷ []))
            ≡ true))
construct-edges_example =
    construct-edges as_is as_is as_is by_name (λ text h. refl) (λ text. refl) (commit_event ∷ [])
      refl
