-- ===== src/Ancestry/Envelopes.antt =====
-- packages/domain/src/commit-ancestry.ts: the edges that captured events give. `fold_case` is
-- toLocaleLowerCase("en-US"), and `compare` is localeCompare.
pub mod Accepted
mod Tests
use mathlib.Core.List.{List, [], ◌∷◌}
use text.Mathlib.Text.{◌==◌ as same_text}
use text.Mathlib.TextEquality.{eq_iff}
use mathlib.Core.Bool.{◌&&◌, ◌||◌}
use Prim.Native.Nat.{ℕ, zero, suc, ◌+◌, ◌-◌, ◌*◌, ◌≤◌, ◌<◌}
use mathlib.Core.Logic.{◌≢◌, ◌↔◌, ◌⊎◌, inl, inr, ⊎_elim, ∥∥₁_elim}
use mathlib.Core.Option.{Option, none, some}
use mathlib.Core.Path.{◌≡◌, refl, sym, ap, subst, ◌∙◌}
use native.Mathlib.Omega.{arith}
use proven_loop.Shared.Sorting.{Order, or_else, sort_by}
use proven_loop.Shared.{
  Bool, true, false, not, String, String_eq, Pair_eq, ℕ_eq, Option_eq, Eq, ◌==◌, contains, without,
  if◌then◌else◌, length, total, take, keep, any, all, bit, All, List-cases, ltb, leb, same_number,
  if_cases, Bool-cases, Option-cases, same_refl, ◌++◌, map, get_last?, unique, same_number_iff,
  length-append, total-append, append-nil, append_assoc,
}
use proven_loop.Shared.Assoc.{
  lookup, insert, delete, touch, unlink, lookup-insert, lookup-delete, contains-touch,
  contains-unlink, length-insert-le,
}
use proven_loop.Shared.Result.{Result, ok, err, ◌>>=◌}
use proven_loop.Ancestry.{CommitAncestryEdge, is_empty}
use proven_loop.Shared.{char_codes, List_eq}

mutual
  -- JsonValue; a number by its text, since the code does not look into it.
  pub data Json : Type 0 where
    json_null : Json
    json_boolean : Bool → Json
    json_number : String → Json
    json_string : String → Json
    json_array : JsonItems → Json
    json_object : JsonFields → Json

  pub data JsonItems : Type 0 where
    no_items : JsonItems
    item : Json → JsonItems → JsonItems

  pub data JsonFields : Type 0 where
    no_fields : JsonFields
    field : String → Json → JsonFields → JsonFields

-- The value is an array or an object.
abbrev is_composite : Json → Bool
is_composite (json_array _) = true
is_composite (json_object _) = true
is_composite _ = false

-- The texts among the elements.
abbrev pub texts : JsonItems → List String
texts no_items = []
texts (item (json_string text) items) = text ∷ texts items
texts (item _ items) = texts items

abbrev is_separator : ℕ → Bool
is_separator c = same_number c 45 || (same_number c 95 || same_number c 46)

module _ (fold_case : String → String) where
  -- replaceAll(/[-_.]/gu, "") on the characters of the folded key.
  pub normalized_key : String → List ℕ
  normalized_key key = keep (λ c. not (is_separator c)) (char_codes (fold_case key))

  pub is_parent_key : String → Bool
  unfolding normalized_key
  is_parent_key key = contains (normalized_key key) (
      map char_codes
        ("parent" ∷ "parentcommit" ∷ "parentcommits" ∷ "parents" ∷ "parentsha" ∷ "parentshas" ∷ []))

  -- What the value of a key among the parent keys adds.
  abbrev named_values : Json → List String
  named_values (json_string text) = text ∷ []
  named_values (json_array items) = texts items
  named_values _ = []

  mutual
    unfolding is_parent_key

    pub parent_commits : ℕ → Json → List String
    parent_commits depth (json_array items) =
        if ltb 4 depth then [] else item_commits (suc depth) items
    parent_commits depth (json_object fields) =
        if ltb 4 depth then [] else field_commits (suc depth) fields
    parent_commits depth _ = []

    pub item_commits : ℕ → JsonItems → List String
    item_commits depth no_items = []
    item_commits depth (item value items) =
        (if is_composite value then parent_commits depth value else []) ++ item_commits depth items

    pub field_commits : ℕ → JsonFields → List String
    field_commits depth no_fields = []
    field_commits depth (field key value fields) =
        (if is_parent_key key then named_values value else parent_commits depth value)
        ++ field_commits depth fields

-- The fields of a captured event that the edges are made of.
pub record CommitEvent : Type 0 where
  pub event_type : String
  pub trust : String
  pub event_repo : Option String
  pub commit_sha : Option String
  pub redacted_arguments : Option Json

abbrev pub trusted_execution : CommitEvent → Bool
trusted_execution e = (e.trust == "tool") || (e.trust == "system")

-- A hexadecimal digit, in either case.
abbrev is_hexadecimal : ℕ → Bool
is_hexadecimal c = (leb 48 c && leb c 57) || ((leb 97 c && leb c 102) || (leb 65 c && leb c 70))

-- The test by commitPattern.
pub is_commit : String → Bool
is_commit text =
    let codes = char_codes text in
    (same_number (length codes) 40 || same_number (length codes) 64) && all is_hexadecimal codes

abbrev pub EdgeMap : Type 0
EdgeMap = List (((String × String) × String) × CommitAncestryEdge)

abbrev edge_key : CommitAncestryEdge → (String × String) × String
edge_key e = ((e.repo_id, e.parent_commit), e.child_commit)

abbrev pub set_edge : Option CommitAncestryEdge → EdgeMap → EdgeMap
set_edge none edges = edges
set_edge (some e) edges = insert (edge_key e) e edges

module _ (trim lower fold_case : String → String) (compare : String → String → Order) where
  -- The edge of one candidate parent, where nothing makes the loop skip it.
  pub edge_of : String → String → String → Option CommitAncestryEdge
  unfolding is_commit
  edge_of repo sha candidate =
      let parent = lower (trim candidate) in
      let child = lower sha in
      if is_empty parent || ((parent == child) || (not (is_commit parent) || not (is_commit child)))
      then none
      else some (record { child_commit = child; parent_commit = parent; repo_id = repo })

  -- The loop over the candidates of one event.
  pub set_candidates : String → String → List String → EdgeMap → EdgeMap
  unfolding edge_of
  set_candidates repo sha [] edges = edges
  set_candidates repo sha (candidate ∷ others) edges =
      set_candidates repo sha others (set_edge (edge_of repo sha candidate) edges)

  abbrev is_commit_event : CommitEvent → Bool
  is_commit_event e =
      ((e.event_type == "git.commit") || (e.event_type == "git.head_changed"))
      && trusted_execution e

  abbrev arguments_commits : Option Json → List String
  arguments_commits none = []
  arguments_commits (some value) = parent_commits fold_case 0 value

  abbrev set_located : CommitEvent → Option String → Option String → EdgeMap → EdgeMap
  set_located e (some repo) (some sha) edges =
      set_candidates repo sha (arguments_commits e.redacted_arguments) edges
  set_located e _ _ edges = edges

  pub set_event : CommitEvent → EdgeMap → EdgeMap
  unfolding set_candidates parent_commits
  set_event e edges =
      if is_commit_event e then set_located e e.event_repo e.commit_sha edges else edges

  pub set_events : List CommitEvent → EdgeMap → EdgeMap
  unfolding set_event
  set_events [] edges = edges
  set_events (e ∷ events) edges = set_events events (set_event e edges)

  -- The comparison of two edges, by one field after another.
  abbrev compare_edges : CommitAncestryEdge → CommitAncestryEdge → Order
  compare_edges a b =
      or_else (compare a.repo_id b.repo_id)
        (or_else (compare a.parent_commit b.parent_commit) (compare a.child_commit b.child_commit))

  pub commit_ancestry_edges_from_envelopes : List CommitEvent → List CommitAncestryEdge
  unfolding set_events
  commit_ancestry_edges_from_envelopes events =
      sort_by compare_edges (map (λ entry. entry.1) (set_events events []))
