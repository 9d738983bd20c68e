-- ===== src/Knowledge/Topics.antt =====
-- reconcileTopicVersions of packages/domain/src/knowledge-lifecycle-builder.ts.
pub mod Single
use mathlib.Core.List.{List, [], ◌∷◌}
use text.Mathlib.Text.{◌==◌ as same_text}
use text.Mathlib.TextEquality.{eq_iff}
use mathlib.Core.Bool.{◌&&◌, ◌||◌}
use Prim.Native.Nat.{ℕ, zero, suc, ◌+◌, ◌-◌, ◌*◌, ◌≤◌, ◌<◌}
use mathlib.Core.Logic.{◌≢◌, ◌↔◌, ◌⊎◌, inl, inr, ⊎_elim, ∥∥₁_elim}
use mathlib.Core.Option.{Option, none, some}
use mathlib.Core.Path.{◌≡◌, refl, sym, ap, subst, ◌∙◌}
use native.Mathlib.Omega.{arith}
use proven_loop.Shared.{
  Bool, true, false, not, String, String_eq, Pair_eq, ℕ_eq, List_eq, Option_eq, Eq, ◌==◌, contains,
  without, if◌then◌else◌, length, total, take, keep, any, all, bit, All, List-cases, ltb, leb,
  same_number, if_cases, Bool-cases, Option-cases, same_refl, ◌++◌, map, get_last?, unique,
  same_number_iff, length-append, total-append, append-nil, append_assoc,
}
use proven_loop.Shared.Assoc.{
  lookup, insert, delete, touch, unlink, lookup-insert, lookup-delete, contains-touch,
  contains-unlink, length-insert-le,
}
use proven_loop.Shared.Result.{Result, ok, err}
use proven_loop.Shared.Sorting.{Order, or_else, number_order, sort_by}
use proven_loop.Knowledge.Data.{KnowledgeState, superseded, KnowledgeCandidate, is_active}

abbrev pub ids : List KnowledgeCandidate → List String
ids = map (λ (c : KnowledgeCandidate). c.knowledge_id)

abbrev pub or_default : ℕ → Option ℕ → ℕ
or_default n none = n
or_default n (some m) = m

module _ (locale : String → String → Order) (version_time : String → Option ℕ) where
  abbrev pub age : KnowledgeCandidate → ℕ
  age c = or_default c.created_at (version_time c.knowledge_id)

  -- The newest version first.
  abbrev pub newest_first : KnowledgeCandidate → KnowledgeCandidate → Order
  newest_first left right =
      or_else (number_order (age right) (age left)) (locale right.knowledge_id left.knowledge_id)

  unfoldable pub active_versions : List KnowledgeCandidate → List KnowledgeCandidate
  active_versions versions = sort_by newest_first (keep (λ c. is_active c.state) versions)

  abbrev pub superseded_ids : List KnowledgeCandidate → List String
  superseded_ids [] = []
  superseded_ids (selected ∷ others) = ids others

  -- What the selected version supersedes.
  abbrev pub superseded_by : List KnowledgeCandidate → KnowledgeCandidate → Option String
  superseded_by (selected ∷ previous ∷ others) c =
      if selected.knowledge_id == c.knowledge_id then some previous.knowledge_id else none
  superseded_by _ c = none

  -- One candidate of a topic with these active versions.
  unfoldable pub settled : List KnowledgeCandidate → KnowledgeCandidate → KnowledgeCandidate
  settled actives c = record c {
    supersedes = superseded_by actives c;
    state = if contains c.knowledge_id (superseded_ids actives) then superseded else c.state;
  }

  unfoldable pub reconcile_topic : List KnowledgeCandidate → List KnowledgeCandidate
  unfolding active_versions settled
  reconcile_topic versions = map (settled (active_versions versions)) versions

  -- The topics in the order of the map `byTopic`, and the versions of each in the order of the input.
  unfoldable pub reconcile_topics : List String → List KnowledgeCandidate → List KnowledgeCandidate
  unfolding reconcile_topic
  reconcile_topics [] input = []
  reconcile_topics (topic ∷ topics) input =
      reconcile_topic (keep (λ c. c.topic_key == topic) input) ++ reconcile_topics topics input

  unfoldable pub reconcile_topic_versions : List KnowledgeCandidate → List KnowledgeCandidate
  unfolding reconcile_topics
  reconcile_topic_versions input =
      sort_by (λ left right. locale left.knowledge_id right.knowledge_id)
        (reconcile_topics (unique (map (λ (c : KnowledgeCandidate). c.topic_key) input)) input)
