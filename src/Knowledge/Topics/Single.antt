-- ===== src/Knowledge/Topics/Single.antt =====
-- After the versions of each topic are reconciled, at most one of them is active.
use mathlib.Core.List.{List, [], ◌∷◌}
use text.Mathlib.TextEquality.{eq_iff}
use mathlib.Core.Bool.{◌&&◌}
use Prim.Native.Nat.{ℕ, ◌≤◌}
use mathlib.Core.Logic.{inl, inr}
use mathlib.Core.Option.{Option}
use mathlib.Core.Path.{◌≡◌, refl, ap}
use native.Mathlib.Omega.{arith}
use proven_loop.Shared.{
  Bool, true, false, not, String, String_eq, Pair_eq, ℕ_eq, List_eq, Option_eq, ◌==◌, contains,
  without, total, keep, bit, Bool-cases, same_refl, map, unique, total-append,
}
use proven_loop.Knowledge.Data.{KnowledgeCandidate, is_active}
use proven_loop.Knowledge.Topics.{
  ids, active_versions, superseded_ids, settled, newest_first, reconcile_topic, reconcile_topics,
  reconcile_topic_versions,
}
use proven_loop.Shared.Sorting.{Order, total-sort_by}

-- The number of active versions of a topic.
abbrev pub active_count : String → List KnowledgeCandidate → ℕ
active_count topic = total (λ c. bit (is_active c.state && (c.topic_key == topic)))

-- No topic twice.
abbrev distinct : List String → Bool
distinct [] = true
distinct (first ∷ others) = not (contains first others) && distinct others

contains-without :
    (a b : String) (list : List String)
    → contains b (without a list) ≡ (not (a == b) && contains b list)
contains-without a b [] = ground arith
contains-without a b (x ∷ list) =
    ground (arith, contains-without a b list, eq_iff x a, eq_iff x b, eq_iff a b)

distinct-without :
    (a : String) (list : List String) → distinct list ≡ true → distinct (without a list) ≡ true
distinct-without a [] h = refl
distinct-without a (x ∷ list) h = ground (arith, distinct-without a list, contains-without a x list)

distinct-unique : (list : List String) → distinct (unique list) ≡ true
distinct-unique [] = refl
distinct-unique (x ∷ list) = ground (
  arith,
  distinct-without x (unique list) (distinct-unique list),
  contains-without x x (unique list),
  same_refl x,
)

module _ (locale : String → String → Order) (version_time : String → Option ℕ) where
  -- An active version that no other one supersedes.
  abbrev survives : List KnowledgeCandidate → KnowledgeCandidate → ℕ
  survives actives c =
      bit (not (contains c.knowledge_id (superseded_ids locale version_time actives)))

  settled-le :
      (actives versions : List KnowledgeCandidate) (topic : String)
      → active_count topic (map (settled locale version_time actives) versions)
        ≤ total (survives actives) (keep (λ c. is_active c.state) versions)
  unfolding settled
  settled-le actives [] topic = omega arith
  settled-le actives (c ∷ versions) topic = ground (arith, settled-le actives versions topic)

  superseded-total :
      (actives rest : List KnowledgeCandidate)
      → ((id : String)
          → contains id (ids rest) ≡ true
          → contains id (superseded_ids locale version_time actives) ≡ true)
      → total (survives actives) rest ≡ 0
  superseded-total actives [] h = refl
  superseded-total actives (c ∷ rest) h = ground (
    arith,
    superseded-total actives rest (λ id k. h id (ground arith)),
    h c.knowledge_id (ground (arith, same_refl c.knowledge_id)),
  )

  survives-le : (actives : List KnowledgeCandidate) → total (survives actives) actives ≤ 1
  survives-le [] = omega arith
  survives-le (selected ∷ others) =
      ground (arith, superseded-total (selected ∷ others) others (λ id k. k))

  reconcile_topic-le :
      (versions : List KnowledgeCandidate) (topic : String)
      → active_count topic (reconcile_topic locale version_time versions) ≤ 1
  unfolding reconcile_topic active_versions
  reconcile_topic-le versions topic =
      let actives = active_versions locale version_time versions in
      omega (
        arith,
        settled-le actives versions topic,
        survives-le actives,
        total-sort_by (newest_first locale version_time) (survives actives)
            (keep (λ c. is_active c.state) versions),
      )

  other_topic :
      (actives input : List KnowledgeCandidate) (topic other : String)
      → (topic == other) ≡ false
      → active_count other
          (map (settled locale version_time actives) (keep (λ c. c.topic_key == topic) input))
        ≡ 0
  unfolding settled
  other_topic actives [] topic other h = refl
  other_topic actives (c ∷ input) topic other h = ground (
    arith,
    other_topic actives input topic other h,
    eq_iff c.topic_key topic,
    eq_iff c.topic_key other,
    eq_iff topic other,
  )

  absent_topic :
      (topics : List String) (input : List KnowledgeCandidate) (topic : String)
      → contains topic topics ≡ false
      → active_count topic (reconcile_topics locale version_time topics input) ≡ 0
  unfolding reconcile_topics reconcile_topic
  absent_topic [] input topic h = refl
  absent_topic (first ∷ topics) input topic h =
      let group = keep (λ (c : KnowledgeCandidate). c.topic_key == first) input in
      let actives = active_versions locale version_time group in
      omega (
        arith,
        total-append (λ (c : KnowledgeCandidate). bit (is_active c.state && (c.topic_key == topic)))
            (map (settled locale version_time actives) group)
            (reconcile_topics locale version_time topics input),
        other_topic actives input first topic (ground arith),
        absent_topic topics input topic (ground arith),
      )

  group_zero :
      (first : String) (input : List KnowledgeCandidate) (topic : String)
      → (first == topic) ≡ false
      → active_count topic
          (reconcile_topic locale version_time (keep (λ c. c.topic_key == first) input))
        ≡ 0
  unfolding reconcile_topic
  group_zero first input topic h =
      other_topic (active_versions locale version_time (keep (λ c. c.topic_key == first) input))
        input first topic h

  reconcile_topics-le :
      (topics : List String) (input : List KnowledgeCandidate) (topic : String)
      → distinct topics ≡ true
      → active_count topic (reconcile_topics locale version_time topics input) ≤ 1
  unfolding reconcile_topics
  reconcile_topics-le [] input topic h = omega arith
  reconcile_topics-le (first ∷ topics) input topic h =
      let group = keep (λ (c : KnowledgeCandidate). c.topic_key == first) input in
      let split =
        total-append (λ (c : KnowledgeCandidate). bit (is_active c.state && (c.topic_key == topic)))
          (reconcile_topic locale version_time group)
          (reconcile_topics locale version_time topics input) in
      elim (Bool-cases (first == topic)) [
        | inl same ↦ omega (
          arith,
          split,
          reconcile_topic-le group topic,
          absent_topic topics input topic
              (ground (arith, ap (λ t. contains t topics) ((eq_iff first topic).0 same))),
        )
        | inr other ↦ omega (
          arith,
          split,
          group_zero first input topic other,
          reconcile_topics-le topics input topic (ground arith),
        )
      ]

-- Among the reconciled versions of any candidates at most one version of each topic is active.
pub reconcile_topic_versions-single :
    (locale : String → String → Order) (version_time : String → Option ℕ)
    (input : List KnowledgeCandidate) (topic : String)
    → active_count topic (reconcile_topic_versions locale version_time input) ≤ 1
unfolding reconcile_topic_versions
reconcile_topic_versions-single locale version_time input topic =
    let topics = unique (map (λ (c : KnowledgeCandidate). c.topic_key) input) in
    omega (
      arith,
      reconcile_topics-le locale version_time topics input topic
          (distinct-unique (map (λ (c : KnowledgeCandidate). c.topic_key) input)),
      total-sort_by
          (λ (left right : KnowledgeCandidate). locale left.knowledge_id right.knowledge_id)
          (λ (c : KnowledgeCandidate). bit (is_active c.state && (c.topic_key == topic)))
          (reconcile_topics locale version_time topics input),
    )
