-- ===== src/Knowledge/Build/Resolved.antt =====
-- What is active after a build has no unresolved evidence against it.
use mathlib.Core.List.{List, [], ◌∷◌}
use mathlib.Core.Bool.{◌&&◌, ◌||◌}
use Prim.Native.Nat.{ℕ, ◌≤◌}
use mathlib.Core.Logic.{inl, inr}
use mathlib.Core.Option.{Option}
use mathlib.Core.Path.{◌≡◌, refl, ap, ◌∙◌}
use native.Mathlib.Omega.{arith}
use proven_loop.Shared.{
  Bool, true, not, String, String_eq, Pair_eq, ℕ_eq, List_eq, Option_eq, ◌==◌, if◌then◌else◌, keep,
  any, all, if_cases, Bool-cases, same_refl, ◌++◌, map, unique,
}
use proven_loop.Shared.Sorting.{Order, all-sort_by}
use proven_loop.Knowledge.Data.{
  KnowledgeCandidate, KnowledgeUtility, FeedbackEvent, is_active, concerns,
}
use proven_loop.Knowledge.Evidence.{KnowledgeEvidenceState}
use proven_loop.Knowledge.Feedback.{apply_kind, apply_feedback, confirmed}
use proven_loop.Knowledge.Topics.{
  active_versions, settled, reconcile_topic, reconcile_topics, reconcile_topic_versions,
}
use proven_loop.Knowledge.Topics.Single.{active_count, reconcile_topic_versions-single}
use proven_loop.Knowledge.Build.{
  ContextUse, KnowledgeVersion, apply_all, merged, taken_feedback, evidence_of, version_candidate,
  admit, version_times, build, is_none_left, latest_validation, own_utility,
}

apply_feedback-id :
    (f : FeedbackEvent) (c : KnowledgeCandidate)
    → (apply_feedback f c).knowledge_id ≡ c.knowledge_id
unfolding apply_feedback apply_kind confirmed
apply_feedback-id f c = ground arith

apply_all-id :
    (feedback : List FeedbackEvent) (c : KnowledgeCandidate)
    → (apply_all feedback c).knowledge_id ≡ c.knowledge_id
apply_all-id [] c = refl
apply_all-id (f ∷ feedback) c =
    apply_all-id feedback (if concerns c.knowledge_id c.created_at f then apply_feedback f c else c)
    ∙ if_cases (λ (d : KnowledgeCandidate). d.knowledge_id ≡ c.knowledge_id)
        (concerns c.knowledge_id c.created_at f) (λ _. apply_feedback-id f c) (λ _. refl)

merged-id :
    (s : KnowledgeEvidenceState) (latest : Option ℕ) (u : KnowledgeUtility) (c : KnowledgeCandidate)
    → (merged s latest u c).knowledge_id ≡ c.knowledge_id
unfolding merged
merged-id s latest u c = ground arith

merged-active :
    (s : KnowledgeEvidenceState) (latest : Option ℕ) (u : KnowledgeUtility) (c : KnowledgeCandidate)
    → is_active (merged s latest u c).state ≡ true
    → is_none_left s.unresolved_evidence_ids ≡ true
unfolding merged
merged-active s latest u c h = ground arith

all-keep :
    {A : Type 0} (test p : A → Bool) (list : List A)
    → all test list ≡ true
    → all test (keep p list) ≡ true
all-keep test p [] h = refl
all-keep test p (a ∷ list) h = ground (arith, all-keep test p list)

all-append :
    {A : Type 0} (test : A → Bool) (front back : List A)
    → all test front ≡ true
    → all test back ≡ true
    → all test (front ++ back) ≡ true
all-append test [] back h k = k
all-append test (a ∷ front) back h k = ground (arith, all-append test front back)

-- A test on the id and on being active, which fewer active versions only help.
module _ (locale : String → String → Order) (version_time : String → Option ℕ)
    (fits : String → Bool) where
  abbrev vouched : KnowledgeCandidate → Bool
  vouched c = not (is_active c.state) || fits c.knowledge_id

  all-settled :
      (actives versions : List KnowledgeCandidate)
      → all vouched versions ≡ true
      → all vouched (map (settled locale version_time actives) versions) ≡ true
  unfolding settled
  all-settled actives [] h = refl
  all-settled actives (c ∷ versions) h = ground (arith, all-settled actives versions)

  all-reconcile_topics :
      (topics : List String) (input : List KnowledgeCandidate)
      → all vouched input ≡ true
      → all vouched (reconcile_topics locale version_time topics input) ≡ true
  unfolding reconcile_topics reconcile_topic
  all-reconcile_topics [] input h = refl
  all-reconcile_topics (topic ∷ topics) input h =
      let group = keep (λ (c : KnowledgeCandidate). c.topic_key == topic) input in
      all-append vouched
        (map (settled locale version_time (active_versions locale version_time group)) group)
        (reconcile_topics locale version_time topics input)
        (all-settled (active_versions locale version_time group) group
          (all-keep vouched (λ c. c.topic_key == topic) input h))
        (all-reconcile_topics topics input h)

  all-reconcile :
      (input : List KnowledgeCandidate)
      → all vouched input ≡ true
      → all vouched (reconcile_topic_versions locale version_time input) ≡ true
  unfolding reconcile_topic_versions
  all-reconcile input h =
      all-sort_by (λ (left right : KnowledgeCandidate). locale left.knowledge_id right.knowledge_id)
        vouched _
      ∙ all-reconcile_topics (unique (map (λ (c : KnowledgeCandidate). c.topic_key) input)) input h

module _ (locale units : String → String → Order) (feedback : List FeedbackEvent) where
  -- A version of this id has no unresolved evidence against it.
  abbrev pub is_resolved : List KnowledgeVersion → String → Bool
  is_resolved versions id =
      any
        (λ v.
          (v.first_candidate.knowledge_id == id)
          && is_none_left
              (evidence_of locale units (taken_feedback locale units feedback)
                v).unresolved_evidence_ids)
        versions

module _ (locale units : String → String → Order) (is_admitted : KnowledgeCandidate → Bool)
    (feedback : List FeedbackEvent) (uses : List ContextUse) where
  abbrev candidate_of : KnowledgeVersion → KnowledgeCandidate
  candidate_of v =
      admit locale units is_admitted
        (version_candidate locale units (taken_feedback locale units feedback) uses v)

  abbrev taken : List FeedbackEvent
  taken = taken_feedback locale units feedback

  admit-id :
      (c : KnowledgeCandidate) → (admit locale units is_admitted c).knowledge_id ≡ c.knowledge_id
  admit-id c = ground arith

  admit-active :
      (c : KnowledgeCandidate)
      → is_active (admit locale units is_admitted c).state ≡ true
      → is_active c.state ≡ true
  admit-active c h = ground arith

  version_candidate-id :
      (v : KnowledgeVersion)
      → (version_candidate locale units taken uses v).knowledge_id ≡ v.first_candidate.knowledge_id
  unfolding version_candidate
  version_candidate-id v =
      merged-id (evidence_of locale units taken v) (latest_validation locale units taken v)
        (own_utility locale units taken uses v) (apply_all taken v.first_candidate)
      ∙ apply_all-id taken v.first_candidate

  version_candidate-active :
      (v : KnowledgeVersion)
      → is_active (version_candidate locale units taken uses v).state ≡ true
      → is_none_left (evidence_of locale units taken v).unresolved_evidence_ids ≡ true
  unfolding version_candidate
  version_candidate-active v h =
      merged-active (evidence_of locale units taken v) (latest_validation locale units taken v)
        (own_utility locale units taken uses v) (apply_all taken v.first_candidate) h

  candidate_of-vouched :
      (v : KnowledgeVersion) (fits : String → Bool)
      → (is_none_left (evidence_of locale units taken v).unresolved_evidence_ids ≡ true
          → fits v.first_candidate.knowledge_id ≡ true)
      → (not (is_active (candidate_of v).state) || fits (candidate_of v).knowledge_id) ≡ true
  candidate_of-vouched v fits h = elim (Bool-cases (is_active (candidate_of v).state)) [
    | inl on ↦ ground (
      arith,
      ap fits (admit-id (version_candidate locale units taken uses v) ∙ version_candidate-id v),
      h (
          version_candidate-active v
            (admit-active (version_candidate locale units taken uses v) on)),
    )
    | inr off ↦ ground arith
  ]

  all-candidates :
      (versions : List KnowledgeVersion) (fits : String → Bool)
      → ((id : String) → is_resolved locale units feedback versions id ≡ true → fits id ≡ true)
      → all (λ c. not (is_active c.state) || fits c.knowledge_id) (map candidate_of versions) ≡ true
  all-candidates [] fits h = refl
  all-candidates (v ∷ versions) fits h = ground (
    arith,
    candidate_of-vouched v fits (λ e.
        h v.first_candidate.knowledge_id
          (ground (arith, same_refl v.first_candidate.knowledge_id))),
    all-candidates versions fits (λ id e. h id (ground arith)),
  )

-- For any versions, feedback, uses and admission policy, what a build leaves active is at most one
-- version of each topic, and only versions for which no counterevidence is left unresolved: every
-- active candidate has the id of a version that has none.
pub build-single_resolved :
    (locale units : String → String → Order) (is_admitted : KnowledgeCandidate → Bool)
    (feedback : List FeedbackEvent) (uses : List ContextUse) (versions : List KnowledgeVersion)
    (topic : String)
    → (active_count topic (build locale units is_admitted feedback uses versions) ≤ 1)
      × (all
            (λ c.
              not (is_active c.state) || is_resolved locale units feedback versions c.knowledge_id)
            (build locale units is_admitted feedback uses versions)
          ≡ true)
unfolding build
build-single_resolved locale units is_admitted feedback uses versions topic =
    let times = version_times locale units versions in
    let candidates = map (candidate_of locale units is_admitted feedback uses) versions in
    (
      reconcile_topic_versions-single locale times candidates topic,
      all-reconcile locale times (is_resolved locale units feedback versions) candidates (
          all-candidates locale units is_admitted feedback uses versions
            (is_resolved locale units feedback versions) (λ id e. e)),
    )
