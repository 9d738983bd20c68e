-- ===== src/Knowledge/Build.antt =====
-- KnowledgeLifecycleBuilder.build of packages/domain/src/knowledge-lifecycle-builder.ts, from a
-- version's first candidate on: the candidate that the correction keys give, with its counterevidence
-- and verification times, is an argument, and so is the admission policy.
pub mod Resolved
pub mod Activated
use mathlib.Core.List.{List, [], ◌∷◌}
use text.Mathlib.Text.{◌==◌ as same_text}
use text.Mathlib.TextEquality.{eq_iff}
use mathlib.Core.Bool.{◌&&◌, ◌||◌}
use Prim.Native.Nat.{ℕ, zero, suc, ◌+◌, ◌-◌, ◌*◌, ◌≤◌, ◌<◌}
use mathlib.Core.Logic.{◌≢◌, ◌↔◌, ◌⊎◌, inl, inr, ⊎_elim, ∥∥₁_elim}
use mathlib.Core.Option.{Option, none, some}
use mathlib.Core.Path.{◌≡◌, refl, sym, ap, subst, ◌∙◌}
use native.Mathlib.Omega.{arith}
use proven_loop.Shared.{
  Bool, true, false, not, String, String_eq, Pair_eq, ℕ_eq, List_eq, Option_eq, Eq, ◌==◌, contains,
  without, if◌then◌else◌, length, total, take, keep, any, all, bit, All, List-cases, ltb, leb,
  same_number, if_cases, Bool-cases, Option-cases, same_refl, ◌++◌, map, get_last?, unique,
  same_number_iff, length-append, total-append, append-nil, append_assoc,
}
use proven_loop.Shared.Assoc.{
  lookup, insert, delete, touch, unlink, lookup-insert, lookup-delete, contains-touch,
  contains-unlink, length-insert-le,
}
use proven_loop.Shared.Result.{Result, ok, err}
use Prim.Native.String.{◌++◌ as ◌then◌}
use proven_loop.Shared.Sorting.{Order, or_else, number_order, sort_by}
use proven_loop.Knowledge.Data.{
  KnowledgeState, candidate, active, disputed, archived, tier_disputed, KnowledgeCandidate,
  KnowledgeUtility, FeedbackEvent, FeedbackKind, confirm, irrelevant, correct, strengthen,
  set_scope, mute_session, is_active, concerns,
}
use proven_loop.Knowledge.Evidence.{Counter, KnowledgeEvidenceState, knowledge_evidence_state}
use proven_loop.Knowledge.Feedback.{apply_feedback}
use proven_loop.Knowledge.Topics.{reconcile_topic_versions}

pub record ContextUse : Type 0 where
  pub request_id : String
  pub applied_references : List String  -- appliedKnowledgeIds
  pub use_episode : Option String
  pub used_at : ℕ

pub record KnowledgeVersion : Type 0 where
  pub first_candidate : KnowledgeCandidate
  pub counters : List Counter
  pub verified_at : List ℕ  -- verificationTimestamps
  pub applied_episodes : List String  -- the episodes of appliedOpportunities
  pub corrected_at : ℕ  -- its entry in versionTimestamps

-- The feedback that `build` takes into account.
abbrev pub is_taken : FeedbackEvent → Bool
is_taken f = elim f.kind [
  | irrelevant ↦ false
  | mute_session ↦ false
  | confirm ↦ f.source_user
  | set_scope ↦ f.source_user
  | strengthen ↦ f.source_user
  | _ ↦ true
]

unfoldable pub latest_timestamp : List ℕ → Option ℕ
latest_timestamp [] = none
latest_timestamp (at ∷ times) = elim (latest_timestamp times) [
  | none ↦ some at
  | some later ↦ some (if leb at later then later else at)
]

abbrev references : String → List String → Bool
references id refs = any (λ r. (r == id) || (r == ("knowledge:" then id))) refs

abbrev opinion_kind : FeedbackKind → Bool
opinion_kind strengthen = true
opinion_kind correct = true
opinion_kind _ = false

abbrev pub is_correct : FeedbackKind → Bool
is_correct correct = true
is_correct _ = false

-- The map `opinions`: the last opinion of the user for each reference.
unfoldable pub opinions :
    List FeedbackEvent → List (String × FeedbackKind) → List (String × FeedbackKind)
opinions [] held = held
opinions (f ∷ feedback) held =
    opinions feedback
      (if f.source_user && opinion_kind f.kind then insert f.evidence_ref f.kind held else held)

abbrev is_used_in : List ContextUse → String → Bool
is_used_in uses episode =
    any (λ u. elim u.use_episode [ none ↦ false | some e ↦ e == episode ]) uses

unfoldable pub utility_of :
    KnowledgeVersion → List ContextUse → List (String × FeedbackKind) → KnowledgeUtility
utility_of v uses held = record {
  applied = length (
      unique (
        map (λ (u : ContextUse). u.request_id) uses
        ++ (map (λ (entry : String × FeedbackKind). entry.0) held
            ++ map (λ episode. "episode:" then episode)
                (keep (λ episode. not (is_used_in uses episode)) v.applied_episodes))));
  harmful = length (keep (λ entry. is_correct entry.1) held);
  helpful = length (keep (λ entry. not (is_correct entry.1)) held);
}

abbrev pub apply_all : List FeedbackEvent → KnowledgeCandidate → KnowledgeCandidate
apply_all [] c = c
apply_all (f ∷ feedback) c =
    apply_all feedback (if concerns c.knowledge_id c.created_at f then apply_feedback f c else c)

abbrev is_none_left : List String → Bool
is_none_left [] = true
is_none_left (_ ∷ _) = false

abbrev or_kept : Option ℕ → Option ℕ → Option ℕ
or_kept none kept = kept
or_kept (some at) kept = some at

-- The candidate of a version, from its evidence state, its latest validation and its utility.
unfoldable pub merged :
    KnowledgeEvidenceState → Option ℕ → KnowledgeUtility → KnowledgeCandidate → KnowledgeCandidate
merged s latest utility c =
    let c = record c {
      expires_at = if s.archived_state then c.expires_at else none;
      validated_at = or_kept latest c.validated_at;
      utility = utility;
    } in
    if is_none_left s.unresolved_evidence_ids then c else record c {
      evidence_tier = tier_disputed;
      state = if s.archived_state then archived else disputed;
    }

module _ (locale units : String → String → Order) where
  unfoldable pub taken_feedback : List FeedbackEvent → List FeedbackEvent
  taken_feedback feedback =
      sort_by
        (λ a b. or_else (number_order a.timestamp b.timestamp) (locale a.feedback_id b.feedback_id))
        (keep is_taken feedback)

  unfoldable pub evidence_of : List FeedbackEvent → KnowledgeVersion → KnowledgeEvidenceState
  evidence_of feedback v =
      knowledge_evidence_state locale units v.counters v.first_candidate.created_at feedback
        v.first_candidate.knowledge_id

  abbrev own_feedback : List FeedbackEvent → KnowledgeVersion → List FeedbackEvent
  own_feedback feedback v =
      keep (concerns v.first_candidate.knowledge_id v.first_candidate.created_at) feedback

  unfoldable pub latest_validation : List FeedbackEvent → KnowledgeVersion → Option ℕ
  unfolding latest_timestamp
  latest_validation feedback v = latest_timestamp (
      v.verified_at
      ++ (map (λ (e : Counter). e.counter_at) v.counters
          ++ map (λ (f : FeedbackEvent). f.timestamp) (own_feedback feedback v)))

  unfoldable pub own_utility :
      List FeedbackEvent → List ContextUse → KnowledgeVersion → KnowledgeUtility
  unfolding opinions utility_of
  own_utility feedback uses v =
      let c = v.first_candidate in
      let used =
        keep
          (λ (u : ContextUse).
            references c.knowledge_id u.applied_references && leb c.created_at u.used_at)
          uses in
      utility_of v used (opinions (own_feedback feedback v) [])

  unfoldable pub version_candidate :
      List FeedbackEvent → List ContextUse → KnowledgeVersion → KnowledgeCandidate
  unfolding evidence_of latest_validation own_utility merged
  version_candidate feedback uses v =
      merged (evidence_of feedback v) (latest_validation feedback v) (own_utility feedback uses v)
        (apply_all feedback v.first_candidate)

  abbrev pub admit : (KnowledgeCandidate → Bool) → KnowledgeCandidate → KnowledgeCandidate
  admit is_admitted c =
      if is_active c.state && not (is_admitted c) then record c { state = candidate } else c

  abbrev pub version_times : List KnowledgeVersion → String → Option ℕ
  version_times [] id = none
  version_times (v ∷ versions) id = elim (version_times versions id) [
    | none ↦ if v.first_candidate.knowledge_id == id then some v.corrected_at else none
    | some at ↦ some at
  ]

  unfoldable pub build :
      (KnowledgeCandidate → Bool)
      → List FeedbackEvent
      → List ContextUse
      → List KnowledgeVersion
      → List KnowledgeCandidate
  unfolding version_candidate taken_feedback
  build is_admitted feedback uses versions =
      reconcile_topic_versions locale (version_times versions)
        (map (λ v. admit is_admitted (version_candidate (taken_feedback feedback) uses v)) versions)
