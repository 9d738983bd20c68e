-- ===== src/Knowledge/Tests.antt =====
-- Versions of knowledge with counterevidence, confirmations and a successor.
use mathlib.Core.List.{List, [], ◌∷◌}
use mathlib.Core.Bool.{◌&&◌, ◌||◌}
use Prim.Native.Nat.{ℕ, ◌≤◌}
use mathlib.Core.Option.{Option, none, some}
use mathlib.Core.Path.{◌≡◌, refl}
use proven_loop.Shared.{
  true, false, not, String, String_eq, Pair_eq, ℕ_eq, List_eq, Option_eq, ◌==◌, contains,
  if◌then◌else◌, any, all, ltb, map,
}
use proven_loop.Shared.Assoc.{lookup, insert, delete}
use proven_loop.Shared.Sorting.{Order, before, same, after, sort_by, place}
use proven_loop.Knowledge.Data.{
  mark_externally_verified, tier_externally_verified, KnowledgeState, active, disputed, superseded,
  archived, KnowledgeCandidate, KnowledgeUtility, FeedbackEvent, FeedbackKind, confirm, correct,
  is_active,
}
use proven_loop.Knowledge.Evidence.{
  Counter, timeline, knowledge_evidence_state, take_items, take_item, resolve,
}
use proven_loop.Knowledge.Evidence.Fate.{fate, is_pending, knowledge_evidence_state-fate}
use proven_loop.Knowledge.Feedback.{apply_feedback, apply_kind, confirmed, tier_from_marks}
use proven_loop.Knowledge.Topics.{
  reconcile_topic_versions, reconcile_topics, reconcile_topic, active_versions, settled,
}
use proven_loop.Knowledge.Topics.Single.{active_count}
use proven_loop.Knowledge.Build.{
  KnowledgeVersion, build, version_candidate, taken_feedback, evidence_of, latest_validation,
  latest_timestamp, own_utility, opinions, utility_of, merged, apply_all,
}
use proven_loop.Knowledge.Build.Resolved.{is_resolved, build-single_resolved}
use proven_loop.Knowledge.Build.Activated.{confirms, is_verified, apply_all-activated}

-- The order of the names that the tests use.
abbrev rank : String → ℕ
rank text = if text == "a" then 1 else if text == "b" then 2 else 3

abbrev by_name : String → String → Order
by_name a b =
    if ltb (rank a) (rank b) then before else if ltb (rank b) (rank a) then after else same

abbrev no_utility : KnowledgeUtility
no_utility = record { applied = 0; harmful = 0; helpful = 0 }

abbrev version : String → KnowledgeCandidate
version id = record {
  created_at = 5;
  evidence_marks = mark_externally_verified ∷ [];
  evidence_tier = tier_externally_verified;
  expires_at = none;
  knowledge_id = id;
  scope = "repo";
  scope_id = none;
  state = active;
  supersedes = none;
  topic_key = "t";
  utility = no_utility;
  validated_at = none;
  payload = "p";
}

abbrev feedback_of : FeedbackKind → String → ℕ → List String → FeedbackEvent
feedback_of kind id at resolves = record {
  evidence_ref = "r";
  feedback_id = id;
  kind = kind;
  resolves_evidence_ids = resolves;
  scope_change = none;
  source_user = true;
  target_id = "a";
  target_knowledge = true;
  timestamp = at;
}

abbrev counters : List Counter
counters = record { counter_id = "c"; counter_at = 8 } ∷ []

-- Against the knowledge at 8 and at 10, and a confirmation at 9 that names the first.
abbrev feedback : List FeedbackEvent
feedback = feedback_of correct "b" 10 [] ∷ feedback_of confirm "x" 9 ("c" ∷ []) ∷ []

evidence_run :
    (knowledge_evidence_state by_name by_name counters 5 feedback "a").unresolved_evidence_ids
    ≡ "b" ∷ []
unfolding knowledge_evidence_state timeline take_items take_item resolve sort_by place lookup insert
    delete
evidence_run = refl

abbrev versions : List KnowledgeVersion
versions =
    record {
      first_candidate = version "b";
      counters = [];
      verified_at = 6 ∷ [];
      applied_episodes = [];
      corrected_at = 4;
    }
    ∷ record {
      first_candidate = version "a";
      counters = [];
      verified_at = [];
      applied_episodes = "e" ∷ [];
      corrected_at = 6;
    }
    ∷ []

build_run :
    map {B = KnowledgeState × Option String}
      (λ (c : KnowledgeCandidate). (c.state, c.supersedes))
      (build by_name by_name (λ c. true) [] [] versions)
    ≡ (active, some "b") ∷ (superseded, none) ∷ []
unfolding build version_candidate taken_feedback evidence_of latest_validation latest_timestamp
    own_utility opinions utility_of merged knowledge_evidence_state timeline take_items
    reconcile_topic_versions reconcile_topics reconcile_topic active_versions settled sort_by place
build_run = refl

disputed_run :
    map
      (λ (c : KnowledgeCandidate). c.state)
      (build by_name by_name (λ c. true) feedback [] versions)
    ≡ disputed ∷ active ∷ []
unfolding build version_candidate taken_feedback evidence_of latest_validation latest_timestamp
    own_utility opinions utility_of merged knowledge_evidence_state timeline take_items take_item
    resolve reconcile_topic_versions reconcile_topics reconcile_topic active_versions settled
    sort_by place apply_feedback apply_kind confirmed tier_from_marks lookup insert delete
disputed_run = refl

knowledge_evidence_state-fate_example :
    contains "c"
      (knowledge_evidence_state by_name by_name counters 5 feedback "a").unresolved_evidence_ids
    ≡ is_pending (fate "c" (timeline by_name by_name counters feedback "a" 5) none)
knowledge_evidence_state-fate_example =
    knowledge_evidence_state-fate by_name by_name counters 5 feedback "a" "c"

build-single_resolved_example :
    (active_count "t" (build by_name by_name (λ c. true) feedback [] versions) ≤ 1)
    × (all
          (λ c.
            not (is_active c.state) || is_resolved by_name by_name feedback versions c.knowledge_id)
          (build by_name by_name (λ c. true) feedback [] versions)
        ≡ true)
build-single_resolved_example =
    build-single_resolved by_name by_name (λ c. true) feedback [] versions "t"

activated_run :
    is_active
      (apply_all
        (feedback_of confirm "x" 9 [] ∷ [])
        (record (version "a") { state = archived })).state
    ≡ true
unfolding apply_feedback apply_kind confirmed
activated_run = refl

apply_all-activated_example :
    (false
      || (is_verified (mark_externally_verified ∷ [])
          && any confirms (feedback_of confirm "x" 9 [] ∷ [])))
    ≡ true
apply_all-activated_example =
    apply_all-activated (feedback_of confirm "x" 9 [] ∷ [])
      (record (version "a") { state = archived }) activated_run
