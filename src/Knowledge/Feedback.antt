-- ===== src/Knowledge/Feedback.antt =====
-- applyFeedback of packages/domain/src/knowledge-lifecycle-builder.ts.
use mathlib.Core.List.{List, [], ◌∷◌}
use mathlib.Core.Bool.{◌||◌}
use Prim.Native.Nat.{ℕ, ◌+◌}
use mathlib.Core.Option.{Option, none, some}
use proven_loop.Shared.{
  String, String_eq, Pair_eq, ℕ_eq, List_eq, Option_eq, contains, if◌then◌else◌, keep, bit, ltb,
  leb, ◌++◌,
}
use proven_loop.Knowledge.Data.{
  EvidenceMark, mark_user_confirmed, mark_externally_verified, mark_repeated_evidence, EvidenceTier,
  tier_inferred, tier_user_confirmed, tier_externally_verified, tier_repeated_evidence,
  tier_disputed, candidate, active, disputed, archived, KnowledgeCandidate, FeedbackEvent,
  FeedbackKind, confirm, irrelevant, correct, stale, conflict, weaken, strengthen, revoke,
  set_scope, mute_session, mark_eq,
}

unfoldable pub evidence_marks_of : ℕ → List EvidenceMark
evidence_marks_of verified =
    (if ltb 0 verified then mark_externally_verified ∷ [] else [])
    ++ (if leb 2 verified then mark_repeated_evidence ∷ [] else [])

unfoldable pub tier_from_marks : List EvidenceMark → EvidenceTier
tier_from_marks marks =
    if contains mark_repeated_evidence marks
    then tier_repeated_evidence
    else if contains mark_externally_verified marks
    then tier_externally_verified
    else if contains mark_user_confirmed marks
    then tier_user_confirmed
    else tier_inferred

-- sortedUnique on the marks: their names in order, each once.
abbrev pub sorted_marks : List EvidenceMark → List EvidenceMark
sorted_marks marks =
    keep (λ m. contains m marks)
      (mark_externally_verified ∷ mark_repeated_evidence ∷ mark_user_confirmed ∷ [])

-- The fields that every feedback but a refused one sets again.
abbrev restated : List EvidenceMark → FeedbackEvent → KnowledgeCandidate → KnowledgeCandidate
restated marks f c = record c {
  evidence_marks = sorted_marks marks;
  validated_at = some f.timestamp;
}

abbrev add_helpful : FeedbackEvent → KnowledgeCandidate → KnowledgeCandidate
add_helpful f c = record c {
  utility = record c.utility { helpful = c.utility.helpful + bit f.source_user };
}

abbrev add_harmful : FeedbackEvent → KnowledgeCandidate → KnowledgeCandidate
add_harmful f c = record c {
  utility = record c.utility { harmful = c.utility.harmful + bit f.source_user };
}

abbrev dispute : KnowledgeCandidate → KnowledgeCandidate
dispute c = record c { state = disputed; evidence_tier = tier_disputed }

unfoldable pub confirmed : List EvidenceMark → KnowledgeCandidate → KnowledgeCandidate
unfolding tier_from_marks
confirmed marks c = record c {
  evidence_tier = tier_from_marks marks;
  state =
      if contains mark_externally_verified marks || contains mark_repeated_evidence marks
      then active
      else candidate;
}

abbrev rescoped :
    FeedbackEvent → Option (String × Option String) → KnowledgeCandidate → KnowledgeCandidate
rescoped f none c = c
rescoped f (some (scope, id)) c =
    restated c.evidence_marks f (record c { scope = scope; scope_id = id })

-- The `switch` on the kind of the feedback.
unfoldable pub apply_kind : FeedbackKind → FeedbackEvent → KnowledgeCandidate → KnowledgeCandidate
unfolding confirmed
apply_kind confirm f c =
    let marks = c.evidence_marks ++ mark_user_confirmed ∷ [] in
    if f.source_user then restated marks f (confirmed marks c) else c
apply_kind strengthen f c = restated c.evidence_marks f (add_helpful f c)
apply_kind correct f c = restated c.evidence_marks f (dispute (add_harmful f c))
apply_kind conflict f c = restated c.evidence_marks f (dispute c)
apply_kind weaken f c = restated c.evidence_marks f (dispute c)
apply_kind stale f c =
    restated c.evidence_marks f (record c { state = archived; expires_at = some f.timestamp })
apply_kind revoke f c =
    restated c.evidence_marks f (record c { state = archived; expires_at = some f.timestamp })
apply_kind set_scope f c = if f.source_user then rescoped f f.scope_change c else c
apply_kind irrelevant f c = restated c.evidence_marks f c
apply_kind mute_session f c = restated c.evidence_marks f c

unfoldable pub apply_feedback : FeedbackEvent → KnowledgeCandidate → KnowledgeCandidate
unfolding apply_kind
apply_feedback f c = apply_kind f.kind f c
