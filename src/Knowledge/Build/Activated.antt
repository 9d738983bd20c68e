-- ===== src/Knowledge/Build/Activated.antt =====
-- Feedback alone does not make knowledge active.
use mathlib.Core.List.{List, [], ◌∷◌}
use mathlib.Core.Bool.{◌&&◌, ◌||◌}
use mathlib.Core.Logic.{inl, inr}
use mathlib.Core.Path.{◌≡◌, subst}
use native.Mathlib.Omega.{arith}
use proven_loop.Shared.{
  Bool, true, String_eq, Pair_eq, ℕ_eq, List_eq, Option_eq, contains, if◌then◌else◌, any,
  Bool-cases, ◌++◌,
}
use proven_loop.Knowledge.Data.{
  EvidenceMark, mark_user_confirmed, mark_externally_verified, mark_repeated_evidence,
  KnowledgeCandidate, FeedbackEvent, FeedbackKind, is_active, concerns, mark_eq,
}
use proven_loop.Knowledge.Evidence.{is_confirm}
use proven_loop.Knowledge.Feedback.{apply_kind, apply_feedback, confirmed, sorted_marks}
use proven_loop.Knowledge.Build.{apply_all}

-- Evidence from outside: a verification, or one that was repeated.
abbrev pub is_verified : List EvidenceMark → Bool
is_verified marks = contains mark_externally_verified marks || contains mark_repeated_evidence marks

abbrev pub confirms : FeedbackEvent → Bool
confirms f = is_confirm f.kind && f.source_user

contains-snoc :
    (m : EvidenceMark) (marks : List EvidenceMark)
    → contains m (marks ++ mark_user_confirmed ∷ [])
      ≡ (contains m marks || mark_eq.is_same mark_user_confirmed m)
contains-snoc m [] = ground arith
contains-snoc m (first ∷ marks) = ground (arith, contains-snoc m marks)

is_verified-sorted_marks :
    (marks : List EvidenceMark) → is_verified (sorted_marks marks) ≡ is_verified marks
is_verified-sorted_marks marks = ground arith

apply_kind-is_verified :
    (kind : FeedbackKind) (f : FeedbackEvent) (c : KnowledgeCandidate)
    → is_verified (apply_kind kind f c).evidence_marks ≡ is_verified c.evidence_marks
unfolding apply_kind confirmed
apply_kind-is_verified kind f c = ground (
  arith,
  is_verified-sorted_marks c.evidence_marks,
  is_verified-sorted_marks (c.evidence_marks ++ mark_user_confirmed ∷ []),
  contains-snoc mark_externally_verified c.evidence_marks,
  contains-snoc mark_repeated_evidence c.evidence_marks,
)

apply_kind-activated :
    (kind : FeedbackKind) (f : FeedbackEvent) (c : KnowledgeCandidate)
    → is_active (apply_kind kind f c).state ≡ true
    → (is_active c.state || (is_verified c.evidence_marks && (is_confirm kind && f.source_user)))
      ≡ true
unfolding apply_kind confirmed
apply_kind-activated kind f c h = ground (
  arith,
  contains-snoc mark_externally_verified c.evidence_marks,
  contains-snoc mark_repeated_evidence c.evidence_marks,
)

taken :
    (f : FeedbackEvent) (c : KnowledgeCandidate)
    → concerns c.knowledge_id c.created_at f ≡ true
    → (if concerns c.knowledge_id c.created_at f then apply_feedback f c else c)
      ≡ apply_feedback f c
taken f c own = ground arith

-- Feedback makes knowledge active only where a user confirms it and it has evidence from outside,
-- whatever feedback came before or between: if it is active after any feedback, it was active before
-- it, or its marks before hold a verification and the feedback holds a user's confirmation.
pub apply_all-activated :
    (feedback : List FeedbackEvent) (c : KnowledgeCandidate)
    → is_active (apply_all feedback c).state ≡ true
    → (is_active c.state || (is_verified c.evidence_marks && any confirms feedback)) ≡ true
unfolding apply_feedback
apply_all-activated [] c h = ground arith
apply_all-activated (f ∷ feedback) c h =
    elim (Bool-cases (concerns c.knowledge_id c.created_at f)) [
      | inl own ↦
          let next = apply_feedback f c in
          let later =
            apply_all-activated feedback next
              (subst (λ d. is_active (apply_all feedback d).state ≡ true) (taken f c own) h) in
          ground (arith, later, apply_kind-is_verified f.kind f c, apply_kind-activated f.kind f c)
      | inr other ↦ ground (arith, apply_all-activated feedback c (ground arith))
    ]
