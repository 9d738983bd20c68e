-- ===== src/Knowledge/Data.antt =====
-- packages/contracts/src/knowledge-candidate.ts and feedback-event.ts: the fields that the life of a
-- version depends on; the others are in `payload`. A time is its number of milliseconds.
use mathlib.Core.List.{List}
use mathlib.Core.Bool.{◌&&◌}
use Prim.Native.Nat.{ℕ}
use mathlib.Core.Logic.{◌↔◌}
use mathlib.Core.Option.{Option}
use mathlib.Core.Path.{◌≡◌}
use native.Mathlib.Omega.{arith}
use proven_loop.Shared.{
  Bool, true, false, String, String_eq, Pair_eq, ℕ_eq, List_eq, Option_eq, Eq, ◌==◌, leb,
}

pub data EvidenceMark : Type 0 where
  mark_user_confirmed mark_externally_verified mark_repeated_evidence : EvidenceMark

pub data EvidenceTier : Type 0 where
  tier_inferred tier_user_confirmed tier_externally_verified : EvidenceTier
  tier_repeated_evidence tier_disputed tier_locked_preference : EvidenceTier

pub data KnowledgeState : Type 0 where
  candidate active disputed superseded archived : KnowledgeState

pub record KnowledgeUtility : Type 0 where
  pub applied : ℕ
  pub harmful : ℕ
  pub helpful : ℕ

pub record KnowledgeCandidate : Type 0 where
  pub created_at : ℕ
  pub evidence_marks : List EvidenceMark
  pub evidence_tier : EvidenceTier
  pub expires_at : Option ℕ
  pub knowledge_id : String
  pub scope : String
  pub scope_id : Option String
  pub state : KnowledgeState
  pub supersedes : Option String
  pub topic_key : String
  pub utility : KnowledgeUtility
  pub validated_at : Option ℕ
  pub payload : String

pub data FeedbackKind : Type 0 where
  confirm irrelevant correct stale conflict weaken strengthen revoke set_scope mute_session :
      FeedbackKind

pub record FeedbackEvent : Type 0 where
  pub evidence_ref : String
  pub feedback_id : String
  pub kind : FeedbackKind
  pub resolves_evidence_ids : List String  -- [] where the field is missing
  pub scope_change : Option (String × Option String)
  pub source_user : Bool  -- source === "user"
  pub target_id : String
  pub target_knowledge : Bool  -- targetType === "knowledge"
  pub timestamp : ℕ

abbrev pub is_active : KnowledgeState → Bool
is_active active = true
is_active _ = false

abbrev pub same_mark : EvidenceMark → EvidenceMark → Bool
same_mark mark_user_confirmed mark_user_confirmed = true
same_mark mark_externally_verified mark_externally_verified = true
same_mark mark_repeated_evidence mark_repeated_evidence = true
same_mark _ _ = false

pub same_mark_iff : (a b : EvidenceMark) → (same_mark a b ≡ true) ↔ (a ≡ b)
same_mark_iff a b = (λ h. ground arith, λ h. ground arith)

instance abbrev pub mark_eq : Eq EvidenceMark
mark_eq = record { is_same = same_mark; is_same_iff = same_mark_iff }

-- Feedback on this knowledge, not older than it.
abbrev pub concerns : String → ℕ → FeedbackEvent → Bool
concerns id created f = f.target_knowledge && ((f.target_id == id) && leb created f.timestamp)
