-- ===== src/Buffer/Data.antt =====
-- The buffer's data. Of an event only the fields that the buffer reads or copies by name are
-- modelled; the sizes and digests of serialised values come from `Encoding`.
use proven_loop.Shared.{
  ℕ, ◌≡◌, ◌↔◌, Bool, true, false, List, Option, String, Eq, String_eq, Option_eq, arith,
}
use proven_loop.Buffer.Quality.{CaptureQuality}

pub data OverflowReason : Type 0 where
  buffer_byte_limit buffer_item_limit : OverflowReason

abbrev pub same_reason : OverflowReason → OverflowReason → Bool
same_reason buffer_byte_limit buffer_byte_limit = true
same_reason buffer_item_limit buffer_item_limit = true
same_reason _ _ = false

pub same_reason_iff : (a b : OverflowReason) → (same_reason a b ≡ true) ↔ (a ≡ b)
same_reason_iff a b = (λ h. ground arith, λ h. ground arith)

instance abbrev pub OverflowReason_eq : Eq OverflowReason
OverflowReason_eq = record { is_same = same_reason; is_same_iff = same_reason_iff }

pub record CaptureGap : Type 0 where
  pub adapter : String
  pub adapter_version : String
  pub branch : Option String
  pub commit_sha : Option String
  pub content_omitted_count : ℕ
  pub context_mixed : Bool
  pub dropped_event_count : ℕ
  pub first_source_event_id : String
  pub first_timestamp : String
  pub gap_id : String
  pub last_source_event_id : String
  pub last_timestamp : String
  pub reasons : List OverflowReason
  pub repo_id : Option String
  pub session_id : String
  pub worktree : Option String

-- A captured content, by its serialised text, or the arguments that a gap's own event reports.
pub data Content : Type 0 where
  captured : String → Content
  gap_report : CaptureGap → Content

pub record CaptureEventInput : Type 0 where
  pub adapter : String
  pub adapter_version : String
  pub branch : Option String
  pub commit_sha : Option String
  pub content : Option Content
  pub content_digest : Option String
  pub capture_quality : Option CaptureQuality
  pub event_type : String
  pub repo_id : Option String
  pub session_id : String
  pub source_event_id : String
  pub timestamp : String
  pub trust : String
  pub worktree : Option String

-- The UTF-8 length of `stableJson` of an event or of a gap, and `sha256`.
pub record Encoding : Type 0 where
  pub event_bytes : CaptureEventInput → ℕ
  pub gap_bytes : CaptureGap → ℕ
  pub content_digest : Content → String
  pub gap_digest : String → String → String → String → String

pub record BoundedCaptureBufferOptions : Type 0 where
  pub max_gap_bytes : ℕ
  pub max_gap_contexts : ℕ
  pub max_bytes : ℕ
  pub max_items : ℕ

pub record BufferedCaptureEvent : Type 0 where
  pub bytes : ℕ
  pub value : CaptureEventInput

pub record BoundedCaptureBuffer : Type 0 where
  pub options : BoundedCaptureBufferOptions
  pub open options use *
  pub bytes : ℕ
  pub gap_total : ℕ  -- `#gapBytes`
  pub gaps : List CaptureGap
  pub items : List BufferedCaptureEvent

pub data CaptureBufferOfferStatus : Type 0 where
  accepted degraded dropped : CaptureBufferOfferStatus
