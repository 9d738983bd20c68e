-- ===== src/Buffer/Tests.antt =====
-- A buffer for two events and 150 bytes, where an event with content takes 100 and one without 40.
use proven_loop.Buffer.{record_gap}
use proven_loop.Buffer.{offer_degraded}
use proven_loop.Shared.{
  ℕ, ◌+◌, ◌≡◌, refl, false, List, [], ◌∷◌, Option, none, some, String, length, arith,
}
use proven_loop.Buffer.Quality.{
  CaptureQuality, bounded_capture_quality, IsBounded, bounded_capture_quality-IsBounded,
}
use proven_loop.Buffer.Data.{
  CaptureGap, CaptureEventInput, Content, captured, Encoding, BoundedCaptureBufferOptions,
  BoundedCaptureBuffer, buffer_byte_limit,
}
use proven_loop.Buffer.Limits.{Inv, construct-call_all-Inv}
use proven_loop.Buffer.{offer_degraded, record_gap, overflow_reasons, metadata_only}
use proven_loop.Buffer.Gap.{gap_of, merge_mixed_gap}
use proven_loop.Buffer.Accounting.{IsAccounted, offer-IsAccounted}
use proven_loop.Buffer.Gaps.{take_gap-restore_gap}
use proven_loop.Buffer.{
  construct, offer, take_gap, restore_gap, BufferCall, offers, shifts, takes_gap, restores_gap,
  call_all,
}

abbrev content_size : Option Content → ℕ
content_size none = 40
content_size (some _) = 100

abbrev pub encoding : Encoding
encoding = record {
  event_bytes = λ e. content_size e.content;
  gap_bytes = λ g. 60 + length g.reasons;
  content_digest = λ c. "digest";
  gap_digest = λ a v s i. s;
}

abbrev pub message : String → CaptureEventInput
message id = record {
  adapter = "copilot-cli";
  adapter_version = "1";
  branch = some "main";
  commit_sha = none;
  content = some (captured "text");
  content_digest = none;
  capture_quality = none;
  event_type = "prompt.submitted";
  repo_id = some "repo";
  session_id = "session";
  source_event_id = id;
  timestamp = "2026-09-11T00:00:00Z";
  trust = "user";
  worktree = none;
}

abbrev pub options : BoundedCaptureBufferOptions
options = record { max_gap_bytes = 4096; max_gap_contexts = 2; max_bytes = 150; max_items = 2 }

abbrev pub empty : BoundedCaptureBuffer
empty = record { options = options; bytes = 0; gap_total = 0; gaps = []; items = [] }

abbrev gap_a : CaptureGap
gap_a = record {
  adapter = "copilot-cli";
  adapter_version = "1";
  branch = some "main";
  commit_sha = none;
  content_omitted_count = 1;
  context_mixed = false;
  dropped_event_count = 2;
  first_source_event_id = "a";
  first_timestamp = "2026-09-11T00:00:00Z";
  gap_id = "a";
  last_source_event_id = "a";
  last_timestamp = "2026-09-11T00:00:00Z";
  reasons = buffer_byte_limit ∷ [];
  repo_id = some "repo";
  session_id = "session";
  worktree = none;
}

abbrev holding : BoundedCaptureBuffer
holding = record { options = options; bytes = 0; gap_total = 61; gaps = gap_a ∷ []; items = [] }

abbrev calls : List BufferCall
calls =
    offers (message "a")
    ∷ offers (message "b")
    ∷ offers (message "c")
    ∷ takes_gap
    ∷ restores_gap gap_a
    ∷ shifts
    ∷ []

construct-call_all-Inv_example : Inv encoding (call_all encoding calls empty)
construct-call_all-Inv_example =
    construct-call_all-Inv encoding options empty calls (unfold construct in refl)

offer-IsAccounted_example :
    IsAccounted encoding empty (message "a") (offer encoding (message "a") empty)
offer-IsAccounted_example = offer-IsAccounted encoding (message "a") empty

-- A gap that stands alone is kept whatever its size.
abbrev narrow : BoundedCaptureBuffer
narrow = record empty {
  options = record { max_gap_bytes = 1; max_gap_contexts = 2; max_bytes = 10; max_items = 2 };
}

exceeds_gap_bytes : (offer encoding (message "a") narrow).1.gap_total ≡ 61
unfolding offer offer_degraded record_gap overflow_reasons metadata_only gap_of merge_mixed_gap
exceeds_gap_bytes = refl

holding-Inv : Inv encoding holding
holding-Inv = omega arith

take_gap-restore_gap_example :
    restore_gap encoding gap_a (record holding { gaps = []; gap_total = 0 }) ≡ holding
unfolding take_gap
take_gap-restore_gap_example =
    take_gap-restore_gap encoding gap_a holding (record holding { gaps = []; gap_total = 0 })
      holding-Inv (omega arith) refl

abbrev full_quality : CaptureQuality
full_quality = record {
  truncated_fields = "message" ∷ [];
  omitted_fields = "content" ∷ [];
  original_lengths = ("message", 9000) ∷ [];
}

bounded_capture_quality-IsBounded_example : IsBounded (bounded_capture_quality full_quality)
bounded_capture_quality-IsBounded_example = bounded_capture_quality-IsBounded full_quality
