-- ===== src/Buffer/Gap.antt =====
-- Capture gaps: what was dropped or reduced, and how two gaps become one.
use proven_loop.Shared.{
  ℕ, ◌+◌, Bool, true, false, ◌&&◌, List, ◌++◌, Option, none, some, ◌==◌, String_eq, Option_eq,
  unique,
}
use Prim.Native.String.{◌++◌ as append}
use proven_loop.Buffer.Data.{
  OverflowReason, OverflowReason_eq, CaptureGap, CaptureEventInput, gap_report, Encoding,
}

unfoldable pub same_capture_context : CaptureGap → CaptureGap → Bool
same_capture_context l r =
    l.adapter == r.adapter
    && l.adapter_version == r.adapter_version
    && l.branch == r.branch
    && l.commit_sha == r.commit_sha
    && l.repo_id == r.repo_id
    && l.session_id == r.session_id
    && l.worktree == r.worktree

-- `mergeMixedGap` with a previous gap, and with none.
unfoldable pub merge_mixed_gap : Option CaptureGap → CaptureGap → CaptureGap
merge_mixed_gap none g = record g {
  branch = none;
  commit_sha = none;
  context_mixed = true;
  reasons = unique g.reasons;
  repo_id = none;
  worktree = none;
}
merge_mixed_gap (some p) g = record p {
  branch = none;
  commit_sha = none;
  content_omitted_count = p.content_omitted_count + g.content_omitted_count;
  context_mixed = true;
  dropped_event_count = p.dropped_event_count + g.dropped_event_count;
  last_source_event_id = g.last_source_event_id;
  last_timestamp = g.last_timestamp;
  reasons = unique (p.reasons ++ g.reasons);
  repo_id = none;
  worktree = none;
}

module _ (z : Encoding) where
  -- The gap that `#recordGap` builds for one event.
  unfoldable pub gap_of : CaptureEventInput → List OverflowReason → ℕ → ℕ → CaptureGap
  gap_of e reasons omitted drops = record {
    adapter = e.adapter;
    adapter_version = e.adapter_version;
    branch = e.branch;
    commit_sha = e.commit_sha;
    content_omitted_count = omitted;
    context_mixed = false;
    dropped_event_count = drops;
    first_source_event_id = e.source_event_id;
    first_timestamp = e.timestamp;
    gap_id = z.gap_digest e.adapter e.adapter_version e.source_event_id e.session_id;
    last_source_event_id = e.source_event_id;
    last_timestamp = e.timestamp;
    reasons = reasons;
    repo_id = e.repo_id;
    session_id = e.session_id;
    worktree = e.worktree;
  }

-- The same context again: the counts add up in the last gap.
unfoldable pub aggregate : CaptureGap → CaptureEventInput → List OverflowReason → ℕ → ℕ → CaptureGap
aggregate p e reasons omitted drops = record p {
  content_omitted_count = p.content_omitted_count + omitted;
  dropped_event_count = p.dropped_event_count + drops;
  last_source_event_id = e.source_event_id;
  last_timestamp = e.timestamp;
  reasons = unique (p.reasons ++ reasons);
}

-- `captureGapEvent`
pub capture_gap_event : CaptureGap → CaptureEventInput
capture_gap_event g = record {
  adapter = g.adapter;
  adapter_version = g.adapter_version;
  branch = g.branch;
  commit_sha = g.commit_sha;
  content = some (gap_report g);
  content_digest = none;
  capture_quality = none;
  event_type = "capture_gap";
  repo_id = g.repo_id;
  session_id = g.session_id;
  source_event_id = append "capture-gap-" g.gap_id;
  timestamp = g.last_timestamp;
  trust = "system";
  worktree = g.worktree;
}
