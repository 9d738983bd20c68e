-- ===== src/Buffer/Gaps.antt =====
-- A gap that is taken and put back, as the writer does when the queue refuses it.
use proven_loop.Shared.{◌+◌, ◌≤◌, ◌≡◌, some, arith}
use proven_loop.Buffer.Data.{CaptureGap, Encoding, BoundedCaptureBuffer}
use proven_loop.Buffer.Limits.{Inv}
use proven_loop.Buffer.Accounting.{
  drops_noted, omissions_noted, values, dropped-IsCount, omitted-IsCount, restore_gap-count,
}
use proven_loop.Buffer.{take_gap, restore_gap}

module _ (z : Encoding) where
  -- Putting a gap back keeps both of its counts, also where it has to be merged with the gap that
  -- stands first, and leaves the events alone.
  pub restore_gap-counts :
      (g : CaptureGap) (b : BoundedCaptureBuffer)
      → (drops_noted (restore_gap z g b) ≡ g.dropped_event_count + drops_noted b)
        × (omissions_noted (restore_gap z g b) ≡ g.content_omitted_count + omissions_noted b)
        × (values (restore_gap z g b) ≡ values b)
  unfolding restore_gap
  restore_gap-counts g b = (
    restore_gap-count z (λ g. g.dropped_event_count) dropped-IsCount g b,
    restore_gap-count z (λ g. g.content_omitted_count) omitted-IsCount g b,
    ground arith,
  )

  -- While the gaps are within their byte limit, a gap that is taken and put back at once leaves the
  -- buffer as it was.
  pub take_gap-restore_gap :
      (g : CaptureGap) (b c : BoundedCaptureBuffer)
      → Inv z b
      → b.gap_total ≤ b.max_gap_bytes
      → take_gap z b ≡ (some g, c)
      → restore_gap z g c ≡ b
  unfolding take_gap restore_gap
  take_gap-restore_gap g b c v h e = ground arith
