-- ===== src/Writer/Wakeup.antt =====
-- The writer is never idle over work: some callback is always on its way, and only one.
use proven_loop.Shared.{◌≤◌}
use proven_loop.Shared.{◌+◌}
use proven_loop.Shared.{bit}
use proven_loop.Shared.{
  ◌≡◌, refl, ◌⊎◌, Bool, true, false, ◌||◌, List, [], ◌∷◌, Option, none, some, String, if_cases,
  arith,
}
use proven_loop.Buffer.Data.{
  CaptureGap, CaptureEventInput, Encoding, BoundedCaptureBuffer, CaptureBufferOfferStatus,
}
use proven_loop.Buffer.{has_work, take_gap}
use proven_loop.Writer.{
  DrainPhase, idle, sending, sending_gap, AsyncCaptureWriter, construct, is_draining,
  schedule_drain, submit, finish, take_or_finish, drain_next, resolved_at, rejected_at,
  run_immediate, run_timer, flush_poll, stop_begin, stop_end, Signal, submits, immediate, resolved,
  rejected, timer, polls, stop_begins, stop_ends, step, run,
}

-- At most one of a running drain, a scheduled drain and a retry timer.
abbrev pub IsSingle : AsyncCaptureWriter → Type 0
IsSingle w = bit (is_draining w.phase) + bit w.scheduled + bit w.retry_timer ≤ 1

-- Work that waits has a drain that runs, is scheduled, or will be retried.
abbrev pub IsAwake : AsyncCaptureWriter → Type 0
IsAwake w =
    has_work w.buffer ≡ true
    → w.closing ≡ false
    → w.stopped ≡ false
    → (is_draining w.phase ≡ true) ⊎ (w.scheduled ≡ true) ⊎ (w.retry_timer ≡ true)

abbrev pub Inv : AsyncCaptureWriter → Type 0
Inv w = IsSingle w × IsAwake w

schedule_drain-Inv : (i : Bool) (w : AsyncCaptureWriter) → IsSingle w → Inv (schedule_drain i w)
unfolding schedule_drain
schedule_drain-Inv i w v = ground arith

-- No callback is on its way.
abbrev IsQuiet : AsyncCaptureWriter → Type 0
IsQuiet w = (w.scheduled ≡ false) × (w.retry_timer ≡ false)

finish-Inv : (failed : Bool) (w : AsyncCaptureWriter) → IsQuiet w → Inv (finish failed w)
unfolding finish
finish-Inv failed w q = ground (arith, schedule_drain-Inv false (record w { phase = idle }))

module _ (z : Encoding) where
  take_or_finish-Inv :
      (w : AsyncCaptureWriter) (t : Option CaptureGap × BoundedCaptureBuffer)
      → IsQuiet w
      → Inv (take_or_finish z w t)
  unfolding take_or_finish
  take_or_finish-Inv w (none, b) q = finish-Inv false w q
  take_or_finish-Inv w (some g, b) q = ground arith

  drain_next-Inv : (w : AsyncCaptureWriter) → IsQuiet w → Inv (drain_next z w)
  unfolding drain_next
  drain_next-Inv w q =
      ground (arith, finish-Inv false w q, take_or_finish-Inv w (take_gap z w.buffer) q)

  resolved-Inv :
      (p : DrainPhase) (w : AsyncCaptureWriter) → w.phase ≡ p → Inv w → Inv (resolved_at z p w)
  unfolding resolved_at
  resolved-Inv idle w p v = v
  resolved-Inv (sending e) w p v = drain_next-Inv _ (ground arith)
  resolved-Inv (sending_gap g) w p v = drain_next-Inv _ (ground arith)

  rejected-Inv :
      (p : DrainPhase) (error : String) (w : AsyncCaptureWriter)
      → w.phase ≡ p
      → Inv w
      → Inv (rejected_at z p error w)
  unfolding rejected_at
  rejected-Inv idle error w p v = v
  rejected-Inv (sending e) error w p v = finish-Inv true _ (ground arith)
  rejected-Inv (sending_gap g) error w p v = finish-Inv true _ (ground arith)

  submit-Inv : (e : CaptureEventInput) (w : AsyncCaptureWriter) → Inv w → Inv (submit z e w).1
  unfolding submit
  submit-Inv e w v =
      if_cases {A = CaptureBufferOfferStatus × AsyncCaptureWriter} (λ r. Inv r.1)
        (w.closing || w.stopped) (λ late. ground arith)
        (λ _. schedule_drain-Inv false _ (ground arith))

  run_immediate-Inv : (w : AsyncCaptureWriter) → Inv w → Inv (run_immediate z w)
  unfolding run_immediate
  run_immediate-Inv w v = ground (arith, drain_next-Inv (record w { scheduled = false }))

run_timer-Inv : (w : AsyncCaptureWriter) → Inv w → Inv (run_timer w)
unfolding run_timer
run_timer-Inv w v = ground (arith, schedule_drain-Inv false (record w { retry_timer = false }))

flush_poll-Inv : (w : AsyncCaptureWriter) → Inv w → Inv (flush_poll w)
unfolding flush_poll
flush_poll-Inv w v = ground (arith, schedule_drain-Inv true w v.0)

module _ (z : Encoding) where
  step-Inv : (s : Signal) (w : AsyncCaptureWriter) → Inv w → Inv (step z s w)
  unfolding step stop_begin stop_end
  step-Inv (submits e) w v = submit-Inv z e w v
  step-Inv immediate w v = run_immediate-Inv z w v
  step-Inv resolved w v = resolved-Inv z w.phase w refl v
  step-Inv (rejected error) w v = rejected-Inv z w.phase error w refl v
  step-Inv timer w v = run_timer-Inv w v
  step-Inv polls w v = flush_poll-Inv w v
  step-Inv stop_begins w v = ground arith
  step-Inv stop_ends w v = ground arith

  run_from-Inv : (ss : List Signal) (w : AsyncCaptureWriter) → Inv w → Inv (run z ss w)
  unfolding run
  run_from-Inv [] w v = v
  run_from-Inv (s ∷ ss) w v = run_from-Inv ss (step z s w) (step-Inv s w v)

  reached-Inv :
      (b : BoundedCaptureBuffer) (ss : List Signal)
      → has_work b ≡ false
      → Inv (run z ss (construct b))
  unfolding construct
  reached-Inv b ss h = run_from-Inv ss (construct b) (ground arith)

  -- Over any sequence of signals at most one of a running drain, a scheduled drain and a retry timer
  -- exists.
  pub run-IsSingle :
      (b : BoundedCaptureBuffer) (ss : List Signal)
      → has_work b ≡ false
      → IsSingle (run z ss (construct b))
  run-IsSingle b ss h = (reached-Inv b ss h).0

  -- In any state that is reached and is neither closing nor stopped, a buffer with work has a drain
  -- that runs, one that is scheduled, or a retry timer.
  pub run_awake :
      (b : BoundedCaptureBuffer) (ss : List Signal)
      → has_work b ≡ false
      → has_work (run z ss (construct b)).buffer ≡ true
      → (run z ss (construct b)).closing ≡ false
      → (run z ss (construct b)).stopped ≡ false
      → let w = run z ss (construct b) in
        (is_draining w.phase ≡ true) ⊎ (w.scheduled ≡ true) ⊎ (w.retry_timer ≡ true)
  run_awake b ss h work closing stopped = (reached-Inv b ss h).1 work closing stopped
