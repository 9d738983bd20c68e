-- ===== src/Writer/Account.antt =====
-- Every event that the writer receives is persisted, dropped or still in the buffer, and every drop
-- is reported by a gap.
use proven_loop.Shared.{
  ℕ, suc, ◌+◌, ◌≤◌, ◌≡◌, refl, Bool, true, false, List, [], ◌∷◌, append-nil, ◌||◌, inl, inr,
  Bool-cases, Option, none, some, String, length, total, length-append, total-append, arith,
}
use proven_loop.Buffer.Data.{
  CaptureGap, CaptureEventInput, Encoding, BoundedCaptureBuffer, CaptureBufferOfferStatus, accepted,
  dropped,
}
use proven_loop.Buffer.Accounting.{drops_noted, values, IsAccounted, offer-IsAccounted}
use proven_loop.Buffer.Gaps.{restore_gap-counts}
use proven_loop.Buffer.View.{shift-values, Takes, take_gap-Takes}
use proven_loop.Buffer.{take_gap, metadata_only}
use proven_loop.Writer.{
  DrainPhase, idle, sending, sending_gap, Delivery, event, gap, AsyncCaptureWriter, construct,
  schedule_drain, count_status, submit, finish, take_or_finish, drain_next, resolved_at,
  rejected_at, run_immediate, run_timer, flush_poll, stop_begin, stop_end, Signal, submits,
  immediate, resolved, rejected, timer, polls, stop_begins, stop_ends, step,
}

-- The drops that the gap in flight reports, and those that the queue has been told of.
abbrev pub in_flight : DrainPhase → ℕ
in_flight (sending_gap g) = g.dropped_event_count
in_flight _ = 0

abbrev pub reported : Delivery → ℕ
reported (event e) = 0
reported (gap g) = g.dropped_event_count

-- The event in flight stays at the head of the buffer.
abbrev pub IsAtHead : DrainPhase → BoundedCaptureBuffer → Type 0
IsAtHead (sending e) b = (r : List CaptureEventInput) × (values b ≡ e ∷ r)
IsAtHead _ b = Unit

pub record Balance (w : AsyncCaptureWriter) : Type 0 where
  pub received_split :
      w.received_events ≡ w.persisted_events + w.dropped_events + length (values w.buffer)
  pub reported_le :
      drops_noted w.buffer + in_flight w.phase + total reported w.delivered ≤ w.dropped_events
  pub reported_exact :
      (w.closing || w.stopped) ≡ false
      → w.dropped_events ≡ drops_noted w.buffer + in_flight w.phase + total reported w.delivered

schedule_drain-Balance :
    (i : Bool) (w : AsyncCaptureWriter) → Balance w → Balance (schedule_drain i w)
unfolding schedule_drain
schedule_drain-Balance i w v = ground arith

-- Nothing in flight: the state of the loop of `#drain` between two deliveries.
abbrev Rested : AsyncCaptureWriter → Type 0
Rested w = Balance (record w { phase = idle })

finish-Balance : (failed : Bool) (w : AsyncCaptureWriter) → Rested w → Balance (finish failed w)
unfolding finish
finish-Balance failed w v =
    ground (arith, schedule_drain-Balance false (record w { phase = idle }) v)

module _ (z : Encoding) where
  take_or_finish-Balance :
      (w : AsyncCaptureWriter) (t : Option CaptureGap × BoundedCaptureBuffer)
      → Rested w
      → Takes w.buffer t
      → Balance (take_or_finish z w t)
  unfolding take_or_finish
  take_or_finish-Balance w (none, b) v h = finish-Balance false w v
  take_or_finish-Balance w (some g, b) v h = ground arith

  drain_next-Balance : (w : AsyncCaptureWriter) → Rested w → Balance (drain_next z w)
  unfolding drain_next
  drain_next-Balance w v = ground (
    arith,
    finish-Balance false w v,
    take_or_finish-Balance w (take_gap z w.buffer) v (take_gap-Takes z w.buffer),
  )

  resolved-Balance :
      (p : DrainPhase) (w : AsyncCaptureWriter)
      → w.phase ≡ p
      → IsAtHead p w.buffer
      → Balance w
      → Balance (resolved_at z p w)
  unfolding resolved_at
  resolved-Balance idle w p h v = v
  resolved-Balance (sending e) w p (r, h) v = drain_next-Balance _ (
      ground (arith, shift-values e r w.buffer h, total-append reported w.delivered (event e ∷ [])))
  resolved-Balance (sending_gap g) w p h v =
      drain_next-Balance _ (ground (arith, total-append reported w.delivered (gap g ∷ [])))

  rejected-Balance :
      (p : DrainPhase) (error : String) (w : AsyncCaptureWriter)
      → w.phase ≡ p
      → Balance w
      → Balance (rejected_at z p error w)
  unfolding rejected_at
  rejected-Balance idle error w p v = v
  rejected-Balance (sending e) error w p v = finish-Balance true _ (ground arith)
  rejected-Balance (sending_gap g) error w p v =
      finish-Balance true _ (ground (arith, restore_gap-counts z g w.buffer))

  counted-Balance :
      (e : CaptureEventInput) (w : AsyncCaptureWriter) (status : CaptureBufferOfferStatus)
      (b : BoundedCaptureBuffer)
      → IsAccounted z w.buffer e (status, b)
      → Balance w
      → Balance
          (count_status status (record w { buffer = b; received_events = suc w.received_events }))
  counted-Balance e w accepted b a v = ground (arith, length-append (values w.buffer) (e ∷ []))
  counted-Balance e w dropped b a v = ground (arith, append-nil (values w.buffer))
  counted-Balance e w _ b a v =
      ground (arith, length-append (values w.buffer) (metadata_only z e ∷ []))

  late-Balance :
      (w : AsyncCaptureWriter)
      → (w.closing || w.stopped) ≡ true
      → Balance w
      → Balance (record w {
        dropped_events = suc w.dropped_events;
        received_events = suc w.received_events;
      })
  late-Balance w late v = record {
    received_split = ground arith;
    reported_le = ground arith;
    reported_exact = λ open_. cc;
  }

  submit-Balance :
      (e : CaptureEventInput) (w : AsyncCaptureWriter) → Balance w → Balance (submit z e w).1
  unfolding submit
  submit-Balance e w v = elim (Bool-cases (w.closing || w.stopped)) [
    | inl late ↦ rw late (late-Balance w late v)
    | inr open_ ↦ rw open_ (
        schedule_drain-Balance false _ (counted-Balance e w _ _ (offer-IsAccounted z e w.buffer) v))
  ]

  run_immediate-Balance : (w : AsyncCaptureWriter) → Balance w → Balance (run_immediate z w)
  unfolding run_immediate
  run_immediate-Balance w v = ground (arith, drain_next-Balance (record w { scheduled = false }))

run_timer-Balance : (w : AsyncCaptureWriter) → Balance w → Balance (run_timer w)
unfolding run_timer
run_timer-Balance w v =
    ground (arith, schedule_drain-Balance false (record w { retry_timer = false }))

flush_poll-Balance : (w : AsyncCaptureWriter) → Balance w → Balance (flush_poll w)
unfolding flush_poll
flush_poll-Balance w v = ground (arith, schedule_drain-Balance true w v)

module _ (z : Encoding) where
  pub step-Balance :
      (s : Signal) (w : AsyncCaptureWriter)
      → IsAtHead w.phase w.buffer
      → Balance w
      → Balance (step z s w)
  unfolding step stop_begin stop_end
  step-Balance (submits e) w h v = submit-Balance z e w v
  step-Balance immediate w h v = run_immediate-Balance z w v
  step-Balance resolved w h v = resolved-Balance z w.phase w refl h v
  step-Balance (rejected error) w h v = rejected-Balance z w.phase error w refl v
  step-Balance timer w h v = run_timer-Balance w v
  step-Balance polls w h v = flush_poll-Balance w v
  step-Balance stop_begins w h v = ground arith
  step-Balance stop_ends w h v = ground arith

  pub construct-Balance :
      (b : BoundedCaptureBuffer) → values b ≡ [] → b.gaps ≡ [] → Balance (construct b)
  unfolding construct
  construct-Balance b e g = ground arith
