-- ===== src/Writer.antt =====
-- packages/copilot-adapter/src/async-writer.ts: the writer that drains the capture buffer into the
-- durable queue. What runs between two awaits is one function here, and a `Signal` is what may
-- happen next: a callback, a settled promise, a timer, or a call of a method. The text of an error
-- is the one that `sanitizeDiagnostic` gives; `onError` can change nothing and is left out.
pub mod Account
pub mod Order
pub mod Conservation
pub mod Wakeup
pub mod Liveness
mod Tests
use proven_loop.Shared.{
  ℕ, suc, Bool, true, false, not, ◌&&◌, ◌||◌, List, [], ◌∷◌, ◌++◌, Option, none, some, String, ltb,
  same_number, if◌then◌else◌, length,
}
use proven_loop.Buffer.Data.{
  CaptureGap, CaptureEventInput, Encoding, BoundedCaptureBuffer, CaptureBufferOfferStatus, accepted,
  dropped,
}
use proven_loop.Buffer.{has_work, peek, shift, take_gap, restore_gap, offer, byte_count}

-- Where `#drain` waits: nowhere, or for the queue to take an event or a gap.
pub data DrainPhase : Type 0 where
  idle : DrainPhase
  sending : CaptureEventInput → DrainPhase
  sending_gap : CaptureGap → DrainPhase

-- What the queue has taken.
pub data Delivery : Type 0 where
  event : CaptureEventInput → Delivery
  gap : CaptureGap → Delivery

-- `delivered` is no field of the source: it is the queue's side, in the order of its answers.
pub record AsyncCaptureWriter : Type 0 where
  pub buffer : BoundedCaptureBuffer
  pub closing : Bool
  pub degraded_events : ℕ
  pub delivered : List Delivery
  pub dropped_events : ℕ
  pub last_error : Option String
  pub persisted_events : ℕ
  pub persisted_gaps : ℕ
  pub phase : DrainPhase
  pub received_events : ℕ
  pub retry_timer : Bool
  pub scheduled : Bool
  pub stopped : Bool
  pub write_failures : ℕ

pub construct : BoundedCaptureBuffer → AsyncCaptureWriter
construct b = record {
  buffer = b;
  closing = false;
  degraded_events = 0;
  delivered = [];
  dropped_events = 0;
  last_error = none;
  persisted_events = 0;
  persisted_gaps = 0;
  phase = idle;
  received_events = 0;
  retry_timer = false;
  scheduled = false;
  stopped = false;
  write_failures = 0;
}

-- `#draining`
abbrev pub is_draining : DrainPhase → Bool
is_draining idle = false
is_draining _ = true

-- `#scheduleDrain(immediate)`
pub schedule_drain : Bool → AsyncCaptureWriter → AsyncCaptureWriter
schedule_drain immediate w =
    if w.stopped || (w.closing && not immediate) || is_draining w.phase || w.scheduled
    then w
    else if w.retry_timer && not immediate
    then w
    else record w { retry_timer = false; scheduled = true }

abbrev pub count_status : CaptureBufferOfferStatus → AsyncCaptureWriter → AsyncCaptureWriter
count_status accepted w = w
count_status CaptureBufferOfferStatus.degraded w = record w {
  degraded_events = suc w.degraded_events;
}
count_status dropped w = record w { dropped_events = suc w.dropped_events }

-- The `finally` of `#drain`, and what follows it.
pub finish : Bool → AsyncCaptureWriter → AsyncCaptureWriter
finish failed w =
    let rested = record w { phase = idle } in
    if failed && not w.stopped
    then record rested { retry_timer = true }
    else if has_work w.buffer
    then schedule_drain false rested
    else rested

-- The callback of the retry timer.
pub run_timer : AsyncCaptureWriter → AsyncCaptureWriter
run_timer w = if w.retry_timer then schedule_drain false (record w { retry_timer = false }) else w

-- What `flush` does before it waits, and each time that it wakes.
pub flush_poll : AsyncCaptureWriter → AsyncCaptureWriter
flush_poll w = if has_work w.buffer then schedule_drain true w else w

-- What `flush` returns.
pub flushed : AsyncCaptureWriter → Bool
flushed w = not (is_draining w.phase) && not w.scheduled && not (has_work w.buffer)

-- `stop` before and behind its call of `flush`.
pub stop_begin : AsyncCaptureWriter → AsyncCaptureWriter
stop_begin w = record w { closing = true }

pub stop_end : AsyncCaptureWriter → AsyncCaptureWriter
stop_end w = record w { stopped = true; retry_timer = false }

module _ (z : Encoding) where
  pub submit :
      CaptureEventInput → AsyncCaptureWriter → CaptureBufferOfferStatus × AsyncCaptureWriter
  submit e w =
      let received = record w { received_events = suc w.received_events } in
      let (status, buffer) = offer z e w.buffer in
      if w.closing || w.stopped
      then (dropped, record received { dropped_events = suc w.dropped_events })
      else (
        status,
        schedule_drain false (count_status status (record received { buffer = buffer })),
      )

  -- A gap that was taken is sent; with none, the loop ends.
  pub take_or_finish :
      AsyncCaptureWriter → Option CaptureGap × BoundedCaptureBuffer → AsyncCaptureWriter
  take_or_finish w (none, b) = finish false w
  take_or_finish w (some g, b) = record w { buffer = b; phase = sending_gap g }

  -- The head of the loop in `#drain`, up to its next await.
  pub drain_next : AsyncCaptureWriter → AsyncCaptureWriter
  drain_next w = if w.stopped then finish false w else elim (peek w.buffer) [
    | some e ↦ record w { phase = sending e }
    | none ↦ take_or_finish w (take_gap z w.buffer)
  ]

  -- The queue's promise is fulfilled.
  pub resolved_at : DrainPhase → AsyncCaptureWriter → AsyncCaptureWriter
  resolved_at idle w = w
  resolved_at (sending e) w = drain_next (record w {
    buffer = (shift w.buffer).1;
    delivered = w.delivered ++ event e ∷ [];
    last_error = none;
    persisted_events = suc w.persisted_events;
  })
  resolved_at (sending_gap g) w = drain_next (record w {
    delivered = w.delivered ++ gap g ∷ [];
    last_error = none;
    persisted_gaps = suc w.persisted_gaps;
  })

  -- It is rejected; a gap goes back to the buffer.
  pub rejected_at : DrainPhase → String → AsyncCaptureWriter → AsyncCaptureWriter
  rejected_at idle error w = w
  rejected_at (sending e) error w =
      finish true (record w { last_error = some error; write_failures = suc w.write_failures })
  rejected_at (sending_gap g) error w = finish true (record w {
    buffer = restore_gap z g w.buffer;
    last_error = some error;
    write_failures = suc w.write_failures;
  })

  -- The callback of `setImmediate`, with the entry of `#drain`.
  pub run_immediate : AsyncCaptureWriter → AsyncCaptureWriter
  run_immediate w =
      let started = record w { scheduled = false } in
      if w.scheduled
      then if is_draining w.phase || w.stopped then started else drain_next started
      else w

pub data CaptureHealthState : Type 0 where
  degraded healthy stopped : CaptureHealthState

abbrev is_none : Option String → Bool
is_none none = true
is_none (some _) = false

-- The `state` of `status()`.
pub health : AsyncCaptureWriter → CaptureHealthState
health w =
    if w.stopped
    then CaptureHealthState.stopped
    else if is_none w.last_error
        && same_number w.dropped_events 0
        && same_number w.degraded_events 0
    then CaptureHealthState.healthy
    else CaptureHealthState.degraded

pub data Signal : Type 0 where
  submits : CaptureEventInput → Signal
  immediate resolved timer polls stop_begins stop_ends : Signal
  rejected : String → Signal

pub step : Encoding → Signal → AsyncCaptureWriter → AsyncCaptureWriter
unfolding resolved_at rejected_at
step z (submits e) w = (submit z e w).1
step z immediate w = run_immediate z w
step z resolved w = resolved_at z w.phase w
step z (rejected error) w = rejected_at z w.phase error w
step z timer w = run_timer w
step z polls w = flush_poll w
step z stop_begins w = stop_begin w
step z stop_ends w = stop_end w

pub run : Encoding → List Signal → AsyncCaptureWriter → AsyncCaptureWriter
run z [] w = w
run z (s ∷ ss) w = run z ss (step z s w)
