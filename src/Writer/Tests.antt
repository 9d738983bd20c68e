-- ===== src/Writer/Tests.antt =====
-- The writer over the buffer of the buffer's tests: two events, of which the second loses its
-- content, and a third that is dropped.
use proven_loop.Writer.{run_timer}
use proven_loop.Writer.{rejected_at}
use proven_loop.Writer.{resolved_at}
use proven_loop.Shared.{◌+◌, ◌≡◌, ◌⊎◌, refl, true, List, [], ◌∷◌, length, total, replicate}
use proven_loop.Buffer.Accounting.{drops_noted, values}
use proven_loop.Buffer.Gap.{gap_of, same_capture_context}
use proven_loop.Buffer.Tests.{encoding, message, empty}
use proven_loop.Buffer.{
  has_work, offer, offer_degraded, overflow_reasons, push, peek, shift, take_gap, metadata_only,
  record_gap,
}
use proven_loop.Writer.Account.{in_flight, reported}
use proven_loop.Writer.Conservation.{run-received, run-reported}
use proven_loop.Writer.Order.{history, stored_in, run-history}
use proven_loop.Writer.Wakeup.{run_awake}
use proven_loop.Writer.Liveness.{waiting, drain_empties}
use proven_loop.Writer.{
  idle, AsyncCaptureWriter, is_draining, construct, submit, schedule_drain, run_immediate,
  drain_next, take_or_finish, finish, Signal, submits, immediate, resolved, rejected, timer, step,
  run,
}

abbrev busy_signals : List Signal
busy_signals =
    submits (message "a")
    ∷ submits (message "b")
    ∷ submits (message "c")
    ∷ immediate
    ∷ rejected "busy"
    ∷ timer
    ∷ immediate
    ∷ resolved
    ∷ []

abbrev one_event : List Signal
one_event = submits (message "a") ∷ []

run-received_example :
    let w = run encoding busy_signals (construct empty) in
    w.received_events ≡ w.persisted_events + w.dropped_events + length (values w.buffer)
run-received_example = run-received encoding empty busy_signals refl refl

run-reported_example :
    let w = run encoding busy_signals (construct empty) in
    w.dropped_events ≡ drops_noted w.buffer + in_flight w.phase + total reported w.delivered
unfolding run step construct submit schedule_drain offer offer_degraded overflow_reasons push
    record_gap metadata_only run_immediate drain_next peek resolved_at rejected_at finish run_timer
    has_work shift take_gap take_or_finish gap_of same_capture_context
run-reported_example = run-reported encoding empty busy_signals refl refl refl

run-history_example :
    history (run encoding busy_signals (construct empty))
    ≡ stored_in encoding busy_signals (construct empty)
run-history_example = run-history encoding empty busy_signals refl

run_awake_example :
    let w = run encoding one_event (construct empty) in
    (is_draining w.phase ≡ true) ⊎ (w.scheduled ≡ true) ⊎ (w.retry_timer ≡ true)
unfolding run step construct submit schedule_drain offer offer_degraded overflow_reasons push
    record_gap metadata_only run_immediate drain_next peek resolved_at rejected_at finish run_timer
    has_work shift take_gap take_or_finish
run_awake_example = run_awake encoding empty one_event refl refl refl refl

draining : AsyncCaptureWriter
draining =
    run encoding (submits (message "a") ∷ submits (message "b") ∷ immediate ∷ []) (construct empty)

drain_empties_example :
    let v = run encoding (replicate 3 resolved) draining in
    (v.phase ≡ idle) × (waiting v.buffer ≡ 0)
unfolding draining run step construct submit schedule_drain offer overflow_reasons push
    offer_degraded record_gap metadata_only run_immediate drain_next peek gap_of
drain_empties_example =
    drain_empties encoding 3 draining refl refl (metadata_only encoding (message "b") ∷ [], refl)
      refl
