-- ===== src/Writer/Order.antt =====
-- Events reach the queue in the order in which they were submitted.
use proven_loop.Shared.{
  suc, ◌≡◌, refl, sym, ap, ◌∙◌, inl, inr, Bool, true, false, ◌||◌, List, [], ◌∷◌, ◌++◌, Option,
  none, some, String, append-nil, append_assoc, if◌then◌else◌, Bool-cases, if_cases, arith,
}
use proven_loop.Buffer.Data.{
  CaptureGap, CaptureEventInput, Encoding, BoundedCaptureBuffer, CaptureBufferOfferStatus,
}
use proven_loop.Buffer.Accounting.{values, stored, offer-IsAccounted}
use proven_loop.Buffer.Gaps.{restore_gap-counts}
use proven_loop.Buffer.View.{Peeks, peek-Peeks, shift-values, Takes, take_gap-Takes}
use proven_loop.Buffer.{shift, take_gap, restore_gap, offer}
use proven_loop.Writer.Account.{IsAtHead}
use proven_loop.Writer.{
  DrainPhase, idle, sending, sending_gap, Delivery, event, gap, AsyncCaptureWriter, construct,
  schedule_drain, count_status, submit, finish, take_or_finish, drain_next, resolved_at,
  rejected_at, run_immediate, run_timer, flush_poll, stop_begin, stop_end, Signal, submits,
  immediate, resolved, rejected, timer, polls, stop_begins, stop_ends, step, run,
}

-- The events among what the queue has taken.
abbrev pub sent_events : List Delivery → List CaptureEventInput
sent_events [] = []
sent_events (event e ∷ ds) = e ∷ sent_events ds
sent_events (gap g ∷ ds) = sent_events ds

sent_events-append :
    (xs ys : List Delivery) → sent_events (xs ++ ys) ≡ sent_events xs ++ sent_events ys
sent_events-append [] ys = refl
sent_events-append (event e ∷ xs) ys = ap (λ r. e ∷ r) (sent_events-append xs ys)
sent_events-append (gap g ∷ xs) ys = sent_events-append xs ys

-- Everything that was stored, in order: taken by the queue, then waiting.
abbrev pub history : AsyncCaptureWriter → List CaptureEventInput
history w = sent_events w.delivered ++ values w.buffer

-- The event at the head of the buffer is the one in flight.
abbrev pub AtHead : AsyncCaptureWriter → Type 0
AtHead w = IsAtHead w.phase w.buffer

schedule_drain-same :
    (i : Bool) (w : AsyncCaptureWriter)
    → let v = schedule_drain i w in
      (v.buffer ≡ w.buffer) × (v.delivered ≡ w.delivered) × (v.phase ≡ w.phase)
unfolding schedule_drain
schedule_drain-same i w = ground arith

finish-same :
    (failed : Bool) (w : AsyncCaptureWriter)
    → let v = finish failed w in
      (v.buffer ≡ w.buffer) × (v.delivered ≡ w.delivered) × (v.phase ≡ idle)
unfolding finish
finish-same failed w = ground (arith, schedule_drain-same false (record w { phase = idle }))

-- A step of the drain: the history stays, and the event in flight is at the head.
abbrev Continues : AsyncCaptureWriter → AsyncCaptureWriter → Type 0
Continues w v = (history v ≡ history w) × AtHead v

finish-Continues : (failed : Bool) (w : AsyncCaptureWriter) → Continues w (finish failed w)
finish-Continues failed w = let (b, d, p) = finish-same failed w in rw (b, d, p) (refl, tt)

abbrev Extends : AsyncCaptureWriter → List CaptureEventInput → AsyncCaptureWriter → Type 0
Extends w es v = (history v ≡ history w ++ es) × AtHead v

head-append :
    (p : DrainPhase) (b c : BoundedCaptureBuffer) (es : List CaptureEventInput)
    → values c ≡ values b ++ es
    → IsAtHead p b
    → IsAtHead p c
head-append idle b c es h a = tt
head-append (sending e) b c es h (r, a) = (r ++ es, rw (h, a))
head-append (sending_gap g) b c es h a = tt

count_status-same :
    (status : CaptureBufferOfferStatus) (w : AsyncCaptureWriter)
    → let v = count_status status w in
      (v.buffer ≡ w.buffer) × (v.delivered ≡ w.delivered) × (v.phase ≡ w.phase)
count_status-same status w = ground arith

none-Extends : (w v : AsyncCaptureWriter) → Continues w v → Extends w [] v
none-Extends w v (same, head) = (same ∙ sym (append-nil (history w)), head)

module _ (z : Encoding) where
  take_or_finish-Continues :
      (w : AsyncCaptureWriter) (t : Option CaptureGap × BoundedCaptureBuffer)
      → Takes w.buffer t
      → Continues w (take_or_finish z w t)
  unfolding take_or_finish
  take_or_finish-Continues w (none, b) h = finish-Continues false w
  take_or_finish-Continues w (some g, b) h = (rw h.0, tt)

  choice-Continues :
      (w : AsyncCaptureWriter) (o : Option CaptureEventInput)
      → Peeks w.buffer o
      → Continues w (elim o [
        | some e ↦ record w { phase = sending e }
        | none ↦ take_or_finish z w (take_gap z w.buffer)
      ])
  choice-Continues w (some e) h = (refl, h)
  choice-Continues w none h = take_or_finish-Continues w _ (take_gap-Takes z w.buffer)

  drain_next-Continues : (w : AsyncCaptureWriter) → Continues w (drain_next z w)
  unfolding drain_next
  drain_next-Continues w =
      if_cases (Continues w) w.stopped (λ _. finish-Continues false w)
        (λ _. choice-Continues w _ (peek-Peeks w.buffer))

  resolved-Continues :
      (p : DrainPhase) (w : AsyncCaptureWriter)
      → w.phase ≡ p
      → IsAtHead p w.buffer
      → Continues w (resolved_at z p w)
  unfolding resolved_at
  resolved-Continues idle w p h = (refl, rw p tt)
  resolved-Continues (sending e) w p (r, h) =
      let (same, head) = drain_next-Continues (record w {
        buffer = (shift w.buffer).1;
        delivered = w.delivered ++ event e ∷ [];
        last_error = none;
        persisted_events = suc w.persisted_events;
      }) in
      (
        same
            ∙ rw (sent_events-append w.delivered (event e ∷ []), h, (shift-values e r w.buffer h).0)
                (append_assoc (sent_events w.delivered) (e ∷ []) r),
        head,
      )
  resolved-Continues (sending_gap g) w p h =
      let (same, head) = drain_next-Continues (record w {
        delivered = w.delivered ++ gap g ∷ [];
        last_error = none;
        persisted_gaps = suc w.persisted_gaps;
      }) in
      (same ∙ rw (sent_events-append w.delivered (gap g ∷ [])) (simp append-nil), head)

  rejected-Continues :
      (p : DrainPhase) (error : String) (w : AsyncCaptureWriter)
      → w.phase ≡ p
      → Continues w (rejected_at z p error w)
  unfolding rejected_at
  rejected-Continues idle error w p = (refl, rw p tt)
  rejected-Continues (sending e) error w p = finish-Continues true _
  rejected-Continues (sending_gap g) error w p =
      let (same, head) = finish-Continues true (record w {
        buffer = restore_gap z g w.buffer;
        last_error = some error;
        write_failures = suc w.write_failures;
      }) in
      (same ∙ rw (restore_gap-counts z g w.buffer).2, head)

  run_immediate-Continues : (w : AsyncCaptureWriter) → AtHead w → Continues w (run_immediate z w)
  unfolding run_immediate
  run_immediate-Continues w h =
      ground (arith, drain_next-Continues (record w { scheduled = false }))

  -- What a signal adds to the history.
  abbrev pub stored_by : Signal → AsyncCaptureWriter → List CaptureEventInput
  stored_by (submits e) w = if w.closing || w.stopped then [] else stored z (offer z e w.buffer).0 e
  stored_by _ w = []

  pub stored_in : List Signal → AsyncCaptureWriter → List CaptureEventInput
  stored_in [] w = []
  stored_in (s ∷ ss) w = stored_by s w ++ stored_in ss (step z s w)

  submit-Extends :
      (e : CaptureEventInput) (w : AsyncCaptureWriter)
      → AtHead w
      → Extends w (stored_by (submits e) w) (submit z e w).1
  unfolding submit
  submit-Extends e w h = elim (Bool-cases (w.closing || w.stopped)) [
    | inl late ↦ rw late (sym (append-nil (history w)), h)
    | inr open_ ↦
        rw open_
          (kept (offer z e w.buffer).0 (offer z e w.buffer).1 (offer-IsAccounted z e w.buffer).0)
  ]
    where
      kept :
          (status : CaptureBufferOfferStatus) (b : BoundedCaptureBuffer)
          → values b ≡ values w.buffer ++ stored z status e
          → Extends w (stored z status e) (
              schedule_drain false (
                count_status status
                  (record w { received_events = suc w.received_events; buffer = b })))
      kept status b a =
          let v : AsyncCaptureWriter = record w {
            received_events = suc w.received_events;
            buffer = b;
          } in
          let (b₁, d₁, p₁) = schedule_drain-same false (count_status status v) in
          let (b₂, d₂, p₂) = count_status-same status v in
          rw (b₁, d₁, p₁, b₂, d₂, p₂)
            (
              rw a (
                  sym
                    (append_assoc (sent_events w.delivered) (values w.buffer) (stored z status e))),
              head-append w.phase w.buffer b (stored z status e) a h,
            )

run_timer-Continues : (w : AsyncCaptureWriter) → AtHead w → Continues w (run_timer w)
unfolding run_timer
run_timer-Continues w h =
    ground (arith, schedule_drain-same false (record w { retry_timer = false }))

flush_poll-Continues : (w : AsyncCaptureWriter) → AtHead w → Continues w (flush_poll w)
unfolding flush_poll
flush_poll-Continues w h = ground (arith, schedule_drain-same true w)

module _ (z : Encoding) where
  pub step-Extends :
      (s : Signal) (w : AsyncCaptureWriter) → AtHead w → Extends w (stored_by z s w) (step z s w)
  unfolding step stop_begin stop_end
  step-Extends (submits e) w h = submit-Extends z e w h
  step-Extends immediate w h = none-Extends w (run_immediate z w) (run_immediate-Continues z w h)
  step-Extends resolved w h =
      none-Extends w (resolved_at z w.phase w) (resolved-Continues z w.phase w refl h)
  step-Extends (rejected error) w h =
      none-Extends w (rejected_at z w.phase error w) (rejected-Continues z w.phase error w refl)
  step-Extends timer w h = none-Extends w (run_timer w) (run_timer-Continues w h)
  step-Extends polls w h = none-Extends w (flush_poll w) (flush_poll-Continues w h)
  step-Extends stop_begins w h = (sym (append-nil (history w)), h)
  step-Extends stop_ends w h = (sym (append-nil (history w)), h)

  run-Extends :
      (ss : List Signal) (w : AsyncCaptureWriter)
      → AtHead w
      → Extends w (stored_in z ss w) (run z ss w)
  unfolding run stored_in
  run-Extends [] w h = (sym (append-nil (history w)), h)
  run-Extends (s ∷ ss) w h =
      let (now, head) = step-Extends s w h in
      let (later, last) = run-Extends ss (step z s w) head in
      (
        later ∙ rw now (append_assoc (history w) (stored_by z s w) (stored_in z ss (step z s w))),
        last,
      )

-- Over any sequence of signals the events that the queue has taken, followed by those that wait, are
-- the events that were stored, in the order in which they were submitted.
pub run-history :
    (z : Encoding) (b : BoundedCaptureBuffer) (ss : List Signal)
    → values b ≡ []
    → history (run z ss (construct b)) ≡ stored_in z ss (construct b)
unfolding construct
run-history z b ss h = (run-Extends z ss (construct b) tt).0 ∙ rw h
