-- ===== src/Writer/Liveness.antt =====
-- With a queue that takes what it is given, a drain empties the buffer.
use proven_loop.Shared.{
  ℕ, zero, suc, ◌+◌, ◌≡◌, refl, ◌⊎◌, inl, inr, true, false, [], ◌∷◌, ◌++◌, ◌≢◌, subst, Option, none,
  some, length, replicate, if_cases, arith,
}
use proven_loop.Buffer.Data.{CaptureGap, CaptureEventInput, Encoding, BoundedCaptureBuffer}
use proven_loop.Buffer.Accounting.{values}
use proven_loop.Buffer.View.{Peeks, peek-Peeks, shift-values, Takes, take_gap-Takes}
use proven_loop.Buffer.{shift, take_gap}
use proven_loop.Writer.Account.{IsAtHead}
use proven_loop.Writer.Order.{AtHead, step-Extends}
use proven_loop.Writer.{
  DrainPhase, idle, sending, sending_gap, event, gap, AsyncCaptureWriter, is_draining,
  schedule_drain, finish, take_or_finish, drain_next, resolved_at, resolved, step, run,
}

abbrev pub waiting : BoundedCaptureBuffer → ℕ
waiting b = length (values b) + length b.gaps

-- What is left to hand over: the buffer, and the gap in flight, which has left the buffer.
abbrev pub pending : DrainPhase → BoundedCaptureBuffer → ℕ
pending (sending_gap g) b = suc (waiting b)
pending _ b = waiting b

-- A drain that is over an empty buffer, or one with that much left.
abbrev Drains : ℕ → AsyncCaptureWriter → Type 0
Drains n w =
    (w.stopped ≡ false)
    × (((w.phase ≡ idle) × (waiting w.buffer ≡ 0) × (n ≡ 0))
        ⊎ ((is_draining w.phase ≡ true) × (pending w.phase w.buffer ≡ n)))

finish-Drains :
    (w : AsyncCaptureWriter) → w.stopped ≡ false → waiting w.buffer ≡ 0 → Drains 0 (finish false w)
unfolding finish schedule_drain
finish-Drains w s h = ground arith

pending_positive :
    (p : DrainPhase) (b : BoundedCaptureBuffer)
    → is_draining p ≡ true
    → IsAtHead p b
    → pending p b ≢ 0
pending_positive idle b d h = absurd (cc)
pending_positive (sending e) b d (r, h) = λ m. ground arith
pending_positive (sending_gap g) b d h = λ m. ground arith

module _ (z : Encoding) where
  take_or_finish-Drains :
      (w : AsyncCaptureWriter) (t : Option CaptureGap × BoundedCaptureBuffer) (n : ℕ)
      → w.stopped ≡ false
      → values w.buffer ≡ []
      → waiting w.buffer ≡ n
      → Takes w.buffer t
      → Drains n (take_or_finish z w t)
  unfolding take_or_finish
  take_or_finish-Drains w (none, b) n s e m h = ground (arith, finish-Drains w)
  take_or_finish-Drains w (some g, b) n s e m h = ground arith

  choice-Drains :
      (w : AsyncCaptureWriter) (o : Option CaptureEventInput)
      → w.stopped ≡ false
      → Peeks w.buffer o
      → Drains (waiting w.buffer) (elim o [
        | some e ↦ record w { phase = sending e }
        | none ↦ take_or_finish z w (take_gap z w.buffer)
      ])
  choice-Drains w (some e) s h = (s, inr (refl, refl))
  choice-Drains w none s h =
      take_or_finish-Drains w _ (waiting w.buffer) s h refl (take_gap-Takes z w.buffer)

  drain_next-Drains :
      (w : AsyncCaptureWriter) → w.stopped ≡ false → Drains (waiting w.buffer) (drain_next z w)
  unfolding drain_next
  drain_next-Drains w s =
      if_cases (Drains (waiting w.buffer)) w.stopped (λ stopped_. absurd (cc))
        (λ _. choice-Drains w _ s (peek-Peeks w.buffer))

  resolved-Drains :
      (p : DrainPhase) (w : AsyncCaptureWriter) (n : ℕ)
      → is_draining p ≡ true
      → w.stopped ≡ false
      → IsAtHead p w.buffer
      → pending p w.buffer ≡ suc n
      → Drains n (resolved_at z p w)
  unfolding resolved_at
  resolved-Drains idle w n d s h m = absurd (cc)
  resolved-Drains (sending e) w n d s (r, h) m =
      subst (λ k. Drains k (resolved_at z (sending e) w))
        (ground (arith, shift-values e r w.buffer h))
        (drain_next-Drains
          (record w {
            buffer = (shift w.buffer).1;
            delivered = w.delivered ++ event e ∷ [];
            last_error = none;
            persisted_events = suc w.persisted_events;
          })
          s)
  resolved-Drains (sending_gap g) w n d s h m =
      subst (λ k. Drains k (resolved_at z (sending_gap g) w)) (ground arith)
        (drain_next-Drains
          (record w {
            delivered = w.delivered ++ gap g ∷ [];
            last_error = none;
            persisted_gaps = suc w.persisted_gaps;
          })
          s)

  -- While the writer is not stopped, a drain that runs ends with an empty buffer after as many
  -- fulfilled promises as there are events and gaps left, the one in flight included.
  pub drain_empties :
      (n : ℕ) (w : AsyncCaptureWriter)
      → is_draining w.phase ≡ true
      → w.stopped ≡ false
      → AtHead w
      → pending w.phase w.buffer ≡ n
      → let v = run z (replicate n resolved) w in (v.phase ≡ idle) × (waiting v.buffer ≡ 0)
  unfolding run step
  drain_empties zero w d s h m = absurd (pending_positive w.phase w.buffer d h m)
  drain_empties (suc n) w d s h m =
      let drains = resolved-Drains w.phase w n d s h m in
      elim drains.1 [
        | inl (p, e, done) ↦ rw done (p, e)
        | inr (d', m') ↦
            drain_empties n (resolved_at z w.phase w) d' drains.0 (step-Extends z resolved w h).1 m'
      ]
