-- ===== src/Buffer/Limits.antt =====
-- The buffer never holds more than its limits allow, and its byte counts are exact.
use proven_loop.Shared.{
  ℕ, ◌≤◌, ◌<◌, ◌≡◌, refl, inl, inr, true, List, [], ◌∷◌, ◌++◌, none, some, length, total, get_last?,
  length-append, total-append, length-set_last, total-set_last, arith, Bool-cases, Option-cases,
  All, All-append, unique, nil_of_get_last?, le-total-get_last?,
}
use proven_loop.Shared.Result.{ok}
use proven_loop.Buffer.Data.{
  CaptureGap, CaptureEventInput, Encoding, BoundedCaptureBufferOptions, BufferedCaptureEvent,
  BoundedCaptureBuffer, OverflowReason, OverflowReason_eq,
}
use proven_loop.Buffer.Gap.{same_capture_context, merge_mixed_gap, gap_of, aggregate}
use proven_loop.Buffer.{
  shift, take_gap, restore_gap, record_gap, push, offer, offer_degraded, overflow_reasons,
  metadata_only, construct, BufferCall, offers, shifts, takes_gap, restores_gap, call, call_all,
  has_content, has_gap_room, append_gap, alone, replace_last,
}

abbrev pub item_total : List BufferedCaptureEvent → ℕ
item_total = total (λ i. i.bytes)

module _ (z : Encoding) where
  abbrev pub IsMeasured : BufferedCaptureEvent → Type 0
  IsMeasured i = i.bytes ≡ z.event_bytes i.value

  pub record Inv (b : BoundedCaptureBuffer) : Type 0 where
    pub items_bound : length b.items ≤ b.max_items
    pub bytes_bound : b.bytes ≤ b.max_bytes
    pub bytes_exact : b.bytes ≡ item_total b.items
    pub measured : All IsMeasured b.items
    pub gaps_bound : length b.gaps ≤ b.max_gap_contexts
    pub gaps_exact : b.gap_total ≡ total z.gap_bytes b.gaps
    pub contexts_positive : 0 < b.max_gap_contexts

  push-Inv :
      (b : BoundedCaptureBuffer) (e : CaptureEventInput) (size : ℕ)
      → Inv b
      → size ≡ z.event_bytes e
      → overflow_reasons b size ≡ []
      → Inv (push b e size)
  unfolding push overflow_reasons
  push-Inv b e size v h r = record {
    items_bound = ground (arith, length-append b.items (record { bytes = size; value = e } ∷ []));
    bytes_bound = ground arith;
    bytes_exact = omega (
      arith,
      v.bytes_exact,
      total-append (λ (i : BufferedCaptureEvent). i.bytes) b.items
          (record { bytes = size; value = e } ∷ []),
    );
    measured = All-append IsMeasured b.items _ v.measured (h, tt);
    gaps_bound = v.gaps_bound;
    gaps_exact = v.gaps_exact;
    contexts_positive = v.contexts_positive;
  }

  pub shift-Inv : (b : BoundedCaptureBuffer) → Inv b → Inv (shift b).1
  unfolding shift
  shift-Inv b v = ground arith

  pub take_gap-Inv : (b : BoundedCaptureBuffer) → Inv b → Inv (take_gap z b).1
  unfolding take_gap
  take_gap-Inv b v = ground arith

  pub restore_gap-Inv :
      (g : CaptureGap) (b : BoundedCaptureBuffer) → Inv b → Inv (restore_gap z g b)
  unfolding restore_gap
  restore_gap-Inv g b v = ground arith

  -- The five ways in which `#recordGap` ends.
  pub record_gap_cases {ℓ} :
      (P : BoundedCaptureBuffer → Type ℓ) (e : CaptureEventInput) (reasons : List OverflowReason)
      (omitted drops : ℕ) (b : BoundedCaptureBuffer)
      → (has_gap_room z b (gap_of z e reasons omitted drops) ≡ true
          → P (append_gap z b (gap_of z e reasons omitted drops)))
      → (get_last? b.gaps ≡ none
          → P (alone z b (merge_mixed_gap none (gap_of z e reasons omitted drops))))
      → ((p : CaptureGap)
          → get_last? b.gaps ≡ some p
          → P (replace_last z b p (aggregate p e reasons omitted drops)))
      → ((p : CaptureGap)
          → get_last? b.gaps ≡ some p
          → P (replace_last z b p (merge_mixed_gap (some p) (gap_of z e reasons omitted drops))))
      → P (record_gap z e reasons omitted drops b)
  unfolding record_gap
  record_gap_cases P e reasons omitted drops b room fresh same mixed =
      elim (Option-cases (get_last? b.gaps)) [
        | inl h ↦
            rw (h, record_gap)
              (elim (Bool-cases (has_gap_room z b g)) [
                | inl r ↦ rw r (room r)
                | inr r ↦ rw r (fresh h)
              ])
        | inr (p, h) ↦
            rw (h, record_gap)
              (elim (Bool-cases (same_capture_context p g)) [
                | inl s ↦ rw s (same p h)
                | inr s ↦ rw s (elim (Bool-cases (has_gap_room z b g)) [
                  | inl r ↦ rw r (room r)
                  | inr r ↦ rw r (mixed p h)
                ])
              ])
      ]
    where
      g : CaptureGap
      g = gap_of z e reasons omitted drops

  append_gap-Inv :
      (b : BoundedCaptureBuffer) (g : CaptureGap)
      → Inv b
      → has_gap_room z b g ≡ true
      → Inv (append_gap z b g)
  append_gap-Inv b g v r =
      ground (arith, length-append b.gaps (g ∷ []), total-append z.gap_bytes b.gaps (g ∷ []))

  alone-Inv :
      (b : BoundedCaptureBuffer) (g : CaptureGap)
      → Inv b
      → get_last? b.gaps ≡ none
      → Inv (alone z b g)
  alone-Inv b g v h = ground (arith, nil_of_get_last? b.gaps h)

  replace_last-Inv :
      (b : BoundedCaptureBuffer) (p g : CaptureGap)
      → Inv b
      → get_last? b.gaps ≡ some p
      → Inv (replace_last z b p g)
  replace_last-Inv b p g v h = ground (
    arith,
    length-set_last b.gaps g,
    total-set_last z.gap_bytes b.gaps g p h,
    le-total-get_last? z.gap_bytes b.gaps p h,
  )

  record_gap-Inv :
      (e : CaptureEventInput) (reasons : List OverflowReason) (omitted drops : ℕ)
      (b : BoundedCaptureBuffer)
      → Inv b
      → Inv (record_gap z e reasons omitted drops b)
  record_gap-Inv e reasons omitted drops b v =
      record_gap_cases Inv e reasons omitted drops b (append_gap-Inv b _ v) (alone-Inv b _ v)
        (λ p. replace_last-Inv b p _ v) (λ p. replace_last-Inv b p _ v)

  -- A gap note leaves the events and their bytes alone.
  pub record_gap-items :
      (e : CaptureEventInput) (reasons : List OverflowReason) (omitted drops : ℕ)
      (b : BoundedCaptureBuffer)
      → let c = record_gap z e reasons omitted drops b in
        (c.items ≡ b.items) × (c.bytes ≡ b.bytes) × (c.options ≡ b.options)
  record_gap-items e reasons omitted drops b =
      record_gap_cases (λ c. (c.items ≡ b.items) × (c.bytes ≡ b.bytes) × (c.options ≡ b.options)) e
        reasons omitted drops b (λ _. (refl, refl, refl)) (λ _. (refl, refl, refl))
        (λ p _. (refl, refl, refl)) (λ p _. (refl, refl, refl))

  overflow_reasons-record_gap :
      (e : CaptureEventInput) (reasons : List OverflowReason) (omitted drops : ℕ)
      (b : BoundedCaptureBuffer) (size : ℕ)
      → overflow_reasons (record_gap z e reasons omitted drops b) size ≡ overflow_reasons b size
  unfolding overflow_reasons
  overflow_reasons-record_gap e reasons omitted drops b size =
      let (i, c, o) = record_gap-items e reasons omitted drops b in rw (i, c, o)

  offer_degraded-Inv :
      (e : CaptureEventInput) (reasons : List OverflowReason) (b : BoundedCaptureBuffer)
      → Inv b
      → Inv (offer_degraded z e reasons b).1
  unfolding offer_degraded
  offer_degraded-Inv e reasons b v = ground (
    arith,
    overflow_reasons-record_gap e noted (has_content z e) 0 b size,
    push-Inv (record_gap z e noted (has_content z e) 0 b) reduced size
        (record_gap-Inv e noted (has_content z e) 0 b v) refl,
    record_gap-Inv e noted (has_content z e) 1 b v,
  )
    where
      reduced : CaptureEventInput
      reduced = metadata_only z e

      size : ℕ
      size = z.event_bytes reduced

      noted : List OverflowReason
      noted = unique (reasons ++ overflow_reasons b size)

  pub offer-Inv : (e : CaptureEventInput) (b : BoundedCaptureBuffer) → Inv b → Inv (offer z e b).1
  unfolding offer
  offer-Inv e b v = ground (
    arith,
    offer_degraded-Inv e (overflow_reasons b (z.event_bytes e)) b v,
    push-Inv b e (z.event_bytes e) v refl,
  )

  construct-Inv :
      (o : BoundedCaptureBufferOptions) (b : BoundedCaptureBuffer) → construct o ≡ ok b → Inv b
  unfolding construct
  construct-Inv o b h = ground arith

  call-Inv : (c : BufferCall) (b : BoundedCaptureBuffer) → Inv b → Inv (call z c b)
  unfolding call
  call-Inv (offers e) b v = offer-Inv e b v
  call-Inv shifts b v = shift-Inv b v
  call-Inv takes_gap b v = take_gap-Inv b v
  call-Inv (restores_gap g) b v = restore_gap-Inv g b v

  call_all-Inv : (cs : List BufferCall) (b : BoundedCaptureBuffer) → Inv b → Inv (call_all z cs b)
  unfolding call_all
  call_all-Inv [] b v = v
  call_all-Inv (c ∷ cs) b v = call_all-Inv cs (call z c b) (call-Inv c b v)

-- After any calls on a buffer that was constructed, the items and their bytes are within the
-- configured limits, the gaps within their number, and both byte counts are the sums of the sizes. The
-- bytes of the gaps are not: a merge or an aggregation may take them over their limit.
pub construct-call_all-Inv :
    (z : Encoding) (o : BoundedCaptureBufferOptions) (b : BoundedCaptureBuffer)
    (cs : List BufferCall)
    → construct o ≡ ok b
    → Inv z (call_all z cs b)
construct-call_all-Inv z o b cs h = call_all-Inv z cs b (construct-Inv z o b h)
