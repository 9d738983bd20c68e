-- ===== src/Buffer/Accounting.antt =====
-- Nothing is lost without a note: the gaps count every event that was dropped or reduced.
use proven_loop.Shared.{
  ℕ, ◌+◌, ◌≡◌, refl, sym, ap, ◌∙◌, List, [], ◌∷◌, ◌++◌, none, some, map, total, total-append,
  total-set_last, arith, append-nil, map-append,
}
use proven_loop.Buffer.Data.{
  CaptureGap, CaptureEventInput, Encoding, BufferedCaptureEvent, BoundedCaptureBuffer,
  CaptureBufferOfferStatus, OverflowReason, OverflowReason_eq, accepted, degraded, dropped,
}
use proven_loop.Buffer.Gap.{merge_mixed_gap, gap_of, aggregate}
use proven_loop.Buffer.Limits.{record_gap_cases, record_gap-items}
use proven_loop.Buffer.{
  take_gap, restore_gap, record_gap, push, offer, offer_degraded, overflow_reasons, metadata_only,
  has_content,
}

-- The events that the pending gaps report as dropped, and those without their content.
abbrev pub drops_noted : BoundedCaptureBuffer → ℕ
drops_noted b = total (λ g. g.dropped_event_count) b.gaps

abbrev pub omissions_noted : BoundedCaptureBuffer → ℕ
omissions_noted b = total (λ g. g.content_omitted_count) b.gaps

abbrev pub values : BoundedCaptureBuffer → List CaptureEventInput
values b = map (λ i. i.value) b.items

-- A count that merging two gaps adds up.
pub record IsCount (f : CaptureGap → ℕ) : Type 0 where
  lone : (g : CaptureGap) → f (merge_mixed_gap none g) ≡ f g
  sums : (p g : CaptureGap) → f (merge_mixed_gap (some p) g) ≡ f p + f g

pub dropped-IsCount : IsCount (λ g. g.dropped_event_count)
unfolding merge_mixed_gap
dropped-IsCount = record { lone = λ g. refl; sums = λ p g. refl }

pub omitted-IsCount : IsCount (λ g. g.content_omitted_count)
unfolding merge_mixed_gap
omitted-IsCount = record { lone = λ g. refl; sums = λ p g. refl }

module _ (z : Encoding) (f : CaptureGap → ℕ) (v : IsCount f) where
  -- `#recordGap` adds to a count what the event's own gap carries.
  record_gap-count :
      (e : CaptureEventInput) (reasons : List OverflowReason) (omitted drops n : ℕ)
      (b : BoundedCaptureBuffer)
      → f (gap_of z e reasons omitted drops) ≡ n
      → ((p : CaptureGap) → f (aggregate p e reasons omitted drops) ≡ f p + n)
      → total f (record_gap z e reasons omitted drops b).gaps ≡ total f b.gaps + n
  record_gap-count e reasons omitted drops n b own again =
      record_gap_cases z (λ c. total f c.gaps ≡ total f b.gaps + n) e reasons omitted drops b
        (λ _. omega (arith, total-append f b.gaps (g ∷ [])))
        (λ _. omega (arith, v.lone g, total-append f b.gaps (merge_mixed_gap none g ∷ [])))
        (λ p h.
          omega (arith, again p, total-set_last f b.gaps (aggregate p e reasons omitted drops) p h))
        (λ p h. omega (arith, v.sums p g, total-set_last f b.gaps (merge_mixed_gap (some p) g) p h))
    where
      g : CaptureGap
      g = gap_of z e reasons omitted drops

  pub restore_gap-count :
      (g : CaptureGap) (b : BoundedCaptureBuffer)
      → total f (restore_gap z g b).gaps ≡ f g + total f b.gaps
  unfolding restore_gap
  restore_gap-count g b = grind (arith, v.sums)

  pub take_gap-count :
      (g : CaptureGap) (b c : BoundedCaptureBuffer)
      → take_gap z b ≡ (some g, c)
      → total f b.gaps ≡ f g + total f c.gaps
  unfolding take_gap
  take_gap-count g b c h = ground arith

abbrev pub lost : CaptureBufferOfferStatus → ℕ
lost dropped = 1
lost _ = 0

module _ (z : Encoding) where
  record_gap-drops :
      (e : CaptureEventInput) (reasons : List OverflowReason) (omitted drops : ℕ)
      (b : BoundedCaptureBuffer)
      → drops_noted (record_gap z e reasons omitted drops b) ≡ drops_noted b + drops
  unfolding gap_of aggregate
  record_gap-drops e reasons omitted drops b =
      record_gap-count z (λ g. g.dropped_event_count) dropped-IsCount e reasons omitted drops drops
        b refl (λ p. refl)

  record_gap-omissions :
      (e : CaptureEventInput) (reasons : List OverflowReason) (omitted drops : ℕ)
      (b : BoundedCaptureBuffer)
      → omissions_noted (record_gap z e reasons omitted drops b) ≡ omissions_noted b + omitted
  unfolding gap_of aggregate
  record_gap-omissions e reasons omitted drops b =
      record_gap-count z (λ g. g.content_omitted_count) omitted-IsCount e reasons omitted drops
        omitted b refl (λ p. refl)

  -- What an offer of a given outcome puts at the end of the queue of events.
  abbrev pub stored : CaptureBufferOfferStatus → CaptureEventInput → List CaptureEventInput
  stored accepted e = e ∷ []
  stored degraded e = metadata_only z e ∷ []
  stored dropped e = []

  abbrev pub content_lost : CaptureBufferOfferStatus → CaptureEventInput → ℕ
  content_lost accepted e = 0
  content_lost degraded e = has_content z e
  content_lost dropped e = has_content z e

  values-push :
      (b : BoundedCaptureBuffer) (e : CaptureEventInput) (size : ℕ)
      → values (push b e size) ≡ values b ++ e ∷ []
  unfolding push
  values-push b e size = map-append _ b.items _

  -- The account that `offer` gives of one event.
  abbrev pub IsAccounted :
      BoundedCaptureBuffer
      → CaptureEventInput
      → CaptureBufferOfferStatus × BoundedCaptureBuffer
      → Type 0
  IsAccounted b e (status, c) =
      (values c ≡ values b ++ stored status e)
      × (drops_noted c ≡ drops_noted b + lost status)
      × (omissions_noted c ≡ omissions_noted b + content_lost status e)

  reduced-IsAccounted :
      (e : CaptureEventInput) (reasons : List OverflowReason) (size : ℕ) (b : BoundedCaptureBuffer)
      → IsAccounted b e
          (degraded, push (record_gap z e reasons (has_content z e) 0 b) (metadata_only z e) size)
  unfolding push
  reduced-IsAccounted e reasons size b = (
    values-push (record_gap z e reasons (has_content z e) 0 b) _ size
        ∙ ap (λ is. map (λ (i : BufferedCaptureEvent). i.value) is ++ metadata_only z e ∷ [])
            (record_gap-items z e reasons _ 0 b).0,
    record_gap-drops e reasons _ 0 b,
    record_gap-omissions e reasons _ 0 b,
  )

  dropped-IsAccounted :
      (e : CaptureEventInput) (reasons : List OverflowReason) (b : BoundedCaptureBuffer)
      → IsAccounted b e (dropped, record_gap z e reasons (has_content z e) 1 b)
  dropped-IsAccounted e reasons b = (
    ap (map (λ (i : BufferedCaptureEvent). i.value)) (record_gap-items z e reasons _ 1 b).0
        ∙ sym (append-nil (values b)),
    record_gap-drops e reasons _ 1 b,
    record_gap-omissions e reasons _ 1 b,
  )

  -- The choice that the second overflow test makes.
  choice-IsAccounted :
      (e : CaptureEventInput) (reasons : List OverflowReason) (size : ℕ) (b : BoundedCaptureBuffer)
      (again : List OverflowReason)
      → IsAccounted b e (elim again [
        | [] ↦
            (degraded, push (record_gap z e reasons (has_content z e) 0 b) (metadata_only z e) size)
        | _ ∷ _ ↦ (dropped, record_gap z e reasons (has_content z e) 1 b)
      ])
  choice-IsAccounted e reasons size b [] = reduced-IsAccounted e reasons size b
  choice-IsAccounted e reasons size b (_ ∷ _) = dropped-IsAccounted e reasons b

  offer_degraded-IsAccounted :
      (e : CaptureEventInput) (reasons : List OverflowReason) (b : BoundedCaptureBuffer)
      → IsAccounted b e (offer_degraded z e reasons b)
  unfolding offer_degraded
  offer_degraded-IsAccounted e reasons b = choice-IsAccounted e _ _ b _

  accepted-IsAccounted :
      (e : CaptureEventInput) (size : ℕ) (b : BoundedCaptureBuffer)
      → IsAccounted b e (accepted, push b e size)
  unfolding push
  accepted-IsAccounted e size b = (values-push b e size, omega arith, omega arith)

  -- An offer appends the event, appends it without its content, or drops it; the gaps' counts of
  -- dropped events and of omitted contents grow by exactly what was lost.
  pub offer-IsAccounted :
      (e : CaptureEventInput) (b : BoundedCaptureBuffer) → IsAccounted b e (offer z e b)
  unfolding offer
  offer-IsAccounted e b = outcome (overflow_reasons b (z.event_bytes e))
    where
      outcome :
          (reasons : List OverflowReason)
          → IsAccounted b e (elim reasons [
            | [] ↦ (accepted, push b e (z.event_bytes e))
            | r ∷ rs ↦ offer_degraded z e (r ∷ rs) b
          ])
      outcome [] = accepted-IsAccounted e (z.event_bytes e) b
      outcome (r ∷ rs) = offer_degraded-IsAccounted e (r ∷ rs) b
