-- ===== src/Buffer/View.antt =====
-- The buffer as its client sees it: a queue of events, and the counts of its gaps.
use proven_loop.Shared.{
  ltb, ◌+◌, ◌-◌, ◌≡◌, refl, false, List, [], ◌∷◌, Option, none, some, map, length, arith,
}
use proven_loop.Buffer.Data.{
  CaptureGap, CaptureEventInput, Encoding, BoundedCaptureBuffer, BufferedCaptureEvent,
}
use proven_loop.Buffer.Accounting.{drops_noted, values}
use proven_loop.Buffer.{first_item, has_work, peek, shift, take_gap}

abbrev PeeksAt : List CaptureEventInput → Option CaptureEventInput → Type 0
PeeksAt es none = es ≡ []
PeeksAt es (some e) = (r : List CaptureEventInput) × (es ≡ e ∷ r)

abbrev pub Peeks : BoundedCaptureBuffer → Option CaptureEventInput → Type 0
Peeks b = PeeksAt (values b)

first-PeeksAt : (is : List BufferedCaptureEvent) → PeeksAt (map (λ i. i.value) is) (first_item is)
first-PeeksAt [] = refl
first-PeeksAt (i ∷ is) = (map (λ i. i.value) is, refl)

pub peek-Peeks : (b : BoundedCaptureBuffer) → Peeks b (peek b)
unfolding peek
peek-Peeks b = first-PeeksAt b.items

pub shift-values :
    (e : CaptureEventInput) (r : List CaptureEventInput) (b : BoundedCaptureBuffer)
    → values b ≡ e ∷ r
    → (values (shift b).1 ≡ r)
      × (drops_noted (shift b).1 ≡ drops_noted b)
      × ((shift b).1.gaps ≡ b.gaps)
unfolding shift
shift-values e r b h = ground arith

-- Taking a gap takes its drops, and leaves the events.
abbrev pub Takes : BoundedCaptureBuffer → Option CaptureGap × BoundedCaptureBuffer → Type 0
Takes b (none, c) = (c ≡ b) × (b.gaps ≡ [])
Takes b (some g, c) =
    (values c ≡ values b)
    × (drops_noted b ≡ g.dropped_event_count + drops_noted c)
    × (length b.gaps ≡ length c.gaps + 1)

pub take_gap-Takes : (z : Encoding) (b : BoundedCaptureBuffer) → Takes b (take_gap z b)
unfolding take_gap
take_gap-Takes z b = cases b.gaps refl
  where
    cases :
        (gs : List CaptureGap)
        → b.gaps ≡ gs
        → Takes b (elim gs [
          | [] ↦ (none, b)
          | g ∷ rest ↦ (some g, record b { gaps = rest; gap_total = b.gap_total - z.gap_bytes g })
        ])
    cases [] h = (refl, h)
    cases (g ∷ rest) h = (refl, ground arith, ground arith)

nil_of_length {ℓ} : {A : Type ℓ} (xs : List A) → ltb 0 (length xs) ≡ false → xs ≡ []
nil_of_length [] h = refl
nil_of_length (x ∷ xs) h = absurd (ground arith)

pub has_work-false :
    (b : BoundedCaptureBuffer) → has_work b ≡ false → (values b ≡ []) × (b.gaps ≡ [])
unfolding has_work
has_work-false b h = ground (arith, nil_of_length b.items, nil_of_length b.gaps)
