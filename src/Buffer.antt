-- ===== src/Buffer.antt =====
-- packages/copilot-adapter/src/capture-buffer.ts: the bounded buffer between the event callbacks
-- and the durable queue. `#gapBytes` is `gap_total`. A count that the source decreases stays exact
-- in the natural numbers by the invariant of Buffer/Limits.antt.
pub mod Quality
pub mod Data
pub mod Gap
pub mod Limits
pub mod Accounting
pub mod Gaps
pub mod View
pub mod Tests
use proven_loop.Shared.{
  ℕ, ◌+◌, ◌-◌, ◌≡◌, ◌↔◌, Bool, true, false, ◌&&◌, ◌||◌, List, [], ◌∷◌, ◌++◌, Option, none, some,
  String, Eq, ◌==◌, String_eq, Option_eq, leb, ltb, if◌then◌else◌, length, get_last?, set_last,
  unique, arith,
}
use proven_loop.Shared.Result.{Result, ok, err, ◌>>=◌}
use proven_loop.Buffer.Quality.{CaptureQuality, new_capture_quality, bounded_capture_quality}
use proven_loop.Buffer.Data.{
  OverflowReason, buffer_byte_limit, buffer_item_limit, OverflowReason_eq, CaptureGap,
  CaptureEventInput, Content, gap_report, Encoding, BoundedCaptureBufferOptions,
  BufferedCaptureEvent, BoundedCaptureBuffer, CaptureBufferOfferStatus, accepted, degraded, dropped,
}
use proven_loop.Buffer.Gap.{same_capture_context, merge_mixed_gap, gap_of, aggregate}

-- The option that `InvalidCaptureBufferConfigurationError` names.
pub data BufferOption : Type 0 where
  max_gap_bytes max_gap_contexts max_bytes max_items : BufferOption

positive_integer : ℕ → BufferOption → Result BufferOption ℕ
positive_integer value option = if leb value 0 then err option else ok value

minimum_integer : ℕ → ℕ → BufferOption → Result BufferOption ℕ
minimum_integer value minimum option = if ltb value minimum then err option else ok value

pub construct : BoundedCaptureBufferOptions → Result BufferOption BoundedCaptureBuffer
unfolding positive_integer minimum_integer
construct o = do
  gap_bytes ← minimum_integer o.max_gap_bytes 4096 max_gap_bytes
  gap_contexts ← positive_integer o.max_gap_contexts max_gap_contexts
  byte_limit ← positive_integer o.max_bytes max_bytes
  item_limit ← positive_integer o.max_items max_items
  ok (record {
    options = record {
      max_gap_bytes = gap_bytes;
      max_gap_contexts = gap_contexts;
      max_bytes = byte_limit;
      max_items = item_limit;
    };
    bytes = 0;
    gap_total = 0;
    gaps = [];
    items = [];
  })

abbrev quality_or_new : Option CaptureQuality → CaptureQuality
quality_or_new none = new_capture_quality
quality_or_new (some q) = q

abbrev with_content_omitted : CaptureQuality → CaptureQuality
with_content_omitted q = record q { omitted_fields = unique ("content" ∷ q.omitted_fields) }

unfoldable pub has_work : BoundedCaptureBuffer → Bool
has_work b = ltb 0 (length b.items) || ltb 0 (length b.gaps)

abbrev pub byte_count : BoundedCaptureBuffer → ℕ
byte_count b = b.bytes + b.gap_total

abbrev pub first_item : List BufferedCaptureEvent → Option CaptureEventInput
first_item [] = none
first_item (i ∷ r) = some i.value

unfoldable pub peek : BoundedCaptureBuffer → Option CaptureEventInput
peek b = first_item b.items

unfoldable pub shift : BoundedCaptureBuffer → Option CaptureEventInput × BoundedCaptureBuffer
shift b = elim b.items [
  | [] ↦ (none, b)
  | i ∷ rest ↦ (some i.value, record b { items = rest; bytes = b.bytes - i.bytes })
]

unfoldable pub overflow_reasons : BoundedCaptureBuffer → ℕ → List OverflowReason
overflow_reasons b next =
    (if leb b.max_items (length b.items) then buffer_item_limit ∷ [] else [])
    ++ (if ltb b.max_bytes (b.bytes + next) then buffer_byte_limit ∷ [] else [])

unfoldable pub push : BoundedCaptureBuffer → CaptureEventInput → ℕ → BoundedCaptureBuffer
push b value size = record b {
  items = b.items ++ record { bytes = size; value = value } ∷ [];
  bytes = b.bytes + size;
}

module _ (z : Encoding) where
  unfoldable pub metadata_only : CaptureEventInput → CaptureEventInput
  metadata_only e = elim e.content [
    | none ↦ e
    | some c ↦ record e {
      content = none;
      content_digest = some (z.content_digest c);
      capture_quality =
          some (bounded_capture_quality (with_content_omitted (quality_or_new e.capture_quality)));
    }
  ]

  unfoldable pub take_gap : BoundedCaptureBuffer → Option CaptureGap × BoundedCaptureBuffer
  take_gap b = elim b.gaps [
    | [] ↦ (none, b)
    | g ∷ rest ↦ (some g, record b { gaps = rest; gap_total = b.gap_total - z.gap_bytes g })
  ]

  -- The test that both `restoreGap` and `#recordGap` make.
  abbrev pub has_gap_room : BoundedCaptureBuffer → CaptureGap → Bool
  has_gap_room b g =
      ltb (length b.gaps) b.max_gap_contexts && leb (b.gap_total + z.gap_bytes g) b.max_gap_bytes

  pub restore_gap : CaptureGap → BoundedCaptureBuffer → BoundedCaptureBuffer
  restore_gap g b =
      if has_gap_room b g
      then record b { gaps = g ∷ b.gaps; gap_total = b.gap_total + z.gap_bytes g }
      else elim b.gaps [
        | [] ↦ record b { gaps = g ∷ []; gap_total = z.gap_bytes g }
        | current ∷ rest ↦
            let mixed = merge_mixed_gap (some g) current in
            record b {
              gaps = mixed ∷ rest;
              gap_total = b.gap_total - z.gap_bytes current + z.gap_bytes mixed;
            }
      ]

  -- `gaps.push(gap)` within the limits.
  abbrev pub append_gap : BoundedCaptureBuffer → CaptureGap → BoundedCaptureBuffer
  append_gap b g = record b { gaps = b.gaps ++ g ∷ []; gap_total = b.gap_total + z.gap_bytes g }

  -- `gaps.push(gap)` on no gaps, over the limits.
  abbrev pub alone : BoundedCaptureBuffer → CaptureGap → BoundedCaptureBuffer
  alone b g = record b { gaps = b.gaps ++ g ∷ []; gap_total = z.gap_bytes g }

  -- `gaps[gaps.length - 1] = next`, the bytes of `previous` taken back.
  abbrev pub replace_last : BoundedCaptureBuffer → CaptureGap → CaptureGap → BoundedCaptureBuffer
  replace_last b previous next = record b {
    gaps = set_last b.gaps next;
    gap_total = b.gap_total - z.gap_bytes previous + z.gap_bytes next;
  }

  unfoldable pub record_gap :
      CaptureEventInput → List OverflowReason → ℕ → ℕ → BoundedCaptureBuffer → BoundedCaptureBuffer
  record_gap e reasons omitted drops b =
      let g = gap_of z e reasons omitted drops in
      elim (get_last? b.gaps) [
        | none ↦ if has_gap_room b g then append_gap b g else alone b (merge_mixed_gap none g)
        | some p ↦
            if same_capture_context p g
            then replace_last b p (aggregate p e reasons omitted drops)
            else if has_gap_room b g
            then append_gap b g
            else replace_last b p (merge_mixed_gap (some p) g)
      ]

  abbrev pub has_content : CaptureEventInput → ℕ
  has_content e = elim e.content [ none ↦ 0 | some _ ↦ 1 ]

  -- The part of `offer` behind the first overflow test.
  unfoldable pub offer_degraded :
      CaptureEventInput
      → List OverflowReason
      → BoundedCaptureBuffer
      → CaptureBufferOfferStatus × BoundedCaptureBuffer
  offer_degraded e reasons b =
      let reduced = metadata_only e in
      let size = z.event_bytes reduced in
      let again = overflow_reasons b size in
      let noted = λ (drops : ℕ). record_gap e (unique (reasons ++ again)) (has_content e) drops b in
      elim again [ [] ↦ (degraded, push (noted 0) reduced size) | _ ∷ _ ↦ (dropped, noted 1) ]

  unfoldable pub offer :
      CaptureEventInput → BoundedCaptureBuffer → CaptureBufferOfferStatus × BoundedCaptureBuffer
  unfolding offer_degraded
  offer e b = elim (overflow_reasons b (z.event_bytes e)) [
    | [] ↦ (accepted, push b e (z.event_bytes e))
    | r ∷ rs ↦ offer_degraded e (r ∷ rs) b
  ]

-- The calls that a client makes of a buffer.
pub data BufferCall : Type 0 where
  offers : CaptureEventInput → BufferCall
  shifts takes_gap : BufferCall
  restores_gap : CaptureGap → BufferCall

pub call : Encoding → BufferCall → BoundedCaptureBuffer → BoundedCaptureBuffer
call z (offers e) b = (offer z e b).1
call z shifts b = (shift b).1
call z takes_gap b = (take_gap z b).1
call z (restores_gap g) b = restore_gap z g b

pub call_all : Encoding → List BufferCall → BoundedCaptureBuffer → BoundedCaptureBuffer
call_all z [] b = b
call_all z (c ∷ cs) b = call_all z cs (call z c b)
