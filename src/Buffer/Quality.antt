-- ===== src/Buffer/Quality.antt =====
-- `CaptureQuality` (packages/contracts/src/capture-metadata.ts) and its bound, in
-- packages/copilot-adapter/src/capture-evidence.ts.
use Prim.Native.Nat.{max}
use proven_loop.Shared.{
  ℕ, ◌+◌, ◌≤◌, ◌≡◌, Bool, true, false, not, ◌&&◌, List, [], ◌∷◌, ◌++◌, Option, none, some, String,
  String_eq, ltb, leb, if◌then◌else◌, length, take, length-take-le, contains, bit, arith,
}
use proven_loop.Shared.Assoc.{lookup, insert, length-insert-le}

pub record CaptureQuality : Type 0 where
  pub truncated_fields : List String
  pub omitted_fields : List String
  pub original_lengths : List (String × ℕ)

pub new_capture_quality : CaptureQuality
new_capture_quality = record { truncated_fields = []; omitted_fields = []; original_lengths = [] }

abbrev pub lengths_marker : String
lengths_marker = "captureQuality.originalLengths"

abbrev pub truncated_marker : String
truncated_marker = "captureQuality.truncatedFields"

abbrev pub omitted_marker : String
omitted_marker = "captureQuality.omittedFields"

abbrev or_zero : Option ℕ → ℕ
or_zero none = 0
or_zero (some n) = n

-- `originalLengths[marker] = Math.max(count, quality.originalLengths[marker] ?? 0)`
note_length : CaptureQuality → String → ℕ → List (String × ℕ) → List (String × ℕ)
note_length q marker count lengths =
    insert marker (max count (or_zero (lookup marker q.original_lengths))) lengths

-- The markers pushed so far, with the lengths.
record Noted : Type 0 where
  markers : List String
  lengths : List (String × ℕ)

-- One `if (test) { markers.push(marker); originalLengths[marker] = … }`.
abbrev note : CaptureQuality → Bool → String → ℕ → Noted → Noted
note q test marker count n =
    if test
    then record {
      markers = n.markers ++ marker ∷ [];
      lengths = note_length q marker count n.lengths;
    }
    else n

abbrev fits : CaptureQuality → Bool
fits q =
    leb (length q.truncated_fields) 256
    && leb (length q.omitted_fields) 256
    && leb (length q.original_lengths) 256

-- The four tests, in order. The truncated-field markers stand in `lengths_noted`,
-- `truncated_noted` and `overflow_noted`, the omitted-field markers in `omitted_noted`.
lengths_noted : CaptureQuality → Noted
lengths_noted q =
    note q (ltb 253 (length q.original_lengths)) lengths_marker (length q.original_lengths)
      (record { markers = []; lengths = take 253 q.original_lengths })

truncated_noted : CaptureQuality → Noted
truncated_noted q =
    note q (ltb 256 (length q.truncated_fields)) truncated_marker (length q.truncated_fields)
      (lengths_noted q)

omitted_noted : CaptureQuality → Noted
omitted_noted q =
    note q (ltb 256 (length q.omitted_fields)) omitted_marker (length q.omitted_fields)
      (record { markers = []; lengths = (truncated_noted q).lengths })

overflow_noted : CaptureQuality → Noted
overflow_noted q =
    note q
      (ltb 256 (length q.truncated_fields + length (truncated_noted q).markers)
        && not (contains truncated_marker (truncated_noted q).markers))
      truncated_marker (length q.truncated_fields)
      (record { markers = (truncated_noted q).markers; lengths = (omitted_noted q).lengths })

trimmed : CaptureQuality → CaptureQuality
trimmed q = record {
  truncated_fields = take 256 ((overflow_noted q).markers ++ q.truncated_fields);
  omitted_fields = take 256 ((omitted_noted q).markers ++ q.omitted_fields);
  original_lengths = (overflow_noted q).lengths;
}

pub bounded_capture_quality : CaptureQuality → CaptureQuality
bounded_capture_quality q = if fits q then q else trimmed q

-- The limits of `captureQualitySchema`.
pub record IsBounded (q : CaptureQuality) : Type 0 where
  pub truncated_bound : length q.truncated_fields ≤ 256
  pub omitted_bound : length q.omitted_fields ≤ 256
  pub lengths_bound : length q.original_lengths ≤ 256

length-note_length-le :
    (q : CaptureQuality) (marker : String) (count : ℕ) (lengths : List (String × ℕ))
    → length (note_length q marker count lengths) ≤ length lengths + 1
unfolding note_length
length-note_length-le q marker count lengths = length-insert-le marker _ lengths

-- A note takes at most one entry, and only where its test holds.
lengths-note-le :
    (q : CaptureQuality) (test : Bool) (marker : String) (count : ℕ) (n : Noted)
    → length (note q test marker count n).lengths ≤ length n.lengths + bit test
lengths-note-le q true marker count n = length-note_length-le q marker count n.lengths
lengths-note-le q false marker count n = omega arith

-- The truncated-field marker is pushed by one of its two tests at most.
marker_once :
    (q : CaptureQuality)
    → bit (ltb 256 (length q.truncated_fields))
        + bit (
            ltb 256 (length q.truncated_fields + length (truncated_noted q).markers)
            && not (contains truncated_marker (truncated_noted q).markers))
      ≤ 1
unfolding truncated_noted lengths_noted
marker_once q = ground arith

bit-le : (b : Bool) → bit b ≤ 1
bit-le b = ground arith

lengths_noted-le : (q : CaptureQuality) → length (lengths_noted q).lengths ≤ 254
unfolding lengths_noted
lengths_noted-le q = omega (
  arith,
  length-take-le 253 q.original_lengths,
  lengths-note-le q _ lengths_marker (length q.original_lengths)
      (record { markers = []; lengths = take 253 q.original_lengths }),
  bit-le (ltb 253 (length q.original_lengths)),
)

overflow_noted-le : (q : CaptureQuality) → length (overflow_noted q).lengths ≤ 256
unfolding overflow_noted truncated_noted omitted_noted
overflow_noted-le q = omega (
  arith,
  lengths_noted-le q,
  marker_once q,
  bit-le (ltb 256 (length q.omitted_fields)),
  lengths-note-le q _ truncated_marker (length q.truncated_fields) (lengths_noted q),
  lengths-note-le q _ omitted_marker (length q.omitted_fields)
      (record { markers = []; lengths = (truncated_noted q).lengths }),
  lengths-note-le q _ truncated_marker (length q.truncated_fields)
      (record { markers = (truncated_noted q).markers; lengths = (omitted_noted q).lengths }),
)

trimmed-IsBounded : (q : CaptureQuality) → IsBounded (trimmed q)
unfolding trimmed
trimmed-IsBounded q = record {
  truncated_bound = length-take-le 256 _;
  omitted_bound = length-take-le 256 _;
  lengths_bound = overflow_noted-le q;
}

-- The result is within the limits that the schema puts on the three collections.
pub bounded_capture_quality-IsBounded : (q : CaptureQuality) → IsBounded (bounded_capture_quality q)
unfolding bounded_capture_quality
bounded_capture_quality-IsBounded q = ground (arith, trimmed-IsBounded q)

-- A value within the limits is not changed.
pub bounded_of_IsBounded : (q : CaptureQuality) → IsBounded q → bounded_capture_quality q ≡ q
unfolding bounded_capture_quality
bounded_of_IsBounded q h = ground arith
