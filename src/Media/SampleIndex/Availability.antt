-- ===== src/Media/SampleIndex/Availability.antt =====
-- packages/media/src/sample-index.ts: the available ranges of a sequence of indexed segments.
pub mod Ranges
mod Examples
use volleyball_monitoring_ai.Base.{
  ℕ, ◌≡◌, refl, Bool, true, false, List, [], ◌∷◌, Option, none, some, Result, ok, err, ◌>>=◌, ◌>>◌,
  ◌||◌, ◌&&◌, not, ◌==◌, ◌++◌, any, last_of, if◌then◌else◌,
}
use volleyball_monitoring_ai.Base.Text.{Text, text_eq, is_blank}
use volleyball_monitoring_ai.Base.Int.{ℤ, pos, ◌+ℤ◌, ltb_ℤ, leb_ℤ, eqb_ℤ}
use volleyball_monitoring_ai.Media.Errors.{
  MediaError, sample_index_error, invalid_range, plain_error,
}
use volleyball_monitoring_ai.Media.Rational.{same_time_base}
use volleyball_monitoring_ai.Media.SampleIndex.{IndexedSample, SampleIndex, fail_if, validate_index}

pub record AvailabilityRange : Type 0 where
  pub segment_ids : List Text
  pub start_us : ℤ
  pub end_us : ℤ
  pub discontinuity : ℤ

pub record AvailabilityEntry : Type 0 where
  pub segment_id : Text
  pub index : SampleIndex
  pub discontinuity : ℤ

-- The tests of two samples that meet at a segment boundary, `nextFirst` and `previousLast`.
check_boundary_samples :
    AvailabilityEntry
    → AvailabilityEntry
    → IndexedSample
    → IndexedSample
    → Result MediaError (Unit {0})
check_boundary_samples previous entry previous_last next_first = do
  let same_discontinuity = eqb_ℤ entry.discontinuity previous.discontinuity
  let exact_touch = eqb_ℤ entry.index.available_start_us previous.index.available_end_us
  let same_epoch = text_eq entry.index.epoch_id previous.index.epoch_id
  fail_if (not (eqb_ℤ next_first.capture_frame_index (previous_last.capture_frame_index +ℤ pos 1)))
      invalid_range
  fail_if (same_discontinuity && not exact_touch) invalid_range
  fail_if
      (same_discontinuity
        && same_epoch
        && not (same_time_base entry.index.time_base previous.index.time_base))
      invalid_range
  fail_if
      (same_discontinuity
        && same_epoch
        && not
            (eqb_ℤ next_first.source_pts (previous_last.source_pts +ℤ previous_last.duration_pts)))
      invalid_range
  fail_if (not same_discontinuity && same_epoch) invalid_range

check_boundary :
    AvailabilityEntry
    → AvailabilityEntry
    → List IndexedSample
    → List IndexedSample
    → Result MediaError (Unit {0})
unfolding check_boundary_samples
check_boundary previous entry (p ∷ ps) (n ∷ ns) =
    check_boundary_samples previous entry (last_of p ps) n
check_boundary previous entry _ _ = err plain_error

-- `if (!previous) { … } else { … }`
check_previous : Option AvailabilityEntry → AvailabilityEntry → Result MediaError (Unit {0})
unfolding check_boundary
check_previous none entry = fail_if (not (eqb_ℤ entry.discontinuity (pos 0))) invalid_range
check_previous (some previous) entry = do
  fail_if
      (ltb_ℤ entry.discontinuity previous.discontinuity
        || ltb_ℤ (previous.discontinuity +ℤ pos 1) entry.discontinuity)
      invalid_range
  fail_if (ltb_ℤ entry.index.available_start_us previous.index.available_end_us) invalid_range
  check_boundary previous entry previous.index.samples entry.index.samples

-- All tests of one entry, against the identities and the entry before it.
check_entry :
    List Text → Option AvailabilityEntry → AvailabilityEntry → Result MediaError (Unit {0})
unfolding check_previous
check_entry segment_ids previous entry = do
  fail_if (is_blank entry.segment_id) invalid_range
  fail_if (any (text_eq entry.segment_id) segment_ids) invalid_range
  fail_if (ltb_ℤ entry.discontinuity (pos 0) || ltb_ℤ (pos 2147483647) entry.discontinuity)
      invalid_range
  validate_index entry.index
  check_previous previous entry

-- `entry.discontinuity === previous.discontinuity && …`: the entry carries its range on.
carries_on : AvailabilityEntry → AvailabilityEntry → Bool
carries_on previous entry =
    eqb_ℤ entry.discontinuity previous.discontinuity
    && eqb_ℤ entry.index.available_start_us previous.index.available_end_us

open_range : AvailabilityEntry → AvailabilityRange
open_range entry = record {
  segment_ids = entry.segment_id ∷ [];
  start_us = entry.index.available_start_us;
  end_us = entry.index.available_end_us;
  discontinuity = entry.discontinuity;
}

extend_range : AvailabilityRange → AvailabilityEntry → AvailabilityRange
extend_range range entry = record range {
  end_us = entry.index.available_end_us;
  segment_ids = range.segment_ids ++ entry.segment_id ∷ [];
}

-- The loop from its second round. `current` is the last range, `previous` the last entry and
-- `segment_ids` holds the identities so far; the result starts with the range that `current` becomes.
coalesce :
    List Text
    → AvailabilityEntry
    → AvailabilityRange
    → List AvailabilityEntry
    → Result MediaError (List AvailabilityRange)
coalesce segment_ids previous current [] = ok (current ∷ [])
coalesce segment_ids previous current (entry ∷ entries) = do
  check_entry segment_ids (some previous) entry
  let extended =
      coalesce (entry.segment_id ∷ segment_ids) entry (extend_range current entry) entries
  let opened = do
    ranges ← coalesce (entry.segment_id ∷ segment_ids) entry (open_range entry) entries
    ok (current ∷ ranges)
  if carries_on previous entry then extended else opened

pub build_availability_ranges : List AvailabilityEntry → Result MediaError (List AvailabilityRange)
unfolding coalesce check_entry open_range
build_availability_ranges [] = ok []
build_availability_ranges (entry ∷ entries) = do
  check_entry [] none entry
  coalesce (entry.segment_id ∷ []) entry (open_range entry) entries
