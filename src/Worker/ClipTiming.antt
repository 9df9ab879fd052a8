-- ===== src/Worker/ClipTiming.antt =====
-- worker/src/media/clip-timing.ts: the source samples of a clip. An error of the file is named by
-- what it says; those of packages/media pass through. An absent timing precision is `none`.
pub mod Selection
pub mod Frames
pub mod Contiguous
pub mod KeyPoints
pub mod Selected
pub mod Range
mod Examples
use volleyball_monitoring_ai.Base.{
  ℕ, zero, suc, ◌+◌, Bool, true, false, List, [], ◌∷◌, ◌++◌, Option, none, some, Result, ok, err,
  ◌>>=◌, ◌>>◌, throw_if, ◌||◌, ◌&&◌, not, last_of, length, if◌then◌else◌,
}
use volleyball_monitoring_ai.Base.Text.{Text, text_eq}
use volleyball_monitoring_ai.Base.Int.{ℤ, pos, ◌+ℤ◌, ◌-ℤ◌, ltb_ℤ, leb_ℤ, eqb_ℤ}
use volleyball_monitoring_ai.Base.Maps.{map_get, map_has, map_set}
use volleyball_monitoring_ai.Media.Errors.{MediaError}
use volleyball_monitoring_ai.Media.Rational.{Rational, same_time_base, rescale_pts_to_us}
use volleyball_monitoring_ai.Media.SampleIndex.{IndexedSample, SampleIndex}

pub data ClipError : Type 0 where
  media_error : MediaError → ClipError
  empty_sample_index metadata_mismatch no_source_segments invalid_range : ClipError
  time_base_change crosses_gap not_contiguous capture_time_mismatch : ClipError
  no_complete_sample no_exact_sample missing_output_frame : ClipError

-- A call into packages/media.
abbrev pub from_media : Result MediaError ℤ → Result ClipError ℤ
from_media (err e) = err (media_error e)
from_media (ok value) = ok value

pub record ClipSourceSegment : Type 0 where
  pub id : Text
  pub capture_epoch_id : Text
  pub capture_start_us : ℤ
  pub capture_end_us : ℤ
  pub source_pts_start : Option ℤ
  pub source_pts_end : Option ℤ
  pub first_frame_index : Option ℤ
  pub frame_count : ℤ
  pub index : SampleIndex

pub data TimingPrecision : Type 0 where
  frame_exact pts_exact estimated : TimingPrecision

pub record ClipKeyPointAnchor : Type 0 where
  pub id : Text
  pub capture_epoch_id : Text
  pub source_pts : ℤ
  pub capture_time_us : ℤ
  pub capture_frame_index : ℤ
  pub timing_precision : Option TimingPrecision

pub record SelectedClipSourceSample : Type 0 where
  pub sample : IndexedSample
  pub capture_epoch_id : Text

unfoldable pub sample_end_capture_us : IndexedSample → Rational → Result ClipError ℤ
unfolding rescale_pts_to_us
sample_end_capture_us sample time_base = do
  duration ← from_media (rescale_pts_to_us sample.duration_pts time_base)
  ok (sample.capture_time_us +ℤ duration)

-- `value !== expected`, of a value that may be null.
differs : Option ℤ → ℤ → Bool
differs none expected = true
differs (some value) expected = not (eqb_ℤ value expected)

check_metadata : ClipSourceSegment → List IndexedSample → Result ClipError (Unit {0})
unfolding differs
check_metadata segment [] = err empty_sample_index
check_metadata segment (first ∷ rest) =
    let last = last_of first rest in
    throw_if
      (not (text_eq segment.index.epoch_id segment.capture_epoch_id)
        || not (eqb_ℤ segment.capture_start_us segment.index.available_start_us)
        || not (eqb_ℤ segment.capture_end_us segment.index.available_end_us)
        || differs segment.source_pts_start first.source_pts
        || differs segment.source_pts_end (last.source_pts +ℤ last.duration_pts)
        || differs segment.first_frame_index first.capture_frame_index
        || not (eqb_ℤ segment.frame_count (pos (length (first ∷ rest)))))
      metadata_mismatch

unfoldable pub validate_segment_metadata : ClipSourceSegment → Result ClipError (Unit {0})
unfolding check_metadata
validate_segment_metadata segment = check_metadata segment segment.index.samples

pub record EpochTimingOrigin : Type 0 where
  pub source_pts : ℤ
  pub capture_time_us : ℤ

-- The variables of the loop over the segments.
pub record Scan : Type 0 where
  pub all_samples : List SelectedClipSourceSample
  pub previous : Option SelectedClipSourceSample
  pub previous_end_capture_us : Option ℤ
  pub epoch_timing_origins : List (Text × EpochTimingOrigin)

-- `if (previous) { … }`
pub check_sequence :
    Option SelectedClipSourceSample → Text → IndexedSample → Result ClipError (Unit {0})
check_sequence none epoch_id sample = ok tt
check_sequence (some previous) epoch_id sample =
    throw_if
      (text_eq epoch_id previous.capture_epoch_id
          && not
              (eqb_ℤ sample.source_pts (previous.sample.source_pts +ℤ previous.sample.duration_pts))
        || not (eqb_ℤ sample.capture_frame_index (previous.sample.capture_frame_index +ℤ pos 1)))
      not_contiguous

-- The loop over the samples of one segment.
unfoldable pub scan_samples :
    Rational → Text → EpochTimingOrigin → Scan → List IndexedSample → Result ClipError Scan
unfolding check_sequence rescale_pts_to_us
scan_samples time_base epoch_id origin scan [] = ok scan
scan_samples time_base epoch_id origin scan (sample ∷ samples) = do
  offset ← from_media (rescale_pts_to_us (sample.source_pts -ℤ origin.source_pts) time_base)
  check_sequence scan.previous epoch_id sample
  throw_if (not (eqb_ℤ sample.capture_time_us (origin.capture_time_us +ℤ offset)))
      capture_time_mismatch
  let selected : SelectedClipSourceSample = record { sample = sample; capture_epoch_id = epoch_id }
  scan_samples time_base epoch_id origin
      (record scan { all_samples = scan.all_samples ++ selected ∷ []; previous = some selected })
      samples

check_gap : Option ℤ → ℤ → Result ClipError (Unit {0})
check_gap none start = ok tt
check_gap (some previous_end) start = throw_if (not (eqb_ℤ start previous_end)) crosses_gap

origin_at : IndexedSample → EpochTimingOrigin
origin_at sample = record {
  source_pts = sample.source_pts;
  capture_time_us = sample.capture_time_us;
}

-- The origins with one for the segment's epoch, and the one of the epoch.
origins_with :
    Text
    → IndexedSample
    → List (Text × EpochTimingOrigin)
    → List (Text × EpochTimingOrigin) × EpochTimingOrigin
unfolding origin_at map_get map_set
origins_with epoch_id first origins = elim (map_get epoch_id origins) [
  | some origin ↦ (origins, origin)
  | none ↦ (map_set epoch_id (origin_at first) origins, origin_at first)
]

scan_indexed : Rational → ClipSourceSegment → Scan → List IndexedSample → Result ClipError Scan
unfolding origins_with scan_samples
scan_indexed time_base segment scan [] = err empty_sample_index
scan_indexed time_base segment scan (first ∷ rest) =
    let (origins, origin) = origins_with segment.capture_epoch_id first scan.epoch_timing_origins in
    scan_samples time_base segment.capture_epoch_id origin
      (record scan { epoch_timing_origins = origins }) (first ∷ rest)

-- The body of the loop over the segments.
unfoldable pub scan_segment : Rational → ClipSourceSegment → Scan → Result ClipError Scan
unfolding validate_segment_metadata same_time_base check_gap scan_indexed
scan_segment time_base segment scan = do
  validate_segment_metadata segment
  throw_if (not (same_time_base segment.index.time_base time_base)) time_base_change
  check_gap scan.previous_end_capture_us segment.capture_start_us
  scanned ← scan_indexed time_base segment scan segment.index.samples
  ok (record scanned { previous_end_capture_us = some segment.capture_end_us })

unfoldable pub scan_segments : Rational → Scan → List ClipSourceSegment → Result ClipError Scan
unfolding scan_segment
scan_segments time_base scan [] = ok scan
scan_segments time_base scan (segment ∷ segments) = do
  scanned ← scan_segment time_base segment scan
  scan_segments time_base scanned segments
