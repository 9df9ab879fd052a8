-- ===== src/Media/Planner.antt =====
-- packages/media/src/epoch-planner.ts: the types that both planners share, the validation of one
-- finalized segment, and the helpers. The planners are child modules.
pub mod Bounds
pub mod Samples
pub mod Incremental
pub mod Batch
pub mod BatchPlan
use volleyball_monitoring_ai.Base.{
  ℕ, ◌≡◌, refl, Bool, true, false, List, [], ◌∷◌, ◌++◌, Option, none, some, Result, ok, err, ◌>>=◌,
  ◌>>◌, throw_if, ◌||◌, ◌&&◌, not, ◌==◌, any, last_of, if◌then◌else◌,
}
use volleyball_monitoring_ai.Base.Text.{Text, text_eq, is_blank, has_nul}
use volleyball_monitoring_ai.Base.Int.{ℤ, pos, neg_ℤ, ◌+ℤ◌, ◌-ℤ◌, ltb_ℤ, leb_ℤ, eqb_ℤ}
use volleyball_monitoring_ai.Media.Errors.{
  MediaError, CaptureEpochPlannerErrorCode, planner_error, plain_error, invalid_segment,
  gap_conflict, int32_exhausted,
}
use volleyball_monitoring_ai.Media.Rational.{
  Rational, is_bad_time_base, same_time_base, rescale_pts_to_us,
}
use volleyball_monitoring_ai.Media.SampleIndex.{IndexedSample, SampleIndex}

pub record SourceSampleTiming : Type 0 where
  pub source_pts : ℤ
  pub duration_pts : ℤ
  pub keyframe : Bool

pub record FinalizedIndexedSegment : Type 0 where
  pub segment_identity : Text
  pub source_identity : Text
  pub source_order : ℤ
  pub time_base : Rational
  pub samples : List SourceSampleTiming
  pub source_start_time_us : Option ℤ
  pub source_restart : Option Bool
  pub timestamp_discontinuity : Option Bool
  pub explicit_gap_before_us : Option ℤ

pub record CaptureEpochPlannerConfig : Type 0 where
  pub canonical_session_origin_us : ℤ
  pub canonical_frame_origin : ℤ
  pub timestamp_tolerance_us : ℤ

pub data DiscontinuityReason : Type 0 where
  session_start pts_reset timestamp_discontinuity source_restart : DiscontinuityReason
  source_identity_change time_base_change explicit_gap : DiscontinuityReason

abbrev pub reason_code : DiscontinuityReason → ℕ
reason_code session_start = 0
reason_code pts_reset = 1
reason_code timestamp_discontinuity = 2
reason_code source_restart = 3
reason_code source_identity_change = 4
reason_code time_base_change = 5
reason_code explicit_gap = 6

abbrev pub same_reason : DiscontinuityReason → DiscontinuityReason → Bool
same_reason a b = reason_code a == reason_code b

pub record PlannedCaptureEpoch : Type 0 where
  pub epoch_key : Text
  pub epoch_sequence : ℤ
  pub discontinuity : ℤ
  pub source_identity : Text
  pub time_base : Rational
  pub source_pts_origin : ℤ
  pub capture_time_origin_us : ℤ
  pub capture_frame_origin : ℤ
  pub reasons : List DiscontinuityReason

pub record SegmentBounds : Type 0 where
  pub first_pts : ℤ
  pub last_pts : ℤ
  pub end_pts_exclusive : ℤ
  pub duration_us : ℤ

-- `throw new CaptureEpochPlannerError(code, …)`, if the test holds.
abbrev pub fail_if : Bool → CaptureEpochPlannerErrorCode → Result MediaError (Unit {0})
fail_if test code = throw_if test (planner_error code)

unfoldable pub absolute : ℤ → ℤ
absolute value = if ltb_ℤ value (pos 0) then neg_ℤ value else value

is_empty : Text → Bool
is_empty [] = true
is_empty (_ ∷ _) = false

validate_identity : Text → Result MediaError (Unit {0})
unfolding is_empty has_nul
validate_identity value = fail_if (is_empty value || has_nul value) invalid_segment

-- `value !== undefined && value <= 0n`
is_nonpositive : Option ℤ → Bool
is_nonpositive none = false
is_nonpositive (some value) = leb_ℤ value (pos 0)

-- `previousEndPts` and `previousCaptureOffsetUs`, which are set together.
pub record Scanned : Type 0 where
  pub end_pts : ℤ
  pub capture_offset_us : ℤ

check_contiguous : Option Scanned → ℤ → Result MediaError (Unit {0})
check_contiguous none source_pts = ok tt
check_contiguous (some previous) source_pts =
    fail_if (not (eqb_ℤ source_pts previous.end_pts)) invalid_segment

check_later : Option Scanned → ℤ → Result MediaError (Unit {0})
check_later none capture_offset_us = ok tt
check_later (some previous) capture_offset_us =
    fail_if (leb_ℤ capture_offset_us previous.capture_offset_us) invalid_segment

-- The loop of `segmentBounds`, which leaves `previousEndPts`.
scan_samples : Rational → ℤ → Option Scanned → List SourceSampleTiming → Result MediaError ℤ
scan_samples time_base first_pts none [] = err plain_error
scan_samples time_base first_pts (some previous) [] = ok previous.end_pts
scan_samples time_base first_pts previous (sample ∷ samples) = do
  fail_if (leb_ℤ sample.duration_pts (pos 0)) invalid_segment
  check_contiguous previous sample.source_pts
  capture_offset_us ← rescale_pts_to_us (sample.source_pts -ℤ first_pts) time_base
  check_later previous capture_offset_us
  scan_samples time_base first_pts
      (some (record {
        end_pts = sample.source_pts +ℤ sample.duration_pts;
        capture_offset_us = capture_offset_us;
      }))
      samples

-- `segmentBounds` from the test of the samples on.
sample_bounds : FinalizedIndexedSegment → List SourceSampleTiming → Result MediaError SegmentBounds
sample_bounds segment [] = err (planner_error invalid_segment)
sample_bounds segment (first ∷ rest) = do
  fail_if (is_nonpositive segment.explicit_gap_before_us) invalid_segment
  end_pts_exclusive ← scan_samples segment.time_base first.source_pts none (first ∷ rest)
  duration_us ← rescale_pts_to_us (end_pts_exclusive -ℤ first.source_pts) segment.time_base
  fail_if (leb_ℤ duration_us (pos 0)) invalid_segment
  ok (record {
    first_pts = first.source_pts;
    last_pts = (last_of first rest).source_pts;
    end_pts_exclusive = end_pts_exclusive;
    duration_us = duration_us;
  })

unfoldable pub segment_bounds : FinalizedIndexedSegment → Result MediaError SegmentBounds
unfolding validate_identity sample_bounds is_nonpositive scan_samples check_contiguous check_later
    rescale_pts_to_us
segment_bounds segment = do
  validate_identity segment.segment_identity
  validate_identity segment.source_identity
  fail_if (ltb_ℤ segment.source_order (pos 0)) invalid_segment
  fail_if (is_bad_time_base segment.time_base) invalid_segment
  sample_bounds segment segment.samples

unfoldable pub add_reason :
    List DiscontinuityReason → DiscontinuityReason → List DiscontinuityReason
add_reason reasons reason =
    if any (same_reason reason) reasons then reasons else reasons ++ reason ∷ []

-- `if (test) addReason(reasons, reason)`
abbrev pub add_reason_if :
    Bool → List DiscontinuityReason → DiscontinuityReason → List DiscontinuityReason
add_reason_if test reasons reason = if test then add_reason reasons reason else reasons

-- The loop of `reconcileGapCandidates`.
check_candidates : ℤ → ℤ → List ℤ → Result MediaError (Unit {0})
unfolding absolute
check_candidates authoritative tolerance_us [] = ok tt
check_candidates authoritative tolerance_us (candidate ∷ candidates) = do
  fail_if (ltb_ℤ tolerance_us (absolute (candidate -ℤ authoritative))) gap_conflict
  check_candidates authoritative tolerance_us candidates

unfoldable pub reconcile_gap_candidates : List ℤ → ℤ → Result MediaError ℤ
unfolding check_candidates
reconcile_gap_candidates [] tolerance_us = ok (pos 0)
reconcile_gap_candidates (authoritative ∷ candidates) tolerance_us = do
  check_candidates authoritative tolerance_us candidates
  ok authoritative

-- The samples of the planned index, with frame indices from `frame_index` on.
build_samples :
    PlannedCaptureEpoch → ℤ → List SourceSampleTiming → Result MediaError (List IndexedSample)
build_samples epoch frame_index [] = ok []
build_samples epoch frame_index (sample ∷ samples) = do
  offset ← rescale_pts_to_us (sample.source_pts -ℤ epoch.source_pts_origin) epoch.time_base
  rest ← build_samples epoch (frame_index +ℤ pos 1) samples
  ok (
      record {
        source_pts = sample.source_pts;
        duration_pts = sample.duration_pts;
        capture_time_us = epoch.capture_time_origin_us +ℤ offset;
        capture_frame_index = frame_index;
        keyframe = sample.keyframe;
      }
      ∷ rest)

-- `samples[0]!.captureTimeUs`
first_time : List IndexedSample → Result MediaError ℤ
first_time [] = err plain_error
first_time (first ∷ rest) = ok first.capture_time_us

unfoldable pub build_sample_index :
    FinalizedIndexedSegment
    → SegmentBounds
    → PlannedCaptureEpoch
    → ℤ
    → Result MediaError SampleIndex
unfolding build_samples first_time rescale_pts_to_us
build_sample_index segment bounds epoch frame_origin = do
  samples ← build_samples epoch frame_origin segment.samples
  end_offset ←
      rescale_pts_to_us (bounds.end_pts_exclusive -ℤ epoch.source_pts_origin) epoch.time_base
  available_start_us ← first_time samples
  ok (record {
    epoch_id = epoch.epoch_key;
    time_base = epoch.time_base;
    samples = samples;
    available_start_us = available_start_us;
    available_end_us = epoch.capture_time_origin_us +ℤ end_offset;
  })

-- `samples.at(-1)!.captureFrameIndex + 1n`
unfoldable pub next_frame_index : List IndexedSample → Result MediaError ℤ
next_frame_index [] = err plain_error
next_frame_index (first ∷ rest) = ok ((last_of first rest).capture_frame_index +ℤ pos 1)

abbrev pub int32_max : ℤ
int32_max = pos 2147483647

unfoldable pub next_int32_sequence : ℤ → Result MediaError ℤ
next_int32_sequence current = do
  fail_if (eqb_ℤ current int32_max) int32_exhausted
  ok (current +ℤ pos 1)

unfoldable pub opens_playback_discontinuity : List DiscontinuityReason → ℤ → Bool
opens_playback_discontinuity reasons gap_us =
    ltb_ℤ (pos 0) gap_us || any (λ reason. not (same_reason reason pts_reset)) reasons
