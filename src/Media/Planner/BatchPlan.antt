-- ===== src/Media/Planner/BatchPlan.antt =====
-- packages/media/src/epoch-planner.ts: the loop of planCaptureEpochs over the unique segments.
pub mod Choice
pub mod Frames
pub mod Replayed
mod Examples
use volleyball_monitoring_ai.Base.{
  Bool, true, false, List, [], ◌∷◌, ◌++◌, Option, none, some, Result, ok, err, ◌>>=◌, ◌>>◌, ◌||◌,
  ◌&&◌, not, last_of, if◌then◌else◌,
}
use volleyball_monitoring_ai.Base.Text.{Text, codes, text_eq}
use volleyball_monitoring_ai.Base.Int.{ℤ, pos, ◌+ℤ◌, ◌-ℤ◌, ltb_ℤ, leb_ℤ, eqb_ℤ}
use volleyball_monitoring_ai.Base.Decimal.{to_decimal}
use volleyball_monitoring_ai.Media.Errors.{
  MediaError, planner_error, plain_error, invalid_config, invalid_segment, order_conflict,
}
use volleyball_monitoring_ai.Media.Rational.{same_time_base, rescale_pts_to_us}
use volleyball_monitoring_ai.Media.SampleIndex.{IndexedSample, SampleIndex}
use volleyball_monitoring_ai.Media.Planner.{
  FinalizedIndexedSegment, CaptureEpochPlannerConfig, DiscontinuityReason, session_start, pts_reset,
  timestamp_discontinuity, source_restart, source_identity_change, time_base_change, explicit_gap,
  PlannedCaptureEpoch, SegmentBounds, fail_if, absolute, add_reason, add_reason_if,
  reconcile_gap_candidates, build_sample_index, next_frame_index, next_int32_sequence,
  opens_playback_discontinuity,
}
use volleyball_monitoring_ai.Media.Planner.Batch.{
  PlannedCaptureSegment, CaptureGapRange, PlannedAvailabilityRange, CaptureEpochPlan, Entry,
  collect_unique,
}
use volleyball_monitoring_ai.Media.Planner.BatchPlan.Choice.{Latest, choose_epoch, epoch_key}

-- `samples[0]!`
first_sample : List IndexedSample → Result MediaError IndexedSample
first_sample [] = err plain_error
first_sample (first ∷ rest) = ok first

-- `samples.at(-1)!`
last_sample : List IndexedSample → Result MediaError IndexedSample
last_sample [] = err plain_error
last_sample (first ∷ rest) = ok (last_of first rest)

-- The first sample against the segment before, if there is one.
check_monotonic : Option Latest → IndexedSample → Result MediaError (Unit {0})
unfolding last_sample
check_monotonic none first = ok tt
check_monotonic (some latest) first = do
  fail_if (ltb_ℤ first.capture_time_us latest.plan.capture_end_us) order_conflict
  last ← last_sample latest.plan.sample_index.samples
  fail_if (leb_ℤ first.capture_frame_index last.capture_frame_index) order_conflict

planned_segment : Entry → PlannedCaptureEpoch → SampleIndex → PlannedCaptureSegment
planned_segment entry epoch sample_index = record {
  segment_identity = entry.segment.segment_identity;
  source_identity = entry.segment.source_identity;
  source_order = entry.segment.source_order;
  epoch_key = epoch.epoch_key;
  epoch_sequence = epoch.epoch_sequence;
  discontinuity = epoch.discontinuity;
  source_start_pts = entry.bounds.first_pts;
  source_end_pts_exclusive = entry.bounds.end_pts_exclusive;
  capture_start_us = sample_index.available_start_us;
  capture_end_us = sample_index.available_end_us;
  sample_index = sample_index;
}

open_range : PlannedCaptureSegment → PlannedAvailabilityRange
open_range planned = record {
  start_us = planned.capture_start_us;
  end_us = planned.capture_end_us;
  discontinuity = planned.discontinuity;
  segment_identities = planned.segment_identity ∷ [];
}

carries_on : PlannedAvailabilityRange → PlannedCaptureSegment → Bool
carries_on range planned =
    eqb_ℤ range.discontinuity planned.discontinuity && eqb_ℤ range.end_us planned.capture_start_us

extend_range : PlannedAvailabilityRange → PlannedCaptureSegment → PlannedAvailabilityRange
extend_range range planned = record range {
  end_us = planned.capture_end_us;
  segment_identities = range.segment_identities ++ planned.segment_identity ∷ [];
}

-- The last range behind the segment, and the ranges that are complete then.
next_range :
    Option Latest → PlannedCaptureSegment → PlannedAvailabilityRange × List PlannedAvailabilityRange
unfolding open_range carries_on extend_range
next_range none planned = (open_range planned, [])
next_range (some latest) planned =
    if carries_on latest.range planned
    then (extend_range latest.range planned, [])
    else (open_range planned, latest.range ∷ [])

-- What the rounds from one on push, and the frame index that they end with.
pub record Pieces : Type 0 where
  pub epochs : List PlannedCaptureEpoch
  pub segments : List PlannedCaptureSegment
  pub gaps : List CaptureGapRange
  pub available_ranges : List PlannedAvailabilityRange
  pub next_capture_frame_index : ℤ

-- No round is left.
finish : Option Latest → ℤ → Pieces
finish none next_frame = record {
  epochs = [];
  segments = [];
  gaps = [];
  available_ranges = [];
  next_capture_frame_index = next_frame;
}
finish (some latest) next_frame = record {
  epochs = [];
  segments = [];
  gaps = [];
  available_ranges = latest.range ∷ [];
  next_capture_frame_index = next_frame;
}

-- The loop over `unique.entries()`.
plan_entries : CaptureEpochPlannerConfig → Option Latest → ℤ → List Entry → Result MediaError Pieces
unfolding finish choose_epoch first_sample check_monotonic planned_segment next_range
plan_entries config latest next_frame [] = ok (finish latest next_frame)
plan_entries config latest next_frame (entry ∷ entries) = do
  chosen ← choose_epoch config latest next_frame entry
  sample_index ← build_sample_index entry.segment entry.bounds chosen.epoch next_frame
  first ← first_sample sample_index.samples
  check_monotonic latest first
  let planned = planned_segment entry chosen.epoch sample_index
  let (range, complete) = next_range latest planned
  following ← next_frame_index sample_index.samples
  rest ←
      plan_entries config
        (some (record { entry = entry; plan = planned; epoch = chosen.epoch; range = range }))
        following entries
  ok (record {
    epochs = chosen.opened ++ rest.epochs;
    segments = planned ∷ rest.segments;
    gaps = chosen.gaps ++ rest.gaps;
    available_ranges = complete ++ rest.available_ranges;
    next_capture_frame_index = rest.next_capture_frame_index;
  })

-- `segments.at(-1)!.captureEndUs`
pub live_edge : List PlannedCaptureSegment → Result MediaError ℤ
live_edge [] = err plain_error
live_edge (first ∷ rest) = ok (last_of first rest).capture_end_us

is_no_segment : List FinalizedIndexedSegment → Bool
is_no_segment [] = true
is_no_segment (_ ∷ _) = false

-- The plan of the unique segments.
plan_unique : CaptureEpochPlannerConfig → List Entry → Result MediaError CaptureEpochPlan
unfolding plan_entries live_edge
plan_unique config entries = do
  pieces ← plan_entries config none config.canonical_frame_origin entries
  live_edge_capture_time_us ← live_edge pieces.segments
  ok (record {
    canonical_session_origin_us = config.canonical_session_origin_us;
    canonical_frame_origin = config.canonical_frame_origin;
    epochs = pieces.epochs;
    segments = pieces.segments;
    gaps = pieces.gaps;
    available_ranges = pieces.available_ranges;
    live_edge_capture_time_us = live_edge_capture_time_us;
    next_capture_frame_index = pieces.next_capture_frame_index;
  })

pub plan_capture_epochs :
    List FinalizedIndexedSegment → CaptureEpochPlannerConfig → Result MediaError CaptureEpochPlan
unfolding is_no_segment plan_unique collect_unique
plan_capture_epochs input config = do
  fail_if
      (ltb_ℤ config.canonical_frame_origin (pos 0) || ltb_ℤ config.timestamp_tolerance_us (pos 0))
      invalid_config
  fail_if (is_no_segment input) invalid_segment
  entries ← collect_unique [] input
  plan_unique config entries
