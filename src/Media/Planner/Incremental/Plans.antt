-- ===== src/Media/Planner/Incremental/Plans.antt =====
-- packages/media/src/epoch-planner.ts: the types of `planNextCaptureSegment`, its validations, the result
-- that it builds and the plan of the first segment.
use volleyball_monitoring_ai.Base.{
  Bool, false, List, [], ◌∷◌, Option, none, some, Result, ok, err, ◌>>=◌, ◌>>◌, ◌||◌, ◌&&◌, not,
  length,
}
use volleyball_monitoring_ai.Base.Text.{Text, is_blank, has_nul}
use volleyball_monitoring_ai.Base.Int.{ℤ, pos, ◌+ℤ◌, ◌-ℤ◌, ltb_ℤ, leb_ℤ, eqb_ℤ}
use volleyball_monitoring_ai.Media.Errors.{
  MediaError, planner_error, invalid_config, invalid_segment, invalid_persisted_head,
}
use volleyball_monitoring_ai.Media.Rational.{Rational, is_bad_time_base, rescale_pts_to_us}
use volleyball_monitoring_ai.Media.SampleIndex.{SampleIndex}
use volleyball_monitoring_ai.Media.Planner.{
  SourceSampleTiming, FinalizedIndexedSegment, CaptureEpochPlannerConfig, DiscontinuityReason,
  session_start, PlannedCaptureEpoch, SegmentBounds, fail_if, build_sample_index, next_frame_index,
  int32_max,
}

pub record PersistedCaptureHead : Type 0 where
  pub epoch_id : Text
  pub epoch_sequence : ℤ
  pub discontinuity : ℤ
  pub time_base : Rational
  pub source_pts_origin : ℤ
  pub capture_time_origin_us : ℤ
  pub capture_frame_origin : ℤ
  pub last_source_pts_end_exclusive : ℤ
  pub last_capture_end_us : ℤ
  pub last_capture_frame_index : ℤ

pub record IncrementalFinalizedIndexedSegment : Type 0 where
  pub segment_identity : Text
  pub source_identity : Text
  pub source_order : ℤ
  pub time_base : Rational
  pub samples : List SourceSampleTiming

pub record PlanNextCaptureSegmentInput : Type 0 where
  pub current_head : Option PersistedCaptureHead
  pub new_epoch_id : Text
  pub segment : IncrementalFinalizedIndexedSegment
  pub source_restart : Bool
  pub timestamp_discontinuity : Bool
  pub explicit_gap_before_us : Option ℤ
  pub config : CaptureEpochPlannerConfig

pub data IncrementalEpochDisposition : Type 0 where
  reuse_existing create_next : IncrementalEpochDisposition

pub record IncrementalPlannedCaptureEpoch : Type 0 where
  pub disposition : IncrementalEpochDisposition
  pub epoch_key : Text
  pub epoch_sequence : ℤ
  pub discontinuity : ℤ
  pub time_base : Rational
  pub source_pts_origin : ℤ
  pub capture_time_origin_us : ℤ
  pub capture_frame_origin : ℤ
  pub reasons : List DiscontinuityReason

pub record IncrementalPlannedCaptureSegment : Type 0 where
  pub segment_identity : Text
  pub source_order : ℤ
  pub epoch_key : Text
  pub epoch_sequence : ℤ
  pub discontinuity_sequence : ℤ
  pub source_pts_start : ℤ
  pub source_pts_end_exclusive : ℤ
  pub capture_start_us : ℤ
  pub capture_end_us : ℤ
  pub first_frame_index : ℤ
  pub frame_count : ℤ
  pub duration_us : ℤ
  pub is_gap : Bool
  pub sample_index : SampleIndex

pub record IncrementalCaptureGapRange : Type 0 where
  pub start_us : ℤ
  pub end_us : ℤ
  pub discontinuity : ℤ
  pub reasons : List DiscontinuityReason

pub record PlanNextCaptureSegmentResult : Type 0 where
  pub epoch : IncrementalPlannedCaptureEpoch
  pub segment : IncrementalPlannedCaptureSegment
  pub gap : Option IncrementalCaptureGapRange
  pub live_edge_capture_time_us : ℤ
  pub next_capture_frame_index : ℤ

unfoldable pub validate_incremental_config :
    CaptureEpochPlannerConfig → Result MediaError (Unit {0})
validate_incremental_config config =
    fail_if
      (ltb_ℤ config.canonical_session_origin_us (pos 0)
        || ltb_ℤ config.canonical_frame_origin (pos 0)
        || ltb_ℤ config.timestamp_tolerance_us (pos 0))
      invalid_config

unfoldable pub is_safe_opaque_identity : Text → Bool
is_safe_opaque_identity value = not (is_blank value) && not (has_nul value)

unfoldable pub validate_new_epoch_id : Text → Result MediaError (Unit {0})
validate_new_epoch_id value = fail_if (not (is_safe_opaque_identity value)) invalid_config

unfoldable pub validate_int32_sequence : ℤ → Result MediaError (Unit {0})
validate_int32_sequence value =
    fail_if (ltb_ℤ value (pos 0) || ltb_ℤ int32_max value) invalid_persisted_head

unfoldable pub validate_persisted_head : PersistedCaptureHead → Result MediaError (Unit {0})
validate_persisted_head head = do
  fail_if (not (is_safe_opaque_identity head.epoch_id)) invalid_persisted_head
  validate_int32_sequence head.epoch_sequence
  validate_int32_sequence head.discontinuity
  fail_if (ltb_ℤ head.epoch_sequence head.discontinuity) invalid_persisted_head
  fail_if (is_bad_time_base head.time_base) invalid_persisted_head
  fail_if
      (ltb_ℤ head.capture_time_origin_us (pos 0)
        || ltb_ℤ head.capture_frame_origin (pos 0)
        || ltb_ℤ head.last_capture_frame_index (pos 0))
      invalid_persisted_head
  fail_if
      (leb_ℤ head.last_source_pts_end_exclusive head.source_pts_origin
        || leb_ℤ head.last_capture_end_us head.capture_time_origin_us
        || ltb_ℤ head.last_capture_frame_index head.capture_frame_origin)
      invalid_persisted_head
  offset ←
      rescale_pts_to_us (head.last_source_pts_end_exclusive -ℤ head.source_pts_origin)
        head.time_base
  fail_if (not (eqb_ℤ head.last_capture_end_us (head.capture_time_origin_us +ℤ offset)))
      invalid_persisted_head

unfoldable pub incremental_segment : PlanNextCaptureSegmentInput → FinalizedIndexedSegment
incremental_segment input = record {
  segment_identity = input.segment.segment_identity;
  source_identity = input.segment.source_identity;
  source_order = input.segment.source_order;
  time_base = input.segment.time_base;
  samples = input.segment.samples;
  source_start_time_us = none;
  source_restart = some input.source_restart;
  timestamp_discontinuity = some input.timestamp_discontinuity;
  explicit_gap_before_us = input.explicit_gap_before_us;
}

-- The epoch as `buildSampleIndex` takes it.
unfoldable pub planned_epoch :
    FinalizedIndexedSegment → IncrementalPlannedCaptureEpoch → PlannedCaptureEpoch
planned_epoch segment epoch = record {
  epoch_key = epoch.epoch_key;
  epoch_sequence = epoch.epoch_sequence;
  discontinuity = epoch.discontinuity;
  source_identity = segment.source_identity;
  time_base = epoch.time_base;
  source_pts_origin = epoch.source_pts_origin;
  capture_time_origin_us = epoch.capture_time_origin_us;
  capture_frame_origin = epoch.capture_frame_origin;
  reasons = epoch.reasons;
}

unfoldable pub build_incremental_result :
    FinalizedIndexedSegment
    → SegmentBounds
    → IncrementalPlannedCaptureEpoch
    → ℤ
    → Result MediaError PlanNextCaptureSegmentResult
unfolding planned_epoch
build_incremental_result segment bounds epoch first_frame_index = do
  sample_index ← build_sample_index segment bounds (planned_epoch segment epoch) first_frame_index
  next_capture_frame_index ← next_frame_index sample_index.samples
  ok (record {
    epoch = epoch;
    segment = record {
      segment_identity = segment.segment_identity;
      source_order = segment.source_order;
      epoch_key = epoch.epoch_key;
      epoch_sequence = epoch.epoch_sequence;
      discontinuity_sequence = epoch.discontinuity;
      source_pts_start = bounds.first_pts;
      source_pts_end_exclusive = bounds.end_pts_exclusive;
      capture_start_us = sample_index.available_start_us;
      capture_end_us = sample_index.available_end_us;
      first_frame_index = first_frame_index;
      frame_count = pos (length segment.samples);
      duration_us = sample_index.available_end_us -ℤ sample_index.available_start_us;
      is_gap = false;
      sample_index = sample_index;
    };
    gap = none;
    live_edge_capture_time_us = sample_index.available_end_us;
    next_capture_frame_index = next_capture_frame_index;
  })

-- The epoch of a session's first segment.
unfoldable pub first_epoch :
    PlanNextCaptureSegmentInput
    → FinalizedIndexedSegment
    → SegmentBounds
    → IncrementalPlannedCaptureEpoch
first_epoch input segment bounds = record {
  disposition = create_next;
  epoch_key = input.new_epoch_id;
  epoch_sequence = pos 0;
  discontinuity = pos 0;
  time_base = segment.time_base;
  source_pts_origin = bounds.first_pts;
  capture_time_origin_us = input.config.canonical_session_origin_us;
  capture_frame_origin = input.config.canonical_frame_origin;
  reasons = session_start ∷ [];
}

-- `if (head === null) { … }`
unfoldable pub plan_first :
    PlanNextCaptureSegmentInput
    → FinalizedIndexedSegment
    → SegmentBounds
    → Option ℤ
    → Result MediaError PlanNextCaptureSegmentResult
unfolding first_epoch build_incremental_result
plan_first input segment bounds (some gap) = err (planner_error invalid_segment)
plan_first input segment bounds none =
    build_incremental_result segment bounds (first_epoch input segment bounds)
      input.config.canonical_frame_origin
