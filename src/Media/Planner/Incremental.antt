-- ===== src/Media/Planner/Incremental.antt =====
-- packages/media/src/epoch-planner.ts: planNextCaptureSegment, which plans one segment from the
-- persisted head.
pub mod Plans
pub mod Head
pub mod Observation
pub mod Built
pub mod Outcome
pub mod Timeline
pub mod Continuity
mod Examples
use volleyball_monitoring_ai.Base.{
  ℕ, Bool, true, false, List, [], ◌∷◌, ◌++◌, Option, none, some, Result, ok, err, ◌>>=◌, ◌>>◌, ◌||◌,
  ◌&&◌, not, length, if◌then◌else◌,
}
use volleyball_monitoring_ai.Base.Text.{Text, is_blank, has_nul}
use volleyball_monitoring_ai.Base.Int.{ℤ, pos, ◌+ℤ◌, ◌-ℤ◌, ltb_ℤ, leb_ℤ, eqb_ℤ}
use volleyball_monitoring_ai.Media.Errors.{
  MediaError, planner_error, invalid_config, invalid_segment, invalid_persisted_head,
  order_conflict,
}
use volleyball_monitoring_ai.Media.Rational.{
  Rational, is_bad_time_base, same_time_base, rescale_pts_to_us,
}
use volleyball_monitoring_ai.Media.SampleIndex.{SampleIndex}
use volleyball_monitoring_ai.Media.Planner.{
  SourceSampleTiming, FinalizedIndexedSegment, CaptureEpochPlannerConfig, DiscontinuityReason,
  session_start, pts_reset, timestamp_discontinuity, source_restart, time_base_change, explicit_gap,
  PlannedCaptureEpoch, SegmentBounds, fail_if, segment_bounds, add_reason, add_reason_if,
  reconcile_gap_candidates, build_sample_index, next_frame_index, int32_max, next_int32_sequence,
  opens_playback_discontinuity,
}
use volleyball_monitoring_ai.Media.Planner.Incremental.Plans.{
  IncrementalPlannedCaptureEpoch, PersistedCaptureHead, PlanNextCaptureSegmentInput,
  PlanNextCaptureSegmentResult, build_incremental_result, create_next, incremental_segment,
  plan_first, reuse_existing, validate_incremental_config, validate_new_epoch_id,
  validate_persisted_head,
}

pub record Observed : Type 0 where
  pub reasons : List DiscontinuityReason
  pub gap_candidates : List ℤ

-- `if (input.explicitGapBeforeUs !== undefined) { … }`
observe_explicit_gap : Option ℤ → Observed → Observed
observe_explicit_gap none seen = seen
observe_explicit_gap (some gap) seen = record {
  reasons = add_reason seen.reasons explicit_gap;
  gap_candidates = seen.gap_candidates ++ gap ∷ [];
}

-- `if (timeBaseMatches) { … }`, with `ptsDelta`.
observe_pts_delta : ℤ → Rational → List DiscontinuityReason → Result MediaError Observed
observe_pts_delta pts_delta time_base reasons = do
  let hole = do
    pts_gap_us ← rescale_pts_to_us pts_delta time_base
    fail_if (leb_ℤ pts_gap_us (pos 0)) invalid_segment
    ok (record {
      reasons = add_reason reasons timestamp_discontinuity;
      gap_candidates = pts_gap_us ∷ [];
    })
  let reset : Observed = record { reasons = add_reason reasons pts_reset; gap_candidates = [] }
  let touching : Observed = record { reasons = reasons; gap_candidates = [] }
  if ltb_ℤ pts_delta (pos 0)
      then ok reset
      else if ltb_ℤ (pos 0) pts_delta
      then hole
      else ok touching

-- What the new segment shows against the head.
pub observe :
    PersistedCaptureHead → PlanNextCaptureSegmentInput → SegmentBounds → Result MediaError Observed
unfolding observe_explicit_gap observe_pts_delta
observe head input bounds = do
  let time_base_matches = same_time_base head.time_base input.segment.time_base
  let restarted = add_reason_if input.source_restart [] source_restart
  let signalled = add_reason_if input.timestamp_discontinuity restarted timestamp_discontinuity
  let changed = add_reason_if (not time_base_matches) signalled time_base_change
  let pts_delta = bounds.first_pts -ℤ head.last_source_pts_end_exclusive
  let unmatched : Observed = record { reasons = changed; gap_candidates = [] }
  seen ←
      if time_base_matches
      then observe_pts_delta pts_delta input.segment.time_base changed
      else ok unmatched
  ok (observe_explicit_gap input.explicit_gap_before_us seen)

-- The head's epoch, which a segment without a reason continues.
pub reused_epoch : PersistedCaptureHead → IncrementalPlannedCaptureEpoch
reused_epoch head = record {
  disposition = reuse_existing;
  epoch_key = head.epoch_id;
  epoch_sequence = head.epoch_sequence;
  discontinuity = head.discontinuity;
  time_base = head.time_base;
  source_pts_origin = head.source_pts_origin;
  capture_time_origin_us = head.capture_time_origin_us;
  capture_frame_origin = head.capture_frame_origin;
  reasons = [];
}

-- `if (reasons.length === 0) { … }`
plan_continued :
    PersistedCaptureHead
    → FinalizedIndexedSegment
    → SegmentBounds
    → Result MediaError PlanNextCaptureSegmentResult
unfolding build_incremental_result reused_epoch
plan_continued head segment bounds = do
  result ←
      build_incremental_result segment bounds (reused_epoch head)
        (head.last_capture_frame_index +ℤ pos 1)
  fail_if (not (eqb_ℤ result.segment.capture_start_us head.last_capture_end_us))
      invalid_persisted_head
  ok result

-- `if (gapUs === 0n) return result; return { ...result, gap: … }`
pub with_gap :
    PersistedCaptureHead
    → ℤ
    → ℤ
    → List DiscontinuityReason
    → PlanNextCaptureSegmentResult
    → PlanNextCaptureSegmentResult
with_gap head gap_us discontinuity reasons result =
    if eqb_ℤ gap_us (pos 0) then result else record result {
      gap = some (record {
        start_us = head.last_capture_end_us;
        end_us = head.last_capture_end_us +ℤ gap_us;
        discontinuity = discontinuity;
        reasons = reasons;
      });
    }

-- The sequence number of the discontinuity that the new epoch stands in.
pub next_discontinuity : PersistedCaptureHead → List DiscontinuityReason → ℤ → Result MediaError ℤ
next_discontinuity head reasons gap_us =
    if opens_playback_discontinuity reasons gap_us
    then next_int32_sequence head.discontinuity
    else ok head.discontinuity

-- A new epoch behind the head, after a gap that may be empty.
pub opened_epoch :
    PersistedCaptureHead
    → PlanNextCaptureSegmentInput
    → FinalizedIndexedSegment
    → SegmentBounds
    → List DiscontinuityReason
    → ℤ
    → ℤ
    → ℤ
    → IncrementalPlannedCaptureEpoch
opened_epoch head input segment bounds reasons gap_us sequence discontinuity = record {
  disposition = create_next;
  epoch_key = input.new_epoch_id;
  epoch_sequence = sequence;
  discontinuity = discontinuity;
  time_base = segment.time_base;
  source_pts_origin = bounds.first_pts;
  capture_time_origin_us = head.last_capture_end_us +ℤ gap_us;
  capture_frame_origin = head.last_capture_frame_index +ℤ pos 1;
  reasons = reasons;
}

plan_new_epoch :
    PersistedCaptureHead
    → PlanNextCaptureSegmentInput
    → FinalizedIndexedSegment
    → SegmentBounds
    → Observed
    → Result MediaError PlanNextCaptureSegmentResult
unfolding build_incremental_result opened_epoch with_gap next_discontinuity
plan_new_epoch head input segment bounds seen = do
  gap_us ← reconcile_gap_candidates seen.gap_candidates input.config.timestamp_tolerance_us
  sequence ← next_int32_sequence head.epoch_sequence
  discontinuity ← next_discontinuity head seen.reasons gap_us
  result ←
      build_incremental_result segment bounds
        (opened_epoch head input segment bounds seen.reasons gap_us sequence discontinuity)
        (head.last_capture_frame_index +ℤ pos 1)
  fail_if (ltb_ℤ result.segment.capture_start_us head.last_capture_end_us) order_conflict
  ok (with_gap head gap_us discontinuity seen.reasons result)

is_unchanged : List DiscontinuityReason → Bool
is_unchanged [] = true
is_unchanged (_ ∷ _) = false

plan_after :
    PersistedCaptureHead
    → PlanNextCaptureSegmentInput
    → FinalizedIndexedSegment
    → SegmentBounds
    → Result MediaError PlanNextCaptureSegmentResult
unfolding observe plan_continued plan_new_epoch is_unchanged validate_persisted_head
plan_after head input segment bounds = do
  validate_persisted_head head
  seen ← observe head input bounds
  if is_unchanged seen.reasons
      then plan_continued head segment bounds
      else plan_new_epoch head input segment bounds seen

pub plan_next_capture_segment :
    PlanNextCaptureSegmentInput → Result MediaError PlanNextCaptureSegmentResult
unfolding plan_first plan_after incremental_segment validate_incremental_config
    validate_new_epoch_id
plan_next_capture_segment input = do
  validate_incremental_config input.config
  validate_new_epoch_id input.new_epoch_id
  let segment = incremental_segment input
  bounds ← segment_bounds segment
  elim input.current_head [
    | none ↦ plan_first input segment bounds input.explicit_gap_before_us
    | some head ↦ plan_after head input segment bounds
  ]

-- The head that the next call is given: `buildHead` of worker/src/media/prisma-ingest-repository.ts,
-- of the rows that hold the epoch and the segment of a result.
pub build_head : PlanNextCaptureSegmentResult → PersistedCaptureHead
build_head result = record {
  epoch_id = result.epoch.epoch_key;
  epoch_sequence = result.epoch.epoch_sequence;
  discontinuity = result.segment.discontinuity_sequence;
  time_base = result.epoch.time_base;
  source_pts_origin = result.epoch.source_pts_origin;
  capture_time_origin_us = result.epoch.capture_time_origin_us;
  capture_frame_origin = result.epoch.capture_frame_origin;
  last_source_pts_end_exclusive = result.segment.source_pts_end_exclusive;
  last_capture_end_us = result.segment.capture_end_us;
  last_capture_frame_index =
      result.segment.first_frame_index +ℤ result.segment.frame_count -ℤ pos 1;
}
