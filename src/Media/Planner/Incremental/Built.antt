-- ===== src/Media/Planner/Incremental/Built.antt =====
-- The result that the planner builds over a valid segment, written out.
use volleyball_monitoring_ai.Base.{◌≡◌, refl, true, false, List, ◌∷◌, none, ok, length}
use volleyball_monitoring_ai.Base.Int.{ℤ, pos, ◌+ℤ◌, ◌-ℤ◌, ◌≤ℤ◌, ◌<ℤ◌, int_laws}
use volleyball_monitoring_ai.Media.Rational.Bounds.{IsPositive, us_value}
use volleyball_monitoring_ai.Media.SampleIndex.{SampleIndex}
use volleyball_monitoring_ai.Media.Planner.{
  SourceSampleTiming, FinalizedIndexedSegment, SegmentBounds, int32_max,
}
use volleyball_monitoring_ai.Media.Planner.Bounds.{IsBounded}
use volleyball_monitoring_ai.Media.Planner.Samples.{
  place, place_all, build_sample_index_lem, next_frame_index_lem,
}
use volleyball_monitoring_ai.Media.Planner.Incremental.{build_head}
use volleyball_monitoring_ai.Media.Planner.Incremental.Plans.{
  PlanNextCaptureSegmentResult, IncrementalPlannedCaptureEpoch, is_safe_opaque_identity,
  planned_epoch, build_incremental_result,
}
use volleyball_monitoring_ai.Media.Planner.Incremental.Head.{IsHead}

-- The result that is built over a valid segment.
module _ (segment : FinalizedIndexedSegment) (bounds : SegmentBounds)
    (epoch : IncrementalPlannedCaptureEpoch) (first_frame_index : ℤ) where
  unfoldable pub capture_start : ℤ
  capture_start =
      epoch.capture_time_origin_us
      +ℤ us_value (bounds.first_pts -ℤ epoch.source_pts_origin) epoch.time_base

  unfoldable pub capture_end : ℤ
  capture_end =
      epoch.capture_time_origin_us
      +ℤ us_value (bounds.end_pts_exclusive -ℤ epoch.source_pts_origin) epoch.time_base

  unfoldable pub built : SampleIndex → PlanNextCaptureSegmentResult
  built sample_index = record {
    epoch = epoch;
    segment = record {
      segment_identity = segment.segment_identity;
      source_order = segment.source_order;
      epoch_key = epoch.epoch_key;
      epoch_sequence = epoch.epoch_sequence;
      discontinuity_sequence = epoch.discontinuity;
      source_pts_start = bounds.first_pts;
      source_pts_end_exclusive = bounds.end_pts_exclusive;
      capture_start_us = capture_start;
      capture_end_us = capture_end;
      first_frame_index = first_frame_index;
      frame_count = pos (length segment.samples);
      duration_us = capture_end -ℤ capture_start;
      is_gap = false;
      sample_index = sample_index;
    };
    gap = none;
    live_edge_capture_time_us = capture_end;
    next_capture_frame_index = first_frame_index +ℤ pos (length segment.samples);
  }

  unfoldable pub index_of : SourceSampleTiming → List SourceSampleTiming → SampleIndex
  index_of first rest = record {
    epoch_id = epoch.epoch_key;
    time_base = epoch.time_base;
    samples = place_all (planned_epoch segment epoch) first_frame_index (first ∷ rest);
    available_start_us = capture_start;
    available_end_us = capture_end;
  }

  pub build_incremental_result-built :
      (b : IsBounded segment bounds)
      → IsPositive epoch.time_base
      → build_incremental_result segment bounds epoch first_frame_index
        ≡ ok (built (index_of b.first b.rest))
  unfolding build_incremental_result planned_epoch built index_of capture_start capture_end place
  build_incremental_result-built b t = rw (
    build_sample_index_lem segment bounds (planned_epoch segment epoch) first_frame_index b.first
        b.rest t b.samples,
    next_frame_index_lem (planned_epoch segment epoch) first_frame_index b.first b.rest,
    b.samples,
    b.first_eq,
  )

  -- The next head is valid if the epoch's fields and the measured range are.
  pub built-IsHead :
      (index : SampleIndex)
      → IsBounded segment bounds
      → is_safe_opaque_identity epoch.epoch_key ≡ true
      → pos 0 ≤ℤ epoch.epoch_sequence
      → epoch.epoch_sequence ≤ℤ int32_max
      → pos 0 ≤ℤ epoch.discontinuity
      → epoch.discontinuity ≤ℤ epoch.epoch_sequence
      → IsPositive epoch.time_base
      → pos 0 ≤ℤ epoch.capture_time_origin_us
      → pos 0 ≤ℤ epoch.capture_frame_origin
      → epoch.capture_frame_origin ≤ℤ first_frame_index
      → epoch.source_pts_origin <ℤ bounds.end_pts_exclusive
      → epoch.capture_time_origin_us <ℤ capture_end
      → IsHead (build_head (built index))
  unfolding build_head built capture_end
  built-IsHead index b safe s0 s1 d0 d1 t t0 f0 f1 pts time = record {
    safe = safe;
    sequence_nonneg = s0;
    sequence_int32 = s1;
    discontinuity_nonneg = d0;
    discontinuity-le-sequence = d1;
    time_base = t;
    time_nonneg = t0;
    frame_nonneg = f0;
    pts_lt = pts;
    time_lt = time;
    frame_le = rw b.samples (omega int_laws);
    end_eq = refl;
  }
