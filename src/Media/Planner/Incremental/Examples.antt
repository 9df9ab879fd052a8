-- ===== src/Media/Planner/Incremental/Examples.antt =====
-- planNextCaptureSegment on concrete segments: a first one, and one behind a hole in the source ticks.
use volleyball_monitoring_ai.Base.Int.{neg_part, pos_part, ◌-ℤ◌}
use volleyball_monitoring_ai.Media.Planner.Incremental.Plans.{
  is_safe_opaque_identity, validate_int32_sequence,
}
use volleyball_monitoring_ai.Base.Text.{has_nul, is_blank}
use volleyball_monitoring_ai.Media.Planner.{
  add_reason, build_sample_index, next_frame_index, next_int32_sequence,
  opens_playback_discontinuity, reconcile_gap_candidates, segment_bounds,
}
use volleyball_monitoring_ai.Media.Rational.{round_nearest_away, same_time_base}
use volleyball_monitoring_ai.Base.{◌>>=◌, ◌≡◌, refl, true, false, [], ◌∷◌, none, some, ok}
use volleyball_monitoring_ai.Base.Text.{codes}
use volleyball_monitoring_ai.Base.Int.{ℤ, pos}
use volleyball_monitoring_ai.Media.Rational.{Rational}
use volleyball_monitoring_ai.Media.Planner.{
  SourceSampleTiming, CaptureEpochPlannerConfig, timestamp_discontinuity,
}
use volleyball_monitoring_ai.Media.Planner.Incremental.{build_head, plan_next_capture_segment}
use volleyball_monitoring_ai.Media.Planner.Incremental.Plans.{
  PersistedCaptureHead, PlanNextCaptureSegmentInput, PlanNextCaptureSegmentResult,
  IncrementalFinalizedIndexedSegment, create_next, validate_persisted_head,
}
use volleyball_monitoring_ai.Media.Planner.Incremental.Timeline.{
  plan_next_capture_segment-validate_persisted_head,
}
use volleyball_monitoring_ai.Media.Planner.Incremental.Continuity.{
  Continues, plan_next_capture_segment-Continues,
}

abbrev ninety_kilohertz : Rational
ninety_kilohertz = record { num = pos 1; den = pos 90000 }

abbrev sample_at : ℤ → SourceSampleTiming
sample_at pts = record { source_pts = pts; duration_pts = pos 3000; keyframe = true }

abbrev segment_at : ℤ → ℤ → IncrementalFinalizedIndexedSegment
segment_at order pts = record {
  segment_identity = codes "s";
  source_identity = codes "cam";
  source_order = order;
  time_base = ninety_kilohertz;
  samples = sample_at pts ∷ [];
}

abbrev config : CaptureEpochPlannerConfig
config = record {
  canonical_session_origin_us = pos 0;
  canonical_frame_origin = pos 0;
  timestamp_tolerance_us = pos 2000;
}

abbrev first_input : PlanNextCaptureSegmentInput
first_input = record {
  current_head = none;
  new_epoch_id = codes "e1";
  segment = segment_at (pos 0) (pos 9000);
  source_restart = false;
  timestamp_discontinuity = false;
  explicit_gap_before_us = none;
  config = config;
}

abbrev first_head : PersistedCaptureHead
first_head = record {
  epoch_id = codes "e1";
  epoch_sequence = pos 0;
  discontinuity = pos 0;
  time_base = ninety_kilohertz;
  source_pts_origin = pos 9000;
  capture_time_origin_us = pos 0;
  capture_frame_origin = pos 0;
  last_source_pts_end_exclusive = pos 12000;
  last_capture_end_us = pos 33333;
  last_capture_frame_index = pos 0;
}

-- 3,000 ticks are missing in front of the segment.
abbrev second_input : PlanNextCaptureSegmentInput
second_input = record first_input {
  current_head = some first_head;
  new_epoch_id = codes "e2";
  segment = segment_at (pos 1) (pos 15000);
}

abbrev second_result : PlanNextCaptureSegmentResult
second_result = record {
  epoch = record {
    disposition = create_next;
    epoch_key = codes "e2";
    epoch_sequence = pos 1;
    discontinuity = pos 1;
    time_base = ninety_kilohertz;
    source_pts_origin = pos 15000;
    capture_time_origin_us = pos 66666;
    capture_frame_origin = pos 1;
    reasons = timestamp_discontinuity ∷ [];
  };
  segment = record {
    segment_identity = codes "s";
    source_order = pos 1;
    epoch_key = codes "e2";
    epoch_sequence = pos 1;
    discontinuity_sequence = pos 1;
    source_pts_start = pos 15000;
    source_pts_end_exclusive = pos 18000;
    capture_start_us = pos 66666;
    capture_end_us = pos 99999;
    first_frame_index = pos 1;
    frame_count = pos 1;
    duration_us = pos 33333;
    is_gap = false;
    sample_index = record {
      epoch_id = codes "e2";
      time_base = ninety_kilohertz;
      samples =
          record {
            source_pts = pos 15000;
            duration_pts = pos 3000;
            capture_time_us = pos 66666;
            capture_frame_index = pos 1;
            keyframe = true;
          }
          ∷ [];
      available_start_us = pos 66666;
      available_end_us = pos 99999;
    };
  };
  gap = some record {
    start_us = pos 33333;
    end_us = pos 66666;
    discontinuity = pos 1;
    reasons = timestamp_discontinuity ∷ [];
  };
  live_edge_capture_time_us = pos 99999;
  next_capture_frame_index = pos 2;
}

second_plan : plan_next_capture_segment second_input ≡ ok second_result
unfolding plan_next_capture_segment pos_part neg_part is_safe_opaque_identity is_blank has_nul
    segment_bounds round_nearest_away ◌-ℤ◌ validate_int32_sequence same_time_base add_reason
    reconcile_gap_candidates next_int32_sequence opens_playback_discontinuity build_sample_index
    next_frame_index
second_plan = refl

-- The hole in the ticks opens a new epoch and a gap of 33,333 microseconds.
second_head_example : validate_persisted_head (build_head second_result) ≡ ok tt
second_head_example =
    plan_next_capture_segment-validate_persisted_head second_input second_result second_plan

second_segment_example : Continues first_head second_result
second_segment_example =
    plan_next_capture_segment-Continues second_input first_head second_result refl second_plan

-- Ticks of half a microsecond: the first segment ends at 1 microsecond, and so does the second one,
-- which starts there.
abbrev half_microsecond : Rational
half_microsecond = record { num = pos 1; den = pos 2000000 }

abbrev half_head : PersistedCaptureHead
half_head = record first_head {
  time_base = half_microsecond;
  source_pts_origin = pos 0;
  last_source_pts_end_exclusive = pos 1;
  last_capture_end_us = pos 1;
}

abbrev half_input : PlanNextCaptureSegmentInput
half_input = record second_input {
  current_head = some half_head;
  segment = record {
    segment_identity = codes "s";
    source_identity = codes "cam";
    source_order = pos 1;
    time_base = half_microsecond;
    samples = record { source_pts = pos 1; duration_pts = pos 1; keyframe = true } ∷ [];
  };
}

-- The planned segment has a duration of 0 microseconds.
half_duration :
    (plan_next_capture_segment half_input
      >>= (λ (r : PlanNextCaptureSegmentResult). ok r.segment.duration_us))
    ≡ ok (pos 0)
unfolding plan_next_capture_segment pos_part neg_part is_safe_opaque_identity is_blank has_nul
    segment_bounds round_nearest_away ◌-ℤ◌ validate_int32_sequence same_time_base build_sample_index
    next_frame_index
half_duration = refl
