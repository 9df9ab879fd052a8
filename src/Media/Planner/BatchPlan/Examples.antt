-- ===== src/Media/Planner/BatchPlan/Examples.antt =====
-- Two segments with a hole of 3,000 ticks between them, planned as a batch.
use mathlib.Core.List.{Memᴰ}
use volleyball_monitoring_ai.Base.Int.{neg_part, pos_part, ◌-ℤ◌}
use volleyball_monitoring_ai.Media.Planner.{
  add_reason, build_sample_index, next_frame_index, next_int32_sequence,
  opens_playback_discontinuity, reconcile_gap_candidates, segment_bounds,
}
use volleyball_monitoring_ai.Media.Rational.{round_nearest_away}
use volleyball_monitoring_ai.Base.Decimal.{to_decimal}
use volleyball_monitoring_ai.Base.{◌≡◌, refl, true, List, [], ◌∷◌, ◌++◌, none, ok}
use volleyball_monitoring_ai.Base.Text.{Text, codes}
use volleyball_monitoring_ai.Base.Int.{ℤ, pos}
use volleyball_monitoring_ai.Media.Rational.{Rational}
use volleyball_monitoring_ai.Media.Planner.{
  FinalizedIndexedSegment, CaptureEpochPlannerConfig, timestamp_discontinuity, session_start,
}
use volleyball_monitoring_ai.Media.Planner.Batch.{CaptureEpochPlan}
use volleyball_monitoring_ai.Media.Planner.BatchPlan.{plan_capture_epochs, live_edge}
use volleyball_monitoring_ai.Media.Planner.BatchPlan.Frames.{Timeline, plan_capture_epochs-Timeline}
use volleyball_monitoring_ai.Media.Planner.BatchPlan.Replayed.{plan_capture_epochs-replayed}

abbrev ninety_kilohertz : Rational
ninety_kilohertz = record { num = pos 1; den = pos 90000 }

abbrev segment_at : Text → ℤ → ℤ → FinalizedIndexedSegment
segment_at identity order pts = record {
  segment_identity = identity;
  source_identity = codes "cam";
  source_order = order;
  time_base = ninety_kilohertz;
  samples = record { source_pts = pts; duration_pts = pos 3000; keyframe = true } ∷ [];
  source_start_time_us = none;
  source_restart = none;
  timestamp_discontinuity = none;
  explicit_gap_before_us = none;
}

abbrev first_segment : FinalizedIndexedSegment
first_segment = segment_at (codes "a") (pos 0) (pos 9000)

abbrev input : List FinalizedIndexedSegment
input = first_segment ∷ segment_at (codes "b") (pos 1) (pos 15000) ∷ []

abbrev config : CaptureEpochPlannerConfig
config = record {
  canonical_session_origin_us = pos 0;
  canonical_frame_origin = pos 5;
  timestamp_tolerance_us = pos 2000;
}

abbrev planned : CaptureEpochPlan
planned = record {
  canonical_session_origin_us = pos 0;
  canonical_frame_origin = pos 5;
  epochs =
      record {
        epoch_key = codes "capture-epoch-0";
        epoch_sequence = pos 0;
        discontinuity = pos 0;
        source_identity = codes "cam";
        time_base = ninety_kilohertz;
        source_pts_origin = pos 9000;
        capture_time_origin_us = pos 0;
        capture_frame_origin = pos 5;
        reasons = session_start ∷ [];
      }
      ∷ record {
        epoch_key = codes "capture-epoch-1";
        epoch_sequence = pos 1;
        discontinuity = pos 1;
        source_identity = codes "cam";
        time_base = ninety_kilohertz;
        source_pts_origin = pos 15000;
        capture_time_origin_us = pos 66666;
        capture_frame_origin = pos 6;
        reasons = timestamp_discontinuity ∷ [];
      }
      ∷ [];
  segments =
      record {
        segment_identity = codes "a";
        source_identity = codes "cam";
        source_order = pos 0;
        epoch_key = codes "capture-epoch-0";
        epoch_sequence = pos 0;
        discontinuity = pos 0;
        source_start_pts = pos 9000;
        source_end_pts_exclusive = pos 12000;
        capture_start_us = pos 0;
        capture_end_us = pos 33333;
        sample_index = record {
          epoch_id = codes "capture-epoch-0";
          time_base = ninety_kilohertz;
          samples =
              record {
                source_pts = pos 9000;
                duration_pts = pos 3000;
                capture_time_us = pos 0;
                capture_frame_index = pos 5;
                keyframe = true;
              }
              ∷ [];
          available_start_us = pos 0;
          available_end_us = pos 33333;
        };
      }
      ∷ record {
        segment_identity = codes "b";
        source_identity = codes "cam";
        source_order = pos 1;
        epoch_key = codes "capture-epoch-1";
        epoch_sequence = pos 1;
        discontinuity = pos 1;
        source_start_pts = pos 15000;
        source_end_pts_exclusive = pos 18000;
        capture_start_us = pos 66666;
        capture_end_us = pos 99999;
        sample_index = record {
          epoch_id = codes "capture-epoch-1";
          time_base = ninety_kilohertz;
          samples =
              record {
                source_pts = pos 15000;
                duration_pts = pos 3000;
                capture_time_us = pos 66666;
                capture_frame_index = pos 6;
                keyframe = true;
              }
              ∷ [];
          available_start_us = pos 66666;
          available_end_us = pos 99999;
        };
      }
      ∷ [];
  gaps =
      record {
        start_us = pos 33333;
        end_us = pos 66666;
        before_segment_identity = codes "a";
        after_segment_identity = codes "b";
        discontinuity = pos 1;
        reasons = timestamp_discontinuity ∷ [];
      }
      ∷ [];
  available_ranges =
      record {
        start_us = pos 0;
        end_us = pos 33333;
        discontinuity = pos 0;
        segment_identities = (codes "a") ∷ [];
      }
      ∷ record {
        start_us = pos 66666;
        end_us = pos 99999;
        discontinuity = pos 1;
        segment_identities = (codes "b") ∷ [];
      }
      ∷ [];
  live_edge_capture_time_us = pos 99999;
  next_capture_frame_index = pos 7;
}

two_segments_accepted : plan_capture_epochs input config ≡ ok planned
unfolding plan_capture_epochs pos_part neg_part segment_bounds round_nearest_away ◌-ℤ◌
    build_sample_index next_frame_index add_reason reconcile_gap_candidates next_int32_sequence
    opens_playback_discontinuity to_decimal
two_segments_accepted = refl

batch_example :
    Timeline none (pos 5) planned.segments planned.next_capture_frame_index
    × (live_edge planned.segments ≡ ok planned.live_edge_capture_time_us)
batch_example = plan_capture_epochs-Timeline input config planned two_segments_accepted

replayed_example : plan_capture_epochs (input ++ first_segment ∷ []) config ≡ ok planned
replayed_example =
    plan_capture_epochs-replayed input first_segment config planned (Memᴰ.head refl)
      two_segments_accepted
