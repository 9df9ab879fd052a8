-- ===== src/Media/Planner/Batch.antt =====
-- packages/media/src/epoch-planner.ts: planCaptureEpochs, which plans a batch of finalized segments.
pub mod Replay
use volleyball_monitoring_ai.Base.{
  Bool, true, false, List, [], ◌∷◌, ◌++◌, Option, none, some, Result, ok, err, ◌>>=◌, ◌>>◌, ◌||◌,
  ◌&&◌, not, any, find, last_of, if◌then◌else◌,
}
use volleyball_monitoring_ai.Base.Text.{Text, codes, text_eq}
use volleyball_monitoring_ai.Base.Int.{ℤ, pos, ◌+ℤ◌, ◌-ℤ◌, ltb_ℤ, leb_ℤ, eqb_ℤ}
use volleyball_monitoring_ai.Base.Decimal.{to_decimal}
use volleyball_monitoring_ai.Media.Errors.{
  MediaError, planner_error, plain_error, invalid_config, invalid_segment, order_conflict,
  duplicate_conflict,
}
use volleyball_monitoring_ai.Media.Rational.{Rational, same_time_base, rescale_pts_to_us}
use volleyball_monitoring_ai.Media.SampleIndex.{IndexedSample, SampleIndex}
use volleyball_monitoring_ai.Media.Planner.{
  SourceSampleTiming, FinalizedIndexedSegment, CaptureEpochPlannerConfig, DiscontinuityReason,
  session_start, pts_reset, timestamp_discontinuity, source_restart, source_identity_change,
  time_base_change, explicit_gap, PlannedCaptureEpoch, SegmentBounds, fail_if, absolute,
  segment_bounds, add_reason, add_reason_if, reconcile_gap_candidates, build_sample_index,
  next_frame_index, next_int32_sequence, opens_playback_discontinuity,
}

pub record PlannedCaptureSegment : Type 0 where
  pub segment_identity : Text
  pub source_identity : Text
  pub source_order : ℤ
  pub epoch_key : Text
  pub epoch_sequence : ℤ
  pub discontinuity : ℤ
  pub source_start_pts : ℤ
  pub source_end_pts_exclusive : ℤ
  pub capture_start_us : ℤ
  pub capture_end_us : ℤ
  pub sample_index : SampleIndex

pub record CaptureGapRange : Type 0 where
  pub start_us : ℤ
  pub end_us : ℤ
  pub before_segment_identity : Text
  pub after_segment_identity : Text
  pub discontinuity : ℤ
  pub reasons : List DiscontinuityReason

pub record PlannedAvailabilityRange : Type 0 where
  pub start_us : ℤ
  pub end_us : ℤ
  pub discontinuity : ℤ
  pub segment_identities : List Text

pub record CaptureEpochPlan : Type 0 where
  pub canonical_session_origin_us : ℤ
  pub canonical_frame_origin : ℤ
  pub epochs : List PlannedCaptureEpoch
  pub segments : List PlannedCaptureSegment
  pub gaps : List CaptureGapRange
  pub available_ranges : List PlannedAvailabilityRange
  pub live_edge_capture_time_us : ℤ
  pub next_capture_frame_index : ℤ

same_option_ℤ : Option ℤ → Option ℤ → Bool
same_option_ℤ none none = true
same_option_ℤ (some a) (some b) = eqb_ℤ a b
same_option_ℤ _ _ = false

same_bool : Bool → Bool → Bool
same_bool true b = b
same_bool false b = not b

same_option_bool : Option Bool → Option Bool → Bool
same_option_bool none none = true
same_option_bool (some a) (some b) = same_bool a b
same_option_bool _ _ = false

-- Equal length, and equal samples at every place.
same_samples : List SourceSampleTiming → List SourceSampleTiming → Bool
same_samples [] [] = true
same_samples (s ∷ samples) (o ∷ others) =
    (eqb_ℤ s.source_pts o.source_pts
      && eqb_ℤ s.duration_pts o.duration_pts
      && same_bool s.keyframe o.keyframe)
    && same_samples samples others
same_samples _ _ = false

same_segment : FinalizedIndexedSegment → FinalizedIndexedSegment → Bool
unfolding same_option_ℤ same_option_bool same_bool same_samples same_time_base text_eq
same_segment left right =
    text_eq left.segment_identity right.segment_identity
    && text_eq left.source_identity right.source_identity
    && eqb_ℤ left.source_order right.source_order
    && same_time_base left.time_base right.time_base
    && same_option_ℤ left.source_start_time_us right.source_start_time_us
    && same_option_bool left.source_restart right.source_restart
    && same_option_bool left.timestamp_discontinuity right.timestamp_discontinuity
    && same_option_ℤ left.explicit_gap_before_us right.explicit_gap_before_us
    && same_samples left.samples right.samples

-- An element of `unique`.
pub record Entry : Type 0 where
  pub segment : FinalizedIndexedSegment
  pub bounds : SegmentBounds

-- `lastOrder !== undefined && segment.sourceOrder <= lastOrder`, of the segments seen, the latest
-- first.
is_late : FinalizedIndexedSegment → List FinalizedIndexedSegment → Bool
is_late segment [] = false
is_late segment (last ∷ _) = leb_ℤ segment.source_order last.source_order

pub has_identity : Text → FinalizedIndexedSegment → Bool
has_identity identity segment = text_eq identity segment.segment_identity

-- The tests of a segment whose identity is new.
check_order : List FinalizedIndexedSegment → FinalizedIndexedSegment → Result MediaError (Unit {0})
unfolding is_late
check_order seen segment = do
  fail_if (any (λ other. eqb_ℤ segment.source_order other.source_order) seen) order_conflict
  fail_if (is_late segment seen) order_conflict

-- The loop over the input. `seen` holds the segments of `unique`, the latest first, and stands for
-- the two maps and for `lastOrder`.
unfoldable pub collect_unique :
    List FinalizedIndexedSegment → List FinalizedIndexedSegment → Result MediaError (List Entry)
unfolding check_order has_identity same_segment
collect_unique seen [] = ok []
collect_unique seen (segment ∷ input) = do
  bounds ← segment_bounds segment
  let replayed = collect_unique seen input
  let taken = do
    check_order seen segment
    entries ← collect_unique (segment ∷ seen) input
    ok (record { segment = segment; bounds = bounds } ∷ entries)
  elim (find (has_identity segment.segment_identity) seen) [
    | none ↦ taken
    | some replay ↦ fail_if (not (same_segment replay segment)) duplicate_conflict >> replayed
  ]
