-- ===== src/Media/Planner/BatchPlan/Choice.antt =====
-- packages/media/src/epoch-planner.ts: the choice of the epoch of a segment in `planCaptureEpochs`.
use volleyball_monitoring_ai.Base.{
  Bool, true, false, List, [], ◌∷◌, ◌++◌, Option, none, some, Result, ok, err, ◌>>=◌, ◌&&◌, not,
  if◌then◌else◌,
}
use volleyball_monitoring_ai.Base.Text.{Text, codes, text_eq}
use volleyball_monitoring_ai.Base.Int.{ℤ, pos, ◌+ℤ◌, ◌-ℤ◌, ltb_ℤ, leb_ℤ}
use volleyball_monitoring_ai.Base.Decimal.{to_decimal}
use volleyball_monitoring_ai.Media.Errors.{MediaError, planner_error, invalid_segment}
use volleyball_monitoring_ai.Media.Rational.{same_time_base, rescale_pts_to_us}
use volleyball_monitoring_ai.Media.Planner.{
  CaptureEpochPlannerConfig, DiscontinuityReason, session_start, pts_reset, timestamp_discontinuity,
  source_restart, source_identity_change, time_base_change, explicit_gap, PlannedCaptureEpoch,
  absolute, add_reason, add_reason_if, reconcile_gap_candidates, next_frame_index,
  next_int32_sequence, opens_playback_discontinuity,
}
use volleyball_monitoring_ai.Media.Planner.Batch.{
  PlannedCaptureSegment, CaptureGapRange, PlannedAvailabilityRange, Entry,
}

pub epoch_key : ℤ → Text
epoch_key sequence = codes "capture-epoch-" ++ to_decimal sequence

-- `reasons` and `gapCandidates`.
pub record Observations : Type 0 where
  pub reasons : List DiscontinuityReason
  pub gap_candidates : List ℤ

is_set : Option Bool → Bool
is_set none = false
is_set (some b) = b

is_same_source : Entry → Entry → Bool
is_same_source previous entry =
    text_eq entry.segment.source_identity previous.segment.source_identity
    && same_time_base entry.segment.time_base previous.segment.time_base

observe_signals : Entry → Entry → List DiscontinuityReason
unfolding is_set
observe_signals previous entry =
    let restarted = add_reason_if (is_set entry.segment.source_restart) [] source_restart in
    let signalled =
      add_reason_if (is_set entry.segment.timestamp_discontinuity) restarted
        timestamp_discontinuity in
    let moved =
      add_reason_if (not (text_eq entry.segment.source_identity previous.segment.source_identity))
        signalled source_identity_change in
    add_reason_if (not (same_time_base entry.segment.time_base previous.segment.time_base)) moved
      time_base_change

observe_explicit_gap : Option ℤ → List DiscontinuityReason → Observations
observe_explicit_gap none reasons = record { reasons = reasons; gap_candidates = [] }
observe_explicit_gap (some gap) reasons = record {
  reasons = add_reason reasons explicit_gap;
  gap_candidates = gap ∷ [];
}

push_positive : ℤ → List ℤ → List ℤ
push_positive candidate candidates =
    if ltb_ℤ (pos 0) candidate then candidates ++ candidate ∷ [] else candidates

-- The ticks of one source, against the end of the segment before.
observe_pts_delta : Entry → Entry → Observations → Result MediaError Observations
unfolding push_positive
observe_pts_delta previous entry seen = do
  let pts_delta = entry.bounds.first_pts -ℤ previous.bounds.end_pts_exclusive
  let kind =
      if leb_ℤ entry.bounds.first_pts previous.bounds.last_pts
      then pts_reset
      else timestamp_discontinuity
  let reset : Observations = record seen { reasons = add_reason seen.reasons kind }
  let hole = do
    pts_gap_us ← rescale_pts_to_us pts_delta entry.segment.time_base
    ok (record {
      reasons = add_reason seen.reasons timestamp_discontinuity;
      gap_candidates = push_positive pts_gap_us seen.gap_candidates;
    })
  if ltb_ℤ pts_delta (pos 0) then ok reset else if ltb_ℤ (pos 0) pts_delta then hole else ok seen

-- The independent start times, if both segments have one.
observe_drift : ℤ → Option ℤ → Option ℤ → ℤ → Observations → Observations
unfolding push_positive
observe_drift tolerance_us (some previous_start) (some start) duration_us seen =
    let drift = start -ℤ (previous_start +ℤ duration_us) in
    if ltb_ℤ tolerance_us (absolute drift)
    then (record {
      reasons = add_reason seen.reasons timestamp_discontinuity;
      gap_candidates = push_positive drift seen.gap_candidates;
    })
    else seen
observe_drift tolerance_us _ _ duration_us seen = seen

observe : CaptureEpochPlannerConfig → Entry → Entry → Result MediaError Observations
unfolding observe_signals observe_explicit_gap observe_pts_delta observe_drift is_same_source
observe config previous entry = do
  let explicit =
      observe_explicit_gap entry.segment.explicit_gap_before_us (observe_signals previous entry)
  seen ←
      if is_same_source previous entry
      then observe_pts_delta previous entry explicit
      else ok explicit
  ok (
      observe_drift config.timestamp_tolerance_us previous.segment.source_start_time_us
        entry.segment.source_start_time_us previous.bounds.duration_us seen)

-- The last round's entry, segment and epoch, and the last of the available ranges.
pub record Latest : Type 0 where
  pub entry : Entry
  pub plan : PlannedCaptureSegment
  pub epoch : PlannedCaptureEpoch
  pub range : PlannedAvailabilityRange

-- The epoch of a segment, and what this round pushes to `epochs` and to `gaps`.
pub record Chosen : Type 0 where
  pub epoch : PlannedCaptureEpoch
  pub opened : List PlannedCaptureEpoch
  pub gaps : List CaptureGapRange

choose_first : CaptureEpochPlannerConfig → ℤ → Entry → Option ℤ → Result MediaError Chosen
unfolding epoch_key
choose_first config next_frame_index entry (some gap) = err (planner_error invalid_segment)
choose_first config next_frame_index entry none = do
  let epoch : PlannedCaptureEpoch = record {
    epoch_key = epoch_key (pos 0);
    epoch_sequence = pos 0;
    discontinuity = pos 0;
    source_identity = entry.segment.source_identity;
    time_base = entry.segment.time_base;
    source_pts_origin = entry.bounds.first_pts;
    capture_time_origin_us = config.canonical_session_origin_us;
    capture_frame_origin = next_frame_index;
    reasons = session_start ∷ [];
  }
  ok (record { epoch = epoch; opened = epoch ∷ []; gaps = [] })

open_epoch :
    CaptureEpochPlannerConfig → Latest → ℤ → Entry → Observations → Result MediaError Chosen
unfolding epoch_key
open_epoch config latest next_frame_index entry seen = do
  gap_us ← reconcile_gap_candidates seen.gap_candidates config.timestamp_tolerance_us
  sequence ← next_int32_sequence latest.epoch.epoch_sequence
  discontinuity ←
      if opens_playback_discontinuity seen.reasons gap_us
      then next_int32_sequence latest.epoch.discontinuity
      else ok latest.epoch.discontinuity
  let capture_origin_us = latest.plan.capture_end_us +ℤ gap_us
  let epoch : PlannedCaptureEpoch = record {
    epoch_key = epoch_key sequence;
    epoch_sequence = sequence;
    discontinuity = discontinuity;
    source_identity = entry.segment.source_identity;
    time_base = entry.segment.time_base;
    source_pts_origin = entry.bounds.first_pts;
    capture_time_origin_us = capture_origin_us;
    capture_frame_origin = next_frame_index;
    reasons = seen.reasons;
  }
  let gap : CaptureGapRange = record {
    start_us = latest.plan.capture_end_us;
    end_us = capture_origin_us;
    before_segment_identity = latest.plan.segment_identity;
    after_segment_identity = entry.segment.segment_identity;
    discontinuity = discontinuity;
    reasons = seen.reasons;
  }
  let gaps = if ltb_ℤ (pos 0) gap_us then gap ∷ [] else []
  ok (record { epoch = epoch; opened = epoch ∷ []; gaps = gaps })

is_unchanged : List DiscontinuityReason → Bool
is_unchanged [] = true
is_unchanged (_ ∷ _) = false

unfoldable pub choose_epoch :
    CaptureEpochPlannerConfig → Option Latest → ℤ → Entry → Result MediaError Chosen
unfolding choose_first open_epoch observe is_unchanged
choose_epoch config none next_frame_index entry =
    choose_first config next_frame_index entry entry.segment.explicit_gap_before_us
choose_epoch config (some latest) next_frame_index entry = do
  seen ← observe config latest.entry entry
  let kept : Chosen = record { epoch = latest.epoch; opened = []; gaps = [] }
  if is_unchanged seen.reasons
      then ok kept
      else open_epoch config latest next_frame_index entry seen
