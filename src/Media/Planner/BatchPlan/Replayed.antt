-- ===== src/Media/Planner/BatchPlan/Replayed.antt =====
-- Proofs about planCaptureEpochs of packages/media/src/epoch-planner.ts: replayed batches.
use mathlib.Core.List.{Memᴰ}
use volleyball_monitoring_ai.Base.{
  ◌≡◌, refl, false, List, [], ◌∷◌, ◌++◌, ok, >>=-eq-ok, >>-eq-ok, ◌||◌,
}
use volleyball_monitoring_ai.Base.Int.{pos, ltb_ℤ}
use volleyball_monitoring_ai.Media.Errors.{invalid_config, invalid_segment}
use volleyball_monitoring_ai.Media.Planner.{
  FinalizedIndexedSegment, CaptureEpochPlannerConfig, fail_if,
}
use volleyball_monitoring_ai.Media.Planner.Batch.{CaptureEpochPlan, collect_unique}
use volleyball_monitoring_ai.Media.Planner.Batch.Replay.{collect_unique-replayed}
use volleyball_monitoring_ai.Media.Planner.BatchPlan.{plan_capture_epochs, is_no_segment}

is_no_segment-snoc :
    (input : List FinalizedIndexedSegment) (s : FinalizedIndexedSegment)
    → is_no_segment (input ++ s ∷ []) ≡ false
unfolding is_no_segment
is_no_segment-snoc [] s = refl
is_no_segment-snoc (t ∷ input) s = refl

-- If a batch is planned, the batch with one of its segments once more at the end has the same plan.
pub plan_capture_epochs-replayed :
    (input : List FinalizedIndexedSegment) (s : FinalizedIndexedSegment)
    (config : CaptureEpochPlannerConfig) (plan : CaptureEpochPlan)
    → Memᴰ s input
    → plan_capture_epochs input config ≡ ok plan
    → plan_capture_epochs (input ++ s ∷ []) config ≡ ok plan
unfolding plan_capture_epochs
plan_capture_epochs-replayed input s config plan m e =
    let (valid, e₁) =
      >>-eq-ok
        (fail_if
          (ltb_ℤ config.canonical_frame_origin (pos 0)
            || ltb_ℤ config.timestamp_tolerance_us (pos 0))
          invalid_config)
        _ e in
    let (_, e₂) = >>-eq-ok (fail_if (is_no_segment input) invalid_segment) _ e₁ in
    let (entries, unique, e₃) = >>=-eq-ok (collect_unique [] input) _ e₂ in
    rw (valid, is_no_segment-snoc input s, collect_unique-replayed [] input s entries m unique) e₃
