-- ===== src/Media/SampleIndex/Ffprobe/Finished.antt =====
-- Proofs about buildSampleIndex of packages/media/src/sample-index.ts.
use volleyball_monitoring_ai.Base.{◌≡◌, List, none, ok, >>=-eq-ok, >>-eq-ok}
use volleyball_monitoring_ai.Media.SampleIndex.{
  CaptureEpochOrigin, IndexedSample, SampleIndex, validate_epoch_origin,
}
use volleyball_monitoring_ai.Media.SampleIndex.Sequence.{Finished, finish_index-Finished}
use volleyball_monitoring_ai.Media.SampleIndex.Ffprobe.{
  FfprobeFrame, frame_samples, build_sample_index,
}

pub build_sample_index-Finished :
    (frames : List FfprobeFrame) (origin : CaptureEpochOrigin) (index : SampleIndex)
    → build_sample_index frames origin ≡ ok index
    → (samples : List IndexedSample) × (validate_epoch_origin origin ≡ ok tt)
      × Finished origin origin.epoch_id origin.time_base samples index
unfolding build_sample_index
build_sample_index-Finished frames origin index e =
    let (valid, e₁) = >>-eq-ok (validate_epoch_origin origin) _ e in
    let (samples, _, e₂) =
      >>=-eq-ok (frame_samples origin none origin.capture_frame_origin frames) _ e₁ in
    (samples, valid, finish_index-Finished origin.epoch_id origin.time_base samples origin index e₂)
