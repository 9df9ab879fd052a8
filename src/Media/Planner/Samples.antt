-- ===== src/Media/Planner/Samples.antt =====
-- Proofs about buildSampleIndex of packages/media/src/epoch-planner.ts.
use volleyball_monitoring_ai.Base.{◌≡◌, refl, ap, ◌∙◌, List, [], ◌∷◌, ok, length, last_of}
use volleyball_monitoring_ai.Base.Int.{ℤ, pos, ◌+ℤ◌, ◌-ℤ◌, int_laws}
use volleyball_monitoring_ai.Media.Rational.Bounds.{IsPositive, us_value, rescale_pts_to_us_lem}
use volleyball_monitoring_ai.Media.SampleIndex.{IndexedSample}
use volleyball_monitoring_ai.Media.Planner.{
  SourceSampleTiming, FinalizedIndexedSegment, SegmentBounds, PlannedCaptureEpoch, build_samples,
  build_sample_index, next_frame_index,
}

-- A sample with the given frame index, placed by the epoch.
unfoldable pub place : PlannedCaptureEpoch → ℤ → SourceSampleTiming → IndexedSample
place epoch frame_index sample = record {
  source_pts = sample.source_pts;
  duration_pts = sample.duration_pts;
  capture_time_us =
      epoch.capture_time_origin_us
      +ℤ us_value (sample.source_pts -ℤ epoch.source_pts_origin) epoch.time_base;
  capture_frame_index = frame_index;
  keyframe = sample.keyframe;
}

unfoldable pub place_all : PlannedCaptureEpoch → ℤ → List SourceSampleTiming → List IndexedSample
place_all epoch frame_index [] = []
place_all epoch frame_index (sample ∷ samples) =
    place epoch frame_index sample ∷ place_all epoch (frame_index +ℤ pos 1) samples

build_samples-place_all :
    (epoch : PlannedCaptureEpoch) (frame_index : ℤ) (samples : List SourceSampleTiming)
    → IsPositive epoch.time_base
    → build_samples epoch frame_index samples ≡ ok (place_all epoch frame_index samples)
unfolding build_samples place_all place
build_samples-place_all epoch frame_index [] h = refl
build_samples-place_all epoch frame_index (sample ∷ samples) h = rw (
  rescale_pts_to_us_lem (sample.source_pts -ℤ epoch.source_pts_origin) epoch.time_base h,
  build_samples-place_all epoch (frame_index +ℤ pos 1) samples h,
)

last_frame :
    (epoch : PlannedCaptureEpoch) (x : IndexedSample) (samples : List SourceSampleTiming)
    → (last_of x (place_all epoch (x.capture_frame_index +ℤ pos 1) samples)).capture_frame_index
      ≡ x.capture_frame_index +ℤ pos (length samples)
unfolding place_all place
last_frame epoch x [] = omega int_laws
last_frame epoch x (sample ∷ samples) =
    last_frame epoch (place epoch (x.capture_frame_index +ℤ pos 1) sample) samples ∙ omega int_laws

-- The whole index, and the frame index behind it.
pub build_sample_index_lem :
    (segment : FinalizedIndexedSegment) (bounds : SegmentBounds) (epoch : PlannedCaptureEpoch)
    (frame_origin : ℤ) (first : SourceSampleTiming) (rest : List SourceSampleTiming)
    → IsPositive epoch.time_base
    → segment.samples ≡ first ∷ rest
    → build_sample_index segment bounds epoch frame_origin
      ≡ ok (record {
        epoch_id = epoch.epoch_key;
        time_base = epoch.time_base;
        samples = place_all epoch frame_origin (first ∷ rest);
        available_start_us = (place epoch frame_origin first).capture_time_us;
        available_end_us =
            epoch.capture_time_origin_us
            +ℤ us_value (bounds.end_pts_exclusive -ℤ epoch.source_pts_origin) epoch.time_base;
      })
unfolding build_sample_index place_all
build_sample_index_lem segment bounds epoch frame_origin first rest h e = rw (
  e,
  build_samples-place_all epoch frame_origin (first ∷ rest) h,
  rescale_pts_to_us_lem (bounds.end_pts_exclusive -ℤ epoch.source_pts_origin) epoch.time_base h,
)

pub next_frame_index_lem :
    (epoch : PlannedCaptureEpoch) (frame_origin : ℤ) (first : SourceSampleTiming)
    (rest : List SourceSampleTiming)
    → next_frame_index (place_all epoch frame_origin (first ∷ rest))
      ≡ ok (frame_origin +ℤ pos (length (first ∷ rest)))
unfolding next_frame_index place_all place
next_frame_index_lem epoch frame_origin first rest =
    ap ok (
      ap (λ f. f +ℤ pos 1) (last_frame epoch (place epoch frame_origin first) rest)
      ∙ omega int_laws)
