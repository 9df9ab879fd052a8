-- ===== src/Media/Resolver/Examples.antt =====
-- The resolver on a segment of three frames that are 10 microseconds apart.
use volleyball_monitoring_ai.Base.Int.{neg_part, pos_part}
use volleyball_monitoring_ai.Base.Text.{is_blank, text_eq}
use volleyball_monitoring_ai.Media.SampleIndex.Document.{serialize_sample_index}
use volleyball_monitoring_ai.Media.Rational.{round_nearest_away, same_time_base}
use volleyball_monitoring_ai.Base.Int.{neg_part, pos_part}
use volleyball_monitoring_ai.Base.Int.{neg_part, pos_part}
use volleyball_monitoring_ai.Base.Text.{is_blank, text_eq}
use volleyball_monitoring_ai.Media.SampleIndex.Document.{serialize_sample_index}
use volleyball_monitoring_ai.Media.Rational.{round_nearest_away, same_time_base}
use volleyball_monitoring_ai.Base.{◌≡◌, refl, true, List, [], ◌∷◌, none, ok, ◌⊎◌, All, err}
use volleyball_monitoring_ai.Base.Text.{codes}
use volleyball_monitoring_ai.Base.Int.{ℤ, pos, ◌+ℤ◌}
use volleyball_monitoring_ai.Media.Errors.{invalid_segment_set, sample_not_found, resolver_error}
use volleyball_monitoring_ai.Media.SampleIndex.{IndexedSample}
use volleyball_monitoring_ai.Media.Resolver.{
  Best, next, stepped, resolved, resolve_canonical_time_across_segments, frame_step_across_segments,
}
use volleyball_monitoring_ai.Media.Resolver.Validation.{
  IndexedSegment, IndexedLocation, validate_segments,
}
use volleyball_monitoring_ai.Media.Resolver.Span.{frame_of, Linked, validate_segments-Linked}
use volleyball_monitoring_ai.Media.Resolver.Resolution.{
  IsNearest, Outside, resolve_canonical_time_across_segments-IsNearest,
}
use volleyball_monitoring_ai.Media.Resolver.RoundTrip.{
  Reversible, frame_step_across_segments-Reversible,
}

abbrev sample_at : ℤ → ℤ → IndexedSample
sample_at frame time = record {
  source_pts = time;
  duration_pts = pos 10;
  capture_time_us = time;
  capture_frame_index = frame;
  keyframe = true;
}

abbrev segment : IndexedSegment
segment = record {
  segment_id = codes "s";
  index = record {
    epoch_id = codes "e";
    time_base = record { num = pos 1; den = pos 1000000 };
    samples =
        sample_at (pos 0) (pos 0) ∷ sample_at (pos 1) (pos 10) ∷ sample_at (pos 2) (pos 20) ∷ [];
    available_start_us = pos 0;
    available_end_us = pos 30;
  };
  discontinuity = none;
}

abbrev span : List IndexedSegment
span = segment ∷ []

abbrev location_at : ℤ → ℤ → IndexedLocation
location_at frame time = record {
  epoch_id = codes "e";
  segment_id = codes "s";
  sample = sample_at frame time;
}

abbrev locations : List IndexedLocation
locations =
    location_at (pos 0) (pos 0) ∷ location_at (pos 1) (pos 10) ∷ location_at (pos 2) (pos 20) ∷ []

span_valid : validate_segments span (pos 0) (pos 30) invalid_segment_set ≡ ok locations
unfolding validate_segments pos_part neg_part is_blank serialize_sample_index ◌+ℤ◌
    round_nearest_away same_time_base text_eq
span_valid = refl

-- A target between two frames.
target_example :
    ((b : Best) × (resolve_canonical_time_across_segments span (pos 14) (pos 0) (pos 30)
        ≡ ok (resolved b))
      × IsNearest (pos 14) (pos 0) (pos 30) locations b)
    ⊎ ((resolve_canonical_time_across_segments span (pos 14) (pos 0) (pos 30)
          ≡ err (resolver_error sample_not_found))
        × All (Outside (pos 14) (pos 0) (pos 30)) locations)
unfolding pos_part neg_part
target_example =
    resolve_canonical_time_across_segments-IsNearest span (pos 14) (pos 0) (pos 30) locations
      span_valid refl

step_valid :
    frame_step_across_segments span (pos 1) next (pos 0) (pos 30)
    ≡ ok (stepped (location_at (pos 2) (pos 20)))
unfolding frame_step_across_segments pos_part neg_part is_blank serialize_sample_index ◌+ℤ◌
    round_nearest_away same_time_base text_eq
step_valid = refl

step_example :
    (from : IndexedLocation) × (to : IndexedLocation) × (frame_of from ≡ pos 1)
    × (stepped (location_at (pos 2) (pos 20)) ≡ stepped to)
    × Reversible span (pos 0) (pos 30) next from to
step_example =
    frame_step_across_segments-Reversible span (pos 1) next (pos 0) (pos 30)
      (stepped (location_at (pos 2) (pos 20))) step_valid

span_example : Linked [] locations
span_example =
    validate_segments-Linked span (pos 0) (pos 30) invalid_segment_set locations span_valid
