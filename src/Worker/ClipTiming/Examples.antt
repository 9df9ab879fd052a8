-- ===== src/Worker/ClipTiming/Examples.antt =====
-- The theorems about worker/src/media/clip-timing.ts at a clip of two segments, with one exact and
-- one estimated key point.
use volleyball_monitoring_ai.Base.{ℕ, ◌≡◌, refl, true, List, [], ◌∷◌, some, ok, err, All, Any}
use volleyball_monitoring_ai.Base.Text.{Text, codes}
use volleyball_monitoring_ai.Base.Int.{pos, pos_part, neg_part, ◌+ℤ◌, ◌-ℤ◌}
use volleyball_monitoring_ai.Base.Maps.{map_has}
use volleyball_monitoring_ai.Media.Rational.{Rational, round_nearest_away}
use volleyball_monitoring_ai.Media.SampleIndex.{IndexedSample}
use volleyball_monitoring_ai.Worker.ClipTiming.{
  no_exact_sample, no_complete_sample, ClipSourceSegment, ClipKeyPointAnchor, frame_exact,
  estimated, SelectedClipSourceSample,
}
use volleyball_monitoring_ai.Worker.ClipTiming.Selection.{
  SelectedClipRange, select_canonical_clip_range, map_clip_key_point,
}
use volleyball_monitoring_ai.Worker.ClipTiming.Range.{
  Cut, Placed, select_canonical_clip_range-Cut, select_canonical_clip_range-Placed,
}

-- Frames of 20 ms, in ticks of 1 ms.
abbrev milliseconds : Rational
milliseconds = record { num = pos 1; den = pos 1000 }

abbrev sample_of : ℕ → ℕ → ℕ → IndexedSample
sample_of pts time frame = record {
  source_pts = pos pts;
  duration_pts = pos 20;
  capture_time_us = pos time;
  capture_frame_index = pos frame;
  keyframe = true;
}

abbrev segment_of : Text → ℕ → ℕ → IndexedSample → IndexedSample → ℕ → ℕ → ℕ → ClipSourceSegment
segment_of id start end first second pts pts_end frame = record {
  id = id;
  capture_epoch_id = codes "e";
  capture_start_us = pos start;
  capture_end_us = pos end;
  source_pts_start = some (pos pts);
  source_pts_end = some (pos pts_end);
  first_frame_index = some (pos frame);
  frame_count = pos 2;
  index = record {
    epoch_id = codes "e";
    time_base = milliseconds;
    samples = first ∷ second ∷ [];
    available_start_us = pos start;
    available_end_us = pos end;
  };
}

abbrev clip_segments : List ClipSourceSegment
clip_segments =
    segment_of (codes "a") 0 40000 (sample_of 100 0 7) (sample_of 120 20000 8) 100 140 7
    ∷ segment_of (codes "b") 40000 80000 (sample_of 140 40000 9) (sample_of 160 60000 10) 140 180 9
    ∷ []

abbrev exact_point : ClipKeyPointAnchor
exact_point = record {
  id = codes "p";
  capture_epoch_id = codes "e";
  source_pts = pos 140;
  capture_time_us = pos 40000;
  capture_frame_index = pos 9;
  timing_precision = some frame_exact;
}

abbrev estimated_point : ClipKeyPointAnchor
estimated_point = record {
  id = codes "q";
  capture_epoch_id = codes "provisional";
  source_pts = pos 0;
  capture_time_us = pos 27000;
  capture_frame_index = pos 8;
  timing_precision = some estimated;
}

abbrev clip_points : List ClipKeyPointAnchor
clip_points = exact_point ∷ estimated_point ∷ []

abbrev clip_samples : List SelectedClipSourceSample
clip_samples =
    record { sample = sample_of 120 20000 8; capture_epoch_id = codes "e" }
    ∷ record { sample = sample_of 140 40000 9; capture_epoch_id = codes "e" }
    ∷ record { sample = sample_of 160 60000 10; capture_epoch_id = codes "e" }
    ∷ []

abbrev clip : SelectedClipRange
clip = record {
  capture_epoch_id = codes "e";
  source_time_base = milliseconds;
  actual_start_capture_us = pos 20000;
  actual_end_capture_us = pos 80000;
  source_start_frame = 1;
  source_end_frame_exclusive = 4;
  source_start_offset_us = pos 20000;
  duration_us = pos 60000;
  source_samples = clip_samples;
  key_point_ordinals = (codes "p", 1) ∷ (codes "q", 0) ∷ [];
  resolved_key_point_samples =
      (codes "p", record { sample = sample_of 140 40000 9; capture_epoch_id = codes "e" })
      ∷ (codes "q", record { sample = sample_of 120 20000 8; capture_epoch_id = codes "e" })
      ∷ [];
}

-- The sample that starts at the requested end is kept.
selected_clip :
    select_canonical_clip_range clip_segments (pos 20000) (pos 60000) clip_points ≡ ok clip
unfolding select_canonical_clip_range pos_part neg_part ◌+ℤ◌ round_nearest_away ◌-ℤ◌
selected_clip = refl

clip_example : Cut clip_segments (pos 20000) (pos 60000) clip
clip_example =
    select_canonical_clip_range-Cut clip_segments (pos 20000) (pos 60000) clip_points clip
      selected_clip

placed_example :
    All
      (λ entry. Any (λ point. Placed milliseconds clip_samples point entry) clip_points)
      clip.key_point_ordinals
    × All (λ point. map_has point.id clip.key_point_ordinals ≡ true) clip_points
placed_example =
    select_canonical_clip_range-Placed clip_segments (pos 20000) (pos 60000) clip_points clip
      selected_clip

-- A firm point of another epoch has no sample.
firm_point :
    select_canonical_clip_range clip_segments
      (pos 20000)
      (pos 60000)
      (record estimated_point { timing_precision = some frame_exact } ∷ [])
    ≡ err no_exact_sample
unfolding select_canonical_clip_range pos_part neg_part ◌+ℤ◌ round_nearest_away ◌-ℤ◌
firm_point = refl

behind_the_recording :
    select_canonical_clip_range clip_segments (pos 80000) (pos 90000) [] ≡ err no_complete_sample
unfolding select_canonical_clip_range pos_part neg_part ◌+ℤ◌ round_nearest_away ◌-ℤ◌
behind_the_recording = refl

mapped_point :
    map_clip_key_point 1 (record {
      time_base = milliseconds;
      frames =
          record { pts = pos 5; duration_pts = pos 20 }
          ∷ record { pts = pos 25; duration_pts = pos 20 }
          ∷ [];
    })
    ≡ ok (record { clip_pts = pos 25; clip_time_us = pos 20000; clip_frame_index = 1 })
unfolding map_clip_key_point round_nearest_away ◌-ℤ◌
mapped_point = refl
