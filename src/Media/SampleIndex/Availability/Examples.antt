-- ===== src/Media/SampleIndex/Availability/Examples.antt =====
-- Three segments, the last one behind a gap.
use volleyball_monitoring_ai.Base.Text.{is_blank, text_eq}
use volleyball_monitoring_ai.Base.Int.{neg_part, pos_part}
use volleyball_monitoring_ai.Media.SampleIndex.{validate_index}
use volleyball_monitoring_ai.Media.Rational.{round_nearest_away, same_time_base}
use volleyball_monitoring_ai.Media.SampleIndex.Availability.{carries_on, extend_range}
use volleyball_monitoring_ai.Base.{◌≡◌, refl, true, List, [], ◌∷◌, map, ok}
use volleyball_monitoring_ai.Base.Text.{Text, codes}
use volleyball_monitoring_ai.Base.Int.{ℤ, pos}
use volleyball_monitoring_ai.Media.SampleIndex.Availability.{
  AvailabilityEntry, AvailabilityRange, build_availability_ranges,
}
use volleyball_monitoring_ai.Media.SampleIndex.Availability.Ranges.{
  segments_of, IsOrdered, build_availability_ranges-IsOrdered,
}

abbrev entry_at : Text → Text → ℤ → ℤ → ℤ → ℤ → AvailabilityEntry
entry_at segment_id epoch_id frame start end discontinuity = record {
  segment_id = segment_id;
  index = record {
    epoch_id = epoch_id;
    time_base = record { num = pos 1; den = pos 1000000 };
    samples =
        record {
          source_pts = start;
          duration_pts = pos 10;
          capture_time_us = start;
          capture_frame_index = frame;
          keyframe = true;
        }
        ∷ [];
    available_start_us = start;
    available_end_us = end;
  };
  discontinuity = discontinuity;
}

abbrev entries : List AvailabilityEntry
entries =
    entry_at (codes "a") (codes "e") (pos 0) (pos 0) (pos 10) (pos 0)
    ∷ entry_at (codes "b") (codes "e") (pos 1) (pos 10) (pos 20) (pos 0)
    ∷ entry_at (codes "c") (codes "f") (pos 2) (pos 50) (pos 60) (pos 1)
    ∷ []

abbrev ranges : List AvailabilityRange
ranges =
    record {
      segment_ids = codes "a" ∷ codes "b" ∷ [];
      start_us = pos 0;
      end_us = pos 20;
      discontinuity = pos 0;
    }
    ∷ record {
      segment_ids = codes "c" ∷ [];
      start_us = pos 50;
      end_us = pos 60;
      discontinuity = pos 1;
    }
    ∷ []

entries_ranged : build_availability_ranges entries ≡ ok ranges
unfolding build_availability_ranges is_blank pos_part neg_part validate_index round_nearest_away
    text_eq same_time_base carries_on extend_range
entries_ranged = refl

ranges_example :
    (segments_of ranges ≡ map (λ (e : AvailabilityEntry). e.segment_id) entries) × IsOrdered ranges
ranges_example = build_availability_ranges-IsOrdered entries ranges entries_ranged
