-- ===== src/Media/SampleIndex/Ffprobe/Examples.antt =====
-- Two frames of ffprobe, indexed, written and parsed.
use volleyball_monitoring_ai.Base.Int.{neg_part, pos_part, ◌-ℤ◌}
use volleyball_monitoring_ai.Base.Text.{text_eq}
use volleyball_monitoring_ai.Media.SampleIndex.Ffprobe.{
  check_previous_end, is_bad_key_frame, is_key, parse_ffprobe_integer,
}
use volleyball_monitoring_ai.Base.Decimal.{is_signed_decimal, of_decimal}
use volleyball_monitoring_ai.Media.Rational.{round_nearest_away}
use volleyball_monitoring_ai.Base.{◌≡◌, refl, true, false, List, [], ◌∷◌, some, ok}
use volleyball_monitoring_ai.Base.Text.{codes}
use volleyball_monitoring_ai.Base.Int.{pos}
use volleyball_monitoring_ai.Media.SampleIndex.{CaptureEpochOrigin, SampleIndex}
use volleyball_monitoring_ai.Media.SampleIndex.Document.{
  SampleIndexDocument, serialize_sample_index, parse_sample_index_document,
}
use volleyball_monitoring_ai.Media.SampleIndex.Document.RoundTrip.{
  document_json, parse-serialize-build_sample_index,
}
use volleyball_monitoring_ai.Media.SampleIndex.Ffprobe.{FfprobeFrame, build_sample_index}

abbrev origin : CaptureEpochOrigin
origin = record {
  epoch_id = codes "e";
  source_pts_origin = pos 9000;
  capture_time_origin_us = pos 100;
  capture_frame_origin = pos 7;
  time_base = record { num = pos 1; den = pos 90000 };
}

abbrev frames : List FfprobeFrame
frames =
    record {
      media_type = codes "video";
      pts = some (codes "9000");
      pkt_duration = some (codes "3000");
      key_frame = some (pos 1);
    }
    ∷ record {
      media_type = codes "video";
      pts = some (codes "12000");
      pkt_duration = some (codes "3000");
      key_frame = some (pos 0);
    }
    ∷ []

abbrev index : SampleIndex
index = record {
  epoch_id = codes "e";
  time_base = record { num = pos 1; den = pos 90000 };
  samples =
      record {
        source_pts = pos 9000;
        duration_pts = pos 3000;
        capture_time_us = pos 100;
        capture_frame_index = pos 7;
        keyframe = true;
      }
      ∷ record {
        source_pts = pos 12000;
        duration_pts = pos 3000;
        capture_time_us = pos 33433;
        capture_frame_index = pos 8;
        keyframe = false;
      }
      ∷ [];
  available_start_us = pos 100;
  available_end_us = pos 66767;
}

frames_indexed : build_sample_index frames origin ≡ ok index
unfolding build_sample_index pos_part neg_part text_eq parse_ffprobe_integer is_signed_decimal
    of_decimal is_bad_key_frame check_previous_end round_nearest_away ◌-ℤ◌ is_key
frames_indexed = refl

built_document_example :
    (document : SampleIndexDocument) × (serialize_sample_index index ≡ ok document)
    × (parse_sample_index_document (document_json document) origin ≡ ok index)
built_document_example = parse-serialize-build_sample_index frames origin index frames_indexed
