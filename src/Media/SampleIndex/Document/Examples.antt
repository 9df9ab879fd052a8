-- ===== src/Media/SampleIndex/Document/Examples.antt =====
-- A stored document with one sample, its keys in another order than the program writes them.
use volleyball_monitoring_ai.Media.SampleIndex.{validate_epoch_origin}
use volleyball_monitoring_ai.Base.Int.{neg_part, pos_part, ◌-ℤ◌}
use volleyball_monitoring_ai.Base.Json.{get, has_exact_keys}
use volleyball_monitoring_ai.Base.Text.{text_eq}
use volleyball_monitoring_ai.Media.SampleIndex.Document.{
  parse_nonnegative_decimal, parse_positive_decimal, parse_sample, parse_signed_decimal,
}
use volleyball_monitoring_ai.Base.Decimal.{
  is_nonnegative_decimal, is_positive_decimal, is_signed_decimal, of_decimal,
}
use volleyball_monitoring_ai.Media.Rational.{round_nearest_away, same_time_base}
use volleyball_monitoring_ai.Base.{◌≡◌, refl, true, [], ◌∷◌, ok}
use volleyball_monitoring_ai.Base.Text.{codes}
use volleyball_monitoring_ai.Base.Int.{pos, negsuc}
use volleyball_monitoring_ai.Base.Json.{Json, string, boolean, object, array, nil, cons, field, end}
use volleyball_monitoring_ai.Media.SampleIndex.{CaptureEpochOrigin, SampleIndex}
use volleyball_monitoring_ai.Media.SampleIndex.Document.{
  SampleIndexDocument, serialize_sample_index, parse_sample_index_document,
}
use volleyball_monitoring_ai.Media.SampleIndex.Document.RoundTrip.{
  document_json, parse-serialize-parse,
}

abbrev origin : CaptureEpochOrigin
origin = record {
  epoch_id = codes "e";
  source_pts_origin = negsuc 9;
  capture_time_origin_us = pos 0;
  capture_frame_origin = pos 0;
  time_base = record { num = pos 1; den = pos 1000000 };
}

abbrev stored : Json
stored = object (
    field (codes "samples")
      (array (
        cons
          (object (
            field (codes "keyframe") (boolean true) (
              field (codes "sourcePts") (string (codes "-10")) (
                field (codes "durationPts") (string (codes "5")) (
                  field (codes "captureTimeUs") (string (codes "0"))
                    (field (codes "captureFrameIndex") (string (codes "0")) end))))))
          nil))
      (field (codes "timeBase")
        (object (
          field (codes "den") (string (codes "1000000"))
            (field (codes "num") (string (codes "1")) end)))
        (field (codes "epochId") (string (codes "e"))
          (field (codes "schemaVersion") (string (codes "1.0.0")) end))))

abbrev index : SampleIndex
index = record {
  epoch_id = codes "e";
  time_base = record { num = pos 1; den = pos 1000000 };
  samples =
      record {
        source_pts = negsuc 9;
        duration_pts = pos 5;
        capture_time_us = pos 0;
        capture_frame_index = pos 0;
        keyframe = true;
      }
      ∷ [];
  available_start_us = pos 0;
  available_end_us = pos 5;
}

stored_parsed : parse_sample_index_document stored origin ≡ ok index
unfolding parse_sample_index_document validate_epoch_origin pos_part neg_part has_exact_keys text_eq
    get parse_positive_decimal is_positive_decimal same_time_base of_decimal parse_sample
    parse_signed_decimal is_signed_decimal parse_nonnegative_decimal is_nonnegative_decimal
    round_nearest_away ◌-ℤ◌
stored_parsed = refl

stored_document_example :
    (document : SampleIndexDocument) × (serialize_sample_index index ≡ ok document)
    × (parse_sample_index_document (document_json document) origin ≡ ok index)
stored_document_example = parse-serialize-parse stored origin index stored_parsed
