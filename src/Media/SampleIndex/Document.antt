-- ===== src/Media/SampleIndex/Document.antt =====
-- packages/media/src/sample-index.ts: the stored v1 document, written and parsed.
pub mod RoundTrip
mod Examples
use volleyball_monitoring_ai.Base.{
  ℕ, ◌≡◌, refl, Bool, true, false, List, [], ◌∷◌, map, Option, none, some, Result, ok, err, ◌>>=◌,
  ◌>>◌, throw_if, ◌||◌, not,
}
use volleyball_monitoring_ai.Base.Text.{Text, codes, text_eq, is_blank}
use volleyball_monitoring_ai.Base.Int.{ℤ}
use volleyball_monitoring_ai.Base.Decimal.{
  to_decimal, of_decimal, is_signed_decimal, is_nonnegative_decimal, is_positive_decimal,
}
use volleyball_monitoring_ai.Base.Json.{
  Json, string, boolean, object, array, Items, nil, cons, Fields, field, end, get, has_exact_keys,
}
use volleyball_monitoring_ai.Media.Errors.{
  MediaError, sample_index_error, invalid_document, empty_index, plain_error,
}
use volleyball_monitoring_ai.Media.Rational.{Rational, same_time_base}
use volleyball_monitoring_ai.Media.SampleIndex.{
  CaptureEpochOrigin, IndexedSample, SampleIndex, fail_if, validate_epoch_origin,
  validate_sample_sequence, validate_index, finish_index,
}

pub record SampleIndexSampleDocument : Type 0 where
  pub source_pts : Text
  pub duration_pts : Text
  pub capture_time_us : Text
  pub capture_frame_index : Text
  pub keyframe : Bool

pub record TimeBaseDocument : Type 0 where
  pub num : Text
  pub den : Text

pub record SampleIndexDocument : Type 0 where
  pub schema_version : Text
  pub epoch_id : Text
  pub time_base : TimeBaseDocument
  pub samples : List SampleIndexSampleDocument

unfoldable pub serialize_sample : IndexedSample → SampleIndexSampleDocument
serialize_sample sample = record {
  source_pts = to_decimal sample.source_pts;
  duration_pts = to_decimal sample.duration_pts;
  capture_time_us = to_decimal sample.capture_time_us;
  capture_frame_index = to_decimal sample.capture_frame_index;
  keyframe = sample.keyframe;
}

unfoldable pub serialize_sample_index : SampleIndex → Result MediaError SampleIndexDocument
unfolding validate_index serialize_sample
serialize_sample_index index = do
  validate_index index
  ok (record {
    schema_version = codes "1.0.0";
    epoch_id = index.epoch_id;
    time_base = record {
      num = to_decimal index.time_base.num;
      den = to_decimal index.time_base.den;
    };
    samples = map serialize_sample index.samples;
  })

-- A decimal string that the expression accepts.
parse_decimal : (Text → Bool) → Json → Result MediaError ℤ
parse_decimal accepts (string value) = do
  fail_if (not (accepts value)) invalid_document
  ok (of_decimal value)
parse_decimal accepts _ = err (sample_index_error invalid_document)

parse_signed_decimal : Json → Result MediaError ℤ
unfolding parse_decimal
parse_signed_decimal = parse_decimal is_signed_decimal

parse_nonnegative_decimal : Json → Result MediaError ℤ
unfolding parse_decimal
parse_nonnegative_decimal = parse_decimal is_nonnegative_decimal

parse_positive_decimal : Json → Result MediaError ℤ
unfolding parse_decimal
parse_positive_decimal = parse_decimal is_positive_decimal

require_exact_keys : Fields → List Text → Result MediaError (Unit {0})
require_exact_keys value allowed = fail_if (not (has_exact_keys value allowed)) invalid_document

-- `isRecord(value)`, and the object's fields.
require_record : Json → Result MediaError Fields
require_record (object fields) = ok fields
require_record _ = err (sample_index_error invalid_document)

require_boolean : Json → Result MediaError Bool
require_boolean (boolean b) = ok b
require_boolean _ = err (sample_index_error invalid_document)

abbrev sample_keys : List Text
sample_keys =
    codes "sourcePts"
    ∷ codes "durationPts"
    ∷ codes "captureTimeUs"
    ∷ codes "captureFrameIndex"
    ∷ codes "keyframe"
    ∷ []

-- One element of `input.samples`.
parse_sample : Json → Result MediaError IndexedSample
unfolding require_record require_exact_keys require_boolean
parse_sample value = do
  fields ← require_record value
  require_exact_keys fields sample_keys
  keyframe ← require_boolean (get (codes "keyframe") fields)
  source_pts ← parse_signed_decimal (get (codes "sourcePts") fields)
  duration_pts ← parse_positive_decimal (get (codes "durationPts") fields)
  capture_time_us ← parse_nonnegative_decimal (get (codes "captureTimeUs") fields)
  capture_frame_index ← parse_nonnegative_decimal (get (codes "captureFrameIndex") fields)
  ok (record {
    source_pts = source_pts;
    duration_pts = duration_pts;
    capture_time_us = capture_time_us;
    capture_frame_index = capture_frame_index;
    keyframe = keyframe;
  })

parse_samples : Items → Result MediaError (List IndexedSample)
parse_samples nil = ok []
parse_samples (cons value rest) = do
  sample ← parse_sample value
  samples ← parse_samples rest
  ok (sample ∷ samples)

-- `!Array.isArray(input.samples) || input.samples.length === 0`
require_items : Json → Result MediaError Items
require_items (array (cons value rest)) = ok (cons value rest)
require_items _ = err (sample_index_error empty_index)

-- The text must be the given one.
require_text : Text → Json → Result MediaError (Unit {0})
require_text expected (string value) = fail_if (not (text_eq value expected)) invalid_document
require_text expected _ = err (sample_index_error invalid_document)

-- `typeof input.epochId !== 'string' || !input.epochId.trim()`
require_nonempty_text : Json → Result MediaError Text
require_nonempty_text (string value) = do fail_if (is_blank value) invalid_document; ok value
require_nonempty_text _ = err (sample_index_error invalid_document)

abbrev document_keys : List Text
document_keys = codes "schemaVersion" ∷ codes "epochId" ∷ codes "timeBase" ∷ codes "samples" ∷ []

parse_time_base_document : Json → Result MediaError Rational
unfolding require_record require_exact_keys
parse_time_base_document value = do
  fields ← require_record value
  require_exact_keys fields (codes "num" ∷ codes "den" ∷ [])
  num ← parse_positive_decimal (get (codes "num") fields)
  den ← parse_positive_decimal (get (codes "den") fields)
  ok (record { num = num; den = den })

pub parse_sample_index_document : Json → CaptureEpochOrigin → Result MediaError SampleIndex
unfolding require_record require_exact_keys require_text require_nonempty_text require_items
    parse_time_base_document parse_samples finish_index
parse_sample_index_document input origin = do
  validate_epoch_origin origin
  fields ← require_record input
  require_exact_keys fields document_keys
  require_text (codes "1.0.0") (get (codes "schemaVersion") fields)
  epoch_id ← require_nonempty_text (get (codes "epochId") fields)
  fail_if (not (text_eq epoch_id origin.epoch_id)) invalid_document
  time_base ← parse_time_base_document (get (codes "timeBase") fields)
  fail_if (not (same_time_base time_base origin.time_base)) invalid_document
  items ← require_items (get (codes "samples") fields)
  samples ← parse_samples items
  finish_index epoch_id time_base samples origin
