-- ===== src/Media/SampleIndex.antt =====
-- packages/media/src/sample-index.ts: sample indexes and their validation. The children hold the
-- stored document, the ffprobe reader and the availability ranges, and the proofs.
pub mod Document
pub mod Ffprobe
pub mod Availability
pub mod Sequence
pub mod Extent
use volleyball_monitoring_ai.Base.{
  ℕ, ◌≡◌, refl, Bool, true, false, List, [], ◌∷◌, Option, none, some, Result, ok, err, ◌>>=◌, ◌>>◌,
  throw_if, ◌||◌, not, last_of, if◌then◌else◌,
}
use volleyball_monitoring_ai.Base.Text.{Text, is_blank}
use volleyball_monitoring_ai.Base.Int.{ℤ, pos, ◌+ℤ◌, ◌-ℤ◌, ltb_ℤ, leb_ℤ, eqb_ℤ}
use volleyball_monitoring_ai.Media.Errors.{
  MediaError, SampleIndexErrorCode, sample_index_error, plain_error, invalid_time_base,
  invalid_frame, invalid_document, invalid_range, non_monotonic, empty_index,
}
use volleyball_monitoring_ai.Media.Rational.{Rational, is_bad_time_base, rescale_pts_to_us}

pub record CaptureEpochOrigin : Type 0 where
  pub epoch_id : Text
  pub source_pts_origin : ℤ
  pub capture_time_origin_us : ℤ
  pub capture_frame_origin : ℤ
  pub time_base : Rational

pub record IndexedSample : Type 0 where
  pub source_pts : ℤ
  pub duration_pts : ℤ
  pub capture_time_us : ℤ
  pub capture_frame_index : ℤ
  pub keyframe : Bool

pub record SampleIndex : Type 0 where
  pub epoch_id : Text
  pub time_base : Rational
  pub samples : List IndexedSample
  pub available_start_us : ℤ
  pub available_end_us : ℤ

-- `throw new SampleIndexError(code, …)`, if the test holds.
abbrev pub fail_if : Bool → SampleIndexErrorCode → Result MediaError (Unit {0})
fail_if test code = throw_if test (sample_index_error code)

unfoldable pub validate_epoch_origin : CaptureEpochOrigin → Result MediaError (Unit {0})
unfolding is_blank
validate_epoch_origin origin = do
  fail_if (is_blank origin.epoch_id) invalid_frame
  fail_if (is_bad_time_base origin.time_base) invalid_time_base
  fail_if (ltb_ℤ origin.capture_time_origin_us (pos 0) || ltb_ℤ origin.capture_frame_origin (pos 0))
      invalid_frame

-- The tests of one sample on its own.
check_sample : IndexedSample → Result MediaError (Unit {0})
check_sample sample = do
  fail_if (leb_ℤ sample.duration_pts (pos 0)) invalid_frame
  fail_if (ltb_ℤ sample.capture_time_us (pos 0) || ltb_ℤ sample.capture_frame_index (pos 0))
      invalid_frame

-- `if (previous) { … }`
check_successor : Option IndexedSample → IndexedSample → Result MediaError (Unit {0})
check_successor none sample = ok tt
check_successor (some previous) sample = do
  fail_if (not (eqb_ℤ sample.source_pts (previous.source_pts +ℤ previous.duration_pts)))
      non_monotonic
  fail_if (not (eqb_ℤ sample.capture_frame_index (previous.capture_frame_index +ℤ pos 1)))
      non_monotonic
  fail_if (leb_ℤ sample.capture_time_us previous.capture_time_us) non_monotonic

-- `if (origin) { … }`
check_origin : Option CaptureEpochOrigin → IndexedSample → Result MediaError (Unit {0})
check_origin none sample = ok tt
check_origin (some origin) sample = do
  offset ← rescale_pts_to_us (sample.source_pts -ℤ origin.source_pts_origin) origin.time_base
  fail_if (not (eqb_ℤ sample.capture_time_us (origin.capture_time_origin_us +ℤ offset)))
      invalid_document
  fail_if (ltb_ℤ sample.capture_frame_index origin.capture_frame_origin) invalid_document

-- The loop of `validateSampleSequence`.
pub validate_samples :
    Option CaptureEpochOrigin
    → Option IndexedSample
    → List IndexedSample
    → Result MediaError (Unit {0})
validate_samples origin previous [] = ok tt
validate_samples origin previous (sample ∷ samples) = do
  check_sample sample
  check_successor previous sample
  check_origin origin sample
  validate_samples origin (some sample) samples

unfoldable pub validate_sample_sequence :
    List IndexedSample → Rational → Option CaptureEpochOrigin → Result MediaError (Unit {0})
unfolding validate_samples check_sample check_successor check_origin rescale_pts_to_us
validate_sample_sequence [] time_base origin = err (sample_index_error empty_index)
validate_sample_sequence (first ∷ rest) time_base origin = do
  validate_samples origin none (first ∷ rest)
  final_duration_us ← rescale_pts_to_us (last_of first rest).duration_pts time_base
  fail_if (leb_ℤ final_duration_us (pos 0)) invalid_frame

-- Of a sequence that is not empty; `samples.at(-1)!` fails on an empty one.
unfoldable pub epoch_relative_end_us : List IndexedSample → CaptureEpochOrigin → Result MediaError ℤ
unfolding rescale_pts_to_us
epoch_relative_end_us [] origin = err plain_error
epoch_relative_end_us (first ∷ rest) origin = do
  let last = last_of first rest
  offset ←
      rescale_pts_to_us (last.source_pts +ℤ last.duration_pts -ℤ origin.source_pts_origin)
        origin.time_base
  ok (origin.capture_time_origin_us +ℤ offset)

-- The tests of the available range against the samples.
check_range : SampleIndex → List IndexedSample → Result MediaError (Unit {0})
check_range index [] = err plain_error
check_range index (first ∷ rest) = do
  fail_if (not (eqb_ℤ index.available_start_us first.capture_time_us)) invalid_range
  fail_if (leb_ℤ index.available_end_us (last_of first rest).capture_time_us) invalid_range

unfoldable pub validate_index : SampleIndex → Result MediaError (Unit {0})
unfolding validate_sample_sequence check_range is_blank
validate_index index = do
  fail_if (is_blank index.epoch_id) invalid_frame
  fail_if (is_bad_time_base index.time_base) invalid_time_base
  validate_sample_sequence index.samples index.time_base none
  check_range index index.samples

-- What `parseSampleIndexDocument` and `buildSampleIndex` do with their samples.
unfoldable pub finish_index :
    Text → Rational → List IndexedSample → CaptureEpochOrigin → Result MediaError SampleIndex
unfolding validate_sample_sequence epoch_relative_end_us validate_index
finish_index epoch_id time_base [] origin = err (sample_index_error empty_index)
finish_index epoch_id time_base (first ∷ rest) origin = do
  validate_sample_sequence (first ∷ rest) time_base (some origin)
  available_end_us ← epoch_relative_end_us (first ∷ rest) origin
  let index : SampleIndex = record {
    epoch_id = epoch_id;
    time_base = time_base;
    samples = first ∷ rest;
    available_start_us = first.capture_time_us;
    available_end_us = available_end_us;
  }
  validate_index index
  ok index
