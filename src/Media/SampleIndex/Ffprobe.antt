-- ===== src/Media/SampleIndex/Ffprobe.antt =====
-- packages/media/src/sample-index.ts: the index that is built from an ffprobe sample table.
pub mod Finished
mod Examples
use volleyball_monitoring_ai.Base.{
  ℕ, ◌≡◌, refl, Bool, true, false, List, [], ◌∷◌, map, Option, none, some, Result, ok, err, ◌>>=◌,
  ◌>>◌, ◌||◌, ◌&&◌, not, ◌==◌, keep, ◌++◌, if◌then◌else◌,
}
use volleyball_monitoring_ai.Base.Text.{Text, codes, text_eq}
use volleyball_monitoring_ai.Base.Int.{ℤ, pos, ◌+ℤ◌, ◌-ℤ◌, leb_ℤ, eqb_ℤ}
use volleyball_monitoring_ai.Base.Decimal.{of_decimal, is_signed_decimal, is_positive_decimal}
use volleyball_monitoring_ai.Media.Errors.{
  MediaError, sample_index_error, invalid_frame, invalid_time_base, non_monotonic, empty_index,
}
use volleyball_monitoring_ai.Media.Rational.{Rational, rescale_pts_to_us}
use volleyball_monitoring_ai.Media.SampleIndex.{
  CaptureEpochOrigin, IndexedSample, SampleIndex, fail_if, validate_epoch_origin, finish_index,
}

-- `key_frame` is a number of the JSON payload.
pub record FfprobeFrame : Type 0 where
  pub media_type : Text
  pub pts : Option Text
  pub pkt_duration : Option Text
  pub key_frame : Option ℤ

pub record FfprobeStream : Type 0 where
  pub codec_type : Option Text
  pub time_base : Option Text
  pub start_pts : Option Text
  pub duration_ts : Option Text

-- An absent list is the empty one, as the parser reads it.
pub record FfprobePayload : Type 0 where
  pub streams : List FfprobeStream
  pub frames : List FfprobeFrame

pub record FfprobeTable : Type 0 where
  pub frames : List FfprobeFrame
  pub time_base : Rational
  pub stream_end_pts_exclusive : Option ℤ

parse_ffprobe_integer : Option Text → Result MediaError ℤ
parse_ffprobe_integer none = err (sample_index_error invalid_frame)
parse_ffprobe_integer (some value) = do
  fail_if (not (is_signed_decimal value)) invalid_frame
  ok (of_decimal value)

-- The text before the first slash and, if there is a slash, the text behind it.
split_slash : Text → Text × Option Text
split_slash [] = ([], none)
split_slash (c ∷ s) =
    let (before, behind) = split_slash s in if c == b'/' then ([], some s) else (c ∷ before, behind)

time_base_of : Text × Option Text → Result MediaError Rational
time_base_of (num, none) = err (sample_index_error invalid_time_base)
time_base_of (num, some den) = do
  fail_if (not (is_positive_decimal num && is_positive_decimal den)) invalid_time_base
  ok (record { num = of_decimal num; den = of_decimal den })

unfoldable pub parse_time_base : Option Text → Result MediaError Rational
unfolding split_slash time_base_of
parse_time_base none = err (sample_index_error invalid_time_base)
parse_time_base (some value) = time_base_of (split_slash value)

is_video : FfprobeStream → Bool
is_video stream = elim stream.codec_type [ none ↦ false | some t ↦ text_eq t (codes "video") ]

-- `stream.start_pts !== undefined || stream.duration_ts !== undefined`
stream_end : Option Text → Option Text → Result MediaError (Option ℤ)
unfolding parse_ffprobe_integer
stream_end none none = ok none
stream_end start_pts duration_ts = do
  start ← parse_ffprobe_integer start_pts
  duration ← parse_ffprobe_integer duration_ts
  fail_if (leb_ℤ duration (pos 0)) invalid_frame
  ok (some (start +ℤ duration))

one_stream : List FfprobeStream → Result MediaError FfprobeStream
one_stream (stream ∷ []) = ok stream
one_stream _ = err (sample_index_error invalid_frame)

require_frames : List FfprobeFrame → Result MediaError (Unit {0})
require_frames [] = err (sample_index_error empty_index)
require_frames (_ ∷ _) = ok tt

pub parse_ffprobe_payload : FfprobePayload → Result MediaError FfprobeTable
unfolding is_video one_stream parse_time_base stream_end require_frames
parse_ffprobe_payload payload = do
  stream ← one_stream (keep is_video payload.streams)
  time_base ← parse_time_base stream.time_base
  end ← stream_end stream.start_pts stream.duration_ts
  require_frames payload.frames
  ok (record { frames = payload.frames; time_base = time_base; stream_end_pts_exclusive = end })

-- `frame.key_frame !== undefined && frame.key_frame !== 0 && frame.key_frame !== 1`
is_bad_key_frame : Option ℤ → Bool
is_bad_key_frame none = false
is_bad_key_frame (some k) = not (eqb_ℤ k (pos 0)) && not (eqb_ℤ k (pos 1))

is_key : Option ℤ → Bool
is_key none = false
is_key (some k) = eqb_ℤ k (pos 1)

check_previous_end : Option ℤ → ℤ → Result MediaError (Unit {0})
check_previous_end none source_pts = ok tt
check_previous_end (some previous_end) source_pts =
    fail_if (not (eqb_ℤ source_pts previous_end)) non_monotonic

-- One video frame, as a sample with the given frame index.
frame_sample : CaptureEpochOrigin → Option ℤ → ℤ → FfprobeFrame → Result MediaError IndexedSample
frame_sample origin previous_end frame_index frame = do
  source_pts ← parse_ffprobe_integer frame.pts
  duration_pts ← parse_ffprobe_integer frame.pkt_duration
  fail_if (leb_ℤ duration_pts (pos 0)) invalid_frame
  fail_if (is_bad_key_frame frame.key_frame) invalid_frame
  check_previous_end previous_end source_pts
  offset ← rescale_pts_to_us (source_pts -ℤ origin.source_pts_origin) origin.time_base
  ok (record {
    source_pts = source_pts;
    duration_pts = duration_pts;
    capture_time_us = origin.capture_time_origin_us +ℤ offset;
    capture_frame_index = frame_index;
    keyframe = is_key frame.key_frame;
  })

-- The loop of `buildSampleIndex`.
frame_samples :
    CaptureEpochOrigin → Option ℤ → ℤ → List FfprobeFrame → Result MediaError (List IndexedSample)
frame_samples origin previous_end frame_index [] = ok []
frame_samples origin previous_end frame_index (frame ∷ frames) =
    let skipped = frame_samples origin previous_end frame_index frames in
    let taken = (do
      sample ← frame_sample origin previous_end frame_index frame
      samples ←
          frame_samples origin (some (sample.source_pts +ℤ sample.duration_pts))
            (frame_index +ℤ pos 1) frames
      ok (sample ∷ samples)) in
    if text_eq frame.media_type (codes "video") then taken else skipped

pub build_sample_index : List FfprobeFrame → CaptureEpochOrigin → Result MediaError SampleIndex
unfolding validate_epoch_origin frame_samples frame_sample finish_index
build_sample_index frames origin = do
  validate_epoch_origin origin
  samples ← frame_samples origin none origin.capture_frame_origin frames
  finish_index origin.epoch_id origin.time_base samples origin
