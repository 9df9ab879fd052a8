-- ===== src/Media/Resolver.antt =====
-- packages/media/src/resolver.ts: the exact frame for a canonical time, and frame steps, over a
-- contiguous span of indexed segments.
pub mod Validation
pub mod Span
pub mod Nearest
pub mod Resolution
pub mod Steps
pub mod RoundTrip
mod Examples
use volleyball_monitoring_ai.Base.{
  ℕ, zero, suc, ◌+◌, Bool, true, false, List, [], ◌∷◌, Option, none, some, Result, ok, err, ◌>>=◌,
  ◌>>◌, throw_if, ◌||◌, ◌&&◌, not, any, last_of, get_elem?, if◌then◌else◌,
}
use volleyball_monitoring_ai.Base.Text.{Text, text_eq, is_blank}
use volleyball_monitoring_ai.Base.Int.{ℤ, pos, ◌+ℤ◌, ◌-ℤ◌, ltb_ℤ, leb_ℤ, eqb_ℤ}
use volleyball_monitoring_ai.Base.Decimal.{to_decimal}
use volleyball_monitoring_ai.Media.Errors.{
  MediaError, ResolveErrorCode, resolver_error, plain_error, window_boundary, sample_not_found,
  capture_gap, invalid_segment_set,
}
use volleyball_monitoring_ai.Media.Rational.{same_time_base}
use volleyball_monitoring_ai.Media.SampleIndex.{IndexedSample, SampleIndex}
use volleyball_monitoring_ai.Media.SampleIndex.Document.{serialize_sample_index}
use volleyball_monitoring_ai.Media.Resolver.Validation.{
  IndexedLocation, IndexedSegment, ResolveResult, StepResult, fail_if, frame_exact,
  serialize_anchor, validate_segments,
}

-- `time < windowStartUs || time >= windowEndUs`
abbrev pub is_outside : ℤ → ℤ → ℤ → Bool
is_outside window_start_us window_end_us time =
    ltb_ℤ time window_start_us || leb_ℤ window_end_us time

pub distance : ℤ → ℤ → ℤ
distance target time = if leb_ℤ target time then time -ℤ target else target -ℤ time

-- `best` and `bestDistance`, which are set together.
pub record Best : Type 0 where
  pub location : IndexedLocation
  pub distance_us : ℤ

-- The test that makes a location the new best one.
improves : Option Best → ℤ → ℤ → Bool
improves none distance_us time = true
improves (some best) distance_us time =
    ltb_ℤ distance_us best.distance_us
    || (eqb_ℤ distance_us best.distance_us && ltb_ℤ time best.location.sample.capture_time_us)

-- One round of the loop of `resolveCanonicalTimeAcrossSegments`.
consider : ℤ → ℤ → ℤ → Option Best → IndexedLocation → Option Best
unfolding improves distance
consider target window_start_us window_end_us best location =
    let time = location.sample.capture_time_us in
    if is_outside window_start_us window_end_us time
    then best
    else if improves best (distance target time) time
    then some (record { location = location; distance_us = distance target time })
    else best

pub search_best : ℤ → ℤ → ℤ → Option Best → List IndexedLocation → Option Best
unfolding consider
search_best target window_start_us window_end_us best [] = best
search_best target window_start_us window_end_us best (location ∷ locations) =
    search_best target window_start_us window_end_us
      (consider target window_start_us window_end_us best location) locations

pub resolved : Best → ResolveResult
unfolding serialize_anchor
resolved best = record {
  kind = frame_exact;
  epoch_id = best.location.epoch_id;
  segment_id = best.location.segment_id;
  sample = serialize_anchor best.location.sample;
  snap_distance_us = to_decimal best.distance_us;
}

found : Option Best → Result MediaError ResolveResult
unfolding resolved
found none = err (resolver_error sample_not_found)
found (some best) = ok (resolved best)

pub resolve_canonical_time_across_segments :
    List IndexedSegment → ℤ → ℤ → ℤ → Result MediaError ResolveResult
unfolding validate_segments search_best found
resolve_canonical_time_across_segments segments canonical_time_us window_start_us window_end_us = do
  locations ← validate_segments segments window_start_us window_end_us invalid_segment_set
  fail_if (is_outside window_start_us window_end_us canonical_time_us) capture_gap
  found (search_best canonical_time_us window_start_us window_end_us none locations)

-- `[{ segmentId, index }]`
one_segment : Text → SampleIndex → List IndexedSegment
one_segment segment_id index =
    record { segment_id = segment_id; index = index; discontinuity = none } ∷ []

-- An absent bound of the window is the index's own.
or_default : Option ℤ → ℤ → ℤ
or_default none default = default
or_default (some value) default = value

pub resolve_canonical_time :
    SampleIndex → Text → ℤ → Option ℤ → Option ℤ → Result MediaError ResolveResult
unfolding resolve_canonical_time_across_segments one_segment or_default
resolve_canonical_time index segment_id canonical_time_us ready_start_us ready_end_us =
    resolve_canonical_time_across_segments (one_segment segment_id index) canonical_time_us
      (or_default ready_start_us index.available_start_us)
      (or_default ready_end_us index.available_end_us)

pub data Direction : Type 0 where
  previous next : Direction

-- An index in a list, as an index in the list with one more element in front.
abbrev shift : Option ℕ → Option ℕ
shift none = none
shift (some i) = some (suc i)

-- `locations.findIndex(…)`, with `none` for -1.
pub find_frame : ℤ → List IndexedLocation → Option ℕ
find_frame frame [] = none
find_frame frame (location ∷ locations) =
    if eqb_ℤ location.sample.capture_frame_index frame
    then some 0
    else shift (find_frame frame locations)

-- `locations[currentIndex + (direction === 'next' ? 1 : -1)]`
adjacent : Direction → ℕ → List IndexedLocation → Option IndexedLocation
adjacent next i locations = get_elem? locations (suc i)
adjacent previous zero locations = none
adjacent previous (suc i) locations = get_elem? locations i

or_throw : ResolveErrorCode → Option IndexedLocation → Result MediaError IndexedLocation
or_throw code none = err (resolver_error code)
or_throw code (some location) = ok location

index_or_throw : Option ℕ → Result MediaError ℕ
index_or_throw none = err (resolver_error sample_not_found)
index_or_throw (some i) = ok i

pub stepped : IndexedLocation → StepResult
unfolding serialize_anchor
stepped target = record {
  kind = frame_exact;
  epoch_id = target.epoch_id;
  segment_id = target.segment_id;
  sample = serialize_anchor target.sample;
}

-- `frameStepAcrossSegments` behind the validation.
pub step_in : List IndexedLocation → ℤ → Direction → ℤ → ℤ → Result MediaError StepResult
unfolding find_frame adjacent or_throw index_or_throw stepped
step_in locations frame direction window_start_us window_end_us = do
  current_index ← index_or_throw (find_frame frame locations)
  current ← or_throw sample_not_found (get_elem? locations current_index)
  fail_if (is_outside window_start_us window_end_us current.sample.capture_time_us) sample_not_found
  target ← or_throw sample_not_found (adjacent direction current_index locations)
  fail_if (is_outside window_start_us window_end_us target.sample.capture_time_us) window_boundary
  ok (stepped target)

pub frame_step_across_segments :
    List IndexedSegment → ℤ → Direction → ℤ → ℤ → Result MediaError StepResult
unfolding validate_segments step_in
frame_step_across_segments segments frame direction window_start_us window_end_us = do
  locations ← validate_segments segments window_start_us window_end_us sample_not_found
  step_in locations frame direction window_start_us window_end_us

pub frame_step :
    SampleIndex → Text → ℤ → Direction → Option ℤ → Option ℤ → Result MediaError StepResult
unfolding frame_step_across_segments one_segment or_default
frame_step index segment_id frame direction window_start_us window_end_us =
    frame_step_across_segments (one_segment segment_id index) frame direction
      (or_default window_start_us index.available_start_us)
      (or_default window_end_us index.available_end_us)
