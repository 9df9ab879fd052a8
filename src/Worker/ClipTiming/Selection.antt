-- ===== src/Worker/ClipTiming/Selection.antt =====
-- worker/src/media/clip-timing.ts: `selectCanonicalClipRange`, with the resolution of the key
-- points, and `mapClipKeyPoint`.
use volleyball_monitoring_ai.Base.{
  ℕ, suc, ◌-◌, Bool, true, false, List, [], ◌∷◌, Option, none, some, Result, ok, err, ◌>>=◌, ◌>>◌,
  throw_if, ◌||◌, ◌&&◌, leb, last_of, take, drop, get_elem?, if◌then◌else◌,
}
use volleyball_monitoring_ai.Base.Text.{Text, text_eq}
use volleyball_monitoring_ai.Base.Int.{ℤ, pos, ◌-ℤ◌, ltb_ℤ, leb_ℤ, eqb_ℤ}
use volleyball_monitoring_ai.Base.Maps.{map_set}
use volleyball_monitoring_ai.Media.Rational.{Rational, rescale_pts_to_us}
use volleyball_monitoring_ai.Worker.ClipTiming.{
  ClipError, no_source_segments, invalid_range, no_complete_sample, no_exact_sample,
  missing_output_frame, from_media, ClipSourceSegment, TimingPrecision, estimated,
  ClipKeyPointAnchor, SelectedClipSourceSample, sample_end_capture_us, Scan, scan_segments,
}

pub record SelectedClipRange : Type 0 where
  pub capture_epoch_id : Text
  pub source_time_base : Rational
  pub actual_start_capture_us : ℤ
  pub actual_end_capture_us : ℤ
  pub source_start_frame : ℕ
  pub source_end_frame_exclusive : ℕ
  pub source_start_offset_us : ℤ
  pub duration_us : ℤ
  pub source_samples : List SelectedClipSourceSample
  pub key_point_ordinals : List (Text × ℕ)
  pub resolved_key_point_samples : List (Text × SelectedClipSourceSample)

unfoldable pub one_later : Option ℕ → Option ℕ
one_later none = none
one_later (some i) = some (suc i)

-- The place of the first sample that ends behind the requested start.
unfoldable pub first_ordinal :
    Rational → ℤ → List SelectedClipSourceSample → Result ClipError (Option ℕ)
unfolding sample_end_capture_us one_later
first_ordinal time_base start [] = ok none
first_ordinal time_base start (selected ∷ samples) =
    let further = (do found ← first_ordinal time_base start samples; ok (one_later found)) in
    do
      end ← sample_end_capture_us selected.sample time_base
      if ltb_ℤ start end then ok (some 0) else further

-- The place of the first sample that starts behind the requested end, or the number of samples.
unfoldable pub end_ordinal_exclusive : ℤ → List SelectedClipSourceSample → ℕ
end_ordinal_exclusive end [] = 0
end_ordinal_exclusive end (selected ∷ samples) =
    let further = end_ordinal_exclusive end samples in
    if ltb_ℤ end selected.sample.capture_time_us then 0 else suc further

unfoldable pub is_exact_sample : ClipKeyPointAnchor → SelectedClipSourceSample → Bool
unfolding text_eq
is_exact_sample point selected =
    text_eq point.capture_epoch_id selected.capture_epoch_id
    && eqb_ℤ point.source_pts selected.sample.source_pts
    && eqb_ℤ point.capture_time_us selected.sample.capture_time_us
    && eqb_ℤ point.capture_frame_index selected.sample.capture_frame_index

-- `sourceSamples.findIndex(…)`, counted from the given place.
unfoldable pub exact_ordinal : ℕ → ClipKeyPointAnchor → List SelectedClipSourceSample → Option ℕ
unfolding is_exact_sample
exact_ordinal i point [] = none
exact_ordinal i point (selected ∷ samples) =
    let further = exact_ordinal (suc i) point samples in
    if is_exact_sample point selected then some i else further

unfoldable pub matching_frame_ordinals : ℕ → ℤ → List SelectedClipSourceSample → List ℕ
matching_frame_ordinals i frame [] = []
matching_frame_ordinals i frame (selected ∷ samples) =
    let further = matching_frame_ordinals (suc i) frame samples in
    if eqb_ℤ selected.sample.capture_frame_index frame then i ∷ further else further

unfoldable pub is_estimated : Option TimingPrecision → Bool
is_estimated none = false
is_estimated (some estimated) = true
is_estimated (some _) = false

unfoldable pub capture_delta_us : ℤ → ℤ → ℤ
capture_delta_us candidate point =
    if leb_ℤ point candidate then candidate -ℤ point else point -ℤ candidate

-- The candidate of an estimated point, if its time is within one duration of the point's.
unfoldable pub accept_candidate :
    Rational → ClipKeyPointAnchor → ℕ → Option SelectedClipSourceSample → Result ClipError ℕ
unfolding capture_delta_us rescale_pts_to_us
accept_candidate time_base point ordinal none = err no_exact_sample
accept_candidate time_base point ordinal (some candidate) = do
  duration ← from_media (rescale_pts_to_us candidate.sample.duration_pts time_base)
  if leb_ℤ (capture_delta_us candidate.sample.capture_time_us point.capture_time_us) duration
      then ok ordinal
      else err no_exact_sample

unfoldable pub one_candidate :
    Rational → List SelectedClipSourceSample → ClipKeyPointAnchor → List ℕ → Result ClipError ℕ
unfolding accept_candidate
one_candidate time_base samples point (ordinal ∷ []) =
    accept_candidate time_base point ordinal (get_elem? samples ordinal)
one_candidate time_base samples point _ = err no_exact_sample

unfoldable pub resolve_key_point :
    Rational → List SelectedClipSourceSample → ClipKeyPointAnchor → Result ClipError ℕ
unfolding exact_ordinal matching_frame_ordinals one_candidate is_estimated
resolve_key_point time_base samples point = elim (exact_ordinal 0 point samples) [
  | some ordinal ↦ ok ordinal
  | none ↦
      if is_estimated point.timing_precision
      then one_candidate time_base samples point
          (matching_frame_ordinals 0 point.capture_frame_index samples)
      else err no_exact_sample
]

pub record ResolvedKeyPoints : Type 0 where
  pub ordinals : List (Text × ℕ)
  pub samples : List (Text × SelectedClipSourceSample)

-- `sourceSamples[ordinal]!`
unfoldable pub sample_at :
    List SelectedClipSourceSample → ℕ → Result ClipError SelectedClipSourceSample
sample_at samples ordinal = elim (get_elem? samples ordinal) [
  | none ↦ err no_exact_sample
  | some sample ↦ ok sample
]

-- The loop over the key points.
unfoldable pub resolve_key_points :
    Rational
    → List SelectedClipSourceSample
    → ResolvedKeyPoints
    → List ClipKeyPointAnchor
    → Result ClipError ResolvedKeyPoints
unfolding resolve_key_point sample_at map_set
resolve_key_points time_base samples resolved [] = ok resolved
resolve_key_points time_base samples resolved (point ∷ points) = do
  ordinal ← resolve_key_point time_base samples point
  sample ← sample_at samples ordinal
  resolve_key_points time_base samples
      (record {
        ordinals = map_set point.id ordinal resolved.ordinals;
        samples = map_set point.id sample resolved.samples;
      })
      points

unfoldable pub initial_scan : Scan
initial_scan = record {
  all_samples = [];
  previous = none;
  previous_end_capture_us = none;
  epoch_timing_origins = [];
}

-- The samples from one place up to another.
abbrev pub slice {ℓ} : {A : Type ℓ} → ℕ → ℕ → List A → List A
slice start end xs = take (end - start) (drop start xs)

-- The result for the selected samples.
unfoldable pub select_samples :
    ClipSourceSegment
    → ℕ
    → ℕ
    → List ClipKeyPointAnchor
    → List SelectedClipSourceSample
    → Result ClipError SelectedClipRange
unfolding resolve_key_points sample_end_capture_us
select_samples segment start end key_points [] = err no_complete_sample
select_samples segment start end key_points (first ∷ rest) = do
  let time_base = segment.index.time_base
  resolved ←
      resolve_key_points time_base (first ∷ rest) (record { ordinals = []; samples = [] })
        key_points
  last_end ← sample_end_capture_us (last_of first rest).sample time_base
  ok (record {
    capture_epoch_id = segment.capture_epoch_id;
    source_time_base = time_base;
    actual_start_capture_us = first.sample.capture_time_us;
    actual_end_capture_us = last_end;
    source_start_frame = start;
    source_end_frame_exclusive = end;
    source_start_offset_us = first.sample.capture_time_us -ℤ segment.capture_start_us;
    duration_us = last_end -ℤ first.sample.capture_time_us;
    source_samples = first ∷ rest;
    key_point_ordinals = resolved.ordinals;
    resolved_key_point_samples = resolved.samples;
  })

unfoldable pub require_ordinal : Option ℕ → ℕ → Result ClipError ℕ
require_ordinal none end = err no_complete_sample
require_ordinal (some start) end = if leb end start then err no_complete_sample else ok start

unfoldable pub select_canonical_clip_range :
    List ClipSourceSegment → ℤ → ℤ → List ClipKeyPointAnchor → Result ClipError SelectedClipRange
unfolding initial_scan scan_segments first_ordinal end_ordinal_exclusive require_ordinal
    select_samples
select_canonical_clip_range [] requested_start requested_end key_points = err no_source_segments
select_canonical_clip_range (segment ∷ segments) requested_start requested_end key_points = do
  throw_if (ltb_ℤ requested_start (pos 0) || leb_ℤ requested_end requested_start) invalid_range
  scan ← scan_segments segment.index.time_base initial_scan (segment ∷ segments)
  found ← first_ordinal segment.index.time_base requested_start scan.all_samples
  let end = end_ordinal_exclusive requested_end scan.all_samples
  start ← require_ordinal found end
  select_samples segment start end key_points (slice start end scan.all_samples)

pub record ProbedClipFrame : Type 0 where
  pub pts : ℤ
  pub duration_pts : ℤ

-- The part of `ProbedCanonicalClip` that the mapping reads.
pub record ProbedCanonicalClip : Type 0 where
  pub time_base : Rational
  pub frames : List ProbedClipFrame

pub record ClipKeyPoint : Type 0 where
  pub clip_pts : ℤ
  pub clip_time_us : ℤ
  pub clip_frame_index : ℕ

unfoldable pub map_frame :
    Rational → ℕ → Option ProbedClipFrame → Option ProbedClipFrame → Result ClipError ClipKeyPoint
unfolding rescale_pts_to_us
map_frame time_base ordinal (some frame) (some first) = do
  time ← from_media (rescale_pts_to_us (frame.pts -ℤ first.pts) time_base)
  ok (record { clip_pts = frame.pts; clip_time_us = time; clip_frame_index = ordinal })
map_frame time_base ordinal _ _ = err missing_output_frame

unfoldable pub map_clip_key_point : ℕ → ProbedCanonicalClip → Result ClipError ClipKeyPoint
unfolding map_frame
map_clip_key_point ordinal video =
    map_frame video.time_base ordinal (get_elem? video.frames ordinal) (get_elem? video.frames 0)
