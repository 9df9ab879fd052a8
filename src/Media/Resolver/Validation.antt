-- ===== src/Media/Resolver/Validation.antt =====
-- packages/media/src/resolver.ts: the types, and the validation of the segments.
use volleyball_monitoring_ai.Base.{
  Bool, List, [], ◌∷◌, Option, none, some, Result, ok, err, ◌>>=◌, ◌>>◌, throw_if, ◌||◌, ◌&&◌, not,
  any, last_of,
}
use volleyball_monitoring_ai.Base.Text.{Text, text_eq, is_blank}
use volleyball_monitoring_ai.Base.Int.{ℤ, pos, ◌+ℤ◌, ltb_ℤ, leb_ℤ, eqb_ℤ}
use volleyball_monitoring_ai.Base.Decimal.{to_decimal}
use volleyball_monitoring_ai.Media.Errors.{
  MediaError, ResolveErrorCode, resolver_error, invalid_segment_set,
}
use volleyball_monitoring_ai.Media.Rational.{same_time_base}
use volleyball_monitoring_ai.Media.SampleIndex.{IndexedSample, SampleIndex}
use volleyball_monitoring_ai.Media.SampleIndex.Document.{serialize_sample_index}

pub record IndexedSegment : Type 0 where
  pub segment_id : Text
  pub index : SampleIndex
  pub discontinuity : Option ℤ

pub record SerializedAnchor : Type 0 where
  pub source_pts : Text
  pub capture_time_us : Text
  pub capture_frame_index : Text

pub data ResultKind : Type 0 where
  frame_exact : ResultKind

pub record ResolveResult : Type 0 where
  pub kind : ResultKind
  pub epoch_id : Text
  pub segment_id : Text
  pub sample : SerializedAnchor
  pub snap_distance_us : Text

pub record StepResult : Type 0 where
  pub kind : ResultKind
  pub epoch_id : Text
  pub segment_id : Text
  pub sample : SerializedAnchor

pub record IndexedLocation : Type 0 where
  pub epoch_id : Text
  pub segment_id : Text
  pub sample : IndexedSample

unfoldable pub serialize_anchor : IndexedSample → SerializedAnchor
serialize_anchor sample = record {
  source_pts = to_decimal sample.source_pts;
  capture_time_us = to_decimal sample.capture_time_us;
  capture_frame_index = to_decimal sample.capture_frame_index;
}

-- `throw new ResolverError(code, …)`, if the test holds.
abbrev pub fail_if : Bool → ResolveErrorCode → Result MediaError (Unit {0})
fail_if test code = throw_if test (resolver_error code)

-- `try { … } catch { invalidSegmentSet(…) }`
caught {ℓ} : {A : Type ℓ} → Result MediaError A → Result MediaError (Unit {0})
caught (ok _) = ok tt
caught (err _) = err (resolver_error invalid_segment_set)

validate_index : IndexedSegment → Result MediaError (Unit {0})
unfolding caught
validate_index segment = caught (serialize_sample_index segment.index)

-- `segment.discontinuity ?? 0`
abbrev discontinuity_of : IndexedSegment → ℤ
discontinuity_of segment = elim segment.discontinuity [ none ↦ pos 0 | some d ↦ d ]

-- The range of a segment against the one before it.
check_touch :
    ResolveErrorCode → Option IndexedSegment → IndexedSegment → Result MediaError (Unit {0})
check_touch boundary_code none segment = ok tt
check_touch boundary_code (some previous) segment = do
  fail_if (ltb_ℤ segment.index.available_start_us previous.index.available_end_us)
      invalid_segment_set
  fail_if (ltb_ℤ previous.index.available_end_us segment.index.available_start_us) boundary_code

-- The tests of a segment on its own and against the first one and the one before it.
pub check_segment :
    ResolveErrorCode
    → IndexedSegment
    → List Text
    → Option IndexedSegment
    → IndexedSegment
    → Result MediaError (Unit {0})
unfolding validate_index check_touch
check_segment boundary_code first segment_ids previous segment = do
  fail_if (is_blank segment.segment_id) invalid_segment_set
  fail_if (any (text_eq segment.segment_id) segment_ids) invalid_segment_set
  validate_index segment
  fail_if (ltb_ℤ (discontinuity_of segment) (pos 0)) invalid_segment_set
  fail_if (not (eqb_ℤ (discontinuity_of segment) (discontinuity_of first))) boundary_code
  fail_if (not (same_time_base segment.index.time_base first.index.time_base)) invalid_segment_set
  check_touch boundary_code previous segment

pub locate : IndexedSegment → IndexedSample → IndexedLocation
locate segment sample = record {
  epoch_id = segment.index.epoch_id;
  segment_id = segment.segment_id;
  sample = sample;
}

-- The source identity (epoch and ticks), the capture time or the frame of the sample was seen.
pub collides : IndexedLocation → IndexedLocation → Bool
collides location other =
    (text_eq location.epoch_id other.epoch_id
      && eqb_ℤ location.sample.source_pts other.sample.source_pts)
    || eqb_ℤ location.sample.capture_time_us other.sample.capture_time_us
    || eqb_ℤ location.sample.capture_frame_index other.sample.capture_frame_index

-- A sample against the one before it, which is the latest that was seen.
unfoldable pub check_successor :
    List IndexedLocation → IndexedLocation → Result MediaError (Unit {0})
check_successor [] location = ok tt
check_successor (previous ∷ _) location = do
  fail_if
      (not
        (eqb_ℤ location.sample.capture_frame_index (previous.sample.capture_frame_index +ℤ pos 1)))
      invalid_segment_set
  fail_if (leb_ℤ location.sample.capture_time_us previous.sample.capture_time_us)
      invalid_segment_set
  fail_if
      (text_eq location.epoch_id previous.epoch_id
        && not (
            eqb_ℤ location.sample.source_pts
              (previous.sample.source_pts +ℤ previous.sample.duration_pts)))
      invalid_segment_set

-- The loop over the samples of a segment. `seen` holds the locations so far, the latest first, and
-- stands for the three sets and the previous sample; `rest` goes on behind the segment.
unfoldable pub visit_samples :
    IndexedSegment
    → List IndexedLocation
    → List IndexedSample
    → (List IndexedLocation → Result MediaError (List IndexedLocation))
    → Result MediaError (List IndexedLocation)
unfolding locate collides check_successor
visit_samples segment seen [] rest = rest seen
visit_samples segment seen (sample ∷ samples) rest = do
  let location = locate segment sample
  fail_if (any (collides location) seen) invalid_segment_set
  check_successor seen location
  locations ← visit_samples segment (location ∷ seen) samples rest
  ok (location ∷ locations)

-- The loop over the segments.
unfoldable pub visit_segments :
    ResolveErrorCode
    → IndexedSegment
    → List Text
    → Option IndexedSegment
    → List IndexedSegment
    → List IndexedLocation
    → Result MediaError (List IndexedLocation)
unfolding check_segment visit_samples
visit_segments boundary_code first segment_ids previous [] seen = ok []
visit_segments boundary_code first segment_ids previous (segment ∷ segments) seen = do
  check_segment boundary_code first segment_ids previous segment
  visit_samples segment seen segment.index.samples (
      visit_segments boundary_code first (segment.segment_id ∷ segment_ids) (some segment) segments)

unfoldable pub validate_segments :
    List IndexedSegment → ℤ → ℤ → ResolveErrorCode → Result MediaError (List IndexedLocation)
unfolding visit_segments
validate_segments [] window_start_us window_end_us boundary_code =
    err (resolver_error invalid_segment_set)
validate_segments (first ∷ rest) window_start_us window_end_us boundary_code = do
  fail_if (leb_ℤ window_end_us window_start_us) invalid_segment_set
  fail_if (ltb_ℤ (discontinuity_of first) (pos 0)) invalid_segment_set
  locations ← visit_segments boundary_code first [] none (first ∷ rest) []
  fail_if
      (ltb_ℤ window_start_us first.index.available_start_us
        || ltb_ℤ (last_of first rest).index.available_end_us window_end_us)
      invalid_segment_set
  ok locations
