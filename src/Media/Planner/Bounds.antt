-- ===== src/Media/Planner/Bounds.antt =====
-- Proofs about segmentBounds of packages/media/src/epoch-planner.ts.
use volleyball_monitoring_ai.Base.{
  ◌≡◌, refl, false, List, [], ◌∷◌, none, some, ok, >>=-eq-ok, arith,
}
use volleyball_monitoring_ai.Base.Int.{
  ℤ, pos, ◌+ℤ◌, ◌-ℤ◌, ◌<ℤ◌, pos_part-pos, neg_part-pos, +ℤ_parts,
}
use volleyball_monitoring_ai.Media.Rational.{Rational}
use volleyball_monitoring_ai.Media.Rational.Bounds.{
  IsPositive, us_value, rescale_pts_to_us_lem, is_bad_time_base-IsPositive,
}
use volleyball_monitoring_ai.Media.Planner.{
  SourceSampleTiming, FinalizedIndexedSegment, SegmentBounds, Scanned, check_contiguous,
  check_later, scan_samples, sample_bounds, segment_bounds, is_nonpositive,
}

-- Once some sample was scanned, the end lies behind the first sample's start.
scan_samples-lt :
    (tb : Rational) (first_pts : ℤ) (previous : Scanned) (samples : List SourceSampleTiming)
    (end_pts : ℤ)
    → IsPositive tb
    → first_pts <ℤ previous.end_pts
    → scan_samples tb first_pts (some previous) samples ≡ ok end_pts
    → first_pts <ℤ end_pts
unfolding scan_samples check_contiguous
scan_samples-lt tb first_pts previous [] end_pts t h e = ground arith
scan_samples-lt tb first_pts previous (sample ∷ samples) end_pts t h e =
    let next : Scanned = record {
      end_pts = sample.source_pts +ℤ sample.duration_pts;
      capture_offset_us = us_value (sample.source_pts -ℤ first_pts) tb;
    } in
    ground (
      arith,
      +ℤ_parts sample.source_pts sample.duration_pts,
      pos_part-pos 0,
      neg_part-pos 0,
      rescale_pts_to_us_lem (sample.source_pts -ℤ first_pts) tb t,
      scan_samples-lt tb first_pts next samples end_pts t,
    )

scan_all-lt :
    (tb : Rational) (first : SourceSampleTiming) (rest : List SourceSampleTiming) (end_pts : ℤ)
    → IsPositive tb
    → scan_samples tb first.source_pts none (first ∷ rest) ≡ ok end_pts
    → first.source_pts <ℤ end_pts
unfolding scan_samples check_contiguous check_later
scan_all-lt tb first rest end_pts t e =
    let next : Scanned = record {
      end_pts = first.source_pts +ℤ first.duration_pts;
      capture_offset_us = us_value (first.source_pts -ℤ first.source_pts) tb;
    } in
    ground (
      arith,
      +ℤ_parts first.source_pts first.duration_pts,
      pos_part-pos 0,
      neg_part-pos 0,
      rescale_pts_to_us_lem (first.source_pts -ℤ first.source_pts) tb t,
      scan_samples-lt tb first.source_pts next rest end_pts t,
    )

pub record IsBounded (segment : FinalizedIndexedSegment) (bounds : SegmentBounds) : Type 0 where
  pub time_base : IsPositive segment.time_base
  pub first : SourceSampleTiming
  pub rest : List SourceSampleTiming
  pub samples : segment.samples ≡ first ∷ rest
  pub first_eq : bounds.first_pts ≡ first.source_pts
  pub pts_lt : bounds.first_pts <ℤ bounds.end_pts_exclusive
  pub duration_eq :
      bounds.duration_us ≡ us_value (bounds.end_pts_exclusive -ℤ bounds.first_pts) segment.time_base
  pub duration_pos : pos 0 <ℤ bounds.duration_us
  pub gap_pos : (gap : ℤ) → segment.explicit_gap_before_us ≡ some gap → pos 0 <ℤ gap

is_nonpositive-lt : (gap : ℤ) → is_nonpositive (some gap) ≡ false → pos 0 <ℤ gap
unfolding is_nonpositive
is_nonpositive-lt gap h = ground arith

sample_bounds-IsBounded :
    (segment : FinalizedIndexedSegment) (samples : List SourceSampleTiming) (bounds : SegmentBounds)
    → segment.samples ≡ samples
    → IsPositive segment.time_base
    → sample_bounds segment samples ≡ ok bounds
    → IsBounded segment bounds
unfolding sample_bounds
sample_bounds-IsBounded segment [] bounds same t e = cc
sample_bounds-IsBounded segment (first ∷ rest) bounds same t e =
    let no_gap : is_nonpositive segment.explicit_gap_before_us ≡ false = ground arith in
    let scanned = rw no_gap at e in
    let (end_pts, scan, measured) =
      >>=-eq-ok (scan_samples segment.time_base first.source_pts none (first ∷ rest)) _ scanned in
    let value = rescale_pts_to_us_lem (end_pts -ℤ first.source_pts) segment.time_base t in
    let lt = scan_all-lt segment.time_base first rest end_pts t scan in
    record {
      time_base = t;
      first = first;
      rest = rest;
      samples = same;
      first_eq = ground (arith, value);
      pts_lt = ground (arith, value);
      duration_eq = ground (arith, value);
      duration_pos = ground (arith, value);
      gap_pos = λ gap g. is_nonpositive-lt gap (rw g at no_gap);
    }

pub segment_bounds-IsBounded :
    (segment : FinalizedIndexedSegment) (bounds : SegmentBounds)
    → segment_bounds segment ≡ ok bounds
    → IsBounded segment bounds
unfolding segment_bounds
segment_bounds-IsBounded segment bounds e =
    sample_bounds-IsBounded segment segment.samples bounds refl
      (is_bad_time_base-IsPositive segment.time_base (ground arith)) (ground arith)
