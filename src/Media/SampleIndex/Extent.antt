-- ===== src/Media/SampleIndex/Extent.antt =====
-- Proofs about validateIndex of packages/media/src/sample-index.ts: the range of an index.
use volleyball_monitoring_ai.Base.{
  ◌≡◌, List, [], ◌∷◌, Option, none, some, ok, >>-eq-ok, err-ne-ok, arith, last_of,
}
use volleyball_monitoring_ai.Base.Int.{◌≤ℤ◌, ◌<ℤ◌}
use volleyball_monitoring_ai.Base.Text.{is_blank}
use volleyball_monitoring_ai.Media.Errors.{invalid_frame, invalid_time_base}
use volleyball_monitoring_ai.Media.Rational.{is_bad_time_base}
use volleyball_monitoring_ai.Media.SampleIndex.{
  fail_if, CaptureEpochOrigin, IndexedSample, SampleIndex, check_sample, check_successor,
  check_origin, check_range, validate_samples, validate_sample_sequence, validate_index,
}

check_successor-rises :
    (p s : IndexedSample)
    → check_successor (some p) s ≡ ok tt
    → p.capture_time_us <ℤ s.capture_time_us
unfolding check_successor
check_successor-rises p s e = ground arith

validate_samples-rises :
    (origin : Option CaptureEpochOrigin) (p : IndexedSample) (samples : List IndexedSample)
    → validate_samples origin (some p) samples ≡ ok tt
    → p.capture_time_us ≤ℤ (last_of p samples).capture_time_us
unfolding validate_samples
validate_samples-rises origin p [] e = omega arith
validate_samples-rises origin p (s ∷ samples) e =
    let (_, e₁) = >>-eq-ok (check_sample s) _ e in
    let (next, e₂) = >>-eq-ok (check_successor (some p) s) _ e₁ in
    let (_, e₃) = >>-eq-ok (check_origin origin s) _ e₂ in
    let later = validate_samples-rises origin s samples e₃ in
    let rises = check_successor-rises p s next in omega arith

range-extent :
    (index : SampleIndex) (samples : List IndexedSample)
    → validate_sample_sequence samples index.time_base none ≡ ok tt
    → check_range index samples ≡ ok tt
    → index.available_start_us <ℤ index.available_end_us
unfolding validate_sample_sequence validate_samples check_range
range-extent index [] e k = absurd (err-ne-ok e)
range-extent index (first ∷ rest) e k =
    let (all, _) = >>-eq-ok (validate_samples none none (first ∷ rest)) _ e in
    let (_, e₁) = >>-eq-ok (check_sample first) _ all in
    let later = validate_samples-rises none first rest e₁ in ground arith

pub validate_index-extent :
    (index : SampleIndex)
    → validate_index index ≡ ok tt
    → index.available_start_us <ℤ index.available_end_us
unfolding validate_index
validate_index-extent index e =
    let (_, e₁) = >>-eq-ok (fail_if (is_blank index.epoch_id) invalid_frame) _ e in
    let (_, e₂) = >>-eq-ok (fail_if (is_bad_time_base index.time_base) invalid_time_base) _ e₁ in
    let (sequence, e₃) =
      >>-eq-ok (validate_sample_sequence index.samples index.time_base none) _ e₂ in
    range-extent index index.samples sequence e₃
