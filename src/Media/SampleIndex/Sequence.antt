-- ===== src/Media/SampleIndex/Sequence.antt =====
-- Proofs about validateSampleSequence of packages/media/src/sample-index.ts.
use volleyball_monitoring_ai.Base.{
  ◌<◌, ◌≡◌, refl, false, List, [], ◌∷◌, Option, none, some, ok, >>=-eq-ok, >>-eq-ok, throw_if-eq-ok,
  ok-injective, err-ne-ok, All, arith,
}
use volleyball_monitoring_ai.Base.Text.{Text, is_blank}
use volleyball_monitoring_ai.Base.Int.{ℤ, pos_part, neg_part, parts_of_pos, neg_part_of_nonneg}
use volleyball_monitoring_ai.Media.Rational.{Rational, is_bad_time_base}
use volleyball_monitoring_ai.Media.SampleIndex.{
  CaptureEpochOrigin, IndexedSample, SampleIndex, check_sample, check_successor, check_origin,
  validate_samples, validate_sample_sequence, epoch_relative_end_us, validate_index, finish_index,
}

pub record IsPlaced (sample : IndexedSample) : Type 0 where
  pub duration_pos : 0 < pos_part sample.duration_pts
  pub duration_nonneg : neg_part sample.duration_pts ≡ 0
  pub time_nonneg : neg_part sample.capture_time_us ≡ 0
  pub frame_nonneg : neg_part sample.capture_frame_index ≡ 0

check_sample-IsPlaced : (sample : IndexedSample) → check_sample sample ≡ ok tt → IsPlaced sample
unfolding check_sample
check_sample-IsPlaced sample e =
    let (d, e₁) = >>-eq-ok _ _ e in
    let t₁ = throw_if-eq-ok _ _ d in
    let t₂ = throw_if-eq-ok _ _ e₁ in
    let (p, n) = parts_of_pos sample.duration_pts t₁ in
    record {
      duration_pos = p;
      duration_nonneg = n;
      time_nonneg = neg_part_of_nonneg _ (ground arith);
      frame_nonneg = neg_part_of_nonneg _ (ground arith);
    }

pub validate_samples-IsPlaced :
    (origin : Option CaptureEpochOrigin) (previous : Option IndexedSample)
    (samples : List IndexedSample)
    → validate_samples origin previous samples ≡ ok tt
    → All IsPlaced samples
unfolding validate_samples
validate_samples-IsPlaced origin previous [] e = tt
validate_samples-IsPlaced origin previous (s ∷ samples) e =
    let (checked, e₁) = >>-eq-ok (check_sample s) _ e in
    let (_, e₂) = >>-eq-ok (check_successor previous s) _ e₁ in
    let (_, e₃) = >>-eq-ok (check_origin origin s) _ e₂ in
    (check_sample-IsPlaced s checked, validate_samples-IsPlaced origin (some s) samples e₃)

-- What `finish_index` has checked when it returns an index.
pub record IsFinished (origin : CaptureEpochOrigin) (index : SampleIndex) : Type 0 where
  pub all_placed : All IsPlaced index.samples
  pub is_named : is_blank index.epoch_id ≡ false
  pub is_timed : is_bad_time_base index.time_base ≡ false
  pub is_valid : validate_index index ≡ ok tt
  pub again : finish_index index.epoch_id index.time_base index.samples origin ≡ ok index

abbrev indexed : Text → Rational → IndexedSample → List IndexedSample → ℤ → SampleIndex
indexed epoch_id time_base first rest end_us = record {
  epoch_id = epoch_id;
  time_base = time_base;
  samples = first ∷ rest;
  available_start_us = first.capture_time_us;
  available_end_us = end_us;
}

pub record Finished (origin : CaptureEpochOrigin) (epoch_id : Text) (time_base : Rational)
    (samples : List IndexedSample) (index : SampleIndex) : Type 0 where
  pub epoch_id_eq : index.epoch_id ≡ epoch_id
  pub time_base_eq : index.time_base ≡ time_base
  pub samples_eq : index.samples ≡ samples
  pub is_finished : IsFinished origin index

indexed-Finished :
    (origin : CaptureEpochOrigin) (epoch_id : Text) (time_base : Rational) (first : IndexedSample)
    (rest : List IndexedSample) (end_us : ℤ)
    → validate_samples (some origin) none (first ∷ rest) ≡ ok tt
    → validate_index (indexed epoch_id time_base first rest end_us) ≡ ok tt
    → finish_index epoch_id time_base (first ∷ rest) origin
      ≡ ok (indexed epoch_id time_base first rest end_us)
    → Finished origin epoch_id time_base
        (first ∷ rest)
        (indexed epoch_id time_base first rest end_us)
unfolding validate_index
indexed-Finished origin epoch_id time_base first rest end_us placed valid e =
    let (named, e₁) = >>-eq-ok _ _ valid in
    let (timed, _) = >>-eq-ok _ _ e₁ in
    record {
      epoch_id_eq = refl;
      time_base_eq = refl;
      samples_eq = refl;
      is_finished = record {
        all_placed = validate_samples-IsPlaced (some origin) none (first ∷ rest) placed;
        is_named = throw_if-eq-ok _ _ named;
        is_timed = throw_if-eq-ok _ _ timed;
        is_valid = valid;
        again = e;
      };
    }

pub finish_index-Finished :
    (epoch_id : Text) (time_base : Rational) (samples : List IndexedSample)
    (origin : CaptureEpochOrigin) (index : SampleIndex)
    → finish_index epoch_id time_base samples origin ≡ ok index
    → Finished origin epoch_id time_base samples index
unfolding finish_index validate_sample_sequence
finish_index-Finished epoch_id time_base [] origin index e = absurd (err-ne-ok e)
finish_index-Finished epoch_id time_base (first ∷ rest) origin index e =
    let (sequence, e₁) =
      >>-eq-ok (validate_sample_sequence (first ∷ rest) time_base (some origin)) _ e in
    let (placed, _) = >>-eq-ok (validate_samples (some origin) none (first ∷ rest)) _ sequence in
    let (end_us, is_end, e₂) = >>=-eq-ok (epoch_relative_end_us (first ∷ rest) origin) _ e₁ in
    let (valid, e₃) =
      >>-eq-ok (validate_index (indexed epoch_id time_base first rest end_us)) _ e₂ in
    rw (← ok-injective e₃) (
      indexed-Finished origin epoch_id time_base first rest end_us placed valid
        (rw (sequence, is_end, valid) refl))
