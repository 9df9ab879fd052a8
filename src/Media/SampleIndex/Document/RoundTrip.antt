-- ===== src/Media/SampleIndex/Document/RoundTrip.antt =====
-- Proofs about the stored document of packages/media/src/sample-index.ts: writing and parsing.
use volleyball_monitoring_ai.Base.{
  ◌<◌, ◌≡◌, refl, Bool, true, false, List, [], ◌∷◌, map, Result, ok, ◌>>◌, >>=-eq-ok, >>-eq-ok,
  ok-injective, err-ne-ok, All, arith, not, throw_if-eq-ok,
}
use volleyball_monitoring_ai.Base.Text.{Text, codes, text_eq, text_eq_refl}
use volleyball_monitoring_ai.Base.Int.{ℤ, pos_part, neg_part, pos_of_nonneg}
use volleyball_monitoring_ai.Base.Decimal.{to_decimal}
use volleyball_monitoring_ai.Base.Decimal.RoundTrip.{
  of_decimal-to_decimal, is_signed_decimal-to_decimal, is_nonnegative_decimal-to_decimal,
  is_positive_decimal-to_decimal,
}
use volleyball_monitoring_ai.Base.Json.{
  Json, string, boolean, object, array, Items, nil, cons, field, end, get, keys, sort_texts,
  text_le, insert_text, same_texts, has_exact_keys,
}
use volleyball_monitoring_ai.Media.Errors.{MediaError}
use volleyball_monitoring_ai.Media.Rational.{Rational, same_time_base, is_bad_time_base}
use volleyball_monitoring_ai.Media.Rational.Bounds.{is_bad_time_base-IsPositive}
use volleyball_monitoring_ai.Media.SampleIndex.{
  CaptureEpochOrigin, IndexedSample, SampleIndex, validate_index, finish_index,
  validate_epoch_origin,
}
use volleyball_monitoring_ai.Media.SampleIndex.Ffprobe.{FfprobeFrame, build_sample_index}
use volleyball_monitoring_ai.Media.SampleIndex.Ffprobe.Finished.{build_sample_index-Finished}
use volleyball_monitoring_ai.Media.SampleIndex.Sequence.{
  IsPlaced, IsFinished, finish_index-Finished,
}
use volleyball_monitoring_ai.Media.SampleIndex.Document.{
  SampleIndexSampleDocument, SampleIndexDocument, serialize_sample, serialize_sample_index,
  parse_decimal, parse_signed_decimal, parse_nonnegative_decimal, parse_positive_decimal,
  parse_sample, parse_samples, parse_time_base_document, parse_sample_index_document,
  require_record, require_exact_keys, require_boolean, require_text, require_nonempty_text,
  require_items, document_keys,
}

-- The document as the value that JSON carries.
sample_json : SampleIndexSampleDocument → Json
sample_json s = object (
    field (codes "sourcePts") (string s.source_pts) (
      field (codes "durationPts") (string s.duration_pts) (
        field (codes "captureTimeUs") (string s.capture_time_us) (
          field (codes "captureFrameIndex") (string s.capture_frame_index)
            (field (codes "keyframe") (boolean s.keyframe) end)))))

items_of : List SampleIndexSampleDocument → Items
unfolding sample_json
items_of [] = nil
items_of (s ∷ samples) = cons (sample_json s) (items_of samples)

pub document_json : SampleIndexDocument → Json
unfolding items_of
document_json d = object (
    field (codes "schemaVersion") (string d.schema_version) (
      field (codes "epochId") (string d.epoch_id) (
        field (codes "timeBase")
          (object (
            field (codes "num") (string d.time_base.num)
              (field (codes "den") (string d.time_base.den) end)))
          (field (codes "samples") (array (items_of d.samples)) end))))

parse_signed : (a : ℤ) → parse_signed_decimal (string (to_decimal a)) ≡ ok a
unfolding parse_signed_decimal parse_decimal
parse_signed a = rw (is_signed_decimal-to_decimal a, of_decimal-to_decimal a) refl

parse_nonnegative :
    (a : ℤ) → neg_part a ≡ 0 → parse_nonnegative_decimal (string (to_decimal a)) ≡ ok a
unfolding parse_nonnegative_decimal parse_decimal
parse_nonnegative a h =
    rw (pos_of_nonneg a h, is_nonnegative_decimal-to_decimal, of_decimal-to_decimal) refl

parse_positive :
    (a : ℤ)
    → neg_part a ≡ 0
    → 0 < pos_part a
    → parse_positive_decimal (string (to_decimal a)) ≡ ok a
unfolding parse_positive_decimal parse_decimal
parse_positive a h k =
    rw (pos_of_nonneg a h, is_positive_decimal-to_decimal (pos_part a) k, of_decimal-to_decimal)
      refl

parse_sample-json :
    (s : IndexedSample) → IsPlaced s → parse_sample (sample_json (serialize_sample s)) ≡ ok s
unfolding parse_sample require_record require_exact_keys require_boolean has_exact_keys get keys
    sort_texts sample_json serialize_sample text_eq text_le insert_text same_texts
parse_sample-json s h =
    rw
      (
        parse_signed s.source_pts,
        parse_positive s.duration_pts h.duration_nonneg h.duration_pos,
        parse_nonnegative s.capture_time_us h.time_nonneg,
        parse_nonnegative s.capture_frame_index h.frame_nonneg,
      )
      refl

parse_samples-json :
    (samples : List IndexedSample)
    → All IsPlaced samples
    → parse_samples (items_of (map serialize_sample samples)) ≡ ok samples
unfolding parse_samples items_of
parse_samples-json [] h = refl
parse_samples-json (s ∷ samples) (h, hs) =
    rw (parse_sample-json s h, parse_samples-json samples hs) refl

require_items-json :
    (epoch_id : Text) (time_base : Rational) (samples : List IndexedSample)
    (origin : CaptureEpochOrigin) (index : SampleIndex)
    → finish_index epoch_id time_base samples origin ≡ ok index
    → require_items (array (items_of (map serialize_sample samples)))
      ≡ ok (items_of (map serialize_sample samples))
unfolding require_items items_of finish_index
require_items-json epoch_id time_base [] origin index e = absurd (err-ne-ok e)
require_items-json epoch_id time_base (s ∷ samples) origin index e = refl

parse_time_base-json :
    (tb : Rational)
    → is_bad_time_base tb ≡ false
    → parse_time_base_document (
        object (
          field
            (codes "num")
            (string (to_decimal tb.num))
            (field (codes "den") (string (to_decimal tb.den)) end)))
      ≡ ok tb
unfolding parse_time_base_document require_record require_exact_keys has_exact_keys get keys
    sort_texts text_eq text_le insert_text same_texts
parse_time_base-json tb h =
    let p = is_bad_time_base-IsPositive tb h in
    rw (parse_positive tb.num p.num_nonneg p.num_pos, parse_positive tb.den p.den_nonneg p.den_pos)
      refl

same_time_base_refl : (tb : Rational) → same_time_base tb tb ≡ true
unfolding same_time_base
same_time_base_refl tb = ground arith

parse-IsFinished :
    (origin : CaptureEpochOrigin) (index : SampleIndex) (document : SampleIndexDocument)
    → validate_epoch_origin origin ≡ ok tt
    → text_eq index.epoch_id origin.epoch_id ≡ true
    → same_time_base index.time_base origin.time_base ≡ true
    → IsFinished origin index
    → serialize_sample_index index ≡ ok document
    → parse_sample_index_document (document_json document) origin ≡ ok index
unfolding parse_sample_index_document document_json serialize_sample_index require_record
    require_exact_keys require_text require_nonempty_text has_exact_keys get keys sort_texts text_eq
    text_le insert_text same_texts
parse-IsFinished origin index document valid same_id same_tb f e =
    rw
      (
        ← ok-injective (rw f.is_valid at e),
        valid,
        f.is_named,
        same_id,
        parse_time_base-json index.time_base f.is_timed,
        same_tb,
        require_items-json index.epoch_id index.time_base index.samples origin index f.again,
        parse_samples-json index.samples f.all_placed,
      )
      f.again

after_test :
    {D : Type 0} (m : Result MediaError (Unit {0})) (d : D)
    → m ≡ ok tt
    → (document : D) × ((m >> ok d) ≡ ok document)
after_test m d h = (d, rw h refl)

serialize-IsFinished :
    (origin : CaptureEpochOrigin) (index : SampleIndex)
    → IsFinished origin index
    → (document : SampleIndexDocument) × (serialize_sample_index index ≡ ok document)
unfolding serialize_sample_index
serialize-IsFinished origin index f = after_test (validate_index index) _ f.is_valid

-- An index that `build_sample_index` makes from the frames of ffprobe can be written, and parsing
-- the written document under the same origin gives the same index.
pub parse-serialize-build_sample_index :
    (frames : List FfprobeFrame) (origin : CaptureEpochOrigin) (index : SampleIndex)
    → build_sample_index frames origin ≡ ok index
    → (document : SampleIndexDocument) × (serialize_sample_index index ≡ ok document)
      × (parse_sample_index_document (document_json document) origin ≡ ok index)
parse-serialize-build_sample_index frames origin index e =
    let (samples, valid, f) = build_sample_index-Finished frames origin index e in
    let (document, written) = serialize-IsFinished origin index f.is_finished in
    (
      document,
      written,
      parse-IsFinished origin index document valid (rw f.epoch_id_eq (text_eq_refl origin.epoch_id))
          (rw f.time_base_eq (same_time_base_refl origin.time_base)) f.is_finished written,
    )

-- An index that was parsed from any document can be written, and parsing the written document under
-- the same origin gives the same index.
pub parse-serialize-parse :
    (input : Json) (origin : CaptureEpochOrigin) (index : SampleIndex)
    → parse_sample_index_document input origin ≡ ok index
    → (document : SampleIndexDocument) × (serialize_sample_index index ≡ ok document)
      × (parse_sample_index_document (document_json document) origin ≡ ok index)
unfolding parse_sample_index_document
parse-serialize-parse input origin index e =
    let (valid, e₁) = >>-eq-ok (validate_epoch_origin origin) _ e in
    let (fields, _, e₂) = >>=-eq-ok (require_record input) _ e₁ in
    let (_, e₃) = >>-eq-ok (require_exact_keys fields document_keys) _ e₂ in
    let (_, e₄) = >>-eq-ok _ _ e₃ in
    let (epoch_id, _, e₅) = >>=-eq-ok (require_nonempty_text (get (codes "epochId") fields)) _ e₄ in
    let (same_id, e₆) = >>-eq-ok _ _ e₅ in
    let (time_base, _, e₇) =
      >>=-eq-ok (parse_time_base_document (get (codes "timeBase") fields)) _ e₆ in
    let (same_tb, e₈) = >>-eq-ok _ _ e₇ in
    let (items, _, e₉) = >>=-eq-ok (require_items (get (codes "samples") fields)) _ e₈ in
    let (samples, _, e₁₀) = >>=-eq-ok (parse_samples items) _ e₉ in
    let f = finish_index-Finished epoch_id time_base samples origin index e₁₀ in
    let (document, written) = serialize-IsFinished origin index f.is_finished in
    (
      document,
      written,
      parse-IsFinished origin index document valid
          (rw f.epoch_id_eq (true_of_not (throw_if-eq-ok _ _ same_id)))
          (rw f.time_base_eq (true_of_not (throw_if-eq-ok _ _ same_tb))) f.is_finished written,
    )
  where
    true_of_not : {b : Bool} → not b ≡ false → b ≡ true
    true_of_not h = ground arith
