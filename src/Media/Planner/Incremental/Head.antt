-- ===== src/Media/Planner/Incremental/Head.antt =====
-- Proofs about validatePersistedHead of packages/media/src/epoch-planner.ts.
use volleyball_monitoring_ai.Base.{◌≡◌, true, false, ok, arith}
use volleyball_monitoring_ai.Base.Int.{
  ℤ, pos, ◌+ℤ◌, ◌-ℤ◌, ◌≤ℤ◌, ◌<ℤ◌, eqb_ℤ, eq_of_parts, pos_part-pos, neg_part-pos, leb_ℤ, ltb_ℤ,
}
use volleyball_monitoring_ai.Media.Rational.Bounds.{
  IsPositive, us_value, rescale_pts_to_us_lem, is_bad_time_base-IsPositive,
  IsPositive-is_bad_time_base,
}
use volleyball_monitoring_ai.Media.Planner.{int32_max}
use volleyball_monitoring_ai.Media.Planner.Incremental.Plans.{
  PersistedCaptureHead, is_safe_opaque_identity, validate_int32_sequence, validate_persisted_head,
}

pub record IsHead (head : PersistedCaptureHead) : Type 0 where
  pub safe : is_safe_opaque_identity head.epoch_id ≡ true
  pub sequence_nonneg : pos 0 ≤ℤ head.epoch_sequence
  pub sequence_int32 : head.epoch_sequence ≤ℤ int32_max
  pub discontinuity_nonneg : pos 0 ≤ℤ head.discontinuity
  pub discontinuity-le-sequence : head.discontinuity ≤ℤ head.epoch_sequence
  pub time_base : IsPositive head.time_base
  pub time_nonneg : pos 0 ≤ℤ head.capture_time_origin_us
  pub frame_nonneg : pos 0 ≤ℤ head.capture_frame_origin
  pub pts_lt : head.source_pts_origin <ℤ head.last_source_pts_end_exclusive
  pub time_lt : head.capture_time_origin_us <ℤ head.last_capture_end_us
  pub frame_le : head.capture_frame_origin ≤ℤ head.last_capture_frame_index
  pub end_eq :
      head.last_capture_end_us
      ≡ head.capture_time_origin_us
        +ℤ us_value (head.last_source_pts_end_exclusive -ℤ head.source_pts_origin) head.time_base

ruleset literals = (arith, pos_part-pos, neg_part-pos)

validate_int32_sequence-ok :
    (value : ℤ) → pos 0 ≤ℤ value → value ≤ℤ int32_max → validate_int32_sequence value ≡ ok tt
unfolding validate_int32_sequence
validate_int32_sequence-ok value low high = grind literals

pub validate_persisted_head-ok :
    (head : PersistedCaptureHead) → IsHead head → validate_persisted_head head ≡ ok tt
unfolding validate_persisted_head
validate_persisted_head-ok head h =
    let offset =
      rescale_pts_to_us_lem (head.last_source_pts_end_exclusive -ℤ head.source_pts_origin)
        head.time_base h.time_base in
    let ends : eqb_ℤ head.last_capture_end_us (
          head.capture_time_origin_us
          +ℤ us_value (head.last_source_pts_end_exclusive -ℤ head.source_pts_origin) head.time_base)
        ≡ true =
      ground arith in
    let ordered : ltb_ℤ head.epoch_sequence head.discontinuity ≡ false = ground arith in
    let time_nonneg : ltb_ℤ head.capture_time_origin_us (pos 0) ≡ false = ground arith in
    let frame_nonneg : ltb_ℤ head.capture_frame_origin (pos 0) ≡ false = ground arith in
    let last_nonneg : ltb_ℤ head.last_capture_frame_index (pos 0) ≡ false = grind literals in
    let pts_lt : leb_ℤ head.last_source_pts_end_exclusive head.source_pts_origin ≡ false =
      ground arith in
    let time_lt : leb_ℤ head.last_capture_end_us head.capture_time_origin_us ≡ false =
      ground arith in
    let frame_le : ltb_ℤ head.last_capture_frame_index head.capture_frame_origin ≡ false =
      ground arith in
    rw (
      h.safe,
      validate_int32_sequence-ok head.epoch_sequence h.sequence_nonneg h.sequence_int32,
      validate_int32_sequence-ok head.discontinuity h.discontinuity_nonneg (omega arith),
      ordered,
      IsPositive-is_bad_time_base head.time_base h.time_base,
      time_nonneg,
      frame_nonneg,
      last_nonneg,
      pts_lt,
      time_lt,
      frame_le,
      offset,
      ends,
    )

pub validate_persisted_head-IsHead :
    (head : PersistedCaptureHead) → validate_persisted_head head ≡ ok tt → IsHead head
unfolding validate_persisted_head validate_int32_sequence
validate_persisted_head-IsHead head e = record {
  safe = ground arith;
  sequence_nonneg = ground arith;
  sequence_int32 = ground arith;
  discontinuity_nonneg = ground arith;
  discontinuity-le-sequence = ground arith;
  time_base = positive;
  time_nonneg = ground arith;
  frame_nonneg = ground arith;
  pts_lt = ground arith;
  time_lt = ground arith;
  frame_le = ground arith;
  end_eq = ground (
    arith,
    eq_of_parts head.last_capture_end_us (
        head.capture_time_origin_us
        +ℤ us_value (head.last_source_pts_end_exclusive -ℤ head.source_pts_origin) head.time_base),
    rescale_pts_to_us_lem (head.last_source_pts_end_exclusive -ℤ head.source_pts_origin)
        head.time_base positive,
  );
}
  where
    positive : IsPositive head.time_base
    positive = is_bad_time_base-IsPositive head.time_base (ground arith)
