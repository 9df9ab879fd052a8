-- ===== src/Media/Planner/Incremental/Timeline.antt =====
-- Proofs about planNextCaptureSegment: the head that a result leaves.
use volleyball_monitoring_ai.Base.{◌≡◌, ok, arith, ◌⊎◌, inl, inr, List}
use volleyball_monitoring_ai.Base.Int.{
  ℤ, pos, ◌+ℤ◌, ◌-ℤ◌, ◌≤ℤ◌, ◌<ℤ◌, +ℤ_parts, pos_part-pos, neg_part-pos, int_laws,
}
use volleyball_monitoring_ai.Media.Rational.Bounds.{IsPositive, us_value, us_value_mono}
use volleyball_monitoring_ai.Media.Planner.{
  DiscontinuityReason, SegmentBounds, int32_max, next_int32_sequence,
}
use volleyball_monitoring_ai.Media.Planner.Bounds.{IsBounded}
use volleyball_monitoring_ai.Media.Planner.Incremental.{
  reused_epoch, opened_epoch, build_head, with_gap, next_discontinuity, plan_next_capture_segment,
}
use volleyball_monitoring_ai.Media.Planner.Incremental.Plans.{
  PersistedCaptureHead, PlanNextCaptureSegmentInput, PlanNextCaptureSegmentResult,
  IncrementalPlannedCaptureEpoch, first_epoch, incremental_segment, validate_persisted_head,
}
use volleyball_monitoring_ai.Media.Planner.Incremental.Built.{
  capture_start, capture_end, built-IsHead,
}
use volleyball_monitoring_ai.Media.Planner.Incremental.Head.{IsHead, validate_persisted_head-ok}
use volleyball_monitoring_ai.Media.Planner.Incremental.Outcome.{
  Outcome, started, continued, opened, IsPlanned, plan_next_capture_segment-IsPlanned,
}

next_int32_sequence-bounds :
    (current next : ℤ)
    → next_int32_sequence current ≡ ok next
    → current ≤ℤ int32_max
    → (next ≡ current +ℤ pos 1) × (next ≤ℤ int32_max)
unfolding next_int32_sequence
next_int32_sequence-bounds current next e h =
    (ground arith, ground (arith, +ℤ_parts current (pos 1), pos_part-pos 1, neg_part-pos 1))

next_discontinuity-bounds :
    (head : PersistedCaptureHead) (reasons : List DiscontinuityReason) (gap_us next : ℤ)
    → next_discontinuity head reasons gap_us ≡ ok next
    → (next ≡ head.discontinuity) ⊎ (next ≡ head.discontinuity +ℤ pos 1)
unfolding next_discontinuity next_int32_sequence
next_discontinuity-bounds head reasons gap_us next e = ground arith

-- A gap changes no field that the next head is read from.
build_head-with_gap :
    (head : PersistedCaptureHead) (gap_us discontinuity : ℤ) (reasons : List DiscontinuityReason)
    (result : PlanNextCaptureSegmentResult)
    → build_head (with_gap head gap_us discontinuity reasons result) ≡ build_head result
unfolding build_head with_gap
build_head-with_gap head gap_us discontinuity reasons result = ground arith

-- A range that starts at its epoch's origin ends behind it.
opened_end-lt :
    (input : PlanNextCaptureSegmentInput) (bounds : SegmentBounds) (origin : ℤ)
    → IsBounded (incremental_segment input) bounds
    → origin
      <ℤ origin
        +ℤ us_value
            (bounds.end_pts_exclusive -ℤ bounds.first_pts)
            (incremental_segment input).time_base
opened_end-lt input bounds origin b =
    let positive = rw b.duration_eq at b.duration_pos in omega int_laws

pub capture_start-le-end :
    (input : PlanNextCaptureSegmentInput) (bounds : SegmentBounds)
    (epoch : IncrementalPlannedCaptureEpoch) (frame : ℤ)
    → IsBounded (incremental_segment input) bounds
    → IsPositive epoch.time_base
    → capture_start (incremental_segment input) bounds epoch frame
      ≤ℤ capture_end (incremental_segment input) bounds epoch frame
unfolding capture_start capture_end
capture_start-le-end input bounds epoch frame b t =
    let le = b.pts_lt in
    let later =
      us_value_mono (bounds.first_pts -ℤ epoch.source_pts_origin)
        (bounds.end_pts_exclusive -ℤ epoch.source_pts_origin) epoch.time_base t (omega int_laws) in
    omega int_laws

continued_end-lt :
    (input : PlanNextCaptureSegmentInput) (bounds : SegmentBounds) (head : PersistedCaptureHead)
    → IsBounded (incremental_segment input) bounds
    → IsHead head
    → capture_start
        (incremental_segment input)
        bounds
        (reused_epoch head)
        (head.last_capture_frame_index +ℤ pos 1)
      ≡ head.last_capture_end_us
    → head.capture_time_origin_us
      <ℤ capture_end
          (incremental_segment input)
          bounds
          (reused_epoch head)
          (head.last_capture_frame_index +ℤ pos 1)
unfolding reused_epoch
continued_end-lt input bounds head b h start =
    let le =
      capture_start-le-end input bounds (reused_epoch head) (head.last_capture_frame_index +ℤ pos 1)
        b h.time_base in
    ground (arith, h.time_lt, le)

-- The sequence numbers of an opened epoch.
opened_sequences :
    (head : PersistedCaptureHead) (reasons : List DiscontinuityReason)
    (gap_us sequence discontinuity : ℤ)
    → IsHead head
    → next_int32_sequence head.epoch_sequence ≡ ok sequence
    → next_discontinuity head reasons gap_us ≡ ok discontinuity
    → (pos 0 ≤ℤ sequence)
      × (sequence ≤ℤ int32_max)
      × (pos 0 ≤ℤ discontinuity)
      × (discontinuity ≤ℤ sequence)
opened_sequences head reasons gap_us sequence discontinuity h s d =
    let (next, small) =
      next_int32_sequence-bounds head.epoch_sequence sequence s h.sequence_int32 in
    let le = h.discontinuity-le-sequence in
    let s0 = h.sequence_nonneg in
    let d0 = h.discontinuity_nonneg in
    elim (next_discontinuity-bounds head reasons gap_us discontinuity d) [
      | inl same ↦
          rw (next, same) (omega int_laws, rw next at small, omega int_laws, omega int_laws)
      | inr more ↦
          rw (next, more) (omega int_laws, rw next at small, omega int_laws, omega int_laws)
    ]

Outcome-IsHead :
    (input : PlanNextCaptureSegmentInput) (result : PlanNextCaptureSegmentResult)
    (p : IsPlanned input result)
    → Outcome input p.bounds result
    → IsHead (build_head result)
unfolding first_epoch reused_epoch opened_epoch capture_end
Outcome-IsHead input result p (started index has e) = rw e (
    built-IsHead _ _ (first_epoch input (incremental_segment input) p.bounds) _ index p.bounded
      p.safe (omega int_laws) (omega int_laws) (omega int_laws) (omega int_laws) p.bounded.time_base
      p.session_nonneg p.frame_nonneg (omega int_laws) p.bounded.pts_lt
      (opened_end-lt input p.bounds _ p.bounded))
Outcome-IsHead input result p (continued head index has h touching start e) = rw e (
    built-IsHead _ _ (reused_epoch head) _ index p.bounded h.safe h.sequence_nonneg h.sequence_int32
      h.discontinuity_nonneg h.discontinuity-le-sequence h.time_base h.time_nonneg h.frame_nonneg
      (omega (int_laws, h.frame_le)) (ground (arith, h.pts_lt, p.bounded.pts_lt))
      (continued_end-lt input p.bounds head p.bounded h start))
Outcome-IsHead input result p (opened head index seen gap_us sequence disc has h gap s d e) =
    let (s0, s1, d0, d1) = opened_sequences head seen.reasons gap_us sequence disc h s d in
    rw (e, build_head-with_gap)
      (built-IsHead _ _
        (opened_epoch head input (incremental_segment input) p.bounds seen.reasons gap_us sequence
          disc)
        _ index p.bounded p.safe s0 s1 d0 d1 p.bounded.time_base
        (omega (int_laws, h.time_lt, h.time_nonneg)) (omega (int_laws, h.frame_le, h.frame_nonneg))
        (omega int_laws) p.bounded.pts_lt (opened_end-lt input p.bounds _ p.bounded))

-- Every result of `plan_next_capture_segment` leaves a head that the validation of the next call
-- accepts.
pub plan_next_capture_segment-validate_persisted_head :
    (input : PlanNextCaptureSegmentInput) (result : PlanNextCaptureSegmentResult)
    → plan_next_capture_segment input ≡ ok result
    → validate_persisted_head (build_head result) ≡ ok tt
plan_next_capture_segment-validate_persisted_head input result e =
    let p = plan_next_capture_segment-IsPlanned input result e in
    validate_persisted_head-ok (build_head result) (Outcome-IsHead input result p p.outcome)
