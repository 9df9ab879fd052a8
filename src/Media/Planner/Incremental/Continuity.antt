-- ===== src/Media/Planner/Incremental/Continuity.antt =====
-- Proofs about planNextCaptureSegment: a segment against the head that it was planned from.
use volleyball_monitoring_ai.Base.{
  ◌≡◌, refl, List, sym, ◌∙◌, none, some, ok, arith, Bool-cases, ◌⊎◌, inl, inr,
}
use mathlib.Core.Path.{subst}
use mathlib.Core.Option.{some-injective}
use volleyball_monitoring_ai.Base.Int.{
  ℤ, pos, ◌+ℤ◌, ◌-ℤ◌, ◌≤ℤ◌, ◌<ℤ◌, eq_of_parts, +ℤ_parts, pos_part-pos, neg_part-pos, eqb_ℤ,
  int_laws,
}
use volleyball_monitoring_ai.Media.Rational.Bounds.{IsPositive, us_value_zero}
use volleyball_monitoring_ai.Media.Planner.{DiscontinuityReason, SegmentBounds}
use volleyball_monitoring_ai.Media.Planner.Bounds.{IsBounded}
use volleyball_monitoring_ai.Media.Planner.Incremental.{
  reused_epoch, opened_epoch, with_gap, plan_next_capture_segment,
}
use volleyball_monitoring_ai.Media.Planner.Incremental.Plans.{
  PersistedCaptureHead, PlanNextCaptureSegmentInput, PlanNextCaptureSegmentResult,
  IncrementalCaptureGapRange, incremental_segment,
}
use volleyball_monitoring_ai.Media.Planner.Incremental.Built.{capture_start, built}
use volleyball_monitoring_ai.Media.Planner.Incremental.Timeline.{capture_start-le-end}
use volleyball_monitoring_ai.Media.Planner.Incremental.Outcome.{
  Outcome, started, continued, opened, IsPlanned, plan_next_capture_segment-IsPlanned,
}

-- Either no gap is reported and the segment starts where the head ends, or the reported gap is the
-- non-empty range between the two.
abbrev pub GapFits : PersistedCaptureHead → PlanNextCaptureSegmentResult → Type 0
GapFits head result =
    ((result.gap ≡ none) × (result.segment.capture_start_us ≡ head.last_capture_end_us))
    ⊎ ((gap : IncrementalCaptureGapRange) × (result.gap ≡ some gap)
        × (gap.start_us ≡ head.last_capture_end_us)
        × (gap.end_us ≡ result.segment.capture_start_us)
        × (gap.start_us <ℤ gap.end_us))

pub record Continues (head : PersistedCaptureHead) (result : PlanNextCaptureSegmentResult)
    : Type 0 where
  pub frames : result.segment.first_frame_index ≡ head.last_capture_frame_index +ℤ pos 1
  pub ordered : head.last_capture_end_us ≤ℤ result.segment.capture_start_us
  pub range : result.segment.capture_start_us ≤ℤ result.segment.capture_end_us
  pub counted :
      result.next_capture_frame_index
      ≡ result.segment.first_frame_index +ℤ result.segment.frame_count
  pub live_edge : result.live_edge_capture_time_us ≡ result.segment.capture_end_us
  pub gap_fits : GapFits head result

-- The new epoch starts at its origin.
capture_start-opened :
    (head : PersistedCaptureHead) (input : PlanNextCaptureSegmentInput) (bounds : SegmentBounds)
    (reasons : List DiscontinuityReason) (gap_us sequence discontinuity frame : ℤ)
    → IsBounded (incremental_segment input) bounds
    → capture_start
        (incremental_segment input)
        bounds
        (opened_epoch head input
          (incremental_segment input)
          bounds
          reasons
          gap_us
          sequence
          discontinuity)
        frame
      ≡ head.last_capture_end_us +ℤ gap_us
unfolding capture_start opened_epoch
capture_start-opened head input bounds reasons gap_us sequence discontinuity frame b =
    rw (sub_self bounds.first_pts, us_value_zero (incremental_segment input).time_base b.time_base)
      (add_zero (head.last_capture_end_us +ℤ gap_us))
  where
    sub_self : (a : ℤ) → a -ℤ a ≡ pos 0
    sub_self a = omega int_laws

    add_zero : (a : ℤ) → a +ℤ pos 0 ≡ a
    add_zero a = omega int_laws

opened-IsPositive :
    (head : PersistedCaptureHead) (input : PlanNextCaptureSegmentInput) (bounds : SegmentBounds)
    (reasons : List DiscontinuityReason) (gap_us sequence discontinuity : ℤ)
    → IsBounded (incremental_segment input) bounds
    → IsPositive
        (opened_epoch head input
          (incremental_segment input)
          bounds
          reasons
          gap_us
          sequence
          discontinuity).time_base
unfolding opened_epoch
opened-IsPositive head input bounds reasons gap_us sequence discontinuity b = b.time_base

opened-Continues :
    (head : PersistedCaptureHead) (gap_us discontinuity : ℤ) (reasons : List DiscontinuityReason)
    (result : PlanNextCaptureSegmentResult)
    → pos 0 ≤ℤ gap_us
    → result.gap ≡ none
    → result.segment.first_frame_index ≡ head.last_capture_frame_index +ℤ pos 1
    → result.segment.capture_start_us ≡ head.last_capture_end_us +ℤ gap_us
    → result.segment.capture_start_us ≤ℤ result.segment.capture_end_us
    → result.next_capture_frame_index
      ≡ result.segment.first_frame_index +ℤ result.segment.frame_count
    → result.live_edge_capture_time_us ≡ result.segment.capture_end_us
    → Continues head (with_gap head gap_us discontinuity reasons result)
unfolding with_gap
opened-Continues head gap_us discontinuity reasons result gap absent frames start range counted
      edge =
    let ordered : head.last_capture_end_us ≤ℤ result.segment.capture_start_us =
      rw start (omega int_laws) in
    elim (Bool-cases (eqb_ℤ gap_us (pos 0))) [
      | inl zero_gap ↦
          let closed =
            start
            ∙ eq_of_parts _ _ (
                ground (
                  arith,
                  +ℤ_parts head.last_capture_end_us gap_us,
                  pos_part-pos 0,
                  neg_part-pos 0,
                )) in
          rw zero_gap (record {
            frames = frames;
            ordered = ordered;
            range = range;
            counted = counted;
            live_edge = edge;
            gap_fits = inl (absent, closed);
          })
      | inr some_gap ↦
          let wide : head.last_capture_end_us <ℤ head.last_capture_end_us +ℤ gap_us =
            ground
              (arith, +ℤ_parts head.last_capture_end_us gap_us, pos_part-pos 0, neg_part-pos 0) in
          rw some_gap (record {
            frames = frames;
            ordered = ordered;
            range = range;
            counted = counted;
            live_edge = edge;
            gap_fits = inr (_, refl, refl, sym start, wide);
          })
    ]

Outcome-Continues :
    (input : PlanNextCaptureSegmentInput) (result : PlanNextCaptureSegmentResult)
    (head : PersistedCaptureHead) (p : IsPlanned input result)
    → input.current_head ≡ some head
    → Outcome input p.bounds result
    → Continues head result
unfolding built reused_epoch
Outcome-Continues input result head p has (started index absent e) = cc
Outcome-Continues input result head p has (continued other index found h touching start e) =
    let segment = incremental_segment input in
    let frame = other.last_capture_frame_index +ℤ pos 1 in
    subst (λ k. Continues k result) (some-injective _ _ (sym found ∙ has))
      (rw e (record {
        frames = refl;
        ordered = rw start (omega arith);
        range =
            capture_start-le-end input p.bounds (reused_epoch other) frame p.bounded h.time_base;
        counted = refl;
        live_edge = refl;
        gap_fits = inl (refl, start);
      }))
Outcome-Continues input result head p has
      (opened other index seen gap_us sequence disc found h gap s d e) =
    let segment = incremental_segment input in
    let frame = other.last_capture_frame_index +ℤ pos 1 in
    let epoch = opened_epoch other input segment p.bounds seen.reasons gap_us sequence disc in
    let start =
      capture_start-opened other input p.bounds seen.reasons gap_us sequence disc frame p.bounded in
    subst (λ k. Continues k result) (some-injective _ _ (sym found ∙ has))
      (rw e (
        opened-Continues other gap_us disc seen.reasons (built segment p.bounds epoch frame index)
          gap refl refl start
          (capture_start-le-end input p.bounds epoch frame p.bounded
            (opened-IsPositive other input p.bounds seen.reasons gap_us sequence disc p.bounded))
          refl refl))

-- A segment planned behind a head takes the next frame indices and starts where the head ends, or
-- behind a gap that is reported exactly; its range is not reversed, and the live edge and the next
-- frame index are its end.
pub plan_next_capture_segment-Continues :
    (input : PlanNextCaptureSegmentInput) (head : PersistedCaptureHead)
    (result : PlanNextCaptureSegmentResult)
    → input.current_head ≡ some head
    → plan_next_capture_segment input ≡ ok result
    → Continues head result
plan_next_capture_segment-Continues input head result has e =
    let p = plan_next_capture_segment-IsPlanned input result e in
    Outcome-Continues input result head p has p.outcome
