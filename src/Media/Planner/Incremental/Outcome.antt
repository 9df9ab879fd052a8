-- ===== src/Media/Planner/Incremental/Outcome.antt =====
-- How a result of the planner came about.
use volleyball_monitoring_ai.Base.{
  ◌≡◌, refl, sym, true, false, List, [], ◌∷◌, Option, none, some, ok, >>=-eq-ok, ok-injective,
  err-ne-ok, arith, Bool-cases, Option-cases, ◌⊎◌, inl, inr,
}
use volleyball_monitoring_ai.Base.Text.{Text}
use volleyball_monitoring_ai.Base.Int.{ℤ, pos, ◌+ℤ◌, ◌≤ℤ◌, ltb_ℤ, eqb_ℤ, eq_of_eqb_ℤ}
use volleyball_monitoring_ai.Media.SampleIndex.{SampleIndex}
use volleyball_monitoring_ai.Media.Planner.{
  DiscontinuityReason, CaptureEpochPlannerConfig, SegmentBounds, segment_bounds,
  reconcile_gap_candidates, next_int32_sequence,
}
use volleyball_monitoring_ai.Media.Planner.Bounds.{IsBounded, segment_bounds-IsBounded}
use volleyball_monitoring_ai.Media.Planner.Incremental.{
  Observed, reused_epoch, opened_epoch, plan_continued, plan_new_epoch, plan_after,
  plan_next_capture_segment, with_gap, next_discontinuity, observe, is_unchanged,
}
use volleyball_monitoring_ai.Media.Planner.Incremental.Plans.{
  PersistedCaptureHead, PlanNextCaptureSegmentInput, PlanNextCaptureSegmentResult,
  is_safe_opaque_identity, first_epoch, plan_first, incremental_segment,
  validate_incremental_config, validate_new_epoch_id, validate_persisted_head,
}
use volleyball_monitoring_ai.Media.Planner.Incremental.Built.{
  capture_start, built, build_incremental_result-built,
}
use volleyball_monitoring_ai.Media.Planner.Incremental.Head.{IsHead, validate_persisted_head-IsHead}
use volleyball_monitoring_ai.Media.Planner.Incremental.Observation.{
  observe-AllPositive, observe-touching, reconcile_gap_candidates-nonneg,
}

-- How a result came about: the first segment, a segment that continues the head's epoch, or one that
-- opens a new epoch.
pub data Outcome (input : PlanNextCaptureSegmentInput) (bounds : SegmentBounds)
    (result : PlanNextCaptureSegmentResult) : Type 0 where
  started :
      (index : SampleIndex)
      → input.current_head ≡ none
      → result
        ≡ built
            (incremental_segment input)
            bounds
            (first_epoch input (incremental_segment input) bounds)
            input.config.canonical_frame_origin
            index
      → Outcome input bounds result
  continued :
      (head : PersistedCaptureHead) (index : SampleIndex)
      → input.current_head ≡ some head
      → IsHead head
      → bounds.first_pts ≡ head.last_source_pts_end_exclusive
      → capture_start
          (incremental_segment input)
          bounds
          (reused_epoch head)
          (head.last_capture_frame_index +ℤ pos 1)
        ≡ head.last_capture_end_us
      → result
        ≡ built
            (incremental_segment input)
            bounds
            (reused_epoch head)
            (head.last_capture_frame_index +ℤ pos 1)
            index
      → Outcome input bounds result
  opened :
      (head : PersistedCaptureHead) (index : SampleIndex) (seen : Observed)
      (gap_us sequence discontinuity : ℤ)
      → input.current_head ≡ some head
      → IsHead head
      → pos 0 ≤ℤ gap_us
      → next_int32_sequence head.epoch_sequence ≡ ok sequence
      → next_discontinuity head seen.reasons gap_us ≡ ok discontinuity
      → result
        ≡ with_gap head gap_us discontinuity seen.reasons (
            built
              (incremental_segment input)
              bounds
              (opened_epoch head input
                (incremental_segment input)
                bounds
                seen.reasons
                gap_us
                sequence
                discontinuity)
              (head.last_capture_frame_index +ℤ pos 1)
              index)
      → Outcome input bounds result

plan_continued-Outcome :
    (input : PlanNextCaptureSegmentInput) (bounds : SegmentBounds) (head : PersistedCaptureHead)
    (seen : Observed) (result : PlanNextCaptureSegmentResult)
    → IsBounded (incremental_segment input) bounds
    → input.current_head ≡ some head
    → IsHead head
    → observe head input bounds ≡ ok seen
    → seen.reasons ≡ []
    → plan_continued head (incremental_segment input) bounds ≡ ok result
    → Outcome input bounds result
unfolding plan_continued incremental_segment built
plan_continued-Outcome input bounds head seen result b has h o unseen e =
    let segment = incremental_segment input in
    let frame = head.last_capture_frame_index +ℤ pos 1 in
    let (same_base, touching) = observe-touching head input bounds seen b.time_base o unseen in
    let planned =
      rw (build_incremental_result-built segment bounds (reused_epoch head) frame b h.time_base) at
        e in
    elim (Bool-cases
      (eqb_ℤ (capture_start segment bounds (reused_epoch head) frame) head.last_capture_end_us)) [
        | inl same ↦
            continued head _ has h touching (eq_of_eqb_ℤ _ _ same)
              (sym (ok-injective (rw same at planned)))
        | inr other ↦ absurd (err-ne-ok (rw other at planned))
      ]

plan_new_epoch-Outcome :
    (input : PlanNextCaptureSegmentInput) (bounds : SegmentBounds) (head : PersistedCaptureHead)
    (seen : Observed) (result : PlanNextCaptureSegmentResult)
    → IsBounded (incremental_segment input) bounds
    → input.current_head ≡ some head
    → IsHead head
    → observe head input bounds ≡ ok seen
    → plan_new_epoch head input (incremental_segment input) bounds seen ≡ ok result
    → Outcome input bounds result
unfolding plan_new_epoch incremental_segment opened_epoch built
plan_new_epoch-Outcome input bounds head seen result b has h o e =
    let segment = incremental_segment input in
    let frame = head.last_capture_frame_index +ℤ pos 1 in
    let (gap_us, reconciled, e₁) =
      >>=-eq-ok (reconcile_gap_candidates seen.gap_candidates input.config.timestamp_tolerance_us) _
        e in
    let (sequence, next_sequence, e₂) = >>=-eq-ok (next_int32_sequence head.epoch_sequence) _ e₁ in
    let (discontinuity, next_disc, e₃) =
      >>=-eq-ok (next_discontinuity head seen.reasons gap_us) _ e₂ in
    let epoch = opened_epoch head input segment bounds seen.reasons gap_us sequence discontinuity in
    let planned =
      rw (build_incremental_result-built segment bounds epoch frame b b.time_base) at e₃ in
    let gap_nonneg =
      reconcile_gap_candidates-nonneg seen.gap_candidates _ gap_us
        (observe-AllPositive head input bounds seen b.time_base b.gap_pos o) reconciled in
    elim (Bool-cases (ltb_ℤ (capture_start segment bounds epoch frame) head.last_capture_end_us)) [
      | inl early ↦ absurd (err-ne-ok (rw early at planned))
      | inr later ↦
          opened head _ seen gap_us sequence discontinuity has h gap_nonneg next_sequence next_disc
            (sym (ok-injective (rw later at planned)))
    ]

plan_first-Outcome :
    (input : PlanNextCaptureSegmentInput) (bounds : SegmentBounds)
    (result : PlanNextCaptureSegmentResult) (gap : Option ℤ)
    → IsBounded (incremental_segment input) bounds
    → input.current_head ≡ none
    → plan_first input (incremental_segment input) bounds gap ≡ ok result
    → Outcome input bounds result
unfolding plan_first first_epoch
plan_first-Outcome input bounds result (some gap) b has e = absurd (err-ne-ok e)
plan_first-Outcome input bounds result none b has e =
    let segment = incremental_segment input in
    started _ has (
      sym (
        ok-injective (
          rw
            (build_incremental_result-built segment bounds (first_epoch input segment bounds)
              input.config.canonical_frame_origin b b.time_base)
            at e)))

reasons_cases :
    (reasons : List DiscontinuityReason)
    → ((reasons ≡ []) × (is_unchanged reasons ≡ true)) ⊎ (is_unchanged reasons ≡ false)
unfolding is_unchanged
reasons_cases [] = inl (refl, refl)
reasons_cases (_ ∷ _) = inr refl

plan_after-Outcome :
    (input : PlanNextCaptureSegmentInput) (bounds : SegmentBounds) (head : PersistedCaptureHead)
    (result : PlanNextCaptureSegmentResult)
    → IsBounded (incremental_segment input) bounds
    → input.current_head ≡ some head
    → plan_after head input (incremental_segment input) bounds ≡ ok result
    → Outcome input bounds result
unfolding plan_after
plan_after-Outcome input bounds head result b has e =
    let (_, valid, e₁) = >>=-eq-ok (validate_persisted_head head) _ e in
    let h = validate_persisted_head-IsHead head valid in
    let (seen, o, e₂) = >>=-eq-ok (observe head input bounds) _ e₁ in
    elim (reasons_cases seen.reasons) [
      | inl (unseen, unchanged) ↦
          plan_continued-Outcome input bounds head seen result b has h o unseen (rw unchanged at e₂)
      | inr changed ↦
          plan_new_epoch-Outcome input bounds head seen result b has h o (rw changed at e₂)
    ]

validate_incremental_config-nonneg :
    (config : CaptureEpochPlannerConfig) (u : Unit {0})
    → validate_incremental_config config ≡ ok u
    → (pos 0 ≤ℤ config.canonical_session_origin_us) × (pos 0 ≤ℤ config.canonical_frame_origin)
unfolding validate_incremental_config
validate_incremental_config-nonneg config u e = (ground arith, ground arith)

validate_new_epoch_id-safe :
    (id : Text) (u : Unit {0}) → validate_new_epoch_id id ≡ ok u → is_safe_opaque_identity id ≡ true
unfolding validate_new_epoch_id
validate_new_epoch_id-safe id u e = ground arith

-- What a successful call establishes.
pub record IsPlanned (input : PlanNextCaptureSegmentInput) (result : PlanNextCaptureSegmentResult)
    : Type 0 where
  pub bounds : SegmentBounds
  pub bounded : IsBounded (incremental_segment input) bounds
  pub session_nonneg : pos 0 ≤ℤ input.config.canonical_session_origin_us
  pub frame_nonneg : pos 0 ≤ℤ input.config.canonical_frame_origin
  pub safe : is_safe_opaque_identity input.new_epoch_id ≡ true
  pub outcome : Outcome input bounds result

pub plan_next_capture_segment-IsPlanned :
    (input : PlanNextCaptureSegmentInput) (result : PlanNextCaptureSegmentResult)
    → plan_next_capture_segment input ≡ ok result
    → IsPlanned input result
unfolding plan_next_capture_segment
plan_next_capture_segment-IsPlanned input result e =
    let (_, config, e₁) = >>=-eq-ok (validate_incremental_config input.config) _ e in
    let (_, identity, e₂) = >>=-eq-ok (validate_new_epoch_id input.new_epoch_id) _ e₁ in
    let (bounds, bound, e₃) = >>=-eq-ok (segment_bounds (incremental_segment input)) _ e₂ in
    let b = segment_bounds-IsBounded _ bounds bound in
    let nonneg = validate_incremental_config-nonneg input.config _ config in
    record {
      bounds = bounds;
      bounded = b;
      session_nonneg = nonneg.0;
      frame_nonneg = nonneg.1;
      safe = validate_new_epoch_id-safe _ _ identity;
      outcome = elim (Option-cases input.current_head) [
        | inl absent ↦ plan_first-Outcome input bounds result _ b absent (rw absent at e₃)
        | inr (head, has) ↦ plan_after-Outcome input bounds head result b has (rw has at e₃)
      ];
    }
