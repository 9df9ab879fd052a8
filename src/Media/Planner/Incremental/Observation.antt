-- ===== src/Media/Planner/Incremental/Observation.antt =====
-- Proofs about what planNextCaptureSegment observes at a segment boundary.
use volleyball_monitoring_ai.Base.{
  ◌≡◌, refl, ap, ◌∙◌, >>=-eq-ok, ok-injective, true, List, [], ◌∷◌, Option, none, some, ok, arith,
  All, All-append, ◌≢◌, Bool-cases, inl, inr,
}
use mathlib.Core.Path.{subst}
use volleyball_monitoring_ai.Base.Int.{
  ℤ, pos, ◌-ℤ◌, ◌≤ℤ◌, ◌<ℤ◌, eq_of_parts, -ℤ_parts, pos_part-pos, neg_part-pos,
}
use volleyball_monitoring_ai.Media.Rational.{Rational, same_time_base}
use volleyball_monitoring_ai.Media.Rational.Bounds.{IsPositive, rescale_pts_to_us_lem}
use volleyball_monitoring_ai.Media.Planner.{
  DiscontinuityReason, SegmentBounds, add_reason, reconcile_gap_candidates, timestamp_discontinuity,
  pts_reset,
}
use volleyball_monitoring_ai.Media.Planner.Incremental.{
  Observed, observe_explicit_gap, observe_pts_delta, observe,
}
use volleyball_monitoring_ai.Media.Planner.Incremental.Plans.{
  PersistedCaptureHead, PlanNextCaptureSegmentInput,
}

add_reason-ne-nil :
    (reasons : List DiscontinuityReason) (reason : DiscontinuityReason)
    → add_reason reasons reason ≢ []
unfolding add_reason
add_reason-ne-nil [] reason e = cc
add_reason-ne-nil (r ∷ rs) reason e = ground arith

abbrev pub AllPositive : List ℤ → Type 0
AllPositive = All (λ gap. pos 0 <ℤ gap)

observe_pts_delta-AllPositive :
    (pts_delta : ℤ) (tb : Rational) (reasons : List DiscontinuityReason) (seen : Observed)
    → IsPositive tb
    → observe_pts_delta pts_delta tb reasons ≡ ok seen
    → AllPositive seen.gap_candidates
unfolding observe_pts_delta
observe_pts_delta-AllPositive pts_delta tb reasons seen t e =
    ground (arith, rescale_pts_to_us_lem pts_delta tb t)

observe_pts_delta-touching :
    (pts_delta : ℤ) (tb : Rational) (reasons : List DiscontinuityReason) (seen : Observed)
    → IsPositive tb
    → observe_pts_delta pts_delta tb reasons ≡ ok seen
    → seen.reasons ≡ []
    → pts_delta ≡ pos 0
unfolding observe_pts_delta
observe_pts_delta-touching pts_delta tb reasons seen t e none_seen = ground (
  arith,
  rescale_pts_to_us_lem pts_delta tb t,
  add_reason-ne-nil reasons timestamp_discontinuity,
  add_reason-ne-nil reasons pts_reset,
  eq_of_parts pts_delta (pos 0),
)

observe_explicit_gap-AllPositive :
    (gap : Option ℤ) (seen : Observed)
    → ((g : ℤ) → gap ≡ some g → pos 0 <ℤ g)
    → AllPositive seen.gap_candidates
    → AllPositive (observe_explicit_gap gap seen).gap_candidates
unfolding observe_explicit_gap
observe_explicit_gap-AllPositive none seen p h = h
observe_explicit_gap-AllPositive (some g) seen p h = All-append _ _ _ h (p g refl, tt)

observe_explicit_gap-nil :
    (gap : Option ℤ) (seen : Observed)
    → (observe_explicit_gap gap seen).reasons ≡ []
    → seen.reasons ≡ []
unfolding observe_explicit_gap
observe_explicit_gap-nil none seen e = e
observe_explicit_gap-nil (some g) seen e = absurd (add_reason-ne-nil _ _ e)

diff_zero : (a b : ℤ) → a -ℤ b ≡ pos 0 → a ≡ b
diff_zero a b h = eq_of_parts a b (ground (arith, -ℤ_parts a b, pos_part-pos 0, neg_part-pos 0))

pub observe-AllPositive :
    (head : PersistedCaptureHead) (input : PlanNextCaptureSegmentInput) (bounds : SegmentBounds)
    (seen : Observed)
    → IsPositive input.segment.time_base
    → ((g : ℤ) → input.explicit_gap_before_us ≡ some g → pos 0 <ℤ g)
    → observe head input bounds ≡ ok seen
    → AllPositive seen.gap_candidates
unfolding observe
observe-AllPositive head input bounds seen t p e =
    elim (Bool-cases (same_time_base head.time_base input.segment.time_base)) [
      | inl same ↦
          let (first, delta, rest) = >>=-eq-ok (observe_pts_delta _ _ _) _ (rw same at e) in
          subst (λ (o : Observed). AllPositive o.gap_candidates) (ok-injective rest)
            (observe_explicit_gap-AllPositive _ first p
              (observe_pts_delta-AllPositive _ _ _ first t delta))
      | inr other ↦
          subst (λ (o : Observed). AllPositive o.gap_candidates) (ok-injective (rw other at e))
            (observe_explicit_gap-AllPositive _ _ p tt)
    ]

pub observe-touching :
    (head : PersistedCaptureHead) (input : PlanNextCaptureSegmentInput) (bounds : SegmentBounds)
    (seen : Observed)
    → IsPositive input.segment.time_base
    → observe head input bounds ≡ ok seen
    → seen.reasons ≡ []
    → (same_time_base head.time_base input.segment.time_base ≡ true)
      × (bounds.first_pts ≡ head.last_source_pts_end_exclusive)
unfolding observe
observe-touching head input bounds seen t e none_seen =
    elim (Bool-cases (same_time_base head.time_base input.segment.time_base)) [
      | inl same ↦
          let (first, delta, rest) = >>=-eq-ok (observe_pts_delta _ _ _) _ (rw same at e) in
          let unseen =
            observe_explicit_gap-nil input.explicit_gap_before_us first
              (ap (λ (o : Observed). o.reasons) (ok-injective rest) ∙ none_seen) in
          (same, diff_zero _ _ (observe_pts_delta-touching _ _ _ first t delta unseen))
      | inr other ↦ absurd (
          add_reason-ne-nil _ _ (
            observe_explicit_gap-nil input.explicit_gap_before_us _
              (ap (λ (o : Observed). o.reasons) (ok-injective (rw other at e)) ∙ none_seen)))
    ]

pub reconcile_gap_candidates-nonneg :
    (candidates : List ℤ) (tolerance_us gap : ℤ)
    → AllPositive candidates
    → reconcile_gap_candidates candidates tolerance_us ≡ ok gap
    → pos 0 ≤ℤ gap
unfolding reconcile_gap_candidates
reconcile_gap_candidates-nonneg [] tolerance_us gap h e = ground arith
reconcile_gap_candidates-nonneg (c ∷ cs) tolerance_us gap h e = ground arith
