-- ===== src/Media/Planner/BatchPlan/Frames.antt =====
-- Proofs about planCaptureEpochs of packages/media/src/epoch-planner.ts: its timeline.
use volleyball_monitoring_ai.Base.{
  suc, ◌≡◌, refl, sym, ◌∙◌, ap, List, [], ◌∷◌, Option, none, some, ok, >>=-eq-ok, >>-eq-ok,
  throw_if-eq-ok, ok-injective, err-ne-ok, arith, length, last_of, ◌||◌,
}
use volleyball_monitoring_ai.Base.Int.{ℤ, pos, ◌+ℤ◌, ◌-ℤ◌, ◌≤ℤ◌, ltb_ℤ, int_laws}
use volleyball_monitoring_ai.Media.Errors.{order_conflict, invalid_config, invalid_segment}
use volleyball_monitoring_ai.Media.Rational.{rescale_pts_to_us}
use volleyball_monitoring_ai.Media.SampleIndex.{IndexedSample, SampleIndex}
use volleyball_monitoring_ai.Media.Planner.{
  SourceSampleTiming, FinalizedIndexedSegment, CaptureEpochPlannerConfig, PlannedCaptureEpoch,
  SegmentBounds, build_samples, build_sample_index, first_time, next_frame_index, fail_if,
}
use volleyball_monitoring_ai.Media.Planner.Batch.{
  PlannedCaptureSegment, CaptureEpochPlan, Entry, collect_unique,
}
use volleyball_monitoring_ai.Media.Planner.BatchPlan.{
  Pieces, first_sample, check_monotonic, planned_segment, next_range, plan_entries, finish,
  plan_unique, plan_capture_epochs, live_edge, is_no_segment,
}
use volleyball_monitoring_ai.Media.Planner.BatchPlan.Choice.{Latest, choose_epoch}

-- The samples carry the frame indices from the given one on.
abbrev pub Numbered : ℤ → List IndexedSample → Type 0
Numbered frame [] = Unit
Numbered frame (s ∷ samples) = (s.capture_frame_index ≡ frame) × Numbered (frame +ℤ pos 1) samples

build_samples-Numbered :
    (epoch : PlannedCaptureEpoch) (frame : ℤ) (samples : List SourceSampleTiming)
    (placed : List IndexedSample)
    → build_samples epoch frame samples ≡ ok placed
    → Numbered frame placed
unfolding build_samples
build_samples-Numbered epoch frame [] placed e = rw (← ok-injective e) tt
build_samples-Numbered epoch frame (s ∷ samples) placed e =
    let (offset, _, e₁) =
      >>=-eq-ok (rescale_pts_to_us (s.source_pts -ℤ epoch.source_pts_origin) epoch.time_base) _ e in
    let (later, is_later, e₂) = >>=-eq-ok (build_samples epoch (frame +ℤ pos 1) samples) _ e₁ in
    rw (← ok-injective e₂)
      (refl, build_samples-Numbered epoch (frame +ℤ pos 1) samples later is_later)

Numbered-last :
    (frame : ℤ) (x : IndexedSample) (samples : List IndexedSample)
    → Numbered frame (x ∷ samples)
    → (last_of x samples).capture_frame_index +ℤ pos 1 ≡ frame +ℤ pos (suc (length samples))
Numbered-last frame x [] h = ap (λ f. f +ℤ pos 1) h.0
Numbered-last frame x (y ∷ samples) h =
    Numbered-last (frame +ℤ pos 1) y samples h.1 ∙ omega int_laws

next_frame_index-Numbered :
    (frame following : ℤ) (samples : List IndexedSample)
    → Numbered frame samples
    → next_frame_index samples ≡ ok following
    → following ≡ frame +ℤ pos (length samples)
unfolding next_frame_index
next_frame_index-Numbered frame following [] h e = absurd (err-ne-ok e)
next_frame_index-Numbered frame following (x ∷ samples) h e =
    sym (ok-injective e) ∙ Numbered-last frame x samples h

-- The index that is built: numbered samples, and a start at the first of them.
record IsIndexed (frame : ℤ) (index : SampleIndex) : Type 0 where
  pub numbered : Numbered frame index.samples
  pub starts : first_time index.samples ≡ ok index.available_start_us

build_sample_index-IsIndexed :
    (segment : FinalizedIndexedSegment) (bounds : SegmentBounds) (epoch : PlannedCaptureEpoch)
    (frame : ℤ) (index : SampleIndex)
    → build_sample_index segment bounds epoch frame ≡ ok index
    → IsIndexed frame index
unfolding build_sample_index
build_sample_index-IsIndexed segment bounds epoch frame index e =
    let (placed, is_placed, e₁) = >>=-eq-ok (build_samples epoch frame segment.samples) _ e in
    let (offset, _, e₂) =
      >>=-eq-ok
        (rescale_pts_to_us (bounds.end_pts_exclusive -ℤ epoch.source_pts_origin) epoch.time_base) _
        e₁ in
    let (start, is_start, e₃) = >>=-eq-ok (first_time placed) _ e₂ in
    rw (← ok-injective e₃) (record {
      numbered = build_samples-Numbered epoch frame segment.samples placed is_placed;
      starts = is_start;
    })

-- A segment starts no earlier than the one before it ends.
abbrev pub StartsAfter : Option ℤ → PlannedCaptureSegment → Type 0
StartsAfter none planned = Unit
StartsAfter (some end_us) planned = end_us ≤ℤ planned.capture_start_us

-- From `frame` on, the samples of all segments carry consecutive frame indices, up to `following`,
-- and no segment starts before the one in front of it ends.
abbrev pub Timeline : Option ℤ → ℤ → List PlannedCaptureSegment → ℤ → Type 0
Timeline end_us frame [] following = following ≡ frame
Timeline end_us frame (s ∷ segments) following =
    StartsAfter end_us s
    × Numbered frame s.sample_index.samples
    × Timeline (some s.capture_end_us) (frame +ℤ pos (length s.sample_index.samples)) segments
        following

abbrev end_of : Option Latest → Option ℤ
end_of none = none
end_of (some latest) = some latest.plan.capture_end_us

starts-first :
    (samples : List IndexedSample) (first : IndexedSample) (start : ℤ)
    → first_sample samples ≡ ok first
    → first_time samples ≡ ok start
    → first.capture_time_us ≡ start
unfolding first_sample first_time
starts-first [] first start e h = absurd (err-ne-ok e)
starts-first (x ∷ samples) first start e h = rw (← ok-injective e) (ok-injective h)

check_monotonic-StartsAfter :
    (latest : Option Latest) (first : IndexedSample) (planned : PlannedCaptureSegment)
    → check_monotonic latest first ≡ ok tt
    → first.capture_time_us ≡ planned.capture_start_us
    → StartsAfter (end_of latest) planned
unfolding check_monotonic
check_monotonic-StartsAfter none first planned e same = tt
check_monotonic-StartsAfter (some latest) first planned e same =
    let (early, _) =
      >>-eq-ok (fail_if (ltb_ℤ first.capture_time_us latest.plan.capture_end_us) order_conflict) _
        e in
    let not_early = throw_if-eq-ok _ _ early in rw (← same) (ground arith)

subst-Timeline :
    (end_us : Option ℤ) (f g : ℤ) (segments : List PlannedCaptureSegment) (following : ℤ)
    → f ≡ g
    → Timeline end_us f segments following
    → Timeline end_us g segments following
subst-Timeline end_us f g segments following h t = rw h at t

plan_entries-Timeline :
    (config : CaptureEpochPlannerConfig) (latest : Option Latest) (frame : ℤ) (entries : List Entry)
    (pieces : Pieces)
    → plan_entries config latest frame entries ≡ ok pieces
    → Timeline (end_of latest) frame pieces.segments pieces.next_capture_frame_index
unfolding plan_entries finish planned_segment
plan_entries-Timeline config none frame [] pieces e = rw (← ok-injective e) refl
plan_entries-Timeline config (some latest) frame [] pieces e = rw (← ok-injective e) refl
plan_entries-Timeline config latest frame (entry ∷ entries) pieces e =
    let (chosen, _, e₁) = >>=-eq-ok (choose_epoch config latest frame entry) _ e in
    let (index, is_index, e₂) =
      >>=-eq-ok (build_sample_index entry.segment entry.bounds chosen.epoch frame) _ e₁ in
    let (first, is_first, e₃) = >>=-eq-ok (first_sample index.samples) _ e₂ in
    let (checked, e₄) = >>-eq-ok (check_monotonic latest first) _ e₃ in
    let (following, is_following, e₅) = >>=-eq-ok (next_frame_index index.samples) _ e₄ in
    let planned = planned_segment entry chosen.epoch index in
    let next : Latest = record {
      entry = entry;
      plan = planned;
      epoch = chosen.epoch;
      range = (next_range latest planned).0;
    } in
    let (rest, is_rest, e₆) = >>=-eq-ok (plan_entries config (some next) following entries) _ e₅ in
    let indexed =
      build_sample_index-IsIndexed entry.segment entry.bounds chosen.epoch frame index is_index in
    rw (← ok-injective e₆) (
      check_monotonic-StartsAfter latest first planned checked
          (starts-first index.samples first index.available_start_us is_first indexed.starts),
      indexed.numbered,
      subst-Timeline (some planned.capture_end_us) following (frame +ℤ pos (length index.samples))
          rest.segments rest.next_capture_frame_index
          (next_frame_index-Numbered frame following index.samples indexed.numbered is_following)
          (plan_entries-Timeline config (some next) following entries rest is_rest),
    )

-- In a batch plan the samples of all segments carry consecutive frame indices from the canonical frame
-- origin to the next frame index, no segment starts before the one in front of it ends, and the live
-- edge is the end of the last segment.
pub plan_capture_epochs-Timeline :
    (input : List FinalizedIndexedSegment) (config : CaptureEpochPlannerConfig)
    (plan : CaptureEpochPlan)
    → plan_capture_epochs input config ≡ ok plan
    → Timeline none config.canonical_frame_origin plan.segments plan.next_capture_frame_index
      × (live_edge plan.segments ≡ ok plan.live_edge_capture_time_us)
unfolding plan_capture_epochs plan_unique
plan_capture_epochs-Timeline input config plan e =
    let (_, e₁) =
      >>-eq-ok
        (fail_if
          (ltb_ℤ config.canonical_frame_origin (pos 0)
            || ltb_ℤ config.timestamp_tolerance_us (pos 0))
          invalid_config)
        _ e in
    let (_, e₂) = >>-eq-ok (fail_if (is_no_segment input) invalid_segment) _ e₁ in
    let (entries, _, e₃) = >>=-eq-ok (collect_unique [] input) _ e₂ in
    let (pieces, planned, e₄) =
      >>=-eq-ok (plan_entries config none config.canonical_frame_origin entries) _ e₃ in
    let (edge, is_edge, e₅) = >>=-eq-ok (live_edge pieces.segments) _ e₄ in
    rw (← ok-injective e₅) (
      plan_entries-Timeline config none config.canonical_frame_origin entries pieces planned,
      is_edge,
    )
