-- ===== src/Media/Planner/Batch/Replay.antt =====
-- Proofs about planCaptureEpochs of packages/media/src/epoch-planner.ts: replayed segments.
use mathlib.Core.List.{Memᴰ}
use mathlib.Core.List.Memᴰ
use volleyball_monitoring_ai.Base.{
  ◌≡◌, refl, sym, ◌∙◌, Bool, true, false, List, [], ◌∷◌, ◌++◌, Option, none, some, ok, >>=-eq-ok,
  >>-eq-ok, throw_if-eq-ok, arith, Bool-cases, Option-cases, inl, inr, not, find,
}
use volleyball_monitoring_ai.Base.Text.{text_eq, text_eq_refl, eq_of_text_eq}
use volleyball_monitoring_ai.Base.Int.{ℤ}
use volleyball_monitoring_ai.Media.Errors.{duplicate_conflict}
use volleyball_monitoring_ai.Media.Rational.{same_time_base}
use volleyball_monitoring_ai.Media.Planner.{
  SourceSampleTiming, FinalizedIndexedSegment, SegmentBounds, segment_bounds, fail_if,
}
use volleyball_monitoring_ai.Media.Planner.Batch.{
  Entry, same_option_ℤ, same_option_bool, same_bool, same_samples, same_segment, has_identity,
  check_order, collect_unique,
}

same_option_ℤ_refl : (a : Option ℤ) → same_option_ℤ a a ≡ true
unfolding same_option_ℤ
same_option_ℤ_refl none = refl
same_option_ℤ_refl (some a) = ground arith

same_option_bool_refl : (a : Option Bool) → same_option_bool a a ≡ true
unfolding same_option_bool same_bool
same_option_bool_refl none = refl
same_option_bool_refl (some true) = refl
same_option_bool_refl (some false) = refl

same_samples_refl : (samples : List SourceSampleTiming) → same_samples samples samples ≡ true
unfolding same_samples same_bool
same_samples_refl [] = refl
same_samples_refl (s ∷ samples) = ground (arith, same_samples_refl samples)

same_segment_refl : (s : FinalizedIndexedSegment) → same_segment s s ≡ true
unfolding same_segment same_time_base
same_segment_refl s =
    rw
      (
        text_eq_refl s.segment_identity,
        text_eq_refl s.source_identity,
        same_option_ℤ_refl s.source_start_time_us,
        same_option_bool_refl s.source_restart,
        same_option_bool_refl s.timestamp_discontinuity,
        same_option_ℤ_refl s.explicit_gap_before_us,
        same_samples_refl s.samples,
      )
      (ground arith)

-- The segment is valid, and replays one that was seen.
record IsReplay (s : FinalizedIndexedSegment) (seen : List FinalizedIndexedSegment) : Type 0 where
  pub bounds : SegmentBounds
  pub is_valid : segment_bounds s ≡ ok bounds
  pub replay : FinalizedIndexedSegment
  pub is_found : find (has_identity s.segment_identity) seen ≡ some replay
  pub is_same : same_segment replay s ≡ true

-- A segment that is new is not the one that is replayed.
IsReplay-cons :
    (s t : FinalizedIndexedSegment) (seen : List FinalizedIndexedSegment)
    → find (has_identity t.segment_identity) seen ≡ none
    → IsReplay s seen
    → IsReplay s (t ∷ seen)
unfolding has_identity
IsReplay-cons s t seen fresh r = record {
  bounds = r.bounds;
  is_valid = r.is_valid;
  replay = r.replay;
  is_found = elim (Bool-cases (text_eq s.segment_identity t.segment_identity)) [
    | inl same ↦ absurd (
        none-ne-some {a = r.replay} (
          sym fresh ∙ (rw (← eq_of_text_eq s.segment_identity t.segment_identity same) r.is_found)))
    | inr other ↦ rw other r.is_found
  ];
  is_same = r.is_same;
}
  where
    none-ne-some :
        {a : FinalizedIndexedSegment} → ◌≡◌ {A = Option FinalizedIndexedSegment} none (some a) → ⊥
    none-ne-some h = cc

taken-IsReplay :
    (s t : FinalizedIndexedSegment) (seen : List FinalizedIndexedSegment) (bounds : SegmentBounds)
    → s ≡ t
    → segment_bounds t ≡ ok bounds
    → IsReplay s (t ∷ seen)
unfolding has_identity
taken-IsReplay s t seen bounds same valid = record {
  bounds = bounds;
  is_valid = rw same valid;
  replay = t;
  is_found = rw (same, text_eq_refl t.segment_identity) refl;
  is_same = rw same (same_segment_refl t);
}

collect_unique-snoc :
    (seen input : List FinalizedIndexedSegment) (s : FinalizedIndexedSegment) (entries : List Entry)
    → IsReplay s seen
    → collect_unique seen input ≡ ok entries
    → collect_unique seen (input ++ s ∷ []) ≡ ok entries
unfolding collect_unique
collect_unique-snoc seen [] s entries r e = rw (r.is_valid, r.is_found, r.is_same) e
collect_unique-snoc seen (t ∷ input) s entries r e =
    let (bounds, valid, e₁) = >>=-eq-ok (segment_bounds t) _ e in
    elim (Option-cases (find (has_identity t.segment_identity) seen)) [
      | inl fresh ↦
          let (checked, e₂) = >>-eq-ok (check_order seen t) _ (rw fresh at e₁) in
          let (later, is_later, e₃) = >>=-eq-ok (collect_unique (t ∷ seen) input) _ e₂ in
          rw
            (
              valid,
              fresh,
              checked,
              collect_unique-snoc (t ∷ seen) input s later (IsReplay-cons s t seen fresh r)
                  is_later,
            )
            e₃
      | inr (replay, found) ↦
          let (checked, e₂) =
            >>-eq-ok (fail_if (not (same_segment replay t)) duplicate_conflict) _
              (rw found at e₁) in
          rw (valid, found, checked, collect_unique-snoc seen input s entries r e₂) refl
    ]

-- A segment of an accepted input may come again behind it.
pub collect_unique-replayed :
    (seen input : List FinalizedIndexedSegment) (s : FinalizedIndexedSegment) (entries : List Entry)
    → Memᴰ s input
    → collect_unique seen input ≡ ok entries
    → collect_unique seen (input ++ s ∷ []) ≡ ok entries
unfolding collect_unique
collect_unique-replayed seen [] s entries m e = absurd (Memᴰ.not-nil m)
collect_unique-replayed seen (t ∷ input) s entries m e =
    let (bounds, valid, e₁) = >>=-eq-ok (segment_bounds t) _ e in
    elim (Option-cases (find (has_identity t.segment_identity) seen)) [
      | inl fresh ↦
          let (checked, e₂) = >>-eq-ok (check_order seen t) _ (rw fresh at e₁) in
          let (later, is_later, e₃) = >>=-eq-ok (collect_unique (t ∷ seen) input) _ e₂ in
          let again : collect_unique (t ∷ seen) (input ++ s ∷ []) ≡ ok later =
            elim (Memᴰ.cases_cons m) [
              | inl same ↦
                  collect_unique-snoc (t ∷ seen) input s later
                    (taken-IsReplay s t seen bounds same valid) is_later
              | inr m' ↦ collect_unique-replayed (t ∷ seen) input s later m' is_later
            ] in
          rw (valid, fresh, checked, again) e₃
      | inr (replay, found) ↦
          let (checked, e₂) =
            >>-eq-ok (fail_if (not (same_segment replay t)) duplicate_conflict) _
              (rw found at e₁) in
          let again : collect_unique seen (input ++ s ∷ []) ≡ ok entries =
            elim (Memᴰ.cases_cons m) [
              | inl same ↦
                  collect_unique-snoc seen input s entries
                    (record {
                      bounds = bounds;
                      is_valid = rw same valid;
                      replay = replay;
                      is_found = rw same found;
                      is_same = rw same (true_of_not (throw_if-eq-ok _ _ checked));
                    })
                    e₂
              | inr m' ↦ collect_unique-replayed seen input s entries m' e₂
            ] in
          rw (valid, found, checked, again) refl
    ]
  where
    true_of_not : {b : Bool} → not b ≡ false → b ≡ true
    true_of_not h = ground arith
