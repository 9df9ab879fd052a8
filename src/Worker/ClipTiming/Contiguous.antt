-- ===== src/Worker/ClipTiming/Contiguous.antt =====
-- Proofs about the scan of worker/src/media/clip-timing.ts: it collects the samples of all segments,
-- and their frame indices are consecutive.
use volleyball_monitoring_ai.Base.{
  ◌≡◌, refl, sym, ap, subst, ◌∙◌, List, [], ◌∷◌, ◌++◌, Option, none, some, ok, throw_if, >>=-eq-ok,
  >>-eq-ok, ok-injective, not, length,
}
use mathlib.Core.List.{append_assoc, append-nil}
use volleyball_monitoring_ai.Base.Text.{Text}
use volleyball_monitoring_ai.Base.Int.{ℤ, pos, ◌+ℤ◌, ◌-ℤ◌}
use volleyball_monitoring_ai.Media.Rational.{Rational, same_time_base, rescale_pts_to_us}
use volleyball_monitoring_ai.Media.SampleIndex.{IndexedSample}
use volleyball_monitoring_ai.Worker.ClipTiming.{
  time_base_change, validate_segment_metadata, check_gap, from_media, ClipSourceSegment,
  SelectedClipSourceSample, EpochTimingOrigin, Scan, check_sequence, scan_samples, origins_with,
  scan_indexed, scan_segment, scan_segments,
}
use volleyball_monitoring_ai.Worker.ClipTiming.Frames.{
  FramesFrom, FramesFrom-append, IsContiguous, NextFrame, check_sequence-frame, length-snoc,
  plus_next, samples_of, selected_from,
}

-- A checked sample continues the collected ones.
continues :
    (f : ℤ) (samples : List SelectedClipSourceSample) (previous : Option SelectedClipSourceSample)
    (epoch_id : Text) (sample : IndexedSample)
    → check_sequence previous epoch_id sample ≡ ok tt
    → FramesFrom f samples
    → NextFrame f samples previous
    → let selected : SelectedClipSourceSample = record {
      sample = sample;
      capture_epoch_id = epoch_id;
    } in
      (g : ℤ) × FramesFrom g (samples ++ selected ∷ [])
      × NextFrame g (samples ++ selected ∷ []) (some selected)
continues f samples none epoch_id sample checked frames empty =
    let selected : SelectedClipSourceSample = record {
      sample = sample;
      capture_epoch_id = epoch_id;
    } in
    let frame = sample.capture_frame_index in
    (
      frame,
      subst (λ xs. FramesFrom frame (xs ++ selected ∷ [])) (sym empty) (refl, tt),
      subst (λ xs. frame +ℤ pos 1 ≡ frame +ℤ pos (length (xs ++ selected ∷ []))) (sym empty) refl,
    )
continues f samples (some previous) epoch_id sample checked frames next =
    let selected : SelectedClipSourceSample = record {
      sample = sample;
      capture_epoch_id = epoch_id;
    } in
    let place = check_sequence-frame previous epoch_id sample checked ∙ next in
    (
      f,
      FramesFrom-append f samples selected frames place,
      ap (λ g. g +ℤ pos 1) place
          ∙ plus_next f (length samples)
          ∙ ap (λ n. f +ℤ pos n) (sym (length-snoc samples selected)),
    )

-- What a scan step has done: the samples are added, and they are contiguous.
record Scanned (added : List SelectedClipSourceSample) (before after : Scan) : Type 0 where
  samples : after.all_samples ≡ before.all_samples ++ added
  contiguous : IsContiguous before → IsContiguous after

Scanned-trans :
    (xs ys : List SelectedClipSourceSample) (a b c : Scan)
    → Scanned xs a b
    → Scanned ys b c
    → Scanned (xs ++ ys) a c
Scanned-trans xs ys a b c h k = record {
  samples = k.samples ∙ ap (λ zs. zs ++ ys) h.samples ∙ append_assoc a.all_samples xs ys;
  contiguous = λ start. k.contiguous (h.contiguous start);
}

scan_samples-Scanned :
    (time_base : Rational) (epoch_id : Text) (origin : EpochTimingOrigin) (before after : Scan)
    (samples : List IndexedSample)
    → scan_samples time_base epoch_id origin before samples ≡ ok after
    → Scanned (selected_from epoch_id samples) before after
unfolding scan_samples
scan_samples-Scanned time_base epoch_id origin before after [] e =
    let same = ok-injective e in
    record {
      samples = ap (λ scan. scan.all_samples) (sym same) ∙ sym (append-nil before.all_samples);
      contiguous = λ h. subst IsContiguous same h;
    }
scan_samples-Scanned time_base epoch_id origin before after (sample ∷ samples) e =
    let (offset, _, e₁) =
      >>=-eq-ok (from_media (rescale_pts_to_us (sample.source_pts -ℤ origin.source_pts) time_base))
        _ e in
    let (checked, e₂) = >>-eq-ok _ _ e₁ in
    let (_, e₃) = >>-eq-ok _ _ e₂ in
    let selected : SelectedClipSourceSample = record {
      sample = sample;
      capture_epoch_id = epoch_id;
    } in
    let entered = record before {
      all_samples = before.all_samples ++ selected ∷ [];
      previous = some selected;
    } in
    Scanned-trans (selected ∷ []) (selected_from epoch_id samples) before entered after
      (record {
        samples = refl;
        contiguous =
            λ h. continues h.0 before.all_samples before.previous epoch_id sample checked h.1 h.2;
      })
      (scan_samples-Scanned time_base epoch_id origin entered after samples e₃)

scan_indexed-Scanned :
    (time_base : Rational) (segment : ClipSourceSegment) (before after : Scan)
    (samples : List IndexedSample)
    → scan_indexed time_base segment before samples ≡ ok after
    → Scanned (selected_from segment.capture_epoch_id samples) before after
unfolding scan_indexed
scan_indexed-Scanned time_base segment before after [] e = cc
scan_indexed-Scanned time_base segment before after (first ∷ rest) e =
    let (origins, origin) =
      origins_with segment.capture_epoch_id first before.epoch_timing_origins in
    let done =
      scan_samples-Scanned time_base segment.capture_epoch_id origin
        (record before { epoch_timing_origins = origins }) after (first ∷ rest) e in
    record { samples = done.samples; contiguous = λ h. done.contiguous h }

scan_segment-Scanned :
    (time_base : Rational) (segment : ClipSourceSegment) (before after : Scan)
    → scan_segment time_base segment before ≡ ok after
    → Scanned (selected_from segment.capture_epoch_id segment.index.samples) before after
unfolding scan_segment
scan_segment-Scanned time_base segment before after e =
    let (_, e₁) = >>-eq-ok (validate_segment_metadata segment) _ e in
    let (_, e₂) =
      >>-eq-ok (throw_if (not (same_time_base segment.index.time_base time_base)) time_base_change)
        _ e₁ in
    let (_, e₃) =
      >>-eq-ok (check_gap before.previous_end_capture_us segment.capture_start_us) _ e₂ in
    let (scanned, found, e₄) =
      >>=-eq-ok (scan_indexed time_base segment before segment.index.samples)
        (λ scan. ok (record scan { previous_end_capture_us = some segment.capture_end_us })) e₃ in
    let done = scan_indexed-Scanned time_base segment before scanned segment.index.samples found in
    let same = ok-injective e₄ in
    record {
      samples = ap (λ scan. scan.all_samples) (sym same) ∙ done.samples;
      contiguous = λ h. subst IsContiguous same (done.contiguous h);
    }

-- A scan collects the samples of its segments, and keeps them contiguous.
pub scan_segments-samples :
    (time_base : Rational) (before after : Scan) (segments : List ClipSourceSegment)
    → scan_segments time_base before segments ≡ ok after
    → (after.all_samples ≡ before.all_samples ++ samples_of segments)
      × (IsContiguous before → IsContiguous after)
unfolding scan_segments
scan_segments-samples time_base before after [] e =
    let same = ok-injective e in
    (
      ap (λ scan. scan.all_samples) (sym same) ∙ sym (append-nil before.all_samples),
      λ h. subst IsContiguous same h,
    )
scan_segments-samples time_base before after (segment ∷ segments) e =
    let (scanned, found, rest) = >>=-eq-ok _ _ e in
    let first = scan_segment-Scanned time_base segment before scanned found in
    let (later, kept) = scan_segments-samples time_base scanned after segments rest in
    (
      later
          ∙ ap (λ zs. zs ++ samples_of segments) first.samples
          ∙ append_assoc before.all_samples
              (selected_from segment.capture_epoch_id segment.index.samples) (samples_of segments),
      λ h. kept (first.contiguous h),
    )
