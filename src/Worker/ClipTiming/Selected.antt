-- ===== src/Worker/ClipTiming/Selected.antt =====
-- Proofs about the selection of worker/src/media/clip-timing.ts: what a selected clip is made of, namely
-- the first sample behind the requested start and the one behind the requested end.
use volleyball_monitoring_ai.Base.{
  ℕ, suc, ◌≤◌, ◌<◌, ◌≡◌, refl, sym, ap, subst, ◌∙◌, List, [], ◌∷◌, Option, none, some, ok, throw_if,
  >>=-eq-ok, >>-eq-ok, ok-injective, err-ne-ok, ◌||◌, inl, inr, Bool-cases, leb, All, length,
  last_of, take, drop, get_elem?, arith,
}
use volleyball_monitoring_ai.Base.Int.{ℤ, pos, ◌≤ℤ◌, ◌<ℤ◌, ltb_ℤ, leb_ℤ}
use volleyball_monitoring_ai.Media.Rational.{Rational}
use volleyball_monitoring_ai.Worker.ClipTiming.{
  invalid_range, ClipSourceSegment, ClipKeyPointAnchor, SelectedClipSourceSample,
  sample_end_capture_us, scan_segments,
}
use volleyball_monitoring_ai.Worker.ClipTiming.Selection.{
  SelectedClipRange, first_ordinal, one_later, end_ordinal_exclusive, ResolvedKeyPoints,
  resolve_key_points, initial_scan, slice, select_samples, require_ordinal,
  select_canonical_clip_range,
}
use volleyball_monitoring_ai.Worker.ClipTiming.Contiguous.{scan_segments-samples}
use volleyball_monitoring_ai.Worker.ClipTiming.Frames.{FramesFrom, samples_of}

none-ne-some {ℓ} : {A : Type ℓ} {a : A} → none ≡ some a → ⊥
none-ne-some e = cc

module _ (time_base : Rational) (start : ℤ) where
  -- The sample ends at the requested start or before it; and: behind it.
  abbrev pub EndsBy : SelectedClipSourceSample → Type 0
  EndsBy selected =
      (end : ℤ) × (sample_end_capture_us selected.sample time_base ≡ ok end) × (end ≤ℤ start)

  abbrev pub EndsAfter : SelectedClipSourceSample → Type 0
  EndsAfter selected =
      (end : ℤ) × (sample_end_capture_us selected.sample time_base ≡ ok end) × (start <ℤ end)

  one_later-eq-some :
      (found : Option ℕ) (k : ℕ)
      → one_later found ≡ some k
      → (j : ℕ) × (found ≡ some j) × (k ≡ suc j)
  unfolding one_later
  one_later-eq-some none k e = cc
  one_later-eq-some (some j) k e = (j, refl, cc)

  pub first_ordinal-found :
      (samples : List SelectedClipSourceSample) (found : Option ℕ) (k : ℕ)
      → first_ordinal time_base start samples ≡ ok found
      → found ≡ some k
      → (first : SelectedClipSourceSample) × (get_elem? samples k ≡ some first)
        × EndsAfter first
        × All EndsBy (take k samples)
  unfolding first_ordinal
  first_ordinal-found [] found k e h = absurd (none-ne-some (ok-injective e ∙ h))
  first_ordinal-found (selected ∷ samples) found k e h =
      let (end, ends, e₁) = >>=-eq-ok (sample_end_capture_us selected.sample time_base) _ e in
      elim (Bool-cases (ltb_ℤ start end)) [
        | inl behind ↦
            let here : some 0 ≡ found = ok-injective (rw behind at e₁) in
            let zeroth : k ≡ 0 = cc in
            (
              selected,
              ap (get_elem? (selected ∷ samples)) zeroth,
              (end, ends, ground arith),
              subst (λ n. All EndsBy (take n (selected ∷ samples))) (sym zeroth) tt,
            )
        | inr before ↦
            let (further, found_later, e₂) =
              >>=-eq-ok (first_ordinal time_base start samples) _ (rw before at e₁) in
            let (j, place, later) = one_later-eq-some further k (ok-injective e₂ ∙ h) in
            let (first, there, ends_after, all) =
              first_ordinal-found samples further j found_later place in
            (
              first,
              ap (get_elem? (selected ∷ samples)) later ∙ there,
              ends_after,
              subst (λ n. All EndsBy (take n (selected ∷ samples))) (sym later)
                  ((end, ends, ground arith), all),
            )
      ]

module _ (end : ℤ) where
  -- The sample starts at the requested end or before it.
  abbrev pub StartsBy : SelectedClipSourceSample → Type 0
  StartsBy selected = selected.sample.capture_time_us ≤ℤ end

  -- The first one of the samples, if there is one, starts behind the requested end.
  abbrev pub StartAfter : List SelectedClipSourceSample → Type 0
  StartAfter [] = Unit
  StartAfter (selected ∷ samples) = end <ℤ selected.sample.capture_time_us

  pub end_ordinal_exclusive-splits :
      (samples : List SelectedClipSourceSample)
      → (end_ordinal_exclusive end samples ≤ length samples)
        × All StartsBy (take (end_ordinal_exclusive end samples) samples)
        × StartAfter (drop (end_ordinal_exclusive end samples) samples)
  unfolding end_ordinal_exclusive
  end_ordinal_exclusive-splits [] = (omega arith, tt, tt)
  end_ordinal_exclusive-splits (selected ∷ samples) =
      let (bound, all, after) = end_ordinal_exclusive-splits samples in
      elim (Bool-cases (ltb_ℤ end selected.sample.capture_time_us)) [
        | inl behind ↦ rw behind (omega arith, tt, ground arith)
        | inr before ↦ rw before (omega arith, (ground arith, all), after)
      ]

require_ordinal-eq-ok :
    (found : Option ℕ) (end start : ℕ)
    → require_ordinal found end ≡ ok start
    → (found ≡ some start) × (start < end)
unfolding require_ordinal
require_ordinal-eq-ok none end start e = absurd (err-ne-ok e)
require_ordinal-eq-ok (some k) end start e = elim (Bool-cases (leb end k)) [
  | inl empty ↦ absurd (err-ne-ok (rw empty at e))
  | inr some_left ↦
      let same : k ≡ start = ok-injective (rw some_left at e) in (ap some same, ground arith)
]

-- What a selection is made of: the places in the samples of all segments, and the resolved points.
pub record IsSelected (segments : List ClipSourceSegment) (requested_start requested_end : ℤ)
    (key_points : List ClipKeyPointAnchor) (range : SelectedClipRange) : Type 0 where
  pub start_found :
      first_ordinal range.source_time_base requested_start (samples_of segments)
      ≡ ok (some range.source_start_frame)
  pub end_found :
      range.source_end_frame_exclusive ≡ end_ordinal_exclusive requested_end (samples_of segments)
  pub nonempty : range.source_start_frame < range.source_end_frame_exclusive
  pub samples :
      range.source_samples
      ≡ slice range.source_start_frame range.source_end_frame_exclusive (samples_of segments)
  pub frames : (f : ℤ) × FramesFrom f (samples_of segments)
  pub resolved : ResolvedKeyPoints
  pub resolves :
      resolve_key_points range.source_time_base range.source_samples
        (record { ordinals = []; samples = [] })
        key_points
      ≡ ok resolved
  pub ordinals : range.key_point_ordinals ≡ resolved.ordinals

-- The fields of the result, for a slice of the samples.
select_samples-fields :
    (segment : ClipSourceSegment) (start end : ℕ) (key_points : List ClipKeyPointAnchor)
    (samples : List SelectedClipSourceSample) (range : SelectedClipRange)
    → select_samples segment start end key_points samples ≡ ok range
    → (range.source_time_base ≡ segment.index.time_base)
      × (range.source_start_frame ≡ start)
      × (range.source_end_frame_exclusive ≡ end)
      × (range.source_samples ≡ samples)
      × (resolved : ResolvedKeyPoints) × (resolve_key_points segment.index.time_base samples
            (record { ordinals = []; samples = [] })
            key_points
          ≡ ok resolved)
      × (range.key_point_ordinals ≡ resolved.ordinals)
unfolding select_samples
select_samples-fields segment start end key_points [] range e = absurd (err-ne-ok e)
select_samples-fields segment start end key_points (first ∷ rest) range e =
    let time_base = segment.index.time_base in
    let (resolved, resolves, e₁) =
      >>=-eq-ok
        (resolve_key_points time_base (first ∷ rest) (record { ordinals = []; samples = [] })
          key_points)
        _ e in
    let (last_end, _, e₂) =
      >>=-eq-ok (sample_end_capture_us (last_of first rest).sample time_base) _ e₁ in
    let same = sym (ok-injective e₂) in
    (
      ap (λ r. r.source_time_base) same,
      ap (λ r. r.source_start_frame) same,
      ap (λ r. r.source_end_frame_exclusive) same,
      ap (λ r. r.source_samples) same,
      resolved,
      resolves,
      ap (λ r. r.key_point_ordinals) same,
    )

initial_scan-empty : (initial_scan.all_samples ≡ []) × (initial_scan.previous ≡ none)
unfolding initial_scan
initial_scan-empty = (refl, refl)

pub select_canonical_clip_range-IsSelected :
    (segments : List ClipSourceSegment) (requested_start requested_end : ℤ)
    (key_points : List ClipKeyPointAnchor) (range : SelectedClipRange)
    → select_canonical_clip_range segments requested_start requested_end key_points ≡ ok range
    → IsSelected segments requested_start requested_end key_points range
unfolding select_canonical_clip_range initial_scan
select_canonical_clip_range-IsSelected [] requested_start requested_end key_points range e =
    absurd (err-ne-ok e)
select_canonical_clip_range-IsSelected (segment ∷ segments) requested_start requested_end key_points
      range e =
    let time_base = segment.index.time_base in
    let (_, e₁) =
      >>-eq-ok
        (throw_if (ltb_ℤ requested_start (pos 0) || leb_ℤ requested_end requested_start)
          invalid_range)
        _ e in
    let (scan, scanned, e₂) =
      >>=-eq-ok (scan_segments time_base initial_scan (segment ∷ segments)) _ e₁ in
    let (found, first_found, e₃) =
      >>=-eq-ok (first_ordinal time_base requested_start scan.all_samples) _ e₂ in
    let end = end_ordinal_exclusive requested_end scan.all_samples in
    let (start, required, e₄) = >>=-eq-ok (require_ordinal found end) _ e₃ in
    let (at_start, nonempty) = require_ordinal-eq-ok found end start required in
    let (all, contiguous) =
      scan_segments-samples time_base initial_scan scan (segment ∷ segments) scanned in
    let (f, frames, _) = contiguous (pos 0, tt, refl) in
    let (base, starts, ends, samples, resolved, resolves, ordinals) =
      select_samples-fields segment start end key_points (slice start end scan.all_samples) range
        e₄ in
    let every = samples_of (segment ∷ segments) in
    record {
      start_found =
          ap (λ b. first_ordinal b requested_start every) base
          ∙ ap (first_ordinal time_base requested_start) (sym all)
          ∙ first_found
          ∙ ap ok (at_start ∙ ap some (sym starts));
      end_found = ends ∙ ap (end_ordinal_exclusive requested_end) all;
      nonempty =
          subst (λ n. n < range.source_end_frame_exclusive) (sym starts)
            (subst (λ n. start < n) (sym ends) nonempty);
      samples =
          samples
          ∙ ap (slice start end) all
          ∙ ap (λ n. slice n end every) (sym starts)
          ∙ ap (λ n. slice range.source_start_frame n every) (sym ends);
      frames = (f, subst (FramesFrom f) all frames);
      resolved = resolved;
      resolves =
          ap
            (λ b.
              resolve_key_points b range.source_samples (record { ordinals = []; samples = [] })
                key_points)
            base
          ∙ ap
              (λ xs.
                resolve_key_points time_base xs (record { ordinals = []; samples = [] }) key_points)
              samples
          ∙ resolves;
      ordinals = ordinals;
    }
