-- ===== src/Worker/ClipTiming/KeyPoints.antt =====
-- Proofs about worker/src/media/clip-timing.ts: where the key points of a clip are found.
use volleyball_monitoring_ai.Base.{
  ℕ, suc, ◌+◌, ◌≡◌, refl, sym, ap, subst, ◌∙◌, true, List, [], ◌∷◌, ◌++◌, Option, some, Result, ok,
  err, >>=-eq-ok, ok-injective, err-ne-ok, ◌⊎◌, inl, inr, Bool-cases, Option-cases, All, Any,
  get_elem?, arith,
}
use mathlib.Core.List.{append_assoc}
use volleyball_monitoring_ai.Base.Text.{Text, text_eq_refl, eq_of_text_eq}
use volleyball_monitoring_ai.Base.Int.{ℤ, eqb_ℤ, leb_ℤ, ◌≤ℤ◌, eq_of_eqb_ℤ}
use volleyball_monitoring_ai.Base.Maps.{map_set, map_has, map_has-map_set, map_set-All}
use volleyball_monitoring_ai.Media.Errors.{MediaError}
use volleyball_monitoring_ai.Media.Rational.{Rational, rescale_pts_to_us}
use volleyball_monitoring_ai.Worker.ClipTiming.{
  from_media, estimated, TimingPrecision, ClipKeyPointAnchor, SelectedClipSourceSample,
}
use volleyball_monitoring_ai.Worker.ClipTiming.Selection.{
  is_exact_sample, exact_ordinal, matching_frame_ordinals, is_estimated, capture_delta_us,
  accept_candidate, one_candidate, resolve_key_point, ResolvedKeyPoints, sample_at,
  resolve_key_points,
}
use volleyball_monitoring_ai.Worker.ClipTiming.Frames.{frame_of}

-- The point lies exactly on the sample.
abbrev pub IsExact : ClipKeyPointAnchor → SelectedClipSourceSample → Type 0
IsExact point selected =
    (point.capture_epoch_id ≡ selected.capture_epoch_id)
    × (point.source_pts ≡ selected.sample.source_pts)
    × (point.capture_time_us ≡ selected.sample.capture_time_us)

-- The point is an estimate, and its time is at most a frame's duration away from the sample's.
abbrev pub IsNear : Rational → ClipKeyPointAnchor → SelectedClipSourceSample → Type 0
IsNear time_base point selected =
    (point.timing_precision ≡ some estimated)
    × (duration : ℤ) × (rescale_pts_to_us selected.sample.duration_pts time_base ≡ ok duration)
    × (capture_delta_us selected.sample.capture_time_us point.capture_time_us ≤ℤ duration)

-- The sample at the place has the point's frame, and the point lies on it or near it.
abbrev pub Resolves : Rational → List SelectedClipSourceSample → ClipKeyPointAnchor → ℕ → Type 0
Resolves time_base samples point ordinal =
    (selected : SelectedClipSourceSample) × (get_elem? samples ordinal ≡ some selected)
    × (frame_of selected ≡ point.capture_frame_index)
    × (IsExact point selected ⊎ IsNear time_base point selected)

exact_ordinal-found :
    (i ordinal : ℕ) (point : ClipKeyPointAnchor) (samples : List SelectedClipSourceSample)
    → exact_ordinal i point samples ≡ some ordinal
    → (j : ℕ) × (selected : SelectedClipSourceSample) × (ordinal ≡ i + j)
      × (get_elem? samples j ≡ some selected)
      × (is_exact_sample point selected ≡ true)
unfolding exact_ordinal
exact_ordinal-found i ordinal point [] e = cc
exact_ordinal-found i ordinal point (selected ∷ samples) e =
    elim (Bool-cases (is_exact_sample point selected)) [
      | inl here ↦ (0, selected, ground arith, refl, here)
      | inr not_here ↦
          let (j, found, place, there, exact) =
            exact_ordinal-found (suc i) ordinal point samples (ground arith) in
          (suc j, found, omega arith, there, exact)
    ]

matching_frame_ordinals-found :
    (i ordinal : ℕ) (rest : List ℕ) (frame : ℤ) (samples : List SelectedClipSourceSample)
    → matching_frame_ordinals i frame samples ≡ ordinal ∷ rest
    → (j : ℕ) × (selected : SelectedClipSourceSample) × (ordinal ≡ i + j)
      × (get_elem? samples j ≡ some selected)
      × (frame_of selected ≡ frame)
unfolding matching_frame_ordinals
matching_frame_ordinals-found i ordinal rest frame [] e = cc
matching_frame_ordinals-found i ordinal rest frame (selected ∷ samples) e =
    elim (Bool-cases (eqb_ℤ (frame_of selected) frame)) [
      | inl here ↦ (0, selected, ground arith, refl, eq_of_eqb_ℤ (frame_of selected) frame here)
      | inr not_here ↦
          let (j, found, place, there, same) =
            matching_frame_ordinals-found (suc i) ordinal rest frame samples (ground arith) in
          (suc j, found, omega arith, there, same)
    ]

is_exact_sample-IsExact :
    (point : ClipKeyPointAnchor) (selected : SelectedClipSourceSample)
    → is_exact_sample point selected ≡ true
    → (frame_of selected ≡ point.capture_frame_index) × IsExact point selected
unfolding is_exact_sample
is_exact_sample-IsExact point selected e = (
  sym (eq_of_eqb_ℤ point.capture_frame_index (frame_of selected) (ground arith)),
  (
    eq_of_text_eq point.capture_epoch_id selected.capture_epoch_id (ground arith),
    eq_of_eqb_ℤ point.source_pts selected.sample.source_pts (ground arith),
    eq_of_eqb_ℤ point.capture_time_us selected.sample.capture_time_us (ground arith),
  ),
)

from_media-eq-ok :
    (call : Result MediaError ℤ) {value : ℤ} → from_media call ≡ ok value → call ≡ ok value
from_media-eq-ok (err e) h = absurd (err-ne-ok h)
from_media-eq-ok (ok v) h = ap ok (ok-injective h)

estimated_of :
    (precision : Option TimingPrecision)
    → is_estimated precision ≡ true
    → precision ≡ some estimated
unfolding is_estimated
estimated_of precision e = ground arith

accept_candidate-IsNear :
    (time_base : Rational) (point : ClipKeyPointAnchor) (ordinal found : ℕ)
    (candidate : SelectedClipSourceSample)
    → is_estimated point.timing_precision ≡ true
    → accept_candidate time_base point ordinal (some candidate) ≡ ok found
    → (found ≡ ordinal) × IsNear time_base point candidate
unfolding accept_candidate
accept_candidate-IsNear time_base point ordinal found candidate guess e =
    let (duration, length, kept) =
      >>=-eq-ok (from_media (rescale_pts_to_us candidate.sample.duration_pts time_base)) _ e in
    let test =
      leb_ℤ (capture_delta_us candidate.sample.capture_time_us point.capture_time_us) duration in
    elim (Bool-cases test) [
      | inl near ↦ (
        sym (ok-injective (rw near at kept)),
        (
          estimated_of point.timing_precision guess,
          duration,
          from_media-eq-ok (rescale_pts_to_us candidate.sample.duration_pts time_base) length,
          ground arith,
        ),
      )
      | inr far ↦ absurd (err-ne-ok (rw far at kept))
    ]

one_candidate-Resolves :
    (time_base : Rational) (samples : List SelectedClipSourceSample) (point : ClipKeyPointAnchor)
    (ordinals : List ℕ) (found : ℕ)
    → matching_frame_ordinals 0 point.capture_frame_index samples ≡ ordinals
    → is_estimated point.timing_precision ≡ true
    → one_candidate time_base samples point ordinals ≡ ok found
    → Resolves time_base samples point found
unfolding one_candidate
one_candidate-Resolves time_base samples point [] found m guess e = absurd (err-ne-ok e)
one_candidate-Resolves time_base samples point (ordinal ∷ other ∷ rest) found m guess e =
    absurd (err-ne-ok e)
one_candidate-Resolves time_base samples point (ordinal ∷ []) found m guess e =
    let (j, selected, place, there, same) =
      matching_frame_ordinals-found 0 ordinal [] point.capture_frame_index samples m in
    let here : ordinal ≡ j = omega arith in
    let at_ordinal : get_elem? samples ordinal ≡ some selected =
      ap (get_elem? samples) here ∙ there in
    let (kept, near) =
      accept_candidate-IsNear time_base point ordinal found selected guess (rw at_ordinal at e) in
    (selected, ap (get_elem? samples) kept ∙ at_ordinal, same, inr near)

-- A place that the resolution returns is one of a sample that the point resolves to.
pub resolve_key_point-Resolves :
    (time_base : Rational) (samples : List SelectedClipSourceSample) (point : ClipKeyPointAnchor)
    (ordinal : ℕ)
    → resolve_key_point time_base samples point ≡ ok ordinal
    → Resolves time_base samples point ordinal
unfolding resolve_key_point
resolve_key_point-Resolves time_base samples point ordinal e =
    elim (Option-cases (exact_ordinal 0 point samples)) [
      | inr (i, found) ↦
          let (j, selected, place, there, exact) = exact_ordinal-found 0 i point samples found in
          let (frame, is_exact) = is_exact_sample-IsExact point selected exact in
          let same : i ≡ ordinal = ok-injective (rw (found, resolve_key_point) at e) in
          let here : ordinal ≡ j = omega arith in
          (selected, ap (get_elem? samples) here ∙ there, frame, inl is_exact)
      | inl missing ↦ elim (Bool-cases (is_estimated point.timing_precision)) [
        | inl guess ↦
            one_candidate-Resolves time_base samples point
              (matching_frame_ordinals 0 point.capture_frame_index samples) ordinal refl guess
              (rw guess at (rw (missing, resolve_key_point) at e))
        | inr firm ↦ absurd (err-ne-ok (rw firm at (rw (missing, resolve_key_point) at e)))
      ]
    ]

-- The key point's identity leads to a place that it resolves to.
abbrev pub Found :
    Rational → List SelectedClipSourceSample → List ClipKeyPointAnchor → Text × ℕ → Type 0
Found time_base samples points entry =
    Any (λ point. (point.id ≡ entry.0) × Resolves time_base samples point entry.1) points

Any-append {ℓ} : {A : Type ℓ} (P : A → Type 0) (xs ys : List A) → Any P ys → Any P (xs ++ ys)
Any-append P [] ys h = h
Any-append P (x ∷ xs) ys h = inr (Any-append P xs ys h)

resolve_key_points-has :
    (time_base : Rational) (samples : List SelectedClipSourceSample)
    (before after : ResolvedKeyPoints) (points : List ClipKeyPointAnchor) (id : Text)
    → resolve_key_points time_base samples before points ≡ ok after
    → map_has id before.ordinals ≡ true
    → map_has id after.ordinals ≡ true
unfolding resolve_key_points
resolve_key_points-has time_base samples before after [] id e h =
    ap (λ kept. map_has id kept.ordinals) (sym (ok-injective e)) ∙ h
resolve_key_points-has time_base samples before after (point ∷ points) id e h =
    let (ordinal, resolved, e₁) = >>=-eq-ok (resolve_key_point time_base samples point) _ e in
    let (selected, there, e₂) = >>=-eq-ok (sample_at samples ordinal) _ e₁ in
    let entered : ResolvedKeyPoints = record {
      ordinals = map_set point.id ordinal before.ordinals;
      samples = map_set point.id selected before.samples;
    } in
    resolve_key_points-has time_base samples entered after points id e₂
      (map_has-map_set point.id id ordinal before.ordinals ∙ ground arith)

-- Every key point has an entry, and every entry is a place that a key point of its name resolves to.
pub resolve_key_points-Found :
    (time_base : Rational) (samples : List SelectedClipSourceSample)
    (before after : ResolvedKeyPoints) (earlier points : List ClipKeyPointAnchor)
    → resolve_key_points time_base samples before points ≡ ok after
    → All (Found time_base samples (earlier ++ points)) before.ordinals
    → All (Found time_base samples (earlier ++ points)) after.ordinals
      × All (λ point. map_has point.id after.ordinals ≡ true) points
unfolding resolve_key_points
resolve_key_points-Found time_base samples before after earlier [] e h = (
  subst (λ kept. All (Found time_base samples (earlier ++ [])) kept.ordinals) (ok-injective e) h,
  tt,
)
resolve_key_points-Found time_base samples before after earlier (point ∷ points) e h =
    let (ordinal, resolved, e₁) = >>=-eq-ok (resolve_key_point time_base samples point) _ e in
    let (selected, there, e₂) = >>=-eq-ok (sample_at samples ordinal) _ e₁ in
    let here : Found time_base samples (earlier ++ point ∷ points) (point.id, ordinal) =
      Any-append (λ other. (other.id ≡ point.id) × Resolves time_base samples other ordinal) earlier
        (point ∷ points)
        (inl (refl, resolve_key_point-Resolves time_base samples point ordinal resolved)) in
    let entered : ResolvedKeyPoints = record {
      ordinals = map_set point.id ordinal before.ordinals;
      samples = map_set point.id selected before.samples;
    } in
    let assoc = append_assoc earlier (point ∷ []) points in
    let rest =
      resolve_key_points-Found time_base samples entered after (earlier ++ point ∷ []) points e₂ (
        subst (λ all. All (Found time_base samples all) entered.ordinals) (sym assoc)
          (map_set-All (Found time_base samples (earlier ++ point ∷ points)) point.id ordinal
            before.ordinals here h)) in
    (
      subst (λ all. All (Found time_base samples all) after.ordinals) assoc rest.0,
      (
        resolve_key_points-has time_base samples entered after points point.id e₂ (
            map_has-map_set point.id point.id ordinal before.ordinals
            ∙ rw (text_eq_refl point.id) refl),
        rest.1,
      ),
    )
