-- ===== src/Web/AnnotationQueue/Converged/Normalized.antt =====
-- Proofs about the normalizations of web/app/lib/annotationCommandQueue.ts: what they leave alone, and
-- that they bring no key point back.
use volleyball_monitoring_ai.Base.{
  ℕ, suc, ◌≡◌, refl, sym, ap, ◌∙◌, true, false, List, [], ◌∷◌, ◌++◌, Option, none, some, any, keep,
  ◌||◌, not, inl, inr, Bool-cases, Option-cases, arith,
}
use volleyball_monitoring_ai.Base.Text.{Text, text_eq}
use volleyball_monitoring_ai.Base.Int.{ℤ}
use volleyball_monitoring_ai.Base.Sorting.{sort_by, insert_by}
use volleyball_monitoring_ai.Contracts.BallEvent.{end, NormalizedBallEventPoint}
use volleyball_monitoring_ai.Contracts.AnnotationCommand.{
  AnnotationPayload, create_contact_key_point, close_rally, move_key_point, set_ball_event,
  set_ball_event_actor, ScoringCourtSide, left_side, right_side,
}
use volleyball_monitoring_ai.Contracts.AnnotationSnapshot.{
  AnnotationStatus, open_status, ready, submitted, voided, ScoreResolution, pending_score, resolved,
  unknown, AnnotationKeyPoint, AnnotationRallyBoundary, AnnotationRallySnapshot,
}
use volleyball_monitoring_ai.Web.AnnotationOutbox.{Observation}
use volleyball_monitoring_ai.Web.AnnotationQueue.{is_end_boundary, is_over}
use volleyball_monitoring_ai.Web.AnnotationQueue.KeyPoints.{
  normalize_projected_ball_events, normalize_key_point_order, rejoin, renumber, last_with_id,
  is_four, estimated_boundary, rejoin_point, compare_key_points,
}
use volleyball_monitoring_ai.Web.AnnotationQueue.Converged.{
  has_id, same_side, same_resolution, has_started,
}

-- The commands whose effect the projection shows in full. A move, a contact and a ball event may be
-- undone by the normalization of the ball events, an actor may have no key point, and the test has
-- no case for the closing of a rally.
abbrev pub IsShown : AnnotationPayload → Type 0
IsShown (create_contact_key_point cursor terminal event) = ⊥
IsShown (close_rally target outcome) = ⊥
IsShown (move_key_point id cursor) = ⊥
IsShown (set_ball_event id event) = ⊥
IsShown (set_ball_event_actor id actor) = ⊥
IsShown payload = Unit

module _ (id : Text) where
  pub any-keep :
      (points : List AnnotationKeyPoint)
      → any (has_id id) (keep (λ point. not (text_eq point.key_point_id id)) points) ≡ false
  unfolding has_id
  any-keep [] = refl
  any-keep (point ∷ points) = ground (arith, any-keep points)

  any-insert_by :
      (compare : AnnotationKeyPoint → AnnotationKeyPoint → ℤ) (x : AnnotationKeyPoint)
      (points : List AnnotationKeyPoint)
      → any (has_id id) (insert_by compare x points) ≡ has_id id x || any (has_id id) points
  unfolding insert_by
  any-insert_by compare x [] = refl
  any-insert_by compare x (y ∷ points) = ground (arith, any-insert_by compare x points)

  pub any-sort_by :
      (compare : AnnotationKeyPoint → AnnotationKeyPoint → ℤ) (points : List AnnotationKeyPoint)
      → any (has_id id) (sort_by compare points) ≡ any (has_id id) points
  unfolding sort_by
  any-sort_by compare [] = refl
  any-sort_by compare (x ∷ points) =
      any-insert_by compare x (sort_by compare points)
      ∙ ap (λ rest. has_id id x || rest) (any-sort_by compare points)

  any-renumber :
      (i : ℕ) (ordered points : List AnnotationKeyPoint)
      → any (has_id id) (renumber i ordered points) ≡ any (has_id id) points
  unfolding renumber has_id
  any-renumber i ordered [] = refl
  any-renumber i ordered (point ∷ points) =
      ap (λ rest. text_eq point.key_point_id id || rest) (any-renumber (suc i) ordered points)

  last_with_id-absent :
      (q : Text) (points : List AnnotationKeyPoint) (point : AnnotationKeyPoint)
      → any (has_id id) points ≡ false
      → last_with_id q points ≡ some point
      → has_id id point ≡ false
  unfolding last_with_id has_id
  last_with_id-absent q [] point absent h = cc
  last_with_id-absent q (x ∷ points) point absent h = elim (Option-cases (last_with_id q points)) [
    | inl nowhere ↦ ground arith
    | inr (later, there) ↦ last_with_id-absent q points point (ground arith) (ground arith)
  ]

  any-rejoin_point :
      (normalized : NormalizedBallEventPoint) (found : Option AnnotationKeyPoint)
      (points further : List AnnotationKeyPoint)
      → any (has_id id) points ≡ false
      → last_with_id normalized.key_point_id points ≡ found
      → any (has_id id) further ≡ false
      → any (has_id id) (rejoin_point normalized found further) ≡ false
  unfolding rejoin_point has_id
  any-rejoin_point normalized none points further absent found rest = rest
  any-rejoin_point normalized (some point) points further absent found rest =
      let other = last_with_id-absent normalized.key_point_id points point absent found in
      ground arith

  any-rejoin :
      (points : List AnnotationKeyPoint) (normalized : List NormalizedBallEventPoint)
      → any (has_id id) points ≡ false
      → any (has_id id) (rejoin points normalized) ≡ false
  unfolding rejoin
  any-rejoin points [] absent = refl
  any-rejoin points (n ∷ rest) absent =
      any-rejoin_point n (last_with_id n.key_point_id points) points (rejoin points rest) absent
        refl (any-rejoin points rest absent)

pub any-end_boundary :
    (boundaries : List AnnotationRallyBoundary) (observation : Observation)
    → any is_end_boundary (boundaries ++ estimated_boundary end observation ∷ []) ≡ true
unfolding is_end_boundary estimated_boundary
any-end_boundary [] observation = refl
any-end_boundary (boundary ∷ boundaries) observation =
    ground (arith, any-end_boundary boundaries observation)

pub same_side_refl : (side : Option ScoringCourtSide) → same_side side side ≡ true
unfolding same_side
same_side_refl none = refl
same_side_refl (some left_side) = refl
same_side_refl (some right_side) = refl

pub same_resolution_refl : (r : ScoreResolution) → same_resolution r r ≡ true
unfolding same_resolution
same_resolution_refl pending_score = refl
same_resolution_refl resolved = refl
same_resolution_refl unknown = refl

pub not_over-has_started :
    (status : AnnotationStatus) → is_over status ≡ false → has_started status ≡ true
unfolding is_over has_started
not_over-has_started open_status running = refl
not_over-has_started ready running = refl
not_over-has_started submitted running = refl
not_over-has_started voided running = sym running

module _ (locale_compare : Text → Text → ℤ) where
  -- The normalization of the ball events changes the key points only, and adds none.
  pub normalize_projected-keeps :
      (s : AnnotationRallySnapshot)
      → let t = normalize_projected_ball_events locale_compare s in
        (t.rally_id ≡ s.rally_id)
        × (t.annotation_status ≡ s.annotation_status)
        × (t.score_resolution ≡ s.score_resolution)
        × (t.scoring_court_side ≡ s.scoring_court_side)
        × (t.boundaries ≡ s.boundaries)
        × (t.revision ≡ s.revision)
  unfolding normalize_projected_ball_events
  normalize_projected-keeps s = elim (Bool-cases (is_four s.schema_version)) [
    | inl four_zero ↦ rw four_zero (refl, refl, refl, refl, refl, refl)
    | inr earlier ↦ rw earlier (refl, refl, refl, refl, refl, refl)
  ]

  pub normalize_projected-absent :
      (id : Text) (s : AnnotationRallySnapshot)
      → any (has_id id) s.key_points ≡ false
      → any (has_id id) (normalize_projected_ball_events locale_compare s).key_points ≡ false
  unfolding normalize_projected_ball_events
  normalize_projected-absent id s absent = elim (Bool-cases (is_four s.schema_version)) [
    | inl four_zero ↦ rw four_zero (any-rejoin id s.key_points _ absent)
    | inr earlier ↦ rw earlier absent
  ]

  pub normalize_key_point_order-absent :
      (id : Text) (points : List AnnotationKeyPoint)
      → any (has_id id) points ≡ false
      → any (has_id id) (normalize_key_point_order locale_compare points) ≡ false
  unfolding normalize_key_point_order
  normalize_key_point_order-absent id points absent =
      any-renumber id 0 (sort_by (compare_key_points locale_compare) points)
        (sort_by (compare_key_points locale_compare) points)
      ∙ any-sort_by id (compare_key_points locale_compare) points
      ∙ absent
