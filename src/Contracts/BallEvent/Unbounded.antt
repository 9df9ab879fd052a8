-- ===== src/Contracts/BallEvent/Unbounded.antt =====
-- Proofs about packages/contracts/src/ball-event.ts: rallies without boundaries.
use volleyball_monitoring_ai.Base.{
  ℕ, suc, ◌≡◌, refl, ◌∙◌, ap, List, [], ◌∷◌, none, length, Bool-cases, inl, inr,
}
use volleyball_monitoring_ai.Base.Text.{Text}
use volleyball_monitoring_ai.Base.Int.{ℤ, pos, leb_ℤ}
use volleyball_monitoring_ai.Contracts.BallEvent.{
  BallEventRulePoint, BallEventRepair, normalize_points, retain, is_before, is_behind,
  compare_point, insert_point, sort_points, normalize_ball_event_key_points,
}

length-insert_point :
    (locale_compare : Text → Text → ℤ) (x : BallEventRulePoint) (points : List BallEventRulePoint)
    → length (insert_point locale_compare x points) ≡ suc (length points)
unfolding insert_point
length-insert_point locale_compare x [] = refl
length-insert_point locale_compare x (y ∷ points) =
    elim (Bool-cases (leb_ℤ (compare_point locale_compare x y) (pos 0))) [
      | inl first ↦ rw first refl
      | inr later ↦ rw later (ap suc (length-insert_point locale_compare x points))
    ]

length-sort_points :
    (locale_compare : Text → Text → ℤ) (points : List BallEventRulePoint)
    → length (sort_points locale_compare points) ≡ length points
unfolding sort_points
length-sort_points locale_compare [] = refl
length-sort_points locale_compare (x ∷ points) =
    length-insert_point locale_compare x (sort_points locale_compare points)
    ∙ ap suc (length-sort_points locale_compare points)

length-retain :
    (points : List BallEventRulePoint) → length (retain none none points).points ≡ length points
unfolding retain is_before is_behind
length-retain [] = refl
length-retain (p ∷ points) = ap suc (length-retain points)

length-normalize_points :
    (i : ℕ) (repairs : List BallEventRepair) (points : List BallEventRulePoint)
    → length (normalize_points i repairs points).0 ≡ length points
unfolding normalize_points
length-normalize_points i repairs [] = refl
length-normalize_points i repairs (p ∷ points) = ap suc (length-normalize_points (suc i) _ points)

pub length-normalize_ball_event_key_points :
    (locale_compare : Text → Text → ℤ) (points : List BallEventRulePoint)
    → length (normalize_ball_event_key_points locale_compare points []).points ≡ length points
unfolding normalize_ball_event_key_points
length-normalize_ball_event_key_points locale_compare points =
    let sorted = sort_points locale_compare points in
    length-normalize_points 0 (retain none none sorted).repairs (retain none none sorted).points
    ∙ length-retain sorted
    ∙ length-sort_points locale_compare points
