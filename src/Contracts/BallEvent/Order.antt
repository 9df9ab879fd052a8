-- ===== src/Contracts/BallEvent/Order.antt =====
-- Proofs about packages/contracts/src/ball-event.ts: the order of the anchors.
use volleyball_monitoring_ai.Base.{
  ℕ, suc, ◌≤◌, ◌<◌, ◌≡◌, refl, true, false, List, [], ◌∷◌, All, ◌⊎◌, inl, inr, Bool-cases, arith,
}
use volleyball_monitoring_ai.Base.Text.{Text}
use volleyball_monitoring_ai.Base.Int.{
  ℤ, pos, ◌-ℤ◌, -ℤ_parts, pos_part, neg_part, leb_ℤ, pos_part-pos, neg_part-pos,
}
use volleyball_monitoring_ai.Contracts.BallEvent.{
  BallEventRuleAnchor, BallEventRulePoint, compare_anchor, or_number, compare_point, insert_point,
  sort_points,
}

-- The anchor is the other one or lies before it.
abbrev pub NotAfter : BallEventRuleAnchor → BallEventRuleAnchor → Type 0
NotAfter a b =
    (a.capture_time_us < b.capture_time_us)
    ⊎ ((a.capture_time_us ≡ b.capture_time_us) × (a.capture_frame_index ≤ b.capture_frame_index))

NotAfter-trans : (a b c : BallEventRuleAnchor) → NotAfter a b → NotAfter b c → NotAfter a c
NotAfter-trans a b c h k = ground arith

abbrev pub Precedes : BallEventRulePoint → BallEventRulePoint → Type 0
Precedes x y = NotAfter x.anchor y.anchor

-- No point lies after a later one.
abbrev pub Ordered : List BallEventRulePoint → Type 0
Ordered [] = Unit
Ordered (x ∷ points) = All (Precedes x) points × Ordered points

All-weaken :
    (x y : BallEventRulePoint) (points : List BallEventRulePoint)
    → Precedes x y
    → All (Precedes y) points
    → All (Precedes x) points
All-weaken x y [] h k = tt
All-weaken x y (z ∷ points) h k =
    (NotAfter-trans x.anchor y.anchor z.anchor h k.0, All-weaken x y points h k.1)

-- Each point carries its place in the list, counted from the given one.
abbrev pub Indexed : ℕ → List BallEventRulePoint → Type 0
Indexed i [] = Unit
Indexed i (x ∷ points) = (x.sequence_index ≡ pos i) × Indexed (suc i) points

not-positive :
    (x y : BallEventRulePoint)
    → Precedes x y
    → leb_ℤ (compare_anchor x.anchor y.anchor) (pos 0) ≡ true
unfolding pos_part neg_part
not-positive x y h = ground arith

before_index :
    (i : ℕ) (anchors ids : ℤ)
    → leb_ℤ anchors (pos 0) ≡ true
    → leb_ℤ (or_number anchors (or_number (pos i -ℤ pos (suc i)) ids)) (pos 0) ≡ true
before_index i anchors ids h = ground (
  arith,
  -ℤ_parts (pos i) (pos (suc i)),
  pos_part-pos i,
  neg_part-pos i,
  pos_part-pos (suc i),
  neg_part-pos (suc i),
  pos_part-pos 0,
  neg_part-pos 0,
)

module _ (locale_compare : Text → Text → ℤ) where
  compare_point-true :
      (x y : BallEventRulePoint)
      → leb_ℤ (compare_point locale_compare x y) (pos 0) ≡ true
      → Precedes x y
  unfolding compare_point pos_part neg_part
  compare_point-true x y h = ground arith

  compare_point-false :
      (x y : BallEventRulePoint)
      → leb_ℤ (compare_point locale_compare x y) (pos 0) ≡ false
      → Precedes y x
  unfolding compare_point pos_part neg_part
  compare_point-false x y h = ground arith

  insert_point-All :
      (P : BallEventRulePoint → Type 0) (x : BallEventRulePoint) (points : List BallEventRulePoint)
      → P x
      → All P points
      → All P (insert_point locale_compare x points)
  unfolding insert_point
  insert_point-All P x [] p h = (p, tt)
  insert_point-All P x (y ∷ points) p h =
      elim (Bool-cases (leb_ℤ (compare_point locale_compare x y) (pos 0))) [
        | inl first ↦ rw first (p, h)
        | inr later ↦ rw later (h.0, insert_point-All P x points p h.1)
      ]

  insert_point-Ordered :
      (x : BallEventRulePoint) (points : List BallEventRulePoint)
      → Ordered points
      → Ordered (insert_point locale_compare x points)
  unfolding insert_point
  insert_point-Ordered x [] h = (tt, tt)
  insert_point-Ordered x (y ∷ points) h =
      elim (Bool-cases (leb_ℤ (compare_point locale_compare x y) (pos 0))) [
        | inl first ↦
            let precedes = compare_point-true x y first in
            rw first ((precedes, All-weaken x y points precedes h.0), h)
        | inr later ↦ rw later (
          insert_point-All (Precedes y) x points (compare_point-false x y later) h.0,
          insert_point-Ordered x points h.1,
        )
      ]

  pub sort_points-Ordered :
      (points : List BallEventRulePoint) → Ordered (sort_points locale_compare points)
  unfolding sort_points
  sort_points-Ordered [] = tt
  sort_points-Ordered (x ∷ points) =
      insert_point-Ordered x (sort_points locale_compare points) (sort_points-Ordered points)

  compare_point-next :
      (i : ℕ) (x y : BallEventRulePoint)
      → Precedes x y
      → x.sequence_index ≡ pos i
      → y.sequence_index ≡ pos (suc i)
      → leb_ℤ (compare_point locale_compare x y) (pos 0) ≡ true
  unfolding compare_point
  compare_point-next i x y h a b =
      rw (a, b) (before_index i (compare_anchor x.anchor y.anchor) _ (not-positive x y h))

  pub sort_points-id :
      (i : ℕ) (points : List BallEventRulePoint)
      → Ordered points
      → Indexed i points
      → sort_points locale_compare points ≡ points
  unfolding sort_points insert_point
  sort_points-id i [] h k = refl
  sort_points-id i (x ∷ []) h k = refl
  sort_points-id i (x ∷ y ∷ points) h k =
      rw (sort_points-id (suc i) (y ∷ points) h.1 k.1, compare_point-next i x y h.0.0 k.0 k.1.0)
        refl
