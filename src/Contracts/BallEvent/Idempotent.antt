-- ===== src/Contracts/BallEvent/Idempotent.antt =====
-- Proofs about packages/contracts/src/ball-event.ts: normalizing twice.
use volleyball_monitoring_ai.Base.{
  ℕ, zero, suc, ◌≡◌, refl, sym, ap, true, false, List, [], ◌∷◌, map, Option, none, some, All, inl,
  inr, Bool-cases, arith, find, ◌||◌,
}
use volleyball_monitoring_ai.Base.Text.{Text}
use volleyball_monitoring_ai.Base.Int.{ℤ, pos, eqb_ℤ}
use volleyball_monitoring_ai.Contracts.BallEvent.{
  BallEventKind, ServeStyle, BallEventResult, BallEventValue, BallEventRuleAnchor,
  BallEventRulePoint, BallEventRuleBoundary, BallEventRepair, NormalizedBallEventPoint,
  required_kind, kind_of, result_for, serve_style_for, normalized_event, event_repair,
  push_event_repair, push_reindex_repair, normalize_points, is_before, is_behind, retain,
  sort_points, is_start, is_end, normalize_ball_event_key_points, is_same_kind, is_same_result,
  is_ball_event_result_valid, is_missing, is_serve,
}
use volleyball_monitoring_ai.Contracts.BallEvent.Order.{
  NotAfter, Precedes, Ordered, Indexed, sort_points-Ordered, sort_points-id,
}

-- A normalized point as the input of another normalization.
abbrev pub as_rule_point : NormalizedBallEventPoint → BallEventRulePoint
as_rule_point point = record {
  anchor = point.anchor;
  key_point_id = point.key_point_id;
  sequence_index = point.sequence_index;
  event = some point.event;
}

-- The event needs no repair at the index.
abbrev pub Stable : ℕ → BallEventValue → Type 0
Stable i event =
    (normalized_event i (some event) ≡ event) × (event_repair event (some event) ≡ none)

parts-Stable :
    (i : ℕ) (kind : BallEventKind) (result : Option BallEventResult) (style : Option ServeStyle)
    → Stable i
        (normalized_event i (some (record { kind = kind; result = result; serve_style = style })))
unfolding normalized_event required_kind kind_of result_for serve_style_for is_same_kind
    is_same_result is_ball_event_result_valid event_repair is_missing is_serve
parts-Stable zero k r s = ground arith
parts-Stable (suc zero) k r s = ground arith
parts-Stable (suc (suc i)) k r s = ground arith

normalized_event-Stable :
    (i : ℕ) (event : Option BallEventValue) → Stable i (normalized_event i event)
unfolding normalized_event required_kind kind_of result_for serve_style_for is_same_kind
    is_same_result is_ball_event_result_valid event_repair is_missing is_serve
normalized_event-Stable i (some event) = parts-Stable i event.kind event.result event.serve_style
normalized_event-Stable zero none = (refl, refl)
normalized_event-Stable (suc zero) none = (refl, refl)
normalized_event-Stable (suc (suc i)) none = (refl, refl)

-- Each point carries its index, and an event that needs no repair there.
abbrev pub Settled : ℕ → List NormalizedBallEventPoint → Type 0
Settled i [] = Unit
Settled i (n ∷ points) = (n.sequence_index ≡ pos i) × Stable i n.event × Settled (suc i) points

normalize_points-Settled :
    (i : ℕ) (repairs : List BallEventRepair) (points : List BallEventRulePoint)
    → Settled i (normalize_points i repairs points).0
unfolding normalize_points
normalize_points-Settled i repairs [] = tt
normalize_points-Settled i repairs (p ∷ points) =
    (refl, normalized_event-Stable i p.event, normalize_points-Settled (suc i) _ points)

push_event_repair-none :
    (i : ℕ) (point : BallEventRulePoint) (event : BallEventValue) (repairs : List BallEventRepair)
    → event_repair event point.event ≡ none
    → push_event_repair i point event repairs ≡ repairs
unfolding push_event_repair
push_event_repair-none i point event repairs h = rw (push_event_repair, h) refl

push_reindex_repair-none :
    (i : ℕ) (point : BallEventRulePoint) (event : BallEventValue) (repairs : List BallEventRepair)
    → point.sequence_index ≡ pos i
    → push_reindex_repair i point event repairs ≡ repairs
unfolding push_reindex_repair
push_reindex_repair-none i point event repairs h =
    let same : eqb_ℤ point.sequence_index (pos i) ≡ true = ground (arith, h) in rw same refl

normalize_points-id :
    (i : ℕ) (points : List NormalizedBallEventPoint)
    → Settled i points
    → normalize_points i [] (map as_rule_point points) ≡ (points, [])
unfolding normalize_points
normalize_points-id i [] h = refl
normalize_points-id i (n ∷ points) (indexed, stable, h) =
    rw
      (
        stable.0,
        push_event_repair-none i (as_rule_point n) n.event [] stable.1,
        push_reindex_repair-none i (as_rule_point n) n.event [] indexed,
        normalize_points-id (suc i) points h,
      )
      (ap (λ (k : ℤ). (record n { sequence_index = k } ∷ points, [])) (sym indexed))

-- What holds of all anchors still holds of them.
pub normalize_points-All :
    (P : BallEventRuleAnchor → Type 0) (i : ℕ) (repairs : List BallEventRepair)
    (points : List BallEventRulePoint)
    → All (λ (p : BallEventRulePoint). P p.anchor) points
    → All
        (λ (p : BallEventRulePoint). P p.anchor)
        (map as_rule_point (normalize_points i repairs points).0)
unfolding normalize_points
normalize_points-All P i repairs [] h = tt
normalize_points-All P i repairs (p ∷ points) h = (h.0, normalize_points-All P (suc i) _ points h.1)

pub normalize_points-Ordered :
    (i : ℕ) (repairs : List BallEventRepair) (points : List BallEventRulePoint)
    → Ordered points
    → Ordered (map as_rule_point (normalize_points i repairs points).0)
unfolding normalize_points
normalize_points-Ordered i repairs [] h = tt
normalize_points-Ordered i repairs (p ∷ points) h = (
  normalize_points-All (NotAfter p.anchor) (suc i) _ points h.0,
  normalize_points-Ordered (suc i) _ points h.1,
)

Settled-Indexed :
    (i : ℕ) (points : List NormalizedBallEventPoint)
    → Settled i points
    → Indexed i (map as_rule_point points)
Settled-Indexed i [] h = tt
Settled-Indexed i (n ∷ points) h = (h.0, Settled-Indexed (suc i) points h.2)

module _ (opening closing : Option BallEventRuleBoundary) where
  -- The anchor lies between the boundaries, as far as there are any.
  abbrev pub Inside : BallEventRuleAnchor → Type 0
  Inside a = (is_before a opening || is_behind a closing) ≡ false

  pub retain-Inside :
      (points : List BallEventRulePoint)
      → All (λ (p : BallEventRulePoint). Inside p.anchor) (retain opening closing points).points
  unfolding retain
  retain-Inside [] = tt
  retain-Inside (p ∷ points) =
      elim (Bool-cases (is_before p.anchor opening || is_behind p.anchor closing)) [
        | inl out ↦ rw out (retain-Inside points)
        | inr inside ↦ rw inside (inside, retain-Inside points)
      ]

  retain-All :
      (P : BallEventRulePoint → Type 0) (points : List BallEventRulePoint)
      → All P points
      → All P (retain opening closing points).points
  unfolding retain
  retain-All P [] h = tt
  retain-All P (p ∷ points) h =
      elim (Bool-cases (is_before p.anchor opening || is_behind p.anchor closing)) [
        | inl out ↦ rw out (retain-All P points h.1)
        | inr inside ↦ rw inside (h.0, retain-All P points h.1)
      ]

  pub retain-Ordered :
      (points : List BallEventRulePoint)
      → Ordered points
      → Ordered (retain opening closing points).points
  unfolding retain
  retain-Ordered [] h = tt
  retain-Ordered (p ∷ points) h =
      elim (Bool-cases (is_before p.anchor opening || is_behind p.anchor closing)) [
        | inl out ↦ rw out (retain-Ordered points h.1)
        | inr inside ↦ rw inside (retain-All (Precedes p) points h.0, retain-Ordered points h.1)
      ]

  retain-id :
      (points : List BallEventRulePoint)
      → All (λ (p : BallEventRulePoint). Inside p.anchor) points
      → retain opening closing points ≡ record { points = points; tombstoned = []; repairs = [] }
  unfolding retain
  retain-id [] h = refl
  retain-id (p ∷ points) h = rw (h.0, retain-id points h.1) refl

-- Normalizing a normalized rally again changes nothing, tombstones no point and makes no repair,
-- whatever the comparison of the platform does.
pub normalize_ball_event_key_points-idempotent :
    (locale_compare : Text → Text → ℤ) (points : List BallEventRulePoint)
    (boundaries : List BallEventRuleBoundary)
    → normalize_ball_event_key_points locale_compare
        (map as_rule_point
          (normalize_ball_event_key_points locale_compare points boundaries).points)
        boundaries
      ≡ record {
        points = (normalize_ball_event_key_points locale_compare points boundaries).points;
        tombstoned_key_point_ids = [];
        repairs = [];
      }
unfolding normalize_ball_event_key_points
normalize_ball_event_key_points-idempotent locale_compare points boundaries =
    let opening = find is_start boundaries in
    let closing = find is_end boundaries in
    let sorted = sort_points locale_compare points in
    let kept = retain opening closing sorted in
    let out = (normalize_points 0 kept.repairs kept.points).0 in
    let settled = normalize_points-Settled 0 kept.repairs kept.points in
    let ordered =
      normalize_points-Ordered 0 kept.repairs kept.points
        (retain-Ordered opening closing sorted (sort_points-Ordered locale_compare points)) in
    let inside =
      normalize_points-All (Inside opening closing) 0 kept.repairs kept.points
        (retain-Inside opening closing sorted) in
    rw
      (
        sort_points-id locale_compare 0 (map as_rule_point out) ordered
            (Settled-Indexed 0 out settled),
        retain-id opening closing (map as_rule_point out) inside,
        normalize_points-id 0 out settled,
      )
      refl
