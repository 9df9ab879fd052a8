-- ===== src/Contracts/BallEvent/Rules.antt =====
-- Proofs about packages/contracts/src/ball-event.ts: the points of a normalized rally.
use mathlib.Core.List.{Perm, perm_middle}
use mathlib.Core.List.Perm
use volleyball_monitoring_ai.Base.{
  ℕ, zero, suc, ◌≤◌, ◌≡◌, ◌≢◌, refl, ap, List, [], ◌∷◌, ◌++◌, map, Option, none, some, All, inl,
  inr, Bool-cases, arith, find, ◌||◌,
}
use volleyball_monitoring_ai.Base.Text.{Text}
use volleyball_monitoring_ai.Base.Int.{ℤ, pos, leb_ℤ}
use volleyball_monitoring_ai.Contracts.BallEvent.{
  BallEventKind, serve, contact, spike, ServeStyle, jump, BallEventResult, BallEventValue,
  BallEventRulePoint, BallEventRuleBoundary, BallEventRepair, NormalizedBallEventPoint,
  required_kind, kind_of, result_for, serve_style_for, normalized_event, normalize_points,
  is_before, is_behind, retain, insert_point, sort_points, compare_point, is_start, is_end,
  normalize_ball_event_key_points, is_same_kind, is_ball_event_result_valid,
}
use volleyball_monitoring_ai.Contracts.BallEvent.Order.{Ordered, sort_points-Ordered}
use volleyball_monitoring_ai.Contracts.BallEvent.Idempotent.{
  as_rule_point, Inside, retain-Inside, retain-Ordered, normalize_points-All,
  normalize_points-Ordered,
}

-- The first event of a rally is a serve and has a style. No later one is a serve or has a style, a
-- contact has no result, and the second one is no spike.
abbrev pub Lawful : ℕ → BallEventValue → Type 0
Lawful zero event = (event.kind ≡ serve) × ((style : ServeStyle) × (event.serve_style ≡ some style))
Lawful (suc i) event =
    (event.kind ≢ serve)
    × (event.serve_style ≡ none)
    × (event.kind ≡ contact → event.result ≡ none)
    × (event.kind ≡ spike → 1 ≤ i)

parts-Lawful :
    (i : ℕ) (kind : BallEventKind) (result : Option BallEventResult) (style : Option ServeStyle)
    → Lawful i
        (normalized_event i (some (record { kind = kind; result = result; serve_style = style })))
unfolding normalized_event required_kind kind_of result_for serve_style_for is_same_kind
    is_ball_event_result_valid
parts-Lawful zero k r none = (refl, (jump, refl))
parts-Lawful zero k r (some s) = (refl, (s, refl))
parts-Lawful (suc zero) k r s = ground arith
parts-Lawful (suc (suc i)) k r s = ground arith

normalized_event-Lawful :
    (i : ℕ) (event : Option BallEventValue) → Lawful i (normalized_event i event)
unfolding normalized_event required_kind kind_of result_for serve_style_for is_same_kind
    is_ball_event_result_valid
normalized_event-Lawful i (some event) = parts-Lawful i event.kind event.result event.serve_style
normalized_event-Lawful zero none = (refl, (jump, refl))
normalized_event-Lawful (suc zero) none = ground arith
normalized_event-Lawful (suc (suc i)) none = ground arith

-- Each point carries its place, counted from the given one, and an event that is lawful there.
abbrev pub LawfulFrom : ℕ → List NormalizedBallEventPoint → Type 0
LawfulFrom i [] = Unit
LawfulFrom i (n ∷ points) =
    (n.sequence_index ≡ pos i) × Lawful i n.event × LawfulFrom (suc i) points

normalize_points-LawfulFrom :
    (i : ℕ) (repairs : List BallEventRepair) (points : List BallEventRulePoint)
    → LawfulFrom i (normalize_points i repairs points).0
unfolding normalize_points
normalize_points-LawfulFrom i repairs [] = tt
normalize_points-LawfulFrom i repairs (p ∷ points) =
    (refl, normalized_event-Lawful i p.event, normalize_points-LawfulFrom (suc i) _ points)

-- The points of a normalized rally carry their places as sequence indices. The first event is a serve
-- with a style, no later one is a serve or has a style, a contact has no result and the second event
-- is no spike. All points lie between the boundaries and in the order of their anchors.
pub normalize_ball_event_key_points-LawfulFrom :
    (locale_compare : Text → Text → ℤ) (points : List BallEventRulePoint)
    (boundaries : List BallEventRuleBoundary)
    → LawfulFrom 0 (normalize_ball_event_key_points locale_compare points boundaries).points
      × All
          (λ (p : BallEventRulePoint).
            Inside (find is_start boundaries) (find is_end boundaries) p.anchor)
          (map as_rule_point
            (normalize_ball_event_key_points locale_compare points boundaries).points)
      × Ordered (
          map as_rule_point
            (normalize_ball_event_key_points locale_compare points boundaries).points)
unfolding normalize_ball_event_key_points
normalize_ball_event_key_points-LawfulFrom locale_compare points boundaries =
    let opening = find is_start boundaries in
    let closing = find is_end boundaries in
    let sorted = sort_points locale_compare points in
    let kept = retain opening closing sorted in
    (
      normalize_points-LawfulFrom 0 kept.repairs kept.points,
      normalize_points-All (Inside opening closing) 0 kept.repairs kept.points
          (retain-Inside opening closing sorted),
      normalize_points-Ordered 0 kept.repairs kept.points
          (retain-Ordered opening closing sorted (sort_points-Ordered locale_compare points)),
    )

abbrev ids : List BallEventRulePoint → List Text
ids points = map (λ (p : BallEventRulePoint). p.key_point_id) points

insert_point-Perm :
    (locale_compare : Text → Text → ℤ) (x : BallEventRulePoint) (points : List BallEventRulePoint)
    → Perm (ids (insert_point locale_compare x points)) (x.key_point_id ∷ ids points)
unfolding insert_point
insert_point-Perm locale_compare x [] = Perm.refl (x.key_point_id ∷ [])
insert_point-Perm locale_compare x (y ∷ points) =
    elim (Bool-cases (leb_ℤ (compare_point locale_compare x y) (pos 0))) [
      | inl first ↦ rw first (Perm.refl (x.key_point_id ∷ y.key_point_id ∷ ids points))
      | inr later ↦ rw later (
          Perm.trans (Perm.cons y.key_point_id (insert_point-Perm locale_compare x points))
            (Perm.swap x.key_point_id y.key_point_id (ids points)))
    ]

sort_points-Perm :
    (locale_compare : Text → Text → ℤ) (points : List BallEventRulePoint)
    → Perm (ids (sort_points locale_compare points)) (ids points)
unfolding sort_points
sort_points-Perm locale_compare [] = Perm.refl []
sort_points-Perm locale_compare (x ∷ points) =
    Perm.trans (insert_point-Perm locale_compare x (sort_points locale_compare points))
      (Perm.cons x.key_point_id (sort_points-Perm locale_compare points))

retain-Perm :
    (opening closing : Option BallEventRuleBoundary) (points : List BallEventRulePoint)
    → Perm
        ((retain opening closing points).tombstoned ++ ids (retain opening closing points).points)
        (ids points)
unfolding retain
retain-Perm opening closing [] = Perm.refl []
retain-Perm opening closing (p ∷ points) =
    elim (Bool-cases (is_before p.anchor opening || is_behind p.anchor closing)) [
      | inl out ↦ rw out (Perm.cons p.key_point_id (retain-Perm opening closing points))
      | inr inside ↦ rw inside (
          Perm.trans
            (perm_middle (retain opening closing points).tombstoned
              (ids (retain opening closing points).points))
            (Perm.cons p.key_point_id (retain-Perm opening closing points)))
    ]

normalize_points-ids :
    (i : ℕ) (repairs : List BallEventRepair) (points : List BallEventRulePoint)
    → map (λ (n : NormalizedBallEventPoint). n.key_point_id) (normalize_points i repairs points).0
      ≡ ids points
unfolding normalize_points
normalize_points-ids i repairs [] = refl
normalize_points-ids i repairs (p ∷ points) =
    ap (λ l. p.key_point_id ∷ l) (normalize_points-ids (suc i) _ points)

-- The tombstoned identities and those of the normalized points together are a permutation of the
-- identities of the input.
pub normalize_ball_event_key_points-Perm :
    (locale_compare : Text → Text → ℤ) (points : List BallEventRulePoint)
    (boundaries : List BallEventRuleBoundary)
    → Perm
        ((normalize_ball_event_key_points locale_compare points boundaries).tombstoned_key_point_ids
          ++ map
              (λ (n : NormalizedBallEventPoint). n.key_point_id)
              (normalize_ball_event_key_points locale_compare points boundaries).points)
        (map (λ (p : BallEventRulePoint). p.key_point_id) points)
unfolding normalize_ball_event_key_points
normalize_ball_event_key_points-Perm locale_compare points boundaries =
    let opening = find is_start boundaries in
    let closing = find is_end boundaries in
    let sorted = sort_points locale_compare points in
    let kept = retain opening closing sorted in
    rw (normalize_points-ids 0 kept.repairs kept.points)
      (Perm.trans (retain-Perm opening closing sorted) (sort_points-Perm locale_compare points))
