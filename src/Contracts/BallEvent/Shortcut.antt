-- ===== src/Contracts/BallEvent/Shortcut.antt =====
-- packages/contracts/src/ball-event.ts: decideBallEventShortcut, which tells whether the spike
-- shortcut may create or change a point.
pub mod Safe
mod Examples
use volleyball_monitoring_ai.Base.{
  ℕ, zero, suc, ◌+◌, ◌≤◌, ◌<◌, ◌≡◌, refl, Bool, true, false, List, [], ◌∷◌, Option, none, some,
  ◌||◌, ltb, length, keep, find, get_elem?, if◌then◌else◌, arith, Bool-cases, inl, inr, ◌⊎◌,
  Option-cases,
}
use mathlib.Core.Option.{some-injective}
use volleyball_monitoring_ai.Base.Text.{Text, text_eq, eq_of_text_eq}
use volleyball_monitoring_ai.Base.Int.{ℤ, pos, leb_ℤ}
use volleyball_monitoring_ai.Contracts.BallEvent.{
  spike, BallEventValue, BallEventRuleAnchor, BallEventRulePoint, BallEventRuleBoundary,
  NormalizedBallEventPoint, compare_anchor, is_before, is_behind, is_start, is_end,
  normalize_ball_event_key_points,
}

pub data BallEventShortcutReason : Type 0 where
  no_target_point spike_requires_third_point outside_rally_boundary : BallEventShortcutReason

pub data ShortcutMode : Type 0 where
  create update : ShortcutMode

pub data BallEventShortcutDecision : Type 0 where
  allowed : ShortcutMode → Option Text → ℕ → BallEventValue → BallEventShortcutDecision
  refused :
      ShortcutMode → Option Text → Option ℕ → BallEventShortcutReason → BallEventShortcutDecision

-- The shortcut is `C`, the only one.
shortcut_event : BallEventValue
shortcut_event = record { kind = spike; result = none; serve_style = none }

abbrev shift : Option ℕ → Option ℕ
shift none = none
shift (some i) = some (suc i)

-- `findIndex`, with `none` for -1.
find_point : Text → List NormalizedBallEventPoint → Option ℕ
find_point key_point_id [] = none
find_point key_point_id (point ∷ points) =
    if text_eq point.key_point_id key_point_id
    then some 0
    else shift (find_point key_point_id points)

-- A selected identity, of which the empty text counts as none.
selected : Option Text → Option Text
selected none = none
selected (some []) = none
selected (some (c ∷ s)) = some (c ∷ s)

-- The last test, `ordinal < 3`.
decide_at : ShortcutMode → Option Text → ℕ → BallEventShortcutDecision
unfolding shortcut_event
decide_at mode key_point_id ordinal =
    if ltb ordinal 3
    then refused mode key_point_id (some ordinal) spike_requires_third_point
    else allowed mode key_point_id ordinal shortcut_event

-- The branch of a selected point.
decide_update : Text → Option ℕ → BallEventShortcutDecision
unfolding decide_at
decide_update key_point_id none = refused update (some key_point_id) none no_target_point
decide_update key_point_id (some i) = decide_at update (some key_point_id) (suc i)

-- The points that do not lie behind the candidate.
count_up_to : BallEventRuleAnchor → List NormalizedBallEventPoint → ℕ
count_up_to candidate points = length (
    keep (λ (p : NormalizedBallEventPoint). leb_ℤ (compare_anchor p.anchor candidate) (pos 0))
      points)

-- The branch without a selected point; the identity is then null or the empty text.
decide_create :
    Option Text
    → List BallEventRuleBoundary
    → List NormalizedBallEventPoint
    → Option BallEventRuleAnchor
    → BallEventShortcutDecision
unfolding decide_at count_up_to is_before is_behind
decide_create key_point_id boundaries points none = refused create none none no_target_point
decide_create key_point_id boundaries points (some candidate) =
    if is_before candidate (find is_start boundaries)
      || is_behind candidate (find is_end boundaries)
    then refused create none none outside_rally_boundary
    else decide_at create key_point_id (suc (count_up_to candidate points))

pub decide_ball_event_shortcut :
    (Text → Text → ℤ)
    → List BallEventRulePoint
    → List BallEventRuleBoundary
    → Option Text
    → Option BallEventRuleAnchor
    → BallEventShortcutDecision
unfolding selected find_point decide_update decide_create normalize_ball_event_key_points
decide_ball_event_shortcut locale_compare points boundaries selected_key_point_id candidate_anchor =
    let normalized = normalize_ball_event_key_points locale_compare points boundaries in
    elim (selected selected_key_point_id) [
      | none ↦ decide_create selected_key_point_id boundaries normalized.points candidate_anchor
      | some key_point_id ↦ decide_update key_point_id (find_point key_point_id normalized.points)
    ]
