-- ===== src/Contracts/BallEvent/Examples.antt =====
-- A rally of four points, one of them before its start, with two events that break the rules.
use mathlib.Core.List.{Perm}
use volleyball_monitoring_ai.Base.Int.{neg_part, pos_part}
use volleyball_monitoring_ai.Base.{ℕ, ◌≡◌, refl, List, [], ◌∷◌, ◌++◌, map, find, none, some, All}
use volleyball_monitoring_ai.Base.Text.{Text, codes}
use volleyball_monitoring_ai.Base.Int.{ℤ, pos}
use volleyball_monitoring_ai.Contracts.BallEvent.{
  BallEventKind, receive, contact, spike, BallEventRulePoint, BallEventRuleBoundary, start, end,
  is_start, is_end, NormalizedBallEventPoint, normalize_ball_event_key_points,
}
use volleyball_monitoring_ai.Contracts.BallEvent.Order.{Ordered}
use volleyball_monitoring_ai.Contracts.BallEvent.Idempotent.{
  as_rule_point, Inside, normalize_ball_event_key_points-idempotent,
}
use volleyball_monitoring_ai.Contracts.BallEvent.Rules.{
  LawfulFrom, normalize_ball_event_key_points-LawfulFrom, normalize_ball_event_key_points-Perm,
}

-- The comparison does not tell any two texts apart.
abbrev all_equal : Text → Text → ℤ
all_equal a b = pos 0

abbrev point_at : Text → ℕ → BallEventKind → BallEventRulePoint
point_at id time kind = record {
  anchor = record { capture_time_us = time; capture_frame_index = time };
  key_point_id = id;
  sequence_index = pos 0;
  event = some (record { kind = kind; result = none; serve_style = none });
}

abbrev rally : List BallEventRulePoint
rally =
    point_at (codes "d") 40 spike
    ∷ point_at (codes "a") 5 receive
    ∷ point_at (codes "c") 30 spike
    ∷ point_at (codes "b") 20 contact
    ∷ []

abbrev boundaries : List BallEventRuleBoundary
boundaries =
    record { anchor = record { capture_time_us = 10; capture_frame_index = 10 }; kind = start }
    ∷ record { anchor = record { capture_time_us = 90; capture_frame_index = 90 }; kind = end }
    ∷ []

idempotent_example :
    normalize_ball_event_key_points all_equal
      (map as_rule_point (normalize_ball_event_key_points all_equal rally boundaries).points)
      boundaries
    ≡ record {
      points = (normalize_ball_event_key_points all_equal rally boundaries).points;
      tombstoned_key_point_ids = [];
      repairs = [];
    }
idempotent_example = normalize_ball_event_key_points-idempotent all_equal rally boundaries

rules_example :
    LawfulFrom 0 (normalize_ball_event_key_points all_equal rally boundaries).points
    × All
        (λ (p : BallEventRulePoint).
          Inside (find is_start boundaries) (find is_end boundaries) p.anchor)
        (map as_rule_point (normalize_ball_event_key_points all_equal rally boundaries).points)
    × Ordered
        (map as_rule_point (normalize_ball_event_key_points all_equal rally boundaries).points)
rules_example = normalize_ball_event_key_points-LawfulFrom all_equal rally boundaries

permutation_example :
    Perm
      ((normalize_ball_event_key_points all_equal rally boundaries).tombstoned_key_point_ids
        ++ map
            (λ (n : NormalizedBallEventPoint). n.key_point_id)
            (normalize_ball_event_key_points all_equal rally boundaries).points)
      (map (λ (p : BallEventRulePoint). p.key_point_id) rally)
permutation_example = normalize_ball_event_key_points-Perm all_equal rally boundaries

-- The point that comes too early is the one that is tombstoned.
rally_tombstoned :
    (normalize_ball_event_key_points all_equal rally boundaries).tombstoned_key_point_ids
    ≡ codes "a" ∷ []
unfolding normalize_ball_event_key_points pos_part neg_part
rally_tombstoned = refl
