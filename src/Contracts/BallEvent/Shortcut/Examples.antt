-- ===== src/Contracts/BallEvent/Shortcut/Examples.antt =====
-- The spike shortcut at a new point behind two others.
use volleyball_monitoring_ai.Base.Int.{neg_part, pos_part}
use volleyball_monitoring_ai.Base.{ℕ, ◌≡◌, refl, List, [], ◌∷◌, none, some}
use volleyball_monitoring_ai.Base.Text.{Text, codes}
use volleyball_monitoring_ai.Base.Int.{ℤ, pos}
use volleyball_monitoring_ai.Contracts.BallEvent.{
  BallEventRuleAnchor, BallEventRulePoint, normalize_ball_event_key_points,
}
use volleyball_monitoring_ai.Contracts.BallEvent.Shortcut.{
  create, allowed, shortcut_event, decide_ball_event_shortcut,
}
use volleyball_monitoring_ai.Contracts.BallEvent.Shortcut.Safe.{
  Target, IsKept, decide_ball_event_shortcut-Target,
}

abbrev all_equal : Text → Text → ℤ
all_equal a b = pos 0

abbrev anchor_at : ℕ → BallEventRuleAnchor
anchor_at time = record { capture_time_us = time; capture_frame_index = time }

abbrev point_at : Text → ℕ → BallEventRulePoint
point_at id time = record {
  anchor = anchor_at time;
  key_point_id = id;
  sequence_index = pos 0;
  event = none;
}

abbrev rally : List BallEventRulePoint
rally = point_at (codes "a") 10 ∷ point_at (codes "b") 20 ∷ []

third_point_decided :
    decide_ball_event_shortcut all_equal rally [] none (some (anchor_at 30))
    ≡ allowed create none 3 shortcut_event
unfolding decide_ball_event_shortcut pos_part neg_part
third_point_decided = refl

third_point_example :
    Target
      (normalize_ball_event_key_points all_equal rally []).points
      []
      none
      (some (anchor_at 30))
      create
      none
      3
    × IsKept 3 shortcut_event
third_point_example =
    decide_ball_event_shortcut-Target all_equal rally [] none (some (anchor_at 30)) create none 3
      shortcut_event third_point_decided
