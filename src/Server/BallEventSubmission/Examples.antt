-- ===== src/Server/BallEventSubmission/Examples.antt =====
-- A rally whose spike has no result yet.
use volleyball_monitoring_ai.Base.Decimal.{to_decimal}
use volleyball_monitoring_ai.Base.{◌≡◌, refl, ◌↔◌, true, List, [], ◌∷◌, map, none, some, All, arith}
use volleyball_monitoring_ai.Base.Text.{Text, codes}
use volleyball_monitoring_ai.Base.Int.{ℤ, pos}
use volleyball_monitoring_ai.Contracts.BallEvent.{
  serve, spike, success, BallEventRulePoint, normalize_ball_event_key_points,
}
use volleyball_monitoring_ai.Contracts.BallEvent.Unbounded.{length-normalize_ball_event_key_points}
use volleyball_monitoring_ai.Server.BallEventSubmission.{
  SubmissionBallEventPoint, is_submission_ball_event_valid,
  unresolved_ball_event_submission_message,
}
use volleyball_monitoring_ai.Server.BallEventSubmission.Normalized.{
  submitted, is_submission_ball_event_valid-normalized,
}
use volleyball_monitoring_ai.Server.BallEventSubmission.Resolved.{
  IsResolved, unresolved_ball_event_submission_message_iff,
}

abbrev all_equal : Text → Text → ℤ
all_equal a b = pos 0

abbrev marked : List BallEventRulePoint
marked =
    record {
      anchor = record { capture_time_us = 1; capture_frame_index = 1 };
      key_point_id = codes "a";
      sequence_index = pos 0;
      event = none;
    }
    ∷ record {
      anchor = record { capture_time_us = 2; capture_frame_index = 2 };
      key_point_id = codes "b";
      sequence_index = pos 1;
      event = some (record { kind = spike; result = some success; serve_style = none });
    }
    ∷ []

second_valid_example :
    is_submission_ball_event_valid
      (map submitted (normalize_ball_event_key_points all_equal marked []).points)
      1
    ≡ true
second_valid_example =
    is_submission_ball_event_valid-normalized all_equal marked [] 1
      (omega (arith, length-normalize_ball_event_key_points all_equal marked))

abbrev rally : List SubmissionBallEventPoint
rally =
    record { ball_event = some (record { kind = serve; result = none; serve_style = none }) } ∷ []

message_example : (unresolved_ball_event_submission_message rally ≡ none) ↔ All IsResolved rally
message_example = unresolved_ball_event_submission_message_iff rally

rally_message : unresolved_ball_event_submission_message rally ≡ some (codes "第 1 球「發球」尚未標記成功或失敗")
unfolding unresolved_ball_event_submission_message to_decimal
rally_message = refl
