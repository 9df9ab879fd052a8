-- ===== src/Server/BallEventSubmission.antt =====
-- server/src/domain/annotation/ball-event-submission-validation.ts: the ball events of a submission.
pub mod Normalized
pub mod Resolved
mod Examples
use volleyball_monitoring_ai.Base.{
  ℕ, zero, suc, Bool, true, false, List, [], ◌∷◌, ◌++◌, Option, none, some, get_elem?,
}
use volleyball_monitoring_ai.Base.Text.{Text, codes}
use volleyball_monitoring_ai.Base.Int.{pos}
use volleyball_monitoring_ai.Base.Decimal.{to_decimal}
use volleyball_monitoring_ai.Contracts.BallEvent.{
  BallEventKind, serve, receive, contact, spike, BallEventValue, ReceiveContext, serve_receive,
  spike_receive, plain_receive, receive_context_for_previous_event, is_ball_event_result_valid,
}

pub record SubmissionBallEventPoint : Type 0 where
  pub ball_event : Option BallEventValue

-- `points[index]?.ballEvent`
event_at : List SubmissionBallEventPoint → ℕ → Option BallEventValue
event_at points index = elim (get_elem? points index) [ none ↦ none | some p ↦ p.ball_event ]

-- The two tests of the kind at an index.
is_kind_valid : ℕ → BallEventKind → Bool
is_kind_valid zero serve = true
is_kind_valid zero _ = false
is_kind_valid (suc index) serve = false
is_kind_valid (suc index) _ = true

is_event_valid : ℕ → Option BallEventValue → Bool
unfolding is_kind_valid is_ball_event_result_valid
is_event_valid index none = false
is_event_valid index (some event) = elim (is_kind_valid index event.kind) [
  | false ↦ false
  | true ↦ is_ball_event_result_valid event.kind event.result
]

pub is_submission_ball_event_valid : List SubmissionBallEventPoint → ℕ → Bool
unfolding event_at is_event_valid
is_submission_ball_event_valid points index = is_event_valid index (event_at points index)

-- `points[index - 1]?.ballEvent`
event_before : List SubmissionBallEventPoint → ℕ → Option BallEventValue
unfolding event_at
event_before points zero = none
event_before points (suc index) = event_at points index

receive_name : ReceiveContext → Text
receive_name serve_receive = codes "接發"
receive_name spike_receive = codes "接殺"
receive_name plain_receive = codes "接球"

kind_name : BallEventKind → ReceiveContext → Text
unfolding receive_name
kind_name serve context = codes "發球"
kind_name spike context = codes "殺球"
kind_name contact context = codes "HIT"
kind_name receive context = receive_name context

event_name : List SubmissionBallEventPoint → ℕ → Text
unfolding event_at event_before kind_name receive_context_for_previous_event
event_name points index = elim (event_at points index) [
  | none ↦ codes "球點"
  | some event ↦
      kind_name event.kind (receive_context_for_previous_event (event_before points index))
]

-- `event.kind === 'CONTACT' || event.result !== null`, of an event that is there.
is_resolved : Option BallEventValue → Bool
is_resolved none = true
is_resolved (some event) = elim event.kind [
  | contact ↦ true
  | _ ↦ elim event.result [ none ↦ false | some _ ↦ true ]
]

message_at : List SubmissionBallEventPoint → ℕ → Text
unfolding event_name
message_at points index =
    codes "第 "
    ++ to_decimal (pos (suc index))
    ++ codes " 球「"
    ++ event_name points index
    ++ codes "」尚未標記成功或失敗"

-- The callback of `flatMap` over the points from an index on.
unresolved_from : List SubmissionBallEventPoint → ℕ → List SubmissionBallEventPoint → List Text
unfolding is_resolved message_at
unresolved_from all_points index [] = []
unresolved_from all_points index (point ∷ points) =
    let rest = unresolved_from all_points (suc index) points in
    elim (is_resolved point.ball_event) [ true ↦ rest | false ↦ message_at all_points index ∷ rest ]

-- `join('；')` of the texts behind a first one.
join_behind : Text → List Text → Text
join_behind first [] = first
join_behind first (t ∷ texts) = first ++ codes "；" ++ join_behind t texts

message_of : List Text → Option Text
unfolding join_behind
message_of [] = none
message_of (t ∷ texts) = some (join_behind t texts)

pub unresolved_ball_event_submission_message : List SubmissionBallEventPoint → Option Text
unfolding unresolved_from message_of
unresolved_ball_event_submission_message points = message_of (unresolved_from points 0 points)
