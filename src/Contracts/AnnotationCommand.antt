-- ===== src/Contracts/AnnotationCommand.antt =====
-- packages/contracts/src/annotation.ts: the commands of the annotators, with their
-- payloads. A playback cursor, which the commands only carry, is a JSON value.
use volleyball_monitoring_ai.Base.{Bool, Option}
use volleyball_monitoring_ai.Base.Text.{Text, codes}
use volleyball_monitoring_ai.Base.Json.{Json}
use volleyball_monitoring_ai.Contracts.BallEvent.{BallEventValue}

pub data SchemaVersion : Type 0 where
  two three four : SchemaVersion

pub data ScoringCourtSide : Type 0 where
  left_side right_side : ScoringCourtSide

-- `none` is the outcome `unknown`, which has no side.
pub record Outcome : Type 0 where
  pub scoring_court_side : Option ScoringCourtSide

-- `unknown_terminal` tells whether the contact has the terminal outcome `unknown`.
pub data AnnotationPayload : Type 0 where
  start_rally : (playback_cursor : Json) → AnnotationPayload
  end_rally : (playback_cursor : Json) → AnnotationPayload
  create_service_key_point : (playback_cursor : Json) → AnnotationPayload
  set_rally_outcome : Outcome → AnnotationPayload
  create_contact_key_point :
      (playback_cursor : Json) (unknown_terminal : Bool) (ball_event : Option BallEventValue)
      → AnnotationPayload
  close_rally : (target_key_point_id : Text) → Outcome → AnnotationPayload
  move_key_point : (key_point_id : Text) (playback_cursor : Json) → AnnotationPayload
  set_ball_event : (key_point_id : Text) (event : BallEventValue) → AnnotationPayload
  set_ball_event_actor :
      (key_point_id : Text) (actor_roster_entry_id : Option Text) → AnnotationPayload
  delete_key_point : (key_point_id : Text) → AnnotationPayload
  reopen_rally : AnnotationPayload
  void_rally : (reason : Text) → AnnotationPayload
  submit_rally : AnnotationPayload

pub record AnnotationCommand : Type 0 where
  pub schema_version : SchemaVersion
  pub command_id : Text
  pub room_id : Text
  pub base_revision : Text
  pub rally_id : Text
  pub payload : AnnotationPayload

-- The word of a command's kind.
unfoldable pub kind_word : AnnotationPayload → Text
kind_word (start_rally cursor) = codes "START_RALLY"
kind_word (end_rally cursor) = codes "END_RALLY"
kind_word (set_rally_outcome outcome) = codes "SET_RALLY_OUTCOME"
kind_word (create_service_key_point cursor) = codes "CREATE_SERVICE_KEY_POINT"
kind_word (create_contact_key_point cursor terminal event) = codes "CREATE_CONTACT_KEY_POINT"
kind_word (close_rally target outcome) = codes "CLOSE_RALLY"
kind_word (move_key_point id cursor) = codes "MOVE_KEY_POINT"
kind_word (set_ball_event id event) = codes "SET_BALL_EVENT"
kind_word (set_ball_event_actor id actor) = codes "SET_BALL_EVENT_ACTOR"
kind_word (delete_key_point id) = codes "DELETE_KEY_POINT"
kind_word reopen_rally = codes "REOPEN_RALLY"
kind_word (void_rally reason) = codes "VOID_RALLY"
kind_word submit_rally = codes "SUBMIT_RALLY"
