-- ===== src/Contracts/AnnotationSnapshot.antt =====
-- packages/contracts/src/annotation.ts: the snapshot of a rally. Absent boundaries are the empty
-- list, and an absent or null field is `none`; only the actor of a ball event, which is compared with
-- null, is `none` where it is absent and `some none` where it is null.
use volleyball_monitoring_ai.Base.{Bool, List, Option}
use volleyball_monitoring_ai.Base.Text.{Text}
use volleyball_monitoring_ai.Base.Int.{ℤ}
use volleyball_monitoring_ai.Contracts.BallEvent.{BallEventValue, BoundaryKind}
use volleyball_monitoring_ai.Contracts.AnnotationCommand.{SchemaVersion, ScoringCourtSide}

pub data AnnotationStatus : Type 0 where
  open_status ready submitted voided : AnnotationStatus

pub data ScoreResolution : Type 0 where
  pending_score resolved unknown : ScoreResolution

pub data MarkerKind : Type 0 where
  service contact_marker : MarkerKind

pub data TimingPrecision : Type 0 where
  frame_exact pts_exact estimated : TimingPrecision

pub record AnnotationKeyPoint : Type 0 where
  pub key_point_id : Text
  pub sequence_index : ℤ
  pub marker_kind : MarkerKind
  pub is_terminal : Bool
  pub capture_time_us : Text
  pub capture_frame_index : Text
  pub timing_precision : TimingPrecision
  pub possible_duplicate : Bool
  pub ball_event : Option BallEventValue
  pub ball_event_actor_roster_entry_id : Option (Option Text)

pub record AnnotationRallyBoundary : Type 0 where
  pub kind : BoundaryKind
  pub capture_time_us : Text
  pub capture_frame_index : Text
  pub timing_precision : TimingPrecision

pub record AnnotationRallySnapshot : Type 0 where
  pub schema_version : SchemaVersion
  pub room_id : Text
  pub rally_id : Text
  pub revision : Text
  pub server_sequence : Text
  pub annotation_status : AnnotationStatus
  pub side_assignment_id : Text
  pub score_resolution : ScoreResolution
  pub scoring_court_side : Option ScoringCourtSide
  pub processing_status : Text
  pub active_submission_id : Option Text
  pub boundaries : List AnnotationRallyBoundary
  pub key_points : List AnnotationKeyPoint
