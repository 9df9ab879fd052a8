-- ===== src/Contracts/AnnotationAck.antt =====
-- packages/contracts/src/annotation.ts: the acknowledgement of a command, with the fields that the web
-- client reads. An absent list of corrections is the empty list, an absent or null field is `none`;
-- only the scoring side, which is compared with undefined, is `none` where it is absent and
-- `some none` where it is null.
use volleyball_monitoring_ai.Base.{List, Option}
use volleyball_monitoring_ai.Base.Text.{Text}
use volleyball_monitoring_ai.Contracts.BallEvent.{BallEventRepair, BoundaryKind}
use volleyball_monitoring_ai.Contracts.AnnotationCommand.{ScoringCourtSide}
use volleyball_monitoring_ai.Contracts.AnnotationSnapshot.{
  AnnotationStatus, ScoreResolution, TimingPrecision,
}

pub record AnnotationResolvedAnchor : Type 0 where
  pub capture_time_us : Text
  pub capture_frame_index : Text
  pub timing_precision : TimingPrecision

pub record AnnotationAckEffects : Type 0 where
  pub boundary_kind : Option BoundaryKind
  pub created_key_point_id : Option Text
  pub terminal_key_point_id : Option Text
  pub annotation_status : Option AnnotationStatus
  pub score_resolution : Option ScoreResolution
  pub scoring_court_side : Option (Option ScoringCourtSide)
  pub auto_corrections : List BallEventRepair

pub record AnnotationCommandAck : Type 0 where
  pub rally_id : Text
  pub result_revision : Text
  pub server_sequence : Text
  pub effects : AnnotationAckEffects
  pub resolved_anchor : Option AnnotationResolvedAnchor
