-- ===== src/Web/AnnotationQueue.antt =====
-- web/app/lib/annotationCommandQueue.ts: the snapshot that the annotator sees while commands are
-- queued. The decimal texts are well formed, as the schema of the commands demands.
pub mod KeyPoints
pub mod Converged
pub mod Rebase
pub mod Ack
mod Examples
use volleyball_monitoring_ai.Base.{
  ℕ, zero, suc, Bool, true, false, List, [], ◌∷◌, ◌++◌, map, Option, none, some, any, find, keep,
  ◌||◌, ◌&&◌, not, length, if◌then◌else◌,
}
use volleyball_monitoring_ai.Base.Text.{Text, codes, text_eq}
use volleyball_monitoring_ai.Base.Int.{ℤ, pos, negsuc, nat_abs, ltb_ℤ}
use volleyball_monitoring_ai.Base.Decimal.{of_decimal}
use volleyball_monitoring_ai.Base.Sorting.{sort_by}
use volleyball_monitoring_ai.Contracts.BallEvent.{
  BallEventValue, BallEventRuleAnchor, BallEventRulePoint, BallEventRuleBoundary,
  NormalizedBallEventPoint, normalize_ball_event_key_points, BoundaryKind, start, end,
}
use volleyball_monitoring_ai.Contracts.AnnotationCommand.{
  AnnotationCommand, AnnotationPayload, SchemaVersion, two, three, four, Outcome, start_rally,
  end_rally, create_service_key_point, set_rally_outcome, create_contact_key_point, close_rally,
  move_key_point, set_ball_event, set_ball_event_actor, delete_key_point, reopen_rally, void_rally,
  submit_rally,
}
use volleyball_monitoring_ai.Contracts.AnnotationSnapshot.{
  AnnotationStatus, open_status, ready, submitted, voided, ScoreResolution, pending_score, resolved,
  unknown, MarkerKind, service, contact_marker, TimingPrecision, estimated, AnnotationKeyPoint,
  AnnotationRallyBoundary, AnnotationRallySnapshot,
}
use volleyball_monitoring_ai.Web.AnnotationOutbox.{
  AnnotationOutboxEntry, Observation, pending, needs_confirmation, AnnotationOutboxStatus,
}
use volleyball_monitoring_ai.Web.AnnotationQueue.KeyPoints.{
  estimated_boundary, frame_or, is_contact, normalize_key_point_order,
  normalize_projected_ball_events, pending_point_of,
}

-- The update of the key points with an identity. `find` meets one of them at most, since identities
-- are different.
unfoldable pub update_point :
    Text
    → (AnnotationKeyPoint → AnnotationKeyPoint)
    → List AnnotationKeyPoint
    → List AnnotationKeyPoint
unfolding text_eq
update_point id change [] = []
update_point id change (point ∷ points) =
    let further = update_point id change points in
    if text_eq point.key_point_id id then change point ∷ points else point ∷ further

-- `key_points.at(-1)`, with its mark as a terminal point set.
unfoldable pub set_last_terminal : Bool → List AnnotationKeyPoint → List AnnotationKeyPoint
set_last_terminal terminal [] = []
set_last_terminal terminal (point ∷ []) = record point { is_terminal = terminal } ∷ []
set_last_terminal terminal (point ∷ next ∷ points) =
    point ∷ set_last_terminal terminal (next ∷ points)

unfoldable pub is_end_boundary : AnnotationRallyBoundary → Bool
is_end_boundary boundary = elim boundary.kind [ start ↦ false | end ↦ true ]

unfoldable pub outcome_resolution : Outcome → ScoreResolution
outcome_resolution outcome = elim outcome.scoring_court_side [
  | none ↦ unknown
  | some side ↦ resolved
]

unfoldable pub with_outcome : Outcome → AnnotationRallySnapshot → AnnotationRallySnapshot
unfolding outcome_resolution
with_outcome outcome snapshot = record snapshot {
  score_resolution = outcome_resolution outcome;
  scoring_court_side = outcome.scoring_court_side;
}

unfoldable pub with_end_boundary : Observation → AnnotationRallySnapshot → AnnotationRallySnapshot
unfolding is_end_boundary estimated_boundary
with_end_boundary observation snapshot = record snapshot {
  boundaries =
      keep (λ boundary. not (is_end_boundary boundary)) snapshot.boundaries
      ++ estimated_boundary end observation ∷ [];
  annotation_status = ready;
}

-- A pending contact enters the snapshot unless a contact of its frame is there.
add_contact : Bool → AnnotationKeyPoint → AnnotationRallySnapshot → AnnotationRallySnapshot
unfolding is_contact text_eq
add_contact terminal point snapshot =
    let added = record snapshot { key_points = snapshot.key_points ++ point ∷ [] } in
    if any
      (λ candidate.
        is_contact candidate.marker_kind
        && text_eq candidate.capture_frame_index point.capture_frame_index)
      snapshot.key_points
    then snapshot
    else if terminal
    then (record added {
      annotation_status = ready;
      score_resolution = unknown;
      scoring_court_side = none;
    })
    else added

moved_to : Observation → AnnotationKeyPoint → AnnotationKeyPoint
unfolding frame_or
moved_to observation point = record point {
  capture_time_us = observation.capture_time_us;
  capture_frame_index = frame_or point.capture_frame_index observation;
  timing_precision = estimated;
}

-- The snapshot of a rally that a queued command starts.
unfoldable pub started_snapshot :
    Text
    → AnnotationCommand
    → List AnnotationRallyBoundary
    → List AnnotationKeyPoint
    → AnnotationRallySnapshot
started_snapshot room_id command boundaries key_points = record {
  schema_version = command.schema_version;
  room_id = room_id;
  rally_id = command.rally_id;
  revision = codes "0";
  server_sequence = codes "0";
  annotation_status = open_status;
  side_assignment_id = codes "pending";
  score_resolution = pending_score;
  scoring_court_side = none;
  processing_status = codes "idle";
  active_submission_id = none;
  boundaries = boundaries;
  key_points = key_points;
}

unfoldable pub is_over : AnnotationStatus → Bool
is_over submitted = true
is_over voided = true
is_over _ = false

-- Whether the projected rally is another one than the command's, or is over.
unfoldable pub needs_start : AnnotationCommand → Option AnnotationRallySnapshot → Bool
unfolding is_over text_eq
needs_start command none = true
needs_start command (some projected) =
    not (text_eq projected.rally_id command.rally_id) || is_over projected.annotation_status

unfoldable pub is_pending : AnnotationOutboxStatus → Bool
is_pending pending = true
is_pending needs_confirmation = false

-- `!entry.observation || !roomId`, where a room is there and its identity is not empty.
unfoldable pub start_with :
    Option Text
    → AnnotationOutboxEntry
    → Option Observation
    → Option AnnotationRallySnapshot
    → Option AnnotationRallySnapshot
unfolding started_snapshot estimated_boundary pending_point_of
start_with (some (c ∷ s)) entry (some observation) projected = elim entry.command.payload [
  | start_rally cursor ↦
      some (started_snapshot (c ∷ s) entry.command (estimated_boundary start observation ∷ []) [])
  | create_service_key_point cursor ↦ some (
      started_snapshot (c ∷ s) entry.command []
        (pending_point_of entry observation (pos 0) service false none ∷ []))
  | _ ↦ projected
]
start_with room_id entry observation projected = projected

unfoldable pub starts_rally : AnnotationPayload → Bool
starts_rally (start_rally cursor) = true
starts_rally (create_service_key_point cursor) = true
starts_rally _ = false

module _ (locale_compare : Text → Text → ℤ) where
  -- The chain of cases for a command on its own rally.
  unfoldable pub apply_payload :
      AnnotationOutboxEntry
      → Option Observation
      → AnnotationPayload
      → AnnotationRallySnapshot
      → AnnotationRallySnapshot
  unfolding with_end_boundary add_contact pending_point_of update_point normalize_key_point_order
      moved_to with_outcome set_last_terminal text_eq
  apply_payload entry (some observation) (end_rally cursor) snapshot =
      with_end_boundary observation snapshot
  apply_payload entry (some observation) (create_contact_key_point cursor terminal event) snapshot =
      add_contact terminal
        (pending_point_of entry observation (pos (length snapshot.key_points)) contact_marker
          terminal event)
        snapshot
  apply_payload entry observation (set_ball_event id event) snapshot = record snapshot {
    key_points =
        update_point id (λ point. record point { ball_event = some event }) snapshot.key_points;
  }
  apply_payload entry observation (set_ball_event_actor id actor) snapshot = record snapshot {
    key_points =
        update_point id (λ point. record point { ball_event_actor_roster_entry_id = some actor })
          snapshot.key_points;
  }
  apply_payload entry (some observation) (move_key_point id cursor) snapshot = record snapshot {
    key_points = normalize_key_point_order locale_compare (
        map (λ point. if text_eq point.key_point_id id then moved_to observation point else point)
          snapshot.key_points);
  }
  apply_payload entry observation (delete_key_point id) snapshot = record snapshot {
    key_points =
        normalize_key_point_order locale_compare
          (keep (λ point. not (text_eq point.key_point_id id)) snapshot.key_points);
  }
  apply_payload entry observation (set_rally_outcome outcome) snapshot =
      with_outcome outcome snapshot
  apply_payload entry observation (close_rally target outcome) snapshot =
      with_outcome outcome (record snapshot {
        key_points = set_last_terminal true snapshot.key_points;
        annotation_status = ready;
      })
  apply_payload entry observation reopen_rally snapshot = record snapshot {
    annotation_status = open_status;
    key_points = set_last_terminal false snapshot.key_points;
  }
  apply_payload entry observation (void_rally reason) snapshot = record snapshot {
    annotation_status = voided;
  }
  apply_payload entry observation submit_rally snapshot = record snapshot {
    annotation_status = submitted;
  }
  apply_payload entry observation payload snapshot = snapshot

  -- The rest of the body for a command that starts no rally.
  unfoldable pub apply_to :
      AnnotationOutboxEntry → Option AnnotationRallySnapshot → Option AnnotationRallySnapshot
  unfolding apply_payload normalize_projected_ball_events text_eq
  apply_to entry none = none
  apply_to entry (some projected) =
      if text_eq projected.rally_id entry.command.rally_id
      then some (
          normalize_projected_ball_events locale_compare
            (apply_payload entry entry.observation entry.command.payload projected))
      else some projected

  module _ (room_id : Option Text) where
    -- The body of the loop over the entries.
    unfoldable pub project_entry :
        Option AnnotationRallySnapshot → AnnotationOutboxEntry → Option AnnotationRallySnapshot
    unfolding apply_to starts_rally needs_start is_pending start_with
    project_entry projected entry =
        if not (is_pending entry.status)
        then projected
        else if starts_rally entry.command.payload && needs_start entry.command projected
        then start_with room_id entry entry.observation projected
        else apply_to entry projected

    unfoldable pub project_annotation_snapshot :
        Option AnnotationRallySnapshot → List AnnotationOutboxEntry → Option AnnotationRallySnapshot
    unfolding project_entry
    project_annotation_snapshot confirmed [] = confirmed
    project_annotation_snapshot confirmed (entry ∷ entries) =
        project_annotation_snapshot (project_entry confirmed entry) entries
