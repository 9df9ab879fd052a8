-- ===== src/Web/AnnotationQueue/Ack.antt =====
-- web/app/lib/annotationCommandQueue.ts: `applyAnnotationAckLocally`, which applies an acknowledged
-- command to the confirmed snapshot. The revisions are well formed decimal texts.
pub mod Kept
pub mod Newest
pub mod Shown
use volleyball_monitoring_ai.Base.{
  Bool, true, false, List, [], ◌∷◌, ◌++◌, map, Option, none, some, any, keep, ◌||◌, ◌&&◌, not,
  length, if◌then◌else◌,
}
use volleyball_monitoring_ai.Base.Text.{Text, codes, text_eq}
use volleyball_monitoring_ai.Base.Int.{ℤ, pos, ◌-ℤ◌, eqb_ℤ, leb_ℤ}
use volleyball_monitoring_ai.Base.Decimal.{of_decimal}
use volleyball_monitoring_ai.Base.Sorting.{sort_by}
use volleyball_monitoring_ai.Contracts.BallEvent.{
  BallEventValue, BallEventRepair, tombstone, update, PlacedEvent, BoundaryKind, start, end,
}
use volleyball_monitoring_ai.Contracts.AnnotationCommand.{
  AnnotationCommand, AnnotationPayload, SchemaVersion, two, three, four, start_rally, end_rally,
  create_service_key_point, create_contact_key_point, close_rally, move_key_point, set_ball_event,
  set_ball_event_actor, delete_key_point,
}
use volleyball_monitoring_ai.Contracts.AnnotationSnapshot.{
  open_status, pending_score, service, contact_marker, MarkerKind, AnnotationKeyPoint,
  AnnotationRallyBoundary, AnnotationRallySnapshot,
}
use volleyball_monitoring_ai.Contracts.AnnotationAck.{
  AnnotationCommandAck, AnnotationAckEffects, AnnotationResolvedAnchor,
}
use volleyball_monitoring_ai.Web.AnnotationQueue.{is_end_boundary, set_last_terminal, update_point}
use volleyball_monitoring_ai.Web.AnnotationQueue.KeyPoints.{
  is_four, normalize_key_point_order, normalize_projected_ball_events,
}

unfoldable pub anchored_boundary : BoundaryKind → AnnotationResolvedAnchor → AnnotationRallyBoundary
anchored_boundary kind anchor = record {
  kind = kind;
  capture_time_us = anchor.capture_time_us;
  capture_frame_index = anchor.capture_frame_index;
  timing_precision = anchor.timing_precision;
}

anchored_point :
    Text
    → ℤ
    → MarkerKind
    → Bool
    → Bool
    → Option BallEventValue
    → AnnotationResolvedAnchor
    → AnnotationKeyPoint
anchored_point id sequence_index marker terminal duplicate event anchor = record {
  key_point_id = id;
  sequence_index = sequence_index;
  marker_kind = marker;
  is_terminal = terminal;
  capture_time_us = anchor.capture_time_us;
  capture_frame_index = anchor.capture_frame_index;
  timing_precision = anchor.timing_precision;
  possible_duplicate = duplicate;
  ball_event = event;
  ball_event_actor_roster_entry_id = none;
}

-- The snapshot of a rally that the acknowledged command starts.
confirmed_start :
    AnnotationCommand
    → AnnotationCommandAck
    → SchemaVersion
    → List AnnotationRallyBoundary
    → List AnnotationKeyPoint
    → AnnotationRallySnapshot
confirmed_start command ack version boundaries key_points = record {
  schema_version = version;
  room_id = command.room_id;
  rally_id = ack.rally_id;
  revision = ack.result_revision;
  server_sequence = ack.server_sequence;
  annotation_status = open_status;
  side_assignment_id = codes "pending";
  score_resolution = pending_score;
  scoring_court_side = none;
  processing_status = codes "idle";
  active_submission_id = none;
  boundaries = boundaries;
  key_points = key_points;
}

-- The identity of a created key point, if it is neither missing nor empty.
unfoldable pub created_id : AnnotationAckEffects → Option Text
created_id effects = elim effects.created_key_point_id [
  | none ↦ none
  | some id ↦ elim id [ [] ↦ none | c ∷ s ↦ some (c ∷ s) ]
]

-- The two cases for a command that starts a rally.
unfoldable pub start_of :
    AnnotationCommand
    → AnnotationCommandAck
    → AnnotationPayload
    → Option AnnotationResolvedAnchor
    → Option BoundaryKind
    → Option Text
    → Option AnnotationRallySnapshot
unfolding confirmed_start anchored_boundary anchored_point
start_of command ack (start_rally cursor) (some anchor) (some start) created =
    some
      (confirmed_start command ack command.schema_version (anchored_boundary start anchor ∷ []) [])
start_of command ack (create_service_key_point cursor) (some anchor) kind (some id) = some (
    confirmed_start command ack two []
      (anchored_point id (pos 0) service false false none anchor ∷ []))
start_of command ack payload anchor kind created = none

-- `if (field) next.field = field`
unfoldable pub given : {A : Type 0} → A → Option A → A
given old none = old
given old (some new) = new

-- The fields that every acknowledgement sets.
unfoldable pub with_effects :
    AnnotationCommand → AnnotationCommandAck → AnnotationRallySnapshot → AnnotationRallySnapshot
unfolding is_four given
with_effects command ack s = record s {
  schema_version = if is_four command.schema_version then four else s.schema_version;
  revision = ack.result_revision;
  server_sequence = ack.server_sequence;
  annotation_status = given s.annotation_status ack.effects.annotation_status;
  score_resolution = given s.score_resolution ack.effects.score_resolution;
  scoring_court_side = given s.scoring_court_side ack.effects.scoring_court_side;
}

unfoldable pub with_confirmed_end :
    AnnotationCommand → AnnotationResolvedAnchor → AnnotationRallySnapshot → AnnotationRallySnapshot
unfolding is_four is_end_boundary anchored_boundary
with_confirmed_end command anchor s = record s {
  schema_version = if is_four command.schema_version then four else three;
  boundaries =
      keep (λ boundary. not (is_end_boundary boundary)) s.boundaries
      ++ anchored_boundary end anchor ∷ [];
}

same_terminal : Option Text → Text → Bool
unfolding text_eq
same_terminal none id = false
same_terminal (some terminal) id = text_eq terminal id

-- The ball event of a point that is there, or a new contact.
unfoldable pub add_confirmed_contact :
    AnnotationAckEffects
    → Bool
    → Option BallEventValue
    → AnnotationResolvedAnchor
    → Text
    → AnnotationRallySnapshot
    → AnnotationRallySnapshot
unfolding update_point anchored_point same_terminal text_eq
add_confirmed_contact effects terminal event anchor id s =
    if any (λ point. text_eq point.key_point_id id) s.key_points
    then (record s {
      key_points = elim event [
        | none ↦ s.key_points
        | some e ↦ update_point id (λ point. record point { ball_event = some e }) s.key_points
      ];
    })
    else (record s {
      key_points =
          s.key_points
          ++ anchored_point id (pos (length s.key_points)) contact_marker
              (terminal || same_terminal effects.terminal_key_point_id id)
              (any (λ point. text_eq point.capture_frame_index anchor.capture_frame_index)
                s.key_points)
              event anchor
            ∷ [];
    })

anchored_at : AnnotationResolvedAnchor → AnnotationKeyPoint → AnnotationKeyPoint
anchored_at anchor point = record point {
  capture_time_us = anchor.capture_time_us;
  capture_frame_index = anchor.capture_frame_index;
  timing_precision = anchor.timing_precision;
}

-- A corrected key point; its event stays if the correction has none.
unfoldable pub corrected : PlacedEvent → AnnotationKeyPoint → AnnotationKeyPoint
corrected after point = record point {
  sequence_index = after.sequence_index;
  ball_event = elim after.event [ none ↦ point.ball_event | some event ↦ some event ];
}

unfoldable pub apply_correction :
    BallEventRepair → List AnnotationKeyPoint → List AnnotationKeyPoint
unfolding update_point corrected text_eq
apply_correction repair points = elim repair.action [
  | tombstone ↦ keep (λ point. not (text_eq point.key_point_id repair.key_point_id)) points
  | update ↦ elim repair.after [
    | none ↦ points
    | some after ↦ update_point repair.key_point_id (corrected after) points
  ]
]

unfoldable pub apply_corrections :
    List BallEventRepair → List AnnotationKeyPoint → List AnnotationKeyPoint
unfolding apply_correction
apply_corrections [] points = points
apply_corrections (repair ∷ repairs) points =
    apply_corrections repairs (apply_correction repair points)

-- `confirmed.rally_id !== ack.rally_id || BigInt(confirmed.revision) >= BigInt(ack.result_revision)`
unfoldable pub is_stale : AnnotationCommandAck → AnnotationRallySnapshot → Bool
unfolding text_eq of_decimal
is_stale ack confirmed =
    not (text_eq confirmed.rally_id ack.rally_id)
    || leb_ℤ (of_decimal ack.result_revision) (of_decimal confirmed.revision)

module _ (locale_compare : Text → Text → ℤ) where
  -- The chain of cases for the command.
  unfoldable pub apply_confirmed :
      AnnotationCommand
      → AnnotationAckEffects
      → AnnotationPayload
      → Option AnnotationResolvedAnchor
      → Option BoundaryKind
      → Option Text
      → AnnotationRallySnapshot
      → AnnotationRallySnapshot
  unfolding with_confirmed_end add_confirmed_contact set_last_terminal normalize_key_point_order
      anchored_at update_point text_eq
  apply_confirmed command effects (end_rally cursor) (some anchor) (some end) created s =
      with_confirmed_end command anchor s
  apply_confirmed command effects (create_contact_key_point cursor terminal event) (some anchor)
        kind (some id) s =
      add_confirmed_contact effects terminal event anchor id s
  apply_confirmed command effects (close_rally target outcome) anchor kind created s = record s {
    key_points = set_last_terminal true s.key_points;
  }
  apply_confirmed command effects (move_key_point id cursor) (some anchor) kind created s =
      record s {
        key_points = normalize_key_point_order locale_compare (
            map (λ point. if text_eq point.key_point_id id then anchored_at anchor point else point)
              s.key_points);
      }
  apply_confirmed command effects (delete_key_point id) anchor kind created s = record s {
    key_points =
        normalize_key_point_order locale_compare
          (keep (λ point. not (text_eq point.key_point_id id)) s.key_points);
  }
  apply_confirmed command effects (set_ball_event id event) anchor kind created s = record s {
    key_points = update_point id (λ point. record point { ball_event = some event }) s.key_points;
  }
  apply_confirmed command effects (set_ball_event_actor id actor) anchor kind created s = record s {
    key_points =
        update_point id (λ point. record point { ball_event_actor_roster_entry_id = some actor })
          s.key_points;
  }
  apply_confirmed command effects payload anchor kind created s = s

  -- The order of the corrected points.
  unfoldable pub compare_sequence : AnnotationKeyPoint → AnnotationKeyPoint → ℤ
  compare_sequence left right =
      let difference = left.sequence_index -ℤ right.sequence_index in
      if eqb_ℤ difference (pos 0)
      then locale_compare left.key_point_id right.key_point_id
      else difference

  unfoldable pub corrected_snapshot :
      AnnotationAckEffects → AnnotationRallySnapshot → AnnotationRallySnapshot
  unfolding apply_corrections compare_sequence sort_by
  corrected_snapshot effects s = record s {
    key_points = sort_by compare_sequence (apply_corrections effects.auto_corrections s.key_points);
  }

  unfoldable pub confirmed_next :
      AnnotationCommand → AnnotationCommandAck → AnnotationRallySnapshot → AnnotationRallySnapshot
  unfolding with_effects apply_confirmed created_id corrected_snapshot
      normalize_projected_ball_events
  confirmed_next command ack s = normalize_projected_ball_events locale_compare (
      corrected_snapshot ack.effects (
        apply_confirmed command ack.effects command.payload ack.resolved_anchor
          ack.effects.boundary_kind (created_id ack.effects) (with_effects command ack s)))

  unfoldable pub apply_to_confirmed :
      AnnotationCommand
      → AnnotationCommandAck
      → Option AnnotationRallySnapshot
      → Option AnnotationRallySnapshot
  unfolding is_stale confirmed_next
  apply_to_confirmed command ack none = none
  apply_to_confirmed command ack (some confirmed) =
      if is_stale ack confirmed then some confirmed else some (confirmed_next command ack confirmed)

  unfoldable pub apply_annotation_ack_locally :
      Option AnnotationRallySnapshot
      → AnnotationCommand
      → AnnotationCommandAck
      → Option AnnotationRallySnapshot
  unfolding start_of created_id apply_to_confirmed
  apply_annotation_ack_locally confirmed command ack =
      elim (start_of command ack command.payload ack.resolved_anchor ack.effects.boundary_kind
        (created_id ack.effects)) [
          | some started ↦ some started
          | none ↦ apply_to_confirmed command ack confirmed
        ]
