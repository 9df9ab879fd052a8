-- ===== src/Web/AnnotationQueue/Converged.antt =====
-- web/app/lib/annotationCommandQueue.ts: `annotationCommandConverged`, which tells whether a snapshot
-- shows what a queued command asks for.
pub mod Normalized
pub mod Projected
use volleyball_monitoring_ai.Base.{
  ℕ, suc, ◌≡◌, refl, sym, ap, ◌∙◌, Bool, true, false, List, [], ◌∷◌, ◌++◌, map, Option, none, some,
  any, find, keep, ◌||◌, ◌&&◌, not, inl, inr, Bool-cases, Option-cases, if◌then◌else◌, arith,
}
use mathlib.Core.Option.{some-injective}
use mathlib.Core.Bool.{true≢false}
use volleyball_monitoring_ai.Base.Text.{Text, text_eq}
use volleyball_monitoring_ai.Base.Int.{ℤ}
use volleyball_monitoring_ai.Base.Sorting.{sort_by, insert_by}
use volleyball_monitoring_ai.Contracts.BallEvent.{
  BallEventValue, BallEventKind, end, serve, receive, contact, spike, BallEventResult, success,
  failure, ServeStyle, jump, standing, NormalizedBallEventPoint, normalize_ball_event_key_points,
}
use volleyball_monitoring_ai.Contracts.AnnotationCommand.{
  AnnotationCommand, AnnotationPayload, Outcome, start_rally, end_rally, create_service_key_point,
  set_rally_outcome, create_contact_key_point, close_rally, move_key_point, set_ball_event,
  set_ball_event_actor, delete_key_point, reopen_rally, void_rally, submit_rally, ScoringCourtSide,
  left_side, right_side,
}
use volleyball_monitoring_ai.Contracts.AnnotationSnapshot.{
  AnnotationStatus, open_status, ready, submitted, voided, ScoreResolution, pending_score, resolved,
  unknown, AnnotationKeyPoint, AnnotationRallyBoundary, AnnotationRallySnapshot,
}
use volleyball_monitoring_ai.Web.AnnotationOutbox.{AnnotationOutboxEntry, Observation, pending}
use volleyball_monitoring_ai.Web.AnnotationQueue.{
  is_end_boundary, outcome_resolution, with_outcome, with_end_boundary, apply_payload, apply_to,
  project_entry, starts_rally, needs_start, is_pending, start_with, started_snapshot, is_over,
}
use volleyball_monitoring_ai.Web.AnnotationQueue.KeyPoints.{
  is_contact, rule_point, rule_boundary, normalize_projected_ball_events, normalize_key_point_order,
  rejoin, renumber, last_with_id, is_four, estimated_boundary, rejoin_point, compare_key_points,
}

unfoldable pub has_id : Text → AnnotationKeyPoint → Bool
has_id id point = text_eq point.key_point_id id

same_kind : BallEventKind → BallEventKind → Bool
same_kind serve serve = true
same_kind receive receive = true
same_kind contact contact = true
same_kind spike spike = true
same_kind _ _ = false

same_result : Option BallEventResult → Option BallEventResult → Bool
same_result none none = true
same_result (some success) (some success) = true
same_result (some failure) (some failure) = true
same_result _ _ = false

same_style : Option ServeStyle → Option ServeStyle → Bool
same_style none none = true
same_style (some jump) (some jump) = true
same_style (some standing) (some standing) = true
same_style _ _ = false

unfoldable pub same_side : Option ScoringCourtSide → Option ScoringCourtSide → Bool
same_side none none = true
same_side (some left_side) (some left_side) = true
same_side (some right_side) (some right_side) = true
same_side _ _ = false

unfoldable pub same_resolution : ScoreResolution → ScoreResolution → Bool
same_resolution pending_score pending_score = true
same_resolution resolved resolved = true
same_resolution unknown unknown = true
same_resolution _ _ = false

same_text : Option Text → Option Text → Bool
unfolding text_eq
same_text none none = true
same_text (some a) (some b) = text_eq a b
same_text _ _ = false

unfoldable pub same_event : Option BallEventValue → BallEventValue → Bool
unfolding same_kind same_result
same_event none event = false
same_event (some current) event =
    same_kind current.kind event.kind && same_result current.result event.result

unfoldable pub contact_at : Text → List AnnotationKeyPoint → Option AnnotationKeyPoint
unfolding is_contact text_eq
contact_at frame =
    find (λ point. is_contact point.marker_kind && text_eq point.capture_frame_index frame)

-- The contact of the observed frame is there, with the command's event if it has one.
unfoldable pub contact_converged :
    Option Text → Option BallEventValue → List AnnotationKeyPoint → Bool
unfolding contact_at same_event
contact_converged none event points = false
contact_converged (some []) event points = false
contact_converged (some (c ∷ s)) event points = elim (contact_at (c ∷ s) points) [
  | none ↦ false
  | some existing ↦ elim event [ none ↦ true | some e ↦ same_event existing.ball_event e ]
]

move_converged : Option Observation → Option AnnotationKeyPoint → Bool
unfolding text_eq
move_converged none point = false
move_converged (some observation) none = false
move_converged (some observation) (some point) =
    text_eq point.capture_time_us observation.capture_time_us
    && elim observation.capture_frame_index [
      | none ↦ true
      | some frame ↦ text_eq point.capture_frame_index frame
    ]

with_event : Text → BallEventValue → AnnotationKeyPoint → AnnotationKeyPoint
unfolding has_id
with_event id event point =
    if has_id id point then (record point { ball_event = some event }) else point

event_converged : Option BallEventValue → Option NormalizedBallEventPoint → Bool
unfolding same_event same_style
event_converged none normalized = false
event_converged (some current) none = false
event_converged (some current) (some normalized) =
    same_event (some current) normalized.event && elim current.kind [
      | serve ↦ same_style current.serve_style normalized.event.serve_style
      | _ ↦ true
    ]

-- `point?.ball_event_actor_roster_entry_id === actor`; of a point that is not there, or that has no
-- such field, it is undefined and not null.
actor_converged : Option AnnotationKeyPoint → Option Text → Bool
unfolding same_text
actor_converged none actor = false
actor_converged (some point) actor = elim point.ball_event_actor_roster_entry_id [
  | none ↦ false
  | some current ↦ same_text current actor
]

event_of : Option AnnotationKeyPoint → Option BallEventValue
event_of none = none
event_of (some point) = point.ball_event

unfoldable pub observed_frame_of : Option Observation → Option Text
observed_frame_of none = none
observed_frame_of (some observation) = observation.capture_frame_index

unfoldable pub has_started : AnnotationStatus → Bool
has_started voided = false
has_started _ = true

unfoldable pub is_status : AnnotationStatus → AnnotationStatus → Bool
is_status open_status open_status = true
is_status ready ready = true
is_status submitted submitted = true
is_status voided voided = true
is_status _ _ = false

module _ (locale_compare : Text → Text → ℤ) where
  -- The cases for a snapshot of the command's rally.
  unfoldable pub payload_converged :
      AnnotationPayload → AnnotationRallySnapshot → Option Observation → Bool
  unfolding has_started is_end_boundary move_converged has_id contact_converged observed_frame_of
      same_resolution outcome_resolution same_side event_converged event_of actor_converged
      is_status with_event rule_point rule_boundary normalize_ball_event_key_points text_eq
  payload_converged (start_rally cursor) s observation = has_started s.annotation_status
  payload_converged (create_service_key_point cursor) s observation =
      has_started s.annotation_status
  payload_converged (end_rally cursor) s observation = any is_end_boundary s.boundaries
  payload_converged (move_key_point id cursor) s observation =
      move_converged observation (find (has_id id) s.key_points)
  payload_converged (create_contact_key_point cursor terminal event) s observation =
      contact_converged (observed_frame_of observation) event s.key_points
  payload_converged (set_rally_outcome outcome) s observation =
      same_resolution s.score_resolution (outcome_resolution outcome)
      && same_side s.scoring_court_side outcome.scoring_court_side
  payload_converged (delete_key_point id) s observation = not (any (has_id id) s.key_points)
  payload_converged (set_ball_event id event) s observation =
      event_converged (event_of (find (has_id id) s.key_points)) (
        find (λ point. text_eq point.key_point_id id)
          (normalize_ball_event_key_points locale_compare
            (map (λ point. rule_point (with_event id event point)) s.key_points)
            (map rule_boundary s.boundaries)).points)
  payload_converged (set_ball_event_actor id actor) s observation =
      actor_converged (find (has_id id) s.key_points) actor
  payload_converged reopen_rally s observation = is_status open_status s.annotation_status
  payload_converged (void_rally reason) s observation = is_status voided s.annotation_status
  payload_converged submit_rally s observation = is_status submitted s.annotation_status
  payload_converged (close_rally target outcome) s observation = false

  unfoldable pub annotation_command_converged :
      AnnotationCommand → Option AnnotationRallySnapshot → Option Observation → Bool
  unfolding payload_converged text_eq
  annotation_command_converged command none observation = false
  annotation_command_converged command (some snapshot) observation =
      text_eq snapshot.rally_id command.rally_id
      && payload_converged command.payload snapshot observation
