-- ===== src/Web/AnnotationQueue/KeyPoints.antt =====
-- web/app/lib/annotationCommandQueue.ts: the pending key points of a queued command, the normalization
-- of their ball events and their order.
use volleyball_monitoring_ai.Base.{
  ℕ, suc, Bool, true, false, List, [], ◌∷◌, ◌++◌, map, Option, none, some, any, ◌&&◌, not,
  if◌then◌else◌,
}
use volleyball_monitoring_ai.Base.Text.{Text, codes, text_eq}
use volleyball_monitoring_ai.Base.Int.{ℤ, pos, negsuc, nat_abs, ltb_ℤ}
use volleyball_monitoring_ai.Base.Decimal.{of_decimal}
use volleyball_monitoring_ai.Base.Sorting.{sort_by}
use volleyball_monitoring_ai.Contracts.BallEvent.{
  BallEventValue, BallEventRuleAnchor, BallEventRulePoint, BallEventRuleBoundary,
  NormalizedBallEventPoint, normalize_ball_event_key_points, BoundaryKind,
}
use volleyball_monitoring_ai.Contracts.AnnotationCommand.{SchemaVersion, four}
use volleyball_monitoring_ai.Contracts.AnnotationSnapshot.{
  MarkerKind, service, contact_marker, estimated, AnnotationKeyPoint, AnnotationRallyBoundary,
  AnnotationRallySnapshot,
}
use volleyball_monitoring_ai.Web.AnnotationOutbox.{AnnotationOutboxEntry, Observation}

unfoldable pub is_contact : MarkerKind → Bool
is_contact service = false
is_contact contact_marker = true

-- `observation.capture_frame_index ?? other`
unfoldable pub frame_or : Text → Observation → Text
frame_or other observation = elim observation.capture_frame_index [ none ↦ other | some f ↦ f ]

unfoldable pub pending_point_of :
    AnnotationOutboxEntry
    → Observation
    → ℤ
    → MarkerKind
    → Bool
    → Option BallEventValue
    → AnnotationKeyPoint
unfolding frame_or
pending_point_of entry observation sequence_index marker terminal event = record {
  key_point_id = codes "pending:" ++ entry.command.command_id;
  sequence_index = sequence_index;
  marker_kind = marker;
  is_terminal = terminal;
  capture_time_us = observation.capture_time_us;
  capture_frame_index = frame_or (codes "0") observation;
  timing_precision = estimated;
  possible_duplicate = false;
  ball_event = event;
  ball_event_actor_roster_entry_id = none;
}

unfoldable pub estimated_boundary : BoundaryKind → Observation → AnnotationRallyBoundary
unfolding frame_or
estimated_boundary kind observation = record {
  kind = kind;
  capture_time_us = observation.capture_time_us;
  capture_frame_index = frame_or (codes "0") observation;
  timing_precision = estimated;
}

rule_anchor : Text → Text → BallEventRuleAnchor
rule_anchor time frame = record {
  capture_time_us = nat_abs (of_decimal time);
  capture_frame_index = nat_abs (of_decimal frame);
}

unfoldable pub rule_point : AnnotationKeyPoint → BallEventRulePoint
unfolding rule_anchor
rule_point point = record {
  anchor = rule_anchor point.capture_time_us point.capture_frame_index;
  key_point_id = point.key_point_id;
  sequence_index = point.sequence_index;
  event = point.ball_event;
}

unfoldable pub rule_boundary : AnnotationRallyBoundary → BallEventRuleBoundary
unfolding rule_anchor
rule_boundary boundary = record {
  anchor = rule_anchor boundary.capture_time_us boundary.capture_frame_index;
  kind = boundary.kind;
}

-- The key point of the identity; a map of the points holds the last one of each.
unfoldable pub last_with_id : Text → List AnnotationKeyPoint → Option AnnotationKeyPoint
unfolding text_eq
last_with_id id [] = none
last_with_id id (point ∷ points) = elim (last_with_id id points) [
  | some later ↦ some later
  | none ↦ if text_eq point.key_point_id id then some point else none
]

-- `{ ...point, sequence_index, ball_event }`
unfoldable pub rejoin_point :
    NormalizedBallEventPoint
    → Option AnnotationKeyPoint
    → List AnnotationKeyPoint
    → List AnnotationKeyPoint
rejoin_point normalized none further = further
rejoin_point normalized (some point) further =
    record point { sequence_index = normalized.sequence_index; ball_event = some normalized.event }
    ∷ further

-- The normalized points as key points. Each comes from a point of its identity, so that none is
-- left out.
unfoldable pub rejoin :
    List AnnotationKeyPoint → List NormalizedBallEventPoint → List AnnotationKeyPoint
unfolding last_with_id rejoin_point
rejoin points [] = []
rejoin points (normalized ∷ rest) =
    rejoin_point normalized (last_with_id normalized.key_point_id points) (rejoin points rest)

unfoldable pub is_four : SchemaVersion → Bool
is_four four = true
is_four _ = false

is_service : MarkerKind → Bool
is_service service = true
is_service contact_marker = false

same_contact : AnnotationKeyPoint → AnnotationKeyPoint → Bool
unfolding is_contact text_eq
same_contact point other =
    not (text_eq other.key_point_id point.key_point_id)
    && is_contact other.marker_kind
    && text_eq other.capture_frame_index point.capture_frame_index

-- `ordered.map((point, sequenceIndex) => …)`
unfoldable pub renumber :
    ℕ → List AnnotationKeyPoint → List AnnotationKeyPoint → List AnnotationKeyPoint
unfolding same_contact is_contact
renumber i ordered [] = []
renumber i ordered (point ∷ points) =
    record point {
      sequence_index = pos i;
      possible_duplicate = is_contact point.marker_kind && any (same_contact point) ordered;
    }
    ∷ renumber (suc i) ordered points

module _ (locale_compare : Text → Text → ℤ) where
  unfoldable pub normalize_projected_ball_events : AnnotationRallySnapshot → AnnotationRallySnapshot
  unfolding is_four rejoin rule_point rule_boundary normalize_ball_event_key_points
  normalize_projected_ball_events snapshot =
      let normalization =
        normalize_ball_event_key_points locale_compare (map rule_point snapshot.key_points)
          (map rule_boundary snapshot.boundaries) in
      if is_four snapshot.schema_version
      then (record snapshot { key_points = rejoin snapshot.key_points normalization.points })
      else snapshot

  compare_times : AnnotationKeyPoint → AnnotationKeyPoint → ℤ
  unfolding of_decimal
  compare_times left right =
      let left_time = of_decimal left.capture_time_us in
      let right_time = of_decimal right.capture_time_us in
      let left_frame = of_decimal left.capture_frame_index in
      let right_frame = of_decimal right.capture_frame_index in
      if ltb_ℤ left_time right_time
      then negsuc 0
      else if ltb_ℤ right_time left_time
      then pos 1
      else if ltb_ℤ left_frame right_frame
      then negsuc 0
      else if ltb_ℤ right_frame left_frame
      then pos 1
      else locale_compare left.key_point_id right.key_point_id

  unfoldable pub compare_key_points : AnnotationKeyPoint → AnnotationKeyPoint → ℤ
  unfolding compare_times is_service
  compare_key_points left right =
      if is_service left.marker_kind
      then (if is_service right.marker_kind then pos 0 else negsuc 0)
      else if is_service right.marker_kind
      then pos 1
      else compare_times left right

  unfoldable pub normalize_key_point_order : List AnnotationKeyPoint → List AnnotationKeyPoint
  unfolding renumber compare_key_points sort_by
  normalize_key_point_order points =
      let ordered = sort_by compare_key_points points in renumber 0 ordered ordered
