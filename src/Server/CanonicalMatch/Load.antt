-- ===== src/Server/CanonicalMatch/Load.antt =====
-- server/src/services/canonical-match-projection.ts: `loadCanonicalMatchProjection`, from the rows
-- that the queries return.
use volleyball_monitoring_ai.Base.{
  if◌then◌else◌, Bool, true, false, List, [], ◌∷◌, Option, none, some, find,
}
use volleyball_monitoring_ai.Base.Text.{Text, codes, text_eq}
use volleyball_monitoring_ai.Base.Int.{ℤ, ltb_ℤ}
use volleyball_monitoring_ai.Base.Words.{normalized}
use volleyball_monitoring_ai.Server.RallyDisplayOrder.{BoundaryRow, KeyPointRow}
use volleyball_monitoring_ai.Server.CanonicalMatch.{
  CanonicalMatchSetInput, CanonicalMatchSegmentInput, CanonicalCourtSideBoundaryInput,
}
use volleyball_monitoring_ai.Server.CanonicalMatch.Project.{
  CanonicalMatchProjection, project_canonical_match,
}

pub record SideAssignmentRow : Type 0 where
  pub left_team_id : Text
  pub right_team_id : Text

pub record SubmissionRow : Type 0 where
  pub score_resolution_state : Option Text
  pub scoring_court_side : Option Text
  pub scoring_team_id : Option Text
  pub left_team_id : Option Text
  pub right_team_id : Option Text
  pub boundaries : List BoundaryRow
  pub key_points : List KeyPointRow

pub record RallyRow : Type 0 where
  pub id : Text
  pub ordinal : ℤ
  pub created_at : ℤ
  pub score_resolution_state : Option Text
  pub scoring_court_side : Option Text
  pub scoring_team_id : Option Text
  pub side_assignment_reversed : Bool
  pub side_assignment : Option SideAssignmentRow
  pub set_number : ℤ
  pub active_submission : Option SubmissionRow

-- The callback of `reduce`.
unfoldable pub earlier_of : Option ℤ → KeyPointRow → Option ℤ
earlier_of none point = some point.capture_time_us
earlier_of (some earliest) point =
    some (if ltb_ℤ point.capture_time_us earliest then point.capture_time_us else earliest)

unfoldable pub reduce_key_points : Option ℤ → List KeyPointRow → Option ℤ
unfolding earlier_of
reduce_key_points earliest [] = earliest
reduce_key_points earliest (point ∷ points) = reduce_key_points (earlier_of earliest point) points

-- `startBoundary?.captureTimeUs ?? legacyStart?.captureTimeUs ?? …`
unfoldable pub start_time : Option BoundaryRow → Option KeyPointRow → Option ℤ → Option ℤ
start_time (some start_boundary) legacy_start earliest = some start_boundary.capture_time_us
start_time none (some legacy_start) earliest = some legacy_start.capture_time_us
start_time none none earliest = earliest

unfoldable pub start_capture_time_us : SubmissionRow → Option ℤ
unfolding normalized text_eq start_time reduce_key_points
start_capture_time_us submission =
    start_time
      (find (λ boundary. text_eq (normalized (some boundary.kind)) (codes "START"))
        submission.boundaries)
      (find (λ point. text_eq (normalized (some point.marker_kind)) (codes "SERVICE"))
        submission.key_points)
      (reduce_key_points none submission.key_points)

-- `value ?? other`
abbrev or_else : Option Text → Option Text → Option Text
or_else none other = other
or_else (some value) other = some value

left_team_of : Option SideAssignmentRow → SubmissionRow → Option Text
left_team_of none submission = submission.left_team_id
left_team_of (some assignment) submission = some assignment.left_team_id

right_team_of : Option SideAssignmentRow → SubmissionRow → Option Text
right_team_of none submission = submission.right_team_id
right_team_of (some assignment) submission = some assignment.right_team_id

reversed_of : Option SideAssignmentRow → Bool → Bool
reversed_of none reversed = false
reversed_of (some assignment) reversed = reversed

unfoldable pub segment_of : RallyRow → SubmissionRow → CanonicalMatchSegmentInput
unfolding start_capture_time_us left_team_of right_team_of reversed_of
segment_of rally submission = record {
  id = rally.id;
  raw_set_number = rally.set_number;
  raw_ordinal = rally.ordinal;
  start_capture_time_us = start_capture_time_us submission;
  created_at = some rally.created_at;
  submitted = true;
  score_resolution_state = or_else rally.score_resolution_state submission.score_resolution_state;
  scoring_court_side = or_else rally.scoring_court_side submission.scoring_court_side;
  scoring_team_id = or_else rally.scoring_team_id submission.scoring_team_id;
  base_left_team_id = left_team_of rally.side_assignment submission;
  base_right_team_id = right_team_of rally.side_assignment submission;
  side_assignment_reversed = reversed_of rally.side_assignment rally.side_assignment_reversed;
}

unfoldable pub segments_of : List RallyRow → List CanonicalMatchSegmentInput
unfolding segment_of
segments_of [] = []
segments_of (rally ∷ rallies) =
    let rest = segments_of rallies in
    elim rally.active_submission [
      | none ↦ rest
      | some submission ↦ segment_of rally submission ∷ rest
    ]

unfoldable pub load_canonical_match_projection :
    (Text → Text → ℤ)
    → List CanonicalMatchSetInput
    → List RallyRow
    → List CanonicalCourtSideBoundaryInput
    → CanonicalMatchProjection
unfolding segments_of project_canonical_match
load_canonical_match_projection locale_compare sets rallies boundaries =
    project_canonical_match locale_compare sets (segments_of rallies) boundaries
