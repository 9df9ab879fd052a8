-- ===== src/Server/CanonicalMatch/Walk.antt =====
-- server/src/services/canonical-match-projection.ts: the walk over the ordered segments. The set
-- that `currentSet` names is the last one of `sets`; here it stands beside the finished ones.
use volleyball_monitoring_ai.Base.{
  ℕ, suc, ◌+◌, Bool, true, false, List, [], ◌∷◌, ◌++◌, Option, none, some, if◌then◌else◌,
}
use volleyball_monitoring_ai.Base.Text.{Text}
use volleyball_monitoring_ai.Base.Maps.{map_get, map_set}
use volleyball_monitoring_ai.Server.CanonicalMatch.{
  CanonicalMatchSetInput, CanonicalMatchSegmentInput, CanonicalCourtSideBoundaryInput, CourtSide,
  left_side, right_side, CourtSides, Score, CanonicalSegmentProjection, CanonicalSetProjection,
  truthy, same_id, effective_sides, scoring_projection, score_for, points_of,
}

-- The variables of the walk.
pub record Walk : Type 0 where
  pub segment_by_id : List (Text × CanonicalSegmentProjection)
  pub finished : List CanonicalSetProjection
  pub current_set : CanonicalSetProjection
  pub set_number : ℕ
  pub ordinal : ℕ
  pub official_team_scores : List (Text × ℕ)
  pub preview_team_scores : List (Text × ℕ)
  pub active_court_sides : Option CourtSides

unfoldable pub fresh_set : ℕ → CanonicalSetProjection
fresh_set set_number = record {
  set_number = set_number;
  rally_ids = [];
  winner_set_id = none;
  winning_rally_id = none;
  winning_team_id = none;
  sides = record { left_team_id = none; right_team_id = none };
  score = record { left_score = 0; right_score = 0 };
  preview_score = record { left_score = 0; right_score = 0 };
}

unfoldable pub initial_walk : Walk
unfolding fresh_set
initial_walk = record {
  segment_by_id = [];
  finished = [];
  current_set = fresh_set 1;
  set_number = 1;
  ordinal = 0;
  official_team_scores = [];
  preview_team_scores = [];
  active_court_sides = none;
}

-- The court sides of a rally: those of its own boundary, or the active ones, or, at the first
-- rally, those of its assignment.
unfoldable pub sides_at :
    List (Text × CanonicalCourtSideBoundaryInput)
    → Option CourtSides
    → CanonicalMatchSegmentInput
    → CourtSides
unfolding map_get effective_sides
sides_at boundaries active segment = elim (map_get segment.id boundaries) [
  | some boundary ↦ record {
    left_team_id = some boundary.left_team_id;
    right_team_id = some boundary.right_team_id;
  }
  | none ↦ elim active [ some sides ↦ sides | none ↦ effective_sides segment ]
]

-- `if (scoringTeamId) teamScores.set(scoringTeamId, (teamScores.get(scoringTeamId) ?? 0) + 1)`
unfoldable pub add_point : Option Text → List (Text × ℕ) → List (Text × ℕ)
unfolding map_set points_of
add_point team team_scores = elim (truthy team) [
  | none ↦ team_scores
  | some id ↦ map_set id (points_of team_scores id + 1) team_scores
]

unfoldable pub scores_of : List (Text × ℕ) → CourtSides → Score
unfolding score_for
scores_of team_scores sides = record {
  left_score = score_for team_scores sides.left_team_id;
  right_score = score_for team_scores sides.right_team_id;
}

unfoldable pub winner_side_of : Option Text → CourtSides → Option CourtSide
unfolding same_id
winner_side_of team sides =
    if same_id team sides.left_team_id
    then some left_side
    else if same_id team sides.right_team_id
    then some right_side
    else none

set_id_of : Option CanonicalMatchSetInput → Option Text
set_id_of none = none
set_id_of (some set) = some set.id

team_id_of : Option CanonicalMatchSetInput → Option Text
team_id_of none = none
team_id_of (some set) = set.winning_team_id

unfoldable pub is_some : Option CanonicalMatchSetInput → Bool
is_some none = false
is_some (some _) = true

-- The projection of one segment, from the scores before and after it.
unfoldable pub project_segment :
    Walk
    → Walk
    → ℕ
    → CourtSides
    → Option CanonicalMatchSetInput
    → CanonicalMatchSegmentInput
    → CanonicalSegmentProjection
unfolding scores_of winner_side_of set_id_of team_id_of is_some scoring_projection
project_segment earlier later global_index sides winner segment =
    let scoring = scoring_projection segment sides in
    record {
      id = segment.id;
      set_number = later.set_number;
      ordinal = later.ordinal;
      global_ordinal = global_index + 1;
      sides = sides;
      scoring_court_side = scoring.scoring_court_side;
      scoring_team_id = scoring.scoring_team_id;
      before = scores_of earlier.preview_team_scores sides;
      after = scores_of later.preview_team_scores sides;
      official_before = scores_of earlier.official_team_scores sides;
      official_after = scores_of later.official_team_scores sides;
      winner_side = winner_side_of scoring.scoring_team_id sides;
      ends_set = is_some winner;
      winner_set_id = set_id_of winner;
      winning_team_id = team_id_of winner;
    }

-- The current set takes in the projected segment.
unfoldable pub add_to_set :
    CanonicalSegmentProjection → CanonicalSetProjection → CanonicalSetProjection
add_to_set projected set = record set {
  rally_ids = set.rally_ids ++ projected.id ∷ [];
  sides = projected.sides;
  score = projected.official_after;
  preview_score = projected.after;
}

-- `if (winner) { … }`
unfoldable pub close_set : Text → Option CanonicalMatchSetInput → Walk → Walk
unfolding fresh_set
close_set rally none walk = walk
close_set rally (some winner) walk = record walk {
  finished =
      walk.finished
      ++ record walk.current_set {
        winner_set_id = some winner.id;
        winning_rally_id = some rally;
        winning_team_id = winner.winning_team_id;
      }
        ∷ [];
  current_set = fresh_set (suc walk.set_number);
  set_number = suc walk.set_number;
  ordinal = 0;
  official_team_scores = [];
  preview_team_scores = [];
}

module _ (boundaries : List (Text × CanonicalCourtSideBoundaryInput))
    (winners : List (Text × CanonicalMatchSetInput)) where
  -- The state once the segment is counted.
  unfoldable pub count_segment : Walk → CanonicalMatchSegmentInput → Walk
  unfolding sides_at scoring_projection add_point
  count_segment walk segment =
      let sides = sides_at boundaries walk.active_court_sides segment in
      let team = (scoring_projection segment sides).scoring_team_id in
      record walk {
        ordinal = suc walk.ordinal;
        active_court_sides = some sides;
        preview_team_scores = add_point team walk.preview_team_scores;
        official_team_scores =
            if segment.submitted
            then add_point team walk.official_team_scores
            else walk.official_team_scores;
      }

  unfoldable pub projection_at : ℕ → Walk → CanonicalMatchSegmentInput → CanonicalSegmentProjection
  unfolding count_segment project_segment sides_at map_get
  projection_at global_index walk segment =
      project_segment walk (count_segment walk segment) global_index
        (sides_at boundaries walk.active_court_sides segment) (map_get segment.id winners) segment

  -- The body of the walk.
  unfoldable pub visit_segment : ℕ → Walk → CanonicalMatchSegmentInput → Walk
  unfolding count_segment projection_at add_to_set close_set map_get map_set
  visit_segment global_index walk segment =
      let projected = projection_at global_index walk segment in
      let counted = count_segment walk segment in
      close_set segment.id (map_get segment.id winners) (record counted {
        segment_by_id = map_set segment.id projected walk.segment_by_id;
        current_set = add_to_set projected walk.current_set;
      })

  unfoldable pub visit_segments : ℕ → Walk → List CanonicalMatchSegmentInput → Walk
  unfolding visit_segment
  visit_segments global_index walk [] = walk
  visit_segments global_index walk (segment ∷ segments) =
      visit_segments (suc global_index) (visit_segment global_index walk segment) segments
