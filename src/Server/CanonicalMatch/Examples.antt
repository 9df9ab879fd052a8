-- ===== src/Server/CanonicalMatch/Examples.antt =====
-- The theorems about server/src/services/canonical-match-projection.ts at a match of two sets, and
-- tests of the projection.
use volleyball_monitoring_ai.Base.{
  ℕ, ◌+◌, ◌≡◌, refl, Bool, true, false, List, [], ◌∷◌, map, Option, none, some, length,
}
use volleyball_monitoring_ai.Base.Text.{Text, codes}
use volleyball_monitoring_ai.Base.Int.{ℤ, pos, pos_part, neg_part, ◌-ℤ◌}
use volleyball_monitoring_ai.Base.Maps.{map_values}
use volleyball_monitoring_ai.Base.Words.{trim}
use volleyball_monitoring_ai.Server.RallyDisplayOrder.{segment_start_capture_time_us}
use volleyball_monitoring_ai.Server.CanonicalMatch.{
  CanonicalMatchSetInput, CanonicalMatchSegmentInput, CanonicalCourtSideBoundaryInput, Score,
  left_side,
}
use volleyball_monitoring_ai.Server.CanonicalMatch.Winners.{ordered_segments}
use volleyball_monitoring_ai.Server.CanonicalMatch.Walk.{winner_side_of}
use volleyball_monitoring_ai.Server.CanonicalMatch.Project.{
  project_canonical_match, winners_of_match, is_won,
}
use volleyball_monitoring_ai.Server.CanonicalMatch.Ledger.{project_canonical_match-Ledger}
use volleyball_monitoring_ai.Server.CanonicalMatch.Tally.{Ledger}
use volleyball_monitoring_ai.Server.CanonicalMatch.Sets.{
  rallies_of, SetsFrom, project_canonical_match-SetsFrom,
}
use volleyball_monitoring_ai.Server.CanonicalMatch.Accounting.{project_canonical_match-accounts}
use volleyball_monitoring_ai.Server.CanonicalMatch.Placing.{count}
use volleyball_monitoring_ai.Server.CanonicalMatch.Load.{SubmissionRow, start_capture_time_us}
use volleyball_monitoring_ai.Server.CanonicalMatch.Start.{IsStart, start_capture_time_us-IsStart}

abbrev any_order : Text → Text → ℤ
any_order a b = pos 0

abbrev rally : Text → ℕ → Bool → Option Text → CanonicalMatchSegmentInput
rally id start submitted side = record {
  id = id;
  raw_set_number = pos 1;
  raw_ordinal = pos 1;
  start_capture_time_us = some (pos start);
  created_at = none;
  submitted = submitted;
  score_resolution_state = some (codes "resolved");
  scoring_court_side = side;
  scoring_team_id = none;
  base_left_team_id = some (codes "A");
  base_right_team_id = some (codes "B");
  side_assignment_reversed = false;
}

-- The rallies in another order than they start in; the second one is a draft.
abbrev rallies : List CanonicalMatchSegmentInput
rallies =
    rally (codes "r3") 30 true (some (codes "RIGHT"))
    ∷ rally (codes "r1") 10 true (some (codes "LEFT"))
    ∷ rally (codes "r2") 20 false (some (codes "left"))
    ∷ []

abbrev match_sets : List CanonicalMatchSetInput
match_sets =
    record {
      id = codes "s1";
      set_number = pos 1;
      winning_team_id = some (codes "A");
      winning_rally_id = some (codes "r2");
    }
    ∷ record {
      id = codes "s2";
      set_number = pos 2;
      winning_team_id = some (codes "A");
      winning_rally_id = some (codes "gone");
    }
    ∷ []

-- The sides change before the third rally.
abbrev swaps : List CanonicalCourtSideBoundaryInput
swaps =
    record {
      id = codes "c1";
      effective_rally_id = codes "r3";
      left_team_id = codes "B";
      right_team_id = codes "A";
    }
    ∷ []

two_sets_example :
    Ledger
      (winners_of_match any_order match_sets rallies swaps).by_rally_id
      0
      1
      0
      []
      []
      (ordered_segments any_order rallies)
      (map_values (project_canonical_match any_order match_sets rallies swaps).segment_by_id)
two_sets_example = project_canonical_match-Ledger any_order match_sets rallies swaps

sets_example :
    (rallies_of (project_canonical_match any_order match_sets rallies swaps).sets
      ≡ (project_canonical_match any_order match_sets rallies swaps).ordered_segment_ids)
    × SetsFrom
        (ordered_segments any_order rallies)
        match_sets
        1
        (project_canonical_match any_order match_sets rallies swaps).sets
sets_example = project_canonical_match-SetsFrom any_order match_sets rallies swaps

accounts_example :
    count
        (λ row. row.ends_set)
        (map_values (project_canonical_match any_order match_sets rallies swaps).segment_by_id)
      + length (project_canonical_match any_order match_sets rallies swaps).orphan_winner_set_ids
      + length
          (project_canonical_match any_order match_sets rallies swaps).duplicate_winner_rally_ids
    ≡ count is_won match_sets
accounts_example = project_canonical_match-accounts any_order match_sets rallies swaps

abbrev submission : SubmissionRow
submission = record {
  score_resolution_state = none;
  scoring_court_side = none;
  scoring_team_id = none;
  left_team_id = none;
  right_team_id = none;
  boundaries = record { capture_time_us = pos 90; kind = codes "END" } ∷ [];
  key_points =
      record { capture_time_us = pos 20; marker_kind = codes "contact" }
      ∷ record { capture_time_us = pos 15; marker_kind = codes "contact" }
      ∷ [];
}

start_example :
    IsStart submission.boundaries submission.key_points (start_capture_time_us submission)
    × (start_capture_time_us submission
        ≡ segment_start_capture_time_us submission.boundaries submission.key_points)
unfolding trim
start_example = start_capture_time_us-IsStart submission (refl, tt) (refl, (refl, tt))

earliest_start : start_capture_time_us submission ≡ some (pos 15)
unfolding start_capture_time_us pos_part neg_part
earliest_start = refl

rallies_in_order :
    (project_canonical_match any_order match_sets rallies swaps).ordered_segment_ids
    ≡ codes "r1" ∷ codes "r2" ∷ codes "r3" ∷ []
unfolding project_canonical_match pos_part neg_part ◌-ℤ◌
rallies_in_order = refl

-- The draft counts in the preview only, and the second set starts at 0 on the changed sides.
scores_after :
    map {B = Score × Score}
      (λ entry. (entry.1.after, entry.1.official_after))
      (project_canonical_match any_order match_sets rallies swaps).segment_by_id
    ≡ (record { left_score = 1; right_score = 0 }, record { left_score = 1; right_score = 0 })
      ∷ (record { left_score = 2; right_score = 0 }, record { left_score = 1; right_score = 0 })
      ∷ (record { left_score = 0; right_score = 1 }, record { left_score = 0; right_score = 1 })
      ∷ []
unfolding project_canonical_match pos_part neg_part ◌-ℤ◌
scores_after = refl

orphan_set :
    (project_canonical_match any_order match_sets rallies swaps).orphan_winner_set_ids
    ≡ codes "s2" ∷ []
unfolding project_canonical_match pos_part neg_part ◌-ℤ◌
orphan_set = refl

-- A rally that nobody has scored, between unknown teams, is given to the left side.
nobody_scored :
    winner_side_of none (record { left_team_id = none; right_team_id = none }) ≡ some left_side
unfolding winner_side_of
nobody_scored = refl
