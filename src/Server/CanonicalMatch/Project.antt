-- ===== src/Server/CanonicalMatch/Project.antt =====
-- server/src/services/canonical-match-projection.ts: `projectCanonicalMatch`.
use volleyball_monitoring_ai.Base.{
  Bool, true, false, List, [], ◌∷◌, ◌++◌, map, none, some, any, ◌&&◌, not, if◌then◌else◌,
}
use volleyball_monitoring_ai.Base.Text.{Text}
use volleyball_monitoring_ai.Base.Int.{ℤ, pos, ltb_ℤ}
use volleyball_monitoring_ai.Base.Sorting.{sort_by}
use volleyball_monitoring_ai.Server.CanonicalMatch.{
  CanonicalMatchSetInput, CanonicalMatchSegmentInput, CanonicalCourtSideBoundaryInput,
  CanonicalSegmentProjection, CanonicalSetProjection, truthy,
}
use volleyball_monitoring_ai.Server.CanonicalMatch.Winners.{
  Boundaries, Winners, ordered_segments, collect_boundaries, collect_winners, by_set_number,
}
use volleyball_monitoring_ai.Server.CanonicalMatch.Walk.{Walk, initial_walk, visit_segments}

pub record CanonicalMatchProjection : Type 0 where
  pub ordered_segment_ids : List Text
  pub segment_by_id : List (Text × CanonicalSegmentProjection)
  pub sets : List CanonicalSetProjection
  pub orphan_winner_set_ids : List Text
  pub duplicate_winner_rally_ids : List Text
  pub orphan_court_side_boundary_ids : List Text
  pub duplicate_court_side_boundary_rally_ids : List Text

unfoldable pub is_won : CanonicalMatchSetInput → Bool
is_won set = elim (truthy set.winning_team_id) [ none ↦ false | some _ ↦ true ]

-- `Math.max(highest, set.setNumber)` over the won sets.
unfoldable pub highest_winner : ℤ → List CanonicalMatchSetInput → ℤ
unfolding is_won
highest_winner highest [] = highest
highest_winner highest (set ∷ sets) =
    highest_winner (if is_won set && ltb_ℤ highest set.set_number then set.set_number else highest)
      sets

unfoldable pub has_trailing_open_raw_set : List CanonicalMatchSetInput → Bool
unfolding is_won highest_winner
has_trailing_open_raw_set sets =
    any (λ set. not (is_won set) && ltb_ℤ (highest_winner (pos 0) sets) set.set_number) sets

unfoldable pub is_nil : {A : Type 0} → List A → Bool
is_nil [] = true
is_nil (x ∷ xs) = false

-- The finished sets and the current one, without a last one that is empty and that no raw set
-- stands for.
unfoldable pub final_sets :
    Bool → List CanonicalSetProjection → CanonicalSetProjection → List CanonicalSetProjection
unfolding is_nil
final_sets trailing finished current =
    if not (is_nil finished) && (is_nil current.rally_ids && not trailing)
    then finished
    else finished ++ current ∷ []

no_boundaries : Boundaries
no_boundaries = record { by_rally_id = []; orphan_ids = []; duplicate_rally_ids = [] }

unfoldable pub no_winners : Winners
no_winners = record { by_rally_id = []; orphan_set_ids = []; duplicate_rally_ids = [] }

module _ (locale_compare : Text → Text → ℤ) (sets : List CanonicalMatchSetInput)
    (segments : List CanonicalMatchSegmentInput)
    (court_side_boundaries : List CanonicalCourtSideBoundaryInput) where
  unfoldable pub boundaries_of_match : Boundaries
  unfolding no_boundaries collect_boundaries ordered_segments
  boundaries_of_match =
      collect_boundaries (ordered_segments locale_compare segments) no_boundaries
        court_side_boundaries

  unfoldable pub winners_of_match : Winners
  unfolding no_winners collect_winners ordered_segments by_set_number sort_by
  winners_of_match =
      collect_winners (ordered_segments locale_compare segments) no_winners
        (sort_by by_set_number sets)

  unfoldable pub walk_of_match : Walk
  unfolding boundaries_of_match winners_of_match visit_segments initial_walk ordered_segments
  walk_of_match =
      visit_segments boundaries_of_match.by_rally_id winners_of_match.by_rally_id 0 initial_walk
        (ordered_segments locale_compare segments)

  unfoldable pub project_canonical_match : CanonicalMatchProjection
  unfolding boundaries_of_match winners_of_match walk_of_match ordered_segments final_sets
      has_trailing_open_raw_set
  project_canonical_match = record {
    ordered_segment_ids = map (λ segment. segment.id) (ordered_segments locale_compare segments);
    segment_by_id = walk_of_match.segment_by_id;
    sets =
        final_sets (has_trailing_open_raw_set sets) walk_of_match.finished
          walk_of_match.current_set;
    orphan_winner_set_ids = winners_of_match.orphan_set_ids;
    duplicate_winner_rally_ids = winners_of_match.duplicate_rally_ids;
    orphan_court_side_boundary_ids = boundaries_of_match.orphan_ids;
    duplicate_court_side_boundary_rally_ids = boundaries_of_match.duplicate_rally_ids;
  }
