-- ===== src/Server/CanonicalMatch.antt =====
-- server/src/services/canonical-match-projection.ts: the types of the projection, the order of the
-- segments, court sides and scores. An absent and a null field are both `none`, which the source
-- tells apart nowhere; numbers and milliseconds are integers.
pub mod Winners
pub mod Walk
pub mod Project
pub mod Ordered
pub mod Tally
pub mod Ledger
pub mod Wins
pub mod Sets
pub mod Placing
pub mod Accounting
mod Examples
pub mod Load
pub mod Start
use volleyball_monitoring_ai.Base.{
  ℕ, zero, suc, Bool, true, false, List, [], ◌∷◌, ◌++◌, Option, none, some, ◌&&◌, not,
  if◌then◌else◌,
}
use volleyball_monitoring_ai.Base.Text.{Text, codes, text_eq}
use volleyball_monitoring_ai.Base.Int.{ℤ, pos, negsuc, ◌-ℤ◌, ltb_ℤ, eqb_ℤ}
use volleyball_monitoring_ai.Base.Maps.{map_get}
use volleyball_monitoring_ai.Base.Words.{normalized}

pub record CanonicalMatchSetInput : Type 0 where
  pub id : Text
  pub set_number : ℤ
  pub winning_team_id : Option Text
  pub winning_rally_id : Option Text

pub record CanonicalMatchSegmentInput : Type 0 where
  pub id : Text
  pub raw_set_number : ℤ
  pub raw_ordinal : ℤ
  pub start_capture_time_us : Option ℤ
  pub created_at : Option ℤ
  pub submitted : Bool
  pub score_resolution_state : Option Text
  pub scoring_court_side : Option Text
  pub scoring_team_id : Option Text
  pub base_left_team_id : Option Text
  pub base_right_team_id : Option Text
  pub side_assignment_reversed : Bool

pub record CanonicalCourtSideBoundaryInput : Type 0 where
  pub id : Text
  pub effective_rally_id : Text
  pub left_team_id : Text
  pub right_team_id : Text

pub data CourtSide : Type 0 where
  left_side right_side : CourtSide

pub record CourtSides : Type 0 where
  pub left_team_id : Option Text
  pub right_team_id : Option Text

-- The scores of the two sides, in the order of the fields of the source.
pub record Score : Type 0 where
  pub left_score : ℕ
  pub right_score : ℕ

pub record CanonicalSegmentProjection : Type 0 where
  pub id : Text
  pub set_number : ℕ
  pub ordinal : ℕ
  pub global_ordinal : ℕ
  pub sides : CourtSides
  pub scoring_court_side : Option CourtSide
  pub scoring_team_id : Option Text
  pub before : Score
  pub after : Score
  pub official_before : Score
  pub official_after : Score
  pub winner_side : Option CourtSide
  pub ends_set : Bool
  pub winner_set_id : Option Text
  pub winning_team_id : Option Text

pub record CanonicalSetProjection : Type 0 where
  pub set_number : ℕ
  pub rally_ids : List Text
  pub winner_set_id : Option Text
  pub winning_rally_id : Option Text
  pub winning_team_id : Option Text
  pub sides : CourtSides
  pub score : Score
  pub preview_score : Score

-- A text that is neither null nor empty is a true condition.
abbrev pub truthy : Option Text → Option Text
truthy none = none
truthy (some []) = none
truthy (some (c ∷ s)) = some (c ∷ s)

unfoldable pub same_id : Option Text → Option Text → Bool
unfolding text_eq
same_id none none = true
same_id (some a) (some b) = text_eq a b
same_id _ _ = false

-- `left || right` on numbers.
abbrev or_number : ℤ → ℤ → ℤ
or_number left right = if eqb_ℤ left (pos 0) then right else left

value_or_zero : Option ℤ → ℤ
value_or_zero none = pos 0
value_or_zero (some value) = value

module _ (locale_compare : Text → Text → ℤ) where
  -- The comparison of segments whose start times do not decide.
  compare_creation : CanonicalMatchSegmentInput → CanonicalMatchSegmentInput → ℤ
  unfolding value_or_zero
  compare_creation left right =
      or_number (value_or_zero left.created_at -ℤ value_or_zero right.created_at) (
        or_number (left.raw_set_number -ℤ right.raw_set_number)
          (or_number (left.raw_ordinal -ℤ right.raw_ordinal) (locale_compare left.id right.id)))

  compare_starts : Option ℤ → Option ℤ → CanonicalMatchSegmentInput → CanonicalMatchSegmentInput → ℤ
  unfolding compare_creation
  compare_starts (some a) (some b) left right =
      if eqb_ℤ a b then compare_creation left right else if ltb_ℤ a b then negsuc 0 else pos 1
  compare_starts (some a) none left right = negsuc 0
  compare_starts none (some b) left right = pos 1
  compare_starts none none left right = compare_creation left right

  unfoldable pub compare_segments : CanonicalMatchSegmentInput → CanonicalMatchSegmentInput → ℤ
  unfolding compare_starts
  compare_segments left right =
      compare_starts left.start_capture_time_us right.start_capture_time_us left right

swapped_if : Bool → CourtSides → CourtSides
swapped_if reversed sides =
    if reversed
    then (record { left_team_id = sides.right_team_id; right_team_id = sides.left_team_id })
    else sides

unfoldable pub effective_sides : CanonicalMatchSegmentInput → CourtSides
unfolding swapped_if
effective_sides segment =
    let sides : CourtSides = record {
      left_team_id = segment.base_left_team_id;
      right_team_id = segment.base_right_team_id;
    } in
    elim (truthy segment.base_left_team_id) [
      | none ↦ sides
      | some _ ↦ elim (truthy segment.base_right_team_id) [
        | none ↦ sides
        | some _ ↦ swapped_if segment.side_assignment_reversed sides
      ]
    ]

pub record Scoring : Type 0 where
  pub scoring_court_side : Option CourtSide
  pub scoring_team_id : Option Text

-- The team of the recorded side.
team_of_side : Text → CourtSides → Option Text
team_of_side side sides =
    if text_eq side (codes "LEFT")
    then sides.left_team_id
    else if text_eq side (codes "RIGHT")
    then sides.right_team_id
    else none

unfoldable pub side_of_team : Option Text → CourtSides → Option CourtSide
unfolding same_id
side_of_team team sides = elim (truthy team) [
  | none ↦ none
  | some _ ↦
      if same_id team sides.left_team_id
      then some left_side
      else if same_id team sides.right_team_id
      then some right_side
      else none
]

unfoldable pub scoring_team : CanonicalMatchSegmentInput → CourtSides → Option Text
unfolding same_id team_of_side normalized
scoring_team segment sides =
    if not (same_id segment.scoring_team_id sides.left_team_id)
      && not (same_id segment.scoring_team_id sides.right_team_id)
    then team_of_side (normalized segment.scoring_court_side) sides
    else segment.scoring_team_id

unfoldable pub scoring_projection : CanonicalMatchSegmentInput → CourtSides → Scoring
unfolding side_of_team scoring_team normalized
scoring_projection segment sides =
    if text_eq (normalized segment.score_resolution_state) (codes "RESOLVED")
    then (record {
      scoring_court_side = side_of_team (scoring_team segment sides) sides;
      scoring_team_id = scoring_team segment sides;
    })
    else (record { scoring_court_side = none; scoring_team_id = none })

-- The number at a key, 0 where there is none.
unfoldable pub points_of : List (Text × ℕ) → Text → ℕ
unfolding map_get
points_of team_scores team = elim (map_get team team_scores) [ none ↦ 0 | some n ↦ n ]

unfoldable pub score_for : List (Text × ℕ) → Option Text → ℕ
unfolding points_of
score_for team_scores team = elim (truthy team) [ none ↦ 0 | some id ↦ points_of team_scores id ]
