-- ===== src/Server/CanonicalMatch/Tally.antt =====
-- The ledger of the rallies of server/src/services/canonical-match-projection.ts, which counts the
-- scorers of each set, and the counts that the walk keeps.
use volleyball_monitoring_ai.Base.{
  ℕ, suc, ◌+◌, ◌≡◌, refl, List, [], ◌∷◌, Option, none, some, if◌then◌else◌, arith,
}
use volleyball_monitoring_ai.Base.Text.{Text, text_eq, text_eq_iff}
use volleyball_monitoring_ai.Base.Maps.{map_get, map_set, map_get-map_set}
use volleyball_monitoring_ai.Server.CanonicalMatch.{
  CanonicalMatchSetInput, CanonicalMatchSegmentInput, CourtSides, Score, CanonicalSegmentProjection,
  truthy, score_for, points_of,
}
use volleyball_monitoring_ai.Server.CanonicalMatch.Walk.{add_point, scores_of, is_some}

-- How often the team has scored.
abbrev pub tally : Text → List Text → ℕ
tally team [] = 0
tally team (scorer ∷ scorers) = (if text_eq scorer team then 1 else 0) + tally team scorers

abbrev pub tally_of : Option Text → List Text → ℕ
tally_of team scorers = elim (truthy team) [ none ↦ 0 | some id ↦ tally id scorers ]

-- The scores that the two sides have by the list of the scorers.
abbrev pub score_by : List Text → CourtSides → Score
score_by scorers sides = record {
  left_score = tally_of sides.left_team_id scorers;
  right_score = tally_of sides.right_team_id scorers;
}

abbrev pub scored : Option Text → List Text → List Text
scored team scorers = elim (truthy team) [ none ↦ scorers | some id ↦ id ∷ scorers ]

-- The rows are those of the segments: each has its numbers, its scores are the counts of the
-- running set before and after it, the official ones those of the submitted segments, and a new
-- set begins after a segment that ends one.
abbrev pub Ledger :
    List (Text × CanonicalMatchSetInput)
    → ℕ
    → ℕ
    → ℕ
    → List Text
    → List Text
    → List CanonicalMatchSegmentInput
    → List CanonicalSegmentProjection
    → Type 0
Ledger winners global set_number ordinal preview official [] [] = Unit
Ledger winners global set_number ordinal preview official (segment ∷ segments) (row ∷ rows) =
    let later = scored row.scoring_team_id preview in
    let later_official =
      if segment.submitted then scored row.scoring_team_id official else official in
    let ends = is_some (map_get segment.id winners) in
    ((row.id ≡ segment.id)
      × (row.global_ordinal ≡ suc global)
      × (row.set_number ≡ set_number)
      × (row.ordinal ≡ suc ordinal)
      × (row.ends_set ≡ ends))
    × ((row.before ≡ score_by preview row.sides)
        × (row.after ≡ score_by later row.sides)
        × (row.official_before ≡ score_by official row.sides)
        × (row.official_after ≡ score_by later_official row.sides))
    × Ledger winners (suc global) (if ends then suc set_number else set_number)
        (if ends then 0 else suc ordinal) (if ends then [] else later)
        (if ends then [] else later_official) segments rows
Ledger winners global set_number ordinal preview official _ _ = ⊥

pub Ledger-renumbered :
    (winners : List (Text × CanonicalMatchSetInput)) (global : ℕ) (preview official : List Text)
    (segments : List CanonicalMatchSegmentInput) (rows : List CanonicalSegmentProjection)
    {set_number set_number' ordinal ordinal' : ℕ}
    → set_number ≡ set_number'
    → ordinal ≡ ordinal'
    → Ledger winners global set_number ordinal preview official segments rows
    → Ledger winners global set_number' ordinal' preview official segments rows
Ledger-renumbered winners global preview official segments rows number ordinal ledger =
    rw (← number) (rw (← ordinal) ledger)

-- The map of scores counts the scorers.
abbrev pub Counts : List (Text × ℕ) → List Text → Type 0
Counts scores scorers = (team : Text) → points_of scores team ≡ tally team scorers

pub Counts-nil : Counts [] []
unfolding points_of map_get
Counts-nil team = refl

points_of-map_set :
    (key other : Text) (n : ℕ) (scores : List (Text × ℕ))
    → points_of (map_set key n scores) other
      ≡ (if text_eq key other then n else points_of scores other)
unfolding points_of
points_of-map_set key other n scores = ground (arith, map_get-map_set key other n scores)

pub Counts-add_point :
    (team : Option Text) (scores : List (Text × ℕ)) (scorers : List Text)
    → Counts scores scorers
    → Counts (add_point team scores) (scored team scorers)
unfolding add_point
Counts-add_point none scores scorers h team = h team
Counts-add_point (some []) scores scorers h team = h team
Counts-add_point (some (c ∷ s)) scores scorers h team = ground (
  arith,
  points_of-map_set (c ∷ s) team (points_of scores (c ∷ s) + 1) scores,
  h team,
  h (c ∷ s),
  text_eq_iff (c ∷ s) team,
)

score_for-tally_of :
    (team : Option Text) (scores : List (Text × ℕ)) (scorers : List Text)
    → Counts scores scorers
    → score_for scores team ≡ tally_of team scorers
unfolding score_for
score_for-tally_of none scores scorers h = refl
score_for-tally_of (some []) scores scorers h = refl
score_for-tally_of (some (c ∷ s)) scores scorers h = h (c ∷ s)

pub scores_of-score_by :
    (scores : List (Text × ℕ)) (scorers : List Text) (sides : CourtSides)
    → Counts scores scorers
    → scores_of scores sides ≡ score_by scorers sides
unfolding scores_of
scores_of-score_by scores scorers sides h =
    rw
      (
        score_for-tally_of sides.left_team_id scores scorers h,
        score_for-tally_of sides.right_team_id scores scorers h,
      )
      refl
