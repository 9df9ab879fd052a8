-- ===== src/Server/CanonicalMatch/Accounting.antt =====
-- Proofs about server/src/services/canonical-match-projection.ts: every won set is accounted for.
use volleyball_monitoring_ai.Base.{
  ℕ, suc, ◌+◌, ◌≡◌, refl, subst, ◌∙◌, Bool, true, false, List, [], ◌∷◌, inl, inr, Bool-cases, All,
  length, arith,
}
use volleyball_monitoring_ai.Base.Text.{Text, text_eq, text_eq_iff}
use volleyball_monitoring_ai.Base.Int.{ℤ}
use volleyball_monitoring_ai.Base.Maps.{map_get, map_has, map_has-map_get, map_values}
use volleyball_monitoring_ai.Base.Sorting.{sort_by}
use volleyball_monitoring_ai.Base.Distinct.{Distinct, text_eq_sym}
use volleyball_monitoring_ai.Server.CanonicalMatch.{
  CanonicalMatchSetInput, CanonicalMatchSegmentInput, CanonicalCourtSideBoundaryInput,
  CanonicalSegmentProjection,
}
use volleyball_monitoring_ai.Server.CanonicalMatch.Walk.{is_some}
use volleyball_monitoring_ai.Server.CanonicalMatch.Winners.{
  ordered_segments, has_segment, by_set_number,
}
use volleyball_monitoring_ai.Server.CanonicalMatch.Project.{
  project_canonical_match, winners_of_match, is_won, no_winners,
}
use volleyball_monitoring_ai.Server.CanonicalMatch.Ordered.{id_of, ordered_segments-Distinct}
use volleyball_monitoring_ai.Server.CanonicalMatch.Ledger.{project_canonical_match-Ledger}
use volleyball_monitoring_ai.Server.CanonicalMatch.Tally.{Ledger}
use volleyball_monitoring_ai.Server.CanonicalMatch.Placing.{
  Placed, PlacedIn, collect_winners-Placed, count, count-sort_by,
}

-- How many segments are the winning rally of a placed set.
abbrev ending : List (Text × CanonicalMatchSetInput) → CanonicalMatchSegmentInput → Bool
ending winners segment = map_has segment.id winners

count_absent :
    (rally : Text) (ordered : List CanonicalMatchSegmentInput)
    → All (λ segment. text_eq rally segment.id ≡ false) ordered
    → count (λ segment. text_eq rally segment.id) ordered ≡ 0
count_absent rally [] h = refl
count_absent rally (segment ∷ segments) (p, h) = rw p (omega (arith, count_absent rally segments h))

-- A segment of the match is there once.
count_segment-one :
    (rally : Text) (ordered : List CanonicalMatchSegmentInput)
    → Distinct id_of ordered
    → has_segment ordered rally ≡ true
    → count (λ segment. text_eq rally segment.id) ordered ≡ 1
unfolding has_segment
count_segment-one rally [] d there = cc
count_segment-one rally (segment ∷ segments) (p, d) there =
    elim (Bool-cases (text_eq segment.id rally)) [
      | inl here ↦
          let same = (text_eq_iff segment.id rally).0 here in
          let none_behind =
            count_absent rally segments
              (subst (λ id. All (λ other. text_eq id other.id ≡ false) segments) same p) in
          let first : text_eq rally segment.id ≡ true = text_eq_sym rally segment.id ∙ here in
          rw first (omega (arith, none_behind))
      | inr behind ↦
          let rest = count_segment-one rally segments d (ground arith) in
          rw (text_eq_sym rally segment.id ∙ behind) (omega (arith, rest))
    ]

count-ending_nil : (ordered : List CanonicalMatchSegmentInput) → count (ending []) ordered ≡ 0
unfolding map_has
count-ending_nil [] = refl
count-ending_nil (segment ∷ segments) = omega (arith, count-ending_nil segments)

count-ending_cons :
    (rally : Text) (set : CanonicalMatchSetInput) (winners : List (Text × CanonicalMatchSetInput))
    (ordered : List CanonicalMatchSegmentInput)
    → map_has rally winners ≡ false
    → count (ending ((rally, set) ∷ winners)) ordered
      ≡ count (λ segment. text_eq rally segment.id) ordered + count (ending winners) ordered
unfolding map_has
count-ending_cons rally set winners [] h = refl
count-ending_cons rally set winners (segment ∷ segments) h =
    ground (arith, text_eq_iff rally segment.id, count-ending_cons rally set winners segments h)

count-ending :
    (ordered : List CanonicalMatchSegmentInput) (winners : List (Text × CanonicalMatchSetInput))
    → Distinct id_of ordered
    → PlacedIn ordered winners
    → count (ending winners) ordered ≡ length winners
count-ending ordered [] d h = count-ending_nil ordered
count-ending ordered ((rally, set) ∷ winners) d (there, new, h) = omega (
  arith,
  count-ending_cons rally set winners ordered new,
  count_segment-one rally ordered d there,
  count-ending ordered winners d h,
)

is_some-map_has :
    (id : Text) (winners : List (Text × CanonicalMatchSetInput))
    → is_some (map_get id winners) ≡ map_has id winners
unfolding is_some
is_some-map_has id winners = ground (arith, map_has-map_get id winners)

-- A row of a ledger ends a set where its segment does.
Ledger-count :
    (winners : List (Text × CanonicalMatchSetInput)) (global set_number ordinal : ℕ)
    (preview official : List Text) (segments : List CanonicalMatchSegmentInput)
    (rows : List CanonicalSegmentProjection)
    → Ledger winners global set_number ordinal preview official segments rows
    → count (λ row. row.ends_set) rows ≡ count (ending winners) segments
Ledger-count winners g n o p q [] [] h = refl
Ledger-count winners g n o p q [] (row ∷ rows) h = elim h [ ]
Ledger-count winners g n o p q (segment ∷ segments) [] h = elim h [ ]
Ledger-count winners g n o p q (segment ∷ segments) (row ∷ rows) (numbers, scores, h) =
    let rest = Ledger-count winners (suc g) _ _ _ _ segments rows h in
    rw (numbers.4 ∙ is_some-map_has segment.id winners) (omega (arith, rest))

no_winners-Placed : (ordered : List CanonicalMatchSegmentInput) → Placed ordered 0 no_winners
unfolding no_winners
no_winners-Placed ordered = record { placed = tt; total = omega arith }

module _ (locale_compare : Text → Text → ℤ) (sets : List CanonicalMatchSetInput)
    (segments : List CanonicalMatchSegmentInput)
    (boundaries : List CanonicalCourtSideBoundaryInput) where
  winners_of_match-Placed :
      Placed
        (ordered_segments locale_compare segments)
        (count is_won sets)
        (winners_of_match locale_compare sets segments boundaries)
  unfolding winners_of_match
  winners_of_match-Placed =
      let ordered = ordered_segments locale_compare segments in
      let kept =
        collect_winners-Placed ordered 0 no_winners (sort_by by_set_number sets)
          (no_winners-Placed ordered) in
      record {
        placed = kept.placed;
        total = omega (arith, kept.total, count-sort_by is_won by_set_number sets);
      }

  project_canonical_match-diagnostics :
      let projection = project_canonical_match locale_compare sets segments boundaries in
      let winners = winners_of_match locale_compare sets segments boundaries in
      (length projection.orphan_winner_set_ids ≡ length winners.orphan_set_ids)
      × (length projection.duplicate_winner_rally_ids ≡ length winners.duplicate_rally_ids)
  unfolding project_canonical_match
  project_canonical_match-diagnostics = (refl, refl)

-- The segments that end a set, the won sets without a rally of the match and those whose rally
-- another set has taken are together as many as the won sets of the input.
pub project_canonical_match-accounts :
    (locale_compare : Text → Text → ℤ) (sets : List CanonicalMatchSetInput)
    (segments : List CanonicalMatchSegmentInput) (boundaries : List CanonicalCourtSideBoundaryInput)
    → let projection = project_canonical_match locale_compare sets segments boundaries in
      count (λ row. row.ends_set) (map_values projection.segment_by_id)
        + length projection.orphan_winner_set_ids
        + length projection.duplicate_winner_rally_ids
      ≡ count is_won sets
project_canonical_match-accounts locale_compare sets segments boundaries =
    let projection = project_canonical_match locale_compare sets segments boundaries in
    let ordered = ordered_segments locale_compare segments in
    let winners = winners_of_match locale_compare sets segments boundaries in
    let kept = winners_of_match-Placed locale_compare sets segments boundaries in
    omega (
      arith,
      Ledger-count winners.by_rally_id 0 1 0 [] [] ordered (map_values projection.segment_by_id)
          (project_canonical_match-Ledger locale_compare sets segments boundaries),
      count-ending ordered winners.by_rally_id (ordered_segments-Distinct locale_compare segments)
          kept.placed,
      kept.total,
      project_canonical_match-diagnostics locale_compare sets segments boundaries,
    )
