-- ===== src/Server/CanonicalMatch/Ledger.antt =====
-- Proofs about server/src/services/canonical-match-projection.ts: the scores of the projection
-- against a ledger that lists who scored in the running set.
use volleyball_monitoring_ai.Base.{
  ℕ, suc, ◌≡◌, refl, sym, ◌∙◌, true, false, List, [], ◌∷◌, ◌++◌, none, some, inl, inr, Option-cases,
  if◌then◌else◌, arith,
}
use mathlib.Core.List.{append_assoc, append-nil, map-append}
use volleyball_monitoring_ai.Base.Text.{Text}
use volleyball_monitoring_ai.Base.Int.{ℤ}
use volleyball_monitoring_ai.Base.Maps.{map_get, map_set, map_values}
use volleyball_monitoring_ai.Base.Distinct.{Distinct}
use volleyball_monitoring_ai.Server.CanonicalMatch.{
  CanonicalMatchSetInput, CanonicalMatchSegmentInput, CanonicalCourtSideBoundaryInput,
  CanonicalSegmentProjection, scoring_projection,
}
use volleyball_monitoring_ai.Server.CanonicalMatch.Walk.{
  Walk, initial_walk, sides_at, add_point, count_segment, projection_at, close_set, visit_segment,
  visit_segments, project_segment, is_some,
}
use volleyball_monitoring_ai.Server.CanonicalMatch.Winners.{ordered_segments}
use volleyball_monitoring_ai.Server.CanonicalMatch.Project.{
  project_canonical_match, winners_of_match, boundaries_of_match, walk_of_match,
}
use volleyball_monitoring_ai.Server.CanonicalMatch.Ordered.{
  id_of, ordered_segments-Distinct, map_set-Absent, Fresh, Fresh-append, Fresh-nil,
}
use volleyball_monitoring_ai.Server.CanonicalMatch.Tally.{
  Counts, Counts-add_point, Counts-nil, Ledger, Ledger-renumbered, score_by, scored,
  scores_of-score_by,
}

module _ (boundaries : List (Text × CanonicalCourtSideBoundaryInput))
    (winners : List (Text × CanonicalMatchSetInput)) where
  -- The rows that the walk enters.
  rows_from : ℕ → Walk → List CanonicalMatchSegmentInput → List CanonicalSegmentProjection
  rows_from global walk [] = []
  rows_from global walk (segment ∷ segments) =
      projection_at boundaries winners global walk segment
      ∷ rows_from (suc global) (visit_segment boundaries winners global walk segment) segments

  projection_at-id :
      (global : ℕ) (walk : Walk) (segment : CanonicalMatchSegmentInput)
      → (projection_at boundaries winners global walk segment).id ≡ segment.id
  unfolding projection_at project_segment
  projection_at-id global walk segment = refl

  visit_segment-segment_by_id :
      (global : ℕ) (walk : Walk) (segment : CanonicalMatchSegmentInput)
      → (visit_segment boundaries winners global walk segment).segment_by_id
        ≡ map_set segment.id
            (projection_at boundaries winners global walk segment)
            walk.segment_by_id
  unfolding visit_segment close_set
  visit_segment-segment_by_id global walk segment =
      elim (Option-cases (map_get segment.id winners)) [
        | inl absent ↦ rw absent refl
        | inr (set, found) ↦ rw found refl
      ]

  -- The entries of the walk are its rows, in the order of the segments.
  visit_segments-rows_from :
      (global : ℕ) (walk : Walk) (segments : List CanonicalMatchSegmentInput)
      → Distinct id_of segments
      → Fresh walk.segment_by_id segments
      → map_values (visit_segments boundaries winners global walk segments).segment_by_id
        ≡ map_values walk.segment_by_id ++ rows_from global walk segments
  unfolding visit_segments rows_from
  visit_segments-rows_from global walk [] d h = sym (append-nil (map_values walk.segment_by_id))
  visit_segments-rows_from global walk (segment ∷ segments) (p, d) (q, h) =
      let row = projection_at boundaries winners global walk segment in
      let later = visit_segment boundaries winners global walk segment in
      let entered : later.segment_by_id ≡ walk.segment_by_id ++ (segment.id, row) ∷ [] =
        visit_segment-segment_by_id global walk segment
        ∙ map_set-Absent segment.id row walk.segment_by_id q in
      visit_segments-rows_from (suc global) later segments d
        (rw entered (Fresh-append segment.id row walk.segment_by_id segments p h))
      ∙ (rw entered (simp (map-append, append_assoc)))

  -- A segment that ends no set leaves the counted state, and one that ends a set a fresh one.
  visit_segment-open :
      (global : ℕ) (walk : Walk) (segment : CanonicalMatchSegmentInput)
      → map_get segment.id winners ≡ none
      → let later = visit_segment boundaries winners global walk segment in
        let counted = count_segment boundaries winners walk segment in
        (later.set_number ≡ walk.set_number)
        × (later.ordinal ≡ suc walk.ordinal)
        × (later.preview_team_scores ≡ counted.preview_team_scores)
        × (later.official_team_scores ≡ counted.official_team_scores)
  unfolding visit_segment close_set count_segment
  visit_segment-open global walk segment absent = rw absent (refl, refl, refl, refl)

  visit_segment-ending :
      (global : ℕ) (walk : Walk) (segment : CanonicalMatchSegmentInput)
      (set : CanonicalMatchSetInput)
      → map_get segment.id winners ≡ some set
      → let later = visit_segment boundaries winners global walk segment in
        (later.set_number ≡ suc walk.set_number)
        × (later.ordinal ≡ 0)
        × (later.preview_team_scores ≡ [])
        × (later.official_team_scores ≡ [])
  unfolding visit_segment close_set count_segment
  visit_segment-ending global walk segment set found = rw found (refl, refl, refl, refl)

  count_segment-preview :
      (global : ℕ) (walk : Walk) (preview : List Text) (segment : CanonicalMatchSegmentInput)
      → Counts walk.preview_team_scores preview
      → Counts
          (count_segment boundaries winners walk segment).preview_team_scores
          (scored (projection_at boundaries winners global walk segment).scoring_team_id preview)
  unfolding count_segment projection_at project_segment
  count_segment-preview global walk preview segment h =
      Counts-add_point
        (scoring_projection segment
          (sides_at boundaries walk.active_court_sides segment)).scoring_team_id
        walk.preview_team_scores preview h

  count_segment-official :
      (global : ℕ) (walk : Walk) (official : List Text) (segment : CanonicalMatchSegmentInput)
      → Counts walk.official_team_scores official
      → Counts (count_segment boundaries winners walk segment).official_team_scores (
          if segment.submitted
          then scored
              (projection_at boundaries winners global walk segment).scoring_team_id
              official
          else official)
  unfolding count_segment projection_at project_segment
  count_segment-official global walk official segment h =
      let team =
        (scoring_projection segment
          (sides_at boundaries walk.active_court_sides segment)).scoring_team_id in
      elim segment.submitted
        as (λ b.
          Counts (if b then add_point team walk.official_team_scores else walk.official_team_scores)
            (if b then scored team official else official)) [
              | true ↦ Counts-add_point team walk.official_team_scores official h
              | false ↦ h
            ]

  projection_at-scores :
      (global : ℕ) (walk : Walk) (preview official later_preview later_official : List Text)
      (segment : CanonicalMatchSegmentInput)
      → Counts walk.preview_team_scores preview
      → Counts walk.official_team_scores official
      → Counts (count_segment boundaries winners walk segment).preview_team_scores later_preview
      → Counts (count_segment boundaries winners walk segment).official_team_scores later_official
      → let row = projection_at boundaries winners global walk segment in
        (row.before ≡ score_by preview row.sides)
        × (row.after ≡ score_by later_preview row.sides)
        × (row.official_before ≡ score_by official row.sides)
        × (row.official_after ≡ score_by later_official row.sides)
  unfolding projection_at project_segment
  projection_at-scores global walk preview official later_preview later_official segment h k l m =
      let sides = sides_at boundaries walk.active_court_sides segment in
      let counted = count_segment boundaries winners walk segment in
      (
        scores_of-score_by walk.preview_team_scores preview sides h,
        scores_of-score_by counted.preview_team_scores later_preview sides l,
        scores_of-score_by walk.official_team_scores official sides k,
        scores_of-score_by counted.official_team_scores later_official sides m,
      )

  projection_at-numbers :
      (global : ℕ) (walk : Walk) (segment : CanonicalMatchSegmentInput)
      → let row = projection_at boundaries winners global walk segment in
        (row.id ≡ segment.id)
        × (row.global_ordinal ≡ suc global)
        × (row.set_number ≡ walk.set_number)
        × (row.ordinal ≡ suc walk.ordinal)
        × (row.ends_set ≡ is_some (map_get segment.id winners))
  unfolding projection_at project_segment count_segment
  projection_at-numbers global walk segment = (refl, omega arith, refl, refl, refl)

  rows_from-Ledger :
      (global : ℕ) (walk : Walk) (preview official : List Text)
      (segments : List CanonicalMatchSegmentInput)
      → Counts walk.preview_team_scores preview
      → Counts walk.official_team_scores official
      → Ledger winners global walk.set_number walk.ordinal preview official segments
          (rows_from global walk segments)
  unfolding rows_from is_some
  rows_from-Ledger global walk preview official [] h k = tt
  rows_from-Ledger global walk preview official (segment ∷ segments) h k =
      let later = visit_segment boundaries winners global walk segment in
      let team = (projection_at boundaries winners global walk segment).scoring_team_id in
      let later_preview = scored team preview in
      let later_official = if segment.submitted then scored team official else official in
      let counted_preview = count_segment-preview global walk preview segment h in
      let counted_official = count_segment-official global walk official segment k in
      (
        projection_at-numbers global walk segment,
        projection_at-scores global walk preview official later_preview later_official segment h k
            counted_preview counted_official,
        elim (Option-cases (map_get segment.id winners)) [
          | inl absent ↦
              let (number, ordinal, previews, officials) =
                visit_segment-open global walk segment absent in
              rw absent (
                Ledger-renumbered winners (suc global) later_preview later_official segments
                  (rows_from (suc global) later segments) number ordinal
                  (rows_from-Ledger (suc global) later later_preview later_official segments
                    (rw previews counted_preview) (rw officials counted_official)))
          | inr (set, found) ↦
              let (number, ordinal, previews, officials) =
                visit_segment-ending global walk segment set found in
              rw found (
                Ledger-renumbered winners (suc global) [] [] segments
                  (rows_from (suc global) later segments) number ordinal
                  (rows_from-Ledger (suc global) later [] [] segments (rw previews Counts-nil)
                    (rw officials Counts-nil)))
        ],
      )

initial_walk-Counts :
    Counts initial_walk.preview_team_scores [] × Counts initial_walk.official_team_scores []
unfolding initial_walk
initial_walk-Counts = (Counts-nil, Counts-nil)

-- The rows of the projected match are, one for each ordered segment, those of a ledger that starts at
-- the first set: a row's scores are the numbers of rallies of its set that its sides have won before
-- it and after it, its official scores those of the submitted rallies, its numbers its places in the
-- match and in its set, and a new set with no scorers begins behind each rally that ends a set.
pub project_canonical_match-Ledger :
    (locale_compare : Text → Text → ℤ) (sets : List CanonicalMatchSetInput)
    (segments : List CanonicalMatchSegmentInput) (boundaries : List CanonicalCourtSideBoundaryInput)
    → Ledger
        (winners_of_match locale_compare sets segments boundaries).by_rally_id
        0
        1
        0
        []
        []
        (ordered_segments locale_compare segments)
        (map_values (project_canonical_match locale_compare sets segments boundaries).segment_by_id)
unfolding project_canonical_match walk_of_match initial_walk
project_canonical_match-Ledger locale_compare sets segments boundaries =
    let ordered = ordered_segments locale_compare segments in
    let winners = (winners_of_match locale_compare sets segments boundaries).by_rally_id in
    let sides = (boundaries_of_match locale_compare sets segments boundaries).by_rally_id in
    rw
      (visit_segments-rows_from sides winners 0 initial_walk ordered
        (ordered_segments-Distinct locale_compare segments)
        (Fresh-nil CanonicalSegmentProjection ordered))
      (rows_from-Ledger sides winners 0 initial_walk [] [] ordered initial_walk-Counts.0
        initial_walk-Counts.1)
