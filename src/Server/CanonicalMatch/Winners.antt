-- ===== src/Server/CanonicalMatch/Winners.antt =====
-- server/src/services/canonical-match-projection.ts: which rally ends which set, and which rally
-- changes the court sides.
use volleyball_monitoring_ai.Base.{
  Bool, List, [], ◌∷◌, ◌++◌, Option, none, some, keep, last_of, not, any, if◌then◌else◌,
}
use volleyball_monitoring_ai.Base.Text.{Text, text_eq}
use volleyball_monitoring_ai.Base.Int.{ℤ, ◌-ℤ◌, eqb_ℤ}
use volleyball_monitoring_ai.Base.Maps.{map_has, map_set, map_values}
use volleyball_monitoring_ai.Base.Sorting.{sort_by}
use volleyball_monitoring_ai.Server.CanonicalMatch.{
  CanonicalMatchSetInput, CanonicalMatchSegmentInput, CanonicalCourtSideBoundaryInput, truthy,
  compare_segments,
}

-- The loop that fills `segmentByInputId`.
unfoldable pub segment_by_input_id :
    List (Text × CanonicalMatchSegmentInput)
    → List CanonicalMatchSegmentInput
    → List (Text × CanonicalMatchSegmentInput)
unfolding map_set
segment_by_input_id entries [] = entries
segment_by_input_id entries (segment ∷ segments) =
    segment_by_input_id (map_set segment.id segment entries) segments

unfoldable pub ordered_segments :
    (Text → Text → ℤ) → List CanonicalMatchSegmentInput → List CanonicalMatchSegmentInput
unfolding segment_by_input_id compare_segments sort_by
ordered_segments locale_compare segments =
    sort_by (compare_segments locale_compare) (map_values (segment_by_input_id [] segments))

-- `orderedIndexById.has(id)`
unfoldable pub has_segment : List CanonicalMatchSegmentInput → Text → Bool
has_segment ordered id = any (λ segment. text_eq segment.id id) ordered

pub record Boundaries : Type 0 where
  pub by_rally_id : List (Text × CanonicalCourtSideBoundaryInput)
  pub orphan_ids : List Text
  pub duplicate_rally_ids : List Text

unfoldable pub add_boundary :
    List CanonicalMatchSegmentInput → CanonicalCourtSideBoundaryInput → Boundaries → Boundaries
unfolding has_segment map_has map_set
add_boundary ordered boundary kept =
    if not (has_segment ordered boundary.effective_rally_id)
    then (record kept { orphan_ids = kept.orphan_ids ++ boundary.id ∷ [] })
    else if map_has boundary.effective_rally_id kept.by_rally_id
    then (record kept {
      duplicate_rally_ids = kept.duplicate_rally_ids ++ boundary.effective_rally_id ∷ [];
    })
    else (record kept {
      by_rally_id = map_set boundary.effective_rally_id boundary kept.by_rally_id;
    })

-- The loop over the boundaries.
unfoldable pub collect_boundaries :
    List CanonicalMatchSegmentInput → Boundaries → List CanonicalCourtSideBoundaryInput → Boundaries
unfolding add_boundary
collect_boundaries ordered kept [] = kept
collect_boundaries ordered kept (boundary ∷ boundaries) =
    collect_boundaries ordered (add_boundary ordered boundary kept) boundaries

pub record Winners : Type 0 where
  pub by_rally_id : List (Text × CanonicalMatchSetInput)
  pub orphan_set_ids : List Text
  pub duplicate_rally_ids : List Text

last_id : List CanonicalMatchSegmentInput → Option Text
last_id [] = none
last_id (segment ∷ segments) = some (last_of segment segments).id

-- The rally that a won set ends with: the recorded one, or the last one of the set's number.
unfoldable pub winning_rally_of :
    List CanonicalMatchSegmentInput → CanonicalMatchSetInput → Option Text
unfolding last_id
winning_rally_of ordered set = elim (truthy set.winning_rally_id) [
  | some id ↦ some id
  | none ↦ last_id (keep (λ segment. eqb_ℤ segment.raw_set_number set.set_number) ordered)
]

unfoldable pub place_winner :
    List CanonicalMatchSegmentInput → CanonicalMatchSetInput → Option Text → Winners → Winners
unfolding has_segment map_has map_set
place_winner ordered set none kept = record kept {
  orphan_set_ids = kept.orphan_set_ids ++ set.id ∷ [];
}
place_winner ordered set (some rally) kept =
    if not (has_segment ordered rally)
    then (record kept { orphan_set_ids = kept.orphan_set_ids ++ set.id ∷ [] })
    else if map_has rally kept.by_rally_id
    then (record kept { duplicate_rally_ids = kept.duplicate_rally_ids ++ rally ∷ [] })
    else (record kept { by_rally_id = map_set rally set kept.by_rally_id })

-- The body of the loop over the sets.
unfoldable pub add_winner :
    List CanonicalMatchSegmentInput → CanonicalMatchSetInput → Winners → Winners
unfolding place_winner winning_rally_of
add_winner ordered set kept = elim (truthy set.winning_team_id) [
  | none ↦ kept
  | some _ ↦ place_winner ordered set (truthy (winning_rally_of ordered set)) kept
]

unfoldable pub collect_winners :
    List CanonicalMatchSegmentInput → Winners → List CanonicalMatchSetInput → Winners
unfolding add_winner
collect_winners ordered kept [] = kept
collect_winners ordered kept (set ∷ sets) =
    collect_winners ordered (add_winner ordered set kept) sets

unfoldable pub by_set_number : CanonicalMatchSetInput → CanonicalMatchSetInput → ℤ
by_set_number left right = left.set_number -ℤ right.set_number
