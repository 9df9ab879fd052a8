-- ===== src/Server/CanonicalMatch/Wins.antt =====
-- Proofs about the loop of server/src/services/canonical-match-projection.ts that places the won sets:
-- the set that it places at a rally is a won set of the input, and ends with that rally.
use mathlib.Core.List.{Mem, Perm}
use mathlib.Core.List.Perm
use mathlib.Core.List
use volleyball_monitoring_ai.Base.{
  ◌≡◌, refl, subst, true, List, [], ◌∷◌, Option, none, some, inl, inr, Bool-cases, Option-cases,
  All,
}
use mathlib.Core.Option.{some-injective}
use volleyball_monitoring_ai.Base.Text.{Text, text_eq, eq_of_text_eq}
use volleyball_monitoring_ai.Base.Int.{ℤ}
use volleyball_monitoring_ai.Base.Maps.{map_get, map_has, map_set-All}
use volleyball_monitoring_ai.Base.Sorting.{sort_by-Perm, sort_by}
use volleyball_monitoring_ai.Server.CanonicalMatch.{
  CanonicalMatchSetInput, CanonicalMatchSegmentInput, CanonicalCourtSideBoundaryInput, truthy,
}
use volleyball_monitoring_ai.Server.CanonicalMatch.Winners.{
  Winners, has_segment, add_winner, place_winner, collect_winners, winning_rally_of, by_set_number,
  ordered_segments,
}
use volleyball_monitoring_ai.Server.CanonicalMatch.Project.{winners_of_match, is_won, no_winners}

module _ (ordered : List CanonicalMatchSegmentInput) (sets : List CanonicalMatchSetInput) where
  -- The set input is one of the match, has a winning team, and the rally is the one that it ends with:
  -- the recorded one, or else the last one of its number.
  abbrev pub IsWonAt : Text → CanonicalMatchSetInput → Type 0
  IsWonAt rally set =
      Mem set sets × (is_won set ≡ true) × (truthy (winning_rally_of ordered set) ≡ some rally)

  abbrev AllWon : Winners → Type 0
  AllWon kept = All (λ entry. IsWonAt entry.0 entry.1) kept.by_rally_id

  pub map_get-IsWonAt :
      (rally : Text) (set : CanonicalMatchSetInput) (winners : List (Text × CanonicalMatchSetInput))
      → All (λ entry. IsWonAt entry.0 entry.1) winners
      → map_get rally winners ≡ some set
      → IsWonAt rally set
  unfolding map_get
  map_get-IsWonAt rally set [] h e = cc
  map_get-IsWonAt rally set ((key, other) ∷ winners) (won, h) e =
      elim (Bool-cases (text_eq key rally)) [
        | inl same ↦
            subst (λ w. IsWonAt rally w) (some-injective _ _ (rw same at e))
              (subst (λ r. IsWonAt r other) (eq_of_text_eq key rally same) won)
        | inr differs ↦ map_get-IsWonAt rally set winners h (rw differs at e)
      ]

  place_winner-AllWon :
      (set : CanonicalMatchSetInput) (rally : Option Text) (kept : Winners)
      → Mem set sets
      → is_won set ≡ true
      → truthy (winning_rally_of ordered set) ≡ rally
      → AllWon kept
      → AllWon (place_winner ordered set rally kept)
  unfolding place_winner
  place_winner-AllWon set none kept member won ends h = h
  place_winner-AllWon set (some rally) kept member won ends h =
      elim (Bool-cases (has_segment ordered rally)) [
        | inr missing ↦ rw missing h
        | inl there ↦ elim (Bool-cases (map_has rally kept.by_rally_id)) [
          | inl twice ↦ rw (there, twice) h
          | inr new ↦
              rw (there, new)
                (map_set-All (λ entry. IsWonAt entry.0 entry.1) rally set kept.by_rally_id
                  (member, won, ends) h)
        ]
      ]

  add_winner-AllWon :
      (set : CanonicalMatchSetInput) (kept : Winners)
      → Mem set sets
      → AllWon kept
      → AllWon (add_winner ordered set kept)
  unfolding add_winner is_won
  add_winner-AllWon set kept member h = elim (Option-cases (truthy set.winning_team_id)) [
    | inl lost ↦ rw (add_winner, lost) h
    | inr (team, won_by) ↦
        rw (add_winner, won_by)
          (place_winner-AllWon set (truthy (winning_rally_of ordered set)) kept member
            (rw (is_won, won_by) refl) refl h)
  ]

  collect_winners-AllWon :
      (kept : Winners) (more : List CanonicalMatchSetInput)
      → All (λ set. Mem set sets) more
      → AllWon kept
      → AllWon (collect_winners ordered kept more)
  unfolding collect_winners
  collect_winners-AllWon kept [] members h = h
  collect_winners-AllWon kept (set ∷ more) (member, members) h =
      collect_winners-AllWon (add_winner ordered set kept) more members
        (add_winner-AllWon set kept member h)

All-Mem {ℓ κ} : {A : Type ℓ} (P : A → Type κ) (xs : List A) → ((x : A) → Mem x xs → P x) → All P xs
All-Mem P [] f = tt
All-Mem P (x ∷ xs) f =
    (f x List.mem-cons_self, All-Mem P xs (λ y m. f y (List.mem-cons_of_mem x m)))

-- The set placed at a rally of the match is a won one of the input that ends with the rally.
pub winners_of_match-IsWonAt :
    (locale_compare : Text → Text → ℤ) (sets : List CanonicalMatchSetInput)
    (segments : List CanonicalMatchSegmentInput) (boundaries : List CanonicalCourtSideBoundaryInput)
    (rally : Text) (set : CanonicalMatchSetInput)
    → map_get rally (winners_of_match locale_compare sets segments boundaries).by_rally_id
      ≡ some set
    → IsWonAt (ordered_segments locale_compare segments) sets rally set
unfolding winners_of_match no_winners
winners_of_match-IsWonAt locale_compare sets segments boundaries rally set e =
    let ordered = ordered_segments locale_compare segments in
    map_get-IsWonAt ordered sets rally set _
      (collect_winners-AllWon ordered sets no_winners (sort_by by_set_number sets)
        (All-Mem (λ x. Mem x sets) (sort_by by_set_number sets)
          (λ x m. (Perm.mem_iff (sort_by-Perm by_set_number sets)).0 m))
        tt)
      e
