-- ===== src/Server/CanonicalMatch/Placing.antt =====
-- Proofs about the loops of server/src/services/canonical-match-projection.ts that place the won sets
-- at the rallies.
use volleyball_monitoring_ai.Base.{
  ℕ, suc, ◌+◌, ◌≡◌, refl, ◌∙◌, Bool, true, false, List, [], ◌∷◌, Option, none, some, inl, inr,
  Bool-cases, Option-cases, if◌then◌else◌, length, length-append, arith,
}
use volleyball_monitoring_ai.Base.Text.{Text, text_eq, text_eq_iff}
use volleyball_monitoring_ai.Base.Int.{ℤ, pos, leb_ℤ}
use volleyball_monitoring_ai.Base.Maps.{map_has, map_set}
use volleyball_monitoring_ai.Base.Sorting.{insert_by, sort_by}
use volleyball_monitoring_ai.Base.Distinct.{text_eq_sym}
use volleyball_monitoring_ai.Server.CanonicalMatch.{
  CanonicalMatchSetInput, CanonicalMatchSegmentInput, truthy,
}
use volleyball_monitoring_ai.Server.CanonicalMatch.Winners.{
  Winners, has_segment, add_winner, place_winner, collect_winners, winning_rally_of,
}
use volleyball_monitoring_ai.Server.CanonicalMatch.Project.{is_won}

module _ {A : Type 0} (test : A → Bool) where
  -- How many elements pass the test.
  abbrev pub count : List A → ℕ
  count [] = 0
  count (x ∷ xs) = (if test x then 1 else 0) + count xs

  module _ (compare : A → A → ℤ) where
    count-insert_by : (x : A) (xs : List A) → count (insert_by compare x xs) ≡ count (x ∷ xs)
    unfolding insert_by
    count-insert_by x [] = refl
    count-insert_by x (y ∷ ys) = elim (Bool-cases (leb_ℤ (compare x y) (pos 0))) [
      | inl first ↦ rw first refl
      | inr behind ↦ rw behind (omega (arith, count-insert_by x ys))
    ]

    pub count-sort_by : (xs : List A) → count (sort_by compare xs) ≡ count xs
    unfolding sort_by
    count-sort_by [] = refl
    count-sort_by (x ∷ xs) = omega (arith, count-insert_by x (sort_by compare xs), count-sort_by xs)

-- What the loop over the sets keeps: the placed rallies are different segments of the match.
abbrev pub PlacedIn :
    List CanonicalMatchSegmentInput → List (Text × CanonicalMatchSetInput) → Type 0
PlacedIn ordered [] = Unit
PlacedIn ordered ((rally, set) ∷ winners) =
    (has_segment ordered rally ≡ true) × (map_has rally winners ≡ false) × PlacedIn ordered winners

map_set_new :
    (rally : Text) (set : CanonicalMatchSetInput) (winners : List (Text × CanonicalMatchSetInput))
    → map_has rally winners ≡ false
    → length (map_set rally set winners) ≡ suc (length winners)
unfolding map_set map_has
map_set_new rally set [] h = refl
map_set_new rally set ((key, old) ∷ winners) h = ground (arith, map_set_new rally set winners)

map_has-map_set_ne :
    (key rally : Text) (set : CanonicalMatchSetInput)
    (winners : List (Text × CanonicalMatchSetInput))
    → text_eq rally key ≡ false
    → map_has key (map_set rally set winners) ≡ map_has key winners
unfolding map_set map_has
map_has-map_set_ne key rally set [] h = rw h refl
map_has-map_set_ne key rally set ((other, old) ∷ winners) h = ground (
  arith,
  map_has-map_set_ne key rally set winners h,
  text_eq_iff other rally,
  text_eq_iff other key,
  text_eq_iff rally key,
)

map_set-PlacedIn :
    (ordered : List CanonicalMatchSegmentInput) (rally : Text) (set : CanonicalMatchSetInput)
    (winners : List (Text × CanonicalMatchSetInput))
    → has_segment ordered rally ≡ true
    → map_has rally winners ≡ false
    → PlacedIn ordered winners
    → PlacedIn ordered (map_set rally set winners)
unfolding map_set map_has
map_set-PlacedIn ordered rally set [] there h k = (there, refl, tt)
map_set-PlacedIn ordered rally set ((key, old) ∷ winners) there h (p, q, k) =
    let differs : text_eq key rally ≡ false = ground arith in
    let absent : map_has rally winners ≡ false = ground arith in
    rw differs (
      p,
      map_has-map_set_ne key rally set winners (text_eq_sym rally key ∙ differs) ∙ q,
      map_set-PlacedIn ordered rally set winners there absent k,
    )

pub record Placed (ordered : List CanonicalMatchSegmentInput) (won : ℕ) (kept : Winners)
    : Type 0 where
  pub placed : PlacedIn ordered kept.by_rally_id
  pub total :
      length kept.by_rally_id + length kept.orphan_set_ids + length kept.duplicate_rally_ids ≡ won

place_winner-Placed :
    (ordered : List CanonicalMatchSegmentInput) (won : ℕ) (set : CanonicalMatchSetInput)
    (rally : Option Text) (kept : Winners)
    → Placed ordered won kept
    → Placed ordered (won + 1) (place_winner ordered set rally kept)
unfolding place_winner
place_winner-Placed ordered won set none kept h = record {
  placed = h.placed;
  total = omega (arith, length-append kept.orphan_set_ids (set.id ∷ []), h.total);
}
place_winner-Placed ordered won set (some rally) kept h =
    elim (Bool-cases (has_segment ordered rally)) [
      | inr missing ↦ rw missing (record {
        placed = h.placed;
        total = omega (arith, length-append kept.orphan_set_ids (set.id ∷ []), h.total);
      })
      | inl there ↦ elim (Bool-cases (map_has rally kept.by_rally_id)) [
        | inl twice ↦
            rw (there, twice)
              (record {
                placed = h.placed;
                total = omega (arith, length-append kept.duplicate_rally_ids (rally ∷ []), h.total);
              })
        | inr new ↦
            rw (there, new)
              (record {
                placed = map_set-PlacedIn ordered rally set kept.by_rally_id there new h.placed;
                total = omega (arith, map_set_new rally set kept.by_rally_id new, h.total);
              })
      ]
    ]

add_winner-Placed :
    (ordered : List CanonicalMatchSegmentInput) (won : ℕ) (set : CanonicalMatchSetInput)
    (kept : Winners)
    → Placed ordered won kept
    → Placed ordered (won + (if is_won set then 1 else 0)) (add_winner ordered set kept)
unfolding add_winner is_won
add_winner-Placed ordered won set kept h = elim (Option-cases (truthy set.winning_team_id)) [
  | inl lost ↦
      rw (lost, add_winner, is_won) (record { placed = h.placed; total = omega (arith, h.total) })
  | inr (team, won_by) ↦
      rw (won_by, add_winner, is_won)
        (place_winner-Placed ordered won set (truthy (winning_rally_of ordered set)) kept h)
]

pub collect_winners-Placed :
    (ordered : List CanonicalMatchSegmentInput) (won : ℕ) (kept : Winners)
    (sets : List CanonicalMatchSetInput)
    → Placed ordered won kept
    → Placed ordered (won + count is_won sets) (collect_winners ordered kept sets)
unfolding collect_winners
collect_winners-Placed ordered won kept [] h = record {
  placed = h.placed;
  total = omega (arith, h.total);
}
collect_winners-Placed ordered won kept (set ∷ sets) h =
    let later =
      collect_winners-Placed ordered (won + (if is_won set then 1 else 0))
        (add_winner ordered set kept) sets (add_winner-Placed ordered won set kept h) in
    record { placed = later.placed; total = omega (arith, later.total) }
