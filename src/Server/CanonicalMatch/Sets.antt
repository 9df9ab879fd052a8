-- ===== src/Server/CanonicalMatch/Sets.antt =====
-- Proofs about server/src/services/canonical-match-projection.ts: how the sets divide the rallies.
use volleyball_monitoring_ai.Base.{
  ℕ, suc, ◌+◌, ◌≡◌, refl, sym, ap, subst, ◌∙◌, Bool, true, List, [], ◌∷◌, ◌++◌, map, Option, none,
  some, inl, inr, Bool-cases, not, ◌&&◌, length, arith,
}
use mathlib.Core.List.{append_assoc, append-nil}
use volleyball_monitoring_ai.Base.Text.{Text}
use volleyball_monitoring_ai.Base.Int.{ℤ}
use volleyball_monitoring_ai.Base.Maps.{map_get}
use volleyball_monitoring_ai.Server.CanonicalMatch.{
  CanonicalMatchSetInput, CanonicalMatchSegmentInput, CanonicalCourtSideBoundaryInput,
  CanonicalSetProjection,
}
use volleyball_monitoring_ai.Server.CanonicalMatch.Walk.{
  Walk, initial_walk, fresh_set, add_to_set, count_segment, projection_at, close_set, visit_segment,
  visit_segments, project_segment,
}
use volleyball_monitoring_ai.Server.CanonicalMatch.Winners.{ordered_segments}
use volleyball_monitoring_ai.Server.CanonicalMatch.Project.{
  project_canonical_match, winners_of_match, boundaries_of_match, walk_of_match, final_sets, is_nil,
  has_trailing_open_raw_set,
}
use volleyball_monitoring_ai.Server.CanonicalMatch.Wins.{IsWonAt, winners_of_match-IsWonAt}
use volleyball_monitoring_ai.Server.CanonicalMatch.Ordered.{id_of}

-- The rallies of the sets, one set behind the other.
abbrev pub rallies_of : List CanonicalSetProjection → List Text
rallies_of [] = []
rallies_of (set ∷ sets) = set.rally_ids ++ rallies_of sets

module _ (ordered : List CanonicalMatchSegmentInput) (inputs : List CanonicalMatchSetInput) where
  -- The last rally of the set is its winning one, and the set names a set input that is won with that
  -- rally, with its winning team.
  abbrev pub IsClosed : CanonicalSetProjection → Type 0
  IsClosed set =
      (earlier : List Text) × (rally : Text) × (winner : CanonicalMatchSetInput) × (set.rally_ids
        ≡ earlier ++ rally ∷ [])
      × (set.winning_rally_id ≡ some rally)
      × (set.winner_set_id ≡ some winner.id)
      × (set.winning_team_id ≡ winner.winning_team_id)
      × IsWonAt ordered inputs rally winner

  -- At least one set; they are numbered, and all but the last one are closed.
  abbrev pub SetsFrom : ℕ → List CanonicalSetProjection → Type 0
  SetsFrom n [] = ⊥
  SetsFrom n (set ∷ []) = set.set_number ≡ n
  SetsFrom n (set ∷ next ∷ sets) =
      (set.set_number ≡ n) × IsClosed set × SetsFrom (suc n) (next ∷ sets)

  abbrev ClosedFrom : ℕ → List CanonicalSetProjection → Type 0
  ClosedFrom n [] = Unit
  ClosedFrom n (set ∷ sets) = (set.set_number ≡ n) × IsClosed set × ClosedFrom (suc n) sets

rallies_of-append :
    (sets more : List CanonicalSetProjection)
    → rallies_of (sets ++ more) ≡ rallies_of sets ++ rallies_of more
rallies_of-append [] more = refl
rallies_of-append (set ∷ sets) more =
    rw (rallies_of-append sets more)
      (sym (append_assoc set.rally_ids (rallies_of sets) (rallies_of more)))

length-snoc :
    (sets : List CanonicalSetProjection) (set : CanonicalSetProjection)
    → length (sets ++ set ∷ []) ≡ suc (length sets)
length-snoc [] set = refl
length-snoc (first ∷ sets) set = ap suc (length-snoc sets set)

nil_of_is_nil : (ids : List Text) → is_nil ids ≡ true → ids ≡ []
unfolding is_nil
nil_of_is_nil [] e = refl
nil_of_is_nil (id ∷ ids) e = cc

module _ (ordered : List CanonicalMatchSegmentInput) (inputs : List CanonicalMatchSetInput) where
  ClosedFrom-append :
      (n : ℕ) (sets : List CanonicalSetProjection) (set : CanonicalSetProjection)
      → ClosedFrom ordered inputs n sets
      → set.set_number ≡ n + length sets
      → IsClosed ordered inputs set
      → ClosedFrom ordered inputs n (sets ++ set ∷ [])
  ClosedFrom-append n [] set h e closed = (omega arith, closed, tt)
  ClosedFrom-append n (first ∷ sets) set (number, first_closed, h) e closed =
      (number, first_closed, ClosedFrom-append (suc n) sets set h (omega arith) closed)

  SetsFrom-append :
      (n : ℕ) (sets : List CanonicalSetProjection) (set : CanonicalSetProjection)
      → ClosedFrom ordered inputs n sets
      → set.set_number ≡ n + length sets
      → SetsFrom ordered inputs n (sets ++ set ∷ [])
  SetsFrom-append n [] set h e = omega arith
  SetsFrom-append n (first ∷ []) set (number, closed, h) e = (number, closed, omega arith)
  SetsFrom-append n (first ∷ next ∷ sets) set (number, closed, h) e =
      (number, closed, SetsFrom-append (suc n) (next ∷ sets) set h (omega arith))

  SetsFrom-ClosedFrom :
      (n : ℕ) (set : CanonicalSetProjection) (sets : List CanonicalSetProjection)
      → ClosedFrom ordered inputs n (set ∷ sets)
      → SetsFrom ordered inputs n (set ∷ sets)
  SetsFrom-ClosedFrom n set [] h = h.0
  SetsFrom-ClosedFrom n set (next ∷ sets) (number, closed, h) =
      (number, closed, SetsFrom-ClosedFrom (suc n) next sets h)

  -- What the walk keeps: `ids` are the rallies that it has visited.
  record IsPartition (ids : List Text) (walk : Walk) : Type 0 where
    rallies : rallies_of walk.finished ++ walk.current_set.rally_ids ≡ ids
    closed : ClosedFrom ordered inputs 1 walk.finished
    number : walk.set_number ≡ suc (length walk.finished)
    current : walk.current_set.set_number ≡ walk.set_number

  close_set-IsPartition :
      (ids earlier : List Text) (rally : Text) (winner : Option CanonicalMatchSetInput)
      (walk : Walk)
      → ((set : CanonicalMatchSetInput) → winner ≡ some set → IsWonAt ordered inputs rally set)
      → IsPartition ids walk
      → walk.current_set.rally_ids ≡ earlier ++ rally ∷ []
      → IsPartition ids (close_set rally winner walk)
  unfolding close_set fresh_set
  close_set-IsPartition ids earlier rally none walk wins h e = h
  close_set-IsPartition ids earlier rally (some winner) walk wins h e =
      let ended = record walk.current_set {
        winner_set_id = some winner.id;
        winning_rally_id = some rally;
        winning_team_id = winner.winning_team_id;
      } in
      record {
        rallies =
            append-nil (rallies_of (walk.finished ++ ended ∷ []))
            ∙ rallies_of-append walk.finished (ended ∷ [])
            ∙ ap (λ tail. rallies_of walk.finished ++ tail) (append-nil walk.current_set.rally_ids)
            ∙ h.rallies;
        closed =
            ClosedFrom-append 1 walk.finished ended h.closed (h.current ∙ h.number ∙ omega arith)
              (earlier, rally, winner, e, refl, refl, refl, wins winner refl);
        number = ap suc h.number ∙ ap suc (sym (length-snoc walk.finished ended));
        current = refl;
      }

  module _ (boundaries : List (Text × CanonicalCourtSideBoundaryInput))
      (winners : List (Text × CanonicalMatchSetInput))
      (wins : (rally : Text) (set : CanonicalMatchSetInput)
        → map_get rally winners ≡ some set
        → IsWonAt ordered inputs rally set) where
    visit_segment-IsPartition :
        (global : ℕ) (ids : List Text) (walk : Walk) (segment : CanonicalMatchSegmentInput)
        → IsPartition ids walk
        → IsPartition
            (ids ++ segment.id ∷ [])
            (visit_segment boundaries winners global walk segment)
    unfolding visit_segment count_segment add_to_set projection_at project_segment
    visit_segment-IsPartition global ids walk segment h =
        close_set-IsPartition (ids ++ segment.id ∷ []) walk.current_set.rally_ids segment.id
          (map_get segment.id winners) _ (wins segment.id)
          (record {
            rallies =
                sym (
                  append_assoc (rallies_of walk.finished) walk.current_set.rally_ids
                    (segment.id ∷ []))
                ∙ ap (λ visited. visited ++ segment.id ∷ []) h.rallies;
            closed = h.closed;
            number = h.number;
            current = h.current;
          })
          refl

    visit_segments-IsPartition :
        (global : ℕ) (ids : List Text) (walk : Walk) (segments : List CanonicalMatchSegmentInput)
        → IsPartition ids walk
        → IsPartition
            (ids ++ map id_of segments)
            (visit_segments boundaries winners global walk segments)
    unfolding visit_segments
    visit_segments-IsPartition global ids walk [] h =
        subst (λ visited. IsPartition visited walk) (sym (append-nil ids)) h
    visit_segments-IsPartition global ids walk (segment ∷ segments) h =
        subst
          (λ visited. IsPartition visited (
            visit_segments boundaries winners (suc global)
              (visit_segment boundaries winners global walk segment) segments))
          (append_assoc ids (segment.id ∷ []) (map id_of segments))
          (visit_segments-IsPartition (suc global) (ids ++ segment.id ∷ [])
            (visit_segment boundaries winners global walk segment) segments
            (visit_segment-IsPartition global ids walk segment h))

  initial_walk-IsPartition : IsPartition [] initial_walk
  unfolding initial_walk fresh_set
  initial_walk-IsPartition = record { rallies = refl; closed = tt; number = refl; current = refl }

  kept_sets :
      (ids : List Text) (finished : List CanonicalSetProjection) (current : CanonicalSetProjection)
      → rallies_of finished ++ current.rally_ids ≡ ids
      → ClosedFrom ordered inputs 1 finished
      → current.set_number ≡ suc (length finished)
      → (rallies_of (finished ++ current ∷ []) ≡ ids)
        × SetsFrom ordered inputs 1 (finished ++ current ∷ [])
  kept_sets ids finished current rallies closed number = (
    rallies_of-append finished (current ∷ [])
        ∙ ap (λ tail. rallies_of finished ++ tail) (append-nil current.rally_ids)
        ∙ rallies,
    SetsFrom-append 1 finished current closed (omega arith),
  )

  -- A current set without rallies may be left out.
  final_sets-SetsFrom :
      (trailing : Bool) (ids : List Text) (finished : List CanonicalSetProjection)
      (current : CanonicalSetProjection)
      → rallies_of finished ++ current.rally_ids ≡ ids
      → ClosedFrom ordered inputs 1 finished
      → current.set_number ≡ suc (length finished)
      → (rallies_of (final_sets trailing finished current) ≡ ids)
        × SetsFrom ordered inputs 1 (final_sets trailing finished current)
  unfolding final_sets
  final_sets-SetsFrom trailing ids [] current rallies closed number =
      kept_sets ids [] current rallies closed number
  final_sets-SetsFrom trailing ids (set ∷ sets) current rallies closed number =
      elim (Bool-cases (is_nil current.rally_ids && not trailing)) [
        | inl dropped ↦
            let empty = nil_of_is_nil current.rally_ids (ground arith) in
            rw dropped (
              sym (append-nil (rallies_of (set ∷ sets)))
                  ∙ ap (λ tail. rallies_of (set ∷ sets) ++ tail) (sym empty)
                  ∙ rallies,
              SetsFrom-ClosedFrom 1 set sets closed,
            )
        | inr stays ↦ rw stays (kept_sets ids (set ∷ sets) current rallies closed number)
      ]

-- The sets of the projected match are at least one and are numbered from 1; the rallies of one set
-- behind the other are the ordered segments; and each set but the last one ends with its winning
-- rally, and names a set input of the match, with its winning team, that has a winning team and ends
-- with that rally: the recorded one, or else the last one of its number.
pub project_canonical_match-SetsFrom :
    (locale_compare : Text → Text → ℤ) (sets : List CanonicalMatchSetInput)
    (segments : List CanonicalMatchSegmentInput) (boundaries : List CanonicalCourtSideBoundaryInput)
    → let projection = project_canonical_match locale_compare sets segments boundaries in
      (rallies_of projection.sets ≡ projection.ordered_segment_ids)
      × SetsFrom (ordered_segments locale_compare segments) sets 1 projection.sets
unfolding project_canonical_match walk_of_match
project_canonical_match-SetsFrom locale_compare sets segments boundaries =
    let winners = (winners_of_match locale_compare sets segments boundaries).by_rally_id in
    let sides = (boundaries_of_match locale_compare sets segments boundaries).by_rally_id in
    let ordered = ordered_segments locale_compare segments in
    let wins = winners_of_match-IsWonAt locale_compare sets segments boundaries in
    let kept =
      visit_segments-IsPartition ordered sets sides winners wins 0 [] initial_walk ordered
        (initial_walk-IsPartition ordered sets) in
    let walk = visit_segments sides winners 0 initial_walk ordered in
    final_sets-SetsFrom ordered sets (has_trailing_open_raw_set sets) (map id_of ordered)
      walk.finished walk.current_set kept.rallies kept.closed (kept.current ∙ kept.number)
