-- ===== src/Server/CanonicalMatch/Ordered.antt =====
-- Proofs about server/src/services/canonical-match-projection.ts: the ordered segments have
-- different identities, and the walk enters each segment at the end of its map.
use volleyball_monitoring_ai.Base.{◌≡◌, refl, ap, false, List, [], ◌∷◌, ◌++◌, All}
use volleyball_monitoring_ai.Base.Text.{Text, text_eq}
use volleyball_monitoring_ai.Base.Int.{ℤ}
use volleyball_monitoring_ai.Base.Maps.{map_set, map_values}
use volleyball_monitoring_ai.Base.Distinct.{
  Distinct, Keyed, map_set-Keyed, map_set-Distinct, sort_by-Distinct,
}
use volleyball_monitoring_ai.Server.CanonicalMatch.{CanonicalMatchSegmentInput, compare_segments}
use volleyball_monitoring_ai.Server.CanonicalMatch.Winners.{segment_by_input_id, ordered_segments}

abbrev pub id_of : CanonicalMatchSegmentInput → Text
id_of segment = segment.id

segment_by_input_id-Distinct :
    (entries : List (Text × CanonicalMatchSegmentInput))
    (segments : List CanonicalMatchSegmentInput)
    → Keyed id_of entries
    → Distinct id_of (map_values entries)
    → Distinct id_of (map_values (segment_by_input_id entries segments))
unfolding segment_by_input_id
segment_by_input_id-Distinct entries [] h d = d
segment_by_input_id-Distinct entries (segment ∷ segments) h d =
    segment_by_input_id-Distinct (map_set segment.id segment entries) segments
      (map_set-Keyed id_of segment entries h) (map_set-Distinct id_of segment entries h d)

pub ordered_segments-Distinct :
    (locale_compare : Text → Text → ℤ) (segments : List CanonicalMatchSegmentInput)
    → Distinct id_of (ordered_segments locale_compare segments)
unfolding ordered_segments
ordered_segments-Distinct locale_compare segments =
    sort_by-Distinct id_of (compare_segments locale_compare)
      (map_values (segment_by_input_id [] segments))
      (segment_by_input_id-Distinct [] segments tt tt)

module _ {V : Type 0} where
  -- The key is not among those of the entries.
  abbrev pub Absent : Text → List (Text × V) → Type 0
  Absent key = All (λ entry. text_eq entry.0 key ≡ false)

  pub map_set-Absent :
      (key : Text) (value : V) (entries : List (Text × V))
      → Absent key entries
      → map_set key value entries ≡ entries ++ (key, value) ∷ []
  unfolding map_set
  map_set-Absent key value [] h = refl
  map_set-Absent key value ((other, old) ∷ entries) (p, h) =
      rw p (ap (◌∷◌ (other, old)) (map_set-Absent key value entries h))

  Absent-append :
      (key other : Text) (value : V) (entries : List (Text × V))
      → text_eq other key ≡ false
      → Absent key entries
      → Absent key (entries ++ (other, value) ∷ [])
  Absent-append key other value [] p h = (p, tt)
  Absent-append key other value ((k, old) ∷ entries) p (q, h) =
      (q, Absent-append key other value entries p h)

  -- None of the segments is entered yet.
  abbrev pub Fresh : List (Text × V) → List CanonicalMatchSegmentInput → Type 0
  Fresh entries = All (λ segment. Absent segment.id entries)

  pub Fresh-append :
      (id : Text) (value : V) (entries : List (Text × V))
      (segments : List CanonicalMatchSegmentInput)
      → All (λ segment. text_eq id segment.id ≡ false) segments
      → Fresh entries segments
      → Fresh (entries ++ (id, value) ∷ []) segments
  Fresh-append id value entries [] p h = tt
  Fresh-append id value entries (segment ∷ segments) (p, ps) (h, hs) =
      (Absent-append segment.id id value entries p h, Fresh-append id value entries segments ps hs)

pub Fresh-nil :
    (V : Type 0) (segments : List CanonicalMatchSegmentInput) → Fresh {V = V} [] segments
Fresh-nil V [] = tt
Fresh-nil V (segment ∷ segments) = (tt, Fresh-nil V segments)
