-- ===== src/Media/Resolver/Span.antt =====
-- Proofs about validateSegments of packages/media/src/resolver.ts: the locations of a span.
use volleyball_monitoring_ai.Base.{
  ◌≡◌, List, [], ◌∷◌, Option, none, some, Result, ok, >>=-eq-ok, ok-injective, arith, Bool-cases,
  inl, inr, err-ne-ok, any,
}
use volleyball_monitoring_ai.Base.Text.{Text}
use volleyball_monitoring_ai.Base.Int.{ℤ, pos, ◌+ℤ◌, ◌<ℤ◌, eq_of_parts}
use volleyball_monitoring_ai.Media.Errors.{MediaError, ResolveErrorCode}
use volleyball_monitoring_ai.Media.SampleIndex.{IndexedSample}
use volleyball_monitoring_ai.Media.Resolver.Validation.{
  IndexedSegment, IndexedLocation, locate, check_successor, collides, visit_samples, visit_segments,
  check_segment, validate_segments,
}

abbrev pub frame_of : IndexedLocation → ℤ
frame_of location = location.sample.capture_frame_index

abbrev pub time_of : IndexedLocation → ℤ
time_of location = location.sample.capture_time_us

-- Each location follows the one before it, the first one the latest of `seen`.
abbrev pub Linked : List IndexedLocation → List IndexedLocation → Type 0
Linked seen [] = Unit
Linked [] (x ∷ xs) = Linked (x ∷ []) xs
Linked (p ∷ seen) (x ∷ xs) =
    (frame_of x ≡ frame_of p +ℤ pos 1) × (time_of p <ℤ time_of x) × Linked (x ∷ []) xs

Linked-latest :
    (p : IndexedLocation) (seen xs : List IndexedLocation)
    → Linked (p ∷ []) xs
    → Linked (p ∷ seen) xs
Linked-latest p seen [] h = tt
Linked-latest p seen (x ∷ xs) h = h

Linked-first :
    (p : IndexedLocation) (seen xs : List IndexedLocation)
    → Linked (p ∷ seen) xs
    → Linked (p ∷ []) xs
Linked-first p seen [] h = tt
Linked-first p seen (x ∷ xs) h = h

Linked-cons :
    (seen xs : List IndexedLocation) (x : IndexedLocation)
    → check_successor seen x ≡ ok tt
    → Linked (x ∷ seen) xs
    → Linked seen (x ∷ xs)
unfolding check_successor
Linked-cons [] xs x e h = Linked-first x [] xs h
Linked-cons (p ∷ seen) xs x e h = (
  ground (arith, eq_of_parts (frame_of x) (frame_of p +ℤ pos 1)),
  ground arith,
  Linked-first x (p ∷ seen) xs h,
)

visit_samples-Linked :
    (segment : IndexedSegment) (seen : List IndexedLocation) (samples : List IndexedSample)
    (rest : List IndexedLocation → Result MediaError (List IndexedLocation))
    (locations : List IndexedLocation)
    → ((later ls : List IndexedLocation) → rest later ≡ ok ls → Linked later ls)
    → visit_samples segment seen samples rest ≡ ok locations
    → Linked seen locations
unfolding visit_samples
visit_samples-Linked segment seen [] rest locations h e = h seen locations e
visit_samples-Linked segment seen (sample ∷ samples) rest locations h e =
    let location = locate segment sample in
    elim (Bool-cases (any (collides location) seen)) [
      | inl seen_before ↦ absurd (err-ne-ok (rw seen_before at e))
      | inr fresh ↦
          let (_, follows, e₁) = >>=-eq-ok (check_successor seen location) _ (rw fresh at e) in
          let (later, visited, e₂) =
            >>=-eq-ok (visit_samples segment (location ∷ seen) samples rest) _ e₁ in
          rw (← ok-injective e₂) (
            Linked-cons seen later location follows
              (visit_samples-Linked segment (location ∷ seen) samples rest later h visited))
    ]

visit_segments-Linked :
    (code : ResolveErrorCode) (first : IndexedSegment) (ids : List Text)
    (previous : Option IndexedSegment) (segments : List IndexedSegment)
    (seen locations : List IndexedLocation)
    → visit_segments code first ids previous segments seen ≡ ok locations
    → Linked seen locations
unfolding visit_segments
visit_segments-Linked code first ids previous [] seen locations e = rw (← ok-injective e) tt
visit_segments-Linked code first ids previous (segment ∷ segments) seen locations e =
    let (_, _, visited) = >>=-eq-ok (check_segment code first ids previous segment) _ e in
    visit_samples-Linked segment seen segment.index.samples _ locations
      (λ later ls.
        visit_segments-Linked code first (segment.segment_id ∷ ids) (some segment) segments later
          ls)
      visited

-- In the locations of a validated span each frame index is the one before it plus one, and capture
-- times rise.
pub validate_segments-Linked :
    (segments : List IndexedSegment) (window_start_us window_end_us : ℤ) (code : ResolveErrorCode)
    (locations : List IndexedLocation)
    → validate_segments segments window_start_us window_end_us code ≡ ok locations
    → Linked [] locations
unfolding validate_segments
validate_segments-Linked [] ws we code locations e = absurd (err-ne-ok e)
validate_segments-Linked (first ∷ rest) ws we code locations e =
    visit_segments-Linked code first [] none (first ∷ rest) [] locations (ground arith)
