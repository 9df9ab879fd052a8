-- ===== src/Media/Resolver/Resolution.antt =====
-- Proofs about the answers of resolveCanonicalTimeAcrossSegments.
use mathlib.Core.List.{Memᴰ}
use volleyball_monitoring_ai.Base.{
  ◌≡◌, refl, sym, ◌∙◌, true, false, List, [], ◌∷◌, Option, none, some, ok, err, All, ◌⊎◌, inl, inr,
  Bool-cases, Option-cases, arith, ap, ◌≢◌,
}
use mathlib.Core.Option.{some-injective}
use volleyball_monitoring_ai.Base.Int.{ℤ}
use volleyball_monitoring_ai.Media.Errors.{resolver_error, sample_not_found, invalid_segment_set}
use volleyball_monitoring_ai.Media.Resolver.{
  Best, is_outside, distance, improves, consider, search_best, resolved, found,
  resolve_canonical_time_across_segments,
}
use volleyball_monitoring_ai.Media.Resolver.Validation.{
  IndexedSegment, IndexedLocation, validate_segments,
}
use volleyball_monitoring_ai.Media.Resolver.Span.{time_of}
use volleyball_monitoring_ai.Media.Resolver.Nearest.{
  NoCloser, search_best-NoCloser, search_best-Good,
}

none-ne-some {ℓ} : {A : Type ℓ} {a : A} → ◌≢◌ {A = Option A} none (some a)
none-ne-some h = cc

module _ (target window_start_us window_end_us : ℤ) where
  abbrev pub Outside : IndexedLocation → Type 0
  Outside l = is_outside window_start_us window_end_us (time_of l) ≡ true

  -- The location is a sample of the span inside the window. No sample of the window is nearer to
  -- the target, and none that is as near is earlier.
  pub record IsNearest (locations : List IndexedLocation) (b : Best) : Type 0 where
    pub is_member : Memᴰ b.location locations
    pub is_inside : is_outside window_start_us window_end_us (time_of b.location) ≡ false
    pub is_distance : b.distance_us ≡ distance target (time_of b.location)
    pub is_least : All (NoCloser target window_start_us window_end_us b) locations

  consider-cases :
      (best : Option Best) (l : IndexedLocation)
      → (consider target window_start_us window_end_us best l ≡ best)
        ⊎ (consider target window_start_us window_end_us best l
            ≡ some (record { location = l; distance_us = distance target (time_of l) }))
  unfolding consider
  consider-cases best l = ground arith

  search_best-Memᴰ :
      (best : Option Best) (ls : List IndexedLocation) (b : Best)
      → search_best target window_start_us window_end_us best ls ≡ some b
      → (best ≡ some b) ⊎ Memᴰ b.location ls
  unfolding search_best
  search_best-Memᴰ best [] b e = inl e
  search_best-Memᴰ best (l ∷ ls) b e =
      let next = consider target window_start_us window_end_us best l in
      elim (search_best-Memᴰ next ls b e) [
        | inr later ↦ inr (Memᴰ.tail later)
        | inl now ↦ elim (consider-cases best l) [
          | inl kept ↦ inl (sym kept ∙ now)
          | inr taken ↦
              inr (Memᴰ.head (ap (λ (c : Best). c.location) (some-injective _ _ (sym now ∙ taken))))
        ]
      ]

  -- A search never gives a candidate up.
  search_best-IsSome :
      (ls : List IndexedLocation) (c : Best)
      → search_best target window_start_us window_end_us (some c) ls ≢ none
  unfolding search_best
  search_best-IsSome [] c = ground arith
  search_best-IsSome (l ∷ ls) c = elim (consider-cases (some c) l) [
    | inl kept ↦ rw kept (search_best-IsSome ls c)
    | inr taken ↦ rw taken (search_best-IsSome ls _)
  ]

  search_best-none :
      (ls : List IndexedLocation)
      → search_best target window_start_us window_end_us none ls ≡ none
      → All Outside ls
  unfolding search_best consider improves
  search_best-none [] e = tt
  search_best-none (l ∷ ls) e =
      elim (Bool-cases (is_outside window_start_us window_end_us (time_of l))) [
        | inl out ↦ (out, search_best-none ls (rw out at e))
        | inr inside ↦ absurd (search_best-IsSome ls _ (rw inside at e))
      ]

-- On a span that validates, with the target in the window: the answer is a sample of the window
-- that is nearest to the target, the earliest of those at that distance, and its distance; the
-- error `sample_not_found` is returned only when no sample of the span lies in the window.
pub resolve_canonical_time_across_segments-IsNearest :
    (segments : List IndexedSegment) (target window_start_us window_end_us : ℤ)
    (locations : List IndexedLocation)
    → validate_segments segments window_start_us window_end_us invalid_segment_set ≡ ok locations
    → is_outside window_start_us window_end_us target ≡ false
    → ((b : Best) × (resolve_canonical_time_across_segments segments target window_start_us
            window_end_us
          ≡ ok (resolved b))
        × IsNearest target window_start_us window_end_us locations b)
      ⊎ ((resolve_canonical_time_across_segments segments target window_start_us window_end_us
            ≡ err (resolver_error sample_not_found))
          × All (Outside target window_start_us window_end_us) locations)
unfolding resolve_canonical_time_across_segments found
resolve_canonical_time_across_segments-IsNearest segments target ws we locations valid inside =
    elim (Option-cases (search_best target ws we none locations)) [
      | inl missed ↦
          inr (rw (valid, inside, missed) refl, search_best-none target ws we locations missed)
      | inr (b, found_best) ↦
          let (is_distance, is_inside) =
            search_best-Good target ws we none locations b tt found_best in
          let nearest : IsNearest target ws we locations b = record {
            is_member = elim (search_best-Memᴰ target ws we none locations b found_best) [
              | inl e ↦ absurd (none-ne-some e)
              | inr m ↦ m
            ];
            is_inside = is_inside;
            is_distance = is_distance;
            is_least = search_best-NoCloser target ws we none locations b tt found_best;
          } in
          inl (b, rw (valid, inside, found_best) refl, nearest)
    ]
