-- ===== src/Media/Resolver/Nearest.antt =====
-- Proofs about the search of resolveCanonicalTimeAcrossSegments of packages/media/src/resolver.ts.
use volleyball_monitoring_ai.Base.{
  ℕ, ◌≡◌, refl, ◌≢◌, Bool, true, false, List, [], ◌∷◌, Option, none, some, arith, get_elem?, All,
  ◌⊎◌, inl, inr, Bool-cases,
}
use mathlib.Core.Option.{some-injective}
use volleyball_monitoring_ai.Base.Int.{ℤ, ◌≤ℤ◌, ◌<ℤ◌, eq_of_parts}
use volleyball_monitoring_ai.Media.Resolver.{
  Best, is_outside, distance, improves, consider, search_best,
}
use volleyball_monitoring_ai.Media.Resolver.Validation.{IndexedLocation}
use volleyball_monitoring_ai.Media.Resolver.Span.{time_of}

abbrev pub Member : IndexedLocation → List IndexedLocation → Type 0
Member l ls = (i : ℕ) × (get_elem? ls i ≡ some l)

improves-false :
    (b : Best) (distance_us time : ℤ)
    → improves (some b) distance_us time ≡ false
    → (b.distance_us <ℤ distance_us)
      ⊎ ((b.distance_us ≡ distance_us) × (time_of b.location ≤ℤ time))
unfolding improves
improves-false b distance_us time h = ground (arith, eq_of_parts b.distance_us distance_us)

improves-true :
    (b : Best) (distance_us time : ℤ)
    → improves (some b) distance_us time ≡ true
    → (distance_us <ℤ b.distance_us)
      ⊎ ((distance_us ≡ b.distance_us) × (time ≤ℤ time_of b.location))
unfolding improves
improves-true b distance_us time h = ground (arith, eq_of_parts b.distance_us distance_us)

module _ (target window_start_us window_end_us : ℤ) where
  abbrev outside : IndexedLocation → Bool
  outside l = is_outside window_start_us window_end_us (time_of l)

  -- The candidate is nearer than the location, or as near and not later.
  abbrev pub Beats : Best → IndexedLocation → Type 0
  Beats b l =
      (b.distance_us <ℤ distance target (time_of l))
      ⊎ ((b.distance_us ≡ distance target (time_of l)) × (time_of b.location ≤ℤ time_of l))

  abbrev pub NoCloser : Best → IndexedLocation → Type 0
  NoCloser b l = (outside l ≡ true) ⊎ Beats b l

  abbrev Good : Option Best → Type 0
  Good none = Unit
  Good (some b) =
      (b.distance_us ≡ distance target (time_of b.location)) × (outside b.location ≡ false)

  consider-Good :
      (best : Option Best) (l : IndexedLocation)
      → Good best
      → Good (consider target window_start_us window_end_us best l)
  unfolding consider
  consider-Good best l g = ground arith

  consider-IsSome :
      (c : Best) (l : IndexedLocation)
      → consider target window_start_us window_end_us (some c) l ≢ none
  unfolding consider
  consider-IsSome c l = ground arith

  abbrev Keeps : Option Best → Best → Type 0
  Keeps none b = Unit
  Keeps (some c) b = Beats b c.location

  abbrev NoneCloser : Option Best → IndexedLocation → Type 0
  NoneCloser none l = outside l ≡ true
  NoneCloser (some b) l = NoCloser b l

  consider-NoneCloser :
      (best : Option Best) (l : IndexedLocation)
      → Good best
      → NoneCloser (consider target window_start_us window_end_us best l) l
  unfolding consider
  consider-NoneCloser none l g = elim (Bool-cases (outside l)) [
    | inl out ↦ rw out out
    | inr inside ↦ rw inside (inr (inr (refl, omega arith)))
  ]
  consider-NoneCloser (some b) l g = elim (Bool-cases (outside l)) [
    | inl out ↦ rw out (inl out)
    | inr inside ↦ elim (Bool-cases (improves (some b) (distance target (time_of l)) (time_of l))) [
      | inl better ↦ rw (inside, better) (inr (inr (refl, omega arith)))
      | inr worse ↦ rw (inside, worse) (inr (improves-false b _ (time_of l) worse))
    ]
  ]

  consider-Keeps :
      (best : Option Best) (l : IndexedLocation) (b : Best)
      → Good best
      → consider target window_start_us window_end_us best l ≡ some b
      → Keeps best b
  unfolding consider
  consider-Keeps none l b g e = tt
  consider-Keeps (some c) l b g e = elim (Bool-cases (outside l)) [
    | inl out ↦ rw (← some-injective _ _ (rw out at e)) (inr (g.0, omega arith))
    | inr inside ↦ elim (Bool-cases (improves (some c) (distance target (time_of l)) (time_of l))) [
      | inl better ↦
          rw (← some-injective _ _ (rw (inside, better) at e))
            (rw g.0 at (improves-true c (distance target (time_of l)) (time_of l) better))
      | inr worse ↦ rw (← some-injective _ _ (rw (inside, worse) at e)) (inr (g.0, omega arith))
    ]
  ]

  Keeps-trans :
      (b c d : Best) → Good (some c) → Beats c d.location → Beats b c.location → Beats b d.location
  Keeps-trans b c d g h k = ground arith

  Keeps-NoCloser :
      (c : Option Best) (b : Best) (l : IndexedLocation)
      → Good c
      → NoneCloser c l
      → Keeps c b
      → NoCloser b l
  Keeps-NoCloser none b l g h k = inl h
  Keeps-NoCloser (some c) b l g h k = ground arith

  -- Whatever the search ends with is no worse than what it started with.
  search_best-Keeps :
      (best : Option Best) (ls : List IndexedLocation) (b : Best)
      → Good best
      → search_best target window_start_us window_end_us best ls ≡ some b
      → Keeps best b
  unfolding search_best
  search_best-Keeps none ls b g e = tt
  search_best-Keeps (some c) [] b g e = ground arith
  search_best-Keeps (some c) (l ∷ ls) b g e =
      onwards (consider target window_start_us window_end_us (some c) l)
        (consider-Good (some c) l g) (λ d. consider-Keeps (some c) l d g)
        (search_best-Keeps (consider target window_start_us window_end_us (some c) l) ls b
          (consider-Good (some c) l g) e)
        (consider-IsSome c l)
    where
      onwards :
          (o : Option Best)
          → Good o
          → ((d : Best) → o ≡ some d → Beats d c.location)
          → Keeps o b
          → o ≢ none
          → Beats b c.location
      onwards none g' p k some_left = absurd (some_left refl)
      onwards (some d) g' p k some_left = Keeps-trans b d c g' (p d refl) k

  pub search_best-NoCloser :
      (best : Option Best) (ls : List IndexedLocation) (b : Best)
      → Good best
      → search_best target window_start_us window_end_us best ls ≡ some b
      → All (NoCloser b) ls
  unfolding search_best
  search_best-NoCloser best [] b g e = tt
  search_best-NoCloser best (l ∷ ls) b g e =
      let next = consider target window_start_us window_end_us best l in
      let good = consider-Good best l g in
      (
        Keeps-NoCloser next b l good (consider-NoneCloser best l g)
            (search_best-Keeps next ls b good e),
        search_best-NoCloser next ls b good e,
      )

  pub search_best-Good :
      (best : Option Best) (ls : List IndexedLocation) (b : Best)
      → Good best
      → search_best target window_start_us window_end_us best ls ≡ some b
      → Good (some b)
  unfolding search_best
  search_best-Good best [] b g e = rw e at g
  search_best-Good best (l ∷ ls) b g e =
      search_best-Good (consider target window_start_us window_end_us best l) ls b
        (consider-Good best l g) e
