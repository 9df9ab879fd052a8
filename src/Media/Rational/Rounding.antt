-- ===== src/Media/Rational/Rounding.antt =====
-- Proofs about rescalePtsToUs of packages/media/src/sample-index.ts.
use volleyball_monitoring_ai.Base.{◌≡◌, sym, ◌∙◌, false, ok, ok-injective}
use volleyball_monitoring_ai.Base.Int.{ℤ, pos, ◌+ℤ◌, ◌*ℤ◌, ◌≤ℤ◌}
use volleyball_monitoring_ai.Media.Rational.{Rational, is_bad_time_base, rescale_pts_to_us}
use volleyball_monitoring_ai.Media.Rational.Bounds.{
  us_value, us_value_error, us_value_mono, rescale_pts_to_us_lem, is_bad_time_base-IsPositive,
}

-- `value` is a nearest integer to `exact / den`.
abbrev pub IsNearestQuotient : ℤ → ℤ → ℤ → Type 0
IsNearestQuotient value exact den =
    (value *ℤ den *ℤ pos 2 ≤ℤ exact *ℤ pos 2 +ℤ den)
    × (exact *ℤ pos 2 ≤ℤ value *ℤ den *ℤ pos 2 +ℤ den)

-- On a time base with positive parts the conversion succeeds, for any ticks, with an integer that is
-- nearest to the exact number of microseconds.
pub rescale_pts_to_us-IsNearestQuotient :
    (delta : ℤ) (tb : Rational)
    → is_bad_time_base tb ≡ false
    → (value : ℤ) × (rescale_pts_to_us delta tb ≡ ok value)
      × IsNearestQuotient value (delta *ℤ tb.num *ℤ pos 1000000) tb.den
rescale_pts_to_us-IsNearestQuotient delta tb h =
    let p = is_bad_time_base-IsPositive tb h in
    (us_value delta tb, rescale_pts_to_us_lem delta tb p, us_value_error delta tb p)

-- On a time base with positive parts the conversion preserves the order of the ticks.
pub rescale_pts_to_us_mono :
    (a b : ℤ) (tb : Rational) (v w : ℤ)
    → is_bad_time_base tb ≡ false
    → a ≤ℤ b
    → rescale_pts_to_us a tb ≡ ok v
    → rescale_pts_to_us b tb ≡ ok w
    → v ≤ℤ w
rescale_pts_to_us_mono a b tb v w h k ea eb =
    let p = is_bad_time_base-IsPositive tb h in
    rw
      (
        ← ok-injective (sym (rescale_pts_to_us_lem a tb p) ∙ ea),
        ← ok-injective (sym (rescale_pts_to_us_lem b tb p) ∙ eb),
      )
      (us_value_mono a b tb p k)
