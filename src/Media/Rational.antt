-- ===== src/Media/Rational.antt =====
-- packages/media/src/sample-index.ts: time bases, and the conversion of source ticks to
-- microseconds.
pub mod Bounds
pub mod Rounding
mod Examples
use volleyball_monitoring_ai.Base.{ℕ, Bool, Result, ok, err, ◌>>=◌, ◌>>◌, throw_if, if◌then◌else◌}
use volleyball_monitoring_ai.Base.{◌||◌, ◌&&◌}
use volleyball_monitoring_ai.Base.Int.{
  ℤ, pos, negsuc, neg_ℤ, ◌+ℤ◌, ◌*ℤ◌, quot_ℤ, rem_ℤ, ltb_ℤ, leb_ℤ, eqb_ℤ,
}
use volleyball_monitoring_ai.Media.Errors.{MediaError, sample_index_error, plain_error}
use volleyball_monitoring_ai.Media.Errors.{invalid_time_base}

pub record Rational : Type 0 where
  pub num : ℤ
  pub den : ℤ

unfoldable pub same_time_base : Rational → Rational → Bool
same_time_base left right = eqb_ℤ left.num right.num && eqb_ℤ left.den right.den

-- `timeBase.num <= 0n || timeBase.den <= 0n`
abbrev pub is_bad_time_base : Rational → Bool
is_bad_time_base tb = leb_ℤ tb.num (pos 0) || leb_ℤ tb.den (pos 0)

unfoldable pub round_nearest_away : ℤ → ℤ → Result MediaError ℤ
unfolding neg_ℤ quot_ℤ rem_ℤ ◌+ℤ◌ ◌*ℤ◌
round_nearest_away numerator denominator = do
  throw_if (leb_ℤ denominator (pos 0)) plain_error
  let sign = if ltb_ℤ numerator (pos 0) then negsuc 0 else pos 1
  let absolute_value = if ltb_ℤ numerator (pos 0) then neg_ℤ numerator else numerator
  let quotient = quot_ℤ absolute_value denominator
  let remainder = rem_ℤ absolute_value denominator
  let carry = if leb_ℤ denominator (remainder *ℤ pos 2) then pos 1 else pos 0
  ok (sign *ℤ (quotient +ℤ carry))

unfoldable pub rescale_pts_to_us : ℤ → Rational → Result MediaError ℤ
rescale_pts_to_us delta_pts time_base = do
  throw_if (is_bad_time_base time_base) (sample_index_error invalid_time_base)
  round_nearest_away (delta_pts *ℤ time_base.num *ℤ pos 1000000) time_base.den
