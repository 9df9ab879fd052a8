-- ===== src/Media/Rational/Examples.antt =====
-- Ticks of a third of a microsecond.
use volleyball_monitoring_ai.Base.Int.{neg_part, pos_part}
use volleyball_monitoring_ai.Media.Rational.{round_nearest_away}
use volleyball_monitoring_ai.Base.Int.{neg_part, pos_part}
use volleyball_monitoring_ai.Media.Rational.{round_nearest_away}
use volleyball_monitoring_ai.Base.Int.{neg_part, pos_part}
use volleyball_monitoring_ai.Base.{◌≡◌, refl, ok, arith}
use volleyball_monitoring_ai.Base.Int.{ℤ, pos, negsuc, ◌*ℤ◌, ◌≤ℤ◌}
use volleyball_monitoring_ai.Media.Rational.{Rational, rescale_pts_to_us}
use volleyball_monitoring_ai.Media.Rational.Rounding.{
  IsNearestQuotient, rescale_pts_to_us-IsNearestQuotient, rescale_pts_to_us_mono,
}

abbrev thirds : Rational
thirds = record { num = pos 1; den = pos 3000000 }

rounding_example :
    (value : ℤ) × (rescale_pts_to_us (negsuc 3) thirds ≡ ok value)
    × IsNearestQuotient value (negsuc 3 *ℤ thirds.num *ℤ pos 1000000) thirds.den
unfolding pos_part neg_part
rounding_example = rescale_pts_to_us-IsNearestQuotient (negsuc 3) thirds refl

four_thirds : rescale_pts_to_us (negsuc 3) thirds ≡ ok (negsuc 0)
unfolding rescale_pts_to_us pos_part neg_part round_nearest_away
four_thirds = refl

five_thirds : rescale_pts_to_us (pos 5) thirds ≡ ok (pos 2)
unfolding rescale_pts_to_us pos_part neg_part round_nearest_away
five_thirds = refl

order_example : negsuc 0 ≤ℤ pos 2
unfolding pos_part neg_part
order_example =
    rescale_pts_to_us_mono (negsuc 3) (pos 5) thirds (negsuc 0) (pos 2) refl (omega arith)
      four_thirds five_thirds
