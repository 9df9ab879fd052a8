-- ===== src/Media/Rational/Bounds.antt =====
-- Arithmetic of roundNearestAway and rescalePtsToUs of packages/media/src/sample-index.ts.
use volleyball_monitoring_ai.Base.{
  ℕ, suc, ◌+◌, ◌*◌, ◌/◌, ◌%◌, ◌≤◌, ◌<◌, ◌≡◌, ap, false, ok, arith, leb, if◌then◌else◌,
}
use volleyball_monitoring_ai.Base.Int.{
  ℤ, pos, negsuc, sub_ℕ, ◌*ℤ◌, ◌+ℤ◌, ◌≤ℤ◌, pos_part, neg_part, +ℤ_parts, *ℤ_parts, pos_of_nonneg,
  parts_of_pos, pos_part-pos, neg_part-pos,
}
use volleyball_monitoring_ai.Media.Rational.{
  Rational, is_bad_time_base, round_nearest_away, rescale_pts_to_us,
}
use native.Mathlib.Nat.{div-add-mod, mod-lt, lt_of_mul-lt-mul_right, mul-le-mul_right}

-- Rounding to nearest on numbers, a half upwards.
round_half : ℕ → ℕ → ℕ
round_half n d = n / d + (if leb d (n % d * 2) then 1 else 0)

round_half_lower : (n d : ℕ) → 0 < d → round_half n d * d * 2 ≤ n * 2 + d
unfolding round_half
round_half_lower n d h = ground (arith, div-add-mod n d, mod-lt n h)

round_half_upper : (n d : ℕ) → 0 < d → n * 2 + d < (round_half n d + 1) * d * 2
unfolding round_half
round_half_upper n d h = ground (arith, div-add-mod n d, mod-lt n h)

round_half_mono : (n m d : ℕ) → 0 < d → n ≤ m → round_half n d ≤ round_half m d
round_half_mono n m d h k = omega (arith, below)
  where
    below : round_half n d < round_half m d + 1
    below =
        lt_of_mul-lt-mul_right (d * 2)
          (omega (arith, round_half_lower n d h, round_half_upper m d h))

round_half_zero : (d : ℕ) → 0 < d → round_half 0 d ≡ 0
unfolding round_half
round_half_zero d h = ground (arith, div-add-mod 0 d, mod-lt 0 h)

signed_round : ℤ → ℕ → ℤ
signed_round (pos n) d = pos (round_half n d)
signed_round (negsuc n) d = sub_ℕ 0 (round_half (suc n) d)

round_nearest_away-signed_round :
    (n : ℤ) (d : ℕ) → 0 < d → round_nearest_away n (pos d) ≡ ok (signed_round n d)
unfolding round_nearest_away signed_round round_half pos_part neg_part
round_nearest_away-signed_round (pos n) d h = ground arith
round_nearest_away-signed_round (negsuc n) d h = ground arith

signed_round_mono : (m n : ℤ) (d : ℕ) → 0 < d → m ≤ℤ n → signed_round m d ≤ℤ signed_round n d
unfolding signed_round pos_part neg_part
signed_round_mono (pos m) (pos n) d h k = ground (arith, round_half_mono m n d h)
signed_round_mono (pos m) (negsuc n) d h k = ground arith
signed_round_mono (negsuc m) (pos n) d h k = ground arith
signed_round_mono (negsuc m) (negsuc n) d h k = ground (arith, round_half_mono (suc n) (suc m) d h)

-- The value of the conversion at a positive time base.
pub us_value : ℤ → Rational → ℤ
us_value delta time_base =
    signed_round (delta *ℤ time_base.num *ℤ pos 1000000) (pos_part time_base.den)

pub record IsPositive (time_base : Rational) : Type 0 where
  pub num_pos : 0 < pos_part time_base.num
  pub num_nonneg : neg_part time_base.num ≡ 0
  pub den_pos : 0 < pos_part time_base.den
  pub den_nonneg : neg_part time_base.den ≡ 0

pub is_bad_time_base-IsPositive : (tb : Rational) → is_bad_time_base tb ≡ false → IsPositive tb
is_bad_time_base-IsPositive tb h =
    let n = parts_of_pos tb.num (ground arith) in
    let d = parts_of_pos tb.den (ground arith) in
    record { num_pos = n.0; num_nonneg = n.1; den_pos = d.0; den_nonneg = d.1 }

pub IsPositive-is_bad_time_base : (tb : Rational) → IsPositive tb → is_bad_time_base tb ≡ false
IsPositive-is_bad_time_base tb h = ground (arith, pos_part-pos 0, neg_part-pos 0)

pub rescale_pts_to_us_lem :
    (delta : ℤ) (tb : Rational)
    → IsPositive tb
    → rescale_pts_to_us delta tb ≡ ok (us_value delta tb)
unfolding rescale_pts_to_us us_value
rescale_pts_to_us_lem delta tb h =
    rw (IsPositive-is_bad_time_base tb h, pos_of_nonneg tb.den h.den_nonneg, pos_part-pos)
      (round_nearest_away-signed_round (delta *ℤ tb.num *ℤ pos 1000000) (pos_part tb.den) h.den_pos)

*ℤ-pos_mono : (a b c : ℤ) → neg_part c ≡ 0 → a ≤ℤ b → a *ℤ c ≤ℤ b *ℤ c
*ℤ-pos_mono a b c h k =
    omega (arith, rw h at (*ℤ_parts a c), rw h at (*ℤ_parts b c), mul-le-mul_right (pos_part c) k)

pub us_value_mono :
    (a b : ℤ) (tb : Rational) → IsPositive tb → a ≤ℤ b → us_value a tb ≤ℤ us_value b tb
unfolding us_value
us_value_mono a b tb h k =
    signed_round_mono _ _ _ h.den_pos
      (*ℤ-pos_mono _ _ _ (neg_part-pos 1000000) (*ℤ-pos_mono a b tb.num h.num_nonneg k))

*ℤ_zero : (a : ℤ) → pos 0 *ℤ a ≡ pos 0
unfolding ◌*ℤ◌ pos_part neg_part
*ℤ_zero a = ground arith

pub us_value_zero : (tb : Rational) → IsPositive tb → us_value (pos 0) tb ≡ pos 0
unfolding us_value signed_round
us_value_zero tb h =
    rw (*ℤ_zero tb.num, *ℤ_zero (pos 1000000)) (ap pos (round_half_zero _ h.den_pos))

signed_round_lower :
    (n : ℤ) (d : ℕ)
    → 0 < d
    → pos_part (signed_round n d) * d * 2 + neg_part n * 2
      ≤ pos_part n * 2 + neg_part (signed_round n d) * d * 2 + d
unfolding signed_round pos_part neg_part
signed_round_lower (pos n) d h = ground (arith, round_half_lower n d h)
signed_round_lower (negsuc n) d h = ground (arith, round_half_upper (suc n) d h)

signed_round_upper :
    (n : ℤ) (d : ℕ)
    → 0 < d
    → pos_part n * 2 + neg_part (signed_round n d) * d * 2
      ≤ pos_part (signed_round n d) * d * 2 + neg_part n * 2 + d
unfolding signed_round pos_part neg_part
signed_round_upper (pos n) d h = ground (arith, round_half_upper n d h)
signed_round_upper (negsuc n) d h = ground (arith, round_half_lower (suc n) d h)

-- Twice the rounding error is at most one unit of the denominator.
pub us_value_error :
    (delta : ℤ) (tb : Rational)
    → IsPositive tb
    → let exact = delta *ℤ tb.num *ℤ pos 1000000 in
      let rounded = us_value delta tb *ℤ tb.den in
      (rounded *ℤ pos 2 ≤ℤ exact *ℤ pos 2 +ℤ tb.den)
      × (exact *ℤ pos 2 ≤ℤ rounded *ℤ pos 2 +ℤ tb.den)
unfolding us_value
us_value_error delta tb h =
    let exact = delta *ℤ tb.num *ℤ pos 1000000 in
    let value = signed_round exact (pos_part tb.den) in
    let scaled = rw h.den_nonneg at (*ℤ_parts value tb.den) in
    let twice = rw (pos_part-pos 2, neg_part-pos 2) at (*ℤ_parts (value *ℤ tb.den) (pos 2)) in
    let twice_exact = rw (pos_part-pos 2, neg_part-pos 2) at (*ℤ_parts exact (pos 2)) in
    let lower = signed_round_lower exact (pos_part tb.den) h.den_pos in
    let upper = signed_round_upper exact (pos_part tb.den) h.den_pos in
    (omega (arith, +ℤ_parts), omega (arith, +ℤ_parts))
