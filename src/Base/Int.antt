-- ===== src/Base/Int.antt =====
-- `bigint`: signed integers over the native numbers. Sums and orders go through the two parts of an
-- integer, which stay shut outside this file, so that the tactics read them as two numbers.
use Prim.Native.Nat.{ℕ, suc, ◌+◌, ◌-◌, ◌*◌, ◌/◌, ◌%◌, ◌≤◌, ◌<◌}
use mathlib.Core.Path.{◌≡◌, refl}
use mathlib.Core.Bool.{Bool, true, false}
use native.Mathlib.Omega.{arith}
use volleyball_monitoring_ai.Base.Tests.{ltb, leb, ◌==◌, if◌then◌else◌}

-- `negsuc n` is -(n + 1).
pub data ℤ : Type 0 where
  pos : ℕ → ℤ
  negsuc : ℕ → ℤ

unfoldable pub pos_part : ℤ → ℕ
pos_part (pos n) = n
pos_part (negsuc n) = 0

unfoldable pub neg_part : ℤ → ℕ
neg_part (pos n) = 0
neg_part (negsuc n) = suc n

-- a - b, as an integer.
abbrev pub sub_ℕ : ℕ → ℕ → ℤ
sub_ℕ a b = if leb b a then pos (a - b) else negsuc (b - a - 1)

infixl 65 ◌+ℤ◌ ◌-ℤ◌
infixl 70 ◌*ℤ◌
infix 50 ◌≤ℤ◌ ◌<ℤ◌
unfoldable pub ◌+ℤ◌ : ℤ → ℤ → ℤ
unfolding pos_part neg_part
a +ℤ b = sub_ℕ (pos_part a + pos_part b) (neg_part a + neg_part b)

unfoldable pub ◌-ℤ◌ : ℤ → ℤ → ℤ
unfolding pos_part neg_part
a -ℤ b = sub_ℕ (pos_part a + neg_part b) (neg_part a + pos_part b)

unfoldable pub ◌*ℤ◌ : ℤ → ℤ → ℤ
unfolding pos_part neg_part
a *ℤ b =
    sub_ℕ (pos_part a * pos_part b + neg_part a * neg_part b)
      (pos_part a * neg_part b + neg_part a * pos_part b)

-- `-value`.
unfoldable pub neg_ℤ : ℤ → ℤ
unfolding pos_part neg_part
neg_ℤ a = sub_ℕ (neg_part a) (pos_part a)

unfoldable pub nat_abs : ℤ → ℕ
nat_abs (pos n) = n
nat_abs (negsuc n) = suc n

abbrev pub with_sign_of : ℤ → ℕ → ℤ
with_sign_of (pos _) n = pos n
with_sign_of (negsuc _) n = sub_ℕ 0 n

-- `bigint` division cuts off towards zero, and the remainder has the sign of the dividend. A zero
-- divisor, at which both throw, is excluded by the callers.
unfoldable pub quot_ℤ : ℤ → ℤ → ℤ
unfolding nat_abs ◌*ℤ◌
quot_ℤ a b = with_sign_of a (nat_abs a / nat_abs b) *ℤ with_sign_of b 1

unfoldable pub rem_ℤ : ℤ → ℤ → ℤ
unfolding nat_abs
rem_ℤ a b = with_sign_of a (nat_abs a % nat_abs b)

abbrev pub ◌≤ℤ◌ : ℤ → ℤ → Type 0
a ≤ℤ b = pos_part a + neg_part b ≤ pos_part b + neg_part a

abbrev pub ◌<ℤ◌ : ℤ → ℤ → Type 0
a <ℤ b = pos_part a + neg_part b < pos_part b + neg_part a

abbrev pub ltb_ℤ : ℤ → ℤ → Bool
ltb_ℤ a b = ltb (pos_part a + neg_part b) (pos_part b + neg_part a)

abbrev pub leb_ℤ : ℤ → ℤ → Bool
leb_ℤ a b = leb (pos_part a + neg_part b) (pos_part b + neg_part a)

abbrev pub eqb_ℤ : ℤ → ℤ → Bool
eqb_ℤ a b = (pos_part a + neg_part b) == (pos_part b + neg_part a)

pub pos_part-pos : (n : ℕ) → pos_part (pos n) ≡ n
unfolding pos_part
pos_part-pos n = refl

pub neg_part-pos : (n : ℕ) → neg_part (pos n) ≡ 0
unfolding neg_part
neg_part-pos n = refl

pub +ℤ_parts :
    (a b : ℤ)
    → pos_part (a +ℤ b) + neg_part a + neg_part b ≡ neg_part (a +ℤ b) + pos_part a + pos_part b
unfolding ◌+ℤ◌
+ℤ_parts a b = ground arith

pub -ℤ_parts :
    (a b : ℤ)
    → pos_part (a -ℤ b) + neg_part a + pos_part b ≡ neg_part (a -ℤ b) + pos_part a + neg_part b
unfolding ◌-ℤ◌
-ℤ_parts a b = ground arith

pub neg_ℤ_parts : (a : ℤ) → pos_part (neg_ℤ a) + pos_part a ≡ neg_part (neg_ℤ a) + neg_part a
unfolding neg_ℤ pos_part neg_part
neg_ℤ_parts a = ground arith

-- The parts of a product, up to what both have in common.
pub *ℤ_parts :
    (a b : ℤ)
    → pos_part (a *ℤ b) + (pos_part a * neg_part b + neg_part a * pos_part b)
      ≡ neg_part (a *ℤ b) + (pos_part a * pos_part b + neg_part a * neg_part b)
unfolding ◌*ℤ◌
*ℤ_parts a b = ground arith

pub eq_of_parts : (a b : ℤ) → pos_part a + neg_part b ≡ pos_part b + neg_part a → a ≡ b
unfolding pos_part neg_part
eq_of_parts a b h = ground arith

pub ruleset int_laws =
    (arith, +ℤ_parts, -ℤ_parts, neg_ℤ_parts, eq_of_parts, pos_part-pos, neg_part-pos)

pub pos_of_nonneg : (a : ℤ) → neg_part a ≡ 0 → a ≡ pos (pos_part a)
unfolding pos_part neg_part
pos_of_nonneg a h = ground arith

pub neg_part_of_nonneg : (a : ℤ) → ltb_ℤ a (pos 0) ≡ false → neg_part a ≡ 0
unfolding pos_part neg_part
neg_part_of_nonneg a h = ground arith

pub parts_of_pos : (a : ℤ) → leb_ℤ a (pos 0) ≡ false → (0 < pos_part a) × (neg_part a ≡ 0)
unfolding pos_part neg_part
parts_of_pos a h = (ground arith, ground arith)

pub eqb_ℤ-refl : (a : ℤ) → eqb_ℤ a a ≡ true
eqb_ℤ-refl a = ground arith

pub eq_of_eqb_ℤ : (a b : ℤ) → eqb_ℤ a b ≡ true → a ≡ b
eq_of_eqb_ℤ a b h = eq_of_parts a b (ground arith)

pub +ℤ_assoc : (a b c : ℤ) → a +ℤ b +ℤ c ≡ a +ℤ (b +ℤ c)
+ℤ_assoc a b c = omega int_laws

pub mixed_signs : pos 3 -ℤ pos 10 *ℤ negsuc 1 ≡ pos 23
unfolding ◌-ℤ◌ ◌*ℤ◌
mixed_signs = refl
