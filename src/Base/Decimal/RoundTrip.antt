-- ===== src/Base/Decimal/RoundTrip.antt =====
-- Proofs about the decimal strings of Base.Decimal: printing and reading.
use Prim.Native.Nat.{ℕ, zero, suc, ◌+◌, ◌/◌, ◌%◌, ◌≤◌, ◌<◌}
use mathlib.Core.Path.{◌≡◌, refl, ap, ◌∙◌}
use mathlib.Core.Bool.{true}
use mathlib.Core.List.{[], ◌∷◌}
use native.Mathlib.Omega.{arith}
use volleyball_monitoring_ai.Base.Lists.{all}
use volleyball_monitoring_ai.Base.Text.{Text}
use volleyball_monitoring_ai.Base.Int.{ℤ, pos, negsuc, neg_ℤ}
use volleyball_monitoring_ai.Base.Decimal.{
  emit, format, to_decimal, is_digit, is_positive_decimal, is_nonnegative_decimal,
  is_signed_decimal, value_from, of_decimal,
}

value_from-emit : (f n : ℕ) (out : Text) → n ≤ f → value_from 0 (emit f n out) ≡ value_from n out
unfolding value_from emit
value_from-emit zero n out h = ground arith
value_from-emit (suc f) n out h = ground (arith, value_from-emit f (n / 10) ((b'0' + n % 10) ∷ out))

emit-digits : (f n : ℕ) (out : Text) → all is_digit out ≡ true → all is_digit (emit f n out) ≡ true
unfolding emit is_digit
emit-digits zero n out h = h
emit-digits (suc f) n out h = ground (arith, emit-digits f (n / 10) ((b'0' + n % 10) ∷ out))

emit-is_positive_decimal :
    (f n : ℕ) (out : Text)
    → n ≤ f
    → 0 < n
    → all is_digit out ≡ true
    → is_positive_decimal (emit f n out) ≡ true
unfolding emit is_positive_decimal
emit-is_positive_decimal zero n out h p d = absurd (omega arith)
emit-is_positive_decimal (suc f) n out h p d =
    ground (arith, emit-is_positive_decimal f (n / 10) ((b'0' + n % 10) ∷ out), emit-zero f)
  where
    emit-zero : (g : ℕ) → emit g 0 ((b'0' + n % 10) ∷ out) ≡ (b'0' + n % 10) ∷ out
    emit-zero zero = refl
    emit-zero (suc g) = refl

format-is_positive_decimal : (n : ℕ) → 0 < n → is_positive_decimal (format n) ≡ true
unfolding format
format-is_positive_decimal n h = ground (arith, emit-is_positive_decimal n n [])

value_from-format : (n : ℕ) → value_from 0 (format n) ≡ n
unfolding format value_from
value_from-format n = ground (arith, value_from-emit n n [])

-- A text that starts with a digit carries no minus sign.
of_decimal-digits : (t : Text) → is_positive_decimal t ≡ true → of_decimal t ≡ pos (value_from 0 t)
unfolding of_decimal is_positive_decimal
of_decimal-digits [] h = cc
of_decimal-digits (c ∷ s) h = ground arith

of_decimal-zero : of_decimal (format 0) ≡ pos 0
unfolding of_decimal format
of_decimal-zero = refl

neg_ℤ-pos-suc : (n : ℕ) → neg_ℤ (pos (suc n)) ≡ negsuc n
unfolding neg_ℤ
neg_ℤ-pos-suc n = ground arith

of_decimal-minus : (t : Text) → of_decimal (b'-' ∷ t) ≡ neg_ℤ (pos (value_from 0 t))
unfolding of_decimal
of_decimal-minus t = refl

of_decimal-format : (n : ℕ) → of_decimal (format n) ≡ pos n
of_decimal-format zero = of_decimal-zero
of_decimal-format (suc n) =
    of_decimal-digits (format (suc n)) (format-is_positive_decimal (suc n) (omega arith))
    ∙ ap pos (value_from-format (suc n))

-- Printing and reading back gives the same integer.
pub of_decimal-to_decimal : (a : ℤ) → of_decimal (to_decimal a) ≡ a
unfolding to_decimal
of_decimal-to_decimal (pos n) = of_decimal-format n
of_decimal-to_decimal (negsuc n) =
    rw (of_decimal-minus, value_from-format (suc n)) (neg_ℤ-pos-suc n)

pub is_nonnegative_decimal-to_decimal : (n : ℕ) → is_nonnegative_decimal (to_decimal (pos n)) ≡ true
unfolding to_decimal is_nonnegative_decimal
is_nonnegative_decimal-to_decimal zero = refl
is_nonnegative_decimal-to_decimal (suc n) = ground (arith, format-is_positive_decimal (suc n))

pub is_positive_decimal-to_decimal :
    (n : ℕ) → 0 < n → is_positive_decimal (to_decimal (pos n)) ≡ true
unfolding to_decimal
is_positive_decimal-to_decimal n h = format-is_positive_decimal n h

pub is_signed_decimal-to_decimal : (a : ℤ) → is_signed_decimal (to_decimal a) ≡ true
unfolding to_decimal is_signed_decimal
is_signed_decimal-to_decimal (pos zero) = refl
is_signed_decimal-to_decimal (pos (suc n)) = ground (arith, format-is_positive_decimal (suc n))
is_signed_decimal-to_decimal (negsuc n) = ground (arith, format-is_positive_decimal (suc n))
