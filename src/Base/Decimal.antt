-- ===== src/Base/Decimal.antt =====
-- `bigint` to and from decimal strings: `toString`, `BigInt` on a string of digits, and the three
-- regular expressions of packages/media/src/sample-index.ts.
pub mod RoundTrip
use Prim.Native.Nat.{ℕ, zero, suc, ◌+◌, ◌-◌, ◌*◌, ◌/◌, ◌%◌}
use mathlib.Core.Path.{◌≡◌, refl}
use mathlib.Core.Bool.{Bool, true, false, ◌&&◌, ◌||◌}
use mathlib.Core.List.{List, [], ◌∷◌}
use volleyball_monitoring_ai.Base.Tests.{leb, ◌==◌, if◌then◌else◌}
use volleyball_monitoring_ai.Base.Lists.{all}
use volleyball_monitoring_ai.Base.Text.{Text, codes, text_eq}
use volleyball_monitoring_ai.Base.Int.{ℤ, pos, negsuc, neg_ℤ}

-- The digits of a number before `out`, one for each round.
emit : ℕ → ℕ → Text → Text
emit zero n out = out
emit (suc f) n out =
    let rest = emit f (n / 10) ((b'0' + n % 10) ∷ out) in if n == 0 then out else rest

format : ℕ → Text
unfolding emit
format n = if n == 0 then b'0' ∷ [] else emit n n []

-- `value.toString()`.
unfoldable pub to_decimal : ℤ → Text
unfolding format
to_decimal (pos n) = format n
to_decimal (negsuc n) = b'-' ∷ format (suc n)

unfoldable pub is_digit : ℕ → Bool
is_digit c = leb b'0' c && leb c b'9'

-- `/^[1-9]\d*$/`
unfoldable pub is_positive_decimal : Text → Bool
unfolding is_digit
is_positive_decimal [] = false
is_positive_decimal (c ∷ s) = leb b'1' c && leb c b'9' && all is_digit s

-- `/^(?:0|[1-9]\d*)$/`
unfoldable pub is_nonnegative_decimal : Text → Bool
unfolding is_positive_decimal text_eq
is_nonnegative_decimal s = text_eq s (b'0' ∷ []) || is_positive_decimal s

-- The part of a text behind a leading minus sign; `[]`, which is no decimal, if there is none.
behind_minus : Text → Text
behind_minus [] = []
behind_minus (c ∷ s) = if c == b'-' then s else []

-- `/^(?:0|-[1-9]\d*|[1-9]\d*)$/`
unfoldable pub is_signed_decimal : Text → Bool
unfolding is_positive_decimal text_eq behind_minus
is_signed_decimal s =
    text_eq s (b'0' ∷ []) || is_positive_decimal (behind_minus s) || is_positive_decimal s

value_from : ℕ → Text → ℕ
value_from acc [] = acc
value_from acc (c ∷ s) = value_from (acc * 10 + (c - b'0')) s

-- `BigInt(value)`, of a text that one of the expressions accepts.
unfoldable pub of_decimal : Text → ℤ
unfolding value_from neg_ℤ
of_decimal [] = pos 0
of_decimal (c ∷ s) = if c == b'-' then neg_ℤ (pos (value_from 0 s)) else pos (value_from 0 (c ∷ s))

negative_decimal : to_decimal (negsuc 1041) ≡ codes "-1042"
unfolding to_decimal
negative_decimal = refl

decimal_value : of_decimal (codes "-1042") ≡ negsuc 1041
unfolding of_decimal
decimal_value = refl
