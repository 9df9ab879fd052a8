-- ===== src/Base/Words.antt =====
-- `value.trim().toUpperCase()` and `value.toUpperCase()`, as far as a comparison with an ASCII word
-- sees them: a character whose upper case form is not plain ASCII stays as it is.
use Prim.Native.Nat.{ℕ, ◌-◌}
use mathlib.Core.Path.{◌≡◌, refl}
use mathlib.Core.Bool.{Bool, true, false, ◌&&◌}
use mathlib.Core.Option.{Option, none, some}
use mathlib.Core.List.{[], ◌∷◌, ◌++◌}
use volleyball_monitoring_ai.Base.Tests.{leb, ◌==◌, if◌then◌else◌}
use volleyball_monitoring_ai.Base.Text.{Text, codes, is_space}

unfoldable pub trim_start : Text → Text
unfolding is_space
trim_start [] = []
trim_start (c ∷ s) = let rest = trim_start s in if is_space c then rest else c ∷ s

is_empty : Text → Bool
is_empty [] = true
is_empty (c ∷ s) = false

unfoldable pub trim_end : Text → Text
unfolding is_empty is_space
trim_end [] = []
trim_end (c ∷ s) = let rest = trim_end s in if is_empty rest && is_space c then [] else c ∷ rest

unfoldable pub trim : Text → Text
unfolding trim_start trim_end
trim s = trim_end (trim_start s)

-- The dotless i, the long s, the sharp s and the Latin ligatures have ASCII forms.
unfoldable pub upper_unit : ℕ → Text
upper_unit c =
    if leb b'a' c && leb c b'z'
    then (c - 32) ∷ []
    else if c == 0x131
    then codes "I"
    else if c == 0x17F
    then codes "S"
    else if c == 0xDF
    then codes "SS"
    else if c == 0xFB00
    then codes "FF"
    else if c == 0xFB01
    then codes "FI"
    else if c == 0xFB02
    then codes "FL"
    else if c == 0xFB03
    then codes "FFI"
    else if c == 0xFB04
    then codes "FFL"
    else if c == 0xFB05
    then codes "ST"
    else if c == 0xFB06
    then codes "ST"
    else c ∷ []

unfoldable pub to_upper_case : Text → Text
unfolding upper_unit
to_upper_case [] = []
to_upper_case (c ∷ s) = upper_unit c ++ to_upper_case s

-- `value?.trim().toUpperCase() ?? ''`
unfoldable pub normalized : Option Text → Text
unfolding trim to_upper_case
normalized none = []
normalized (some value) = to_upper_case (trim value)

normalized_word : normalized (some (codes " resolved\n")) ≡ codes "RESOLVED"
unfolding normalized
normalized_word = refl
