-- ===== src/Base/Json.antt =====
-- Values of type `unknown` that come from JSON, and the tests that the program makes on their shape.
use mathlib.Core.Bool.{Bool, true, false, ◌&&◌, ◌||◌}
use mathlib.Core.List.{List, [], ◌∷◌}
use volleyball_monitoring_ai.Base.Tests.{ltb, ◌==◌, if◌then◌else◌}
use volleyball_monitoring_ai.Base.Text.{Text, text_eq}
use volleyball_monitoring_ai.Base.Int.{ℤ}

mutual
  pub data Json : Type 0 where
    null undefined : Json
    boolean : Bool → Json
    number : ℤ → Json
    string : Text → Json
    array : Items → Json
    object : Fields → Json

  pub data Items : Type 0 where
    nil : Items
    cons : Json → Items → Items

  pub data Fields : Type 0 where
    end : Fields
    field : Text → Json → Fields → Fields

-- `value[key]`.
unfoldable pub get : Text → Fields → Json
get key end = undefined
get key (field name value rest) = if text_eq name key then value else get key rest

-- `Object.keys(value)`.
unfoldable pub keys : Fields → List Text
keys end = []
keys (field name value rest) = name ∷ keys rest

-- The order of `sort` without a comparator: by code units.
unfoldable pub text_le : Text → Text → Bool
text_le [] t = true
text_le (c ∷ s) [] = false
text_le (c ∷ s) (d ∷ t) = ltb c d || (c == d && text_le s t)

unfoldable pub insert_text : Text → List Text → List Text
insert_text x [] = x ∷ []
insert_text x (y ∷ ys) = if text_le x y then x ∷ y ∷ ys else y ∷ insert_text x ys

unfoldable pub sort_texts : List Text → List Text
unfolding insert_text text_le
sort_texts [] = []
sort_texts (x ∷ xs) = insert_text x (sort_texts xs)

-- Equal length, and equal texts at every place.
unfoldable pub same_texts : List Text → List Text → Bool
same_texts [] [] = true
same_texts (x ∷ xs) (y ∷ ys) = text_eq x y && same_texts xs ys
same_texts _ _ = false

-- The object has the given keys and no others.
unfoldable pub has_exact_keys : Fields → List Text → Bool
unfolding same_texts sort_texts keys
has_exact_keys value allowed = same_texts (sort_texts (keys value)) (sort_texts allowed)
