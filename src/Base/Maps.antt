-- ===== src/Base/Maps.antt =====
-- A `Map` with text keys, as the list of its entries in the order of insertion.
use mathlib.Core.Path.{◌≡◌, refl}
use mathlib.Core.Bool.{Bool, true, false}
use mathlib.Core.Option.{Option, none, some}
use mathlib.Core.List.{List, [], ◌∷◌, map}
use native.Mathlib.Omega.{arith}
use volleyball_monitoring_ai.Base.Tests.{if◌then◌else◌, Bool-cases}
use volleyball_monitoring_ai.Base.Lists.{All}
use mathlib.Core.Logic.{inl, inr}
use volleyball_monitoring_ai.Base.Text.{Text, text_eq, text_eq_iff}

module _ {ℓ} {V : Type ℓ} where
  unfoldable pub map_get : Text → List (Text × V) → Option V
  map_get key [] = none
  map_get key ((other, value) ∷ entries) =
      if text_eq other key then some value else map_get key entries

  unfoldable pub map_has : Text → List (Text × V) → Bool
  map_has key [] = false
  map_has key ((other, value) ∷ entries) = if text_eq other key then true else map_has key entries

  -- An entry that is there keeps its place.
  unfoldable pub map_set : Text → V → List (Text × V) → List (Text × V)
  map_set key value [] = (key, value) ∷ []
  map_set key value ((other, old) ∷ entries) =
      if text_eq other key then (key, value) ∷ entries else (other, old) ∷ map_set key value entries

  pub map_get-map_set :
      (key other : Text) (value : V) (entries : List (Text × V))
      → map_get other (map_set key value entries)
        ≡ (if text_eq key other then some value else map_get other entries)
  unfolding map_get map_set
  map_get-map_set key other value [] = refl
  map_get-map_set key other value ((k, old) ∷ entries) = ground (
    arith,
    text_eq_iff key other,
    text_eq_iff k other,
    text_eq_iff k key,
    map_get-map_set key other value entries,
  )

  pub map_has-map_get :
      (key : Text) (entries : List (Text × V))
      → map_has key entries ≡ elim (map_get key entries) [ none ↦ false | some _ ↦ true ]
  unfolding map_get map_has
  map_has-map_get key [] = refl
  map_has-map_get key ((k, old) ∷ entries) = ground (arith, map_has-map_get key entries)

  abbrev pub map_keys : List (Text × V) → List Text
  map_keys = map (λ entry. entry.0)

  abbrev pub map_values : List (Text × V) → List V
  map_values = map (λ entry. entry.1)

  pub map_has-map_set :
      (key other : Text) (value : V) (entries : List (Text × V))
      → map_has other (map_set key value entries)
        ≡ (if text_eq key other then true else map_has other entries)
  unfolding map_has map_set
  map_has-map_set key other value [] = refl
  map_has-map_set key other value ((k, old) ∷ entries) = ground (
    arith,
    text_eq_iff key other,
    text_eq_iff k other,
    text_eq_iff k key,
    map_has-map_set key other value entries,
  )

  -- A property of all entries is kept by an entry that has it.
  pub map_set-All {κ} :
      (P : Text × V → Type κ) (key : Text) (value : V) (entries : List (Text × V))
      → P (key, value)
      → All P entries
      → All P (map_set key value entries)
  unfolding map_set
  map_set-All P key value [] p h = (p, tt)
  map_set-All P key value ((k, old) ∷ entries) p (q, h) = elim (Bool-cases (text_eq k key)) [
    | inl same ↦ rw same (p, h)
    | inr other ↦ rw other (q, map_set-All P key value entries p h)
  ]
