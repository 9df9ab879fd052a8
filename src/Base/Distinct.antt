-- ===== src/Base/Distinct.antt =====
-- Lists without two elements of one name, and what sorting keeps.
use mathlib.Core.Path.{◌≡◌, refl, sym, ◌∙◌}
use mathlib.Core.Logic.{inl, inr}
use mathlib.Core.Bool.{false}
use mathlib.Core.List.{List, [], ◌∷◌}
use native.Mathlib.Omega.{arith}
use volleyball_monitoring_ai.Base.Tests.{Bool-cases}
use volleyball_monitoring_ai.Base.Lists.{All}
use volleyball_monitoring_ai.Base.Int.{ℤ, pos, leb_ℤ}
use volleyball_monitoring_ai.Base.Text.{Text, text_eq, text_eq_iff}
use volleyball_monitoring_ai.Base.Sorting.{insert_by, sort_by}
use volleyball_monitoring_ai.Base.Maps.{map_set, map_values}

pub text_eq_sym : (s t : Text) → text_eq s t ≡ text_eq t s
text_eq_sym s t = ground (arith, text_eq_iff s t, text_eq_iff t s)

module _ {ℓ κ} {A : Type ℓ} (P : A → Type κ) (compare : A → A → ℤ) where
  pub insert_by-All : (x : A) (xs : List A) → P x → All P xs → All P (insert_by compare x xs)
  unfolding insert_by
  insert_by-All x [] p h = (p, tt)
  insert_by-All x (y ∷ ys) p (q, h) = elim (Bool-cases (leb_ℤ (compare x y) (pos 0))) [
    | inl first ↦ rw first (p, (q, h))
    | inr behind ↦ rw behind (q, insert_by-All x ys p h)
  ]

module _ {ℓ} {A : Type ℓ} (name : A → Text) where
  -- No later element has the name of an earlier one.
  abbrev pub Distinct : List A → Type 0
  Distinct [] = Unit
  Distinct (x ∷ xs) = All (λ y. text_eq (name x) (name y) ≡ false) xs × Distinct xs

  module _ (compare : A → A → ℤ) where
    insert_by-Distinct :
        (x : A) (xs : List A)
        → All (λ y. text_eq (name x) (name y) ≡ false) xs
        → Distinct xs
        → Distinct (insert_by compare x xs)
    unfolding insert_by
    insert_by-Distinct x [] h d = (tt, tt)
    insert_by-Distinct x (y ∷ ys) (p, h) (q, d) = elim (Bool-cases (leb_ℤ (compare x y) (pos 0))) [
      | inl first ↦ rw first ((p, h), (q, d))
      | inr behind ↦ rw behind (
        insert_by-All (λ z. text_eq (name y) (name z) ≡ false) compare x ys
            (text_eq_sym (name y) (name x) ∙ p) q,
        insert_by-Distinct x ys h d,
      )
    ]

    pub sort_by-All-ne :
        (x : A) (xs : List A)
        → All (λ y. text_eq (name x) (name y) ≡ false) xs
        → All (λ y. text_eq (name x) (name y) ≡ false) (sort_by compare xs)
    unfolding sort_by
    sort_by-All-ne x [] h = tt
    sort_by-All-ne x (y ∷ ys) (p, h) =
        insert_by-All (λ z. text_eq (name x) (name z) ≡ false) compare y (sort_by compare ys) p
          (sort_by-All-ne x ys h)

    pub sort_by-Distinct : (xs : List A) → Distinct xs → Distinct (sort_by compare xs)
    unfolding sort_by
    sort_by-Distinct [] d = tt
    sort_by-Distinct (x ∷ xs) (h, d) =
        insert_by-Distinct x (sort_by compare xs) (sort_by-All-ne x xs h) (sort_by-Distinct xs d)

  -- The values of a map that are entered under their names.
  abbrev pub Keyed : List (Text × A) → Type 0
  Keyed [] = Unit
  Keyed ((key, x) ∷ entries) = (key ≡ name x) × Keyed entries

  pub map_set-Keyed :
      (x : A) (entries : List (Text × A)) → Keyed entries → Keyed (map_set (name x) x entries)
  unfolding map_set
  map_set-Keyed x [] h = (refl, tt)
  map_set-Keyed x ((key, y) ∷ entries) (e, h) = elim (Bool-cases (text_eq key (name x))) [
    | inl same ↦ rw same (refl, h)
    | inr other ↦ rw other (e, map_set-Keyed x entries h)
  ]

  map_set-ne :
      (other : Text) (x : A) (entries : List (Text × A))
      → text_eq other (name x) ≡ false
      → All (λ y. text_eq other (name y) ≡ false) (map_values entries)
      → All (λ y. text_eq other (name y) ≡ false) (map_values (map_set (name x) x entries))
  unfolding map_set
  map_set-ne other x [] h k = (h, tt)
  map_set-ne other x ((key, y) ∷ entries) h (p, k) = elim (Bool-cases (text_eq key (name x))) [
    | inl same ↦ rw same (h, k)
    | inr differs ↦ rw differs (p, map_set-ne other x entries h k)
  ]

  pub map_set-Distinct :
      (x : A) (entries : List (Text × A))
      → Keyed entries
      → Distinct (map_values entries)
      → Distinct (map_values (map_set (name x) x entries))
  unfolding map_set
  map_set-Distinct x [] h d = (tt, tt)
  map_set-Distinct x ((key, y) ∷ entries) (e, h) (q, d) = elim (Bool-cases (text_eq key (name x))) [
    | inl same ↦
        let names : name x ≡ name y = sym ((text_eq_iff key (name x)).0 same) ∙ e in
        rw same (rw names q, d)
    | inr differs ↦
        rw differs
          (map_set-ne (name y) x entries (rw (← e) differs) q, map_set-Distinct x entries h d)
  ]
