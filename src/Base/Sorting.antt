-- ===== src/Base/Sorting.antt =====
-- `sort` with a comparator, as the stable insertion sort.
use mathlib.Core.List.{List, [], ◌∷◌, Perm}
use mathlib.Core.List.Perm
use mathlib.Core.Logic.{inl, inr}
use volleyball_monitoring_ai.Base.Tests.{if◌then◌else◌, Bool-cases}
use volleyball_monitoring_ai.Base.Int.{ℤ, pos, leb_ℤ}

module _ {ℓ} {A : Type ℓ} (compare : A → A → ℤ) where
  unfoldable pub insert_by : A → List A → List A
  insert_by x [] = x ∷ []
  insert_by x (y ∷ ys) =
      let further = insert_by x ys in
      if leb_ℤ (compare x y) (pos 0) then x ∷ y ∷ ys else y ∷ further

  unfoldable pub sort_by : List A → List A
  unfolding insert_by
  sort_by [] = []
  sort_by (x ∷ xs) = insert_by x (sort_by xs)

  insert_by-Perm : (x : A) (xs : List A) → Perm (insert_by x xs) (x ∷ xs)
  unfolding insert_by
  insert_by-Perm x [] = Perm.refl (x ∷ [])
  insert_by-Perm x (y ∷ ys) = elim (Bool-cases (leb_ℤ (compare x y) (pos 0))) [
    | inl first ↦ rw first (Perm.refl (x ∷ y ∷ ys))
    | inr behind ↦ rw behind (Perm.trans (Perm.cons y (insert_by-Perm x ys)) (Perm.swap x y ys))
  ]

  pub sort_by-Perm : (xs : List A) → Perm (sort_by xs) xs
  unfolding sort_by
  sort_by-Perm [] = Perm.refl []
  sort_by-Perm (x ∷ xs) = Perm.trans (insert_by-Perm x (sort_by xs)) (Perm.cons x (sort_by-Perm xs))
