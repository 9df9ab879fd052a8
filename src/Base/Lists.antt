-- ===== src/Base/Lists.antt =====
-- Lists measured by native numbers, and the searches that the program makes.
use Prim.Native.Nat.{ℕ, zero, suc, ◌+◌, ◌-◌, ◌≤◌, ◌<◌}
use mathlib.Core.Path.{◌≡◌, refl, sym, ap, ◌∙◌, subst}
use mathlib.Core.Logic.{◌⊎◌}
use mathlib.Core.List.{List, [], ◌∷◌, ◌++◌, map}
use mathlib.Core.Option.{Option, none, some}
use mathlib.Core.Bool.{Bool, true, false, ◌&&◌, ◌||◌}
use native.Mathlib.Omega.{arith}
use volleyball_monitoring_ai.Base.Tests.{if◌then◌else◌}

module _ {ℓ} {A : Type ℓ} where
  abbrev pub length : List A → ℕ
  length [] = 0
  length (x ∷ xs) = suc (length xs)

  abbrev pub get_elem? : List A → ℕ → Option A
  get_elem? [] i = none
  get_elem? (x ∷ xs) zero = some x
  get_elem? (x ∷ xs) (suc i) = get_elem? xs i

  abbrev pub take : ℕ → List A → List A
  take zero xs = []
  take (suc n) [] = []
  take (suc n) (x ∷ xs) = x ∷ take n xs

  abbrev pub drop : ℕ → List A → List A
  drop zero xs = xs
  drop (suc n) [] = []
  drop (suc n) (x ∷ xs) = drop n xs

  -- The last element of the list `x ∷ xs`.
  abbrev pub last_of : A → List A → A
  last_of x [] = x
  last_of x (y ∷ ys) = last_of y ys

  abbrev pub all : (A → Bool) → List A → Bool
  all p [] = true
  all p (x ∷ xs) = p x && all p xs

  abbrev pub any : (A → Bool) → List A → Bool
  any p [] = false
  any p (x ∷ xs) = p x || any p xs

  abbrev pub find : (A → Bool) → List A → Option A
  find p [] = none
  find p (x ∷ xs) = if p x then some x else find p xs

  abbrev pub keep : (A → Bool) → List A → List A
  keep p [] = []
  keep p (x ∷ xs) = if p x then x ∷ keep p xs else keep p xs

  pub length-append : (xs ys : List A) → length (xs ++ ys) ≡ length xs + length ys
  length-append [] ys = omega arith
  length-append (x ∷ xs) ys = omega (arith, length-append xs ys)

pub length-map {ℓ κ} :
    {A : Type ℓ} {B : Type κ} (f : A → B) (xs : List A) → length (map f xs) ≡ length xs
length-map f [] = refl
length-map f (x ∷ xs) = ap suc (length-map f xs)

module _ {ℓ κ} {A : Type ℓ} (P : A → Type κ) where
  -- Every element satisfies the predicate.
  abbrev pub All : List A → Type κ
  All [] = Unit
  All (x ∷ xs) = P x × All xs

  pub All-append : (xs ys : List A) → All xs → All ys → All (xs ++ ys)
  All-append [] ys h k = k
  All-append (x ∷ xs) ys (p, h) k = (p, All-append xs ys h k)

-- Some element satisfies the predicate.
abbrev pub Any {ℓ} : {A : Type ℓ} → (A → Type 0) → List A → Type 0
Any P [] = ⊥
Any P (x ∷ xs) = P x ⊎ Any P xs

module _ {ℓ κ} {A : Type ℓ} (P : A → Type κ) where
  pub All-get_elem? : (xs : List A) (i : ℕ) (x : A) → All P xs → get_elem? xs i ≡ some x → P x
  All-get_elem? [] i x h e = cc
  All-get_elem? (y ∷ xs) zero x (p, h) e = subst P (cc) p
  All-get_elem? (y ∷ xs) (suc i) x (p, h) e = All-get_elem? xs i x h e

module _ {ℓ} {A : Type ℓ} where
  drop_nil : (n : ℕ) → ◌≡◌ {A = List A} (drop n []) []
  drop_nil zero = refl
  drop_nil (suc n) = refl

  pub take_nil : (n : ℕ) → ◌≡◌ {A = List A} (take n []) []
  take_nil zero = refl
  take_nil (suc n) = refl

  pub take-append-drop : (n : ℕ) (xs : List A) → take n xs ++ drop n xs ≡ xs
  take-append-drop zero xs = refl
  take-append-drop (suc n) [] = refl
  take-append-drop (suc n) (x ∷ xs) = ap (◌∷◌ x) (take-append-drop n xs)

  pub drop-drop : (n m : ℕ) (xs : List A) → n ≤ m → drop (m - n) (drop n xs) ≡ drop m xs
  drop-drop zero m xs h = ap (λ k. drop k xs) (omega arith)
  drop-drop (suc n) zero xs h = absurd (omega arith)
  drop-drop (suc n) (suc m) [] h = drop_nil (suc m - suc n)
  drop-drop (suc n) (suc m) (x ∷ xs) h =
      ap (λ k. drop k (drop n xs)) (omega arith) ∙ drop-drop n m xs (omega arith)

  pub length-take : (n : ℕ) (xs : List A) → n ≤ length xs → length (take n xs) ≡ n
  length-take zero xs h = refl
  length-take (suc n) [] h = absurd (omega arith)
  length-take (suc n) (x ∷ xs) h = ap suc (length-take n xs (omega arith))

  pub length-drop : (n : ℕ) (xs : List A) → n ≤ length xs → length (drop n xs) ≡ length xs - n
  length-drop zero xs h = omega arith
  length-drop (suc n) [] h = absurd (omega arith)
  length-drop (suc n) (x ∷ xs) h = omega (arith, length-drop n xs (omega arith))

  pub get_elem?-lt : (xs : List A) (i : ℕ) (x : A) → get_elem? xs i ≡ some x → i < length xs
  get_elem?-lt [] i x e = cc
  get_elem?-lt (y ∷ xs) zero x e = omega arith
  get_elem?-lt (y ∷ xs) (suc i) x e = omega (arith, get_elem?-lt xs i x e)

  -- The first element of what is left.
  pub get_elem?-slice :
      (n m : ℕ) (xs : List A) (x : A)
      → n < m
      → get_elem? xs n ≡ some x
      → (rest : List A) × (take (m - n) (drop n xs) ≡ x ∷ rest)
  get_elem?-slice n m [] x h e = cc
  get_elem?-slice zero m (y ∷ xs) x h e =
      let more : m - 0 ≡ suc (m - 1) = omega arith in
      (take (m - 1) xs, ap (λ k. take k (y ∷ xs)) more ∙ cc)
  get_elem?-slice (suc n) m (y ∷ xs) x h e =
      let less : m - suc n ≡ m - 1 - n = omega arith in
      let (rest, found) = get_elem?-slice n (m - 1) xs x (omega arith) e in
      (rest, ap (λ k. take k (drop n xs)) less ∙ found)

module _ {ℓ κ} {A : Type ℓ} (P : A → Type κ) where
  pub All-slice : (n m : ℕ) (xs : List A) → All P (take m xs) → All P (take (m - n) (drop n xs))
  All-slice zero m xs h =
      let same : m ≡ m - 0 = omega arith in subst (λ k. All P (take k xs)) same h
  All-slice (suc n) zero xs h =
      let nothing : 0 ≡ 0 - suc n = omega arith in
      subst (λ k. All P (take k (drop (suc n) xs))) nothing tt
  All-slice (suc n) (suc m) [] h = subst (λ ys. All P ys) (sym (take_nil (suc m - suc n))) tt
  All-slice (suc n) (suc m) (x ∷ xs) (p, h) =
      let same : m - n ≡ suc m - suc n = omega arith in
      subst (λ k. All P (take k (drop n xs))) same (All-slice n m xs h)
