-- ===== src/Web/AnnotationOutbox/Slots.antt =====
-- The slots of the compaction of web/app/lib/annotationOutbox.ts: the places of the coalescing keys, and
-- the compaction that the proofs compare with.
use volleyball_monitoring_ai.Base.{
  ℕ, suc, ◌≡◌, refl, ap, ◌∙◌, Bool, true, false, List, [], ◌∷◌, ◌++◌, Option, none, some, any, keep,
  not, ◌||◌, length, inl, inr, Bool-cases, Option-cases, if◌then◌else◌, arith,
}
use volleyball_monitoring_ai.Base.Text.{Text, text_eq, text_eq_iff}
use volleyball_monitoring_ai.Web.AnnotationOutbox.{
  AnnotationOutboxEntry, coalescing_key, set_null, present,
}

-- The entry has the key.
abbrev pub has_key : Text → AnnotationOutboxEntry → Bool
has_key key entry = elim (coalescing_key entry) [ none ↦ false | some k ↦ text_eq k key ]

-- Another entry of the same key is among the given ones.
abbrev pub superseded : AnnotationOutboxEntry → List AnnotationOutboxEntry → Bool
superseded entry later = elim (coalescing_key entry) [
  | none ↦ false
  | some key ↦ any (has_key key) later
]

-- The entries without those that a later entry of their key supersedes.
abbrev pub last_of_each_key : List AnnotationOutboxEntry → List AnnotationOutboxEntry
last_of_each_key [] = []
last_of_each_key (entry ∷ entries) =
    if superseded entry entries then last_of_each_key entries else entry ∷ last_of_each_key entries

unfoldable pub without : Text → List AnnotationOutboxEntry → List AnnotationOutboxEntry
without key = keep (λ entry. not (has_key key entry))

-- The entries without those of the key, if there is one.
abbrev pub without_key : Option Text → List AnnotationOutboxEntry → List AnnotationOutboxEntry
without_key none entries = entries
without_key (some key) entries = without key entries

any-append :
    (key : Text) (xs : List AnnotationOutboxEntry) (entry : AnnotationOutboxEntry)
    → any (has_key key) (xs ++ entry ∷ []) ≡ any (has_key key) xs || has_key key entry
any-append key [] entry = ground arith
any-append key (x ∷ xs) entry = ground (arith, any-append key xs entry)

pub last_of_each_key-snoc :
    (entries : List AnnotationOutboxEntry) (entry : AnnotationOutboxEntry)
    → last_of_each_key (entries ++ entry ∷ [])
      ≡ without_key (coalescing_key entry) (last_of_each_key entries) ++ entry ∷ []
unfolding without
last_of_each_key-snoc [] entry = ground arith
last_of_each_key-snoc (x ∷ xs) entry =
    let ih = last_of_each_key-snoc xs entry in
    elim (Option-cases (coalescing_key x)) [
      | inl unkeyed ↦ elim (Option-cases (coalescing_key entry)) [
        | inl new_unkeyed ↦ ground (arith, ih)
        | inr (key, keyed) ↦ ground (arith, ih)
      ]
      | inr (key, keyed) ↦ elim (Option-cases (coalescing_key entry)) [
        | inl new_unkeyed ↦ ground (arith, ih, any-append key xs entry)
        | inr (other, new_keyed) ↦
            ground
              (arith, ih, any-append key xs entry, text_eq_iff key other, text_eq_iff other key)
      ]
    ]

module _ (key : Text) where
  -- Where the key's entry stands.
  unfoldable pub position : List (Option AnnotationOutboxEntry) → Option ℕ
  position [] = none
  position (none ∷ xs) = elim (position xs) [ none ↦ none | some i ↦ some (suc i) ]
  position (some entry ∷ xs) =
      if has_key key entry
      then some 0
      else elim (position xs) [ none ↦ none | some i ↦ some (suc i) ]

  pub clear : List (Option AnnotationOutboxEntry) → List (Option AnnotationOutboxEntry)
  clear [] = []
  clear (none ∷ xs) = none ∷ clear xs
  clear (some entry ∷ xs) = (if has_key key entry then none else some entry) ∷ clear xs

  pub clear_absent : (xs : List (Option AnnotationOutboxEntry)) → position xs ≡ none → clear xs ≡ xs
  unfolding position clear
  clear_absent [] h = refl
  clear_absent (none ∷ xs) h = ap (◌∷◌ none) (clear_absent xs (ground arith))
  clear_absent (some entry ∷ xs) h = ground (arith, clear_absent xs)

  pub present-clear :
      (xs : List (Option AnnotationOutboxEntry)) → present (clear xs) ≡ without key (present xs)
  unfolding clear present without
  present-clear [] = refl
  present-clear (none ∷ xs) = present-clear xs
  present-clear (some entry ∷ xs) = ground (arith, present-clear xs)

-- Each key has at most one entry.
abbrev pub Single : List (Option AnnotationOutboxEntry) → Type 0
Single [] = Unit
Single (none ∷ xs) = Single xs
Single (some entry ∷ xs) =
    ((key : Text) → has_key key entry ≡ true → position key xs ≡ none) × Single xs

has_key-coalescing_key :
    (key : Text) (entry : AnnotationOutboxEntry)
    → has_key key entry ≡ true
    → coalescing_key entry ≡ some key
has_key-coalescing_key key entry h = elim (Option-cases (coalescing_key entry)) [
  | inl unkeyed ↦ ground arith
  | inr (k, keyed) ↦ ground (arith, text_eq_iff k key)
]

module _ (key : Text) where
  pub set_null-clear :
      (xs : List (Option AnnotationOutboxEntry)) (i : ℕ)
      → Single xs
      → position key xs ≡ some i
      → set_null i xs ≡ clear key xs
  unfolding set_null clear position
  set_null-clear [] i s h = cc
  set_null-clear (none ∷ xs) i s h = elim (Option-cases (position key xs)) [
    | inl nowhere ↦ ground arith
    | inr (j, there) ↦ ground (arith, set_null-clear xs j s there)
  ]
  set_null-clear (some entry ∷ xs) i (alone, s) h = elim (Bool-cases (has_key key entry)) [
    | inl here ↦ ground (arith, clear_absent key xs (alone key here))
    | inr elsewhere ↦ elim (Option-cases (position key xs)) [
      | inl nowhere ↦ ground arith
      | inr (j, there) ↦ ground (arith, set_null-clear xs j s there)
    ]
  ]

  pub position-clear :
      (q : Text) (xs : List (Option AnnotationOutboxEntry))
      → position q (clear key xs) ≡ (if text_eq key q then none else position q xs)
  unfolding clear position
  position-clear q [] = ground arith
  position-clear q (none ∷ xs) = ground (arith, position-clear q xs)
  position-clear q (some entry ∷ xs) = elim (Option-cases (coalescing_key entry)) [
    | inl unkeyed ↦ ground (arith, position-clear q xs)
    | inr (k, keyed) ↦
        ground (arith, position-clear q xs, text_eq_iff k key, text_eq_iff k q, text_eq_iff key q)
  ]

  length-clear : (xs : List (Option AnnotationOutboxEntry)) → length (clear key xs) ≡ length xs
  unfolding clear
  length-clear [] = refl
  length-clear (none ∷ xs) = ap suc (length-clear xs)
  length-clear (some entry ∷ xs) = ap suc (length-clear xs)

pub position-snoc :
    (q : Text) (xs : List (Option AnnotationOutboxEntry)) (entry : AnnotationOutboxEntry)
    → position q (xs ++ some entry ∷ []) ≡ elim (position q xs) [
      | some i ↦ some i
      | none ↦ if has_key q entry then some (length xs) else none
    ]
unfolding position
position-snoc q [] entry = ground arith
position-snoc q (none ∷ xs) entry = ground (arith, position-snoc q xs entry)
position-snoc q (some other ∷ xs) entry = ground (arith, position-snoc q xs entry)

pub present-snoc :
    (xs : List (Option AnnotationOutboxEntry)) (entry : AnnotationOutboxEntry)
    → present (xs ++ some entry ∷ []) ≡ present xs ++ entry ∷ []
unfolding present
present-snoc [] entry = refl
present-snoc (none ∷ xs) entry = present-snoc xs entry
present-snoc (some other ∷ xs) entry = ap (◌∷◌ other) (present-snoc xs entry)

pub Single-clear :
    (key : Text) (xs : List (Option AnnotationOutboxEntry)) → Single xs → Single (clear key xs)
unfolding clear
Single-clear key [] s = tt
Single-clear key (none ∷ xs) s = Single-clear key xs s
Single-clear key (some entry ∷ xs) (alone, s) = elim (Bool-cases (has_key key entry)) [
  | inl here ↦ rw here (Single-clear key xs s)
  | inr elsewhere ↦
      rw elsewhere (
        λ q same. position-clear key q xs ∙ nowhere_still q xs (alone q same),
        Single-clear key xs s,
      )
]
  where
    nowhere_still :
        (q : Text) (ys : List (Option AnnotationOutboxEntry))
        → position q ys ≡ none
        → (if text_eq key q then none else position q ys) ≡ none
    nowhere_still q ys h = ground arith

pub Single-snoc :
    (xs : List (Option AnnotationOutboxEntry)) (entry : AnnotationOutboxEntry)
    → Single xs
    → ((q : Text) → has_key q entry ≡ true → position q xs ≡ none)
    → Single (xs ++ some entry ∷ [])
unfolding position
Single-snoc [] entry s new = (λ q same. refl, tt)
Single-snoc (none ∷ xs) entry s new =
    Single-snoc xs entry s (λ q same. nothing_behind q (new q same))
  where
    nothing_behind : (q : Text) → position q (none ∷ xs) ≡ none → position q xs ≡ none
    nothing_behind q h = ground arith
Single-snoc (some other ∷ xs) entry (alone, s) new = (
  λ q same. elim (Bool-cases (has_key q entry)) [
    | inl twice ↦ absurd (both q same (new q twice))
    | inr once ↦ position-snoc q xs entry ∙ nowhere q once (alone q same)
  ],
  Single-snoc xs entry s (λ q same. behind q same (new q same)),
)
  where
    both : (q : Text) → has_key q other ≡ true → position q (some other ∷ xs) ≡ none → ⊥
    both q same h = ground arith

    nowhere :
        (q : Text)
        → has_key q entry ≡ false
        → position q xs ≡ none
        → elim (position q xs) [
          | some i ↦ some i
          | none ↦ if has_key q entry then some (length xs) else none
        ]
          ≡ none
    nowhere q once h = ground arith

    behind :
        (q : Text)
        → has_key q entry ≡ true
        → position q (some other ∷ xs) ≡ none
        → position q xs ≡ none
    behind q same h = ground arith
