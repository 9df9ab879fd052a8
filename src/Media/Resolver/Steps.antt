-- ===== src/Media/Resolver/Steps.antt =====
-- Proofs about frameStepAcrossSegments of packages/media/src/resolver.ts: the places of frames.
use volleyball_monitoring_ai.Base.{
  ℕ, zero, suc, ◌≡◌, refl, ◌≢◌, true, false, List, [], ◌∷◌, Option, none, some, arith, Bool-cases,
  inl, inr, get_elem?,
}
use mathlib.Core.Option.{some-injective}
use volleyball_monitoring_ai.Base.Int.{
  ℤ, pos, ◌+ℤ◌, ◌<ℤ◌, eq_of_parts, eqb_ℤ, eq_of_eqb_ℤ, +ℤ_parts, pos_part-pos, neg_part-pos,
}
use volleyball_monitoring_ai.Media.Resolver.{shift, find_frame}
use volleyball_monitoring_ai.Media.Resolver.Validation.{IndexedLocation}
use volleyball_monitoring_ai.Media.Resolver.Span.{Linked, frame_of, time_of}

-- Behind a location, frames count up from its own.
frame_of-place :
    (p : IndexedLocation) (ls : List IndexedLocation) (i : ℕ) (l : IndexedLocation)
    → Linked (p ∷ []) ls
    → get_elem? ls i ≡ some l
    → frame_of l ≡ frame_of p +ℤ pos (suc i)
frame_of-place p [] i l h e = absurd (none-ne-some e)
  where
    none-ne-some : ◌≢◌ {A = Option IndexedLocation} none (some l)
    none-ne-some h = cc
frame_of-place p (x ∷ ls) zero l h e = rw (← some-injective _ _ e) h.0
frame_of-place p (x ∷ ls) (suc i) l h e =
    let later = frame_of-place x ls i l h.2 e in
    let first = h.0 in
    eq_of_parts (frame_of l) (frame_of p +ℤ pos (suc (suc i))) (
      ground (
        arith,
        +ℤ_parts (frame_of p) (pos 1),
        +ℤ_parts (frame_of x) (pos (suc i)),
        +ℤ_parts (frame_of p) (pos (suc (suc i))),
        pos_part-pos (suc i),
        neg_part-pos (suc i),
        pos_part-pos (suc (suc i)),
        neg_part-pos (suc (suc i)),
        pos_part-pos 1,
        neg_part-pos 1,
      ))

eqb_ℤ-refl : (a : ℤ) → eqb_ℤ a a ≡ true
eqb_ℤ-refl a = ground arith

later-ne : (a b : ℤ) (i : ℕ) → b ≡ a +ℤ pos (suc i) → eqb_ℤ a b ≡ false
later-ne a b i h =
    ground (arith, +ℤ_parts a (pos (suc i)), pos_part-pos (suc i), neg_part-pos (suc i))

find_frame-place :
    (p : IndexedLocation) (ls : List IndexedLocation) (i : ℕ) (l : IndexedLocation)
    → Linked (p ∷ []) ls
    → get_elem? ls i ≡ some l
    → find_frame (frame_of l) ls ≡ some i
unfolding find_frame
find_frame-place p [] i l h e = cc
find_frame-place p (x ∷ ls) zero l h e = rw (some-injective _ _ e, eqb_ℤ-refl (frame_of l)) refl
find_frame-place p (x ∷ ls) (suc i) l h e =
    rw
      (
        later-ne (frame_of x) (frame_of l) i (frame_of-place x ls i l h.2 e),
        find_frame-place x ls i l h.2 e,
      )
      refl

-- The same from the start of the span.
pub find_frame-Linked :
    (ls : List IndexedLocation) (i : ℕ) (l : IndexedLocation)
    → Linked [] ls
    → get_elem? ls i ≡ some l
    → find_frame (frame_of l) ls ≡ some i
unfolding find_frame
find_frame-Linked [] i l h e = cc
find_frame-Linked (x ∷ ls) zero l h e = rw (some-injective _ _ e, eqb_ℤ-refl (frame_of l)) refl
find_frame-Linked (x ∷ ls) (suc i) l h e =
    rw
      (
        later-ne (frame_of x) (frame_of l) i (frame_of-place x ls i l h e),
        find_frame-place x ls i l h e,
      )
      refl

shift-eq-some : (o : Option ℕ) (i : ℕ) → shift o ≡ some (suc i) → o ≡ some i
shift-eq-some none i h = cc
shift-eq-some (some j) i h = cc

shift-ne-zero : (o : Option ℕ) → shift o ≢ some 0
shift-ne-zero none h = cc
shift-ne-zero (some j) h = ground arith

pub frame_of-find_frame :
    (frame : ℤ) (ls : List IndexedLocation) (i : ℕ) (l : IndexedLocation)
    → find_frame frame ls ≡ some i
    → get_elem? ls i ≡ some l
    → frame_of l ≡ frame
unfolding find_frame
frame_of-find_frame frame [] i l f e = cc
frame_of-find_frame frame (x ∷ ls) zero l f e = elim (Bool-cases (eqb_ℤ (frame_of x) frame)) [
  | inl same ↦ rw (← some-injective _ _ e) (eq_of_eqb_ℤ (frame_of x) frame same)
  | inr other ↦ absurd (shift-ne-zero _ (rw other at f))
]
frame_of-find_frame frame (x ∷ ls) (suc i) l f e = elim (Bool-cases (eqb_ℤ (frame_of x) frame)) [
  | inl same ↦ absurd (zero-ne-suc (some-injective _ _ (rw same at f)))
  | inr other ↦ frame_of-find_frame frame ls i l (shift-eq-some _ i (rw other at f)) e
]
  where
    zero-ne-suc : zero ≢ suc i
    zero-ne-suc h = omega arith

pub next_frame :
    (x : IndexedLocation) (ls : List IndexedLocation) (i : ℕ) (c t : IndexedLocation)
    → Linked (x ∷ []) ls
    → get_elem? (x ∷ ls) i ≡ some c
    → get_elem? ls i ≡ some t
    → (frame_of t ≡ frame_of c +ℤ pos 1) × (time_of c <ℤ time_of t)
next_frame x [] i c t h e e' = cc
next_frame x (y ∷ ls) zero c t h e e' =
    rw (← some-injective _ _ e, ← some-injective _ _ e') (h.0, h.1)
next_frame x (y ∷ ls) (suc i) c t h e e' = next_frame y ls i c t h.2 e e'
