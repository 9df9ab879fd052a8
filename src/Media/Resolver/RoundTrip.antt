-- ===== src/Media/Resolver/RoundTrip.antt =====
-- Proofs about frameStepAcrossSegments of packages/media/src/resolver.ts: steps and their reverse.
use volleyball_monitoring_ai.Base.{
  ℕ, zero, suc, ◌≡◌, refl, sym, false, List, [], ◌∷◌, Option, none, some, ok, >>=-eq-ok,
  ok-injective, err-ne-ok, get_elem?, throw_if-eq-ok,
}
use volleyball_monitoring_ai.Base.Int.{ℤ, pos, ◌+ℤ◌, ◌<ℤ◌}
use volleyball_monitoring_ai.Media.Errors.{ResolveErrorCode, sample_not_found}
use volleyball_monitoring_ai.Media.Resolver.{
  Direction, previous, next, find_frame, adjacent, or_throw, index_or_throw, stepped, step_in,
  is_outside, frame_step_across_segments,
}
use volleyball_monitoring_ai.Media.Resolver.Validation.{
  IndexedSegment, IndexedLocation, StepResult, validate_segments,
}
use volleyball_monitoring_ai.Media.Resolver.Span.{
  Linked, frame_of, time_of, validate_segments-Linked,
}
use volleyball_monitoring_ai.Media.Resolver.Steps.{
  next_frame, find_frame-Linked, frame_of-find_frame,
}

-- `c` and `t` stand next to each other in the span, and both inside the window.
record Adjacent (ws we : ℤ) (ls : List IndexedLocation) (c t : IndexedLocation) : Type 0 where
  pub place : ℕ
  pub is_at : get_elem? ls place ≡ some c
  pub is_next : get_elem? ls (suc place) ≡ some t
  pub is_inside : is_outside ws we (time_of c) ≡ false
  pub next_is_inside : is_outside ws we (time_of t) ≡ false

or_throw-eq-ok :
    (code : ResolveErrorCode) (o : Option IndexedLocation) (l : IndexedLocation)
    → or_throw code o ≡ ok l
    → o ≡ some l
unfolding or_throw
or_throw-eq-ok code none l e = absurd (err-ne-ok e)
or_throw-eq-ok code (some x) l e = rw (ok-injective e) refl

index_or_throw-eq-ok : (o : Option ℕ) (i : ℕ) → index_or_throw o ≡ ok i → o ≡ some i
unfolding index_or_throw
index_or_throw-eq-ok none i e = absurd (err-ne-ok e)
index_or_throw-eq-ok (some x) i e = rw (ok-injective e) refl

-- A successful step, taken apart.
record Step (ws we : ℤ) (ls : List IndexedLocation) (frame : ℤ) (direction : Direction)
    (r : StepResult) : Type 0 where
  pub place : ℕ
  pub current : IndexedLocation
  pub target : IndexedLocation
  pub is_found : find_frame frame ls ≡ some place
  pub is_at : get_elem? ls place ≡ some current
  pub is_inside : is_outside ws we (time_of current) ≡ false
  pub is_adjacent : adjacent direction place ls ≡ some target
  pub target_is_inside : is_outside ws we (time_of target) ≡ false
  pub is_result : r ≡ stepped target

step_in-eq-ok :
    (ls : List IndexedLocation) (frame : ℤ) (direction : Direction) (ws we : ℤ) (r : StepResult)
    → step_in ls frame direction ws we ≡ ok r
    → Step ws we ls frame direction r
unfolding step_in
step_in-eq-ok ls frame direction ws we r e =
    let (i, at, e₁) = >>=-eq-ok (index_or_throw (find_frame frame ls)) _ e in
    let (c, is_c, e₂) = >>=-eq-ok (or_throw sample_not_found (get_elem? ls i)) _ e₁ in
    let (_, inside, e₃) = >>=-eq-ok _ _ e₂ in
    let (t, is_t, e₄) = >>=-eq-ok (or_throw sample_not_found (adjacent direction i ls)) _ e₃ in
    let (_, inside', e₅) = >>=-eq-ok _ _ e₄ in
    record {
      place = i;
      current = c;
      target = t;
      is_found = index_or_throw-eq-ok _ i at;
      is_at = or_throw-eq-ok _ _ c is_c;
      is_inside = throw_if-eq-ok _ _ inside;
      is_adjacent = or_throw-eq-ok _ _ t is_t;
      target_is_inside = throw_if-eq-ok _ _ inside';
      is_result = sym (ok-injective e₅);
    }

step_in-next :
    (ls : List IndexedLocation) (ws we : ℤ) (c t : IndexedLocation)
    → Linked [] ls
    → Adjacent ws we ls c t
    → step_in ls (frame_of c) next ws we ≡ ok (stepped t)
unfolding step_in or_throw index_or_throw adjacent
step_in-next ls ws we c t linked a =
    rw
      (
        find_frame-Linked ls a.place c linked a.is_at,
        a.is_at,
        a.is_inside,
        a.is_next,
        a.next_is_inside,
      )
      refl

step_in-previous :
    (ls : List IndexedLocation) (ws we : ℤ) (c t : IndexedLocation)
    → Linked [] ls
    → Adjacent ws we ls c t
    → step_in ls (frame_of t) previous ws we ≡ ok (stepped c)
unfolding step_in or_throw index_or_throw adjacent
step_in-previous ls ws we c t linked a =
    rw
      (
        find_frame-Linked ls (suc a.place) t linked a.is_next,
        a.is_next,
        a.next_is_inside,
        a.is_at,
        a.is_inside,
      )
      refl

Adjacent-frames :
    (ls : List IndexedLocation) (ws we : ℤ) (c t : IndexedLocation)
    → Linked [] ls
    → Adjacent ws we ls c t
    → (frame_of t ≡ frame_of c +ℤ pos 1) × (time_of c <ℤ time_of t)
Adjacent-frames [] ws we c t linked a = let e = a.is_at in cc
Adjacent-frames (x ∷ ls) ws we c t linked a = next_frame x ls a.place c t linked a.is_at a.is_next

-- Two samples that the steps lead from and to, in both directions.
pub record Neighbours (segments : List IndexedSegment) (ws we : ℤ) (c t : IndexedLocation)
    : Type 0 where
  pub follows : frame_of t ≡ frame_of c +ℤ pos 1
  pub is_later : time_of c <ℤ time_of t
  pub forwards : frame_step_across_segments segments (frame_of c) next ws we ≡ ok (stepped t)
  pub back : frame_step_across_segments segments (frame_of t) previous ws we ≡ ok (stepped c)

Neighbours_lem :
    (segments : List IndexedSegment) (ws we : ℤ) (ls : List IndexedLocation) (c t : IndexedLocation)
    → validate_segments segments ws we sample_not_found ≡ ok ls
    → Adjacent ws we ls c t
    → Neighbours segments ws we c t
unfolding frame_step_across_segments
Neighbours_lem segments ws we ls c t valid a =
    let linked = validate_segments-Linked segments ws we sample_not_found ls valid in
    let (follows, later) = Adjacent-frames ls ws we c t linked a in
    record {
      follows = follows;
      is_later = later;
      forwards = rw valid (step_in-next ls ws we c t linked a);
      back = rw valid (step_in-previous ls ws we c t linked a);
    }

-- The step in the direction leads from the one to the other.
abbrev pub Reversible :
    List IndexedSegment → ℤ → ℤ → Direction → IndexedLocation → IndexedLocation → Type 0
Reversible segments ws we next from to = Neighbours segments ws we from to
Reversible segments ws we previous from to = Neighbours segments ws we to from

Step-Reversible :
    (segments : List IndexedSegment) (ws we : ℤ) (ls : List IndexedLocation) (frame : ℤ)
    (direction : Direction) (r : StepResult)
    → validate_segments segments ws we sample_not_found ≡ ok ls
    → (s : Step ws we ls frame direction r) → Reversible segments ws we direction s.current s.target
unfolding adjacent
Step-Reversible segments ws we ls frame next r valid s =
    Neighbours_lem segments ws we ls s.current s.target valid (record {
      place = s.place;
      is_at = s.is_at;
      is_next = s.is_adjacent;
      is_inside = s.is_inside;
      next_is_inside = s.target_is_inside;
    })
Step-Reversible segments ws we ls frame previous r valid s = before s.place s.is_at s.is_adjacent
  where
    before :
        (i : ℕ)
        → get_elem? ls i ≡ some s.current
        → adjacent previous i ls ≡ some s.target
        → Neighbours segments ws we s.target s.current
    before zero e e' = cc
    before (suc i) e e' = Neighbours_lem segments ws we ls s.target s.current valid (record {
      place = i;
      is_at = e';
      is_next = e;
      is_inside = s.target_is_inside;
      next_is_inside = s.is_inside;
    })

-- A step that succeeds leads to the frame right after (`next`) or right before (`previous`) the
-- requested one, which lies later or earlier in capture time, and the step in the other direction
-- from there succeeds as well and leads back.
pub frame_step_across_segments-Reversible :
    (segments : List IndexedSegment) (frame : ℤ) (direction : Direction) (ws we : ℤ)
    (r : StepResult)
    → frame_step_across_segments segments frame direction ws we ≡ ok r
    → (from : IndexedLocation) × (to : IndexedLocation) × (frame_of from ≡ frame)
      × (r ≡ stepped to)
      × Reversible segments ws we direction from to
unfolding frame_step_across_segments
frame_step_across_segments-Reversible segments frame direction ws we r e =
    let (ls, valid, e₁) = >>=-eq-ok (validate_segments segments ws we sample_not_found) _ e in
    let s = step_in-eq-ok ls frame direction ws we r e₁ in
    (
      s.current,
      s.target,
      frame_of-find_frame frame ls s.place s.current s.is_found s.is_at,
      s.is_result,
      Step-Reversible segments ws we ls frame direction r valid s,
    )
