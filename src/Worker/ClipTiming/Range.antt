-- ===== src/Worker/ClipTiming/Range.antt =====
-- Proofs about worker/src/media/clip-timing.ts: which samples a clip takes, and at which of them its
-- key points lie.
use volleyball_monitoring_ai.Base.{
  ℕ, ◌+◌, ◌-◌, ◌≤◌, ◌≡◌, refl, sym, ap, subst, ◌∙◌, true, List, [], ◌∷◌, ◌++◌, some, ok, inl, inr,
  All, Any, length, take, drop, get_elem?, take-append-drop, drop-drop, length-take, length-drop,
  get_elem?-slice, All-slice, arith,
}
use mathlib.Core.List.{append_assoc}
use volleyball_monitoring_ai.Base.Text.{Text}
use volleyball_monitoring_ai.Base.Int.{ℤ, pos, ◌+ℤ◌}
use volleyball_monitoring_ai.Base.Maps.{map_has}
use volleyball_monitoring_ai.Media.Rational.{Rational}
use volleyball_monitoring_ai.Worker.ClipTiming.{
  ClipSourceSegment, ClipKeyPointAnchor, SelectedClipSourceSample,
}
use volleyball_monitoring_ai.Worker.ClipTiming.Selection.{
  SelectedClipRange, slice, select_canonical_clip_range,
}
use volleyball_monitoring_ai.Worker.ClipTiming.Frames.{
  FramesFrom, FramesFrom-take, FramesFrom-drop, FramesFrom-get_elem?, frame_of, samples_of,
}
use volleyball_monitoring_ai.Worker.ClipTiming.KeyPoints.{Resolves, Found, resolve_key_points-Found}
use volleyball_monitoring_ai.Worker.ClipTiming.Selected.{
  EndsAfter, EndsBy, StartAfter, StartsBy, end_ordinal_exclusive-splits, first_ordinal-found,
  select_canonical_clip_range-IsSelected,
}

-- The samples of the segments are cut in three: those that end at the requested start or before
-- it, the selected ones, of which the first one ends behind the requested start and all start at
-- the requested end or before it, and the rest, which begins behind the requested end.
pub record Cut (segments : List ClipSourceSegment) (requested_start requested_end : ℤ)
    (range : SelectedClipRange) : Type 0 where
  pub before : List SelectedClipSourceSample
  pub first : SelectedClipSourceSample
  pub further : List SelectedClipSourceSample
  pub after : List SelectedClipSourceSample
  pub selected : range.source_samples ≡ first ∷ further
  pub whole : samples_of segments ≡ before ++ range.source_samples ++ after
  pub start_frame : length before ≡ range.source_start_frame
  pub end_frame :
      range.source_start_frame + length range.source_samples ≡ range.source_end_frame_exclusive
  pub all_before : All (EndsBy range.source_time_base requested_start) before
  pub first_behind : EndsAfter range.source_time_base requested_start first
  pub all_started : All (StartsBy requested_end) range.source_samples
  pub rest_behind : StartAfter requested_end after

cut_at :
    (start end : ℕ) (xs : List SelectedClipSourceSample)
    → start ≤ end
    → xs ≡ take start xs ++ slice start end xs ++ drop end xs
cut_at start end xs h =
    sym (take-append-drop start xs)
    ∙ ap (λ rest. take start xs ++ rest)
        (sym (take-append-drop (end - start) (drop start xs))
          ∙ ap (λ rest. slice start end xs ++ rest) (drop-drop start end xs h))
    ∙ sym (append_assoc (take start xs) (slice start end xs) (drop end xs))

length-slice :
    (start end : ℕ) (xs : List SelectedClipSourceSample)
    → start ≤ end
    → end ≤ length xs
    → start + length (slice start end xs) ≡ end
length-slice start end xs h k =
    let rest = length-drop start xs (omega arith) in
    omega (arith, rest, length-take (end - start) (drop start xs) (omega arith))

-- A clip that is selected takes, of the samples of all segments in their order, one run, which the
-- numbers of its first frame and of the frame behind it delimit: no sample before the run ends behind
-- the requested start and the first one in it does, no sample in the run starts behind the requested
-- end and the one behind the run does.
pub select_canonical_clip_range-Cut :
    (segments : List ClipSourceSegment) (requested_start requested_end : ℤ)
    (key_points : List ClipKeyPointAnchor) (range : SelectedClipRange)
    → select_canonical_clip_range segments requested_start requested_end key_points ≡ ok range
    → Cut segments requested_start requested_end range
select_canonical_clip_range-Cut segments requested_start requested_end key_points range e =
    let s =
      select_canonical_clip_range-IsSelected segments requested_start requested_end key_points range
        e in
    let every = samples_of segments in
    let start = range.source_start_frame in
    let end = range.source_end_frame_exclusive in
    let (first, there, behind, all_before) =
      first_ordinal-found range.source_time_base requested_start every (some start) start
        s.start_found refl in
    let (bound, started, rest) = end_ordinal_exclusive-splits requested_end every in
    let (further, slice_first) = get_elem?-slice start end every first s.nonempty there in
    let end_bound : end ≤ length every = subst (λ n. n ≤ length every) (sym s.end_found) bound in
    record {
      before = take start every;
      first = first;
      further = further;
      after = drop end every;
      selected = s.samples ∙ slice_first;
      whole =
          cut_at start end every (omega (arith, s.nonempty))
          ∙ ap (λ xs. take start every ++ xs ++ drop end every) (sym s.samples);
      start_frame = length-take start every (omega (arith, s.nonempty));
      end_frame =
          ap (λ xs. start + length xs) s.samples
          ∙ length-slice start end every (omega (arith, s.nonempty)) end_bound;
      all_before = all_before;
      first_behind = behind;
      all_started =
          subst (λ xs. All (StartsBy requested_end) xs) (sym s.samples)
            (All-slice (StartsBy requested_end) start end every
              (subst (λ n. All (StartsBy requested_end) (take n every)) (sym s.end_found) started));
      rest_behind = subst (λ n. StartAfter requested_end (drop n every)) (sym s.end_found) rest;
    }

-- The frame index of the first sample.
abbrev pub frame_origin : List SelectedClipSourceSample → ℤ
frame_origin [] = pos 0
frame_origin (selected ∷ samples) = frame_of selected

-- The place belongs to a key point of the entry's name, which resolves to the sample there; and the
-- place is the distance of the point's frame from the first frame of the clip.
abbrev pub Placed :
    Rational → List SelectedClipSourceSample → ClipKeyPointAnchor → Text × ℕ → Type 0
Placed time_base samples point entry =
    (point.id ≡ entry.0)
    × Resolves time_base samples point entry.1
    × (frame_origin samples +ℤ pos entry.1 ≡ point.capture_frame_index)

FramesFrom-origin :
    (f : ℤ) (samples : List SelectedClipSourceSample) (i : ℕ) (selected : SelectedClipSourceSample)
    → FramesFrom f samples
    → get_elem? samples i ≡ some selected
    → frame_origin samples +ℤ pos i ≡ frame_of selected
FramesFrom-origin f [] i selected h e = cc
FramesFrom-origin f (first ∷ samples) i selected (p, h) e =
    ap (λ g. g +ℤ pos i) p ∙ sym (FramesFrom-get_elem? f (first ∷ samples) i selected (p, h) e)

Found-Placed :
    (time_base : Rational) (samples : List SelectedClipSourceSample)
    (points : List ClipKeyPointAnchor) (entry : Text × ℕ) (f : ℤ)
    → FramesFrom f samples
    → Found time_base samples points entry
    → Any (λ point. Placed time_base samples point entry) points
Found-Placed time_base samples [] entry f frames h = h
Found-Placed time_base samples (point ∷ points) entry f frames (inl (name, resolves)) =
    let (selected, there, frame, near) = resolves in
    inl (name, resolves, FramesFrom-origin f samples entry.1 selected frames there ∙ frame)
Found-Placed time_base samples (point ∷ points) entry f frames (inr h) =
    inr (Found-Placed time_base samples points entry f frames h)

All-Placed :
    (time_base : Rational) (samples : List SelectedClipSourceSample)
    (points : List ClipKeyPointAnchor) (entries : List (Text × ℕ)) (f : ℤ)
    → FramesFrom f samples
    → All (Found time_base samples points) entries
    → All (λ entry. Any (λ point. Placed time_base samples point entry) points) entries
All-Placed time_base samples points [] f frames h = tt
All-Placed time_base samples points (entry ∷ entries) f frames (p, h) = (
  Found-Placed time_base samples points entry f frames p,
  All-Placed time_base samples points entries f frames h,
)

-- In a clip that is selected every key point has a place. Each place belongs to a key point of the
-- entry's identity, holds a sample of the point's frame, on which the point lies exactly or, if it is
-- an estimate, at most a frame's duration away, and is the distance of the point's frame from the
-- first frame of the clip.
pub select_canonical_clip_range-Placed :
    (segments : List ClipSourceSegment) (requested_start requested_end : ℤ)
    (key_points : List ClipKeyPointAnchor) (range : SelectedClipRange)
    → select_canonical_clip_range segments requested_start requested_end key_points ≡ ok range
    → All
        (λ entry.
          Any (λ point. Placed range.source_time_base range.source_samples point entry) key_points)
        range.key_point_ordinals
      × All (λ point. map_has point.id range.key_point_ordinals ≡ true) key_points
select_canonical_clip_range-Placed segments requested_start requested_end key_points range e =
    let s =
      select_canonical_clip_range-IsSelected segments requested_start requested_end key_points range
        e in
    let start = range.source_start_frame in
    let end = range.source_end_frame_exclusive in
    let (found, has) =
      resolve_key_points-Found range.source_time_base range.source_samples
        (record { ordinals = []; samples = [] }) s.resolved [] key_points s.resolves tt in
    let (f, frames) = s.frames in
    let (g, from_start) = FramesFrom-drop f start (samples_of segments) frames in
    let taken =
      subst (FramesFrom g) (sym s.samples)
        (FramesFrom-take g (end - start) (drop start (samples_of segments)) from_start) in
    (
      All-Placed range.source_time_base range.source_samples key_points range.key_point_ordinals g
          taken
          (subst (All (Found range.source_time_base range.source_samples key_points))
            (sym s.ordinals) found),
      subst (λ entries. All (λ point. map_has point.id entries ≡ true) key_points) (sym s.ordinals)
          has,
    )
