-- ===== src/Worker/ClipTiming/Frames.antt =====
-- The samples of the segments of worker/src/media/clip-timing.ts and the numbering of their frames.
use volleyball_monitoring_ai.Base.{
  ℕ, zero, suc, ◌≡◌, sym, ap, ◌∙◌, List, [], ◌∷◌, ◌++◌, Option, none, some, ok, throw_if-eq-ok,
  length, length-append, get_elem?, take, drop, arith,
}
use volleyball_monitoring_ai.Base.Text.{Text}
use volleyball_monitoring_ai.Base.Int.{
  ℤ, pos, ◌+ℤ◌, eq_of_eqb_ℤ, +ℤ_parts, eq_of_parts, pos_part-pos, neg_part-pos,
}
use volleyball_monitoring_ai.Media.SampleIndex.{IndexedSample}
use volleyball_monitoring_ai.Worker.ClipTiming.{
  not_contiguous, ClipSourceSegment, SelectedClipSourceSample, Scan, check_sequence,
}

abbrev pub frame_of : SelectedClipSourceSample → ℤ
frame_of selected = selected.sample.capture_frame_index

-- The frame indices count up from the given one.
abbrev pub FramesFrom : ℤ → List SelectedClipSourceSample → Type 0
FramesFrom frame [] = Unit
FramesFrom frame (selected ∷ samples) =
    (frame_of selected ≡ frame) × FramesFrom (frame +ℤ pos 1) samples

-- The samples of a segment, with its epoch.
abbrev pub selected_from : Text → List IndexedSample → List SelectedClipSourceSample
selected_from epoch_id [] = []
selected_from epoch_id (sample ∷ samples) =
    record { sample = sample; capture_epoch_id = epoch_id } ∷ selected_from epoch_id samples

abbrev pub samples_of : List ClipSourceSegment → List SelectedClipSourceSample
samples_of [] = []
samples_of (segment ∷ segments) =
    selected_from segment.capture_epoch_id segment.index.samples ++ samples_of segments

plus_one : (f : ℤ) (n : ℕ) → f +ℤ pos 1 +ℤ pos n ≡ f +ℤ pos (suc n)
plus_one f n = omega (
  arith,
  eq_of_parts (f +ℤ pos 1 +ℤ pos n) (f +ℤ pos (suc n)),
  +ℤ_parts (f +ℤ pos 1) (pos n),
  +ℤ_parts f (pos 1),
  +ℤ_parts f (pos (suc n)),
  pos_part-pos n,
  neg_part-pos n,
  pos_part-pos 1,
  neg_part-pos 1,
  pos_part-pos (suc n),
  neg_part-pos (suc n),
)

plus_zero : (f : ℤ) → f +ℤ pos 0 ≡ f
plus_zero f =
    omega (arith, eq_of_parts (f +ℤ pos 0) f, +ℤ_parts f (pos 0), pos_part-pos 0, neg_part-pos 0)

pub FramesFrom-append :
    (f : ℤ) (samples : List SelectedClipSourceSample) (selected : SelectedClipSourceSample)
    → FramesFrom f samples
    → frame_of selected ≡ f +ℤ pos (length samples)
    → FramesFrom f (samples ++ selected ∷ [])
FramesFrom-append f [] selected h e = (e ∙ plus_zero f, tt)
FramesFrom-append f (first ∷ samples) selected (p, h) e =
    (p, FramesFrom-append (f +ℤ pos 1) samples selected h (e ∙ sym (plus_one f (length samples))))

pub FramesFrom-get_elem? :
    (f : ℤ) (samples : List SelectedClipSourceSample) (i : ℕ) (selected : SelectedClipSourceSample)
    → FramesFrom f samples
    → get_elem? samples i ≡ some selected
    → frame_of selected ≡ f +ℤ pos i
FramesFrom-get_elem? f [] i selected h e = cc
FramesFrom-get_elem? f (first ∷ samples) zero selected (p, h) e =
    let same : first ≡ selected = cc in ap frame_of (sym same) ∙ p ∙ sym (plus_zero f)
FramesFrom-get_elem? f (first ∷ samples) (suc i) selected (p, h) e =
    FramesFrom-get_elem? (f +ℤ pos 1) samples i selected h e ∙ plus_one f i

pub FramesFrom-take :
    (f : ℤ) (n : ℕ) (samples : List SelectedClipSourceSample)
    → FramesFrom f samples
    → FramesFrom f (take n samples)
FramesFrom-take f zero samples h = tt
FramesFrom-take f (suc n) [] h = tt
FramesFrom-take f (suc n) (first ∷ samples) (p, h) = (p, FramesFrom-take (f +ℤ pos 1) n samples h)

pub FramesFrom-drop :
    (f : ℤ) (n : ℕ) (samples : List SelectedClipSourceSample)
    → FramesFrom f samples
    → (g : ℤ) × FramesFrom g (drop n samples)
FramesFrom-drop f zero samples h = (f, h)
FramesFrom-drop f (suc n) [] h = (f, tt)
FramesFrom-drop f (suc n) (first ∷ samples) (p, h) = FramesFrom-drop (f +ℤ pos 1) n samples h

-- What the scan keeps: the frames of its samples count up, and the next one follows the last.
abbrev pub NextFrame : ℤ → List SelectedClipSourceSample → Option SelectedClipSourceSample → Type 0
NextFrame f samples none = samples ≡ []
NextFrame f samples (some previous) = frame_of previous +ℤ pos 1 ≡ f +ℤ pos (length samples)

abbrev pub IsContiguous : Scan → Type 0
IsContiguous scan =
    (f : ℤ) × FramesFrom f scan.all_samples × NextFrame f scan.all_samples scan.previous

pub check_sequence-frame :
    (previous : SelectedClipSourceSample) (epoch_id : Text) (sample : IndexedSample)
    → check_sequence (some previous) epoch_id sample ≡ ok tt
    → sample.capture_frame_index ≡ frame_of previous +ℤ pos 1
unfolding check_sequence
check_sequence-frame previous epoch_id sample e =
    let test = throw_if-eq-ok _ not_contiguous e in
    eq_of_eqb_ℤ sample.capture_frame_index (frame_of previous +ℤ pos 1) (ground arith)

pub length-snoc :
    (samples : List SelectedClipSourceSample) (selected : SelectedClipSourceSample)
    → length (samples ++ selected ∷ []) ≡ suc (length samples)
length-snoc samples selected = omega (arith, length-append samples (selected ∷ []))

pub plus_next : (f : ℤ) (n : ℕ) → f +ℤ pos n +ℤ pos 1 ≡ f +ℤ pos (suc n)
plus_next f n = omega (
  arith,
  eq_of_parts (f +ℤ pos n +ℤ pos 1) (f +ℤ pos (suc n)),
  +ℤ_parts (f +ℤ pos n) (pos 1),
  +ℤ_parts f (pos n),
  +ℤ_parts f (pos (suc n)),
  pos_part-pos n,
  neg_part-pos n,
  pos_part-pos 1,
  neg_part-pos 1,
  pos_part-pos (suc n),
  neg_part-pos (suc n),
)
