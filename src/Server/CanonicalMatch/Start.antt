-- ===== src/Server/CanonicalMatch/Start.antt =====
-- Proofs about the start of a rally, in server/src/services/canonical-match-projection.ts and in
-- server/src/domain/rally-display-order.ts.
use mathlib.Core.List.{Mem}
use mathlib.Core.List
use volleyball_monitoring_ai.Base.{
  Bool, true, false, List, [], ◌∷◌, ◌++◌, ◌≡◌, refl, sym, ap, subst, ◌∙◌, Option, none, some, find,
  All, inl, inr, ◌⊎◌, Bool-cases, Option-cases, if◌then◌else◌, arith,
}
use mathlib.Core.Option.{some-injective}
use volleyball_monitoring_ai.Base.Text.{Text, codes, text_eq}
use volleyball_monitoring_ai.Base.Int.{ℤ, leb_ℤ, ltb_ℤ}
use volleyball_monitoring_ai.Base.Words.{normalized, trim, to_upper_case}
use volleyball_monitoring_ai.Server.RallyDisplayOrder.{
  BoundaryRow, KeyPointRow, earliest_key_point, segment_start_capture_time_us,
}
use volleyball_monitoring_ai.Server.CanonicalMatch.Load.{
  SubmissionRow, earlier_of, reduce_key_points, start_time, start_capture_time_us,
}

abbrev pub is_start_kind : BoundaryRow → Bool
is_start_kind boundary = text_eq (to_upper_case boundary.kind) (codes "START")

abbrev pub is_service_kind : KeyPointRow → Bool
is_service_kind point = text_eq (to_upper_case point.marker_kind) (codes "SERVICE")

-- The element is the first one that passes the test.
abbrev pub FirstOf {ℓ} : {A : Type ℓ} → (A → Bool) → List A → A → Type ℓ
FirstOf {A = A} p xs x =
    (earlier : List A) × (later : List A) × (xs ≡ earlier ++ x ∷ later)
    × All (λ y. p y ≡ false) earlier
    × (p x ≡ true)

-- The start of a rally: its first start boundary, or else its first service, or else its earliest key
-- point, or none.
pub data IsStart (boundaries : List BoundaryRow) (key_points : List KeyPointRow)
    : Option ℤ → Type 0 where
  by_boundary :
      (boundary : BoundaryRow)
      → FirstOf is_start_kind boundaries boundary
      → IsStart boundaries key_points (some boundary.capture_time_us)
  by_service :
      (point : KeyPointRow)
      → All (λ boundary. is_start_kind boundary ≡ false) boundaries
      → FirstOf is_service_kind key_points point
      → IsStart boundaries key_points (some point.capture_time_us)
  by_key_point :
      (point : KeyPointRow)
      → All (λ boundary. is_start_kind boundary ≡ false) boundaries
      → All (λ other. is_service_kind other ≡ false) key_points
      → Mem point key_points
      → All (λ other. leb_ℤ point.capture_time_us other.capture_time_us ≡ true) key_points
      → IsStart boundaries key_points (some point.capture_time_us)
  unstarted :
      All (λ boundary. is_start_kind boundary ≡ false) boundaries
      → key_points ≡ []
      → IsStart boundaries key_points none

find-none {ℓ} :
    {A : Type ℓ} (p : A → Bool) (xs : List A) → find p xs ≡ none → All (λ x. p x ≡ false) xs
find-none p [] h = tt
find-none p (x ∷ xs) h = elim (Bool-cases (p x)) [
  | inl passes ↦ ground arith
  | inr fails ↦ (fails, find-none p xs (rw fails at h))
]

find-FirstOf {ℓ} :
    {A : Type ℓ} (p : A → Bool) (xs : List A) (x : A) → find p xs ≡ some x → FirstOf p xs x
find-FirstOf p [] x h = cc
find-FirstOf p (y ∷ xs) x h = elim (Bool-cases (p y)) [
  | inl passes ↦
      let same = some-injective _ _ (rw passes at h) in
      ([], xs, ap (λ z. z ∷ xs) same, tt, ap p (sym same) ∙ passes)
  | inr fails ↦
      let (earlier, later, split, none_before, found) = find-FirstOf p xs x (rw fails at h) in
      (y ∷ earlier, later, ap (λ zs. y ∷ zs) split, (fails, none_before), found)
]

-- What the search for the earliest key point leads to, from an earliest time.
record IsEarliest (earliest : ℤ) (points : List KeyPointRow) (time : ℤ) : Type 0 where
  no_later : leb_ℤ time earliest ≡ true
  before_all : All (λ other. leb_ℤ time other.capture_time_us ≡ true) points
  source :
      (time ≡ earliest)
      ⊎ ((point : KeyPointRow) × Mem point points × (time ≡ point.capture_time_us))

earliest_key_point-IsEarliest :
    (earliest : ℤ) (points : List KeyPointRow)
    → (time : ℤ) × (earliest_key_point (some earliest) points ≡ some time)
      × IsEarliest earliest points time
unfolding earliest_key_point
earliest_key_point-IsEarliest earliest [] =
    (earliest, refl, record { no_later = ground arith; before_all = tt; source = inl refl })
earliest_key_point-IsEarliest earliest (point ∷ points) =
    elim (Bool-cases (ltb_ℤ point.capture_time_us earliest)) [
      | inl sooner ↦
          let (time, found, h) = earliest_key_point-IsEarliest point.capture_time_us points in
          let no_later = h.no_later in
          (
            time,
            rw sooner found,
            record {
              no_later = ground arith;
              before_all = (no_later, h.before_all);
              source = elim h.source [
                | inl at_point ↦ inr (point, List.mem-cons_self, at_point)
                | inr (other, member, at_other) ↦
                    inr (other, List.mem-cons_of_mem point member, at_other)
              ];
            },
          )
      | inr not_sooner ↦
          let (time, found, h) = earliest_key_point-IsEarliest earliest points in
          let no_later = h.no_later in
          (
            time,
            rw not_sooner found,
            record {
              no_later = no_later;
              before_all = (ground arith, h.before_all);
              source = elim h.source [
                | inl at_first ↦ inl at_first
                | inr (other, member, at_other) ↦
                    inr (other, List.mem-cons_of_mem point member, at_other)
              ];
            },
          )
    ]

earliest-IsStart :
    (boundaries : List BoundaryRow) (key_points : List KeyPointRow)
    → All (λ boundary. is_start_kind boundary ≡ false) boundaries
    → All (λ other. is_service_kind other ≡ false) key_points
    → IsStart boundaries key_points (earliest_key_point none key_points)
unfolding earliest_key_point
earliest-IsStart boundaries [] no_boundary no_service = IsStart.unstarted no_boundary refl
earliest-IsStart boundaries (point ∷ points) no_boundary no_service =
    let (time, found, h) = earliest_key_point-IsEarliest point.capture_time_us points in
    let bounds : All (λ other. leb_ℤ time other.capture_time_us ≡ true) (point ∷ points) =
      (h.no_later, h.before_all) in
    elim h.source [
      | inl at_point ↦ chosen point List.mem-cons_self time found at_point bounds
      | inr (other, member, at_other) ↦
          chosen other (List.mem-cons_of_mem point member) time found at_other bounds
    ]
  where
    chosen :
        (earliest : KeyPointRow)
        → Mem earliest (point ∷ points)
        → (time : ℤ) → earliest_key_point (some point.capture_time_us) points ≡ some time
        → time ≡ earliest.capture_time_us
        → All (λ other. leb_ℤ time other.capture_time_us ≡ true) (point ∷ points)
        → IsStart boundaries
            (point ∷ points)
            (earliest_key_point (some point.capture_time_us) points)
    chosen earliest member time found is_time bounds =
        subst (λ start. IsStart boundaries (point ∷ points) start)
          (ap some (sym is_time) ∙ sym found)
          (IsStart.by_key_point earliest no_boundary no_service member (
            subst (λ t. All (λ other. leb_ℤ t other.capture_time_us ≡ true) (point ∷ points))
              is_time bounds))

segment_start_capture_time_us-IsStart :
    (boundaries : List BoundaryRow) (key_points : List KeyPointRow)
    → IsStart boundaries key_points (segment_start_capture_time_us boundaries key_points)
unfolding segment_start_capture_time_us
segment_start_capture_time_us-IsStart boundaries key_points =
    elim (Option-cases (find is_start_kind boundaries)) [
      | inr (boundary, found) ↦
          rw (segment_start_capture_time_us, found)
            (IsStart.by_boundary boundary (find-FirstOf is_start_kind boundaries boundary found))
      | inl no_boundary ↦ elim (Option-cases (find is_service_kind key_points)) [
        | inr (point, found) ↦
            rw (segment_start_capture_time_us, no_boundary, found)
              (IsStart.by_service point (find-none is_start_kind boundaries no_boundary)
                (find-FirstOf is_service_kind key_points point found))
        | inl no_service ↦
            rw (segment_start_capture_time_us, no_boundary, no_service)
              (earliest-IsStart boundaries key_points
                (find-none is_start_kind boundaries no_boundary)
                (find-none is_service_kind key_points no_service))
      ]
    ]

find-cong {ℓ} :
    {A : Type ℓ} (p q : A → Bool) (xs : List A) → All (λ x. p x ≡ q x) xs → find p xs ≡ find q xs
find-cong p q [] h = refl
find-cong p q (x ∷ xs) (e, h) = rw (e, find-cong p q xs h) refl

-- A word without white space around it.
abbrev pub Trimmed : Text → Type 0
Trimmed word = trim word ≡ word

starts_agree :
    (word : Text) (boundaries : List BoundaryRow)
    → All (λ boundary. Trimmed boundary.kind) boundaries
    → All
        (λ boundary.
          text_eq (normalized (some boundary.kind)) word
          ≡ text_eq (to_upper_case boundary.kind) word)
        boundaries
unfolding normalized
starts_agree word [] h = tt
starts_agree word (boundary ∷ boundaries) (e, h) =
    (ap (λ kind. text_eq (to_upper_case kind) word) e, starts_agree word boundaries h)

markers_agree :
    (word : Text) (points : List KeyPointRow)
    → All (λ point. Trimmed point.marker_kind) points
    → All
        (λ point.
          text_eq (normalized (some point.marker_kind)) word
          ≡ text_eq (to_upper_case point.marker_kind) word)
        points
unfolding normalized
markers_agree word [] h = tt
markers_agree word (point ∷ points) (e, h) =
    (ap (λ kind. text_eq (to_upper_case kind) word) e, markers_agree word points h)

reduce_key_points-eq-earliest :
    (earliest : Option ℤ) (points : List KeyPointRow)
    → reduce_key_points earliest points ≡ earliest_key_point earliest points
unfolding reduce_key_points earlier_of earliest_key_point
reduce_key_points-eq-earliest none [] = refl
reduce_key_points-eq-earliest (some earliest) [] = refl
reduce_key_points-eq-earliest none (point ∷ points) =
    reduce_key_points-eq-earliest (some point.capture_time_us) points
reduce_key_points-eq-earliest (some earliest) (point ∷ points) =
    reduce_key_points-eq-earliest
      (some (if ltb_ℤ point.capture_time_us earliest then point.capture_time_us else earliest))
      points

start_time-eq-segment_start :
    (boundaries : List BoundaryRow) (key_points : List KeyPointRow)
    → start_time
        (find is_start_kind boundaries)
        (find is_service_kind key_points)
        (earliest_key_point none key_points)
      ≡ segment_start_capture_time_us boundaries key_points
unfolding start_time segment_start_capture_time_us
start_time-eq-segment_start boundaries key_points =
    elim (Option-cases (find is_start_kind boundaries)) [
      | inr (boundary, found) ↦ rw (segment_start_capture_time_us, found) refl
      | inl no_boundary ↦ elim (Option-cases (find is_service_kind key_points)) [
        | inr (point, found) ↦ rw (segment_start_capture_time_us, no_boundary, found) refl
        | inl no_service ↦ rw (segment_start_capture_time_us, no_boundary, no_service) refl
      ]
    ]

start_capture_time_us-eq-segment_start :
    (submission : SubmissionRow)
    → All (λ boundary. Trimmed boundary.kind) submission.boundaries
    → All (λ point. Trimmed point.marker_kind) submission.key_points
    → start_capture_time_us submission
      ≡ segment_start_capture_time_us submission.boundaries submission.key_points
unfolding start_capture_time_us
start_capture_time_us-eq-segment_start submission h k =
    let found_boundary =
      find-cong (λ boundary. text_eq (normalized (some boundary.kind)) (codes "START"))
        is_start_kind submission.boundaries
        (starts_agree (codes "START") submission.boundaries h) in
    let found_service =
      find-cong (λ point. text_eq (normalized (some point.marker_kind)) (codes "SERVICE"))
        is_service_kind submission.key_points
        (markers_agree (codes "SERVICE") submission.key_points k) in
    ap
      (λ boundary.
        start_time boundary
          (find (λ point. text_eq (normalized (some point.marker_kind)) (codes "SERVICE"))
            submission.key_points)
          (reduce_key_points none submission.key_points))
      found_boundary
    ∙ ap
        (λ point.
          start_time (find is_start_kind submission.boundaries) point
            (reduce_key_points none submission.key_points))
        found_service
    ∙ ap
        (λ earliest.
          start_time (find is_start_kind submission.boundaries)
            (find is_service_kind submission.key_points) earliest)
        (reduce_key_points-eq-earliest none submission.key_points)
    ∙ start_time-eq-segment_start submission.boundaries submission.key_points

-- If the kinds of the boundaries and key points have no white space around them, the start by which
-- the loaded projection orders a rally is the time of its first start boundary, or else of its first
-- service, or else of its earliest key point, and is missing if there is none of these;
-- segmentStartCaptureTimeUs gives the same.
pub start_capture_time_us-IsStart :
    (submission : SubmissionRow)
    → All (λ boundary. Trimmed boundary.kind) submission.boundaries
    → All (λ point. Trimmed point.marker_kind) submission.key_points
    → IsStart submission.boundaries submission.key_points (start_capture_time_us submission)
      × (start_capture_time_us submission
          ≡ segment_start_capture_time_us submission.boundaries submission.key_points)
start_capture_time_us-IsStart submission h k =
    let same = start_capture_time_us-eq-segment_start submission h k in
    (
      subst (λ start. IsStart submission.boundaries submission.key_points start) (sym same)
          (segment_start_capture_time_us-IsStart submission.boundaries submission.key_points),
      same,
    )
