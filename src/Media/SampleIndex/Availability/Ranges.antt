-- ===== src/Media/SampleIndex/Availability/Ranges.antt =====
-- Proofs about buildAvailabilityRanges of packages/media/src/sample-index.ts.
use mathlib.Core.List.{append_assoc}
use volleyball_monitoring_ai.Base.{
  ◌≡◌, refl, sym, ◌∙◌, ap, true, false, List, [], ◌∷◌, ◌++◌, map, Option, none, some, ok, >>=-eq-ok,
  >>-eq-ok, ok-injective, err-ne-ok, arith, Bool-cases, inl, inr, last_of,
}
use volleyball_monitoring_ai.Base.Text.{Text}
use volleyball_monitoring_ai.Base.Int.{
  ℤ, pos, ◌+ℤ◌, pos_part, neg_part, ◌≤ℤ◌, ◌<ℤ◌, eqb_ℤ, eq_of_eqb_ℤ, eq_of_parts, +ℤ_parts,
  pos_part-pos, neg_part-pos,
}
use volleyball_monitoring_ai.Media.SampleIndex.{IndexedSample, validate_index}
use volleyball_monitoring_ai.Media.SampleIndex.Extent.{validate_index-extent}
use volleyball_monitoring_ai.Media.SampleIndex.Availability.{
  AvailabilityEntry, AvailabilityRange, check_boundary_samples, check_boundary, check_previous,
  check_entry, carries_on, open_range, extend_range, coalesce, build_availability_ranges,
}

-- The segments of all ranges, in order.
pub segments_of : List AvailabilityRange → List Text
segments_of [] = []
segments_of (r ∷ ranges) = r.segment_ids ++ segments_of ranges

-- Discontinuities count up from the given one, no range starts before the given time or before the
-- end of the one in front of it, and none is empty.
abbrev pub Ordered : ℤ → ℤ → List AvailabilityRange → Type 0
Ordered discontinuity from [] = Unit
Ordered discontinuity from (r ∷ ranges) =
    (r.discontinuity ≡ discontinuity)
    × (from ≤ℤ r.start_us)
    × (r.start_us <ℤ r.end_us)
    × Ordered (discontinuity +ℤ pos 1) r.end_us ranges

-- What the tests of an entry and the one before it leave.
record Follows (previous entry : AvailabilityEntry) : Type 0 where
  pub extent : entry.index.available_start_us <ℤ entry.index.available_end_us
  pub starts_behind : previous.index.available_end_us ≤ℤ entry.index.available_start_us
  pub opens :
      carries_on previous entry ≡ false → entry.discontinuity ≡ previous.discontinuity +ℤ pos 1

boundary-opens :
    (previous entry : AvailabilityEntry) (p n : IndexedSample)
    → check_boundary_samples previous entry p n ≡ ok tt
    → carries_on previous entry ≡ false
    → eqb_ℤ entry.discontinuity previous.discontinuity ≡ false
unfolding check_boundary_samples carries_on
boundary-opens previous entry p n e h = ground arith

check_boundary-opens :
    (previous entry : AvailabilityEntry) (ps ns : List IndexedSample)
    → check_boundary previous entry ps ns ≡ ok tt
    → carries_on previous entry ≡ false
    → eqb_ℤ entry.discontinuity previous.discontinuity ≡ false
unfolding check_boundary
check_boundary-opens previous entry [] ns e h = absurd (err-ne-ok e)
check_boundary-opens previous entry (p ∷ ps) [] e h = absurd (err-ne-ok e)
check_boundary-opens previous entry (p ∷ ps) (n ∷ ns) e h =
    boundary-opens previous entry (last_of p ps) n e h

next_of : (a b : ℤ) → eqb_ℤ a b ≡ false → b ≤ℤ a → a ≤ℤ b +ℤ pos 1 → a ≡ b +ℤ pos 1
next_of a b h k m =
    ground (arith, eq_of_parts a (b +ℤ pos 1), +ℤ_parts b (pos 1), pos_part-pos 1, neg_part-pos 1)

check_previous-Follows :
    (previous entry : AvailabilityEntry)
    → validate_index entry.index ≡ ok tt
    → check_previous (some previous) entry ≡ ok tt
    → Follows previous entry
unfolding check_previous
check_previous-Follows previous entry valid e =
    let extent = validate_index-extent entry.index valid in
    let at : check_boundary previous entry previous.index.samples entry.index.samples ≡ ok tt =
      ground arith in
    let step : (previous.discontinuity ≤ℤ entry.discontinuity)
        × (entry.discontinuity ≤ℤ previous.discontinuity +ℤ pos 1) =
      ground arith in
    record {
      extent = extent;
      starts_behind = ground arith;
      opens = λ h.
          let other =
            check_boundary-opens previous entry previous.index.samples entry.index.samples at h in
          next_of entry.discontinuity previous.discontinuity other step.0 step.1;
    }

check_entry-Follows :
    (ids : List Text) (previous : Option AvailabilityEntry) (entry : AvailabilityEntry)
    → check_entry ids previous entry ≡ ok tt
    → (validate_index entry.index ≡ ok tt) × (check_previous previous entry ≡ ok tt)
unfolding check_entry
check_entry-Follows ids previous entry e = ground arith

carries_on-discontinuity :
    (previous entry : AvailabilityEntry)
    → carries_on previous entry ≡ true
    → entry.discontinuity ≡ previous.discontinuity
unfolding carries_on
carries_on-discontinuity previous entry h =
    ground (arith, eq_of_parts entry.discontinuity previous.discontinuity)

-- The ranges from `current` on hold the segments of `current` and of the entries.
record Covers (current : AvailabilityRange) (entries : List AvailabilityEntry)
    (ranges : List AvailabilityRange) : Type 0 where
  pub keeps_segments :
      segments_of ranges
      ≡ current.segment_ids ++ map (λ (e : AvailabilityEntry). e.segment_id) entries
  pub is_ordered : Ordered current.discontinuity current.start_us ranges

-- `current` is the range that ends with the entry.
record EndsWith (entry : AvailabilityEntry) (current : AvailabilityRange) : Type 0 where
  pub same_discontinuity : current.discontinuity ≡ entry.discontinuity
  pub same_end : current.end_us ≡ entry.index.available_end_us
  pub extent : current.start_us <ℤ current.end_us

open_range-EndsWith :
    (entry : AvailabilityEntry)
    → entry.index.available_start_us <ℤ entry.index.available_end_us
    → EndsWith entry (open_range entry)
unfolding open_range
open_range-EndsWith entry h = record { same_discontinuity = refl; same_end = refl; extent = h }

extend_range-EndsWith :
    (previous entry : AvailabilityEntry) (current : AvailabilityRange)
    → EndsWith previous current
    → Follows previous entry
    → carries_on previous entry ≡ true
    → EndsWith entry (extend_range current entry)
unfolding extend_range
extend_range-EndsWith previous entry current w f h = record {
  same_discontinuity = w.same_discontinuity ∙ sym (carries_on-discontinuity previous entry h);
  same_end = refl;
  extent =
      let ends = w.same_end in
      let extent = w.extent in
      let behind = f.starts_behind in
      let next = f.extent in omega (arith, ap pos_part ends, ap neg_part ends);
}

Covers-extend :
    (current : AvailabilityRange) (entry : AvailabilityEntry) (entries : List AvailabilityEntry)
    (ranges : List AvailabilityRange)
    → Covers (extend_range current entry) entries ranges
    → Covers current (entry ∷ entries) ranges
unfolding extend_range
Covers-extend current entry entries ranges c = record {
  keeps_segments = c.keeps_segments ∙ append_assoc current.segment_ids _ _;
  is_ordered = c.is_ordered;
}

Ordered-next :
    (d e from start : ℤ) (ranges : List AvailabilityRange)
    → e ≡ d
    → from ≤ℤ start
    → Ordered e start ranges
    → Ordered d from ranges
Ordered-next d e from start [] h k o = tt
Ordered-next d e from start (r ∷ ranges) h k o = rw (← h) (o.0, omega arith, o.2, o.3)

Covers-open :
    (previous entry : AvailabilityEntry) (current : AvailabilityRange)
    (entries : List AvailabilityEntry) (ranges : List AvailabilityRange)
    → EndsWith previous current
    → Follows previous entry
    → carries_on previous entry ≡ false
    → Covers (open_range entry) entries ranges
    → Covers current (entry ∷ entries) (current ∷ ranges)
unfolding open_range segments_of
Covers-open previous entry current entries ranges w f h c = record {
  keeps_segments = ap (λ ids. current.segment_ids ++ ids) c.keeps_segments;
  is_ordered = (
    refl,
    omega arith,
    w.extent,
    Ordered-next (current.discontinuity +ℤ pos 1) entry.discontinuity current.end_us
        entry.index.available_start_us ranges
        (f.opens h ∙ ap (λ d. d +ℤ pos 1) (sym w.same_discontinuity))
        (rw w.same_end f.starts_behind) c.is_ordered,
  );
}

coalesce-Covers :
    (ids : List Text) (previous : AvailabilityEntry) (current : AvailabilityRange)
    (entries : List AvailabilityEntry) (ranges : List AvailabilityRange)
    → EndsWith previous current
    → coalesce ids previous current entries ≡ ok ranges
    → Covers current entries ranges
unfolding coalesce segments_of
coalesce-Covers ids previous current [] ranges w e =
    rw (← ok-injective e)
      (record { keeps_segments = refl; is_ordered = (refl, omega arith, w.extent, tt) })
coalesce-Covers ids previous current (entry ∷ entries) ranges w e =
    let (checked, e₁) = >>-eq-ok (check_entry ids (some previous) entry) _ e in
    let (valid, after) = check_entry-Follows ids (some previous) entry checked in
    let f = check_previous-Follows previous entry valid after in
    elim (Bool-cases (carries_on previous entry)) [
      | inl on ↦ Covers-extend current entry entries ranges (
          coalesce-Covers (entry.segment_id ∷ ids) entry (extend_range current entry) entries ranges
            (extend_range-EndsWith previous entry current w f on) (rw on at e₁))
      | inr off ↦
          let (later, is_later, e₂) =
            >>=-eq-ok (coalesce (entry.segment_id ∷ ids) entry (open_range entry) entries) _
              (rw off at e₁) in
          rw (← ok-injective e₂) (
            Covers-open previous entry current entries later w f off (
              coalesce-Covers (entry.segment_id ∷ ids) entry (open_range entry) entries later
                (open_range-EndsWith entry f.extent) is_later))
    ]

abbrev pub IsOrdered : List AvailabilityRange → Type 0
IsOrdered [] = Unit
IsOrdered (r ∷ ranges) = Ordered (pos 0) r.start_us (r ∷ ranges)

Ordered-IsOrdered :
    (from : ℤ) (ranges : List AvailabilityRange) → Ordered (pos 0) from ranges → IsOrdered ranges
Ordered-IsOrdered from [] h = tt
Ordered-IsOrdered from (r ∷ ranges) h = (h.0, omega arith, h.2, h.3)

first-discontinuity :
    (entry : AvailabilityEntry) → check_previous none entry ≡ ok tt → entry.discontinuity ≡ pos 0
unfolding check_previous
first-discontinuity entry e = eq_of_eqb_ℤ entry.discontinuity (pos 0) (ground arith)

-- The ranges hold all segments, each once and in the order of the entries. Their discontinuities
-- are 0, 1, 2 and so on, each is not empty, and none starts before the one in front of it ends.
pub build_availability_ranges-IsOrdered :
    (entries : List AvailabilityEntry) (ranges : List AvailabilityRange)
    → build_availability_ranges entries ≡ ok ranges
    → (segments_of ranges ≡ map (λ (e : AvailabilityEntry). e.segment_id) entries)
      × IsOrdered ranges
unfolding build_availability_ranges segments_of open_range
build_availability_ranges-IsOrdered [] ranges e = rw (← ok-injective e) (refl, tt)
build_availability_ranges-IsOrdered (entry ∷ entries) ranges e =
    let (checked, e₁) = >>-eq-ok (check_entry [] none entry) _ e in
    let (valid, after) = check_entry-Follows [] none entry checked in
    let c =
      coalesce-Covers (entry.segment_id ∷ []) entry (open_range entry) entries ranges
        (open_range-EndsWith entry (validate_index-extent entry.index valid)) e₁ in
    (
      c.keeps_segments,
      Ordered-IsOrdered entry.index.available_start_us ranges
          (rw (first-discontinuity entry after) at c.is_ordered),
    )
