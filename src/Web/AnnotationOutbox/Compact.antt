-- ===== src/Web/AnnotationOutbox/Compact.antt =====
-- Proofs about the compaction of web/app/lib/annotationOutbox.ts: it keeps, of the entries that are
-- not exhausted, the last one of each key.
use volleyball_monitoring_ai.Base.{
  ℕ, ◌≡◌, refl, sym, ap, subst, ◌∙◌, Bool, true, false, List, [], ◌∷◌, ◌++◌, Option, none, some, ok,
  err, any, keep, ltb, not, length, inl, inr, Bool-cases, if◌then◌else◌, arith,
}
use mathlib.Core.List.{append_assoc, append-nil}
use volleyball_monitoring_ai.Base.Text.{Text, text_eq, text_eq_iff, text_eq_refl}
use volleyball_monitoring_ai.Base.Maps.{map_get, map_set, map_get-map_set}
use volleyball_monitoring_ai.Contracts.AnnotationCommand.{AnnotationCommand}
use volleyball_monitoring_ai.Web.AnnotationOutbox.{
  AnnotationOutboxEntry, Observation, Compaction, coalescing_key, is_exhausted, set_null,
  push_keyed, push_entry, compact_entries, present, initial_compaction, compact_annotation_outbox,
  enqueue_annotation_command, queued, has_command, max_entries, outbox_full,
}
use volleyball_monitoring_ai.Web.AnnotationOutbox.Slots.{
  Single, Single-clear, Single-snoc, clear, clear_absent, has_key, last_of_each_key,
  last_of_each_key-snoc, position, position-clear, position-snoc, present-clear, present-snoc,
  set_null-clear, without, without_key,
}

-- What the loop keeps, of the entries that it has taken in.
record IsCompact (taken : List AnnotationOutboxEntry) (c : Compaction) : Type 0 where
  single : Single c.compacted
  indexed : (key : Text) → map_get key c.index_by_key ≡ position key c.compacted
  kept : present c.compacted ≡ last_of_each_key taken

absent_of_key :
    (key q : Text) (entry : AnnotationOutboxEntry) (found : Option ℕ)
    → coalescing_key entry ≡ some key
    → has_key q entry ≡ true
    → (if text_eq key q then none else found) ≡ none
absent_of_key key q entry found keyed h = ground (arith, text_eq_iff key q)

push_unkeyed :
    (taken : List AnnotationOutboxEntry) (entry : AnnotationOutboxEntry) (c : Compaction)
    → coalescing_key entry ≡ none
    → IsCompact taken c
    → IsCompact (taken ++ entry ∷ []) (push_entry entry none c)
unfolding push_entry
push_unkeyed taken entry c unkeyed h = record {
  single = Single-snoc c.compacted entry h.single (λ q same. keyless q same);
  indexed = λ q. h.indexed q ∙ stays q (position-snoc q c.compacted entry);
  kept =
      present-snoc c.compacted entry
      ∙ ap (λ xs. xs ++ entry ∷ []) h.kept
      ∙ sym (
          last_of_each_key-snoc taken entry
          ∙ ap (λ k. without_key k (last_of_each_key taken) ++ entry ∷ []) unkeyed);
}
  where
    keyless : (q : Text) → has_key q entry ≡ true → position q c.compacted ≡ none
    keyless q same = ground arith

    stays :
        (q : Text)
        → position q (c.compacted ++ some entry ∷ []) ≡ elim (position q c.compacted) [
          | some i ↦ some i
          | none ↦ if has_key q entry then some (length c.compacted) else none
        ]
        → position q c.compacted ≡ position q (c.compacted ++ some entry ∷ [])
    stays q h = ground arith

-- A keyed entry is pushed behind the others, which hold no entry of its key any more.
push_at_end :
    (taken : List AnnotationOutboxEntry) (entry : AnnotationOutboxEntry) (key : Text)
    (cleared : List (Option AnnotationOutboxEntry)) (index : List (Text × ℕ))
    → coalescing_key entry ≡ some key
    → Single cleared
    → position key cleared ≡ none
    → ((q : Text) → text_eq key q ≡ false → map_get q index ≡ position q cleared)
    → present cleared ≡ without key (last_of_each_key taken)
    → IsCompact (taken ++ entry ∷ []) (record {
      compacted = cleared ++ some entry ∷ [];
      index_by_key = map_set key (length cleared) index;
    })
push_at_end taken entry key cleared index keyed single gone indexed kept = record {
  single = Single-snoc cleared entry single (λ q same. not_there q same);
  indexed = λ q. map_get-map_set key q (length cleared) index ∙ (elim (Bool-cases (text_eq key q)) [
    | inl same ↦ found q same (position-snoc q cleared entry)
    | inr other ↦ elsewhere q other (indexed q other) (position-snoc q cleared entry)
  ]);
  kept =
      present-snoc cleared entry
      ∙ ap (λ xs. xs ++ entry ∷ []) kept
      ∙ sym (
          last_of_each_key-snoc taken entry
          ∙ ap (λ k. without_key k (last_of_each_key taken) ++ entry ∷ []) keyed);
}
  where
    not_there : (q : Text) → has_key q entry ≡ true → position q cleared ≡ none
    not_there q same = ground (arith, text_eq_iff key q)

    found :
        (q : Text)
        → text_eq key q ≡ true
        → position q (cleared ++ some entry ∷ []) ≡ elim (position q cleared) [
          | some i ↦ some i
          | none ↦ if has_key q entry then some (length cleared) else none
        ]
        → (if text_eq key q then some (length cleared) else map_get q index)
          ≡ position q (cleared ++ some entry ∷ [])
    found q same h = ground (arith, text_eq_iff key q)

    elsewhere :
        (q : Text)
        → text_eq key q ≡ false
        → map_get q index ≡ position q cleared
        → position q (cleared ++ some entry ∷ []) ≡ elim (position q cleared) [
          | some i ↦ some i
          | none ↦ if has_key q entry then some (length cleared) else none
        ]
        → (if text_eq key q then some (length cleared) else map_get q index)
          ≡ position q (cleared ++ some entry ∷ [])
    elsewhere q other i h = ground arith

present-without :
    (taken : List AnnotationOutboxEntry) (key : Text) (c : Compaction)
    → IsCompact taken c
    → present (clear key c.compacted) ≡ without key (last_of_each_key taken)
present-without taken key c h = present-clear key c.compacted ∙ ap (without key) h.kept

push_keyed-IsCompact :
    (taken : List AnnotationOutboxEntry) (entry : AnnotationOutboxEntry) (key : Text)
    (previous : Option ℕ) (c : Compaction)
    → coalescing_key entry ≡ some key
    → map_get key c.index_by_key ≡ previous
    → IsCompact taken c
    → IsCompact (taken ++ entry ∷ []) (push_keyed entry key previous c)
unfolding push_keyed
push_keyed-IsCompact taken entry key none c keyed found h =
    let nowhere = sym (h.indexed key) ∙ found in
    push_at_end taken entry key c.compacted c.index_by_key keyed h.single nowhere
      (λ q other. h.indexed q)
      (ap present (sym (clear_absent key c.compacted nowhere)) ∙ present-without taken key c h)
push_keyed-IsCompact taken entry key (some i) c keyed found h =
    let there = sym (h.indexed key) ∙ found in
    let cleared = sym (set_null-clear key c.compacted i h.single there) in
    push_at_end taken entry key (set_null i c.compacted) c.index_by_key keyed
      (subst Single cleared (Single-clear key c.compacted h.single))
      (subst (λ xs. position key xs ≡ none) cleared
        (position-clear key key c.compacted ∙ rw (text_eq_refl key) refl))
      (λ q other.
        h.indexed q
        ∙ subst (λ xs. position q c.compacted ≡ position q xs) cleared
            (sym (position-clear key q c.compacted ∙ rw other refl)))
      (subst (λ xs. present xs ≡ without key (last_of_each_key taken)) cleared
        (present-without taken key c h))

push_entry-IsCompact :
    (taken : List AnnotationOutboxEntry) (entry : AnnotationOutboxEntry) (key : Option Text)
    (c : Compaction)
    → coalescing_key entry ≡ key
    → IsCompact taken c
    → IsCompact (taken ++ entry ∷ []) (push_entry entry key c)
unfolding push_entry
push_entry-IsCompact taken entry none c keyed h = push_unkeyed taken entry c keyed h
push_entry-IsCompact taken entry (some key) c keyed h =
    push_keyed-IsCompact taken entry key (map_get key c.index_by_key) c keyed refl h

-- The entries that are not exhausted.
abbrev pub fresh : List AnnotationOutboxEntry → List AnnotationOutboxEntry
fresh = keep (λ entry. not (is_exhausted entry))

compact_entries-IsCompact :
    (taken : List AnnotationOutboxEntry) (c : Compaction) (entries : List AnnotationOutboxEntry)
    → IsCompact taken c
    → IsCompact (taken ++ fresh entries) (compact_entries c entries)
unfolding compact_entries
compact_entries-IsCompact taken c [] h = subst (λ xs. IsCompact xs c) (sym (append-nil taken)) h
compact_entries-IsCompact taken c (entry ∷ entries) h = elim (Bool-cases (is_exhausted entry)) [
  | inl exhausted ↦ rw exhausted (compact_entries-IsCompact taken c entries h)
  | inr usable ↦
      let pushed = push_entry entry (coalescing_key entry) c in
      rw usable (
        subst (λ xs. IsCompact xs (compact_entries pushed entries))
          (append_assoc taken (entry ∷ []) (fresh entries))
          (compact_entries-IsCompact (taken ++ entry ∷ []) pushed entries
            (push_entry-IsCompact taken entry (coalescing_key entry) c refl h)))
]

initial_compaction-IsCompact : IsCompact [] initial_compaction
unfolding initial_compaction position map_get present
initial_compaction-IsCompact = record { single = tt; indexed = λ key. refl; kept = refl }

-- The compaction of a queue holds, in their order, the entries that have not used up their three
-- attempts and that no later such entry of the same coalescing key supersedes.
pub compact_annotation_outbox-eq-last_of_each_key :
    (entries : List AnnotationOutboxEntry)
    → compact_annotation_outbox entries ≡ last_of_each_key (fresh entries)
unfolding compact_annotation_outbox
compact_annotation_outbox-eq-last_of_each_key entries =
    (compact_entries-IsCompact [] initial_compaction entries initial_compaction-IsCompact).kept

keep-append {ℓ} :
    {A : Type ℓ} (p : A → Bool) (xs ys : List A) → keep p (xs ++ ys) ≡ keep p xs ++ keep p ys
keep-append p [] ys = refl
keep-append p (x ∷ xs) ys = ground (arith, keep-append p xs ys)

-- A new command that is not exhausted and whose identity is not in the queue is refused if the
-- compacted queue would hold more than 256 entries; otherwise the queue has at most 256 entries,
-- the last one is the command's, and before it stand the entries of the compacted queue without
-- those of the command's coalescing key.
pub enqueue_annotation_command-lands :
    (entries : List AnnotationOutboxEntry) (command : AnnotationCommand) (now : Text)
    (observation : Option Observation) (retry_count : Option ℕ)
    → any (has_command command.command_id) entries ≡ false
    → is_exhausted (queued command now observation retry_count) ≡ false
    → let entry = queued command now observation retry_count in
      let landed =
        without_key (coalescing_key entry) (compact_annotation_outbox entries) ++ entry ∷ [] in
      enqueue_annotation_command entries command now observation retry_count
      ≡ (if ltb max_entries (length landed) then err outbox_full else ok landed)
unfolding enqueue_annotation_command
enqueue_annotation_command-lands entries command now observation retry_count new usable =
    let entry = queued command now observation retry_count in
    let appended : compact_annotation_outbox (entries ++ entry ∷ [])
        ≡ without_key (coalescing_key entry) (compact_annotation_outbox entries) ++ entry ∷ [] =
      compact_annotation_outbox-eq-last_of_each_key (entries ++ entry ∷ [])
      ∙ ap last_of_each_key (
          keep-append (λ e. not (is_exhausted e)) entries (entry ∷ [])
          ∙ ap (λ xs. fresh entries ++ xs) (rw usable refl))
      ∙ last_of_each_key-snoc (fresh entries) entry
      ∙ ap (λ xs. without_key (coalescing_key entry) xs ++ entry ∷ [])
          (sym (compact_annotation_outbox-eq-last_of_each_key entries)) in
    rw (new, appended) refl
