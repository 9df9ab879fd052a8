-- ===== src/Web/AnnotationOutbox/Examples.antt =====
-- The theorems about web/app/lib/annotationOutbox.ts at a small queue, and tests.
use volleyball_monitoring_ai.Base.{
  ℕ, ◌≡◌, refl, true, false, List, [], ◌∷◌, ◌++◌, Option, none, some, ok, err, ltb, length,
  if◌then◌else◌,
}
use volleyball_monitoring_ai.Base.Text.{Text, codes, text_eq}
use volleyball_monitoring_ai.Base.Json.{null}
use volleyball_monitoring_ai.Contracts.BallEvent.{spike, success}
use volleyball_monitoring_ai.Contracts.AnnotationCommand.{
  AnnotationCommand, AnnotationPayload, four, move_key_point, delete_key_point, end_rally,
  create_contact_key_point,
}
use volleyball_monitoring_ai.Web.AnnotationOutbox.{
  AnnotationOutboxEntry, outbox_full, max_entries, coalescing_key, compact_annotation_outbox,
  enqueue_annotation_command, queued, has_command, resolve_annotation_outbox_key_point_reference,
  is_exhausted,
}
use volleyball_monitoring_ai.Web.AnnotationOutbox.Compact.{
  fresh, compact_annotation_outbox-eq-last_of_each_key, enqueue_annotation_command-lands,
}
use volleyball_monitoring_ai.Web.AnnotationOutbox.Slots.{last_of_each_key, without_key}
use volleyball_monitoring_ai.Web.AnnotationOutbox.References.{
  AllResolved, resolve_annotation_outbox_key_point_reference-AllResolved,
}

abbrev command_of : Text → AnnotationPayload → AnnotationCommand
command_of id payload = record {
  schema_version = four;
  command_id = id;
  room_id = codes "room";
  base_revision = codes "1";
  rally_id = codes "r";
  payload = payload;
}

abbrev entry_of : Text → AnnotationPayload → Option ℕ → AnnotationOutboxEntry
entry_of id payload retries = queued (command_of id payload) (codes "now") none retries

-- Two moves of one key point, an exhausted command and a deletion.
abbrev queue : List AnnotationOutboxEntry
queue =
    entry_of (codes "c1") (move_key_point (codes "pending:c0") null) none
    ∷ entry_of (codes "c2") (end_rally null) (some 3)
    ∷ entry_of (codes "c3") (delete_key_point (codes "k")) (some 2)
    ∷ entry_of (codes "c4") (move_key_point (codes "pending:c0") null) none
    ∷ []

compaction_example : compact_annotation_outbox queue ≡ last_of_each_key (fresh queue)
compaction_example = compact_annotation_outbox-eq-last_of_each_key queue

later_move_wins :
    compact_annotation_outbox queue
    ≡ entry_of (codes "c3") (delete_key_point (codes "k")) (some 2)
      ∷ entry_of (codes "c4") (move_key_point (codes "pending:c0") null) none
      ∷ []
unfolding compact_annotation_outbox text_eq
later_move_wins = refl

abbrev third_move : AnnotationCommand
third_move = command_of (codes "c5") (move_key_point (codes "pending:c0") null)

abbrev third_entry : AnnotationOutboxEntry
third_entry = queued third_move (codes "now") none none

enqueue_example : enqueue_annotation_command queue third_move (codes "now") none none ≡ (
    if ltb max_entries (
      length (
        without_key (coalescing_key third_entry) (compact_annotation_outbox queue)
        ++ third_entry ∷ []))
    then err outbox_full
    else ok (
        without_key (coalescing_key third_entry) (compact_annotation_outbox queue)
        ++ third_entry ∷ []))
unfolding has_command is_exhausted text_eq
enqueue_example =
    enqueue_annotation_command-lands queue third_move (codes "now") none none refl refl

enqueued :
    enqueue_annotation_command queue third_move (codes "now") none none
    ≡ ok (entry_of (codes "c3") (delete_key_point (codes "k")) (some 2) ∷ third_entry ∷ [])
unfolding enqueue_annotation_command text_eq
enqueued = refl

abbrev resolved_queue : List AnnotationOutboxEntry
resolved_queue =
    entry_of (codes "c1") (move_key_point (codes "k0") null) none
    ∷ entry_of (codes "c2") (end_rally null) (some 3)
    ∷ entry_of (codes "c3") (delete_key_point (codes "k")) (some 2)
    ∷ entry_of (codes "c4") (move_key_point (codes "k0") null) none
    ∷ []

resolved_references :
    resolve_annotation_outbox_key_point_reference
      (λ command. true)
      queue
      (codes "pending:c0")
      (codes "k0")
    ≡ ok resolved_queue
unfolding resolve_annotation_outbox_key_point_reference
resolved_references = refl

references_example :
    AllResolved (λ command. true) (codes "pending:c0") (codes "k0") queue resolved_queue
unfolding text_eq
references_example =
    resolve_annotation_outbox_key_point_reference-AllResolved (λ command. true) queue
      (codes "pending:c0") (codes "k0") resolved_queue refl resolved_references

-- The same contact on one frame is one command.
abbrev contact_of : Text → AnnotationOutboxEntry
contact_of id =
    queued
      (command_of id (
        create_contact_key_point null false
          (some (record { kind = spike; result = some success; serve_style = none }))))
      (codes "now")
      (some (record { capture_time_us = codes "5"; capture_frame_index = some (codes "12") })) none

contact_key_text :
    coalescing_key (contact_of (codes "c6"))
    ≡ some (codes "r:CREATE_CONTACT_KEY_POINT:12:SPIKE:SUCCESS:")
unfolding coalescing_key
contact_key_text = refl
