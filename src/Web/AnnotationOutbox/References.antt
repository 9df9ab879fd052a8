-- ===== src/Web/AnnotationOutbox/References.antt =====
-- Proofs about the key point references of web/app/lib/annotationOutbox.ts.
use volleyball_monitoring_ai.Base.{
  ◌≡◌, refl, sym, ap, subst, ◌∙◌, Bool, true, false, List, [], ◌∷◌, Option, none, some, ok,
  >>=-eq-ok, ok-injective, err-ne-ok, inl, inr, Bool-cases, if◌then◌else◌,
}
use volleyball_monitoring_ai.Base.Text.{Text, text_eq, text_eq_refl}
use volleyball_monitoring_ai.Contracts.AnnotationCommand.{
  AnnotationCommand, AnnotationPayload, start_rally, end_rally, create_service_key_point,
  set_rally_outcome, create_contact_key_point, close_rally, move_key_point, set_ball_event,
  set_ball_event_actor, delete_key_point, reopen_rally, void_rally, submit_rally,
}
use volleyball_monitoring_ai.Web.AnnotationOutbox.{
  AnnotationOutboxEntry, renamed, resolved_entry, resolve_annotation_outbox_key_point_reference,
}

-- The key point that a command is about.
abbrev pub key_point_of : AnnotationPayload → Option Text
key_point_of (move_key_point id cursor) = some id
key_point_of (set_ball_event id event) = some id
key_point_of (set_ball_event_actor id actor) = some id
key_point_of (delete_key_point id) = some id
key_point_of (close_rally target outcome) = some target
key_point_of payload = none

abbrev pub refers_to : Text → AnnotationOutboxEntry → Bool
refers_to id entry = elim (key_point_of entry.command.payload) [
  | none ↦ false
  | some k ↦ text_eq k id
]

-- The later entry is the earlier one, about the resolved key point if that is about the pending one.
abbrev pub Resolved :
    (AnnotationCommand → Bool)
    → Text
    → Text
    → AnnotationOutboxEntry
    → AnnotationOutboxEntry
    → Type 0
Resolved is_valid pending_id resolved_id entry later =
    (later.command.command_id ≡ entry.command.command_id)
    × (refers_to pending_id later ≡ false)
    × (refers_to pending_id entry ≡ false → later ≡ entry)
    × (refers_to pending_id entry ≡ true
        → (refers_to resolved_id later ≡ true)
          × (is_valid later.command ≡ true)
          × (later.attempted_at ≡ none))

-- Entry by entry.
abbrev pub AllResolved :
    (AnnotationCommand → Bool)
    → Text
    → Text
    → List AnnotationOutboxEntry
    → List AnnotationOutboxEntry
    → Type 0
AllResolved is_valid pending_id resolved_id [] [] = Unit
AllResolved is_valid pending_id resolved_id (entry ∷ entries) (later ∷ laters) =
    Resolved is_valid pending_id resolved_id entry later
    × AllResolved is_valid pending_id resolved_id entries laters
AllResolved is_valid pending_id resolved_id _ _ = ⊥

refers_by :
    (id q : Text) (entry : AnnotationOutboxEntry)
    → key_point_of entry.command.payload ≡ some id
    → refers_to q entry ≡ text_eq id q
refers_by id q entry h = ap (λ k. elim k [ none ↦ false | some j ↦ text_eq j q ]) h

opposite : {b : Bool} → b ≡ true → b ≡ false → ⊥
opposite h k = cc

module _ (pending_id resolved_id : Text) where
  -- A payload is renamed if and only if it is about the pending key point.
  Renaming : Option AnnotationPayload → AnnotationPayload → Type 0
  Renaming none payload =
      elim (key_point_of payload) [ none ↦ false | some k ↦ text_eq k pending_id ] ≡ false
  Renaming (some later) payload =
      (elim (key_point_of payload) [ none ↦ false | some k ↦ text_eq k pending_id ] ≡ true)
      × (key_point_of later ≡ some resolved_id)

  branch-Renaming :
      (id : Text) (payload later : AnnotationPayload)
      → key_point_of payload ≡ some id
      → key_point_of later ≡ some resolved_id
      → Renaming (if text_eq id pending_id then some later else none) payload
  unfolding Renaming
  branch-Renaming id payload later about renamed = elim (Bool-cases (text_eq id pending_id)) [
    | inl same ↦ rw (same, about) (same, renamed)
    | inr other ↦ rw (other, about) other
  ]

  renamed-Renaming :
      (payload : AnnotationPayload) → Renaming (renamed pending_id resolved_id payload) payload
  unfolding Renaming renamed
  renamed-Renaming (move_key_point id cursor) =
      branch-Renaming id (move_key_point id cursor) (move_key_point resolved_id cursor) refl refl
  renamed-Renaming (set_ball_event id event) =
      branch-Renaming id (set_ball_event id event) (set_ball_event resolved_id event) refl refl
  renamed-Renaming (set_ball_event_actor id actor) =
      branch-Renaming id (set_ball_event_actor id actor) (set_ball_event_actor resolved_id actor)
        refl refl
  renamed-Renaming (delete_key_point id) =
      branch-Renaming id (delete_key_point id) (delete_key_point resolved_id) refl refl
  renamed-Renaming (close_rally target outcome) =
      branch-Renaming target (close_rally target outcome) (close_rally resolved_id outcome) refl
        refl
  renamed-Renaming (start_rally cursor) = refl
  renamed-Renaming (end_rally cursor) = refl
  renamed-Renaming (create_service_key_point cursor) = refl
  renamed-Renaming (set_rally_outcome outcome) = refl
  renamed-Renaming (create_contact_key_point cursor terminal event) = refl
  renamed-Renaming reopen_rally = refl
  renamed-Renaming (void_rally reason) = refl
  renamed-Renaming submit_rally = refl

  resolved_entry-Resolved :
      (is_valid : AnnotationCommand → Bool) (entry later : AnnotationOutboxEntry)
      (payload : Option AnnotationPayload)
      → text_eq resolved_id pending_id ≡ false
      → Renaming payload entry.command.payload
      → resolved_entry is_valid entry payload ≡ ok later
      → Resolved is_valid pending_id resolved_id entry later
  unfolding Renaming resolved_entry
  resolved_entry-Resolved is_valid entry later none differ untouched e =
      let same : entry ≡ later = ok-injective e in
      (
        ap (λ x. x.command.command_id) (sym same),
        ap (refers_to pending_id) (sym same) ∙ untouched,
        λ _. sym same,
        λ about. absurd (opposite about untouched),
      )
  resolved_entry-Resolved is_valid entry later (some payload) differ (about, to_resolved) e =
      let command = record entry.command { payload = payload } in
      elim (Bool-cases (is_valid command)) [
        | inr invalid ↦ absurd (err-ne-ok (rw invalid at e))
        | inl valid ↦
            let same = ok-injective (rw valid at e) in
            let moved = record entry { attempted_at = none; command = command } in
            (
              ap (λ x. x.command.command_id) (sym same),
              ap (refers_to pending_id) (sym same)
                  ∙ refers_by resolved_id pending_id moved to_resolved
                  ∙ differ,
              λ untouched. absurd (opposite about untouched),
              λ _. (
                ap (refers_to resolved_id) (sym same)
                    ∙ refers_by resolved_id resolved_id moved to_resolved
                    ∙ text_eq_refl resolved_id,
                ap (λ x. is_valid x.command) (sym same) ∙ valid,
                ap (λ x. x.attempted_at) (sym same),
              ),
            )
      ]

-- Once a created key point's durable identity is known, and it is not the pending one, a successful
-- rewriting of the queue leaves no entry about the pending identity: each entry about it is about the
-- durable one, is valid and counts as not attempted; every other entry is unchanged, and all keep
-- their order and command identities.
pub resolve_annotation_outbox_key_point_reference-AllResolved :
    (is_valid : AnnotationCommand → Bool) (entries : List AnnotationOutboxEntry)
    (pending_id resolved_id : Text) (laters : List AnnotationOutboxEntry)
    → text_eq resolved_id pending_id ≡ false
    → resolve_annotation_outbox_key_point_reference is_valid entries pending_id resolved_id
      ≡ ok laters
    → AllResolved is_valid pending_id resolved_id entries laters
unfolding resolve_annotation_outbox_key_point_reference
resolve_annotation_outbox_key_point_reference-AllResolved is_valid [] pending_id resolved_id laters
      differ e =
    subst (AllResolved is_valid pending_id resolved_id []) (ok-injective e) tt
resolve_annotation_outbox_key_point_reference-AllResolved is_valid (entry ∷ entries) pending_id
      resolved_id laters differ e =
    let (later, first, e₁) =
      >>=-eq-ok
        (resolved_entry is_valid entry (renamed pending_id resolved_id entry.command.payload)) _
        e in
    let (rest, others, e₂) =
      >>=-eq-ok
        (resolve_annotation_outbox_key_point_reference is_valid entries pending_id resolved_id) _
        e₁ in
    subst (AllResolved is_valid pending_id resolved_id (entry ∷ entries)) (ok-injective e₂) (
      resolved_entry-Resolved pending_id resolved_id is_valid entry later
          (renamed pending_id resolved_id entry.command.payload) differ
          (renamed-Renaming pending_id resolved_id entry.command.payload) first,
      resolve_annotation_outbox_key_point_reference-AllResolved is_valid entries pending_id
          resolved_id rest differ others,
    )
