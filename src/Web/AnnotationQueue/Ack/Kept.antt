-- ===== src/Web/AnnotationQueue/Ack/Kept.antt =====
-- What the cases of `applyAnnotationAckLocally`, web/app/lib/annotationCommandQueue.ts, leave alone.
use volleyball_monitoring_ai.Base.{
  ◌≡◌, refl, ◌∙◌, Bool, false, Option, none, some, any, inl, inr, Bool-cases, arith,
}
use volleyball_monitoring_ai.Base.Text.{Text, text_eq}
use volleyball_monitoring_ai.Base.Int.{ℤ}
use volleyball_monitoring_ai.Contracts.BallEvent.{BallEventValue, BoundaryKind, start, end}
use volleyball_monitoring_ai.Contracts.AnnotationCommand.{
  AnnotationCommand, AnnotationPayload, start_rally, end_rally, create_service_key_point,
  create_contact_key_point, move_key_point,
}
use volleyball_monitoring_ai.Contracts.AnnotationSnapshot.{AnnotationRallySnapshot}
use volleyball_monitoring_ai.Contracts.AnnotationAck.{
  AnnotationCommandAck, AnnotationAckEffects, AnnotationResolvedAnchor,
}
use volleyball_monitoring_ai.Web.AnnotationQueue.{starts_rally}
use volleyball_monitoring_ai.Web.AnnotationQueue.Converged.Normalized.{normalize_projected-keeps}
use volleyball_monitoring_ai.Web.AnnotationQueue.Ack.{
  start_of, with_effects, with_confirmed_end, add_confirmed_contact, apply_confirmed,
  corrected_snapshot, confirmed_next, created_id,
}

-- The fields of the rally that only the acknowledgement itself sets.
abbrev pub SameRally : AnnotationRallySnapshot → AnnotationRallySnapshot → Type 0
SameRally t s =
    (t.rally_id ≡ s.rally_id)
    × (t.revision ≡ s.revision)
    × (t.annotation_status ≡ s.annotation_status)
    × (t.score_resolution ≡ s.score_resolution)
    × (t.scoring_court_side ≡ s.scoring_court_side)

add_confirmed_contact-SameRally :
    (effects : AnnotationAckEffects) (terminal : Bool) (event : Option BallEventValue)
    (anchor : AnnotationResolvedAnchor) (id : Text) (s : AnnotationRallySnapshot)
    → SameRally (add_confirmed_contact effects terminal event anchor id s) s
unfolding add_confirmed_contact
add_confirmed_contact-SameRally effects terminal event anchor id s =
    elim (Bool-cases (any (λ point. text_eq point.key_point_id id) s.key_points)) [
      | inl there ↦ rw there (refl, refl, refl, refl, refl)
      | inr new ↦ rw new (refl, refl, refl, refl, refl)
    ]

module _ (locale_compare : Text → Text → ℤ) (command : AnnotationCommand)
    (effects : AnnotationAckEffects) where
  apply_confirmed-SameRally :
      (payload : AnnotationPayload) (anchor : Option AnnotationResolvedAnchor)
      (kind : Option BoundaryKind) (created : Option Text) (s : AnnotationRallySnapshot)
      → SameRally (apply_confirmed locale_compare command effects payload anchor kind created s) s
  unfolding apply_confirmed with_confirmed_end
  apply_confirmed-SameRally (end_rally cursor) (some anchor) (some end) created s =
      (refl, refl, refl, refl, refl)
  apply_confirmed-SameRally (end_rally cursor) (some anchor) (some start) created s =
      (refl, refl, refl, refl, refl)
  apply_confirmed-SameRally (end_rally cursor) (some anchor) none created s =
      (refl, refl, refl, refl, refl)
  apply_confirmed-SameRally (end_rally cursor) none kind created s = (refl, refl, refl, refl, refl)
  apply_confirmed-SameRally (create_contact_key_point cursor terminal event) (some anchor) kind
        (some id) s =
      add_confirmed_contact-SameRally effects terminal event anchor id s
  apply_confirmed-SameRally (create_contact_key_point cursor terminal event) (some anchor) kind none
        s =
      (refl, refl, refl, refl, refl)
  apply_confirmed-SameRally (create_contact_key_point cursor terminal event) none kind created s =
      (refl, refl, refl, refl, refl)
  apply_confirmed-SameRally (move_key_point id cursor) (some anchor) kind created s =
      (refl, refl, refl, refl, refl)
  apply_confirmed-SameRally (move_key_point id cursor) none kind created s =
      (refl, refl, refl, refl, refl)
  apply_confirmed-SameRally _ anchor kind created s = (refl, refl, refl, refl, refl)

module _ (locale_compare : Text → Text → ℤ) where
  pub start_of-none :
      (command : AnnotationCommand) (ack : AnnotationCommandAck) (payload : AnnotationPayload)
      (anchor : Option AnnotationResolvedAnchor) (kind : Option BoundaryKind)
      (created : Option Text)
      → starts_rally payload ≡ false
      → start_of command ack payload anchor kind created ≡ none
  unfolding start_of starts_rally
  start_of-none command ack (start_rally cursor) anchor kind created other = ground arith
  start_of-none command ack (create_service_key_point cursor) anchor kind created other =
      ground arith
  start_of-none command ack _ anchor kind created other = refl

  -- The next snapshot has the rally, the acknowledged revision and the acknowledged effects.
  pub confirmed_next-SameRally :
      (command : AnnotationCommand) (ack : AnnotationCommandAck) (s : AnnotationRallySnapshot)
      → SameRally (confirmed_next locale_compare command ack s) (with_effects command ack s)
  unfolding confirmed_next corrected_snapshot
  confirmed_next-SameRally command ack s =
      let applied =
        apply_confirmed locale_compare command ack.effects command.payload ack.resolved_anchor
          ack.effects.boundary_kind (created_id ack.effects) (with_effects command ack s) in
      let kept =
        normalize_projected-keeps locale_compare
          (corrected_snapshot locale_compare ack.effects applied) in
      let same =
        apply_confirmed-SameRally locale_compare command ack.effects command.payload
          ack.resolved_anchor ack.effects.boundary_kind (created_id ack.effects)
          (with_effects command ack s) in
      (kept.0 ∙ same.0, kept.5 ∙ same.1, kept.1 ∙ same.2, kept.2 ∙ same.3, kept.3 ∙ same.4)
