-- ===== src/Web/AnnotationQueue/Ack/Shown.antt =====
-- Proofs that the acknowledged commands of web/app/lib/annotationCommandQueue.ts show in the confirmed
-- snapshot.
use volleyball_monitoring_ai.Base.{
  ◌≡◌, refl, ap, ◌∙◌, Bool, true, false, List, [], ◌∷◌, ◌++◌, Option, none, some, any, keep, not,
  arith,
}
use volleyball_monitoring_ai.Base.Text.{Text, text_eq}
use volleyball_monitoring_ai.Base.Int.{ℤ}
use volleyball_monitoring_ai.Base.Json.{Json}
use volleyball_monitoring_ai.Contracts.BallEvent.{
  BallEventRepair, RepairAction, PlacedEvent, tombstone, update, end,
}
use volleyball_monitoring_ai.Contracts.AnnotationCommand.{
  AnnotationCommand, AnnotationPayload, start_rally, end_rally, create_service_key_point,
  set_rally_outcome, create_contact_key_point, close_rally, move_key_point, set_ball_event,
  set_ball_event_actor, delete_key_point, reopen_rally, void_rally, submit_rally,
}
use volleyball_monitoring_ai.Contracts.AnnotationSnapshot.{
  open_status, submitted, voided, AnnotationKeyPoint, AnnotationRallyBoundary,
  AnnotationRallySnapshot,
}
use volleyball_monitoring_ai.Contracts.AnnotationAck.{
  AnnotationCommandAck, AnnotationAckEffects, AnnotationResolvedAnchor,
}
use volleyball_monitoring_ai.Web.AnnotationOutbox.{Observation}
use volleyball_monitoring_ai.Web.AnnotationQueue.{
  is_end_boundary, outcome_resolution, update_point, starts_rally,
}
use volleyball_monitoring_ai.Web.AnnotationQueue.KeyPoints.{normalize_projected_ball_events}
use volleyball_monitoring_ai.Web.AnnotationQueue.Converged.{
  has_id, is_status, same_resolution, same_side, payload_converged, annotation_command_converged,
}
use volleyball_monitoring_ai.Web.AnnotationQueue.Converged.Normalized.{
  same_resolution_refl, same_side_refl, any-keep, any-sort_by, normalize_projected-absent,
  normalize_projected-keeps, normalize_key_point_order-absent,
}
use volleyball_monitoring_ai.Web.AnnotationQueue.Ack.{
  anchored_boundary, apply_annotation_ack_locally, apply_confirmed, apply_correction,
  apply_corrections, apply_to_confirmed, compare_sequence, confirmed_next, corrected,
  corrected_snapshot, created_id, given, is_stale, with_confirmed_end, with_effects,
}
use volleyball_monitoring_ai.Web.AnnotationQueue.Ack.Kept.{confirmed_next-SameRally, start_of-none}

-- The acknowledgement has the effects that its command asks for. The other kinds of commands are left
-- out: a correction of the acknowledgement may undo them, or their effect is no test of convergence.
abbrev pub HasEffects : AnnotationPayload → AnnotationCommandAck → Type 0
HasEffects (delete_key_point id) ack = Unit
HasEffects (end_rally cursor) ack =
    (anchor : AnnotationResolvedAnchor) × (ack.resolved_anchor ≡ some anchor)
    × (ack.effects.boundary_kind ≡ some end)
HasEffects (set_rally_outcome outcome) ack =
    (ack.effects.score_resolution ≡ some (outcome_resolution outcome))
    × (ack.effects.scoring_court_side ≡ some outcome.scoring_court_side)
HasEffects reopen_rally ack = ack.effects.annotation_status ≡ some open_status
HasEffects (void_rally reason) ack = ack.effects.annotation_status ≡ some voided
HasEffects submit_rally ack = ack.effects.annotation_status ≡ some submitted
HasEffects payload ack = ⊥

any-end_boundary_last :
    (boundary : AnnotationRallyBoundary) (boundaries : List AnnotationRallyBoundary)
    → is_end_boundary boundary ≡ true
    → any is_end_boundary (boundaries ++ boundary ∷ []) ≡ true
any-end_boundary_last boundary [] is_end = ground arith
any-end_boundary_last boundary (first ∷ boundaries) is_end =
    ground (arith, any-end_boundary_last boundary boundaries is_end)

module _ (id : Text) where
  keep-absent :
      (p : AnnotationKeyPoint → Bool) (points : List AnnotationKeyPoint)
      → any (has_id id) points ≡ false
      → any (has_id id) (keep p points) ≡ false
  keep-absent p [] absent = refl
  keep-absent p (point ∷ points) absent =
      let rest = keep-absent p points (ground arith) in ground arith

  update_point-absent :
      (q : Text) (after : PlacedEvent) (points : List AnnotationKeyPoint)
      → any (has_id id) points ≡ false
      → any (has_id id) (update_point q (corrected after) points) ≡ false
  unfolding update_point corrected has_id
  update_point-absent q after [] absent = refl
  update_point-absent q after (point ∷ points) absent =
      let rest = update_point-absent q after points (ground arith) in ground arith

  correction-absent :
      (action : RepairAction) (after : Option PlacedEvent) (q : Text)
      (points : List AnnotationKeyPoint)
      → any (has_id id) points ≡ false
      → any (has_id id) (elim action [
        | tombstone ↦ keep (λ point. not (text_eq point.key_point_id q)) points
        | update ↦ elim after [
          | none ↦ points
          | some placed ↦ update_point q (corrected placed) points
        ]
      ])
        ≡ false
  correction-absent tombstone after q points absent =
      keep-absent (λ point. not (text_eq point.key_point_id q)) points absent
  correction-absent update none q points absent = absent
  correction-absent update (some placed) q points absent =
      update_point-absent q placed points absent

  apply_corrections-absent :
      (repairs : List BallEventRepair) (points : List AnnotationKeyPoint)
      → any (has_id id) points ≡ false
      → any (has_id id) (apply_corrections repairs points) ≡ false
  unfolding apply_corrections apply_correction
  apply_corrections-absent [] points absent = absent
  apply_corrections-absent (repair ∷ repairs) points absent =
      apply_corrections-absent repairs (apply_correction repair points)
        (correction-absent repair.action repair.after repair.key_point_id points absent)

  corrected_snapshot-absent :
      (locale_compare : Text → Text → ℤ) (effects : AnnotationAckEffects)
      (s : AnnotationRallySnapshot)
      → any (has_id id) s.key_points ≡ false
      → any
          (has_id id)
          (normalize_projected_ball_events locale_compare
            (corrected_snapshot locale_compare effects s)).key_points
        ≡ false
  unfolding corrected_snapshot
  corrected_snapshot-absent locale_compare effects s absent =
      normalize_projected-absent locale_compare id (corrected_snapshot locale_compare effects s) (
        any-sort_by id (compare_sequence locale_compare)
          (apply_corrections effects.auto_corrections s.key_points)
        ∙ apply_corrections-absent effects.auto_corrections s.key_points absent)

module _ (locale_compare : Text → Text → ℤ) (observation : Option Observation) where
  -- The snapshot that the corrections are applied to.
  abbrev applied :
      AnnotationCommand → AnnotationCommandAck → AnnotationRallySnapshot → AnnotationRallySnapshot
  applied command ack s =
      apply_confirmed locale_compare command ack.effects command.payload ack.resolved_anchor
        ack.effects.boundary_kind (created_id ack.effects) (with_effects command ack s)

  applied-deleted :
      (id : Text) (command : AnnotationCommand) (ack : AnnotationCommandAck)
      (s : AnnotationRallySnapshot)
      → command.payload ≡ delete_key_point id
      → any (has_id id) (applied command ack s).key_points ≡ false
  unfolding apply_confirmed with_effects
  applied-deleted id command ack s is = rw is (
      normalize_key_point_order-absent locale_compare id
        (keep (λ point. not (text_eq point.key_point_id id)) s.key_points)
        (any-keep id s.key_points))

  applied-ended :
      (cursor : Json) (command : AnnotationCommand) (ack : AnnotationCommandAck)
      (s : AnnotationRallySnapshot) (anchor : AnnotationResolvedAnchor)
      → command.payload ≡ end_rally cursor
      → ack.resolved_anchor ≡ some anchor
      → ack.effects.boundary_kind ≡ some end
      → any is_end_boundary (applied command ack s).boundaries ≡ true
  unfolding apply_confirmed with_effects with_confirmed_end anchored_boundary is_end_boundary
  applied-ended cursor command ack s anchor is anchored kind =
      rw (is, anchored, kind)
        (any-end_boundary_last (anchored_boundary end anchor)
          (keep (λ boundary. not (is_end_boundary boundary)) s.boundaries) refl)

  confirmed_next-converged :
      (payload : AnnotationPayload) (command : AnnotationCommand) (ack : AnnotationCommandAck)
      (s : AnnotationRallySnapshot)
      → command.payload ≡ payload
      → HasEffects payload ack
      → payload_converged locale_compare payload
          (confirmed_next locale_compare command ack s)
          observation
        ≡ true
  unfolding payload_converged with_effects given confirmed_next corrected_snapshot
  confirmed_next-converged (delete_key_point id) command ack s is effects = ap not (
      corrected_snapshot-absent id locale_compare ack.effects (applied command ack s)
        (applied-deleted id command ack s is))
  confirmed_next-converged (end_rally cursor) command ack s is (anchor, anchored, kind) =
      ap (any is_end_boundary)
        (normalize_projected-keeps locale_compare
          (corrected_snapshot locale_compare ack.effects (applied command ack s))).4
      ∙ applied-ended cursor command ack s anchor is anchored kind
  confirmed_next-converged (set_rally_outcome outcome) command ack s is (resolution, side) =
      let same = confirmed_next-SameRally locale_compare command ack s in
      let same_r =
        ap (λ r. same_resolution r (outcome_resolution outcome))
          (same.3 ∙ ap (given s.score_resolution) resolution)
        ∙ same_resolution_refl (outcome_resolution outcome) in
      let same_s =
        ap (λ r. same_side r outcome.scoring_court_side)
          (same.4 ∙ ap (given s.scoring_court_side) side)
        ∙ same_side_refl outcome.scoring_court_side in
      rw same_r same_s
  confirmed_next-converged reopen_rally command ack s is status = ap (is_status open_status) (
      (confirmed_next-SameRally locale_compare command ack s).2
      ∙ ap (given s.annotation_status) status)
  confirmed_next-converged (void_rally reason) command ack s is status = ap (is_status voided) (
      (confirmed_next-SameRally locale_compare command ack s).2
      ∙ ap (given s.annotation_status) status)
  confirmed_next-converged submit_rally command ack s is status = ap (is_status submitted) (
      (confirmed_next-SameRally locale_compare command ack s).2
      ∙ ap (given s.annotation_status) status)
  confirmed_next-converged (start_rally cursor) command ack s is effects = absurd effects
  confirmed_next-converged (create_service_key_point cursor) command ack s is effects =
      absurd effects
  confirmed_next-converged (create_contact_key_point c t e) command ack s is effects =
      absurd effects
  confirmed_next-converged (close_rally t o) command ack s is effects = absurd effects
  confirmed_next-converged (move_key_point i c) command ack s is effects = absurd effects
  confirmed_next-converged (set_ball_event i e) command ack s is effects = absurd effects
  confirmed_next-converged (set_ball_event_actor i a) command ack s is effects = absurd effects

HasEffects-starts :
    (payload : AnnotationPayload) (ack : AnnotationCommandAck)
    → HasEffects payload ack
    → starts_rally payload ≡ false
unfolding starts_rally
HasEffects-starts (start_rally cursor) ack effects = absurd effects
HasEffects-starts (create_service_key_point cursor) ack effects = absurd effects
HasEffects-starts _ ack effects = refl

-- An acknowledgement of a confirmed rally's command at a newer revision, with the effects that the
-- command asks for, leads to a confirmed snapshot of the acknowledged revision on which the test of
-- convergence holds of the command, whatever its corrections are. The commands are the deletion of
-- a key point, the end, the outcome, the reopening, the voiding and the submission of the rally.
pub apply_annotation_ack_locally-converged :
    (locale_compare : Text → Text → ℤ) (command : AnnotationCommand) (ack : AnnotationCommandAck)
    (s : AnnotationRallySnapshot) (observation : Option Observation)
    → text_eq s.rally_id command.rally_id ≡ true
    → is_stale ack s ≡ false
    → HasEffects command.payload ack
    → (t : AnnotationRallySnapshot) × (apply_annotation_ack_locally locale_compare
          (some s)
          command
          ack
        ≡ some t)
      × (t.revision ≡ ack.result_revision)
      × (annotation_command_converged locale_compare command (some t) observation ≡ true)
unfolding apply_annotation_ack_locally annotation_command_converged apply_to_confirmed with_effects
apply_annotation_ack_locally-converged locale_compare command ack s observation own fresh effects =
    let next = confirmed_next locale_compare command ack s in
    let same = confirmed_next-SameRally locale_compare command ack s in
    let of_rally : text_eq next.rally_id command.rally_id ≡ true =
      ap (λ r. text_eq r command.rally_id) same.0 ∙ own in
    let effect =
      confirmed_next-converged locale_compare observation command.payload command ack s refl
        effects in
    let not_started =
      start_of-none locale_compare command ack command.payload ack.resolved_anchor
        ack.effects.boundary_kind (created_id ack.effects)
        (HasEffects-starts command.payload ack effects) in
    (
      next,
      rw (apply_annotation_ack_locally, not_started, apply_to_confirmed, fresh) refl,
      same.1,
      rw of_rally effect,
    )
