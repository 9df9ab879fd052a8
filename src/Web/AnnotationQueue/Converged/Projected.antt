-- ===== src/Web/AnnotationQueue/Converged/Projected.antt =====
-- Proofs that the projection of a queued command, web/app/lib/annotationCommandQueue.ts, shows what the
-- command asks for.
use volleyball_monitoring_ai.Base.{
  ℕ, ◌≡◌, refl, sym, ap, ◌∙◌, true, false, ◌∷◌, Option, none, some, any, keep, ◌&&◌, not, inl, inr,
  Bool-cases, arith,
}
use mathlib.Core.Option.{some-injective}
use mathlib.Core.Bool.{true≢false}
use volleyball_monitoring_ai.Base.Text.{Text, text_eq}
use volleyball_monitoring_ai.Base.Int.{ℤ}
use volleyball_monitoring_ai.Contracts.AnnotationCommand.{
  AnnotationPayload, Outcome, start_rally, end_rally, create_service_key_point, set_rally_outcome,
  create_contact_key_point, close_rally, move_key_point, set_ball_event, set_ball_event_actor,
  delete_key_point, reopen_rally, void_rally, submit_rally,
}
use volleyball_monitoring_ai.Contracts.AnnotationSnapshot.{
  open_status, submitted, voided, AnnotationRallySnapshot,
}
use volleyball_monitoring_ai.Web.AnnotationOutbox.{AnnotationOutboxEntry, Observation, pending}
use volleyball_monitoring_ai.Web.AnnotationQueue.{
  is_end_boundary, outcome_resolution, with_outcome, with_end_boundary, apply_payload, apply_to,
  project_entry, starts_rally, needs_start, is_pending, start_with, started_snapshot, is_over,
}
use volleyball_monitoring_ai.Web.AnnotationQueue.KeyPoints.{normalize_projected_ball_events}
use volleyball_monitoring_ai.Web.AnnotationQueue.Converged.{
  same_side, same_resolution, has_started, is_status, payload_converged,
  annotation_command_converged,
}
use volleyball_monitoring_ai.Web.AnnotationQueue.Converged.Normalized.{
  IsShown, any-end_boundary, any-keep, normalize_key_point_order-absent, normalize_projected-absent,
  normalize_projected-keeps, not_over-has_started, same_resolution_refl, same_side_refl,
}

module _ (locale_compare : Text → Text → ℤ) where
  outcome-converged :
      (s : AnnotationRallySnapshot) (outcome : Outcome)
      → s.score_resolution ≡ outcome_resolution outcome
      → s.scoring_court_side ≡ outcome.scoring_court_side
      → same_resolution
            (normalize_projected_ball_events locale_compare s).score_resolution
            (outcome_resolution outcome)
          && same_side
              (normalize_projected_ball_events locale_compare s).scoring_court_side
              outcome.scoring_court_side
        ≡ true
  outcome-converged s outcome resolution side =
      let keeps = normalize_projected-keeps locale_compare s in
      let same_r =
        ap (λ r. same_resolution r (outcome_resolution outcome)) (keeps.2 ∙ resolution)
        ∙ same_resolution_refl (outcome_resolution outcome) in
      let same_s =
        ap (λ r. same_side r outcome.scoring_court_side) (keeps.3 ∙ side)
        ∙ same_side_refl outcome.scoring_court_side in
      rw same_r same_s

  -- A command that a snapshot of its rally shows, once it is applied.
  apply_payload-converged :
      (entry : AnnotationOutboxEntry) (observation : Observation) (payload : AnnotationPayload)
      (s : AnnotationRallySnapshot)
      → IsShown payload
      → starts_rally payload && is_over s.annotation_status ≡ false
      → payload_converged locale_compare payload
          (normalize_projected_ball_events locale_compare
            (apply_payload locale_compare entry (some observation) payload s))
          (some observation)
        ≡ true
  unfolding payload_converged apply_payload with_outcome with_end_boundary is_over starts_rally
  apply_payload-converged entry observation (start_rally cursor) s shown running =
      ap has_started (normalize_projected-keeps locale_compare s).1
      ∙ not_over-has_started s.annotation_status running
  apply_payload-converged entry observation (create_service_key_point cursor) s shown running =
      ap has_started (normalize_projected-keeps locale_compare s).1
      ∙ not_over-has_started s.annotation_status running
  apply_payload-converged entry observation (end_rally cursor) s shown running =
      ap (any is_end_boundary)
        (normalize_projected-keeps locale_compare (with_end_boundary observation s)).4
      ∙ any-end_boundary (keep (λ boundary. not (is_end_boundary boundary)) s.boundaries)
          observation
  apply_payload-converged entry observation (set_rally_outcome outcome) s shown running =
      outcome-converged (with_outcome outcome s) outcome refl refl
  apply_payload-converged entry observation (delete_key_point id) s shown running = ap not (
      normalize_projected-absent locale_compare id
        (apply_payload locale_compare entry (some observation) (delete_key_point id) s)
        (normalize_key_point_order-absent locale_compare id
          (keep (λ point. not (text_eq point.key_point_id id)) s.key_points)
          (any-keep id s.key_points)))
  apply_payload-converged entry observation reopen_rally s shown running =
      ap (is_status open_status)
        (normalize_projected-keeps locale_compare
          (apply_payload locale_compare entry (some observation) reopen_rally s)).1
  apply_payload-converged entry observation (void_rally reason) s shown running =
      ap (is_status voided)
        (normalize_projected-keeps locale_compare
          (apply_payload locale_compare entry (some observation) (void_rally reason) s)).1
  apply_payload-converged entry observation submit_rally s shown running =
      ap (is_status submitted)
        (normalize_projected-keeps locale_compare
          (apply_payload locale_compare entry (some observation) submit_rally s)).1
  apply_payload-converged entry observation (create_contact_key_point c t e) s shown running =
      absurd shown
  apply_payload-converged entry observation (close_rally t o) s shown running = absurd shown
  apply_payload-converged entry observation (move_key_point i c) s shown running = absurd shown
  apply_payload-converged entry observation (set_ball_event i e) s shown running = absurd shown
  apply_payload-converged entry observation (set_ball_event_actor i a) s shown running =
      absurd shown

  same_rally-converged :
      (entry : AnnotationOutboxEntry) (observation : Observation)
      (s shown : AnnotationRallySnapshot)
      → IsShown entry.command.payload
      → starts_rally entry.command.payload && is_over s.annotation_status ≡ false
      → text_eq s.rally_id entry.command.rally_id ≡ true
      → normalize_projected_ball_events locale_compare
          (apply_payload locale_compare entry (some observation) entry.command.payload s)
        ≡ shown
      → text_eq shown.rally_id entry.command.rally_id ≡ true
      → annotation_command_converged locale_compare entry.command (some shown) (some observation)
        ≡ true
  unfolding annotation_command_converged
  same_rally-converged entry observation s shown is_shown running own eq same =
      let effect =
        ap (λ t. payload_converged locale_compare entry.command.payload t (some observation))
          (sym eq)
        ∙ apply_payload-converged entry observation entry.command.payload s is_shown running in
      rw same effect

  apply_to-converged :
      (entry : AnnotationOutboxEntry) (observation : Observation)
      (projected : Option AnnotationRallySnapshot) (shown : AnnotationRallySnapshot)
      → IsShown entry.command.payload
      → entry.observation ≡ some observation
      → starts_rally entry.command.payload && needs_start entry.command projected ≡ false
      → apply_to locale_compare entry projected ≡ some shown
      → text_eq shown.rally_id entry.command.rally_id ≡ true
      → annotation_command_converged locale_compare entry.command (some shown) (some observation)
        ≡ true
  unfolding apply_to needs_start
  apply_to-converged entry observation none shown is_shown observed running eq same = ground arith
  apply_to-converged entry observation (some s) shown is_shown observed running eq same =
      elim (Bool-cases (text_eq s.rally_id entry.command.rally_id)) [
        | inl own ↦
            let runs : starts_rally entry.command.payload && is_over s.annotation_status ≡ false =
              rw own at running in
            same_rally-converged entry observation s shown is_shown runs own
              (some-injective _ _ (rw (own, observed) at eq)) same
        | inr other ↦
            let here : s ≡ shown = some-injective _ _ (rw other at eq) in
            absurd (
              true≢false
                (sym same ∙ ap (λ t. text_eq t.rally_id entry.command.rally_id) (sym here) ∙ other))
      ]

  started-converged :
      (payload : AnnotationPayload) (c : ℕ) (s : Text) (entry : AnnotationOutboxEntry)
      (observation : Observation) (projected : Option AnnotationRallySnapshot)
      (shown : AnnotationRallySnapshot)
      → entry.command.payload ≡ payload
      → starts_rally payload ≡ true
      → start_with (some (c ∷ s)) entry (some observation) projected ≡ some shown
      → payload_converged locale_compare payload shown (some observation) ≡ true
  unfolding payload_converged start_with started_snapshot has_started starts_rally
  started-converged (start_rally cursor) c s entry observation projected shown is starts eq =
      ap (λ t. has_started t.annotation_status) (sym (some-injective _ _ (rw is at eq)))
  started-converged (create_service_key_point cursor) c s entry observation projected shown is
        starts eq =
      ap (λ t. has_started t.annotation_status) (sym (some-injective _ _ (rw is at eq)))
  started-converged _ c s entry observation projected shown is starts eq = ground arith

  -- A pending command of a kind whose effect the projection shows in full, with an observation and
  -- in a known room, projected onto a snapshot: if a snapshot of the command's rally is shown, the
  -- test of convergence holds of it. A move, a contact, a ball event, an actor and the closing of a
  -- rally are not such kinds.
  pub project_entry-converged :
      (c : ℕ) (s : Text) (projected : Option AnnotationRallySnapshot)
      (entry : AnnotationOutboxEntry) (observation : Observation) (shown : AnnotationRallySnapshot)
      → entry.status ≡ pending
      → IsShown entry.command.payload
      → entry.observation ≡ some observation
      → project_entry locale_compare (some (c ∷ s)) projected entry ≡ some shown
      → text_eq shown.rally_id entry.command.rally_id ≡ true
      → annotation_command_converged locale_compare entry.command (some shown) entry.observation
        ≡ true
  unfolding project_entry is_pending annotation_command_converged
  project_entry-converged c s projected entry observation shown waits is_shown observed eq same =
      elim (Bool-cases
        (starts_rally entry.command.payload && needs_start entry.command projected)) [
          | inl starts ↦
              let starting : starts_rally entry.command.payload ≡ true = ground arith in
              let effect =
                started-converged entry.command.payload c s entry observation projected shown refl
                  starting (rw (waits, starts, observed) at eq) in
              rw observed (rw same effect)
          | inr runs ↦ rw observed (
              apply_to-converged entry observation projected shown is_shown observed runs
                (rw (waits, runs) at eq) same)
        ]
