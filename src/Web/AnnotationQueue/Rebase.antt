-- ===== src/Web/AnnotationQueue/Rebase.antt =====
-- web/app/lib/annotationCommandQueue.ts: `rebaseQueuedAnnotationCommand`, which adapts a queued
-- command to the snapshot that the server confirmed or drops it.
use mathlib.Core.Bool.{true≢false}
use volleyball_monitoring_ai.Base.{
  ◌≡◌, refl, sym, Bool, true, false, List, [], ◌∷◌, Option, none, some, Result, ok, err, ◌||◌, ◌&&◌,
  inl, inr, Bool-cases, if◌then◌else◌, arith,
}
use volleyball_monitoring_ai.Base.Text.{Text, text_eq}
use volleyball_monitoring_ai.Base.Int.{ℤ}
use volleyball_monitoring_ai.Contracts.BallEvent.{BallEventValue}
use volleyball_monitoring_ai.Contracts.AnnotationCommand.{
  AnnotationCommand, AnnotationPayload, start_rally, create_service_key_point,
  create_contact_key_point, close_rally, set_ball_event,
}
use volleyball_monitoring_ai.Contracts.AnnotationSnapshot.{
  AnnotationStatus, open_status, ready, submitted, voided, AnnotationKeyPoint,
  AnnotationRallySnapshot,
}
use volleyball_monitoring_ai.Web.AnnotationOutbox.{Observation, OutboxError, invalid_command}
use volleyball_monitoring_ai.Web.AnnotationQueue.Converged.{
  contact_at, same_event, has_started, is_status, observed_frame_of, payload_converged,
  contact_converged, annotation_command_converged,
}

-- `!active_submission_id`
no_submission : Option Text → Bool
no_submission none = true
no_submission (some []) = true
no_submission (some (c ∷ s)) = false

last_key_point : List AnnotationKeyPoint → Option AnnotationKeyPoint
last_key_point [] = none
last_key_point (point ∷ []) = some point
last_key_point (point ∷ next ∷ points) = last_key_point (next ∷ points)

-- The contact of the observed frame, where a frame is observed.
existing_contact : Option Text → List AnnotationKeyPoint → Option AnnotationKeyPoint
unfolding contact_at
existing_contact none points = none
existing_contact (some []) points = none
existing_contact (some (c ∷ s)) points = contact_at (c ∷ s) points

abbrev dropped_command : Result OutboxError (Option AnnotationCommand)
dropped_command = ok none

-- `parseAnnotationCommand` returns the commands that its schema accepts and throws at the others.
module _ (is_valid : AnnotationCommand → Bool) where
  parse_annotation_command : AnnotationCommand → Result OutboxError (Option AnnotationCommand)
  parse_annotation_command command =
      if is_valid command then ok (some command) else err invalid_command

  -- The command on the revision of the snapshot, with a payload.
  rebased :
      AnnotationCommand
      → AnnotationRallySnapshot
      → AnnotationPayload
      → Result OutboxError (Option AnnotationCommand)
  unfolding parse_annotation_command
  rebased command snapshot payload =
      parse_annotation_command
        (record command { base_revision = snapshot.revision; payload = payload })

  -- A contact that the snapshot has is dropped, or sets the ball event of the one that is there.
  rebase_contact :
      AnnotationCommand
      → AnnotationRallySnapshot
      → Option BallEventValue
      → Option AnnotationKeyPoint
      → Result OutboxError (Option AnnotationCommand)
  unfolding rebased same_event
  rebase_contact command snapshot event none = rebased command snapshot command.payload
  rebase_contact command snapshot none (some existing) = ok none
  rebase_contact command snapshot (some event) (some existing) =
      if same_event existing.ball_event event
      then ok none
      else rebased command snapshot (set_ball_event existing.key_point_id event)

  rebase_close :
      AnnotationCommand
      → AnnotationRallySnapshot
      → AnnotationPayload
      → Option AnnotationKeyPoint
      → Result OutboxError (Option AnnotationCommand)
  unfolding rebased
  rebase_close command snapshot (close_rally target outcome) (some last) =
      rebased command snapshot (close_rally last.key_point_id outcome)
  rebase_close command snapshot payload last = ok none

  -- The cases for a snapshot of the command's rally.
  rebase_payload :
      AnnotationCommand
      → AnnotationRallySnapshot
      → Option Text
      → AnnotationPayload
      → Result OutboxError (Option AnnotationCommand)
  unfolding rebased rebase_contact rebase_close existing_contact last_key_point
  rebase_payload command snapshot frame (create_contact_key_point cursor terminal event) =
      rebase_contact command snapshot event (existing_contact frame snapshot.key_points)
  rebase_payload command snapshot frame (close_rally target outcome) =
      rebase_close command snapshot (close_rally target outcome)
        (last_key_point snapshot.key_points)
  rebase_payload command snapshot frame payload = rebased command snapshot command.payload

  rebase_on :
      AnnotationCommand
      → Option AnnotationRallySnapshot
      → Option Text
      → AnnotationPayload
      → Result OutboxError (Option AnnotationCommand)
  unfolding rebase_payload is_status no_submission text_eq
  rebase_on command none frame (start_rally cursor) = ok (some command)
  rebase_on command none frame (create_service_key_point cursor) = ok (some command)
  rebase_on command none frame payload = ok none
  rebase_on command (some snapshot) frame (start_rally cursor) =
      if is_status open_status snapshot.annotation_status
        && no_submission snapshot.active_submission_id
      then ok none
      else ok (some command)
  rebase_on command (some snapshot) frame (create_service_key_point cursor) =
      if is_status open_status snapshot.annotation_status
        || is_status ready snapshot.annotation_status
      then ok none
      else ok (some command)
  rebase_on command (some snapshot) frame payload =
      if text_eq snapshot.rally_id command.rally_id
      then rebase_payload command snapshot frame payload
      else ok none

  unfoldable pub rebase_queued_annotation_command :
      AnnotationCommand
      → Option AnnotationRallySnapshot
      → Option Observation
      → Result OutboxError (Option AnnotationCommand)
  unfolding rebase_on observed_frame_of
  rebase_queued_annotation_command command snapshot observation =
      rebase_on command snapshot (observed_frame_of observation) command.payload

-- The commands that are not dropped for want of a key point to close the rally with.
abbrev pub IsNotClose : AnnotationPayload → Type 0
IsNotClose (close_rally target outcome) = ⊥
IsNotClose payload = Unit

module _ (is_valid : AnnotationCommand → Bool) (command : AnnotationCommand)
    (s : AnnotationRallySnapshot) where
  rebased-kept : (payload : AnnotationPayload) → rebased is_valid command s payload ≡ ok none → ⊥
  unfolding rebased parse_annotation_command
  rebased-kept payload dropped =
      elim (Bool-cases
        (is_valid (record command { base_revision = s.revision; payload = payload }))) [
          | inl valid ↦ ground arith
          | inr invalid ↦ ground arith
        ]

  rebase_contact-dropped :
      (event : Option BallEventValue) (found : Option AnnotationKeyPoint)
      → rebase_contact is_valid command s event found ≡ ok none
      → elim found [
        | none ↦ false
        | some existing ↦ elim event [ none ↦ true | some e ↦ same_event existing.ball_event e ]
      ]
        ≡ true
  unfolding rebase_contact
  rebase_contact-dropped event none dropped = absurd (rebased-kept command.payload dropped)
  rebase_contact-dropped none (some existing) dropped = refl
  rebase_contact-dropped (some event) (some existing) dropped =
      elim (Bool-cases (same_event existing.ball_event event)) [
        | inl same ↦ same
        | inr other ↦
            absurd (rebased-kept (set_ball_event existing.key_point_id event) (rw other at dropped))
      ]

  existing_contact-dropped :
      (event : Option BallEventValue) (frame : Option Text)
      → rebase_contact is_valid command s event (existing_contact frame s.key_points) ≡ ok none
      → contact_converged frame event s.key_points ≡ true
  unfolding existing_contact contact_converged
  existing_contact-dropped event none dropped =
      absurd (true≢false (sym (rebase_contact-dropped event none dropped)))
  existing_contact-dropped event (some []) dropped =
      absurd (true≢false (sym (rebase_contact-dropped event none dropped)))
  existing_contact-dropped event (some (c ∷ t)) dropped =
      rebase_contact-dropped event (contact_at (c ∷ t) s.key_points) dropped

  started-dropped :
      (status : AnnotationStatus) (without : Bool)
      → (if is_status open_status status && without then ok none else ok (some command))
        ≡ dropped_command
      → has_started status ≡ true
  unfolding is_status has_started
  started-dropped open_status without dropped = refl
  started-dropped ready without dropped = refl
  started-dropped submitted without dropped = refl
  started-dropped voided without dropped = ground arith

  drafted-dropped :
      (status : AnnotationStatus)
      → (if is_status open_status status || is_status ready status
          then ok none
          else ok (some command))
        ≡ dropped_command
      → has_started status ≡ true
  unfolding is_status has_started
  drafted-dropped open_status dropped = refl
  drafted-dropped ready dropped = refl
  drafted-dropped submitted dropped = refl
  drafted-dropped voided dropped = ground arith

  module _ (locale_compare : Text → Text → ℤ) (observation : Option Observation) where
    rebase_on-dropped :
        (payload : AnnotationPayload)
        → IsNotClose payload
        → text_eq s.rally_id command.rally_id ≡ true
        → rebase_on is_valid command (some s) (observed_frame_of observation) payload ≡ ok none
        → payload_converged locale_compare payload s observation ≡ true
    unfolding rebase_on rebase_payload payload_converged has_started is_status
    rebase_on-dropped (start_rally cursor) own_kind own dropped =
        started-dropped s.annotation_status (no_submission s.active_submission_id) dropped
    rebase_on-dropped (create_service_key_point cursor) own_kind own dropped =
        drafted-dropped s.annotation_status dropped
    rebase_on-dropped (create_contact_key_point cursor terminal event) own_kind own dropped =
        existing_contact-dropped event (observed_frame_of observation) (rw own at dropped)
    rebase_on-dropped (close_rally target outcome) own_kind own dropped = absurd own_kind
    rebase_on-dropped _ own_kind own dropped =
        absurd (rebased-kept command.payload (rw own at dropped))

-- A queued command that is dropped against a snapshot of its own rally, and does not close the
-- rally, is one whose effect the snapshot shows: the test of convergence holds of it.
pub rebase_queued_annotation_command-dropped :
    (is_valid : AnnotationCommand → Bool) (locale_compare : Text → Text → ℤ)
    (command : AnnotationCommand) (s : AnnotationRallySnapshot) (observation : Option Observation)
    → IsNotClose command.payload
    → text_eq s.rally_id command.rally_id ≡ true
    → rebase_queued_annotation_command is_valid command (some s) observation ≡ ok none
    → annotation_command_converged locale_compare command (some s) observation ≡ true
unfolding rebase_queued_annotation_command annotation_command_converged
rebase_queued_annotation_command-dropped is_valid locale_compare command s observation kept own
      dropped =
    rw own (
      rebase_on-dropped is_valid command s locale_compare observation command.payload kept own
        dropped)
