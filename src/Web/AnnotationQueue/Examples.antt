-- ===== src/Web/AnnotationQueue/Examples.antt =====
-- The theorems about web/app/lib/annotationCommandQueue.ts at a small rally, and tests.
use volleyball_monitoring_ai.Base.{◌≡◌, refl, List, true, false, [], ◌∷◌, none, some, ok}
use volleyball_monitoring_ai.Base.Text.{Text, codes, text_eq}
use volleyball_monitoring_ai.Base.Int.{ℤ, pos}
use volleyball_monitoring_ai.Base.Json.{null}
use volleyball_monitoring_ai.Contracts.BallEvent.{
  BallEventValue, spike, success, outside_end_tombstoned, tombstone, end,
}
use volleyball_monitoring_ai.Contracts.AnnotationCommand.{
  AnnotationCommand, AnnotationPayload, three, end_rally, create_contact_key_point,
  delete_key_point, close_rally,
}
use volleyball_monitoring_ai.Contracts.AnnotationSnapshot.{
  open_status, ready, pending_score, contact_marker, frame_exact, AnnotationKeyPoint,
  AnnotationRallySnapshot,
}
use volleyball_monitoring_ai.Web.AnnotationOutbox.{AnnotationOutboxEntry, Observation, queued}
use volleyball_monitoring_ai.Web.AnnotationQueue.{
  project_annotation_snapshot, project_entry, starts_rally,
}
use volleyball_monitoring_ai.Web.AnnotationQueue.KeyPoints.{estimated_boundary}
use volleyball_monitoring_ai.Web.AnnotationQueue.Converged.{annotation_command_converged}
use volleyball_monitoring_ai.Web.AnnotationQueue.Converged.Projected.{project_entry-converged}
use volleyball_monitoring_ai.Contracts.AnnotationAck.{
  AnnotationCommandAck, AnnotationAckEffects, AnnotationResolvedAnchor,
}
use volleyball_monitoring_ai.Web.AnnotationQueue.Ack.{apply_annotation_ack_locally, is_stale}
use volleyball_monitoring_ai.Web.AnnotationQueue.Ack.Newest.{
  Acknowledged, IsNewest, acknowledge_all, acknowledge_all-IsNewest,
}
use volleyball_monitoring_ai.Web.AnnotationQueue.Ack.Shown.{apply_annotation_ack_locally-converged}
use volleyball_monitoring_ai.Web.AnnotationQueue.Rebase.{
  rebase_queued_annotation_command, rebase_queued_annotation_command-dropped,
}

abbrev key_order : Text → Text → ℤ
key_order a b = pos 0

abbrev observed : Observation
observed = record { capture_time_us = codes "900"; capture_frame_index = some (codes "9") }

abbrev spike_event : BallEventValue
spike_event = record { kind = spike; result = some success; serve_style = none }

abbrev point_of : Text → Text → Text → AnnotationKeyPoint
point_of id time frame = record {
  key_point_id = id;
  sequence_index = pos 0;
  marker_kind = contact_marker;
  is_terminal = false;
  capture_time_us = time;
  capture_frame_index = frame;
  timing_precision = frame_exact;
  possible_duplicate = false;
  ball_event = some spike_event;
  ball_event_actor_roster_entry_id = none;
}

abbrev confirmed : AnnotationRallySnapshot
confirmed = record {
  schema_version = three;
  room_id = codes "room";
  rally_id = codes "r";
  revision = codes "7";
  server_sequence = codes "7";
  annotation_status = open_status;
  side_assignment_id = codes "a";
  score_resolution = pending_score;
  scoring_court_side = none;
  processing_status = codes "idle";
  active_submission_id = none;
  boundaries = [];
  key_points =
      point_of (codes "k1") (codes "500") (codes "5")
      ∷ point_of (codes "k2") (codes "900") (codes "9")
      ∷ [];
}

abbrev command_of : AnnotationPayload → AnnotationCommand
command_of payload = record {
  schema_version = three;
  command_id = codes "c1";
  room_id = codes "room";
  base_revision = codes "1";
  rally_id = codes "r";
  payload = payload;
}

abbrev entry_of : AnnotationPayload → AnnotationOutboxEntry
entry_of payload = queued (command_of payload) (codes "now") (some observed) none

-- The rally behind a queued end and a queued deletion.
abbrev without_k1 : AnnotationRallySnapshot
without_k1 = record confirmed {
  key_points =
      record (point_of (codes "k2") (codes "900") (codes "9")) { sequence_index = pos 0 } ∷ [];
}

deleted :
    project_entry key_order
      (some (codes "room"))
      (some confirmed)
      (entry_of (delete_key_point (codes "k1")))
    ≡ some without_k1
unfolding project_entry text_eq
deleted = refl

converged_example :
    annotation_command_converged key_order
      (command_of (delete_key_point (codes "k1")))
      (some without_k1)
      (some observed)
    ≡ true
unfolding text_eq
converged_example =
    project_entry-converged key_order 114 (codes "oom") (some confirmed)
      (entry_of (delete_key_point (codes "k1"))) observed without_k1 refl tt refl deleted refl

ended :
    project_annotation_snapshot key_order
      (some (codes "room"))
      (some confirmed)
      (entry_of (delete_key_point (codes "k1")) ∷ entry_of (end_rally null) ∷ [])
    ≡ some (record without_k1 {
      boundaries = estimated_boundary end observed ∷ [];
      annotation_status = ready;
    })
unfolding project_annotation_snapshot text_eq estimated_boundary
ended = refl

-- A contact that the snapshot has on the observed frame is dropped.
contact_dropped :
    rebase_queued_annotation_command
      (λ command. true)
      (command_of (create_contact_key_point null false (some spike_event)))
      (some confirmed)
      (some observed)
    ≡ ok none
unfolding rebase_queued_annotation_command text_eq
contact_dropped = refl

dropped_example :
    annotation_command_converged key_order
      (command_of (create_contact_key_point null false (some spike_event)))
      (some confirmed)
      (some observed)
    ≡ true
unfolding text_eq
dropped_example =
    rebase_queued_annotation_command-dropped (λ command. true) key_order
      (command_of (create_contact_key_point null false (some spike_event))) confirmed
      (some observed) tt refl contact_dropped

-- A command that closes the rally closes it with its last key point.
close_rebased :
    rebase_queued_annotation_command
      (λ command. true)
      (command_of (close_rally (codes "gone") (record { scoring_court_side = none })))
      (some confirmed)
      none
    ≡ ok (
        some
          (record (command_of (close_rally (codes "k2") (record { scoring_court_side = none }))) {
            base_revision = codes "7";
          }))
unfolding rebase_queued_annotation_command text_eq
close_rebased = refl

abbrev no_effects : AnnotationAckEffects
no_effects = record {
  boundary_kind = none;
  created_key_point_id = none;
  terminal_key_point_id = none;
  annotation_status = none;
  score_resolution = none;
  scoring_court_side = none;
  auto_corrections = [];
}

abbrev anchor : AnnotationResolvedAnchor
anchor = record {
  capture_time_us = codes "950";
  capture_frame_index = codes "10";
  timing_precision = frame_exact;
}

-- The server confirms the end of the rally, with the deletion of a key point behind it.
abbrev end_ack : AnnotationCommandAck
end_ack = record {
  rally_id = codes "r";
  result_revision = codes "9";
  server_sequence = codes "9";
  effects = record no_effects {
    boundary_kind = some end;
    annotation_status = some ready;
    auto_corrections =
        record {
          code = outside_end_tombstoned;
          key_point_id = codes "k2";
          action = tombstone;
          before = record { sequence_index = pos 1; event = some spike_event };
          after = none;
        }
        ∷ [];
  };
  resolved_anchor = some anchor;
}

abbrev late_ack : AnnotationCommandAck
late_ack = record {
  rally_id = codes "r";
  result_revision = codes "8";
  server_sequence = codes "8";
  effects = no_effects;
  resolved_anchor = none;
}

abbrev after_end : AnnotationRallySnapshot
after_end = record confirmed {
  revision = codes "9";
  server_sequence = codes "9";
  annotation_status = ready;
  boundaries =
      record {
        kind = end;
        capture_time_us = codes "950";
        capture_frame_index = codes "10";
        timing_precision = frame_exact;
      }
      ∷ [];
  key_points = point_of (codes "k1") (codes "500") (codes "5") ∷ [];
}

end_acknowledged :
    apply_annotation_ack_locally key_order (some confirmed) (command_of (end_rally null)) end_ack
    ≡ some after_end
unfolding apply_annotation_ack_locally text_eq
end_acknowledged = refl

acknowledged_example :
    (t : AnnotationRallySnapshot) × (apply_annotation_ack_locally key_order
        (some confirmed)
        (command_of (end_rally null))
        end_ack
      ≡ some t)
    × (t.revision ≡ codes "9")
    × (annotation_command_converged key_order (command_of (end_rally null)) (some t) none ≡ true)
unfolding is_stale text_eq
acknowledged_example =
    apply_annotation_ack_locally-converged key_order (command_of (end_rally null)) end_ack confirmed
      none refl refl (anchor, refl, refl)

-- The acknowledgement of the deletion arrives late.
abbrev out_of_order : List Acknowledged
out_of_order =
    record { command = command_of (end_rally null); ack = end_ack }
    ∷ record { command = command_of (delete_key_point (codes "k1")); ack = late_ack }
    ∷ []

late_ignored : acknowledge_all key_order (some confirmed) out_of_order ≡ some after_end
unfolding apply_annotation_ack_locally text_eq
late_ignored = refl

revisions_example :
    (t : AnnotationRallySnapshot) × (acknowledge_all key_order (some confirmed) out_of_order
      ≡ some t)
    × IsNewest confirmed t out_of_order
unfolding starts_rally
revisions_example = acknowledge_all-IsNewest key_order out_of_order confirmed (refl, (refl, tt))
