-- ===== src/Web/AnnotationOutbox.antt =====
-- web/app/lib/annotationOutbox.ts: the queue of the commands that the server has not acknowledged.
-- The storage, and with it the reader and the writer of a stored queue, is left out. A retry count
-- is a natural number, as the reader ensures, and an absent field is `none`.
pub mod Slots
pub mod Compact
pub mod References
mod Examples
use volleyball_monitoring_ai.Base.{
  ℕ, zero, suc, ◌+◌, Bool, true, false, List, [], ◌∷◌, ◌++◌, map, Option, none, some, Result, ok,
  err, ◌>>=◌, any, keep, ltb, leb, not, length, if◌then◌else◌,
}
use volleyball_monitoring_ai.Base.Text.{Text, codes, text_eq}
use volleyball_monitoring_ai.Base.Maps.{map_get, map_set}
use volleyball_monitoring_ai.Contracts.BallEvent.{
  BallEventKind, serve, receive, contact, spike, BallEventResult, success, failure, BallEventValue,
}
use volleyball_monitoring_ai.Contracts.AnnotationCommand.{
  AnnotationCommand, AnnotationPayload, start_rally, end_rally, create_service_key_point,
  set_rally_outcome, create_contact_key_point, close_rally, move_key_point, set_ball_event,
  set_ball_event_actor, delete_key_point, reopen_rally, void_rally, submit_rally, kind_word,
}

pub data AnnotationOutboxStatus : Type 0 where
  pending needs_confirmation : AnnotationOutboxStatus

pub record Observation : Type 0 where
  pub capture_time_us : Text
  pub capture_frame_index : Option Text

pub record AnnotationOutboxEntry : Type 0 where
  pub command : AnnotationCommand
  pub queued_at : Text
  pub status : AnnotationOutboxStatus
  pub reason : Option Text
  pub observation : Option Observation
  pub retry_count : Option ℕ
  pub attempted_at : Option Text

abbrev pub max_entries : ℕ
max_entries = 256

event_kind_word : BallEventKind → Text
event_kind_word serve = codes "SERVE"
event_kind_word receive = codes "RECEIVE"
event_kind_word contact = codes "CONTACT"
event_kind_word spike = codes "SPIKE"

result_word : Option BallEventResult → Text
result_word none = []
result_word (some success) = codes "SUCCESS"
result_word (some failure) = codes "FAILURE"

-- `${event?.kind ?? ''}:${event?.result ?? ''}`
event_words : Option BallEventValue → Text
unfolding event_kind_word result_word
event_words none = codes ":"
event_words (some event) = event_kind_word event.kind ++ codes ":" ++ result_word event.result

terminal_word : Bool → Text
terminal_word true = codes "unknown"
terminal_word false = []

-- `entry.observation?.capture_frame_index`, if it is neither missing nor empty.
observed_frame : Option Observation → Option Text
observed_frame none = none
observed_frame (some observation) = elim observation.capture_frame_index [
  | none ↦ none
  | some frame ↦ elim frame [ [] ↦ none | c ∷ s ↦ some (c ∷ s) ]
]

contact_key : Text → Option Text → Bool → Option BallEventValue → Option Text
unfolding event_words terminal_word
contact_key prefix none terminal event = none
contact_key prefix (some frame) terminal event = some (
    prefix
    ++ codes ":"
    ++ frame
    ++ codes ":"
    ++ event_words event
    ++ codes ":"
    ++ terminal_word terminal)

key_of : Text → Option Observation → AnnotationPayload → Option Text
unfolding contact_key observed_frame
key_of prefix observation (create_contact_key_point cursor terminal event) =
    contact_key prefix (observed_frame observation) terminal event
key_of prefix observation (move_key_point id cursor) = some (prefix ++ codes ":" ++ id)
key_of prefix observation (set_ball_event id event) = some (prefix ++ codes ":" ++ id)
key_of prefix observation (set_ball_event_actor id actor) = some (prefix ++ codes ":" ++ id)
key_of prefix observation (delete_key_point id) = some (prefix ++ codes ":" ++ id)
key_of prefix observation (start_rally cursor) = some prefix
key_of prefix observation (create_service_key_point cursor) = some prefix
key_of prefix observation (end_rally cursor) = some prefix
key_of prefix observation (close_rally target outcome) = some prefix
key_of prefix observation (set_rally_outcome outcome) = some prefix
key_of prefix observation reopen_rally = some prefix
key_of prefix observation (void_rally reason) = some prefix
key_of prefix observation submit_rally = some prefix

unfoldable pub coalescing_key : AnnotationOutboxEntry → Option Text
unfolding key_of kind_word
coalescing_key entry =
    key_of (entry.command.rally_id ++ codes ":" ++ kind_word entry.command.payload)
      entry.observation entry.command.payload

-- `(entry.retry_count ?? 0) >= 3`
unfoldable pub is_exhausted : AnnotationOutboxEntry → Bool
is_exhausted entry = elim entry.retry_count [ none ↦ false | some n ↦ leb 3 n ]

-- `compacted[index] = null`
unfoldable pub set_null :
    ℕ → List (Option AnnotationOutboxEntry) → List (Option AnnotationOutboxEntry)
set_null i [] = []
set_null zero (x ∷ xs) = none ∷ xs
set_null (suc i) (x ∷ xs) = x ∷ set_null i xs

-- The variables of the loop.
pub record Compaction : Type 0 where
  pub compacted : List (Option AnnotationOutboxEntry)
  pub index_by_key : List (Text × ℕ)

unfoldable pub push_keyed : AnnotationOutboxEntry → Text → Option ℕ → Compaction → Compaction
unfolding set_null map_set
push_keyed entry key none c = record {
  compacted = c.compacted ++ some entry ∷ [];
  index_by_key = map_set key (length c.compacted) c.index_by_key;
}
push_keyed entry key (some previous) c = record {
  compacted = set_null previous c.compacted ++ some entry ∷ [];
  index_by_key = map_set key (length (set_null previous c.compacted)) c.index_by_key;
}

unfoldable pub push_entry : AnnotationOutboxEntry → Option Text → Compaction → Compaction
unfolding push_keyed map_get
push_entry entry none c = record c { compacted = c.compacted ++ some entry ∷ [] }
push_entry entry (some key) c = push_keyed entry key (map_get key c.index_by_key) c

-- The loop over the entries. No key is empty.
unfoldable pub compact_entries : Compaction → List AnnotationOutboxEntry → Compaction
unfolding push_entry coalescing_key is_exhausted
compact_entries c [] = c
compact_entries c (entry ∷ entries) =
    compact_entries (if is_exhausted entry then c else push_entry entry (coalescing_key entry) c)
      entries

unfoldable pub present : List (Option AnnotationOutboxEntry) → List AnnotationOutboxEntry
present [] = []
present (none ∷ xs) = present xs
present (some entry ∷ xs) = entry ∷ present xs

unfoldable pub initial_compaction : Compaction
initial_compaction = record { compacted = []; index_by_key = [] }

unfoldable pub compact_annotation_outbox : List AnnotationOutboxEntry → List AnnotationOutboxEntry
unfolding initial_compaction compact_entries present
compact_annotation_outbox entries = present (compact_entries initial_compaction entries).compacted

pub data OutboxError : Type 0 where
  outbox_full invalid_command : OutboxError

unfoldable pub has_command : Text → AnnotationOutboxEntry → Bool
has_command command_id entry = text_eq entry.command.command_id command_id

-- The entry that a command enters the queue with; `now` is the time as a text.
abbrev pub queued : AnnotationCommand → Text → Option Observation → Option ℕ → AnnotationOutboxEntry
queued command now observation retry_count = record {
  command = command;
  queued_at = now;
  status = pending;
  reason = none;
  observation = observation;
  retry_count = retry_count;
  attempted_at = none;
}

unfoldable pub enqueue_annotation_command :
    List AnnotationOutboxEntry
    → AnnotationCommand
    → Text
    → Option Observation
    → Option ℕ
    → Result OutboxError (List AnnotationOutboxEntry)
unfolding has_command compact_annotation_outbox
enqueue_annotation_command entries command now observation retry_count =
    let compacted =
      compact_annotation_outbox (entries ++ queued command now observation retry_count ∷ []) in
    if any (has_command command.command_id) entries
    then ok entries
    else if ltb max_entries (length compacted)
    then err outbox_full
    else ok compacted

unfoldable pub replace_annotation_outbox_command :
    List AnnotationOutboxEntry → Text → AnnotationCommand → List AnnotationOutboxEntry
unfolding has_command
replace_annotation_outbox_command entries command_id command =
    map
      (λ entry.
        if has_command command_id entry
        then (record entry {
          command = command;
          attempted_at = none;
          status = pending;
          reason = none;
        })
        else entry)
      entries

unfoldable pub mark_annotation_outbox_attempted :
    List AnnotationOutboxEntry → Text → Text → List AnnotationOutboxEntry
unfolding has_command
mark_annotation_outbox_attempted entries command_id now =
    map
      (λ entry.
        if has_command command_id entry then (record entry { attempted_at = some now }) else entry)
      entries

unfoldable pub resolve_annotation_outbox_entry :
    List AnnotationOutboxEntry → Text → List AnnotationOutboxEntry
unfolding has_command
resolve_annotation_outbox_entry entries command_id =
    keep (λ entry. not (has_command command_id entry)) entries

unfoldable pub require_annotation_outbox_confirmation :
    List AnnotationOutboxEntry → Text → Text → List AnnotationOutboxEntry
unfolding has_command
require_annotation_outbox_confirmation entries command_id reason =
    map
      (λ entry.
        if has_command command_id entry
        then (record entry { status = needs_confirmation; reason = some reason })
        else entry)
      entries

-- The payload with the resolved identity, if it refers to the pending one.
unfoldable pub renamed : Text → Text → AnnotationPayload → Option AnnotationPayload
unfolding text_eq
renamed pending_id resolved_id (move_key_point id cursor) =
    if text_eq id pending_id then some (move_key_point resolved_id cursor) else none
renamed pending_id resolved_id (set_ball_event id event) =
    if text_eq id pending_id then some (set_ball_event resolved_id event) else none
renamed pending_id resolved_id (set_ball_event_actor id actor) =
    if text_eq id pending_id then some (set_ball_event_actor resolved_id actor) else none
renamed pending_id resolved_id (delete_key_point id) =
    if text_eq id pending_id then some (delete_key_point resolved_id) else none
renamed pending_id resolved_id (close_rally target outcome) =
    if text_eq target pending_id then some (close_rally resolved_id outcome) else none
renamed pending_id resolved_id payload = none

-- `parseAnnotationCommand` returns the commands that its schema accepts and throws at the others.
module _ (is_valid : AnnotationCommand → Bool) where
  unfoldable pub resolved_entry :
      AnnotationOutboxEntry → Option AnnotationPayload → Result OutboxError AnnotationOutboxEntry
  resolved_entry entry none = ok entry
  resolved_entry entry (some payload) =
      let command = record entry.command { payload = payload } in
      if is_valid command
      then ok (record entry { attempted_at = none; command = command })
      else err invalid_command

  unfoldable pub resolve_annotation_outbox_key_point_reference :
      List AnnotationOutboxEntry → Text → Text → Result OutboxError (List AnnotationOutboxEntry)
  unfolding resolved_entry renamed
  resolve_annotation_outbox_key_point_reference [] pending_id resolved_id = ok []
  resolve_annotation_outbox_key_point_reference (entry ∷ entries) pending_id resolved_id = do
    resolved ← resolved_entry entry (renamed pending_id resolved_id entry.command.payload)
    rest ← resolve_annotation_outbox_key_point_reference entries pending_id resolved_id
    ok (resolved ∷ rest)
