-- ===== src/Contracts/BallEvent.antt =====
-- packages/contracts/src/ball-event.ts: the normalization of a rally's ball events. An anchor's
-- decimal texts stand as their values: the TypeError that malformed ones lead to has no counterpart.
pub mod Order
pub mod Idempotent
pub mod Rules
pub mod Unbounded
pub mod Shortcut
mod Examples
use volleyball_monitoring_ai.Base.{
  ℕ, zero, suc, Bool, true, false, List, [], ◌∷◌, ◌++◌, Option, none, some, ◌||◌, ◌&&◌, not, any,
  find, ltb, ◌==◌, if◌then◌else◌,
}
use volleyball_monitoring_ai.Base.Text.{Text, text_eq}
use volleyball_monitoring_ai.Base.Int.{ℤ, pos, negsuc, ◌-ℤ◌, ltb_ℤ, leb_ℤ, eqb_ℤ}

pub data BallEventKind : Type 0 where
  serve receive contact spike : BallEventKind

pub data ServeStyle : Type 0 where
  jump standing : ServeStyle

pub data BallEventResult : Type 0 where
  success failure : BallEventResult

-- A missing `serve_style` and a null one are both `none`, which the source tells apart nowhere.
pub record BallEventValue : Type 0 where
  pub kind : BallEventKind
  pub result : Option BallEventResult
  pub serve_style : Option ServeStyle

pub data ReceiveContext : Type 0 where
  serve_receive spike_receive plain_receive : ReceiveContext

unfoldable pub receive_context_for_previous_event : Option BallEventValue → ReceiveContext
receive_context_for_previous_event none = plain_receive
receive_context_for_previous_event (some previous) = elim previous.kind [
  | serve ↦ serve_receive
  | spike ↦ spike_receive
  | _ ↦ plain_receive
]

pub record BallEventRuleAnchor : Type 0 where
  pub capture_time_us : ℕ
  pub capture_frame_index : ℕ

pub record BallEventRulePoint : Type 0 where
  pub anchor : BallEventRuleAnchor
  pub key_point_id : Text
  pub sequence_index : ℤ
  pub event : Option BallEventValue

pub data BoundaryKind : Type 0 where
  start end : BoundaryKind

pub record BallEventRuleBoundary : Type 0 where
  pub anchor : BallEventRuleAnchor
  pub kind : BoundaryKind

pub data BallEventRepairCode : Type 0 where
  outside_start_tombstoned outside_end_tombstoned : BallEventRepairCode
  event_kind_normalized event_result_cleared : BallEventRepairCode
  serve_style_defaulted serve_style_cleared sequence_reindexed : BallEventRepairCode

pub data RepairAction : Type 0 where
  tombstone update : RepairAction

pub record PlacedEvent : Type 0 where
  pub sequence_index : ℤ
  pub event : Option BallEventValue

pub record BallEventRepair : Type 0 where
  pub code : BallEventRepairCode
  pub key_point_id : Text
  pub action : RepairAction
  pub before : PlacedEvent
  pub after : Option PlacedEvent

pub record NormalizedBallEventPoint : Type 0 where
  pub anchor : BallEventRuleAnchor
  pub key_point_id : Text
  pub sequence_index : ℤ
  pub event : BallEventValue

pub record BallEventNormalization : Type 0 where
  pub points : List NormalizedBallEventPoint
  pub tombstoned_key_point_ids : List Text
  pub repairs : List BallEventRepair

abbrev pub compare_anchor : BallEventRuleAnchor → BallEventRuleAnchor → ℤ
compare_anchor left right =
    if left.capture_time_us == right.capture_time_us
    then (if left.capture_frame_index == right.capture_frame_index
        then pos 0
        else if ltb left.capture_frame_index right.capture_frame_index
        then negsuc 0
        else pos 1)
    else if ltb left.capture_time_us right.capture_time_us
    then negsuc 0
    else pos 1

-- `left || right` on numbers.
abbrev pub or_number : ℤ → ℤ → ℤ
or_number left right = if eqb_ℤ left (pos 0) then right else left

is_same_kind : BallEventKind → BallEventKind → Bool
is_same_kind serve serve = true
is_same_kind receive receive = true
is_same_kind contact contact = true
is_same_kind spike spike = true
is_same_kind _ _ = false

is_same_result : Option BallEventResult → Option BallEventResult → Bool
is_same_result none none = true
is_same_result (some success) (some success) = true
is_same_result (some failure) (some failure) = true
is_same_result _ _ = false

-- Each result of the type is one of `BALL_EVENT_RESULTS`.
unfoldable pub is_ball_event_result_valid : BallEventKind → Option BallEventResult → Bool
is_ball_event_result_valid contact none = true
is_ball_event_result_valid contact (some result) = false
is_ball_event_result_valid _ result = true

-- The kind of a point at an index.
required_kind : ℕ → Option BallEventKind → BallEventKind
required_kind zero current = serve
required_kind (suc zero) (some spike) = contact
required_kind (suc index) (some spike) = spike
required_kind (suc index) (some receive) = receive
required_kind (suc index) (some contact) = contact
required_kind (suc index) _ = contact

pub result_for_ball_event_choice : BallEventKind → BallEventResult → Option BallEventResult
result_for_ball_event_choice contact choice = none
result_for_ball_event_choice _ choice = some choice

kind_of : Option BallEventValue → Option BallEventKind
kind_of none = none
kind_of (some event) = some event.kind

-- `point.event?.serve_style ?? 'JUMP'`, of a serve.
serve_style_for : BallEventKind → Option BallEventValue → Option ServeStyle
serve_style_for serve (some event) = elim event.serve_style [ none ↦ some jump | some s ↦ some s ]
serve_style_for serve none = some jump
serve_style_for _ event = none

-- `point.event?.kind === kind && isBallEventResultValid(kind, point.event.result) ? … : null`
result_for : BallEventKind → Option BallEventValue → Option BallEventResult
unfolding is_same_kind is_ball_event_result_valid
result_for kind none = none
result_for kind (some event) =
    if is_same_kind event.kind kind && is_ball_event_result_valid kind event.result
    then event.result
    else none

-- The event that a point has after the normalization.
pub normalized_event : ℕ → Option BallEventValue → BallEventValue
unfolding required_kind result_for serve_style_for kind_of
normalized_event index event = record {
  kind = required_kind index (kind_of event);
  result = result_for (required_kind index (kind_of event)) event;
  serve_style = serve_style_for (required_kind index (kind_of event)) event;
}

is_missing : Option ServeStyle → Bool
is_missing none = true
is_missing (some _) = false

is_serve : BallEventKind → Bool
is_serve serve = true
is_serve _ = false

-- The code of the repair of an event, if it needs one.
pub event_repair : BallEventValue → Option BallEventValue → Option BallEventRepairCode
unfolding is_same_kind is_same_result is_missing is_serve
event_repair event none = some event_kind_normalized
event_repair event (some current) =
    if not (is_same_kind current.kind event.kind)
    then some event_kind_normalized
    else if not (is_same_result current.result event.result)
    then some event_result_cleared
    else if is_serve event.kind && is_missing current.serve_style
    then some serve_style_defaulted
    else if not (is_serve event.kind) && not (is_missing current.serve_style)
    then some serve_style_cleared
    else none

update_repair : BallEventRepairCode → ℕ → BallEventRulePoint → BallEventValue → BallEventRepair
update_repair code index point event = record {
  code = code;
  key_point_id = point.key_point_id;
  action = update;
  before = record { sequence_index = point.sequence_index; event = point.event };
  after = some (record { sequence_index = pos index; event = some event });
}

is_update_to : Text → ℕ → BallEventRepair → Bool
is_update_to key_point_id index repair =
    text_eq repair.key_point_id key_point_id
    && elim repair.action [ update ↦ true | tombstone ↦ false ]
    && elim repair.after [ none ↦ false | some placed ↦ eqb_ℤ placed.sequence_index (pos index) ]

push_event_repair :
    ℕ → BallEventRulePoint → BallEventValue → List BallEventRepair → List BallEventRepair
unfolding event_repair update_repair
push_event_repair index point event repairs = elim (event_repair event point.event) [
  | none ↦ repairs
  | some code ↦ repairs ++ update_repair code index point event ∷ []
]

-- `if (point.sequence_index !== index) { … }`
push_reindex_repair :
    ℕ → BallEventRulePoint → BallEventValue → List BallEventRepair → List BallEventRepair
unfolding is_update_to update_repair
push_reindex_repair index point event repairs =
    if eqb_ℤ point.sequence_index (pos index) || any (is_update_to point.key_point_id index) repairs
    then repairs
    else repairs ++ update_repair sequence_reindexed index point event ∷ []

-- The map over the retained points, which pushes repairs as it goes.
pub normalize_points :
    ℕ
    → List BallEventRepair
    → List BallEventRulePoint
    → List NormalizedBallEventPoint × List BallEventRepair
unfolding normalized_event push_event_repair push_reindex_repair
normalize_points index repairs [] = ([], repairs)
normalize_points index repairs (point ∷ points) =
    let event = normalized_event index point.event in
    let (rest, all_repairs) =
      normalize_points (suc index)
        (push_reindex_repair index point event (push_event_repair index point event repairs))
        points in
    (
      record {
        anchor = point.anchor;
        key_point_id = point.key_point_id;
        sequence_index = pos index;
        event = event;
      }
          ∷ rest,
      all_repairs,
    )

abbrev pub is_start : BallEventRuleBoundary → Bool
is_start boundary = elim boundary.kind [ start ↦ true | end ↦ false ]

abbrev pub is_end : BallEventRuleBoundary → Bool
is_end boundary = elim boundary.kind [ start ↦ false | end ↦ true ]

pub is_before : BallEventRuleAnchor → Option BallEventRuleBoundary → Bool
is_before anchor none = false
is_before anchor (some boundary) = ltb_ℤ (compare_anchor anchor boundary.anchor) (pos 0)

pub is_behind : BallEventRuleAnchor → Option BallEventRuleBoundary → Bool
is_behind anchor none = false
is_behind anchor (some boundary) = ltb_ℤ (pos 0) (compare_anchor anchor boundary.anchor)

tombstone_repair : BallEventRepairCode → BallEventRulePoint → BallEventRepair
tombstone_repair code point = record {
  code = code;
  key_point_id = point.key_point_id;
  action = tombstone;
  before = record { sequence_index = point.sequence_index; event = point.event };
  after = none;
}

pub record Retained : Type 0 where
  pub points : List BallEventRulePoint
  pub tombstoned : List Text
  pub repairs : List BallEventRepair

-- The loop over the sorted points.
pub retain :
    Option BallEventRuleBoundary → Option BallEventRuleBoundary → List BallEventRulePoint → Retained
unfolding is_before is_behind tombstone_repair
retain opening closing [] = record { points = []; tombstoned = []; repairs = [] }
retain opening closing (point ∷ points) =
    let rest = retain opening closing points in
    let outside_start = is_before point.anchor opening in
    let code = if outside_start then outside_start_tombstoned else outside_end_tombstoned in
    if outside_start || is_behind point.anchor closing
    then (record rest {
      tombstoned = point.key_point_id ∷ rest.tombstoned;
      repairs = tombstone_repair code point ∷ rest.repairs;
    })
    else (record rest { points = point ∷ rest.points })

-- `localeCompare` of the platform is a parameter.
module _ (locale_compare : Text → Text → ℤ) where
  pub compare_point : BallEventRulePoint → BallEventRulePoint → ℤ
  compare_point left right = or_number (compare_anchor left.anchor right.anchor) (
      or_number (left.sequence_index -ℤ right.sequence_index)
        (locale_compare left.key_point_id right.key_point_id))

  pub insert_point : BallEventRulePoint → List BallEventRulePoint → List BallEventRulePoint
  unfolding compare_point
  insert_point point [] = point ∷ []
  insert_point point (other ∷ points) =
      let further = insert_point point points in
      if leb_ℤ (compare_point point other) (pos 0) then point ∷ other ∷ points else other ∷ further

  -- The stable sort of the points.
  pub sort_points : List BallEventRulePoint → List BallEventRulePoint
  unfolding insert_point
  sort_points [] = []
  sort_points (point ∷ points) = insert_point point (sort_points points)

  -- An absent list of boundaries is the empty one.
  unfoldable pub normalize_ball_event_key_points :
      List BallEventRulePoint → List BallEventRuleBoundary → BallEventNormalization
  unfolding sort_points retain normalize_points
  normalize_ball_event_key_points points boundaries =
      let retained =
        retain (find is_start boundaries) (find is_end boundaries) (sort_points points) in
      let (normalized, repairs) = normalize_points 0 retained.repairs retained.points in
      record {
        points = normalized;
        tombstoned_key_point_ids = retained.tombstoned;
        repairs = repairs;
      }
