-- ===== src/Control/Door.antt =====
-- main/gdo-blaq-homekit.cpp: the door state that the firmware goes by, and how a position report
-- changes it (set_last_door_state, process_door_position). Log lines are left out.
use Prim.Native.String.{String}
use gdo_blaq_homekit.Prelude.{ℕ, Bool, true, false, not, ◌&&◌, ◌||◌, if◌then◌else◌, leb}
use gdo_blaq_homekit.Prelude.Int.{ℤ, pos, eq_ℤ, leb_ℤ}
use gdo_blaq_homekit.Opener.{
  DoorState, opened, closed, stopped, opening, closing, unset, same_door, is_opened, is_unset,
  is_v1, is_v2, Status, raw_position, target_open, target_closed,
}
use gdo_blaq_homekit.Control.{
  Control, notify_current, notify_target, notify_light, reset_rx_errors, activity, emit, bump,
}

-- The activity line of a change.
abbrev pub door_label : DoorState → String
door_label opened = "Open"
door_label closed = "Closed"
door_label opening = "Opening"
door_label closing = "Closing"
door_label _ = "Stopped or unknown"

-- A change of state cancels what is pending, and is an event of the history.
unfoldable pub record_change : DoorState → Control → Control
record_change new s =
    if same_door new s.last_door then s else emit (activity "opener" (door_label new)) (bump s)

-- The clock of the auto-close starts when the door arrives at open, and stops when it leaves it.
unfoldable pub track_open : DoorState → ℕ → Control → Control
track_open new now s =
    if is_opened new && not (is_opened s.last_door)
    then record s {
      door_open_since_ms = now;
      door_continuously_open_since_ms = now;
      auto_close_triggered = false;
    }
    else if not (is_opened new) && is_opened s.last_door
    then record s {
      door_open_since_ms = 0;
      door_continuously_open_since_ms = 0;
      auto_close_triggered = false;
    }
    else s

-- `set_last_door_state`; `now` is what now_ms() reads.
unfoldable pub set_last_door_state : DoorState → ℕ → Control → Control
set_last_door_state new now s =
    emit (notify_current new)
      (record (track_open new now (record_change new s)) { last_door = new })

abbrev pub open_threshold : ℕ
open_threshold = 200

abbrev pub closed_threshold : ℕ
closed_threshold = 9800

-- The end at which a raw position lies, or `other`.
unfoldable pub end_of : ℕ → DoorState → DoorState
end_of raw other =
    if leb raw open_threshold then opened else if leb closed_threshold raw then closed else other

-- The state of a report: on either protocol the position counts only if no state was ever told.
unfoldable pub inferred : Status → DoorState
inferred status =
    if (is_v1 status.protocol || is_v2 status.protocol) && is_unset status.door
    then end_of (raw_position status.door_position) unset
    else status.door

-- The target of a moving door, on Security+ 1.0.
unfoldable pub push_target_v1 : Status → DoorState → Control → Control
push_target_v1 status opening s =
    if is_v1 status.protocol then emit (notify_target target_open) s else s
push_target_v1 status closing s =
    if is_v1 status.protocol then emit (notify_target target_closed) s else s
push_target_v1 status _ s = s

unfoldable pub push_transition : DoorState → Control → Control
push_transition opening s = emit (notify_target target_open) s
push_transition closing s = emit (notify_target target_closed) s
push_transition _ s = s

-- The target on Security+ 2.0: that of a tracked movement, or the one that gdolib reports.
unfoldable pub push_target_v2 : Status → Control → Control
push_target_v2 status s =
    if not (is_v2 status.protocol)
    then s
    else if s.door_in_transition
    then push_transition s.transition_target s
    else if eq_ℤ status.door_target (pos 0)
    then emit (notify_target target_open) s
    else if eq_ℤ status.door_target (pos 10000)
    then emit (notify_target target_closed) s
    else s

-- `inferred_confirmed_by_raw`.
abbrev pub confirmed_by_raw : DoorState → ℕ → Bool
confirmed_by_raw opened raw = leb raw open_threshold
confirmed_by_raw closed raw = leb closed_threshold raw
confirmed_by_raw _ raw = true

-- A movement starts to be tracked, unless it already is.
unfoldable pub start_transition : DoorState → ℕ → ℕ → Control → Control
start_transition target raw now s =
    if not s.door_in_transition || not (same_door s.transition_target target)
    then emit reset_rx_errors (record s {
      door_in_transition = true;
      transition_start_ms = now;
      transition_target = target;
      transition_start_raw = raw;
    })
    else s

-- A movement is over when a resting state comes that the position does not contradict.
unfoldable pub end_transition : DoorState → ℕ → Control → Control
end_transition resolved raw s =
    if s.door_in_transition && confirmed_by_raw resolved raw
    then record (emit reset_rx_errors s) { door_in_transition = false }
    else s

unfoldable pub track_transition : DoorState → ℕ → ℕ → Control → Control
track_transition opening raw now s = start_transition opening raw now s
track_transition closing raw now s = start_transition closing raw now s
track_transition state raw now s = end_transition state raw s

-- A jump from one end to the other is shown as a movement first.
unfoldable pub show_movement : DoorState → DoorState → Control → Control
show_movement closed opened s = emit (notify_current opening) s
show_movement opened closed s = emit (notify_current closing) s
show_movement _ _ s = s

-- The target that belongs to a new current state; a stopped door takes the nearer end, if its
-- position is known.
unfoldable pub settle_target : DoorState → ℤ → Control → Control
settle_target opened p s = emit (notify_target target_open) s
settle_target closed p s = emit (notify_target target_closed) s
settle_target stopped p s =
    if leb_ℤ (pos 0) p
    then emit (notify_target (if leb (raw_position p) 5000 then target_open else target_closed)) s
    else s
settle_target _ p s = s

-- The shared update of HomeKit.
unfoldable pub update_homekit : Status → DoorState → ℕ → Control → Control
update_homekit status state now s =
    if not (same_door state s.last_door)
      && confirmed_by_raw state (raw_position status.door_position)
    then settle_target state status.door_position
        (set_last_door_state state now (show_movement s.last_door state s))
    else s

-- `process_door_position`. The two times are those that it reads for the transition and, in
-- set_last_door_state, for the open door.
unfoldable pub process_door_position : Status → ℕ → ℕ → Control → Control
process_door_position status now later s =
    if not status.synced
    then s
    else (let state = inferred status in
        let t = push_target_v2 status (push_target_v1 status state s) in
        let u = track_transition state (raw_position status.door_position) now t in
        let v = update_homekit status state later u in
        emit (notify_light status.light) (record v { last_light = status.light }))
