-- ===== src/Control/Event.antt =====
-- main/gdo-blaq-homekit.cpp: gdo_event_handler, which gdolib calls for each event of the opener.
-- Log lines are left out.
use gdo_blaq_homekit.Prelude.{
  ℕ, ◌+◌, ◌-◌, ◌*◌, ◌^◌, Bool, true, false, not, ◌&&◌, ◌||◌, if◌then◌else◌, ◌==◌, ltb,
}
use gdo_blaq_homekit.Opener.{
  Esp, is_ok, DoorState, opened, closed, opening, closing, Status, ObstructionState, clear,
  obstructed, obstruction_unknown, obstruction_unset, is_clear, is_real, is_v2, raw_position,
  Target, target_open, target_closed, u32,
}
use gdo_blaq_homekit.Control.{
  Control, set_rolling_code, sync, save_protocol, save_rolling_state, notify_target, notify_light,
  notify_lock, notify_obstruction, notify_motion, notify_learn, give_synced,
  give_protocol_identified, activity, emit, bump,
}
use gdo_blaq_homekit.Control.Door.{set_last_door_state, process_door_position}

-- `gdo_cb_event_t`: the events with a case of their own.
pub data Event : Type 0 where
  synced light lock door_position obstruction motion battery button motor : Event
  openings ttc paired_devices learn open_duration close_duration unlisted : Event

-- What the calls of one event answer: the times that are read, in order, and whether
-- gdo_set_rolling_code() succeeds.
pub record Answers : Type 0 where
  pub now : ℕ
  pub later : ℕ
  pub rolling_code_set : Esp

-- Events that come from received opener state.
abbrev pub is_evidence : Event → Bool
is_evidence synced = false
is_evidence obstruction = false
is_evidence open_duration = false
is_evidence close_duration = false
is_evidence unlisted = false
is_evidence _ = true

-- The protocol counts as identified from the first evidence on.
unfoldable pub identify_protocol : Status → Event → Control → Control
identify_protocol status event s =
    if (status.synced || is_evidence event) && is_real status.protocol && not s.protocol_identified
    then emit give_protocol_identified (record s { protocol_identified = true })
    else s

abbrev pub pairing_fault_timeout_ms : ℕ
pairing_fault_timeout_ms = 15 * 60 * 1000

-- The step of the rolling code after `count` failures in a row: 100, doubled up to 1600.
unfoldable pub rolling_jump : ℕ → ℕ
rolling_jump count = 100 * 2 ^ (if ltb 4 count then 4 else count - 1)

-- GDO_CB_EVENT_SYNCED with `synced` false. `now_ms() - first > limit` is written without the
-- subtraction.
unfoldable pub sync_failed : Status → Answers → Control → Control
unfolding rolling_jump
sync_failed status a s =
    let t = if s.sync_retry_count == 0 then record s { sync_first_failure_ms = a.now } else s in
    let u = record t { sync_retry_count = u32 (t.sync_retry_count + 1) } in
    let v =
      emit (set_rolling_code (u32 (status.rolling_code + rolling_jump u.sync_retry_count))) u in
    let w = if is_ok a.rolling_code_set then emit sync v else v in
    if not w.pairing_fault && ltb (w.sync_first_failure_ms + pairing_fault_timeout_ms) a.later
    then record w { pairing_fault = true }
    else w

-- GDO_CB_EVENT_SYNCED with `synced` true.
unfoldable pub sync_done : Status → Answers → Control → Control
sync_done status a s =
    let t = emit save_protocol (
      emit give_synced
        (record s { sync_retry_count = 0; sync_first_failure_ms = 0; pairing_fault = false })) in
    process_door_position status a.now a.later
      (if is_v2 status.protocol then emit save_rolling_state t else t)

abbrev pub obstruction_code : ObstructionState → ℕ
obstruction_code clear = 0
obstruction_code obstructed = 1
obstruction_code obstruction_unknown = 2
obstruction_code obstruction_unset = 3

-- GDO_CB_EVENT_OBSTRUCTION.
unfoldable pub obstruction_event : ObstructionState → Control → Control
obstruction_event seen s =
    let t =
      if obstruction_code seen == obstruction_code s.last_obstruction
      then s
      else emit (activity "obstruction" (if is_clear seen then "Clear" else "Detected or unknown"))
          (record (bump s) { last_obstruction = seen }) in
    emit (notify_obstruction t.last_obstruction) t

-- A motor that turns on moves the door away from the end at which it was last seen.
unfoldable pub move_from : DoorState → DoorState → Target → Status → Answers → Control → Control
move_from from towards target status a s =
    record (emit (notify_target target) (set_last_door_state towards a.now s)) {
      door_in_transition = true;
      transition_start_ms = a.later;
      transition_target = towards;
      transition_start_raw = raw_position status.door_position;
    }

unfoldable pub motor_started : DoorState → Status → Answers → Control → Control
motor_started closed status a s = move_from closed opening target_open status a s
motor_started opened status a s = move_from opened closing target_closed status a s
motor_started _ status a s = s

-- GDO_CB_EVENT_MOTOR.
unfoldable pub motor_event : Status → Answers → Control → Control
motor_event status a s = if status.motor_on then motor_started s.last_door status a s else s

-- The second `switch`.
unfoldable pub dispatch : Event → Status → Answers → Control → Control
dispatch synced status a s = if status.synced then sync_done status a s else sync_failed status a s
dispatch light status a s =
    emit (notify_light status.light) (record s { last_light = status.light })
dispatch lock status a s = emit (notify_lock status.lock) (record s { last_lock = status.lock })
dispatch door_position status a s = process_door_position status a.now a.later s
dispatch obstruction status a s = obstruction_event status.obstruction s
dispatch motion status a s =
    emit (notify_motion status.motion) (record s { last_motion = status.motion })
dispatch button status a s =
    if status.button_pressed then bump (emit (activity "opener" "Button press received") s) else s
dispatch motor status a s = motor_event status a s
dispatch learn status a s =
    emit (notify_learn status.learn) (record s { last_learn = status.learn })
dispatch _ status a s = s

-- `gdo_event_handler`.
unfoldable pub event_handler : Event → Status → Answers → Control → Control
event_handler event status a s = dispatch event status a (identify_protocol status event s)
