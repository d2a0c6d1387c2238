-- ===== src/Control/Generation/Events.antt =====
-- Events of the opener (gdo_event_handler).
use gdo_blaq_homekit.Prelude.{ℕ, Bool, true, ◌==◌, if◌then◌else◌, arith}
use gdo_blaq_homekit.Opener.{ObstructionState, Status, is_ok}
use gdo_blaq_homekit.Control.{Control, Effect, sync, emit}
use gdo_blaq_homekit.Control.Event.{
  Event, Answers, identify_protocol, sync_failed, sync_done, obstruction_event, move_from,
  motor_started, motor_event, dispatch, event_handler,
}
use gdo_blaq_homekit.Control.Generation.{Held, Guarded}
use gdo_blaq_homekit.Control.Generation.Doors.{
  set_last_door_state-Guarded, process_door_position-Guarded,
}

pub identify_protocol-Held :
    (st : Status) (v : Event) (s : Control) → Held s (identify_protocol st v s)
unfolding identify_protocol
identify_protocol-Held st v s = ground arith

counted-Held :
    (n : ℕ) (e e' : Effect) (b : Bool) (s t : Control)
    → Held s t
    → Held s (
        if b
        then emit e' (emit e (record t { sync_retry_count = n }))
        else emit e (record t { sync_retry_count = n }))
counted-Held n e e' b s t h = ground (arith, h)

fault-Held :
    (b : Bool) (s t : Control)
    → Held s t
    → Held s (if b then record t { pairing_fault = true } else t)
fault-Held b s t h = ground (arith, h)

first-Held :
    (b : Bool) (now : ℕ) (s : Control)
    → Held s (if b then record s { sync_first_failure_ms = now } else s)
first-Held b now s = ground arith

pub sync_failed-Held : (st : Status) (a : Answers) (s : Control) → Held s (sync_failed st a s)
unfolding sync_failed
sync_failed-Held st a s = fault-Held _ s _ (
    counted-Held _ _ sync (is_ok a.rolling_code_set) s _
      (first-Held (s.sync_retry_count == 0) a.now s))

sync_done-Guarded : (st : Status) (a : Answers) (s : Control) → Guarded s (sync_done st a s)
unfolding sync_done
sync_done-Guarded st a s = grind (arith, process_door_position-Guarded)

obstruction_event-Guarded : (o : ObstructionState) (s : Control) → Guarded s (obstruction_event o s)
unfolding obstruction_event
obstruction_event-Guarded o s = ground arith

motor_event-Guarded : (st : Status) (a : Answers) (s : Control) → Guarded s (motor_event st a s)
unfolding motor_event motor_started move_from
motor_event-Guarded st a s = grind (arith, set_last_door_state-Guarded)

dispatch-Guarded :
    (v : Event) (st : Status) (a : Answers) (s : Control) → Guarded s (dispatch v st a s)
unfolding dispatch
dispatch-Guarded v st a s = grind (
  arith, sync_failed-Held, sync_done-Guarded, process_door_position-Guarded,
  obstruction_event-Guarded, motor_event-Guarded,
)

pub event_handler-Guarded :
    (v : Event) (st : Status) (a : Answers) (s : Control) → Guarded s (event_handler v st a s)
unfolding event_handler
event_handler-Guarded v st a s = grind (arith, identify_protocol-Held, dispatch-Guarded)
