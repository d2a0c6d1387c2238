-- ===== src/Control/Silent/Events.antt =====
-- Events of the opener (gdo_event_handler).
use gdo_blaq_homekit.Prelude.{arith}
use gdo_blaq_homekit.Opener.{ObstructionState, Status}
use gdo_blaq_homekit.Control.{Control}
use gdo_blaq_homekit.Control.Event.{
  Event, Answers, identify_protocol, sync_failed, sync_done, obstruction_event, move_from,
  motor_started, motor_event, dispatch, event_handler,
}
use gdo_blaq_homekit.Control.Silent.{Silent}
use gdo_blaq_homekit.Control.Silent.Doors.{set_last_door_state-Silent, process_door_position-Silent}

identify_protocol-Silent :
    (st : Status) (v : Event) (s : Control) → Silent s (identify_protocol st v s)
unfolding identify_protocol
identify_protocol-Silent st v s = ground arith

sync_failed-Silent : (st : Status) (a : Answers) (s : Control) → Silent s (sync_failed st a s)
unfolding sync_failed
sync_failed-Silent st a s = ground arith

sync_done-Silent : (st : Status) (a : Answers) (s : Control) → Silent s (sync_done st a s)
unfolding sync_done
sync_done-Silent st a s = grind (arith, process_door_position-Silent)

obstruction_event-Silent : (o : ObstructionState) (s : Control) → Silent s (obstruction_event o s)
unfolding obstruction_event
obstruction_event-Silent o s = ground arith

motor_event-Silent : (st : Status) (a : Answers) (s : Control) → Silent s (motor_event st a s)
unfolding motor_event motor_started move_from
motor_event-Silent st a s = grind (arith, set_last_door_state-Silent)

dispatch-Silent :
    (v : Event) (st : Status) (a : Answers) (s : Control) → Silent s (dispatch v st a s)
unfolding dispatch
dispatch-Silent v st a s = grind (
  arith, sync_failed-Silent, sync_done-Silent, process_door_position-Silent,
  obstruction_event-Silent, motor_event-Silent,
)

pub event_handler-Silent :
    (v : Event) (st : Status) (a : Answers) (s : Control) → Silent s (event_handler v st a s)
unfolding event_handler
event_handler-Silent v st a s = grind (arith, identify_protocol-Silent, dispatch-Silent)
