-- ===== src/Control/Sound/Steps.antt =====
-- The operations that move the generation on keep the state sound.
use gdo_blaq_homekit.Prelude.{ℕ, Bool, Option, arith}
use gdo_blaq_homekit.Prelude.Int.{ℤ}
use gdo_blaq_homekit.Opener.{Esp, Status, DoorState, ObstructionState}
use gdo_blaq_homekit.Schedule.{CloseSchedule}
use gdo_blaq_homekit.Control.{Control}
use gdo_blaq_homekit.Control.Command.{control_open, control_close}
use gdo_blaq_homekit.Control.Door.{
  record_change, track_open, set_last_door_state, update_homekit, process_door_position,
}
use gdo_blaq_homekit.Control.Event.{
  Event, Answers, sync_done, obstruction_event, move_from, motor_started, motor_event, dispatch,
  event_handler,
}
use gdo_blaq_homekit.Control.Watchdog.{set_if_changed, settle, stuck_check}
use gdo_blaq_homekit.Control.Settings.{
  Write, ScheduleAnswers, set_pre_close_buzzer, set_auto_close_timeout_ms, set_auto_close_enabled,
  publish_schedule, set_close_schedule,
}
use gdo_blaq_homekit.Control.Generation.Doors.{
  show_movement-Held, settle_target-Held, push_target_v1-Held, push_target_v2-Held,
  track_transition-Held,
}
use gdo_blaq_homekit.Control.Generation.Events.{identify_protocol-Held, sync_failed-Held}
use gdo_blaq_homekit.Control.Generation.Rounds.{
  correct_target-Held, request_recovery-Held, apply_timezone-Held,
}
use gdo_blaq_homekit.Control.Persist.{IsValid}
use gdo_blaq_homekit.Control.Sound.{IsSound, Held-IsSound}

set_last_door_state-IsSound :
    (d : DoorState) (now : ℕ) (s : Control) → IsSound s → IsSound (set_last_door_state d now s)
unfolding set_last_door_state record_change track_open
set_last_door_state-IsSound d now s h = ground (arith, h)

update_homekit-IsSound :
    (st : Status) (d : DoorState) (now : ℕ) (s : Control)
    → IsSound s
    → IsSound (update_homekit st d now s)
unfolding update_homekit
update_homekit-IsSound st d now s h =
    grind (arith, show_movement-Held, settle_target-Held, Held-IsSound, set_last_door_state-IsSound)

process_door_position-IsSound :
    (st : Status) (now later : ℕ) (s : Control)
    → IsSound s
    → IsSound (process_door_position st now later s)
unfolding process_door_position
process_door_position-IsSound st now later s h = grind (
  arith, push_target_v1-Held, push_target_v2-Held, track_transition-Held, Held-IsSound,
  update_homekit-IsSound,
)

sync_done-IsSound :
    (st : Status) (a : Answers) (s : Control) → IsSound s → IsSound (sync_done st a s)
unfolding sync_done
sync_done-IsSound st a s h = grind (arith, process_door_position-IsSound)

obstruction_event-IsSound :
    (o : ObstructionState) (s : Control) → IsSound s → IsSound (obstruction_event o s)
unfolding obstruction_event
obstruction_event-IsSound o s h = ground (arith, h)

motor_event-IsSound :
    (st : Status) (a : Answers) (s : Control) → IsSound s → IsSound (motor_event st a s)
unfolding motor_event motor_started move_from
motor_event-IsSound st a s h = grind (arith, set_last_door_state-IsSound)

dispatch-IsSound :
    (v : Event) (st : Status) (a : Answers) (s : Control) → IsSound s → IsSound (dispatch v st a s)
unfolding dispatch
dispatch-IsSound v st a s h = grind (
  arith, sync_failed-Held, Held-IsSound, sync_done-IsSound, process_door_position-IsSound,
  obstruction_event-IsSound, motor_event-IsSound,
)

pub event_handler-IsSound :
    (v : Event) (st : Status) (a : Answers) (s : Control)
    → IsSound s
    → IsSound (event_handler v st a s)
unfolding event_handler
event_handler-IsSound v st a s h =
    dispatch-IsSound v st a _ (Held-IsSound (identify_protocol-Held st v s) h)

pub control_open-IsSound : (e : Esp) (s : Control) → IsSound s → IsSound (control_open e s).0
unfolding control_open
control_open-IsSound e s h = ground (arith, h)

pub control_close-IsSound :
    (st : Option Status) (a b : Bool) (s : Control) → IsSound s → IsSound (control_close st a b s).0
unfolding control_close
control_close-IsSound st a b s h = ground (arith, h)

set_if_changed-IsSound :
    (d : DoorState) (now : ℕ) (s : Control) → IsSound s → IsSound (set_if_changed d now s)
unfolding set_if_changed
set_if_changed-IsSound d now s h = grind (arith, set_last_door_state-IsSound)

settle-IsSound :
    (d : DoorState) (st : Status) (now : ℕ) (l : Option Status) (s : Control)
    → IsSound s
    → IsSound (settle d st now l s)
unfolding settle
settle-IsSound d st now l s h =
    grind (arith, correct_target-Held, request_recovery-Held, Held-IsSound, set_if_changed-IsSound)

pub stuck_check-IsSound :
    (st : Option Status) (now later : ℕ) (l : Option Status) (s : Control)
    → IsSound s
    → IsSound (stuck_check st now later l s)
unfolding stuck_check
stuck_check-IsSound st now later l s h = grind (arith, settle-IsSound)

pub set_pre_close_buzzer-IsSound :
    (b : Bool) (w : Write) (s : Control) → IsSound s → IsSound (set_pre_close_buzzer b w s).0
unfolding set_pre_close_buzzer
set_pre_close_buzzer-IsSound b w s h = ground (arith, h)

pub set_auto_close_timeout_ms-IsSound :
    (n : ℕ) (w : Write) (s : Control) → IsSound s → IsSound (set_auto_close_timeout_ms n w s).0
unfolding set_auto_close_timeout_ms
set_auto_close_timeout_ms-IsSound n w s h = ground (arith, h)

pub set_auto_close_enabled-IsSound :
    (b : Bool) (w : Write) (s : Control) → IsSound s → IsSound (set_auto_close_enabled b w s).0
unfolding set_auto_close_enabled
set_auto_close_enabled-IsSound b w s h = ground (arith, h)

publish_schedule-IsSound :
    (c : CloseSchedule) (d : ℤ) (a : ScheduleAnswers) (s : Control)
    → IsValid c
    → IsSound s
    → IsSound (publish_schedule c d a s).0
unfolding publish_schedule
publish_schedule-IsSound c d a s v h = grind (arith, apply_timezone-Held, Held-IsSound)

pub set_close_schedule-IsSound :
    (c : CloseSchedule) (a : ScheduleAnswers) (s : Control)
    → IsSound s
    → IsSound (set_close_schedule c a s).0
unfolding set_close_schedule
set_close_schedule-IsSound c a s h =
    grind (arith, apply_timezone-Held, Held-IsSound, publish_schedule-IsSound)
