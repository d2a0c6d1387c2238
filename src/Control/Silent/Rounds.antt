-- ===== src/Control/Silent/Rounds.antt =====
-- The watchdog and the settings.
use gdo_blaq_homekit.Prelude.{ℕ, Bool, List, Option, arith}
use gdo_blaq_homekit.Prelude.Int.{ℤ}
use gdo_blaq_homekit.Opener.{
  Esp, Status, DoorState, LightState, LockState, ObstructionState, MotionState,
}
use gdo_blaq_homekit.Schedule.{CloseSchedule}
use gdo_blaq_homekit.Control.{Control}
use gdo_blaq_homekit.Control.Watchdog.{
  correct_target, request_recovery, set_if_changed, settle, stuck_check, retry_begin, retry_revert,
  auto_check, resend_door, resend_light, resend_lock, resend_obstruction, resend_motion, resend,
}
use gdo_blaq_homekit.Control.Settings.{
  Write, ScheduleAnswers, set_pre_close_buzzer, set_auto_close_timeout_ms, set_auto_close_enabled,
  apply_timezone, publish_schedule, set_close_schedule,
}
use gdo_blaq_homekit.Control.Silent.{Silent}
use gdo_blaq_homekit.Control.Silent.Doors.{set_last_door_state-Silent}
use gdo_blaq_homekit.Control.Silent.Warnings.{auto_start-Silent}

correct_target-Silent : (d d' : DoorState) (s : Control) → Silent s (correct_target d d' s)
unfolding correct_target
correct_target-Silent d d' s = ground arith

request_recovery-Silent : (st : Option Status) (s : Control) → Silent s (request_recovery st s)
unfolding request_recovery
request_recovery-Silent st s = ground arith

set_if_changed-Silent : (d : DoorState) (now : ℕ) (s : Control) → Silent s (set_if_changed d now s)
unfolding set_if_changed
set_if_changed-Silent d now s = grind (arith, set_last_door_state-Silent)

settle-Silent :
    (d : DoorState) (st : Status) (now : ℕ) (l : Option Status) (s : Control)
    → Silent s (settle d st now l s)
unfolding settle
settle-Silent d st now l s =
    grind (arith, correct_target-Silent, request_recovery-Silent, set_if_changed-Silent)

pub stuck_check-Silent :
    (st : Option Status) (now later : ℕ) (l : Option Status) (s : Control)
    → Silent s (stuck_check st now later l s)
unfolding stuck_check
stuck_check-Silent st now later l s = grind (arith, settle-Silent)

pub retry_begin-Silent : (st : Status) (s : Control) → Silent s (retry_begin st s).0
retry_begin-Silent st s = ground arith

pub retry_revert-Silent : (st : Status) (now : ℕ) (s : Control) → Silent s (retry_revert st now s)
unfolding retry_revert
retry_revert-Silent st now s = ground arith

pub auto_check-Silent :
    (now : ℕ) (st : Option Status) (l : ℕ) (e : Esp) (f : ℕ) (s : Control)
    → Silent s (auto_check now st l e f s).0
unfolding auto_check
auto_check-Silent now st l e f s = grind (arith, auto_start-Silent)

resend_door-Silent : (d : DoorState) (s : Control) → Silent s (resend_door d s)
unfolding resend_door
resend_door-Silent d s = ground arith

resend_light-Silent : (x : LightState) (s : Control) → Silent s (resend_light x s)
unfolding resend_light
resend_light-Silent x s = ground arith

resend_lock-Silent : (x : LockState) (s : Control) → Silent s (resend_lock x s)
unfolding resend_lock
resend_lock-Silent x s = ground arith

resend_obstruction-Silent : (x : ObstructionState) (s : Control) → Silent s (resend_obstruction x s)
unfolding resend_obstruction
resend_obstruction-Silent x s = ground arith

resend_motion-Silent : (x : MotionState) (s : Control) → Silent s (resend_motion x s)
unfolding resend_motion
resend_motion-Silent x s = ground arith

pub resend-Silent : (s : Control) → Silent s (resend s)
unfolding resend
resend-Silent s = grind (
  arith, resend_door-Silent, resend_light-Silent, resend_lock-Silent, resend_obstruction-Silent,
  resend_motion-Silent,
)

pub set_pre_close_buzzer-Silent :
    (b : Bool) (w : Write) (s : Control) → Silent s (set_pre_close_buzzer b w s).0
unfolding set_pre_close_buzzer
set_pre_close_buzzer-Silent b w s = ground arith

pub set_auto_close_timeout_ms-Silent :
    (n : ℕ) (w : Write) (s : Control) → Silent s (set_auto_close_timeout_ms n w s).0
unfolding set_auto_close_timeout_ms
set_auto_close_timeout_ms-Silent n w s = ground arith

pub set_auto_close_enabled-Silent :
    (b : Bool) (w : Write) (s : Control) → Silent s (set_auto_close_enabled b w s).0
unfolding set_auto_close_enabled
set_auto_close_enabled-Silent b w s = ground arith

apply_timezone-Silent : (z : List ℕ) (b : Bool) (s : Control) → Silent s (apply_timezone z b s).0
unfolding apply_timezone
apply_timezone-Silent z b s = ground arith

publish_schedule-Silent :
    (c : CloseSchedule) (d : ℤ) (a : ScheduleAnswers) (s : Control)
    → Silent s (publish_schedule c d a s).0
unfolding publish_schedule
publish_schedule-Silent c d a s = grind (arith, apply_timezone-Silent)

pub set_close_schedule-Silent :
    (c : CloseSchedule) (a : ScheduleAnswers) (s : Control) → Silent s (set_close_schedule c a s).0
unfolding set_close_schedule
set_close_schedule-Silent c a s = grind (arith, apply_timezone-Silent, publish_schedule-Silent)
