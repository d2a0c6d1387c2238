-- ===== src/Control/Generation/Rounds.antt =====
-- The watchdog and the settings.
use gdo_blaq_homekit.Prelude.{ℕ, Bool, List, Option, arith}
use gdo_blaq_homekit.Prelude.Int.{ℤ}
use gdo_blaq_homekit.Opener.{
  Esp, Status, DoorState, LightState, LockState, ObstructionState, MotionState,
}
use gdo_blaq_homekit.Schedule.{CloseSchedule}
use gdo_blaq_homekit.Control.{Control}
use gdo_blaq_homekit.Control.Command.{retry_door_request}
use gdo_blaq_homekit.Control.Watchdog.{
  correct_target, request_recovery, set_if_changed, settle, stuck_check, retry_begin, retry_finish,
  retry_revert, auto_check, resend_door, resend_light, resend_lock, resend_obstruction,
  resend_motion, resend,
}
use gdo_blaq_homekit.Control.Settings.{
  Write, ScheduleAnswers, set_pre_close_buzzer, set_auto_close_timeout_ms, set_auto_close_enabled,
  apply_timezone, publish_schedule, set_close_schedule,
}
use gdo_blaq_homekit.Control.Generation.{Held, Guarded}
use gdo_blaq_homekit.Control.Generation.Doors.{set_last_door_state-Guarded}
use gdo_blaq_homekit.Control.Generation.Warnings.{auto_start-Held}

pub correct_target-Held : (d d' : DoorState) (s : Control) → Held s (correct_target d d' s)
unfolding correct_target
correct_target-Held d d' s = ground arith

pub request_recovery-Held : (st : Option Status) (s : Control) → Held s (request_recovery st s)
unfolding request_recovery
request_recovery-Held st s = ground arith

set_if_changed-Guarded :
    (d : DoorState) (now : ℕ) (s : Control) → Guarded s (set_if_changed d now s)
unfolding set_if_changed
set_if_changed-Guarded d now s = grind (arith, set_last_door_state-Guarded)

settle-Guarded :
    (d : DoorState) (st : Status) (now : ℕ) (l : Option Status) (s : Control)
    → Guarded s (settle d st now l s)
unfolding settle
settle-Guarded d st now l s =
    grind (arith, correct_target-Held, request_recovery-Held, set_if_changed-Guarded)

pub stuck_check-Guarded :
    (st : Option Status) (now later : ℕ) (l : Option Status) (s : Control)
    → Guarded s (stuck_check st now later l s)
unfolding stuck_check
stuck_check-Guarded st now later l s = grind (arith, settle-Guarded)

pub retry_begin-Held : (st : Status) (s : Control) → Held s (retry_begin st s).0
retry_begin-Held st s = ground arith

retry_door_request-Held :
    (g : ℕ) (st : Option Status) (e : Esp) (s : Control) → Held s (retry_door_request g st e s).0
unfolding retry_door_request
retry_door_request-Held g st e s = ground arith

pub retry_finish-Held :
    (st : Status) (g : ℕ) (f l : Option Status) (e : Esp) (s : Control)
    → Held s (retry_finish st g f l e s)
unfolding retry_finish
retry_finish-Held st g f l e s = grind (arith, retry_door_request-Held)

pub retry_revert-Held : (st : Status) (now : ℕ) (s : Control) → Held s (retry_revert st now s)
unfolding retry_revert
retry_revert-Held st now s = ground arith

pub auto_check-Held :
    (now : ℕ) (st : Option Status) (l : ℕ) (e : Esp) (f : ℕ) (s : Control)
    → Held s (auto_check now st l e f s).0
unfolding auto_check
auto_check-Held now st l e f s = grind (arith, auto_start-Held)

resend_door-Held : (d : DoorState) (s : Control) → Held s (resend_door d s)
unfolding resend_door
resend_door-Held d s = ground arith

resend_light-Held : (x : LightState) (s : Control) → Held s (resend_light x s)
unfolding resend_light
resend_light-Held x s = ground arith

resend_lock-Held : (x : LockState) (s : Control) → Held s (resend_lock x s)
unfolding resend_lock
resend_lock-Held x s = ground arith

resend_obstruction-Held : (x : ObstructionState) (s : Control) → Held s (resend_obstruction x s)
unfolding resend_obstruction
resend_obstruction-Held x s = ground arith

resend_motion-Held : (x : MotionState) (s : Control) → Held s (resend_motion x s)
unfolding resend_motion
resend_motion-Held x s = ground arith

pub resend-Held : (s : Control) → Held s (resend s)
unfolding resend
resend-Held s = grind (
  arith, resend_door-Held, resend_light-Held, resend_lock-Held, resend_obstruction-Held,
  resend_motion-Held,
)

pub set_pre_close_buzzer-Guarded :
    (b : Bool) (w : Write) (s : Control) → Guarded s (set_pre_close_buzzer b w s).0
unfolding set_pre_close_buzzer
set_pre_close_buzzer-Guarded b w s = ground arith

pub set_auto_close_timeout_ms-Guarded :
    (n : ℕ) (w : Write) (s : Control) → Guarded s (set_auto_close_timeout_ms n w s).0
unfolding set_auto_close_timeout_ms
set_auto_close_timeout_ms-Guarded n w s = ground arith

pub set_auto_close_enabled-Guarded :
    (b : Bool) (w : Write) (s : Control) → Guarded s (set_auto_close_enabled b w s).0
unfolding set_auto_close_enabled
set_auto_close_enabled-Guarded b w s = ground arith

pub apply_timezone-Held : (z : List ℕ) (b : Bool) (s : Control) → Held s (apply_timezone z b s).0
unfolding apply_timezone
apply_timezone-Held z b s = ground arith

publish_schedule-Guarded :
    (c : CloseSchedule) (d : ℤ) (a : ScheduleAnswers) (s : Control)
    → Guarded s (publish_schedule c d a s).0
unfolding publish_schedule
publish_schedule-Guarded c d a s = grind (arith, apply_timezone-Held)

pub set_close_schedule-Guarded :
    (c : CloseSchedule) (a : ScheduleAnswers) (s : Control) → Guarded s (set_close_schedule c a s).0
unfolding set_close_schedule
set_close_schedule-Guarded c a s = grind (arith, apply_timezone-Held, publish_schedule-Guarded)
