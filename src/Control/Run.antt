-- ===== src/Control/Run.antt =====
-- The entry points of main/gdo-blaq-homekit.cpp as operations on the control state, in any order.
-- ControlGuard makes the parts of one operation that decide together indivisible.
use gdo_blaq_homekit.Prelude.{ℕ, Bool, List, [], ◌∷◌, Option}
use gdo_blaq_homekit.Schedule.{CloseSchedule}
use gdo_blaq_homekit.Opener.{Esp, Status}
use gdo_blaq_homekit.Control.{Control}
use gdo_blaq_homekit.Control.Command.{control_open, control_close, user_close_finish}
use gdo_blaq_homekit.Control.Event.{Event, Answers, event_handler}
use gdo_blaq_homekit.Control.Warning.{
  SchedAnswers, auto_warning_done, sched_warning_done, sched_close_check,
}
use gdo_blaq_homekit.Control.Watchdog.{
  stuck_check, retry_begin, retry_finish, retry_revert, auto_check, resend,
}
use gdo_blaq_homekit.Control.Settings.{
  Write, ScheduleAnswers, set_pre_close_buzzer, set_auto_close_timeout_ms, set_auto_close_enabled,
  set_close_schedule,
}

-- One operation, with what its calls answer.
pub data Op : Type 0 where
  user_open : Esp → Op
  user_close : Option Status → Bool → Bool → Op
  user_warning_over : ℕ → Option Status → Esp → Option Status → Op
  opener_event : Event → Status → Answers → Op
  auto_warning_over : Option Status → Esp → ℕ → Op
  sched_warning_over : Option Status → Esp → Op
  check_stuck : Option Status → ℕ → ℕ → Option Status → Op
  begin_retry : Status → Op
  end_retry : Status → ℕ → Option Status → Option Status → Esp → Op
  revert_request : Status → ℕ → Op
  check_auto : ℕ → Option Status → ℕ → Esp → ℕ → Op
  check_schedule : SchedAnswers → Op
  resend_states : Op
  set_buzzer_setting : Bool → Write → Op
  set_timeout_setting : ℕ → Write → Op
  set_enabled_setting : Bool → Write → Op
  set_schedule_setting : CloseSchedule → ScheduleAnswers → Op

unfoldable pub apply : Op → Control → Control
apply (user_open e) s = (control_open e s).0
apply (user_close st a t) s = (control_close st a t s).0
apply (user_warning_over g st e l) s = user_close_finish g st e l s
apply (opener_event v st a) s = event_handler v st a s
apply (auto_warning_over st e n) s = auto_warning_done st e n s
apply (sched_warning_over st e) s = sched_warning_done st e s
apply (check_stuck st n l a) s = stuck_check st n l a s
apply (begin_retry st) s = (retry_begin st s).0
apply (end_retry st g f a e) s = retry_finish st g f a e s
apply (revert_request st n) s = retry_revert st n s
apply (check_auto n st l e f) s = (auto_check n st l e f s).0
apply (check_schedule a) s = sched_close_check a s
apply resend_states s = resend s
apply (set_buzzer_setting b w) s = (set_pre_close_buzzer b w s).0
apply (set_timeout_setting n w) s = (set_auto_close_timeout_ms n w s).0
apply (set_enabled_setting b w) s = (set_auto_close_enabled b w s).0
apply (set_schedule_setting c a) s = (set_close_schedule c a s).0

unfoldable pub run : List Op → Control → Control
run [] s = s
run (op ∷ ops) s = run ops (apply op s)
