-- ===== src/Control/Sound/Runs.antt =====
-- Any sequence of operations keeps the state sound.
use gdo_blaq_homekit.Prelude.{List, [], ◌∷◌, arith}
use gdo_blaq_homekit.Schedule.Tz.{tz_valid}
use gdo_blaq_homekit.Control.{Control, boot}
use gdo_blaq_homekit.Control.Run.{
  Op, user_open, user_close, user_warning_over, opener_event, auto_warning_over, sched_warning_over,
  check_stuck, begin_retry, end_retry, revert_request, check_auto, check_schedule, resend_states,
  set_buzzer_setting, set_timeout_setting, set_enabled_setting, set_schedule_setting, apply, run,
}
use gdo_blaq_homekit.Control.Generation.Commands.{user_close_finish-Held}
use gdo_blaq_homekit.Control.Generation.Warnings.{
  auto_warning_done-Held, sched_warning_done-Held, sched_close_check-Held,
}
use gdo_blaq_homekit.Control.Generation.Rounds.{
  retry_begin-Held, retry_finish-Held, retry_revert-Held, auto_check-Held, resend-Held,
}
use gdo_blaq_homekit.Control.Sound.{IsSound, Held-IsSound}
use gdo_blaq_homekit.Control.Sound.Steps.{
  event_handler-IsSound, control_open-IsSound, control_close-IsSound, stuck_check-IsSound,
  set_pre_close_buzzer-IsSound, set_auto_close_timeout_ms-IsSound, set_auto_close_enabled-IsSound,
  set_close_schedule-IsSound,
}

apply-IsSound : (op : Op) (s : Control) → IsSound s → IsSound (apply op s)
unfolding apply
apply-IsSound (user_open e) s = control_open-IsSound e s
apply-IsSound (user_close st a t) s = control_close-IsSound st a t s
apply-IsSound (user_warning_over g st e l) s = Held-IsSound (user_close_finish-Held g st e l s)
apply-IsSound (opener_event v st a) s = event_handler-IsSound v st a s
apply-IsSound (auto_warning_over st e n) s = Held-IsSound (auto_warning_done-Held st e n s)
apply-IsSound (sched_warning_over st e) s = Held-IsSound (sched_warning_done-Held st e s)
apply-IsSound (check_stuck st n l a) s = stuck_check-IsSound st n l a s
apply-IsSound (begin_retry st) s = Held-IsSound (retry_begin-Held st s)
apply-IsSound (end_retry st g f a e) s = Held-IsSound (retry_finish-Held st g f a e s)
apply-IsSound (revert_request st n) s = Held-IsSound (retry_revert-Held st n s)
apply-IsSound (check_auto n st l e f) s = Held-IsSound (auto_check-Held n st l e f s)
apply-IsSound (check_schedule a) s = Held-IsSound (sched_close_check-Held a s)
apply-IsSound resend_states s = Held-IsSound (resend-Held s)
apply-IsSound (set_buzzer_setting b w) s = set_pre_close_buzzer-IsSound b w s
apply-IsSound (set_timeout_setting n w) s = set_auto_close_timeout_ms-IsSound n w s
apply-IsSound (set_enabled_setting b w) s = set_auto_close_enabled-IsSound b w s
apply-IsSound (set_schedule_setting c a) s = set_close_schedule-IsSound c a s

-- From a sound state, any operations in any order lead to a state in which the clock of the open door is 0 unless the door is open, the
-- auto-close timeout is between a minute and a day, and the schedule has a time below 24:00 and a
-- timezone of the grammar.
pub run-IsSound : (ops : List Op) (s : Control) → IsSound s → IsSound (run ops s)
unfolding run
run-IsSound [] s h = h
run-IsSound (op ∷ ops) s h = run-IsSound ops (apply op s) (apply-IsSound op s h)

pub boot-IsSound : IsSound boot
unfolding tz_valid
boot-IsSound = ground arith
