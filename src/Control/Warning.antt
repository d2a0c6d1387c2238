-- ===== src/Control/Warning.antt =====
-- main/gdo-blaq-homekit.cpp: the closes that the firmware itself starts, each behind a warning of
-- five seconds (auto_close_warning_complete_cb, sched_close_warning_complete_cb,
-- sched_close_check and the auto-close part of gdo_watchdog_task).
use gdo_blaq_homekit.Prelude.{
  ℕ, ◌+◌, Bool, true, false, not, ◌&&◌, ◌||◌, if◌then◌else◌, ◌==◌, ltb, Option, none, some,
}
use gdo_blaq_homekit.Prelude.Int.{ℤ, pos, negsuc, sub_ℕ, eq_ℤ, ltb_ℤ}
use gdo_blaq_homekit.Schedule.{should_fire, window_day, window_min, since}
use gdo_blaq_homekit.Opener.{Esp, is_ok, Status, is_opened, is_clear, target_closed}
use gdo_blaq_homekit.Control.{
  Control, persisted, save_schedule, notify_target, start_auto_warning, start_sched_warning,
  activity, emit,
}
use gdo_blaq_homekit.Control.Command.{send_door_request}

-- The opener reports an open door, in sync, with nothing in its way.
abbrev pub is_open_and_clear : Option Status → Bool
is_open_and_clear none = false
is_open_and_clear (some status) =
    status.synced && is_opened status.door && is_clear status.obstruction

-- `valid` of `auto_close_warning_complete_cb`.
abbrev pub auto_valid : Option Status → Control → Bool
auto_valid status s =
    is_open_and_clear status
    && is_clear s.last_obstruction
    && s.auto_close_enabled
    && s.auto_close_generation == s.close_generation
    && s.auto_close_command_id == s.door_command_id

-- `auto_close_warning_complete_cb`.
unfoldable pub auto_warning_done : Option Status → Esp → ℕ → Control → Control
unfolding send_door_request
auto_warning_done status answer now s =
    if not (auto_valid status s)
    then (let t = record (emit (activity "auto-close" "Close warning cancelled") s) {
      auto_close_triggered = false;
    } in
        if is_opened s.last_door then record t { door_open_since_ms = now } else t)
    else (let (t, err) = send_door_request false answer s in
        if is_ok err
        then emit (notify_target target_closed)
            (emit (activity "auto-close" "Close sent after warning") t)
        else record (emit (activity "auto-close" "Close command failed") t) {
          auto_close_triggered = false;
          door_open_since_ms = now;
        })

-- `valid` of `sched_close_warning_complete_cb`.
abbrev pub sched_valid : Option Status → Control → Bool
sched_valid status s =
    is_open_and_clear status
    && is_clear s.last_obstruction
    && s.close_schedule.enabled
    && s.sched_close_generation == s.close_generation
    && s.sched_close_command_id == s.door_command_id

-- `sched_close_warning_complete_cb`.
unfoldable pub sched_warning_done : Option Status → Esp → Control → Control
unfolding send_door_request
sched_warning_done status answer s =
    let t = record s { sched_close_pending = false } in
    if not (sched_valid status s)
    then emit (activity "schedule" "Close warning cancelled") t
    else (let (u, err) = send_door_request false answer t in
        if is_ok err
        then emit (notify_target target_closed)
            (emit (activity "schedule" "Close sent after warning") u)
        else emit (activity "schedule" "Close command failed") u)

-- `gdo_get_auto_close_remaining_ms`.
unfoldable pub auto_close_remaining_ms : ℕ → Control → ℤ
auto_close_remaining_ms now s =
    if not s.auto_close_enabled || s.door_open_since_ms == 0 || s.auto_close_triggered
    then negsuc 0
    else (let remaining = sub_ℕ (s.auto_close_timeout_ms + s.door_open_since_ms) now in
        if ltb_ℤ (pos 0) remaining then remaining else pos 0)

-- The tests under the lock of part 3 of `gdo_watchdog_task`; where one fails the tick ends.
abbrev pub auto_may_start : Option Status → ℕ → Control → Bool
auto_may_start status now s =
    is_open_and_clear status
    && s.auto_close_enabled
    && not s.auto_close_triggered
    && not s.sched_close_pending
    && eq_ℤ (auto_close_remaining_ms now s) (pos 0)

-- The test that comes before the lock: the open time has passed the timeout.
abbrev pub auto_due : ℕ → Control → Bool
auto_due now s =
    s.auto_close_enabled
    && not (s.door_open_since_ms == 0)
    && not s.auto_close_triggered
    && not s.sched_close_pending
    && ltb (s.door_open_since_ms + s.auto_close_timeout_ms) now

-- The warning of the auto-close, started at `now`; `started` is the result of
-- pre_close_warning_run_async().
unfoldable pub auto_start : Esp → ℕ → Control → Control
auto_start started now s =
    let t = emit start_auto_warning (
      emit (activity "auto-close" "Close warning started") (record s {
        auto_close_generation = s.close_generation;
        auto_close_command_id = s.door_command_id;
        auto_close_triggered = true;
      })) in
    if is_ok started
    then t
    else emit (activity "auto-close" "Close warning failed to start")
        (record t { auto_close_triggered = false; door_open_since_ms = now })

-- What the calls of one check of the schedule answer: the local minute and day, if the clock is
-- synced, a status, the time, whether the day of firing is saved, whether the warning starts, and
-- whether the undo is saved.
pub record SchedAnswers : Type 0 where
  pub local_now : Option (ℕ × ℤ)
  pub status : Option Status
  pub now : ℕ
  pub saved : Esp
  pub started : Esp
  pub undone : Esp

-- `open_for_ms`.
abbrev pub open_for_ms : Status → ℕ → Control → ℤ
open_for_ms current now s =
    if is_opened current.door
      && is_opened s.last_door
      && not (s.door_continuously_open_since_ms == 0)
    then sub_ℕ now s.door_continuously_open_since_ms
    else pos 0

-- The activity line of a check that does not fire inside the window.
unfoldable pub sched_skip : ℕ → ℤ → Control → Control
sched_skip now_min today s =
    if ltb (since now_min s.close_schedule.minute) window_min
    then emit
        (activity "schedule" (
          if eq_ℤ s.close_schedule_last_day (window_day now_min today s.close_schedule.minute)
          then "Skipped: already fired this window"
          else "Skipped: door not open before window"))
        s
    else s

-- The window's day is reserved, and the warning is armed for the present generation.
unfoldable pub sched_arm : ℤ → Control → Control
sched_arm day s =
    emit start_sched_warning (record (emit (activity "schedule" "Close warning started") s) {
      close_schedule_last_day = day;
      sched_close_generation = s.close_generation;
      sched_close_command_id = s.door_command_id;
      sched_close_pending = true;
    })

-- The warning did not start: the day is put back if that can be saved.
unfoldable pub sched_unwind : Esp → ℤ → Control → Control
sched_unwind undone previous_day s =
    let t =
      emit (activity "schedule" "Close warning failed to start")
        (record s { sched_close_pending = false }) in
    if is_ok undone
    then emit (save_schedule (persisted s.close_schedule previous_day))
        (record t { close_schedule_last_day = previous_day })
    else t

-- The part that fires. The results of close_schedule_last_day_save() are `saved` and `undone`.
unfoldable pub sched_fire : SchedAnswers → ℤ → Control → Control
sched_fire a day s =
    if not (is_ok a.saved)
    then emit (activity "schedule" "Skipped: failed to persist firing day") s
    else let t = emit (save_schedule (persisted s.close_schedule day)) s in
      if is_ok a.started
      then sched_arm day t
      else sched_unwind a.undone s.close_schedule_last_day (sched_arm day t)

-- The part of the check that has a status in sync.
unfoldable pub sched_decide : SchedAnswers → Status → ℕ → ℤ → Control → Control
sched_decide a current now_min today s =
    if not (
      should_fire true (open_for_ms current a.now s) now_min today s.close_schedule.minute
        s.close_schedule_last_day)
    then sched_skip now_min today s
    else if not (is_clear current.obstruction && is_clear s.last_obstruction)
    then emit (activity "schedule" "Skipped: obstruction not clear") s
    else sched_fire a (window_day now_min today s.close_schedule.minute) s

unfoldable pub with_opener : SchedAnswers → Option Status → ℕ → ℤ → Control → Control
with_opener a none now_min today s = emit (activity "schedule" "Skipped: opener unavailable") s
with_opener a (some current) now_min today s =
    if current.synced
    then sched_decide a current now_min today s
    else emit (activity "schedule" "Skipped: opener unavailable") s

unfoldable pub with_clock : SchedAnswers → Option (ℕ × ℤ) → Control → Control
with_clock a none s = emit (activity "schedule" "Skipped: clock unsynced") s
with_clock a (some (now_min, today)) s =
    if s.sched_close_pending || s.auto_close_triggered || s.user_close_pending
    then emit (activity "schedule" "Skipped: close already pending") s
    else with_opener a a.status now_min today s

-- `sched_close_check`.
unfoldable pub sched_close_check : SchedAnswers → Control → Control
sched_close_check a s = if s.close_schedule.enabled then with_clock a a.local_now s else s
