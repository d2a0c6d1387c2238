-- ===== src/Control/Watchdog.antt =====
-- main/gdo-blaq-homekit.cpp: one round of gdo_watchdog_task, in the parts that its comments number,
-- and resend_last_states_to_homekit. Log lines are left out.
use gdo_blaq_homekit.Prelude.{
  ℕ, ◌+◌, ◌-◌, Bool, true, false, not, ◌&&◌, ◌||◌, if◌then◌else◌, ◌==◌, ltb, leb, Option, none,
  some,
}
use gdo_blaq_homekit.Prelude.Int.{ℤ, pos, eq_ℤ}
use gdo_blaq_homekit.Retry
use gdo_blaq_homekit.Retry.{Action, wait, send, revert, RetryBudget}
use gdo_blaq_homekit.Opener.{
  Esp, is_ok, Status, DoorState, opened, closed, stopped, opening, unset, same_door, is_opened,
  is_closed, is_unset, LightState, light_unset, LockState, lock_unset, ObstructionState,
  obstruction_unset, MotionState, motion_unset, is_clear, raw_position, target_open, target_closed,
  u32,
}
use gdo_blaq_homekit.Control.{
  Control, sync, notify_current, notify_target, notify_light, notify_lock, notify_obstruction,
  notify_motion, run_warning, reset_rx_errors, activity, emit,
}
use gdo_blaq_homekit.Control.Command.{retry_door_request}
use gdo_blaq_homekit.Control.Door.{set_last_door_state, end_of}
use gdo_blaq_homekit.Control.Warning.{
  SchedAnswers, sched_close_check, auto_due, auto_may_start, auto_start,
}

abbrev pub stall_check_ms : ℕ
stall_check_ms = 8000

abbrev pub stall_movement_min : ℕ
stall_movement_min = 200

abbrev pub transit_margin_ms : ℕ
transit_margin_ms = 10000

abbrev pub transit_fallback_ms : ℕ
transit_fallback_ms = 35000

abbrev pub engage_timeout_ms : ℕ
engage_timeout_ms = 8000

-- The travel time that gdolib has learned for the direction of the movement, 0 before that.
abbrev pub measured_ms : DoorState → Status → ℕ
measured_ms opening status = status.open_ms
measured_ms _ status = status.close_ms

-- `moved`, the absolute difference.
abbrev pub moved : ℕ → ℕ → ℕ
moved a b = (a - b) + (b - a)

-- The door has plainly not moved since the motor turned on.
abbrev pub is_stalled : ℕ → ℕ → ℕ → Bool
is_stalled measured elapsed distance =
    not (measured == 0) && leb stall_check_ms elapsed && ltb distance stall_movement_min

-- `timeout_ms`. `measured_ms` is a `uint16_t`, so the sum does not wrap.
abbrev pub transit_timeout : ℕ → Bool → ℕ
transit_timeout measured stalled =
    if stalled
    then stall_check_ms
    else if measured == 0
    then transit_fallback_ms
    else measured + transit_margin_ms

-- `elapsed`.
abbrev pub elapsed_ms : ℕ → ℕ → ℕ
elapsed_ms now start = if ltb start now then u32 (now - start) else 0

-- The movement has taken too long.
unfoldable pub timed_out : Status → ℕ → Control → Bool
timed_out status now s =
    let elapsed = elapsed_ms now s.transition_start_ms in
    let measured = measured_ms s.transition_target status in
    let distance = moved (raw_position status.door_position) s.transition_start_raw in
    ltb (transit_timeout measured (is_stalled measured elapsed distance)) elapsed

-- `resolved`; `unset` where neither the report nor the position tells an end.
unfoldable pub resolve : DoorState → ℕ → DoorState
resolve opened raw = opened
resolve closed raw = closed
resolve stopped raw = stopped
resolve _ raw = end_of raw unset

-- `requested_target`.
abbrev pub requested : ℤ → DoorState
requested target =
    if eq_ℤ target (pos 0) then opened else if eq_ℤ target (pos 10000) then closed else unset

-- The target is put right where the door did not reach the requested end.
unfoldable pub correct_target : DoorState → DoorState → Control → Control
correct_target wanted found s =
    if not (is_unset wanted) && not (same_door wanted found)
    then (if is_opened found
        then emit (notify_target target_open) s
        else if is_closed found
        then emit (notify_target target_closed) s
        else s)
    else s

-- `request_gdo_status_recovery`, with the status that it reads itself.
unfoldable pub request_recovery : Option Status → Control → Control
request_recovery none s = s
request_recovery (some status) s = if status.synced then s else emit sync s

unfoldable pub set_if_changed : DoorState → ℕ → Control → Control
set_if_changed new now s = if same_door new s.last_door then s else set_last_door_state new now s

-- What becomes of a movement that timed out.
unfoldable pub settle : DoorState → Status → ℕ → Option Status → Control → Control
settle unset status now again s = request_recovery again (set_if_changed stopped now s)
settle found status now again s =
    correct_target (requested status.door_target) found (set_if_changed found now s)

-- Part 1: a movement that has taken too long. `now` is the time of the tick, `later` the one of
-- set_last_door_state, `again` the status that the recovery reads.
unfoldable pub stuck_check : Option Status → ℕ → ℕ → Option Status → Control → Control
stuck_check none now later again s = s
stuck_check (some status) now later again s =
    if s.door_in_transition && timed_out status now s
    then settle (resolve status.door (raw_position status.door_position)) status later again
        (record (emit reset_rx_errors s) { door_in_transition = false })
    else s

-- A request whose movement has not begun.
unfoldable pub is_pending : Status → Control → Bool
is_pending status s =
    status.synced
    && not s.door_in_transition
    && ((eq_ℤ status.door_target (pos 0) && is_closed status.door)
        || (eq_ℤ status.door_target (pos 10000) && is_opened status.door))

-- `retry_budget_step` as part 2 calls it.
unfoldable pub retry_action : Status → ℕ → RetryBudget → Control → RetryBudget × Action
unfolding is_pending Retry.step
retry_action status now b s =
    Retry.step b s.door_command_id (is_pending status s) (not status.toggle_only) now
      engage_timeout_ms

-- Part 2, RETRY_SEND, before the warning: the generation that the warning must not outlive.
abbrev pub retry_begin : Status → Control → Control × ℕ
retry_begin status s =
    (if eq_ℤ status.door_target (pos 10000) then emit run_warning s else s, s.close_generation)

-- The status after the warning still asks for the same movement.
abbrev pub still_wanted : Status → Option Status → Bool
still_wanted status none = false
still_wanted status (some fresh) =
    same_door fresh.door status.door
    && eq_ℤ fresh.door_target status.door_target
    && (not (eq_ℤ fresh.door_target (pos 10000)) || is_clear fresh.obstruction)

-- Part 2, RETRY_SEND, after the warning. `again` and `answer` are for retry_door_request().
unfoldable pub retry_finish : Status → ℕ → Option Status → Option Status → Esp → Control → Control
retry_finish status generation fresh again answer s =
    if generation == s.close_generation && still_wanted status fresh
    then (let (t, err) = retry_door_request s.door_command_id again answer s in
        emit
          (activity "watchdog" (if is_ok err then "Door command resent" else "Door retry failed"))
          t)
    else emit (activity "watchdog" "Door retry cancelled after state change") s

-- Part 2, RETRY_REVERT.
unfoldable pub retry_revert : Status → ℕ → Control → Control
retry_revert status now s =
    let t =
      emit (notify_target (if is_opened status.door then target_open else target_closed))
        (emit (activity "watchdog" "Door request exhausted or unsafe to retry") s) in
    if is_opened status.door && t.auto_close_triggered
    then record t { auto_close_triggered = false; door_open_since_ms = now }
    else t

-- Part 3: the auto-close. `true` where the `continue` ends the round. `now` is the time of the
-- tick, `later` is read under the lock, `failed` after a warning that did not start.
unfoldable pub auto_check : ℕ → Option Status → ℕ → Esp → ℕ → Control → Control × Bool
auto_check now status later started failed s =
    if auto_due now s && is_clear s.last_obstruction
    then (if auto_may_start status later s then (auto_start started failed s, false) else (s, true))
    else (s, false)

unfoldable pub resend_door : DoorState → Control → Control
resend_door unset s = s
resend_door door s = emit (notify_current door) s

unfoldable pub resend_light : LightState → Control → Control
resend_light light_unset s = s
resend_light light s = emit (notify_light light) s

unfoldable pub resend_lock : LockState → Control → Control
resend_lock lock_unset s = s
resend_lock lock s = emit (notify_lock lock) s

unfoldable pub resend_obstruction : ObstructionState → Control → Control
resend_obstruction obstruction_unset s = s
resend_obstruction obstruction s = emit (notify_obstruction obstruction) s

unfoldable pub resend_motion : MotionState → Control → Control
resend_motion motion_unset s = s
resend_motion motion s = emit (notify_motion motion) s

-- `resend_last_states_to_homekit`.
unfoldable pub resend : Control → Control
resend s = resend_motion s.last_motion (
    resend_obstruction s.last_obstruction
      (resend_lock s.last_lock (resend_light s.last_light (resend_door s.last_door s))))

-- Parts 4 and 5, unless the round has ended.
unfoldable pub finish_round : SchedAnswers → Control × Bool → Control
finish_round a (s, true) = s
finish_round a (s, false) = resend (sched_close_check a s)
