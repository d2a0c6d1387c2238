-- ===== src/Control/Command.antt =====
-- main/gdo-blaq-homekit.cpp: door commands. A command is numbered, a close of the user waits for its
-- warning, and a newer command or a change of state cancels it.
use gdo_blaq_homekit.Prelude.{
  ℕ, ◌+◌, Bool, true, false, not, ◌&&◌, ◌||◌, if◌then◌else◌, ◌==◌, Option, none, some,
}
use gdo_blaq_homekit.Prelude.Int.{pos, eq_ℤ}
use gdo_blaq_homekit.Opener.{
  Esp, esp_ok, no_mem, invalid_state, not_supported, is_ok, Status, is_opened, is_closed, is_clear,
  target_open, target_closed, u32,
}
use gdo_blaq_homekit.Control.{
  Control, door_open, door_close, notify_target, start_user_close, activity, emit, bump,
}

-- `send_door_request`; `answer` is what gdo_door_open() or gdo_door_close() returns.
unfoldable pub send_door_request : Bool → Esp → Control → Control × Esp
send_door_request to_open answer s = (
  emit (if to_open then door_open else door_close)
      (record s { door_command_id = u32 (s.door_command_id + 1) }),
  answer,
)

-- `retry_door_request`; `status` is what gdo_get_status() reads, `none` for an error of it.
unfoldable pub retry_door_request : ℕ → Option Status → Esp → Control → Control × Esp
retry_door_request command_id none answer s = (s, invalid_state)
retry_door_request command_id (some status) answer s =
    if command_id == 0 || not (command_id == s.door_command_id) || not status.synced
    then (s, invalid_state)
    else if status.toggle_only
    then (s, not_supported)
    else if eq_ℤ status.door_target (pos 0)
    then (emit door_open s, answer)
    else if eq_ℤ status.door_target (pos 10000)
    then (emit door_close s, answer)
    else (s, invalid_state)

-- `gdo_control_open`.
unfoldable pub control_open : Esp → Control → Control × Esp
unfolding send_door_request
control_open answer s =
    let (t, err) = send_door_request true answer (bump s) in
    (emit (activity "HomeKit" (if is_ok err then "Open sent" else "Open failed")) t, err)

-- Put the target of HomeKit back to where the door is, if it is at an end.
unfoldable pub revert_target : Option Status → Control → Control
revert_target none s = s
revert_target (some status) s =
    if is_opened status.door
    then emit (notify_target target_open) s
    else if is_closed status.door
    then emit (notify_target target_closed) s
    else s

-- `err == ESP_OK && status.synced && status.obstruction == GDO_OBSTRUCTION_STATE_CLEAR`.
abbrev pub may_close : Option Status → Bool
may_close none = false
may_close (some status) = status.synced && is_clear status.obstruction

-- A close that was not sent.
unfoldable pub close_failed : Option Status → Control → Control
close_failed later s =
    revert_target later (emit (activity "HomeKit" "Close cancelled or failed after warning") s)

-- The close of a warning that nothing cancelled: `status` is read first, `later` after a failure.
unfoldable pub close_now : Option Status → Esp → Option Status → Control → Control
close_now status answer later s =
    if may_close status
    then (let (t, err) = send_door_request false answer s in
        if is_ok err
        then emit (activity "HomeKit" "Close sent") t
        else close_failed later (emit (activity "HomeKit" "Close failed") t))
    else close_failed later s

-- A task releases the pending slot only if the slot is still its own.
unfoldable pub release_slot : ℕ → Control → Control
release_slot generation s =
    if s.user_close_pending_generation == generation
    then record s { user_close_pending = false }
    else s

-- The rest of `user_close_task` under the lock.
unfoldable pub close_or_cancel : ℕ → Option Status → Esp → Option Status → Control → Control
close_or_cancel generation status answer later s =
    if generation == s.close_generation
    then close_now status answer later s
    else if not s.user_close_pending
    then revert_target status (emit (activity "HomeKit" "Close warning cancelled") s)
    else s

-- `user_close_task` once its warning is over.
unfoldable pub user_close_finish : ℕ → Option Status → Esp → Option Status → Control → Control
user_close_finish generation status answer later s =
    close_or_cancel generation status answer later (release_slot generation s)

-- `gdo_get_status(&status) == ESP_OK && status.synced && !s_door_in_transition && CLOSED`.
abbrev pub already_closed : Option Status → Control → Bool
already_closed none s = false
already_closed (some status) s = status.synced && not s.door_in_transition && is_closed status.door

-- `gdo_control_close`; `allocated` and `started` tell whether pvPortMalloc() and xTaskCreate()
-- succeed.
unfoldable pub control_close : Option Status → Bool → Bool → Control → Control × Esp
control_close status allocated started s =
    if s.user_close_pending && s.user_close_pending_generation == s.close_generation
    then (emit (activity "HomeKit" "Close rejected: warning pending") s, invalid_state)
    else if already_closed status s
    then (s, esp_ok)
    else if not allocated
    then (s, no_mem)
    else (let t = bump s in
        let u = record t {
          user_close_pending = true;
          user_close_pending_generation = t.close_generation;
        } in
        if started
        then (
          emit (activity "HomeKit" "Close warning started")
              (emit (start_user_close t.close_generation) u),
          esp_ok,
        )
        else (
          emit (activity "HomeKit" "Close warning failed to start")
              (record u { user_close_pending = false }),
          no_mem,
        ))
