-- ===== src/Control/Tests.antt =====
-- Tests and witnesses for the door control.
use gdo_blaq_homekit.Prelude.{
  suc, ◌+◌, ◌≤◌, ◌≡◌, ◌↔◌, refl, true, false, [], ◌∷◌, none, some, codes, arith,
}
use gdo_blaq_homekit.Prelude.Int.{pos}
use gdo_blaq_homekit.Opener.{
  esp_ok, u32, Status, opened, v2, light_off, unlocked, clear, obstructed, motion_clear,
  learn_inactive,
}
use gdo_blaq_homekit.Control.{Control, activity, start_user_close, boot}
use gdo_blaq_homekit.Control.Command.{
  control_close, user_close_finish, close_or_cancel, release_slot, revert_target,
}
use gdo_blaq_homekit.Control.Door.{
  record_change, track_open, set_last_door_state, push_target_v1, push_target_v2, end_transition,
  track_transition, show_movement, settle_target, update_homekit, process_door_position, inferred,
}
use gdo_blaq_homekit.Control.Event.{
  door_position, obstruction, Answers, event_handler, dispatch, identify_protocol,
  obstruction_event,
}
use gdo_blaq_homekit.Control.Warning.{auto_warning_done, sched_warning_done}
use gdo_blaq_homekit.Control.Run.{
  Op, user_open, user_close, opener_event, user_warning_over, apply, run,
}
use gdo_blaq_homekit.Control.Generation.{Held, Guarded}
use gdo_blaq_homekit.Control.Generation.Runs.{apply-Guarded, same_generation-Held}
use gdo_blaq_homekit.Control.Silent.{closes}
use gdo_blaq_homekit.Control.Silent.Close.{Clears, apply-Clears}
use gdo_blaq_homekit.Control.Cancel.{
  by_open, closes-user_close_finish, AutoWanted, auto_close_sent_iff, SchedWanted,
  sched_close_sent_iff, cancelled_close_never_sent, accepted_close_is_sent,
}

-- An open door, in sync, on Security+ 2.0.
abbrev open_status : Status
open_status = record {
  protocol = v2;
  synced = true;
  toggle_only = false;
  door = opened;
  light = light_off;
  lock = unlocked;
  obstruction = clear;
  motion = motion_clear;
  learn = learn_inactive;
  motor_on = false;
  button_pressed = false;
  client_id = 1;
  rolling_code = 100;
  door_position = pos 0;
  door_target = pos 0;
  open_ms = 15000;
  close_ms = 15000;
}

abbrev blocked : Status
blocked = record open_status { obstruction = obstructed }

abbrev times : Answers
times = record { now = 5000; later = 5001; rolling_code_set = esp_ok }

abbrev see_open : Op
see_open = opener_event door_position open_status times

-- The device has seen the open door.
abbrev home : Control
home = record boot {
  last_door = opened;
  last_obstruction = clear;
  door_open_since_ms = 5001;
  door_continuously_open_since_ms = 5001;
  close_generation = 1;
}

sees_open : (run (see_open ∷ []) boot).last_door ≡ opened
unfolding run apply event_handler dispatch identify_protocol process_door_position inferred
    push_target_v1 push_target_v2 track_transition end_transition update_homekit show_movement
    set_last_door_state record_change track_open settle_target
sees_open = refl

apply-Guarded_example : Guarded home (apply (user_open esp_ok) home)
apply-Guarded_example = apply-Guarded (user_open esp_ok) home

same_door_event : (run (see_open ∷ []) home).close_generation ≡ 1
unfolding run apply event_handler dispatch identify_protocol process_door_position inferred
    push_target_v1 push_target_v2 track_transition end_transition update_homekit show_movement
    set_last_door_state record_change track_open settle_target
same_door_event = refl

same_generation-Held_example : Held home (run (see_open ∷ []) home)
same_generation-Held_example =
    same_generation-Held (see_open ∷ []) home (omega arith) (omega arith) same_door_event

apply-Clears_example :
    Clears (some open_status) home (apply (user_warning_over 1 (some open_status) esp_ok none) home)
apply-Clears_example = apply-Clears (user_warning_over 1 (some open_status) esp_ok none) home tt

closes-user_close_finish_example :
    closes (user_close_finish 1 (some open_status) esp_ok none home).trace ≡ 1
closes-user_close_finish_example = closes-user_close_finish 1 (some open_status) esp_ok none home

-- The auto-close, armed for the present generation.
abbrev armed : Control
armed = record home {
  auto_close_enabled = true;
  auto_close_triggered = true;
  auto_close_generation = 1;
  close_schedule = record { enabled = true; minute = 1380; tz = codes "UTC0" };
  sched_close_generation = 1;
  sched_close_pending = true;
}

auto_close_sent_iff_example :
    let t = auto_warning_done (some open_status) esp_ok 70000 armed in
    ((closes t.trace ≡ 1) ↔ AutoWanted open_status armed)
    × (closes t.trace ≤ 1)
    × (closes (auto_warning_done none esp_ok 70000 armed).trace ≡ 0)
auto_close_sent_iff_example = auto_close_sent_iff open_status esp_ok 70000 armed

sched_close_sent_iff_example :
    let t = sched_warning_done (some open_status) esp_ok armed in
    ((closes t.trace ≡ 1) ↔ SchedWanted open_status armed)
    × (closes t.trace ≤ 1)
    × (closes (sched_warning_done none esp_ok armed).trace ≡ 0)
    × (t.sched_close_pending ≡ false)
    × ((sched_warning_done none esp_ok armed).sched_close_pending ≡ false)
sched_close_sent_iff_example = sched_close_sent_iff open_status esp_ok armed

cancelled_close_never_sent_example :
    let t = run (see_open ∷ []) (apply (user_open esp_ok) (run [] home)) in
    closes (user_close_finish 1 (some open_status) esp_ok none t).trace ≡ closes t.trace
cancelled_close_never_sent_example =
    cancelled_close_never_sent [] (see_open ∷ []) (user_open esp_ok) home (some open_status) esp_ok
      none (omega arith) (by_open esp_ok) (omega arith)

armed_once : (run [] (control_close (some open_status) true true home).0).close_generation ≡ 2
unfolding run control_close
armed_once = refl

accepted_close_is_sent_example :
    let (t, err) = control_close (some open_status) true true home in
    let generation = u32 (home.close_generation + 1) in
    (err ≡ esp_ok)
    × (t.trace
        ≡ activity "HomeKit" "Close warning started" ∷ start_user_close generation ∷ home.trace)
    × (closes (user_close_finish generation (some open_status) esp_ok none (run [] t)).trace
        ≡ suc (closes (run [] t).trace))
accepted_close_is_sent_example =
    accepted_close_is_sent (some open_status) [] home (some open_status) none esp_ok refl refl
      armed_once refl

-- An obstruction during the warning: the close is not sent.
obstruction_stops_close :
    closes
      (run
        (user_close (some open_status) true true
          ∷ opener_event obstruction blocked times
          ∷ user_warning_over 2 (some open_status) esp_ok (some open_status)
          ∷ [])
        home).trace
    ≡ 0
unfolding run apply control_close event_handler dispatch identify_protocol obstruction_event
    user_close_finish release_slot close_or_cancel revert_target
obstruction_stops_close = refl
