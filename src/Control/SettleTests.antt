-- ===== src/Control/SettleTests.antt =====
-- Witnesses for the watchdog, the position reports and the stored schedule.
use gdo_blaq_homekit.Prelude.{
  ℕ, List, [], ◌∷◌, ◌≡◌, ◌≢◌, refl, true, false, none, some, codes, arith,
}
use gdo_blaq_homekit.Prelude.Int.{pos}
use gdo_blaq_homekit.Form.{get_param}
use gdo_blaq_homekit.Schedule.{CloseSchedule, parse_hhmm}
use gdo_blaq_homekit.Schedule.Tz.{tz_valid}
use gdo_blaq_homekit.Schedule.Input.{form_ok, form_tz, form_minute, form_time, parse_form}
use gdo_blaq_homekit.Opener.{
  esp_ok, no_mem, is_ok, Status, closed, closing, v2, light_off, unlocked, clear, motion_clear,
  learn_inactive, raw_position,
}
use gdo_blaq_homekit.Control.{Control, PersistedSchedule, boot}
use gdo_blaq_homekit.Control.Door.{
  inferred, process_door_position, push_target_v1, push_target_v2, track_transition, end_transition,
  update_homekit, show_movement, set_last_door_state, record_change, track_open, settle_target,
}
use gdo_blaq_homekit.Control.Watchdog.{stuck_check}
use gdo_blaq_homekit.Control.Settings.{
  ScheduleAnswers, OlderKeys, set_close_schedule, apply_timezone, publish_schedule, schedule_load,
  blob, blob_missing, SavedAutoClose, load_settings,
}
use gdo_blaq_homekit.Control.Event.{Answers}
use gdo_blaq_homekit.Control.Run.{Op, user_open, set_timeout_setting, set_schedule_setting, run}
use gdo_blaq_homekit.Control.Sound.{IsSound}
use gdo_blaq_homekit.Control.Sound.Start.{load_settings-IsSound}
use gdo_blaq_homekit.Control.Resync.{Failure}
use gdo_blaq_homekit.Control.Persist.{
  IsValid, last_saved, form-accepted, schedule-roundtrip, set_close_schedule-error,
}
use gdo_blaq_homekit.Control.Settle.{
  AtRest, Agrees, stuck_check-AtRest, stuck_check_early, report-Agrees,
}

-- A closed door on Security+ 2.0 that has learned its travel time.
abbrev closed_status : Status
closed_status = record {
  protocol = v2;
  synced = true;
  toggle_only = false;
  door = closed;
  light = light_off;
  lock = unlocked;
  obstruction = clear;
  motion = motion_clear;
  learn = learn_inactive;
  motor_on = false;
  button_pressed = false;
  client_id = 1;
  rolling_code = 100;
  door_position = pos 9900;
  door_target = pos 10000;
  open_ms = 15000;
  close_ms = 15000;
}

-- A door that closes since 1000 ms.
abbrev moving : Control
moving = record boot {
  last_door = closing;
  door_in_transition = true;
  transition_target = closing;
  transition_start_ms = 1000;
}

stuck_check-AtRest_example :
    let t = stuck_check (some closed_status) 30000 30001 none moving in
    (t.door_in_transition ≡ false) × AtRest t.last_door
stuck_check-AtRest_example =
    stuck_check-AtRest closed_status 30000 30001 none moving refl (omega arith) (omega arith)

stuck_check_early_at_input : stuck_check (some closed_status) 9000 9001 none moving ≡ moving
stuck_check_early_at_input = stuck_check_early closed_status 9000 9001 none moving (omega arith)

arrives : (process_door_position closed_status 20000 20001 moving).last_door ≢ closing
unfolding process_door_position inferred push_target_v1 push_target_v2 track_transition
    end_transition update_homekit show_movement set_last_door_state record_change track_open
    settle_target
arrives = ground arith

report-Agrees_example :
    let t = process_door_position closed_status 20000 20001 moving in
    (t.last_door ≡ inferred closed_status) × Agrees t.last_door (raw_position (pos 9900))
report-Agrees_example = report-Agrees closed_status 20000 20001 moving arrives

abbrev night : CloseSchedule
night = record { enabled = true; minute = 1380; tz = codes "EST5EDT" }

abbrev all_well : ScheduleAnswers
all_well = record {
  env_set = true;
  write = record { opened = esp_ok; set = esp_ok; committed = esp_ok };
  env_restored = true;
}

abbrev flash_full : ScheduleAnswers
flash_full = record all_well {
  write = record { opened = esp_ok; set = no_mem; committed = esp_ok };
}

night_form : parse_form (codes "enabled=1&time=23%3A00&tz=EST5EDT") ≡ form_ok night
unfolding parse_form form_time form_minute form_tz get_param parse_hhmm tz_valid
night_form = refl

form-accepted_example :
    IsValid night
    × ((set_close_schedule night all_well boot).1 ≡ esp_ok)
    × ((set_close_schedule night all_well boot).0.close_schedule ≡ night)
form-accepted_example =
    form-accepted (codes "enabled=1&time=23%3A00&tz=EST5EDT") night all_well boot night_form refl
      refl

night_set : (set_close_schedule night all_well boot).1 ≡ esp_ok
unfolding set_close_schedule apply_timezone publish_schedule tz_valid
night_set = refl

abbrev no_keys : OlderKeys
no_keys = record { enabled = none; minute = none; tz = none; last_day = none }

schedule-roundtrip_at_input :
    let t = (set_close_schedule night all_well boot).0 in
    (r : PersistedSchedule) × (last_saved t.trace ≡ some r)
    × (let u = schedule_load true (blob r) no_keys true boot in
        (u.close_schedule ≡ night) × (u.close_schedule_last_day ≡ t.close_schedule_last_day))
schedule-roundtrip_at_input = schedule-roundtrip night all_well boot no_keys true night_set

night_lost : is_ok (set_close_schedule night flash_full boot).1 ≡ false
unfolding set_close_schedule apply_timezone publish_schedule tz_valid
night_lost = refl

set_close_schedule-error_at_input :
    let t = (set_close_schedule night flash_full boot).0 in
    (t.close_schedule ≡ boot.close_schedule)
    × (t.close_schedule_last_day ≡ boot.close_schedule_last_day)
    × (t.close_generation ≡ boot.close_generation)
set_close_schedule-error_at_input = set_close_schedule-error night flash_full boot night_lost

abbrev failing_sync : Answers
failing_sync = record { now = 5000; later = 5001; rolling_code_set = esp_ok }

abbrev fails_at : ℕ → Failure
fails_at code = record {
  status = record closed_status { synced = false; rolling_code = code };
  answers = failing_sync;
}

-- Failures after a first one at 21, for a gap of 550; each try to sync uses up 21 codes.
abbrev later_failures : List Failure
later_failures = fails_at 142 ∷ fails_at 363 ∷ fails_at 784 ∷ fails_at 1605 ∷ []

abbrev settings_change : List Op
settings_change =
    set_timeout_setting 90000 all_well.write
    ∷ set_schedule_setting night all_well
    ∷ user_open esp_ok
    ∷ []

abbrev saved_minutes : SavedAutoClose
saved_minutes = record { timeout_ms = some 900000; enabled = some 1; buzzer = none }

load_settings-IsSound_example :
    IsSound (run settings_change (load_settings saved_minutes true blob_missing no_keys true boot))
load_settings-IsSound_example =
    load_settings-IsSound saved_minutes true blob_missing no_keys true settings_change
      (omega arith, omega arith)
