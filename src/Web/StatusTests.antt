-- ===== src/Web/StatusTests.antt =====
-- The witness for the status answer.
use gdo_blaq_homekit.Prelude.{ℕ, ◌≡◌, refl, true, false, List, [], ◌∷◌, none, some, codes, arith}
use gdo_blaq_homekit.Prelude.Int.{pos, negsuc}
use gdo_blaq_homekit.Opener.{
  DoorState, LightState, LockState, ObstructionState, MotionState, esp_ok,
}
use gdo_blaq_homekit.Control
use gdo_blaq_homekit.Control.Run.{Op, user_open, apply, run}
use gdo_blaq_homekit.Counters
use gdo_blaq_homekit.Log
use gdo_blaq_homekit.Activity
use gdo_blaq_homekit.Admin
use gdo_blaq_homekit.Ota.Slots.{power_on}
use gdo_blaq_homekit.Web.Pages.{pending_ms, remaining_s}
use gdo_blaq_homekit.Web.Print.{show_all}
use gdo_blaq_homekit.Web.World.{World}
use gdo_blaq_homekit.Web.Status.{software, Readings, members, status_get_handler}
use gdo_blaq_homekit.Web.Status.Size.{IsShort}
use gdo_blaq_homekit.Web.Status.Parts.{IsPrintable, IsMachine}
use gdo_blaq_homekit.Web.Status.Object.{status_get_handler-IsObject}
use gdo_blaq_homekit.Web.Object.{reads, read_byte, IsObject}
use gdo_blaq_homekit.Log.{log_used}
use gdo_blaq_homekit.Control.Warning.{auto_close_remaining_ms}
use gdo_blaq_homekit.Control.Command.{control_open, send_door_request}

abbrev opened_once : List Op
opened_once = user_open esp_ok ∷ []

abbrev device : World
device = record {
  admin = Admin.boot;
  control = run opened_once Control.boot;
  ota = power_on (λ (slot : ℕ). none);
  log = Log.boot;
  history = Activity.boot;
  scratch = record { buffer = true; mutex = true };
  restarting = false;
}

-- A device with one image, before its clock is set.
abbrev readings : Readings
readings = record {
  state_names = record {
    door = λ (d : DoorState). some (codes "Closed");
    light = λ (l : LightState). some (codes "Off");
    lock = λ (l : LockState). some (codes "Unlocked");
    obstruction = λ (o : ObstructionState). none;
    motion = λ (m : MotionState). some (codes "Clear");
  };
  protocol = some (codes "Security+ 2.0");
  battery = none;
  synced = true;
  openings = 12;
  now = 61000;
  asked_at = 61001;
  printed_at = 61002;
  free_heap = 150000;
  min_free_heap = 120000;
  rssi = some (negsuc 60);
  ip_address = some (codes "192.168.1.9");
  hap_sessions = pos 1;
  reset_reason = software;
  log_taken = true;
  buzzer = true;
  clock_synced = false;
  local_time = codes "unsynced";
  counters = Counters.boot;
  label = λ (slot : ℕ). codes "ota_0";
  running = some 0;
  version = some (codes "1.4.0");
  other = some 1;
  other_version = none;
  opened = esp_ok;
}

readings-IsShort : IsShort readings
readings-IsShort = record {
  door = λ d. omega arith;
  light = λ d. omega arith;
  lock = λ d. omega arith;
  obstruction = λ d. omega arith;
  motion = λ d. omega arith;
  protocol = omega arith;
  battery = omega arith;
  ip_address = omega arith;
  local_time = omega arith;
  label = λ slot. omega arith;
}

readings-IsPrintable : IsPrintable readings
unfolding reads read_byte
readings-IsPrintable = record {
  door = λ d. refl;
  light = λ d. refl;
  lock = λ d. refl;
  obstruction = λ d. refl;
  motion = λ d. refl;
  protocol = refl;
  battery = refl;
  ip_address = refl;
  local_time = refl;
  label = λ slot. refl;
  version = ground arith;
  other_version = ground arith;
  uptime = omega arith;
  free_heap = omega arith;
  min_free_heap = omega arith;
  rssi = omega arith;
  hap_sessions = omega arith;
  rx_errors = omega arith;
  obstructions = omega arith;
  openings = omega arith;
}

device-IsMachine : IsMachine readings device.control device.log device.ota
unfolding log_used remaining_s auto_close_remaining_ms pending_ms run apply control_open
    send_door_request
device-IsMachine = record {
  log_bytes = omega arith;
  log_capacity = omega arith;
  remaining = omega arith;
  tz = ground arith;
  pending = omega arith;
  pending_version = tt;
}

status_get_handler-IsObject_example :
    let (v, body) = status_get_handler readings device in
    (body ≡ show_all (members readings (pending_ms readings.now device.ota) v)) × IsObject body
status_get_handler-IsObject_example =
    status_get_handler-IsObject readings opened_once device readings-IsShort readings-IsPrintable
      device-IsMachine refl
