-- ===== src/Control/Sound/Start.antt =====
-- The state after the settings were loaded, and at any time later.
use gdo_blaq_homekit.Prelude.{ℕ, ◌≤◌, Bool, Bool-cases, inl, inr, List, Option, none, some, arith}
use gdo_blaq_homekit.Schedule.{CloseSchedule}
use gdo_blaq_homekit.Control.{Control, boot}
use gdo_blaq_homekit.Control.Settings.{
  SavedAutoClose, load_timeout, load_enabled, load_buzzer, auto_close_load, Blob, blob,
  blob_missing, blob_error, OlderKeys, older_enabled, older_minute, older_tz, load_older, load_blob,
  schedule_load, apply_timezone, load_settings,
}
use gdo_blaq_homekit.Control.Persist.{IsValid}
use gdo_blaq_homekit.Control.Run.{Op, run}
use gdo_blaq_homekit.Control.Sound.{IsSound}
use gdo_blaq_homekit.Control.Sound.Runs.{run-IsSound, boot-IsSound}

-- A timeout that gdo_set_auto_close_timeout_ms() can have saved.
abbrev pub IsSaved : Option ℕ → Type 0
IsSaved none = Unit {0}
IsSaved (some ms) = (60000 ≤ ms) × (ms ≤ 86400000)

load_timeout-IsSound :
    (o : Option ℕ) (s : Control) → IsSaved o → IsSound s → IsSound (load_timeout o s)
unfolding load_timeout
load_timeout-IsSound none s o h = h
load_timeout-IsSound (some ms) s o h = record {
  clock = h.clock;
  timeout_low = o.0;
  timeout_high = o.1;
  schedule = h.schedule;
}

load_enabled-IsSound : (o : Option ℕ) (s : Control) → IsSound s → IsSound (load_enabled o s)
unfolding load_enabled
load_enabled-IsSound none s h = h
load_enabled-IsSound (some n) s h = record {
  clock = h.clock;
  timeout_low = h.timeout_low;
  timeout_high = h.timeout_high;
  schedule = h.schedule;
}

load_buzzer-IsSound : (o : Option ℕ) (s : Control) → IsSound s → IsSound (load_buzzer o s)
unfolding load_buzzer
load_buzzer-IsSound none s h = h
load_buzzer-IsSound (some n) s h = record {
  clock = h.clock;
  timeout_low = h.timeout_low;
  timeout_high = h.timeout_high;
  schedule = h.schedule;
}

auto_close_load-IsSound :
    (saved : SavedAutoClose) (s : Control)
    → IsSaved saved.timeout_ms
    → IsSound s
    → IsSound (auto_close_load saved s)
unfolding auto_close_load
auto_close_load-IsSound saved s o h =
    let t = load_timeout saved.timeout_ms s in
    load_buzzer-IsSound saved.buzzer (load_enabled saved.enabled t)
      (load_enabled-IsSound saved.enabled t (load_timeout-IsSound saved.timeout_ms s o h))

older_enabled-IsValid : (o : Option ℕ) (c : CloseSchedule) → IsValid c → IsValid (older_enabled o c)
older_enabled-IsValid none c h = h
older_enabled-IsValid (some n) c h = record { minute = h.minute; tz = h.tz }

older_minute-IsValid : (o : Option ℕ) (c : CloseSchedule) → IsValid c → IsValid (older_minute o c)
older_minute-IsValid none c h = h
older_minute-IsValid (some m) c h = ground (arith, h)

older_tz-IsValid : (o : Option (List ℕ)) (c : CloseSchedule) → IsValid c → IsValid (older_tz o c)
older_tz-IsValid none c h = h
older_tz-IsValid (some z) c h = ground (arith, h)

load_blob-IsSound : (b : Blob) (k : OlderKeys) (s : Control) → IsSound s → IsSound (load_blob b k s)
unfolding load_blob load_older
load_blob-IsSound (blob r) k s h = ground (arith, h)
load_blob-IsSound blob_missing k s h = record {
  clock = h.clock;
  timeout_low = h.timeout_low;
  timeout_high = h.timeout_high;
  schedule =
      older_tz-IsValid k.tz (older_minute k.minute (older_enabled k.enabled s.close_schedule)) (
        older_minute-IsValid k.minute (older_enabled k.enabled s.close_schedule)
          (older_enabled-IsValid k.enabled s.close_schedule h.schedule));
}
load_blob-IsSound blob_error k s h = h

apply_timezone-IsSound :
    (tz : List ℕ) (set : Bool) (s : Control) → IsSound s → IsSound (apply_timezone tz set s).0
unfolding apply_timezone
apply_timezone-IsSound tz set s h = ground (arith, h)

schedule_load-IsSound :
    (opened : Bool) (b : Blob) (k : OlderKeys) (env : Bool) (s : Control)
    → IsSound s
    → IsSound (schedule_load opened b k env s)
unfolding schedule_load
schedule_load-IsSound opened b k env s h = elim (Bool-cases opened) [
  | inl e ↦ rw e (
      apply_timezone-IsSound (load_blob b k s).close_schedule.tz env (load_blob b k s)
        (load_blob-IsSound b k s h))
  | inr e ↦ rw e (apply_timezone-IsSound s.close_schedule.tz env s h)
]

-- From power-on the state stays sound: where NVS holds no auto-close timeout or one that the setter
-- lets through, then after the settings are loaded, whatever record, older keys or errors the
-- schedule's load meets, and after any operations in any order, s_door_continuously_open_since_ms
-- is 0 unless the door is open, the auto-close timeout is between a minute and a day, and the
-- schedule has a time below 24:00 and a timezone of the grammar. Nothing is said of
-- s_door_open_since_ms. The load of the timeout itself checks no range.
pub load_settings-IsSound :
    (saved : SavedAutoClose) (opened : Bool) (b : Blob) (k : OlderKeys) (env : Bool) (ops : List Op)
    → IsSaved saved.timeout_ms
    → IsSound (run ops (load_settings saved opened b k env boot))
load_settings-IsSound saved opened b k env ops o =
    let s = auto_close_load saved boot in
    run-IsSound ops (load_settings saved opened b k env boot)
      (schedule_load-IsSound opened b k env s (auto_close_load-IsSound saved boot o boot-IsSound))
