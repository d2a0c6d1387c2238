-- ===== src/Control/Settings.antt =====
-- main/gdo-blaq-homekit.cpp: the settings of the closes, kept in NVS flash, and
-- clock_sync_apply_timezone of main/clock_sync.cpp. NVS is no part of the repository: each call of
-- it answers by an argument. Log lines are left out.
use gdo_blaq_homekit.Prelude.{
  ℕ, Bool, not, ◌&&◌, ◌||◌, if◌then◌else◌, ◌==◌, ltb, leb, List, Option, none, some, bytes_eq,
}
use gdo_blaq_homekit.Prelude.Int.{ℤ, pos}
use gdo_blaq_homekit.Schedule.{CloseSchedule}
use gdo_blaq_homekit.Schedule.Tz.{tz_valid}
use gdo_blaq_homekit.Opener.{Esp, esp_ok, fail, invalid_arg, is_ok}
use gdo_blaq_homekit.Control.{
  Control, PersistedSchedule, persisted, save_schedule, set_buzzer, set_timezone, activity, emit,
  bump,
}

-- What nvs_open(), the nvs_set call and nvs_commit() return.
pub record Write : Type 0 where
  pub opened : Esp
  pub set : Esp
  pub committed : Esp

-- The error that a setter returns: `open`, then `set`, then `commit`, the first that fails.
abbrev pub write_result : Write → Esp
write_result w =
    if not (is_ok w.opened) then w.opened else if is_ok w.set then w.committed else w.set

-- `gdo_set_pre_close_buzzer`.
unfoldable pub set_pre_close_buzzer : Bool → Write → Control → Control × Esp
set_pre_close_buzzer enabled w s =
    if is_ok (write_result w)
    then (
      emit (activity "settings" "Pre-close buzzer saved") (emit (set_buzzer enabled) (bump s)),
      esp_ok,
    )
    else (s, write_result w)

-- `gdo_set_auto_close_timeout_ms`.
unfoldable pub set_auto_close_timeout_ms : ℕ → Write → Control → Control × Esp
set_auto_close_timeout_ms timeout_ms w s =
    if ltb timeout_ms 60000 || ltb 86400000 timeout_ms
    then (s, invalid_arg)
    else if is_ok (write_result w)
    then (
      emit (activity "settings" "Auto-close timeout saved")
          (record (bump s) { auto_close_timeout_ms = timeout_ms }),
      esp_ok,
    )
    else (s, write_result w)

-- `gdo_set_auto_close_enabled`.
unfoldable pub set_auto_close_enabled : Bool → Write → Control → Control × Esp
set_auto_close_enabled enabled w s =
    if is_ok (write_result w)
    then (
      emit (activity "settings" "Auto-close enable setting saved")
          (record (bump s) { auto_close_enabled = enabled }),
      esp_ok,
    )
    else (s, write_result w)

-- What nvs_get_u32() and nvs_get_u8() find, `none` where a key is missing or the namespace cannot
-- be opened.
pub record SavedAutoClose : Type 0 where
  pub timeout_ms : Option ℕ
  pub enabled : Option ℕ
  pub buzzer : Option ℕ

unfoldable pub load_timeout : Option ℕ → Control → Control
load_timeout none s = s
load_timeout (some ms) s = record s { auto_close_timeout_ms = ms }

unfoldable pub load_enabled : Option ℕ → Control → Control
load_enabled none s = s
load_enabled (some n) s = record s { auto_close_enabled = not (n == 0) }

unfoldable pub load_buzzer : Option ℕ → Control → Control
load_buzzer none s = s
load_buzzer (some n) s = emit (set_buzzer (not (n == 0))) s

-- `auto_close_settings_load`.
unfoldable pub auto_close_load : SavedAutoClose → Control → Control
auto_close_load saved s =
    load_buzzer saved.buzzer (load_enabled saved.enabled (load_timeout saved.timeout_ms s))

-- `clock_sync_apply_timezone`; `set` tells whether setenv() succeeds.
unfoldable pub apply_timezone : List ℕ → Bool → Control → Control × Esp
apply_timezone tz set s =
    if not (tz_valid tz)
    then (s, invalid_arg)
    else if not set
    then (s, fail)
    else (emit (set_timezone tz) s, esp_ok)

-- What the calls of a new schedule answer: setenv(), the write of the record, and setenv() again
-- where the timezone is put back.
pub record ScheduleAnswers : Type 0 where
  pub env_set : Bool
  pub write : Write
  pub env_restored : Bool

-- A new time or timezone forgets the day that fired last.
unfoldable pub day_after_edit : CloseSchedule → Control → ℤ
day_after_edit in_schedule s =
    if not (in_schedule.minute == s.close_schedule.minute)
      || not (bytes_eq in_schedule.tz s.close_schedule.tz)
    then pos 0
    else s.close_schedule_last_day

-- The new schedule is published once it is saved; otherwise the old timezone is put back.
unfoldable pub publish_schedule : CloseSchedule → ℤ → ScheduleAnswers → Control → Control × Esp
publish_schedule in_schedule day a s =
    if is_ok (write_result a.write)
    then (
      emit (activity "settings" "Close schedule saved")
          (record (bump (emit (save_schedule (persisted in_schedule day)) s)) {
            close_schedule = in_schedule;
            close_schedule_last_day = day;
          }),
      esp_ok,
    )
    else ((apply_timezone s.close_schedule.tz a.env_restored s).0, write_result a.write)

-- `gdo_set_close_schedule`. A `tz` of 64 bytes without a NUL is a text of 64 bytes or more here,
-- which `tz_valid` refuses.
unfoldable pub set_close_schedule : CloseSchedule → ScheduleAnswers → Control → Control × Esp
set_close_schedule in_schedule a s =
    if leb 1440 in_schedule.minute || not (tz_valid in_schedule.tz)
    then (s, invalid_arg)
    else (let (t, err) = apply_timezone in_schedule.tz a.env_set s in
        if is_ok err
        then publish_schedule in_schedule (day_after_edit in_schedule s) a t
        else (t, err))

-- What nvs_get_blob() answers: a record of the right size, ESP_ERR_NVS_NOT_FOUND, or anything else.
pub data Blob : Type 0 where
  blob : PersistedSchedule → Blob
  blob_missing blob_error : Blob

-- The separate keys of older firmware.
pub record OlderKeys : Type 0 where
  pub enabled : Option ℕ
  pub minute : Option ℕ
  pub tz : Option (List ℕ)
  pub last_day : Option ℤ

abbrev pub older_enabled : Option ℕ → CloseSchedule → CloseSchedule
older_enabled none c = c
older_enabled (some n) c = record c { enabled = not (n == 0) }

abbrev pub older_minute : Option ℕ → CloseSchedule → CloseSchedule
older_minute none c = c
older_minute (some m) c = if ltb m 1440 then record c { minute = m } else c

abbrev pub older_tz : Option (List ℕ) → CloseSchedule → CloseSchedule
older_tz none c = c
older_tz (some z) c = if tz_valid z then record c { tz = z } else c

abbrev pub older_day : Option ℤ → ℤ → ℤ
older_day none d = d
older_day (some d') d = d'

unfoldable pub load_older : OlderKeys → Control → Control
load_older k s = record s {
  close_schedule = older_tz k.tz (older_minute k.minute (older_enabled k.enabled s.close_schedule));
  close_schedule_last_day = older_day k.last_day s.close_schedule_last_day;
}

unfoldable pub load_blob : Blob → OlderKeys → Control → Control
load_blob (blob saved) k s =
    if saved.version == 1 && ltb saved.schedule.minute 1440 && tz_valid saved.schedule.tz
    then record s { close_schedule = saved.schedule; close_schedule_last_day = saved.last_day }
    else s
load_blob blob_missing k s = load_older k s
load_blob blob_error k s = s

-- `close_schedule_settings_load`; `opened` tells whether nvs_open() succeeds.
unfoldable pub schedule_load : Bool → Blob → OlderKeys → Bool → Control → Control
schedule_load opened b k env_set s =
    let t = if opened then load_blob b k s else s in
    (apply_timezone t.close_schedule.tz env_set t).0

-- The two loaders, as app_main calls them.
abbrev pub load_settings : SavedAutoClose → Bool → Blob → OlderKeys → Bool → Control → Control
load_settings saved opened b k env_set s =
    schedule_load opened b k env_set (auto_close_load saved s)
