-- ===== src/Schedule/Input.antt =====
-- main/close_schedule.h: the form of the diagnostics page.
use gdo_blaq_homekit.Prelude.{
  ℕ, Bool, false, if◌then◌else◌, List, Option, none, some, codes, bytes_eq,
}
use gdo_blaq_homekit.Form.{get_param}
use gdo_blaq_homekit.Schedule.{CloseSchedule, parse_hhmm}
use gdo_blaq_homekit.Schedule.Tz.{tz_valid}

-- `close_schedule_form_result_t`, with what is stored on success.
pub data FormResult : Type 0 where
  form_ok : CloseSchedule → FormResult
  bad_time bad_tz : FormResult

-- `flag[0] == '1' && flag[1] == '\0'` of a value that was found.
abbrev pub is_one : Option (List ℕ) → Bool
is_one none = false
is_one (some v) = bytes_eq v (codes "1")

-- The timezone, once there is a time.
unfoldable pub form_tz : Bool → ℕ → Option (List ℕ) → FormResult
form_tz enabled minute none = bad_tz
form_tz enabled minute (some tz) =
    if tz_valid tz then form_ok (record { enabled = enabled; minute = minute; tz = tz }) else bad_tz

unfoldable pub form_minute : Bool → Option ℕ → Option (List ℕ) → FormResult
form_minute enabled none tz = bad_time
form_minute enabled (some minute) tz = form_tz enabled minute tz

unfoldable pub form_time : Bool → Option (List ℕ) → Option (List ℕ) → FormResult
form_time enabled none tz = bad_time
form_time enabled (some hhmm) tz = form_minute enabled (parse_hhmm hhmm) tz

-- `close_schedule_parse_form`. What a refused form leaves in `*out` is not read by its caller. The
-- code reads `tz` only if the time is right, which is the same, since reading changes nothing.
unfoldable pub parse_form : List ℕ → FormResult
parse_form body =
    form_time (is_one (get_param body (codes "enabled") 4)) (get_param body (codes "time") 8)
      (get_param body (codes "tz") 64)
