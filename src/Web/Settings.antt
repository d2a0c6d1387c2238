-- ===== src/Web/Settings.antt =====
-- main/diag_webserver.cpp: the three requests that change a setting.
use gdo_blaq_homekit.Prelude.{
  ℕ, ◌*◌, Bool, ◌||◌, if◌then◌else◌, ◌==◌, ltb, List, Option, none, some, codes,
}
use gdo_blaq_homekit.Opener.{Esp, is_ok}
use gdo_blaq_homekit.Schedule.Input.{FormResult, form_ok, bad_time, bad_tz, parse_form}
use gdo_blaq_homekit.Control.{Control}
use gdo_blaq_homekit.Control.Settings.{
  Write, ScheduleAnswers, set_pre_close_buzzer, set_auto_close_timeout_ms, set_auto_close_enabled,
  set_close_schedule,
}
use gdo_blaq_homekit.Admin.{
  Kdf, Admin, Request, Response, ok, bad_request, server_error, authorize, is_accepted,
}
use gdo_blaq_homekit.Prelude.Cstr.{strstr, found}
use gdo_blaq_homekit.Web.Body.{strtoul, read_body}

abbrev pub enabled_of : List ℕ → Bool
enabled_of body = found (strstr (codes "enabled=1") body)

unfoldable pub minutes_of : Option (List ℕ) → ℕ
minutes_of none = 60
minutes_of (some s) = strtoul s

-- 200 after ESP_OK, else 500.
abbrev pub answered : Control × Esp → Control × Response
answered r = (r.0, if is_ok r.1 then ok else server_error)

-- `gdo_set_auto_close_timeout_ms(…) != ESP_OK || gdo_set_auto_close_enabled(…) != ESP_OK`.
unfoldable pub save_auto_close : Bool → ℕ → Write → Write → Control → Control × Response
save_auto_close enabled minutes w v s =
    let r = set_auto_close_timeout_ms (minutes * 60000) w s in
    if is_ok r.1 then answered (set_auto_close_enabled enabled v r.0) else (r.0, server_error)

unfoldable pub auto_close_body : Option (List ℕ) → Write → Write → Control → Control × Response
auto_close_body none w v s = (s, bad_request)
auto_close_body (some body) w v s =
    let minutes = minutes_of (strstr (codes "minutes=") body) in
    if minutes == 0 || ltb 1440 minutes
    then (s, bad_request)
    else save_auto_close (enabled_of body) minutes w v s

unfoldable pub buzzer_body : Option (List ℕ) → Write → Control → Control × Response
buzzer_body none w s = (s, bad_request)
buzzer_body (some body) w s = answered (set_pre_close_buzzer (enabled_of body) w s)

unfoldable pub schedule_form : FormResult → ScheduleAnswers → Control → Control × Response
schedule_form (form_ok c) a s = answered (set_close_schedule c a s)
schedule_form bad_time a s = (s, bad_request)
schedule_form bad_tz a s = (s, bad_request)

unfoldable pub schedule_body : Option (List ℕ) → ScheduleAnswers → Control → Control × Response
schedule_body none a s = (s, bad_request)
schedule_body (some body) a s = schedule_form (parse_form body) a s

module _ (kdf : Kdf) (admin : Admin) (req : Request) where
  -- `if (!authorize_mutation(req)) return ESP_FAIL;`
  abbrev pub authorized : (Control → Control × Response) → Control → Control × Response
  authorized handler s =
      if is_accepted (authorize kdf req.token admin)
      then handler s
      else (s, authorize kdf req.token admin)

  -- `auto_close_settings_post_handler`.
  unfoldable pub auto_close_settings_post : Write → Write → Control → Control × Response
  auto_close_settings_post w v = authorized (auto_close_body (read_body 64 req) w v)

  -- `pre_close_buzzer_post_handler`.
  unfoldable pub pre_close_buzzer_post : Write → Control → Control × Response
  pre_close_buzzer_post w = authorized (buzzer_body (read_body 32 req) w)

  -- `close_schedule_post_handler`.
  unfoldable pub close_schedule_post : ScheduleAnswers → Control → Control × Response
  close_schedule_post a = authorized (schedule_body (read_body 256 req) a)
