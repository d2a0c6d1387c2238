-- ===== src/Web/StartTests.antt =====
-- Tests for the start of the web server.
use gdo_blaq_homekit.Prelude.{◌≡◌, ◌≤◌, refl, Bool, true, false, length, if◌then◌else◌, arith}
use gdo_blaq_homekit.Web.Start.{
  Route, at_logs, at_pre_close_buzzer, routes, max_uri_handlers, stopped, on_failure, register_all,
  start_httpd_server, all_accepted, start_httpd_server-outcome,
}

abbrev all_but_logs : Route → Bool
all_but_logs at_logs = false
all_but_logs _ = true

start_httpd_server-outcome_at_input : start_httpd_server true all_but_logs stopped ≡ (
  if all_accepted routes all_but_logs
      then record { handle = true; running = true; registered = routes }
      else stopped,
  all_accepted routes all_but_logs,
)
start_httpd_server-outcome_at_input = start_httpd_server-outcome true all_but_logs stopped refl

-- The one handler whose failure leaves the server running behind a start that reports an error.
abbrev all_but_buzzer : Route → Bool
all_but_buzzer at_pre_close_buzzer = false
all_but_buzzer _ = true

left_running :
    ((start_httpd_server true all_but_buzzer stopped).1 ≡ false)
    × ((start_httpd_server true all_but_buzzer stopped).0.running ≡ true)
unfolding start_httpd_server register_all on_failure
left_running = (refl, refl)

within_limit : length routes ≤ max_uri_handlers
within_limit = omega arith
