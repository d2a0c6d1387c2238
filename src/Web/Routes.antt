-- ===== src/Web/Routes.antt =====
-- main/diag_webserver.cpp: the handlers that start_httpd_server registers, on the state that they
-- share. Lines of the activity history that a handler writes are left out.
use gdo_blaq_homekit.Prelude.{ℕ, Bool, true, false, ◌||◌, if◌then◌else◌, List}
use gdo_blaq_homekit.Prelude.Int.{pos}
use gdo_blaq_homekit.Opener.{Esp}
use gdo_blaq_homekit.Control.{Control}
use gdo_blaq_homekit.Control.Settings.{Write, ScheduleAnswers}
use gdo_blaq_homekit.Ota.{
  Ota, Answer, done, Upload, Rollback, firmware_update, firmware_confirm, firmware_cancel,
  firmware_rollback,
}
use gdo_blaq_homekit.Admin.{Kdf, Admin, Request, Response, authorize, is_accepted, write_password}
use gdo_blaq_homekit.Web.World.{World}
use gdo_blaq_homekit.Web.Status.{Readings, status_get_handler}
use gdo_blaq_homekit.Web.Pages.{Reply, page, status, json, firmware, send_log_buffer, activity_get}
use gdo_blaq_homekit.Web.Settings.{
  auto_close_settings_post, pre_close_buzzer_post, close_schedule_post,
}

-- A handler, with what the calls that it makes answer.
pub data Call : Type 0 where
  root favicon : Call
  get_status : Readings → Call
  get_logs download_logs : Bool → Bool → Call
  restart : Call
  pre_close_buzzer : Write → Call
  auto_close : Write → Write → Call
  close_schedule : ScheduleAnswers → Call
  update : Upload → Call
  confirm : ℕ → Esp → Call
  cancel : Call
  rollback : Rollback → Call
  change_password set_password : List ℕ → Write → Call
  get_activity : Bool → List Bool → Bool → Call

-- `if (!authorize_mutation(req)) return ESP_FAIL;`
abbrev pub if_authorized : Response → (World → World × Reply) → World → World × Reply
if_authorized access handler w = if is_accepted access then handler w else (w, status access)

abbrev pub is_done : Answer → Bool
is_done done = true
is_done _ = false

abbrev pub with_control : World → Control × Response → World × Reply
with_control w (s, r) = (record w { control = s }, status r)

abbrev pub with_ota : World → Ota × Answer → World × Reply
with_ota w (s, a) = (record w { ota = s }, firmware a)

-- After a confirmation or a rollback that is carried out, the device restarts.
abbrev pub with_boot : World → Ota × Answer → World × Reply
with_boot w (s, a) = (record w { ota = s; restarting = w.restarting || is_done a }, firmware a)

abbrev pub with_admin : World → Admin × Response → World × Reply
with_admin w (s, r) = (record w { admin = s }, status r)

-- `restart_post_handler`.
unfoldable pub restart_post : Response → World → World × Reply
restart_post access = if_authorized access (λ v. (record v { restarting = true }, page))

-- The handler of each URI.
unfoldable pub handle : Kdf → Request → Call → World → World × Reply
handle kdf req root w = (w, page)
handle kdf req favicon w = (w, page)
handle kdf req (get_status r) w = let (v, body) = status_get_handler r w in (v, json body)
handle kdf req (get_logs taken read) w =
    if_authorized (authorize kdf req.token w.admin)
      (λ v. (v, send_log_buffer v.scratch taken read v.log)) w
handle kdf req (download_logs taken read) w =
    if_authorized (authorize kdf req.token w.admin)
      (λ v. (v, send_log_buffer v.scratch taken read v.log)) w
handle kdf req restart w = restart_post (authorize kdf req.token w.admin) w
handle kdf req (pre_close_buzzer a) w =
    with_control w (pre_close_buzzer_post kdf w.admin req a w.control)
handle kdf req (auto_close a b) w =
    with_control w (auto_close_settings_post kdf w.admin req a b w.control)
handle kdf req (close_schedule a) w =
    with_control w (close_schedule_post kdf w.admin req a w.control)
handle kdf req (update u) w =
    with_ota w (firmware_update (authorize kdf req.token w.admin) (pos req.content_len) u w.ota)
handle kdf req (confirm now set) w =
    with_boot w (firmware_confirm (authorize kdf req.token w.admin) now set w.ota)
handle kdf req cancel w = with_ota w (firmware_cancel (authorize kdf req.token w.admin) w.ota)
handle kdf req (rollback r) w =
    with_boot w (firmware_rollback (authorize kdf req.token w.admin) r w.ota)
handle kdf req (change_password salt a) w =
    with_admin w (write_password kdf true req salt a w.admin)
handle kdf req (set_password salt a) w = with_admin w (write_password kdf false req salt a w.admin)
handle kdf req (get_activity allocated added printed) w =
    if_authorized (authorize kdf req.token w.admin)
      (λ v. (v, activity_get allocated added printed v.history)) w
