-- ===== src/Web/Tests.antt =====
-- Tests and witnesses for the web server.
use gdo_blaq_homekit.Prelude.{
  ℕ, ◌≡◌, ◌++◌, Bool, refl, true, false, List, [], ◌∷◌, none, some, codes, arith, take, length,
}
use gdo_blaq_homekit.Prelude.Cstr.{strip, or_else, strstr, until_nul}
use gdo_blaq_homekit.Opener.{esp_ok}
use gdo_blaq_homekit.Schedule.{parse_hhmm}
use gdo_blaq_homekit.Schedule.Tz.{tz_valid}
use gdo_blaq_homekit.Schedule.Input.{form_ok, form_tz, form_minute, form_time, parse_form}
use gdo_blaq_homekit.Form.{get_param, find, decode, escape, hexval, names, after_amp}
use gdo_blaq_homekit.Control.{PersistedSchedule, boot}
use gdo_blaq_homekit.Control.Persist.{last_saved}
use gdo_blaq_homekit.Control.Settings.{
  Write, ScheduleAnswers, set_close_schedule, apply_timezone, publish_schedule,
  set_auto_close_timeout_ms, set_auto_close_enabled, OlderKeys, schedule_load, blob,
}
use gdo_blaq_homekit.Admin.{
  Kdf, Admin, Request, absent, text, ok, authorize, check_hash, receive, is_accepted,
}
use gdo_blaq_homekit.Web.Body.{strtoul, skip_space, digit_value, ulong, as_text, read_body}
use gdo_blaq_homekit.Web.Settings.{
  auto_close_settings_post, close_schedule_post, auto_close_body, save_auto_close, schedule_body,
  schedule_form, minutes_of,
}
use gdo_blaq_homekit.Web.Served.{
  auto_close, serve, serve-refused, is_refusal, serve-refusal_unchanged,
}
use gdo_blaq_homekit.Web.Applied.{
  AutoCloseSet, auto_close_settings_post-AutoCloseSet, close_schedule_post-roundtrip,
}
use gdo_blaq_homekit.Web.Json.{between, unescape, escape_json_version-roundtrip}
use gdo_blaq_homekit.Web.Escape.{escape_json_version}
use gdo_blaq_homekit.Web.Restart.{
  Web, taken, stopped, start, started, network_event, task_step, task_at, Step, event, task, Reach,
  here, next, idle,
}
use gdo_blaq_homekit.Log
use gdo_blaq_homekit.Activity
use gdo_blaq_homekit.Ota.Slots.{power_on}
use gdo_blaq_homekit.Web.World.{World}
use gdo_blaq_homekit.Web.Routes.{get_activity, get_logs, restart, set_password, handle}
use gdo_blaq_homekit.Web.Strangers.{
  Untouched, Sent, serve_all, is_discreet, with_secrets, strangers-Untouched,
}
use gdo_blaq_homekit.Web.Passes.{Served}

-- A key derivation to compute with.
abbrev toy : Kdf
toy p salt n = some (salt ++ p)

abbrev owner : Admin
owner = record {
  credentials = record { iterations = 4096; salt = 7 ∷ []; hash = 7 ∷ codes "open door" };
  password_set = true;
  stored = none;
}

abbrev post_of : List ℕ → Request
post_of body = record {
  host = absent;
  origin = absent;
  site = absent;
  token = text (codes "open door");
  content_len = length body;
  chunks = some body ∷ [];
}

abbrev saved : Write
saved = record { opened = esp_ok; set = esp_ok; committed = esp_ok }

abbrev minutes_45 : Request
minutes_45 = post_of (codes "enabled=1&minutes=45")

abbrev stranger : Request
stranger = record minutes_45 { token = text (codes "password") }

abbrev forever : Request
forever = post_of (codes "enabled=1&minutes=99999")

minutes_45_saved : (auto_close_settings_post toy owner minutes_45 saved saved boot).1 ≡ ok
unfolding auto_close_settings_post auto_close_body save_auto_close set_auto_close_timeout_ms
    set_auto_close_enabled minutes_of strtoul skip_space digit_value ulong strstr strip or_else
    until_nul as_text read_body receive authorize check_hash
minutes_45_saved = refl

auto_close_settings_post-AutoCloseSet_example :
    (body : List ℕ) × (read_body 64 minutes_45 ≡ some body)
    × AutoCloseSet body (auto_close_settings_post toy owner minutes_45 saved saved boot).0
auto_close_settings_post-AutoCloseSet_example =
    auto_close_settings_post-AutoCloseSet toy owner minutes_45 saved saved boot minutes_45_saved

stranger_refused : is_accepted (authorize toy stranger.token owner) ≡ false
unfolding authorize check_hash
stranger_refused = refl

serve-refused_at_input :
    serve toy owner stranger (auto_close saved saved) boot
    ≡ (boot, authorize toy stranger.token owner)
serve-refused_at_input =
    serve-refused toy owner stranger (auto_close saved saved) boot stranger_refused

too_long : is_refusal (serve toy owner forever (auto_close saved saved) boot).1 ≡ true
unfolding serve auto_close_settings_post auto_close_body minutes_of strtoul skip_space digit_value
    ulong strstr strip or_else until_nul as_text read_body receive authorize check_hash
too_long = refl

serve-refusal_unchanged_at_input : (serve toy owner forever (auto_close saved saved) boot).0 ≡ boot
serve-refusal_unchanged_at_input =
    serve-refusal_unchanged toy owner forever (auto_close saved saved) boot too_long

-- `-4294967251` wraps to 45 in `strtoul`, as C says.
wrapped : strtoul (codes " -4294967251") ≡ 45
unfolding strtoul skip_space digit_value ulong
wrapped = refl

abbrev night_post : Request
night_post = post_of (codes "enabled=1&time=23%3A00&tz=EST5EDT")

abbrev all_well : ScheduleAnswers
all_well = record { env_set = true; write = saved; env_restored = true }

night_saved : (close_schedule_post toy owner night_post all_well boot).1 ≡ ok
unfolding close_schedule_post schedule_body schedule_form parse_form form_time form_minute form_tz
    parse_hhmm get_param find decode escape hexval names after_amp tz_valid set_close_schedule
    apply_timezone publish_schedule until_nul as_text read_body receive authorize check_hash
night_saved = refl

abbrev no_keys : OlderKeys
no_keys = record { enabled = none; minute = none; tz = none; last_day = none }

close_schedule_post-roundtrip_example :
    let t = (close_schedule_post toy owner night_post all_well boot).0 in
    (body : List ℕ) × (written : PersistedSchedule) × (read_body 256 night_post ≡ some body)
    × (last_saved t.trace ≡ some written)
    × (let u = schedule_load true (blob written) no_keys true boot in
        (parse_form body ≡ form_ok u.close_schedule)
        × (u.close_schedule_last_day ≡ t.close_schedule_last_day))
close_schedule_post-roundtrip_example =
    close_schedule_post-roundtrip toy owner night_post all_well boot no_keys true night_saved

abbrev version : List ℕ
version = codes "1.0\"<b>"

escape_json_version-roundtrip_example :
    unescape between (escape_json_version version 200) ≡ some (take 32 (until_nul version))
escape_json_version-roundtrip_example =
    escape_json_version-roundtrip version 200 (omega arith) (omega arith)

-- An event, and one more while the server is stopped.
abbrev busy : Web
busy = network_event true (task_step true (task_step true (network_event true started)))

-- The first start fails, the second does not.
abbrev starts_again : List Bool
starts_again = false ∷ true ∷ true ∷ true ∷ true ∷ true ∷ true ∷ true ∷ []

-- An event between the end of the loop and the end of the task: it is taken over, and no pass
-- follows.
abbrev lost : Web
lost = task_step true (
    network_event true (
      task_step true
        (task_step true (task_step true (task_step true (network_event true started))))))

lost_event :
    (lost.place ≡ idle)
    × (lost.trace ≡ taken ∷ start true ∷ stopped ∷ taken ∷ [])
    × (lost.task_running ≡ false)
unfolding task_step task_at network_event
lost_event = (refl, refl, refl)

lost-Reach : Reach Step started lost
lost-Reach =
    next
      (next
        (next (next (next (next (next here (event true)) (task true)) (task true)) (task true))
          (task true))
        (event true))
      (task true)

abbrev device : World
device = record {
  admin = owner;
  control = boot;
  ota = power_on (λ (slot : ℕ). none);
  log = Log.boot;
  history = Activity.boot;
  scratch = record { buffer = true; mutex = true };
  restarting = false;
}

abbrev strangers : List Sent
strangers =
    record { request = stranger; call = set_password (7 ∷ []) saved }
    ∷ record { request = stranger; call = get_activity true [] true }
    ∷ record { request = record stranger { token = absent }; call = restart }
    ∷ []

no_token_refused : is_accepted (authorize toy absent owner) ≡ false
unfolding authorize check_hash
no_token_refused = refl

strangers-Untouched_example :
    let v = serve_all toy strangers device in
    Untouched device v
    × (is_discreet (handle toy stranger (get_logs true true) v).1 ≡ true)
    × ((handle toy stranger (get_logs true true) (with_secrets (codes "secret") Activity.boot v)).1
        ≡ (handle toy stranger (get_logs true true) v).1)
strangers-Untouched_example =
    strangers-Untouched toy strangers stranger (get_logs true true) (codes "secret") Activity.boot
      device refl (stranger_refused, (stranger_refused, (no_token_refused, tt))) stranger_refused
