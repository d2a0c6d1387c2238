-- ===== src/Web/Served.antt =====
-- Which settings requests are carried out, and what holds after one that is answered with 200.
use gdo_blaq_homekit.Prelude.{ℕ, ◌≡◌, refl, Bool, true, false, List, Option, none, some, arith}
use gdo_blaq_homekit.Schedule.Input.{FormResult, form_ok, bad_time, bad_tz, parse_form}
use gdo_blaq_homekit.Control.{Control}
use gdo_blaq_homekit.Control.Settings.{Write, ScheduleAnswers}
use gdo_blaq_homekit.Admin.{
  Kdf, Admin, Request, Response, bad_request, unauthorized, forbidden, authorize, is_accepted,
}
use gdo_blaq_homekit.Web.Body.{read_body}
use gdo_blaq_homekit.Web.Settings.{
  save_auto_close, auto_close_body, buzzer_body, schedule_form, schedule_body,
  auto_close_settings_post, pre_close_buzzer_post, close_schedule_post,
}

-- A settings request, with what the calls of its handler answer.
pub data Post : Type 0 where
  auto_close : Write → Write → Post
  buzzer : Write → Post
  schedule : ScheduleAnswers → Post

unfoldable pub serve : Kdf → Admin → Request → Post → Control → Control × Response
serve kdf admin req (auto_close w v) s = auto_close_settings_post kdf admin req w v s
serve kdf admin req (buzzer w) s = pre_close_buzzer_post kdf admin req w s
serve kdf admin req (schedule a) s = close_schedule_post kdf admin req a s

-- No setting changes without the password: where authorize_mutation() refuses the token, each of the
-- three settings requests leaves the control state as it is and gives the answer of the refusal.
pub serve-refused :
    (kdf : Kdf) (admin : Admin) (req : Request) (p : Post) (s : Control)
    → is_accepted (authorize kdf req.token admin) ≡ false
    → serve kdf admin req p s ≡ (s, authorize kdf req.token admin)
unfolding serve auto_close_settings_post pre_close_buzzer_post close_schedule_post
serve-refused kdf admin req (auto_close w v) s h = simp h
serve-refused kdf admin req (buzzer w) s h = simp h
serve-refused kdf admin req (schedule a) s h = simp h

-- The answers that say that the request was not carried out.
abbrev pub is_refusal : Response → Bool
is_refusal bad_request = true
is_refusal unauthorized = true
is_refusal forbidden = true
is_refusal _ = false

auto_close_body-refusal :
    (b : Option (List ℕ)) (w v : Write) (s : Control)
    → is_refusal (auto_close_body b w v s).1 ≡ true
    → (auto_close_body b w v s).0 ≡ s
unfolding auto_close_body save_auto_close
auto_close_body-refusal none w v s h = refl
auto_close_body-refusal (some b) w v s h = ground (arith, h)

buzzer_body-refusal :
    (b : Option (List ℕ)) (w : Write) (s : Control)
    → is_refusal (buzzer_body b w s).1 ≡ true
    → (buzzer_body b w s).0 ≡ s
unfolding buzzer_body
buzzer_body-refusal none w s h = refl
buzzer_body-refusal (some b) w s h = ground (arith, h)

schedule_form-refusal :
    (f : FormResult) (a : ScheduleAnswers) (s : Control)
    → is_refusal (schedule_form f a s).1 ≡ true
    → (schedule_form f a s).0 ≡ s
unfolding schedule_form
schedule_form-refusal (form_ok c) a s h = ground (arith, h)
schedule_form-refusal bad_time a s h = refl
schedule_form-refusal bad_tz a s h = refl

schedule_body-refusal :
    (b : Option (List ℕ)) (a : ScheduleAnswers) (s : Control)
    → is_refusal (schedule_body b a s).1 ≡ true
    → (schedule_body b a s).0 ≡ s
unfolding schedule_body
schedule_body-refusal none a s h = refl
schedule_body-refusal (some b) a s h = schedule_form-refusal (parse_form b) a s h

-- A request that is answered with 400, 401 or 403 changes nothing, whichever setting it is for.
pub serve-refusal_unchanged :
    (kdf : Kdf) (admin : Admin) (req : Request) (p : Post) (s : Control)
    → is_refusal (serve kdf admin req p s).1 ≡ true
    → (serve kdf admin req p s).0 ≡ s
unfolding serve auto_close_settings_post pre_close_buzzer_post close_schedule_post
serve-refusal_unchanged kdf admin req (auto_close w v) s h =
    ground (arith, h, auto_close_body-refusal (read_body 64 req) w v s)
serve-refusal_unchanged kdf admin req (buzzer w) s h =
    ground (arith, h, buzzer_body-refusal (read_body 32 req) w s)
serve-refusal_unchanged kdf admin req (schedule a) s h =
    ground (arith, h, schedule_body-refusal (read_body 256 req) a s)
