-- ===== src/Web/Applied.antt =====
-- What is in force after a settings request that is answered with 200, and after a restart.
use gdo_blaq_homekit.Prelude.{
  ℕ, ◌*◌, ◌≤◌, ◌≡◌, refl, sym, ap, ◌∙◌, inl, inr, Bool, true, false, Bool-cases, Option-cases, List,
  Option, none, some, codes, arith,
}
use gdo_blaq_homekit.Opener.{Esp, esp_ok, is_ok}
use gdo_blaq_homekit.Schedule.{CloseSchedule}
use gdo_blaq_homekit.Schedule.Input.{FormResult, form_ok, bad_time, bad_tz, parse_form}
use gdo_blaq_homekit.Control.{Control, PersistedSchedule, boot}
use gdo_blaq_homekit.Control.Settings.{
  Write, ScheduleAnswers, set_auto_close_timeout_ms, set_auto_close_enabled, set_close_schedule,
  schedule_load, blob, OlderKeys,
}
use gdo_blaq_homekit.Control.Persist.{last_saved, schedule-roundtrip}
use gdo_blaq_homekit.Admin.{Kdf, Admin, Request, ok, authorize, is_accepted}
use gdo_blaq_homekit.Prelude.Cstr.{strstr}
use gdo_blaq_homekit.Web.Body.{strtoul, read_body}
use gdo_blaq_homekit.Web.Find.{Never, First, strstr-Never, strstr-First}
use gdo_blaq_homekit.Web.Settings.{
  enabled_of, minutes_of, save_auto_close, auto_close_body, schedule_form, schedule_body,
  auto_close_settings_post, close_schedule_post,
}

-- The minutes that a body names behind its first `minutes=`, and 60 where it has none.
pub data Names (body : List ℕ) : ℕ → Type 0 where
  nothing : Never (codes "minutes=") body → Names body 60
  number : (after : List ℕ) → First (codes "minutes=") body after → Names body (strtoul after)

-- What the body of an auto-close request asks for is in force.
pub record AutoCloseSet (body : List ℕ) (s : Control) : Type 0 where
  pub on : s.auto_close_enabled ≡ true → (after : List ℕ) × First (codes "enabled=1") body after
  pub off : s.auto_close_enabled ≡ false → Never (codes "enabled=1") body
  pub asked : ℕ
  pub named : Names body asked
  pub timeout : s.auto_close_timeout_ms ≡ asked * 60000
  pub low : 1 ≤ asked
  pub high : asked ≤ 1440

-- What the handler hands over to the setters.
record Handed (body : List ℕ) (s : Control) : Type 0 where
  enabled : s.auto_close_enabled ≡ enabled_of body
  timeout : s.auto_close_timeout_ms ≡ minutes_of (strstr (codes "minutes=") body) * 60000
  low : 60000 ≤ s.auto_close_timeout_ms
  high : s.auto_close_timeout_ms ≤ 86400000

minutes_of-Names : (body : List ℕ) → Names body (minutes_of (strstr (codes "minutes=") body))
unfolding minutes_of
minutes_of-Names body = elim (Option-cases (strstr (codes "minutes=") body)) [
  | inl e ↦ rw e (nothing (strstr-Never (codes "minutes=") body e))
  | inr (after, e) ↦ rw e (number after (strstr-First (codes "minutes=") body after e))
]

enabled_of-First :
    (body : List ℕ)
    → enabled_of body ≡ true
    → (after : List ℕ) × First (codes "enabled=1") body after
enabled_of-First body h = elim (Option-cases (strstr (codes "enabled=1") body)) [
  | inl e ↦ absurd (ground (arith, h, e))
  | inr (after, e) ↦ (after, strstr-First (codes "enabled=1") body after e)
]

enabled_of-Never : (body : List ℕ) → enabled_of body ≡ false → Never (codes "enabled=1") body
enabled_of-Never body h = elim (Option-cases (strstr (codes "enabled=1") body)) [
  | inl e ↦ strstr-Never (codes "enabled=1") body e
  | inr (after, e) ↦ absurd (ground (arith, h, e))
]

Handed-AutoCloseSet : (body : List ℕ) (s : Control) → Handed body s → AutoCloseSet body s
Handed-AutoCloseSet body s h = record {
  on = λ e. enabled_of-First body (sym h.enabled ∙ e);
  off = λ e. enabled_of-Never body (sym h.enabled ∙ e);
  asked = minutes_of (strstr (codes "minutes=") body);
  named = minutes_of-Names body;
  timeout = h.timeout;
  low = omega (arith, h.timeout, h.low);
  high = omega (arith, h.timeout, h.high);
}

save_auto_close-ok :
    (e : Bool) (m : ℕ) (w v : Write) (s : Control)
    → (save_auto_close e m w v s).1 ≡ ok
    → let t = (save_auto_close e m w v s).0 in
      (t.auto_close_enabled ≡ e)
      × (t.auto_close_timeout_ms ≡ m * 60000)
      × (60000 ≤ m * 60000)
      × (m * 60000 ≤ 86400000)
unfolding save_auto_close set_auto_close_timeout_ms set_auto_close_enabled
save_auto_close-ok e m w v s h = ground (arith, h)

auto_close_body-ok :
    (b : Option (List ℕ)) (w v : Write) (s : Control)
    → (auto_close_body b w v s).1 ≡ ok
    → (body : List ℕ) × (b ≡ some body) × Handed body (auto_close_body b w v s).0
unfolding auto_close_body
auto_close_body-ok none w v s h = absurd (ground (arith, h))
auto_close_body-ok (some b) w v s h = (
  b,
  refl,
  ground (
    arith,
    h,
    save_auto_close-ok (enabled_of b) (minutes_of (strstr (codes "minutes=") b)) w v s,
  ),
)

post-Handed :
    (kdf : Kdf) (admin : Admin) (req : Request) (w v : Write) (s : Control)
    → (auto_close_settings_post kdf admin req w v s).1 ≡ ok
    → (body : List ℕ) × (read_body 64 req ≡ some body)
      × Handed body (auto_close_settings_post kdf admin req w v s).0
unfolding auto_close_settings_post
post-Handed kdf admin req w v s h =
    elim (Bool-cases (is_accepted (authorize kdf req.token admin))) [
      | inl e ↦ rw e (auto_close_body-ok (read_body 64 req) w v s (ground (arith, h, e)))
      | inr e ↦ absurd (ground (arith, h, e))
    ]

-- An auto-close request that is answered with 200 is in force: its body could be read, the timeout
-- is the minutes that strtoul() reads behind its first `minutes=` (60 where it has none), from one
-- minute to a day, and auto-close is on exactly if `enabled=1` is somewhere in the body.
pub auto_close_settings_post-AutoCloseSet :
    (kdf : Kdf) (admin : Admin) (req : Request) (w v : Write) (s : Control)
    → (auto_close_settings_post kdf admin req w v s).1 ≡ ok
    → (body : List ℕ) × (read_body 64 req ≡ some body)
      × AutoCloseSet body (auto_close_settings_post kdf admin req w v s).0
auto_close_settings_post-AutoCloseSet kdf admin req w v s h =
    let (body, read, handed) = post-Handed kdf admin req w v s h in
    let t = (auto_close_settings_post kdf admin req w v s).0 in
    (body, read, Handed-AutoCloseSet body t handed)

-- The schedule of a body that is read and understood, and that was accepted.
pub record ScheduleSet (b : Option (List ℕ)) (a : ScheduleAnswers) (s : Control) (t : Control)
    : Type 0 where
  pub body : List ℕ
  pub form : CloseSchedule
  pub read : b ≡ some body
  pub parsed : parse_form body ≡ form_ok form
  pub accepted : (set_close_schedule form a s).1 ≡ esp_ok
  pub result : t ≡ (set_close_schedule form a s).0

esp_ok_of : (e : Esp) → is_ok e ≡ true → e ≡ esp_ok
esp_ok_of e h = ground (arith, h)

schedule_form-ok :
    (f : FormResult) (a : ScheduleAnswers) (s : Control)
    → (schedule_form f a s).1 ≡ ok
    → (c : CloseSchedule) × (f ≡ form_ok c)
      × ((set_close_schedule c a s).1 ≡ esp_ok)
      × ((schedule_form f a s).0 ≡ (set_close_schedule c a s).0)
unfolding schedule_form
schedule_form-ok (form_ok c) a s h = (c, refl, ground (arith, h), refl)
schedule_form-ok bad_time a s h = absurd (ground (arith, h))
schedule_form-ok bad_tz a s h = absurd (ground (arith, h))

schedule_body-ok :
    (b : Option (List ℕ)) (a : ScheduleAnswers) (s : Control)
    → (schedule_body b a s).1 ≡ ok
    → ScheduleSet b a s (schedule_body b a s).0
unfolding schedule_body
schedule_body-ok none a s h = absurd (ground (arith, h))
schedule_body-ok (some b) a s h =
    let (c, p, e, r) = schedule_form-ok (parse_form b) a s h in
    record { body = b; form = c; read = refl; parsed = p; accepted = e; result = r }

post-ScheduleSet :
    (kdf : Kdf) (admin : Admin) (req : Request) (a : ScheduleAnswers) (s : Control)
    → (close_schedule_post kdf admin req a s).1 ≡ ok
    → ScheduleSet (read_body 256 req) a s (close_schedule_post kdf admin req a s).0
unfolding close_schedule_post
post-ScheduleSet kdf admin req a s h =
    elim (Bool-cases (is_accepted (authorize kdf req.token admin))) [
      | inl e ↦ rw e (schedule_body-ok (read_body 256 req) a s (ground (arith, h, e)))
      | inr e ↦ absurd (ground (arith, h, e))
    ]

-- A schedule that is posted survives a restart: where the request is answered with 200, its body was
-- read, the form in it is one that parses to a schedule, a record was written to NVS, and loading
-- this record at the next start gives that schedule, and the last day that was kept, whatever older
-- keys there are.
pub close_schedule_post-roundtrip :
    (kdf : Kdf) (admin : Admin) (req : Request) (a : ScheduleAnswers) (s : Control) (k : OlderKeys)
    (env : Bool)
    → (close_schedule_post kdf admin req a s).1 ≡ ok
    → let t = (close_schedule_post kdf admin req a s).0 in
      (body : List ℕ) × (written : PersistedSchedule) × (read_body 256 req ≡ some body)
      × (last_saved t.trace ≡ some written)
      × (let u = schedule_load true (blob written) k env boot in
          (parse_form body ≡ form_ok u.close_schedule)
          × (u.close_schedule_last_day ≡ t.close_schedule_last_day))
close_schedule_post-roundtrip kdf admin req a s k env h =
    let r = post-ScheduleSet kdf admin req a s h in
    let (written, saved, loaded) = schedule-roundtrip r.form a s k env r.accepted in
    (
      r.body,
      written,
      r.read,
      ap (λ (t : Control). last_saved t.trace) r.result ∙ saved,
      (
        r.parsed ∙ ap form_ok (sym loaded.0),
        loaded.1 ∙ sym (ap (λ (t : Control). t.close_schedule_last_day) r.result),
      ),
    )
