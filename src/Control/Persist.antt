-- ===== src/Control/Persist.antt =====
-- The scheduled close from the form of the settings page to the flash and back.
use gdo_blaq_homekit.Prelude.{
  ℕ, ◌<◌, ◌≡◌, Bool, true, false, Option-cases, inl, inr, Option, none, some, List, [], ◌∷◌, codes,
  arith,
}
use gdo_blaq_homekit.Prelude.Int.{ℤ}
use gdo_blaq_homekit.Schedule.{CloseSchedule, parse_hhmm}
use gdo_blaq_homekit.Schedule.Tz.{tz_valid}
use gdo_blaq_homekit.Schedule.Input.{form_ok, is_one, form_tz, form_minute, form_time, parse_form}
use gdo_blaq_homekit.Form.{get_param}
use gdo_blaq_homekit.Opener.{esp_ok, is_ok}
use gdo_blaq_homekit.Control.{Control, Effect, PersistedSchedule, persisted, save_schedule, boot}
use gdo_blaq_homekit.Control.Settings.{
  write_result, ScheduleAnswers, apply_timezone, day_after_edit, publish_schedule,
  set_close_schedule, blob, OlderKeys, load_blob, schedule_load,
}

-- A time below 24:00, and a timezone of the grammar.
pub record IsValid (c : CloseSchedule) : Type 0 where
  pub minute : c.minute < 1440
  pub tz : tz_valid c.tz ≡ true

parse_hhmm-lt : (s : List ℕ) (m : ℕ) → parse_hhmm s ≡ some m → m < 1440
unfolding parse_hhmm
parse_hhmm-lt s m h = ground (arith, h)

form_tz-IsValid :
    (b : Bool) (m : ℕ) (tz : Option (List ℕ)) (c : CloseSchedule)
    → m < 1440
    → form_tz b m tz ≡ form_ok c
    → IsValid c
unfolding form_tz
form_tz-IsValid b m none c lt h = ground (arith, h)
form_tz-IsValid b m (some tz) c lt h = ground (arith, h, lt)

form_time-IsValid :
    (b : Bool) (time tz : Option (List ℕ)) (c : CloseSchedule)
    → form_time b time tz ≡ form_ok c
    → IsValid c
unfolding form_time form_minute
form_time-IsValid b none tz c h = ground (arith, h)
form_time-IsValid b (some t) tz c h = elim (Option-cases (parse_hhmm t)) [
  | inl e ↦ ground (arith, h, e)
  | inr (m, e) ↦ form_tz-IsValid b m tz c (parse_hhmm-lt t m e) (ground (arith, h, e))
]

set_close_schedule-ok :
    (c : CloseSchedule) (a : ScheduleAnswers) (s : Control)
    → IsValid c
    → a.env_set ≡ true
    → write_result a.write ≡ esp_ok
    → let (t, err) = set_close_schedule c a s in
      (err ≡ esp_ok) × (t.close_schedule ≡ c) × (t.close_schedule_last_day ≡ day_after_edit c s)
unfolding set_close_schedule publish_schedule apply_timezone day_after_edit
set_close_schedule-ok c a s v env w =
    (ground (arith, v, env, w), ground (arith, v, env, w), ground (arith, v, env, w))

-- A form that is understood is a schedule that is accepted: where parsing a request body gives a
-- schedule, its time is below 24:00 and its timezone is of the grammar, and if setenv() and the
-- flash succeed, gdo_set_close_schedule() returns ESP_OK and that schedule is the current one.
pub form-accepted :
    (body : List ℕ) (c : CloseSchedule) (a : ScheduleAnswers) (s : Control)
    → parse_form body ≡ form_ok c
    → a.env_set ≡ true
    → write_result a.write ≡ esp_ok
    → IsValid c
      × ((set_close_schedule c a s).1 ≡ esp_ok)
      × ((set_close_schedule c a s).0.close_schedule ≡ c)
form-accepted body c a s h env w =
    let v =
      form_time-IsValid (is_one (get_param body (codes "enabled") 4))
        (get_param body (codes "time") 8) (get_param body (codes "tz") 64) c
        (unfold parse_form in h) in
    let ok = set_close_schedule-ok c a s v env w in (v, ok.0, ok.1)

-- The schedule that was written to NVS last.
abbrev pub last_saved : List Effect → Option PersistedSchedule
last_saved [] = none
last_saved (save_schedule r ∷ es) = some r
last_saved (_ ∷ es) = last_saved es

set_ok-IsValid :
    (c : CloseSchedule) (a : ScheduleAnswers) (s : Control)
    → (set_close_schedule c a s).1 ≡ esp_ok
    → IsValid c
      × ((set_close_schedule c a s).0.close_schedule ≡ c)
      × (last_saved (set_close_schedule c a s).0.trace
          ≡ some (persisted c (set_close_schedule c a s).0.close_schedule_last_day))
unfolding set_close_schedule publish_schedule apply_timezone
set_ok-IsValid c a s h = ground (arith, h)

load-blob :
    (c : CloseSchedule) (day : ℤ) (k : OlderKeys) (env : Bool) (s : Control)
    → IsValid c
    → let u = schedule_load true (blob (persisted c day)) k env s in
      (u.close_schedule ≡ c) × (u.close_schedule_last_day ≡ day)
unfolding schedule_load load_blob apply_timezone
load-blob c day k env s v = (ground (arith, v), ground (arith, v))

-- A schedule survives a restart: where gdo_set_close_schedule() returns ESP_OK, it wrote a record, and
-- loading that at the next start gives the same schedule and the same last day, whatever older keys
-- there are, and also if setenv() then fails.
pub schedule-roundtrip :
    (c : CloseSchedule) (a : ScheduleAnswers) (s : Control) (k : OlderKeys) (env : Bool)
    → (set_close_schedule c a s).1 ≡ esp_ok
    → let t = (set_close_schedule c a s).0 in
      (r : PersistedSchedule) × (last_saved t.trace ≡ some r)
      × (let u = schedule_load true (blob r) k env boot in
          (u.close_schedule ≡ c) × (u.close_schedule_last_day ≡ t.close_schedule_last_day))
schedule-roundtrip c a s k env h =
    let day = (set_close_schedule c a s).0.close_schedule_last_day in
    let (v, same, saved) = set_ok-IsValid c a s h in
    (persisted c day, saved, load-blob c day k env boot v)

-- A refused schedule changes nothing that the closes go by: with an error the schedule, the last day
-- and the generation are as before.
pub set_close_schedule-error :
    (c : CloseSchedule) (a : ScheduleAnswers) (s : Control)
    → is_ok (set_close_schedule c a s).1 ≡ false
    → let t = (set_close_schedule c a s).0 in
      (t.close_schedule ≡ s.close_schedule)
      × (t.close_schedule_last_day ≡ s.close_schedule_last_day)
      × (t.close_generation ≡ s.close_generation)
unfolding set_close_schedule publish_schedule apply_timezone
set_close_schedule-error c a s h = (ground (arith, h), ground (arith, h), ground (arith, h))
