-- ===== src/Schedule/Tests.antt =====
-- Tests and witnesses for the schedule.
use gdo_blaq_homekit.Schedule.Days.{days_from_civil-next_day}
use gdo_blaq_homekit.Schedule.Window.{
  MayFire, should_fire_iff, fires_only_if_open_before, instant, fires_once_a_window,
}
use gdo_blaq_homekit.Prelude.{◌+◌, ◌≤◌, ◌↔◌, arith, ◌≡◌, refl, codes, true, false}
use gdo_blaq_homekit.Prelude.Int.{pos, negsuc, ◌+ℤ◌, ◌-ℤ◌, ◌*ℤ◌, ◌≤ℤ◌}
use gdo_blaq_homekit.Form.{get_param}
use gdo_blaq_homekit.Schedule.{parse_hhmm, days_from_civil, should_fire, window_day}
use gdo_blaq_homekit.Schedule.Tz.{tz_valid}
use gdo_blaq_homekit.Schedule.Input.{form_ok, form_tz, form_minute, form_time, parse_form}

epoch_day : days_from_civil (pos 1970) 1 1 ≡ pos 0
unfolding days_from_civil ◌+ℤ◌ ◌-ℤ◌ ◌*ℤ◌
epoch_day = refl

leap_day : days_from_civil (pos 2024) 2 29 ≡ pos 19782
unfolding days_from_civil ◌+ℤ◌ ◌-ℤ◌ ◌*ℤ◌
leap_day = refl

before_epoch : days_from_civil (pos 1969) 12 31 ≡ negsuc 0
unfolding days_from_civil ◌+ℤ◌ ◌-ℤ◌ ◌*ℤ◌
before_epoch = refl

pacific : tz_valid (codes "PST8PDT,M3.2.0,M11.1.0/2:30") ≡ true
unfolding tz_valid
pacific = refl

quoted : tz_valid (codes "<+0530>-5:30") ≡ true
unfolding tz_valid
quoted = refl

no_offset : tz_valid (codes "EST") ≡ false
unfolding tz_valid
no_offset = refl

long_name : tz_valid (codes "America/New_York") ≡ false
unfolding tz_valid
long_name = refl

new_york :
    parse_form (codes "enabled=1&time=23%3A00&tz=EST5EDT")
    ≡ form_ok (record { enabled = true; minute = 1380; tz = codes "EST5EDT" })
unfolding parse_form form_time form_minute form_tz get_param parse_hhmm tz_valid
new_york = refl

-- 23:02, the schedule at 23:00, the door open for ten minutes, day 20000 not fired.
fires : should_fire true (pos 600000) 1382 (pos 20000) 1380 (pos 19999) ≡ true
unfolding should_fire window_day
fires = refl

should_fire_iff_example :
    (should_fire true (pos 600000) 1382 (pos 20000) 1380 (pos 19999) ≡ true)
    ↔ MayFire true (pos 600000) 1382 (pos 20000) 1380 (pos 19999)
should_fire_iff_example = should_fire_iff true (pos 600000) 1382 (pos 20000) 1380 (pos 19999)

fires_only_if_open_before_at_input : pos 150001 ≤ℤ pos 600000
fires_only_if_open_before_at_input =
    fires_only_if_open_before true (pos 600000) 1382 (pos 20000) 1380 (pos 19999) 150000 fires
      (omega arith)

fires_next_night :
    should_fire true (pos 600000) 1381 (pos 20001) 1380 (window_day 1382 (pos 20000) 1380) ≡ true
unfolding should_fire window_day
fires_next_night = refl

fires_once_a_window_example : instant 20000 1382 + 1436 ≤ instant 20001 1381
fires_once_a_window_example =
    fires_once_a_window (pos 600000) (pos 600000) 1382 1381 20000 20001 1380 (pos 19999) fires
      (omega arith) fires_next_night

-- The last day of February 2024.
days_from_civil-next_day_example :
    days_from_civil (pos 2024) 3 1 ≡ days_from_civil (pos 2024) 2 29 +ℤ pos 1
days_from_civil-next_day_example =
    days_from_civil-next_day 2024 2 29 (omega arith) (omega arith) (omega arith) (omega arith)
      (omega arith)
