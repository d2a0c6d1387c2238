-- ===== src/Clock/Tests.antt =====
-- Tests of the local time, with a localtime_r() that answers 23:01 on 1 July 2024.
use gdo_blaq_homekit.Prelude.{◌≡◌, refl, true, none, some, codes}
use gdo_blaq_homekit.Prelude.Int.{ℤ, pos, ◌-ℤ◌, ◌+ℤ◌, ◌*ℤ◌}
use gdo_blaq_homekit.Schedule.{default_tz, days_from_civil}
use gdo_blaq_homekit.Opener.{esp_ok}
use gdo_blaq_homekit.Control.{boot, activity, emit, Control}
use gdo_blaq_homekit.Control.Warning.{SchedAnswers, sched_close_check}
use gdo_blaq_homekit.Clock.{Tm, local_now, format_local}
use gdo_blaq_homekit.Clock.Local.{unsynced_arms_nothing}

abbrev evening : ℤ → Tm
evening now = record { min = 1; hour = 23; mday = 1; mon = 6; year = pos 124 }

abbrev answers : SchedAnswers
answers = record {
  local_now = none;
  status = none;
  now = 5000;
  saved = esp_ok;
  started = esp_ok;
  undone = esp_ok;
}

abbrev scheduled : Control
scheduled = record boot {
  close_schedule = record { enabled = true; minute = 1380; tz = default_tz };
}

unsynced_arms_nothing_at_input :
    (sched_close_check (record answers { local_now = local_now evening (pos 12) }) scheduled
      ≡ emit (activity "schedule" "Skipped: clock unsynced") scheduled)
    × (format_local evening (λ t. codes "2024-07-01 23:01") 24 (pos 12) ≡ codes "unsynced")
unsynced_arms_nothing_at_input =
    unsynced_arms_nothing evening (λ t. codes "2024-07-01 23:01") (pos 12) answers scheduled refl

local_minute_and_day : local_now evening (pos 1_719_874_860) ≡ some (1381, pos 19905)
unfolding local_now days_from_civil ◌-ℤ◌ ◌+ℤ◌ ◌*ℤ◌
local_minute_and_day = refl
