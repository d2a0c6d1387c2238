-- ===== src/Schedule.antt =====
-- main/close_schedule.h: the day arithmetic of the scheduled close, its decision to fire, and the
-- validation of what a user sets. The timezone grammar is in the child `Tz`.
pub mod Tz
pub mod Days
pub mod Window
pub mod Input
pub mod Bytes
pub mod Tests
use gdo_blaq_homekit.Prelude.{
  ℕ, ◌+◌, ◌-◌, ◌*◌, ◌/◌, ◌%◌, ◌^◌, Bool, true, false, not, ◌&&◌, ◌||◌, if◌then◌else◌, ◌==◌, ltb,
  leb, List, [], ◌∷◌, Option, none, some, codes, is_digit, bytes_eq,
}
use gdo_blaq_homekit.Prelude.Int.{
  ℤ, pos, negsuc, ◌+ℤ◌, ◌-ℤ◌, ◌*ℤ◌, pos_part, neg_part, ltb_ℤ, leb_ℤ, eq_ℤ,
}

-- `gdo_close_schedule_t`. `tz` holds the bytes before the NUL of `char tz[64]`.
pub record CloseSchedule : Type 0 where
  pub enabled : Bool
  pub minute : ℕ
  pub tz : List ℕ

abbrev pub window_min : ℕ
window_min = 5

abbrev pub default_min : ℕ
default_min = 23 * 60

abbrev pub default_tz : List ℕ
default_tz = codes "UTC0"

abbrev pub min_valid_epoch : ℕ
min_valid_epoch = 1704067200

-- The quotient of C's `/` by a positive number: it rounds towards 0.
abbrev pub quot : ℤ → ℕ → ℤ
quot (pos n) d = pos (n / d)
quot (negsuc n) d = pos 0 -ℤ pos ((n + 1) / d)

-- `close_schedule_days_from_civil`. The casts to `unsigned` are of numbers that are not negative
-- (`year_of_era` and the month from March on), and no sum passes 32 bits at the years of a
-- `struct tm`, so the arithmetic is written without wrap-around.
abbrev pub era : ℤ → ℤ
era y = quot (if leb_ℤ (pos 0) y then y else y -ℤ pos 399) 400

abbrev pub year_of_era : ℤ → ℕ
year_of_era y = pos_part (y -ℤ era y *ℤ pos 400)

abbrev pub day_of_year : ℕ → ℕ → ℕ
day_of_year month day = (153 * (if ltb 2 month then month - 3 else month + 9) + 2) / 5 + day - 1

abbrev pub day_of_era : ℕ → ℕ → ℕ
day_of_era yoe doy = yoe * 365 + yoe / 4 - yoe / 100 + doy

unfoldable pub days_from_civil : ℤ → ℕ → ℕ → ℤ
days_from_civil year month day =
    let y : ℤ = if leb month 2 then year -ℤ pos 1 else year in
    era y *ℤ pos 146097 +ℤ pos (day_of_era (year_of_era y) (day_of_year month day)) -ℤ pos 719468

-- `close_schedule_window_day`.
unfoldable pub window_day : ℕ → ℤ → ℕ → ℤ
window_day now_min today sched_min = if leb sched_min now_min then today else today -ℤ pos 1

-- Minutes since the scheduled one last began, `unsigned`.
abbrev pub since : ℕ → ℕ → ℕ
since now_min sched_min = (now_min + 1440 - sched_min) % 1440

-- `close_schedule_should_fire`. Its minutes are `uint16_t`, below 1440 where they are subtracted.
unfoldable pub should_fire : Bool → ℤ → ℕ → ℤ → ℕ → ℤ → Bool
should_fire clock_synced door_open_for_ms now_min today sched_min last_fired_day =
    if not clock_synced || leb_ℤ door_open_for_ms (pos 0)
    then false
    else if leb 1440 now_min || leb 1440 sched_min
    then false
    else if leb window_min (since now_min sched_min)
    then false
    else if ltb_ℤ door_open_for_ms (pos ((since now_min sched_min + 1) * 60000))
    then false
    else not (eq_ℤ last_fired_day (window_day now_min today sched_min))

-- The number that two digits write.
abbrev pub two_digits : ℕ → ℕ → ℕ
two_digits a b = (a - b'0') * 10 + (b - b'0')

-- `close_schedule_parse_hhmm`; the caller's pointers are not NULL.
unfoldable pub parse_hhmm : List ℕ → Option ℕ
parse_hhmm (h ∷ h' ∷ c ∷ m ∷ m' ∷ []) =
    if not (c == b':')
    then none
    else if not (is_digit h && is_digit h' && is_digit m && is_digit m')
    then none
    else if ltb 23 (two_digits h h') || ltb 59 (two_digits m m')
    then none
    else some (two_digits h h' * 60 + two_digits m m')
parse_hhmm _ = none
