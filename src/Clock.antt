-- ===== src/Clock.antt =====
-- main/clock_sync.cpp: the local time of the scheduled close. The time, localtime_r() and strftime()
-- are of the C library and of the timezone in the environment, so a time and what they make of it
-- are arguments. clock_sync_start only starts SNTP; clock_sync_apply_timezone stands in
-- Control/Settings.
pub mod Local
pub mod Tests
use gdo_blaq_homekit.Prelude.{
  ℕ, ◌+◌, ◌-◌, ◌*◌, ◌%◌, ◌^◌, Bool, not, if◌then◌else◌, List, Option, none, some, codes, take,
}
use gdo_blaq_homekit.Prelude.Int.{ℤ, pos, ◌+ℤ◌, leb_ℤ, ltb_ℤ}
use gdo_blaq_homekit.Schedule.{min_valid_epoch, days_from_civil}

-- The fields of `struct tm` that are read.
pub record Tm : Type 0 where
  pub min : ℕ
  pub hour : ℕ
  pub mday : ℕ
  pub mon : ℕ
  pub year : ℤ

-- `clock_sync_is_synced`.
abbrev pub is_synced : ℤ → Bool
is_synced now = leb_ℤ (pos min_valid_epoch) now

-- `clock_sync_local_now`, with what it stores; `none` is `false`.
unfoldable pub local_now : (ℤ → Tm) → ℤ → Option (ℕ × ℤ)
local_now localtime now =
    if ltb_ℤ now (pos min_valid_epoch)
    then none
    else (let local = localtime now in
        some (
          (local.hour * 60 + local.min) % 2 ^ 16,
          days_from_civil (local.year +ℤ pos 1900) (local.mon + 1) local.mday,
        ))

-- `clock_sync_format_local` with a buffer of `out_len` bytes; `strftime` gives the text of a time.
unfoldable pub format_local : (ℤ → Tm) → (Tm → List ℕ) → ℕ → ℤ → List ℕ
format_local localtime strftime out_len now =
    if ltb_ℤ now (pos min_valid_epoch)
    then take (out_len - 1) (codes "unsynced")
    else strftime (localtime now)
