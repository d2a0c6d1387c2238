-- ===== src/Clock/Local.antt =====
-- A clock that is not synced shows it, and arms no scheduled close; one that is gives a minute of the
-- day.
use gdo_blaq_homekit.Prelude.{
  ℕ, ◌+◌, ◌*◌, ◌%◌, ◌^◌, ◌<◌, ◌≡◌, refl, ap, true, false, if◌then◌else◌, List, some, codes, arith,
}
use gdo_blaq_homekit.Prelude.Int.{ℤ, pos, ltb_ℤ, ◌+ℤ◌}
use gdo_blaq_homekit.Schedule.{min_valid_epoch, days_from_civil}
use gdo_blaq_homekit.Control.{Control, activity, emit}
use gdo_blaq_homekit.Control.Warning.{SchedAnswers, with_clock, sched_close_check}
use gdo_blaq_homekit.Clock.{Tm, is_synced, local_now, format_local}

ltb_leb : (now : ℤ) → is_synced now ≡ false → ltb_ℤ now (pos min_valid_epoch) ≡ true
ltb_leb now h = ground (arith, h)

leb_ltb : (now : ℤ) → is_synced now ≡ true → ltb_ℤ now (pos min_valid_epoch) ≡ false
leb_ltb now h = ground (arith, h)

-- A scheduled close waits for the clock: while clock_sync_is_synced() is false, whatever
-- localtime_r() would give, the check of the schedule does nothing but to write a line of the
-- activity history, where the schedule is on, and the page shows `unsynced`.
pub unsynced_arms_nothing :
    (localtime : ℤ → Tm) (strftime : Tm → List ℕ) (now : ℤ) (a : SchedAnswers) (s : Control)
    → is_synced now ≡ false
    → (sched_close_check (record a { local_now = local_now localtime now }) s ≡ (
        if s.close_schedule.enabled
        then emit (activity "schedule" "Skipped: clock unsynced") s
        else s))
      × (format_local localtime strftime 24 now ≡ codes "unsynced")
unfolding sched_close_check with_clock local_now format_local
unsynced_arms_nothing localtime strftime now a s h =
    let early = ltb_leb now h in (rw early refl, rw early refl)

-- The fields of a `struct tm` are in range.
pub record IsLocal (t : Tm) : Type 0 where
  pub min : t.min < 60
  pub hour : t.hour < 24

-- A synced clock gives the local minute of the day, below 1440, and the number of the local civil day.
pub synced_gives_minute :
    (localtime : ℤ → Tm) (now : ℤ)
    → is_synced now ≡ true
    → IsLocal (localtime now)
    → let t = localtime now in
      (local_now localtime now
        ≡ some (t.hour * 60 + t.min, days_from_civil (t.year +ℤ pos 1900) (t.mon + 1) t.mday))
      × (t.hour * 60 + t.min < 1440)
unfolding local_now
synced_gives_minute localtime now h v =
    let late = leb_ltb now h in
    let t = localtime now in
    let day = days_from_civil (t.year +ℤ pos 1900) (t.mon + 1) t.mday in
    let minute : (t.hour * 60 + t.min) % 2 ^ 16 ≡ t.hour * 60 + t.min =
      omega (arith, v.min, v.hour) in
    (rw late (ap (λ m. some (m, day)) minute), omega (arith, v.min, v.hour))
