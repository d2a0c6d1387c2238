-- ===== src/Control/Silent/Warnings.antt =====
-- The closes of the firmware (auto_close_warning_complete_cb, sched_close_check and its callback).
use gdo_blaq_homekit.Prelude.{ℕ, Option, arith}
use gdo_blaq_homekit.Prelude.Int.{ℤ}
use gdo_blaq_homekit.Opener.{Esp, Status}
use gdo_blaq_homekit.Control.{Control}
use gdo_blaq_homekit.Control.Warning.{
  SchedAnswers, auto_start, sched_skip, sched_arm, sched_unwind, sched_fire, sched_decide,
  with_opener, with_clock, sched_close_check,
}
use gdo_blaq_homekit.Control.Silent.{Silent}

pub auto_start-Silent : (e : Esp) (now : ℕ) (s : Control) → Silent s (auto_start e now s)
unfolding auto_start
auto_start-Silent e now s = ground arith

sched_skip-Silent : (m : ℕ) (d : ℤ) (s : Control) → Silent s (sched_skip m d s)
unfolding sched_skip
sched_skip-Silent m d s = ground arith

sched_arm-Silent : (d : ℤ) (s : Control) → Silent s (sched_arm d s)
unfolding sched_arm
sched_arm-Silent d s = ground arith

sched_unwind-Silent : (e : Esp) (d : ℤ) (s : Control) → Silent s (sched_unwind e d s)
unfolding sched_unwind
sched_unwind-Silent e d s = ground arith

sched_fire-Silent : (a : SchedAnswers) (d : ℤ) (s : Control) → Silent s (sched_fire a d s)
unfolding sched_fire
sched_fire-Silent a d s = grind (arith, sched_arm-Silent, sched_unwind-Silent)

sched_decide-Silent :
    (a : SchedAnswers) (st : Status) (m : ℕ) (d : ℤ) (s : Control)
    → Silent s (sched_decide a st m d s)
unfolding sched_decide
sched_decide-Silent a st m d s = grind (arith, sched_skip-Silent, sched_fire-Silent)

with_opener-Silent :
    (a : SchedAnswers) (st : Option Status) (m : ℕ) (d : ℤ) (s : Control)
    → Silent s (with_opener a st m d s)
unfolding with_opener
with_opener-Silent a st m d s = grind (arith, sched_decide-Silent)

with_clock-Silent :
    (a : SchedAnswers) (c : Option (ℕ × ℤ)) (s : Control) → Silent s (with_clock a c s)
unfolding with_clock
with_clock-Silent a c s = grind (arith, with_opener-Silent)

pub sched_close_check-Silent : (a : SchedAnswers) (s : Control) → Silent s (sched_close_check a s)
unfolding sched_close_check
sched_close_check-Silent a s = grind (arith, with_clock-Silent)
