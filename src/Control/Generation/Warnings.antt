-- ===== src/Control/Generation/Warnings.antt =====
-- The closes of the firmware (auto_close_warning_complete_cb, sched_close_check and its callback).
use gdo_blaq_homekit.Prelude.{ℕ, Option, arith}
use gdo_blaq_homekit.Prelude.Int.{ℤ}
use gdo_blaq_homekit.Opener.{Esp, Status}
use gdo_blaq_homekit.Control.{Control}
use gdo_blaq_homekit.Control.Warning.{
  SchedAnswers, auto_warning_done, sched_warning_done, auto_start, sched_skip, sched_arm,
  sched_unwind, sched_fire, sched_decide, with_opener, with_clock, sched_close_check,
}
use gdo_blaq_homekit.Control.Generation.{Held}

pub auto_warning_done-Held :
    (st : Option Status) (e : Esp) (now : ℕ) (s : Control) → Held s (auto_warning_done st e now s)
unfolding auto_warning_done
auto_warning_done-Held st e now s = ground arith

pub sched_warning_done-Held :
    (st : Option Status) (e : Esp) (s : Control) → Held s (sched_warning_done st e s)
unfolding sched_warning_done
sched_warning_done-Held st e s = ground arith

pub auto_start-Held : (e : Esp) (now : ℕ) (s : Control) → Held s (auto_start e now s)
unfolding auto_start
auto_start-Held e now s = ground arith

sched_skip-Held : (m : ℕ) (d : ℤ) (s : Control) → Held s (sched_skip m d s)
unfolding sched_skip
sched_skip-Held m d s = ground arith

sched_arm-Held : (d : ℤ) (s : Control) → Held s (sched_arm d s)
unfolding sched_arm
sched_arm-Held d s = ground arith

sched_unwind-Held : (e : Esp) (d : ℤ) (s : Control) → Held s (sched_unwind e d s)
unfolding sched_unwind
sched_unwind-Held e d s = ground arith

sched_fire-Held : (a : SchedAnswers) (d : ℤ) (s : Control) → Held s (sched_fire a d s)
unfolding sched_fire
sched_fire-Held a d s = grind (arith, sched_arm-Held, sched_unwind-Held)

sched_decide-Held :
    (a : SchedAnswers) (st : Status) (m : ℕ) (d : ℤ) (s : Control)
    → Held s (sched_decide a st m d s)
unfolding sched_decide
sched_decide-Held a st m d s = grind (arith, sched_skip-Held, sched_fire-Held)

with_opener-Held :
    (a : SchedAnswers) (st : Option Status) (m : ℕ) (d : ℤ) (s : Control)
    → Held s (with_opener a st m d s)
unfolding with_opener
with_opener-Held a st m d s = grind (arith, sched_decide-Held)

with_clock-Held : (a : SchedAnswers) (c : Option (ℕ × ℤ)) (s : Control) → Held s (with_clock a c s)
unfolding with_clock
with_clock-Held a c s = grind (arith, with_opener-Held)

pub sched_close_check-Held : (a : SchedAnswers) (s : Control) → Held s (sched_close_check a s)
unfolding sched_close_check
sched_close_check-Held a s = grind (arith, with_clock-Held)
