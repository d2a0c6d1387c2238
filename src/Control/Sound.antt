-- ===== src/Control/Sound.antt =====
-- What holds of the control state at any time: the clock of the open door runs for an open door only,
-- and the settings are in range.
pub mod Steps
pub mod Runs
pub mod Start
use gdo_blaq_homekit.Prelude.{ℕ, ◌≤◌, ◌≡◌, ◌||◌, true, ◌==◌, arith}
use gdo_blaq_homekit.Opener.{is_opened}
use gdo_blaq_homekit.Control.{Control}
use gdo_blaq_homekit.Control.Persist.{IsValid}
use gdo_blaq_homekit.Control.Generation.{Held}

pub record IsSound (s : Control) : Type 0 where
  pub clock : (is_opened s.last_door || s.door_continuously_open_since_ms == 0) ≡ true
  pub timeout_low : 60000 ≤ s.auto_close_timeout_ms
  pub timeout_high : s.auto_close_timeout_ms ≤ 86400000
  pub schedule : IsValid s.close_schedule

pub Held-IsSound : {s t : Control} → Held s t → IsSound s → IsSound t
Held-IsSound h v = ground (arith, h, v)
