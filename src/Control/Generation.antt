-- ===== src/Control/Generation.antt =====
-- The generation counter stands for everything that a pending close depends on: what a step of each
-- handler keeps, and when it moves the generation on.
pub mod Commands
pub mod Doors
pub mod Events
pub mod Warnings
pub mod Rounds
pub mod Runs
use gdo_blaq_homekit.Prelude.{◌+◌, ◌≡◌, ◌⊎◌}
use gdo_blaq_homekit.Opener.{u32}
use gdo_blaq_homekit.Control.{Control}

-- The generation, what it guards, and the clock of the open door are the same in two states.
pub record Held (s t : Control) : Type 0 where
  pub generation : t.close_generation ≡ s.close_generation
  pub door : t.last_door ≡ s.last_door
  pub obstruction : t.last_obstruction ≡ s.last_obstruction
  pub enabled : t.auto_close_enabled ≡ s.auto_close_enabled
  pub timeout : t.auto_close_timeout_ms ≡ s.auto_close_timeout_ms
  pub schedule : t.close_schedule ≡ s.close_schedule
  pub clock : t.door_continuously_open_since_ms ≡ s.door_continuously_open_since_ms

abbrev pub Bumped : Control → Control → Type 0
Bumped s t = t.close_generation ≡ u32 (s.close_generation + 1)

-- A step keeps all that the generation guards, or moves the generation on by one.
abbrev pub Guarded : Control → Control → Type 0
Guarded s t = Held s t ⊎ Bumped s t
