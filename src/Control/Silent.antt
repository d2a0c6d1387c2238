-- ===== src/Control/Silent.antt =====
-- Which handlers never command the door.
pub mod Doors
pub mod Events
pub mod Warnings
pub mod Rounds
pub mod Close
use gdo_blaq_homekit.Prelude.{ℕ, ◌+◌, ◌≡◌, List, [], ◌∷◌}
use gdo_blaq_homekit.Control.{Control, Effect, door_open, door_close}

abbrev pub is_command : Effect → ℕ
is_command door_open = 1
is_command door_close = 1
is_command _ = 0

abbrev pub is_close : Effect → ℕ
is_close door_close = 1
is_close _ = 0

-- The commands, and the closes among them, that a trace holds.
abbrev pub commands : List Effect → ℕ
commands [] = 0
commands (e ∷ es) = is_command e + commands es

abbrev pub closes : List Effect → ℕ
closes [] = 0
closes (e ∷ es) = is_close e + closes es

-- A step sends the opener no command.
pub record Silent (s t : Control) : Type 0 where
  pub no_command : commands t.trace ≡ commands s.trace
  pub no_close : closes t.trace ≡ closes s.trace
