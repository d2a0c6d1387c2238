-- ===== src/Opener.antt =====
-- What the firmware sees of an opener through gdolib (a git submodule): the states that the code
-- names, a status report, and the result codes of ESP-IDF calls. No call of gdolib is defined here:
-- what one answers is an argument of the definition that makes it.
use gdo_blaq_homekit.Prelude.{ℕ, suc, ◌-◌, ◌%◌, ◌^◌, Bool, true, false, if◌then◌else◌, ◌==◌, ltb}
use gdo_blaq_homekit.Prelude.Int.{ℤ, pos, negsuc}

-- `esp_err_t`: `esp_ok`, the errors that the code returns or tests, and all others.
pub data Esp : Type 0 where
  esp_ok fail no_mem invalid_arg invalid_state not_supported not_found other : Esp

abbrev pub is_ok : Esp → Bool
is_ok esp_ok = true
is_ok _ = false

-- `gdo_door_state_t`. `unset` is GDO_DOOR_STATE_MAX, `unknown` the value that no code names.
pub data DoorState : Type 0 where
  opened closed stopped opening closing unknown unset : DoorState

abbrev pub door_code : DoorState → ℕ
door_code opened = 0
door_code closed = 1
door_code stopped = 2
door_code opening = 3
door_code closing = 4
door_code unknown = 5
door_code unset = 6

-- `==` of two states.
abbrev pub same_door : DoorState → DoorState → Bool
same_door a b = door_code a == door_code b

abbrev pub is_opened : DoorState → Bool
is_opened opened = true
is_opened _ = false

abbrev pub is_closed : DoorState → Bool
is_closed closed = true
is_closed _ = false

abbrev pub is_unset : DoorState → Bool
is_unset unset = true
is_unset _ = false

-- The other states of a report; `none` stands for the `…_STATE_MAX` of its type.
pub data LightState : Type 0 where
  light_off light_on light_unknown light_unset : LightState

pub data LockState : Type 0 where
  unlocked locked lock_unknown lock_unset : LockState

pub data ObstructionState : Type 0 where
  clear obstructed obstruction_unknown obstruction_unset : ObstructionState

pub data MotionState : Type 0 where
  motion_clear motion_detected motion_unknown motion_unset : MotionState

pub data LearnState : Type 0 where
  learn_inactive learn_active learn_unknown learn_unset : LearnState

abbrev pub is_clear : ObstructionState → Bool
is_clear clear = true
is_clear _ = false

-- `gdo_protocol_type_t`: 0, the three that the code names, and GDO_PROTOCOL_MAX or above.
pub data Protocol : Type 0 where
  undetected v1 v1_smart_panel v2 out_of_range : Protocol

-- `protocol > 0 && protocol < GDO_PROTOCOL_MAX`.
abbrev pub is_real : Protocol → Bool
is_real undetected = false
is_real out_of_range = false
is_real _ = true

abbrev pub is_v1 : Protocol → Bool
is_v1 v1 = true
is_v1 v1_smart_panel = true
is_v1 _ = false

abbrev pub is_v2 : Protocol → Bool
is_v2 v2 = true
is_v2 _ = false

-- The fields of `gdo_status_t` that the firmware reads. A position is an `int32_t`, 0 (open) to
-- 10000 (closed), or -1 where it is not known.
pub record Status : Type 0 where
  pub protocol : Protocol
  pub synced : Bool
  pub toggle_only : Bool
  pub door : DoorState
  pub light : LightState
  pub lock : LockState
  pub obstruction : ObstructionState
  pub motion : MotionState
  pub learn : LearnState
  pub motor_on : Bool
  pub button_pressed : Bool
  pub client_id : ℕ
  pub rolling_code : ℕ
  pub door_position : ℤ
  pub door_target : ℤ
  pub open_ms : ℕ
  pub close_ms : ℕ

-- A `uint32_t` that wraps.
abbrev pub u32 : ℕ → ℕ
u32 n = n % 2 ^ 32

-- The cast of an `int32_t` to `uint32_t`.
abbrev pub u32_of : ℤ → ℕ
u32_of (pos n) = u32 n
u32_of (negsuc n) = u32 (2 ^ 32 - u32 (suc n))

-- `uint32_t raw = door_position; if (raw > 10000) raw = 10000;`
abbrev pub raw_position : ℤ → ℕ
raw_position p = if ltb 10000 (u32_of p) then 10000 else u32_of p

-- homekit_decl.h: TGT_OPEN and TGT_CLOSED.
pub data Target : Type 0 where
  target_open target_closed : Target
