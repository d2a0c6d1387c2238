-- ===== src/Control.antt =====
-- main/gdo-blaq-homekit.cpp: the state behind ControlGuard, and what its handlers do to the outside.
-- The handlers stand in the children, each a function of the state and of what the calls that it
-- makes answer.
pub mod Command
pub mod Door
pub mod Event
pub mod Resync
pub mod Sound
pub mod Round
pub mod Warning
pub mod Watchdog
pub mod Settings
pub mod Run
pub mod Generation
pub mod Silent
pub mod Cancel
pub mod Settle
pub mod SettleTests
pub mod RoundTests
pub mod Persist
pub mod Tests
use Prim.Native.String.{String}
use gdo_blaq_homekit.Prelude.{ℕ, ◌+◌, ◌*◌, Bool, true, false, List, [], ◌∷◌}
use gdo_blaq_homekit.Prelude.Int.{ℤ, pos}
use gdo_blaq_homekit.Schedule.{CloseSchedule, default_min, default_tz}
use gdo_blaq_homekit.Opener.{
  DoorState, LightState, LockState, ObstructionState, MotionState, LearnState, Target, unset,
  light_unset, lock_unset, obstruction_unset, motion_unset, learn_unset, u32,
}

-- `PersistedSchedule`.
pub record PersistedSchedule : Type 0 where
  pub version : ℕ
  pub schedule : CloseSchedule
  pub last_day : ℤ

-- `close_schedule_save`: the record that it writes.
abbrev pub persisted : CloseSchedule → ℤ → PersistedSchedule
persisted schedule day = record { version = 1; schedule = schedule; last_day = day }

-- A call that leaves the file: a command to the opener, a notification to HomeKit, a task that is
-- started, a schedule that is written to NVS, a line of the activity history.
pub data Effect : Type 0 where
  door_open door_close : Effect
  set_rolling_code : ℕ → Effect
  sync : Effect
  save_protocol save_rolling_state : Effect
  notify_current : DoorState → Effect
  notify_target : Target → Effect
  notify_light : LightState → Effect
  notify_lock : LockState → Effect
  notify_obstruction : ObstructionState → Effect
  notify_motion : MotionState → Effect
  notify_learn : LearnState → Effect
  start_user_close : ℕ → Effect
  start_auto_warning start_sched_warning run_warning : Effect
  reset_rx_errors : Effect
  give_synced give_protocol_identified : Effect
  set_buzzer : Bool → Effect
  save_schedule : PersistedSchedule → Effect
  set_timezone : List ℕ → Effect
  activity : String → String → Effect

-- The file's static variables. A time is in ms since boot, and 0 where the code means "none".
pub record Control : Type 0 where
  pub last_light : LightState
  pub last_lock : LockState
  pub last_door : DoorState
  pub last_obstruction : ObstructionState
  pub last_motion : MotionState
  pub last_learn : LearnState
  pub door_open_since_ms : ℕ
  pub door_continuously_open_since_ms : ℕ
  pub auto_close_triggered : Bool
  pub auto_close_timeout_ms : ℕ
  pub auto_close_enabled : Bool
  pub close_schedule : CloseSchedule
  pub close_schedule_last_day : ℤ
  pub sched_close_generation : ℕ
  pub sched_close_command_id : ℕ
  pub sched_close_pending : Bool
  pub sync_retry_count : ℕ
  pub sync_first_failure_ms : ℕ
  pub pairing_fault : Bool
  pub protocol_identified : Bool
  pub door_in_transition : Bool
  pub transition_start_ms : ℕ
  pub transition_target : DoorState
  pub transition_start_raw : ℕ
  pub close_generation : ℕ
  pub auto_close_generation : ℕ
  pub auto_close_command_id : ℕ
  pub user_close_pending : Bool
  pub user_close_pending_generation : ℕ
  pub door_command_id : ℕ
  -- What was done so far, newest first.
  pub trace : List Effect

abbrev pub default_timeout_ms : ℕ
default_timeout_ms = 60 * 60 * 1000

-- The initial values.
abbrev pub boot : Control
boot = record {
  last_light = light_unset;
  last_lock = lock_unset;
  last_door = unset;
  last_obstruction = obstruction_unset;
  last_motion = motion_unset;
  last_learn = learn_unset;
  door_open_since_ms = 0;
  door_continuously_open_since_ms = 0;
  auto_close_triggered = false;
  auto_close_timeout_ms = default_timeout_ms;
  auto_close_enabled = false;
  close_schedule = record { enabled = false; minute = default_min; tz = default_tz };
  close_schedule_last_day = pos 0;
  sched_close_generation = 0;
  sched_close_command_id = 0;
  sched_close_pending = false;
  sync_retry_count = 0;
  sync_first_failure_ms = 0;
  pairing_fault = false;
  protocol_identified = false;
  door_in_transition = false;
  transition_start_ms = 0;
  transition_target = unset;
  transition_start_raw = 0;
  close_generation = 0;
  auto_close_generation = 0;
  auto_close_command_id = 0;
  user_close_pending = false;
  user_close_pending_generation = 0;
  door_command_id = 0;
  trace = [];
}

abbrev pub emit : Effect → Control → Control
emit e s = record s { trace = e ∷ s.trace }

-- `++s_close_generation`: whatever is armed for an older generation is cancelled.
abbrev pub bump : Control → Control
bump s = record s { close_generation = u32 (s.close_generation + 1) }
