-- ===== src/HomeKit.antt =====
-- main/homekit.cpp: how the firmware tells HomeKit of the opener's state. A notification waits in a
-- queue for the task that owns the HAP calls; what was last queued is remembered, and is not queued
-- again. Whether xQueueSend() accepts an event is an argument of each call that sends one.
pub mod Told
pub mod Shown
pub mod Delivered
pub mod Writes
pub mod Light
pub mod Session
pub mod Watch
pub mod Tests
use gdo_blaq_homekit.Prelude.{
  ℕ, Bool, true, false, not, ◌&&◌, ◌||◌, if◌then◌else◌, ◌==◌, List, [], ◌∷◌, ◌++◌, Option, none,
  some,
}
use gdo_blaq_homekit.Opener.{
  Esp, is_ok, DoorState, opened, closed, stopped, opening, closing, unset, same_door, LightState,
  light_off, light_on, light_unknown, light_unset, LockState, unlocked, locked, lock_unknown,
  lock_unset, ObstructionState, clear, obstructed, obstruction_unknown, obstruction_unset,
  MotionState, motion_clear, motion_detected, motion_unknown, motion_unset, LearnState,
  learn_inactive, learn_active, learn_unknown, learn_unset,
}

-- `HomeKitNotifDest`.
pub data Dest : Type 0 where
  door_current_state door_target_state lock_current_state lock_target_state : Dest
  obstruction light motion learn : Dest

abbrev pub dest_code : Dest → ℕ
dest_code door_current_state = 0
dest_code door_target_state = 1
dest_code lock_current_state = 2
dest_code lock_target_state = 3
dest_code obstruction = 4
dest_code light = 5
dest_code motion = 6
dest_code learn = 7

-- `GDOEvent`; a `bool` is 0 or 1.
pub record GdoEvent : Type 0 where
  pub dest : Dest
  pub value : ℕ

-- The static variables, the queue (oldest first), and the calls of hap_char_update_val() so far
-- (oldest first).
pub record HomeKit : Type 0 where
  pub queue_ready : Bool
  pub mutex_ready : Bool
  pub learn_supported : Bool
  pub last_light : LightState
  pub last_lock : LockState
  pub last_door : DoorState
  pub last_motion : MotionState
  pub last_obstruction : ObstructionState
  pub last_learn : LearnState
  pub last_target : ℕ
  pub queue : List GdoEvent
  pub updates : List GdoEvent

-- HOMEKIT_TARGET_UNKNOWN.
abbrev pub target_unknown : ℕ
target_unknown = 255

-- The initial values.
abbrev pub boot : HomeKit
boot = record {
  queue_ready = false;
  mutex_ready = false;
  learn_supported = true;
  last_light = light_unset;
  last_lock = lock_unset;
  last_door = unset;
  last_motion = motion_unset;
  last_obstruction = obstruction_unset;
  last_learn = learn_unset;
  last_target = target_unknown;
  queue = [];
  updates = [];
}

-- `homekit_notif_queue_init`; the arguments tell what is created.
unfoldable pub notif_queue_init : Bool → Bool → HomeKit → HomeKit
notif_queue_init mutex queue s = record s {
  mutex_ready = s.mutex_ready || mutex;
  queue_ready = s.queue_ready || queue;
}

-- `gdo_notif_event_q && xQueueSend(…) == pdTRUE`.
abbrev pub sends : Bool → HomeKit → Bool
sends sent s = s.queue_ready && sent

abbrev pub enqueue : Dest → ℕ → HomeKit → HomeKit
enqueue dest value s = record s { queue = s.queue ++ record { dest = dest; value = value } ∷ [] }

-- `map_gdo_to_homekit_state`.
abbrev pub map_gdo_to_homekit_state : DoorState → ℕ
map_gdo_to_homekit_state opened = 0
map_gdo_to_homekit_state closed = 1
map_gdo_to_homekit_state opening = 2
map_gdo_to_homekit_state closing = 3
map_gdo_to_homekit_state _ = 4

-- `queue_homekit_target`; `taken` tells whether the mutex was had within 20 ms.
unfoldable pub queue_homekit_target : ℕ → Bool → Bool → HomeKit → HomeKit × Bool
queue_homekit_target tgt taken sent s =
    if not s.mutex_ready || not taken
    then (s, false)
    else if tgt == s.last_target
    then (s, true)
    else if sends sent s
    then (record (enqueue door_target_state tgt s) { last_target = tgt }, true)
    else (s, false)

-- `notify_homekit_current_door_state_change`.
unfoldable pub notify_current_door : DoorState → Bool → HomeKit → HomeKit
notify_current_door door sent s =
    if same_door door s.last_door
    then s
    else if sends sent s
    then record (enqueue door_current_state (map_gdo_to_homekit_state door) s) { last_door = door }
    else s

-- The numbers of the other states.
abbrev pub light_code : LightState → ℕ
light_code light_off = 0
light_code light_on = 1
light_code light_unknown = 2
light_code light_unset = 3

abbrev pub light_value : LightState → ℕ
light_value light_on = 1
light_value _ = 0

-- `notify_homekit_light`.
unfoldable pub notify_light : LightState → Bool → HomeKit → HomeKit
notify_light new sent s =
    if light_code new == light_code s.last_light
    then s
    else if sends sent s
    then record (enqueue light (light_value new) s) { last_light = new }
    else s

abbrev pub learn_code : LearnState → ℕ
learn_code learn_inactive = 0
learn_code learn_active = 1
learn_code learn_unknown = 2
learn_code learn_unset = 3

abbrev pub learn_value : LearnState → ℕ
learn_value learn_active = 1
learn_value _ = 0

-- `notify_homekit_learn`.
unfoldable pub notify_learn : LearnState → Bool → HomeKit → HomeKit
notify_learn new sent s =
    if not s.learn_supported
    then s
    else if learn_code new == learn_code s.last_learn
    then s
    else if sends sent s
    then record (enqueue learn (learn_value new) s) { last_learn = new }
    else s

abbrev pub obstruction_code : ObstructionState → ℕ
obstruction_code clear = 0
obstruction_code obstructed = 1
obstruction_code obstruction_unknown = 2
obstruction_code obstruction_unset = 3

abbrev pub obstruction_value : ObstructionState → ℕ
obstruction_value obstructed = 1
obstruction_value _ = 0

-- `notify_homekit_obstruction`.
unfoldable pub notify_obstruction : ObstructionState → Bool → HomeKit → HomeKit
notify_obstruction new sent s =
    if obstruction_code new == obstruction_code s.last_obstruction
    then s
    else if sends sent s
    then record (enqueue obstruction (obstruction_value new) s) { last_obstruction = new }
    else s

abbrev pub lock_code : LockState → ℕ
lock_code unlocked = 0
lock_code locked = 1
lock_code lock_unknown = 2
lock_code lock_unset = 3

abbrev pub lock_value : LockState → ℕ
lock_value unlocked = 0
lock_value _ = 1

-- `notify_homekit_current_lock`: the target first; the two sends are answered one by one.
unfoldable pub notify_current_lock : LockState → Bool → Bool → HomeKit → HomeKit
notify_current_lock new sent sent' s =
    if lock_code new == lock_code s.last_lock
    then s
    else if not (sends sent s)
    then s
    else (let t = enqueue lock_target_state (lock_value new) s in
        if sends sent' t
        then record (enqueue lock_current_state (lock_value new) t) { last_lock = new }
        else t)

abbrev pub motion_code : MotionState → ℕ
motion_code motion_clear = 0
motion_code motion_detected = 1
motion_code motion_unknown = 2
motion_code motion_unset = 3

abbrev pub motion_value : MotionState → ℕ
motion_value motion_clear = 0
motion_value _ = 1

-- `notify_homekit_motion`.
unfoldable pub notify_motion : MotionState → Bool → HomeKit → HomeKit
notify_motion new sent s =
    if motion_code new == motion_code s.last_motion
    then s
    else if sends sent s
    then record (enqueue motion (motion_value new) s) { last_motion = new }
    else s

-- The event has a characteristic; Learn has none where the tile is hidden.
abbrev pub has_char : Dest → HomeKit → Bool
has_char learn s = s.learn_supported
has_char _ s = true

-- One round of the loop of `homekit_task_entry`, which waits while the queue is empty.
abbrev pub deliver : List GdoEvent → HomeKit → HomeKit
deliver [] s = s
deliver (e ∷ rest) s =
    if has_char e.dest s
    then record s { queue = rest; updates = s.updates ++ e ∷ [] }
    else record s { queue = rest }

unfoldable pub consume : HomeKit → HomeKit
consume s = deliver s.queue s

-- `learn_supported` turns false where the opener is not known to be on Security+ 2.0.
abbrev pub decide_learn : Bool → HomeKit → HomeKit
decide_learn supported s = record s { learn_supported = s.learn_supported && supported }
