-- ===== src/Control/Generation/Doors.antt =====
-- Position reports (set_last_door_state, process_door_position).
use gdo_blaq_homekit.Prelude.{ℕ, arith}
use gdo_blaq_homekit.Prelude.Int.{ℤ}
use gdo_blaq_homekit.Opener.{DoorState, Status}
use gdo_blaq_homekit.Control.{Control}
use gdo_blaq_homekit.Control.Door.{
  record_change, track_open, set_last_door_state, push_target_v1, push_transition, push_target_v2,
  start_transition, end_transition, track_transition, show_movement, settle_target, update_homekit,
  process_door_position,
}
use gdo_blaq_homekit.Control.Generation.{Held, Guarded}

pub set_last_door_state-Guarded :
    (d : DoorState) (now : ℕ) (s : Control) → Guarded s (set_last_door_state d now s)
unfolding set_last_door_state record_change track_open
set_last_door_state-Guarded d now s = ground arith

pub show_movement-Held : (d d' : DoorState) (s : Control) → Held s (show_movement d d' s)
unfolding show_movement
show_movement-Held d d' s = ground arith

pub settle_target-Held : (d : DoorState) (p : ℤ) (s : Control) → Held s (settle_target d p s)
unfolding settle_target
settle_target-Held d p s = ground arith

pub update_homekit-Guarded :
    (st : Status) (d : DoorState) (now : ℕ) (s : Control) → Guarded s (update_homekit st d now s)
unfolding update_homekit
update_homekit-Guarded st d now s =
    grind (arith, show_movement-Held, settle_target-Held, set_last_door_state-Guarded)

pub push_target_v1-Held :
    (st : Status) (d : DoorState) (s : Control) → Held s (push_target_v1 st d s)
unfolding push_target_v1
push_target_v1-Held st d s = ground arith

pub push_target_v2-Held : (st : Status) (s : Control) → Held s (push_target_v2 st s)
unfolding push_target_v2 push_transition
push_target_v2-Held st s = ground arith

start_transition-Held :
    (d : DoorState) (raw now : ℕ) (s : Control) → Held s (start_transition d raw now s)
unfolding start_transition
start_transition-Held d raw now s = ground arith

end_transition-Held : (d : DoorState) (raw : ℕ) (s : Control) → Held s (end_transition d raw s)
unfolding end_transition
end_transition-Held d raw s = ground arith

pub track_transition-Held :
    (d : DoorState) (raw now : ℕ) (s : Control) → Held s (track_transition d raw now s)
unfolding track_transition
track_transition-Held d raw now s = grind (arith, start_transition-Held, end_transition-Held)

pub process_door_position-Guarded :
    (st : Status) (now later : ℕ) (s : Control) → Guarded s (process_door_position st now later s)
unfolding process_door_position
process_door_position-Guarded st now later s =
    grind (
      arith, push_target_v1-Held, push_target_v2-Held, track_transition-Held,
      update_homekit-Guarded,
    )
