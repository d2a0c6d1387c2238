-- ===== src/Control/Silent/Doors.antt =====
-- Position reports (set_last_door_state, process_door_position).
use gdo_blaq_homekit.Prelude.{ℕ, arith}
use gdo_blaq_homekit.Prelude.Int.{ℤ}
use gdo_blaq_homekit.Opener.{DoorState, Status}
use gdo_blaq_homekit.Control.{Control}
use gdo_blaq_homekit.Control.Door.{
  record_change, track_open, set_last_door_state, push_target_v1, push_transition, push_target_v2,
  start_transition, end_transition, track_transition, show_movement, settle_target, update_homekit,
  process_door_position,
}
use gdo_blaq_homekit.Control.Silent.{Silent}

pub set_last_door_state-Silent :
    (d : DoorState) (now : ℕ) (s : Control) → Silent s (set_last_door_state d now s)
unfolding set_last_door_state record_change track_open
set_last_door_state-Silent d now s = ground arith

pub show_movement-Silent : (d d' : DoorState) (s : Control) → Silent s (show_movement d d' s)
unfolding show_movement
show_movement-Silent d d' s = ground arith

pub settle_target-Silent : (d : DoorState) (p : ℤ) (s : Control) → Silent s (settle_target d p s)
unfolding settle_target
settle_target-Silent d p s = ground arith

pub update_homekit-Silent :
    (st : Status) (d : DoorState) (now : ℕ) (s : Control) → Silent s (update_homekit st d now s)
unfolding update_homekit
update_homekit-Silent st d now s =
    grind (arith, show_movement-Silent, settle_target-Silent, set_last_door_state-Silent)

push_target_v1-Silent :
    (st : Status) (d : DoorState) (s : Control) → Silent s (push_target_v1 st d s)
unfolding push_target_v1
push_target_v1-Silent st d s = ground arith

push_target_v2-Silent : (st : Status) (s : Control) → Silent s (push_target_v2 st s)
unfolding push_target_v2 push_transition
push_target_v2-Silent st s = ground arith

start_transition-Silent :
    (d : DoorState) (raw now : ℕ) (s : Control) → Silent s (start_transition d raw now s)
unfolding start_transition
start_transition-Silent d raw now s = ground arith

end_transition-Silent : (d : DoorState) (raw : ℕ) (s : Control) → Silent s (end_transition d raw s)
unfolding end_transition
end_transition-Silent d raw s = ground arith

track_transition-Silent :
    (d : DoorState) (raw now : ℕ) (s : Control) → Silent s (track_transition d raw now s)
unfolding track_transition
track_transition-Silent d raw now s = grind (arith, start_transition-Silent, end_transition-Silent)

pub process_door_position-Silent :
    (st : Status) (now later : ℕ) (s : Control) → Silent s (process_door_position st now later s)
unfolding process_door_position
process_door_position-Silent st now later s = grind (
  arith, push_target_v1-Silent, push_target_v2-Silent, track_transition-Silent,
  update_homekit-Silent,
)
