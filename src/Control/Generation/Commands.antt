-- ===== src/Control/Generation/Commands.antt =====
-- The commands of the user (gdo_control_open, gdo_control_close, user_close_task).
use gdo_blaq_homekit.Prelude.{ℕ, Bool, Option, none, some, arith}
use gdo_blaq_homekit.Opener.{Esp, Status}
use gdo_blaq_homekit.Control.{Control}
use gdo_blaq_homekit.Control.Command.{
  control_open, control_close, user_close_finish, close_or_cancel, release_slot, close_now,
  close_failed, send_door_request, revert_target,
}
use gdo_blaq_homekit.Control.Generation.{Held, Guarded}

pub control_open-Guarded : (e : Esp) (s : Control) → Guarded s (control_open e s).0
unfolding control_open
control_open-Guarded e s = ground arith

pub control_close-Guarded :
    (st : Option Status) (a b : Bool) (s : Control) → Guarded s (control_close st a b s).0
unfolding control_close
control_close-Guarded st a b s = ground arith

pub revert_target-Held : (st : Option Status) (s : Control) → Held s (revert_target st s)
unfolding revert_target
revert_target-Held none s = ground arith
revert_target-Held (some st) s = ground arith

pub close_failed-Held : (st : Option Status) (s : Control) → Held s (close_failed st s)
unfolding close_failed
close_failed-Held st s = grind (arith, revert_target-Held)

pub close_now-Held :
    (st : Option Status) (e : Esp) (l : Option Status) (s : Control) → Held s (close_now st e l s)
unfolding close_now send_door_request
close_now-Held st e l s = grind (arith, close_failed-Held)

pub close_or_cancel-Held :
    (g : ℕ) (st : Option Status) (e : Esp) (l : Option Status) (s : Control)
    → Held s (close_or_cancel g st e l s)
unfolding close_or_cancel
close_or_cancel-Held g st e l s = grind (arith, close_now-Held, revert_target-Held)

pub user_close_finish-Held :
    (g : ℕ) (st : Option Status) (e : Esp) (l : Option Status) (s : Control)
    → Held s (user_close_finish g st e l s)
unfolding user_close_finish release_slot
user_close_finish-Held g st e l s = grind (arith, close_or_cancel-Held)
