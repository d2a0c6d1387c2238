-- ===== src/Control/Silent/Close.antt =====
-- The operations that command the opener to close, and what each has seen before.
use gdo_blaq_homekit.Prelude.{
  subst, sym, ℕ, suc, ◌≡◌, ◌⊎◌, inr, Bool, true, Option, none, some, arith,
}
use gdo_blaq_homekit.Opener.{Esp, Status, clear}
use gdo_blaq_homekit.Control.{Control}
use gdo_blaq_homekit.Control.Command.{
  control_open, control_close, user_close_finish, close_or_cancel, release_slot, close_now,
  close_failed, send_door_request, revert_target, retry_door_request, may_close,
}
use gdo_blaq_homekit.Control.Warning.{auto_warning_done, sched_warning_done}
use gdo_blaq_homekit.Control.Watchdog.{retry_finish}
use gdo_blaq_homekit.Control.Run.{
  Op, user_open, user_close, user_warning_over, opener_event, auto_warning_over, sched_warning_over,
  check_stuck, begin_retry, end_retry, revert_request, check_auto, check_schedule, resend_states,
  set_buzzer_setting, set_timeout_setting, set_enabled_setting, set_schedule_setting, apply,
}
use gdo_blaq_homekit.Control.Silent.{closes}
use gdo_blaq_homekit.Control.Silent.Events.{event_handler-Silent}
use gdo_blaq_homekit.Control.Silent.Warnings.{sched_close_check-Silent}
use gdo_blaq_homekit.Control.Silent.Rounds.{
  stuck_check-Silent, retry_begin-Silent, retry_revert-Silent, auto_check-Silent, resend-Silent,
  set_pre_close_buzzer-Silent, set_auto_close_timeout_ms-Silent, set_auto_close_enabled-Silent,
  set_close_schedule-Silent,
}

-- A status in sync that shows nothing in the way.
abbrev pub ClearAndSynced : Option Status → Type 0
ClearAndSynced none = ⊥
ClearAndSynced (some st) = (st.synced ≡ true) × (st.obstruction ≡ clear)

may_close-ClearAndSynced : (st : Option Status) → may_close st ≡ true → ClearAndSynced st
may_close-ClearAndSynced none h = ground arith
may_close-ClearAndSynced (some st) h = ground arith

-- A close was commanded once, under such a status.
pub record Cleared (st : Option Status) (s t : Control) : Type 0 where
  pub once : closes t.trace ≡ suc (closes s.trace)
  pub clear_and_synced : ClearAndSynced st

abbrev pub Quiet : Control → Control → Type 0
Quiet s t = closes t.trace ≡ closes s.trace

control_open-Quiet : (e : Esp) (s : Control) → Quiet s (control_open e s).0
unfolding control_open
control_open-Quiet e s = ground arith

control_close-Quiet :
    (st : Option Status) (a b : Bool) (s : Control) → Quiet s (control_close st a b s).0
unfolding control_close
control_close-Quiet st a b s = ground arith

pub revert_target-Quiet : (st : Option Status) (s : Control) → Quiet s (revert_target st s)
unfolding revert_target
revert_target-Quiet none s = ground arith
revert_target-Quiet (some st) s = ground arith

pub close_failed-Quiet : (st : Option Status) (s : Control) → Quiet s (close_failed st s)
unfolding close_failed
close_failed-Quiet st s = grind (arith, revert_target-Quiet)

abbrev pub Clears : Option Status → Control → Control → Type 0
Clears st s t = Cleared st s t ⊎ (closes t.trace ≡ closes s.trace)

close_now-Clears :
    (st : Option Status) (e : Esp) (l : Option Status) (s : Control)
    → Clears st s (close_now st e l s)
unfolding close_now send_door_request
close_now-Clears none e l s = grind (arith, close_failed-Quiet)
close_now-Clears (some st) e l s = grind (arith, close_failed-Quiet)

close_or_cancel-Clears :
    (g : ℕ) (st : Option Status) (e : Esp) (l : Option Status) (s : Control)
    → Clears st s (close_or_cancel g st e l s)
unfolding close_or_cancel
close_or_cancel-Clears g st e l s = grind (arith, close_now-Clears, revert_target-Quiet)

user_close_finish-Clears :
    (g : ℕ) (st : Option Status) (e : Esp) (l : Option Status) (s : Control)
    → Clears st s (user_close_finish g st e l s)
unfolding user_close_finish release_slot
user_close_finish-Clears g st e l s = grind (arith, close_or_cancel-Clears)

auto_warning_done-Clears :
    (st : Option Status) (e : Esp) (now : ℕ) (s : Control)
    → Clears st s (auto_warning_done st e now s)
unfolding auto_warning_done
auto_warning_done-Clears none e now s = ground arith
auto_warning_done-Clears (some st) e now s = ground arith

sched_warning_done-Clears :
    (st : Option Status) (e : Esp) (s : Control) → Clears st s (sched_warning_done st e s)
unfolding sched_warning_done
sched_warning_done-Clears none e s = ground arith
sched_warning_done-Clears (some st) e s = ground arith

retry_finish-Clears :
    (st : Status) (g : ℕ) (f : Option Status) (e : Esp) (s : Control)
    → Clears f s (retry_finish st g f f e s)
unfolding retry_finish retry_door_request
retry_finish-Clears st g none e s = ground arith
retry_finish-Clears st g (some f) e s = ground arith

-- The status under which an operation may close the door: the one that it reads under the lock once
-- its warning is over.
abbrev pub seen : Op → Option Status
seen (user_warning_over g st e l) = st
seen (auto_warning_over st e n) = st
seen (sched_warning_over st e) = st
seen (end_retry st g f a e) = f
seen _ = none

-- The two statuses that a retry reads, one after the other under the lock, are the same.
abbrev pub IsSteady : Op → Type 0
IsSteady (end_retry st g f a e) = a ≡ f
IsSteady _ = Unit {0}

-- Every operation, in every state, commands at most one close. It commands one only if the status
-- that it reads after its warning is in sync and shows no obstruction; an operation that reads none
-- then (an event, a check, a new setting, an open) never commands one. It is assumed that the two
-- reads of a retry answer the same.
pub apply-Clears : (op : Op) (s : Control) → IsSteady op → Clears (seen op) s (apply op s)
unfolding apply
apply-Clears (user_open e) s h = inr (control_open-Quiet e s)
apply-Clears (user_close st a t) s h = inr (control_close-Quiet st a t s)
apply-Clears (user_warning_over g st e l) s h = user_close_finish-Clears g st e l s
apply-Clears (opener_event v st a) s h = inr (event_handler-Silent v st a s).no_close
apply-Clears (auto_warning_over st e n) s h = auto_warning_done-Clears st e n s
apply-Clears (sched_warning_over st e) s h = sched_warning_done-Clears st e s
apply-Clears (check_stuck st n l a) s h = inr (stuck_check-Silent st n l a s).no_close
apply-Clears (begin_retry st) s h = inr (retry_begin-Silent st s).no_close
apply-Clears (end_retry st g f a e) s h =
    subst (λ x. Clears f s (retry_finish st g f x e s)) (sym h) (retry_finish-Clears st g f e s)
apply-Clears (revert_request st n) s h = inr (retry_revert-Silent st n s).no_close
apply-Clears (check_auto n st l e f) s h = inr (auto_check-Silent n st l e f s).no_close
apply-Clears (check_schedule a) s h = inr (sched_close_check-Silent a s).no_close
apply-Clears resend_states s h = inr (resend-Silent s).no_close
apply-Clears (set_buzzer_setting b w) s h = inr (set_pre_close_buzzer-Silent b w s).no_close
apply-Clears (set_timeout_setting n w) s h = inr (set_auto_close_timeout_ms-Silent n w s).no_close
apply-Clears (set_enabled_setting b w) s h = inr (set_auto_close_enabled-Silent b w s).no_close
apply-Clears (set_schedule_setting c a) s h = inr (set_close_schedule-Silent c a s).no_close
