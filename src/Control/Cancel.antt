-- ===== src/Control/Cancel.antt =====
-- What a pending close of the user, of the auto-close and of the schedule comes to.
use gdo_blaq_homekit.Prelude.{
  ℕ, suc, ◌+◌, ◌^◌, ◌<◌, ◌≤◌, ◌≡◌, ◌≢◌, ◌↔◌, inl, inr, Bool, true, false, ◌&&◌, ◌==◌, if◌then◌else◌,
  refl, List, ◌∷◌, Option, none, some, length, arith,
}
use gdo_blaq_homekit.Opener.{Esp, esp_ok, Status, opened, clear, u32}
use gdo_blaq_homekit.Control.{Control, activity, start_user_close}
use gdo_blaq_homekit.Control.Command.{
  control_close, already_closed, user_close_finish, close_or_cancel, release_slot, close_now,
  send_door_request, may_close, control_open,
}
use gdo_blaq_homekit.Control.Event.{button, Answers, event_handler, dispatch, identify_protocol}
use gdo_blaq_homekit.Control.Warning.{auto_warning_done, sched_warning_done}
use gdo_blaq_homekit.Control.Run.{Op, user_open, opener_event, apply, run}
use gdo_blaq_homekit.Control.Generation.{Held, Bumped, Guarded}
use gdo_blaq_homekit.Control.Generation.Runs.{apply-Guarded, steps-run}
use gdo_blaq_homekit.Control.Silent.{closes}
use gdo_blaq_homekit.Control.Silent.Close.{revert_target-Quiet, close_failed-Quiet}

-- The operations that cancel a pending close.
pub data Cancels (s : Control) : Op → Type 0 where
  by_open : (e : Esp) → Cancels s (user_open e)
  by_button :
      (st : Status) (a : Answers) → st.button_pressed ≡ true → Cancels s (opener_event button st a)
  by_door : (op : Op) → (apply op s).last_door ≢ s.last_door → Cancels s op
  by_obstruction : (op : Op) → (apply op s).last_obstruction ≢ s.last_obstruction → Cancels s op
  by_timeout :
      (op : Op) → (apply op s).auto_close_timeout_ms ≢ s.auto_close_timeout_ms → Cancels s op
  by_enable : (op : Op) → (apply op s).auto_close_enabled ≢ s.auto_close_enabled → Cancels s op
  by_schedule : (op : Op) → (apply op s).close_schedule ≢ s.close_schedule → Cancels s op

open-Bumped : (e : Esp) (s : Control) → Bumped s (apply (user_open e) s)
unfolding apply control_open
open-Bumped e s = ground arith

button-Bumped :
    (st : Status) (a : Answers) (s : Control)
    → st.button_pressed ≡ true
    → Bumped s (apply (opener_event button st a) s)
unfolding apply event_handler dispatch identify_protocol
button-Bumped st a s h = ground arith

not-Held : {s t : Control} → Guarded s t → (Held s t → ⊥) → Bumped s t
not-Held (inl h) n = absurd (n h)
not-Held (inr b) n = b

Cancels-Bumped : {s : Control} {op : Op} → Cancels s op → Bumped s (apply op s)
Cancels-Bumped {s} (by_open e) = open-Bumped e s
Cancels-Bumped {s} (by_button st a h) = button-Bumped st a s h
Cancels-Bumped {s} (by_door op h) = not-Held (apply-Guarded op s) (λ k. h k.door)
Cancels-Bumped {s} (by_obstruction op h) = not-Held (apply-Guarded op s) (λ k. h k.obstruction)
Cancels-Bumped {s} (by_timeout op h) = not-Held (apply-Guarded op s) (λ k. h k.timeout)
Cancels-Bumped {s} (by_enable op h) = not-Held (apply-Guarded op s) (λ k. h k.enabled)
Cancels-Bumped {s} (by_schedule op h) = not-Held (apply-Guarded op s) (λ k. h k.schedule)

run-below :
    (ops : List Op) (s : Control)
    → s.close_generation < 2 ^ 32
    → (run ops s).close_generation < 2 ^ 32
run-below ops s h = let (n, le, m) = steps-run ops s h in omega (arith, m.on)

-- A generation that was left does not come back within 2^32 operations.
cancelled_generation :
    (before after : List Op) (op : Op) (s : Control)
    → s.close_generation < 2 ^ 32
    → Cancels (run before s) op
    → length before + length after + 1 < 2 ^ 32
    → s.close_generation ≢ (run after (apply op (run before s))).close_generation
cancelled_generation before after op s h c short =
    let t = run before s in
    let b = Cancels-Bumped c in
    let (n, le, m) = steps-run before s h in
    let (k, le', m') = steps-run after (apply op t) (omega (arith, b)) in
    λ e. absurd (omega (arith, m.on, m'.on, b, e))

-- The number of closes after a decision.
abbrev one_if : Bool → Control → ℕ
one_if b s = if b then suc (closes s.trace) else closes s.trace

closes-close_now :
    (st : Option Status) (e : Esp) (l : Option Status) (s : Control)
    → closes (close_now st e l s).trace ≡ one_if (may_close st) s
unfolding close_now send_door_request
closes-close_now st e l s = grind (arith, close_failed-Quiet)

closes-close_or_cancel :
    (g : ℕ) (st : Option Status) (e : Esp) (l : Option Status) (s : Control)
    → closes (close_or_cancel g st e l s).trace
      ≡ one_if ((g == s.close_generation) && may_close st) s
unfolding close_or_cancel
closes-close_or_cancel g st e l s = grind (arith, closes-close_now, revert_target-Quiet)

-- When its warning is over, a close of the user is sent, exactly once, if the generation is still
-- the one that it was armed for and the status that it reads is in sync and shows no obstruction,
-- and is not sent otherwise.
pub closes-user_close_finish :
    (g : ℕ) (st : Option Status) (e : Esp) (l : Option Status) (s : Control)
    → closes (user_close_finish g st e l s).trace
      ≡ (if (g == s.close_generation) && may_close st then suc (closes s.trace) else closes s.trace)
unfolding user_close_finish release_slot
closes-user_close_finish g st e l s = grind (arith, closes-close_or_cancel)

-- What the auto-close asks for once its warning is over.
pub record AutoWanted (st : Status) (s : Control) : Type 0 where
  pub synced : st.synced ≡ true
  pub door : st.door ≡ opened
  pub obstruction : st.obstruction ≡ clear
  pub never_seen : s.last_obstruction ≡ clear
  pub enabled : s.auto_close_enabled ≡ true
  pub generation : s.auto_close_generation ≡ s.close_generation
  pub command : s.auto_close_command_id ≡ s.door_command_id

-- When its warning is over, the auto-close commands one close at most. It commands one exactly if
-- the status that it reads is in sync, open and clear, the last obstruction event was clear, the
-- auto-close is on, and neither the generation nor the number of the latest command has changed
-- since it was armed. An unreadable status never closes.
pub auto_close_sent_iff :
    (st : Status) (e : Esp) (now : ℕ) (s : Control)
    → ((closes (auto_warning_done (some st) e now s).trace ≡ suc (closes s.trace))
        ↔ AutoWanted st s)
      × (closes (auto_warning_done (some st) e now s).trace ≤ suc (closes s.trace))
      × (closes (auto_warning_done none e now s).trace ≡ closes s.trace)
unfolding auto_warning_done
auto_close_sent_iff st e now s = (ground arith, ground arith, ground arith)

-- What the scheduled close asks for once its warning is over.
pub record SchedWanted (st : Status) (s : Control) : Type 0 where
  pub synced : st.synced ≡ true
  pub door : st.door ≡ opened
  pub obstruction : st.obstruction ≡ clear
  pub never_seen : s.last_obstruction ≡ clear
  pub enabled : s.close_schedule.enabled ≡ true
  pub generation : s.sched_close_generation ≡ s.close_generation
  pub command : s.sched_close_command_id ≡ s.door_command_id

-- When its warning is over, the scheduled close commands one close at most. It commands one exactly
-- if the status that it reads is in sync, open and clear, the last obstruction event was clear, the
-- schedule is on, and neither the generation nor the number of the latest command has changed
-- since it was armed; in every case it is no longer pending.
pub sched_close_sent_iff :
    (st : Status) (e : Esp) (s : Control)
    → ((closes (sched_warning_done (some st) e s).trace ≡ suc (closes s.trace)) ↔ SchedWanted st s)
      × (closes (sched_warning_done (some st) e s).trace ≤ suc (closes s.trace))
      × (closes (sched_warning_done none e s).trace ≡ closes s.trace)
      × ((sched_warning_done (some st) e s).sched_close_pending ≡ false)
      × ((sched_warning_done none e s).sched_close_pending ≡ false)
unfolding sched_warning_done
sched_close_sent_iff st e s = (ground arith, ground arith, ground arith, ground arith, ground arith)

-- A close armed for the generation of a state is never sent once an operation after it has
-- cancelled it: an open, a press of a button, or any change of the door state, the obstruction, the
-- auto-close settings or the schedule, whatever fewer than 2^32 operations come before and after,
-- and whatever the opener reports in the end.
pub cancelled_close_never_sent :
    (before after : List Op) (op : Op) (s : Control) (st : Option Status) (e : Esp)
    (later : Option Status)
    → s.close_generation < 2 ^ 32
    → Cancels (run before s) op
    → length before + length after + 1 < 2 ^ 32
    → let t = run after (apply op (run before s)) in
      closes (user_close_finish s.close_generation st e later t).trace ≡ closes t.trace
cancelled_close_never_sent before after op s st e later h c short =
    let t = run after (apply op (run before s)) in
    ground (
      arith,
      closes-user_close_finish s.close_generation st e later t,
      cancelled_generation before after op s h c short,
    )

-- What gdo_control_close() does when it accepts: the generation moves on, and the task of the
-- warning is started for it, which is the only call before the line of the history.
record Armed (s t : Control) (err : Esp) : Type 0 where
  answer : err ≡ esp_ok
  generation : t.close_generation ≡ u32 (s.close_generation + 1)
  calls :
      t.trace
      ≡ activity "HomeKit" "Close warning started"
        ∷ start_user_close (u32 (s.close_generation + 1))
        ∷ s.trace

control_close-Armed :
    (st : Option Status) (s : Control)
    → (s.user_close_pending && s.user_close_pending_generation == s.close_generation) ≡ false
    → already_closed st s ≡ false
    → let (t, err) = control_close st true true s in Armed s t err
unfolding control_close
control_close-Armed st s idle away = record {
  answer = rw (idle, away) refl;
  generation = rw (idle, away) refl;
  calls = rw (idle, away) refl;
}

-- An accepted close that nothing cancels is sent: where no warning is pending for the generation, the
-- door is not closed already, and the memory and the task are there, gdo_control_close() returns
-- ESP_OK and starts the warning task for the next generation; and if the operations that follow
-- leave the generation as it is, that task sends exactly one close when the opener is then in sync
-- and clear.
pub accepted_close_is_sent :
    (st : Option Status) (ops : List Op) (s : Control) (now later : Option Status) (e : Esp)
    → (s.user_close_pending && s.user_close_pending_generation == s.close_generation) ≡ false
    → already_closed st s ≡ false
    → (run ops (control_close st true true s).0).close_generation ≡ u32 (s.close_generation + 1)
    → may_close now ≡ true
    → let (t, err) = control_close st true true s in
      let generation = u32 (s.close_generation + 1) in
      (err ≡ esp_ok)
      × (t.trace
          ≡ activity "HomeKit" "Close warning started" ∷ start_user_close generation ∷ s.trace)
      × (closes (user_close_finish generation now e later (run ops t)).trace
          ≡ suc (closes (run ops t).trace))
accepted_close_is_sent st ops s now later e idle away same may =
    let t = (control_close st true true s).0 in
    let armed = control_close-Armed st s idle away in
    let generation = u32 (s.close_generation + 1) in
    (
      armed.answer,
      armed.calls,
      ground (arith, same, may, closes-user_close_finish generation now e later (run ops t)),
    )
