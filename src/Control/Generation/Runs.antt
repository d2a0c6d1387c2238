-- ===== src/Control/Generation/Runs.antt =====
-- Any sequence of operations.
use gdo_blaq_homekit.Prelude.{
  ℕ, suc, ◌+◌, ◌^◌, ◌≤◌, ◌<◌, ◌≡◌, inl, inr, List, [], ◌∷◌, length, arith,
}
use gdo_blaq_homekit.Opener.{u32}
use gdo_blaq_homekit.Control.{Control}
use gdo_blaq_homekit.Control.Run.{
  Op, user_open, user_close, user_warning_over, opener_event, auto_warning_over, sched_warning_over,
  check_stuck, begin_retry, end_retry, revert_request, check_auto, check_schedule, resend_states,
  set_buzzer_setting, set_timeout_setting, set_enabled_setting, set_schedule_setting, apply, run,
}
use gdo_blaq_homekit.Control.Generation.{Held, Guarded}
use gdo_blaq_homekit.Control.Generation.Commands.{
  control_open-Guarded, control_close-Guarded, user_close_finish-Held,
}
use gdo_blaq_homekit.Control.Generation.Events.{event_handler-Guarded}
use gdo_blaq_homekit.Control.Generation.Warnings.{
  auto_warning_done-Held, sched_warning_done-Held, sched_close_check-Held,
}
use gdo_blaq_homekit.Control.Generation.Rounds.{
  stuck_check-Guarded, retry_begin-Held, retry_finish-Held, retry_revert-Held, auto_check-Held,
  resend-Held, set_pre_close_buzzer-Guarded, set_auto_close_timeout_ms-Guarded,
  set_auto_close_enabled-Guarded, set_close_schedule-Guarded,
}

-- Every operation keeps the generation and all that it guards (the door state with the clock of the
-- open door, the obstruction, the auto-close settings, the schedule), or moves the generation on by
-- one.
pub apply-Guarded : (op : Op) (s : Control) → Guarded s (apply op s)
unfolding apply
apply-Guarded (user_open e) s = control_open-Guarded e s
apply-Guarded (user_close st a t) s = control_close-Guarded st a t s
apply-Guarded (user_warning_over g st e l) s = inl (user_close_finish-Held g st e l s)
apply-Guarded (opener_event v st a) s = event_handler-Guarded v st a s
apply-Guarded (auto_warning_over st e n) s = inl (auto_warning_done-Held st e n s)
apply-Guarded (sched_warning_over st e) s = inl (sched_warning_done-Held st e s)
apply-Guarded (check_stuck st n l a) s = stuck_check-Guarded st n l a s
apply-Guarded (begin_retry st) s = inl (retry_begin-Held st s)
apply-Guarded (end_retry st g f a e) s = inl (retry_finish-Held st g f a e s)
apply-Guarded (revert_request st n) s = inl (retry_revert-Held st n s)
apply-Guarded (check_auto n st l e f) s = inl (auto_check-Held n st l e f s)
apply-Guarded (check_schedule a) s = inl (sched_close_check-Held a s)
apply-Guarded resend_states s = inl (resend-Held s)
apply-Guarded (set_buzzer_setting b w) s = set_pre_close_buzzer-Guarded b w s
apply-Guarded (set_timeout_setting n w) s = set_auto_close_timeout_ms-Guarded n w s
apply-Guarded (set_enabled_setting b w) s = set_auto_close_enabled-Guarded b w s
apply-Guarded (set_schedule_setting c a) s = set_close_schedule-Guarded c a s

-- What a run does to the generation: `n` steps on, and all kept where that is none.
pub record Moved (s t : Control) (n : ℕ) : Type 0 where
  pub on : t.close_generation ≡ u32 (s.close_generation + n)
  pub still : n ≡ 0 → Held s t

pub steps-run :
    (ops : List Op) (s : Control)
    → s.close_generation < 2 ^ 32
    → (n : ℕ) × (n ≤ length ops) × Moved s (run ops s) n
unfolding run
steps-run [] s h = (0, omega arith, record { on = ground arith; still = λ _. ground arith })
steps-run (op ∷ ops) s h = elim (apply-Guarded op s) [
  | inl held ↦
      let (n, le, moved) = steps-run ops (apply op s) (ground arith) in
      (
        n,
        omega arith,
        record { on = ground arith; still = λ z. (let k = moved.still z in ground arith) },
      )
  | inr bumped ↦
      let (n, le, moved) = steps-run ops (apply op s) (omega arith) in
      (suc n, omega arith, record { on = omega arith; still = λ z. absurd (omega arith) })
]

-- If fewer than 2^32 operations lead from one state to another of the same generation, then the
-- door state and the clock of the open door, the obstruction, the settings of the auto-close and
-- the schedule are the same: a close that is armed for a generation runs only if none of these
-- changed since.
pub same_generation-Held :
    (ops : List Op) (s : Control)
    → s.close_generation < 2 ^ 32
    → length ops < 2 ^ 32
    → (run ops s).close_generation ≡ s.close_generation
    → Held s (run ops s)
same_generation-Held ops s h short same =
    let (n, le, moved) = steps-run ops s h in moved.still (omega (arith, moved.on))
