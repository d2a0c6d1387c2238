-- ===== src/PreClose.antt =====
-- main/pre_close_warning.c and main/pre_close_warning.h: the warning before a close, with a buzzer
-- and a lamp. The set-up of the pins is left out; the LEDC and GPIO drivers and FreeRTOS are no part
-- of the repository, so what the pins show is written down and an allocation answers by an argument.
pub mod Timing
pub mod Async
pub mod Tests
use gdo_blaq_homekit.Prelude.{
  ℕ, zero, suc, ◌+◌, Bool, true, false, ◌&&◌, not, if◌then◌else◌, ltb, List, [], ◌∷◌, ◌++◌, Option,
  none, some,
}
use gdo_blaq_homekit.Opener.{Esp, esp_ok, no_mem, u32}

abbrev pub beep_on_ms : ℕ
beep_on_ms = 250

abbrev pub beep_off_ms : ℕ
beep_off_ms = 250

-- `cycle_ms`.
abbrev pub cycle_ms : ℕ
cycle_ms = beep_on_ms + beep_off_ms

-- What the two pins show, and for how long until they are set again.
pub record Pulse : Type 0 where
  pub buzzer : Bool
  pub lamp : Bool
  pub ms : ℕ

-- `buzzer_set`; `enabled` is `s_buzzer_enabled`.
abbrev pub buzzer_set : Bool → Bool → Bool
buzzer_set enabled on = if not enabled then false else on

-- `buzzer_set(on)` and `led_set(on)`, and the delay after them.
abbrev pub pulse : Bool → Bool → ℕ → Pulse
pulse enabled on ms = record { buzzer = buzzer_set enabled on; lamp = on; ms = ms }

unfoldable pub before : List Pulse → Option (List Pulse) → Option (List Pulse)
before ps none = none
before ps (some qs) = some (ps ++ qs)

-- The loop of `pre_close_warning_run` and the two calls after it, on fuel. The setting may change
-- meanwhile: it is `enabled i` when round `i` sets the buzzer on.
unfoldable pub run_from : ℕ → (ℕ → Bool) → ℕ → ℕ → ℕ → Option (List Pulse)
unfolding before
run_from zero enabled i elapsed duration = none
run_from (suc fuel) enabled i elapsed duration =
    let rest = run_from fuel enabled (suc i) (u32 (elapsed + cycle_ms)) duration in
    if ltb elapsed duration
    then before (pulse (enabled i) true beep_on_ms ∷ pulse (enabled i) false beep_off_ms ∷ []) rest
    else some (pulse (enabled i) false 0 ∷ [])

-- `pre_close_warning_run`.
unfoldable pub run : ℕ → (ℕ → Bool) → ℕ → Option (List Pulse)
run fuel enabled duration = run_from fuel enabled 0 0 duration

-- What the asynchronous variant does, in order.
pub data Act : Type 0 where
  allocate create free delete_task : Act
  show : Pulse → Act
  complete : Act

unfoldable pub shown : List Pulse → List Act
shown [] = []
shown (p ∷ ps) = show p ∷ shown ps

-- `warning_task`, for a warning that shows these pulses; `has_callback` is `cb != NULL`.
unfoldable pub warning_task : Bool → List Pulse → List Act
warning_task has_callback ps =
    shown ps ++ free ∷ (if has_callback then complete ∷ delete_task ∷ [] else delete_task ∷ [])

-- `pre_close_warning_run_async` and the task that it starts, where pvPortMalloc() and xTaskCreate()
-- succeed or not.
unfoldable pub run_async : Bool → Bool → Bool → List Pulse → Esp × List Act
run_async allocated created has_callback ps =
    if not allocated
    then (no_mem, [])
    else if not created
    then (no_mem, allocate ∷ free ∷ [])
    else (esp_ok, allocate ∷ create ∷ warning_task has_callback ps)
