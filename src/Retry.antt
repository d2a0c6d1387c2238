-- ===== src/Retry.antt =====
-- main/retry_budget.h: how often the watchdog may repeat an unanswered door command.
pub mod Budget
pub mod Escalate
pub mod Tests
use gdo_blaq_homekit.Prelude.{
  ℕ, ◌+◌, ◌%◌, ◌^◌, Bool, true, false, not, ◌&&◌, ◌||◌, if◌then◌else◌, ◌==◌, leb, List, [], ◌∷◌,
}

-- `retry_action_t`.
pub data Action : Type 0 where
  wait send revert : Action

-- `retry_budget_t`. `started_ms` is an `int64_t` read off a clock that starts at 0.
pub record RetryBudget : Type 0 where
  pub command_id : ℕ
  pub started_ms : ℕ
  pub attempts : ℕ
  pub done : Bool

-- The value of `retry_budget_t b = {}`.
abbrev pub fresh : RetryBudget
fresh = record { command_id = 0; started_ms = 0; attempts = 0; done = false }

-- A request that the budget has not seen re-arms it.
abbrev pub arm : RetryBudget → ℕ → ℕ → RetryBudget
arm b id now =
    if b.command_id == id
    then b
    else record { command_id = id; started_ms = now; attempts = 0; done = false }

-- `b->attempts++` runs only if a retry is allowed; `unsigned` wraps.
spend : RetryBudget → Bool → ℕ → RetryBudget × Action
spend b retry_allowed now =
    let t = record b { started_ms = now } in
    if retry_allowed
    then if b.attempts == 0
      then (record t { attempts = (b.attempts + 1) % 2 ^ 32 }, send)
      else (record t { attempts = (b.attempts + 1) % 2 ^ 32; done = true }, revert)
    else (record t { done = true }, revert)

-- `retry_budget_step`. `now - started_ms <= timeout` is written without the subtraction.
unfoldable pub step : RetryBudget → ℕ → Bool → Bool → ℕ → ℕ → RetryBudget × Action
unfolding spend
step b id pending retry_allowed now timeout =
    if id == 0
    then (b, wait)
    else let a = arm b id now in
      let d = record a { done = a.done || not pending } in
      if d.done || leb now (d.started_ms + timeout) then (d, wait) else spend d retry_allowed now
