-- ===== src/Retry/Budget.antt =====
-- What retry_budget_step grants over any run of watchdog ticks.
use gdo_blaq_homekit.Prelude.{
  ℕ, suc, ◌+◌, ◌≤◌, ◌≡◌, refl, Bool, false, if◌then◌else◌, ◌==◌, List, [], ◌∷◌, arith,
}
use gdo_blaq_homekit.Retry.{Action, send, revert, RetryBudget, fresh, step}

-- What the watchdog passes to the budget at one tick.
pub record Tick : Type 0 where
  pub id : ℕ
  pub pending : Bool
  pub retry_allowed : Bool
  pub now : ℕ

-- The actions that a run of ticks returns.
unfoldable pub run : RetryBudget → ℕ → List Tick → List Action
run b timeout [] = []
run b timeout (t ∷ ts) =
    let (b', a) = step b t.id t.pending t.retry_allowed t.now timeout in a ∷ run b' timeout ts

abbrev pub is_send : Action → ℕ
is_send send = 1
is_send _ = 0

abbrev pub is_revert : Action → ℕ
is_revert revert = 1
is_revert _ = 0

abbrev pub sends : List Action → ℕ
sends [] = 0
sends (a ∷ as') = is_send a + sends as'

abbrev pub reverts : List Action → ℕ
reverts [] = 0
reverts (a ∷ as') = is_revert a + reverts as'

-- How many ticks show a command other than the one before it (0 is no command).
abbrev pub requests : ℕ → List Tick → ℕ
requests last [] = 0
requests last (t ∷ ts) =
    if t.id == 0
    then requests last ts
    else if t.id == last
    then requests last ts
    else suc (requests t.id ts)

-- The retries, and the reverts, that a budget still holds.
abbrev pub retries_left : RetryBudget → ℕ
retries_left b =
    if b.command_id == 0 then 0 else if b.attempts == 0 then (if b.done then 0 else 1) else 0

abbrev reverts_left : RetryBudget → ℕ
reverts_left b = if b.command_id == 0 then 0 else if b.done then 0 else 1

pub step_retries :
    (b : RetryBudget) (timeout : ℕ) (t : Tick) (ts : List Tick)
    → let (b', a) = step b t.id t.pending t.retry_allowed t.now timeout in
      is_send a + (retries_left b' + requests b'.command_id ts)
      ≤ retries_left b + requests b.command_id (t ∷ ts)
unfolding step
step_retries b timeout t ts = ground arith

step_reverts :
    (b : RetryBudget) (timeout : ℕ) (t : Tick) (ts : List Tick)
    → let (b', a) = step b t.id t.pending t.retry_allowed t.now timeout in
      is_revert a + (reverts_left b' + requests b'.command_id ts)
      ≤ reverts_left b + requests b.command_id (t ∷ ts)
unfolding step
step_reverts b timeout t ts = ground arith

sends-run :
    (b : RetryBudget) (timeout : ℕ) (ts : List Tick)
    → sends (run b timeout ts) ≤ retries_left b + requests b.command_id ts
unfolding run
sends-run b timeout [] = omega arith
sends-run b timeout (t ∷ ts) =
    let (b', a) = step b t.id t.pending t.retry_allowed t.now timeout in
    omega (arith, step_retries b timeout t ts, sends-run b' timeout ts)

reverts-run :
    (b : RetryBudget) (timeout : ℕ) (ts : List Tick)
    → reverts (run b timeout ts) ≤ reverts_left b + requests b.command_id ts
unfolding run
reverts-run b timeout [] = omega arith
reverts-run b timeout (t ∷ ts) =
    let (b', a) = step b t.id t.pending t.retry_allowed t.now timeout in
    omega (arith, step_reverts b timeout t ts, reverts-run b' timeout ts)

-- Over any run of watchdog ticks from a new budget, whatever each tick passes, the budget grants
-- at most one retry for each new command, and at most one revert for each.
pub one_retry_each :
    (timeout : ℕ) (ts : List Tick)
    → (sends (run fresh timeout ts) ≤ requests 0 ts)
      × (reverts (run fresh timeout ts) ≤ requests 0 ts)
one_retry_each timeout ts =
    (omega (arith, sends-run fresh timeout ts), omega (arith, reverts-run fresh timeout ts))

abbrev pub AllToggleOnly : List Tick → Type 0
AllToggleOnly [] = Unit {0}
AllToggleOnly (t ∷ ts) = (t.retry_allowed ≡ false) × AllToggleOnly ts

step_toggle :
    (b : RetryBudget) (timeout : ℕ) (t : Tick)
    → t.retry_allowed ≡ false
    → is_send (step b t.id t.pending t.retry_allowed t.now timeout).1 ≡ 0
unfolding step
step_toggle b timeout t h = ground arith

-- While every tick disallows retries, as on a toggle-only opener, no run of ticks from any budget
-- grants one.
pub toggle_only_never_sends :
    (b : RetryBudget) (timeout : ℕ) (ts : List Tick)
    → AllToggleOnly ts
    → sends (run b timeout ts) ≡ 0
unfolding run
toggle_only_never_sends b timeout [] h = refl
toggle_only_never_sends b timeout (t ∷ ts) h =
    let b' = (step b t.id t.pending t.retry_allowed t.now timeout).0 in
    omega (arith, step_toggle b timeout t h.0, toggle_only_never_sends b' timeout ts h.1)
