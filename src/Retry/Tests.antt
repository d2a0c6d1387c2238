-- ===== src/Retry/Tests.antt =====
-- Witnesses for the retry budget.
use gdo_blaq_homekit.Prelude.{ℕ, ◌≡◌, ◌≤◌, true, false, List, [], ◌∷◌, ◌++◌, refl, arith}
use gdo_blaq_homekit.Retry.{RetryBudget, wait, send, revert, fresh, step}
use gdo_blaq_homekit.Retry.Budget.{
  Tick, run, sends, reverts, requests, one_retry_each, toggle_only_never_sends,
}
use gdo_blaq_homekit.Retry.Escalate.{waits, unanswered_escalates, pending_at, answered_stays_quiet}

abbrev tick : ℕ → ℕ → Tick
tick id now = record { id = id; pending = true; retry_allowed = true; now = now }

abbrev toggle : ℕ → Tick
toggle now = record { id = 4; pending = true; retry_allowed = false; now = now }

-- Two commands that the opener never acts on.
abbrev ignored : List Tick
ignored = tick 1 0 ∷ tick 1 9000 ∷ tick 1 18000 ∷ tick 2 20000 ∷ tick 2 29000 ∷ tick 2 38000 ∷ []

run-ignored : run fresh 8000 ignored ≡ wait ∷ send ∷ revert ∷ wait ∷ send ∷ revert ∷ []
unfolding run step
run-ignored = refl

one_retry_each_at_input :
    let out = run fresh 8000 ignored in
    (sends out ≤ requests 0 ignored) × (reverts out ≤ requests 0 ignored)
one_retry_each_at_input = one_retry_each 8000 ignored

toggle_only_never_sends_at_input : sends (run fresh 8000 (toggle 0 ∷ toggle 9000 ∷ [])) ≡ 0
toggle_only_never_sends_at_input =
    toggle_only_never_sends fresh 8000 (toggle 0 ∷ toggle 9000 ∷ []) (refl, (refl, tt))

-- The command before was given up.
abbrev after_last : RetryBudget
after_last = record { command_id = 7; started_ms = 100; attempts = 2; done = true }

-- The watchdog ticks every five seconds, and the timeout is eight.
abbrev first_wait : List Tick
first_wait = tick 1 5000 ∷ []

abbrev second_wait : List Tick
second_wait = tick 1 15000 ∷ []

unanswered_escalates_example :
    (run after_last 8000 (
        pending_at 1 true 0
        ∷ (first_wait
            ++ (pending_at 1 true 10000
                ∷ (second_wait ++ (pending_at 1 true 20000 ∷ tick 1 25000 ∷ [])))))
      ≡ wait ∷ (waits first_wait ++ (send ∷ (waits second_wait ++ (revert ∷ wait ∷ [])))))
    × (run after_last 8000
          (pending_at 1 true 0 ∷ (first_wait ++ (pending_at 1 false 10000 ∷ tick 1 25000 ∷ [])))
        ≡ wait ∷ (waits first_wait ++ (revert ∷ wait ∷ [])))
unanswered_escalates_example =
    unanswered_escalates after_last 1 8000 0 10000 20000 true true first_wait second_wait
      (tick 1 25000 ∷ []) (omega arith) (omega arith) ((refl, refl, omega arith), tt) (omega arith)
      ((refl, refl, omega arith), tt) (omega arith) (refl, tt)

answered_stays_quiet_at_input :
    run fresh 8000
      (record { id = 1; pending = false; retry_allowed = true; now = 5 } ∷ tick 1 99000 ∷ [])
    ≡ wait ∷ waits (tick 1 99000 ∷ [])
answered_stays_quiet_at_input =
    answered_stays_quiet fresh 1 8000 5 true (tick 1 99000 ∷ []) (omega arith) (refl, tt)
