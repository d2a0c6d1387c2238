-- ===== src/PreClose/Tests.antt =====
-- Tests of the warning before a close.
use gdo_blaq_homekit.Prelude.{
  ℕ, ◌≡◌, ◌≤◌, ◌<◌, refl, Bool, true, false, List, [], ◌∷◌, some, arith, ◌==◌,
}
use gdo_blaq_homekit.Opener.{is_ok}
use gdo_blaq_homekit.PreClose.{Pulse, pulse, before, run_from, run, run_async}
use gdo_blaq_homekit.PreClose.Timing.{Warned, total_ms, run-Warned}
use gdo_blaq_homekit.PreClose.Async.{callbacks, frees, allocations, run_async-outcome}

-- The 5 s of a close, muted after the first beep.
abbrev muted_late : ℕ → Bool
muted_late i = i == 0

run-Warned_example :
    (ps : List Pulse) × (run 11 muted_late 5000 ≡ some ps)
    × Warned muted_late 0 10 ps
    × (5000 ≤ total_ms ps)
    × (total_ms ps < 5500)
run-Warned_example = run-Warned 11 muted_late 5000 (omega arith) (omega arith)

short_warning :
    run 3 muted_late 600
    ≡ some (
        pulse true true 250
        ∷ pulse true false 250
        ∷ pulse false true 250
        ∷ pulse false false 250
        ∷ pulse false false 0
        ∷ [])
unfolding run run_from before
short_warning = refl

run_async-outcome_at_input :
    let (err, acts) = run_async true true true (pulse true true 250 ∷ []) in
    (is_ok err ≡ true) × (callbacks acts ≡ 1) × (frees acts ≡ allocations acts)
run_async-outcome_at_input = run_async-outcome true true true (pulse true true 250 ∷ [])
