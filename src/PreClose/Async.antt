-- ===== src/PreClose/Async.antt =====
-- The asynchronous warning: its memory, and its callback.
use gdo_blaq_homekit.Prelude.{
  ℕ, suc, ◌≡◌, refl, Bool, true, false, ◌&&◌, if◌then◌else◌, List, [], ◌∷◌, ◌++◌,
}
use gdo_blaq_homekit.Opener.{is_ok}
use gdo_blaq_homekit.PreClose.{Pulse, Act, allocate, free, complete, shown, warning_task, run_async}

abbrev pub allocations : List Act → ℕ
allocations [] = 0
allocations (allocate ∷ acts) = suc (allocations acts)
allocations (_ ∷ acts) = allocations acts

abbrev pub frees : List Act → ℕ
frees [] = 0
frees (free ∷ acts) = suc (frees acts)
frees (_ ∷ acts) = frees acts

abbrev pub callbacks : List Act → ℕ
callbacks [] = 0
callbacks (complete ∷ acts) = suc (callbacks acts)
callbacks (_ ∷ acts) = callbacks acts

allocations-shown :
    (ps : List Pulse) (acts : List Act) → allocations (shown ps ++ acts) ≡ allocations acts
unfolding shown
allocations-shown [] acts = refl
allocations-shown (p ∷ ps) acts = allocations-shown ps acts

frees-shown : (ps : List Pulse) (acts : List Act) → frees (shown ps ++ acts) ≡ frees acts
unfolding shown
frees-shown [] acts = refl
frees-shown (p ∷ ps) acts = frees-shown ps acts

callbacks-shown :
    (ps : List Pulse) (acts : List Act) → callbacks (shown ps ++ acts) ≡ callbacks acts
unfolding shown
callbacks-shown [] acts = refl
callbacks-shown (p ∷ ps) acts = callbacks-shown ps acts

-- The start of a warning is reported truly, and its memory is freed: ESP_OK is returned exactly if
-- the block and the task could be made; the callback is then called once, if there is one, and
-- never otherwise; and on every branch as many blocks are freed as are allocated.
pub run_async-outcome :
    (allocated created has_callback : Bool) (ps : List Pulse)
    → let (err, acts) = run_async allocated created has_callback ps in
      (is_ok err ≡ (allocated && created))
      × (callbacks acts ≡ (if allocated && created && has_callback then 1 else 0))
      × (frees acts ≡ allocations acts)
unfolding run_async warning_task
run_async-outcome false created has_callback ps = (refl, refl, refl)
run_async-outcome true false has_callback ps = (refl, refl, refl)
run_async-outcome true true false ps =
    simp (callbacks-shown, frees-shown, allocations-shown) (refl, refl, refl)
run_async-outcome true true true ps =
    simp (callbacks-shown, frees-shown, allocations-shown) (refl, refl, refl)
