-- ===== src/Retry/Escalate.antt =====
-- main/retry_budget.h: what becomes of a command that stays pending, and of one that is answered.
use gdo_blaq_homekit.Prelude.{
  ℕ, ◌+◌, ◌≤◌, ◌<◌, ◌≡◌, ◌≢◌, ◌∙◌, refl, Bool, true, false, List, [], ◌∷◌, ◌++◌, ap, ap₂, sym,
  subst, arith,
}
use gdo_blaq_homekit.Retry.{Action, wait, send, revert, RetryBudget, step}
use gdo_blaq_homekit.Retry.Budget.{Tick, run}

abbrev pub AllOf : ℕ → List Tick → Type 0
AllOf id [] = Unit {0}
AllOf id (t ∷ ts) = (t.id ≡ id) × AllOf id ts

abbrev pub waits : List Tick → List Action
waits [] = []
waits (t ∷ ts) = wait ∷ waits ts

step_done :
    (b : RetryBudget) (timeout : ℕ) (t : Tick)
    → t.id ≡ b.command_id
    → b.done ≡ true
    → step b t.id t.pending t.retry_allowed t.now timeout ≡ (b, wait)
unfolding step
step_done b timeout t e h = ground arith

run_done :
    (b : RetryBudget) (timeout : ℕ) (ts : List Tick)
    → b.done ≡ true
    → AllOf b.command_id ts
    → run b timeout ts ≡ waits ts
unfolding run
run_done b timeout [] h k = refl
run_done b timeout (t ∷ ts) h k =
    rw (step_done b timeout t k.0 h) (ap (λ r. wait ∷ r) (run_done b timeout ts h k.1))

-- Ticks that show a command pending, none later than `last`.
abbrev pub AllPending : ℕ → ℕ → List Tick → Type 0
AllPending id last [] = Unit {0}
AllPending id last (t ∷ ts) =
    ((t.id ≡ id) × (t.pending ≡ true) × (t.now ≤ last)) × AllPending id last ts

step_early :
    (b : RetryBudget) (timeout : ℕ) (t : Tick)
    → t.id ≡ b.command_id
    → t.pending ≡ true
    → t.now ≤ b.started_ms + timeout
    → b.done ≡ false
    → step b t.id t.pending t.retry_allowed t.now timeout ≡ (b, wait)
unfolding step
step_early b timeout t e p le d = ground (arith, e, p, le, d)

run-step :
    (b : RetryBudget) (timeout : ℕ) (t : Tick) (ts : List Tick) (b' : RetryBudget) (a : Action)
    → step b t.id t.pending t.retry_allowed t.now timeout ≡ (b', a)
    → run b timeout (t ∷ ts) ≡ a ∷ run b' timeout ts
unfolding run
run-step b timeout t ts b' a e = ap (λ (r : RetryBudget × Action). r.1 ∷ run r.0 timeout ts) e

-- While the time is not over, the budget waits and stays as it is.
run_early :
    (b : RetryBudget) (timeout : ℕ) (ts rest : List Tick)
    → AllPending b.command_id (b.started_ms + timeout) ts
    → b.done ≡ false
    → run b timeout (ts ++ rest) ≡ waits ts ++ run b timeout rest
unfolding run
run_early b timeout [] rest h d = refl
run_early b timeout (t ∷ ts) rest h d =
    rw (step_early b timeout t h.0.0 h.0.1 h.0.2 d)
      (ap (λ r. wait ∷ r) (run_early b timeout ts rest h.1 d))

-- The budget of a command that was seen at `start`, with this many retries.
abbrev armed : ℕ → ℕ → ℕ → RetryBudget
armed id start attempts = record {
  command_id = id;
  started_ms = start;
  attempts = attempts;
  done = false;
}

step_first :
    (b : RetryBudget) (id timeout start : ℕ) (allowed : Bool)
    → id ≢ 0
    → b.command_id ≢ id
    → step b id true allowed start timeout ≡ (armed id start 0, wait)
unfolding step
step_first b id timeout start allowed h n = ground (arith, h, n)

step_retry :
    (id timeout start now : ℕ)
    → id ≢ 0
    → start + timeout < now
    → step (armed id start 0) id true true now timeout ≡ (armed id now 1, send)
unfolding step
step_retry id timeout start now h lt = ground (arith, h, lt)

-- The command is given up.
record GivenUp (id : ℕ) (r : RetryBudget × Action) : Type 0 where
  action : r.1 ≡ revert
  same : r.0.command_id ≡ id
  over : r.0.done ≡ true

step_refused :
    (id timeout start now : ℕ)
    → id ≢ 0
    → start + timeout < now
    → GivenUp id (step (armed id start 0) id true false now timeout)
unfolding step
step_refused id timeout start now h lt = ground (arith, h, lt)

step_exhausted :
    (id timeout start now : ℕ) (allowed : Bool)
    → id ≢ 0
    → start + timeout < now
    → GivenUp id (step (armed id start 1) id true allowed now timeout)
unfolding step
step_exhausted id timeout start now allowed h lt = ground (arith, h, lt)

abbrev pub pending_at : ℕ → Bool → ℕ → Tick
pending_at id allowed now = record { id = id; pending = true; retry_allowed = allowed; now = now }

-- A tick that gives the command up, and what comes after it.
run-GivenUp :
    (b : RetryBudget) (id timeout now : ℕ) (allowed : Bool) (ts : List Tick)
    → GivenUp id (step b id true allowed now timeout)
    → AllOf id ts
    → run b timeout (pending_at id allowed now ∷ ts) ≡ revert ∷ waits ts
unfolding run
run-GivenUp b id timeout now allowed ts g h =
    let b' = (step b id true allowed now timeout).0 in
    ap₂ (λ x r. x ∷ r) g.action
      (run_done b' timeout ts g.over (subst (λ i. AllOf i ts) (sym g.same) h))

-- A command that stays pending escalates, whatever the command before it came to, and however many
-- ticks come in between: it is answered by waits from the tick that first sees it on, as long as the
-- timeout is not over; at the first tick later than that it is retried, if that is allowed then, and
-- after further waits reverted at the first tick more than the timeout after the retry; if no retry
-- is allowed then, it is reverted at once. After a revert all ticks that show the command only wait.
pub unanswered_escalates :
    (b : RetryBudget) (id timeout t₀ t₁ t₂ : ℕ) (allowed allowed' : Bool) (ts us vs : List Tick)
    → id ≢ 0
    → b.command_id ≢ id
    → AllPending id (t₀ + timeout) ts
    → t₀ + timeout < t₁
    → AllPending id (t₁ + timeout) us
    → t₁ + timeout < t₂
    → AllOf id vs
    → let seen = pending_at id allowed t₀ in
      let late = pending_at id true t₁ in
      let refused = pending_at id false t₁ in
      let last = pending_at id allowed' t₂ in
      (run b timeout (seen ∷ (ts ++ (late ∷ (us ++ (last ∷ vs)))))
        ≡ wait ∷ (waits ts ++ (send ∷ (waits us ++ (revert ∷ waits vs)))))
      × (run b timeout (seen ∷ (ts ++ (refused ∷ vs))) ≡ wait ∷ (waits ts ++ (revert ∷ waits vs)))
unanswered_escalates b id timeout t₀ t₁ t₂ allowed allowed' ts us vs h n k lt k' lt' k2 =
    let late = pending_at id true t₁ in
    let refused = pending_at id false t₁ in
    let last = pending_at id allowed' t₂ in
    let end =
      run-GivenUp (armed id t₁ 1) id timeout t₂ allowed' vs
        (step_exhausted id timeout t₁ t₂ allowed' h lt') k2 in
    let stop =
      run-GivenUp (armed id t₀ 0) id timeout t₁ false vs (step_refused id timeout t₀ t₁ h lt) k2 in
    (
      run-step b timeout (pending_at id allowed t₀) (ts ++ (late ∷ (us ++ (last ∷ vs))))
            (armed id t₀ 0) wait (step_first b id timeout t₀ allowed h n)
          ∙ ap (λ r. wait ∷ r)
              (run_early (armed id t₀ 0) timeout ts (late ∷ (us ++ (last ∷ vs))) k refl
                ∙ ap (λ r. waits ts ++ r)
                    (run-step (armed id t₀ 0) timeout late (us ++ (last ∷ vs)) (armed id t₁ 1) send
                        (step_retry id timeout t₀ t₁ h lt)
                      ∙ ap (λ r. send ∷ r)
                          (run_early (armed id t₁ 1) timeout us (last ∷ vs) k' refl
                            ∙ ap (λ r. waits us ++ r) end))),
      run-step b timeout (pending_at id allowed t₀) (ts ++ (refused ∷ vs)) (armed id t₀ 0) wait
            (step_first b id timeout t₀ allowed h n)
          ∙ ap (λ r. wait ∷ r)
              (run_early (armed id t₀ 0) timeout ts (refused ∷ vs) k refl
                ∙ ap (λ r. waits ts ++ r) stop),
    )

step_answered :
    (b : RetryBudget) (id timeout now : ℕ) (allowed : Bool)
    → id ≢ 0
    → let (b', a) = step b id false allowed now timeout in
      (a ≡ wait) × (b'.done ≡ true) × (b'.command_id ≡ id)
unfolding step
step_answered b id timeout now allowed h = ground arith

-- Once a command is seen not pending, the budget only waits at all later ticks that show the same
-- command, also if its target reads as unreached again.
pub answered_stays_quiet :
    (b : RetryBudget) (id timeout now : ℕ) (allowed : Bool) (ts : List Tick)
    → id ≢ 0
    → AllOf id ts
    → run b timeout (record { id = id; pending = false; retry_allowed = allowed; now = now } ∷ ts)
      ≡ wait ∷ waits ts
unfolding run
answered_stays_quiet b id timeout now allowed ts h k =
    let (b', a) = step b id false allowed now timeout in
    let (waited, over, same) = step_answered b id timeout now allowed h in
    ap₂ (λ x r. x ∷ r) waited (run_done b' timeout ts over (subst (λ i. AllOf i ts) (sym same) k))
