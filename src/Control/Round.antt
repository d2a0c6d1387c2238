-- ===== src/Control/Round.antt =====
-- main/gdo-blaq-homekit.cpp: a whole round of gdo_watchdog_task, with its retry budget, and what the
-- other tasks do meanwhile.
pub mod Sent
use gdo_blaq_homekit.Prelude.{ℕ, ◌+◌, ◌-◌, not, List, [], ◌∷◌, ◌++◌, Option, none, some}
use gdo_blaq_homekit.Opener.{Esp, Status}
use gdo_blaq_homekit.Retry.{Action, wait, send, revert, RetryBudget}
use gdo_blaq_homekit.Retry.Budget.{Tick}
use gdo_blaq_homekit.Control.{Control}
use gdo_blaq_homekit.Control.Warning.{SchedAnswers}
use gdo_blaq_homekit.Control.Watchdog.{
  stuck_check, is_pending, retry_action, retry_begin, retry_finish, retry_revert, auto_check,
  finish_round,
}
use gdo_blaq_homekit.Control.Run.{Op, run}
use gdo_blaq_homekit.Control.Silent.{commands}

-- What one round meets: what the other tasks do before it, between its first two parts, during the
-- warning of a retry and after the second part, and what its calls answer.
pub record Answers : Type 0 where
  pub before : List Op
  pub between : List Op
  pub during : List Op
  pub after : List Op
  pub now : ℕ
  pub stuck : Option Status
  pub settled_at : ℕ
  pub recovery : Option Status
  pub status : Option Status
  pub fresh : Option Status
  pub again : Option Status
  pub answer : Esp
  pub reverted_at : ℕ
  pub auto_status : Option Status
  pub auto_later : ℕ
  pub auto_started : Esp
  pub auto_failed : ℕ
  pub schedule : SchedAnswers

-- The door commands between two states.
abbrev pub sent_between : Control → Control → ℕ
sent_between s t = commands t.trace - commands s.trace

-- What the round does for an action of the budget, and the door commands that it sends.
unfoldable pub act : Action → Status → Answers → Control → Control × ℕ
act wait status a s = (s, 0)
act send status a s =
    let (t, generation) = retry_begin status s in
    let u = run a.during t in
    let v = retry_finish status generation a.fresh a.again a.answer u in
    (v, sent_between s t + sent_between u v)
act revert status a s = let t = retry_revert status a.reverted_at s in (t, sent_between s t)

-- Part 2, where the status can be read.
unfoldable pub retry_part :
    Option Status → Answers → RetryBudget → Control → RetryBudget × Control × ℕ
retry_part none a b s = (b, s, 0)
retry_part (some status) a b s =
    let (b', action) = retry_action status a.now b s in
    let (t, n) = act action status a s in (b', t, n)

-- The state at part 2.
abbrev pub at_retry : Answers → Control → Control
at_retry a s = run a.between (stuck_check a.stuck a.now a.settled_at a.recovery (run a.before s))

-- Parts 3 to 5.
abbrev pub rest_of_round : Answers → Control → Control
rest_of_round a s =
    finish_round a.schedule
      (auto_check a.now a.auto_status a.auto_later a.auto_started a.auto_failed s)

-- One round: the budget and the state after it, and the door commands that the watchdog sent in it.
unfoldable pub round : Answers → RetryBudget → Control → RetryBudget × Control × ℕ
round a b s =
    let s0 = run a.before s in
    let s1 = stuck_check a.stuck a.now a.settled_at a.recovery s0 in
    let (b', s2, n) = retry_part a.status a b (run a.between s1) in
    let s3 = run a.after s2 in
    let s4 = rest_of_round a s3 in (b', s4, sent_between s0 s1 + n + sent_between s3 s4)

-- The door commands that the watchdog sends over its rounds.
unfoldable pub sent : List Answers → RetryBudget → Control → ℕ
sent [] b s = 0
sent (a ∷ as') b s = let (b', t, n) = round a b s in n + sent as' b' t

unfoldable pub tick_of : Option Status → Answers → Control → List Tick
tick_of none a s = []
tick_of (some status) a s =
    record {
      id = s.door_command_id;
      pending = is_pending status s;
      retry_allowed = not status.toggle_only;
      now = a.now;
    }
    ∷ []

-- What the budget sees in its rounds: the command of each that could read a status.
unfoldable pub ticks : List Answers → RetryBudget → Control → List Tick
ticks [] b s = []
ticks (a ∷ as') b s =
    let (b', t, n) = round a b s in tick_of a.status a (at_retry a s) ++ ticks as' b' t
