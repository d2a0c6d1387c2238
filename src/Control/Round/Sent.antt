-- ===== src/Control/Round/Sent.antt =====
-- The watchdog sends at most one command for each request, over any rounds.
use gdo_blaq_homekit.Prelude.{
  ℕ, ◌+◌, ◌≤◌, ◌≡◌, refl, Bool, true, false, not, List, [], ◌∷◌, ◌++◌, Option, none, some, arith,
}
use gdo_blaq_homekit.Opener.{Esp, Status}
use gdo_blaq_homekit.Retry.{Action, wait, send, revert, RetryBudget, fresh, step}
use gdo_blaq_homekit.Retry.Budget.{Tick, is_send, requests, retries_left, step_retries}
use gdo_blaq_homekit.Control.{Control}
use gdo_blaq_homekit.Control.Command.{retry_door_request}
use gdo_blaq_homekit.Control.Warning.{SchedAnswers, sched_close_check}
use gdo_blaq_homekit.Control.Watchdog.{
  is_pending, retry_action, engage_timeout_ms, retry_begin, retry_finish, auto_check, finish_round,
}
use gdo_blaq_homekit.Control.Run.{run}
use gdo_blaq_homekit.Control.Silent.{commands, Silent}
use gdo_blaq_homekit.Control.Silent.Warnings.{sched_close_check-Silent}
use gdo_blaq_homekit.Control.Silent.Rounds.{
  stuck_check-Silent, retry_begin-Silent, retry_revert-Silent, auto_check-Silent, resend-Silent,
}
use gdo_blaq_homekit.Control.Round.{
  Answers, sent_between, act, retry_part, at_retry, rest_of_round, round, sent, tick_of, ticks,
}

Silent-sent : {s t : Control} → Silent s t → sent_between s t ≡ 0
Silent-sent h = omega (arith, h.no_command)

retry_finish-sent :
    (st : Status) (g : ℕ) (f l : Option Status) (e : Esp) (s : Control)
    → sent_between s (retry_finish st g f l e s) ≤ 1
unfolding retry_finish retry_door_request
retry_finish-sent st g f none e s = ground arith
retry_finish-sent st g f (some l) e s = ground arith

act-sent : (x : Action) (st : Status) (a : Answers) (s : Control) → (act x st a s).1 ≤ is_send x
unfolding act
act-sent wait st a s = omega arith
act-sent send st a s =
    let (t, g) = retry_begin st s in
    let u = run a.during t in
    omega (
      arith,
      Silent-sent (retry_begin-Silent st s),
      retry_finish-sent st g a.fresh a.again a.answer u,
    )
act-sent revert st a s = omega (arith, Silent-sent (retry_revert-Silent st a.reverted_at s))

finish_round-commands :
    (a : SchedAnswers) (r : Control × Bool) → commands (finish_round a r).trace ≡ commands r.0.trace
unfolding finish_round
finish_round-commands a (s, true) = refl
finish_round-commands a (s, false) = omega (
  arith,
  (sched_close_check-Silent a s).no_command,
  (resend-Silent (sched_close_check a s)).no_command,
)

rest-sent : (a : Answers) (s : Control) → sent_between s (rest_of_round a s) ≡ 0
rest-sent a s =
    let r = auto_check a.now a.auto_status a.auto_later a.auto_started a.auto_failed s in
    omega (
      arith,
      (auto_check-Silent a.now a.auto_status a.auto_later a.auto_started a.auto_failed
          s).no_command,
      finish_round-commands a.schedule r,
    )

-- What a budget still allows in the ticks to come.
abbrev allowance : RetryBudget → List Tick → ℕ
allowance b ts = retries_left b + requests b.command_id ts

retry_part-sent :
    (o : Option Status) (a : Answers) (b : RetryBudget) (s : Control) (ts : List Tick)
    → let (b', t, n) = retry_part o a b s in n + allowance b' ts ≤ allowance b (tick_of o a s ++ ts)
unfolding retry_part retry_action tick_of
retry_part-sent none a b s ts = omega arith
retry_part-sent (some st) a b s ts =
    let tick : Tick = record {
      id = s.door_command_id;
      pending = is_pending st s;
      retry_allowed = not st.toggle_only;
      now = a.now;
    } in
    let action = (step b tick.id tick.pending tick.retry_allowed tick.now engage_timeout_ms).1 in
    omega (arith, step_retries b engage_timeout_ms tick ts, act-sent action st a s)

round-sent :
    (a : Answers) (b : RetryBudget) (s : Control) (ts : List Tick)
    → let (b', t, n) = round a b s in
      n + allowance b' ts ≤ allowance b (tick_of a.status a (at_retry a s) ++ ts)
unfolding round
round-sent a b s ts =
    let s0 = run a.before s in
    let (b', s2, n) = retry_part a.status a b (at_retry a s) in
    omega (
      arith,
      Silent-sent (stuck_check-Silent a.stuck a.now a.settled_at a.recovery s0),
      retry_part-sent a.status a b (at_retry a s) ts,
      rest-sent a (run a.after s2),
    )

sent-allowance :
    (as' : List Answers) (b : RetryBudget) (s : Control)
    → sent as' b s ≤ allowance b (ticks as' b s)
unfolding sent ticks
sent-allowance [] b s = omega arith
sent-allowance (a ∷ as') b s =
    let (b', t, n) = round a b s in
    omega (arith, round-sent a b s (ticks as' b' t), sent-allowance as' b' t)

-- The watchdog repeats a command once at most: over any rounds from its start, whatever the opener
-- answers and whatever other tasks do before, between and during the parts of a round, it sends at
-- most one door command for each new door command that its rounds see.
pub one_resend_each :
    (as' : List Answers) (s : Control) → sent as' fresh s ≤ requests 0 (ticks as' fresh s)
one_resend_each as' s = omega (arith, sent-allowance as' fresh s)
