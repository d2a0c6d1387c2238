-- ===== src/Web/Passes.antt =====
-- One restart task at a time, and which network events it serves.
use gdo_blaq_homekit.Prelude.{
  ℕ, if◌then◌else◌, Bool, true, false, not, ◌&&◌, ◌||◌, ◌≡◌, refl, List, [], ◌∷◌, arith,
}
use gdo_blaq_homekit.Web.Restart.{
  Place, Done, stopped, start, idle, clearing, stopping, starting, testing, leaving, Web, started,
  network_event, task_at, task_step, Step, event, task, Reach, here, next,
}

abbrev pub is_idle : Place → Bool
is_idle idle = true
is_idle _ = false

abbrev pub same : Bool → Bool → Bool
same true b = b
same false b = not b

-- The last thing done is that the server was stopped.
abbrev pub is_stopped : List Done → Bool
is_stopped (stopped ∷ ds) = true
is_stopped _ = false

-- The last things done are that it was stopped and then started, which succeeded or not.
abbrev pub is_restarted : List Done → Bool → Bool
is_restarted (start up ∷ ds) server = is_stopped ds && same up server
is_restarted _ server = false

abbrev pub is_untouched : List Done → Bool
is_untouched [] = true
is_untouched _ = false

-- What was done at a place, unless another pass will come.
abbrev pub is_served : Place → Web → Bool
is_served idle w = is_untouched w.trace || is_restarted w.trace w.server
is_served starting w = w.again || is_stopped w.trace
is_served testing w = w.again || is_restarted w.trace w.server
is_served leaving w = is_restarted w.trace w.server
is_served _ w = true

-- What holds between the steps: the flag tells whether the task runs, and an event gets its pass.
pub record IsServed (w : Web) : Type 0 where
  pub running : w.task_running ≡ not (is_idle w.place)
  pub served : is_served w.place w ≡ true

abbrev at : Place → Web → Web
at p w = record w { place = p }

-- What is left of a served event once the task is gone.
pub data Served (w : Web) : Type 0 where
  untouched : w.trace ≡ [] → Served w
  restarted :
      (up : Bool) (before : List Done)
      → w.trace ≡ start up ∷ stopped ∷ before
      → w.server ≡ up
      → Served w

-- The steps that the task has left, unless an event comes.
abbrev steps_left : Place → Bool → ℕ
steps_left idle again = 0
steps_left clearing again = 5
steps_left stopping again = if again then 8 else 4
steps_left starting again = if again then 7 else 3
steps_left testing again = if again then 6 else 2
steps_left leaving again = 1

-- Steps of the task, one for each answer of start_httpd_server(), with no event between them.
unfoldable pub finish : List Bool → Web → Web
finish [] w = w
finish (up ∷ ups) w = finish ups (task_step up w)

event_at-running :
    (p : Place) (created : Bool) (w : Web)
    → w.task_running ≡ not (is_idle p)
    → let t = network_event created (at p w) in t.task_running ≡ not (is_idle t.place)
unfolding network_event
event_at-running p created w h = ground (arith, h)

task_at-running :
    (p : Place) (up : Bool) (w : Web)
    → w.task_running ≡ not (is_idle p)
    → let t = task_at p up (at p w) in t.task_running ≡ not (is_idle t.place)
unfolding task_at
task_at-running p up w h = ground (arith, h)

Step-running :
    {u v : Web}
    → Step u v
    → u.task_running ≡ not (is_idle u.place)
    → v.task_running ≡ not (is_idle v.place)
Step-running {u = u} (event created) h = event_at-running u.place created u h
Step-running {u = u} (task up) h = unfold task_step in task_at-running u.place up u h

-- One restart task runs at a time: whenever network events come, `s_restart_task_running` is true
-- just where the task is there, so that diag_webserver_restart(), which tests it, makes no second.
pub one_restart_task : {w : Web} → Reach Step started w → w.task_running ≡ not (is_idle w.place)
one_restart_task here = refl
one_restart_task (next r st) = Step-running st (one_restart_task r)
