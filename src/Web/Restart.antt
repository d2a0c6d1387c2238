-- ===== src/Web/Restart.antt =====
-- main/diag_webserver.cpp: diag_webserver_restart, which the network events call, and
-- diag_restart_task, which it starts. The two run side by side: a state is what lies between two
-- steps of the task, and a network event may come at any of them.
use gdo_blaq_homekit.Prelude.{Bool, true, false, not, ◌&&◌, if◌then◌else◌, ◌≡◌, List, [], ◌∷◌}

-- Where the task is: not running, about to clear `s_restart_again`, about to stop the server,
-- about to start it, at the `while`, or about to clear `s_restart_task_running`.
pub data Place : Type 0 where
  idle clearing stopping starting testing leaving : Place

-- What happened: a network event was taken over, the server was stopped (if there was one), and
-- start_httpd_server() was called, with what it answers.
pub data Done : Type 0 where
  taken stopped : Done
  start : Bool → Done

-- The statics, and what was done so far, newest first.
pub record Web : Type 0 where
  pub place : Place
  pub server : Bool
  pub started_once : Bool
  pub task_running : Bool
  pub again : Bool
  pub trace : List Done

-- After wait_for_network_and_start_task has started the server.
abbrev pub started : Web
started = record {
  place = idle;
  server = true;
  started_once = true;
  task_running = false;
  again = false;
  trace = [];
}

-- `diag_webserver_restart`; `created` tells whether xTaskCreate() gives pdPASS.
unfoldable pub network_event : Bool → Web → Web
network_event created w =
    if not w.server && not w.started_once
    then w
    else if w.task_running
    then record w { again = true; trace = taken ∷ w.trace }
    else if created
    then record w { task_running = true; place = clearing; trace = taken ∷ w.trace }
    else w

-- The next step of `diag_restart_task`; `up` tells whether start_httpd_server() succeeds.
unfoldable pub task_at : Place → Bool → Web → Web
task_at idle up w = w
task_at clearing up w = record w { again = false; place = stopping }
task_at stopping up w = record w { server = false; place = starting; trace = stopped ∷ w.trace }
task_at starting up w = record w { server = up; place = testing; trace = start up ∷ w.trace }
task_at testing up w = record w { place = if w.again then clearing else leaving }
task_at leaving up w = record w { task_running = false; place = idle }

unfoldable pub task_step : Bool → Web → Web
unfolding task_at
task_step up w = task_at w.place up w

pub data Step (w : Web) : Web → Type 0 where
  event : (created : Bool) → Step w (network_event created w)
  task : (up : Bool) → Step w (task_step up w)

abbrev pub is_leaving : Place → Bool
is_leaving leaving = true
is_leaving _ = false

-- A step that is no network event between the end of the loop and the end of the task.
pub data TimelyStep (w : Web) : Web → Type 0 where
  timely_event :
      (created : Bool) → is_leaving w.place ≡ false → TimelyStep w (network_event created w)
  timely_task : (up : Bool) → TimelyStep w (task_step up w)

-- The states that steps of one kind reach.
pub data Reach (R : Web → Web → Type 0) (w : Web) : Web → Type 0 where
  here : Reach R w w
  next : {u v : Web} → Reach R w u → R u v → Reach R w v
