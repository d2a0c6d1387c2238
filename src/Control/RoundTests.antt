-- ===== src/Control/RoundTests.antt =====
-- Tests and the witness for whole rounds of the watchdog.
use gdo_blaq_homekit.Prelude.{◌≤◌, ◌≡◌, refl, true, false, List, [], ◌∷◌, none, some, ℕ}
use gdo_blaq_homekit.Prelude.Int.{pos}
use gdo_blaq_homekit.Opener.{
  esp_ok, Status, closed, v2, light_off, unlocked, clear, motion_clear, learn_inactive,
}
use gdo_blaq_homekit.Retry
use gdo_blaq_homekit.Retry.{step}
use gdo_blaq_homekit.Retry.Budget.{requests}
use gdo_blaq_homekit.Control.{Control, boot}
use gdo_blaq_homekit.Control.Command.{retry_door_request, send_door_request}
use gdo_blaq_homekit.Control.Watchdog.{
  stuck_check, is_pending, retry_action, retry_finish, retry_revert, auto_check, finish_round,
  resend, resend_door, resend_light, resend_lock, resend_obstruction, resend_motion,
}
use gdo_blaq_homekit.Control.Warning.{sched_close_check}
use gdo_blaq_homekit.Control.Run.{run}
use gdo_blaq_homekit.Control.Round.{Answers, act, retry_part, round, sent, ticks}
use gdo_blaq_homekit.Control.Round.Sent.{one_resend_each}

-- The opener has not acted on a request to open.
abbrev waiting : Status
waiting = record {
  protocol = v2;
  synced = true;
  toggle_only = false;
  door = closed;
  light = light_off;
  lock = unlocked;
  obstruction = clear;
  motion = motion_clear;
  learn = learn_inactive;
  motor_on = false;
  button_pressed = false;
  client_id = 1;
  rolling_code = 100;
  door_position = pos 10000;
  door_target = pos 0;
  open_ms = 15000;
  close_ms = 15000;
}

abbrev requested_once : Control
requested_once = record boot { last_door = closed; door_command_id = 1 }

abbrev at : ℕ → Answers
at now = record {
  before = [];
  between = [];
  during = [];
  after = [];
  now = now;
  stuck = none;
  settled_at = now;
  recovery = none;
  status = some waiting;
  fresh = some waiting;
  again = some waiting;
  answer = esp_ok;
  reverted_at = now;
  auto_status = none;
  auto_later = now;
  auto_started = esp_ok;
  auto_failed = now;
  schedule = record {
    local_now = none;
    status = none;
    now = now;
    saved = esp_ok;
    started = esp_ok;
    undone = esp_ok;
  };
}

abbrev ignoring : List Answers
ignoring = at 5000 ∷ at 10000 ∷ at 15000 ∷ at 20000 ∷ at 25000 ∷ []

-- The request is sent once more, and then given up.
resent_once : sent ignoring Retry.fresh requested_once ≡ 1
unfolding sent round act retry_part retry_action is_pending step retry_finish retry_door_request
    send_door_request retry_revert stuck_check auto_check finish_round resend resend_door
    resend_light resend_lock resend_obstruction resend_motion sched_close_check run
resent_once = refl

one_resend_each_example :
    sent ignoring Retry.fresh requested_once
    ≤ requests 0 (ticks ignoring Retry.fresh requested_once)
one_resend_each_example = one_resend_each ignoring requested_once
