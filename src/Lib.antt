-- ===== src/Lib.antt =====
-- Verification of gdo-blaq-homekit, firmware of an ESP32 that makes a garage door opener a HomeKit
-- accessory.
--
-- The opener is reached through gdolib, which reports events; the firmware keeps its own view of the
-- door (main/gdo-blaq-homekit.cpp), passes it to HomeKit, numbers the commands that it sends, and
-- gives each close a warning of five seconds first. A counter, the close generation, is moved on by
-- everything that must cancel a pending close. A watchdog task resolves movements that take too
-- long, repeats an unanswered command once (main/retry_budget.h), and starts the automatic and the
-- scheduled close (main/close_schedule.h). Settings arrive as HTML forms (main/form_parse.h).
--
--   Prelude: the library names and the lemmas that the rest shares.
--   Retry: main/retry_budget.h. `step` is retry_budget_step; a run is a list of watchdog ticks.
--   Form: main/form_parse.h. `get_param` is form_get_param. A C string is the list of its bytes
--     before the NUL, a pointer into it the rest of the list. The outer loop runs on fuel: one more
--     round than the body has bytes, of which each round passes one at least.
--   Schedule: main/close_schedule.h. Days are signed, minutes natural numbers; `Tz` is the grammar
--     of a POSIX TZ text, `Input` the validation of the form.
--   Opener: the states and error codes of gdolib and ESP-IDF that the code names.
--   Control: main/gdo-blaq-homekit.cpp. `Control` holds the file's static variables, and a trace of
--     the calls that leave the file, newest first. Each handler is a function of this state and of
--     what the calls that it makes answer (a status read, a time, an error code), so that the theorems
--     hold for every answer. Command: gdo_control_open, gdo_control_close, user_close_task. Door:
--     set_last_door_state, process_door_position. Event: gdo_event_handler. Warning: the auto-close
--     and the scheduled close. Watchdog: the parts of a round of gdo_watchdog_task. Settings: the
--     setters and loaders. Run: the handlers as operations, and any sequence of them; a handler that
--     waits for a warning is two operations, with any others between them.
--     Round: a whole round with its retry budget, and what other tasks do at each point where it does
--     not hold the lock. Sound: what always holds of the variables, from the load of the settings on.
--     Resync: the sync failures.
--   HomeKit: main/homekit.cpp. The queue of notifications, what is remembered as sent, and the
--     updates that HAP was given. Whether a send is accepted is an argument. Writes: the set
--     callbacks of the services. Light: the light after a write, as the task runs on.
--   Admin: main/diag_webserver.cpp, the admin password. PBKDF2 is an argument `kdf`. The state
--     holds the record in NVS too. Restart: the password over a restart.
--   Ota: main/diag_webserver.cpp, firmware updates. A trace holds the slots that were erased,
--     the images that esp_ota_end() accepted, and the slots that were made the one to boot.
--   Log: main/log_ring_buffer.cpp, the ring of the newest log bytes.
--   Activity: main/activity_history.cpp, the ring of the newest 32 events.
--   Origin: main/request_origin.h, which requests come from the device's own page. Part says which
--     hosts are local, independently of the code.
--   Rolling: main/gdo-blaq-homekit.cpp, the rolling code and the protocol kept in flash. NVS is a
--     record of operations `Nvs`; `Laws` has what ESP-IDF documents of it.
--   Web: main/diag_webserver.cpp. Settings: the settings requests. World: the state that the handlers
--     share. Routes: every handler on it. Find: what strstr() finds. Start, Network, Restart: how the
--     server comes up, and its restart beside the network events as a step relation, where a step
--     lies between two statements of the task, and a trace holds its stops and starts.
--     Status: the status answer as text, whose numbers are printed by Print; a 32-bit number has ten
--     digits and a 64-bit one 19 at most. Object: a reader of flat JSON objects. Escape: the version
--     texts of the status; `Json` reads them back as RFC 8259 says. Body: how a request is read;
--     `strstr` is in Prelude/Cstr.
--   PreClose: main/pre_close_warning.c. A warning is the list of what the pins show, and for how long.
--     Its loop runs on fuel: one more round than the duration has half seconds begun.
--   Counters: main/diagnostics_counters.c, the counts of two log messages.
--   Clock: main/clock_sync.cpp. localtime_r() and strftime() are arguments.
--   Startup: app_main, homekit_task_entry up to its loop and app_wifi_init (main/wifi.cpp), as the
--     calls that they make.
--
-- Numbers: `uint32_t` counters wrap at 2^32 (`u32`), and the theorems on the generation assume fewer
-- than 2^32 operations between two states, since a counter that wraps comes back. Times are
-- milliseconds since boot, as natural numbers; `a - b > c` of the code is written `b + c < a`.
--
-- A handler that holds ControlGuard for its whole body is one step. Not modelled: log output, the HTML
-- pages, HTTP transport, mDNS, the set-up of pins and of the HAP services,
-- which are text, or calls of ESP-IDF, cJSON and the HAP SDK; and in a list of handled requests the
-- lines of the activity history that a handler adds.
pub mod Prelude
pub mod Retry
pub mod Form
pub mod Schedule
pub mod Opener
pub mod Control
pub mod HomeKit
pub mod Admin
pub mod Ota
pub mod Log
pub mod Activity
pub mod Origin
pub mod Rolling
pub mod Web
pub mod PreClose
pub mod Counters
pub mod Clock
pub mod Startup
