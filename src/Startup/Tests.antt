-- ===== src/Startup/Tests.antt =====
-- Tests of the start.
use gdo_blaq_homekit.Prelude.{◌≡◌, refl, true, false, [], ◌∷◌}
use gdo_blaq_homekit.Startup.{
  nvs_flash_init, nvs_flash_erase, make_control_mutex, auto_close_settings_load,
  close_schedule_settings_load, counters_init, record_boot, make_semaphores, warning_init,
  make_notif_queue, register_shutdown, ready, recoverable, Answers, check, nvs_start, app_main,
}

-- A flash of an older format, and a restart protection that cannot be registered.
abbrev older_flash : Answers
older_flash = record {
  first_init = recoverable;
  erased = true;
  second_init = ready;
  mutex = true;
  semaphores = true;
  shutdown_registered = false;
  gdo_initialized = true;
  gdo_started = true;
}

stops_unprotected :
    app_main older_flash
    ≡ nvs_flash_init ∷ nvs_flash_erase ∷ nvs_flash_init ∷ make_control_mutex
      ∷ auto_close_settings_load ∷ close_schedule_settings_load ∷ counters_init ∷ record_boot
      ∷ make_semaphores ∷ warning_init ∷ make_notif_queue ∷ register_shutdown ∷ []
unfolding app_main nvs_start check
stops_unprotected = refl
