-- ===== src/Startup/Order.antt =====
-- What has been done by the time that a call is made.
use gdo_blaq_homekit.Prelude.{
  ℕ, ◌≡◌, Bool, true, false, not, ◌&&◌, ◌||◌, ◌==◌, List, [], ◌∷◌, arith,
}
use gdo_blaq_homekit.Startup.{
  Call, nvs_flash_init, nvs_flash_erase, make_control_mutex, auto_close_settings_load,
  close_schedule_settings_load, counters_init, record_boot, make_semaphores, warning_init,
  make_notif_queue, register_shutdown, gdo_init, load_persisted, gdo_start, start_homekit,
  start_watchdog, start_webserver, wait_for_protocol, random_enable, hap_init, random_disable,
  add_accessory, add_learn, wifi_connect, start_setup_page, clock_sync_start, hap_start,
  register_wifi_events, register_ip_events, register_hap_events, start_network_watchdog,
  start_hap_watchdog, read_mac, NvsInit, recoverable, Answers, check, is_ready, nvs_start, app_main,
  WifiMode, app_wifi_init, is_station, only_if, homekit_task_entry,
}

abbrev pub call_code : Call → ℕ
call_code nvs_flash_init = 0
call_code nvs_flash_erase = 1
call_code make_control_mutex = 2
call_code auto_close_settings_load = 3
call_code close_schedule_settings_load = 4
call_code counters_init = 5
call_code record_boot = 6
call_code make_semaphores = 7
call_code warning_init = 8
call_code make_notif_queue = 9
call_code register_shutdown = 10
call_code gdo_init = 11
call_code load_persisted = 12
call_code gdo_start = 13
call_code start_homekit = 14
call_code start_watchdog = 15
call_code start_webserver = 16
call_code wait_for_protocol = 17
call_code random_enable = 18
call_code hap_init = 19
call_code random_disable = 20
call_code add_accessory = 21
call_code add_learn = 22
call_code wifi_connect = 23
call_code start_setup_page = 24
call_code clock_sync_start = 25
call_code hap_start = 26
call_code register_wifi_events = 27
call_code register_ip_events = 28
call_code register_hap_events = 29
call_code start_network_watchdog = 30
call_code start_hap_watchdog = 31
call_code read_mac = 32

abbrev pub is_call : Call → Call → Bool
is_call c d = call_code c == call_code d

abbrev pub made : Call → List Call → Bool
made c [] = false
made c (d ∷ ds) = is_call c d || made c ds

-- Every call of `b` in the list has one of `a` before it.
abbrev pub preceded : Call → Call → List Call → Bool
preceded a b [] = true
preceded a b (c ∷ cs) = not (is_call b c) && (is_call a c || preceded a b cs)

-- The opener interface starts last and on firm ground: where gdo_start() is called, the flash
-- storage, the settings, the semaphores, the notification queue, the restart protection and
-- gdo_init() come before it, and so does the load of the rolling code, which comes after
-- gdo_init(); the tasks that use the opener start after it.
pub app_main-order :
    (a : Answers)
    → let calls = app_main a in
      (preceded nvs_flash_init auto_close_settings_load calls ≡ true)
      × (preceded auto_close_settings_load gdo_start calls ≡ true)
      × (preceded make_semaphores gdo_start calls ≡ true)
      × (preceded make_notif_queue gdo_start calls ≡ true)
      × (preceded register_shutdown gdo_init calls ≡ true)
      × (preceded gdo_init load_persisted calls ≡ true)
      × (preceded load_persisted gdo_start calls ≡ true)
      × (preceded gdo_start start_homekit calls ≡ true)
      × (preceded gdo_start start_webserver calls ≡ true)
unfolding app_main nvs_start check
app_main-order a = ground arith

abbrev pub is_recoverable : NvsInit → Bool
is_recoverable recoverable = true
is_recoverable _ = false

abbrev pub storage_ready : Answers → Bool
storage_ready a =
    is_ready a.first_init || (is_recoverable a.first_init && a.erased && is_ready a.second_init)

-- The device comes up exactly if every call that is checked succeeds: flash storage that needs it is
-- erased and initialized again, and only such.
pub app_main-starts :
    (a : Answers)
    → let calls = app_main a in
      (made start_webserver calls ≡ (
        storage_ready a
        && a.mutex
        && a.semaphores
        && a.shutdown_registered
        && a.gdo_initialized
        && a.gdo_started))
      × (made nvs_flash_erase calls ≡ is_recoverable a.first_init)
unfolding app_main nvs_start check
app_main-starts a = ground arith

-- HomeKit and the setup page do not share port 80, and keys are made with entropy: where the MAC can
-- be read, hap_start() is called exactly if the WiFi is in station mode after its start, and so
-- is the task that watches it, if the handlers of the events can be registered; hap_init() comes
-- after the random source is on, the accessory before hap_start(), and the Learn tile is there
-- exactly if it is supported.
pub homekit_task_entry-order :
    (read learn connected : Bool) (mode mode_after : WifiMode) (wifi ip hap : Bool)
    → let calls = homekit_task_entry read learn connected mode mode_after wifi ip hap in
      (made hap_start calls ≡ (read && is_station mode_after))
      × (made start_hap_watchdog calls ≡ (read && is_station mode_after && wifi && ip && hap))
      × (preceded random_enable hap_init calls ≡ true)
      × (preceded add_accessory hap_start calls ≡ true)
      × (preceded wait_for_protocol add_learn calls ≡ true)
      × (made add_learn calls ≡ (read && learn))
unfolding homekit_task_entry app_wifi_init only_if check
homekit_task_entry-order read learn connected mode mode_after wifi ip hap = ground arith
