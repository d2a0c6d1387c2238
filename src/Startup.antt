-- ===== src/Startup.antt =====
-- main/gdo-blaq-homekit.cpp, main/homekit.cpp and main/wifi.cpp: app_main, the first part of
-- homekit_task_entry and app_wifi_init, as the calls that they make in order. ESP_ERROR_CHECK and
-- configASSERT stop the device where a call fails; what each call answers is an argument.
pub mod Order
pub mod Tests
use gdo_blaq_homekit.Prelude.{
  Bool, true, false, not, ◌&&◌, ◌||◌, if◌then◌else◌, List, [], ◌∷◌, ◌++◌,
}

-- The calls.
pub data Call : Type 0 where
  nvs_flash_init nvs_flash_erase make_control_mutex auto_close_settings_load : Call
  close_schedule_settings_load counters_init record_boot make_semaphores warning_init : Call
  make_notif_queue register_shutdown gdo_init load_persisted gdo_start : Call
  start_homekit start_watchdog start_webserver : Call
  read_mac wait_for_protocol random_enable hap_init random_disable add_accessory add_learn : Call
  wifi_connect start_setup_page clock_sync_start hap_start : Call
  register_wifi_events register_ip_events register_hap_events : Call
  start_network_watchdog start_hap_watchdog : Call

-- What nvs_flash_init() answers: ESP_OK, one of the two errors that an erase cures, or another.
pub data NvsInit : Type 0 where
  ready recoverable broken : NvsInit

pub record Answers : Type 0 where
  pub first_init : NvsInit
  pub erased : Bool
  pub second_init : NvsInit
  pub mutex : Bool
  pub semaphores : Bool
  pub shutdown_registered : Bool
  pub gdo_initialized : Bool
  pub gdo_started : Bool

-- A call that stops the device unless it succeeds.
unfoldable pub check : Call → Bool → List Call → List Call
check c true rest = c ∷ rest
check c false rest = c ∷ []

abbrev pub is_ready : NvsInit → Bool
is_ready ready = true
is_ready _ = false

unfoldable pub nvs_start : NvsInit → Answers → List Call → List Call
unfolding check
nvs_start ready a rest = nvs_flash_init ∷ rest
nvs_start recoverable a rest =
    nvs_flash_init
    ∷ check nvs_flash_erase a.erased (check nvs_flash_init (is_ready a.second_init) rest)
nvs_start broken a rest = nvs_flash_init ∷ []

-- `app_main`.
unfoldable pub app_main : Answers → List Call
unfolding check
app_main a = nvs_start a.first_init a (
    check make_control_mutex a.mutex (
      auto_close_settings_load
      ∷ close_schedule_settings_load
      ∷ counters_init
      ∷ record_boot
      ∷ check make_semaphores a.semaphores (
          warning_init
          ∷ make_notif_queue
          ∷ check register_shutdown a.shutdown_registered (
              check gdo_init a.gdo_initialized (
                load_persisted
                ∷ check gdo_start a.gdo_started
                    (start_homekit ∷ start_watchdog ∷ start_webserver ∷ []))))))

-- What nvs_wifi_connect() and esp_wifi_get_mode() answer.
pub data WifiMode : Type 0 where
  station access_point other_mode : WifiMode

-- `app_wifi_init`.
unfoldable pub app_wifi_init : Bool → WifiMode → List Call
app_wifi_init false mode = wifi_connect ∷ start_setup_page ∷ []
app_wifi_init true access_point = wifi_connect ∷ start_setup_page ∷ []
app_wifi_init true mode = wifi_connect ∷ []

abbrev pub is_station : WifiMode → Bool
is_station station = true
is_station _ = false

unfoldable pub only_if : Bool → Call → List Call
only_if true c = c ∷ []
only_if false c = []

-- `homekit_task_entry` up to its loop: whether the MAC can be read, whether Learn Mode is supported,
-- whether nvs_wifi_connect() succeeds, the mode that app_wifi_init() reads and the one that is read
-- after it, and whether the three handlers can be registered.
unfoldable pub homekit_task_entry :
    Bool → Bool → Bool → WifiMode → WifiMode → Bool → Bool → Bool → List Call
unfolding check
homekit_task_entry read learn connected mode mode_after wifi ip hap = check read_mac read (
    wait_for_protocol
    ∷ make_notif_queue
    ∷ random_enable
    ∷ hap_init
    ∷ random_disable
    ∷ add_accessory
    ∷ (only_if learn add_learn
        ++ app_wifi_init connected mode
        ++ clock_sync_start
          ∷ (only_if (is_station mode_after) hap_start
              ++ check register_wifi_events wifi (
                  check register_ip_events ip (
                    check register_hap_events hap (
                      start_network_watchdog
                      ∷ only_if (is_station mode_after) start_hap_watchdog))))))
