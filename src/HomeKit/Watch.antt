-- ===== src/HomeKit/Watch.antt =====
-- main/homekit.cpp: network_watchdog_task, minimal_hap_watchdog_task and wifi_event_handler, on the
-- calls of the WiFi driver and of HAP.
use gdo_blaq_homekit.Prelude.{
  ℕ, suc, ◌+◌, ◌*◌, length, ◌≡◌, refl, Bool, false, not, ◌&&◌, ◌||◌, if◌then◌else◌, List, [], ◌∷◌,
  ◌++◌, arith,
}
use gdo_blaq_homekit.Web.Restart.{Web, network_event}

-- `disconnect` and `connect` are esp_wifi_disconnect() and esp_wifi_connect(), the next two hap_stop()
-- and hap_start().
pub data WifiCall : Type 0 where
  disconnect connect stop_hap start_hap : WifiCall
  delay_ms : ℕ → WifiCall

-- What one round finds: whether esp_wifi_get_mode() gives the station mode, whether there is an
-- interface, an access point, and an address that is not 0.
pub record Seen : Type 0 where
  pub station : Bool
  pub netif : Bool
  pub wifi_ok : Bool
  pub ip_ok : Bool

-- One round of `network_watchdog_task`.
unfoldable pub watchdog_round : Seen → List WifiCall
watchdog_round s =
    if not s.station || not s.netif
    then delay_ms 5000 ∷ []
    else if not s.wifi_ok || not s.ip_ok
    then disconnect ∷ delay_ms 500 ∷ connect ∷ delay_ms 5000 ∷ []
    else delay_ms 5000 ∷ []

-- The events of `wifi_event_handler`.
pub data NetEvent : Type 0 where
  sta_disconnected got_ip other_net : NetEvent

-- `wifi_event_handler`: the calls of the driver, and what diag_webserver_restart() does; `created`
-- tells whether it can make its task.
unfoldable pub wifi_event : NetEvent → Bool → Web → List WifiCall × Web
wifi_event sta_disconnected created w = (connect ∷ [], w)
wifi_event got_ip created w = ([], network_event created w)
wifi_event other_net created w = ([], w)

-- `homekit_transport_unhealthy`.
abbrev pub transport_unhealthy : Bool
transport_unhealthy = false

-- `restart_homekit_transport`, without the time that it notes.
abbrev pub restart_transport : List WifiCall
restart_transport = stop_hap ∷ delay_ms 250 ∷ start_hap ∷ []

-- One round of `minimal_hap_watchdog_task`.
abbrev pub hap_watchdog_round : List WifiCall
hap_watchdog_round = (if transport_unhealthy then restart_transport else []) ++ delay_ms 30000 ∷ []

unfoldable pub watchdog : List Seen → List WifiCall
watchdog [] = []
watchdog (s ∷ ss) = watchdog_round s ++ watchdog ss

abbrev pub connects : List WifiCall → ℕ
connects [] = 0
connects (connect ∷ cs) = suc (connects cs)
connects (_ ∷ cs) = connects cs

abbrev pub slept_ms : List WifiCall → ℕ
slept_ms [] = 0
slept_ms (delay_ms n ∷ cs) = n + slept_ms cs
slept_ms (_ ∷ cs) = slept_ms cs

-- The rounds that find a station without a network.
abbrev pub lost_rounds : List Seen → ℕ
lost_rounds [] = 0
lost_rounds (s ∷ ss) =
    (if s.station && s.netif && not (s.wifi_ok && s.ip_ok) then 1 else 0) + lost_rounds ss

connects-append : (cs ds : List WifiCall) → connects (cs ++ ds) ≡ connects cs + connects ds
connects-append [] ds = omega arith
connects-append (disconnect ∷ cs) ds = connects-append cs ds
connects-append (stop_hap ∷ cs) ds = connects-append cs ds
connects-append (start_hap ∷ cs) ds = connects-append cs ds
connects-append (connect ∷ cs) ds = omega (arith, connects-append cs ds)
connects-append (delay_ms n ∷ cs) ds = connects-append cs ds

slept-append : (cs ds : List WifiCall) → slept_ms (cs ++ ds) ≡ slept_ms cs + slept_ms ds
slept-append [] ds = omega arith
slept-append (disconnect ∷ cs) ds = slept-append cs ds
slept-append (stop_hap ∷ cs) ds = slept-append cs ds
slept-append (start_hap ∷ cs) ds = slept-append cs ds
slept-append (connect ∷ cs) ds = slept-append cs ds
slept-append (delay_ms n ∷ cs) ds = omega (arith, slept-append cs ds)

round_lem :
    (s : Seen)
    → (connects (watchdog_round s) ≡ lost_rounds (s ∷ []))
      × (slept_ms (watchdog_round s) ≡ 5000 + 500 * lost_rounds (s ∷ []))
unfolding watchdog_round
round_lem s = ground arith

-- The network watchdog reconnects a lost station and nothing else: over any rounds it connects once
-- for each that finds the station mode and an interface without access point or address, never in
-- setup mode, and sleeps five seconds a round, half a second more where it reconnects.
pub watchdog_lem :
    (ss : List Seen)
    → (connects (watchdog ss) ≡ lost_rounds ss)
      × (slept_ms (watchdog ss) ≡ 5000 * length ss + 500 * lost_rounds ss)
unfolding watchdog
watchdog_lem [] = (refl, refl)
watchdog_lem (s ∷ ss) =
    let (c, d) = round_lem s in
    let (e, f) = watchdog_lem ss in
    let g = connects-append (watchdog_round s) (watchdog ss) in
    let h = slept-append (watchdog_round s) (watchdog ss) in (omega arith, omega arith)

-- The watch on the HAP transport never tears a session down: it only sleeps.
hap_watchdog_only_sleeps : hap_watchdog_round ≡ delay_ms 30000 ∷ []
hap_watchdog_only_sleeps = refl
