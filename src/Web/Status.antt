-- ===== src/Web/Status.antt =====
-- main/diag_webserver.cpp: status_get_handler, the status of the device as JSON text. gdolib's names of
-- its states, and what ESP-IDF knows of the chip, the network and the flash slots, are arguments.
pub mod Size
pub mod Parts
pub mod Object
use gdo_blaq_homekit.Prelude.{
  ℕ, ◌+◌, ◌/◌, ◌%◌, Bool, true, false, ◌&&◌, if◌then◌else◌, ltb, List, [], ◌∷◌, ◌++◌, Option, none,
  some, codes, length,
}
use gdo_blaq_homekit.Prelude.Int.{ℤ, pos}
use gdo_blaq_homekit.Opener.{Esp, DoorState, LightState, LockState, ObstructionState, MotionState}
use gdo_blaq_homekit.Counters.{Counters, rx_error_count_peek}
use gdo_blaq_homekit.Log.{log_used}
use gdo_blaq_homekit.Ota.{slot_eligible}
use gdo_blaq_homekit.Control.Warning.{auto_close_remaining_ms}
use gdo_blaq_homekit.Web.Escape.{escape_json_version}
use gdo_blaq_homekit.Web.Pages.{rssi_pct, remaining_s, pending_ms, status_get}
use gdo_blaq_homekit.Web.Print.{
  Value, in_quotes, as_it_is, Member, unsigned, signed, padded, decimal, word, show_all,
}
use gdo_blaq_homekit.Web.World.{World}

-- `esp_reset_reason_t`; `unknown_reset` is any other value.
pub data ResetReason : Type 0 where
  power_on external software panic int_wdt task_wdt wdt deep_sleep brownout sdio unknown_reset :
      ResetReason

abbrev pub reset_reason_to_string : ResetReason → List ℕ
reset_reason_to_string power_on = codes "Power-on"
reset_reason_to_string external = codes "External pin"
reset_reason_to_string software = codes "Software (esp_restart)"
reset_reason_to_string panic = codes "Panic/exception"
reset_reason_to_string int_wdt = codes "Interrupt watchdog"
reset_reason_to_string task_wdt = codes "Task watchdog"
reset_reason_to_string wdt = codes "Other watchdog"
reset_reason_to_string deep_sleep = codes "Deep sleep wake"
reset_reason_to_string brownout = codes "Brownout"
reset_reason_to_string sdio = codes "SDIO"
reset_reason_to_string unknown_reset = codes "Unknown"

-- `safe_str`; `none` is NULL.
abbrev pub safe_str : Option (List ℕ) → List ℕ
safe_str none = codes "null"
safe_str (some s) = s

-- gdolib's `…_to_string` of the states.
pub record Names : Type 0 where
  pub door : DoorState → Option (List ℕ)
  pub light : LightState → Option (List ℕ)
  pub lock : LockState → Option (List ℕ)
  pub obstruction : ObstructionState → Option (List ℕ)
  pub motion : MotionState → Option (List ℕ)

-- What the handler reads outside of the state that the handlers share: the names of the protocol and
-- the battery state, the times in ms (of the pending upload, of the auto-close and of the text), the heap, the network, the sessions, the partitions with
-- the versions of their images, the answers of NVS and of the ring's mutex, and the local time.
pub record Readings : Type 0 where
  pub state_names : Names
  pub protocol : Option (List ℕ)
  pub battery : Option (List ℕ)
  pub synced : Bool
  pub openings : ℕ
  pub now : ℕ
  pub asked_at : ℕ
  pub printed_at : ℕ
  pub free_heap : ℕ
  pub min_free_heap : ℕ
  pub rssi : Option ℤ
  pub ip_address : Option (List ℕ)
  pub hap_sessions : ℤ
  pub reset_reason : ResetReason
  pub log_taken : Bool
  pub buzzer : Bool
  pub clock_synced : Bool
  pub local_time : List ℕ
  pub counters : Counters
  pub label : ℕ → List ℕ
  pub running : Option ℕ
  pub version : Option (List ℕ)
  pub other : Option ℕ
  pub other_version : Option (List ℕ)
  pub opened : Esp

-- `have_other_version`: the other slot and the version of its image.
abbrev pub image_of : Option ℕ → Option (List ℕ) → Option (ℕ × List ℕ)
image_of (some slot) (some version) = some (slot, version)
image_of _ _ = none

abbrev pub label_or : List ℕ → (ℕ → List ℕ) → Option ℕ → List ℕ
label_or missing label none = missing
label_or missing label (some slot) = label slot

abbrev pub text_or : List ℕ → Option (List ℕ) → List ℕ
text_or missing none = missing
text_or missing (some s) = s

abbrev pub is_there {ℓ} : {A : Type ℓ} → Option A → Bool
is_there none = false
is_there (some a) = true

abbrev pub rssi_or_0 : Option ℤ → ℤ
rssi_or_0 none = pos 0
rssi_or_0 (some rssi) = rssi

-- A version text, escaped into a buffer of 200 bytes.
abbrev pub version_json : List ℕ → List ℕ
version_json version = escape_json_version version 200

abbrev pub text : List ℕ → List ℕ → Member
text key s = record { key = key; value = in_quotes s }

abbrev pub bare : List ℕ → List ℕ → Member
bare key s = record { key = key; value = as_it_is s }

abbrev pub flag : List ℕ → Bool → Member
flag key b = bare key (word b)

-- The opener, the chip and the network.
abbrev pub device_members : Readings → World → List Member → List Member
device_members r w more =
    let c = w.control in
    text (codes "door") (safe_str (r.state_names.door c.last_door))
    ∷ text (codes "light") (safe_str (r.state_names.light c.last_light))
    ∷ text (codes "lock") (safe_str (r.state_names.lock c.last_lock))
    ∷ text (codes "obstruction") (safe_str (r.state_names.obstruction c.last_obstruction))
    ∷ text (codes "motion") (safe_str (r.state_names.motion c.last_motion))
    ∷ text (codes "protocol") (safe_str r.protocol)
    ∷ flag (codes "gdo_synced") r.synced
    ∷ bare (codes "uptime_s") (signed (pos (r.printed_at / 1000)))
    ∷ bare (codes "free_heap") (unsigned r.free_heap)
    ∷ bare (codes "min_free_heap") (unsigned r.min_free_heap)
    ∷ bare (codes "wifi_rssi") (signed (rssi_or_0 r.rssi))
    ∷ bare (codes "wifi_rssi_pct") (signed (pos (rssi_pct r.rssi)))
    ∷ flag (codes "wifi_connected") (is_there r.rssi)
    ∷ text (codes "ip_address") (text_or (codes "unknown") r.ip_address)
    ∷ bare (codes "hap_sessions") (signed r.hap_sessions)
    ∷ text (codes "last_reset_reason") (reset_reason_to_string r.reset_reason)
    ∷ more

-- The log, the settings and the counts.
abbrev pub settings_members : Readings → World → List Member → List Member
settings_members r w more =
    let c = w.control in
    let minute = c.close_schedule.minute in
    bare (codes "log_buffer_used") (unsigned (log_used r.log_taken w.log))
    ∷ bare (codes "log_buffer_capacity") (unsigned w.log.capacity)
    ∷ flag (codes "auto_close_enabled") c.auto_close_enabled
    ∷ bare (codes "auto_close_minutes") (unsigned (c.auto_close_timeout_ms / 60000))
    ∷ flag (codes "pre_close_buzzer") r.buzzer
    ∷ bare (codes "auto_close_remaining_s")
        (signed (remaining_s (auto_close_remaining_ms r.asked_at c)))
    ∷ flag (codes "close_schedule_enabled") c.close_schedule.enabled
    ∷ text (codes "close_schedule_time") (padded (minute / 60) ++ b':' ∷ padded (minute % 60))
    ∷ text (codes "timezone") c.close_schedule.tz
    ∷ flag (codes "clock_synced") r.clock_synced
    ∷ text (codes "local_time") r.local_time
    ∷ bare (codes "rx_error_count") (unsigned (rx_error_count_peek r.counters))
    ∷ bare (codes "long_obstruction_count") (unsigned r.counters.long_obstruction)
    ∷ bare (codes "openings") (unsigned r.openings)
    ∷ text (codes "battery") (safe_str r.battery)
    ∷ more

-- `have_other_version && ota_slot_eligible(other_partition)`.
abbrev pub is_eligible : Readings → World → Bool
is_eligible r w = elim (image_of r.other r.other_version) [
  | none ↦ false
  | some image ↦ slot_eligible r.opened image.0 w.ota
]

abbrev pub image_label : (ℕ → List ℕ) → Option (ℕ × List ℕ) → List ℕ
image_label label none = codes "none"
image_label label (some image) = label image.0

abbrev pub image_version : Option (ℕ × List ℕ) → List ℕ
image_version none = codes "none"
image_version (some image) = image.1

-- The firmware; `pending` is `pending_ms`.
abbrev pub firmware_members : Readings → ℕ → World → List Member
firmware_members r pending w =
    let o = w.ota in
    let image = image_of r.other r.other_version in
    text (codes "running_partition") (label_or (codes "unknown") r.label r.running)
    ∷ text (codes "fw_version") (version_json (text_or (codes "unknown") r.version))
    ∷ text (codes "other_partition") (image_label r.label image)
    ∷ text (codes "other_fw_version") (version_json (image_version image))
    ∷ flag (codes "ota_pending") (is_there o.pending_partition)
    ∷ text (codes "ota_pending_version") (version_json o.pending_version)
    ∷ text (codes "ota_pending_partition") (label_or [] r.label o.pending_partition)
    ∷ bare (codes "ota_confirm_remaining_ms") (signed (pos pending))
    ∷ flag (codes "ota_rollback_eligible") (is_eligible r w)
    ∷ flag (codes "password_set") w.admin.password_set
    ∷ flag (codes "pairing_fault") w.control.pairing_fault
    ∷ []

abbrev pub members : Readings → ℕ → World → List Member
members r pending w = device_members r w (settings_members r w (firmware_members r pending w))

abbrev pub status_buffer : ℕ
status_buffer = 2560

-- What is sent: the text, unless it and its NUL do not fit the buffer.
unfoldable pub sent_body : List ℕ → List ℕ
sent_body s = if ltb 0 (length s) && ltb (length s) status_buffer then s else codes "{}"

-- `status_get_handler`: the state after it, and the body of the answer.
unfoldable pub status_get_handler : Readings → World → World × List ℕ
status_get_handler r w =
    let v = record w { ota = status_get r.now w.ota } in
    (v, sent_body (show_all (members r (pending_ms r.now w.ota) v)))
