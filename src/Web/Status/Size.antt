-- ===== src/Web/Status/Size.antt =====
-- The size of the status answer.
use gdo_blaq_homekit.Prelude.{
  ℕ, ◌+◌, ◌/◌, ◌%◌, ◌≤◌, ◌<◌, ◌≡◌, Bool, true, false, List, [], ◌∷◌, ◌++◌, Option, none, some,
  length, length-append, arith, codes,
}
use gdo_blaq_homekit.Prelude.Int.{pos}
use gdo_blaq_homekit.Opener.{DoorState, LightState, LockState, ObstructionState, MotionState}
use gdo_blaq_homekit.Schedule.Tz.{tz_valid}
use gdo_blaq_homekit.Control.Sound.{IsSound}
use gdo_blaq_homekit.Control.Warning.{auto_close_remaining_ms}
use gdo_blaq_homekit.Control.{boot}
use gdo_blaq_homekit.Control.Run.{Op, run}
use gdo_blaq_homekit.Control.Sound.Runs.{run-IsSound, boot-IsSound}
use gdo_blaq_homekit.Log.{log_used}
use gdo_blaq_homekit.Web.Json.{length-escape_json_version}
use gdo_blaq_homekit.Web.Pages.{rssi_pct, remaining_s, pending_ms, status_get}
use gdo_blaq_homekit.Web.Print.{
  Member, word, padded, size, show_all, length-show_all, length-decimal, length-signed,
  length-padded,
}
use gdo_blaq_homekit.Web.World.{World}
use gdo_blaq_homekit.Web.Status.{
  ResetReason, power_on, external, software, panic, int_wdt, task_wdt, wdt, deep_sleep, brownout,
  sdio, unknown_reset, reset_reason_to_string, safe_str, Readings, rssi_or_0, version_json,
  label_or, text_or, image_of, image_label, image_version, device_members, settings_members,
  firmware_members, members, status_buffer, sent_body, status_get_handler, is_there, is_eligible,
}

-- What comes from outside is short: names of 24 bytes at most, and the texts that have a buffer in
-- the code or in ESP-IDF, of 16, 24 and 17 bytes with their NUL.
pub record IsShort (r : Readings) : Type 0 where
  pub door : (d : DoorState) → length (safe_str (r.state_names.door d)) ≤ 24
  pub light : (d : LightState) → length (safe_str (r.state_names.light d)) ≤ 24
  pub lock : (d : LockState) → length (safe_str (r.state_names.lock d)) ≤ 24
  pub obstruction : (d : ObstructionState) → length (safe_str (r.state_names.obstruction d)) ≤ 24
  pub motion : (d : MotionState) → length (safe_str (r.state_names.motion d)) ≤ 24
  pub protocol : length (safe_str r.protocol) ≤ 24
  pub battery : length (safe_str r.battery) ≤ 24
  pub ip_address : length (text_or (codes "unknown") r.ip_address) ≤ 15
  pub local_time : length r.local_time ≤ 23
  pub label : (slot : ℕ) → length (r.label slot) ≤ 16

length-word : (b : Bool) → length (word b) ≤ 5
length-word true = omega arith
length-word false = omega arith

length-reset_reason_to_string : (r : ResetReason) → length (reset_reason_to_string r) ≤ 22
length-reset_reason_to_string power_on = omega arith
length-reset_reason_to_string external = omega arith
length-reset_reason_to_string software = omega arith
length-reset_reason_to_string panic = omega arith
length-reset_reason_to_string int_wdt = omega arith
length-reset_reason_to_string task_wdt = omega arith
length-reset_reason_to_string wdt = omega arith
length-reset_reason_to_string deep_sleep = omega arith
length-reset_reason_to_string brownout = omega arith
length-reset_reason_to_string sdio = omega arith
length-reset_reason_to_string unknown_reset = omega arith

length-tz : (tz : List ℕ) → tz_valid tz ≡ true → length tz ≤ 63
unfolding tz_valid
length-tz tz h = ground (arith, h)

length-label_or :
    (missing : List ℕ) (label : ℕ → List ℕ) (o : Option ℕ)
    → length missing ≤ 16
    → ((slot : ℕ) → length (label slot) ≤ 16)
    → length (label_or missing label o) ≤ 16
length-label_or missing label none h k = h
length-label_or missing label (some slot) h k = k slot

length-version_json : (version : List ℕ) → length (version_json version) ≤ 199
length-version_json version = omega (arith, length-escape_json_version version 200 (omega arith))

length-time :
    (minute : ℕ) → minute < 1440 → length (padded (minute / 60) ++ b':' ∷ padded (minute % 60)) ≡ 5
length-time minute h = omega (
  arith,
  length-append (padded (minute / 60)) (b':' ∷ padded (minute % 60)),
  length-padded (minute / 60) (omega (arith, h)),
  length-padded (minute % 60) (omega arith),
)

length-image_label :
    (label : ℕ → List ℕ) (image : Option (ℕ × List ℕ))
    → ((slot : ℕ) → length (label slot) ≤ 16)
    → length (image_label label image) ≤ 16
length-image_label label none h = omega arith
length-image_label label (some image) h = h image.0

size-firmware_members :
    (r : Readings) (pending : ℕ) (w : World)
    → IsShort r
    → size (firmware_members r pending w) ≤ 1000
size-firmware_members r pending w h =
    let o = w.ota in
    let image = image_of r.other r.other_version in
    omega (
      arith,
      length-label_or (codes "unknown") r.label r.running (omega arith) h.label,
      length-version_json (text_or (codes "unknown") r.version),
      length-image_label r.label image h.label,
      length-version_json (image_version image),
      length-word (is_there o.pending_partition),
      length-version_json o.pending_version,
      length-label_or [] r.label o.pending_partition (omega arith) h.label,
      length-signed (pos pending),
      length-word (is_eligible r w),
      length-word w.admin.password_set,
      length-word w.control.pairing_fault,
    )

size-settings_members :
    (r : Readings) (w : World) (more : List Member)
    → IsShort r
    → IsSound w.control
    → size (settings_members r w more) ≤ 660 + size more
size-settings_members r w more h v =
    let c = w.control in
    omega (
      arith,
      length-decimal 10 (log_used r.log_taken w.log),
      length-decimal 10 w.log.capacity,
      length-word c.auto_close_enabled,
      length-decimal 10 (c.auto_close_timeout_ms / 60000),
      length-word r.buzzer,
      length-signed (remaining_s (auto_close_remaining_ms r.asked_at c)),
      length-word c.close_schedule.enabled,
      length-time c.close_schedule.minute v.schedule.minute,
      length-tz c.close_schedule.tz v.schedule.tz,
      length-word r.clock_synced,
      h.local_time,
      length-decimal 10 r.counters.rx_signature_error,
      length-decimal 10 r.counters.long_obstruction,
      length-decimal 10 r.openings,
      h.battery,
    )

size-device_members :
    (r : Readings) (w : World) (more : List Member)
    → IsShort r
    → size (device_members r w more) ≤ 800 + size more
size-device_members r w more h =
    let c = w.control in
    omega (
      arith,
      h.door c.last_door,
      h.light c.last_light,
      h.lock c.last_lock,
      h.obstruction c.last_obstruction,
      h.motion c.last_motion,
      h.protocol,
      length-word r.synced,
      length-signed (pos (r.printed_at / 1000)),
      length-decimal 10 r.free_heap,
      length-decimal 10 r.min_free_heap,
      length-signed (rssi_or_0 r.rssi),
      length-signed (pos (rssi_pct r.rssi)),
      length-word (is_there r.rssi),
      h.ip_address,
      length-signed r.hap_sessions,
      length-reset_reason_to_string r.reset_reason,
    )

size-members :
    (r : Readings) (pending : ℕ) (w : World)
    → IsShort r
    → IsSound w.control
    → size (members r pending w) < status_buffer
size-members r pending w h v =
    let firmware = firmware_members r pending w in
    let settings = settings_members r w firmware in
    omega (
      arith,
      size-firmware_members r pending w h,
      size-settings_members r w firmware h v,
      size-device_members r w settings h,
    )

sent_body-whole :
    (m : Member) (ms : List Member)
    → size (m ∷ ms) < status_buffer
    → (sent_body (show_all (m ∷ ms)) ≡ show_all (m ∷ ms))
      × (length (sent_body (show_all (m ∷ ms))) < status_buffer)
unfolding sent_body
sent_body-whole m ms h =
    let l = length-show_all m ms in (ground (arith, h, l), ground (arith, h, l))

-- The status answer is never cut off or left empty: whatever was done to the control state since the
-- start, and whatever the other parts of the state hold, the answer is the whole text with its
-- 42 members, where gdolib's names are of 24 bytes at most and the address, the local time and the
-- labels of the slots fit the buffers that they come in.
pub status_get_handler-whole :
    (r : Readings) (ops : List Op) (w : World)
    → IsShort r
    → w.control ≡ run ops boot
    → let (v, body) = status_get_handler r w in
      (body ≡ show_all (members r (pending_ms r.now w.ota) v)) × (length body < status_buffer)
unfolding status_get_handler
status_get_handler-whole r ops w h e =
    let pending = pending_ms r.now w.ota in
    let v : World = record w { ota = status_get r.now w.ota } in
    let sound : IsSound v.control = rw e (run-IsSound ops boot boot-IsSound) in
    sent_body-whole _ _ (size-members r pending v h sound)
