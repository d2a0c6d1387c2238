-- ===== src/Web/Status/Parts.antt =====
-- That each member of the status answer reads as one.
use gdo_blaq_homekit.Prelude.{
  ℕ, ◌/◌, ◌%◌, ◌^◌, ◌<◌, refl, List, [], Option, none, some, codes, arith,
}
use gdo_blaq_homekit.Prelude.Int.{ℤ, pos, negsuc, ◌+ℤ◌}
use gdo_blaq_homekit.Opener.{DoorState, LightState, LockState, ObstructionState, MotionState}
use gdo_blaq_homekit.Schedule.Bytes.{tz_valid-is_clean}
use gdo_blaq_homekit.Control.Sound.{IsSound}
use gdo_blaq_homekit.Control.Warning.{auto_close_remaining_ms}
use gdo_blaq_homekit.Control.{Control}
use gdo_blaq_homekit.Ota.{Ota}
use gdo_blaq_homekit.Log.{Log, log_used}
use gdo_blaq_homekit.Web.Json.{IsBytes}
use gdo_blaq_homekit.Web.Pages.{rssi_pct, remaining_s, pending_ms}
use gdo_blaq_homekit.Web.Print.{Member, as_it_is, decimal}
use gdo_blaq_homekit.Web.Object.{value_text, reads, read_byte}
use gdo_blaq_homekit.Web.Members.{
  ◌&◌, IsInside, IsValue, AllGood, word-IsValue, decimal-IsValue, IsLong, signed-IsValue,
}
use gdo_blaq_homekit.Web.Texts.{
  escape_json_version-IsInside, HasNoNul, clean-IsInside, time-IsInside,
}
use gdo_blaq_homekit.Web.World.{World}
use gdo_blaq_homekit.Web.Status.{
  ResetReason, power_on, external, software, panic, int_wdt, task_wdt, wdt, deep_sleep, brownout,
  sdio, unknown_reset, reset_reason_to_string, safe_str, Readings, rssi_or_0, label_or, text_or,
  image_of, image_label, image_version, device_members, settings_members, firmware_members,
  is_there, is_eligible,
}

-- A text that needs no escape.
abbrev pub IsPlain : List ℕ → Type 0
IsPlain s = IsInside value_text s

-- What gdolib and ESP-IDF give needs no escape, a version has bytes, and a number is that of its type.
pub record IsPrintable (r : Readings) : Type 0 where
  pub door : (d : DoorState) → IsPlain (safe_str (r.state_names.door d))
  pub light : (d : LightState) → IsPlain (safe_str (r.state_names.light d))
  pub lock : (d : LockState) → IsPlain (safe_str (r.state_names.lock d))
  pub obstruction : (d : ObstructionState) → IsPlain (safe_str (r.state_names.obstruction d))
  pub motion : (d : MotionState) → IsPlain (safe_str (r.state_names.motion d))
  pub protocol : IsPlain (safe_str r.protocol)
  pub battery : IsPlain (safe_str r.battery)
  pub ip_address : IsPlain (text_or (codes "unknown") r.ip_address)
  pub local_time : IsPlain r.local_time
  pub label : (slot : ℕ) → IsPlain (r.label slot)
  pub version : IsBytes (text_or (codes "unknown") r.version)
  pub other_version : IsBytes (image_version (image_of r.other r.other_version))
  pub uptime : r.printed_at < 2 ^ 63
  pub free_heap : r.free_heap < 2 ^ 32
  pub min_free_heap : r.min_free_heap < 2 ^ 32
  pub rssi : IsLong (rssi_or_0 r.rssi)
  pub hap_sessions : IsLong r.hap_sessions
  pub rx_errors : r.counters.rx_signature_error < 2 ^ 32
  pub obstructions : r.counters.long_obstruction < 2 ^ 32
  pub openings : r.openings < 2 ^ 32

-- The same of the state: the numbers that no setter bounds, and the texts as C strings.
pub record IsMachine (r : Readings) (c : Control) (log : Log) (o : Ota) : Type 0 where
  pub log_bytes : log_used r.log_taken log < 2 ^ 32
  pub log_capacity : log.capacity < 2 ^ 32
  pub remaining : IsLong (remaining_s (auto_close_remaining_ms r.asked_at c))
  pub tz : HasNoNul c.close_schedule.tz
  pub pending : pending_ms r.now o < 2 ^ 63
  pub pending_version : IsBytes o.pending_version

reset_reason_to_string-IsPlain : (x : ResetReason) → IsPlain (reset_reason_to_string x)
unfolding reads read_byte
reset_reason_to_string-IsPlain power_on = refl
reset_reason_to_string-IsPlain external = refl
reset_reason_to_string-IsPlain software = refl
reset_reason_to_string-IsPlain panic = refl
reset_reason_to_string-IsPlain int_wdt = refl
reset_reason_to_string-IsPlain task_wdt = refl
reset_reason_to_string-IsPlain wdt = refl
reset_reason_to_string-IsPlain deep_sleep = refl
reset_reason_to_string-IsPlain brownout = refl
reset_reason_to_string-IsPlain sdio = refl
reset_reason_to_string-IsPlain unknown_reset = refl

label_or-IsPlain :
    (missing : List ℕ) (label : ℕ → List ℕ) (o : Option ℕ)
    → IsPlain missing
    → ((slot : ℕ) → IsPlain (label slot))
    → IsPlain (label_or missing label o)
label_or-IsPlain missing label none h k = h
label_or-IsPlain missing label (some slot) h k = k slot

image_label-IsPlain :
    (label : ℕ → List ℕ) (image : Option (ℕ × List ℕ))
    → ((slot : ℕ) → IsPlain (label slot))
    → IsPlain (image_label label image)
unfolding reads read_byte
image_label-IsPlain label none h = refl
image_label-IsPlain label (some image) h = h image.0

unsigned-IsValue : (n : ℕ) → n < 2 ^ 32 → IsValue (as_it_is (decimal 10 n))
unsigned-IsValue n h = decimal-IsValue 9 n (omega (arith, h))

pub firmware_members-AllGood :
    (r : Readings) (pending : ℕ) (w : World)
    → IsPrintable r
    → pending < 2 ^ 63
    → IsBytes w.ota.pending_version
    → AllGood (firmware_members r pending w)
unfolding reads read_byte
firmware_members-AllGood r pending w h p v =
    let o = w.ota in
    let image = image_of r.other r.other_version in
    (refl, label_or-IsPlain (codes "unknown") r.label r.running refl h.label)
    & (
      refl,
      escape_json_version-IsInside value_text (text_or (codes "unknown") r.version) 200 h.version,
    )
    & (refl, image_label-IsPlain r.label image h.label)
    & (refl, escape_json_version-IsInside value_text (image_version image) 200 h.other_version)
    & (refl, word-IsValue (is_there o.pending_partition))
    & (refl, escape_json_version-IsInside value_text o.pending_version 200 v)
    & (refl, label_or-IsPlain [] r.label o.pending_partition refl h.label)
    & (refl, signed-IsValue (pos pending) p)
    & (refl, word-IsValue (is_eligible r w))
    & (refl, word-IsValue w.admin.password_set)
    & (refl, word-IsValue w.control.pairing_fault)
    & tt

pub settings_members-AllGood :
    (r : Readings) (w : World) (o : Ota) (more : List Member)
    → IsPrintable r
    → IsMachine r w.control w.log o
    → IsSound w.control
    → AllGood more
    → AllGood (settings_members r w more)
unfolding reads read_byte
settings_members-AllGood r w o more h k v rest =
    let c = w.control in
    let minute = c.close_schedule.minute in
    (refl, unsigned-IsValue (log_used r.log_taken w.log) k.log_bytes)
    & (refl, unsigned-IsValue w.log.capacity k.log_capacity)
    & (refl, word-IsValue c.auto_close_enabled)
    & (refl, unsigned-IsValue (c.auto_close_timeout_ms / 60000) (omega (arith, v.timeout_high)))
    & (refl, word-IsValue r.buzzer)
    & (refl, signed-IsValue (remaining_s (auto_close_remaining_ms r.asked_at c)) k.remaining)
    & (refl, word-IsValue c.close_schedule.enabled)
    & (refl, time-IsInside value_text (minute / 60) (minute % 60))
    & (
      refl,
      clean-IsInside value_text c.close_schedule.tz k.tz
          (tz_valid-is_clean c.close_schedule.tz v.schedule.tz),
    )
    & (refl, word-IsValue r.clock_synced)
    & (refl, h.local_time)
    & (refl, unsigned-IsValue r.counters.rx_signature_error h.rx_errors)
    & (refl, unsigned-IsValue r.counters.long_obstruction h.obstructions)
    & (refl, unsigned-IsValue r.openings h.openings)
    & (refl, h.battery)
    & rest

rssi_pct-IsLong : (rssi : Option ℤ) → IsLong (pos (rssi_pct rssi))
unfolding rssi_pct ◌+ℤ◌
rssi_pct-IsLong none = omega arith
rssi_pct-IsLong (some (pos n)) = ground arith
rssi_pct-IsLong (some (negsuc n)) = ground arith

pub device_members-AllGood :
    (r : Readings) (w : World) (more : List Member)
    → IsPrintable r
    → AllGood more
    → AllGood (device_members r w more)
unfolding reads read_byte
device_members-AllGood r w more h rest =
    let c = w.control in
    (refl, h.door c.last_door)
    & (refl, h.light c.last_light)
    & (refl, h.lock c.last_lock)
    & (refl, h.obstruction c.last_obstruction)
    & (refl, h.motion c.last_motion)
    & (refl, h.protocol)
    & (refl, word-IsValue r.synced)
    & (refl, signed-IsValue (pos (r.printed_at / 1000)) (omega (arith, h.uptime)))
    & (refl, unsigned-IsValue r.free_heap h.free_heap)
    & (refl, unsigned-IsValue r.min_free_heap h.min_free_heap)
    & (refl, signed-IsValue (rssi_or_0 r.rssi) h.rssi)
    & (refl, signed-IsValue (pos (rssi_pct r.rssi)) (rssi_pct-IsLong r.rssi))
    & (refl, word-IsValue (is_there r.rssi))
    & (refl, h.ip_address)
    & (refl, signed-IsValue r.hap_sessions h.hap_sessions)
    & (refl, reset_reason_to_string-IsPlain r.reset_reason)
    & rest
