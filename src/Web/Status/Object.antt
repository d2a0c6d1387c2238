-- ===== src/Web/Status/Object.antt =====
-- That the status answer is a JSON object.
use gdo_blaq_homekit.Prelude.{ℕ, ◌≡◌, ap, ◌∙◌, ◌==◌, inl, inr, Bool-cases, List}
use gdo_blaq_homekit.Control.Sound.{IsSound}
use gdo_blaq_homekit.Control.{boot}
use gdo_blaq_homekit.Control.Run.{Op, run}
use gdo_blaq_homekit.Control.Sound.Runs.{run-IsSound, boot-IsSound}
use gdo_blaq_homekit.Web.Status.Size.{IsShort, status_get_handler-whole}
use gdo_blaq_homekit.Ota.{Ota}
use gdo_blaq_homekit.Web.Json.{IsBytes}
use gdo_blaq_homekit.Web.Pages.{pending_ms, status_get}
use gdo_blaq_homekit.Web.Print.{show_all}
use gdo_blaq_homekit.Web.Object.{start, reads, IsObject}
use gdo_blaq_homekit.Web.Members.{AllGood, show_all-IsObject}
use gdo_blaq_homekit.Web.World.{World}
use gdo_blaq_homekit.Web.Status.{
  Readings, settings_members, firmware_members, members, status_get_handler,
}
use gdo_blaq_homekit.Web.Status.Parts.{
  IsPrintable, IsMachine, firmware_members-AllGood, settings_members-AllGood,
  device_members-AllGood,
}

members-AllGood :
    (r : Readings) (o : Ota) (w : World)
    → IsPrintable r
    → IsMachine r w.control w.log o
    → IsSound w.control
    → IsBytes w.ota.pending_version
    → AllGood (members r (pending_ms r.now o) w)
members-AllGood r o w h k v b =
    let pending = pending_ms r.now o in
    let firmware = firmware_members r pending w in
    let settings = settings_members r w firmware in
    device_members-AllGood r w settings h (
      settings_members-AllGood r w o firmware h k v
        (firmware_members-AllGood r pending w h k.pending b))

-- The version of the pending upload has bytes, also once the upload is forgotten.
status_get-IsBytes :
    (now : ℕ) (o : Ota) → IsBytes o.pending_version → IsBytes (status_get now o).pending_version
unfolding status_get
status_get-IsBytes now o h = elim (Bool-cases (pending_ms now o == 0)) [
  | inl e ↦ rw e tt
  | inr e ↦ rw e h
]

-- The status answer is always the whole text of its 42 members, and this is a JSON object: whatever
-- was done to the control state since the start, a timezone or a firmware version that somebody chose
-- does not break out of its quotes, no number has a zero in front, and nothing is cut off, where the
-- texts of gdolib and ESP-IDF are short and need no escape themselves, and the numbers are those of
-- their C types.
pub status_get_handler-IsObject :
    (r : Readings) (ops : List Op) (w : World)
    → IsShort r
    → IsPrintable r
    → IsMachine r w.control w.log w.ota
    → w.control ≡ run ops boot
    → let (v, body) = status_get_handler r w in
      (body ≡ show_all (members r (pending_ms r.now w.ota) v)) × IsObject body
unfolding status_get_handler
status_get_handler-IsObject r ops w s h k e =
    let v : World = record w { ota = status_get r.now w.ota } in
    let sound : IsSound w.control = rw e (run-IsSound ops boot boot-IsSound) in
    let good =
      members-AllGood r w.ota v h k sound (status_get-IsBytes r.now w.ota k.pending_version) in
    let whole = (status_get_handler-whole r ops w s e).0 in
    (whole, ap (λ x. reads start x) whole ∙ show_all-IsObject _ _ good)
