-- ===== src/Ota/Tests.antt =====
-- Tests and witnesses for the firmware updates.
use gdo_blaq_homekit.Prelude.{
  ℕ, ◌+◌, ◌≤◌, ◌≡◌, refl, true, false, List, [], ◌∷◌, Option, none, some, if◌then◌else◌, ◌==◌,
}
use gdo_blaq_homekit.Prelude.Int.{pos}
use gdo_blaq_homekit.Opener.{esp_ok}
use gdo_blaq_homekit.Admin.{ok, is_accepted}
use gdo_blaq_homekit.Control.Settings.{Write}
use gdo_blaq_homekit.Ota.{
  Image, Upload, Rollback, done, bad_request, firmware_update, firmware_receive, start_upload,
  write_blocked, write_image, block_slot, receive_loop, firmware_confirm, confirm_slot,
  firmware_cancel, firmware_rollback, rollback_to, slot_eligible,
}
use gdo_blaq_homekit.Ota.Whole.{IsWhole}
use gdo_blaq_homekit.Ota.Slots.{Op, update, cancel, apply, run, power_on, erased, last_image}
use gdo_blaq_homekit.Ota.Boot.{rollback-erased, Boots, confirm-Boots}

abbrev saved : Write
saved = record { opened = esp_ok; set = esp_ok; committed = esp_ok }

-- 5000 bytes to slot 1, in two pieces.
abbrev image : Upload
image = record {
  target = some (1, 100000);
  allocated = true;
  blocked = saved;
  begun = esp_ok;
  pieces =
      record { received = 4096; written = esp_ok }
      ∷ record { received = 904; written = esp_ok }
      ∷ [];
  ended = esp_ok;
  now = 1000;
  version = 49 ∷ [];
}

-- Slot 1 holds a good image at first.
abbrev good : ℕ → Option ℕ
good slot = if slot == 1 then some 0 else none

abbrev back : Rollback
back = record { other = some 1; described = true; opened = esp_ok; set = esp_ok }

abbrev uploaded : List Op
uploaded = update ok (pos 5000) image ∷ []

-- A cancelled upload cannot be booted by a rollback.
cancelled :
    (firmware_rollback ok back
      (run (update ok (pos 5000) image ∷ cancel ok ∷ []) (power_on good))).1
    ≡ bad_request
unfolding run apply firmware_update firmware_receive start_upload write_blocked write_image
    block_slot receive_loop firmware_cancel firmware_rollback rollback_to slot_eligible
cancelled = refl

rolls_back : (firmware_rollback ok back (run [] (power_on good))).1 ≡ done
unfolding run firmware_rollback rollback_to slot_eligible
rolls_back = refl

rollback-erased_example : erased 1 (run [] (power_on good)).trace ≡ false
rollback-erased_example = rollback-erased [] good ok back 1 refl rolls_back

confirmed : (firmware_confirm ok 2000 esp_ok (run uploaded (power_on good))).1 ≡ done
unfolding run apply firmware_update firmware_receive start_upload write_blocked write_image
    block_slot receive_loop firmware_confirm confirm_slot
confirmed = refl

confirm-Boots_example :
    let s = run uploaded (power_on good) in
    (is_accepted ok ≡ true)
    × ((slot : ℕ) × Boots 2000 slot s (firmware_confirm ok 2000 esp_ok s).0
        × (erased slot s.trace ≡ true)
        × ((i : Image) × (last_image s.trace ≡ some i)
            × (i.slot ≡ slot)
            × (2000 ≤ i.ended + 600000)
            × IsWhole i.size i.pieces))
confirm-Boots_example = confirm-Boots uploaded good ok 2000 esp_ok confirmed
