-- ===== src/Ota.antt =====
-- main/diag_webserver.cpp: firmware updates over HTTP. An upload is written to the other slot, and is
-- booted only once it is confirmed; a rollback goes to a slot that is known to be good. Each call of
-- ESP-IDF answers by an argument; what a handler sends back is the status of the answer.
pub mod Whole
pub mod Slots
pub mod Boot
pub mod Tests
use gdo_blaq_homekit.Prelude.{
  ℕ, zero, suc, ◌+◌, ◌-◌, ◌*◌, ◌==◌, min, Bool, true, false, not, ◌&&◌, ◌||◌, if◌then◌else◌, ltb,
  leb, List, [], ◌∷◌, Option, none, some, take,
}
use gdo_blaq_homekit.Prelude.Int.{ℤ, pos, negsuc}
use gdo_blaq_homekit.Opener.{Esp, is_ok}
use gdo_blaq_homekit.Admin.{Response, is_accepted}
use gdo_blaq_homekit.Control.Settings.{Write, write_result}

-- One round of the loop that receives: the bytes that come, 0 for an error, and what
-- esp_ota_write() returns.
pub record Piece : Type 0 where
  pub received : ℕ
  pub written : Esp

-- An image that esp_ota_end() accepts: its slot, the time, the size that was announced, and what the
-- rounds of the loop met.
pub record Image : Type 0 where
  pub slot : ℕ
  pub ended : ℕ
  pub size : ℕ
  pub pieces : List Piece

-- What is done to the flash, newest first: a slot is erased, becomes the one to boot, or its image is
-- accepted.
pub data FlashCall : Type 0 where
  begin : ℕ → FlashCall
  set_boot : ℕ → FlashCall
  end : Image → FlashCall

-- The static variables, the flags of the NVS namespace gdo_ota by slot, and the calls so far.
pub record Ota : Type 0 where
  pub upload_in_progress : Bool
  pub pending_partition : Option ℕ
  pub pending_since_ms : ℕ
  pub pending_version : List ℕ
  pub flags : ℕ → Option ℕ
  pub trace : List FlashCall

-- The answer of a handler.
pub data Answer : Type 0 where
  done refused length_required conflict too_large bad_request server_error : Answer

-- `ota_slot_eligible`: `opened` is what nvs_open() returns; a missing flag is not eligible.
unfoldable pub slot_eligible : Esp → ℕ → Ota → Bool
slot_eligible opened slot s =
    is_ok opened && elim (s.flags slot) [ none ↦ false | some blocked ↦ blocked == 0 ]

abbrev pub flag_of : Bool → ℕ
flag_of blocked = if blocked then 1 else 0

-- `ota_block_slot`; a write that fails stores nothing.
unfoldable pub block_slot : ℕ → Bool → Write → Ota → Ota × Bool
block_slot slot blocked w s =
    if is_ok (write_result w)
    then (
      record s { flags = λ (k : ℕ). if k == slot then some (flag_of blocked) else s.flags k },
      true,
    )
    else (s, false)

abbrev pub confirm_expiry_ms : ℕ
confirm_expiry_ms = 10 * 60 * 1000

-- `ota_clear_pending`.
abbrev pub clear_pending : Ota → Ota
clear_pending s = record s { pending_partition = none; pending_since_ms = 0; pending_version = [] }

abbrev pub chunk_size : ℕ
chunk_size = 4096

-- The loop of `firmware_receive`: whether it got all bytes. No more come than are asked for.
unfoldable pub receive_loop : ℕ → List Piece → Bool
receive_loop remaining [] = remaining == 0
receive_loop remaining (p ∷ pieces) =
    let rest = receive_loop (remaining - min p.received (min remaining chunk_size)) pieces in
    if remaining == 0 then true else not (p.received == 0) && is_ok p.written && rest

-- What an upload meets: the slot for it and the size of that, whether memory is there, the answers of
-- NVS, esp_ota_begin(), the loop and esp_ota_end(), the time, and the version of the image.
pub record Upload : Type 0 where
  pub target : Option (ℕ × ℕ)
  pub allocated : Bool
  pub blocked : Write
  pub begun : Esp
  pub pieces : List Piece
  pub ended : Esp
  pub now : ℕ
  pub version : List ℕ

-- The upload, once the slot is blocked and nothing is pending.
unfoldable pub write_image : ℕ → ℕ → Upload → Ota → Ota × Answer
write_image slot size u s =
    let t = record (clear_pending s) { upload_in_progress = true; trace = begin slot ∷ s.trace } in
    if not (is_ok u.begun)
    then (record t { upload_in_progress = false }, server_error)
    else if not (receive_loop size u.pieces)
    then (record t { upload_in_progress = false }, bad_request)
    else if not (is_ok u.ended)
    then (record t { upload_in_progress = false }, bad_request)
    else (
      record t {
        upload_in_progress = false;
        pending_partition = some slot;
        pending_since_ms = u.now;
        pending_version = take 31 u.version;
        trace =
            end (record { slot = slot; ended = u.now; size = size; pieces = u.pieces }) ∷ t.trace;
      },
      done,
    )

-- The slot is blocked before it is erased.
unfoldable pub write_blocked : ℕ → ℕ → Upload → Ota × Bool → Ota × Answer
write_blocked slot size u (s, true) = write_image slot size u s
write_blocked slot size u (s, false) = (s, server_error)

unfoldable pub start_upload : Option (ℕ × ℕ) → ℕ → Upload → Ota → Ota × Answer
start_upload none size u s = (s, server_error)
start_upload (some (slot, room)) size u s =
    if ltb room size
    then (s, too_large)
    else if not u.allocated
    then (s, server_error)
    else write_blocked slot size u (block_slot slot true u.blocked s)

-- `firmware_receive`.
unfoldable pub firmware_receive : ℤ → Upload → Ota → Ota × Answer
firmware_receive (pos zero) u s = (s, length_required)
firmware_receive (negsuc n) u s = (s, length_required)
firmware_receive (pos (suc n)) u s =
    if s.upload_in_progress then (s, conflict) else start_upload u.target (suc n) u s

-- `firmware_update_post_handler`; `access` is what authorize_mutation() answers.
unfoldable pub firmware_update : Response → ℤ → Upload → Ota → Ota × Answer
firmware_update access size u s =
    if is_accepted access then firmware_receive size u s else (s, refused)

-- A pending upload is booted, unless it is older than ten minutes.
unfoldable pub confirm_slot : Option ℕ → ℕ → Esp → Ota → Ota × Answer
confirm_slot none now set s = (s, bad_request)
confirm_slot (some slot) now set s =
    if ltb (s.pending_since_ms + confirm_expiry_ms) now
    then (clear_pending s, bad_request)
    else if is_ok set
    then (record (clear_pending s) { trace = set_boot slot ∷ s.trace }, done)
    else (s, server_error)

-- `firmware_confirm_post_handler`; `set` is what esp_ota_set_boot_partition() returns.
unfoldable pub firmware_confirm : Response → ℕ → Esp → Ota → Ota × Answer
firmware_confirm access now set s =
    if is_accepted access then confirm_slot s.pending_partition now set s else (s, refused)

-- `firmware_cancel_post_handler`.
unfoldable pub firmware_cancel : Response → Ota → Ota × Answer
firmware_cancel access s = if is_accepted access then (clear_pending s, done) else (s, refused)

-- What a rollback meets: the other slot, whether its image has a description, and the answers of
-- nvs_open() and esp_ota_set_boot_partition().
pub record Rollback : Type 0 where
  pub other : Option ℕ
  pub described : Bool
  pub opened : Esp
  pub set : Esp

unfoldable pub rollback_to : Option ℕ → Rollback → Ota → Ota × Answer
rollback_to none r s = (s, bad_request)
rollback_to (some slot) r s =
    if not r.described || not (slot_eligible r.opened slot s)
    then (s, bad_request)
    else if is_ok r.set
    then (record s { trace = set_boot slot ∷ s.trace }, done)
    else (s, server_error)

-- `firmware_rollback_post_handler`.
unfoldable pub firmware_rollback : Response → Rollback → Ota → Ota × Answer
firmware_rollback access r s =
    if not (is_accepted access)
    then (s, refused)
    else if s.upload_in_progress
    then (s, conflict)
    else rollback_to r.other r s
