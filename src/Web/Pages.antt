-- ===== src/Web/Pages.antt =====
-- main/diag_webserver.cpp: what the status page works out, the requests that read the log and the
-- activity history, and the restart request. cJSON is no part of the repository: whether it can
-- build the array, add an entry or print the array are arguments, and a history is answered as
-- its entries.
use gdo_blaq_homekit.Prelude.{
  length, take, ℕ, ◌+◌, ◌-◌, ◌*◌, ◌/◌, Bool, true, not, ◌&&◌, ◌||◌, if◌then◌else◌, ◌==◌, List, [],
  ◌∷◌, Option, none, some,
}
use gdo_blaq_homekit.Prelude.Int.{ℤ, pos, negsuc, ◌+ℤ◌, leb_ℤ, pos_part}
use gdo_blaq_homekit.Log.{Log, log_read}
use gdo_blaq_homekit.Activity.{Entry, History, activity_read}
use gdo_blaq_homekit.Ota.{Ota, Answer, confirm_expiry_ms, clear_pending}
use gdo_blaq_homekit.Admin.{Response}

-- What a request is answered with.
pub data Reply : Type 0 where
  page : Reply
  no_log : Reply
  status : Response → Reply
  json : List ℕ → Reply
  firmware : Answer → Reply
  log_text : List ℕ → Reply
  activities : List Entry → Reply

-- `rssi_pct`; `rssi` is the signal in dBm, `none` without a connection.
unfoldable pub rssi_pct : Option ℤ → ℕ
rssi_pct none = 0
rssi_pct (some rssi) =
    if leb_ℤ rssi (negsuc 99)
    then 0
    else if leb_ℤ (negsuc 49) rssi
    then 100
    else pos_part (rssi +ℤ pos 100) * 2

-- `auto_close_remaining_s`.
unfoldable pub remaining_s : ℤ → ℤ
remaining_s (pos ms) = pos (ms / 1000)
remaining_s (negsuc n) = negsuc 0

-- The pending upload in the status: `pending_ms`, and what is forgotten once it is not above 0.
unfoldable pub pending_ms : ℕ → Ota → ℕ
pending_ms now s = elim s.pending_partition [
  | none ↦ 0
  | some slot ↦ s.pending_since_ms + confirm_expiry_ms - now
]

-- The part of `status_get_handler` that changes something.
unfoldable pub status_get : ℕ → Ota → Ota
status_get now s = if pending_ms now s == 0 then clear_pending s else s

-- The log's scratch buffer and its mutex: whether they are there.
pub record Scratch : Type 0 where
  pub buffer : Bool
  pub mutex : Bool

-- `ensure_log_scratch_buffer`; the arguments tell what can be made.
unfoldable pub ensure_log_scratch_buffer : Bool → Bool → Scratch → Scratch
ensure_log_scratch_buffer allocated created s = record {
  buffer = s.buffer || allocated;
  mutex = s.mutex || created;
}

-- `send_log_buffer`, after authorize_mutation(): `taken` tells whether the scratch mutex was had, and
-- `read` whether the ring's was.
unfoldable pub send_log_buffer : Scratch → Bool → Bool → Log → Reply
send_log_buffer scratch taken read s =
    if s.capacity == 0 || not scratch.buffer || not scratch.mutex
    then no_log
    else if not taken
    then status Response.server_error
    else log_text (log_read s.capacity read s)

abbrev pub all_added : List Bool → Bool
all_added [] = true
all_added (b ∷ bs) = b && all_added bs

-- `activity_get_handler`, after authorize_mutation(): whether the memory and the array are there,
-- whether each entry could be added, and whether the array was printed.
unfoldable pub activity_get : Bool → List Bool → Bool → History → Reply
activity_get allocated added printed s =
    if not allocated || not (all_added (take (length (activity_read 32 s)) added)) || not printed
    then status Response.server_error
    else activities (activity_read 32 s)
