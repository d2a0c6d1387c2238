-- ===== src/Log.antt =====
-- main/log_ring_buffer.cpp: the ring that keeps the newest log bytes for the diagnostics page.
pub mod Newest
pub mod Tests
use gdo_blaq_homekit.Prelude.{
  ℕ, ◌+◌, ◌-◌, ◌==◌, Bool, true, false, not, ◌&&◌, ◌||◌, if◌then◌else◌, ltb, leb, List, [], ◌∷◌,
  Option, none, some, length, take, replicate, set,
}
use gdo_blaq_homekit.Prelude.Ring.{copy}

-- The static variables. `ready` is `s_buf != nullptr`, which holds only once `s_mutex` is there.
pub record Log : Type 0 where
  pub ready : Bool
  pub buf : List ℕ
  pub capacity : ℕ
  pub write_pos : ℕ
  pub wrapped : Bool

abbrev pub boot : Log
boot = record { ready = false; buf = []; capacity = 0; write_pos = 0; wrapped = false }

-- `log_ring_buffer_init`; the arguments tell whether malloc() and xSemaphoreCreateMutex() succeed,
-- and what the new memory holds.
unfoldable pub init : ℕ → Bool → Bool → List ℕ → Log → Log
init capacity_bytes allocated created memory s =
    if s.ready
    then s
    else if not allocated || not created
    then s
    else record s { ready = true; buf = memory; capacity = capacity_bytes }

-- One byte of the loop of `ring_vprintf`.
unfoldable pub put : ℕ → Log → Log
put c s =
    let t = record s { buf = set s.buf s.write_pos c; write_pos = s.write_pos + 1 } in
    if leb t.capacity t.write_pos then record t { write_pos = 0; wrapped = true } else t

unfoldable pub put_all : List ℕ → Log → Log
put_all [] s = s
put_all (c ∷ line) s = put_all line (put c s)

-- `char line[256]`, of which the last byte is the NUL.
abbrev pub line_max : ℕ
line_max = 255

-- `ring_vprintf`. `text` is the whole formatted text, `none` for an error of vsnprintf(), which
-- stores what fits; `taken` tells whether the mutex was had within 50 ms.
unfoldable pub ring_vprintf : Option (List ℕ) → Bool → Log → Log
ring_vprintf none taken s = s
ring_vprintf (some text) taken s = if s.ready && taken then put_all (take line_max text) s else s

-- `used` of both readers.
abbrev pub used : Log → ℕ
used s = if s.wrapped then s.capacity else s.write_pos

-- `log_ring_buffer_used`.
unfoldable pub log_used : Bool → Log → ℕ
log_used taken s = if s.ready && taken then used s else 0

-- `log_ring_buffer_read`: what it copies; the length is what it returns.
unfoldable pub log_read : ℕ → Bool → Log → List ℕ
log_read out_size taken s =
    if not s.ready || out_size == 0 || not taken
    then []
    else (let want = if ltb (used s) out_size then used s else out_size in
        let skip = used s - want in
        let chrono_start = if s.wrapped then s.write_pos else 0 in
        copy s.buf s.capacity (chrono_start + skip) want 0)
