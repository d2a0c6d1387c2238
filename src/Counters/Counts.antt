-- ===== src/Counters/Counts.antt =====
-- No matching line is lost between two readings.
use gdo_blaq_homekit.Prelude.{
  ℕ, ◌+◌, ◌^◌, ◌<◌, ◌≡◌, Bool, false, not, ◌&&◌, if◌then◌else◌, List, [], ◌∷◌, Option, none, some,
  arith,
}
use gdo_blaq_homekit.Prelude.Cstr.{strstr, found}
use gdo_blaq_homekit.Counters.{
  rx_sig_error_needle, long_obstruction_needle, Counters, count_in, counting_vprintf,
  rx_error_count_get_and_reset, rx_error_count_peek, long_obstruction_count,
}

-- A log line, or a reading by the watchdog.
pub data Op : Type 0 where
  log : Option (List ℕ) → Op
  read : Op

-- What the readings gave in sum, and the counts after them.
unfoldable pub run : List Op → Counters → ℕ × Counters
run [] s = (0, s)
run (log fmt ∷ ops) s = run ops (counting_vprintf fmt s)
run (read ∷ ops) s =
    let (n, t) = rx_error_count_get_and_reset s in let (m, u) = run ops t in (n + m, u)

abbrev pub is_rx : Option (List ℕ) → Bool
is_rx none = false
is_rx (some fmt) = found (strstr rx_sig_error_needle fmt)

abbrev pub is_long : Option (List ℕ) → Bool
is_long none = false
is_long (some fmt) = found (strstr long_obstruction_needle fmt)

abbrev pub one_if : Bool → ℕ
one_if b = if b then 1 else 0

-- The lines that speak of a signature error, and those that speak of an obstruction only.
abbrev pub rx_lines : List Op → ℕ
rx_lines [] = 0
rx_lines (log fmt ∷ ops) = one_if (is_rx fmt) + rx_lines ops
rx_lines (read ∷ ops) = rx_lines ops

abbrev pub long_lines : List Op → ℕ
long_lines [] = 0
long_lines (log fmt ∷ ops) = one_if (not (is_rx fmt) && is_long fmt) + long_lines ops
long_lines (read ∷ ops) = long_lines ops

counting_vprintf-counts :
    (fmt : Option (List ℕ)) (s : Counters)
    → s.rx_signature_error + one_if (is_rx fmt) < 2 ^ 32
    → s.long_obstruction + one_if (not (is_rx fmt) && is_long fmt) < 2 ^ 32
    → ((counting_vprintf fmt s).rx_signature_error ≡ s.rx_signature_error + one_if (is_rx fmt))
      × ((counting_vprintf fmt s).long_obstruction
          ≡ s.long_obstruction + one_if (not (is_rx fmt) && is_long fmt))
unfolding counting_vprintf count_in
counting_vprintf-counts none s h k = (omega arith, omega arith)
counting_vprintf-counts (some fmt) s h k = (ground (arith, h, k), ground (arith, h, k))

-- Every line is counted once: while no count wraps, the readings of the signature errors in sum and
-- what is left after them are the number of lines with that message, whenever the readings came,
-- and the other count is the number of lines with the obstruction message that have not the first
-- one too.
pub run-lines :
    (ops : List Op) (s : Counters)
    → s.rx_signature_error + rx_lines ops < 2 ^ 32
    → s.long_obstruction + long_lines ops < 2 ^ 32
    → let (sum, t) = run ops s in
      (sum + rx_error_count_peek t ≡ s.rx_signature_error + rx_lines ops)
      × (long_obstruction_count t ≡ s.long_obstruction + long_lines ops)
unfolding run rx_error_count_get_and_reset
run-lines [] s h k = (omega arith, omega arith)
run-lines (log fmt ∷ ops) s h k =
    let t = counting_vprintf fmt s in
    let (rx, long) = counting_vprintf-counts fmt s (omega arith) (omega arith) in
    let (r, l) = run-lines ops t (omega arith) (omega arith) in (omega arith, omega arith)
run-lines (read ∷ ops) s h k =
    let t : Counters = record s { rx_signature_error = 0 } in
    let (r, l) = run-lines ops t (omega arith) (omega arith) in (omega arith, omega arith)
