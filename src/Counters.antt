-- ===== src/Counters.antt =====
-- main/diagnostics_counters.c: the counts of two log messages of gdolib. A log line is what ESP-IDF
-- hands to the hook, its format, `none` for NULL; printing it is left to the hook before.
pub mod Counts
pub mod Tests
use gdo_blaq_homekit.Prelude.{
  ℕ, ◌+◌, Bool, true, false, if◌then◌else◌, List, [], ◌∷◌, Option, none, some, codes,
}
use gdo_blaq_homekit.Prelude.Cstr.{strstr, found}
use gdo_blaq_homekit.Opener.{u32}

abbrev pub rx_sig_error_needle : List ℕ
rx_sig_error_needle = codes "RX data signature error"

abbrev pub long_obstruction_needle : List ℕ
long_obstruction_needle = codes "Long duration obstruction detected"

-- The two `uint32_t` counts.
pub record Counters : Type 0 where
  pub rx_signature_error : ℕ
  pub long_obstruction : ℕ

abbrev pub boot : Counters
boot = record { rx_signature_error = 0; long_obstruction = 0 }

unfoldable pub count_in : Bool → Bool → Counters → Counters
count_in rx long s =
    if rx
    then record s { rx_signature_error = u32 (s.rx_signature_error + 1) }
    else if long
    then record s { long_obstruction = u32 (s.long_obstruction + 1) }
    else s

-- `diag_counting_vprintf`.
unfoldable pub counting_vprintf : Option (List ℕ) → Counters → Counters
counting_vprintf none s = s
counting_vprintf (some fmt) s =
    count_in (found (strstr rx_sig_error_needle fmt)) (found (strstr long_obstruction_needle fmt)) s

-- `diag_rx_error_count_get_and_reset`.
unfoldable pub rx_error_count_get_and_reset : Counters → ℕ × Counters
rx_error_count_get_and_reset s = (s.rx_signature_error, record s { rx_signature_error = 0 })

-- `diag_rx_error_count_peek` and `diag_long_obstruction_count`.
abbrev pub rx_error_count_peek : Counters → ℕ
rx_error_count_peek s = s.rx_signature_error

abbrev pub long_obstruction_count : Counters → ℕ
long_obstruction_count s = s.long_obstruction
