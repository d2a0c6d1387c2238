-- ===== src/Counters/Tests.antt =====
-- Tests of the counts, on formats of gdolib's log lines.
use gdo_blaq_homekit.Prelude.{◌+◌, ◌≡◌, refl, List, [], ◌∷◌, none, some, codes, arith}
use gdo_blaq_homekit.Prelude.Cstr.{strip, or_else, strstr}
use gdo_blaq_homekit.Counters.{
  boot, counting_vprintf, count_in, rx_error_count_get_and_reset, rx_error_count_peek,
  long_obstruction_count,
}
use gdo_blaq_homekit.Counters.Counts.{Op, log, read, run, run-lines}

abbrev lines : List Op
lines =
    log (some (codes "E (%lu) %s: RX data signature error: %02x"))
    ∷ log none
    ∷ read
    ∷ log (some (codes "W (%lu) %s: Long duration obstruction detected"))
    ∷ log (some (codes "RX data signature error"))
    ∷ log (some (codes "I (%lu) %s: Door open"))
    ∷ []

run-lines_at_input :
    let (sum, t) = run lines boot in
    (sum + rx_error_count_peek t ≡ 2) × (long_obstruction_count t ≡ 1)
unfolding strstr strip or_else
run-lines_at_input = run-lines lines boot (omega arith) (omega arith)

read_between : run lines boot ≡ (1, record { rx_signature_error = 1; long_obstruction = 1 })
unfolding run counting_vprintf count_in rx_error_count_get_and_reset strstr strip or_else
read_between = refl
