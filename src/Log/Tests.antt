-- ===== src/Log/Tests.antt =====
-- Tests and witnesses for the log ring.
use gdo_blaq_homekit.Prelude.{
  ℕ, ◌≡◌, refl, List, true, false, [], ◌∷◌, none, some, length, min, codes, arith,
}
use gdo_blaq_homekit.Prelude.Ring.{last}
use gdo_blaq_homekit.Log.{boot, init, put, put_all, ring_vprintf, log_used, log_read}
use gdo_blaq_homekit.Log.Newest.{Call, log_all, logged, log_read-log_all}

abbrev calls : List Call
calls =
    (some (codes "abc"), true)
    ∷ (some (codes "xx"), false)
    ∷ (none, true)
    ∷ (some (codes "de"), true)
    ∷ []

abbrev zeros : List ℕ
zeros = 0 ∷ 0 ∷ 0 ∷ 0 ∷ []

-- A ring of four bytes keeps the last four.
wraps_round : log_read 9 true (log_all calls (init 4 true true zeros boot)) ≡ codes "bcde"
unfolding log_read log_all init ring_vprintf put_all put
wraps_round = refl

no_memory : log_read 9 true (log_all calls (init 4 false true zeros boot)) ≡ []
unfolding log_read log_all init ring_vprintf
no_memory = refl

log_read-log_all_example :
    let s = log_all calls (init 4 true true zeros boot) in
    (log_read 3 true s ≡ last (min 3 4) (logged calls))
    × (log_used true s ≡ min 4 (length (logged calls)))
log_read-log_all_example = log_read-log_all calls 4 3 zeros (omega arith) refl (omega arith)
