-- ===== src/Control/Resync.antt =====
-- main/gdo-blaq-homekit.cpp: failed syncs in a row, and the gap of the rolling code that they close.
use gdo_blaq_homekit.Prelude.{
  ℕ, zero, suc, ◌+◌, ◌^◌, ◌<◌, ◌≤◌, ◌≡◌, List, [], ◌∷◌, Option, none, some,
}
use gdo_blaq_homekit.Opener.{Status}
use gdo_blaq_homekit.Control.{Control, Effect, set_rolling_code}
use gdo_blaq_homekit.Control.Event.{Answers, rolling_jump, sync_failed}

-- A report of a failed sync, and what the calls of its handler answer.
pub record Failure : Type 0 where
  pub status : Status
  pub answers : Answers

-- One report of a failed sync after the other.
unfoldable pub resync : List Failure → Control → Control
resync [] s = s
resync (f ∷ fs) s = resync fs (sync_failed f.status f.answers s)

-- The rolling code that was handed to gdolib last.
abbrev pub last_code : List Effect → Option ℕ
last_code [] = none
last_code (set_rolling_code c ∷ es) = some c
last_code (_ ∷ es) = last_code es

-- Each report has at least the code that was set before it, as gdolib uses up codes when it syncs;
-- and no code comes near to wrapping.
abbrev pub Rising : List Failure → Control → Type 0
Rising [] s = Unit {0}
Rising (f ∷ fs) s =
    (((c : ℕ) → last_code s.trace ≡ some c → c ≤ f.status.rolling_code)
      × (f.status.rolling_code + 1600 < 2 ^ 32))
    × Rising fs (sync_failed f.status f.answers s)

-- The sum of the `n` steps after `k` failures.
abbrev pub jumps : ℕ → ℕ → ℕ
jumps k zero = 0
jumps k (suc n) = rolling_jump (suc k) + jumps (suc k) n
