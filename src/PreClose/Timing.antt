-- ===== src/PreClose/Timing.antt =====
-- How long the warning runs, what it shows, and what is left after it.
use gdo_blaq_homekit.Prelude.{
  ℕ, zero, suc, ◌+◌, ◌*◌, ◌/◌, ◌^◌, ◌<◌, ◌≤◌, ◌≡◌, refl, Bool, true, false, ◌&&◌, not,
  if◌then◌else◌, lt→ltb, List, [], ◌∷◌, some, arith,
}
use gdo_blaq_homekit.Opener.{u32}
use gdo_blaq_homekit.PreClose.{Pulse, pulse, before, run_from, run}

abbrev pub total_ms : List Pulse → ℕ
total_ms [] = 0
total_ms (p ∷ ps) = p.ms + total_ms ps

abbrev pub lit_ms : List Pulse → ℕ
lit_ms [] = 0
lit_ms (p ∷ ps) = (if p.lamp then p.ms else 0) + lit_ms ps

abbrev pub heard_ms : List Pulse → ℕ
heard_ms [] = 0
heard_ms (p ∷ ps) = (if p.buzzer then p.ms else 0) + heard_ms ps

-- Both are off at the end.
abbrev pub ends_off : List Pulse → Bool
ends_off [] = false
ends_off (p ∷ []) = not p.buzzer && not p.lamp
ends_off (p ∷ q ∷ ps) = ends_off (q ∷ ps)

-- The rounds with the buzzer enabled, of `n` from `i` on.
abbrev pub rounds_heard : (ℕ → Bool) → ℕ → ℕ → ℕ
rounds_heard enabled i zero = 0
rounds_heard enabled i (suc n) = (if enabled i then 1 else 0) + rounds_heard enabled (suc i) n

-- A warning of `n` rounds.
pub record Warned (enabled : ℕ → Bool) (i n : ℕ) (ps : List Pulse) : Type 0 where
  pub total : total_ms ps ≡ 500 * n
  pub lit : lit_ms ps ≡ 250 * n
  pub heard : heard_ms ps ≡ 250 * rounds_heard enabled i n
  pub off : ends_off ps ≡ true

-- One round in front.
abbrev pub round : (ℕ → Bool) → ℕ → List Pulse → List Pulse
round enabled i ps = pulse (enabled i) true 250 ∷ pulse (enabled i) false 250 ∷ ps

ends_off-after : (p : Pulse) (ps : List Pulse) → ends_off ps ≡ true → ends_off (p ∷ ps) ≡ true
ends_off-after p [] h = absurd (ground (arith, h))
ends_off-after p (q ∷ ps) h = h

round-Warned :
    (enabled : ℕ → Bool) (i n : ℕ) (ps : List Pulse)
    → Warned enabled (suc i) n ps
    → Warned enabled i (suc n) (round enabled i ps)
round-Warned enabled i n ps w = record {
  total = omega (arith, w.total);
  lit = omega (arith, w.lit);
  heard = ground (arith, w.heard);
  off = ends_off-after (pulse (enabled i) false 250) ps w.off;
}

run_from-round :
    (fuel : ℕ) (enabled : ℕ → Bool) (i elapsed duration : ℕ) (ps : List Pulse)
    → elapsed < duration
    → elapsed + 500 < 2 ^ 32
    → run_from fuel enabled (suc i) (elapsed + 500) duration ≡ some ps
    → run_from (suc fuel) enabled i elapsed duration ≡ some (round enabled i ps)
unfolding run_from before
run_from-round fuel enabled i elapsed duration ps lt fits h =
    let next : u32 (elapsed + 500) ≡ elapsed + 500 = omega arith in
    simp (lt→ltb elapsed duration lt, next, h)

run_from-Warned :
    (n fuel : ℕ) (enabled : ℕ → Bool) (i elapsed duration : ℕ)
    → n < fuel
    → duration ≤ elapsed + 500 * n
    → elapsed + 500 * n < duration + 500
    → duration + 500 ≤ 2 ^ 32
    → (ps : List Pulse) × (run_from fuel enabled i elapsed duration ≡ some ps)
      × Warned enabled i n ps
unfolding run_from
run_from-Warned n zero enabled i elapsed duration f a b c = absurd (omega arith)
run_from-Warned zero (suc fuel) enabled i elapsed duration f a b c =
    (pulse (enabled i) false 0 ∷ [], ground arith, ground arith)
run_from-Warned (suc n) (suc fuel) enabled i elapsed duration f a b c =
    let (ps, e, w) =
      run_from-Warned n fuel enabled (suc i) (elapsed + 500) duration (omega arith) (omega arith)
        (omega arith) c in
    (
      round enabled i ps,
      run_from-round fuel enabled i elapsed duration ps (omega arith) (omega arith) e,
      round-Warned enabled i n ps w,
    )

-- The warning ends, and is as long as asked for: for a duration of at most 2^32 - 500 ms it runs
-- n = (duration + 499) / 500 rounds, with fuel for one more, so for at least the duration and less
-- than half a second longer; the lamp is lit half of that time, the buzzer sounds for a quarter of
-- a second in just the rounds that find it enabled, and at the end both are off.
pub run-Warned :
    (fuel : ℕ) (enabled : ℕ → Bool) (duration : ℕ)
    → (duration + 499) / 500 < fuel
    → duration + 500 ≤ 2 ^ 32
    → (ps : List Pulse) × (run fuel enabled duration ≡ some ps)
      × Warned enabled 0 ((duration + 499) / 500) ps
      × (duration ≤ total_ms ps)
      × (total_ms ps < duration + 500)
unfolding run
run-Warned fuel enabled duration f c =
    let n = (duration + 499) / 500 in
    let (ps, e, w) = run_from-Warned n fuel enabled 0 0 duration f (omega arith) (omega arith) c in
    (ps, e, w, omega (arith, w.total), omega (arith, w.total))

rounds_heard_none : (i n : ℕ) → rounds_heard (λ j. false) i n ≡ 0
rounds_heard_none i zero = refl
rounds_heard_none i (suc n) = omega (arith, rounds_heard_none (suc i) n)

-- A muted warning makes no sound, and takes its time all the same.
pub muted_is_silent :
    (fuel duration : ℕ)
    → (duration + 499) / 500 < fuel
    → duration + 500 ≤ 2 ^ 32
    → (ps : List Pulse) × (run fuel (λ i. false) duration ≡ some ps)
      × (heard_ms ps ≡ 0)
      × (duration ≤ total_ms ps)
muted_is_silent fuel duration f c =
    let (ps, e, w, low, high) = run-Warned fuel (λ i. false) duration f c in
    (ps, e, omega (arith, w.heard, rounds_heard_none 0 ((duration + 499) / 500)), low)
