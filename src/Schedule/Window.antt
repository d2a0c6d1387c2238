-- ===== src/Schedule/Window.antt =====
-- When the scheduled close may fire, and that a window fires once.
use gdo_blaq_homekit.Prelude.{
  ℕ, ◌+◌, ◌*◌, ◌≤◌, ◌<◌, ◌≡◌, ◌≢◌, ◌↔◌, ◌∙◌, sym, subst, Bool, true, arith,
}
use gdo_blaq_homekit.Prelude.Int.{ℤ, pos, pos_part, neg_part, ◌-ℤ◌, ◌≤ℤ◌, eq_of_parts}
use gdo_blaq_homekit.Schedule.{window_day, should_fire, since}

-- The tests of the decision, in the terms of the code.
record Fires (synced : Bool) (open_ms : ℤ) (now_min : ℕ) (today : ℤ) (sched_min : ℕ) (last : ℤ)
    : Type 0 where
  clock : synced ≡ true
  now_valid : now_min < 1440
  sched_valid : sched_min < 1440
  inside : since now_min sched_min < 5
  open_before : pos ((since now_min sched_min + 1) * 60000) ≤ℤ open_ms
  not_yet : last ≢ window_day now_min today sched_min

to_Fires :
    (synced : Bool) (open_ms : ℤ) (now_min : ℕ) (today : ℤ) (sched_min : ℕ) (last : ℤ)
    → should_fire synced open_ms now_min today sched_min last ≡ true
    → Fires synced open_ms now_min today sched_min last
unfolding should_fire
to_Fires synced open_ms now_min today sched_min last h = ground arith

of_Fires :
    (synced : Bool) (open_ms : ℤ) (now_min : ℕ) (today : ℤ) (sched_min : ℕ) (last : ℤ)
    → Fires synced open_ms now_min today sched_min last
    → should_fire synced open_ms now_min today sched_min last ≡ true
unfolding should_fire
of_Fires synced open_ms now_min today sched_min last h =
    ground (arith, h, eq_of_parts last (window_day now_min today sched_min))

-- A day and some minutes are the same instant as another day and other minutes.
abbrev pub SameInstant : ℤ → ℕ → ℤ → ℕ → Type 0
SameInstant d m d' m' =
    pos_part d * 1440 + m + neg_part d' * 1440 ≡ pos_part d' * 1440 + m' + neg_part d * 1440

-- What the design asks for: a synced clock, minutes of a day, and a day whose scheduled minute lies
-- `elapsed` minutes back, fewer than five, so that the present is in its window; a door that has
-- been open for those minutes and the present one; and a window that has not fired.
pub record MayFire (synced : Bool) (open_ms : ℤ) (now_min : ℕ) (today : ℤ) (sched_min : ℕ)
    (last : ℤ) : Type 0 where
  pub clock : synced ≡ true
  pub now_valid : now_min < 1440
  pub sched_valid : sched_min < 1440
  pub day : ℤ
  pub elapsed : ℕ
  pub window : SameInstant day (sched_min + elapsed) today now_min
  pub inside : elapsed < 5
  pub open_before : pos ((elapsed + 1) * 60000) ≤ℤ open_ms
  pub not_yet : last ≢ day

window_day-SameInstant :
    (now_min : ℕ) (today : ℤ) (sched_min : ℕ)
    → now_min < 1440
    → sched_min < 1440
    → SameInstant
        (window_day now_min today sched_min)
        (sched_min + since now_min sched_min)
        today
        now_min
unfolding window_day ◌-ℤ◌
window_day-SameInstant now_min today sched_min h k = ground arith

-- A window is found in one way only.
same_window :
    (day day' today : ℤ) (elapsed elapsed' now_min sched_min : ℕ)
    → elapsed < 1440
    → elapsed' < 1440
    → SameInstant day (sched_min + elapsed) today now_min
    → SameInstant day' (sched_min + elapsed') today now_min
    → (elapsed ≡ elapsed') × (day ≡ day')
same_window day day' today elapsed elapsed' now_min sched_min h k e e' =
    (ground (arith, h, k, e, e'), ground (arith, h, k, e, e', eq_of_parts day day'))

since-lt : (now_min sched_min : ℕ) → since now_min sched_min < 1440
since-lt now_min sched_min = omega arith

to_MayFire :
    (synced : Bool) (open_ms : ℤ) (now_min : ℕ) (today : ℤ) (sched_min : ℕ) (last : ℤ)
    → Fires synced open_ms now_min today sched_min last
    → MayFire synced open_ms now_min today sched_min last
to_MayFire synced open_ms now_min today sched_min last h = record {
  clock = h.clock;
  now_valid = h.now_valid;
  sched_valid = h.sched_valid;
  day = window_day now_min today sched_min;
  elapsed = since now_min sched_min;
  window = window_day-SameInstant now_min today sched_min h.now_valid h.sched_valid;
  inside = h.inside;
  open_before = h.open_before;
  not_yet = h.not_yet;
}

of_MayFire :
    (synced : Bool) (open_ms : ℤ) (now_min : ℕ) (today : ℤ) (sched_min : ℕ) (last : ℤ)
    → MayFire synced open_ms now_min today sched_min last
    → Fires synced open_ms now_min today sched_min last
of_MayFire synced open_ms now_min today sched_min last h =
    let (e, d) =
      same_window h.day (window_day now_min today sched_min) today h.elapsed
        (since now_min sched_min) now_min sched_min (omega (arith, h.inside))
        (since-lt now_min sched_min) h.window
        (window_day-SameInstant now_min today sched_min h.now_valid h.sched_valid) in
    record {
      clock = h.clock;
      now_valid = h.now_valid;
      sched_valid = h.sched_valid;
      inside = omega (arith, e, h.inside);
      open_before = subst (λ (n : ℕ). pos ((n + 1) * 60000) ≤ℤ open_ms) e h.open_before;
      not_yet = λ q. h.not_yet (q ∙ sym d);
    }

-- The scheduled close fires exactly when the clock is synced, both minutes are below 1440, the
-- scheduled minute of some day (today, or the day before across midnight) began fewer than five
-- minutes before the present one, the door has been open for the minutes from that one to the
-- present one, both included, and that day is not the last one fired.
pub should_fire_iff :
    (synced : Bool) (open_ms : ℤ) (now_min : ℕ) (today : ℤ) (sched_min : ℕ) (last : ℤ)
    → (should_fire synced open_ms now_min today sched_min last ≡ true)
      ↔ MayFire synced open_ms now_min today sched_min last
should_fire_iff synced open_ms now_min today sched_min last = (
  λ h.
      to_MayFire synced open_ms now_min today sched_min last
        (to_Fires synced open_ms now_min today sched_min last h),
  λ h.
      of_Fires synced open_ms now_min today sched_min last
        (of_MayFire synced open_ms now_min today sched_min last h),
)

-- A door that the scheduled close shuts was open before the scheduled minute began: at any real
-- time of the minute `now_min`, `elapsed` ms after the scheduled minute began, it has been open
-- for longer than that.
pub fires_only_if_open_before :
    (synced : Bool) (open_ms : ℤ) (now_min : ℕ) (today : ℤ) (sched_min : ℕ) (last : ℤ) (elapsed : ℕ)
    → should_fire synced open_ms now_min today sched_min last ≡ true
    → elapsed < (since now_min sched_min + 1) * 60000
    → pos (elapsed + 1) ≤ℤ open_ms
fires_only_if_open_before synced open_ms now_min today sched_min last elapsed h lt =
    omega (arith, (to_Fires synced open_ms now_min today sched_min last h).open_before)

-- The minutes from the first day's midnight to a day and a minute.
abbrev pub instant : ℕ → ℕ → ℕ
instant today now_min = today * 1440 + now_min

-- The day of a window is that of the latest scheduled instant that is not in the future.
window_day-latest :
    (now_min today sched_min : ℕ)
    → now_min < 1440
    → sched_min < 1440
    → let d = window_day now_min (pos today) sched_min in
      (pos_part d * 1440 + sched_min ≤ instant today now_min + neg_part d * 1440)
      × (instant today now_min + neg_part d * 1440 < (pos_part d + 1) * 1440 + sched_min)
unfolding window_day ◌-ℤ◌
window_day-latest now_min today sched_min h k = ground arith

since_lem :
    (now_min today sched_min : ℕ)
    → now_min < 1440
    → sched_min < 1440
    → let d = window_day now_min (pos today) sched_min in
      pos_part d * 1440 + sched_min + since now_min sched_min
      ≡ instant today now_min + neg_part d * 1440
unfolding window_day ◌-ℤ◌
since_lem now_min today sched_min h k = ground arith

-- If the close fires, its window's day is recorded, and it fires again, not earlier, under the same
-- schedule, then at least 1436 minutes have passed: one window, also one across midnight, never
-- fires twice.
pub fires_once_a_window :
    (open_ms open_ms' : ℤ) (now_min now_min' today today' sched_min : ℕ) (last : ℤ)
    → should_fire true open_ms now_min (pos today) sched_min last ≡ true
    → instant today now_min ≤ instant today' now_min'
    → should_fire true open_ms' now_min'
        (pos today')
        sched_min
        (window_day now_min (pos today) sched_min)
      ≡ true
    → instant today now_min + 1436 ≤ instant today' now_min'
fires_once_a_window open_ms open_ms' n n' t t' m last h le h' =
    let a = to_Fires true open_ms n (pos t) m last h in
    let b = to_Fires true open_ms' n' (pos t') m (window_day n (pos t) m) h' in
    ground (
      arith,
      a,
      b,
      since_lem n t m a.now_valid a.sched_valid,
      since_lem n' t' m b.now_valid b.sched_valid,
      eq_of_parts (window_day n (pos t) m) (window_day n' (pos t') m),
    )
