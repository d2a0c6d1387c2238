-- ===== src/Schedule/Tz.antt =====
-- main/close_schedule.h: the POSIX TZ grammar that newlib's tzset() parses. A parser that moves the
-- caller's pointer returns the rest of the string; `none` is `false`, which leaves the pointer.
use gdo_blaq_homekit.Prelude.{
  ℕ, ◌+◌, ◌-◌, ◌*◌, Bool, true, false, not, ◌&&◌, ◌||◌, if◌then◌else◌, ◌==◌, ltb, List, [], ◌∷◌,
  Option, none, some, length, peek, next, is_digit, is_alpha,
}

abbrev pub tz_max_len : ℕ
tz_max_len = 63

infixl 5 ◌>>=◌ ◌>>◌
abbrev pub ◌>>=◌ {ℓ κ} : {A : Type ℓ} {B : Type κ} → Option A → (A → Option B) → Option B
none >>= f = none
some a >>= f = f a

abbrev pub ◌>>◌ {ℓ} : {B : Type ℓ} → Option (Unit {0}) → Option B → Option B
m >> k = m >>= λ _. k

abbrev pub guard : Bool → Option (Unit {0})
guard true = some tt
guard false = none

-- The loop of `close_schedule_tz_digits`: digits read, their value, and where it stops.
unfoldable pub digits_loop : ℕ → ℕ → ℕ → List ℕ → ℕ × ℕ × List ℕ
digits_loop max_digits n value [] = (n, value, [])
digits_loop max_digits n value (c ∷ s) =
    let rest = digits_loop max_digits (n + 1) (value * 10 + (c - b'0')) s in
    if is_digit c && ltb n max_digits then rest else (n, value, c ∷ s)

-- `close_schedule_tz_digits`. At most three digits are read, so `int value` does not overflow.
unfoldable pub digits : ℕ → ℕ → ℕ → ℕ → List ℕ → Option (List ℕ)
unfolding digits_loop
digits min_digits max_digits lo hi s =
    let (n, value, rest) = digits_loop max_digits 0 0 s in
    if ltb n min_digits || ltb value lo || ltb hi value then none else some rest

-- The bytes of a name between `<` and `>`.
abbrev pub is_quoted : ℕ → Bool
is_quoted c = is_alpha c || is_digit c || c == b'+' || c == b'-'

-- A `while` loop of `close_schedule_tz_name`: bytes passed, and where it stops.
unfoldable pub skip : (ℕ → Bool) → List ℕ → ℕ × List ℕ
skip p [] = (0, [])
skip p (c ∷ s) = let rest = skip p s in if p c then (rest.0 + 1, rest.1) else (0, c ∷ s)

-- `n < 3 || n > 10`.
abbrev pub bad_length : ℕ → Bool
bad_length n = ltb n 3 || ltb 10 n

abbrev pub quoted_name : List ℕ → Option (List ℕ)
quoted_name s =
    let (n, t) = skip is_quoted s in
    if not (peek t == b'>') then none else if bad_length n then none else some (next t)

abbrev pub plain_name : List ℕ → Option (List ℕ)
plain_name s = let (n, t) = skip is_alpha s in if bad_length n then none else some t

-- `close_schedule_tz_name`.
unfoldable pub name : List ℕ → Option (List ℕ)
unfolding skip
name s = if peek s == b'<' then quoted_name (next s) else plain_name s

-- The seconds, and the minutes with them, of `close_schedule_tz_time`.
abbrev pub seconds : List ℕ → Option (List ℕ)
seconds s = if peek s == b':' then digits 1 2 0 59 (next s) else some s

abbrev pub minutes : List ℕ → Option (List ℕ)
minutes s = if peek s == b':' then digits 1 2 0 59 (next s) >>= seconds else some s

-- `close_schedule_tz_time`.
unfoldable pub time : Bool → ℕ → List ℕ → Option (List ℕ)
unfolding digits
time sign_ok max_hours s =
    let t = if sign_ok && (peek s == b'+' || peek s == b'-') then next s else s in
    digits 1 3 0 max_hours t >>= minutes

-- A byte that must stand here.
abbrev pub expect : ℕ → List ℕ → Option (List ℕ)
expect c s = if peek s == c then some (next s) else none

-- The date of `close_schedule_tz_rule`.
abbrev pub month_rule : List ℕ → Option (List ℕ)
month_rule s = do
  a ← digits 1 2 1 12 s
  b ← expect b'.' a
  c ← digits 1 1 1 5 b
  d ← expect b'.' c
  digits 1 1 0 6 d

abbrev pub date : List ℕ → Option (List ℕ)
date s =
    if peek s == b'M'
    then month_rule (next s)
    else if peek s == b'J'
    then digits 1 3 1 365 (next s)
    else digits 1 3 0 365 s

-- `close_schedule_tz_rule`.
unfoldable pub rule : List ℕ → Option (List ℕ)
unfolding time
rule s = date s >>= λ t. if peek t == b'/' then time false 167 (next t) else some t

-- The end of the string.
abbrev pub is_end : List ℕ → Bool
is_end s = peek s == 0

-- What may follow the name of the daylight zone: its offset, and its two rules.
abbrev pub dst_offset : List ℕ → Option (List ℕ)
dst_offset s = if not (peek s == b',') && not (is_end s) then time true 24 s else some s

abbrev pub rules : List ℕ → Bool
rules s =
    if is_end s then true else elim (do a ← expect b',' s; b ← rule a; c ← expect b',' b; rule c) [
      | none ↦ false
      | some t ↦ is_end t
    ]

-- `close_schedule_tz_valid`; `tz` is not NULL.
unfoldable pub tz_valid : List ℕ → Bool
unfolding name time rule
tz_valid tz =
    if length tz == 0 || ltb tz_max_len (length tz)
    then false
    else elim (do a ← name tz; time true 24 a) [
      | none ↦ false
      | some p ↦
          if is_end p
          then true
          else elim (do a ← name p; dst_offset a) [ none ↦ false | some q ↦ rules q ]
    ]
