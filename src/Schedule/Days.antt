-- ===== src/Schedule/Days.antt =====
-- close_schedule_days_from_civil counts civil days one by one.
use gdo_blaq_homekit.Prelude.{
  ℕ, zero, suc, ◌+◌, ◌-◌, ◌*◌, ◌/◌, ◌%◌, ◌≤◌, ◌≡◌, ◌≢◌, refl, ap, ◌∙◌, sym, Bool, not, ◌&&◌, ◌||◌,
  if◌then◌else◌, ◌==◌, leb, ltb, ℕ_discrete, arith, Bool-cases, inl, inr,
}
use gdo_blaq_homekit.Prelude.Int.{ℤ, pos, pos_part, ◌+ℤ◌, ◌-ℤ◌, ◌*ℤ◌, int_laws}
use gdo_blaq_homekit.Schedule.{days_from_civil, day_of_year, day_of_era, era, year_of_era}

abbrev pub is_leap : ℕ → Bool
is_leap y = y % 4 == 0 && (not (y % 100 == 0) || y % 400 == 0)

abbrev pub month_days : ℕ → ℕ → ℕ
month_days y m =
    if m == 2
    then (if is_leap y then 29 else 28)
    else if m == 4 || m == 6 || m == 9 || m == 11
    then 30
    else 31

-- The civil day after a day.
abbrev pub next_day : ℕ → ℕ → ℕ → ℕ × ℕ × ℕ
next_day y m d =
    if ltb d (month_days y m)
    then (y, m, d + 1)
    else if m == 12
    then (y + 1, 1, 1)
    else (y, m + 1, 1)

-- The days counted from the first of March of year 0, for a year that starts in March.
abbrev march_year : ℕ → ℕ → ℕ
march_year y m = if leb m 2 then y - 1 else y

count : ℕ → ℕ → ℕ
count y doy = y / 400 * 146097 + day_of_era (y % 400) doy

era_pos : (n : ℕ) → era (pos n) ≡ pos (n / 400)
era_pos n = ground arith

scale_pos : (a k : ℕ) → pos a *ℤ pos k ≡ pos (a * k)
unfolding ◌*ℤ◌
scale_pos a k = ground arith

add_pos : (a b : ℕ) → pos a +ℤ pos b ≡ pos (a + b)
unfolding ◌+ℤ◌
add_pos a b = ground arith

year_of_era_pos : (n : ℕ) → pos_part (pos n -ℤ pos (n / 400) *ℤ pos 400) ≡ n % 400
unfolding ◌-ℤ◌
year_of_era_pos n = rw (scale_pos (n / 400) 400) (ground arith)

-- The sum of the source, at a year of the calendar that starts in March.
abbrev of_year : ℤ → ℕ → ℤ
of_year y doy = era y *ℤ pos 146097 +ℤ pos (day_of_era (year_of_era y) doy) -ℤ pos 719468

of_year_pos : (n doy : ℕ) → of_year (pos n) doy ≡ pos (count n doy) -ℤ pos 719468
unfolding count
of_year_pos n doy =
    ap
      (λ e.
        e *ℤ pos 146097 +ℤ pos (day_of_era (pos_part (pos n -ℤ e *ℤ pos 400)) doy) -ℤ pos 719468)
      (era_pos n)
    ∙ ap (λ r. pos (n / 400) *ℤ pos 146097 +ℤ pos (day_of_era r doy) -ℤ pos 719468)
        (year_of_era_pos n)
    ∙ ap (λ z. z +ℤ pos (day_of_era (n % 400) doy) -ℤ pos 719468) (scale_pos (n / 400) 146097)
    ∙ ap (λ z. z -ℤ pos 719468) (add_pos (n / 400 * 146097) (day_of_era (n % 400) doy))

march_year_lem :
    (y m : ℕ) → 1 ≤ y → (if leb m 2 then pos y -ℤ pos 1 else pos y) ≡ pos (march_year y m)
unfolding ◌-ℤ◌
march_year_lem y m h = ground arith

days-count :
    (y m d : ℕ)
    → 1 ≤ y
    → days_from_civil (pos y) m d ≡ pos (count (march_year y m) (day_of_year m d)) -ℤ pos 719468
unfolding days_from_civil
days-count y m d h =
    ap (λ z. of_year z (day_of_year m d)) (march_year_lem y m h)
    ∙ of_year_pos (march_year y m) (day_of_year m d)

count_next : (y doy : ℕ) → count y (doy + 1) ≡ count y doy + 1
unfolding count
count_next y doy = omega arith

count_year : (y : ℕ) → count (y + 1) 0 ≡ count y (if is_leap (y + 1) then 365 else 364) + 1
unfolding count
count_year y = ground arith

count_leap : (y : ℕ) → 1 ≤ y → count y 0 ≡ count (y - 1) (if is_leap y then 365 else 364) + 1
unfolding count
count_leap y h = ground arith

day_of_year_next : (m d : ℕ) → 1 ≤ d → day_of_year m (d + 1) ≡ day_of_year m d + 1
day_of_year_next m d h = omega arith

abbrev plain_days : ℕ → ℕ
plain_days m = if m == 4 || m == 6 || m == 9 || m == 11 then 30 else 31

day_of_year_month :
    (m : ℕ) → 1 ≤ m → m ≤ 11 → m ≢ 2 → day_of_year (m + 1) 1 ≡ day_of_year m (plain_days m) + 1
day_of_year_month zero a b ne = absurd (omega arith)
day_of_year_month (suc zero) a b ne = refl
day_of_year_month (suc (suc zero)) a b ne = absurd (ne refl)
day_of_year_month (suc (suc (suc zero))) a b ne = refl
day_of_year_month (suc (suc (suc (suc zero)))) a b ne = refl
day_of_year_month (suc (suc (suc (suc (suc zero))))) a b ne = refl
day_of_year_month (suc (suc (suc (suc (suc (suc zero)))))) a b ne = refl
day_of_year_month (suc (suc (suc (suc (suc (suc (suc zero))))))) a b ne = refl
day_of_year_month (suc (suc (suc (suc (suc (suc (suc (suc zero)))))))) a b ne = refl
day_of_year_month (suc (suc (suc (suc (suc (suc (suc (suc (suc zero))))))))) a b ne = refl
day_of_year_month (suc (suc (suc (suc (suc (suc (suc (suc (suc (suc zero)))))))))) a b ne = refl
day_of_year_month (suc (suc (suc (suc (suc (suc (suc (suc (suc (suc (suc zero))))))))))) a b ne =
    refl
day_of_year_month (suc (suc (suc (suc (suc (suc (suc (suc (suc (suc (suc (suc m)))))))))))) a b ne =
    absurd (omega arith)

february : (y : ℕ) → day_of_year 2 (month_days y 2) ≡ (if is_leap y then 365 else 364)
february y = ground arith

-- The day after the last one of a month other than December.
month_end :
    (y m d : ℕ)
    → 1 ≤ y
    → 1 ≤ m
    → m ≤ 11
    → d ≡ month_days y m
    → count (march_year y (m + 1)) (day_of_year (m + 1) 1)
      ≡ count (march_year y m) (day_of_year m d) + 1
month_end y m d h a b e = elim (ℕ_discrete m 2) [
  | yes two ↦ rw (e, two, february y) (count_leap y h)
  | no ne ↦
      let days : month_days y m ≡ plain_days m = ground arith in
      let year : march_year y (m + 1) ≡ march_year y m = ground arith in
      rw (e, days, year, day_of_year_month m a b ne)
        (count_next (march_year y m) (day_of_year m (plain_days m)))
]

year_end :
    (y : ℕ)
    → 1 ≤ y
    → count (march_year (y + 1) 1) (day_of_year 1 1)
      ≡ count (march_year y 12) (day_of_year 12 31) + 1
year_end y h = ap (λ n. count n 306) (omega arith) ∙ count_next y 305

abbrev count_of : ℕ × ℕ × ℕ → ℕ
count_of t = count (march_year t.0 t.1) (day_of_year t.1 t.2)

-- One more day, in the terms of the count.
count_day :
    (y m d : ℕ)
    → 1 ≤ y
    → 1 ≤ m
    → m ≤ 12
    → 1 ≤ d
    → d ≤ month_days y m
    → count_of (next_day y m d) ≡ count_of (y, m, d) + 1
count_day y m d hy hm hm' hd hd' = elim (Bool-cases (ltb d (month_days y m))) [
  | inl more ↦
      let same : next_day y m d ≡ (y, m, d + 1) = rw more in
      ap count_of same
      ∙ ap (count (march_year y m)) (day_of_year_next m d hd)
      ∙ count_next (march_year y m) (day_of_year m d)
  | inr last ↦ elim (ℕ_discrete m 12) [
    | yes dec ↦
        let days : d ≡ 31 = ground arith in
        let wrap : next_day y m d ≡ (y + 1, 1, 1) = ground arith in
        ap count_of wrap ∙ year_end y hy ∙ rw (dec, days)
    | no ne ↦
        let days : d ≡ month_days y m = ground arith in
        let turn : next_day y m d ≡ (y, m + 1, 1) = ground arith in
        ap count_of turn ∙ month_end y m d hy hm (omega arith) days
  ]
]

shift : (a b : ℕ) → a ≡ b + 1 → pos a -ℤ pos 719468 ≡ pos b -ℤ pos 719468 +ℤ pos 1
shift a b e = omega (int_laws, e)

year_next : (y m d : ℕ) → 1 ≤ y → 1 ≤ (next_day y m d).0
year_next y m d h = ground arith

-- From year 1 on, the day number of the civil day after a valid date, in the Gregorian calendar, is
-- one more than the day number of that date.
pub days_from_civil-next_day :
    (y m d : ℕ)
    → 1 ≤ y
    → 1 ≤ m
    → m ≤ 12
    → 1 ≤ d
    → d ≤ month_days y m
    → let (y', m', d') = next_day y m d in
      days_from_civil (pos y') m' d' ≡ days_from_civil (pos y) m d +ℤ pos 1
days_from_civil-next_day y m d hy hm hm' hd hd' =
    let t = next_day y m d in
    days-count t.0 t.1 t.2 (year_next y m d hy)
    ∙ shift (count_of t) (count_of (y, m, d)) (count_day y m d hy hm hm' hd hd')
    ∙ ap (λ z. z +ℤ pos 1) (sym (days-count y m d hy))
