-- ===== src/Walmisc/Calendar/Days.antt =====
-- `civil_from_days` counts the days of the Gregorian calendar.
use pg_walview.Prelude.{
  ℕ, ◌+◌, ◌*◌, ◌≤◌, ◌<◌, ◌≡◌, ◌∙◌, refl, ap, Bool, not, ◌&&◌, ◌||◌, ltb, ◌==◌, leb, if◌then◌else◌,
  arith, Bool-cases, inl, inr, ◌⊎◌,
}
use pg_walview.Prelude.Int.{
  ℤ, pos, negsuc, pos_part, neg_part, ◌+ℤ◌, ◌-ℤ◌, is_neg, times, div_trunc, rem_euclid, as_i32,
  +ℤ_parts, eq_of_parts, as_i32-id, int_laws,
}
use pg_walview.Walmisc.Calendar.{year_of_era, day_of_year, month_day, civil_from_days}
use pg_walview.Walmisc.Calendar.Era.{
  leap, year_len, year_start, year_of_era_lem, day_of_year_lem, days_in_month, year_shift,
}

-- The rule of the calendar, for years before the year 0 too.
abbrev pub is_leap : ℤ → Bool
is_leap y = (rem_euclid y 4 == 0) && (not (rem_euclid y 100 == 0) || (rem_euclid y 400 == 0))

-- The day after a date.
abbrev pub next_day : ℤ × ℕ × ℕ → ℤ × ℕ × ℕ
next_day (y, m, d) =
    if ltb d (days_in_month (is_leap y) m)
    then (y, m, d + 1)
    else if ltb m 12
    then (y, m + 1, 1)
    else (y +ℤ pos 1, 1, 1)

-- A year is counted from its era.
abbrev pub year_at : ℤ → ℕ → ℤ
year_at era y = pos y +ℤ times era 400

-- The date of a day of an era.
abbrev pub date_at : ℤ → ℕ → ℕ → ℤ × ℕ × ℕ
date_at era y doy = let (m, d) = month_day doy in (year_at era (y + year_shift m), m, d)

pub is_leap-year_at : (era : ℤ) (y : ℕ) → is_leap (year_at era y) ≡ leap y
unfolding ◌+ℤ◌ times rem_euclid
is_leap-year_at (pos n) y = ground arith
is_leap-year_at (negsuc n) y = ground arith

pub times_parts :
    (z : ℤ) (n : ℕ) → pos_part (times z n) + neg_part z * n ≡ neg_part (times z n) + pos_part z * n
unfolding times
times_parts z n = ground arith

-- What the code takes for the era, and the day of it.
abbrev pub era_of : ℤ → ℤ
era_of z = div_trunc (if is_neg z then z -ℤ pos 146096 else z) 146097

abbrev pub doe_of : ℤ → ℕ
doe_of z = pos_part (z -ℤ times (era_of z) 146097)

abbrev pub IsSplit : ℤ → ℤ → ℕ → Type 0
IsSplit z era doe =
    (doe < 146097) × (pos_part z + neg_part era * 146097 ≡ neg_part z + pos_part era * 146097 + doe)

pub era_of-IsSplit : (z : ℤ) → IsSplit z (era_of z) (doe_of z)
unfolding div_trunc ◌-ℤ◌ times
era_of-IsSplit (pos n) = ground arith
era_of-IsSplit (negsuc n) = ground arith

split_unique : (z e e' : ℤ) (d d' : ℕ) → IsSplit z e d → IsSplit z e' d' → (e ≡ e') × (d ≡ d')
split_unique z e e' d d' (small, h) (small', h') =
    (eq_of_parts e e' (omega (arith, h, h')), omega (arith, h, h'))

-- The dates of 64-bit timestamps lie well within this.
abbrev pub IsNear : ℤ → Type 0
IsNear days = (pos_part days < 700000000000) × (neg_part days < 700000000000)

abbrev pub shifted : ℤ → ℤ
shifted days = days +ℤ pos 719468

one_part : (z : ℤ) → (pos_part z ≡ 0) ⊎ (neg_part z ≡ 0)
one_part (pos n) = inr refl
one_part (negsuc n) = inl refl

as_i32-year_at :
    (days era : ℤ) (y doe : ℕ)
    → IsNear days
    → IsSplit (shifted days) era doe
    → y ≤ 400
    → as_i32 (year_at era y) ≡ year_at era y
as_i32-year_at days era y doe (p, n) (small, h) few =
    let sum = +ℤ_parts (pos y) (times era 400) in
    let parts = times_parts era 400 in
    let moved = +ℤ_parts days (pos 719468) in
    let side = one_part (year_at era y) in
    let side' = one_part era in as_i32-id (year_at era y) (ground arith) (ground arith)

year_at-shift :
    (era : ℤ) (y m : ℕ)
    → (if leb m 2 then year_at era y +ℤ pos 1 else year_at era y) ≡ year_at era (y + year_shift m)
year_at-shift era y m = elim (Bool-cases (leb m 2)) [
  | inl e ↦ rw e (omega int_laws)
  | inr e ↦ rw e (omega int_laws)
]

-- The end of the code, from the era, the year of it and the day of that.
abbrev date_of : ℤ → ℕ → ℕ → ℤ × ℕ × ℕ
date_of era yoe doy =
    let (m, d) = month_day doy in
    let y = pos yoe +ℤ times era 400 in (as_i32 (if leb m 2 then y +ℤ pos 1 else y), m, d)

date_of-date_at :
    (days era : ℤ) (y doy : ℕ)
    → IsNear days
    → IsSplit (shifted days) era (year_start y + doy)
    → y < 400
    → date_of era y doy ≡ date_at era y doy
date_of-date_at days era y doy near split y_in =
    let (m, d) = month_day doy in
    ap (λ k. (k, m, d))
      (ap as_i32 (year_at-shift era y m)
        ∙ as_i32-year_at days era (y + year_shift m) (year_start y + doy) near split (ground arith))

pub civil_at :
    (days era : ℤ) (y doy : ℕ)
    → IsNear days
    → IsSplit (shifted days) era (year_start y + doy)
    → y < 400
    → doy < year_len y
    → civil_from_days days ≡ date_at era y doy
unfolding civil_from_days
civil_at days era y doy near split y_in doy_in =
    let z = shifted days in
    let (same_era, same_doe) =
      split_unique z (era_of z) era (doe_of z) (year_start y + doy) (era_of-IsSplit z) split in
    let same_y : year_of_era (doe_of z) ≡ y =
      ap year_of_era same_doe ∙ year_of_era_lem y doy y_in doy_in in
    let same_doy : day_of_year (doe_of z) (year_of_era (doe_of z)) ≡ doy =
      ap (λ d. day_of_year d (year_of_era (doe_of z))) same_doe
      ∙ ap (day_of_year (year_start y + doy)) same_y
      ∙ day_of_year_lem y doy in
    ap (λ e. date_of e (year_of_era (doe_of z)) (day_of_year (doe_of z) (year_of_era (doe_of z))))
      same_era
    ∙ ap (λ k. date_of era k (day_of_year (doe_of z) (year_of_era (doe_of z)))) same_y
    ∙ ap (date_of era y) same_doy
    ∙ date_of-date_at days era y doy near split y_in
