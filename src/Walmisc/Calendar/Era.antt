-- ===== src/Walmisc/Calendar/Era.antt =====
-- The arithmetic of an era of 400 years: which year and which day of it a day of the era is.
use pg_walview.Prelude.{
  ℕ, zero, suc, ◌+◌, ◌-◌, ◌*◌, ◌/◌, ◌%◌, ◌<◌, ◌≡◌, Bool, not, ◌&&◌, ◌||◌, ltb, ◌==◌, leb,
  if◌then◌else◌, arith, Bool-cases, inl, inr, ◌⊎◌, ◌≢◌,
}
use pg_walview.Walmisc.Calendar.{year_of_era, day_of_year, month_day}

-- The rule of the Gregorian calendar.
abbrev pub leap : ℕ → Bool
leap y = (y % 4 == 0) && (not (y % 100 == 0) || (y % 400 == 0))

-- A year from March to February has the leap day of the year in which it ends.
abbrev pub year_len : ℕ → ℕ
year_len y = if leap (y + 1) then 366 else 365

abbrev pub year_start : ℕ → ℕ
year_start y = 365 * y + y / 4 - y / 100

pub year_of_era_lem :
    (y doy : ℕ) → y < 400 → doy < year_len y → year_of_era (year_start y + doy) ≡ y
unfolding year_of_era
year_of_era_lem y doy h k = ground arith

pub day_of_year_lem : (y doy : ℕ) → day_of_year (year_start y + doy) y ≡ doy
unfolding day_of_year
day_of_year_lem y doy = omega arith

pub year_start-suc : (y : ℕ) → y < 399 → year_start (suc y) ≡ year_start y + year_len y
year_start-suc y h = ground arith

-- A day of an era has its year and its day of that year.
abbrev pub Position : ℕ → Type 0
Position doe = (y : ℕ) × (doy : ℕ) × (y < 400) × (doy < year_len y) × (doe ≡ year_start y + doy)

pub position : (doe : ℕ) → doe < 146097 → Position doe
position zero h = (0, 0, omega arith, omega arith, omega arith)
position (suc doe) h =
    let (y, doy, y_in, doy_in, e) = position doe (omega arith) in
    elim (Bool-cases (ltb (suc doy) (year_len y))) [
      | inl within ↦ (y, suc doy, y_in, ground arith, omega (arith, e))
      | inr over ↦
          (suc y, 0, ground arith, ground arith, ground (arith, year_start-suc y (ground arith)))
    ]

-- The months of a year.
abbrev pub days_in_month : Bool → ℕ → ℕ
days_in_month is_leap m =
    if m == 2
    then (if is_leap then 29 else 28)
    else if (m == 4) || (m == 6) || (m == 9) || (m == 11)
    then 30
    else 31

-- January and February belong to the calendar year after the one that began in March.
abbrev pub year_shift : ℕ → ℕ
year_shift m = if leb m 2 then 1 else 0

-- From a day to the next one of the same year from March.
abbrev pub Follows : Bool → ℕ × ℕ → ℕ × ℕ → Type 0
Follows is_leap (m, d) (m', d') =
    (d < days_in_month is_leap m) × (m' ≡ m) × (d' ≡ d + 1)
    ⊎ (d ≡ days_in_month is_leap m) × (m < 12) × (m ≢ 2) × (m' ≡ m + 1) × (d' ≡ 1)
    ⊎ (d ≡ days_in_month is_leap m) × (m ≡ 12) × (m' ≡ 1) × (d' ≡ 1)

abbrev next_day_of : Bool → ℕ × ℕ → ℕ × ℕ
next_day_of is_leap (m, d) =
    if ltb d (days_in_month is_leap m) then (m, d + 1) else if ltb m 12 then (m + 1, 1) else (1, 1)

pub month_day-suc :
    (is_leap : Bool) (doy : ℕ)
    → suc doy < (if is_leap then 366 else 365)
    → Follows is_leap (month_day doy) (month_day (suc doy))
unfolding month_day
month_day-suc is_leap doy h = ground arith
