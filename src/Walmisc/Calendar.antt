-- ===== src/Walmisc/Calendar.antt =====
-- `civil_from_days` and `fmt_pg_ts` of src/walmisc.rs. An `i64` is an integer: no sum here leaves its
-- range, since the days of a timestamp lie within 107 million of the epoch.
pub mod Era
pub mod Days
pub mod NextDay
pub mod Moments
use pg_walview.Prelude.{
  ℕ, suc, ◌+◌, ◌-◌, ◌*◌, ◌/◌, ◌%◌, List, ◌∷◌, ◌++◌, ltb, leb, ◌==◌, if◌then◌else◌, u32_mod,
}
use pg_walview.Prelude.Digits.{codes, decimal}
use pg_walview.Prelude.Int.{
  ℤ, pos, negsuc, pos_part, ◌+ℤ◌, ◌-ℤ◌, is_neg, times, div_trunc, div_euclid, rem_euclid, as_i32,
}

-- The year of the era, which begins in March, and the day of that year.
unfoldable pub year_of_era : ℕ → ℕ
year_of_era doe = (doe - doe / 1460 + doe / 36524 - doe / 146096) / 365

unfoldable pub day_of_year : ℕ → ℕ → ℕ
day_of_year doe yoe = doe - (365 * yoe + yoe / 4 - yoe / 100)

-- The month, and the day of the month.
unfoldable pub month_day : ℕ → ℕ × ℕ
month_day doy =
    let mp = (5 * doy + 2) / 153 in
    let d = doy - (153 * mp + 2) / 5 + 1 in let m = if ltb mp 10 then mp + 3 else mp - 9 in (m, d)

-- `doe as u64` is the number itself, which is never negative.
unfoldable pub civil_from_days : ℤ → ℤ × ℕ × ℕ
civil_from_days days =
    let z = days +ℤ pos 719468 in
    let era = div_trunc (if is_neg z then z -ℤ pos 146096 else z) 146097 in
    let doe = pos_part (z -ℤ times era 146097) in
    let yoe = year_of_era doe in
    let (m, d) = month_day (day_of_year doe yoe) in
    let y = pos yoe +ℤ times era 400 in (as_i32 (if leb m 2 then y +ℤ pos 1 else y), m, d)

-- The variables of `fmt_pg_ts`: the day and the time of it.
pub record Moment : Type 0 where
  pub days : ℤ
  pub hour : ℕ
  pub minute : ℕ
  pub second : ℕ
  pub micros : ℕ

unfoldable pub moment_of : ℤ → Moment
moment_of pg_us =
    let unix_secs = div_euclid pg_us 1000000 +ℤ pos 946684800 in
    let rem = rem_euclid unix_secs 86400 in
    record {
      days = div_trunc (unix_secs -ℤ pos rem) 86400;
      hour = rem / 3600;
      minute = rem % 3600 / 60;
      second = rem % 60;
      micros = rem_euclid pg_us 1000000;
    }

-- `{:0<width>}` of a signed number: the sign counts.
abbrev signed_decimal : ℕ → ℤ → List ℕ
signed_decimal width (pos n) = decimal width n
signed_decimal width (negsuc n) = b'-' ∷ decimal (width - 1) (suc n)

abbrev date_text : ℤ × ℕ × ℕ → List ℕ
date_text (year, month, day) =
    signed_decimal 4 year ++ codes "-" ++ decimal 2 month ++ codes "-" ++ decimal 2 day

abbrev time_text : Moment → List ℕ
time_text t = decimal 2 t.hour ++ codes ":" ++ decimal 2 t.minute ++ codes ":" ++ decimal 2 t.second

unfoldable pub fmt_pg_ts : ℤ → List ℕ
fmt_pg_ts pg_us =
    let t = moment_of pg_us in
    let text = date_text (civil_from_days t.days) ++ codes " " ++ time_text t in
    if t.micros == 0
    then text ++ codes " UTC"
    else text ++ codes "." ++ decimal 6 t.micros ++ codes " UTC"
