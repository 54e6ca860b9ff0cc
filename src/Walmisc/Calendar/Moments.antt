-- ===== src/Walmisc/Calendar/Moments.antt =====
-- `fmt_pg_ts` splits a timestamp without loss.
use pg_walview.Prelude.{ℕ, ◌+◌, ◌*◌, ◌<◌, ◌≡◌, arith}
use pg_walview.Prelude.Int.{
  ℤ, pos, negsuc, pos_part, neg_part, ◌+ℤ◌, ◌-ℤ◌, div_trunc, div_euclid, rem_euclid, +ℤ_parts,
}
use pg_walview.Walmisc.Calendar.{Moment, moment_of}

-- A time of day.
abbrev pub IsTime : Moment → Type 0
IsTime t = (t.hour < 24) × (t.minute < 60) × (t.second < 60) × (t.micros < 1000000)

abbrev pub second_of_day : Moment → ℕ
second_of_day t = t.hour * 3600 + t.minute * 60 + t.second

-- `pg_us` microseconds from 2000-01-01 are the moment, counted from 1970-01-01.
abbrev pub Counts : Moment → ℤ → Type 0
Counts t pg_us =
    pos_part t.days * 86400000000 + second_of_day t * 1000000 + t.micros + neg_part pg_us
    ≡ neg_part t.days * 86400000000 + 946684800000000 + pos_part pg_us

micros_parts :
    (z : ℤ)
    → (rem_euclid z 1000000 < 1000000)
      × (pos_part z + neg_part (div_euclid z 1000000) * 1000000
          ≡ neg_part z + pos_part (div_euclid z 1000000) * 1000000 + rem_euclid z 1000000)
unfolding div_euclid rem_euclid
micros_parts (pos n) = (omega arith, omega arith)
micros_parts (negsuc n) = (omega arith, omega arith)

abbrev day_of : ℤ → ℤ
day_of z = div_trunc (z -ℤ pos (rem_euclid z 86400)) 86400

day_parts :
    (z : ℤ)
    → (rem_euclid z 86400 < 86400)
      × (pos_part z + neg_part (day_of z) * 86400
          ≡ neg_part z + pos_part (day_of z) * 86400 + rem_euclid z 86400)
unfolding div_trunc rem_euclid ◌-ℤ◌
day_parts (pos n) = (omega arith, ground arith)
day_parts (negsuc n) = (omega arith, ground arith)

-- The moment that is shown for a timestamp has a time of day within its bounds, and is that many
-- microseconds from the start of the year 2000, on either side.
pub moment_of-Counts : (pg_us : ℤ) → IsTime (moment_of pg_us) × Counts (moment_of pg_us) pg_us
unfolding moment_of
moment_of-Counts pg_us =
    let (few, split) = micros_parts pg_us in
    let seconds = div_euclid pg_us 1000000 +ℤ pos 946684800 in
    let (within, day) = day_parts seconds in
    let sum = +ℤ_parts (div_euclid pg_us 1000000) (pos 946684800) in
    ((omega (arith, within), omega arith, omega arith, few), omega (arith, split, day, sum))
