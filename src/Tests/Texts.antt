-- ===== src/Tests/Texts.antt =====
-- Dates, times and command lines.
use Prim.Native.String.{String}
use pg_walview.Prelude.{◌≡◌, ◌↔◌, refl, List, [], ◌∷◌, arith, inr}
use pg_walview.Prelude.Digits.{codes, decimal}
use pg_walview.Prelude.Int.{
  pos, negsuc, ◌+ℤ◌, ◌-ℤ◌, times, div_trunc, div_euclid, rem_euclid, as_i32, as_i64,
}
use pg_walview.Walmisc.Calendar.{
  civil_from_days, year_of_era, day_of_year, month_day, moment_of, fmt_pg_ts,
}
use pg_walview.Walmisc.Calendar.Days.{next_day}
use pg_walview.Walmisc.Calendar.NextDay.{civil_from_days-next}
use pg_walview.Walmisc.Calendar.Moments.{IsTime, Counts, moment_of-Counts}
use pg_walview.CommandLine.{
  open_file, accepted, unknown_option, is_help, is_version, is_option, parse_args,
}
use pg_walview.CommandLine.Options.{IsFile, parse_args-option, parse_args-open}

calendar : Unit {0}
unfolding civil_from_days as_i32 as_i64 month_day rem_euclid day_of_year ◌-ℤ◌ ◌+ℤ◌ times div_trunc
    div_euclid year_of_era fmt_pg_ts moment_of decimal
calendar = tt

-- The Unix epoch, a leap day, and the day before the year 0.
dates :
    (civil_from_days (pos 0) ≡ (pos 1970, 1, 1))
    × (civil_from_days (pos 19782) ≡ (pos 2024, 2, 29))
    × (civil_from_days (negsuc 719528) ≡ (negsuc 0, 12, 31))
unfolding calendar
dates = (refl, refl, refl)

texts :
    (fmt_pg_ts (pos 0) ≡ codes "2000-01-01 00:00:00 UTC")
    × (fmt_pg_ts (pos 762490231000042) ≡ codes "2024-02-29 02:50:31.000042 UTC")
unfolding calendar
texts = (refl, refl)

civil_from_days-next_example :
    civil_from_days (pos 19781 +ℤ pos 1) ≡ next_day (civil_from_days (pos 19781))
unfolding ◌+ℤ◌
civil_from_days-next_example = civil_from_days-next (pos 19781) (omega arith) (omega arith)

moment_of-Counts_example :
    IsTime (moment_of (negsuc 41)) × Counts (moment_of (negsuc 41)) (negsuc 41)
moment_of-Counts_example = moment_of-Counts (negsuc 41)

-- An unknown option before `--help` is an error.
parse_args-option_example :
    parse_args ("pg_walview" ∷ "--bogus" ∷ "--help" ∷ []) ≡ unknown_option "--bogus"
unfolding is_option is_help is_version
parse_args-option_example =
    parse_args-option "pg_walview" "--bogus" [] ("--help" ∷ []) (omega arith) tt (inr (inr refl))

parse_args-open_example :
    (parse_args ("pg_walview" ∷ "a" ∷ []) ≡ accepted (open_file "a"))
    ↔ (Path (List String) ("a" ∷ []) ("a" ∷ []) × IsFile "a")
parse_args-open_example = parse_args-open "pg_walview" "a" ("a" ∷ [])
