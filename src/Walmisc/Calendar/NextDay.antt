-- ===== src/Walmisc/Calendar/NextDay.antt =====
-- Each day has the date after that of the day before.
use pg_walview.Prelude.{
  ℕ, suc, ◌+◌, ◌<◌, ◌≡◌, ◌≢◌, ◌∙◌, refl, sym, ap, Bool, ltb, ◌==◌, if◌then◌else◌, arith, Bool-cases,
  inl, inr, ◌⊎◌, ==→eq, lt→ltb, ltb→lt, le→ltb,
}
use pg_walview.Prelude.Int.{ℤ, pos, ◌+ℤ◌, +ℤ_parts, eq_of_parts, int_laws}
use pg_walview.Walmisc.Calendar.{month_day, civil_from_days}
use pg_walview.Walmisc.Calendar.Era.{
  leap, year_len, year_start, position, days_in_month, year_shift, month_day-suc,
}
use pg_walview.Walmisc.Calendar.Days.{
  is_leap, next_day, year_at, date_at, is_leap-year_at, times_parts, IsSplit, era_of, doe_of,
  era_of-IsSplit, IsNear, shifted, civil_at,
}

-- Only the length of February hangs on the year, and February is in the second calendar year.
month_len :
    (era : ℤ) (y m : ℕ)
    → days_in_month (is_leap (year_at era (y + year_shift m))) m ≡ days_in_month (leap (y + 1)) m
month_len era y m = elim (Bool-cases (m == 2)) [
  | inl e ↦
      let february : m ≡ 2 = ==→eq m 2 e in
      rw february (ap (λ b. days_in_month b 2) (is_leap-year_at era (y + 1)))
  | inr e ↦ rw e refl
]

-- The next day in a month of `len` days.
abbrev next_in : ℕ → ℤ → ℕ → ℕ → ℤ × ℕ × ℕ
next_in len y m d =
    if ltb d len then (y, m, d + 1) else if ltb m 12 then (y, m + 1, 1) else (y +ℤ pos 1, 1, 1)

date_ext :
    (y y' : ℤ) (m m' d d' : ℕ) → y ≡ y' → m ≡ m' → d ≡ d' → Path (ℤ × ℕ × ℕ) (y, m, d) (y', m', d')
date_ext y y' m m' d d' p q r = cc

year_at-same :
    (era : ℤ) (y m m' : ℕ)
    → year_shift m ≡ year_shift m'
    → year_at era (y + year_shift m) ≡ year_at era (y + year_shift m')
year_at-same era y m m' h = ap (λ k. year_at era (y + k)) h

new_year :
    (era : ℤ) (y m m' : ℕ)
    → m ≡ 12
    → m' ≡ 1
    → year_at era (y + year_shift m) +ℤ pos 1 ≡ year_at era (y + year_shift m')
new_year era y m m' december january =
    let next : year_at era (y + 0) +ℤ pos 1 ≡ year_at era (y + 1) = omega int_laws in
    ap (λ k. year_at era (y + k) +ℤ pos 1) {x = year_shift m} {y = 0} (ground arith)
    ∙ next
    ∙ ap (λ k. year_at era (y + k)) {x = 1} {y = year_shift m'} (ground arith)

next_in-Follows :
    (era : ℤ) (y len m d m' d' : ℕ)
    → (d < len) × (m' ≡ m) × (d' ≡ d + 1)
      ⊎ (d ≡ len) × (m < 12) × (m ≢ 2) × (m' ≡ m + 1) × (d' ≡ 1)
      ⊎ (d ≡ len) × (m ≡ 12) × (m' ≡ 1) × (d' ≡ 1)
    → next_in len (year_at era (y + year_shift m)) m d ≡ (year_at era (y + year_shift m'), m', d')
next_in-Follows era y len m d m' d' (inl (lt, em, ed)) =
    rw (lt→ltb d len lt)
      (date_ext _ _ _ _ _ _ (year_at-same era y m m' (ap year_shift (sym em))) (sym em) (sym ed))
next_in-Follows era y len m d m' d' (inr (inl (last, lt, ne, em, ed))) =
    rw (le→ltb d len (omega (arith, last)), lt→ltb m 12 lt)
      (date_ext _ _ _ _ _ _ (year_at-same era y m m' (ground arith)) (sym em) (sym ed))
next_in-Follows era y len m d m' d' (inr (inr (last, december, em, ed))) =
    rw (le→ltb d len (omega (arith, last)), le→ltb m 12 (omega (arith, december)))
      (date_ext _ _ _ _ _ _ (new_year era y m m' december em) (sym em) (sym ed))

-- Within a year from March.
within_year :
    (era : ℤ) (y doy : ℕ)
    → suc doy < year_len y
    → next_day (date_at era y doy) ≡ date_at era y (suc doy)
within_year era y doy h =
    let md = month_day doy in
    let md' = month_day (suc doy) in
    ap (λ len. next_in len (year_at era (y + year_shift md.0)) md.0 md.1) (month_len era y md.0)
    ∙ next_in-Follows era y (days_in_month (leap (y + 1)) md.0) md.0 md.1 md'.0 md'.1
        (month_day-suc (leap (y + 1)) doy h)

-- The last of February is followed by the first of March.
first_of_march : month_day 0 ≡ (3, 1)
unfolding month_day
first_of_march = refl

last_of_february :
    (b : Bool) (doy : ℕ)
    → suc doy ≡ (if b then 366 else 365)
    → month_day doy ≡ (2, days_in_month b 2)
unfolding month_day
last_of_february b doy h = ground arith

end_of_year :
    (era : ℤ) (y doy : ℕ)
    → suc doy ≡ year_len y
    → next_day (date_at era y doy) ≡ (year_at era (y + 1), 3, 1)
end_of_year era y doy h =
    let february = last_of_february (leap (y + 1)) doy h in
    let len = days_in_month (leap (y + 1)) 2 in
    ap (λ (md : ℕ × ℕ). next_day (year_at era (y + year_shift md.0), md.0, md.1)) february
    ∙ ap (λ k. next_in k (year_at era (y + 1)) 2 len) (month_len era y 2)
    ∙ rw (le→ltb len len (omega arith)) refl

-- The day after, in an era that it may begin.
IsSplit-next :
    (days era : ℤ) (doe : ℕ)
    → IsSplit (shifted days) era doe
    → doe + 1 < 146097
    → IsSplit (shifted (days +ℤ pos 1)) era (doe + 1)
IsSplit-next days era doe (small, h) room = (omega arith, omega (arith, h, +ℤ_parts))

IsSplit-era :
    (days era : ℤ)
    → IsSplit (shifted days) era 146096
    → IsSplit (shifted (days +ℤ pos 1)) (era +ℤ pos 1) 0
IsSplit-era days era (small, h) = (omega arith, omega (arith, h, +ℤ_parts))

march : (era : ℤ) (y : ℕ) → date_at era y 0 ≡ (year_at era y, 3, 1)
march era y =
    ap (λ (md : ℕ × ℕ). (year_at era (y + year_shift md.0), md.0, md.1)) first_of_march
    ∙ ap (λ k. (year_at era k, 3, 1)) {x = y + 0} {y = y} (omega arith)

next_era : (era : ℤ) → year_at era 400 ≡ year_at (era +ℤ pos 1) 0
next_era era = omega (
  arith,
  eq_of_parts (year_at era 400) (year_at (era +ℤ pos 1) 0),
  +ℤ_parts,
  times_parts era 400,
  times_parts (era +ℤ pos 1) 400,
)

room_for :
    (y doy : ℕ) (days era : ℤ)
    → IsSplit (shifted days) era (year_start y + doy)
    → y < 400
    → suc doy < year_len y
    → IsSplit (shifted (days +ℤ pos 1)) era (year_start y + suc doy)
room_for y doy days era split y_in room =
    let (small, h) = IsSplit-next days era (year_start y + doy) split (ground arith) in
    (omega (arith, small), omega (arith, h))

last_day :
    (y doy : ℕ) (days era : ℤ)
    → IsSplit (shifted days) era (year_start y + doy)
    → y ≡ 399
    → suc doy ≡ year_len y
    → IsSplit (shifted (days +ℤ pos 1)) (era +ℤ pos 1) (year_start 0 + 0)
last_day y doy days era (small, h) at last =
    let end : year_start y + doy ≡ 146096 = ground arith in
    IsSplit-era days era (omega arith, omega (arith, h, end))

new_march :
    (y doy : ℕ) (days era : ℤ)
    → IsSplit (shifted days) era (year_start y + doy)
    → y < 399
    → suc doy ≡ year_len y
    → IsSplit (shifted (days +ℤ pos 1)) era (year_start (y + 1) + 0)
new_march y doy days era split y_in last =
    let start : year_start (y + 1) ≡ year_start y + year_len y = ground arith in
    let (small, h) = IsSplit-next days era (year_start y + doy) split (ground arith) in
    (omega (arith, small, start, last), omega (arith, h, start, last))

tomorrow :
    (days era : ℤ) (y doy : ℕ)
    → IsNear (days +ℤ pos 1)
    → IsSplit (shifted days) era (year_start y + doy)
    → y < 400
    → doy < year_len y
    → civil_from_days (days +ℤ pos 1) ≡ next_day (date_at era y doy)
tomorrow days era y doy near split y_in doy_in =
    let next = days +ℤ pos 1 in
    elim (Bool-cases (ltb (suc doy) (year_len y))) [
      | inl within ↦
          let room = ltb→lt _ _ within in
          civil_at next era y (suc doy) near (room_for y doy days era split y_in room) y_in room
          ∙ sym (within_year era y doy room)
      | inr over ↦
          let last : suc doy ≡ year_len y = ground arith in
          elim (Bool-cases (y == 399)) [
            | inl e ↦
                civil_at next (era +ℤ pos 1) 0 0 near
                  (last_day y doy days era split (==→eq y 399 e) last) (omega arith) (omega arith)
                ∙ march (era +ℤ pos 1) 0
                ∙ ap (λ k. (k, 3, 1))
                    (sym (next_era era) ∙ ap (year_at era) {x = 400} {y = y + 1} (ground arith))
                ∙ sym (end_of_year era y doy last)
            | inr e ↦
                civil_at next era (y + 1) 0 near
                  (new_march y doy days era split (ground arith) last) (ground arith) (ground arith)
                ∙ march era (y + 1)
                ∙ sym (end_of_year era y doy last)
          ]
    ]

-- As long as both days are near enough to the epoch, the date of a day is the one that the Gregorian
-- calendar has after the date of the day before it.
pub civil_from_days-next :
    (days : ℤ)
    → IsNear days
    → IsNear (days +ℤ pos 1)
    → civil_from_days (days +ℤ pos 1) ≡ next_day (civil_from_days days)
civil_from_days-next days near near' =
    let z = shifted days in
    let (small, split) = era_of-IsSplit z in
    let (y, doy, y_in, doy_in, e) = position (doe_of z) small in
    let here : IsSplit z (era_of z) (year_start y + doy) =
      (omega (arith, e, small), omega (arith, e, split)) in
    tomorrow days (era_of z) y doy near' here y_in doy_in
    ∙ ap next_day (sym (civil_at days (era_of z) y doy near here y_in doy_in))
