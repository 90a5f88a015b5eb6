-- ===== src/Time/Calendar.antt =====
-- kernel/systime.c: the table of month starts, the count of days since 1980 and the way back, which
-- DosGetDate and the driver of kernel/sysclk.c each spell out.
use burdah_dos_system.Base.{
  ℕ, zero, suc, ◌+◌, ◌-◌, ◌*◌, ◌/◌, ◌%◌, ◌||◌, not, List, [], ◌∷◌, ltb, leb, ◌==◌, if◌then◌else◌,
  get_or, Option, none, some,
}

abbrev pub word : ℕ
word = 0x10000

-- `days[0]` and `days[1]`
abbrev pub common_days : List ℕ
common_days = 0 ∷ 31 ∷ 59 ∷ 90 ∷ 120 ∷ 151 ∷ 181 ∷ 212 ∷ 243 ∷ 273 ∷ 304 ∷ 334 ∷ 365 ∷ []

abbrev pub leap_days : List ℕ
leap_days = 0 ∷ 31 ∷ 60 ∷ 91 ∷ 121 ∷ 152 ∷ 182 ∷ 213 ∷ 244 ∷ 274 ∷ 305 ∷ 335 ∷ 366 ∷ []

-- `y & 3` is the remainder by 4.
unfoldable pub is_leap_year_monthdays : ℕ → List ℕ
is_leap_year_monthdays y = if not (y % 4 == 0) || y == 2100 then common_days else leap_days

-- `pdays[i]`
abbrev pub at : List ℕ → ℕ → ℕ
at pdays i = get_or pdays i 0

unfoldable pub days_from_year_month_day : ℕ → ℕ → ℕ → ℕ
unfolding is_leap_year_monthdays
days_from_year_month_day year month day_of_month =
    if ltb year 1980
    then 0
    else (day_of_month
        + word
        - 1
        + at (is_leap_year_monthdays year) (month - 1)
        + (year - 1980) * 365
        + (year - 1980 + 3) / 4)
      % word

-- The loop over the years: the year that the day falls in and its place there.
unfoldable pub year_loop : ℕ → ℕ → ℕ → Option (ℕ × ℕ)
unfolding is_leap_year_monthdays
year_loop zero year c = none
year_loop (suc f) year c =
    let length_of = at (is_leap_year_monthdays year) 12 in
    let rest = year_loop f (suc year) (c - length_of) in
    if leb length_of c then rest else some (year, c)

-- The loop over the months of DosGetDate.
unfoldable pub month_loop : ℕ → List ℕ → ℕ → ℕ → Option ℕ
month_loop zero pdays month c = none
month_loop (suc f) pdays month c =
    let rest = month_loop f pdays (suc month) c in
    if leb (at pdays month) c then rest else some month

-- The loop over the months of the driver, which ends at 13: the month and the day in it, or the
-- month 13 and the day as it was.
unfoldable pub driver_month_loop : ℕ → List ℕ → ℕ → ℕ → ℕ × ℕ
driver_month_loop zero pdays month day = (month, day)
driver_month_loop (suc f) pdays month day =
    let rest = driver_month_loop f pdays (suc month) day in
    if ltb day (at pdays month)
    then (month, (day + word - at pdays (month - 1) + 1) % word)
    else rest
