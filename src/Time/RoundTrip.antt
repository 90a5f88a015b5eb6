-- ===== src/Time/RoundTrip.antt =====
-- kernel/systime.c, kernel/sysclk.c: a date that is set is the date that is read.
use burdah_dos_system.Base.{
  ℕ, zero, suc, ◌+◌, ◌-◌, ◌%◌, ◌≤◌, ◌<◌, ◌≡◌, refl, ap, ◌∙◌, some, List, ltb, leb, if◌then◌else◌,
  arith,
}
use burdah_dos_system.Time.Calendar.{
  word, at, is_leap_year_monthdays, days_from_year_month_day, year_loop, month_loop,
  driver_month_loop,
}
use burdah_dos_system.Time.Table.{
  IsSorted, monthdays-IsSorted, sorted_le, IsDate, IsDate-IsIn, found_year, month_length,
}
use burdah_dos_system.Time.Clock.{year_fuel, driver_date}
use burdah_dos_system.Time.Clock.Calls.{date_of, DosDate}

month_loop_step :
    (f : ℕ) (pdays : List ℕ) (m c : ℕ)
    → month_loop (suc f) pdays m c
      ≡ (if leb (at pdays m) c then month_loop f pdays (suc m) c else some m)
unfolding month_loop
month_loop_step f pdays m c = refl

month_loop-at :
    (f : ℕ) (pdays : List ℕ) (m k last c : ℕ)
    → IsSorted pdays
    → m + k ≡ last
    → last < 13
    → 0 < m
    → k < f
    → at pdays (last - 1) ≤ c
    → c < at pdays last
    → month_loop f pdays m c ≡ some last
month_loop-at zero pdays m k last c s e b z d lo hi = absurd (omega arith)
month_loop-at (suc f) pdays m zero last c s e b z d lo hi =
    let same : m ≡ last = omega arith in rw (same, month_loop_step f pdays last c) (ground arith)
month_loop-at (suc f) pdays m (suc k) last c s e b z d lo hi =
    let below = sorted_le pdays m (last - 1) s (omega arith) (omega arith) in
    let rest =
      month_loop-at f pdays (suc m) k last c s (omega arith) b (omega arith) (omega arith) lo hi in
    ground (arith, month_loop_step f pdays m c)

found_month :
    (y m d : ℕ)
    → 1 ≤ m
    → m ≤ 12
    → 1 ≤ d
    → d ≤ at (is_leap_year_monthdays y) m - at (is_leap_year_monthdays y) (m - 1)
    → month_loop 12 (is_leap_year_monthdays y) 1 (at (is_leap_year_monthdays y) (m - 1) + d - 1)
      ≡ some m
found_month y m d c e f g =
    month_loop-at 12 (is_leap_year_monthdays y) 1 (m - 1) m
      (at (is_leap_year_monthdays y) (m - 1) + d - 1) (monthdays-IsSorted y) (omega arith)
      (omega arith) (omega arith) (omega arith) (omega arith) (omega arith)

date_of-found :
    (days y c m : ℕ)
    → year_loop year_fuel 1980 days ≡ some (y, c)
    → month_loop 12 (is_leap_year_monthdays y) 1 c ≡ some m
    → date_of days
      ≡ some (record {
        year = y;
        month = m;
        monthday = (c - at (is_leap_year_monthdays y) (m - 1) + 1) % 256;
      })
unfolding date_of
date_of-found days y c m h k = ground arith

-- The day that a valid date counts as is the day that the date is found for.
pub date_of-days_from_year_month_day :
    (dd : DosDate)
    → IsDate dd
    → date_of (days_from_year_month_day dd.year dd.month dd.monthday) ≡ some dd
date_of-days_from_year_month_day dd h =
    let i = IsDate-IsIn dd h in
    let short = month_length dd.year dd.month i.month_low i.month_high in
    let day : (at (is_leap_year_monthdays dd.year) (dd.month - 1)
            + dd.monthday
            - 1
            - at (is_leap_year_monthdays dd.year) (dd.month - 1)
            + 1)
          % 256
        ≡ dd.monthday =
      ground (arith, i.day_low, i.day_high) in
    date_of-found (days_from_year_month_day dd.year dd.month dd.monthday) dd.year
      (at (is_leap_year_monthdays dd.year) (dd.month - 1) + dd.monthday - 1) dd.month
      (found_year dd.year dd.month dd.monthday i.year_low i.year_high i.month_low i.month_high
        i.day_low i.day_high)
      (found_month dd.year dd.month dd.monthday i.month_low i.month_high i.day_low i.day_high)
    ∙ rw day refl

driver_month_loop_step :
    (f : ℕ) (pdays : List ℕ) (m c : ℕ)
    → driver_month_loop (suc f) pdays m c ≡ (
        if ltb c (at pdays m)
        then (m, (c + word - at pdays (m - 1) + 1) % word)
        else driver_month_loop f pdays (suc m) c)
unfolding driver_month_loop
driver_month_loop_step f pdays m c = refl

driver_month_loop-at :
    (f : ℕ) (pdays : List ℕ) (m k last c : ℕ)
    → IsSorted pdays
    → m + k ≡ last
    → last < 13
    → 0 < m
    → k < f
    → at pdays (last - 1) ≤ c
    → c < at pdays last
    → driver_month_loop f pdays m c ≡ (last, (c + word - at pdays (last - 1) + 1) % word)
driver_month_loop-at zero pdays m k last c s e b z d lo hi = absurd (omega arith)
driver_month_loop-at (suc f) pdays m zero last c s e b z d lo hi =
    let same : m ≡ last = omega arith in
    rw (same, driver_month_loop_step f pdays last c) (ground arith)
driver_month_loop-at (suc f) pdays m (suc k) last c s e b z d lo hi =
    let below = sorted_le pdays m (last - 1) s (omega arith) (omega arith) in
    let rest =
      driver_month_loop-at f pdays (suc m) k last c s (omega arith) b (omega arith) (omega arith) lo
        hi in
    ground (arith, driver_month_loop_step f pdays m c)

driver_date-found :
    (days y c m d : ℕ)
    → year_loop year_fuel 1980 days ≡ some (y, c)
    → driver_month_loop 12 (is_leap_year_monthdays y) 1 c ≡ (m, d)
    → driver_date days ≡ some (y, m, d)
unfolding driver_date
driver_date-found days y c m d h k = ground arith

-- The driver finds for the day that a valid date counts as the year, the month and the day of that
-- date.
pub driver_date-days_from_year_month_day :
    (dd : DosDate)
    → IsDate dd
    → driver_date (days_from_year_month_day dd.year dd.month dd.monthday)
      ≡ some (dd.year, dd.month, dd.monthday)
driver_date-days_from_year_month_day dd h =
    let i = IsDate-IsIn dd h in
    let short = month_length dd.year dd.month i.month_low i.month_high in
    let pdays = is_leap_year_monthdays dd.year in
    let start = at pdays (dd.month - 1) in
    let day : (start + dd.monthday - 1 + word - start + 1) % word ≡ dd.monthday =
      ground (arith, i.day_low, i.day_high) in
    driver_date-found (days_from_year_month_day dd.year dd.month dd.monthday) dd.year
      (start + dd.monthday - 1) dd.month dd.monthday
      (found_year dd.year dd.month dd.monthday i.year_low i.year_high i.month_low i.month_high
        i.day_low i.day_high)
      (driver_month_loop-at 12 pdays 1 (dd.month - 1) dd.month (start + dd.monthday - 1)
          (monthdays-IsSorted dd.year) (omega (arith, i.month_low)) (omega (arith, i.month_high))
          (omega arith) (omega (arith, i.month_high)) (omega (arith, i.day_low))
          (omega (arith, i.day_low, i.day_high))
        ∙ ap (λ n. (dd.month, n)) day)
